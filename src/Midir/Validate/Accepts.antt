-- ===== src/Midir/Validate/Accepts.antt =====
-- What a module that `validate` accepts is like: its functions, their blocks and their jumps.
use bet.Prelude.{
  ℕ, ◌%◌, ◌^◌, ◌<◌, ◌≤◌, ◌≡◌, refl, sym, subst, some, List, [], ◌∷◌, All, append-All, get_elem?-All,
  ◌==◌, ==_iff, ltb, ltb→lt, arith, length, get_elem?,
}
use bet.Midir.Ir.{
  Place, Stmt, Terminator, goto, branch, switch, holla_check, return, panic, unreachable, Block,
  Func,
}
use bet.Midir.Module.{Module}
use bet.Midir.Dominators.{preds_row}
use bet.Midir.Cfg.{targets, successors, compute_preds}
use bet.Midir.Guards.{check_downcast_guards}
use bet.Midir.Guards.Sites.{DowncastSite}
use bet.Midir.Guards.Occurs.{Occurs}
use bet.Midir.Guards.Accepted.{Guarded, check_downcast_guards_sound}
use bet.Midir.Validate.Report.{bad_target, bad_entry, return_arity, Checked, checked, ◌>>=◌, pure}
use bet.Midir.Validate.Values.{expect_that}
use bet.Midir.Validate.Places.{place_kind}
use bet.Midir.Validate.{
  target, case_targets, check_term, check_stmt, check_stmts, check_blocks, unguarded_errors,
  check_body, check_func, check_funcs, validate,
}
use bet.Midir.Validate.Clean.{bind-pure, expect_that-pure}
use bet.Midir.Validate.Operands.{stmt_operands, term_operands}
use bet.Midir.Validate.Reads.{AllOk, first_ok, check_stmt_lem, check_term_lem}

module _ (m : Module) (f : Func) where
  -- A `Return` has as many values as the function declares.
  abbrev pub ReturnFits : Terminator → Type 0
  ReturnFits (return vals) = length vals ≡ length f.rets
  ReturnFits _ = Unit

  pub record BlockOk (b : Block) : Type 0 where
    pub reads : All (λ s. AllOk m f (stmt_operands s)) b.stmts
    pub ends : AllOk m f (term_operands b.term)
    pub jumps : All (λ t. t < length f.blocks) (successors b.term)
    pub returns : ReturnFits b.term

  pub record FuncOk : Type 0 where
    pub nonempty : 0 < length f.blocks
    pub entry_in : f.entry < length f.blocks
    pub blocks_ok : All BlockOk f.blocks
    pub quiet : check_downcast_guards f ≡ []

  module _ (block n : ℕ) where
    target_lem : (bb : ℕ) (u : Unit {0}) → target m f block n bb ≡ pure u → bb < n
    target_lem bb u h = ltb→lt bb n (expect_that-pure (ltb bb n) (bad_target f.name block bb) u h)

    -- A target that is checked first.
    target_first :
        (bb : ℕ) (k : Unit {0} → Checked (Unit {0})) (u : Unit {0})
        → (target m f block n bb >>= k) ≡ pure u
        → (bb < n) × ((w : Unit {0}) × (k w ≡ pure u))
    target_first bb k u h =
        let a = bind-pure (target m f block n bb) k u h in (target_lem bb a.0 a.1, (a.0, a.2))

    case_targets_lem :
        (cases : List (ℕ × ℕ)) (u : Unit {0})
        → case_targets m f block n cases ≡ pure u
        → All (λ t. t < n) (targets cases)
    case_targets_lem [] u h = tt
    case_targets_lem (c ∷ cases) u h =
        let a = target_first c.1 (λ w. case_targets m f block n cases) u h in
        (a.0, case_targets_lem cases u a.1.1)

    check_term-targets :
        (t : Terminator) (u : Unit {0})
        → check_term m f block n t ≡ pure u
        → All (λ s. s < n) (successors t) × ReturnFits t
    unfolding check_term successors
    check_term-targets (goto bb) u h = ((target_lem bb u h, tt), tt)
    check_term-targets (branch cond then_bb else_bb) u h =
        let a = first_ok m f cond _ u h in
        let b = target_first then_bb _ u a.1.1 in ((b.0, (target_lem else_bb u b.1.1, tt)), tt)
    check_term-targets (switch scrutinee cases default) u h =
        let a = first_ok m f scrutinee _ u h in
        let b =
          bind-pure (case_targets m f block n cases) (λ w. target m f block n default) u a.1.1 in
        (
          append-All (λ s. s < n) (targets cases) (default ∷ []) (case_targets_lem cases b.0 b.1)
              (target_lem default u b.2, tt),
          tt,
        )
    check_term-targets (holla_check tag crib resolved live dead) u h =
        let a = first_ok m f tag _ u h in
        let b = first_ok m f crib _ u a.1.1 in
        let c = bind-pure (place_kind m f resolved) _ u b.1.1 in
        let d = target_first live _ u c.2 in
        let e = target_first dead _ u d.1.1 in ((d.0, (e.0, tt)), tt)
    check_term-targets (return vals) u h =
        let a =
          bind-pure
            (expect_that (length vals == length f.rets)
              (return_arity f.name block (length vals) (length f.rets)))
            _ u h in
        (tt, (==_iff (length vals) (length f.rets)).0 (expect_that-pure _ _ a.0 a.1))
    check_term-targets (panic op) u h = (tt, tt)
    check_term-targets unreachable u h = (tt, tt)

  check_stmts_lem :
      (ss : List Stmt) (u : Unit {0})
      → check_stmts m f ss ≡ pure u
      → All (λ s. AllOk m f (stmt_operands s)) ss
  check_stmts_lem [] u h = tt
  check_stmts_lem (s ∷ ss) u h =
      let a = bind-pure (check_stmt m f s) (λ w. check_stmts m f ss) u h in
      (check_stmt_lem m f s a.0 a.1, check_stmts_lem ss u a.2)

  All-weaken : (n k : ℕ) (ts : List ℕ) → n ≤ k → All (λ t. t < n) ts → All (λ t. t < k) ts
  All-weaken n k [] le a = tt
  All-weaken n k (t ∷ ts) le a = (omega arith, All-weaken n k ts le a.1)

  check_blocks_lem :
      (n : ℕ) (bs : List Block) (u : Unit {0})
      → n ≤ length f.blocks
      → check_blocks m f n bs ≡ pure u
      → All BlockOk bs
  unfolding check_blocks
  check_blocks_lem n [] u le h = tt
  check_blocks_lem n (b ∷ bs) u le h =
      let a = bind-pure (check_stmts m f b.stmts) _ u h in
      let c = bind-pure (check_term m f b.id n b.term) (λ w. check_blocks m f n bs) u a.2 in
      let d = check_term-targets b.id n b.term c.0 c.1 in
      (
        record {
          reads = check_stmts_lem b.stmts a.0 a.1;
          ends = check_term_lem m f b.id n b.term c.0 c.1;
          jumps = All-weaken n (length f.blocks) (successors b.term) le d.0;
          returns = d.1;
        },
        check_blocks_lem n bs u le c.2,
      )

  unguarded_none : (sites : List DowncastSite) → unguarded_errors m f sites ≡ [] → sites ≡ []
  unguarded_none [] h = refl
  unguarded_none (s ∷ sites) h = cc

  pub check_func_sound : (u : Unit {0}) → check_func m f ≡ pure u → FuncOk
  unfolding check_func
  check_func_sound u h = go f.blocks refl h
    where
      go : (bs : List Block) → f.blocks ≡ bs → check_body m f bs ≡ pure u → FuncOk
      go [] e h = cc
      go (b ∷ bs) e h =
          let n = length f.blocks % 2 ^ 32 in
          let a = bind-pure (expect_that (ltb f.entry n) (bad_entry f.name f.entry)) _ u h in
          let c =
            bind-pure (check_blocks m f n (b ∷ bs))
              (λ w. checked (unguarded_errors m f (check_downcast_guards f)) tt) u a.2 in
          let low = ltb→lt f.entry n (expect_that-pure _ _ a.0 a.1) in
          let inside : f.entry < length f.blocks = omega arith in
          let quiet : unguarded_errors m f (check_downcast_guards f) ≡ [] = cc in
          record {
            nonempty = omega arith;
            entry_in = inside;
            blocks_ok =
                subst (λ xs. All BlockOk xs) (sym e)
                  (check_blocks_lem n (b ∷ bs) c.0 (omega arith) c.1);
            quiet = unguarded_none (check_downcast_guards f) quiet;
          }

check_funcs_lem :
    (m : Module) (fs : List Func) (u : Unit {0}) → check_funcs m fs ≡ pure u → All (FuncOk m) fs
check_funcs_lem m [] u h = tt
check_funcs_lem m (f ∷ fs) u h =
    let a = bind-pure (check_func m f) (λ w. check_funcs m fs) u h in
    (check_func_sound m f a.0 a.1, check_funcs_lem m fs u a.2)

-- Where `validate` returns without an error, every function of the module has a block and an entry in
-- range, the targets of every terminator are blocks of the function, a `Return` has as many values as
-- the function declares, every operand that a statement or a terminator reads is well typed by the rules
-- of Typing, as are the places that are assigned or whose address is taken, and
-- `check_downcast_guards` reports nothing.
pub validate_sound : (m : Module) → validate m ≡ pure tt → All (FuncOk m) m.funcs
unfolding validate
validate_sound m h =
    let a = bind-pure (check_funcs m m.funcs) _ tt h in check_funcs_lem m m.funcs a.0 a.1

-- Where `validate` returns without an error: for every function of the module whose entry block no block
-- jumps to, every `Downcast`, wherever in the function it stands, is behind a `Switch` on the discriminant
-- of its place, and every run from the entry to the downcast's block takes the edge of its variant.
pub validate_guards :
    (m : Module) (i : ℕ) (f : Func)
    → validate m ≡ pure tt
    → get_elem? m.funcs i ≡ some f
    → preds_row (compute_preds f) f.entry ≡ []
    → (block : ℕ) (prefix : Place) (v : ℕ) → Occurs f block prefix v
    → Guarded f (record { block = block; prefix = prefix; variant = v })
validate_guards m i f h at root =
    let ok = get_elem?-All (FuncOk m) m.funcs i f (validate_sound m h) at in
    check_downcast_guards_sound f ok.entry_in root ok.quiet
