-- ===== src/Midir/Validate.antt =====
-- The validator of crates/midir/src/validate.rs: `validate` over functions, globals and externs, with
-- the checks of statements and terminators. Their types are in Places and Values.
pub mod Report
pub mod Places
pub mod Values
pub mod Clean
pub mod Typing
pub mod FieldSound
pub mod PlaceSound
pub mod PlaceComplete
pub mod Operands
pub mod Reads
pub mod Accepts
pub mod Gives
pub mod GivesSound
pub mod Assigns
use bet.Prelude.{
  ℕ, zero, suc, ◌%◌, ◌^◌, Bool, true, false, ◌&&◌, not, Option, none, some, List, [], ◌∷◌, ◌++◌,
  ◌==◌, length, get_elem?, ltb, if◌then◌else◌,
}
use bet.Midir.Ir.{
  Operand, Stmt, assign, evict, evict_slot, nop, Terminator, goto, branch, switch, holla_check,
  return, panic, unreachable, Block, Func,
}
use bet.Midir.Module.{Module, TyKind, crib_ty, tag_ty, ref, Global, Extern}
use bet.Midir.Guards.{check_downcast_guards}
use bet.Midir.Guards.Sites.{DowncastSite}
use Report.{
  ValidationError, empty_func, bad_entry, bad_target, return_arity, bad_id, type_mismatch,
  downcast_unguarded, Checked, ◌>>=◌, ◌>>◌, pure, report, checked, panics,
}
use Places.{same_kind, ty, const_kind, place_kind, operand_kind}
use Values.{expect_that, agree, rvalue_kind}

-- A crib and a tag, or a crib and a reference, of one element type.
abbrev pub tag_of : Option TyKind → Option TyKind → Bool
tag_of (some (crib_ty c)) (some (tag_ty t)) = c == t
tag_of _ _ = true

abbrev pub ref_of : Option TyKind → Option TyKind → Bool
ref_of (some (crib_ty c)) (some (ref r)) = c == r
ref_of _ _ = true

module _ (m : Module) (f : Func) where
  unfoldable pub check_stmt : Stmt → Checked (Unit {0})
  unfolding operand_kind place_kind rvalue_kind
  check_stmt nop = pure tt
  check_stmt (evict op) = operand_kind m f op >>= λ k. pure tt
  check_stmt (evict_slot crib tag) =
      operand_kind m f crib >>= λ k. operand_kind m f tag >>= λ t. pure tt
  check_stmt (assign p rv) = place_kind m f p >>= λ pk.
      rvalue_kind m f rv >>= λ rk. expect_that (agree pk rk) (type_mismatch f.name)

  module _ (block nblocks : ℕ) where
    -- The closure `target`, and its loop over cases.
    abbrev pub target : ℕ → Checked (Unit {0})
    target bb = expect_that (ltb bb nblocks) (bad_target f.name block bb)

    abbrev pub case_targets : List (ℕ × ℕ) → Checked (Unit {0})
    case_targets [] = pure tt
    case_targets (c ∷ cases) = target c.1 >>= λ u. case_targets cases

    -- A returned value against its declared type.
    abbrev pub match_ret : Option TyKind → ℕ → Checked (Unit {0})
    match_ret none t = pure tt
    match_ret (some k) t = ty m t >>= λ want. expect_that (same_kind k want) (type_mismatch f.name)

    -- `vals.iter().zip(&func.rets)`.
    abbrev pub return_values : List Operand → List ℕ → Checked (Unit {0})
    return_values [] rets = pure tt
    return_values (op ∷ ops) [] = pure tt
    return_values (op ∷ ops) (t ∷ rets) =
        operand_kind m f op >>= λ k. match_ret k t >>= λ u. return_values ops rets

    unfoldable pub check_term : Terminator → Checked (Unit {0})
    unfolding operand_kind place_kind
    check_term (goto bb) = target bb
    check_term (branch cond then_bb else_bb) =
        operand_kind m f cond >>= λ k. target then_bb >>= λ u. target else_bb
    check_term (switch scrutinee cases default) =
        operand_kind m f scrutinee >>= λ k. case_targets cases >>= λ u. target default
    check_term (holla_check tag crib resolved live dead) = operand_kind m f tag >>= λ tk.
        operand_kind m f crib >>= λ ck. place_kind m f resolved >>= λ rk. target live >>= λ u.
        target dead >>= λ w. expect_that (tag_of ck tk) (type_mismatch f.name) >>= λ x.
        expect_that (ref_of ck rk) (type_mismatch f.name)
    check_term (return vals) =
        expect_that (length vals == length f.rets)
          (return_arity f.name block (length vals) (length f.rets))
        >>= λ u. return_values vals f.rets
    check_term (panic op) = operand_kind m f op >>= λ k. pure tt
    check_term unreachable = pure tt

  abbrev pub check_stmts : List Stmt → Checked (Unit {0})
  check_stmts [] = pure tt
  check_stmts (s ∷ ss) = check_stmt s >>= λ u. check_stmts ss

  unfoldable pub check_blocks : ℕ → List Block → Checked (Unit {0})
  unfolding check_term
  check_blocks nblocks [] = pure tt
  check_blocks nblocks (b ∷ bs) =
      check_stmts b.stmts >>= λ u. check_term b.id nblocks b.term >>= λ w. check_blocks nblocks bs

  -- The errors that `check_downcast_guards` pushes.
  abbrev pub unguarded_errors : List DowncastSite → List ValidationError
  unguarded_errors [] = []
  unguarded_errors (s ∷ sites) =
      downcast_unguarded f.name (s.block % 2 ^ 32) s.variant ∷ unguarded_errors sites

  abbrev pub check_body : List Block → Checked (Unit {0})
  check_body [] = report (empty_func f.name) tt
  check_body (b ∷ bs) =
      expect_that (ltb f.entry (length f.blocks % 2 ^ 32)) (bad_entry f.name f.entry) >>= λ u.
      check_blocks (length f.blocks % 2 ^ 32) (b ∷ bs) >>= λ w.
      checked (unguarded_errors (check_downcast_guards f)) tt

  unfoldable pub check_func : Checked (Unit {0})
  check_func = check_body f.blocks

module _ (m : Module) where
  -- `<global name>` and `<extern name>`.
  abbrev pub global_label : List ℕ → List ℕ
  global_label name = b'<' ∷ b'g' ∷ b'l' ∷ b'o' ∷ b'b' ∷ b'a' ∷ b'l' ∷ 32 ∷ (name ++ b'>' ∷ [])

  abbrev pub extern_label : List ℕ → List ℕ
  extern_label name = b'<' ∷ b'e' ∷ b'x' ∷ b't' ∷ b'e' ∷ b'r' ∷ b'n' ∷ 32 ∷ (name ++ b'>' ∷ [])

  abbrev pub match_global : List ℕ → ℕ → Option TyKind → Checked (Unit {0})
  match_global label t none = pure tt
  match_global label t (some k) =
      ty m t >>= λ want. expect_that (same_kind k want) (type_mismatch label)

  unfoldable pub check_global : Global → Checked (Unit {0})
  unfolding const_kind
  check_global g =
      const_kind m (global_label g.name) g.value >>= match_global (global_label g.name) g.ty

  -- The types of an extern's signature, by their ids.
  abbrev pub types_below : List ℕ → List ℕ → Checked (Unit {0})
  types_below label [] = pure tt
  types_below label (t ∷ ts) =
      expect_that (ltb t (length m.types)) (bad_id label) >>= λ u. types_below label ts

  unfoldable pub check_extern : Extern → Checked (Unit {0})
  check_extern e = types_below (extern_label e.name) (e.sig.params ++ e.sig.rets)

  abbrev pub check_funcs : List Func → Checked (Unit {0})
  check_funcs [] = pure tt
  check_funcs (f ∷ fs) = check_func m f >>= λ u. check_funcs fs

  abbrev pub check_globals : List Global → Checked (Unit {0})
  check_globals [] = pure tt
  check_globals (g ∷ gs) = check_global g >>= λ u. check_globals gs

  abbrev pub check_externs : List Extern → Checked (Unit {0})
  check_externs [] = pure tt
  check_externs (e ∷ es) = check_extern e >>= λ u. check_externs es

  -- `validate`: `Ok` is the empty list of errors.
  unfoldable pub validate : Checked (Unit {0})
  validate = check_funcs m.funcs >>= λ u. check_globals m.globals >>= λ w. check_externs m.externs
