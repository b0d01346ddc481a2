-- ===== src/Midir/Validate/Reads.antt =====
-- What the validator passes without an error reads only operands that are well typed.
use bet.Prelude.{
  ℕ, suc, ◌≡◌, Option, none, some, List, [], ◌∷◌, All, ◌==◌, ==_iff, arith, length, get_elem?,
}
use bet.Midir.Ir.{
  Operand, copy, Callee, direct, indirect, extern, CopInit, struct_lit, sum_variant, Rvalue, use_of,
  bin_op, un_op, cast, call, aggregate, simd, discriminant, cop, trust, str_ptr, str_len, slice_ptr,
  slice_len, addr_of, make_slice, crib_new, crib_global, size_of, make_str, Stmt, assign, evict,
  evict_slot, nop, Terminator, goto, branch, switch, holla_check, return, panic, unreachable, Func,
}
use bet.Midir.Module.{Module, TyKind, fn_ptr, Extern}
use bet.Midir.Validate.Report.{Checked, ◌>>=◌, pure, report, bad_id, bad_shape}
use bet.Midir.Validate.Places.{known, struct_def, sum_def, place_kind, operand_kind}
use bet.Midir.Validate.Values.{
  expect_that, rets_to_kind, struct_takes, sum_takes, visit_args, visit_fields, match_param,
  args_from, check_call_args, call_to, dangling_call, direct_call, extern_call, indirect_call,
  call_kind, check_cop_init, cop_kind, rvalue_kind,
}
use bet.Midir.Validate.{check_stmt, match_ret, return_values, check_term}
use bet.Midir.Validate.Clean.{bind-pure, entry_at-pure, expect_that-pure}
use bet.Midir.Validate.PlaceSound.{place_lem, operand_lem}
use bet.Midir.Validate.Typing.{OperandOk, copy_ok}
use bet.Midir.Validate.Operands.{
  values_of, init_operands, call_operands, rvalue_operands, stmt_operands, term_operands,
}

module _ (m : Module) (f : Func) where
  abbrev pub AllOk : List Operand → Type 0
  AllOk ops = All (OperandOk m f) ops

  module _ {ℓ} {B : Type ℓ} where
    -- An operand, or a place, that is checked first.
    pub first_ok :
        (op : Operand) (k : Option TyKind → Checked B) (b : B)
        → (operand_kind m f op >>= k) ≡ pure b
        → OperandOk m f op × ((o : Option TyKind) × (k o ≡ pure b))
    first_ok op k b h =
        let a = bind-pure (operand_kind m f op) k b h in (operand_lem m f op a.0 a.1, (a.0, a.2))

    place_first :
        (p : _) (k : Option TyKind → Checked B) (b : B)
        → (place_kind m f p >>= k) ≡ pure b
        → OperandOk m f (copy p) × ((o : Option TyKind) × (k o ≡ pure b))
    place_first p k b h =
        let a = bind-pure (place_kind m f p) k b h in
        let r = place_lem m f p a.0 a.1 in (copy_ok p r.0 r.2, (a.0, a.2))

  visit_args_lem : (ops : List Operand) (u : Unit {0}) → visit_args m f ops ≡ pure u → AllOk ops
  visit_args_lem [] u h = tt
  visit_args_lem (op ∷ ops) u h =
      let a = first_ok op (λ o. visit_args m f ops) u h in (a.0, visit_args_lem ops u a.1.1)

  visit_fields_lem :
      (fields : List (ℕ × Operand)) (u : Unit {0})
      → visit_fields m f fields ≡ pure u
      → AllOk (values_of fields)
  visit_fields_lem [] u h = tt
  visit_fields_lem (q ∷ fields) u h =
      let a = first_ok q.1 (λ o. visit_fields m f fields) u h in
      (a.0, visit_fields_lem fields u a.1.1)

  args_from_lem :
      (args : List Operand) (i : ℕ) (params : List ℕ) (u : Unit {0})
      → args_from m f i params args ≡ pure u
      → AllOk args
  args_from_lem [] i params u h = tt
  args_from_lem (arg ∷ args) i params u h =
      let k = λ (o : Option TyKind).
        match_param m f o (get_elem? params i) >>= λ w. args_from m f (suc i) params args in
      let a = first_ok arg k u h in
      let b =
        bind-pure (match_param m f a.1.0 (get_elem? params i))
          (λ w. args_from m f (suc i) params args) u a.1.1 in
      (a.0, args_from_lem args (suc i) params u b.2)

  check_call_args_lem :
      (params : List ℕ) (args : List Operand) (u : Unit {0})
      → check_call_args m f params args ≡ pure u
      → AllOk args
  unfolding check_call_args
  check_call_args_lem params args u h =
      let a =
        bind-pure (expect_that (length params == length args) (bad_shape f.name))
          (λ w. args_from m f 0 params args) u h in
      args_from_lem args 0 params u a.2

  call_to_lem :
      (params rets : List ℕ) (args : List Operand) (o : Option TyKind)
      → call_to m f params rets args ≡ pure o
      → AllOk args
  call_to_lem params rets args o h =
      let a =
        bind-pure (check_call_args m f params args) (λ u. known (rets_to_kind m f rets)) o h in
      check_call_args_lem params args a.0 a.1

  -- A call of what is not there is never clean.
  dangling_never : (args : List Operand) (o : Option TyKind) → dangling_call m f args ≡ pure o → ⊥
  dangling_never args o h =
      let a = bind-pure (visit_args m f args) (λ u. report (bad_id f.name) none) o h in cc

  call_kind_lem :
      (callee : Callee) (args : List Operand) (o : Option TyKind)
      → call_kind m f callee args ≡ pure o
      → AllOk (call_operands callee args)
  unfolding call_kind
  call_kind_lem (direct fid) args o h = go (get_elem? m.funcs fid) h
    where
      go : (t : Option Func) → direct_call m f args t ≡ pure o → AllOk args
      go none e = elim (dangling_never args o e) [ ]
      go (some t) e = call_to_lem t.params t.rets args o e
  call_kind_lem (extern eid) args o h = go (get_elem? m.externs eid) h
    where
      go : (t : Option Extern) → extern_call m f args t ≡ pure o → AllOk args
      go none e = elim (dangling_never args o e) [ ]
      go (some t) e = call_to_lem t.sig.params t.sig.rets args o e
  call_kind_lem (indirect op) args o h =
      let a = first_ok op (indirect_call m f args) o h in (a.0, go a.1.0 a.1.1)
    where
      open_call : (visit_args m f args >>= λ u. pure none) ≡ pure o → AllOk args
      open_call e =
          let a = bind-pure (visit_args m f args) (λ u. pure none) o e in
          visit_args_lem args a.0 a.1

      go : (k : Option TyKind) → indirect_call m f args k ≡ pure o → AllOk args
      go none e = open_call e
      go (some (fn_ptr sig)) e =
          let a =
            entry_at-pure (get_elem? m.sigs sig) (λ s. call_to m f s.params s.rets args) o e in
          call_to_lem a.0.params a.0.rets args o a.2
      go (some other) e = open_call e

  check_cop_init_lem :
      (init : CopInit) (u : Unit {0})
      → check_cop_init m f init ≡ pure u
      → AllOk (init_operands init)
  unfolding check_cop_init
  check_cop_init_lem (struct_lit sid fields) u h =
      let a =
        bind-pure (visit_fields m f fields)
          (λ w. struct_def m f.name sid >>= struct_takes m f (length fields)) u h in
      visit_fields_lem fields a.0 a.1
  check_cop_init_lem (sum_variant sid variant ops) u h =
      let a =
        bind-pure (visit_args m f ops)
          (λ w. sum_def m f.name sid >>= sum_takes m f variant (length ops)) u h in
      visit_args_lem ops a.0 a.1

  -- Two operands, one after the other.
  both_ok {ℓ} :
      {B : Type ℓ} (x y : Operand) (k : Option TyKind → Option TyKind → Checked B) (b : B)
      → (operand_kind m f x >>= λ p. operand_kind m f y >>= k p) ≡ pure b
      → OperandOk m f x × OperandOk m f y
  both_ok x y k b h =
      let a = first_ok x (λ p. operand_kind m f y >>= k p) b h in
      let c = first_ok y (k a.1.0) b a.1.1 in (a.0, c.0)

  pub rvalue_kind_lem :
      (rv : Rvalue) (o : Option TyKind) → rvalue_kind m f rv ≡ pure o → AllOk (rvalue_operands rv)
  unfolding rvalue_kind
  rvalue_kind_lem (use_of op) o h = (operand_lem m f op o h, tt)
  rvalue_kind_lem (bin_op op a b mode) o h = let r = both_ok a b _ o h in (r.0, (r.1, tt))
  rvalue_kind_lem (un_op op a) o h = ((first_ok a _ o h).0, tt)
  rvalue_kind_lem (cast op t kind) o h = ((first_ok op _ o h).0, tt)
  rvalue_kind_lem (call callee args) o h = call_kind_lem callee args o h
  rvalue_kind_lem (aggregate kind ops) o h =
      let a = bind-pure (visit_args m f ops) _ o h in visit_args_lem ops a.0 a.1
  rvalue_kind_lem (simd op args t) o h =
      let a = bind-pure (visit_args m f args) _ o h in visit_args_lem args a.0 a.1
  rvalue_kind_lem (discriminant op) o h = ((first_ok op _ o h).0, tt)
  rvalue_kind_lem (cop crib init) o h =
      let a = first_ok crib _ o h in
      let b = bind-pure (check_cop_init m f init) (λ u. cop_kind m f init a.1.0) o a.1.1 in
      (a.0, check_cop_init_lem init b.0 b.1)
  rvalue_kind_lem (trust crib tag) o h = let r = both_ok crib tag _ o h in (r.0, (r.1, tt))
  rvalue_kind_lem (str_ptr op) o h = ((first_ok op _ o h).0, tt)
  rvalue_kind_lem (str_len op) o h = ((first_ok op _ o h).0, tt)
  rvalue_kind_lem (slice_ptr op) o h = ((first_ok op _ o h).0, tt)
  rvalue_kind_lem (slice_len op) o h = ((first_ok op _ o h).0, tt)
  rvalue_kind_lem (addr_of p) o h = ((place_first p _ o h).0, tt)
  rvalue_kind_lem (make_slice d len elem) o h = let r = both_ok d len _ o h in (r.0, (r.1, tt))
  rvalue_kind_lem (crib_new elem capacity) o h = tt
  rvalue_kind_lem (crib_global id) o h = tt
  rvalue_kind_lem (size_of t) o h = tt
  rvalue_kind_lem (make_str d len) o h = let r = both_ok d len _ o h in (r.0, (r.1, tt))

  -- The sides of an assignment whose types are known have the same type.
  pub check_stmt_lem :
      (s : Stmt) (u : Unit {0}) → check_stmt m f s ≡ pure u → AllOk (stmt_operands s)
  unfolding check_stmt
  check_stmt_lem nop u h = tt
  check_stmt_lem (evict op) u h = ((first_ok op _ u h).0, tt)
  check_stmt_lem (evict_slot crib tag) u h = let r = both_ok crib tag _ u h in (r.0, (r.1, tt))
  check_stmt_lem (assign p rv) u h =
      let a = place_first p _ u h in
      let b = bind-pure (rvalue_kind m f rv) _ u a.1.1 in (a.0, rvalue_kind_lem rv b.0 b.1)

  module _ (block nblocks : ℕ) where
    return_values_lem :
        (vals : List Operand) (rets : List ℕ) (u : Unit {0})
        → length vals ≡ length rets
        → return_values m f block nblocks vals rets ≡ pure u
        → AllOk vals
    return_values_lem [] rets u e h = tt
    return_values_lem (op ∷ ops) [] u e h = let no : ⊥ = omega arith in elim no [ ]
    return_values_lem (op ∷ ops) (t ∷ rets) u e h =
        let a = first_ok op _ u h in
        let b =
          bind-pure (match_ret m f block nblocks a.1.0 t)
            (λ w. return_values m f block nblocks ops rets) u a.1.1 in
        (a.0, return_values_lem ops rets u (omega arith) b.2)

    pub check_term_lem :
        (t : Terminator) (u : Unit {0})
        → check_term m f block nblocks t ≡ pure u
        → AllOk (term_operands t)
    unfolding check_term
    check_term_lem (goto bb) u h = tt
    check_term_lem (branch cond then_bb else_bb) u h = ((first_ok cond _ u h).0, tt)
    check_term_lem (switch scrutinee cases default) u h = ((first_ok scrutinee _ u h).0, tt)
    check_term_lem (holla_check tag crib resolved live dead) u h =
        let a = first_ok tag _ u h in
        let b = first_ok crib _ u a.1.1 in
        let c = place_first resolved _ u b.1.1 in (a.0, (b.0, (c.0, tt)))
    check_term_lem (return vals) u h =
        let a = bind-pure (expect_that (length vals == length f.rets) _) _ u h in
        return_values_lem vals f.rets u
          ((==_iff (length vals) (length f.rets)).0 (expect_that-pure _ _ a.0 a.1)) a.2
    check_term_lem (panic op) u h = ((first_ok op _ u h).0, tt)
    check_term_lem unreachable u h = tt
