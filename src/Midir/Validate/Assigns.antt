-- ===== src/Midir/Validate/Assigns.antt =====
-- What the validator knows of an assignment and of a call that it passes: their types agree by the rules.
use bet.Prelude.{
  ℕ, zero, suc, ap₂, ◌+◌, ◌≡◌, sym, ap, ◌∙◌, subst, true, some, List, [], ◌∷◌, ◌==◌, ==_iff, arith,
  length, get_elem?,
}
use bet.Midir.Ir.{Operand, Rvalue, Place, assign, Func}
use bet.Midir.Module.{Module, TyKind, TyKind-discrete, holds}
use bet.Midir.Validate.Report.{type_mismatch, bad_shape, ◌>>=◌, pure}
use bet.Midir.Validate.Places.{same_kind, operand_kind, place_kind}
use bet.Midir.Validate.Values.{
  expect_that, agree, match_param, args_from, check_call_args, rvalue_kind,
}
use bet.Midir.Validate.{check_stmt}
use bet.Midir.Validate.Clean.{bind-pure, entry_at-pure, expect_that-pure}
use bet.Midir.Validate.PlaceComplete.{HasKind-place_kind}
use bet.Midir.Validate.Typing.{Is, HasKind}
use bet.Midir.Validate.Gives.{OperandKind, Gives}
use bet.Midir.Validate.GivesSound.{known_first, rvalue_kind-Gives}

module _ (m : Module) (f : Func) where
  same_kind→≡ : (a b : TyKind) → same_kind a b ≡ true → a ≡ b
  same_kind→≡ a b h = go (TyKind-discrete a b) h
    where
      go : (d : Dec (a ≡ b)) → holds d ≡ true → a ≡ b
      go (yes p) e = p
      go (no p) e = cc

  -- Where `check_stmt` passes an assignment without an error: if the rules give its place one type and its
  -- rvalue another, the two are the same.
  pub assign_typed :
      (p : Place) (rv : Rvalue) (a b : TyKind)
      → check_stmt m f (assign p rv) ≡ pure tt
      → HasKind m f p a
      → Gives m f rv b
      → a ≡ b
  unfolding check_stmt
  assign_typed p rv a b h q r =
      let x = bind-pure (place_kind m f p) _ tt h in
      let y = bind-pure (rvalue_kind m f rv) _ tt x.2 in
      let e : x.0 ≡ some a = let k = HasKind-place_kind m f p a q in cc in
      let g = rvalue_kind-Gives m f rv y.0 b y.1 r in
      let z = expect_that-pure (agree x.0 y.0) (type_mismatch f.name) tt y.2 in
      same_kind→≡ a b (sym (ap₂ agree e g) ∙ z)

  args_from-Is :
      (args : List Operand) (params : List ℕ) (i j : ℕ) (op : Operand) (k : TyKind) (t : ℕ)
      → args_from m f i params args ≡ pure tt
      → get_elem? args j ≡ some op
      → get_elem? params (i + j) ≡ some t
      → OperandKind m f op k
      → Is m t k
  args_from-Is [] params i j op k t h at want p = cc
  args_from-Is (arg ∷ args) params i zero op k t h at want p =
      let e : arg ≡ op = cc in
      let x =
        known_first m f arg k
          (λ o. match_param m f o (get_elem? params i) >>= λ u. args_from m f (suc i) params args)
          tt (subst (λ (y : Operand). OperandKind m f y k) (sym e) p) h in
      let y = bind-pure (match_param m f (some k) (get_elem? params i)) _ tt x in
      let here : get_elem? params i ≡ some t = ap (get_elem? params) (omega arith) ∙ want in
      let z =
        entry_at-pure (get_elem? m.types t)
          (λ w. expect_that (same_kind k w) (type_mismatch f.name)) y.0
          (sym (ap (match_param m f (some k)) here) ∙ y.1) in
      z.1 ∙ ap some (sym (same_kind→≡ k z.0 (expect_that-pure _ (type_mismatch f.name) y.0 z.2)))
  args_from-Is (arg ∷ args) params i (suc j) op k t h at want p =
      let x = bind-pure (operand_kind m f arg) _ tt h in
      let y =
        bind-pure (match_param m f x.0 (get_elem? params i))
          (λ u. args_from m f (suc i) params args) tt x.2 in
      args_from-Is args params (suc i) j op k t y.2 at (ap (get_elem? params) (omega arith) ∙ want)
        p

  -- Where `check_call_args` passes without an error, there are as many arguments as parameters, and an
  -- argument that has a type by the rules has the type that its parameter's id stands for.
  pub check_call_args_typed :
      (params : List ℕ) (args : List Operand)
      → check_call_args m f params args ≡ pure tt
      → (length args ≡ length params)
        × ((j : ℕ) (op : Operand) (k : TyKind) (t : ℕ)
            → get_elem? args j ≡ some op
            → get_elem? params j ≡ some t
            → OperandKind m f op k
            → Is m t k)
  unfolding check_call_args
  check_call_args_typed params args h =
      let a =
        bind-pure (expect_that (length params == length args) (bad_shape f.name))
          (λ u. args_from m f 0 params args) tt h in
      let n =
        (==_iff (length params) (length args)).0 (expect_that-pure _ (bad_shape f.name) a.0 a.1) in
      (
        sym n,
        λ j op k t at want p.
            args_from-Is args params 0 j op k t a.2 at (ap (get_elem? params) (omega arith) ∙ want)
              p,
      )
