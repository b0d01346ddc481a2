-- ===== src/Midir/Validate/PlaceComplete.antt =====
-- A place or an operand that has a type by the rules passes `place_kind` and `operand_kind`, and the
-- place gets that type.
use bet.Prelude.{ℕ, ◌≡◌, ◌↔◌, refl, subst, Option, none, some, List, []}
use bet.Midir.Ir.{Const, Place, Projs, Operand, Func}
use bet.Midir.Module.{Module, TyKind, bool_ty, str_ty, sum_ty, ref}
use bet.Midir.Validate.Report.{Checked, panics, checked, after, ◌>>=◌, pure, when_some}
use bet.Midir.Validate.Places.{
  field_kind, index_kind, deref_kind, downcast_kind, const_kind, local_kind, place_kind, projs_kind,
  operand_kind,
}
use bet.Midir.Validate.PlaceSound.{place_lem}
use bet.Midir.Validate.Typing.{
  Is, FieldOf, of_variant, of_struct, of_tuple, of_soa_slice, of_soa_vec, ElemOf, in_slice,
  in_array, in_soa_slice, in_soa_array, in_soa_vec, ConstOk, int_ok, float_ok, bool_ok, str_ok,
  ghosted_ok, null_ok, fn_ok, HasKind, has_kind, Projects, stop, by_field, by_index, by_deref,
  by_downcast, OperandOk, const_ok, copy_ok, moved_ok,
}

module _ (m : Module) (fn : List ℕ) where
  pub FieldOf-field_kind :
      (k : TyKind) (pending : Option (ℕ × ℕ)) (i : ℕ) (u : TyKind)
      → FieldOf m k pending i u
      → field_kind m fn k pending i ≡ pure (some u)
  unfolding field_kind
  FieldOf-field_kind k pending i u (of_variant _ s v _ t def w _ p q r z) = rw (p, q, r, z) refl
  FieldOf-field_kind k pending i u (of_struct s _ def d _ p q z) = rw (p, q, z) refl
  FieldOf-field_kind k pending i u (of_tuple elems _ t _ p z) = rw (p, z) refl
  FieldOf-field_kind k pending i u (of_soa_slice inner e s _ def d p q r z) = rw (p, q, r, z) refl
  FieldOf-field_kind k pending i u (of_soa_vec inner e s _ def d p q r z) = rw (p, q, r, z) refl

  pub ElemOf-index_kind : (k u : TyKind) → ElemOf m k u → index_kind m fn k ≡ pure (some u)
  unfolding index_kind
  ElemOf-index_kind k u (in_slice e _ z) = rw z refl
  ElemOf-index_kind k u (in_array e n _ z) = rw z refl
  ElemOf-index_kind k u (in_soa_slice inner e _ p z) = rw (p, z) refl
  ElemOf-index_kind k u (in_soa_array inner e n _ p z) = rw (p, z) refl
  ElemOf-index_kind k u (in_soa_vec inner e _ p z) = rw (p, z) refl

  pub deref_kind-ref : (e : ℕ) (u : TyKind) → Is m e u → deref_kind m fn (ref e) ≡ pure (some u)
  unfolding deref_kind
  deref_kind-ref e u z = rw z refl

  pub downcast_kind-sum : (s v : ℕ) → downcast_kind m fn v (sum_ty s) ≡ pure (some (s, v))
  unfolding downcast_kind
  downcast_kind-sum s v = refl

  pub ConstOk-const_kind :
      (c : Const) → ConstOk m c → (o : Option TyKind) × (const_kind m fn c ≡ pure o)
  unfolding const_kind
  ConstOk-const_kind c (int_ok n t u z) = (some u, rw z refl)
  ConstOk-const_kind c (float_ok x t u z) = (some u, rw z refl)
  ConstOk-const_kind c (bool_ok b) = (some bool_ty, refl)
  ConstOk-const_kind c (str_ok s) = (some str_ty, refl)
  ConstOk-const_kind c ghosted_ok = (none, refl)
  ConstOk-const_kind c null_ok = (none, refl)
  ConstOk-const_kind c (fn_ok id) = (none, refl)

module _ (m : Module) (f : Func) where
  after-nil {ℓ} : {A : Type ℓ} (r : Checked A) → after [] r ≡ r
  after-nil panics = refl
  after-nil (checked es a) = refl

  -- A step whose kind is known goes on with it.
  step_known {ℓ κ} :
      {A : Type ℓ} {B : Type κ} (r : Checked (Option A)) (g : A → Checked (Option B)) (a : A)
      (b : Checked (Option B))
      → r ≡ pure (some a)
      → g a ≡ b
      → (r >>= when_some g) ≡ b
  step_known r g a b p q = rw (p, q) (after-nil b)

  mutual
    unfolding place_kind projs_kind operand_kind

    pub HasKind-place_kind :
        (p : Place) (u : TyKind) → HasKind m f p u → place_kind m f p ≡ pure (some u)
    HasKind-place_kind p u (has_kind l ps d k _ q r h) =
        step_known (local_kind m f.name f.locals l) (λ x. projs_kind m f x none ps) k
          (pure (some u)) (rw (q, r) refl) (Projects-projs_kind k none ps u h)

    Projects-projs_kind :
        (k : TyKind) (pending : Option (ℕ × ℕ)) (ps : Projs) (u : TyKind)
        → Projects m f k pending ps u
        → projs_kind m f k pending ps ≡ pure (some u)
    Projects-projs_kind k pending ps u (stop _ _) = refl
    Projects-projs_kind k pending ps u (by_field _ _ i qs t _ p h) =
        step_known (field_kind m f.name k pending i) (λ x. projs_kind m f x none qs) t
          (pure (some u)) (FieldOf-field_kind m f.name k pending i t p)
          (Projects-projs_kind t none qs u h)
    Projects-projs_kind k pending ps u (by_index _ _ op qs t _ c p h) =
        let a = OperandOk-operand_kind op c in
        let b =
          step_known (index_kind m f.name k) (λ x. projs_kind m f x pending qs) t (pure (some u))
            (ElemOf-index_kind m f.name k t p) (Projects-projs_kind t pending qs u h) in
        rw (a.1, b) refl
    Projects-projs_kind k pending ps u (by_deref e _ qs t _ p h) =
        step_known (deref_kind m f.name (ref e)) (λ x. projs_kind m f x pending qs) t
          (pure (some u)) (deref_kind-ref m f.name e t p) (Projects-projs_kind t pending qs u h)
    Projects-projs_kind k pending ps u (by_downcast s v _ qs _ h) =
        step_known (downcast_kind m f.name v (sum_ty s))
          (λ q. projs_kind m f (sum_ty s) (some q) qs) (s, v) (pure (some u))
          (downcast_kind-sum m f.name s v) (Projects-projs_kind (sum_ty s) (some (s, v)) qs u h)

    pub OperandOk-operand_kind :
        (op : Operand) → OperandOk m f op → (o : Option TyKind) × (operand_kind m f op ≡ pure o)
    OperandOk-operand_kind op (const_ok c h) = ConstOk-const_kind m f.name c h
    OperandOk-operand_kind op (copy_ok p u h) = (some u, HasKind-place_kind p u h)
    OperandOk-operand_kind op (moved_ok p u h) = (some u, HasKind-place_kind p u h)

  -- `place_kind` returns a type for a place, with no error, exactly when the typing rules give the place
  -- that type.
  pub place_kind_iff :
      (p : Place) (u : TyKind) → (place_kind m f p ≡ pure (some u)) ↔ HasKind m f p u
  place_kind_iff p u = (
    (λ h.
        let a = place_lem m f p (some u) h in
        subst (λ (x : TyKind). HasKind m f p x) (let e : a.0 ≡ u = cc in e) a.2),
    HasKind-place_kind p u,
  )
