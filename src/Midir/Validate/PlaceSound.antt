-- ===== src/Midir/Validate/PlaceSound.antt =====
-- A place or an operand that `place_kind` and `operand_kind` pass without an error has the type that they
-- give, by the rules.
use bet.Prelude.{ℕ, ◌≡◌, ap, sym, ◌∙◌, subst, Option, none, some, get_elem?}
use bet.Midir.Ir.{
  Place, Projs, Operand, place, no_proj, then_proj, field, index, deref, downcast, const, copy,
  moved, Func, Local,
}
use bet.Midir.Module.{Module, TyKind}
use bet.Midir.Validate.Report.{bad_local, ◌>>=◌, pure, when_some}
use bet.Midir.Validate.Places.{
  ty, known, field_kind, index_kind, deref_kind, downcast_kind, local_kind, place_kind, projs_kind,
  operand_kind,
}
use bet.Midir.Validate.Clean.{bind-pure, or_report-pure, known-pure}
use bet.Midir.Validate.Typing.{
  Is, HasKind, has_kind, Projects, stop, by_field, by_index, by_deref, by_downcast, OperandOk,
  const_ok, copy_ok, moved_ok,
}
use bet.Midir.Validate.FieldSound.{
  field_kind_lem, index_kind_lem, deref_kind_lem, downcast_kind_lem, const_kind_lem,
}

module _ (m : Module) (f : Func) where
  -- The kind of the local that a place starts from.
  local_kind_lem :
      (l : ℕ) (ps : Projs) (o : Option TyKind)
      → place_kind m f (place l ps) ≡ pure o
      → (d : Local) × (k : TyKind) × (get_elem? f.locals l ≡ some d)
        × Is m d.ty k
        × (projs_kind m f k none ps ≡ pure o)
  unfolding place_kind
  local_kind_lem l ps o h =
      let a =
        bind-pure (local_kind m f.name f.locals l) (when_some (λ k. projs_kind m f k none ps)) o
          h in
      let b =
        or_report-pure (bad_local f.name l) (get_elem? f.locals l) (λ d. known (ty m d.ty)) a.0
          a.1 in
      let c = known-pure m b.0.ty a.0 b.2 in
      (b.0, c.0, b.1, c.1, sym (ap (when_some (λ k. projs_kind m f k none ps)) c.2) ∙ a.2)

  mutual
    unfolding place_kind projs_kind operand_kind

    pub place_lem :
        (p : Place) (o : Option TyKind)
        → place_kind m f p ≡ pure o
        → (u : TyKind) × (o ≡ some u) × HasKind m f p u
    place_lem (place l ps) o h =
        let a = local_kind_lem l ps o h in
        let b = projs_lem ps a.1 none o a.4 in (b.0, b.1, has_kind l ps a.0 a.1 b.0 a.2 a.3 b.2)

    projs_lem :
        (ps : Projs) (k : TyKind) (pending : Option (ℕ × ℕ)) (o : Option TyKind)
        → projs_kind m f k pending ps ≡ pure o
        → (u : TyKind) × (o ≡ some u) × Projects m f k pending ps u
    projs_lem no_proj k pending o h = let e : some k ≡ o = cc in (k, sym e, stop k pending)
    projs_lem (then_proj (field i) ps) k pending o h =
        let a =
          bind-pure (field_kind m f.name k pending i) (when_some (λ t. projs_kind m f t none ps)) o
            h in
        let b = field_kind_lem m f.name k pending i a.0 a.1 in
        let c =
          projs_lem ps b.0 none o
            (sym (ap (when_some (λ t. projs_kind m f t none ps)) b.1) ∙ a.2) in
        (c.0, c.1, by_field k pending i ps b.0 c.0 b.2 c.2)
    projs_lem (then_proj (index op) ps) k pending o h =
        let a =
          bind-pure (operand_kind m f op)
            (λ x. index_kind m f.name k >>= when_some (λ t. projs_kind m f t pending ps)) o h in
        let b =
          bind-pure (index_kind m f.name k) (when_some (λ t. projs_kind m f t pending ps)) o a.2 in
        let c = index_kind_lem m f.name k b.0 b.1 in
        let r =
          projs_lem ps c.0 pending o
            (sym (ap (when_some (λ t. projs_kind m f t pending ps)) c.1) ∙ b.2) in
        (r.0, r.1, by_index k pending op ps c.0 r.0 (operand_lem op a.0 a.1) c.2 r.2)
    projs_lem (then_proj deref ps) k pending o h =
        let a =
          bind-pure (deref_kind m f.name k) (when_some (λ t. projs_kind m f t pending ps)) o h in
        let b = deref_kind_lem m f.name k a.0 a.1 in
        let c =
          projs_lem ps b.1 pending o
            (sym (ap (when_some (λ t. projs_kind m f t pending ps)) b.3) ∙ a.2) in
        (
          c.0,
          c.1,
          subst (λ (x : TyKind). Projects m f x pending (then_proj deref ps) c.0) (sym b.2)
              (by_deref b.0 pending ps b.1 c.0 b.4 c.2),
        )
    projs_lem (then_proj (downcast v) ps) k pending o h =
        let a =
          bind-pure (downcast_kind m f.name v k) (when_some (λ q. projs_kind m f k (some q) ps)) o
            h in
        let b = downcast_kind_lem m f.name v k a.0 a.1 in
        let c =
          projs_lem ps k (some (b.0, v)) o
            (sym (ap (when_some (λ q. projs_kind m f k (some q) ps)) b.2) ∙ a.2) in
        (
          c.0,
          c.1,
          subst (λ (x : TyKind). Projects m f x pending (then_proj (downcast v) ps) c.0) (sym b.1)
              (by_downcast b.0 v pending ps c.0
                (subst (λ (x : TyKind). Projects m f x (some (b.0, v)) ps c.0) b.1 c.2)),
        )

    pub operand_lem :
        (op : Operand) (o : Option TyKind) → operand_kind m f op ≡ pure o → OperandOk m f op
    operand_lem (const c) o h = const_ok c (const_kind_lem m f.name c o h)
    operand_lem (copy p) o h = let a = place_lem p o h in copy_ok p a.0 a.2
    operand_lem (moved p) o h = let a = place_lem p o h in moved_ok p a.0 a.2
