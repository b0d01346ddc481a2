-- ===== src/Midir/Validate/FieldSound.antt =====
-- A field, an element, a target of a reference or a constant that the validator passes without an error
-- has the type that it gives, by the rules.
use bet.Prelude.{ℕ, ◌≡◌, refl, ap, sym, ◌∙◌, Option, none, some, List, get_elem?}
use bet.Midir.Ir.{Const, int, float, bool, str, ghosted, null_ptr, fn_ref}
use bet.Midir.Module.{
  Module, TyKind, struct_ty, sum_ty, slice, array_ty, soa, ref, vec_ty, tuple_ty, StructDef, Field,
}
use bet.Midir.Validate.Report.{bad_projection, bad_id, ◌>>=◌, pure, when_some}
use bet.Midir.Validate.Places.{
  Kind, ty, known, struct_def, payload_kind, variant_kind, field_or_bad, elem_or_bad,
  soa_elem_field, soa_field, plain_field, field_kind, soa_index, index_kind, deref_kind,
  downcast_kind, const_kind,
}
use bet.Midir.Validate.Clean.{entry_at-pure, or_report-pure, known-pure}
use bet.Midir.Validate.Typing.{
  Is, FieldOf, of_variant, of_struct, of_tuple, of_soa_slice, of_soa_vec, ElemOf, in_slice,
  in_array, in_soa_slice, in_soa_array, in_soa_vec, ConstOk, int_ok, float_ok, bool_ok, str_ok,
  ghosted_ok, null_ok, fn_ok,
}

module _ (m : Module) (fn : List ℕ) where
  known_lem :
      (t : ℕ) (o : Option TyKind) → known (ty m t) ≡ pure o → (u : TyKind) × (o ≡ some u) × Is m t u
  known_lem t o h = let r = known-pure m t o h in (r.0, r.2, r.1)

  variant_field_lem :
      (k : TyKind) (q : ℕ × ℕ) (i : ℕ) (o : Option TyKind)
      → field_kind m fn k (some q) i ≡ pure o
      → (u : TyKind) × (o ≡ some u) × FieldOf m k (some q) i u
  unfolding field_kind
  variant_field_lem k q i o h =
      let a = or_report-pure (bad_id fn) (get_elem? m.sums q.0) (variant_kind m fn q.1 i) o h in
      let b = or_report-pure (bad_id fn) (get_elem? a.0.variants q.1) (payload_kind m fn i) o a.2 in
      let c =
        or_report-pure (bad_projection fn) (get_elem? b.0.payload i) (λ t. known (ty m t)) o b.2 in
      let r = known_lem c.0 o c.2 in
      (r.0, r.1, of_variant k q.0 q.1 i c.0 a.0 b.0 r.0 a.1 b.1 c.1 r.2)

  -- The field of a definition that is there.
  field_or_bad-pure :
      (f : Field → Kind) (d : Option Field) (o : Option TyKind)
      → field_or_bad m fn f d ≡ pure o
      → (x : Field) × (d ≡ some x) × (f x ≡ pure o)
  field_or_bad-pure f none o h = cc
  field_or_bad-pure f (some x) o h = (x, refl, h)

  struct_field_lem :
      (f : Field → Kind) (s i : ℕ) (o : Option TyKind)
      → (struct_def m fn s >>= when_some (λ def. field_or_bad m fn f (get_elem? def.fields i)))
        ≡ pure o
      → (def : StructDef) × (x : Field) × (get_elem? m.structs s ≡ some def)
        × (get_elem? def.fields i ≡ some x)
        × (f x ≡ pure o)
  struct_field_lem f s i o h =
      let a =
        or_report-pure (bad_id fn) (get_elem? m.structs s)
          (λ def. field_or_bad m fn f (get_elem? def.fields i)) o h in
      let b = field_or_bad-pure f (get_elem? a.0.fields i) o a.2 in (a.0, b.0, a.1, b.1, b.2)

  soa_elem_lem :
      (wrap : ℕ → TyKind) (i : ℕ) (k : TyKind) (o : Option TyKind)
      → soa_elem_field m fn wrap i k ≡ pure o
      → (s : ℕ) × (def : StructDef) × (x : Field) × (k ≡ struct_ty s)
        × (get_elem? m.structs s ≡ some def)
        × (get_elem? def.fields i ≡ some x)
        × (o ≡ some (wrap x.ty))
  soa_elem_lem wrap i (struct_ty s) o h =
      let a = struct_field_lem (λ d. pure (some (wrap d.ty))) s i o h in
      let e : some (wrap a.1.ty) ≡ o = cc in (s, a.0, a.1, refl, a.2, a.3, sym e)
  soa_elem_lem wrap i other o h = cc

  elem_or_bad-pure :
      (t : Option ℕ) (o : Option TyKind)
      → elem_or_bad m fn t ≡ pure o
      → (x : ℕ) × (t ≡ some x) × (known (ty m x) ≡ pure o)
  elem_or_bad-pure none o h = cc
  elem_or_bad-pure (some x) o h = (x, refl, h)

  soa_field_lem :
      (inner i : ℕ) (k : TyKind) (o : Option TyKind)
      → Is m inner k
      → soa_field m fn i k ≡ pure o
      → (u : TyKind) × (o ≡ some u) × FieldOf m (soa inner) none i u
  soa_field_lem inner i (slice e) o p h =
      let a = entry_at-pure (get_elem? m.types e) (soa_elem_field m fn slice i) o h in
      let b = soa_elem_lem slice i a.0 o a.2 in
      (slice b.2.ty, b.6, of_soa_slice inner e b.0 i b.1 b.2 p (a.1 ∙ ap some b.3) b.4 b.5)
  soa_field_lem inner i (vec_ty e) o p h =
      let a = entry_at-pure (get_elem? m.types e) (soa_elem_field m fn vec_ty i) o h in
      let b = soa_elem_lem vec_ty i a.0 o a.2 in
      (vec_ty b.2.ty, b.6, of_soa_vec inner e b.0 i b.1 b.2 p (a.1 ∙ ap some b.3) b.4 b.5)
  soa_field_lem inner i other o p h = cc

  plain_field_lem :
      (k : TyKind) (i : ℕ) (o : Option TyKind)
      → plain_field m fn i k ≡ pure o
      → (u : TyKind) × (o ≡ some u) × FieldOf m k none i u
  plain_field_lem (struct_ty s) i o h =
      let a = struct_field_lem (λ d. known (ty m d.ty)) s i o h in
      let r = known_lem a.1.ty o a.4 in (r.0, r.1, of_struct s i a.0 a.1 r.0 a.2 a.3 r.2)
  plain_field_lem (tuple_ty elems) i o h =
      let a = elem_or_bad-pure (get_elem? elems i) o h in
      let r = known_lem a.0 o a.2 in (r.0, r.1, of_tuple elems i a.0 r.0 a.1 r.2)
  plain_field_lem (soa inner) i o h =
      let a = entry_at-pure (get_elem? m.types inner) (soa_field m fn i) o h in
      soa_field_lem inner i a.0 o a.1 a.2
  plain_field_lem other i o h = cc

  pub field_kind_lem :
      (k : TyKind) (pending : Option (ℕ × ℕ)) (i : ℕ) (o : Option TyKind)
      → field_kind m fn k pending i ≡ pure o
      → (u : TyKind) × (o ≡ some u) × FieldOf m k pending i u
  unfolding field_kind
  field_kind_lem k none i o h = plain_field_lem k i o h
  field_kind_lem k (some q) i o h = variant_field_lem k q i o h

  soa_index_lem :
      (inner : ℕ) (k : TyKind) (o : Option TyKind)
      → Is m inner k
      → soa_index m fn k ≡ pure o
      → (u : TyKind) × (o ≡ some u) × ElemOf m (soa inner) u
  soa_index_lem inner (slice e) o p h =
      let r = known_lem e o h in (r.0, r.1, in_soa_slice inner e r.0 p r.2)
  soa_index_lem inner (array_ty e n) o p h =
      let r = known_lem e o h in (r.0, r.1, in_soa_array inner e n r.0 p r.2)
  soa_index_lem inner (vec_ty e) o p h =
      let r = known_lem e o h in (r.0, r.1, in_soa_vec inner e r.0 p r.2)
  soa_index_lem inner other o p h = cc

  pub index_kind_lem :
      (k : TyKind) (o : Option TyKind)
      → index_kind m fn k ≡ pure o
      → (u : TyKind) × (o ≡ some u) × ElemOf m k u
  unfolding index_kind
  index_kind_lem (slice e) o h = let r = known_lem e o h in (r.0, r.1, in_slice e r.0 r.2)
  index_kind_lem (array_ty e n) o h = let r = known_lem e o h in (r.0, r.1, in_array e n r.0 r.2)
  index_kind_lem (soa inner) o h =
      let a = entry_at-pure (get_elem? m.types inner) (soa_index m fn) o h in
      soa_index_lem inner a.0 o a.1 a.2
  index_kind_lem other o h = cc

  pub deref_kind_lem :
      (k : TyKind) (o : Option TyKind)
      → deref_kind m fn k ≡ pure o
      → (e : ℕ) × (u : TyKind) × (k ≡ ref e) × (o ≡ some u) × Is m e u
  unfolding deref_kind
  deref_kind_lem (ref e) o h = let r = known_lem e o h in (e, r.0, refl, r.1, r.2)
  deref_kind_lem other o h = cc

  pub downcast_kind_lem :
      (v : ℕ) (k : TyKind) (o : Option (ℕ × ℕ))
      → downcast_kind m fn v k ≡ pure o
      → (s : ℕ) × (k ≡ sum_ty s) × (o ≡ some (s, v))
  unfolding downcast_kind
  downcast_kind_lem v (sum_ty s) o h = let e : some (s, v) ≡ o = cc in (s, refl, sym e)
  downcast_kind_lem v other o h = cc

  pub const_kind_lem : (c : Const) (o : Option TyKind) → const_kind m fn c ≡ pure o → ConstOk m c
  unfolding const_kind
  const_kind_lem (int n t) o h = let r = known_lem t o h in int_ok n t r.0 r.2
  const_kind_lem (float x t) o h = let r = known_lem t o h in float_ok x t r.0 r.2
  const_kind_lem (bool b) o h = bool_ok b
  const_kind_lem (str s) o h = str_ok s
  const_kind_lem ghosted o h = ghosted_ok
  const_kind_lem null_ptr o h = null_ok
  const_kind_lem (fn_ref id) o h = fn_ok id
