-- ===== src/Midir/Validate/Places.antt =====
-- `place_kind`, `operand_kind` and what they use, of crates/midir/src/validate.rs. The name of the
-- function that is checked stands for `func` where only an error needs it.
use bet.Prelude.{ℕ, Bool, Option, none, some, List, get_elem?}
use bet.Midir.Ir.{
  Const, int, float, bool, str, ghosted, null_ptr, fn_ref, Place, Projs, Operand, place, no_proj,
  then_proj, field, index, deref, downcast, const, copy, moved, Func, Local,
}
use bet.Midir.Module.{
  Module, TyKind, bool_ty, str_ty, struct_ty, sum_ty, slice, array_ty, soa, ref, vec_ty, tuple_ty,
  StructDef, SumDef, Variant, Field, TyKind-discrete, holds,
}
use bet.Midir.Validate.Report.{
  bad_local, bad_projection, bad_id, Checked, ◌>>=◌, pure, report, entry_at, when_some, or_report,
}

abbrev pub Kind : Type 0
Kind = Checked (Option TyKind)

abbrev pub same_kind : TyKind → TyKind → Bool
same_kind a b = holds (TyKind-discrete a b)

-- `self.module.ty(id)`, as a kind.
abbrev pub ty : Module → ℕ → Checked TyKind
ty m id = entry_at (get_elem? m.types id)

abbrev pub known : Checked TyKind → Kind
known r = r >>= λ k. pure (some k)

module _ (m : Module) (fn : List ℕ) where
  abbrev pub bad_proj : Kind
  bad_proj = report (bad_projection fn) none

  abbrev pub struct_def : ℕ → Checked (Option StructDef)
  struct_def sid = or_report (bad_id fn) (get_elem? m.structs sid)

  abbrev pub sum_def : ℕ → Checked (Option SumDef)
  sum_def sid = or_report (bad_id fn) (get_elem? m.sums sid)

  -- The payload `i` of a variant.
  abbrev pub payload_kind : ℕ → Variant → Kind
  payload_kind i v =
      or_report (bad_projection fn) (get_elem? v.payload i) >>= when_some (λ t. known (ty m t))

  abbrev pub variant_kind : ℕ → ℕ → SumDef → Kind
  variant_kind v i def =
      or_report (bad_id fn) (get_elem? def.variants v) >>= when_some (payload_kind i)

  -- A field that is there, or `bad_proj`.
  abbrev pub field_or_bad : (Field → Kind) → Option Field → Kind
  field_or_bad f none = bad_proj
  field_or_bad f (some d) = f d

  abbrev pub elem_or_bad : Option ℕ → Kind
  elem_or_bad none = bad_proj
  elem_or_bad (some t) = known (ty m t)

  -- The field of the element of a `soa` container, wrapped as the container is.
  abbrev pub soa_elem_field : (ℕ → TyKind) → ℕ → TyKind → Kind
  soa_elem_field wrap i (struct_ty s) =
      struct_def s
      >>= when_some (λ def. field_or_bad (λ d. pure (some (wrap d.ty))) (get_elem? def.fields i))
  soa_elem_field wrap i other = bad_proj

  abbrev pub soa_field : ℕ → TyKind → Kind
  soa_field i (slice e) = ty m e >>= soa_elem_field slice i
  soa_field i (vec_ty e) = ty m e >>= soa_elem_field vec_ty i
  soa_field i other = bad_proj

  abbrev pub plain_field : ℕ → TyKind → Kind
  plain_field i (struct_ty sid) =
      struct_def sid
      >>= when_some (λ def. field_or_bad (λ d. known (ty m d.ty)) (get_elem? def.fields i))
  plain_field i (tuple_ty elems) = elem_or_bad (get_elem? elems i)
  plain_field i (soa inner) = ty m inner >>= soa_field i
  plain_field i other = bad_proj

  unfoldable pub field_kind : TyKind → Option (ℕ × ℕ) → ℕ → Kind
  field_kind k (some v) i = sum_def v.0 >>= when_some (variant_kind v.1 i)
  field_kind k none i = plain_field i k

  abbrev pub soa_index : TyKind → Kind
  soa_index (slice e) = known (ty m e)
  soa_index (array_ty e n) = known (ty m e)
  soa_index (vec_ty e) = known (ty m e)
  soa_index other = bad_proj

  unfoldable pub index_kind : TyKind → Kind
  index_kind (slice e) = known (ty m e)
  index_kind (array_ty e n) = known (ty m e)
  index_kind (soa inner) = ty m inner >>= soa_index
  index_kind other = bad_proj

  unfoldable pub deref_kind : TyKind → Kind
  deref_kind (ref e) = known (ty m e)
  deref_kind other = bad_proj

  unfoldable pub downcast_kind : ℕ → TyKind → Checked (Option (ℕ × ℕ))
  downcast_kind v (sum_ty sid) = pure (some (sid, v))
  downcast_kind v other = report (bad_projection fn) none

  unfoldable pub const_kind : Const → Kind
  const_kind (int n t) = known (ty m t)
  const_kind (float x t) = known (ty m t)
  const_kind (bool b) = pure (some bool_ty)
  const_kind (str s) = pure (some str_ty)
  const_kind ghosted = pure none
  const_kind null_ptr = pure none
  const_kind (fn_ref id) = pure none

  -- The start of `place_kind`: the type of the local, which is checked to be there.
  abbrev pub local_kind : List Local → ℕ → Kind
  local_kind locals l =
      or_report (bad_local fn l) (get_elem? locals l) >>= when_some (λ d. known (ty m d.ty))

module _ (m : Module) (f : Func) where
  unfoldable mutual
    unfolding field_kind index_kind deref_kind downcast_kind const_kind

    pub place_kind : Place → Kind
    place_kind (place l ps) =
        local_kind m f.name f.locals l >>= when_some (λ k. projs_kind k none ps)

    -- The loop over the projections, with the type so far and the pending downcast.
    pub projs_kind : TyKind → Option (ℕ × ℕ) → Projs → Kind
    projs_kind k pending no_proj = pure (some k)
    projs_kind k pending (then_proj (field i) ps) =
        field_kind m f.name k pending i >>= when_some (λ t. projs_kind t none ps)
    projs_kind k pending (then_proj (index op) ps) =
        operand_kind op >>= λ o. index_kind m f.name k >>= when_some (λ t. projs_kind t pending ps)
    projs_kind k pending (then_proj deref ps) =
        deref_kind m f.name k >>= when_some (λ t. projs_kind t pending ps)
    projs_kind k pending (then_proj (downcast v) ps) =
        downcast_kind m f.name v k >>= when_some (λ q. projs_kind k (some q) ps)

    pub operand_kind : Operand → Kind
    operand_kind (const c) = const_kind m f.name c
    operand_kind (copy p) = place_kind p
    operand_kind (moved p) = place_kind p
