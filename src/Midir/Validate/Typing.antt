-- ===== src/Midir/Validate/Typing.antt =====
-- The typing rules of places: which type a field, an element, a place and an operand have. They do not
-- mention the checker.
use bet.Prelude.{ℕ, ◌≡◌, Option, none, some, List, get_elem?}
use bet.Midir.Ir.{
  Const, int, float, bool, str, ghosted, null_ptr, fn_ref, Place, Projs, Operand, place, no_proj,
  then_proj, field, index, deref, downcast, const, copy, moved, Func, Local,
}
use bet.Midir.Module.{
  Module, TyKind, struct_ty, sum_ty, slice, array_ty, soa, vec_ty, ref, tuple_ty, StructDef, SumDef,
  Variant, Field,
}

module _ (m : Module) where
  -- The id `t` stands for the type `k`.
  abbrev pub Is : ℕ → TyKind → Type 0
  Is t k = get_elem? m.types t ≡ some k

  -- Field `i` of a value of a type, or of the variant that is downcast to.
  pub data FieldOf : TyKind → Option (ℕ × ℕ) → ℕ → TyKind → Type 0 where
    of_variant :
        (k : TyKind) (s v i t : ℕ) (def : SumDef) (w : Variant) (u : TyKind)
        → get_elem? m.sums s ≡ some def
        → get_elem? def.variants v ≡ some w
        → get_elem? w.payload i ≡ some t
        → Is t u
        → FieldOf k (some (s, v)) i u
    of_struct :
        (s i : ℕ) (def : StructDef) (d : Field) (u : TyKind)
        → get_elem? m.structs s ≡ some def
        → get_elem? def.fields i ≡ some d
        → Is d.ty u
        → FieldOf (struct_ty s) none i u
    of_tuple :
        (elems : List ℕ) (i t : ℕ) (u : TyKind)
        → get_elem? elems i ≡ some t
        → Is t u
        → FieldOf (tuple_ty elems) none i u
    of_soa_slice :
        (inner e s i : ℕ) (def : StructDef) (d : Field)
        → Is inner (slice e)
        → Is e (struct_ty s)
        → get_elem? m.structs s ≡ some def
        → get_elem? def.fields i ≡ some d
        → FieldOf (soa inner) none i (slice d.ty)
    of_soa_vec :
        (inner e s i : ℕ) (def : StructDef) (d : Field)
        → Is inner (vec_ty e)
        → Is e (struct_ty s)
        → get_elem? m.structs s ≡ some def
        → get_elem? def.fields i ≡ some d
        → FieldOf (soa inner) none i (vec_ty d.ty)

  -- The element of a container.
  pub data ElemOf : TyKind → TyKind → Type 0 where
    in_slice : (e : ℕ) (u : TyKind) → Is e u → ElemOf (slice e) u
    in_array : (e n : ℕ) (u : TyKind) → Is e u → ElemOf (array_ty e n) u
    in_soa_slice : (inner e : ℕ) (u : TyKind) → Is inner (slice e) → Is e u → ElemOf (soa inner) u
    in_soa_array :
        (inner e n : ℕ) (u : TyKind) → Is inner (array_ty e n) → Is e u → ElemOf (soa inner) u
    in_soa_vec : (inner e : ℕ) (u : TyKind) → Is inner (vec_ty e) → Is e u → ElemOf (soa inner) u

  -- A literal whose type is there.
  pub data ConstOk : Const → Type 0 where
    int_ok : (n : _) (t : ℕ) (u : TyKind) → Is t u → ConstOk (int n t)
    float_ok : (x t : ℕ) (u : TyKind) → Is t u → ConstOk (float x t)
    bool_ok : (b : _) → ConstOk (bool b)
    str_ok : (s : List ℕ) → ConstOk (str s)
    ghosted_ok : ConstOk ghosted
    null_ok : ConstOk null_ptr
    fn_ok : (id : ℕ) → ConstOk (fn_ref id)

module _ (m : Module) (f : Func) where
  mutual
    pub data HasKind : Place → TyKind → Type 0 where
      has_kind :
          (l : ℕ) (ps : Projs) (d : Local) (k u : TyKind)
          → get_elem? f.locals l ≡ some d
          → Is m d.ty k
          → Projects k none ps u
          → HasKind (place l ps) u

    -- The projections lead from a type, with a downcast that is pending, to another.
    pub data Projects : TyKind → Option (ℕ × ℕ) → Projs → TyKind → Type 0 where
      stop : (k : TyKind) (pending : Option (ℕ × ℕ)) → Projects k pending no_proj k
      by_field :
          (k : TyKind) (pending : Option (ℕ × ℕ)) (i : ℕ) (ps : Projs) (t u : TyKind)
          → FieldOf m k pending i t
          → Projects t none ps u
          → Projects k pending (then_proj (field i) ps) u
      by_index :
          (k : TyKind) (pending : Option (ℕ × ℕ)) (op : Operand) (ps : Projs) (t u : TyKind)
          → OperandOk op
          → ElemOf m k t
          → Projects t pending ps u
          → Projects k pending (then_proj (index op) ps) u
      by_deref :
          (e : ℕ) (pending : Option (ℕ × ℕ)) (ps : Projs) (t u : TyKind)
          → Is m e t
          → Projects t pending ps u
          → Projects (ref e) pending (then_proj deref ps) u
      by_downcast :
          (s v : ℕ) (pending : Option (ℕ × ℕ)) (ps : Projs) (u : TyKind)
          → Projects (sum_ty s) (some (s, v)) ps u
          → Projects (sum_ty s) pending (then_proj (downcast v) ps) u

    pub data OperandOk : Operand → Type 0 where
      const_ok : (c : Const) → ConstOk m c → OperandOk (const c)
      copy_ok : (p : Place) (u : TyKind) → HasKind p u → OperandOk (copy p)
      moved_ok : (p : Place) (u : TyKind) → HasKind p u → OperandOk (moved p)
