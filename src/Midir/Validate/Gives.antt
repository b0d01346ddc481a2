-- ===== src/Midir/Validate/Gives.antt =====
-- The typing rules of operands and rvalues that do not hold a context-typed value: which type an rvalue
-- gives. They do not mention the checker.
use bet.Prelude.{ℕ, ◌%◌, ◌^◌, ◌≡◌, ◌≢◌, Bool, false, some, List, [], ◌∷◌, length, get_elem?}
use bet.Midir.Ir.{
  int, float, bool, str, Place, Operand, const, copy, moved, direct, indirect, extern, struct_of,
  array, simd_of, sum_of, SimdOp, CopInit, BinOp, neg, not_op, bit_not, ArithMode, CastKind, Rvalue,
  use_of, bin_op, un_op, cast, call, aggregate, simd, cop, trust, str_ptr, str_len, slice_ptr,
  slice_len, addr_of, make_slice, crib_new, crib_global, size_of, make_str, Func, add, sub, mul,
  div, rem, band, bor, bxor, shl, shr, eq_op, ne_op, lt_op, le_op, gt_op, ge_op,
}
use bet.Midir.Module.{
  Module, TyKind, w64, bool_ty, int_ty, str_ty, void, raw_ptr, struct_ty, sum_ty, slice, array_ty,
  tag_ty, crib_ty, ref, simd_ty, fn_ptr, tuple_ty, Sig, Extern, CribGlobal,
}
use bet.Midir.Validate.Typing.{Is, HasKind}

-- The operators that give a `bool`.
pub data Compares : BinOp → Type 0 where
  eq_compares : Compares eq_op
  ne_compares : Compares ne_op
  lt_compares : Compares lt_op
  le_compares : Compares le_op
  gt_compares : Compares gt_op
  ge_compares : Compares ge_op

-- The others, which give the type of their operands.
pub data Combines : BinOp → Type 0 where
  add_combines : Combines add
  sub_combines : Combines sub
  mul_combines : Combines mul
  div_combines : Combines div
  rem_combines : Combines rem
  and_combines : Combines band
  or_combines : Combines bor
  xor_combines : Combines bxor
  shl_combines : Combines shl
  shr_combines : Combines shr

module _ (m : Module) where
  -- The type of a call's result, by the types that the function returns.
  pub data Returns : List ℕ → TyKind → Type 0 where
    no_value : Returns [] void
    one_value : (t : ℕ) (k : TyKind) → Is m t k → Returns (t ∷ []) k
    more_values : (t u : ℕ) (ts : List ℕ) → Returns (t ∷ u ∷ ts) (tuple_ty (t ∷ u ∷ ts))

module _ (m : Module) (f : Func) where
  pub data OperandKind : Operand → TyKind → Type 0 where
    int_kind : (n : _) (t : ℕ) (k : TyKind) → Is m t k → OperandKind (const (int n t)) k
    float_kind : (x t : ℕ) (k : TyKind) → Is m t k → OperandKind (const (float x t)) k
    bool_kind : (b : Bool) → OperandKind (const (bool b)) bool_ty
    str_kind : (s : List ℕ) → OperandKind (const (str s)) str_ty
    copy_kind : (p : Place) (k : TyKind) → HasKind m f p k → OperandKind (copy p) k
    moved_kind : (p : Place) (k : TyKind) → HasKind m f p k → OperandKind (moved p) k

  pub data Gives : Rvalue → TyKind → Type 0 where
    use_gives : (op : Operand) (k : TyKind) → OperandKind op k → Gives (use_of op) k
    compare_gives :
        (op : BinOp) (a b : Operand) (mode : ArithMode)
        → Compares op
        → Gives (bin_op op a b mode) bool_ty
    combine_gives :
        (op : BinOp) (a b : Operand) (mode : ArithMode) (k : TyKind)
        → Combines op
        → OperandKind a k
        → Gives (bin_op op a b mode) k
    not_gives : (a : Operand) → Gives (un_op not_op a) bool_ty
    neg_gives : (a : Operand) (k : TyKind) → OperandKind a k → Gives (un_op neg a) k
    bit_not_gives : (a : Operand) (k : TyKind) → OperandKind a k → Gives (un_op bit_not a) k
    cast_gives :
        (op : Operand) (t : ℕ) (kind : CastKind) (k : TyKind) → Is m t k → Gives (cast op t kind) k
    direct_gives :
        (id : ℕ) (args : List Operand) (g : Func) (k : TyKind)
        → get_elem? m.funcs id ≡ some g
        → Returns m g.rets k
        → Gives (call (direct id) args) k
    extern_gives :
        (id : ℕ) (args : List Operand) (e : Extern) (k : TyKind)
        → get_elem? m.externs id ≡ some e
        → Returns m e.sig.rets k
        → Gives (call (extern id) args) k
    indirect_gives :
        (op : Operand) (args : List Operand) (id : ℕ) (s : Sig) (k : TyKind)
        → OperandKind op (fn_ptr id)
        → get_elem? m.sigs id ≡ some s
        → Returns m s.rets k
        → Gives (call (indirect op) args) k
    struct_gives :
        (id : ℕ) (ops : List Operand) → Gives (aggregate (struct_of id) ops) (struct_ty id)
    sum_gives : (id v : ℕ) (ops : List Operand) → Gives (aggregate (sum_of id v) ops) (sum_ty id)
    array_gives :
        (e : ℕ) (ops : List Operand) → Gives (aggregate (array e) ops) (array_ty e (length ops))
    simd_of_gives :
        (e : ℕ) (ops : List Operand)
        → Gives (aggregate (simd_of e) ops) (simd_ty e (length ops % 2 ^ 32))
    simd_gives :
        (op : SimdOp) (args : List Operand) (t : ℕ) (k : TyKind)
        → Is m t k
        → Gives (simd op args t) k
    cop_gives :
        (crib : Operand) (init : CopInit) (e : ℕ) (k : TyKind)
        → OperandKind crib (crib_ty e)
        → Is m e k
        → k ≢ void
        → Gives (cop crib init) (tag_ty e)
    trust_gives :
        (crib tag : Operand) (e : ℕ) → OperandKind crib (crib_ty e) → Gives (trust crib tag) (ref e)
    str_ptr_gives : (op : Operand) → Gives (str_ptr op) raw_ptr
    str_len_gives : (op : Operand) → Gives (str_len op) (int_ty w64 false)
    slice_ptr_gives : (op : Operand) → Gives (slice_ptr op) raw_ptr
    slice_len_gives : (op : Operand) → Gives (slice_len op) (int_ty w64 false)
    addr_gives : (p : Place) → Gives (addr_of p) raw_ptr
    make_slice_gives : (d n : Operand) (e : ℕ) → Gives (make_slice d n e) (slice e)
    crib_new_gives : (e capacity : ℕ) → Gives (crib_new e capacity) (crib_ty e)
    crib_global_gives :
        (id : ℕ) (g : CribGlobal)
        → get_elem? m.crib_globals id ≡ some g
        → Gives (crib_global id) (crib_ty g.elem)
    size_of_gives : (t : ℕ) → Gives (size_of t) (int_ty w64 false)
    make_str_gives : (d n : Operand) → Gives (make_str d n) str_ty
