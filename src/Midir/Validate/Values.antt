-- ===== src/Midir/Validate/Values.antt =====
-- `rvalue_kind` of crates/midir/src/validate.rs, with the checks of calls, aggregates, casts and
-- overflow modes.
use bet.Prelude.{
  ℕ, suc, ◌%◌, ◌^◌, Bool, true, false, ◌&&◌, ◌||◌, not, Option, none, some, List, [], ◌∷◌, ◌==◌,
  length, get_elem?, if◌then◌else◌,
}
use bet.Midir.Ir.{
  Operand, Callee, AggKind, SimdOp, CopInit, BinOp, UnOp, ArithMode, CastKind, Rvalue, Func, direct,
  indirect, extern, struct_of, tuple, array, sum_of, simd_of, vmin, vmax, dot, struct_lit,
  sum_variant, add, sub, mul, div, rem, eq_op, ne_op, lt_op, le_op, gt_op, ge_op, neg, not_op,
  bit_not, wrap, trap, na, int_zext, int_sext, int_trunc, int_to_float, float_to_int, float_resize,
  bitcast, use_of, bin_op, un_op, cast, call, aggregate, simd, discriminant, cop, trust, str_ptr,
  str_len, slice_ptr, slice_len, addr_of, make_slice, crib_new, crib_global, size_of, make_str,
}
use bet.Midir.Module.{
  Module, w64, TyKind, bool_ty, int_ty, f32, f64, str_ty, void, raw_ptr, struct_ty, sum_ty, slice,
  array_ty, tag_ty, crib_ty, ref, simd_ty, fn_ptr, tuple_ty, StructDef, SumDef, Variant, Extern,
}
use bet.Midir.Validate.Report.{
  ValidationError, bad_id, bad_shape, type_mismatch, Checked, ◌>>=◌, pure, report, entry_at,
}
use bet.Midir.Validate.Places.{
  Kind, same_kind, ty, known, struct_def, sum_def, place_kind, operand_kind,
}

-- `BinOp::is_comparison`, and the operators of `is_arith`.
abbrev pub is_comparison : BinOp → Bool
is_comparison eq_op = true
is_comparison ne_op = true
is_comparison lt_op = true
is_comparison le_op = true
is_comparison gt_op = true
is_comparison ge_op = true
is_comparison _ = false

abbrev pub is_arith : BinOp → Bool
is_arith add = true
is_arith sub = true
is_arith mul = true
is_arith div = true
is_arith rem = true
is_arith _ = false

abbrev pub is_na : ArithMode → Bool
is_na na = true
is_na wrap = false
is_na trap = false

abbrev pub is_int : TyKind → Bool
is_int (int_ty width signed) = true
is_int _ = false

abbrev pub is_float : TyKind → Bool
is_float f32 = true
is_float f64 = true
is_float _ = false

abbrev pub expect_that : Bool → ValidationError → Checked (Unit {0})
expect_that true e = pure tt
expect_that false e = report e tt

-- Two kinds that are both known are the same.
abbrev pub agree : Option TyKind → Option TyKind → Bool
agree (some a) (some b) = same_kind a b
agree _ _ = true

abbrev pub mode_fits : BinOp → ArithMode → Option TyKind → Bool
mode_fits op mode none = is_arith op || is_na mode
mode_fits op mode (some k) =
    if is_arith op
    then not (is_int k && is_na mode) && not (is_float k && not (is_na mode))
    else is_na mode

abbrev pub cast_fits : CastKind → TyKind → TyKind → Bool
cast_fits int_zext src target = is_int src && is_int target
cast_fits int_sext src target = is_int src && is_int target
cast_fits int_trunc src target = is_int src && is_int target
cast_fits int_to_float src target = is_int src && is_float target
cast_fits float_to_int src target = is_float src && is_int target
cast_fits float_resize src target = is_float src && is_float target
cast_fits bitcast src target = true

abbrev pub cast_known : CastKind → Option TyKind → TyKind → Bool
cast_known kind none target = true
cast_known kind (some src) target = cast_fits kind src target

abbrev pub is_str_or_open : Option TyKind → Bool
is_str_or_open none = true
is_str_or_open (some k) = same_kind k str_ty

abbrev pub is_slice_or_open : Option TyKind → Bool
is_slice_or_open none = true
is_slice_or_open (some (slice e)) = true
is_slice_or_open (some _) = false

abbrev pub u64_kind : TyKind
u64_kind = int_ty w64 false

-- The number of arguments of a vector operation.
abbrev pub simd_args : SimdOp → ℕ
simd_args vmin = 2
simd_args vmax = 2
simd_args dot = 2
simd_args _ = 1

abbrev pub binary_kind : BinOp → Option TyKind → Option TyKind
binary_kind op ka = if is_comparison op then some bool_ty else ka

abbrev pub unary_kind : UnOp → Option TyKind → Option TyKind
unary_kind not_op ka = some bool_ty
unary_kind neg ka = ka
unary_kind bit_not ka = ka

-- `find_ty`: the first type of the table that is the same.
abbrev pub find_from : ℕ → List TyKind → TyKind → Option ℕ
find_from i [] k = none
find_from i (t ∷ types) k =
    let rest = find_from (suc i) types k in if same_kind t k then some (i % 2 ^ 32) else rest

abbrev pub ref_or_raw : Option ℕ → Option TyKind
ref_or_raw none = some raw_ptr
ref_or_raw (some id) = some (ref id)

abbrev pub aggregate_of : CopInit → TyKind
aggregate_of (struct_lit sid fields) = struct_ty sid
aggregate_of (sum_variant sum v ops) = sum_ty sum

abbrev pub is_void : TyKind → Bool
is_void void = true
is_void _ = false

abbrev pub trust_kind : Option TyKind → Option TyKind
trust_kind (some (crib_ty elem)) = some (ref elem)
trust_kind _ = none

module _ (m : Module) (f : Func) where
  -- The loops over operands.
  abbrev pub visit_args : List Operand → Checked (Unit {0})
  visit_args [] = pure tt
  visit_args (op ∷ ops) = operand_kind m f op >>= λ o. visit_args ops

  abbrev pub visit_fields : List (ℕ × Operand) → Checked (Unit {0})
  visit_fields [] = pure tt
  visit_fields (q ∷ fields) = operand_kind m f q.1 >>= λ o. visit_fields fields

  -- The kind of an argument against its parameter, where both are known.
  abbrev pub match_param : Option TyKind → Option ℕ → Checked (Unit {0})
  match_param none p = pure tt
  match_param (some k) none = pure tt
  match_param (some k) (some p) =
      ty m p >>= λ want. expect_that (same_kind k want) (type_mismatch f.name)

  abbrev pub args_from : ℕ → List ℕ → List Operand → Checked (Unit {0})
  args_from i params [] = pure tt
  args_from i params (arg ∷ args) = operand_kind m f arg >>= λ k.
      match_param k (get_elem? params i) >>= λ u. args_from (suc i) params args

  unfoldable pub check_call_args : List ℕ → List Operand → Checked (Unit {0})
  check_call_args params args =
      expect_that (length params == length args) (bad_shape f.name) >>= λ u. args_from 0 params args

  abbrev pub rets_to_kind : List ℕ → Checked TyKind
  rets_to_kind [] = pure void
  rets_to_kind (one ∷ []) = ty m one
  rets_to_kind (one ∷ two ∷ more) = pure (tuple_ty (one ∷ two ∷ more))

  abbrev pub call_to : List ℕ → List ℕ → List Operand → Kind
  call_to params rets args = check_call_args params args >>= λ u. known (rets_to_kind rets)

  abbrev pub dangling_call : List Operand → Kind
  dangling_call args = visit_args args >>= λ u. report (bad_id f.name) none

  abbrev pub direct_call : List Operand → Option Func → Kind
  direct_call args none = dangling_call args
  direct_call args (some target) = call_to target.params target.rets args

  abbrev pub extern_call : List Operand → Option Extern → Kind
  extern_call args none = dangling_call args
  extern_call args (some target) = call_to target.sig.params target.sig.rets args

  abbrev pub indirect_call : List Operand → Option TyKind → Kind
  indirect_call args (some (fn_ptr sig)) =
      entry_at (get_elem? m.sigs sig) >>= λ s. call_to s.params s.rets args
  indirect_call args _ = visit_args args >>= λ u. pure none

  unfoldable pub call_kind : Callee → List Operand → Kind
  unfolding operand_kind
  call_kind (direct fid) args = direct_call args (get_elem? m.funcs fid)
  call_kind (extern eid) args = extern_call args (get_elem? m.externs eid)
  call_kind (indirect op) args = operand_kind m f op >>= indirect_call args

  -- The shape of a struct with `n` values, and of a variant with `n` payloads.
  abbrev pub struct_takes : ℕ → Option StructDef → Checked (Unit {0})
  struct_takes n none = pure tt
  struct_takes n (some def) = expect_that (length def.fields == n) (bad_shape f.name)

  abbrev pub variant_takes : ℕ → Option Variant → Checked (Unit {0})
  variant_takes n none = report (bad_id f.name) tt
  variant_takes n (some v) = expect_that (length v.payload == n) (bad_shape f.name)

  abbrev pub sum_takes : ℕ → ℕ → Option SumDef → Checked (Unit {0})
  sum_takes variant n none = pure tt
  sum_takes variant n (some def) = variant_takes n (get_elem? def.variants variant)

  abbrev pub aggregate_kind : AggKind → ℕ → Kind
  aggregate_kind (struct_of sid) n =
      struct_def m f.name sid >>= λ o. struct_takes n o >>= λ u. pure (some (struct_ty sid))
  aggregate_kind tuple n = pure none
  aggregate_kind (array elem) n = pure (some (array_ty elem n))
  aggregate_kind (simd_of elem) n = pure (some (simd_ty elem (n % 2 ^ 32)))
  aggregate_kind (sum_of sum variant) n =
      sum_def m f.name sum >>= λ o. sum_takes variant n o >>= λ u. pure (some (sum_ty sum))

  unfoldable pub check_cop_init : CopInit → Checked (Unit {0})
  check_cop_init (struct_lit sid fields) =
      visit_fields fields >>= λ u. struct_def m f.name sid >>= struct_takes (length fields)
  check_cop_init (sum_variant sid variant ops) =
      visit_args ops >>= λ u. sum_def m f.name sid >>= sum_takes variant (length ops)

  abbrev pub cop_elem : CopInit → ℕ → TyKind → Option TyKind
  cop_elem init elem k =
      if is_void k then ref_or_raw (find_from 0 m.types (aggregate_of init)) else some (tag_ty elem)

  abbrev pub cop_kind : CopInit → Option TyKind → Kind
  cop_kind init (some (crib_ty elem)) = ty m elem >>= λ k. pure (cop_elem init elem k)
  cop_kind init _ = pure none

  unfoldable pub rvalue_kind : Rvalue → Kind
  unfolding operand_kind place_kind call_kind check_cop_init
  rvalue_kind (use_of op) = operand_kind m f op
  rvalue_kind (bin_op op a b mode) = operand_kind m f a >>= λ ka. operand_kind m f b >>= λ kb.
      expect_that (agree ka kb || is_comparison op) (type_mismatch f.name) >>= λ u.
      expect_that (mode_fits op mode ka) (type_mismatch f.name) >>= λ w. pure (binary_kind op ka)
  rvalue_kind (un_op op a) = operand_kind m f a >>= λ ka. pure (unary_kind op ka)
  rvalue_kind (cast op t kind) = operand_kind m f op >>= λ src. ty m t >>= λ target.
      expect_that (cast_known kind src target) (type_mismatch f.name) >>= λ u. pure (some target)
  rvalue_kind (call callee args) = call_kind callee args
  rvalue_kind (aggregate kind ops) = visit_args ops >>= λ u. aggregate_kind kind (length ops)
  rvalue_kind (simd op args t) = visit_args args >>= λ u.
      expect_that (length args == simd_args op) (bad_shape f.name) >>= λ w. known (ty m t)
  rvalue_kind (discriminant op) = operand_kind m f op >>= λ k. pure none
  rvalue_kind (cop crib init) =
      operand_kind m f crib >>= λ k. check_cop_init init >>= λ u. cop_kind init k
  rvalue_kind (trust crib tag) =
      operand_kind m f crib >>= λ k. operand_kind m f tag >>= λ t. pure (trust_kind k)
  rvalue_kind (str_ptr op) = operand_kind m f op >>= λ k.
      expect_that (is_str_or_open k) (type_mismatch f.name) >>= λ u. pure (some raw_ptr)
  rvalue_kind (str_len op) = operand_kind m f op >>= λ k.
      expect_that (is_str_or_open k) (type_mismatch f.name) >>= λ u. pure (some u64_kind)
  rvalue_kind (slice_ptr op) = operand_kind m f op >>= λ k.
      expect_that (is_slice_or_open k) (type_mismatch f.name) >>= λ u. pure (some raw_ptr)
  rvalue_kind (slice_len op) = operand_kind m f op >>= λ k.
      expect_that (is_slice_or_open k) (type_mismatch f.name) >>= λ u. pure (some u64_kind)
  rvalue_kind (addr_of p) = place_kind m f p >>= λ k. pure (some raw_ptr)
  rvalue_kind (make_slice d len elem) =
      operand_kind m f d >>= λ k. operand_kind m f len >>= λ n. pure (some (slice elem))
  rvalue_kind (crib_new elem capacity) = pure (some (crib_ty elem))
  rvalue_kind (crib_global id) =
      entry_at (get_elem? m.crib_globals id) >>= λ g. pure (some (crib_ty g.elem))
  rvalue_kind (size_of t) = pure (some u64_kind)
  rvalue_kind (make_str d len) =
      operand_kind m f d >>= λ k. operand_kind m f len >>= λ n. pure (some str_ty)
