-- ===== src/Midir/Ir/Eq.antt =====
-- The derived equality of places, projections, operands and constants. A float is compared as IEEE
-- does: no NaN is equal, and the two zeros are.
use bet.Prelude.{ℕ, ◌%◌, ◌^◌, Bool, true, false, ◌&&◌, ◌||◌, not, List, [], ◌∷◌, ◌==◌, ltb}
use bet.Midir.Ir.{
  ℤ, Const, Place, Projs, Proj, Operand, pos, negsuc, int, float, bool, str, ghosted, null_ptr,
  fn_ref, place, no_proj, then_proj, field, index, deref, downcast, const, copy, moved,
}

abbrev pub ℤ_eq : ℤ → ℤ → Bool
ℤ_eq (pos a) (pos b) = a == b
ℤ_eq (negsuc a) (negsuc b) = a == b
ℤ_eq (pos a) (negsuc b) = false
ℤ_eq (negsuc a) (pos b) = false

-- The bits without the sign; above the infinity's they are a NaN.
abbrev pub magnitude : ℕ → ℕ
magnitude bits = bits % 2 ^ 63

abbrev pub is_nan : ℕ → Bool
is_nan bits = ltb 0x7ff0000000000000 (magnitude bits)

abbrev pub f64_eq : ℕ → ℕ → Bool
f64_eq a b =
    not (is_nan a) && (not (is_nan b) && (a == b || (magnitude a == 0 && magnitude b == 0)))

abbrev pub text_eq : List ℕ → List ℕ → Bool
text_eq [] [] = true
text_eq [] (c ∷ cs) = false
text_eq (c ∷ cs) [] = false
text_eq (a ∷ xs) (b ∷ ys) = a == b && text_eq xs ys

abbrev pub bool_eq : Bool → Bool → Bool
bool_eq true b = b
bool_eq false b = not b

unfoldable pub const_eq : Const → Const → Bool
const_eq (int a t) (int b u) = ℤ_eq a b && t == u
const_eq (float a t) (float b u) = f64_eq a b && t == u
const_eq (bool a) (bool b) = bool_eq a b
const_eq (str a) (str b) = text_eq a b
const_eq ghosted ghosted = true
const_eq null_ptr null_ptr = true
const_eq (fn_ref a) (fn_ref b) = a == b
const_eq _ _ = false

unfoldable mutual
  unfolding const_eq

  pub place_eq : Place → Place → Bool
  place_eq (place l ps) (place k qs) = l == k && projs_eq ps qs

  pub projs_eq : Projs → Projs → Bool
  projs_eq no_proj no_proj = true
  projs_eq no_proj (then_proj q qs) = false
  projs_eq (then_proj p ps) no_proj = false
  projs_eq (then_proj p ps) (then_proj q qs) = proj_eq p q && projs_eq ps qs

  pub proj_eq : Proj → Proj → Bool
  proj_eq (field i) (field j) = i == j
  proj_eq (index a) (index b) = operand_eq a b
  proj_eq deref deref = true
  proj_eq (downcast v) (downcast w) = v == w
  proj_eq _ _ = false

  pub operand_eq : Operand → Operand → Bool
  operand_eq (const a) (const b) = const_eq a b
  operand_eq (copy p) (copy q) = place_eq p q
  operand_eq (moved p) (moved q) = place_eq p q
  operand_eq _ _ = false
