-- ===== src/Interp/Ints/Exact.antt =====
-- What the arithmetic of sized integers gives: the exact result or a trap for signed types, the result
-- modulo the width for unsigned ones.
use native.Mathlib.Nat.{
  mod-lt, mod-mod, mod-eq_of_lt, mod-mod_of_dvd, pow-le-pow_right, add-mul-mod_self_left,
  dvd-mul_right, mul-suc,
}
use Prim.Native.Nat.{◌∣◌}
use bet.Prelude.{
  if-either, ℕ, zero, suc, ◌+◌, ◌-◌, ◌*◌, ◌%◌, ◌^◌, ◌<◌, ◌≤◌, ◌≡◌, ◌↔◌, ◌⊎◌, inl, inr, refl, ap,
  sym, ◌∙◌, subst, Bool, true, false, ◌&&◌, not, leb, leb→le, arith, if◌then◌else◌, Bool-cases,
  ==_iff,
}
use bet.Prelude.Masks.{two_pow_pos, two_pow_add}
use bet.Midir.Ir.{ℤ, pos, negsuc}
use bet.Interp.Whole.{rem_euclid, eqℤ}
use bet.Interp.Value.{IntTy, int, What, overflow, ok, fails}
use bet.Interp.Ints.{
  BinOp, add, sub, mul, same_repr, word, resign, wrap_to, combine_int_ty, operand_u64,
  store_unsigned, trapped, exact, what_of, wrapping, arithmetic, int_binary,
}
use bet.Interp.Ints.Fits.{IsIntTy, Within-Fits, Fits, wrap_to_lem, resign_lem, rem_euclid-lt}

pub eqℤ_iff : (a b : ℤ) → (eqℤ a b ≡ true) ↔ (a ≡ b)
eqℤ_iff (pos a) (pos b) =
    (λ h. ap pos ((==_iff a b).0 h), λ h. let e : a ≡ b = cc in (==_iff a b).1 e)
eqℤ_iff (negsuc a) (negsuc b) =
    (λ h. ap negsuc ((==_iff a b).0 h), λ h. let e : a ≡ b = cc in (==_iff a b).1 e)
eqℤ_iff (pos a) (negsuc b) = (λ h. cc, λ h. cc)
eqℤ_iff (negsuc a) (pos b) = (λ h. cc, λ h. cc)

-- The type of a result is the type of one of the operands.
combine_cases : (a b : IntTy) → (combine_int_ty a b ≡ a) ⊎ (combine_int_ty a b ≡ b)
unfolding combine_int_ty
combine_cases a b =
    let P = λ (t : IntTy). (t ≡ a) ⊎ (t ≡ b) in
    if-either P (same_repr a b) a _ (inl refl) (
      if-either P (not (same_repr a word) && same_repr b word) a _ (inl refl) (
        if-either P (same_repr a word && not (same_repr b word)) b _ (inr refl)
          (if-either P (leb b.bits a.bits) a b (inl refl) (inr refl))))

pub combine-IsIntTy : (a b : IntTy) → IsIntTy a → IsIntTy b → IsIntTy (combine_int_ty a b)
combine-IsIntTy a b p q = elim (combine_cases a b) [
  | inl e ↦ subst IsIntTy (sym e) p
  | inr e ↦ subst IsIntTy (sym e) q
]

-- The three operators that a width traps or wraps.
pub data IsExact : BinOp → Type 0 where
  add_exact : IsExact add
  sub_exact : IsExact sub
  mul_exact : IsExact mul

pub trapped_lem :
    (what : What) (res : ℤ) (ty : IntTy)
    → IsIntTy ty
    → (Fits ty res × (trapped what res ty ≡ ok (int res ty)))
      ⊎ ((¬ Fits ty res) × (trapped what res ty ≡ fails (overflow what)))
unfolding trapped
trapped_lem what res ty t = elim (Bool-cases (eqℤ (wrap_to res ty) res)) [
  | inl y ↦
      let e = (eqℤ_iff (wrap_to res ty) res).0 y in
      inl ((wrap_to_lem res ty t).2.0 e, rw y (ap (λ (v : ℤ). ok (int v ty)) e))
  | inr n ↦ inr (
    (λ f.
        let e = (eqℤ_iff (wrap_to res ty) res).1 ((wrap_to_lem res ty t).2.1 f) in
        let no : true ≡ false = sym e ∙ n in cc),
    rw n refl,
  )
]

pub arithmetic_signed :
    (op : BinOp) (a b : ℤ) (ty : IntTy)
    → ty.signed ≡ true
    → arithmetic op a b ty ≡ trapped (what_of op) (exact op a b) ty
unfolding arithmetic
arithmetic_signed op a b ty s =
    ap
      (λ (x : Bool).
        if x
        then trapped (what_of op) (exact op a b) ty
        else ok (store_unsigned (wrapping op (operand_u64 a ty) (operand_u64 b ty)) ty))
      s

int_binary_exact :
    (op : BinOp) (a : ℤ) (ta : IntTy) (b : ℤ) (tb : IntTy)
    → IsExact op
    → int_binary op a ta b tb ≡ arithmetic op a b (combine_int_ty ta tb)
unfolding int_binary
int_binary_exact op a ta b tb add_exact = refl
int_binary_exact op a ta b tb sub_exact = refl
int_binary_exact op a ta b tb mul_exact = refl

-- Where the type is unsigned, a stored result reads back as the low bits, and fits.
pub store_unsigned_lem :
    (res : ℕ) (ty : IntTy)
    → IsIntTy ty
    → ty.signed ≡ false
    → (w : ℤ) × (store_unsigned res ty ≡ int w ty)
      × Fits ty w
      × (operand_u64 w ty ≡ res % 2 ^ ty.bits)
unfolding store_unsigned operand_u64
store_unsigned_lem res ty t s = elim (Bool-cases (leb 64 ty.bits)) [
  | inl wide ↦
      let l = leb→le 64 ty.bits wide in
      let u = t.bits_fit in
      let b : ty.bits ≡ 64 = omega arith in
      let r = resign_lem 64 (res % 2 ^ 64) (omega arith) (mod-lt res (omega arith)) in
      (
        resign 64 (res % 2 ^ 64),
        rw wide refl,
        Within-Fits ty (2 ^ 63) (resign 64 (res % 2 ^ 64)) (rw wide refl) (rw wide refl) r.0,
        rw wide (r.1 ∙ ap (λ (k : ℕ). res % 2 ^ k) (sym b)),
      )
  | inr narrow ↦
      let l : res % 2 ^ ty.bits < 2 ^ ty.bits = mod-lt res (two_pow_pos ty.bits) in
      let top : 2 ^ ty.bits ≤ 2 ^ 64 = pow-le-pow_right (omega arith) t.bits_fit in
      let small : res % 2 ^ ty.bits % 2 ^ 64 ≡ res % 2 ^ ty.bits = mod-eq_of_lt (omega arith) in
      (
        pos (res % 2 ^ ty.bits),
        rw narrow refl,
        rw (narrow, s) l,
        rw (narrow, small) (mod-mod res (2 ^ ty.bits)),
      )
]

pub operand_u64-lt : (a : ℤ) (ty : IntTy) → IsIntTy ty → operand_u64 a ty < 2 ^ ty.bits
unfolding operand_u64
operand_u64-lt a ty t = elim (Bool-cases (leb 64 ty.bits)) [
  | inl wide ↦
      let l = leb→le 64 ty.bits wide in
      let u = t.bits_fit in
      let b : ty.bits ≡ 64 = omega arith in
      rw wide (
        subst (λ (k : ℕ). rem_euclid a (2 ^ 64) < 2 ^ k) (sym b)
          (rem_euclid-lt a (2 ^ 64) (omega arith)))
  | inr narrow ↦ rw narrow (mod-lt (rem_euclid a (2 ^ 64)) (two_pow_pos ty.bits))
]

-- The operators modulo `d`.
abbrev pub modulo : ℕ → BinOp → ℕ → ℕ → ℕ
modulo d add x y = (x + y) % d
modulo d sub x y = (x + d - y) % d
modulo d _ x y = (x * y) % d

peel : (a c : ℕ) → 0 < c → a * c ≡ a + a * (c - 1)
peel a zero h = let no : ⊥ = omega arith in elim no [ ]
peel a (suc c) h = let e : suc c - 1 ≡ c = omega arith in rw e (mul-suc a c ∙ omega arith)

-- A `u128` that wraps, reduced to fewer bits.
wrapping_lem :
    (k : ℕ) (op : BinOp) (x y : ℕ)
    → k ≤ 128
    → IsExact op
    → y < 2 ^ k
    → wrapping op x y % 2 ^ k ≡ modulo (2 ^ k) op x y
wrapping_lem k op x y le e h = go op e
  where
    c : ℕ
    c = 2 ^ (128 - k)

    split : 2 ^ 128 ≡ 2 ^ k * c
    split =
        let e : 128 ≡ k + (128 - k) = omega arith in
        ap (λ (j : ℕ). 2 ^ j) e ∙ two_pow_add k (128 - k)

    some : 0 < c
    some = two_pow_pos (128 - k)

    rest : 2 ^ k * c ≡ 2 ^ k + 2 ^ k * (c - 1)
    rest = peel (2 ^ k) c some

    shape : x + 2 ^ 128 - y ≡ x + 2 ^ k - y + 2 ^ k * (c - 1)
    shape = omega (arith, split, rest)

    low : (n : ℕ) → n % 2 ^ 128 % 2 ^ k ≡ n % 2 ^ k
    low n =
        mod-mod_of_dvd (2 ^ k) n
          (subst (λ (m : ℕ). (2 ^ k) ∣ m) (sym split) (dvd-mul_right (2 ^ k) c))

    go : (op : BinOp) → IsExact op → wrapping op x y % 2 ^ k ≡ modulo (2 ^ k) op x y
    go op add_exact = low (x + y)
    go op mul_exact = low (x * y)
    go op sub_exact =
        low (x + 2 ^ 128 - y)
        ∙ ap (λ (n : ℕ). n % 2 ^ k) shape
        ∙ add-mul-mod_self_left (x + 2 ^ k - y) (2 ^ k) (c - 1)

pub arithmetic_unsigned :
    (op : BinOp) (a b : ℤ) (ty : IntTy)
    → ty.signed ≡ false
    → arithmetic op a b ty
      ≡ ok (store_unsigned (wrapping op (operand_u64 a ty) (operand_u64 b ty)) ty)
unfolding arithmetic
arithmetic_unsigned op a b ty s =
    ap
      (λ (x : Bool).
        if x
        then trapped (what_of op) (exact op a b) ty
        else ok (store_unsigned (wrapping op (operand_u64 a ty) (operand_u64 b ty)) ty))
      s

-- For a sum, a difference or a product of integers of 1 to 64 bits whose combined type is unsigned,
-- `int_binary` always gives an integer of that type, which fits it and reads as the result modulo 2
-- to the width.
pub unsigned_arithmetic :
    (op : BinOp) (a : ℤ) (ta : IntTy) (b : ℤ) (tb : IntTy)
    → IsExact op
    → IsIntTy ta
    → IsIntTy tb
    → (combine_int_ty ta tb).signed ≡ false
    → (w : ℤ) × (int_binary op a ta b tb ≡ ok (int w (combine_int_ty ta tb)))
      × Fits (combine_int_ty ta tb) w
      × (operand_u64 w (combine_int_ty ta tb)
          ≡ modulo
              (2 ^ (combine_int_ty ta tb).bits)
              op
              (operand_u64 a (combine_int_ty ta tb))
              (operand_u64 b (combine_int_ty ta tb)))
unsigned_arithmetic op a ta b tb x p q s =
    let ty = combine_int_ty ta tb in
    let t = combine-IsIntTy ta tb p q in
    let r = store_unsigned_lem (wrapping op (operand_u64 a ty) (operand_u64 b ty)) ty t s in
    let low = t.bits_fit in
    (
      r.0,
      int_binary_exact op a ta b tb x ∙ arithmetic_unsigned op a b ty s ∙ ap ok r.1,
      r.2,
      r.3
          ∙ wrapping_lem ty.bits op (operand_u64 a ty) (operand_u64 b ty) (omega arith) x
              (operand_u64-lt b ty t),
    )
