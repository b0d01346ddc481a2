-- ===== src/Prelude/Xor.antt =====
-- Bit facts about `^` on words: it is zero only on equal words, and keeps the width.
use Prim.Native.Nat.{
  ℕ, zero, suc, ◌+◌, ◌*◌, ◌/◌, ◌%◌, ◌^◌, ◌≤◌, ◌<◌, bit_xor, bit_xor-bitwise, differ,
}
use mathlib.Core.Path.{◌≡◌, refl}
use native.Mathlib.Nat.{pow-suc}
use native.Mathlib.Omega.{arith}
use bet.Prelude.Masks.{digits_split}

zero-xor : (b : ℕ) → bit_xor 0 b ≡ b
zero-xor b = bit_xor-bitwise 0 b

bits : (x y : ℕ) → x < 2 → y < 2 → (differ x y < 2) × (differ x y ≡ 0 → x ≡ y) × (differ 0 y ≡ y)
bits zero y p q = (omega arith, λ h. omega arith, refl)
bits (suc zero) zero p q = (omega arith, λ h. omega arith, refl)
bits (suc zero) (suc zero) p q = (omega arith, λ h. refl, refl)
bits (suc zero) (suc (suc y)) p q = absurd (omega arith)
bits (suc (suc x)) y p q = absurd (omega arith)

digit_bounds :
    (a b : ℕ)
    → (differ (a % 2) (b % 2) < 2)
      × (differ (a % 2) (b % 2) ≡ 0 → a % 2 ≡ b % 2)
      × (differ 0 (b % 2) ≡ b % 2)
digit_bounds a b = bits (a % 2) (b % 2) (omega arith) (omega arith)

xor_split : (a b : ℕ) → bit_xor a b ≡ bit_xor (a / 2) (b / 2) * 2 + differ (a % 2) (b % 2)
xor_split zero b = omega (arith, zero-xor b, zero-xor (b / 2), digit_bounds 0 b)
xor_split (suc a) b = omega (
  arith,
  bit_xor-bitwise (suc a) b,
  bit_xor-bitwise (suc a / 2) (b / 2),
  digits_split (λ t. t) differ a b,
)

xor_zero_below : (n a b : ℕ) → a ≤ n → bit_xor a b ≡ 0 → a ≡ b
xor_zero_below n zero b h e = omega (arith, zero-xor b)
xor_zero_below zero (suc a) b h e = elim h [ ]
xor_zero_below (suc n) (suc a) b h e =
    let s = xor_split (suc a) b in
    let d = digit_bounds (suc a) b in
    let low : differ (suc a % 2) (b % 2) ≡ 0 = omega arith in
    let high = xor_zero_below n (suc a / 2) (b / 2) (omega arith) (omega arith) in
    omega (arith, d.1 low)

pub xor_zero : (a b : ℕ) → bit_xor a b ≡ 0 → a ≡ b
xor_zero a b = xor_zero_below a a b (omega arith)

pub xor_width : (k a b : ℕ) → a < 2 ^ k → b < 2 ^ k → bit_xor a b < 2 ^ k
xor_width zero a b p q =
    let e : a ≡ 0 = omega arith in
    let f : b ≡ 0 = omega arith in rw (e, f) (omega (arith, zero-xor 0))
xor_width (suc k) a b p q = omega (
  arith,
  xor_split a b,
  digit_bounds a b,
  pow-suc 2 k,
  xor_width k (a / 2) (b / 2) (omega (arith, pow-suc 2 k)) (omega (arith, pow-suc 2 k)),
)
