-- ===== src/Prelude/Masks.antt =====
-- Clearing the low bits of a word by a mask: `x & !(2^k - 1)`.
use Prim.Native.Nat.{
  ℕ, zero, suc, ◌+◌, ◌-◌, ◌*◌, ◌/◌, ◌%◌, ◌^◌, ◌≤◌, ◌<◌, min, bit_and, digits, bit_and-bitwise,
}
use mathlib.Core.Path.{◌≡◌, refl, sym, ap, ◌∙◌}
use native.Mathlib.Nat.{pow-suc, div-div-eq-div-mul}
use native.Mathlib.Omega.{arith}

-- The fold over binary digits does not depend on its fuel, once that is no less than the number.
module _ (z : ℕ → ℕ) (f : ℕ → ℕ → ℕ) where
  pub digits_enough : (a n m b : ℕ) → a ≤ n → a ≤ m → digits z f n a b ≡ digits z f m a b
  digits_enough a n m b p q = go n m a b p q
    where
      go : (n m a b : ℕ) → a ≤ n → a ≤ m → digits z f n a b ≡ digits z f m a b
      go zero zero a b p q = refl
      go zero (suc m) zero b p q = refl
      go zero (suc m) (suc a) b p q = elim p [ ]
      go (suc n) zero zero b p q = refl
      go (suc n) zero (suc a) b p q = elim q [ ]
      go (suc n) (suc m) zero b p q = refl
      go (suc n) (suc m) (suc a) b p q =
          ap (λ (t : ℕ). t * 2 + f (suc a % 2) (b % 2))
            (go n m (suc a / 2) (b / 2) (omega arith) (omega arith))

  -- The lowest digit, split off.
  pub digits_split :
      (a b : ℕ)
      → digits z f (suc a) (suc a) b
        ≡ digits z f (suc a / 2) (suc a / 2) (b / 2) * 2 + f (suc a % 2) (b % 2)
  digits_split a b =
      ap (λ (t : ℕ). t * 2 + f (suc a % 2) (b % 2))
        (digits_enough (suc a / 2) a (suc a / 2) (b / 2) (omega arith) (omega arith))

and_split : (a b : ℕ) → bit_and a b ≡ bit_and (a / 2) (b / 2) * 2 + min (a % 2) (b % 2)
and_split zero b = omega (arith, bit_and-bitwise 0 b, bit_and-bitwise 0 (b / 2))
and_split (suc a) b = omega (
  arith,
  bit_and-bitwise (suc a) b,
  bit_and-bitwise (suc a / 2) (b / 2),
  digits_split (λ t. zero) min a b,
)

pub two_pow_pos : (k : ℕ) → 0 < 2 ^ k
two_pow_pos zero = omega arith
two_pow_pos (suc k) = omega (arith, two_pow_pos k, pow-suc 2 k)

-- A mask of `j` ones keeps a number of at most `j` digits.
and_ones : (j x : ℕ) → x < 2 ^ j → bit_and x (2 ^ j - 1) ≡ x
and_ones zero x h = let e : x ≡ 0 = omega arith in rw e (bit_and-bitwise 0 0)
and_ones (suc j) x h =
    let half : (2 ^ suc j - 1) / 2 ≡ 2 ^ j - 1 = omega (arith, two_pow_pos j, pow-suc 2 j) in
    let odd : (2 ^ suc j - 1) % 2 ≡ 1 = omega (arith, two_pow_pos j, pow-suc 2 j) in
    let ih = and_ones j (x / 2) (omega (arith, pow-suc 2 j)) in
    and_split x (2 ^ suc j - 1) ∙ rw (half, odd, ih) (omega arith)

-- A mask of `j` ones above `k` zeros clears the `k` lowest digits.
pub and_high : (k j x : ℕ) → x / 2 ^ k < 2 ^ j → bit_and x ((2 ^ j - 1) * 2 ^ k) ≡ x / 2 ^ k * 2 ^ k
and_high zero j x h =
    let m : (2 ^ j - 1) * 2 ^ 0 ≡ 2 ^ j - 1 = omega arith in
    let q : x / 2 ^ 0 * 2 ^ 0 ≡ x = omega arith in rw (m, q) (and_ones j x (omega arith))
and_high (suc k) j x h =
    let twice : 2 ^ suc k ≡ 2 * 2 ^ k = omega (arith, pow-suc 2 k) in
    let q : x / 2 ^ suc k ≡ x / 2 / 2 ^ k =
      ap (λ (t : ℕ). x / t) twice ∙ sym (div-div-eq-div-mul x 2 (2 ^ k)) in
    let mask : (2 ^ j - 1) * 2 ^ suc k ≡ (2 ^ j - 1) * 2 ^ k * 2 =
      ap (λ (t : ℕ). (2 ^ j - 1) * t) twice ∙ omega arith in
    let half : (2 ^ j - 1) * 2 ^ k * 2 / 2 ≡ (2 ^ j - 1) * 2 ^ k = omega arith in
    let even : (2 ^ j - 1) * 2 ^ k * 2 % 2 ≡ 0 = omega arith in
    let ih : bit_and (x / 2) ((2 ^ j - 1) * 2 ^ k) ≡ x / 2 / 2 ^ k * 2 ^ k =
      and_high k j (x / 2) (rw (← q) h) in
    rw mask (
      and_split x ((2 ^ j - 1) * 2 ^ k * 2)
      ∙ rw (half, even, ih, q) (omega (arith, ap (λ (t : ℕ). x / 2 / 2 ^ k * t) twice)))

pub two_pow_add : (j k : ℕ) → 2 ^ (j + k) ≡ 2 ^ j * 2 ^ k
two_pow_add zero k = let e : zero + k ≡ k = omega arith in rw e (omega arith)
two_pow_add (suc j) k =
    let e : suc j + k ≡ suc (j + k) = omega arith in
    rw e
      (omega (arith, two_pow_add j k, pow-suc 2 (j + k), ap (λ (t : ℕ). t * 2 ^ k) (pow-suc 2 j)))
