-- ===== src/Interp/Whole/Quotients.antt =====
-- `quot` and `rem` on whole numbers: the division that rounds to zero.
use native.Mathlib.Nat.{mod-lt, div-add-mod'}
use bet.Prelude.{
  ℕ, zero, suc, ◌+◌, ◌*◌, ◌/◌, ◌%◌, ◌<◌, ◌≡◌, ◌≢◌, false, leb, refl, ap, ap₂, sym, ◌∙◌, arith,
}
use bet.Midir.Ir.{ℤ, pos, negsuc}
use bet.Interp.Whole.{diff, ◌+ℤ◌, ◌*ℤ◌, quot, rem}

-- The absolute value.
abbrev pub magnitude : ℤ → ℕ
magnitude (pos n) = n
magnitude (negsuc n) = suc n

-- `q` and `r` divide `a` by `b` and round to zero: the product and the rest make up `a`, and so do their
-- absolute values, and the rest is smaller than the divisor.
pub record Divides (a b q r : ℤ) : Type 0 where
  pub whole : a ≡ q *ℤ b +ℤ r
  pub toward_zero : magnitude a ≡ magnitude (q *ℤ b) + magnitude r
  pub smaller : magnitude r < magnitude b

-- The negative of a natural number.
pub minus : (n : ℕ) → diff 0 (suc n) ≡ negsuc n
minus n = let below : leb (suc n) 0 ≡ false = ground arith in rw below (ap negsuc (omega arith))

pub magnitude-diff : (n : ℕ) → magnitude (diff 0 n) ≡ n
magnitude-diff zero = refl
magnitude-diff (suc n) = ap magnitude (minus n)

minus-plus : (m n : ℕ) → diff 0 m +ℤ diff 0 n ≡ diff 0 (m + n)
minus-plus zero zero = refl
minus-plus zero (suc n) = ap (λ (z : ℤ). pos 0 +ℤ z) (minus n) ∙ ap (diff 0) (omega arith)
minus-plus (suc m) zero = ap (λ (z : ℤ). z +ℤ pos 0) (minus m) ∙ ap (diff 0) (omega arith)
minus-plus (suc m) (suc n) =
    let sum : suc m + suc n ≡ suc (m + n + 1) = omega arith in
    ap₂ (λ (y z : ℤ). y +ℤ z) (minus m) (minus n) ∙ sym (minus (m + n + 1)) ∙ ap (diff 0) (sym sum)

minus-times-pos : (m n : ℕ) → diff 0 m *ℤ pos n ≡ diff 0 (m * n)
minus-times-pos zero n = let z : 0 * n ≡ 0 = omega arith in rw z refl
minus-times-pos (suc m) n = ap (λ (z : ℤ). z *ℤ pos n) (minus m)

minus-times-minus : (m n : ℕ) → diff 0 m *ℤ negsuc n ≡ pos (m * suc n)
minus-times-minus zero n = let z : 0 * suc n ≡ 0 = omega arith in rw z refl
minus-times-minus (suc m) n = ap (λ (z : ℤ). z *ℤ negsuc n) (minus m)

-- `a = m * b + r` on natural numbers.
parts : (a b : ℕ) → b ≢ 0 → (a ≡ a / b * b + a % b) × (a % b < b)
parts a b ne = (sym (div-add-mod' a b), mod-lt a (omega arith))

pub quot-rem-Divides : (a b : ℤ) → b ≢ pos 0 → Divides a b (quot a b) (rem a b)
quot-rem-Divides (pos a) (pos b) ne =
    let p = parts a b (λ e. ne (ap pos e)) in
    record { whole = ap pos p.0; toward_zero = p.0; smaller = p.1 }
quot-rem-Divides (pos a) (negsuc b) ne =
    let p = parts a (suc b) (λ e. cc) in
    let t = minus-times-minus (a / suc b) b in
    record {
      whole = ap pos p.0 ∙ ap (λ (z : ℤ). z +ℤ pos (a % suc b)) (sym t);
      toward_zero = p.0 ∙ ap (λ (z : ℤ). magnitude z + a % suc b) (sym t);
      smaller = p.1;
    }
quot-rem-Divides (negsuc a) (pos b) ne =
    let p = parts (suc a) b (λ e. ne (ap pos e)) in
    let q = suc a / b in
    let r = suc a % b in
    let t = minus-times-pos q b in
    record {
      whole =
          sym (minus a)
          ∙ ap (diff 0) p.0
          ∙ sym (minus-plus (q * b) r)
          ∙ ap (λ (z : ℤ). z +ℤ diff 0 r) (sym t);
      toward_zero =
          p.0
          ∙ sym (
              ap₂ (λ (x y : ℕ). x + y) (ap magnitude t ∙ magnitude-diff (q * b))
                (magnitude-diff r));
      smaller = let m = magnitude-diff r in omega (arith, p.1);
    }
quot-rem-Divides (negsuc a) (negsuc b) ne =
    let p = parts (suc a) (suc b) (λ e. cc) in
    let q = suc a / suc b in
    let r = suc a % suc b in
    record {
      whole = sym (minus a) ∙ ap (diff 0) p.0 ∙ sym (minus-plus (q * suc b) r);
      toward_zero =
          p.0 ∙ sym (ap₂ (λ (x y : ℕ). x + y) (magnitude-diff (q * suc b)) (magnitude-diff r));
      smaller = let m = magnitude-diff r in omega (arith, p.1);
    }
