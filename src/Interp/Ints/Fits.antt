-- ===== src/Interp/Ints/Fits.antt =====
-- `wrap_to` gives the number of the type's width that is congruent, and changes nothing that fits.
use native.Mathlib.Nat.{mod-lt, mod-eq_of_lt}
use bet.Prelude.{
  ℕ, ◌+◌, ◌-◌, ◌*◌, ◌%◌, ◌^◌, ◌<◌, ◌≤◌, ◌≡◌, ◌↔◌, inl, inr, refl, ap, sym, ◌∙◌, subst, true, false,
  leb, leb→le, arith, if◌then◌else◌, Bool-cases,
}
use bet.Prelude.Masks.{two_pow_pos, two_pow_add}
use bet.Midir.Ir.{ℤ, pos, negsuc}
use bet.Interp.Whole.{rem_euclid}
use bet.Interp.Value.{IntTy}
use bet.Interp.Ints.{resign, as_i64, wrap_to}

-- A width of 1 to 64 bits; the language has 8, 16, 32 and 64.
pub record IsIntTy (ty : IntTy) : Type 0 where
  pub some_bits : 0 < ty.bits
  pub bits_fit : ty.bits ≤ 64

-- The numbers that a value of a type is stored as: a `u64` is stored in an `i64`.
abbrev pub above : IntTy → ℕ
above ty = if leb 64 ty.bits then 2 ^ 63 else if ty.signed then 2 ^ (ty.bits - 1) else 2 ^ ty.bits

abbrev pub below : IntTy → ℕ
below ty = if leb 64 ty.bits then 2 ^ 63 else if ty.signed then 2 ^ (ty.bits - 1) else 0

abbrev pub Fits : IntTy → ℤ → Type 0
Fits ty (pos n) = n < above ty
Fits ty (negsuc n) = n < below ty

-- The same for two's complement of `k` bits.
abbrev pub Within : ℕ → ℤ → Type 0
Within h (pos n) = n < h
Within h (negsuc n) = n < h

pub halves : (k : ℕ) → 0 < k → 2 ^ k ≡ 2 * 2 ^ (k - 1)
halves k h =
    let e : k ≡ 1 + (k - 1) = omega arith in ap (λ (j : ℕ). 2 ^ j) e ∙ two_pow_add 1 (k - 1)

pub rem_euclid-lt : (v : ℤ) (d : ℕ) → 0 < d → rem_euclid v d < d
rem_euclid-lt (pos n) d h = mod-lt n h
rem_euclid-lt (negsuc n) d h = let l : n % d < d = mod-lt n h in omega arith

leb-false : (a b : ℕ) → leb a b ≡ false → b < a
leb-false a b h = ground arith

le→leb-false : (a b : ℕ) → b < a → leb a b ≡ false
le→leb-false a b h = ground arith

le→leb : (a b : ℕ) → a ≤ b → leb a b ≡ true
le→leb a b h = ground arith

pub resign_lem :
    (k m : ℕ)
    → 0 < k
    → m < 2 ^ k
    → Within (2 ^ (k - 1)) (resign k m) × (rem_euclid (resign k m) (2 ^ k) ≡ m)
resign_lem k m p h = elim (Bool-cases (leb (2 ^ (k - 1)) m)) [
  | inl high ↦
      let e : 2 ^ k ≡ 2 * 2 ^ (k - 1) = halves k p in
      let l = leb→le (2 ^ (k - 1)) m high in
      let small : (2 ^ k - m - 1) % 2 ^ k ≡ 2 ^ k - m - 1 = mod-eq_of_lt (omega arith) in
      rw high (omega arith, rw small (omega arith))
  | inr low ↦ let l = leb-false (2 ^ (k - 1)) m low in rw low (l, mod-eq_of_lt h)
]

pub resign_unchanged :
    (k : ℕ) (v : ℤ) → 0 < k → Within (2 ^ (k - 1)) v → resign k (rem_euclid v (2 ^ k)) ≡ v
resign_unchanged k (pos n) p h =
    let e : 2 ^ k ≡ 2 * 2 ^ (k - 1) = halves k p in
    let small : n % 2 ^ k ≡ n = mod-eq_of_lt (omega arith) in
    let low : leb (2 ^ (k - 1)) n ≡ false = le→leb-false (2 ^ (k - 1)) n h in rw (small, low) refl
resign_unchanged k (negsuc n) p h =
    let e : 2 ^ k ≡ 2 * 2 ^ (k - 1) = halves k p in
    let small : n % 2 ^ k ≡ n = mod-eq_of_lt (omega arith) in
    let high : leb (2 ^ (k - 1)) (2 ^ k - 1 - n) ≡ true = le→leb _ _ (omega arith) in
    rw (small, high) (ap negsuc (omega arith))

pub Within-Fits :
    (ty : IntTy) (h : ℕ) (v : ℤ) → above ty ≡ h → below ty ≡ h → Within h v → Fits ty v
Within-Fits ty h (pos n) a b w = rw a w
Within-Fits ty h (negsuc n) a b w = rw b w

pub Fits-Within :
    (ty : IntTy) (h : ℕ) (v : ℤ) → above ty ≡ h → below ty ≡ h → Fits ty v → Within h v
Fits-Within ty h (pos n) a b w = rw (← a) w
Fits-Within ty h (negsuc n) a b w = rw (← b) w

-- The three kinds of types: 64 bits, narrower and signed, narrower and unsigned.
data Shape (ty : IntTy) : Type 0 where
  wide :
      ty.bits ≡ 64
      → above ty ≡ 2 ^ 63
      → below ty ≡ 2 ^ 63
      → ((v : ℤ) → wrap_to v ty ≡ as_i64 v)
      → Shape ty
  narrow_signed :
      above ty ≡ 2 ^ (ty.bits - 1)
      → below ty ≡ 2 ^ (ty.bits - 1)
      → ((v : ℤ) → wrap_to v ty ≡ resign ty.bits (rem_euclid v (2 ^ ty.bits)))
      → Shape ty
  narrow_unsigned :
      above ty ≡ 2 ^ ty.bits
      → below ty ≡ 0
      → ((v : ℤ) → wrap_to v ty ≡ pos (rem_euclid v (2 ^ ty.bits)))
      → Shape ty

shape : (ty : IntTy) → IsIntTy ty → Shape ty
unfolding wrap_to
shape ty t = elim (Bool-cases (leb 64 ty.bits)) [
  | inl w ↦
      let l = leb→le 64 ty.bits w in
      let u = t.bits_fit in wide (omega arith) (rw w refl) (rw w refl) (λ v. rw w refl)
  | inr n ↦ elim (Bool-cases ty.signed) [
    | inl s ↦ narrow_signed (rw (n, s) refl) (rw (n, s) refl) (λ v. rw (n, s) refl)
    | inr s ↦ narrow_unsigned (rw (n, s) refl) (rw (n, s) refl) (λ v. rw (n, s) refl)
  ]
]

wrap_to-Fits :
    (v : ℤ) (ty : IntTy)
    → IsIntTy ty
    → Fits ty (wrap_to v ty)
      × (rem_euclid (wrap_to v ty) (2 ^ ty.bits) ≡ rem_euclid v (2 ^ ty.bits))
wrap_to-Fits v ty t = go (shape ty t)
  where
    go :
        Shape ty
        → Fits ty (wrap_to v ty)
          × (rem_euclid (wrap_to v ty) (2 ^ ty.bits) ≡ rem_euclid v (2 ^ ty.bits))
    go (wide b a c w) =
        let r =
          resign_lem 64 (rem_euclid v (2 ^ 64)) (omega arith)
            (rem_euclid-lt v (2 ^ 64) (omega arith)) in
        rw (w v) (
          Within-Fits ty (2 ^ 63) (as_i64 v) a c r.0,
          ap (λ (k : ℕ). rem_euclid (as_i64 v) (2 ^ k)) b
              ∙ r.1
              ∙ ap (λ (k : ℕ). rem_euclid v (2 ^ k)) (sym b),
        )
    go (narrow_signed a c w) =
        let r =
          resign_lem ty.bits (rem_euclid v (2 ^ ty.bits)) t.some_bits
            (rem_euclid-lt v (2 ^ ty.bits) (two_pow_pos ty.bits)) in
        rw (w v) (
          Within-Fits ty (2 ^ (ty.bits - 1)) (resign ty.bits (rem_euclid v (2 ^ ty.bits))) a c r.0,
          r.1,
        )
    go (narrow_unsigned a c w) =
        let l = rem_euclid-lt v (2 ^ ty.bits) (two_pow_pos ty.bits) in
        rw (w v, a) (l, mod-eq_of_lt l)

pub wrap_to_unchanged : (v : ℤ) (ty : IntTy) → IsIntTy ty → Fits ty v → wrap_to v ty ≡ v
wrap_to_unchanged v ty t f = go v f (shape ty t)
  where
    go : (v : ℤ) → Fits ty v → Shape ty → wrap_to v ty ≡ v
    go v f (wide b a c w) =
        w v ∙ resign_unchanged 64 v (omega arith) (Fits-Within ty (2 ^ 63) v a c f)
    go v f (narrow_signed a c w) =
        w v ∙ resign_unchanged ty.bits v t.some_bits (Fits-Within ty (2 ^ (ty.bits - 1)) v a c f)
    go (pos n) f (narrow_unsigned a c w) =
        let l : n < 2 ^ ty.bits = rw (← a) f in w (pos n) ∙ ap pos (mod-eq_of_lt l)
    go (negsuc n) f (narrow_unsigned a c w) =
        let l : n < 0 = rw (← c) f in let no : ⊥ = omega arith in elim no [ ]

-- For a type of 1 to 64 bits, `wrap_to` gives a number that fits the type and is congruent to the
-- given one modulo 2 to the width, and it changes a number exactly where that does not fit.
pub wrap_to_lem :
    (v : ℤ) (ty : IntTy)
    → IsIntTy ty
    → Fits ty (wrap_to v ty)
      × (rem_euclid (wrap_to v ty) (2 ^ ty.bits) ≡ rem_euclid v (2 ^ ty.bits))
      × ((wrap_to v ty ≡ v) ↔ Fits ty v)
wrap_to_lem v ty t =
    let a = wrap_to-Fits v ty t in
    (a.0, a.1, (λ e. subst (Fits ty) e a.0, wrap_to_unchanged v ty t))
