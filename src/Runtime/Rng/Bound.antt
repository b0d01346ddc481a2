-- ===== src/Runtime/Rng/Bound.antt =====
-- `up_to`: its result lies below the bound, it returns once a draw is accepted, and every result is
-- given by equally many accepted draws.
use native.Mathlib.Nat.{mod-lt, div-lt_iff_lt-mul, div-add-mod', mod-eq-sub-mod, add-mul-div_right}
use bet.Prelude.{
  ℕ, zero, suc, ◌+◌, ◌-◌, ◌*◌, ◌/◌, ◌%◌, ◌^◌, ◌≤◌, ◌<◌, ◌≡◌, ◌↔◌, refl, sym, ap, ◌∙◌, Bool, true,
  false, Option, none, some, ltb, if◌then◌else◌, arith, Bool-cases, inl, inr, dec_lt,
}
use bet.Runtime.Rng.{RngState, next_u64, redraw, up_to, wrap64}
use bet.Runtime.Rng.Zero.{IsWords}

abbrev pub threshold : ℕ → ℕ
threshold n = (2 ^ 64 - n) % n

-- The draw `x` and those that follow it from the state `r`.
abbrev pub nth_draw : ℕ → RngState → ℕ → ℕ
nth_draw x r zero = x
nth_draw x r (suc i) = nth_draw (next_u64 r).0 (next_u64 r).1 i

abbrev pub accepted : ℕ → ℕ → Bool
accepted n x = if ltb (wrap64 (x * n)) (threshold n) then false else true

-- What `up_to` gives.
abbrev pub InRange : ℕ → Option (ℕ × RngState) → Type 0
InRange n o = (q : ℕ × RngState) × (o ≡ some q) × (q.0 < n) × IsWords q.1

-- `n.wrapping_neg() % n` is the remainder of 2^64.
threshold_lem : (n : ℕ) → 0 < n → n ≤ 2 ^ 64 → threshold n ≡ 2 ^ 64 % n
threshold_lem n p h = sym (mod-eq-sub-mod {n = 2 ^ 64} h)

-- The least factor whose product with `n` reaches `a`.
ceil_iff : (n a y : ℕ) → 0 < n → ((a + n - 1) / n ≤ y) ↔ (a ≤ y * n)
ceil_iff n a y p =
    let d = div-lt_iff_lt-mul {k = n} {x = a + n - 1} {y = y + 1} p in
    (λ h. omega (arith, d.0 (omega arith)), λ h. let l = d.1 (omega arith) in omega arith)

-- The words whose product with `n` lies in one window of `q * n` numbers are `q` words in a row.
window :
    (n q a x : ℕ)
    → 0 < n
    → (a ≤ x * n) × (x * n < a + q * n) ↔ ((a + n - 1) / n ≤ x) × (x < (a + n - 1) / n + q)
window n q a x p =
    let low = ceil_iff n a x p in
    let high = ceil_iff n (a + q * n) x p in
    let sum : a + q * n + n - 1 ≡ a + n - 1 + q * n = omega arith in
    let e : (a + q * n + n - 1) / n ≡ (a + n - 1) / n + q =
      ap (λ (t : ℕ). t / n) sum ∙ add-mul-div_right (a + n - 1) q p in
    (
      λ h. (
        low.1 h.0,
        elim (dec_lt x ((a + n - 1) / n + q)) [
          | yes l ↦ l
          | no l ↦
              let past : (a + q * n + n - 1) / n ≤ x = rw e (omega arith) in
              absurd (omega (arith, high.0 past))
        ],
      ),
      λ h. (
        low.0 h.0,
        elim (dec_lt (x * n) (a + q * n)) [
          | yes l ↦ l
          | no l ↦
              let past : (a + n - 1) / n + q ≤ x = rw (← e) (high.1 (omega arith)) in
              absurd (omega (arith, h.1))
        ],
      ),
    )

-- The first word that is accepted and gives the result `v`.
abbrev pub run_start : ℕ → ℕ → ℕ
run_start n v = (v * 2 ^ 64 + 2 ^ 64 % n + n - 1) / n

accepted_run :
    (n v x : ℕ)
    → 0 < n
    → n ≤ 2 ^ 64
    → (x * n / 2 ^ 64 ≡ v) × (accepted n x ≡ true)
      ↔ (run_start n v ≤ x) × (x < run_start n v + 2 ^ 64 / n)
accepted_run n v x p h =
    let t = threshold_lem n p h in
    let split = div-add-mod' (2 ^ 64) n in
    let w = window n (2 ^ 64 / n) (v * 2 ^ 64 + 2 ^ 64 % n) x p in
    (
      λ c.
          let ok : threshold n ≤ wrap64 (x * n) = ground (arith, c.1) in
          w.0 (omega (arith, c.0), omega (arith, c.0, split, t)),
      λ c.
          let r = w.1 c in
          let hi : x * n / 2 ^ 64 ≡ v = omega (arith, r, split, t) in
          let ok : threshold n ≤ wrap64 (x * n) = omega (arith, r, split, t) in
          (hi, ground (arith, ok)),
    )

-- The run of a result below the bound is made of 64-bit words.
run_below : (n v : ℕ) → 0 < n → n ≤ 2 ^ 64 → v < n → run_start n v + 2 ^ 64 / n ≤ 2 ^ 64
run_below n v p h lt =
    let last = run_start n v + 2 ^ 64 / n - 1 in
    let split = div-add-mod' (2 ^ 64) n in
    let least = div-lt_iff_lt-mul {k = n} {x = 2 ^ 64} {y = 1} p in
    let some_words : 0 < 2 ^ 64 / n = elim (dec_lt (2 ^ 64 / n) 1) [
      | yes l ↦ absurd (omega (arith, least.0 l))
      | no l ↦ omega arith
    ] in
    let w = (window n (2 ^ 64 / n) (v * 2 ^ 64 + 2 ^ 64 % n) last p).1 (omega arith, omega arith) in
    let above : last * n < suc v * 2 ^ 64 = omega (arith, w, split) in
    let inside : last < 2 ^ 64 = grind (arith, above) in omega (arith, inside)

-- A draw that is accepted ends `up_to`, and one that is not needs another round.
first_draw :
    (f k : ℕ) (r : RngState)
    → (accepted (suc k) (next_u64 r).0 ≡ true
        → up_to (suc f) (suc k) r ≡ some ((next_u64 r).0 * suc k / 2 ^ 64, (next_u64 r).1))
      × (accepted (suc k) (next_u64 r).0 ≡ false → up_to 1 (suc k) r ≡ none)
unfolding up_to redraw
first_draw f k r =
    let n = suc k in
    let x = (next_u64 r).0 in
    let small : threshold n < n = mod-lt (2 ^ 64 - n) (omega arith) in
    elim (Bool-cases (ltb (wrap64 (x * n)) n)) [
      | inr far ↦ (λ a. rw far refl, λ a. absurd (ground arith))
      | inl near ↦ (
        λ a.
            let ok : ltb (wrap64 (x * n)) (threshold n) ≡ false = ground arith in
            rw (near, ok) refl,
        λ a.
            let low : ltb (wrap64 (x * n)) (threshold n) ≡ true = ground arith in
            rw (near, low) refl,
      )
    ]

-- For a bound n from 1 to 2^64: `up_to` returns v on its first
-- draw, without another one, exactly when the draw lies in a run of 2^64 / n words that starts where v
-- says. For v below n, the run lies within the 64-bit words: each result has equally many first draws. What
-- `up_to` returns on its first draw, it returns whatever the bound on the rounds.
pub up_to_unbiased :
    (f n v : ℕ) (r : RngState)
    → 0 < n
    → n ≤ 2 ^ 64
    → ((up_to 1 n r ≡ some (v, (next_u64 r).1))
        ↔ (run_start n v ≤ (next_u64 r).0) × ((next_u64 r).0 < run_start n v + 2 ^ 64 / n))
      × (v < n → run_start n v + 2 ^ 64 / n ≤ 2 ^ 64)
      × (up_to 1 n r ≡ some (v, (next_u64 r).1) → up_to (suc f) n r ≡ some (v, (next_u64 r).1))
up_to_unbiased f zero v r p h = absurd (omega arith)
up_to_unbiased f (suc k) v r p h = (
  (
    λ e. let a = once e in (accepted_run n v x p h).0 (a.1, a.0),
    λ c. let a = (accepted_run n v x p h).1 c in given 0 a.1 a.0,
  ),
  run_below n v p h,
  λ e. let a = once e in given f a.0 a.1,
)
  where
    n : ℕ
    n = suc k

    x : ℕ
    x = (next_u64 r).0

    value : Option (ℕ × RngState) → ℕ
    value none = 0
    value (some q) = q.0

    given :
        (f : ℕ)
        → accepted n x ≡ true
        → x * n / 2 ^ 64 ≡ v
        → up_to (suc f) n r ≡ some (v, (next_u64 r).1)
    given f a q = (first_draw f k r).0 a ∙ ap (λ (w : ℕ). some (w, (next_u64 r).1)) q

    once : up_to 1 n r ≡ some (v, (next_u64 r).1) → (accepted n x ≡ true) × (x * n / 2 ^ 64 ≡ v)
    once e = elim (Bool-cases (accepted n x)) [
      | inl a ↦
          let q : some (x * n / 2 ^ 64, (next_u64 r).1) ≡ some (v, (next_u64 r).1) =
            sym ((first_draw 0 k r).0 a) ∙ e in
          (a, ap value q)
      | inr b ↦
          let q : none ≡ some (v, (next_u64 r).1) = sym ((first_draw 0 k r).1 b) ∙ e in
          let no : ⊥ = ground arith in elim no [ ]
    ]
