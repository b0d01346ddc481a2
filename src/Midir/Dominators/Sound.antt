-- ===== src/Midir/Dominators/Sound.antt =====
-- What the matrix of `compute_dominators` says of the walks through the graph.
use bet.Prelude.{
  ℕ, zero, suc, ◌+◌, ◌≤◌, ◌<◌, ◌≡◌, refl, ap, sym, ◌∙◌, subst, Bool, true, false, some, List, [],
  ◌∷◌, ◌==◌, set, length, replicate, All, arith, Bool-cases, ◌⊎◌, inl, inr, length-replicate,
  get_elem?-replicate, contains,
}
use bet.Midir.Dominators.{
  Matrix, row, bit, bit_of, and_row, or_row, intersect, preds_row, range, joined, new_row, initial,
  compute_dominators,
}
use bet.Midir.Dominators.Rows.{length-and_row}
use bet.Midir.Dominators.Fixpoint.{row-set_same, Sinking}
use bet.Midir.Dominators.Rounds.{Stable, Fixed, compute_dominators_total}

bit-and_row :
    (xs ys : List Bool) (a : ℕ)
    → length ys ≡ length xs
    → bit (and_row xs ys) a ≡ true
    → (bit xs a ≡ true) × (bit ys a ≡ true)
bit-and_row [] ys a e h = ground arith
bit-and_row (x ∷ xs) [] a e h = ground arith
bit-and_row (x ∷ xs) (y ∷ ys) zero e h = (ground arith, ground arith)
bit-and_row (x ∷ xs) (y ∷ ys) (suc a) e h = bit-and_row xs ys a (omega arith) h

bit-or_row :
    (xs ys : List Bool) (a : ℕ)
    → bit (or_row xs ys) a ≡ true
    → (bit xs a ≡ true) ⊎ (bit ys a ≡ true)
bit-or_row [] ys a h = ground arith
bit-or_row (x ∷ xs) [] a h = inl h
bit-or_row (true ∷ xs) (y ∷ ys) zero h = inl refl
bit-or_row (false ∷ xs) (y ∷ ys) zero h = inr h
bit-or_row (x ∷ xs) (y ∷ ys) (suc a) h = bit-or_row xs ys a h

bit-intersect :
    (m : Matrix) (ps : List ℕ) (xs : List Bool) (a p : ℕ)
    → ((q : ℕ) → contains ps q ≡ true → length (row m q) ≡ length xs)
    → bit (intersect m ps xs) a ≡ true
    → (bit xs a ≡ true) × (contains ps p ≡ true → bit (row m p) a ≡ true)
bit-intersect m [] xs a p wide h = (h, λ e. ground arith)
bit-intersect m (q ∷ ps) xs a p wide h =
    let first : contains (q ∷ ps) q ≡ true = ground arith in
    let rest =
      bit-intersect m ps (and_row xs (row m q)) a p
        (λ r e.
          let also : contains (q ∷ ps) r ≡ true = ground arith in
          wide r also ∙ sym (length-and_row xs (row m q)))
        h in
    let here = bit-and_row xs (row m q) a (wide q first) rest.0 in
    (
      here.0,
      λ e. elim (Bool-cases (q == p)) [
        | inl same ↦
            (let eq : q ≡ p = ground arith in subst (λ (r : ℕ). bit (row m r) a ≡ true) eq here.1)
        | inr other ↦ (let left : contains ps p ≡ true = ground arith in rest.1 left)
      ],
    )

bit-singleton : (n b a : ℕ) → bit (set (replicate n false) b true) a ≡ true → a ≡ b
bit-singleton zero b a h = ground arith
bit-singleton (suc n) zero zero h = refl
bit-singleton (suc n) zero (suc a) h =
    let e = sym (ap bit_of (get_elem?-replicate n a false)) ∙ h in ground arith
bit-singleton (suc n) (suc b) zero h = ground arith
bit-singleton (suc n) (suc b) (suc a) h = ap suc (bit-singleton n b a h)

module _ (n entry : ℕ) (preds : List (List ℕ)) where
  -- A walk of the control flow graph from the entry block, edge by edge.
  pub data Walk : ℕ → Type 0 where
    start : Walk entry
    step : (p b : ℕ) → Walk p → p < n → b < n → contains (preds_row preds b) p ≡ true → Walk b

  unfoldable pub Visits : (b : ℕ) → Walk b → ℕ → Type 0
  Visits _ start a = a ≡ entry
  Visits _ (step p b w hp hb e) a = (a ≡ b) ⊎ Visits p w a

  abbrev pub InRange : Type 0
  InRange = (b p : ℕ) → contains (preds_row preds b) p ≡ true → p < n

  bit-joined :
      (m : Matrix) (ps : List ℕ) (new : List Bool) (a p : ℕ)
      → ((q : ℕ) → contains ps q ≡ true → length (row m q) ≡ n)
      → contains ps p ≡ true
      → bit (joined n entry preds m ps new) a ≡ true
      → (bit new a ≡ true) ⊎ (bit (row m p) a ≡ true)
  bit-joined m [] new a p wide e h = ground arith
  bit-joined m (q ∷ ps) new a p wide e h = elim (bit-or_row new _ a h) [
    | inl here ↦ inl here
    | inr met ↦ inr (
        (bit-intersect m (q ∷ ps) (replicate n true) a p
            (λ r k. wide r k ∙ sym (length-replicate n true)) met).1
          e)
  ]

  range-All-at : (P : ℕ → Type 0) (b k c : ℕ) → All P (range b k) → b ≤ c → c < b + k → P c
  range-All-at P b zero c h low high = let no : ⊥ = omega arith in elim no [ ]
  range-All-at P b (suc k) c h low high = elim (Bool-cases (b == c)) [
    | inl e ↦ (let same : b ≡ c = ground arith in subst P same h.0)
    | inr e ↦
        (let other : suc b ≤ c = ground arith in range-All-at P (suc b) k c h.1 other (omega arith))
  ]

  entry-row :
      (m : Matrix) (a : ℕ)
      → entry < n
      → Sinking n entry preds m
      → bit (row m entry) a ≡ true
      → a ≡ entry
  entry-row m a h s on =
      let own : row (initial n entry preds) entry ≡ set (replicate n false) entry true =
        row-set_same (replicate n (replicate n true)) entry _
          (omega (arith, length-replicate n (replicate n true))) in
      bit-singleton n entry a (sym (ap (λ (r : List Bool). bit r a) (s.rooted ∙ own)) ∙ on)

  Fixed-Visits :
      (m : Matrix) (a : ℕ)
      → entry < n
      → InRange
      → Fixed n entry preds m
      → (b : ℕ) (w : Walk b) → bit (row m b) a ≡ true
      → Visits b w a
  unfolding Visits Stable new_row
  Fixed-Visits m a h inside fixed _ start on = entry-row m a h fixed.sinking on
  Fixed-Visits m a h inside fixed _ (step p b w hp hb e) on = elim (Bool-cases (b == entry)) [
    | inl root ↦
        (let same : b ≡ entry = ground arith in
          inl (
            entry-row m a h fixed.sinking (subst (λ (c : ℕ). bit (row m c) a ≡ true) same on)
            ∙ sym same))
    | inr other ↦
        (let stable =
            range-All-at (Stable n entry preds m) 0 n b fixed.stable (omega arith) (omega arith)
              other in
          elim (bit-joined m (preds_row preds b) _ a p (λ q k. fixed.sinking.wide q (inside b q k))
            e (ap (λ (r : List Bool). bit r a) stable ∙ on)) [
              | inl own ↦ inl (bit-singleton n b a own)
              | inr back ↦ inr (Fixed-Visits m a h inside fixed p w back)
            ])
  ]

  -- `compute_dominators` returns, for every graph whose entry and predecessors are in range, a matrix in
  -- which a set bit `dom[b][a]` means that every walk from the entry to block `b` visits block `a`.
  pub compute_dominators_sound :
      entry < n
      → InRange
      → (dom : Matrix) × (compute_dominators n entry preds ≡ some dom)
        × ((b a : ℕ) → bit (row dom b) a ≡ true → (w : Walk b) → Visits b w a)
  compute_dominators_sound h inside =
      let r = compute_dominators_total n entry preds in
      (r.dom, r.returned, λ b a on w. Fixed-Visits r.dom a h inside r.fixed b w on)
