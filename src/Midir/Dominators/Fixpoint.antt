-- ===== src/Midir/Dominators/Fixpoint.antt =====
-- One step of `compute_dominators` only clears bits, and keeps what makes the next one do so.
use bet.Prelude.{
  ℕ, zero, suc, ◌<◌, ◌≡◌, refl, ap, sym, ◌∙◌, subst, Bool, true, false, none, some, List, [], ◌∷◌,
  ◌==◌, if◌then◌else◌, get_elem?, set, length, replicate, arith, Bool-cases, inl, inr,
  get_elem?-set, length-set, length-replicate, ltb,
}
use bet.Midir.Dominators.{
  Matrix, row, row_of, row_eq, count, total, intersect, preds_row, joined, new_row, visit, initial,
}
use bet.Midir.Dominators.Rows.{
  Under, Under-refl, Under-trans, and_row_mono, or_row_mono, length-or_row, row_eq_lem, shrinks,
}

unfoldable pub Below : Matrix → Matrix → Type 0
Below m m' = (p : ℕ) → Under (row m p) (row m' p)

intersect_mono :
    (m m' : Matrix) (ps : List ℕ) (xs xs' : List Bool)
    → Below m m'
    → Under xs xs'
    → Under (intersect m ps xs) (intersect m' ps xs')
unfolding Below
intersect_mono m m' [] xs xs' below h = h
intersect_mono m m' (p ∷ ps) xs xs' below h =
    intersect_mono m m' ps _ _ below (and_row_mono xs xs' (row m p) (row m' p) h (below p))

pub row-set_same : (m : Matrix) (b : ℕ) (r : List Bool) → b < length m → row (set m b r) b ≡ r
row-set_same [] b r h = elim h [ ]
row-set_same (x ∷ m) zero r h = refl
row-set_same (x ∷ m) (suc b) r h = row-set_same m b r (omega arith)

pub row-set_other :
    (m : Matrix) (b p : ℕ) (r : List Bool) → (b == p) ≡ false → row (set m b r) p ≡ row m p
row-set_other m b p r h = ap row_of (get_elem?-set m b p r ∙ other)
  where
    other :
        (if b == p then (if ltb b (length m) then some r else none) else get_elem? m p)
        ≡ get_elem? m p
    other = rw h refl

pub total-set :
    (m : Matrix) (b : ℕ) (r : List Bool)
    → b < length m
    → count r < count (row m b)
    → total (set m b r) < total m
total-set [] b r h k = elim h [ ]
total-set (x ∷ m) zero r h k = omega arith
total-set (x ∷ m) (suc b) r h k = omega (arith, total-set m b r (omega arith) k)

module _ (n entry : ℕ) (preds : List (List ℕ)) where
  joined_mono :
      (m m' : Matrix) (ps : List ℕ) (new : List Bool)
      → Below m m'
      → Under (joined n entry preds m ps new) (joined n entry preds m' ps new)
  joined_mono m m' [] new below = Under-refl new
  joined_mono m m' (p ∷ ps) new below = or_row_mono new _ _ (
      intersect_mono m m' (p ∷ ps) (replicate n true) (replicate n true) below
        (Under-refl (replicate n true)))

  length-joined :
      (m : Matrix) (ps : List ℕ) (new : List Bool)
      → length (joined n entry preds m ps new) ≡ length new
  length-joined m [] new = refl
  length-joined m (p ∷ ps) new = length-or_row new _

  pub length-new_row : (m : Matrix) (b : ℕ) → length (new_row n entry preds m b) ≡ n
  unfolding new_row
  length-new_row m b =
      length-joined m (preds_row preds b) _
      ∙ length-set (replicate n false) b true
      ∙ length-replicate n false

  -- What every round keeps: `n` rows of `n` bits, the entry's row, and that a row only loses bits when
  -- it is computed again.
  pub record Sinking (m : Matrix) : Type 0 where
    pub square : length m ≡ n
    pub wide : (b : ℕ) → b < n → length (row m b) ≡ n
    pub rooted : row m entry ≡ row (initial n entry preds) entry
    pub sinks : (b : ℕ) → b < n → (b == entry) ≡ false → Under (new_row n entry preds m b) (row m b)

  pub record Visited (m : Matrix) (b : ℕ) (r : Matrix × Bool) : Type 0 where
    pub sinking : Sinking r.0
    pub kept :
        r.1 ≡ false → (r.0 ≡ m) × ((b == entry) ≡ false → new_row n entry preds m b ≡ row m b)
    pub fewer : r.1 ≡ true → total r.0 < total m

  -- A recomputed row below the old one: the matrix sinks.
  set-Below :
      (m : Matrix) (b : ℕ) (r : List Bool) → b < length m → Under r (row m b) → Below (set m b r) m
  unfolding Below
  set-Below m b r h under p = elim (Bool-cases (b == p)) [
    | inl e ↦
        (let same : b ≡ p = ground arith in
          subst (λ (q : ℕ). Under (row (set m b r) q) (row m q)) same
            (subst (λ (t : List Bool). Under t (row m b)) (sym (row-set_same m b r h)) under))
    | inr e ↦
        subst (λ (t : List Bool). Under t (row m p)) (sym (row-set_other m b p r e))
          (Under-refl (row m p))
  ]

  new_row_mono :
      (m m' : Matrix) (b : ℕ)
      → Below m m'
      → Under (new_row n entry preds m b) (new_row n entry preds m' b)
  unfolding new_row
  new_row_mono m m' b below = joined_mono m m' (preds_row preds b) _ below

  update-Sinking :
      (m : Matrix) (b : ℕ)
      → b < n
      → (b == entry) ≡ false
      → Sinking m
      → Sinking (set m b (new_row n entry preds m b))
  update-Sinking m b h other s =
      let new = new_row n entry preds m b in
      let inside : b < length m = omega (arith, s.square) in
      let below = set-Below m b new inside (s.sinks b h other) in
      record {
        square = length-set m b new ∙ s.square;
        wide = λ c k. elim (Bool-cases (b == c)) [
          | inl e ↦
              (let same : b ≡ c = ground arith in
                subst (λ (q : ℕ). length (row (set m b new) q) ≡ n) same
                  (ap length (row-set_same m b new inside) ∙ length-new_row m b))
          | inr e ↦ ap length (row-set_other m b c new e) ∙ s.wide c k
        ];
        rooted = row-set_other m b entry new other ∙ s.rooted;
        sinks = λ c k differs.
            Under-trans _ _ _ (new_row_mono (set m b new) m c below) (elim (Bool-cases (b == c)) [
              | inl e ↦
                  (let same : b ≡ c = ground arith in
                    subst (λ (q : ℕ). Under (new_row n entry preds m q) (row (set m b new) q)) same
                      (subst (λ (t : List Bool). Under new t) (sym (row-set_same m b new inside))
                        (Under-refl new)))
              | inr e ↦
                  subst (λ (t : List Bool). Under (new_row n entry preds m c) t)
                    (sym (row-set_other m b c new e)) (s.sinks c k differs)
            ]);
      }

  pub visit_lem : (m : Matrix) (b : ℕ) → b < n → Sinking m → Visited m b (visit n entry preds m b)
  unfolding visit
  visit_lem m b h s = elim (Bool-cases (b == entry)) [
    | inl root ↦
        subst (Visited m b)
          (sym (
            ap
              (λ (t : Bool).
                if t then (m, false) else (if same then (m, false) else (set m b new, true)))
              root))
          (record {
            sinking = s;
            kept = λ e. (refl, λ other. ground arith);
            fewer = λ e. ground arith;
          })
    | inr other ↦ elim (Bool-cases same) [
      | inl e ↦
          subst (Visited m b)
            (sym (
              ap
                (λ (t : Bool).
                  if t then (m, false) else (if same then (m, false) else (set m b new, true)))
                other
              ∙ ap (λ (t : Bool). if t then (m, false) else (set m b new, true)) e))
            (record {
              sinking = s;
              kept = λ k. (refl, λ k'. row_eq_lem new (row m b) e);
              fewer = λ k. ground arith;
            })
      | inr e ↦
          subst (Visited m b)
            (sym (
              ap
                (λ (t : Bool).
                  if t then (m, false) else (if same then (m, false) else (set m b new, true)))
                other
              ∙ ap (λ (t : Bool). if t then (m, false) else (set m b new, true)) e))
            (record {
              sinking = update-Sinking m b h other s;
              kept = λ k. ground arith;
              fewer = λ k.
                  total-set m b new (omega (arith, s.square))
                    (shrinks new (row m b) (s.sinks b h other) e);
            })
    ]
  ]
    where
      new : List Bool
      new = new_row n entry preds m b

      same : Bool
      same = row_eq new (row m b)
