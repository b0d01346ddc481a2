-- ===== src/Midir/Dominators/Rounds.antt =====
-- The rounds of `compute_dominators` only clear bits, so the loop ends; the matrix it ends with is a
-- fixpoint.
use bet.Prelude.{
  ℕ, zero, suc, ◌+◌, ◌*◌, ◌≤◌, ◌<◌, ◌≡◌, refl, ap, sym, ◌∙◌, subst, Bool, true, false, Option, none,
  some, List, [], ◌∷◌, ◌==◌, if◌then◌else◌, set, length, replicate, All, arith, Bool-cases, inl,
  inr, length-set, length-replicate, lt→ltb, get_elem?-replicate,
}
use bet.Midir.Dominators.{
  Matrix, row, row_of, count, total, range, new_row, visit, sweep, iterate, initial,
  compute_dominators,
}
use bet.Midir.Dominators.Rows.{Under, Under-full}
use bet.Midir.Dominators.Fixpoint.{Sinking, visit_lem, length-new_row, row-set_other}

module _ (n entry : ℕ) (preds : List (List ℕ)) where
  -- A row that stays is a fixpoint's row.
  unfoldable pub Stable : Matrix → ℕ → Type 0
  Stable m b = (b == entry) ≡ false → new_row n entry preds m b ≡ row m b

  record Swept (m : Matrix) (bs : List ℕ) (r : Matrix × Bool) : Type 0 where
    pub sinking : Sinking n entry preds r.0
    kept : r.1 ≡ false → (r.0 ≡ m) × All (Stable m) bs
    fewer : r.1 ≡ true → total r.0 < total m
    sunk : total r.0 ≤ total m

  sweep_lem :
      (bs : List ℕ) (m : Matrix)
      → All (λ (b : ℕ). b < n) bs
      → Sinking n entry preds m
      → Swept m bs (sweep n entry preds bs m)
  unfolding sweep Stable
  sweep_lem [] m h s = record {
    sinking = s;
    kept = λ e. (refl, tt);
    fewer = λ e. ground arith;
    sunk = omega arith;
  }
  sweep_lem (b ∷ bs) m h s =
      let r = visit n entry preds m b in
      let v = visit_lem n entry preds m b h.0 s in
      let rest = sweep_lem bs r.0 h.1 v.sinking in
      let down : total r.0 ≤ total m = elim (Bool-cases r.1) [
        | inl e ↦ omega (arith, v.fewer e)
        | inr e ↦ (let same = ap total (v.kept e).0 in omega arith)
      ] in
      record {
        sinking = rest.sinking;
        kept = λ e.
            let here : r.1 ≡ false = ground arith in
            let there : (sweep n entry preds bs r.0).1 ≡ false = ground arith in
            let k = v.kept here in
            let k' = rest.kept there in
            (k'.0 ∙ k.0, (k.1, subst (λ (t : Matrix). All (Stable t) bs) k.0 k'.1));
        fewer = λ e. elim (Bool-cases r.1) [
          | inl e' ↦ omega (arith, v.fewer e', rest.sunk)
          | inr e' ↦
              (let there : (sweep n entry preds bs r.0).1 ≡ true = ground arith in
                omega (arith, down, rest.fewer there))
        ];
        sunk = omega (arith, down, rest.sunk);
      }

  -- A fixpoint: every row but the entry's is what its predecessors make it.
  pub record Fixed (m : Matrix) : Type 0 where
    pub sinking : Sinking n entry preds m
    pub stable : All (Stable m) (range 0 n)

  pub record Reached (r : Option Matrix) : Type 0 where
    pub dom : Matrix
    pub returned : r ≡ some dom
    pub fixed : Fixed dom

  range-All : (b k : ℕ) → b + k ≤ n → All (λ (c : ℕ). c < n) (range b k)
  range-All b zero h = tt
  range-All b (suc k) h = (omega arith, range-All (suc b) k (omega arith))

  iterate_lem :
      (f : ℕ) (m : Matrix)
      → total m < f
      → Sinking n entry preds m
      → Reached (iterate n entry preds f m)
  unfolding iterate
  iterate_lem zero m h s = elim h [ ]
  iterate_lem (suc f) m h s =
      let r = sweep n entry preds (range 0 n) m in
      let w = sweep_lem (range 0 n) m (range-All 0 n (omega arith)) s in
      let pick = (λ (t : Bool). if t then iterate n entry preds f r.0 else some r.0) in
      elim (Bool-cases r.1) [
        | inl e ↦
            subst Reached (sym (ap pick e)) (iterate_lem f r.0 (omega (arith, w.fewer e)) w.sinking)
        | inr e ↦
            (let k = w.kept e in
              subst Reached (sym (ap pick e)) (record {
                dom = r.0;
                returned = refl;
                fixed = record {
                  sinking = w.sinking;
                  stable = subst (λ (t : Matrix). All (Stable t) (range 0 n)) (sym k.0) k.1;
                };
              }))
      ]

count_le : (xs : List Bool) → count xs ≤ length xs
count_le [] = omega arith
count_le (true ∷ xs) = omega (arith, count_le xs)
count_le (false ∷ xs) = omega (arith, count_le xs)

total_le : (m : Matrix) (n : ℕ) → All (λ (r : List Bool). length r ≡ n) m → total m ≤ length m * n
total_le [] n h = omega arith
total_le (r ∷ m) n h =
    let here = count_le r in
    let rest = total_le m n h.1 in
    let e = h.0 in let split : suc (length m) * n ≡ n + length m * n = omega arith in omega arith

set-All {ℓ κ} :
    {A : Type ℓ} (P : A → Type κ) (xs : List A) (i : ℕ) (v : A)
    → P v
    → All P xs
    → All P (set xs i v)
set-All P [] i v p h = tt
set-All P (x ∷ xs) zero v p h = (p, h.1)
set-All P (x ∷ xs) (suc i) v p h = (h.0, set-All P xs i v p h.1)

replicate-All {ℓ κ} : {A : Type ℓ} (P : A → Type κ) (n : ℕ) (v : A) → P v → All P (replicate n v)
replicate-All P zero v p = tt
replicate-All P (suc n) v p = (p, replicate-All P n v p)

row-All : (P : List Bool → Type 0) (m : Matrix) (b : ℕ) → b < length m → All P m → P (row m b)
row-All P [] b h all = elim h [ ]
row-All P (r ∷ m) zero h all = all.0
row-All P (r ∷ m) (suc b) h all = row-All P m b (omega arith) all.1

module _ (n entry : ℕ) (preds : List (List ℕ)) where
  initial-rows : All (λ (r : List Bool). length r ≡ n) (initial n entry preds)
  initial-rows =
      set-All (λ (r : List Bool). length r ≡ n) _ entry _
        (length-set (replicate n false) entry true ∙ length-replicate n false)
        (replicate-All (λ (r : List Bool). length r ≡ n) n _ (length-replicate n true))

  initial-length : length (initial n entry preds) ≡ n
  initial-length = length-set (replicate n (replicate n true)) entry _ ∙ length-replicate n _

  initial-Sinking : Sinking n entry preds (initial n entry preds)
  initial-Sinking = record {
    square = initial-length;
    wide = λ b h.
        row-All (λ (r : List Bool). length r ≡ n) _ b (omega (arith, initial-length)) initial-rows;
    rooted = refl;
    sinks = λ b h other.
        let flipped : (entry == b) ≡ false = ground arith in
        let full =
          (row-set_other (replicate n (replicate n true)) entry b _ flipped
            ∙ ap row_of (get_elem?-replicate n b (replicate n true))
            ∙ ap (λ (t : Bool). row_of (if t then some (replicate n true) else none))
                (lt→ltb b n h)) in
        subst (λ (t : List Bool). Under (new_row n entry preds (initial n entry preds) b) t)
          (sym full) (Under-full _ n (length-new_row n entry preds _ b));
  }

  -- The fuel of `compute_dominators` is enough, for every graph: the loop returns a matrix, and that
  -- matrix is a fixpoint of the rows' equations.
  pub compute_dominators_total : Reached n entry preds (compute_dominators n entry preds)
  unfolding compute_dominators
  compute_dominators_total =
      let bits = total_le (initial n entry preds) n initial-rows in
      let size : length (initial n entry preds) * n ≡ n * n =
        ap (λ (k : ℕ). k * n) initial-length in
      iterate_lem n entry preds (suc (n * n)) (initial n entry preds) (omega arith) initial-Sinking
