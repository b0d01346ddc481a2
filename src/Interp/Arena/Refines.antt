-- ===== src/Interp/Arena/Refines.antt =====
-- An arena as the map from tags to the values that they resolve to: `cop` adds one tag, an eviction takes
-- tags away, and a write changes the value of one.
use bet.Prelude.{
  ℕ, zero, suc, ◌+◌, ◌≡◌, refl, ap, sym, ◌∙◌, Bool, true, false, ◌&&◌, Option, none, some, List, [],
  ◌∷◌, ◌==◌, get_elem?, if◌then◌else◌, arith, Bool-cases, inl, inr,
}
use bet.Interp.Arena.{
  Slot, Arena, alloc_in, alloc, current, value_at, resolve, update, written, write_slot, freed,
  freed_all, evict, freed_current, evict_slot,
}

==-suc : (a b : ℕ) → (a == b) ≡ (suc a == suc b)
==-suc a b = ground arith

module _ {ℓ} {A : Type ℓ} where
  abbrev at : List (Slot A) → ℕ → ℕ → Option A
  at ss s g = value_at g (get_elem? ss s)

  -- The map `at ss`, with one more tag.
  abbrev Adds : List (Slot A) → List (Slot A) → ℕ → ℕ → A → Type ℓ
  Adds ss r k h v = (s g : ℕ) → at r s g ≡ (if (s == k) && (g == h) then some v else at ss s g)

  Adds-cons :
      (x : Slot A) (ss r : List (Slot A)) (k h : ℕ) (v : A)
      → Adds ss r k h v
      → Adds (x ∷ ss) (x ∷ r) (suc k) h v
  Adds-cons x ss r k h v f zero g = ground arith
  Adds-cons x ss r k h v f (suc s) g =
      f s g ∙ ap (λ (b : Bool). if b && (g == h) then some v else at ss s g) (==-suc s k)

  Adds-reuse :
      (x : Slot A) (ss : List (Slot A)) (v : A)
      → x.live ≡ false
      → Adds
          (x ∷ ss)
          (record { value = v; generation = x.generation; live = true } ∷ ss)
          0
          x.generation
          v
  Adds-reuse x ss v e zero g = ground arith
  Adds-reuse x ss v e (suc s) g = ground arith

  Adds-push : (v : A) → Adds [] (record { value = v; generation = 0; live = true } ∷ []) 0 0 v
  Adds-push v zero g = ground arith
  Adds-push v (suc s) g = ground arith

  alloc_in_lem :
      (ss : List (Slot A)) (i : ℕ) (v : A)
      → (k : ℕ) × ((alloc_in i v ss).0.0 ≡ i + k)
        × (at ss k (alloc_in i v ss).0.1 ≡ none)
        × Adds ss (alloc_in i v ss).1 k (alloc_in i v ss).0.1 v
  alloc_in_lem [] i v = (0, omega arith, refl, Adds-push v)
  alloc_in_lem (x ∷ ss) i v = go (alloc_in_lem ss (suc i) v) x.live refl
    where
      Found : (ℕ × ℕ) × List (Slot A) → Type ℓ
      Found r =
          (k : ℕ) × (r.0.0 ≡ i + k) × (at (x ∷ ss) k r.0.1 ≡ none) × Adds (x ∷ ss) r.1 k r.0.1 v

      go :
          (ih : (k : ℕ) × ((alloc_in (suc i) v ss).0.0 ≡ suc i + k)
            × (at ss k (alloc_in (suc i) v ss).0.1 ≡ none)
            × Adds ss (alloc_in (suc i) v ss).1 k (alloc_in (suc i) v ss).0.1 v)
          (b : Bool)
          → x.live ≡ b
          → Found (
              if b then ((alloc_in (suc i) v ss).0, x ∷ (alloc_in (suc i) v ss).1) else (
                (i, x.generation),
                record { value = v; generation = x.generation; live = true } ∷ ss,
              ))
      go ih true e = (
        suc ih.0,
        ih.1 ∙ omega arith,
        ih.2,
        Adds-cons x ss (alloc_in (suc i) v ss).1 ih.0 (alloc_in (suc i) v ss).0.1 v ih.3,
      )
      go ih false e = (0, omega arith, ground arith, Adds-reuse x ss v e)

  -- A write into what is there.
  abbrev pub replaced : A → Option A → Option A
  replaced v none = none
  replaced v (some _) = some v

  unchanged :
      (o : Option A → Option A) → o none ≡ none → (b : Bool) → none ≡ (if b then o none else none)
  unchanged o n true = sym n
  unchanged o n false = refl

  -- What an update of one slot does to the map, where it answers for one generation only.
  update_lem :
      (f : Slot A → Slot A) (ss : List (Slot A)) (i g : ℕ) (o : Option A → Option A)
      → o none ≡ none
      → ((x : Slot A) (h : ℕ)
          → value_at h (some (f x))
            ≡ (if h == g then o (value_at h (some x)) else value_at h (some x)))
      → (s h : ℕ)
      → at (update f i ss) s h ≡ (if (s == i) && (h == g) then o (at ss s h) else at ss s h)
  update_lem f [] i g o n p s h = unchanged o n ((s == i) && (h == g))
  update_lem f (x ∷ ss) zero g o n p zero h = p x h
  update_lem f (x ∷ ss) zero g o n p (suc s) h = ground arith
  update_lem f (x ∷ ss) (suc i) g o n p zero h = ground arith
  update_lem f (x ∷ ss) (suc i) g o n p (suc s) h =
      update_lem f ss i g o n p s h
      ∙ ap (λ (b : Bool). if b && (h == g) then o (at ss s h) else at ss s h) (==-suc s i)

  freed_all_lem : (ss : List (Slot A)) (s g : ℕ) → at (freed_all ss) s g ≡ none
  freed_all_lem [] s g = refl
  freed_all_lem (x ∷ ss) zero g = refl
  freed_all_lem (x ∷ ss) (suc s) g = freed_all_lem ss s g

  written_lem :
      (g : ℕ) (v : A) (x : Slot A) (h : ℕ)
      → value_at h (some (written g v x))
        ≡ (if h == g then replaced v (value_at h (some x)) else value_at h (some x))
  written_lem g v x h = go (current g x) refl
    where
      go :
          (b : Bool)
          → current g x ≡ b
          → value_at h (
              some
                (if b then record { value = v; generation = x.generation; live = x.live } else x))
            ≡ (if h == g then replaced v (value_at h (some x)) else value_at h (some x))
      go true e = elim (Bool-cases (h == g)) [ inl y ↦ ground arith | inr n ↦ ground arith ]
      go false e = elim (Bool-cases (h == g)) [ inl y ↦ ground arith | inr n ↦ ground arith ]

  freed_lem :
      (g : ℕ) (x : Slot A) (h : ℕ)
      → value_at h (some (freed_current g x)) ≡ (if h == g then none else value_at h (some x))
  freed_lem g x h = go (current g x) refl
    where
      go :
          (b : Bool)
          → current g x ≡ b
          → value_at h (some (if b then freed x else x))
            ≡ (if h == g then none else value_at h (some x))
      go true e = ground arith
      go false e = ground arith

  -- For any arena and value, over the map from tags to what they resolve to: `alloc` gives a tag
  -- that resolved to nothing, adds it with the value and changes no other; after `evict` nothing
  -- resolves; `evict_slot` takes its tag away and no other; `write_slot` changes the value of its
  -- tag where it resolves, and no other.
  pub arena_refines :
      (a : Arena A) (v : A)
      → (resolve a (alloc v a).0.0 (alloc v a).0.1 ≡ none)
        × ((s g : ℕ)
            → resolve (alloc v a).1 s g ≡ (
                if (s == (alloc v a).0.0) && (g == (alloc v a).0.1) then some v else resolve a s g))
        × ((s g : ℕ) → resolve (evict a) s g ≡ none)
        × ((i j s g : ℕ)
            → resolve (evict_slot i j a) s g
              ≡ (if (s == i) && (g == j) then none else resolve a s g))
        × ((i j s g : ℕ)
            → resolve (write_slot i j v a) s g
              ≡ (if (s == i) && (g == j) then replaced v (resolve a s g) else resolve a s g))
  unfolding resolve alloc evict evict_slot write_slot
  arena_refines a v =
      let r = alloc_in_lem a.slots 0 v in
      let e : (alloc_in 0 v a.slots).0.0 ≡ r.0 = r.1 ∙ omega arith in
      (
        ap (λ (k : ℕ). at a.slots k (alloc_in 0 v a.slots).0.1) e ∙ r.2,
        λ s g.
            r.3 s g
            ∙ ap
                (λ (k : ℕ).
                  if (s == k) && (g == (alloc_in 0 v a.slots).0.1) then some v else at a.slots s g)
                (sym e),
        freed_all_lem a.slots,
        (λ i j s g. update_lem (freed_current j) a.slots i j (λ _. none) refl (freed_lem j) s g),
        (λ i j s g. update_lem (written j v) a.slots i j (replaced v) refl (written_lem j v) s g),
      )
