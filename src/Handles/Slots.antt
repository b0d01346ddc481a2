-- ===== src/Handles/Slots.antt =====
-- The slots of an arena of crates/interp under `alloc` and evictions: which generations they have left.
use bet.Prelude.{
  if-either, ℕ, zero, suc, ◌+◌, ◌<◌, ◌^◌, ◌≡◌, refl, ap, ap₂, ◌∙◌, subst, Bool, true, false, ◌&&◌,
  Option, none, some, List, [], ◌∷◌, ◌==◌, ==_iff, get_elem?, arith, Bool-cases, inl, inr, and-left,
  and-right, if◌then◌else◌,
}
use bet.Interp.Arena.{
  Slot, Arena, alloc_in, current, value_at, resolve, update, freed, freed_all, freed_current,
}

abbrev pub same_tag : ℕ × ℕ → ℕ × ℕ → Bool
same_tag a b = (a.0 == b.0) && (a.1 == b.1)

pub same_tag_comm : (a b : ℕ × ℕ) → same_tag a b ≡ same_tag b a
same_tag_comm a b = ground arith

pub same_tag→≡ : (a b : ℕ × ℕ) → same_tag a b ≡ true → a ≡ b
same_tag→≡ a b h =
    ap₂ (λ s g. (s, g)) ((==_iff a.0 b.0).0 (and-left (a.0 == b.0) _ h))
      ((==_iff a.1 b.1).0 (and-right (a.0 == b.0) _ h))

pub same_tag_refl : (a : ℕ × ℕ) → same_tag a a ≡ true
same_tag_refl a = ground arith

module _ {A : Type 0} where
  abbrev pub is_some : Option A → Bool
  is_some none = false
  is_some (some a) = true

  -- The slot has moved on from a generation and has `n` left; a slot that is not there has not.
  abbrev pub PastSlot : ℕ → ℕ → Option (Slot A) → Type 0
  PastSlot n g none = ⊥
  PastSlot n g (some x) = (g < x.generation) × (x.generation + n < 2 ^ 64)

  abbrev pub YoungSlots : ℕ → List (Slot A) → Type 0
  YoungSlots n [] = Unit
  YoungSlots n (x ∷ ss) = (x.generation + n < 2 ^ 64) × YoungSlots n ss

  abbrev pub GrownRoom : ℕ → Arena A → Type 0
  GrownRoom n a = (n < 2 ^ 64) × YoungSlots n a.slots

  abbrev pub reached : Arena A → ℕ × ℕ → Bool
  reached a u = is_some (resolve a u.0 u.1)

  pub YoungSlots-weaken : (n : ℕ) (ss : List (Slot A)) → YoungSlots (suc n) ss → YoungSlots n ss
  YoungSlots-weaken n [] y = tt
  YoungSlots-weaken n (x ∷ ss) y = (omega arith, YoungSlots-weaken n ss y.1)

  pub GrownRoom-weaken : (n : ℕ) (a : Arena A) → GrownRoom (suc n) a → GrownRoom n a
  GrownRoom-weaken n a r = (omega arith, YoungSlots-weaken n a.slots r.1)

  pub PastSlot-weaken : (n g : ℕ) (o : Option (Slot A)) → PastSlot (suc n) g o → PastSlot n g o
  PastSlot-weaken n g none h = h
  PastSlot-weaken n g (some x) h = (h.0, omega arith)

  pub PastSlot-dead :
      (n g : ℕ) (o : Option (Slot A)) → PastSlot n g o → is_some (value_at g o) ≡ false
  PastSlot-dead n g none h = refl
  PastSlot-dead n g (some x) h = ground arith

  -- The slot of a generation that is current.
  pub alive_some :
      (g : ℕ) (o : Option (Slot A))
      → is_some (value_at g o) ≡ true
      → (x : Slot A) × (o ≡ some x) × (current g x ≡ true)
  alive_some g none h = cc
  alive_some g (some x) h = (x, refl, ground arith)

  pub young_at :
      (n : ℕ) (ss : List (Slot A)) (i : ℕ) (x : Slot A)
      → YoungSlots n ss
      → get_elem? ss i ≡ some x
      → x.generation + n < 2 ^ 64
  young_at n [] i x y e = cc
  young_at n (z ∷ ss) zero x y e =
      let q : z ≡ x = cc in subst (λ (r : Slot A). r.generation + n < 2 ^ 64) q y.0
  young_at n (z ∷ ss) (suc i) x y e = young_at n ss i x y.1 e

  -- `alloc` keeps the generation of every slot, or pushes one of generation 0.
  pub alloc_in-Young :
      (n : ℕ) (v : A) (i : ℕ) (ss : List (Slot A))
      → n < 2 ^ 64
      → YoungSlots (suc n) ss
      → YoungSlots n (alloc_in i v ss).1
  alloc_in-Young n v i [] h y = (omega arith, tt)
  alloc_in-Young n v i (x ∷ ss) h y = elim (Bool-cases x.live) [
    | inl l ↦ let ih = alloc_in-Young n v (suc i) ss h y.1 in simp l (omega arith, ih)
    | inr d ↦ simp d (omega arith, YoungSlots-weaken n ss y.1)
  ]

  pub alloc_in-PastSlot :
      (n : ℕ) (v : A) (i : ℕ) (ss : List (Slot A)) (s g : ℕ)
      → PastSlot (suc n) g (get_elem? ss s)
      → PastSlot n g (get_elem? (alloc_in i v ss).1 s)
  alloc_in-PastSlot n v i [] s g h = absurd h
  alloc_in-PastSlot n v i (x ∷ ss) zero g h =
      if-either (λ (r : (ℕ × ℕ) × List (Slot A)). PastSlot n g (get_elem? r.1 0)) x.live
        ((alloc_in (suc i) v ss).0, x ∷ (alloc_in (suc i) v ss).1)
        ((i, x.generation), record { value = v; generation = x.generation; live = true } ∷ ss)
        (PastSlot-weaken n g (some x) h) (PastSlot-weaken n g (some x) h)
  alloc_in-PastSlot n v i (x ∷ ss) (suc s) g h =
      if-either (λ (r : (ℕ × ℕ) × List (Slot A)). PastSlot n g (get_elem? r.1 (suc s))) x.live
        ((alloc_in (suc i) v ss).0, x ∷ (alloc_in (suc i) v ss).1)
        ((i, x.generation), record { value = v; generation = x.generation; live = true } ∷ ss)
        (alloc_in-PastSlot n v (suc i) ss s g h) (PastSlot-weaken n g (get_elem? ss s) h)

  pub freed_all-Young :
      (n : ℕ) (ss : List (Slot A)) → YoungSlots (suc n) ss → YoungSlots n (freed_all ss)
  freed_all-Young n [] y = tt
  freed_all-Young n (x ∷ ss) y = (omega arith, freed_all-Young n ss y.1)

  pub get_elem?-freed_all :
      (ss : List (Slot A)) (i : ℕ) (x : Slot A)
      → get_elem? ss i ≡ some x
      → get_elem? (freed_all ss) i ≡ some (freed x)
  get_elem?-freed_all [] i x e = cc
  get_elem?-freed_all (z ∷ ss) zero x e = cc
  get_elem?-freed_all (z ∷ ss) (suc i) x e = get_elem?-freed_all ss i x e

  pub freed_all-PastSlot :
      (n g : ℕ) (ss : List (Slot A)) (s : ℕ)
      → PastSlot (suc n) g (get_elem? ss s)
      → PastSlot n g (get_elem? (freed_all ss) s)
  freed_all-PastSlot n g [] s h = absurd h
  freed_all-PastSlot n g (x ∷ ss) zero h = (omega arith, omega arith)
  freed_all-PastSlot n g (x ∷ ss) (suc s) h = freed_all-PastSlot n g ss s h

  -- An update of a slot by `freed_current`.
  pub freed_current-Young :
      (n j : ℕ) (ss : List (Slot A)) (i : ℕ)
      → YoungSlots (suc n) ss
      → YoungSlots n (update (freed_current j) i ss)
  freed_current-Young n j [] i y = tt
  freed_current-Young n j (x ∷ ss) zero y = (
    if-either (λ (r : Slot A). r.generation + n < 2 ^ 64) (current j x) (freed x) x (omega arith)
        (omega arith),
    YoungSlots-weaken n ss y.1,
  )
  freed_current-Young n j (x ∷ ss) (suc i) y = (omega arith, freed_current-Young n j ss i y.1)

  pub freed_current-PastSlot :
      (n j g : ℕ) (ss : List (Slot A)) (i s : ℕ)
      → PastSlot (suc n) g (get_elem? ss s)
      → PastSlot n g (get_elem? (update (freed_current j) i ss) s)
  freed_current-PastSlot n j g [] i s h = absurd h
  freed_current-PastSlot n j g (x ∷ ss) zero zero h =
      if-either (λ (r : Slot A). PastSlot n g (some r)) (current j x) (freed x) x
        (omega arith, omega arith) (PastSlot-weaken n g (some x) h)
  freed_current-PastSlot n j g (x ∷ ss) zero (suc s) h = PastSlot-weaken n g (get_elem? ss s) h
  freed_current-PastSlot n j g (x ∷ ss) (suc i) zero h = PastSlot-weaken n g (some x) h
  freed_current-PastSlot n j g (x ∷ ss) (suc i) (suc s) h = freed_current-PastSlot n j g ss i s h

  pub get_elem?-freed_current :
      (ss : List (Slot A)) (j i : ℕ) (x : Slot A)
      → get_elem? ss i ≡ some x
      → current j x ≡ true
      → get_elem? (update (freed_current j) i ss) i ≡ some (freed x)
  get_elem?-freed_current [] j i x e c = cc
  get_elem?-freed_current (z ∷ ss) j zero x e c =
      let q : z ≡ x = cc in ap (λ (r : Slot A). some (freed_current j r)) q ∙ rw c refl
  get_elem?-freed_current (z ∷ ss) j (suc i) x e c = get_elem?-freed_current ss j i x e c

  pub update_stale :
      (ss : List (Slot A)) (j i : ℕ)
      → is_some (value_at j (get_elem? ss i)) ≡ false
      → update (freed_current j) i ss ≡ ss
  update_stale [] j i h = refl
  update_stale (z ∷ ss) j zero h =
      let c : current j z ≡ false = ground arith in
      ap (λ (b : Bool). (if b then freed z else z) ∷ ss) c
  update_stale (z ∷ ss) j (suc i) h = ap (λ (r : List (Slot A)). z ∷ r) (update_stale ss j i h)

  -- What a slot that is current holds after it is freed.
  pub freed-Past :
      (n g : ℕ) (x : Slot A)
      → current g x ≡ true
      → x.generation + suc n < 2 ^ 64
      → PastSlot n g (some (freed x))
  freed-Past n g x c b =
      let e : x.generation ≡ g = (==_iff x.generation g).0 (and-right x.live _ c) in
      (omega arith, omega arith)
