-- ===== src/Handles/Grown.antt =====
-- The arena of crates/interp as a store of tags: every `cop` stores the value `v`.
use bet.Prelude.{
  ℕ, suc, ◌≡◌, refl, ap, sym, ◌∙◌, subst, Bool, true, false, ◌&&◌, Option, none, some, List, ◌==◌,
  get_elem?, arith, Bool-cases, inl, inr, if◌then◌else◌,
}
use bet.Interp.Arena.{Slot, Arena, alloc, resolve, evict, evict_slot}
use bet.Interp.Arena.Refines.{arena_refines}
use bet.Handles.{TagStore}
use bet.Handles.Slots.{
  same_tag→≡, same_tag_refl, same_tag, same_tag_comm, is_some, PastSlot, GrownRoom, reached,
  GrownRoom-weaken, PastSlot-weaken, PastSlot-dead, alive_some, young_at, alloc_in-Young,
  alloc_in-PastSlot, freed_all-Young, get_elem?-freed_all, freed_all-PastSlot, freed_current-Young,
  freed_current-PastSlot, get_elem?-freed_current, update_stale, freed-Past,
}

module _ {A : Type 0} where
  module _ (n : ℕ) (a : Arena A) (r : GrownRoom (suc n) a) where
    pub alloc_obeys :
        (v : A)
        → GrownRoom n (alloc v a).1
          × (reached (alloc v a).1 (alloc v a).0 ≡ true)
          × ((u : ℕ × ℕ)
              → reached a u ≡ true
              → (reached (alloc v a).1 u ≡ true) × (same_tag (alloc v a).0 u ≡ false))
          × ((u : ℕ × ℕ)
              → PastSlot (suc n) u.1 (get_elem? a.slots u.0)
              → PastSlot n u.1 (get_elem? (alloc v a).1.slots u.0))
    unfolding alloc
    alloc_obeys v =
        let f = arena_refines a v in
        let t = (alloc v a).0 in
        (
          (omega arith, alloc_in-Young n v 0 a.slots (omega arith) r.1),
          ap is_some (f.1 t.0 t.1) ∙ ground (arith, same_tag_refl t),
          (λ u h. (
            ap is_some (f.1 u.0 u.1) ∙ either ((u.0 == t.0) && (u.1 == t.1)) (resolve a u.0 u.1) h,
            apart t f.0 u h,
          )),
          λ u h. alloc_in-PastSlot n v 0 a.slots u.0 u.1 h,
        )
      where
        either :
            (b : Bool) (o : Option A) → is_some o ≡ true → is_some (if b then some v else o) ≡ true
        either true o h = refl
        either false o h = h

        apart :
            (t : ℕ × ℕ)
            → resolve a t.0 t.1 ≡ none
            → (u : ℕ × ℕ) → reached a u ≡ true
            → same_tag t u ≡ false
        apart t d u h = elim (Bool-cases (same_tag t u)) [
          | inr other ↦ other
          | inl equal ↦
              let z = ap (reached a) (same_tag→≡ t u equal) in
              let k : false ≡ true = sym (ap is_some d) ∙ z ∙ h in cc
        ]

    pub evict_obeys :
        GrownRoom n (evict a)
        × ((u : ℕ × ℕ) → reached a u ≡ true → PastSlot n u.1 (get_elem? (evict a).slots u.0))
        × ((u : ℕ × ℕ)
            → PastSlot (suc n) u.1 (get_elem? a.slots u.0)
            → PastSlot n u.1 (get_elem? (evict a).slots u.0))
    unfolding evict resolve
    evict_obeys = (
      (omega arith, freed_all-Young n a.slots r.1),
      (λ u h.
          let x = alive_some u.1 (get_elem? a.slots u.0) h in
          subst (PastSlot n u.1) (sym (get_elem?-freed_all a.slots u.0 x.0 x.1))
            (freed-Past n u.1 x.0 x.2 (young_at (suc n) a.slots u.0 x.0 r.1 x.1))),
      λ u h. freed_all-PastSlot n u.1 a.slots u.0 h,
    )

    pub evict_slot_obeys :
        (t : ℕ × ℕ)
        → reached a t ≡ true
        → GrownRoom n (evict_slot t.0 t.1 a)
          × PastSlot n t.1 (get_elem? (evict_slot t.0 t.1 a).slots t.0)
          × ((u : ℕ × ℕ)
              → reached a u ≡ true
              → same_tag t u ≡ false
              → reached (evict_slot t.0 t.1 a) u ≡ true)
          × ((u : ℕ × ℕ)
              → PastSlot (suc n) u.1 (get_elem? a.slots u.0)
              → PastSlot n u.1 (get_elem? (evict_slot t.0 t.1 a).slots u.0))
    unfolding evict_slot resolve
    evict_slot_obeys t l =
        let x = alive_some t.1 (get_elem? a.slots t.0) l in
        (
          (omega arith, freed_current-Young n t.1 a.slots t.0 r.1),
          subst (PastSlot n t.1) (sym (get_elem?-freed_current a.slots t.1 t.0 x.0 x.1 x.2))
              (freed-Past n t.1 x.0 x.2 (young_at (suc n) a.slots t.0 x.0 r.1 x.1)),
          (λ u h d.
              ap is_some ((arena_refines a x.0.value).3 t.0 t.1 u.0 u.1)
              ∙ ap (λ (b : Bool). is_some (if b then none else resolve a u.0 u.1))
                  (same_tag_comm u t ∙ d)
              ∙ h),
          λ u h. freed_current-PastSlot n t.1 u.1 a.slots t.0 u.0 h,
        )

  pub stale_obeys : (a : Arena A) (t : ℕ × ℕ) → reached a t ≡ false → evict_slot t.0 t.1 a ≡ a
  unfolding evict_slot resolve
  stale_obeys a t h =
      ap (λ (ss : List (Slot A)). record { slots = ss; typed = a.typed })
        (update_stale a.slots t.1 t.0 h)

  pub Past-dead :
      (n : ℕ) (a : Arena A) (u : ℕ × ℕ)
      → PastSlot n u.1 (get_elem? a.slots u.0)
      → reached a u ≡ false
  unfolding resolve
  Past-dead n a u g = PastSlot-dead n u.1 (get_elem? a.slots u.0) g

  abbrev pub grown : A → TagStore
  grown v = record {
    Store = Arena A;
    Tag = ℕ × ℕ;
    same = same_tag;
    cop = λ a. some (alloc v a);
    evict = evict;
    evict_one = λ t a. evict_slot t.0 t.1 a;
    alive = reached;
    Room = GrownRoom;
    Gone = λ n a u. PastSlot n u.1 (get_elem? a.slots u.0);
    same_sym = same_tag_comm;
    Gone-dead = Past-dead;
    Room-weaken = GrownRoom-weaken;
    Gone-weaken = λ n a u g. PastSlot-weaken n u.1 (get_elem? a.slots u.0) g;
    cop_law = λ n a r. let l = alloc_obeys n a r v in (alloc v a, refl, l.0, l.1, l.2, l.3);
    evict_law = evict_obeys;
    evict_one_law = λ n a t r h. evict_slot_obeys n a r t h;
    stale_law = λ n a t r h. stale_obeys a t h;
  }
