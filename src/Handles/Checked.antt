-- ===== src/Handles/Checked.antt =====
-- The typed crib of crates/runtime as a store of tags: a tag is alive where `bet_holla_check` resolves it.
use bet.Prelude.{
  Bool, not, ◌≡◌, ◌≢◌, refl, sym, ◌∙◌, false, ◌==◌, get_elem?, arith, Bool-cases, inl, inr,
}
use bet.Runtime.Typed.{Tag, TypedCrib, evict, evict_slot, cop, live, holla_check}
use bet.Runtime.Typed.Handles.{same}
use bet.Runtime.Typed.Ghosts.{Past, MovedOn-weaken}
use bet.Handles.{TagStore}
use bet.Handles.Slab.{
  SlabRoom, Young-weaken, same_comm, copped, cop_obeys, evict_obeys, evict_slot_obeys, stale_obeys,
  Past-dead,
}

-- The test that a program runs on a tag: `bet_holla_check` gives a pointer that is not null.
abbrev pub resolves : TypedCrib → Tag → Bool
resolves t tag = not (holla_check t tag == 0)

pub resolves_dead : (t : TypedCrib) (tag : Tag) → live t tag ≡ false → resolves t tag ≡ false
unfolding holla_check
resolves_dead t tag d = rw d refl

-- On a slab that is allocated, the pointer of a live tag is not null.
pub resolves_live : (t : TypedCrib) (tag : Tag) → t.base ≢ 0 → resolves t tag ≡ live t tag
unfolding holla_check
resolves_live t tag p = elim (Bool-cases (live t tag)) [ inl a ↦ ground arith | inr d ↦ rw d refl ]

abbrev pub slab : TagStore
slab = record {
  Store = TypedCrib;
  Tag = Tag;
  same = same;
  cop = λ t. copped (cop t);
  evict = evict;
  evict_one = λ tag t. evict_slot t tag;
  alive = resolves;
  Room = SlabRoom;
  Gone = λ n t tag. Past n tag t;
  same_sym = same_comm;
  Gone-dead = λ n t tag g. resolves_dead t tag (Past-dead n t tag g);
  Room-weaken = λ n t r. record {
    valid = r.valid;
    placed = r.placed;
    spare = let l = r.spare in omega arith;
    wide = let l = r.wide in omega arith;
    young = Young-weaken n t.slots r.young;
  };
  Gone-weaken = λ n t tag g. MovedOn-weaken n tag (get_elem? t.slots tag.slot) g;
  cop_law = λ n t r.
      let l = cop_obeys n t r in
      (
        l.0,
        l.1,
        l.2,
        resolves_live l.0.1 l.0.0 l.2.placed ∙ l.3,
        (λ u a.
            let k = l.4 u (sym (resolves_live t u r.placed) ∙ a) in
            (resolves_live l.0.1 u l.2.placed ∙ k.0, k.1)),
        l.5,
      );
  evict_law = λ n t r.
      let l = evict_obeys n t r in
      (l.0, (λ u a. l.1 u (sym (resolves_live t u r.placed) ∙ a)), l.2);
  evict_one_law = λ n t tag r a.
      let l = evict_slot_obeys n t r tag (sym (resolves_live t tag r.placed) ∙ a) in
      (
        l.0,
        l.1,
        (λ u b d.
            resolves_live (evict_slot t tag) u l.0.placed
            ∙ l.2 u (sym (resolves_live t u r.placed) ∙ b) d),
        l.3,
      );
  stale_law = λ n t tag r d. stale_obeys t tag (sym (resolves_live t tag r.placed) ∙ d);
}
