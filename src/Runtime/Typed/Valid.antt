-- ===== src/Runtime/Typed/Valid.antt =====
-- The well-formedness of a typed crib, and that every operation keeps it.
use bet.Prelude.{
  ℕ, zero, suc, ◌+◌, ◌≤◌, ◌<◌, ◌^◌, ◌≡◌, refl, ap, Bool, true, false, ◌&&◌, not, Option, none, some,
  List, [], ◌∷◌, ◌==◌, ltb, if◌then◌else◌, length, get_elem?, set, contains, distinct, map, arith,
  Bool-cases, length-set, length-replicate, get_elem?-set, get_elem?-replicate, inl, inr,
  get_elem?-lt-length,
}
use bet.Runtime.Outcome.{as_u32}
use bet.Runtime.Typed.{
  Tag, SlotMeta, TypedCrib, push_range, new_typed, evict_slots, evict, evict_slot, release_at,
  release,
}

abbrev pub vacant : Option SlotMeta → Bool
vacant none = false
vacant (some m) = not m.occupied

-- The free list names the unoccupied slots, each once, and the slab has a `u32` of slots.
pub record IsValid (t : TypedCrib) : Type 0 where
  pub small : length t.slots < 2 ^ 32
  pub once : distinct t.free ≡ true
  pub exact : (i : ℕ) → contains t.free i ≡ vacant (get_elem? t.slots i)

contains-push_range :
    (n i : ℕ) (free : List ℕ) (j : ℕ)
    → contains (push_range i n free) j
      ≡ (if ltb j (i + n) && not (ltb j i) then true else contains free j)
unfolding push_range
contains-push_range zero i free j = ground arith
contains-push_range (suc n) i free j = ground (arith, contains-push_range n (i + 1) (i ∷ free) j)

distinct-push_range :
    (n i : ℕ) (free : List ℕ)
    → distinct free ≡ true
    → ((j : ℕ) → i ≤ j → contains free j ≡ false)
    → distinct (push_range i n free) ≡ true
unfolding push_range
distinct-push_range zero i free d h = d
distinct-push_range (suc n) i free d h =
    distinct-push_range n (i + 1) (i ∷ free) (ground (arith, h i)) (λ j lt. ground (arith, h j))

pub new_typed-IsValid :
    (size align capacity base : ℕ)
    → capacity < 2 ^ 32
    → IsValid (new_typed size align capacity base)
unfolding new_typed
new_typed-IsValid size align capacity base h = record {
  small = rw length-replicate h;
  once = distinct-push_range capacity 0 [] refl (λ j _. refl);
  exact = λ i. rw (contains-push_range, get_elem?-replicate) (ground arith);
}

-- The eviction loop releases every slot and rebuilds the free list as a new crib has it.
pub evict_slots_lem :
    (i : ℕ) (ms : List SlotMeta) (free : List ℕ)
    → i + length ms < 2 ^ 32
    → (evict_slots i ms free).0 ≡ map release ms
      × (evict_slots i ms free).1 ≡ push_range i (length ms) free
unfolding evict_slots push_range
evict_slots_lem i [] free h = (refl, refl)
evict_slots_lem i (m ∷ ms) free h =
    let e : as_u32 i ≡ i = omega arith in
    let ih = evict_slots_lem (i + 1) ms (as_u32 i ∷ free) (omega arith) in
    (ap (λ r. release m ∷ r) ih.0, rw ih.1 (rw e))

vacant-release :
    (ms : List SlotMeta) (i : ℕ) → vacant (get_elem? (map release ms) i) ≡ ltb i (length ms)
vacant-release [] i = ground arith
vacant-release (m ∷ ms) zero = ground arith
vacant-release (m ∷ ms) (suc i) = ground (arith, vacant-release ms i)

pub length-release : (ms : List SlotMeta) → length (map release ms) ≡ length ms
length-release [] = refl
length-release (m ∷ ms) = ap suc (length-release ms)

pub evict-IsValid : (t : TypedCrib) → IsValid t → IsValid (evict t)
unfolding evict
evict-IsValid t v =
    let l = evict_slots_lem 0 t.slots [] (omega (arith, v.small)) in
    record {
      small = rw (l.0, length-release) v.small;
      once = rw l.1 (distinct-push_range (length t.slots) 0 [] refl (λ j _. refl));
      exact = λ i. rw (l.0, l.1, contains-push_range, vacant-release) (ground arith);
    }

pub vacant-set :
    (ms : List SlotMeta) (s i : ℕ) (m m' : SlotMeta)
    → get_elem? ms s ≡ some m
    → vacant (get_elem? (set ms s m') i)
      ≡ (if s == i then not m'.occupied else vacant (get_elem? ms i))
vacant-set ms s i m m' h = rw get_elem?-set (ground (arith, get_elem?-lt-length ms s m h))

-- A well-formed crib stays well-formed when a slot is freed, whatever the tag.
pub evict_slot-IsValid : (t : TypedCrib) (tag : Tag) → IsValid t → IsValid (evict_slot t tag)
unfolding evict_slot
evict_slot-IsValid t tag v = go (get_elem? t.slots tag.slot) refl
  where
    go : (o : Option SlotMeta) → get_elem? t.slots tag.slot ≡ o → IsValid (release_at t tag o)
    go none e = v
    go (some m) e = elim (Bool-cases (m.occupied && m.generation == tag.generation)) [
      | inr dead ↦ rw dead v
      | inl alive ↦ rw alive (record {
        small = rw length-set v.small;
        once = ground (arith, v.once, v.exact tag.slot, e, alive);
        exact = λ i. rw (vacant-set t.slots tag.slot i m (release m) e) (ground (arith, v.exact i));
      })
    ]
