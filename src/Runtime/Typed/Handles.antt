-- ===== src/Runtime/Typed/Handles.antt =====
-- What `cop`, `evict` and `evict_slot` do to the set of live tags.
use bet.Prelude.{
  ℕ, zero, suc, ◌<◌, ◌≡◌, ◌≢◌, refl, ap, ◌∙◌, Bool, true, false, ◌&&◌, ◌||◌, not, Option, none,
  some, List, [], ◌∷◌, ◌==◌, length, get_elem?, set, arith, ◌⊎◌, inl, inr, Bool-cases, length-set,
  get_elem?-set, get_elem?-lt-length, get_elem?_total, map,
}
use bet.Runtime.Outcome.{done}
use bet.Runtime.Typed.{
  Tag, null_tag, SlotMeta, TypedCrib, evict, evict_slot, release_at, release, cop, cop_from,
  take_slot, live, matches,
}
use bet.Runtime.Typed.Valid.{IsValid, evict_slots_lem, vacant-set}

abbrev pub same : Tag → Tag → Bool
same a b = a.slot == b.slot && a.generation == b.generation

-- The slot on top of the free list of a well-formed crib is there and is not occupied.
pub top_vacant :
    (t : TypedCrib) (s : ℕ) (rest : List ℕ)
    → IsValid t
    → t.free ≡ s ∷ rest
    → (m : SlotMeta) × (get_elem? t.slots s ≡ some m) × (m.occupied ≡ false)
top_vacant t s rest v e = go (get_elem? t.slots s) refl
  where
    go :
        (o : Option SlotMeta)
        → get_elem? t.slots s ≡ o
        → (m : SlotMeta) × (get_elem? t.slots s ≡ some m) × (m.occupied ≡ false)
    go none q = absurd (ground (arith, v.exact s, e, q))
    go (some m) q = (m, q, ground (arith, v.exact s, e, q))

-- The crib and the tag after a `cop` that takes the slot `s` with the data `m`.
abbrev pub taken : TypedCrib → ℕ → List ℕ → SlotMeta → TypedCrib
taken t s rest m = record t { slots = set t.slots s (record m { occupied = true }); free = rest }

-- A `cop` fails with the null tag or takes a vacant slot.
pub data Copped (t : TypedCrib) : Tag → TypedCrib → Type 0 where
  full : t.free ≡ [] → Copped t null_tag t
  took :
      (s : ℕ) (rest : List ℕ) (m : SlotMeta)
      → t.free ≡ s ∷ rest
      → get_elem? t.slots s ≡ some m
      → m.occupied ≡ false
      → Copped t (record { slot = s; generation = m.generation }) (taken t s rest m)

pub cop_cases :
    (t : TypedCrib) → IsValid t → (r : Tag × TypedCrib) × (cop t ≡ done r) × Copped t r.0 r.1
unfolding cop
cop_cases t v = go t.free refl
  where
    go :
        (free : List ℕ)
        → t.free ≡ free
        → (r : Tag × TypedCrib) × (cop t ≡ done r) × Copped t r.0 r.1
    go [] e = ((null_tag, t), ap (cop_from t) e, full e)
    go (s ∷ rest) e =
        let (m, q, o) = top_vacant t s rest v e in
        (
          (record { slot = s; generation = m.generation }, taken t s rest m),
          ap (cop_from t) e ∙ ap (take_slot t s rest) q,
          took s rest m e q o,
        )

pub Copped-IsValid :
    (t : TypedCrib) {tag : Tag} {t' : TypedCrib} → IsValid t → Copped t tag t' → IsValid t'
Copped-IsValid t v (full e) = v
Copped-IsValid t v (took s rest m e q o) = record {
  small = rw length-set v.small;
  once = ground (arith, v.once, e);
  exact = λ i.
      rw (vacant-set t.slots s i m (record m { occupied = true }) q)
        (ground (arith, v.exact i, v.exact s, v.once, e));
}

-- On a well-formed crib `cop` never aborts, and it leaves the crib well-formed.
pub cop-IsValid :
    (t : TypedCrib) → IsValid t → (r : Tag × TypedCrib) × (cop t ≡ done r) × IsValid r.1
cop-IsValid t v = let (r, e, c) = cop_cases t v in (r, e, Copped-IsValid t v c)

-- A crib with an empty free list has no vacant slot.
full-occupied :
    (t : TypedCrib) (i : ℕ)
    → IsValid t
    → t.free ≡ []
    → i < length t.slots
    → (m : SlotMeta) × (get_elem? t.slots i ≡ some m) × (m.occupied ≡ true)
full-occupied t i v e h =
    let (m, q) = get_elem?_total t.slots i h in (m, q, ground (arith, v.exact i, e, q))

-- The tag that a `cop` returns is new: it was not live, it is live, and every other tag is as before.
pub Copped-live :
    (t : TypedCrib) {tag : Tag} {t' : TypedCrib}
    → Copped t tag t'
    → t.free ≢ []
    → (live t tag ≡ false) × ((other : Tag) → live t' other ≡ (live t other || same tag other))
unfolding live
Copped-live t (full e) h = absurd (h e)
Copped-live t (took s rest m e q o) h = (
  ground (arith, q, o),
  λ other. rw get_elem?-set (ground (arith, q, o, get_elem?-lt-length t.slots s m q)),
)

-- Freeing one slot, for any crib and tag, ends the life of its tag, and of no other.
pub live-evict_slot :
    (t : TypedCrib) (tag other : Tag)
    → live (evict_slot t tag) other ≡ (live t other && not (same tag other))
unfolding live evict_slot
live-evict_slot t tag other = go (get_elem? t.slots tag.slot) refl
  where
    go :
        (o : Option SlotMeta)
        → get_elem? t.slots tag.slot ≡ o
        → live (release_at t tag o) other ≡ (live t other && not (same tag other))
    go none e = ground (arith, e)
    go (some m) e = elim (Bool-cases (m.occupied && m.generation == tag.generation)) [
      | inr dead ↦ rw dead (ground (arith, e))
      | inl alive ↦
          rw alive (rw get_elem?-set (ground (arith, e, get_elem?-lt-length t.slots tag.slot m e)))
    ]

matches-release :
    (ms : List SlotMeta) (i : ℕ) (tag : Tag) → matches tag (get_elem? (map release ms) i) ≡ false
matches-release [] i tag = refl
matches-release (m ∷ ms) zero tag = refl
matches-release (m ∷ ms) (suc i) tag = matches-release ms i tag

-- After an eviction of a well-formed crib no tag is live.
pub live-evict : (t : TypedCrib) (tag : Tag) → IsValid t → live (evict t) tag ≡ false
unfolding live evict
live-evict t tag v =
    rw (evict_slots_lem 0 t.slots [] (omega (arith, v.small))).0
      (matches-release t.slots tag.slot tag)

-- Every slot of the slab is taken.
abbrev pub IsFull : TypedCrib → Type 0
IsFull t =
    (i : ℕ)
    → i < length t.slots
    → (m : SlotMeta) × (get_elem? t.slots i ≡ some m) × (m.occupied ≡ true)

abbrev pub CopSpec : TypedCrib → Tag × TypedCrib → Type 0
CopSpec t r =
    ((r.0 ≡ null_tag) × (r.1 ≡ t) × IsFull t)
    ⊎ ((live t r.0 ≡ false) × ((other : Tag) → live r.1 other ≡ (live t other || same r.0 other)))

Copped-CopSpec :
    (t : TypedCrib) {tag : Tag} {t' : TypedCrib} → IsValid t → Copped t tag t' → CopSpec t (tag, t')
Copped-CopSpec t v (full e) = inl (refl, refl, λ i h. full-occupied t i v e h)
Copped-CopSpec t v (took s rest m e q o) =
    inr (Copped-live t (took s rest m e q o) (λ z. cc (z, e)))

-- On a well-formed crib `cop` returns, and either the slab is full, the tag is null and nothing
-- changes, or the tag was not live and the live tags afterwards are those of before and it.
pub cop-CopSpec :
    (t : TypedCrib) → IsValid t → (r : Tag × TypedCrib) × (cop t ≡ done r) × CopSpec t r
cop-CopSpec t v = let (r, e, c) = cop_cases t v in (r, e, Copped-CopSpec t v c)
