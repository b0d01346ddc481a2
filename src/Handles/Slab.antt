-- ===== src/Handles/Slab.antt =====
-- The typed crib of crates/runtime under `bet_cop` and evictions: which requests its slots have room for.
use bet.Prelude.{
  ℕ, zero, suc, ◌+◌, ◌<◌, ◌≤◌, ◌^◌, ◌≡◌, ◌≢◌, refl, ap, ap₂, sym, ◌∙◌, subst, true, false, ◌&&◌,
  Option, none, some, List, [], ◌∷◌, ◌==◌, ==_iff, length, get_elem?, set, map, arith, length-set,
  Bool-cases, inl, inr, and-left, and-right,
}
use bet.Runtime.Outcome.{Outcome, done, die, done-injective}
use bet.Runtime.Typed.{
  Tag, SlotMeta, TypedCrib, push_range, release, evict, evict_slot, release_at, cop, live, matches,
}
use bet.Runtime.Typed.Valid.{
  IsValid, evict_slots_lem, evict-IsValid, evict_slot-IsValid, length-release,
}
use bet.Runtime.Typed.Handles.{
  same, Copped, full, took, cop_cases, Copped-IsValid, Copped-live, live-evict_slot,
}
use bet.Runtime.Typed.Ghosts.{
  evict_all, evict_one, Past, matches-some, freed-Past, Past-evict, Past-evict_slot, Past-Copped,
  matches-MovedOn,
}

-- Every generation has more than `n` left.
abbrev pub Young : ℕ → List SlotMeta → Type 0
Young n ms = (i : ℕ) (m : SlotMeta) → get_elem? ms i ≡ some m → m.generation + n < 2 ^ 64

-- A crib that can serve `n` more requests: its slab is allocated, which one without bytes is not.
pub record SlabRoom (n : ℕ) (t : TypedCrib) : Type 0 where
  pub valid : IsValid t
  pub placed : t.base ≢ 0
  pub spare : n ≤ length t.free
  pub wide : n ≤ length t.slots
  pub young : Young n t.slots

Young-set :
    (n : ℕ) (ms : List SlotMeta) (s : ℕ) (m' : SlotMeta)
    → m'.generation + n < 2 ^ 64
    → Young (suc n) ms
    → Young n (set ms s m')
Young-set n [] s m' b y i m e = cc
Young-set n (x ∷ ms) zero m' b y zero m e =
    let q : m' ≡ m = cc in subst (λ (r : SlotMeta). r.generation + n < 2 ^ 64) q b
Young-set n (x ∷ ms) zero m' b y (suc i) m e = let l = y (suc i) m e in omega arith
Young-set n (x ∷ ms) (suc s) m' b y zero m e = let l = y 0 m e in omega arith
Young-set n (x ∷ ms) (suc s) m' b y (suc i) m e = Young-set n ms s m' b (λ j. y (suc j)) i m e

Young-release : (n : ℕ) (ms : List SlotMeta) → Young (suc n) ms → Young n (map release ms)
Young-release n [] y i m e = cc
Young-release n (x ∷ ms) y zero m e =
    let q : release x ≡ m = cc in
    let b = y 0 x refl in subst (λ (r : SlotMeta). r.generation + n < 2 ^ 64) q (omega arith)
Young-release n (x ∷ ms) y (suc i) m e = Young-release n ms (λ j. y (suc j)) i m e

pub Young-weaken : (n : ℕ) (ms : List SlotMeta) → Young (suc n) ms → Young n ms
Young-weaken n ms y i m e = let b = y i m e in omega arith

pub length-push_range : (i n : ℕ) (free : List ℕ) → length (push_range i n free) ≡ n + length free
unfolding push_range
length-push_range i zero free = omega arith
length-push_range i (suc n) free = length-push_range (i + 1) n (i ∷ free) ∙ omega arith

same→≡ : (a b : Tag) → same a b ≡ true → a ≡ b
same→≡ a b h =
    ap₂ (λ s g. record { slot = s; generation = g })
      ((==_iff a.slot b.slot).0 (and-left (a.slot == b.slot) _ h))
      ((==_iff a.generation b.generation).0 (and-right (a.slot == b.slot) _ h))

pub same_comm : (a b : Tag) → same a b ≡ same b a
same_comm a b = ground arith

same_refl : (a : Tag) → same a a ≡ true
same_refl a = ground arith

abbrev pub copped : Outcome (Tag × TypedCrib) → Option (Tag × TypedCrib)
copped (done r) = some r
copped (die w) = none

-- An eviction makes room, whatever was taken.
pub evict-Room :
    (n : ℕ) (t : TypedCrib)
    → IsValid t
    → t.base ≢ 0
    → n ≤ length t.slots
    → Young (suc n) t.slots
    → SlabRoom n (evict t)
unfolding evict
evict-Room n t v placed wide young =
    let small : 0 + length t.slots < 2 ^ 32 = omega (arith, v.small) in
    let l = evict_slots_lem 0 t.slots [] small in
    let z = length-push_range 0 (length t.slots) [] in
    record {
      valid = evict-IsValid t v;
      placed = placed;
      spare = rw l.1 (omega arith);
      wide = rw (l.0, length-release) (omega arith);
      young = rw l.0 (Young-release n t.slots young);
    }

module _ (n : ℕ) (t : TypedCrib) (r : SlabRoom (suc n) t) where
  -- A `cop` takes a slot, as one is free.
  Copped-Room : {tag : Tag} {t' : TypedCrib} → Copped t tag t' → SlabRoom n t' × (t.free ≢ [])
  Copped-Room (full e) =
      let l = r.spare in
      let z : length t.free ≡ 0 = ap length e in let no : ⊥ = omega arith in elim no [ ]
  Copped-Room (took s rest m e q o) =
      let l = r.spare in
      let z : length t.free ≡ length rest + 1 = ap length e ∙ omega arith in
      let w = r.wide in
      let b = r.young s m q in
      (
        record {
          valid = Copped-IsValid t r.valid (took s rest m e q o);
          placed = r.placed;
          spare = omega arith;
          wide = rw length-set (omega arith);
          young = Young-set n t.slots s (record m { occupied = true }) (omega arith) r.young;
        },
        λ p. cc,
      )

  pub cop_obeys :
      (q : Tag × TypedCrib) × (copped (cop t) ≡ some q)
      × SlabRoom n q.1
      × (live q.1 q.0 ≡ true)
      × ((u : Tag) → live t u ≡ true → (live q.1 u ≡ true) × (same q.0 u ≡ false))
      × ((u : Tag) → Past (suc n) u t → Past n u q.1)
  cop_obeys =
      let (q, e, c) = cop_cases t r.valid in
      let k = Copped-Room c in
      let l = Copped-live t c k.1 in
      (
        q,
        ap copped e,
        k.0,
        l.1 q.0 ∙ ground (arith, same_refl q.0),
        λ u a. (l.1 u ∙ ground (arith, a), new q.0 l.0 u a),
        λ u g. Past-Copped n u t c g,
      )
    where
      new : (tag : Tag) → live t tag ≡ false → (u : Tag) → live t u ≡ true → same tag u ≡ false
      new tag d u a = elim (Bool-cases (same tag u)) [
        | inr other ↦ other
        | inl equal ↦
            let z = ap (live t) (same→≡ tag u equal) in let f : false ≡ true = sym d ∙ z ∙ a in cc
      ]

  pub evict_obeys :
      SlabRoom n (evict t)
      × ((u : Tag) → live t u ≡ true → Past n u (evict t))
      × ((u : Tag) → Past (suc n) u t → Past n u (evict t))
  unfolding evict live
  evict_obeys = (room, gone, λ u g. Past-evict n u t r.valid g)
    where
      room : SlabRoom n (evict t)
      room = (let w = r.wide in evict-Room n t r.valid r.placed (omega arith) r.young)

      gone : (u : Tag) → live t u ≡ true → Past n u (evict t)
      gone u a =
          let m = matches-some u (get_elem? t.slots u.slot) a in
          let b = r.young u.slot m.0 m.1 in
          let g : m.0.generation ≡ u.generation =
            (==_iff m.0.generation u.generation).0 (and-right m.0.occupied _ m.2) in
          let (t', e, v, p) = freed-Past n u t evict_all r.valid a tt (omega arith) in
          subst (Past n u) (sym (done-injective e)) p

  module _ (tag : Tag) (alive : live t tag ≡ true) where
    pub evict_slot_obeys :
        SlabRoom n (evict_slot t tag)
        × Past n tag (evict_slot t tag)
        × ((u : Tag) → live t u ≡ true → same tag u ≡ false → live (evict_slot t tag) u ≡ true)
        × ((u : Tag) → Past (suc n) u t → Past n u (evict_slot t tag))
    unfolding evict_slot live
    evict_slot_obeys =
        let m = matches-some tag (get_elem? t.slots tag.slot) alive in
        let b = r.young tag.slot m.0 m.1 in
        let g : m.0.generation ≡ tag.generation =
          (==_iff m.0.generation tag.generation).0 (and-right m.0.occupied _ m.2) in
        let (t', e, v, p) = freed-Past n tag t (evict_one tag) r.valid alive refl (omega arith) in
        (
          room m.0 m.1 m.2,
          subst (Past n tag) (sym (done-injective e)) p,
          λ u a d. live-evict_slot t tag u ∙ ground (arith, a, d),
          λ u h. Past-evict_slot n u tag t h,
        )
      where
        room :
            (m : SlotMeta)
            → get_elem? t.slots tag.slot ≡ some m
            → (m.occupied && m.generation == tag.generation) ≡ true
            → SlabRoom n (evict_slot t tag)
        room m e h =
            let q : evict_slot t tag
                ≡ record t { slots = set t.slots tag.slot (release m); free = tag.slot ∷ t.free } =
              ap (release_at t tag) e ∙ rw h refl in
            let s = r.spare in
            let w = r.wide in
            let b = r.young tag.slot m e in
            let valid = evict_slot-IsValid t tag r.valid in
            subst (SlabRoom n) (sym q) (record {
              valid = subst IsValid q valid;
              placed = r.placed;
              spare = omega arith;
              wide = rw length-set (omega arith);
              young = Young-set n t.slots tag.slot (release m) (omega arith) r.young;
            })

pub stale_obeys : (t : TypedCrib) (tag : Tag) → live t tag ≡ false → evict_slot t tag ≡ t
unfolding evict_slot live
stale_obeys t tag h = go (get_elem? t.slots tag.slot) h
  where
    go : (o : Option SlotMeta) → matches tag o ≡ false → release_at t tag o ≡ t
    go none e = refl
    go (some m) e = rw e refl

pub Past-dead : (n : ℕ) (t : TypedCrib) (tag : Tag) → Past n tag t → live t tag ≡ false
unfolding live
Past-dead n t tag g = matches-MovedOn n tag (get_elem? t.slots tag.slot) g
