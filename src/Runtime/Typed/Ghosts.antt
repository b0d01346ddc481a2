-- ===== src/Runtime/Typed/Ghosts.antt =====
-- A freed tag stays ghosted through any later requests, as long as the 64-bit generation of its
-- slot has not come round.
use bet.Prelude.{
  ℕ, zero, suc, ◌+◌, ◌<◌, ◌^◌, ◌≡◌, refl, ap, ◌∙◌, true, false, ◌&&◌, Option, none, some, List, [],
  ◌∷◌, ◌==◌, length, get_elem?, set, arith, ◌⊎◌, inl, inr, Bool-cases, get_elem?-set,
  get_elem?-lt-length, map, subst, sym, lt→ltb, ◌%◌, ==-refl,
}
use bet.Runtime.Outcome.{Outcome, done, ◌>>=◌}
use bet.Runtime.Typed.{
  Tag, SlotMeta, TypedCrib, evict, evict_slot, release_at, release, cop, live, matches, holla_check,
}
use bet.Runtime.Typed.Valid.{IsValid, evict_slots_lem, evict-IsValid, evict_slot-IsValid}
use bet.Runtime.Typed.Handles.{Copped, full, took, cop_cases, Copped-IsValid}

-- What a program asks of a typed crib.
pub data Request : Type 0 where
  cop_one : Request
  evict_all : Request
  evict_one : Tag → Request

abbrev pub serve : TypedCrib → Request → Outcome TypedCrib
serve t cop_one = do r ← cop t; done r.1
serve t evict_all = done (evict t)
serve t (evict_one tag) = done (evict_slot t tag)

unfoldable pub serve_all : TypedCrib → List Request → Outcome TypedCrib
serve_all t [] = done t
serve_all t (q ∷ qs) = do t' ← serve t q; serve_all t' qs

-- The slot has moved on from the tag's generation and has at least `n` generations left.
abbrev pub MovedOn : ℕ → Tag → Option SlotMeta → Type 0
MovedOn n tag none = Unit
MovedOn n tag (some m) = (tag.generation < m.generation) × (m.generation + n < 2 ^ 64)

abbrev pub Past : ℕ → Tag → TypedCrib → Type 0
Past n tag t = MovedOn n tag (get_elem? t.slots tag.slot)

pub matches-MovedOn :
    (n : ℕ) (tag : Tag) (o : Option SlotMeta) → MovedOn n tag o → matches tag o ≡ false
matches-MovedOn n tag none h = refl
matches-MovedOn n tag (some m) h = ground arith

pub MovedOn-weaken :
    (n : ℕ) (tag : Tag) (o : Option SlotMeta) → MovedOn (suc n) tag o → MovedOn n tag o
MovedOn-weaken n tag none h = tt
MovedOn-weaken n tag (some m) h = omega arith

-- A write of data whose generation is that of the slot, or the next one.
MovedOn-set :
    (n : ℕ) (tag : Tag) (ms : List SlotMeta) (s : ℕ) (m m' : SlotMeta)
    → get_elem? ms s ≡ some m
    → (m'.generation ≡ m.generation) ⊎ (m'.generation ≡ (m.generation + 1) % 2 ^ 64)
    → MovedOn (suc n) tag (get_elem? ms tag.slot)
    → MovedOn n tag (get_elem? (set ms s m') tag.slot)
MovedOn-set n tag ms s m m' q g h = rw get_elem?-set (elim (Bool-cases (s == tag.slot)) [
  | inl e ↦
      let e' : s ≡ tag.slot = ground arith in
      let h' : MovedOn (suc n) tag (some m) =
        subst (MovedOn (suc n) tag) (ap (get_elem? ms) (sym e') ∙ q) h in
      rw e (rw (lt→ltb s (length ms) (get_elem?-lt-length ms s m q)) (ground arith))
  | inr e ↦ rw e (MovedOn-weaken n tag (get_elem? ms tag.slot) h)
])

MovedOn-release :
    (n : ℕ) (tag : Tag) (ms : List SlotMeta) (i : ℕ)
    → MovedOn (suc n) tag (get_elem? ms i)
    → MovedOn n tag (get_elem? (map release ms) i)
MovedOn-release n tag [] i h = tt
MovedOn-release n tag (m ∷ ms) zero h = omega arith
MovedOn-release n tag (m ∷ ms) (suc i) h = MovedOn-release n tag ms i h

pub Past-Copped :
    (n : ℕ) (tag : Tag) (t : TypedCrib) {c : Tag} {t' : TypedCrib}
    → Copped t c t'
    → Past (suc n) tag t
    → Past n tag t'
Past-Copped n tag t (full e) h = MovedOn-weaken n tag (get_elem? t.slots tag.slot) h
Past-Copped n tag t (took s rest m e q o) h =
    MovedOn-set n tag t.slots s m (record m { occupied = true }) q (inl refl) h

pub Past-evict :
    (n : ℕ) (tag : Tag) (t : TypedCrib) → IsValid t → Past (suc n) tag t → Past n tag (evict t)
unfolding evict
Past-evict n tag t v h =
    rw (evict_slots_lem 0 t.slots [] (omega (arith, v.small))).0
      (MovedOn-release n tag t.slots tag.slot h)

pub Past-evict_slot :
    (n : ℕ) (tag other : Tag) (t : TypedCrib) → Past (suc n) tag t → Past n tag (evict_slot t other)
unfolding evict_slot
Past-evict_slot n tag other t h = go (get_elem? t.slots other.slot) refl
  where
    go :
        (o : Option SlotMeta) → get_elem? t.slots other.slot ≡ o → Past n tag (release_at t other o)
    go none e = MovedOn-weaken n tag (get_elem? t.slots tag.slot) h
    go (some m) e = elim (Bool-cases (m.occupied && m.generation == other.generation)) [
      | inr dead ↦ rw dead (MovedOn-weaken n tag (get_elem? t.slots tag.slot) h)
      | inl alive ↦ rw alive (MovedOn-set n tag t.slots other.slot m (release m) e (inr refl) h)
    ]

-- A request that is served leaves a well-formed crib, in which what was past is past.
abbrev Kept : ℕ → Tag → Outcome TypedCrib → Type 0
Kept n tag r = (t' : TypedCrib) × (r ≡ done t') × IsValid t' × Past n tag t'

serve-Kept :
    (n : ℕ) (tag : Tag) (t : TypedCrib) (q : Request)
    → IsValid t
    → Past (suc n) tag t
    → Kept n tag (serve t q)
serve-Kept n tag t cop_one v h =
    let (r, e, c) = cop_cases t v in
    (r.1, ap (λ o. o >>= λ r. done r.1) e, Copped-IsValid t v c, Past-Copped n tag t c h)
serve-Kept n tag t evict_all v h = (evict t, refl, evict-IsValid t v, Past-evict n tag t v h)
serve-Kept n tag t (evict_one other) v h =
    (evict_slot t other, refl, evict_slot-IsValid t other v, Past-evict_slot n tag other t h)

serve_all-Kept :
    (qs : List Request) (tag : Tag) (t : TypedCrib)
    → IsValid t
    → Past (length qs) tag t
    → Kept 0 tag (serve_all t qs)
unfolding serve_all
serve_all-Kept [] tag t v h = (t, refl, v, h)
serve_all-Kept (q ∷ qs) tag t v h =
    let (t', e, v', h') = serve-Kept (length qs) tag t q v h in
    let (t'', e', v'', k) = serve_all-Kept qs tag t' v' h' in
    (t'', ap (λ o. o >>= λ u. serve_all u qs) e ∙ e', v'', k)

-- The requests that free a tag.
abbrev pub Frees : Tag → Request → Type 0
Frees tag cop_one = ⊥
Frees tag evict_all = Unit
Frees tag (evict_one other) = other ≡ tag

pub matches-some :
    (tag : Tag) (o : Option SlotMeta)
    → matches tag o ≡ true
    → (m : SlotMeta) × (o ≡ some m) × ((m.occupied && m.generation == tag.generation) ≡ true)
matches-some tag none h = cc
matches-some tag (some m) h = (m, refl, h)

get_elem?-release :
    (ms : List SlotMeta) (i : ℕ) (m : SlotMeta)
    → get_elem? ms i ≡ some m
    → get_elem? (map release ms) i ≡ some (release m)
get_elem?-release [] i m h = cc
get_elem?-release (x ∷ ms) zero m h = cc
get_elem?-release (x ∷ ms) (suc i) m h = get_elem?-release ms i m h

-- Freeing a live tag puts it in the past.
pub freed-Past :
    (n : ℕ) (tag : Tag) (t : TypedCrib) (q : Request)
    → IsValid t
    → live t tag ≡ true
    → Frees tag q
    → tag.generation + 1 + n < 2 ^ 64
    → Kept n tag (serve t q)
unfolding live evict evict_slot
freed-Past n tag t cop_one v l f b = absurd f
freed-Past n tag t evict_all v l f b =
    let (m, e, h) = matches-some tag (get_elem? t.slots tag.slot) l in
    (
      evict t,
      refl,
      evict-IsValid t v,
      rw (evict_slots_lem 0 t.slots [] (omega (arith, v.small))).0
          (rw (get_elem?-release t.slots tag.slot m e) (ground arith)),
    )
freed-Past n tag t (evict_one other) v l f b =
    let (m, e, h) = matches-some tag (get_elem? t.slots tag.slot) l in
    (
      evict_slot t other,
      refl,
      evict_slot-IsValid t other v,
      rw f (
          rw (e, release_at)
            (rw h (
              rw get_elem?-set (
                rw (==-refl tag.slot) (
                  rw (lt→ltb tag.slot (length t.slots) (get_elem?-lt-length t.slots tag.slot m e))
                    (ground arith)))))),
    )

-- On a well-formed crib, a live tag that is freed, by a mass eviction or by one of its own slot,
-- resolves to null after any further requests, if its generation and their number stay below 2^64;
-- none of the requests aborts.
pub ghosted_forever :
    (t : TypedCrib) (tag : Tag) (q : Request) (qs : List Request)
    → IsValid t
    → live t tag ≡ true
    → Frees tag q
    → tag.generation + 1 + length qs < 2 ^ 64
    → (t' : TypedCrib) × (serve_all t (q ∷ qs) ≡ done t') × (holla_check t' tag ≡ 0)
unfolding serve_all holla_check
ghosted_forever t tag q qs v l f b =
    let (t₁, e₁, v₁, p₁) = freed-Past (length qs) tag t q v l f b in
    let (t₂, e₂, v₂, p₂) = serve_all-Kept qs tag t₁ v₁ p₁ in
    (
      t₂,
      ap (λ o. o >>= λ u. serve_all u qs) e₁ ∙ e₂,
      rw (matches-MovedOn 0 tag (get_elem? t₂.slots tag.slot) p₂),
    )
