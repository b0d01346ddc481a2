-- ===== src/Handles.antt =====
-- What crates/interp and crates/runtime both promise of the tags of a crib: the interface, and the runs of
-- a program's requests on it. A request names a tag by its age, 0 for the newest.
pub mod Flags
pub mod Agree
pub mod Slab
pub mod Checked
pub mod Slots
pub mod Grown
pub mod Fresh
use bet.Prelude.{
  ℕ, zero, suc, ◌≡◌, Bool, true, false, ◌&&◌, Option, none, some, List, [], ◌∷◌, get_elem?, map,
}

-- A store of tags. `Room n` says that it can serve `n` more requests, and `Gone n` that a tag is dead and
-- stays dead for as many.
pub record TagStore : Type 1 where
  pub Store : Type 0
  pub Tag : Type 0
  pub same : Tag → Tag → Bool
  pub cop : Store → Option (Tag × Store)
  pub evict : Store → Store
  pub evict_one : Tag → Store → Store
  pub alive : Store → Tag → Bool
  pub Room : ℕ → Store → Type 0
  pub Gone : ℕ → Store → Tag → Type 0
  pub same_sym : (t u : Tag) → same t u ≡ same u t
  pub Gone-dead : (n : ℕ) (s : Store) (t : Tag) → Gone n s t → alive s t ≡ false
  pub Room-weaken : (n : ℕ) (s : Store) → Room (suc n) s → Room n s
  pub Gone-weaken : (n : ℕ) (s : Store) (t : Tag) → Gone (suc n) s t → Gone n s t
  pub cop_law :
      (n : ℕ) (s : Store)
      → Room (suc n) s
      → (r : Tag × Store) × (cop s ≡ some r)
        × Room n r.1
        × (alive r.1 r.0 ≡ true)
        × ((u : Tag) → alive s u ≡ true → (alive r.1 u ≡ true) × (same r.0 u ≡ false))
        × ((u : Tag) → Gone (suc n) s u → Gone n r.1 u)
  pub evict_law :
      (n : ℕ) (s : Store)
      → Room (suc n) s
      → Room n (evict s)
        × ((u : Tag) → alive s u ≡ true → Gone n (evict s) u)
        × ((u : Tag) → Gone (suc n) s u → Gone n (evict s) u)
  pub evict_one_law :
      (n : ℕ) (s : Store) (t : Tag)
      → Room (suc n) s
      → alive s t ≡ true
      → Room n (evict_one t s)
        × Gone n (evict_one t s) t
        × ((u : Tag) → alive s u ≡ true → same t u ≡ false → alive (evict_one t s) u ≡ true)
        × ((u : Tag) → Gone (suc n) s u → Gone n (evict_one t s) u)
  pub stale_law :
      (n : ℕ) (s : Store) (t : Tag) → Room (suc n) s → alive s t ≡ false → evict_one t s ≡ s

pub data Request : Type 0 where
  cop_next : Request
  evict_all : Request
  evict_tag : (age : ℕ) → Request
  holla : (age : ℕ) → Request

module _ (T : TagStore) where
  abbrev pub free_at : T.Store → Option T.Tag → T.Store
  free_at s none = s
  free_at s (some t) = T.evict_one t s

  abbrev pub ask : T.Store → Option T.Tag → Bool
  ask s none = false
  ask s (some t) = T.alive s t

  abbrev pub then_run :
      List T.Tag
      → (T.Store → List T.Tag → Option (List Bool))
      → Option (T.Tag × T.Store)
      → Option (List Bool)
  then_run ts go none = none
  then_run ts go (some r) = go r.1 (r.0 ∷ ts)

  abbrev pub answered : Bool → Option (List Bool) → Option (List Bool)
  answered b none = none
  answered b (some bs) = some (b ∷ bs)

  -- The answers of the `holla`s, or none where a `cop` fails.
  unfoldable pub run : T.Store → List T.Tag → List Request → Option (List Bool)
  run s ts [] = some []
  run s ts (cop_next ∷ qs) = then_run ts (λ s' ts'. run s' ts' qs) (T.cop s)
  run s ts (evict_all ∷ qs) = run (T.evict s) ts qs
  run s ts (evict_tag age ∷ qs) = run (free_at s (get_elem? ts age)) ts qs
  run s ts (holla age ∷ qs) = answered (ask s (get_elem? ts age)) (run s ts qs)

-- The same on flags: which tags have been freed.
abbrev pub lower : List Bool → ℕ → List Bool
lower [] k = []
lower (b ∷ bs) zero = false ∷ bs
lower (b ∷ bs) (suc k) = b ∷ lower bs k

abbrev pub flag : Option Bool → Bool
flag none = false
flag (some b) = b

abbrev pub all_false : List Bool → List Bool
all_false [] = []
all_false (b ∷ bs) = false ∷ all_false bs

unfoldable pub answers : List Bool → List Request → List Bool
answers bs [] = []
answers bs (cop_next ∷ qs) = answers (true ∷ bs) qs
answers bs (evict_all ∷ qs) = answers (all_false bs) qs
answers bs (evict_tag age ∷ qs) = answers (lower bs age) qs
answers bs (holla age ∷ qs) = flag (get_elem? bs age) ∷ answers bs qs
