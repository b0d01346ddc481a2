-- ===== src/Interp/Arena.antt =====
-- The arenas behind the interpreter's cribs, of crates/interp/src/interp.rs.
pub mod Refines
use bet.Prelude.{
  ℕ, zero, suc, ◌+◌, ◌%◌, ◌^◌, Bool, true, false, ◌&&◌, Option, none, some, List, [], ◌∷◌, ◌==◌,
  get_elem?, if◌then◌else◌,
}

pub record Slot {ℓ} (A : Type ℓ) : Type ℓ where
  pub value : A
  pub generation : ℕ
  pub live : Bool

pub record Arena {ℓ} (A : Type ℓ) : Type ℓ where
  pub slots : List (Slot A)
  pub typed : Bool

module _ {ℓ} {A : Type ℓ} where
  -- The search for the first slot that is not live, from slot `i` on, or the push of a new one: the tag's
  -- slot and generation, and the slots.
  abbrev pub alloc_in : ℕ → A → List (Slot A) → (ℕ × ℕ) × List (Slot A)
  alloc_in i v [] = ((i, 0), record { value = v; generation = 0; live = true } ∷ [])
  alloc_in i v (s ∷ ss) =
      let rest = alloc_in (suc i) v ss in
      if s.live
      then (rest.0, s ∷ rest.1)
      else ((i, s.generation), record { value = v; generation = s.generation; live = true } ∷ ss)

  unfoldable pub alloc : A → Arena A → (ℕ × ℕ) × Arena A
  alloc v a = let r = alloc_in 0 v a.slots in (r.0, record { slots = r.1; typed = a.typed })

  -- `filter(|s| s.live && s.generation == generation)`.
  abbrev pub current : ℕ → Slot A → Bool
  current generation s = s.live && s.generation == generation

  abbrev pub value_at : ℕ → Option (Slot A) → Option A
  value_at generation none = none
  value_at generation (some s) = if current generation s then some s.value else none

  unfoldable pub resolve : Arena A → ℕ → ℕ → Option A
  resolve a slot generation = value_at generation (get_elem? a.slots slot)

  abbrev pub any_value : Option (Slot A) → Option A
  any_value none = none
  any_value (some s) = some s.value

  unfoldable pub resolve_unchecked : Arena A → ℕ → Option A
  resolve_unchecked a slot = any_value (get_elem? a.slots slot)

  -- `get_mut(slot)`, and a change of what is there.
  abbrev pub update : (Slot A → Slot A) → ℕ → List (Slot A) → List (Slot A)
  update f i [] = []
  update f zero (s ∷ ss) = f s ∷ ss
  update f (suc i) (s ∷ ss) = s ∷ update f i ss

  abbrev pub written : ℕ → A → Slot A → Slot A
  written generation v s =
      if current generation s
      then record { value = v; generation = s.generation; live = s.live }
      else s

  unfoldable pub write_slot : ℕ → ℕ → A → Arena A → Arena A
  write_slot slot generation v a = record {
    slots = update (written generation v) slot a.slots;
    typed = a.typed;
  }

  -- A slot that is free, with the next generation.
  abbrev pub freed : Slot A → Slot A
  freed s = record { value = s.value; generation = (s.generation + 1) % 2 ^ 64; live = false }

  abbrev pub freed_all : List (Slot A) → List (Slot A)
  freed_all [] = []
  freed_all (s ∷ ss) = freed s ∷ freed_all ss

  unfoldable pub evict : Arena A → Arena A
  evict a = record { slots = freed_all a.slots; typed = a.typed }

  abbrev pub freed_current : ℕ → Slot A → Slot A
  freed_current generation s = if current generation s then freed s else s

  unfoldable pub evict_slot : ℕ → ℕ → Arena A → Arena A
  evict_slot slot generation a = record {
    slots = update (freed_current generation) slot a.slots;
    typed = a.typed;
  }
