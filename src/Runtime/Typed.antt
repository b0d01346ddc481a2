-- ===== src/Runtime/Typed.antt =====
-- The typed crib of crates/runtime/src/lib.rs: a slab of slots with generation counters and a free
-- list, and the tags of crates/rt-abi/src/lib.rs. An address is a number, and 0 is the null pointer.
-- The free list is a stack whose top stands first.
pub mod Valid
pub mod Handles
pub mod Ghosts
use bet.Prelude.{
  ℕ, zero, suc, ◌+◌, ◌*◌, ◌≡◌, Bool, true, false, ◌&&◌, not, Option, none, some, List, [], ◌∷◌,
  ◌==◌, ltb, if◌then◌else◌, length, get_elem?, set, replicate,
}
use bet.Runtime.Outcome.{Outcome, done, die, index_out_of_bounds, as_u32, wrapping_succ}

pub record Tag : Type 0 where
  pub slot : ℕ
  pub generation : ℕ

abbrev pub null_tag : Tag
null_tag = record { slot = 0xffff_ffff; generation = 0 }

pub record SlotMeta : Type 0 where
  pub occupied : Bool
  pub generation : ℕ

pub record TypedCrib : Type 0 where
  pub elem_size : ℕ
  pub elem_align : ℕ
  pub base : ℕ
  pub slots : List SlotMeta
  pub free : List ℕ

-- `(0..capacity).collect()`, pushed in order.
unfoldable pub push_range : ℕ → ℕ → List ℕ → List ℕ
push_range i zero free = free
push_range i (suc n) free = push_range (i + 1) n (i ∷ free)

-- The slab at `base`, with every slot free at generation 0.
unfoldable pub new_typed : ℕ → ℕ → ℕ → ℕ → TypedCrib
new_typed elem_size elem_align capacity base = record {
  elem_size = elem_size;
  elem_align = elem_align;
  base = base;
  slots = replicate capacity (record { occupied = false; generation = 0 });
  free = push_range 0 capacity [];
}

abbrev pub release : SlotMeta → SlotMeta
release m = record { occupied = false; generation = wrapping_succ m.generation }

-- The loop of `bet_evict`: release slot after slot from index `i` on, and push its index.
unfoldable pub evict_slots : ℕ → List SlotMeta → List ℕ → List SlotMeta × List ℕ
evict_slots i [] free = ([], free)
evict_slots i (m ∷ ms) free =
    let (ms', free') = evict_slots (i + 1) ms (as_u32 i ∷ free) in (release m ∷ ms', free')

unfoldable pub evict : TypedCrib → TypedCrib
evict t =
    let (slots', free') = evict_slots 0 t.slots [] in record t { slots = slots'; free = free' }

-- The validity rule of `bet_holla_check` and `bet_evict_slot`.
abbrev pub matches : Tag → Option SlotMeta → Bool
matches tag none = false
matches tag (some m) = m.occupied && m.generation == tag.generation

unfoldable pub live : TypedCrib → Tag → Bool
live t tag = matches tag (get_elem? t.slots tag.slot)

abbrev pub release_at : TypedCrib → Tag → Option SlotMeta → TypedCrib
release_at t tag none = t
release_at t tag (some m) =
    if m.occupied && m.generation == tag.generation
    then record t { slots = set t.slots tag.slot (release m); free = tag.slot ∷ t.free }
    else t

unfoldable pub evict_slot : TypedCrib → Tag → TypedCrib
evict_slot t tag = release_at t tag (get_elem? t.slots tag.slot)

abbrev pub take_slot : TypedCrib → ℕ → List ℕ → Option SlotMeta → Outcome (Tag × TypedCrib)
take_slot t s rest none = die index_out_of_bounds
take_slot t s rest (some m) = done (
  record { slot = s; generation = m.generation },
  record t { slots = set t.slots s (record m { occupied = true }); free = rest },
)

-- `bet_cop`: pop a free slot and mark it; the null tag if there is none.
abbrev pub cop_from : TypedCrib → List ℕ → Outcome (Tag × TypedCrib)
cop_from t [] = done (null_tag, t)
cop_from t (s ∷ rest) = take_slot t s rest (get_elem? t.slots s)

unfoldable pub cop : TypedCrib → Outcome (Tag × TypedCrib)
cop t = cop_from t t.free

-- `bet_holla_check`: the slot's address if the tag is live, null otherwise.
unfoldable pub holla_check : TypedCrib → Tag → ℕ
unfolding live
holla_check t tag = if live t tag && not (t.base == 0) then t.base + tag.slot * t.elem_size else 0

-- `bet_slot_ptr`: the slot's address, whatever its generation.
unfoldable pub slot_ptr : TypedCrib → ℕ → ℕ
slot_ptr t slot =
    if ltb slot (length t.slots) && not (t.base == 0) then t.base + slot * t.elem_size else 0
