-- ===== src/Tests/Cribs.antt =====
-- Runs of typed and bump cribs.
use bet.Prelude.{
  ◌<◌, ◌-◌, ℕ, zero, suc, ◌+◌, ◌^◌, ◌≤◌, ◌≡◌, refl, true, false, ◌&&◌, not, some, List, [], ◌∷◌,
  arith, contains, subst, sym, ◌∙◌, get_elem?,
}
use bet.Runtime.Outcome.{done}
use bet.Runtime.Memory.{align_up}
use bet.Runtime.Typed.{
  Tag, TypedCrib, new_typed, push_range, cop, live, evict, evict_slot, holla_check,
}
use bet.Runtime.Bump.{Chunk, BumpCrib, bump_alloc, reset, alloc_loop}
use bet.Runtime.Bump.Arena.{Clear, IsArena}
use bet.Runtime.Bump.Disjoint.{Ends, bump_alloc-Ends}
use bet.Runtime.Bump.Frames.{Frame, start, next, Sound, Frame-Sound}
use bet.Runtime.Cribs.{
  Arenas, Crib, typed, bump, block, bet_scratch, bet_scratch_reset, bet_mem_receipts,
}
use bet.Runtime.Cribs.Scratch.{scratch_cycle}
use bet.Runtime.Typed.Valid.{IsValid, new_typed-IsValid, vacant}
use bet.Runtime.Typed.Handles.{CopSpec, cop-CopSpec, live-evict, live-evict_slot, same}
use bet.Runtime.Typed.Ghosts.{Request, cop_one, evict_all, evict_one, serve_all, ghosted_forever}
use bet.Tests.Machine.{machine}

-- A slab of two slots, and the slab with one of them in use.
abbrev pub two_slots : TypedCrib
two_slots = new_typed 8 8 2 4096

abbrev pub first_tag : Tag
first_tag = record { slot = 1; generation = 0 }

abbrev pub one_used : TypedCrib
one_used = record two_slots {
  slots =
      record { occupied = false; generation = 0 } ∷ record { occupied = true; generation = 0 } ∷ [];
  free = 0 ∷ [];
}

two_slots-IsValid : IsValid two_slots
two_slots-IsValid = new_typed-IsValid 8 8 2 4096 (omega arith)

first_cop : cop two_slots ≡ done (first_tag, one_used)
unfolding cop new_typed push_range
first_cop = refl

first_live : live one_used first_tag ≡ true
unfolding live new_typed push_range
first_live = refl

exact_used : (i : ℕ) → contains (0 ∷ []) i ≡ vacant (get_elem? one_used.slots i)
unfolding new_typed push_range
exact_used zero = refl
exact_used (suc zero) = ground arith
exact_used (suc (suc i)) = ground arith

one_used-IsValid : IsValid one_used
one_used-IsValid = record { small = omega arith; once = refl; exact = exact_used }

abbrev pub requests : List Request
requests = cop_one ∷ evict_all ∷ cop_one ∷ evict_one first_tag ∷ []

ghosted_forever_example :
    (t' : TypedCrib) × (serve_all one_used (evict_one first_tag ∷ requests) ≡ done t')
    × (holla_check t' first_tag ≡ 0)
ghosted_forever_example =
    ghosted_forever one_used first_tag (evict_one first_tag) requests one_used-IsValid first_live
      refl (omega arith)

cop-CopSpec_example : (r : Tag × TypedCrib) × (cop two_slots ≡ done r) × CopSpec two_slots r
cop-CopSpec_example = cop-CopSpec two_slots two_slots-IsValid

live-evict_slot_example :
    live (evict_slot one_used first_tag) first_tag
    ≡ (live one_used first_tag && not (same first_tag first_tag))
live-evict_slot_example = live-evict_slot one_used first_tag first_tag

live-evict_example : live (evict one_used) first_tag ≡ false
live-evict_example = live-evict one_used first_tag one_used-IsValid

-- The cribs of thread 7: the slab at handle 1, a bump crib at handle 2.
abbrev pub arena : BumpCrib
arena = record {
  chunks = record { base = 4096; cap = 64; align = 16 } ∷ [];
  current = 0;
  offset = 10;
  next_reserve = 64;
}

abbrev pub process : Arenas machine
process = record {
  cribs =
      some (record { owner = 7; kind = typed one_used })
      ∷ some (record { owner = 7; kind = bump arena })
      ∷ [];
  memory = 8192;
  scratch = λ thread. some 2;
}

held_chunk :
    (i : ℕ) (c : Chunk)
    → get_elem? arena.chunks i ≡ some c
    → (c.base + c.cap ≤ 8192) × (c.base + c.cap < 2 ^ 64)
held_chunk zero c e =
    subst (λ (d : Chunk). (d.base + d.cap ≤ 8192) × (d.base + d.cap < 2 ^ 64)) (the_chunk c e)
      (omega arith, omega arith)
  where
    the_chunk :
        (c : Chunk)
        → some (record { base = 4096; cap = 64; align = 16 }) ≡ some c
        → record { base = 4096; cap = 64; align = 16 } ≡ c
    the_chunk c e = cc
held_chunk (suc i) c e = cc

only_chunk : (i : ℕ) (c : Chunk) → get_elem? arena.chunks i ≡ some c → i ≡ 0
only_chunk zero c e = refl
only_chunk (suc i) c e = cc

arena-IsArena : IsArena machine 8192 arena
arena-IsArena = record {
  active = (record { base = 4096; cap = 64; align = 16 }, refl, omega arith);
  held = held_chunk;
  apart =
      λ i j c d e f ne. let no : ⊥ = ne (only_chunk i c e ∙ sym (only_chunk j d f)) in elim no [ ];
}

abbrev pub offset_at : ℕ → BumpCrib
offset_at n = record arena { offset = n }

first_alloc :
    bump_alloc machine 8192 (reset arena) 8 (2 ^ 3) ≡ some (done (4096, offset_at 8, 8192))
unfolding bump_alloc alloc_loop reset align_up
first_alloc = refl

second_alloc :
    bump_alloc machine 8192 (offset_at 8) 16 (2 ^ 4) ≡ some (done (4112, offset_at 32, 8192))
unfolding bump_alloc alloc_loop align_up
second_alloc = refl

held_end : (i : ℕ) (c : Chunk) → get_elem? arena.chunks i ≡ some c → c.base + c.cap ≡ 4160
held_end zero c e =
    let q : record { base = 4096; cap = 64; align = 16 } ≡ c = cc in
    subst (λ (d : Chunk). d.base + d.cap ≡ 4160) q refl
held_end (suc i) c e = cc

low_chunk : (k : ℕ) → 4160 + 2 ^ k < 2 ^ 64 → Clear (2 ^ k) arena
low_chunk k low i c e = let l = held_end i c e in omega arith

-- Two blocks handed out in one frame.
two_blocks : Frame machine 8192 arena ((4112, 16) ∷ (4096, 8) ∷ []) 8192 (offset_at 32)
unfolding reset
two_blocks =
    next 16 4 4112 8192 (offset_at 32)
      (next 8 3 4096 8192 (offset_at 8) start (omega arith) (low_chunk 3 (omega arith)) first_alloc)
      (omega arith) (low_chunk 4 (omega arith)) second_alloc

Frame-Sound_example : Sound machine ((4112, 16) ∷ (4096, 8) ∷ []) 8192 (offset_at 32)
Frame-Sound_example = Frame-Sound machine arena-IsArena two_blocks

bump_alloc-Ends_example :
    Ends machine 100 (2 ^ 4) 8192 arena (bump_alloc machine 8192 arena 100 (2 ^ 4))
bump_alloc-Ends_example =
    bump_alloc-Ends machine 100 4 8192 arena (omega arith) arena-IsArena (low_chunk 4 (omega arith))

-- A chunk of 32 bytes at the end of the address space, and a request that is aligned to 128: `align_up`
-- wraps to 0, and 0 is taken to have room.
abbrev last_chunk : BumpCrib
last_chunk = record {
  chunks = record { base = 2 ^ 64 - 64; cap = 32; align = 16 } ∷ [];
  current = 0;
  offset = 0;
  next_reserve = 32;
}

null_block :
    bump_alloc machine 8192 last_chunk 8 128
    ≡ some (done (0, record last_chunk { offset = 72 }, 8192))
unfolding bump_alloc alloc_loop align_up
null_block = refl

abbrev pub slab_crib : Crib
slab_crib = record { owner = 7; kind = typed one_used }

slab_there : block process.cribs 1 ≡ done slab_crib
unfolding block
slab_there = refl

bump_there : block process.cribs 2 ≡ done (record { owner = 7; kind = bump arena })
unfolding block
bump_there = refl

scratch_cycle_example :
    (r' : Arenas machine) × (bet_scratch_reset machine 7 process ≡ done r')
    × (bet_scratch machine 7 r' ≡ done (2, r'))
    × (bet_mem_receipts machine 7 r' ≡ done 0)
    × (block r'.cribs 2 ≡ done (record { owner = 7; kind = bump (reset arena) }))
    × ((reset arena).chunks ≡ arena.chunks)
    × IsArena machine r'.memory (reset arena)
scratch_cycle_example = scratch_cycle machine 7 process 2 arena refl bump_there arena-IsArena
