-- ===== src/Runtime/Bump.antt =====
-- The bump crib of crates/runtime/src/lib.rs: `BumpCrib` and its methods. The loop of `alloc` runs on
-- fuel; two rounds are enough for an alignment that is a power of two (Bump/Disjoint.antt).
pub mod Arena
pub mod Placed
pub mod Disjoint
pub mod Frames
use bet.Prelude.{
  ℕ, zero, suc, ◌+◌, ◌-◌, ◌*◌, ◌%◌, ◌^◌, Bool, true, false, ◌&&◌, Option, none, some, List, [], ◌∷◌,
  ◌==◌, ltb, leb, if◌then◌else◌, get_elem?, take, min, max,
}
use bet.Runtime.Outcome.{Outcome, done, die, ◌>>=◌, index_out_of_bounds, usize_max}
use bet.Runtime.Memory.{SysAlloc, align_up, alloc_or_die}

pub record Chunk : Type 0 where
  pub base : ℕ
  pub cap : ℕ
  pub align : ℕ

pub record BumpCrib : Type 0 where
  pub chunks : List Chunk
  pub current : ℕ
  pub offset : ℕ
  pub next_reserve : ℕ

abbrev pub wrap64 : ℕ → ℕ
wrap64 n = n % 2 ^ 64

-- `aligned.checked_add(size).zip(base.checked_add(cap)).is_some_and(|(end, limit)| end <= limit)`.
abbrev pub fits : ℕ → ℕ → Chunk → Bool
fits aligned size c =
    ltb (aligned + size) (2 ^ 64)
    && ltb (c.base + c.cap) (2 ^ 64)
    && leb (aligned + size) (c.base + c.cap)

-- `Vec::insert`, at a position that is not past the end.
abbrev pub insert {ℓ} : {A : Type ℓ} → List A → ℕ → A → List A
insert xs zero v = v ∷ xs
insert [] (suc i) v = v ∷ []
insert (x ∷ xs) (suc i) v = x ∷ insert xs i v

abbrev pub reusable : Option Chunk → ℕ → ℕ → Bool
reusable none size align = false
reusable (some next) size align = fits (align_up next.base align) size next

-- The move to the next chunk, at its start.
abbrev pub moved : BumpCrib → BumpCrib
moved b = record b { current = b.current + 1; offset = 0 }

-- `self.next_reserve.max(size.saturating_add(align))`.
abbrev pub wanted : BumpCrib → ℕ → ℕ → ℕ
wanted b size align = max b.next_reserve (min (size + align) usize_max)

-- A fresh chunk behind the active one.
abbrev pub spliced : BumpCrib → Chunk → BumpCrib
spliced b c = record b {
  chunks = insert b.chunks (b.current + 1) c;
  next_reserve = max (min (b.next_reserve * 2) usize_max) c.cap;
}

module _ (sys : SysAlloc) where
  -- `BumpCrib::new`.
  unfoldable pub new_bump : sys.Memory → ℕ → Outcome (BumpCrib × sys.Memory)
  new_bump h reserve = do
    let cap = max reserve 16
    r ← alloc_or_die sys h cap 16
    done (
      record {
        chunks = record { base = r.0; cap = cap; align = 16 } ∷ [];
        current = 0;
        offset = 0;
        next_reserve = cap;
      },
      r.1,
    )

  -- The part of a round of `alloc` that runs when the active chunk has no room.
  unfoldable pub advance : sys.Memory → BumpCrib → ℕ → ℕ → Outcome (BumpCrib × sys.Memory)
  advance h b size align =
      if reusable (get_elem? b.chunks (b.current + 1)) size align then done (moved b, h) else do
        let want = wanted b size align
        r ← alloc_or_die sys h want (max align 16)
        done (moved (spliced b (record { base = r.0; cap = want; align = max align 16 })), r.1)

  -- What `alloc` comes to; `none` says that the fuel ran out.
  abbrev pub Allocated : Type 0
  Allocated = Option (Outcome (ℕ × BumpCrib × sys.Memory))

  abbrev pub resume :
      (sys.Memory → BumpCrib → Allocated) → Outcome (BumpCrib × sys.Memory) → Allocated
  resume next (die w) = some (die w)
  resume next (done r) = next r.1 r.0

  abbrev pub in_chunk :
      (sys.Memory → BumpCrib → Allocated) → sys.Memory → BumpCrib → ℕ → ℕ → Option Chunk → Allocated
  in_chunk next h b size align none = some (die index_out_of_bounds)
  in_chunk next h b size align (some c) =
      let a = align_up (wrap64 (c.base + b.offset)) align in
      if fits a size c
      then some (done (a, record b { offset = wrap64 (a + size + 2 ^ 64 - c.base) }, h))
      else resume next (advance h b size align)

  -- The loop of `alloc`.
  unfoldable pub alloc_loop : ℕ → ℕ → ℕ → sys.Memory → BumpCrib → Allocated
  alloc_loop zero size align h b = none
  alloc_loop (suc n) size align h b =
      in_chunk (alloc_loop n size align) h b size align (get_elem? b.chunks b.current)

  -- `BumpCrib::alloc`.
  unfoldable pub bump_alloc : sys.Memory → BumpCrib → ℕ → ℕ → Allocated
  unfolding alloc_loop
  bump_alloc h b size align = alloc_loop 2 size (max align 1) h b

-- `BumpCrib::reset`.
unfoldable pub reset : BumpCrib → BumpCrib
reset b = record b { current = 0; offset = 0 }

abbrev pub sum_caps : List Chunk → ℕ
sum_caps [] = 0
sum_caps (c ∷ cs) = c.cap + sum_caps cs

-- `BumpCrib::used`. The chunks lie apart in the address space, so the sum of their sizes fits.
unfoldable pub used : BumpCrib → ℕ
used b = sum_caps (take b.current b.chunks) + b.offset

-- `BumpCrib::destroy`, over the blocks that the crib holds.
module _ (sys : SysAlloc) where
  unfoldable pub destroy_chunks : List Chunk → sys.Memory → sys.Memory
  destroy_chunks [] h = h
  destroy_chunks (c ∷ cs) h =
      destroy_chunks cs (if c.base == 0 then h else sys.dealloc h c.base c.cap c.align)

  unfoldable pub destroy : sys.Memory → BumpCrib → BumpCrib × sys.Memory
  unfolding destroy_chunks
  destroy h b = (record b { chunks = [] }, destroy_chunks b.chunks h)
