-- ===== src/Runtime/Cribs/Scratch.antt =====
-- The per-thread scratch crib: its frame-end reset and the gauge `mem.receipts()`.
use bet.Prelude.{ℕ, ◌≡◌, refl, ap, ◌∙◌, some}
use bet.Runtime.Outcome.{done, ThreadId}
use bet.Runtime.Memory.{SysAlloc}
use bet.Runtime.Bump.{BumpCrib, reset}
use bet.Runtime.Bump.Arena.{IsArena}
use bet.Runtime.Bump.Frames.{reset-IsArena}
use bet.Runtime.Cribs.{
  bump, Arenas, block, store, bet_evict, bet_scratch, bet_scratch_reset, bet_mem_receipts,
  scratch_from, reset_from, receipts_from,
}
use bet.Runtime.Cribs.Blocks.{crib_ref_own, block-set_self}

module _ (sys : SysAlloc) (me : ThreadId) (r : Arenas sys) (h : ℕ) (b : BumpCrib)
    (there : r.scratch me ≡ some h)
    (held : block r.cribs h ≡ done (record { owner = me; kind = bump b }))
    (arena : IsArena sys r.memory b) where
  abbrev after : Arenas sys
  after = store sys r h (bump (reset b)) me

  evicted : bet_evict sys me r h ≡ done after
  unfolding bet_evict
  evicted = rw (crib_ref_own sys me r h (record { owner = me; kind = bump b }) held refl)

  after_held : block after.cribs h ≡ done (record { owner = me; kind = bump (reset b) })
  after_held =
      block-set_self r.cribs h (record { owner = me; kind = bump b })
        (record { owner = me; kind = bump (reset b) }) held

  -- Where the thread's scratch crib is a well-formed bump crib of its own, the reset at a frame's
  -- end empties it in place: the gauge reads zero, `bet_scratch` gives the same handle with no
  -- further change, the chunks are kept and the crib is well-formed.
  pub scratch_cycle :
      (r' : Arenas sys) × (bet_scratch_reset sys me r ≡ done r')
      × (bet_scratch sys me r' ≡ done (h, r'))
      × (bet_mem_receipts sys me r' ≡ done 0)
      × (block r'.cribs h ≡ done (record { owner = me; kind = bump (reset b) }))
      × ((reset b).chunks ≡ b.chunks)
      × IsArena sys r'.memory (reset b)
  scratch_cycle =
      let k = reset-IsArena sys r.memory b arena in
      (
        after,
        unfold bet_scratch_reset in ap (reset_from sys me r) there ∙ evicted,
        unfold bet_scratch in ap (scratch_from sys me after) there,
        unfold bet_mem_receipts in
            ap (receipts_from sys me after) there
            ∙ rw
                (crib_ref_own sys me after h (record { owner = me; kind = bump (reset b) })
                  after_held refl)
                (ap done k.1),
        after_held,
        k.2,
        k.0,
      )
