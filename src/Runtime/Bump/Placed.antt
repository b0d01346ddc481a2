-- ===== src/Runtime/Bump/Placed.antt =====
-- A block bumped inside the active chunk of `BumpCrib`: aligned, inside the chunk and apart from those
-- of before.
use bet.Prelude.{
  ℕ, ◌+◌, ◌-◌, ◌%◌, ◌^◌, ◌≤◌, ◌<◌, ◌≡◌, subst, ◌∙◌, true, some, get_elem?, max, arith, ◌⊎◌, inl,
  inr, Bool-cases,
}
use bet.Runtime.Outcome.{Abort, done, die}
use bet.Runtime.Memory.{SysAlloc, Apart, align_up, alloc_or_die_cases, align_up_bounds}
use bet.Runtime.Bump.{
  Chunk, BumpCrib, fits, reusable, moved, wanted, spliced, advance, wrap64, used,
}
use bet.Runtime.Bump.Arena.{Clear, IsArena, Advanced, moved-Advanced, spliced-Advanced}

-- A block that the crib has handed out since it was reset: in a chunk that is full, or below the
-- bump offset of the active one.
pub data Covered (b : BumpCrib) (s n : ℕ) : Type 0 where
  earlier :
      (i : ℕ) (c : Chunk)
      → get_elem? b.chunks i ≡ some c
      → i < b.current
      → c.base ≤ s
      → s + n ≤ c.base + c.cap
      → Covered b s n
  active :
      (c : Chunk)
      → get_elem? b.chunks b.current ≡ some c
      → c.base ≤ s
      → s + n ≤ c.base + b.offset
      → Covered b s n

module _ (sys : SysAlloc) where
  pub advance_cases :
      (h : sys.Memory) (b : BumpCrib) (size k : ℕ)
      → k < 64
      → IsArena sys h b
      → Clear (2 ^ k) b
      → ((w : Abort) × (advance sys h b size (2 ^ k) ≡ die w))
        ⊎ ((r : BumpCrib × sys.Memory) × (advance sys h b size (2 ^ k) ≡ done r)
            × Advanced sys size (2 ^ k) h b r.1 r.0)
  unfolding advance
  advance_cases h b size k lt v clear =
      elim (Bool-cases (reusable (get_elem? b.chunks (b.current + 1)) size (2 ^ k))) [
        | inl reuse ↦
            inr ((moved b, h), rw reuse, moved-Advanced sys h b size (2 ^ k) v clear reuse)
        | inr full ↦ elim (alloc_or_die_cases sys h (wanted b size (2 ^ k)) (max (2 ^ k) 16)) [
          | inl (w, e) ↦ inl (w, rw full (rw e))
          | inr (r, e, g) ↦ inr (
            (
              moved (
                  spliced b
                    (record { base = r.0; cap = wanted b size (2 ^ k); align = max (2 ^ k) 16 })),
              r.1,
            ),
            rw full (rw e),
            spliced-Advanced sys h r.1 b size k r.0 lt v g,
          )
        ]
      ]

  -- What `alloc` has done when it hands out the block of `size` bytes at `p`.
  pub record Placed (size align : ℕ) (h : sys.Memory) (b : BumpCrib) (p : ℕ) (h' : sys.Memory)
      (b' : BumpCrib) : Type 0 where
    pub arena : IsArena sys h' b'
    pub aligned : p % align ≡ 0
    pub inside : Covered b' p size
    pub fresh : (s n : ℕ) → Covered b s n → Covered b' s n × Apart s n p size
    pub gauge : used b + size ≤ used b'

  -- A bump inside the active chunk `c`, whose room has been tested.
  module _ (size k : ℕ) (small : k < 64) (h : sys.Memory) (b : BumpCrib) (v : IsArena sys h b)
      (c : Chunk) (at : get_elem? b.chunks b.current ≡ some c)
      (room : fits (align_up (wrap64 (c.base + b.offset)) (2 ^ k)) size c ≡ true)
      (clear : c.base + b.offset + 2 ^ k < 2 ^ 64) where
    abbrev placed_at : ℕ
    placed_at = align_up (wrap64 (c.base + b.offset)) (2 ^ k)

    abbrev bumped : BumpCrib
    bumped = record b { offset = wrap64 (placed_at + size + 2 ^ 64 - c.base) }

    offset-le-cap : b.offset ≤ c.cap
    offset-le-cap = let (c', e, o) = v.active in ground (arith, at, e)

    no_wrap : wrap64 (c.base + b.offset) ≡ c.base + b.offset
    no_wrap = omega (arith, offset-le-cap, (v.held b.current c at).1)

    bounds :
        (placed_at % 2 ^ k ≡ 0)
        × (c.base + b.offset ≤ placed_at)
        × (placed_at + size ≤ c.base + c.cap)
    bounds =
        let up =
          align_up_bounds (wrap64 (c.base + b.offset)) k small (omega (arith, no_wrap, clear)) in
        (up.0, omega (arith, up.1, no_wrap), ground (arith, room))

    new_offset : bumped.offset + c.base ≡ placed_at + size
    new_offset = omega (arith, bounds, (v.held b.current c at).1)

    bumped-covers : (s n : ℕ) → Covered b s n → Covered bumped s n
    bumped-covers s n (earlier i d e lt lo hi) = earlier i d e lt lo hi
    bumped-covers s n (active d e lo hi) =
        let same : d ≡ c = cc in
        active c at (subst (λ (x : Chunk). x.base ≤ s) same lo) (
          let hi' : s + n ≤ c.base + b.offset =
            subst (λ (x : Chunk). s + n ≤ x.base + b.offset) same hi in
          omega (arith, new_offset, bounds))

    bumped-Apart : (s n : ℕ) → Covered b s n → Apart s n placed_at size
    bumped-Apart s n (active d e lo hi) =
        let same : d ≡ c = cc in
        let hi' : s + n ≤ c.base + b.offset =
          subst (λ (x : Chunk). s + n ≤ x.base + b.offset) same hi in
        inl (omega (arith, bounds))
    bumped-Apart s n (earlier i d e lt lo hi) =
        elim (v.apart i b.current d c e at (λ q. omega arith)) [
          | inl below ↦ inl (omega (arith, bounds))
          | inr above ↦ inr (omega (arith, bounds))
        ]

    pub bumped-Placed : Placed size (2 ^ k) h b placed_at h bumped
    unfolding used
    bumped-Placed = record {
      arena = record {
        active = (c, at, omega (arith, new_offset, bounds));
        held = v.held;
        apart = v.apart;
      };
      aligned = bounds.0;
      inside = active c at (omega (arith, bounds)) (omega (arith, new_offset));
      fresh = λ s n cov. (bumped-covers s n cov, bumped-Apart s n cov);
      gauge = omega (arith, new_offset, bounds);
    }

  pub Advanced-covers :
      (size align : ℕ) (h h' : sys.Memory) (b b' : BumpCrib)
      → IsArena sys h b
      → Advanced sys size align h b h' b'
      → (s n : ℕ) → Covered b s n
      → Covered b' s n
  Advanced-covers size align h h' b b' v a s n (earlier i c e lt lo hi) =
      earlier i c (a.same i (omega arith) ∙ e) (omega (arith, a.next)) lo hi
  Advanced-covers size align h h' b b' v a s n (active c e lo hi) =
      let (d, q, o) = v.active in
      let o' : b.offset ≤ c.cap = ground (arith, e, q) in
      earlier b.current c (a.same b.current (omega arith) ∙ e) (omega (arith, a.next)) lo
        (omega arith)
