-- ===== src/Runtime/Bump/Disjoint.antt =====
-- What `BumpCrib::alloc` hands out: aligned blocks inside the chunks, no two of which overlap until
-- the crib is reset, from a loop that ends within two rounds.
use bet.Prelude.{
  ℕ, zero, suc, ◌+◌, ◌-◌, ◌^◌, ◌≤◌, ◌<◌, ◌≡◌, refl, ap, ◌∙◌, true, some, List, [], ◌∷◌, get_elem?,
  take, max, arith, ◌⊎◌, inl, inr, Bool-cases,
}
use bet.Prelude.Masks.{two_pow_pos}
use bet.Runtime.Outcome.{Abort, done, die}
use bet.Runtime.Memory.{SysAlloc, align_up}
use bet.Runtime.Bump.{
  Chunk, BumpCrib, fits, advance, alloc_loop, bump_alloc, in_chunk, resume, wrap64, used, sum_caps,
  Allocated,
}
use bet.Runtime.Bump.Arena.{Clear, IsArena, Advanced}
use bet.Runtime.Bump.Placed.{advance_cases, Placed, bumped-Placed, Advanced-covers}

sum_caps-take-suc :
    (cs : List Chunk) (n : ℕ) (c : Chunk)
    → get_elem? cs n ≡ some c
    → sum_caps (take (suc n) cs) ≡ sum_caps (take n cs) + c.cap
sum_caps-take-suc [] n c e = cc
sum_caps-take-suc (d ∷ cs) zero c e = let same : d ≡ c = cc in ground (arith, same)
sum_caps-take-suc (d ∷ cs) (suc n) c e = omega (arith, sum_caps-take-suc cs n c e)

sum_caps-take_congr :
    (cs ds : List Chunk) (n : ℕ)
    → ((i : ℕ) → i < n → get_elem? cs i ≡ get_elem? ds i)
    → sum_caps (take n cs) ≡ sum_caps (take n ds)
sum_caps-take_congr cs ds zero h = refl
sum_caps-take_congr [] [] (suc n) h = refl
sum_caps-take_congr [] (d ∷ ds) (suc n) h = cc (h 0 (omega arith))
sum_caps-take_congr (c ∷ cs) [] (suc n) h = cc (h 0 (omega arith))
sum_caps-take_congr (c ∷ cs) (d ∷ ds) (suc n) h =
    let e : some c ≡ some d = h 0 (omega arith) in
    let same : c ≡ d = cc in
    rw same
      (ap (λ (t : ℕ). d.cap + t) (sum_caps-take_congr cs ds n (λ i lt. h (suc i) (omega arith))))

module _ (sys : SysAlloc) where
  Advanced-gauge :
      (size align : ℕ) (h h' : sys.Memory) (b b' : BumpCrib)
      → IsArena sys h b
      → Advanced sys size align h b h' b'
      → used b ≤ used b'
  unfolding used
  Advanced-gauge size align h h' b b' v a =
      let (c, e, o) = v.active in
      let at : b'.current ≡ suc b.current = omega (arith, a.next) in
      rw at (
        omega (
          arith,
          o,
          sum_caps-take-suc b'.chunks b.current c (a.same b.current (omega arith) ∙ e),
          sum_caps-take_congr b'.chunks b.chunks b.current (λ i lt. a.same i (omega arith)),
        ))

  -- A block placed after an advance is placed as seen from before.
  Advanced-Placed :
      (size align : ℕ) (h h' h'' : sys.Memory) (b b' b'' : BumpCrib) (p : ℕ)
      → IsArena sys h b
      → Advanced sys size align h b h' b'
      → Placed sys size align h' b' p h'' b''
      → Placed sys size align h b p h'' b''
  Advanced-Placed size align h h' h'' b b' b'' p v a q = record {
    arena = q.arena;
    aligned = q.aligned;
    inside = q.inside;
    fresh = λ s n cov. q.fresh s n (Advanced-covers sys size align h h' b b' v a s n cov);
    gauge = omega (arith, q.gauge, Advanced-gauge size align h h' b b' v a);
  }

  -- What the loop comes to: an abort, or a block that is placed. It never runs out of fuel.
  abbrev pub Ends : ℕ → ℕ → sys.Memory → BumpCrib → Allocated sys → Type 0
  Ends size align h b r =
      ((w : Abort) × (r ≡ some (die w)))
      ⊎ ((q : ℕ × BumpCrib × sys.Memory) × (r ≡ some (done q))
          × Placed sys size align h b q.0 q.2 q.1)

  -- A round whose active chunk has room.
  roomy-Ends :
      (n size k : ℕ) (h : sys.Memory) (b : BumpCrib)
      → k < 64
      → IsArena sys h b
      → (c : Chunk) → get_elem? b.chunks b.current ≡ some c
      → fits (align_up (wrap64 (c.base + b.offset)) (2 ^ k)) size c ≡ true
      → c.base + b.offset + 2 ^ k < 2 ^ 64
      → Ends size (2 ^ k) h b (alloc_loop sys (suc n) size (2 ^ k) h b)
  unfolding alloc_loop
  roomy-Ends n size k h b lt v c at room clear = inr (
    (
      align_up (wrap64 (c.base + b.offset)) (2 ^ k),
      record b {
        offset = wrap64 (align_up (wrap64 (c.base + b.offset)) (2 ^ k) + size + 2 ^ 64 - c.base);
      },
      h,
    ),
    ap (in_chunk sys (alloc_loop sys n size (2 ^ k)) h b size (2 ^ k)) at ∙ rw room,
    bumped-Placed sys size k lt h b v c at room clear,
  )

  -- The round after an advance.
  second-Ends :
      (n size k : ℕ) (h h' : sys.Memory) (b b' : BumpCrib)
      → k < 64
      → Advanced sys size (2 ^ k) h b h' b'
      → Ends size (2 ^ k) h' b' (alloc_loop sys (suc n) size (2 ^ k) h' b')
  second-Ends n size k h h' b b' lt a =
      let (c, at, room, clear) = a.room in
      let here : wrap64 (c.base + b'.offset) ≡ c.base =
        omega (arith, a.start, (a.arena.held b'.current c at).1) in
      roomy-Ends n size k h' b' lt a.arena c at (rw here room) (omega (arith, a.start, clear))

  -- On a well-formed crib whose chunks end more than 2^k bytes below 2^64, and for an alignment 2^k with k
  -- below 64, `alloc` always ends: it aborts, or hands out a block that is aligned, lies inside a chunk of a well-formed crib and apart from
  -- every block handed out since the reset, all of which stay covered; the gauge grows by at least
  -- the size.
  pub bump_alloc-Ends :
      (size k : ℕ) (h : sys.Memory) (b : BumpCrib)
      → k < 64
      → IsArena sys h b
      → Clear (2 ^ k) b
      → Ends size (2 ^ k) h b (bump_alloc sys h b size (2 ^ k))
  unfolding bump_alloc alloc_loop
  bump_alloc-Ends size k h b lt v clear =
      let pos : max (2 ^ k) 1 ≡ 2 ^ k = omega (arith, two_pow_pos k) in
      let (c, at, o) = v.active in
      rw pos (elim (Bool-cases (fits (align_up (wrap64 (c.base + b.offset)) (2 ^ k)) size c)) [
        | inl room ↦
            roomy-Ends 1 size k h b lt v c at room (let l = clear b.current c at in omega arith)
        | inr full ↦
            let first : alloc_loop sys 2 size (2 ^ k) h b
                ≡ resume sys (alloc_loop sys 1 size (2 ^ k)) (advance sys h b size (2 ^ k)) =
              ap (in_chunk sys (alloc_loop sys 1 size (2 ^ k)) h b size (2 ^ k)) at ∙ rw full in
            elim (advance_cases sys h b size k lt v clear) [
              | inl (w, e) ↦ inl (w, first ∙ ap (resume sys (alloc_loop sys 1 size (2 ^ k))) e)
              | inr ((b', h'), e, a) ↦ elim (second-Ends 0 size k h h' b b' lt a) [
                | inl (w, d) ↦
                    inl (w, first ∙ ap (resume sys (alloc_loop sys 1 size (2 ^ k))) e ∙ d)
                | inr (q, d, p) ↦ inr (
                  q,
                  first ∙ ap (resume sys (alloc_loop sys 1 size (2 ^ k))) e ∙ d,
                  Advanced-Placed size (2 ^ k) h h' q.2 b b' q.1 q.0 v a p,
                )
              ]
            ]
      ])
