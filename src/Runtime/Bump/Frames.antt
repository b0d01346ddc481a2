-- ===== src/Runtime/Bump/Frames.antt =====
-- The life of a bump crib: `BumpCrib::new`, then frames of allocations that a reset ends.
use bet.Prelude.{
  ℕ, zero, suc, ◌+◌, ◌^◌, ◌≤◌, ◌<◌, ◌≡◌, refl, sym, subst, ◌∙◌, some, List, [], ◌∷◌, get_elem?, max,
  All, arith, ◌⊎◌, inl, inr,
}
use bet.Runtime.Outcome.{Abort, done, die}
use bet.Runtime.Memory.{SysAlloc, Apart, alloc_or_die_cases}
use bet.Runtime.Bump.{Chunk, BumpCrib, new_bump, bump_alloc, reset, used}
use bet.Runtime.Bump.Arena.{Clear, IsArena}
use bet.Runtime.Bump.Placed.{Covered, Placed}
use bet.Runtime.Bump.Disjoint.{Ends, bump_alloc-Ends}

module _ (sys : SysAlloc) where
  -- A new crib is well-formed and empty, or the process aborts.
  pub new_bump-IsArena :
      (h : sys.Memory) (reserve : ℕ)
      → ((w : Abort) × (new_bump sys h reserve ≡ die w))
        ⊎ ((r : BumpCrib × sys.Memory) × (new_bump sys h reserve ≡ done r)
            × IsArena sys r.1 r.0
            × (used r.0 ≡ 0))
  unfolding new_bump used
  new_bump-IsArena h reserve = elim (alloc_or_die_cases sys h (max reserve 16) 16) [
    | inl (w, e) ↦ inl (w, rw e)
    | inr (r, e, g) ↦
        let cap : max (max reserve 16) 1 ≡ max reserve 16 = omega arith in
        let c : Chunk = record { base = r.0; cap = max reserve 16; align = 16 } in
        inr (
          (record { chunks = c ∷ []; current = 0; offset = 0; next_reserve = max reserve 16 }, r.1),
          rw e,
          record {
            active = (c, refl, omega arith);
            held = only c (subst (sys.InUse r.1 r.0) cap g.in_use, omega (arith, g.bounded));
            apart = λ i j d f p q ne. absurd (ne (single c i d p ∙ sym (single c j f q)));
          },
          refl,
        )
  ]
    where
      single : (c : Chunk) (i : ℕ) (d : Chunk) → get_elem? (c ∷ []) i ≡ some d → i ≡ 0
      single c zero d e = refl
      single c (suc i) d e = cc

      only :
          {h : sys.Memory} (c : Chunk)
          → sys.InUse h c.base c.cap × (c.base + c.cap < 2 ^ 64)
          → (i : ℕ) (d : Chunk) → get_elem? (c ∷ []) i ≡ some d
          → sys.InUse h d.base d.cap × (d.base + d.cap < 2 ^ 64)
      only {h} c k zero d e =
          let same : c ≡ d = cc in
          subst (λ (x : Chunk). sys.InUse h x.base x.cap × (x.base + x.cap < 2 ^ 64)) same k
      only c k (suc i) d e = cc

  -- A reset of a well-formed crib keeps the chunks, empties the crib and keeps it well-formed.
  pub reset-IsArena :
      (h : sys.Memory) (b : BumpCrib)
      → IsArena sys h b
      → IsArena sys h (reset b) × (used (reset b) ≡ 0) × ((reset b).chunks ≡ b.chunks)
  unfolding reset used
  reset-IsArena h b v =
      let (c, e, o) = v.active in
      let (d, q) = first b.chunks b.current c e in
      (record { active = (d, q, omega arith); held = v.held; apart = v.apart }, omega arith, refl)
    where
      first :
          (cs : List Chunk) (i : ℕ) (c : Chunk)
          → get_elem? cs i ≡ some c
          → (d : Chunk) × (get_elem? cs 0 ≡ some d)
      first [] i c e = cc
      first (d ∷ cs) i c e = (d, refl)

  -- The blocks, as address and size, handed out since a reset of the crib `b₀`, latest first.
  pub data Frame (h₀ : sys.Memory) (b₀ : BumpCrib)
      : List (ℕ × ℕ) → sys.Memory → BumpCrib → Type 0 where
    start : Frame h₀ b₀ [] h₀ (reset b₀)
    next :
        {bs : List (ℕ × ℕ)} {h : sys.Memory} {b : BumpCrib} (size k p : ℕ) (h' : sys.Memory)
        (b' : BumpCrib)
        → Frame h₀ b₀ bs h b
        → k < 64
        → Clear (2 ^ k) b
        → bump_alloc sys h b size (2 ^ k) ≡ some (done (p, b', h'))
        → Frame h₀ b₀ ((p, size) ∷ bs) h' b'

  abbrev pub AllApart : List (ℕ × ℕ) → Type 0
  AllApart [] = Unit
  AllApart (x ∷ xs) = All (λ y. Apart y.0 y.1 x.0 x.1) xs × AllApart xs

  abbrev pub total_size : List (ℕ × ℕ) → ℕ
  total_size [] = 0
  total_size (x ∷ xs) = x.1 + total_size xs

  pub record Sound (bs : List (ℕ × ℕ)) (h : sys.Memory) (b : BumpCrib) : Type 0 where
    pub arena : IsArena sys h b
    pub inside : All (λ x. Covered b x.0 x.1) bs
    pub apart : AllApart bs
    pub gauge : total_size bs ≤ used b

  -- The blocks that were covered are covered still, and apart from the new one.
  carry :
      (size align p : ℕ) {h h' : sys.Memory} {b b' : BumpCrib} (bs : List (ℕ × ℕ))
      → Placed sys size align h b p h' b'
      → All (λ x. Covered b x.0 x.1) bs
      → All (λ x. Covered b' x.0 x.1) bs × All (λ y. Apart y.0 y.1 p size) bs
  carry size align p [] q cov = (tt, tt)
  carry size align p (x ∷ bs) q (c, cov) =
      let (c', a) = q.fresh x.0 x.1 c in
      let (cov', as') = carry size align p bs q cov in ((c', cov'), (a, as'))

  Ends-Placed :
      (size align p : ℕ) (h h' : sys.Memory) (b b' : BumpCrib)
      → Ends sys size align h b (some (done (p, b', h')))
      → Placed sys size align h b p h' b'
  Ends-Placed size align p h h' b b' (inl (w, e)) = cc
  Ends-Placed size align p h h' b b' (inr (q, e, s)) =
      let same : (p, b', h') ≡ q = cc in
      subst (λ (t : ℕ × BumpCrib × sys.Memory). Placed sys size align h b t.0 t.2 t.1) (sym same) s

  -- For the blocks handed out of a well-formed crib since a reset, at alignments 2^k with k below
  -- 64, each while the crib's chunks end more than 2^k bytes below 2^64: no two overlap, all lie inside the crib's chunks, their sizes add up to at most what the
  -- gauge counts, and the crib is well-formed.
  pub Frame-Sound :
      {h₀ : sys.Memory} {b₀ : BumpCrib} {bs : List (ℕ × ℕ)} {h : sys.Memory} {b : BumpCrib}
      → IsArena sys h₀ b₀
      → Frame h₀ b₀ bs h b
      → Sound bs h b
  Frame-Sound {h₀} {b₀} v start = record {
    arena = (reset-IsArena h₀ b₀ v).0;
    inside = tt;
    apart = tt;
    gauge = omega arith;
  }
  Frame-Sound v (next {bs} {h} {b} size k p h' b' f lt clear e) =
      let s = Frame-Sound v f in
      let q =
        Ends-Placed size (2 ^ k) p h h' b b'
          (subst (Ends sys size (2 ^ k) h b) e (bump_alloc-Ends sys size k h b lt s.arena clear)) in
      let (cov, as') = carry size (2 ^ k) p bs q s.inside in
      record {
        arena = q.arena;
        inside = (q.inside, cov);
        apart = (as', s.apart);
        gauge = omega (arith, s.gauge, q.gauge);
      }
