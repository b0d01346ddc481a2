-- ===== src/Midir/Build/Terminated.antt =====
-- A block of the builder is ended once, and ending it leaves the others alone.
use bet.Prelude.{
  ℕ, ◌≡◌, ◌≢◌, refl, ap, sym, ◌∙◌, subst, Bool, Option, none, some, ◌==◌, ltb, lt→ltb,
  if◌then◌else◌, length, length-set, get_elem?, get_elem?-set, get_elem?-lt-length, set, arith,
  ==-refl, Bool-cases, inl, inr,
}
use bet.Midir.Ir.{Terminator}
use bet.Midir.Build.{PartialBlock, FuncBuilder, cur, put, terminated, terminate, ◌>>=◌}

module _ (b : FuncBuilder) (t : Terminator) where
  -- `terminate`, from the current block's number and from the block.
  abbrev picked : ℕ → Option PartialBlock → Option (ℕ × PartialBlock)
  picked bb o = do p ← o; some (bb, p)

  abbrev current_block : Option ℕ → Option (ℕ × PartialBlock)
  current_block o = do bb ← o; picked bb (get_elem? b.blocks bb)

  abbrev ended : Option (ℕ × PartialBlock) → Option FuncBuilder
  ended o = do q ← o; terminated b q.0 q.1 t q.1.term

  -- What a call that does not panic has done.
  record Terminates (b' : FuncBuilder) : Type 0 where
    bb : ℕ
    p : PartialBlock
    selected : b.current ≡ some bb
    there : get_elem? b.blocks bb ≡ some p
    vacant : p.term ≡ none
    result : put b bb (record { stmts = p.stmts; term = some t }) ≡ b'

  terminate-Terminates : (b' : FuncBuilder) → terminate b t ≡ some b' → Terminates b'
  unfolding terminate cur
  terminate-Terminates b' h = by_current b.current refl
    where
      by_term :
          (bb : ℕ) (p : PartialBlock) (o : Option Terminator)
          → b.current ≡ some bb
          → get_elem? b.blocks bb ≡ some p
          → p.term ≡ o
          → terminated b bb p t o ≡ some b'
          → Terminates b'
      by_term bb p (some u) e k v r = cc
      by_term bb p none e k v r = record {
        bb = bb;
        p = p;
        selected = e;
        there = k;
        vacant = v;
        result = cc;
      }

      by_block :
          (bb : ℕ) (o : Option PartialBlock)
          → b.current ≡ some bb
          → get_elem? b.blocks bb ≡ o
          → ended (picked bb o) ≡ some b'
          → Terminates b'
      by_block bb none e k r = cc
      by_block bb (some p) e k r = by_term bb p p.term e k refl r

      by_current : (o : Option ℕ) → b.current ≡ o → Terminates b'
      by_current none e =
          let r : none ≡ some b' = sym (ap (λ (o : Option ℕ). ended (current_block o)) e) ∙ h in cc
      by_current (some bb) e =
          by_block bb (get_elem? b.blocks bb) e refl
            (sym (ap (λ (o : Option ℕ). ended (current_block o)) e) ∙ h)

-- Where a terminator is recorded without a panic, any further one for the same block panics, every
-- other block is as it was, and no block is added.
pub terminate_lem :
    (b b' : FuncBuilder) (t u : Terminator)
    → terminate b t ≡ some b'
    → (terminate b' u ≡ none)
      × (length b'.blocks ≡ length b.blocks)
      × ((j : ℕ) → b.current ≢ some j → get_elem? b'.blocks j ≡ get_elem? b.blocks j)
unfolding terminate cur
terminate_lem b b' t u h =
    let v = terminate-Terminates b t b' h in
    let new : PartialBlock = record { stmts = v.p.stmts; term = some t } in
    let now : get_elem? (set b.blocks v.bb new) v.bb ≡ some new =
      get_elem?-set b.blocks v.bb v.bb new
      ∙ ap
          (λ (c : Bool).
            if c
            then (if ltb v.bb (length b.blocks) then some new else none)
            else get_elem? b.blocks v.bb)
          (==-refl v.bb)
      ∙ ap (λ (c : Bool). if c then some new else none)
          (lt→ltb v.bb (length b.blocks) (get_elem?-lt-length b.blocks v.bb v.p v.there)) in
    (
      subst (λ (c : FuncBuilder). terminate c u ≡ none) v.result
          (ap (λ (o : Option ℕ). ended (put b v.bb new) u (current_block (put b v.bb new) u o))
              v.selected
            ∙ ap
                (λ (o : Option PartialBlock).
                  ended (put b v.bb new) u (picked (put b v.bb new) u v.bb o))
                now),
      ap (λ (c : FuncBuilder). length c.blocks) (sym v.result) ∙ length-set b.blocks v.bb new,
      λ j other.
          ap (λ (c : FuncBuilder). get_elem? c.blocks j) (sym v.result)
          ∙ elim (Bool-cases (v.bb == j)) [
            | inl e ↦
                (let same : v.bb ≡ j = ground arith in
                  let no : ⊥ = other (v.selected ∙ ap some same) in elim no [ ])
            | inr e ↦
                get_elem?-set b.blocks v.bb j new
                ∙ ap
                    (λ (c : Bool).
                      if c
                      then (if ltb v.bb (length b.blocks) then some new else none)
                      else get_elem? b.blocks j)
                    e
          ],
    )
