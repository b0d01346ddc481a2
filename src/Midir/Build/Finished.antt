-- ===== src/Midir/Build/Finished.antt =====
-- What a built function is like, and that a block is ended once.
use bet.Prelude.{
  ℕ, zero, suc, ◌+◌, ◌%◌, ◌^◌, ◌<◌, ◌≡◌, refl, ap, sym, ◌∙◌, Option, none, some, List, [], ◌∷◌,
  length, get_elem?, get_elem?-lt-length, arith, All,
}
use bet.Midir.Ir.{Terminator, Block, Func}
use bet.Midir.Build.{PartialBlock, FuncBuilder, finished, func_of, finish_blocks, finish, ◌>>=◌}

-- The block has a terminator.
abbrev pub Ended : PartialBlock → Type 0
Ended p = (t : Terminator) × (p.term ≡ some t)

-- Block `i` of the list is the `i`-th partial block, under its number and with its terminator.
pub record Numbered (j : ℕ) (ps : List PartialBlock) (bs : List Block) : Type 0 where
  pub same_length : length bs ≡ length ps
  pub numbered : (i : ℕ) (c : Block) → get_elem? bs i ≡ some c → c.id ≡ (j + i) % 2 ^ 32
  pub stmts_kept :
      (i : ℕ) (p : PartialBlock) (c : Block)
      → get_elem? ps i ≡ some p
      → get_elem? bs i ≡ some c
      → (c.stmts ≡ p.stmts) × (p.term ≡ some c.term)

finished-Numbered :
    (j : ℕ) (ps : List PartialBlock)
    → All Ended ps
    → (bs : List Block) × (finished j ps ≡ some bs) × Numbered j ps bs
unfolding finished
finished-Numbered j [] all =
    ([], refl, record { same_length = refl; numbered = λ i c h. cc; stmts_kept = λ i p c h k. cc })
finished-Numbered j (p ∷ ps) all =
    let ended = all.0 in
    let rest = finished-Numbered (suc j) ps all.1 in
    let c : Block = record { id = j % 2 ^ 32; stmts = p.stmts; term = ended.0 } in
    (
      c ∷ rest.0,
      ap
            (λ (o : Option Terminator). o >>= λ t. finished (suc j) ps >>= λ r.
              some (record { id = j % 2 ^ 32; stmts = p.stmts; term = t } ∷ r))
            ended.1
          ∙ ap (λ (o : Option (List Block)). o >>= λ r. some (c ∷ r)) rest.1,
      record {
        same_length = ap suc rest.2.same_length;
        numbered = number c rest.0 refl rest.2.numbered;
        stmts_kept = keep c rest.0 refl ended.1 rest.2.stmts_kept;
      },
    )
  where
    number :
        (c : Block) (bs : List Block)
        → c.id ≡ j % 2 ^ 32
        → ((i : ℕ) (d : Block) → get_elem? bs i ≡ some d → d.id ≡ (suc j + i) % 2 ^ 32)
        → (i : ℕ) (d : Block) → get_elem? (c ∷ bs) i ≡ some d
        → d.id ≡ (j + i) % 2 ^ 32
    number c bs e later zero d h =
        let same : c ≡ d = cc in
        let plain : j + 0 ≡ j = omega arith in
        sym (ap (λ (x : Block). x.id) same) ∙ e ∙ ap (λ (n : ℕ). n % 2 ^ 32) (sym plain)
    number c bs e later (suc i) d h =
        let shift : suc j + i ≡ j + suc i = omega arith in
        later i d h ∙ ap (λ (n : ℕ). n % 2 ^ 32) shift

    keep :
        (c : Block) (bs : List Block)
        → c.stmts ≡ p.stmts
        → p.term ≡ some c.term
        → ((i : ℕ) (q : PartialBlock) (d : Block)
            → get_elem? ps i ≡ some q
            → get_elem? bs i ≡ some d
            → (d.stmts ≡ q.stmts) × (q.term ≡ some d.term))
        → (i : ℕ) (q : PartialBlock) (d : Block) → get_elem? (p ∷ ps) i ≡ some q
        → get_elem? (c ∷ bs) i ≡ some d
        → (d.stmts ≡ q.stmts) × (q.term ≡ some d.term)
    keep c bs s e later zero q d h k =
        let first : p ≡ q = cc in
        let made : c ≡ d = cc in
        (
          sym (ap (λ (x : Block). x.stmts) made) ∙ s ∙ ap (λ (x : PartialBlock). x.stmts) first,
          sym (ap (λ (x : PartialBlock). x.term) first) ∙ e ∙ ap (λ (x : Block). some x.term) made,
        )
    keep c bs s e later (suc i) q d h k = later i q d h k

-- A block without a terminator makes `finish` panic.
finished-none :
    (j : ℕ) (ps : List PartialBlock) (i : ℕ) (p : PartialBlock)
    → get_elem? ps i ≡ some p
    → p.term ≡ none
    → finished j ps ≡ none
unfolding finished
finished-none j [] i p h e = cc
finished-none j (q ∷ ps) zero p h e =
    let same : q ≡ p = cc in
    ap
      (λ (o : Option Terminator). o >>= λ t. finished (suc j) ps >>= λ r.
        some (record { id = j % 2 ^ 32; stmts = q.stmts; term = t } ∷ r))
      (ap (λ (x : PartialBlock). x.term) same ∙ e)
finished-none j (q ∷ ps) (suc i) p h e = stuck q.term (finished-none (suc j) ps i p h e)
  where
    stuck :
        (o : Option Terminator)
        → finished (suc j) ps ≡ none
        → (o >>= λ t. finished (suc j) ps >>= λ r.
            some (record { id = j % 2 ^ 32; stmts = q.stmts; term = t } ∷ r))
          ≡ none
    stuck none k = refl
    stuck (some t) k =
        ap
          (λ (b : Option (List Block)).
            b >>= λ r. some (record { id = j % 2 ^ 32; stmts = q.stmts; term = t } ∷ r))
          k

-- For a builder with a block and fewer than 2^32 blocks, each of which has a terminator: `finish` gives
-- a function with as many blocks, whose entry is in range, whose blocks stand at their own ids, and whose
-- blocks have the statements and the terminators that were recorded.
pub finish_builds :
    (b : FuncBuilder)
    → length b.blocks < 2 ^ 32
    → 0 < length b.blocks
    → All Ended b.blocks
    → (f : Func) × (finish b ≡ some f)
      × (length f.blocks ≡ length b.blocks)
      × (f.entry < length f.blocks)
      × ((i : ℕ) (c : Block) → get_elem? f.blocks i ≡ some c → c.id ≡ i)
      × ((i : ℕ) (p : PartialBlock) (c : Block)
          → get_elem? b.blocks i ≡ some p
          → get_elem? f.blocks i ≡ some c
          → (c.stmts ≡ p.stmts) × (p.term ≡ some c.term))
unfolding finish finish_blocks
finish_builds b small one all =
    let r = finished-Numbered 0 b.blocks all in
    (
      record {
        name = b.name;
        params = b.params;
        rets = b.rets;
        locals = b.locals;
        blocks = r.0;
        entry = 0;
      },
      nonempty b.blocks one ∙ ap (func_of b) r.1,
      r.2.same_length,
      omega (arith, r.2.same_length),
      λ i c h.
          let low = get_elem?-lt-length r.0 i c h in
          let at : (0 + i) % 2 ^ 32 ≡ i = omega (arith, r.2.same_length) in r.2.numbered i c h ∙ at,
      r.2.stmts_kept,
    )
  where
    nonempty :
        (ps : List PartialBlock) → 0 < length ps → finish_blocks b ps ≡ func_of b (finished 0 ps)
    nonempty [] h = let no : ⊥ = omega arith in elim no [ ]
    nonempty (p ∷ ps) h = refl

-- For a builder of which some block has no terminator, wherever it stands, `finish` panics.
pub finish_panics :
    (b : FuncBuilder) (i : ℕ) (p : PartialBlock)
    → get_elem? b.blocks i ≡ some p
    → p.term ≡ none
    → finish b ≡ none
unfolding finish finish_blocks
finish_panics b i p h e = stuck b.blocks (finished-none 0 b.blocks i p h e)
  where
    stuck : (ps : List PartialBlock) → finished 0 ps ≡ none → finish_blocks b ps ≡ none
    stuck [] e = refl
    stuck (p ∷ ps) e = ap (func_of b) e
