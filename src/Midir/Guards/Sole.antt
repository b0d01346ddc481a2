-- ===== src/Midir/Guards/Sole.antt =====
-- What the maps of `collect_switch_guards` record: a local that is counted once and has a discriminant
-- read is assigned by that read alone.
use bet.Prelude.{
  ℕ, zero, suc, ◌+◌, ◌≤◌, ◌≡◌, ◌≢◌, refl, ap, sym, ◌∙◌, subst, Bool, true, false, Option, none,
  some, List, [], ◌∷◌, ◌==◌, ==-refl, get_elem?, arith, if◌then◌else◌,
}
use bet.Midir.Ir.{
  Place, Operand, place, no_proj, then_proj, Rvalue, Stmt, assign, evict, evict_slot, nop,
  Terminator, goto, branch, switch, holla_check, return, panic, unreachable, Block, Func,
}
use bet.Midir.Guards.{
  Defs, no_defs, counted, defined, define, read_place, stmt_defs, stmts_defs, term_defs,
  blocks_defs,
}

-- The entry of `disc_def` that a read makes.
abbrev pub by_option : ℕ → Option Place → Option (ℕ × Place)
by_option i none = none
by_option i (some p) = some (i, p)

module _ (l : ℕ) where
  -- The count of `l` only grows, and its read changes only where the count does.
  record Grows (d d' : Defs) : Type 0 where
    more : d.assign_count l ≤ d'.assign_count l
    kept : d'.assign_count l ≡ d.assign_count l → d'.disc_def l ≡ d.disc_def l

  Grows-refl : (d : Defs) → Grows d d
  Grows-refl d = record { more = omega arith; kept = λ e. refl }

  Grows-trans : (d e f : Defs) → Grows d e → Grows e f → Grows d f
  Grows-trans d e f g h = record {
    more = omega (arith, g.more, h.more);
    kept = λ same. h.kept (omega (arith, g.more, h.more)) ∙ g.kept (omega (arith, g.more, h.more));
  }

  Grows-assign : (i k : ℕ) (o : Option Place) (d : Defs) → Grows d (define i k o (counted k d))
  Grows-assign i k none d = by_local (k == l) refl
    where
      by_local : (b : Bool) → (k == l) ≡ b → Grows d (counted k d)
      by_local true e = record { more = ground arith; kept = λ same. ground arith }
      by_local false e = record { more = ground arith; kept = λ same. ground arith }
  Grows-assign i k (some p) d = by_local (k == l) refl
    where
      by_local : (b : Bool) → (k == l) ≡ b → Grows d (defined k (i, p) (counted k d))
      by_local true e = record { more = ground arith; kept = λ same. ground arith }
      by_local false e = record { more = ground arith; kept = λ same. ground arith }

  Grows-stmt : (i : ℕ) (s : Stmt) (d : Defs) → Grows d (stmt_defs i s d)
  Grows-stmt i (assign (place k no_proj) rv) d = Grows-assign i k (read_place rv) d
  Grows-stmt i (assign (place k (then_proj p ps)) rv) d = Grows-refl d
  Grows-stmt i (evict op) d = Grows-refl d
  Grows-stmt i (evict_slot crib tag) d = Grows-refl d
  Grows-stmt i nop d = Grows-refl d

  Grows-stmts : (i : ℕ) (ss : List Stmt) (d : Defs) → Grows d (stmts_defs i ss d)
  Grows-stmts i [] d = Grows-refl d
  Grows-stmts i (s ∷ ss) d =
      Grows-trans d (stmt_defs i s d) _ (Grows-stmt i s d) (Grows-stmts i ss (stmt_defs i s d))

  Grows-term : (t : Terminator) (d : Defs) → Grows d (term_defs t d)
  Grows-term (holla_check tag crib (place k no_proj) live dead) d = Grows-assign 0 k none d
  Grows-term (holla_check tag crib (place k (then_proj p ps)) live dead) d = Grows-refl d
  Grows-term (goto bb) d = Grows-refl d
  Grows-term (branch cond then_bb else_bb) d = Grows-refl d
  Grows-term (switch scrutinee cases default) d = Grows-refl d
  Grows-term (return vals) d = Grows-refl d
  Grows-term (panic op) d = Grows-refl d
  Grows-term unreachable d = Grows-refl d

  Grows-blocks : (i : ℕ) (bs : List Block) (d : Defs) → Grows d (blocks_defs i bs d)
  Grows-blocks i [] d = Grows-refl d
  Grows-blocks i (b ∷ bs) d = Grows-trans d (stmts_defs i b.stmts d) _ (Grows-stmts i b.stmts d) (
      Grows-trans (stmts_defs i b.stmts d) (term_defs b.term (stmts_defs i b.stmts d)) _
        (Grows-term b.term (stmts_defs i b.stmts d))
        (Grows-blocks (suc i) bs (term_defs b.term (stmts_defs i b.stmts d))))

  -- An assignment of `l` in block `i`, with the read that it makes: what stands before and after it.
  record Event (d d' : Defs) (i : ℕ) (o : Option Place) : Type 0 where
    before : Defs
    earlier : Grows d before
    later : Grows (define i l o (counted l before)) d'

  Event-later :
      (d e f : Defs) (i : ℕ) (o : Option Place) → Event d e i o → Grows e f → Event d f i o
  Event-later d e f i o v g = record {
    before = v.before;
    earlier = v.earlier;
    later = Grows-trans (define i l o (counted l v.before)) e f v.later g;
  }

  Event-earlier :
      (d e f : Defs) (i : ℕ) (o : Option Place) → Grows d e → Event e f i o → Event d f i o
  Event-earlier d e f i o g v = record {
    before = v.before;
    earlier = Grows-trans d e v.before g v.earlier;
    later = v.later;
  }

  stmts-Event :
      (i : ℕ) (ss : List Stmt) (d : Defs) (k : ℕ) (rv : Rvalue)
      → get_elem? ss k ≡ some (assign (place l no_proj) rv)
      → Event d (stmts_defs i ss d) i (read_place rv)
  stmts-Event i [] d k rv h = cc
  stmts-Event i (s ∷ ss) d zero rv h =
      let same : s ≡ assign (place l no_proj) rv = cc in
      subst (λ (t : Stmt). Event d (stmts_defs i ss (stmt_defs i t d)) i (read_place rv)) (sym same)
        (record {
          before = d;
          earlier = Grows-refl d;
          later = Grows-stmts i ss (define i l (read_place rv) (counted l d));
        })
  stmts-Event i (s ∷ ss) d (suc k) rv h =
      Event-earlier d (stmt_defs i s d) _ i (read_place rv) (Grows-stmt i s d)
        (stmts-Event i ss (stmt_defs i s d) k rv h)

  -- The definitions once block `b` is done.
  abbrev block_defs : ℕ → Block → Defs → Defs
  block_defs i b d = term_defs b.term (stmts_defs i b.stmts d)

  Grows-block : (i : ℕ) (b : Block) (d : Defs) → Grows d (block_defs i b d)
  Grows-block i b d =
      Grows-trans d (stmts_defs i b.stmts d) _ (Grows-stmts i b.stmts d)
        (Grows-term b.term (stmts_defs i b.stmts d))

  -- An event of a block is one of the list of blocks.
  blocks-Event :
      (o : Option Place) (j : ℕ) (bs : List Block) (d : Defs) (i : ℕ) (c : Block)
      → get_elem? bs i ≡ some c
      → ((e : Defs) → Event e (block_defs (j + i) c e) (j + i) o)
      → Event d (blocks_defs j bs d) (j + i) o
  blocks-Event o j [] d i c h event = cc
  blocks-Event o j (b ∷ bs) d zero c h event =
      let same : b ≡ c = cc in
      let plain : j + 0 ≡ j = omega arith in
      Event-later d (block_defs j b d) _ (j + 0) o
        (subst (λ (x : Block). Event d (block_defs j x d) (j + 0) o) (sym same)
          (subst (λ (n : ℕ). Event d (block_defs n c d) (j + 0) o) plain (event d)))
        (Grows-blocks (suc j) bs (block_defs j b d))
  blocks-Event o j (b ∷ bs) d (suc i) c h event =
      let shift : suc j + i ≡ j + suc i = omega arith in
      Event-earlier d (block_defs j b d) _ (j + suc i) o (Grows-block j b d) (
        subst (λ (n : ℕ). Event (block_defs j b d) (blocks_defs (suc j) bs (block_defs j b d)) n o)
          shift
          (blocks-Event o (suc j) bs (block_defs j b d) i c h
            (λ e. subst (λ (n : ℕ). Event e (block_defs n c e) n o) (sym shift) (event e))))

  -- The only event is the one whose read is recorded.
  Event-sole :
      (d : Defs) (i : ℕ) (o : Option Place)
      → d.assign_count l ≡ 1
      → Event no_defs d i o
      → d.disc_def l ≡ by_option i o
  Event-sole d i none once v =
      let self = ==-refl l in
      let one : (counted l v.before).assign_count l ≡ suc (v.before.assign_count l) =
        ap (λ (b : Bool). if b then suc (v.before.assign_count l) else v.before.assign_count l)
          self in
      v.later.kept (omega (arith, v.later.more)) ∙ v.earlier.kept (omega (arith, v.later.more))
  Event-sole d i (some p) once v =
      let self = ==-refl l in
      let one : (counted l v.before).assign_count l ≡ suc (v.before.assign_count l) =
        ap (λ (b : Bool). if b then suc (v.before.assign_count l) else v.before.assign_count l)
          self in
      v.later.kept (omega (arith, v.later.more))
      ∙ ap (λ (b : Bool). if b then some (i, p) else v.before.disc_def l) self

module _ (f : Func) (l def_block : ℕ) (read : Place)
    (once : (blocks_defs 0 f.blocks no_defs).assign_count l ≡ 1)
    (by_read : (blocks_defs 0 f.blocks no_defs).disc_def l ≡ some (def_block, read)) where
  recorded :
      (i : ℕ) (o : Option Place)
      → some (def_block, read) ≡ by_option i o
      → (o ≡ some read) × (i ≡ def_block)
  recorded i none e = cc
  recorded i (some p) e =
      let pair : (def_block, read) ≡ (i, p) = cc in
      (ap (λ (q : ℕ × Place). some q.1) (sym pair), ap (λ (q : ℕ × Place). q.0) (sym pair))

  Event-at :
      (o : Option Place) (i : ℕ) (c : Block)
      → get_elem? f.blocks i ≡ some c
      → ((e : Defs) → Event l e (block_defs l i c e) i o)
      → (o ≡ some read) × (i ≡ def_block)
  Event-at o i c at event =
      let plain : 0 + i ≡ i = omega arith in
      let v =
        blocks-Event l o 0 f.blocks no_defs i c at
          (λ e. subst (λ (n : ℕ). Event l e (block_defs l n c e) n o) (sym plain) (event e)) in
      let r =
        recorded (0 + i) o
          (sym by_read ∙ Event-sole l (blocks_defs 0 f.blocks no_defs) (0 + i) o once v) in
      (r.0, sym plain ∙ r.1)

  -- Every assignment of the local is the read, in its block.
  pub assign-sole :
      (i : ℕ) (c : Block) (k : ℕ) (rv : Rvalue)
      → get_elem? f.blocks i ≡ some c
      → get_elem? c.stmts k ≡ some (assign (place l no_proj) rv)
      → (read_place rv ≡ some read) × (i ≡ def_block)
  assign-sole i c k rv at h = Event-at (read_place rv) i c at (λ e.
      Event-later l e (stmts_defs i c.stmts e) _ i (read_place rv)
        (stmts-Event l i c.stmts e k rv h) (Grows-term l c.term (stmts_defs i c.stmts e)))

  -- No `holla` resolves into the local.
  pub holla-sole :
      (i : ℕ) (c : Block) (tag crib : Operand) (live dead : ℕ)
      → get_elem? f.blocks i ≡ some c
      → c.term ≢ holla_check tag crib (place l no_proj) live dead
  holla-sole i c tag crib live dead at h =
      let r = Event-at none i c at (λ e. record {
        before = stmts_defs i c.stmts e;
        earlier = Grows-stmts l i c.stmts e;
        later =
            subst
              (λ (t : Terminator).
                Grows l (counted l (stmts_defs i c.stmts e)) (term_defs t (stmts_defs i c.stmts e)))
              (sym h) (Grows-refl l (counted l (stmts_defs i c.stmts e)));
      }) in
      let never : none ≡ some read = r.0 in cc
