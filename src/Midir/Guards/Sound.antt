-- ===== src/Midir/Guards/Sound.antt =====
-- What an accepted `Downcast` rests on: every run of blocks from the entry to it takes the edge of a
-- `Switch` on the discriminant of its own place, and that edge is taken for its variant alone.
use bet.Prelude.{
  append-All, ℕ, suc, ◌+◌, ◌<◌, ◌≡◌, refl, ap, sym, ◌∙◌, subst, Bool, true, false, Option, none,
  some, List, [], ◌∷◌, ◌==◌, ltb, if◌then◌else◌, length, get_elem?, arith, Bool-cases, inl, inr,
  ◌⊎◌, ◌≢◌, All,
}
use bet.Midir.Ir.{
  Rvalue, assign, place, no_proj, Place, Operand, Terminator, Block, Func, switch, goto, branch,
  holla_check, return, panic, unreachable,
}
use bet.Midir.Ir.Eq.{place_eq}
use bet.Midir.Dominators.{Matrix, row, bit}
use bet.Midir.Cfg.Edges.{Edge}
use bet.Midir.Guards.{
  read_place, SwitchGuard, Defs, no_defs, blocks_defs, scrutinee_local, collect_switch_guards,
  exclusive_cases, guard_of, trusted, usize_max, block_guards, guards_from, temp_place, cases_below,
}

-- A run of blocks from the entry, along the edges of the function.
pub data Run (f : Func) : ℕ → Type 0 where
  enter : Run f f.entry
  jump : (p b : ℕ) → Run f p → Edge f p b → Run f b

-- The run takes the edge from `g` to `t`; the run goes through block `a`.
unfoldable pub Takes : (f : Func) (b : ℕ) → Run f b → ℕ → ℕ → Type 0
Takes f _ enter g t = ⊥
Takes f _ (jump p b r e) g t = ((p ≡ g) × (b ≡ t)) ⊎ Takes f p r g t

unfoldable pub Passes : (f : Func) (b : ℕ) → Run f b → ℕ → Type 0
Passes f _ enter a = a ≡ f.entry
Passes f _ (jump p b r e) a = (a ≡ b) ⊎ Passes f p r a

-- The block that the terminator of a `Switch` goes to on a value.
unfoldable pub chosen : List (ℕ × ℕ) → ℕ → ℕ → ℕ
chosen [] default x = default
chosen (c ∷ cases) default x = let rest = chosen cases default x in if c.0 == x then c.1 else rest

-- The block `g` reads the discriminant of a place equal to `prefix` from a temp that this read alone
-- assigns, the read is made on every run to `g`, and its `Switch` goes to `t` on no value but `v`.
pub record Tests (f : Func) (prefix : Place) (v g t : ℕ) : Type 0 where
  pub read : Place
  pub same : place_eq read prefix ≡ true
  pub source : Block
  pub scrutinee : Operand
  pub cases : List (ℕ × ℕ)
  pub default : ℕ
  pub temp : ℕ
  pub def_block : ℕ
  pub at : get_elem? f.blocks g ≡ some source
  pub switches : source.term ≡ switch scrutinee cases default
  pub reads_temp : scrutinee_local scrutinee ≡ some temp
  pub once : (blocks_defs 0 f.blocks no_defs).assign_count temp ≡ 1
  pub by_read : (blocks_defs 0 f.blocks no_defs).disc_def temp ≡ some (def_block, read)
  pub only_assigned :
      (i : ℕ) (c : Block) (k : ℕ) (rv : Rvalue)
      → get_elem? f.blocks i ≡ some c
      → get_elem? c.stmts k ≡ some (assign (place temp no_proj) rv)
      → (read_place rv ≡ some read) × (i ≡ def_block)
  pub never_resolved :
      (i : ℕ) (c : Block) (tag crib : Operand) (live dead : ℕ)
      → get_elem? f.blocks i ≡ some c
      → c.term ≢ holla_check tag crib (place temp no_proj) live dead
  pub before : (r : Run f g) → Passes f g r def_block
  pub only : (x : ℕ) → chosen cases default x ≡ t → x ≡ v

pub chosen_only :
    (n : ℕ) (cases : List (ℕ × ℕ)) (default x t v : ℕ)
    → t < n
    → exclusive_cases (cases_below n cases) t v ≡ true
    → default ≢ t
    → chosen cases default x ≡ t
    → x ≡ v
unfolding chosen
chosen_only n [] default x t v h only other e = let no : ⊥ = other e in elim no [ ]
chosen_only n (c ∷ cases) default x t v h only other e = elim (Bool-cases (c.0 == x)) [
  | inl hit ↦ ground arith
  | inr miss ↦
      (let rest : exclusive_cases (cases_below n cases) t v ≡ true = elim (Bool-cases (ltb c.1 n)) [
        | inl low ↦ ground arith
        | inr high ↦ ground arith
      ] in
        let later : chosen cases default x ≡ t = ground arith in
        chosen_only n cases default x t v h rest other later)
]

module _ (f : Func) (dom : Matrix) where
  -- What `collect_switch_guards` knows of a guard.
  pub record Resolved (g : SwitchGuard) : Type 0 where
    pub source : Block
    pub scrutinee : Operand
    pub cases : List (ℕ × ℕ)
    pub default : ℕ
    pub temp : ℕ
    pub def_block : ℕ
    pub at : get_elem? f.blocks g.block ≡ some source
    pub switches : source.term ≡ switch scrutinee cases default
    pub reads_temp : scrutinee_local scrutinee ≡ some temp
    pub once : (blocks_defs 0 f.blocks no_defs).assign_count temp ≡ 1
    pub by_read : (blocks_defs 0 f.blocks no_defs).disc_def temp ≡ some (def_block, g.sum_place)
    pub dominated : bit (row dom g.block) def_block ≡ true
    pub below : g.cases ≡ cases_below (length f.blocks) cases
    pub otherwise : g.default ≡ (if ltb default (length f.blocks) then default else usize_max)

  abbrev n : ℕ
  n = length f.blocks

  abbrev d : Defs
  d = blocks_defs 0 f.blocks no_defs

  module _ (i : ℕ) (source : Block) (at : get_elem? f.blocks i ≡ some source) where
    module _ (scrutinee : Operand) (cases : List (ℕ × ℕ)) (default : ℕ)
        (switches : source.term ≡ switch scrutinee cases default) where
      trusted-All :
          (l : ℕ) (b : Bool) (q : Option (ℕ × Place))
          → scrutinee_local scrutinee ≡ some l
          → (d.assign_count l == 1) ≡ b
          → d.disc_def l ≡ q
          → All Resolved (guard_of n i cases default (if b then trusted dom i q else none))
      trusted-All l false q e c k = tt
      trusted-All l true none e c k = tt
      trusted-All l true (some (block, p)) e c k = elim (Bool-cases (bit (row dom i) block)) [
        | inl on ↦
            subst
              (λ (t : Bool). All Resolved (guard_of n i cases default (if t then some p else none)))
              (sym on)
              (
                record {
                  source = source;
                  scrutinee = scrutinee;
                  cases = cases;
                  default = default;
                  temp = l;
                  def_block = block;
                  at = at;
                  switches = switches;
                  reads_temp = e;
                  once = ground arith;
                  by_read = k;
                  dominated = on;
                  below = refl;
                  otherwise = refl;
                },
                tt,
              )
        | inr off ↦
            subst
              (λ (t : Bool). All Resolved (guard_of n i cases default (if t then some p else none)))
              (sym off) tt
      ]

      temp-All :
          (o : Option ℕ)
          → scrutinee_local scrutinee ≡ o
          → All Resolved (guard_of n i cases default (temp_place d dom i o))
      temp-All none e = tt
      temp-All (some l) e = trusted-All l (d.assign_count l == 1) (d.disc_def l) e refl refl

    block-All : (t : Terminator) → source.term ≡ t → All Resolved (block_guards n d dom i t)
    block-All (switch scrutinee cases default) e =
        temp-All scrutinee cases default e (scrutinee_local scrutinee) refl
    block-All (goto bb) e = tt
    block-All (branch cond then_bb else_bb) e = tt
    block-All (holla_check tag crib resolved live dead) e = tt
    block-All (return vals) e = tt
    block-All (panic op) e = tt
    block-All unreachable e = tt

  guards-All :
      (i : ℕ) (bs : List Block)
      → ((k : ℕ) → get_elem? f.blocks (i + k) ≡ get_elem? bs k)
      → All Resolved (guards_from n d dom i bs)
  guards-All i [] same = tt
  guards-All i (b ∷ bs) same =
      let first : i + 0 ≡ i = omega arith in
      let at : get_elem? f.blocks i ≡ some b =
        ap (λ (k : ℕ). get_elem? f.blocks k) (sym first) ∙ same 0 in
      append-All Resolved (block_guards n d dom i b.term) _ (block-All i b at b.term refl) (
        guards-All (suc i) bs (λ k.
          let shift : suc i + k ≡ i + suc k = omega arith in
          ap (λ (j : ℕ). get_elem? f.blocks j) shift ∙ same (suc k)))

  pub collect_switch_guards-All : All Resolved (collect_switch_guards f dom)
  unfolding collect_switch_guards
  collect_switch_guards-All =
      guards-All 0 f.blocks
        (λ k. let plain : 0 + k ≡ k = omega arith in ap (λ (j : ℕ). get_elem? f.blocks j) plain)
