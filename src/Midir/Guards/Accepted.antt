-- ===== src/Midir/Guards/Accepted.antt =====
-- What `check_downcast_guards` accepts: a function of which every `Downcast` is behind a test of its
-- variant.
use bet.Prelude.{
  ℕ, ◌<◌, ◌≡◌, refl, ap, sym, ◌∙◌, subst, Bool, true, false, ◌&&◌, not, some, List, [], ◌∷◌, ◌==◌,
  ltb, lt→ltb, and-left, and-right, if◌then◌else◌, length, arith, Bool-cases, inl, inr, ◌≢◌, All,
}
use bet.Midir.Ir.{Place, Func}
use bet.Midir.Ir.Eq.{place_eq}
use bet.Midir.Dominators.{Matrix, row, bit, preds_row, compute_dominators}
use bet.Midir.Dominators.Sound.{Walk, Visits, compute_dominators_sound}
use bet.Midir.Cfg.{compute_preds}
use bet.Midir.Cfg.Edges.{compute_preds-bound}
use bet.Midir.Guards.Sites.{DowncastSite, collect_downcast_sites}
use bet.Midir.Guards.Occurs.{Occurs}
use bet.Midir.Guards.Collected.{collected-All}
use bet.Midir.Guards.{
  SwitchGuard, collect_switch_guards, case_target_is_exclusive, exclusive_cases, single_pred,
  case_guards, site_is_guarded, unguarded, unguarded_in, check_downcast_guards, cases_below,
}
use bet.Midir.Guards.Sole.{assign-sole, holla-sole}
use bet.Midir.Guards.Runs.{walk, Visits-Passes, Passes-Takes}
use bet.Midir.Guards.Sound.{
  Run, Takes, Passes, chosen_only, Tests, Resolved, collect_switch_guards-All,
}

-- The case of a guard that a site is accepted for.
record Chosen (site : DowncastSite) (g : SwitchGuard) (dom : Matrix) (preds : List (List ℕ)) (n : ℕ)
    : Type 0 where
  t : ℕ
  low : t < n
  over : bit (row dom site.block) t ≡ true
  alone : single_pred (preds_row preds t) g.block ≡ true
  exclusive : case_target_is_exclusive g t site.variant ≡ true

cases_below-All :
    (n : ℕ) (cases : List (ℕ × ℕ)) → All (λ (c : ℕ × ℕ). c.1 < n) (cases_below n cases)
cases_below-All n [] = tt
cases_below-All n (c ∷ cases) =
    keep c (cases_below n cases) (cases_below-All n cases) (ltb c.1 n) refl
  where
    keep :
        (c : ℕ × ℕ) (rest : List (ℕ × ℕ))
        → All (λ (c : ℕ × ℕ). c.1 < n) rest
        → (b : Bool) → ltb c.1 n ≡ b
        → All (λ (c : ℕ × ℕ). c.1 < n) (if b then c ∷ rest else rest)
    keep c rest all true e = (ground arith, all)
    keep c rest all false e = all

module _ (site : DowncastSite) (dom : Matrix) (preds : List (List ℕ)) (n : ℕ) where
  case_guards-Chosen :
      (g : SwitchGuard) (cases : List (ℕ × ℕ))
      → All (λ (c : ℕ × ℕ). c.1 < n) cases
      → case_guards site g dom preds cases ≡ true
      → Chosen site g dom preds n
  unfolding case_guards
  case_guards-Chosen g [] low e =
      let never : false ≡ true = e in let no : ⊥ = ground arith in elim no [ ]
  case_guards-Chosen g (c ∷ cases) low e = elim (Bool-cases (case_guards site g dom preds cases)) [
    | inl later ↦ case_guards-Chosen g cases low.1 later
    | inr here ↦ record {
      t = c.1;
      low = low.0;
      over = ground arith;
      alone = ground arith;
      exclusive = ground arith;
    }
  ]

module _ (f : Func) where
  -- One accepted site: a guard `g` and a target `t`.
  pub record Guarded (site : DowncastSite) : Type 0 where
    pub g : ℕ
    pub t : ℕ
    pub tests : Tests f site.prefix site.variant g t
    pub taken : (r : Run f site.block) → Takes f site.block r g t

  module _ (dom : Matrix) (inside : f.entry < length f.blocks)
      (root : preds_row (compute_preds f) f.entry ≡ [])
      (sound : (b a : ℕ)
        → bit (row dom b) a ≡ true
        → (w : Walk (length f.blocks) f.entry (compute_preds f) b)
        → Visits (length f.blocks) f.entry (compute_preds f) b w a) where
    passes : (b a : ℕ) → bit (row dom b) a ≡ true → (r : Run f b) → Passes f b r a
    passes b a on r = Visits-Passes f b r a (sound b a on (walk f b r))

    Chosen-Guarded :
        (site : DowncastSite) (sg : SwitchGuard)
        → Resolved f dom sg
        → place_eq sg.sum_place site.prefix ≡ true
        → Chosen site sg dom (compute_preds f) (length f.blocks)
        → Guarded site
    unfolding case_target_is_exclusive
    Chosen-Guarded site sg k same c =
        let other : c.t ≢ f.entry = λ e.
          (let none_left =
              subst (λ (b : ℕ). single_pred (preds_row (compute_preds f) b) sg.block ≡ true) e
                c.alone in
            let never : false ≡ true =
              ap (λ (ps : List ℕ). single_pred ps sg.block) (sym root) ∙ none_left in
            ground arith) in
        record {
          g = sg.block;
          t = c.t;
          tests = record {
            read = sg.sum_place;
            same = same;
            source = k.source;
            scrutinee = k.scrutinee;
            cases = k.cases;
            default = k.default;
            temp = k.temp;
            def_block = k.def_block;
            at = k.at;
            switches = k.switches;
            reads_temp = k.reads_temp;
            once = k.once;
            by_read = k.by_read;
            only_assigned = assign-sole f k.temp k.def_block sg.sum_place k.once k.by_read;
            never_resolved = holla-sole f k.temp k.def_block sg.sum_place k.once k.by_read;
            before = passes sg.block k.def_block k.dominated;
            only = λ x.
                chosen_only (length f.blocks) k.cases k.default x c.t site.variant c.low
                  (ap (λ (cs : List (ℕ × ℕ)). exclusive_cases cs c.t site.variant) (sym k.below)
                    ∙ and-right (not (sg.default == c.t)) _ c.exclusive)
                  (λ e.
                    let small = lt→ltb k.default (length f.blocks) (omega arith) in
                    let left = and-left (not (sg.default == c.t)) _ c.exclusive in ground arith);
          };
          taken = λ r.
              Passes-Takes f site.block r sg.block c.t other c.alone
                (passes site.block c.t c.over r);
        }

    cases_low :
        (sg : SwitchGuard) → Resolved f dom sg → All (λ (c : ℕ × ℕ). c.1 < length f.blocks) sg.cases
    cases_low sg k =
        subst (All (λ (c : ℕ × ℕ). c.1 < length f.blocks)) (sym k.below)
          (cases_below-All (length f.blocks) k.cases)

    site-Guarded :
        (site : DowncastSite) (gs : List SwitchGuard)
        → All (Resolved f dom) gs
        → site_is_guarded site gs dom (compute_preds f) ≡ true
        → Guarded site
    unfolding site_is_guarded
    site-Guarded site [] all e =
        let never : false ≡ true = e in let no : ⊥ = ground arith in elim no [ ]
    site-Guarded site (g ∷ gs) all e =
        elim (Bool-cases (site_is_guarded site gs dom (compute_preds f))) [
          | inl later ↦ site-Guarded site gs all.1 later
          | inr here ↦
              (let first : (place_eq g.sum_place site.prefix
                      && case_guards site g dom (compute_preds f) g.cases)
                    ≡ true =
                  ground arith in
                Chosen-Guarded site g all.0 (and-left _ _ first) (
                  case_guards-Chosen site dom (compute_preds f) (length f.blocks) g g.cases
                    (cases_low g all.0) (and-right (place_eq g.sum_place site.prefix) _ first)))
        ]

    unguarded-Guarded :
        (gs : List SwitchGuard) (sites : List DowncastSite)
        → All (Resolved f dom) gs
        → unguarded gs dom (compute_preds f) sites ≡ []
        → All Guarded sites
    unfolding unguarded
    unguarded-Guarded gs [] all e = tt
    unguarded-Guarded gs (s ∷ sites) all e =
        elim (Bool-cases (site_is_guarded s gs dom (compute_preds f))) [
          | inl yes_it ↦ (
            site-Guarded s gs all yes_it,
            unguarded-Guarded gs sites all (sym (ap pick yes_it) ∙ e),
          )
          | inr not_it ↦
              (let never : (s ∷ unguarded gs dom (compute_preds f) sites) ≡ [] =
                  sym (ap pick not_it) ∙ e in
                let no : ⊥ = ground arith in elim no [ ])
        ]
      where
        pick : Bool → List DowncastSite
        pick b =
            if b
            then unguarded gs dom (compute_preds f) sites
            else s ∷ unguarded gs dom (compute_preds f) sites

-- Where no block jumps to the entry block and the entry is in range: if `check_downcast_guards` reports
-- nothing, then for every `Downcast` of the function, wherever it stands (in an operand of a statement or a
-- terminator, a place that is assigned, resolved or has its address taken, or an index operand of such a
-- place), there are blocks `g` and `t` so that `g` ends with a `Switch` on a temp whose only assignment reads
-- the discriminant of the downcast's place (up to the derived equality) and lies on every run to `g`, the
-- `Switch` goes to `t` on no value but the downcast's variant, and every run from the entry to the downcast's
-- block takes the edge from `g` to `t`.
pub check_downcast_guards_sound :
    (f : Func)
    → f.entry < length f.blocks
    → preds_row (compute_preds f) f.entry ≡ []
    → check_downcast_guards f ≡ []
    → (block : ℕ) (prefix : Place) (v : ℕ) → Occurs f block prefix v
    → Guarded f (record { block = block; prefix = prefix; variant = v })
unfolding check_downcast_guards unguarded_in
check_downcast_guards_sound f inside root e block prefix v o =
    let d =
      compute_dominators_sound (length f.blocks) f.entry (compute_preds f) inside
        (compute_preds-bound f) in
    let low = lt→ltb f.entry (length f.blocks) inside in
    let run : unguarded_in f (some d.0) ≡ [] =
      sym (ap (unguarded_in f) d.1)
      ∙ sym (
          ap
            (λ (b : Bool).
              if b
              then unguarded_in f (compute_dominators (length f.blocks) f.entry (compute_preds f))
              else [])
            low)
      ∙ e in
    collected-All (Guarded f) f block prefix v
      (unguarded-Guarded f d.0 inside root d.2 (collect_switch_guards f d.0)
        (collect_downcast_sites f) (collect_switch_guards-All f d.0) run)
      o
