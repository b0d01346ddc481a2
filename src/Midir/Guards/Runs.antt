-- ===== src/Midir/Guards/Runs.antt =====
-- A run of blocks as a walk of the predecessor lists, and the edge that it takes into a block with one
-- predecessor.
use bet.Prelude.{
  ℕ, ◌≡◌, sym, subst, true, List, [], ◌∷◌, length, get_elem?-lt-length, contains, arith, inl, inr,
  ◌≢◌,
}
use bet.Midir.Ir.{Func}
use bet.Midir.Dominators.{preds_row}
use bet.Midir.Dominators.Sound.{Walk, start, step, Visits}
use bet.Midir.Cfg.{compute_preds}
use bet.Midir.Cfg.Edges.{Edge-compute_preds}
use bet.Midir.Guards.{single_pred}
use bet.Midir.Guards.Sound.{Run, enter, jump, Takes, Passes}

only_pred : (ps : List ℕ) (p g : ℕ) → single_pred ps g ≡ true → contains ps p ≡ true → p ≡ g
only_pred [] p g h e = ground arith
only_pred (q ∷ []) p g h e = ground arith
only_pred (q ∷ q' ∷ ps) p g h e = ground arith

-- A run is a walk of the listed predecessors, and visits what the walk visits.
module _ (f : Func) where
  abbrev pub walk : (b : ℕ) → Run f b → Walk (length f.blocks) f.entry (compute_preds f) b
  walk _ enter = start
  walk _ (jump p b r e) =
      step p b (walk p r) (get_elem?-lt-length f.blocks p e.from e.at) e.inside
        (Edge-compute_preds f p b e)

  pub Visits-Passes :
      (b : ℕ) (r : Run f b) (a : ℕ)
      → Visits (length f.blocks) f.entry (compute_preds f) b (walk b r) a
      → Passes f b r a
  unfolding Visits Passes
  Visits-Passes _ enter a v = v
  Visits-Passes _ (jump p b r e) a (inl here) = inl here
  Visits-Passes _ (jump p b r e) a (inr back) = inr (Visits-Passes p r a back)

  -- A block with one predecessor, other than the entry, is only entered over that edge.
  pub Passes-Takes :
      (b : ℕ) (r : Run f b) (g t : ℕ)
      → t ≢ f.entry
      → single_pred (preds_row (compute_preds f) t) g ≡ true
      → Passes f b r t
      → Takes f b r g t
  unfolding Takes Passes
  Passes-Takes _ enter g t other alone v = let no : ⊥ = other v in elim no [ ]
  Passes-Takes _ (jump p b r e) g t other alone (inl here) =
      let listed =
        subst (λ (c : ℕ). contains (preds_row (compute_preds f) c) p ≡ true) (sym here)
          (Edge-compute_preds f p b e) in
      inl (only_pred (preds_row (compute_preds f) t) p g alone listed, sym here)
  Passes-Takes _ (jump p b r e) g t other alone (inr back) =
      inr (Passes-Takes p r g t other alone back)
