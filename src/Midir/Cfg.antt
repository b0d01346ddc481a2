-- ===== src/Midir/Cfg.antt =====
-- `successors` and `compute_preds` of crates/midir/src/validate.rs.
pub mod Edges
use bet.Prelude.{
  ℕ, zero, suc, ◌+◌, Bool, true, false, ◌&&◌, ◌||◌, not, Option, none, some, List, [], ◌∷◌, ◌++◌,
  ◌==◌, ltb, if◌then◌else◌, length, map, set, replicate, contains,
}
use bet.Midir.Ir.{
  Terminator, Block, Func, goto, branch, switch, holla_check, return, panic, unreachable,
}
use bet.Midir.Dominators.{preds_row}

abbrev pub targets : List (ℕ × ℕ) → List ℕ
targets [] = []
targets (c ∷ cases) = c.1 ∷ targets cases

unfoldable pub successors : Terminator → List ℕ
successors (goto bb) = bb ∷ []
successors (branch cond then_bb else_bb) = then_bb ∷ else_bb ∷ []
successors (switch scrutinee cases default) = targets cases ++ default ∷ []
successors (holla_check tag crib resolved live dead) = live ∷ dead ∷ []
successors (return vals) = []
successors (panic op) = []
successors unreachable = []

-- The body of `for s in successors(..)` in block `i`.
unfoldable pub add_pred : ℕ → ℕ → List (List ℕ) → ℕ → List (List ℕ)
add_pred n i preds s =
    if ltb s n && not (contains (preds_row preds s) i)
    then set preds s (preds_row preds s ++ i ∷ [])
    else preds

unfoldable pub add_preds : ℕ → ℕ → List (List ℕ) → List ℕ → List (List ℕ)
unfolding add_pred
add_preds n i preds [] = preds
add_preds n i preds (s ∷ ss) = add_preds n i (add_pred n i preds s) ss

-- `for (i, block) in func.blocks.iter().enumerate()`, from block `i` on.
unfoldable pub preds_from : ℕ → ℕ → List (List ℕ) → List Block → List (List ℕ)
unfolding add_preds successors
preds_from n i preds [] = preds
preds_from n i preds (b ∷ bs) = preds_from n (suc i) (add_preds n i preds (successors b.term)) bs

unfoldable pub compute_preds : Func → List (List ℕ)
unfolding preds_from
compute_preds f = preds_from (length f.blocks) 0 (replicate (length f.blocks) []) f.blocks
