-- ===== src/Midir/Cfg/Edges.antt =====
-- The predecessors that `compute_preds` lists are the blocks with an edge.
use bet.Prelude.{
  ℕ, zero, suc, ◌+◌, ◌<◌, ◌≡◌, refl, ap, ◌∙◌, subst, true, false, ◌&&◌, ◌||◌, not, some, List, [],
  ◌∷◌, ◌++◌, ◌==◌, ltb, length, get_elem?, set, replicate, contains, arith, Bool-cases, inl, inr,
  length-set, length-replicate,
}
use bet.Midir.Ir.{Block, Func}
use bet.Midir.Dominators.{preds_row}
use bet.Midir.Cfg.{successors, add_pred, add_preds, preds_from, compute_preds}

-- An edge of the control flow graph: block `p` ends with a terminator that names block `b`.
pub record Edge (f : Func) (p b : ℕ) : Type 0 where
  pub from : Block
  pub at : get_elem? f.blocks p ≡ some from
  pub names : contains (successors from.term) b ≡ true
  pub inside : b < length f.blocks

contains-append :
    (xs ys : List ℕ) (a : ℕ) → contains (xs ++ ys) a ≡ (contains xs a || contains ys a)
contains-append [] ys a = refl
contains-append (x ∷ xs) ys a = let e = contains-append xs ys a in ground arith

preds_row-set_same :
    (preds : List (List ℕ)) (s : ℕ) (v : List ℕ)
    → s < length preds
    → preds_row (set preds s v) s ≡ v
preds_row-set_same [] s v h = let no : ⊥ = omega arith in elim no [ ]
preds_row-set_same (ps ∷ preds) zero v h = refl
preds_row-set_same (ps ∷ preds) (suc s) v h = preds_row-set_same preds s v (omega arith)

preds_row-set_other :
    (preds : List (List ℕ)) (s b : ℕ) (v : List ℕ)
    → (s == b) ≡ false
    → preds_row (set preds s v) b ≡ preds_row preds b
preds_row-set_other [] s b v h = refl
preds_row-set_other (ps ∷ preds) zero zero v h = ground arith
preds_row-set_other (ps ∷ preds) zero (suc b) v h = refl
preds_row-set_other (ps ∷ preds) (suc s) zero v h = refl
preds_row-set_other (ps ∷ preds) (suc s) (suc b) v h =
    let e : (s == b) ≡ false = ground arith in preds_row-set_other preds s b v e

-- What `add_pred` does to a row: it may append `i` to row `s`, and nothing else.
module _ (n i : ℕ) where
  Listed : List (List ℕ) → ℕ → ℕ → Type 0
  Listed preds b p = contains (preds_row preds b) p ≡ true

  length-add_pred : (preds : List (List ℕ)) (s : ℕ) → length (add_pred n i preds s) ≡ length preds
  unfolding add_pred
  length-add_pred preds s = let e = length-set preds s (preds_row preds s ++ i ∷ []) in ground arith

  row-add_pred :
      (preds : List (List ℕ)) (s b p : ℕ)
      → length preds ≡ n
      → contains (preds_row (add_pred n i preds s) b) p
        ≡ (contains (preds_row preds b) p || (s == b && (ltb s n && i == p)))
  unfolding add_pred
  row-add_pred preds s b p h = elim (Bool-cases (s == b)) [
    | inl e ↦
        (let same : s ≡ b = ground arith in
          subst
            (λ (c : ℕ).
              contains (preds_row (add_pred n i preds s) c) p
              ≡ (contains (preds_row preds c) p || (s == c && (ltb s n && i == p))))
            same own)
    | inr e ↦
        (let kept =
            ap (λ (r : List ℕ). contains r p)
              (preds_row-set_other preds s b (preds_row preds s ++ i ∷ []) e) in
          elim (Bool-cases (ltb s n && not (contains (preds_row preds s) i))) [
            | inl t ↦ ground arith
            | inr t ↦ ground arith
          ])
  ]
    where
      own :
          contains (preds_row (add_pred n i preds s) s) p
          ≡ (contains (preds_row preds s) p || (s == s && (ltb s n && i == p)))
      own = elim (Bool-cases (ltb s n)) [
        | inr out ↦ ground arith
        | inl below ↦ elim (Bool-cases (contains (preds_row preds s) i)) [
          | inl known ↦ elim (Bool-cases (i == p)) [
            | inl e ↦
                (let same : i ≡ p = ground arith in
                  let also = subst (λ (q : ℕ). contains (preds_row preds s) q ≡ true) same known in
                  ground arith)
            | inr e ↦ ground arith
          ]
          | inr fresh ↦
              (let bound : s < length preds = ground arith in
                let written =
                  ap (λ (r : List ℕ). contains r p)
                    (preds_row-set_same preds s (preds_row preds s ++ i ∷ []) bound)
                  ∙ contains-append (preds_row preds s) (i ∷ []) p in
                ground arith)
        ]
      ]

  length-add_preds :
      (ss : List ℕ) (preds : List (List ℕ)) → length (add_preds n i preds ss) ≡ length preds
  unfolding add_preds
  length-add_preds [] preds = refl
  length-add_preds (s ∷ ss) preds =
      length-add_preds ss (add_pred n i preds s) ∙ length-add_pred preds s

  row-add_preds :
      (ss : List ℕ) (preds : List (List ℕ)) (b p : ℕ)
      → length preds ≡ n
      → contains (preds_row (add_preds n i preds ss) b) p
        ≡ (contains (preds_row preds b) p || (contains ss b && (ltb b n && i == p)))
  unfolding add_preds
  row-add_preds [] preds b p h = ground arith
  row-add_preds (s ∷ ss) preds b p h =
      let rest = row-add_preds ss (add_pred n i preds s) b p (length-add_pred preds s ∙ h) in
      let here = row-add_pred preds s b p h in
      elim (Bool-cases (s == b)) [
        | inl e ↦
            (let same : s ≡ b = ground arith in
              let low = ap (λ (c : ℕ). ltb c n) same in ground arith)
        | inr e ↦ ground arith
      ]

kept-preds_from :
    (n i : ℕ) (bs : List Block) (preds : List (List ℕ)) (b p : ℕ)
    → length preds ≡ n
    → contains (preds_row preds b) p ≡ true
    → contains (preds_row (preds_from n i preds bs) b) p ≡ true
unfolding preds_from
kept-preds_from n i [] preds b p h e = e
kept-preds_from n i (c ∷ bs) preds b p h e =
    let ss = successors c.term in
    let row = row-add_preds n i ss preds b p h in
    let here : contains (preds_row (add_preds n i preds ss) b) p ≡ true = ground arith in
    kept-preds_from n (suc i) bs (add_preds n i preds ss) b p (length-add_preds n i ss preds ∙ h)
      here

edge-preds_from :
    (n i : ℕ) (bs : List Block) (preds : List (List ℕ)) (b k : ℕ) (from : Block)
    → length preds ≡ n
    → get_elem? bs k ≡ some from
    → contains (successors from.term) b ≡ true
    → b < n
    → contains (preds_row (preds_from n i preds bs) b) (i + k) ≡ true
unfolding preds_from
edge-preds_from n i [] preds b k from h at e low = ground arith
edge-preds_from n i (c ∷ bs) preds b zero from h at e low =
    let ss = successors c.term in
    let same : c ≡ from = cc in
    let names = ap (λ (d : Block). contains (successors d.term) b) same ∙ e in
    let row = row-add_preds n i ss preds b (i + 0) h in
    let here : contains (preds_row (add_preds n i preds ss) b) (i + 0) ≡ true = ground arith in
    kept-preds_from n (suc i) bs (add_preds n i preds ss) b (i + 0)
      (length-add_preds n i ss preds ∙ h) here
edge-preds_from n i (c ∷ bs) preds b (suc k) from h at e low =
    let ss = successors c.term in
    let there =
      edge-preds_from n (suc i) bs (add_preds n i preds ss) b k from
        (length-add_preds n i ss preds ∙ h) at e low in
    let shift : suc i + k ≡ i + suc k = omega arith in
    subst
      (λ (q : ℕ).
        contains (preds_row (preds_from n (suc i) (add_preds n i preds ss) bs) b) q ≡ true)
      shift there

bound-preds_from :
    (n i : ℕ) (bs : List Block) (preds : List (List ℕ)) (b p : ℕ)
    → length preds ≡ n
    → (contains (preds_row preds b) p ≡ true → p < i)
    → contains (preds_row (preds_from n i preds bs) b) p ≡ true
    → p < i + length bs
unfolding preds_from
bound-preds_from n i [] preds b p h old e = omega (arith, old e)
bound-preds_from n i (c ∷ bs) preds b p h old e =
    let ss = successors c.term in
    let row = row-add_preds n i ss preds b p h in
    let rest =
      bound-preds_from n (suc i) bs (add_preds n i preds ss) b p (length-add_preds n i ss preds ∙ h)
        (λ k. elim (Bool-cases (contains (preds_row preds b) p)) [
          | inl was ↦ omega (arith, old was)
          | inr new ↦ ground arith
        ])
        e in
    omega arith

no_preds : (n b p : ℕ) → contains (preds_row (replicate n []) b) p ≡ false
no_preds zero b p = refl
no_preds (suc n) zero p = refl
no_preds (suc n) (suc b) p = no_preds n b p

-- Every edge of the function is listed.
pub Edge-compute_preds :
    (f : Func) (p b : ℕ) → Edge f p b → contains (preds_row (compute_preds f) b) p ≡ true
unfolding compute_preds
Edge-compute_preds f p b e =
    let plain : 0 + p ≡ p = omega arith in
    subst (λ (q : ℕ). contains (preds_row (compute_preds f) b) q ≡ true) plain
      (edge-preds_from (length f.blocks) 0 f.blocks (replicate (length f.blocks) []) b p e.from
        (length-replicate (length f.blocks) []) e.at e.names e.inside)

-- What is listed is a block of the function.
pub compute_preds-bound :
    (f : Func) (b p : ℕ) → contains (preds_row (compute_preds f) b) p ≡ true → p < length f.blocks
unfolding compute_preds
compute_preds-bound f b p e =
    let none_yet = no_preds (length f.blocks) b p in
    let below =
      bound-preds_from (length f.blocks) 0 f.blocks (replicate (length f.blocks) []) b p
        (length-replicate (length f.blocks) []) (λ k. ground arith) e in
    omega arith
