-- ===== src/Midir/Dominators.antt =====
-- `compute_dominators` of crates/midir/src/validate.rs: the matrix of which block dominates which, by
-- the iterative fixpoint. A row is the list of its `bool`s.
pub mod Rows
pub mod Fixpoint
pub mod Rounds
pub mod Sound
use bet.Prelude.{
  ℕ, zero, suc, ◌+◌, ◌*◌, Bool, true, false, ◌&&◌, ◌||◌, not, Option, none, some, List, [], ◌∷◌,
  ◌==◌, if◌then◌else◌, get_elem?, set, replicate,
}

abbrev pub Matrix : Type 0
Matrix = List (List Bool)

-- `dom[b]`; the callers stay in range.
abbrev pub row_of : Option (List Bool) → List Bool
row_of none = []
row_of (some r) = r

abbrev pub row : Matrix → ℕ → List Bool
row m b = row_of (get_elem? m b)

abbrev pub bit_of : Option Bool → Bool
bit_of none = false
bit_of (some b) = b

-- `dom[b][a]`.
abbrev pub bit : List Bool → ℕ → Bool
bit r a = bit_of (get_elem? r a)

-- `for (slot, &pd) in inter.iter_mut().zip(dom[p].iter())`, with `&&` and with `||`.
abbrev pub and_row : List Bool → List Bool → List Bool
and_row [] ys = []
and_row (x ∷ xs) [] = x ∷ xs
and_row (x ∷ xs) (y ∷ ys) = (x && y) ∷ and_row xs ys

abbrev pub or_row : List Bool → List Bool → List Bool
or_row [] ys = []
or_row (x ∷ xs) [] = x ∷ xs
or_row (x ∷ xs) (y ∷ ys) = (x || y) ∷ or_row xs ys

abbrev pub eqb : Bool → Bool → Bool
eqb true b = b
eqb false b = not b

abbrev pub row_eq : List Bool → List Bool → Bool
row_eq [] [] = true
row_eq [] (y ∷ ys) = false
row_eq (x ∷ xs) [] = false
row_eq (x ∷ xs) (y ∷ ys) = eqb x y && row_eq xs ys

abbrev pub count : List Bool → ℕ
count [] = 0
count (true ∷ xs) = suc (count xs)
count (false ∷ xs) = count xs

abbrev pub total : Matrix → ℕ
total [] = 0
total (r ∷ m) = count r + total m

-- `inter` after the loop over the predecessors.
abbrev pub intersect : Matrix → List ℕ → List Bool → List Bool
intersect m [] inter = inter
intersect m (p ∷ ps) inter = intersect m ps (and_row inter (row m p))

abbrev pub preds_row : List (List ℕ) → ℕ → List ℕ
preds_row [] b = []
preds_row (ps ∷ rest) zero = ps
preds_row (ps ∷ rest) (suc b) = preds_row rest b

abbrev pub range : ℕ → ℕ → List ℕ
range b zero = []
range b (suc k) = b ∷ range (suc b) k

module _ (n entry : ℕ) (preds : List (List ℕ)) where
  -- `new` with the intersection folded in: the row itself where there is no predecessor.
  abbrev pub joined : Matrix → List ℕ → List Bool → List Bool
  joined m [] new = new
  joined m (p ∷ ps) new = or_row new (intersect m (p ∷ ps) (replicate n true))

  unfoldable pub new_row : Matrix → ℕ → List Bool
  new_row m b = joined m (preds_row preds b) (set (replicate n false) b true)

  -- The body of `for b in 0..n`: the matrix, and whether it changed.
  unfoldable pub visit : Matrix → ℕ → Matrix × Bool
  unfolding new_row
  visit m b =
      if b == entry
      then (m, false)
      else if row_eq (new_row m b) (row m b)
      then (m, false)
      else (set m b (new_row m b), true)

  unfoldable pub sweep : List ℕ → Matrix → Matrix × Bool
  unfolding visit
  sweep [] m = (m, false)
  sweep (b ∷ bs) m = let r = visit m b in let rest = sweep bs r.0 in (rest.0, r.1 || rest.1)

  -- `while changed`, on fuel.
  unfoldable pub iterate : ℕ → Matrix → Option Matrix
  unfolding sweep
  iterate zero m = none
  iterate (suc f) m =
      let r = sweep (range 0 n) m in let rest = iterate f r.0 in if r.1 then rest else some r.0

  abbrev pub initial : Matrix
  initial = set (replicate n (replicate n true)) entry (set (replicate n false) entry true)

  -- A changed round clears a bit, so one round more than there are bits is fuel enough.
  unfoldable pub compute_dominators : Option Matrix
  unfolding iterate
  compute_dominators = iterate (suc (n * n)) initial
