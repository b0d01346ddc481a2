-- ===== src/Midir/Dominators/Rows.antt =====
-- Rows of the dominator matrix ordered by inclusion; the row operations keep the order, and a row
-- that shrinks has fewer bits.
use bet.Prelude.{
  ℕ, zero, suc, ◌≤◌, ◌<◌, ◌≡◌, refl, ap, ◌∙◌, Bool, true, false, ◌&&◌, ◌||◌, List, [], ◌∷◌, length,
  replicate, arith,
}
use bet.Midir.Dominators.{Matrix, row, and_row, or_row, row_eq, count, intersect}

abbrev pub Under : List Bool → List Bool → Type 0
Under [] [] = Unit
Under [] (y ∷ ys) = ⊥
Under (x ∷ xs) [] = ⊥
Under (x ∷ xs) (y ∷ ys) = ((x ≡ true) → y ≡ true) × Under xs ys

pub Under-refl : (xs : List Bool) → Under xs xs
Under-refl [] = tt
Under-refl (x ∷ xs) = (λ h. h, Under-refl xs)

pub Under-trans : (xs ys zs : List Bool) → Under xs ys → Under ys zs → Under xs zs
Under-trans [] [] [] h k = tt
Under-trans [] [] (z ∷ zs) h k = k
Under-trans [] (y ∷ ys) zs h k = elim h [ ]
Under-trans (x ∷ xs) [] zs h k = elim h [ ]
Under-trans (x ∷ xs) (y ∷ ys) [] h k = k
Under-trans (x ∷ xs) (y ∷ ys) (z ∷ zs) h k = (λ e. k.0 (h.0 e), Under-trans xs ys zs h.1 k.1)

pub Under-length : (xs ys : List Bool) → Under xs ys → length xs ≡ length ys
Under-length [] [] h = refl
Under-length [] (y ∷ ys) h = elim h [ ]
Under-length (x ∷ xs) [] h = elim h [ ]
Under-length (x ∷ xs) (y ∷ ys) h = ap suc (Under-length xs ys h.1)

pub Under-full : (xs : List Bool) (n : ℕ) → length xs ≡ n → Under xs (replicate n true)
Under-full [] zero h = tt
Under-full [] (suc n) h = omega arith
Under-full (x ∷ xs) zero h = omega arith
Under-full (x ∷ xs) (suc n) h = (λ e. refl, Under-full xs n (omega arith))

pub and_row_mono :
    (xs xs' ys ys' : List Bool)
    → Under xs xs'
    → Under ys ys'
    → Under (and_row xs ys) (and_row xs' ys')
and_row_mono [] [] ys ys' h k = tt
and_row_mono [] (x' ∷ xs') ys ys' h k = elim h [ ]
and_row_mono (x ∷ xs) [] ys ys' h k = elim h [ ]
and_row_mono (x ∷ xs) (x' ∷ xs') [] [] h k = h
and_row_mono (x ∷ xs) (x' ∷ xs') [] (y' ∷ ys') h k = elim k [ ]
and_row_mono (x ∷ xs) (x' ∷ xs') (y ∷ ys) [] h k = elim k [ ]
and_row_mono (x ∷ xs) (x' ∷ xs') (y ∷ ys) (y' ∷ ys') h k =
    (λ e. both x y x' y' h.0 k.0 e, and_row_mono xs xs' ys ys' h.1 k.1)
  where
    both :
        (a b c d : Bool)
        → ((a ≡ true) → c ≡ true)
        → ((b ≡ true) → d ≡ true)
        → (a && b) ≡ true
        → (c && d) ≡ true
    both a b c d h k e = ground arith

pub or_row_mono : (xs ys ys' : List Bool) → Under ys ys' → Under (or_row xs ys) (or_row xs ys')
or_row_mono [] ys ys' k = tt
or_row_mono (x ∷ xs) [] [] k = Under-refl (x ∷ xs)
or_row_mono (x ∷ xs) [] (y' ∷ ys') k = elim k [ ]
or_row_mono (x ∷ xs) (y ∷ ys) [] k = elim k [ ]
or_row_mono (x ∷ xs) (y ∷ ys) (y' ∷ ys') k = (λ e. either x y y' k.0 e, or_row_mono xs ys ys' k.1)
  where
    either : (a b d : Bool) → ((b ≡ true) → d ≡ true) → (a || b) ≡ true → (a || d) ≡ true
    either a b d k e = ground arith

pub length-and_row : (xs ys : List Bool) → length (and_row xs ys) ≡ length xs
length-and_row [] ys = refl
length-and_row (x ∷ xs) [] = refl
length-and_row (x ∷ xs) (y ∷ ys) = ap suc (length-and_row xs ys)

pub length-or_row : (xs ys : List Bool) → length (or_row xs ys) ≡ length xs
length-or_row [] ys = refl
length-or_row (x ∷ xs) [] = refl
length-or_row (x ∷ xs) (y ∷ ys) = ap suc (length-or_row xs ys)

pub length-intersect :
    (m : Matrix) (ps : List ℕ) (xs : List Bool) → length (intersect m ps xs) ≡ length xs
length-intersect m [] xs = refl
length-intersect m (p ∷ ps) xs =
    length-intersect m ps (and_row xs (row m p)) ∙ length-and_row xs (row m p)

pub row_eq_lem : (xs ys : List Bool) → row_eq xs ys ≡ true → xs ≡ ys
row_eq_lem [] [] h = refl
row_eq_lem [] (y ∷ ys) h = ground arith
row_eq_lem (x ∷ xs) [] h = ground arith
row_eq_lem (true ∷ xs) (true ∷ ys) h = ap (λ (t : List Bool). true ∷ t) (row_eq_lem xs ys h)
row_eq_lem (true ∷ xs) (false ∷ ys) h = ground arith
row_eq_lem (false ∷ xs) (true ∷ ys) h = ground arith
row_eq_lem (false ∷ xs) (false ∷ ys) h = ap (λ (t : List Bool). false ∷ t) (row_eq_lem xs ys h)

pub Under-count : (xs ys : List Bool) → Under xs ys → count xs ≤ count ys
Under-count [] [] h = omega arith
Under-count [] (y ∷ ys) h = elim h [ ]
Under-count (x ∷ xs) [] h = elim h [ ]
Under-count (true ∷ xs) (true ∷ ys) h = omega (arith, Under-count xs ys h.1)
Under-count (true ∷ xs) (false ∷ ys) h = let e = h.0 refl in ground arith
Under-count (false ∷ xs) (true ∷ ys) h = omega (arith, Under-count xs ys h.1)
Under-count (false ∷ xs) (false ∷ ys) h = Under-count xs ys h.1

-- A row that is included and is not the same has fewer bits.
pub shrinks : (xs ys : List Bool) → Under xs ys → row_eq xs ys ≡ false → count xs < count ys
shrinks [] [] h e = ground arith
shrinks [] (y ∷ ys) h e = elim h [ ]
shrinks (x ∷ xs) [] h e = elim h [ ]
shrinks (true ∷ xs) (true ∷ ys) h e = omega (arith, shrinks xs ys h.1 e)
shrinks (true ∷ xs) (false ∷ ys) h e = let f = h.0 refl in ground arith
shrinks (false ∷ xs) (true ∷ ys) h e = omega (arith, Under-count xs ys h.1)
shrinks (false ∷ xs) (false ∷ ys) h e = shrinks xs ys h.1 e
