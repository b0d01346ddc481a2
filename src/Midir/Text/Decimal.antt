-- ===== src/Midir/Text/Decimal.antt =====
-- The decimal numbers of the textual IR: `Display` and `str::parse` of the standard library for the
-- integers that crates/midir/src/text.rs prints and parses, and `split_num`.
use bet.Prelude.{
  ℕ, zero, suc, ◌+◌, ◌-◌, ◌*◌, ◌/◌, ◌%◌, ◌^◌, ◌<◌, ◌≡◌, refl, ap, sym, subst, ◌∙◌, Bool, true,
  false, ◌&&◌, ◌||◌, Option, none, some, List, [], ◌∷◌, ◌++◌, ◌==◌, ltb, leb, if◌then◌else◌, All,
  arith, Bool-cases, inl, inr, ltb-false, append-All, lt→ltb,
}
use bet.Midir.Ir.{ℤ, pos, negsuc}
use bet.Midir.Text.{is_ascii_digit}

-- The digits of `n`, with fuel above `n`.
unfoldable pub digits : ℕ → ℕ → List ℕ
digits zero n = []
digits (suc f) n =
    let front = digits f (n / 10) in
    if ltb n 10 then (b'0' + n) ∷ [] else front ++ ((b'0' + n % 10) ∷ [])

unfoldable pub decimal : ℕ → List ℕ
unfolding digits
decimal n = digits (suc n) n

unfoldable pub decimal_int : ℤ → List ℕ
unfolding decimal
decimal_int (pos n) = decimal n
decimal_int (negsuc n) = b'-' ∷ decimal (suc n)

unfoldable pub from_digits : ℕ → List ℕ → Option ℕ
from_digits acc [] = some acc
from_digits acc (c ∷ cs) =
    let rest = from_digits (acc * 10 + (c - b'0')) cs in if is_ascii_digit c then rest else none

abbrev pub some_digits : List ℕ → Option ℕ
some_digits [] = none
some_digits (c ∷ cs) = from_digits 0 (c ∷ cs)

abbrev pub below : ℕ → Option ℕ → Option ℕ
below b none = none
below b (some n) = if ltb n b then some n else none

-- `parse` at an unsigned type of `w` bits.
unfoldable pub parse_unsigned : ℕ → List ℕ → Option ℕ
unfolding from_digits
parse_unsigned w [] = none
parse_unsigned w (c ∷ cs) =
    if c == b'+' then below (2 ^ w) (some_digits cs) else below (2 ^ w) (some_digits (c ∷ cs))

abbrev pub negated : ℕ → ℤ
negated zero = pos 0
negated (suc n) = negsuc n

abbrev pub as_positive : Option ℕ → Option ℤ
as_positive none = none
as_positive (some n) = some (pos n)

abbrev pub as_negative : Option ℕ → Option ℤ
as_negative none = none
as_negative (some n) = some (negated n)

-- `parse` at `i128`.
unfoldable pub parse_i128 : List ℕ → Option ℤ
unfolding parse_unsigned
parse_i128 [] = none
parse_i128 (c ∷ cs) =
    if c == b'-'
    then as_negative (below (2 ^ 127 + 1) (some_digits cs))
    else as_positive (parse_unsigned 127 (c ∷ cs))

abbrev pub is_ascii_letter : ℕ → Bool
is_ascii_letter c = (leb b'a' c && leb c b'z') || (leb b'A' c && leb c b'Z')

-- `split_num`.
unfoldable pub split_num : List ℕ → List ℕ × Option (List ℕ)
split_num [] = ([], none)
split_num (c ∷ cs) =
    let rest = split_num cs in
    if is_ascii_letter c then ([], some (c ∷ cs)) else (c ∷ rest.0, rest.1)

-- The digits of a number.
abbrev pub Digit : ℕ → Type 0
Digit c = is_ascii_digit c ≡ true

digits-Digit : (f n : ℕ) → All Digit (digits f n)
unfolding digits
digits-Digit zero n = tt
digits-Digit (suc f) n = elim (Bool-cases (ltb n 10)) [
  | inl small ↦ rw small (ground arith, tt)
  | inr big ↦ rw big (append-All Digit _ _ (digits-Digit f (n / 10)) (ground arith, tt))
]

pub decimal-Digit : (n : ℕ) → All Digit (decimal n)
unfolding decimal
decimal-Digit n = digits-Digit (suc n) n

-- A decimal has a first digit.
abbrev pub Begins : (ℕ → Type 0) → List ℕ → Type 0
Begins P s = (c : ℕ) × (cs : List ℕ) × (s ≡ c ∷ cs) × P c × All P cs

pub begin_append : (P : ℕ → Type 0) (s t : List ℕ) → Begins P s → All P t → Begins P (s ++ t)
begin_append P s t b h = (b.0, b.1 ++ t, rw b.2 refl, b.3, append-All P b.1 t b.4 h)

digits-Begins : (f n : ℕ) → Begins Digit (digits (suc f) n)
unfolding digits
digits-Begins zero n = elim (Bool-cases (ltb n 10)) [
  | inl small ↦ rw small (b'0' + n, [], refl, ground arith, tt)
  | inr big ↦ rw big (b'0' + n % 10, [], refl, ground arith, tt)
]
digits-Begins (suc f) n = elim (Bool-cases (ltb n 10)) [
  | inl small ↦ rw small (b'0' + n, [], refl, ground arith, tt)
  | inr big ↦
      rw big (
        begin_append Digit (digits (suc f) (n / 10)) _ (digits-Begins f (n / 10))
          (ground arith, tt))
]

pub decimal-Begins : (n : ℕ) → Begins Digit (decimal n)
unfolding decimal
decimal-Begins n = digits-Begins n n

abbrev then_digits : List ℕ → Option ℕ → Option ℕ
then_digits ys none = none
then_digits ys (some a) = from_digits a ys

from_digits-append :
    (acc : ℕ) (xs ys : List ℕ) → from_digits acc (xs ++ ys) ≡ then_digits ys (from_digits acc xs)
unfolding from_digits
from_digits-append acc [] ys = refl
from_digits-append acc (c ∷ xs) ys = elim (Bool-cases (is_ascii_digit c)) [
  | inl d ↦ rw d (from_digits-append (acc * 10 + (c - b'0')) xs ys)
  | inr d ↦ rw d refl
]

from_digits-digits : (f n : ℕ) → n < f → from_digits 0 (digits f n) ≡ some n
unfolding digits from_digits
from_digits-digits zero n h = let no : ⊥ = omega arith in elim no [ ]
from_digits-digits (suc f) n h = elim (Bool-cases (ltb n 10)) [
  | inl small ↦ rw small (ground arith)
  | inr big ↦
      (let ge = ltb-false n 10 big in
        let ih = from_digits-digits f (n / 10) (omega arith) in
        rw big
          (from_digits-append 0 (digits f (n / 10)) ((b'0' + n % 10) ∷ []) ∙ rw ih (ground arith)))
]

some_digits-decimal : (n : ℕ) → some_digits (decimal n) ≡ some n
unfolding decimal
some_digits-decimal n =
    let b = decimal-Begins n in
    (subst (λ (s : List ℕ). some_digits s ≡ from_digits 0 s) (sym b.2) refl)
    ∙ from_digits-digits (suc n) n (omega arith)

below_some : (b n : ℕ) → n < b → below b (some n) ≡ some n
below_some b n h = let t = lt→ltb n b h in rw t refl

parse_unsigned-Digit :
    (w n c : ℕ) (cs : List ℕ)
    → n < 2 ^ w
    → Digit c
    → some_digits (c ∷ cs) ≡ some n
    → parse_unsigned w (c ∷ cs) ≡ some n
unfolding parse_unsigned
parse_unsigned-Digit w n c cs h d e =
    let p : (c == b'+') ≡ false = ground arith in rw p (rw e (below_some (2 ^ w) n h))

pub parse_unsigned-decimal : (w n : ℕ) → n < 2 ^ w → parse_unsigned w (decimal n) ≡ some n
parse_unsigned-decimal w n h =
    let b = decimal-Begins n in
    ap (parse_unsigned w) b.2
    ∙ parse_unsigned-Digit w n b.0 b.1 h b.3 (ap some_digits (sym b.2) ∙ some_digits-decimal n)

parse_i128-Digit :
    (n c : ℕ) (cs : List ℕ)
    → Digit c
    → parse_unsigned 127 (c ∷ cs) ≡ some n
    → parse_i128 (c ∷ cs) ≡ some (pos n)
unfolding parse_i128
parse_i128-Digit n c cs d e = let p : (c == b'-') ≡ false = ground arith in rw p (rw e refl)

-- What an `i128` holds.
abbrev pub IsI128 : ℤ → Type 0
IsI128 (pos n) = n < 2 ^ 127
IsI128 (negsuc n) = n < 2 ^ 127

pub parse_i128-decimal_int : (v : ℤ) → IsI128 v → parse_i128 (decimal_int v) ≡ some v
unfolding decimal_int
parse_i128-decimal_int (pos n) h =
    let b = decimal-Begins n in
    ap parse_i128 b.2
    ∙ parse_i128-Digit n b.0 b.1 b.3
        (ap (parse_unsigned 127) (sym b.2) ∙ parse_unsigned-decimal 127 n h)
parse_i128-decimal_int (negsuc n) h =
    unfold parse_i128 in
    ap (λ (o : Option ℕ). as_negative (below (2 ^ 127 + 1) o)) (some_digits-decimal (suc n))
    ∙ ap as_negative (below_some (2 ^ 127 + 1) (suc n) (omega arith))

-- A text without letters before one that starts with a letter, or before nothing.
abbrev pub NoLetter : ℕ → Type 0
NoLetter c = is_ascii_letter c ≡ false

pub Digit→NoLetter : (s : List ℕ) → All Digit s → All NoLetter s
Digit→NoLetter [] h = tt
Digit→NoLetter (c ∷ s) h = (let d = h.0 in ground arith, Digit→NoLetter s h.1)

pub split_num-bare : (s : List ℕ) → All NoLetter s → split_num s ≡ (s, none)
unfolding split_num
split_num-bare [] h = refl
split_num-bare (c ∷ s) h =
    let e = h.0 in
    rw e (ap (λ (r : List ℕ × Option (List ℕ)). (c ∷ r.0, r.1)) (split_num-bare s h.1))

pub split_num-suffix :
    (s : List ℕ) (c : ℕ) (cs : List ℕ)
    → All NoLetter s
    → is_ascii_letter c ≡ true
    → split_num (s ++ c ∷ cs) ≡ (s, some (c ∷ cs))
unfolding split_num
split_num-suffix [] c cs h l = rw l refl
split_num-suffix (d ∷ s) c cs h l =
    let e = h.0 in
    rw e (ap (λ (r : List ℕ × Option (List ℕ)). (d ∷ r.0, r.1)) (split_num-suffix s c cs h.1 l))
