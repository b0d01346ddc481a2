-- ===== src/Midir/Text/Steps.antt =====
-- `lex` of crates/midir/src/text.rs, one piece of a printed text at a time.
use mathlib.Core.List.{append_assoc}
use bet.Prelude.{
  ℕ, suc, ◌<◌, ◌≡◌, refl, ap, sym, subst, ◌∙◌, Bool, true, false, ◌&&◌, ◌||◌, not, Option, none,
  some, List, [], ◌∷◌, ◌++◌, ◌==◌, leb, ltb, length, All, arith, Bool-cases, inl, inr, ==_iff,
}
use bet.Midir.Text.{
  Tok, ident, arrow, CharClasses, quote, is_ascii_digit, span, fraction, mark, Round, skip, token,
  stop, starts, in_ident, other_token, mark_or, round, put, goes_on, lex_from, lex, Lexed,
}
use bet.Midir.Text.Decimal.{is_ascii_letter}
use bet.Midir.Text.Ends.{IsCharClasses, Takes, round-Takes, lex_from_more}

-- What the standard library says of the classes: ASCII, and that a letter is no white space.
pub record IsUnicode (U : CharClasses) : Type 0 where
  pub classes : IsCharClasses U
  pub ascii_space : (c : ℕ) → c < 128 → U.is_whitespace c ≡ ((c == 32) || (leb 9 c && leb c 13))
  pub ascii_alphabetic : (c : ℕ) → c < 128 → U.is_alphabetic c ≡ is_ascii_letter c
  pub ascii_alphanumeric :
      (c : ℕ) → c < 128 → U.is_alphanumeric c ≡ (is_ascii_letter c || is_ascii_digit c)
  pub letters_show : (c : ℕ) → U.is_alphabetic c ≡ true → U.is_whitespace c ≡ false

-- A class takes the characters that are in it.
pub span-append :
    (p : ℕ → Bool) (s rest : List ℕ)
    → All (λ c. p c ≡ true) s
    → starts p rest ≡ false
    → span p (s ++ rest) ≡ (s, rest)
span-append p [] [] h n = refl
span-append p [] (c ∷ rest) h n = let e : p c ≡ false = n in rw e refl
span-append p (c ∷ s) rest h n =
    let e = h.0 in rw e (ap (λ (r : List ℕ × List ℕ). (c ∷ r.0, r.1)) (span-append p s rest h.1 n))

module _ (U : CharClasses) (u : IsUnicode U) where
  -- No name or number goes on into the text.
  abbrev pub Boundary : List ℕ → Type 0
  Boundary rest = (starts (in_ident U) rest ≡ false) × (fraction rest ≡ ([], rest))

  abbrev pub puts : List Tok → Lexed → Lexed
  puts [] r = r
  puts (t ∷ ts) r = put U t (puts ts r)

  -- The text is lexed as the tokens, whatever follows, or whatever follows that is a boundary.
  abbrev pub Leads : List ℕ → List Tok → Type 0
  Leads s ts = (rest : List ℕ) → lex U (s ++ rest) ≡ puts ts (lex U rest)

  abbrev pub Lexes : List ℕ → List Tok → Type 0
  Lexes s ts = (rest : List ℕ) → Boundary rest → lex U (s ++ rest) ≡ puts ts (lex U rest)

  -- Text behind which a name or a number ends.
  abbrev pub Opens : List ℕ → Type 0
  Opens s = (rest : List ℕ) → Boundary rest → Boundary (s ++ rest)

  lex_step : (c : ℕ) (cs : List ℕ) → lex U (c ∷ cs) ≡ goes_on U (lex U) (round U c cs)
  unfolding lex lex_from
  lex_step c cs = go (round U c cs) (round-Takes U u.classes c cs)
    where
      go :
          (r : Round)
          → Takes (suc (length cs)) r
          → goes_on U (λ rest. lex_from U (length cs) rest) r
            ≡ goes_on U (λ rest. lex_from U (length rest) rest) r
      go (skip rest) h =
          lex_from_more U u.classes (length cs) (length rest) rest (omega arith) (omega arith)
      go (token t rest) h =
          ap (put U t)
            (lex_from_more U u.classes (length cs) (length rest) rest (omega arith) (omega arith))
      go (stop e) h = refl

  -- A round that gives a token.
  pub lex_token :
      (c : ℕ) (cs rest : List ℕ) (t : Tok)
      → round U c cs ≡ token t rest
      → lex U (c ∷ cs) ≡ put U t (lex U rest)
  lex_token c cs rest t e = lex_step c cs ∙ ap (goes_on U (lex U)) e

  pub visible :
      (c : ℕ) → c < 128 → ((c == 32) || (leb 9 c && leb c 13)) ≡ false → U.is_whitespace c ≡ false
  visible c small v = u.ascii_space c small ∙ v

  -- What follows a character that is no white space and no slash.
  pub round_shown :
      (c : ℕ) (cs : List ℕ)
      → U.is_whitespace c ≡ false
      → (c == b'/') ≡ false
      → round U c cs ≡ mark_or U c cs (mark c)
  unfolding round
  round_shown c cs w s = rw (w, s) refl

  pub Leads-nil : Leads [] []
  Leads-nil rest = refl

  -- A character that is a token by itself.
  abbrev is_mark : ℕ → Option Tok → Bool
  is_mark c none = false
  is_mark c (some t) = ltb c 128 && (not ((c == 32) || (leb 9 c && leb c 13)) && not (c == b'/'))

  pub Leads-mark :
      (c : ℕ) (t : Tok) (s : List ℕ) (ts : List Tok)
      → mark c ≡ some t
      → is_mark c (mark c) ≡ true
      → Leads s ts
      → Leads (c ∷ s) (t ∷ ts)
  Leads-mark c t s ts e k h rest =
      let k' : is_mark c (some t) ≡ true = ap (is_mark c) (sym e) ∙ k in
      let small : c < 128 = ground arith in
      let v : ((c == 32) || (leb 9 c && leb c 13)) ≡ false = ground arith in
      let n : (c == b'/') ≡ false = ground arith in
      lex_token c (s ++ rest) (s ++ rest) t
        (round_shown c (s ++ rest) (visible c small v) n ∙ ap (mark_or U c (s ++ rest)) e)
      ∙ ap (put U t) (h rest)

  pub Leads-space : (s : List ℕ) (ts : List Tok) → Leads s ts → Leads (32 ∷ s) ts
  unfolding round
  Leads-space s ts h rest =
      let w = u.ascii_space 32 (omega arith) in
      lex_step 32 (s ++ rest)
      ∙ ap (goes_on U (lex U)) (let e : round U 32 (s ++ rest) ≡ skip (s ++ rest) = rw w refl in e)
      ∙ h rest

  pub Leads-arrow : (s : List ℕ) (ts : List Tok) → Leads s ts → Leads (45 ∷ 62 ∷ s) (arrow ∷ ts)
  Leads-arrow s ts h rest =
      lex_token 45 (62 ∷ (s ++ rest)) (s ++ rest) arrow
        (round_shown 45 (62 ∷ (s ++ rest)) (visible 45 (omega arith) refl) refl)
      ∙ ap (put U arrow) (h rest)

  puts-append : (ts us : List Tok) (r : Lexed) → puts (ts ++ us) r ≡ puts ts (puts us r)
  puts-append [] us r = refl
  puts-append (t ∷ ts) us r = ap (put U t) (puts-append ts us r)

  pub Lexes-append :
      (s t : List ℕ) (ts us : List Tok)
      → Lexes s ts
      → Lexes t us
      → Opens t
      → Lexes (s ++ t) (ts ++ us)
  Lexes-append s t ts us h k o rest b =
      ap (lex U) (append_assoc s t rest)
      ∙ h (t ++ rest) (o rest b)
      ∙ ap (puts ts) (k rest b)
      ∙ sym (puts-append ts us (lex U rest))

  pub Lexes-lead :
      (s t : List ℕ) (ts us : List Tok) → Leads s ts → Lexes t us → Lexes (s ++ t) (ts ++ us)
  Lexes-lead s t ts us h k rest b =
      ap (lex U) (append_assoc s t rest)
      ∙ h (t ++ rest)
      ∙ ap (puts ts) (k rest b)
      ∙ sym (puts-append ts us (lex U rest))

  -- A name begins with a letter or `_`, and goes on with letters, digits, `_` and `$`.
  abbrev pub IsName : List ℕ → Type 0
  IsName [] = ⊥
  IsName (c ∷ cs) = ((U.is_alphabetic c || c == b'_') ≡ true) × All (λ d. in_ident U d ≡ true) cs

  -- Such a character is none of the others in ASCII.
  apart :
      (c d : ℕ)
      → (U.is_alphabetic c || c == b'_') ≡ true
      → d < 128
      → (is_ascii_letter d || d == b'_') ≡ false
      → (c == d) ≡ false
  apart c d a small n = elim (Bool-cases (c == d)) [
    | inl e ↦
        (let same : c ≡ d = (==_iff c d).0 e in
          let a' : (U.is_alphabetic d || d == b'_') ≡ true =
            subst (λ (x : ℕ). (U.is_alphabetic x || x == b'_') ≡ true) same a in
          let l = u.ascii_alphabetic d small in
          let no : false ≡ true = sym n ∙ ap (λ (b : Bool). b || d == b'_') (sym l) ∙ a' in cc)
    | inr e ↦ e
  ]

  name_no_digit : (c : ℕ) → (U.is_alphabetic c || c == b'_') ≡ true → is_ascii_digit c ≡ false
  name_no_digit c a = elim (Bool-cases (is_ascii_digit c)) [
    | inl d ↦
        (let small : c < 128 = ground arith in
          let l = u.ascii_alphabetic c small in
          let n : (is_ascii_letter c || c == b'_') ≡ false = ground arith in
          let no : false ≡ true = sym n ∙ ap (λ (b : Bool). b || c == b'_') (sym l) ∙ a in cc)
    | inr d ↦ d
  ]

  name_shows : (c : ℕ) → (U.is_alphabetic c || c == b'_') ≡ true → U.is_whitespace c ≡ false
  name_shows c a = elim (Bool-cases (U.is_alphabetic c)) [
    | inl l ↦ u.letters_show c l
    | inr l ↦
        (let e : c ≡ b'_' = (==_iff c b'_').0 (ap (λ (b : Bool). b || c == b'_') (sym l) ∙ a) in
          rw e (visible b'_' (omega arith) refl))
  ]

  name_in_ident : (c : ℕ) → (U.is_alphabetic c || c == b'_') ≡ true → in_ident U c ≡ true
  name_in_ident c a = elim (Bool-cases (U.is_alphabetic c)) [
    | inl l ↦ (let e = u.classes.alphabetic_counts c l in rw e refl)
    | inr l ↦
        (let e : c ≡ b'_' = (==_iff c b'_').0 (ap (λ (b : Bool). b || c == b'_') (sym l) ∙ a) in
          rw e (let n = u.ascii_alphanumeric b'_' (omega arith) in rw n refl))
  ]

  name_no_mark : (c : ℕ) → (U.is_alphabetic c || c == b'_') ≡ true → mark c ≡ none
  name_no_mark c a =
      let not_ = λ (d : ℕ) (small : d < 128) (n : (is_ascii_letter d || d == b'_') ≡ false).
        apart c d a small n in
      rw
        (
          not_ b'(' (omega arith) refl,
          not_ b')' (omega arith) refl,
          not_ b'{' (omega arith) refl,
          not_ b'}' (omega arith) refl,
          not_ b'[' (omega arith) refl,
          not_ b']' (omega arith) refl,
          not_ b',' (omega arith) refl,
          not_ b';' (omega arith) refl,
          not_ b'%' (omega arith) refl,
          not_ b'@' (omega arith) refl,
          not_ b'=' (omega arith) refl,
          not_ b'.' (omega arith) refl,
        )
        refl

  name_token :
      (c : ℕ) (cs : List ℕ)
      → (U.is_alphabetic c || c == b'_') ≡ true
      → other_token U c cs
        ≡ token (ident (span (in_ident U) (c ∷ cs)).0) (span (in_ident U) (c ∷ cs)).1
  name_token c cs a =
      rw
        (
          apart c b':' a (omega arith) refl,
          apart c b'-' a (omega arith) refl,
          apart c quote a (omega arith) refl,
          name_no_digit c a,
          a,
        )
        refl

  pub Lexes-name : (s : List ℕ) → IsName s → Lexes s (ident s ∷ [])
  Lexes-name [] h rest b = absurd h
  Lexes-name (c ∷ cs) h rest b =
      let e = span-append (in_ident U) (c ∷ cs) rest (name_in_ident c h.0, h.1) b.0 in
      lex_token c (cs ++ rest) rest (ident (c ∷ cs)) (
        round_shown c (cs ++ rest) (name_shows c h.0) (apart c b'/' h.0 (omega arith) refl)
        ∙ ap (mark_or U c (cs ++ rest)) (name_no_mark c h.0)
        ∙ name_token c (cs ++ rest) h.0
        ∙ ap (λ (r : List ℕ × List ℕ). token (ident r.0) r.1) e)
