-- ===== src/Midir/Text/Numerals.antt =====
-- `lex` of crates/midir/src/text.rs on the numbers, keywords and strings that its printer writes.
use mathlib.Core.List.{append_assoc, append-nil}
use bet.Prelude.{
  ℕ, ◌<◌, ◌≡◌, ◌≢◌, refl, ap, sym, subst, ◌∙◌, Bool, true, false, ◌&&◌, ◌||◌, not, none, List, [],
  ◌∷◌, ◌++◌, ◌==◌, ltb, if◌then◌else◌, All, arith, Bool-cases, inl, inr, and-left, and-right,
}
use bet.Midir.Text.{
  ident, num, str, CharClasses, quote, escape, is_ascii_digit, span, fraction, mark, token, starts,
  lex_num, in_suffix, in_ident, mark_or, round, lex, put,
}
use bet.Midir.Text.Decimal.{is_ascii_letter, Digit, Begins, decimal, decimal-Begins}
use bet.Midir.Text.Ends.{lex-quoted}
use bet.Midir.Text.Steps.{
  IsUnicode, span-append, Boundary, Leads, Lexes, Opens, lex_token, visible, round_shown, IsName,
  Lexes-name,
}

-- An ASCII word: a letter or `_`, and letters, digits and `_` behind it.
abbrev word_char : ℕ → Bool
word_char c = (is_ascii_letter c || is_ascii_digit c) || c == b'_'

abbrev word_chars : List ℕ → Bool
word_chars [] = true
word_chars (c ∷ cs) = word_char c && word_chars cs

abbrev pub is_word : List ℕ → Bool
is_word [] = false
is_word (c ∷ cs) = (is_ascii_letter c || c == b'_') && word_chars cs

-- A suffix: nothing, or a letter and a word.
abbrev pub is_suffix : List ℕ → Bool
is_suffix [] = true
is_suffix (c ∷ cs) = is_ascii_letter c && word_chars cs

fraction_none : (c : ℕ) (cs : List ℕ) → (c == b'.') ≡ false → fraction (c ∷ cs) ≡ ([], c ∷ cs)
fraction_none c [] h = refl
fraction_none c (d ∷ cs) h = rw h refl

fraction_point :
    (d : ℕ) (cs : List ℕ)
    → Digit d
    → fraction (b'.' ∷ d ∷ cs)
      ≡ (b'.' ∷ (span is_ascii_digit (d ∷ cs)).0, (span is_ascii_digit (d ∷ cs)).1)
fraction_point d cs h =
    ap
      (λ (b : Bool).
        if b
        then (b'.' ∷ (span is_ascii_digit (d ∷ cs)).0, (span is_ascii_digit (d ∷ cs)).1)
        else ([], b'.' ∷ d ∷ cs))
      h

abbrev pub sign_text : Bool → List ℕ
sign_text true = b'-' ∷ []
sign_text false = []

-- The digits behind a point, or nothing.
abbrev pub IsPart : List ℕ → Type 0
IsPart [] = Unit
IsPart (c ∷ []) = ⊥
IsPart (c ∷ d ∷ ds) = (c ≡ b'.') × All Digit (d ∷ ds)

module _ (U : CharClasses) (u : IsUnicode U) where
  ascii_ident : (c : ℕ) → word_char c ≡ true → (in_suffix U c ≡ true) × (in_ident U c ≡ true)
  ascii_ident c h =
      let small : c < 128 = ground arith in
      let e = u.ascii_alphanumeric c small in (rw e h, rw e (ground arith))

  word_chars-All :
      (s : List ℕ)
      → word_chars s ≡ true
      → All (λ c. in_suffix U c ≡ true) s × All (λ c. in_ident U c ≡ true) s
  word_chars-All [] h = (tt, tt)
  word_chars-All (c ∷ s) h =
      let a = ascii_ident c (and-left (word_char c) _ h) in
      let r = word_chars-All s (and-right (word_char c) _ h) in ((a.0, r.0), (a.1, r.1))

  pub is_word-IsName : (s : List ℕ) → is_word s ≡ true → IsName U u s
  is_word-IsName [] h = cc
  is_word-IsName (c ∷ s) h =
      let a : (is_ascii_letter c || c == b'_') ≡ true =
        and-left (is_ascii_letter c || c == b'_') _ h in
      let small : c < 128 = ground arith in
      let e = u.ascii_alphabetic c small in
      (rw e a, (word_chars-All s (and-right (is_ascii_letter c || c == b'_') _ h)).1)

  pub Lexes-word : (s : List ℕ) → is_word s ≡ true → Lexes U u s (ident s ∷ [])
  Lexes-word s h = Lexes-name U u s (is_word-IsName s h)

  -- A label, `bb` and a number.
  pub digits-word : (s : List ℕ) → All Digit s → word_chars s ≡ true
  digits-word [] h = refl
  digits-word (c ∷ s) h =
      let d = h.0 in
      let e : word_char c ≡ true = ground arith in let r = digits-word s h.1 in rw (e, r) refl

  -- A mark that ends names and numbers.
  abbrev pub ends_word : ℕ → Bool
  ends_word c = ltb c 128 && not (word_char c || (c == b'$' || c == b'.'))

  pub Boundary-char : (c : ℕ) (cs : List ℕ) → ends_word c ≡ true → Boundary U u (c ∷ cs)
  Boundary-char c cs h =
      let lt : c < 128 = ground arith in
      let e = u.ascii_alphanumeric c lt in (rw e (ground arith), fraction_none c cs (ground arith))

  pub Opens-field : (c : ℕ) (s : List ℕ) → is_ascii_letter c ≡ true → Opens U u (b'.' ∷ c ∷ s)
  Opens-field c s h rest b =
      let e = u.ascii_alphanumeric b'.' (omega arith) in
      let d : is_ascii_digit c ≡ false = ground arith in (rw e refl, rw d refl)

  pub Opens-nil : Opens U u []
  Opens-nil rest b = b

  round-Digit : (c : ℕ) (cs : List ℕ) → Digit c → round U c cs ≡ lex_num U [] (c ∷ cs)
  round-Digit c cs d =
      let small : c < 128 = ground arith in
      let v = visible U u c small (ground arith) in
      round_shown U u c cs v (ground arith)
      ∙ (let m : mark c ≡ none = ground arith in ap (mark_or U c cs) m)
      ∙ (let a : (c == b':') ≡ false = ground arith in
          let b : (c == b'-') ≡ false = ground arith in
          let q : (c == quote) ≡ false = ground arith in rw (a, b, q, d) refl)

  round_minus :
      (c : ℕ) (cs : List ℕ) → Digit c → round U b'-' (c ∷ cs) ≡ lex_num U (b'-' ∷ []) (c ∷ cs)
  round_minus c cs d =
      round_shown U u b'-' (c ∷ cs) (visible U u b'-' (omega arith) refl) refl
      ∙ (let g : (c == b'>') ≡ false = ground arith in rw (g, d) refl)

  -- The three loops of `lex_num`, on what stands before each.
  abbrev Behind : List ℕ → List ℕ → List ℕ → Type 0
  Behind part suf rest =
      (starts is_ascii_digit (part ++ (suf ++ rest)) ≡ false)
      × (fraction (part ++ (suf ++ rest)) ≡ (part, suf ++ rest))

  lex_num-pieces :
      (sign whole part suf rest : List ℕ)
      → All Digit whole
      → Behind part suf rest
      → All (λ c. in_suffix U c ≡ true) suf
      → starts (in_suffix U) rest ≡ false
      → lex_num U sign (whole ++ (part ++ (suf ++ rest)))
        ≡ token (num (sign ++ whole ++ part ++ suf)) rest
  lex_num-pieces sign whole part suf rest d b s n =
      let e = span-append is_ascii_digit whole (part ++ (suf ++ rest)) d b.0 in
      let k = span-append (in_suffix U) suf rest s n in rw (e, b.1, k) refl

  -- A boundary ends a suffix, and starts no number.
  Boundary-starts :
      (rest : List ℕ)
      → Boundary U u rest
      → (starts (in_suffix U) rest ≡ false) × (starts is_ascii_digit rest ≡ false)
  Boundary-starts [] b = (refl, refl)
  Boundary-starts (c ∷ rest) b =
      let h : in_ident U c ≡ false = b.0 in
      (
        ground (arith, h),
        elim (Bool-cases (is_ascii_digit c)) [
          | inl d ↦
              (let small : c < 128 = ground arith in
                let e = u.ascii_alphanumeric c small in
                let l : (is_ascii_letter c || is_ascii_digit c) ≡ true = ground arith in
                let a : U.is_alphanumeric c ≡ true = e ∙ l in
                let no : true ≡ false = sym (rw a refl) ∙ h in cc)
          | inr d ↦ d
        ],
      )

  lex_number :
      (neg : Bool) (whole part suf rest : List ℕ)
      → Begins Digit whole
      → Behind part suf rest
      → All (λ c. in_suffix U c ≡ true) suf
      → starts (in_suffix U) rest ≡ false
      → lex U (sign_text neg ++ (whole ++ (part ++ (suf ++ rest))))
        ≡ put U (num (sign_text neg ++ whole ++ part ++ suf)) (lex U rest)
  lex_number neg whole part suf rest w b s n =
      subst
        (λ (v : List ℕ).
          lex U (sign_text neg ++ (v ++ (part ++ (suf ++ rest))))
          ≡ put U (num (sign_text neg ++ v ++ part ++ suf)) (lex U rest))
        (sym w.2) (by_sign neg)
    where
      by_sign :
          (neg : Bool)
          → lex U (sign_text neg ++ ((w.0 ∷ w.1) ++ (part ++ (suf ++ rest))))
            ≡ put U (num (sign_text neg ++ (w.0 ∷ w.1) ++ part ++ suf)) (lex U rest)
      by_sign false =
          lex_token U u w.0 (w.1 ++ (part ++ (suf ++ rest))) rest (num ((w.0 ∷ w.1) ++ part ++ suf))
            (round-Digit w.0 (w.1 ++ (part ++ (suf ++ rest))) w.3
              ∙ lex_num-pieces [] (w.0 ∷ w.1) part suf rest (w.3, w.4) b s n)
      by_sign true =
          lex_token U u b'-' (w.0 ∷ (w.1 ++ (part ++ (suf ++ rest)))) rest
            (num ((b'-' ∷ w.0 ∷ w.1) ++ part ++ suf))
            (round_minus w.0 (w.1 ++ (part ++ (suf ++ rest))) w.3
              ∙ lex_num-pieces (b'-' ∷ []) (w.0 ∷ w.1) part suf rest (w.3, w.4) b s n)

  suffix-Behind :
      (part : List ℕ) (l : ℕ) (ls rest : List ℕ)
      → is_ascii_letter l ≡ true
      → IsPart part
      → Behind part (l ∷ ls) rest
  suffix-Behind [] l ls rest h p = (ground arith, fraction_none l (ls ++ rest) (ground arith))
  suffix-Behind (c ∷ []) l ls rest h p = absurd p
  suffix-Behind (c ∷ d ∷ ds) l ls rest h p =
      let n : is_ascii_digit l ≡ false = ground arith in
      let e = span-append is_ascii_digit (d ∷ ds) (l ∷ (ls ++ rest)) p.1 n in
      (
        rw p.0 refl,
        rw p.0 (
            fraction_point d (ds ++ l ∷ (ls ++ rest)) p.1.0
            ∙ ap (λ (r : List ℕ × List ℕ). (b'.' ∷ r.0, r.1)) e),
      )

  pub Lexes-suffixed :
      (neg : Bool) (whole part suf : List ℕ)
      → Begins Digit whole
      → IsPart part
      → is_suffix suf ≡ true
      → suf ≢ []
      → Lexes U u
          (sign_text neg ++ whole ++ part ++ suf)
          (num (sign_text neg ++ whole ++ part ++ suf) ∷ [])
  Lexes-suffixed neg whole part [] w p s ne rest b = absurd (ne refl)
  Lexes-suffixed neg whole part (l ∷ ls) w p s ne rest b =
      let h : is_ascii_letter l ≡ true = and-left (is_ascii_letter l) _ s in
      let ws : word_chars (l ∷ ls) ≡ true =
        (let k = and-right (is_ascii_letter l) _ s in
          let e : word_char l ≡ true = rw h refl in rw (e, k) refl) in
      let a = word_chars-All (l ∷ ls) ws in
      ap (lex U) (
        append_assoc (sign_text neg ++ whole ++ part) (l ∷ ls) rest
        ∙ append_assoc (sign_text neg ++ whole) part (l ∷ (ls ++ rest))
        ∙ append_assoc (sign_text neg) whole (part ++ l ∷ (ls ++ rest)))
      ∙ lex_number neg whole part (l ∷ ls) rest w (suffix-Behind part l ls rest h p) a.0
          (Boundary-starts rest b).0

  pub Lexes-decimal : (n : ℕ) → Lexes U u (decimal n) (num (decimal n) ∷ [])
  Lexes-decimal n rest b =
      let e = Boundary-starts rest b in
      let q : decimal n ++ [] ++ [] ≡ decimal n =
        append-nil (decimal n ++ []) ∙ append-nil (decimal n) in
      lex_number false (decimal n) [] [] rest (decimal-Begins n) (e.1, b.1) tt e.0
      ∙ ap (λ (t : List ℕ). put U (num t) (lex U rest)) q

  pub Leads-quoted : (s : List ℕ) → Leads U u (quote ∷ (escape s ++ quote ∷ [])) (str s ∷ [])
  Leads-quoted s rest =
      ap (λ (t : List ℕ). lex U (quote ∷ t)) (append_assoc (escape s) (quote ∷ []) rest)
      ∙ lex-quoted U u.classes s rest (visible U u quote (omega arith) refl)
