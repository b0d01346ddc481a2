-- ===== src/Midir/Text/Ends.antt =====
-- `lex` ends: every round takes a character, so a text's length is fuel enough. A quoted text is one
-- token, and the lexer goes on behind it.
use bet.Prelude.{
  ℕ, zero, suc, ◌≤◌, ◌<◌, ◌≡◌, ◌⊎◌, inl, inr, refl, ap, ◌∙◌, Bool, true, false, ◌&&◌, ◌||◌, not,
  Option, none, some, List, [], ◌∷◌, ◌++◌, ◌==◌, length, if◌then◌else◌, if-either, arith,
  length-append,
}
use bet.Midir.Text.{
  Tok, LexError, CharClasses, quote, backslash, is_ascii_digit, escape, span, fraction, Read, read,
  read_fails, pushed, escaped, lex_str, mark, Round, skip, token, stop, starts, behind_one,
  str_token, Lexed, lexed, lex_fails, in_suffix, in_ident, lex_num, other_token, mark_or, round,
  put, goes_on, lex_from, lex, decode_escape, str, unterminated_escape, unterminated_string,
}
use bet.Midir.Text.Quoted.{lex_str-escape}

-- What the standard library says of its classes: an alphabetic character is alphanumeric.
pub record IsCharClasses (U : CharClasses) : Type 0 where
  pub alphabetic_counts : (c : ℕ) → U.is_alphabetic c ≡ true → U.is_alphanumeric c ≡ true

span-length : (p : ℕ → Bool) (cs : List ℕ) → length (span p cs).1 ≤ length cs
span-length p [] = omega arith
span-length p (c ∷ cs) =
    let ih = span-length p cs in
    if-either (λ (r : List ℕ × List ℕ). length r.1 ≤ length (c ∷ cs)) (p c)
      (c ∷ (span p cs).0, (span p cs).1) ([], c ∷ cs) (omega arith) (omega arith)

-- A class that the first character is in takes it.
span-takes :
    (p : ℕ → Bool) (c : ℕ) (cs : List ℕ) → p c ≡ true → length (span p (c ∷ cs)).1 < length (c ∷ cs)
span-takes p c cs h = let l = span-length p cs in rw h (omega arith)

fraction-length : (cs : List ℕ) → length (fraction cs).1 ≤ length cs
fraction-length [] = omega arith
fraction-length (c ∷ []) = omega arith
fraction-length (c ∷ d ∷ cs) =
    let l = span-length is_ascii_digit (d ∷ cs) in
    if-either (λ (r : List ℕ × List ℕ). length r.1 ≤ length (c ∷ d ∷ cs))
      ((c == b'.') && is_ascii_digit d)
      (c ∷ (span is_ascii_digit (d ∷ cs)).0, (span is_ascii_digit (d ∷ cs)).1) ([], c ∷ d ∷ cs)
      (omega arith) (omega arith)

-- A text that is read leaves less than there was.
abbrev Shorter : ℕ → Read → Type 0
Shorter n (read text rest) = length rest < n
Shorter n (read_fails e) = Unit

pushed-Shorter : (n c : ℕ) (r : Read) → Shorter n r → Shorter (suc n) (pushed c r)
pushed-Shorter n c (read text rest) h = omega arith
pushed-Shorter n c (read_fails e) h = tt

Shorter-weaken : (n : ℕ) (r : Read) → Shorter n r → Shorter (suc n) r
Shorter-weaken n (read text rest) h = omega arith
Shorter-weaken n (read_fails e) h = tt

escaped-Shorter :
    (n e : ℕ) (o : Option ℕ) (r : Read) → Shorter n r → Shorter (suc n) (escaped e o r)
escaped-Shorter n e none r h = tt
escaped-Shorter n e (some c) r h = pushed-Shorter n c r h

lex_str-Shorter : (cs : List ℕ) → Shorter (length cs) (lex_str cs)
unfolding lex_str
lex_str-Shorter [] = tt
lex_str-Shorter (c ∷ []) =
    if-either (Shorter (length (c ∷ []))) (c == quote) (read [] []) _ (omega arith) (
      if-either (Shorter (length (c ∷ []))) (c == backslash) (read_fails unterminated_escape)
        (read_fails unterminated_string) tt tt)
lex_str-Shorter (c ∷ e ∷ cs) =
    let a = lex_str-Shorter cs in
    let b = lex_str-Shorter (e ∷ cs) in
    if-either (Shorter (length (c ∷ e ∷ cs))) (c == quote) (read [] (e ∷ cs)) _ (omega arith) (
      if-either (Shorter (length (c ∷ e ∷ cs))) (c == backslash)
        (escaped e (decode_escape e) (lex_str cs)) (pushed c (lex_str (e ∷ cs)))
        (Shorter-weaken (suc (length cs)) (escaped e (decode_escape e) (lex_str cs))
          (escaped-Shorter (length cs) e (decode_escape e) (lex_str cs) a))
        (pushed-Shorter (length (e ∷ cs)) c (lex_str (e ∷ cs)) b))

-- A round leaves less than `n` characters.
abbrev pub Takes : ℕ → Round → Type 0
Takes n (skip rest) = length rest < n
Takes n (token t rest) = length rest < n
Takes n (stop e) = Unit

str_token-Takes : (n : ℕ) (r : Read) → Shorter n r → Takes (suc n) (str_token r)
str_token-Takes n (read text rest) h = omega arith
str_token-Takes n (read_fails e) h = tt

behind_one-length : (cs : List ℕ) → length (behind_one cs) ≤ length cs
behind_one-length [] = omega arith
behind_one-length (c ∷ cs) = omega arith

module _ (U : CharClasses) (u : IsCharClasses U) where
  lex_num-Takes :
      (n : ℕ) (sign cs : List ℕ)
      → length (span is_ascii_digit cs).1 < n
      → Takes n (lex_num U sign cs)
  lex_num-Takes n sign cs h =
      let l = fraction-length (span is_ascii_digit cs).1 in
      let k = span-length (in_suffix U) (fraction (span is_ascii_digit cs).1).1 in omega arith

  ident-Takes :
      (c : ℕ) (cs : List ℕ)
      → (U.is_alphabetic c || c == b'_') ≡ true
      → length (span (in_ident U) (c ∷ cs)).1 < length (c ∷ cs)
  ident-Takes c cs h = span-takes (in_ident U) c cs (go (U.is_alphabetic c) refl)
    where
      go : (b : Bool) → U.is_alphabetic c ≡ b → in_ident U c ≡ true
      go true e = let a = u.alphabetic_counts c e in rw a refl
      go false e = ground (arith, h, e)

  -- A test that decides, with what it says.
  decides {ℓ} :
      (P : Round → Type ℓ) (b : Bool) (x y : Round)
      → ((b ≡ true) → P x)
      → ((b ≡ false) → P y)
      → P (if b then x else y)
  decides P true x y p q = p refl
  decides P false x y p q = q refl

  other_token-Takes : (c : ℕ) (cs : List ℕ) → Takes (length (c ∷ cs)) (other_token U c cs)
  other_token-Takes c cs =
      let P = Takes (length (c ∷ cs)) in
      let one = behind_one-length cs in
      decides P (c == b':') _ _
        (λ _. decides P (starts (λ d. d == b':') cs) _ _ (λ _. omega arith) (λ _. omega arith))
        (λ _.
          decides P (c == b'-') _ _
            (λ _.
              decides P (starts (λ d. d == b'>') cs) _ _ (λ _. omega arith)
                (λ _.
                  decides P (starts is_ascii_digit cs) _ _
                    (λ _.
                      lex_num-Takes (length (c ∷ cs)) (c ∷ []) cs
                        (let l = span-length is_ascii_digit cs in omega arith))
                    (λ _. tt)))
            (λ _.
              decides P (c == quote) _ _
                (λ _. str_token-Takes (length cs) (lex_str cs) (lex_str-Shorter cs))
                (λ _.
                  decides P (is_ascii_digit c) _ _
                    (λ d.
                      lex_num-Takes (length (c ∷ cs)) [] (c ∷ cs)
                        (span-takes is_ascii_digit c cs d))
                    (λ _.
                      decides P (U.is_alphabetic c || c == b'_') _ _ (λ a. ident-Takes c cs a)
                        (λ _. tt)))))

  mark_or-Takes :
      (c : ℕ) (cs : List ℕ) (o : Option Tok) → Takes (length (c ∷ cs)) (mark_or U c cs o)
  mark_or-Takes c cs none = other_token-Takes c cs
  mark_or-Takes c cs (some t) = omega arith

  pub round-Takes : (c : ℕ) (cs : List ℕ) → Takes (length (c ∷ cs)) (round U c cs)
  unfolding round
  round-Takes c cs =
      let P = Takes (length (c ∷ cs)) in
      decides P (U.is_whitespace c) _ _ (λ _. omega arith)
        (λ _.
          decides P ((c == b'/') && starts (λ d. d == b'/') cs) _ _
            (λ _. let l = span-length (λ d. not (d == 10)) cs in omega arith)
            (λ _. mark_or-Takes c cs (mark c)))

  -- More fuel than characters changes nothing.
  pub lex_from_more :
      (f g : ℕ) (cs : List ℕ) → length cs ≤ f → length cs ≤ g → lex_from U f cs ≡ lex_from U g cs
  unfolding lex_from
  lex_from_more f g [] p q = refl
  lex_from_more zero g (c ∷ cs) p q = let no : ⊥ = omega arith in elim no [ ]
  lex_from_more (suc f) zero (c ∷ cs) p q = let no : ⊥ = omega arith in elim no [ ]
  lex_from_more (suc f) (suc g) (c ∷ cs) p q =
      go (round U c cs) (round-Takes c cs) (lex_from_more f g)
    where
      go :
          (r : Round)
          → Takes (length (c ∷ cs)) r
          → ((rest : List ℕ)
              → length rest ≤ f
              → length rest ≤ g
              → lex_from U f rest ≡ lex_from U g rest)
          → goes_on U (λ rest. lex_from U f rest) r ≡ goes_on U (λ rest. lex_from U g rest) r
      go (skip rest) h k = k rest (omega arith) (omega arith)
      go (token t rest) h k = ap (put U t) (k rest (omega arith) (omega arith))
      go (stop e) h k = refl

  abbrev pub Ended : Lexed → Type 0
  Ended r = ((ts : List Tok) × (r ≡ lexed ts)) ⊎ ((e : LexError) × (r ≡ lex_fails e))

  put-Ended : (t : Tok) (r : Lexed) → Ended r → Ended (put U t r)
  put-Ended t r (inl h) = inl (t ∷ h.0, ap (put U t) h.1)
  put-Ended t r (inr h) = inr (h.0, ap (put U t) h.1)

  lex_from-Ended : (f : ℕ) (cs : List ℕ) → length cs ≤ f → Ended (lex_from U f cs)
  unfolding lex_from
  lex_from-Ended f [] p = inl ([], refl)
  lex_from-Ended zero (c ∷ cs) p = let no : ⊥ = omega arith in elim no [ ]
  lex_from-Ended (suc f) (c ∷ cs) p = go (round U c cs) (round-Takes c cs) (lex_from-Ended f)
    where
      go :
          (r : Round)
          → Takes (length (c ∷ cs)) r
          → ((rest : List ℕ) → length rest ≤ f → Ended (lex_from U f rest))
          → Ended (goes_on U (λ rest. lex_from U f rest) r)
      go (skip rest) h k = k rest (omega arith)
      go (token t rest) h k = put-Ended t (lex_from U f rest) (k rest (omega arith))
      go (stop e) h k = inr (e, refl)

  -- Where an alphabetic character is alphanumeric, as the standard library has it, `lex` never runs
  -- out of fuel: on every text it gives the tokens or an error.
  pub lex_ends :
      (src : List ℕ)
      → ((ts : List Tok) × (lex U src ≡ lexed ts)) ⊎ ((e : LexError) × (lex U src ≡ lex_fails e))
  unfolding lex
  lex_ends src = lex_from-Ended (length src) src (omega arith)

  -- Where a quote is no white space and an alphabetic character is alphanumeric: `lex` of a string
  -- that `escape` has written between quotes, and of what follows, is the token of that string and
  -- the tokens of what follows, or the error that follows.
  pub lex-quoted :
      (s rest : List ℕ)
      → U.is_whitespace quote ≡ false
      → lex U (quote ∷ (escape s ++ quote ∷ rest)) ≡ put U (str s) (lex U rest)
  unfolding lex lex_from round
  lex-quoted s rest w =
      let n = length (escape s ++ quote ∷ rest) in
      let l = length-append (escape s) (quote ∷ rest) in
      let e : round U quote (escape s ++ quote ∷ rest) ≡ token (str s) rest =
        rw w (ap str_token (lex_str-escape s rest)) in
      ap (goes_on U (λ r. lex_from U n r)) e
      ∙ ap (put U (str s)) (lex_from_more n (length rest) rest (omega arith) (omega arith))
