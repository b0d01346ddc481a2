-- ===== src/Midir/Text/Written.antt =====
-- What the printer of crates/midir/src/text.rs writes, beside the tokens that `lex` makes of it.
use mathlib.Core.List.{append_assoc}
use bet.Prelude.{ℕ, ◌≡◌, refl, ap, ◌∙◌, true, Option, none, some, List, [], ◌∷◌, ◌++◌}
use bet.Midir.Text.{
  Tok, ident, l_paren, r_paren, l_bracket, r_bracket, comma, percent, at_sign, arrow, dot,
  CharClasses, lex,
}
use bet.Midir.Text.Names.{codes}
use bet.Midir.Text.Printer.{◌+++◌}
use bet.Midir.Text.Steps.{
  IsUnicode, Leads, Lexes, Opens, puts, Lexes-append, Lexes-lead, Leads-mark, Leads-space,
  Leads-arrow, Leads-nil,
}
use bet.Midir.Text.Numerals.{is_word, Lexes-word, ends_word, Boundary-char}

none-ne-some : (s : List ℕ) → ◌≡◌ {A = Option (List ℕ)} none (some s) → ⊥
none-ne-some s e = cc

module _ (U : CharClasses) (u : IsUnicode U) where
  -- Something that is printed, and its tokens.
  abbrev pub Written : Option (List ℕ) → List Tok → Type 0
  Written o ts = (s : List ℕ) × (o ≡ some s) × Lexes U u s ts

  abbrev pub OpensText : Option (List ℕ) → Type 0
  OpensText o = (s : List ℕ) → o ≡ some s → Opens U u s

  pub Written-some : (s : List ℕ) (ts : List Tok) → Lexes U u s ts → Written (some s) ts
  Written-some s ts h = (s, refl, h)

  pub Written-lead :
      (s : List ℕ) (o : Option (List ℕ)) (ts us : List Tok)
      → Leads U u s ts
      → Written o us
      → Written (some s +++ o) (ts ++ us)
  Written-lead s o ts us h w =
      (s ++ w.0, ap (λ (x : Option (List ℕ)). some s +++ x) w.1, Lexes-lead U u s w.0 ts us h w.2)

  pub Written-append :
      (o p : Option (List ℕ)) (ts us : List Tok)
      → Written o ts
      → Written p us
      → OpensText p
      → Written (o +++ p) (ts ++ us)
  Written-append o p ts us v w h =
      (v.0 ++ w.0, rw (v.1, w.1) refl, Lexes-append U u v.0 w.0 ts us v.2 w.2 (h w.0 w.1))

  pub OpensText-char :
      (c : ℕ) (cs : List ℕ) (o : Option (List ℕ))
      → ends_word U u c ≡ true
      → OpensText (some (c ∷ cs) +++ o)
  OpensText-char c cs none h s e rest b = absurd (none-ne-some s e)
  OpensText-char c cs (some t) h s e rest b =
      let q : c ∷ (cs ++ t) ≡ s = cc in rw (← q) (Boundary-char U u c ((cs ++ t) ++ rest) h)

  pub Opens-some : (c : ℕ) (cs : List ℕ) → ends_word U u c ≡ true → OpensText (some (c ∷ cs))
  Opens-some c cs h s e rest b =
      let q : c ∷ cs ≡ s = cc in rw (← q) (Boundary-char U u c (cs ++ rest) h)

  -- A keyword with a mark behind it.
  pub Leads-word :
      (w : List ℕ) (c : ℕ) (s : List ℕ) (ts : List Tok)
      → is_word w ≡ true
      → ends_word U u c ≡ true
      → Leads U u (c ∷ s) ts
      → Leads U u (w ++ c ∷ s) (ident w ∷ ts)
  Leads-word w c s ts k e h rest =
      ap (lex U) (append_assoc w (c ∷ s) rest)
      ∙ Lexes-word U u w k (c ∷ (s ++ rest)) (Boundary-char U u c (s ++ rest) e)
      ∙ ap (puts U u (ident w ∷ [])) (h rest)

  pub Leads→Lexes : (s : List ℕ) (ts : List Tok) → Leads U u s ts → Lexes U u s ts
  Leads→Lexes s ts h rest b = h rest

  -- The literals of the printer.
  open_paren : Leads U u (b'(' ∷ []) (l_paren ∷ [])
  open_paren = Leads-mark U u b'(' l_paren [] [] refl refl (Leads-nil U u)

  space_ : Leads U u (32 ∷ []) []
  space_ = Leads-space U u [] [] (Leads-nil U u)

  pub Leads-percent : Leads U u (codes "%") (percent ∷ [])
  Leads-percent = Leads-mark U u b'%' percent [] [] refl refl (Leads-nil U u)

  pub Leads-at : Leads U u (codes "@") (at_sign ∷ [])
  Leads-at = Leads-mark U u b'@' at_sign [] [] refl refl (Leads-nil U u)

  pub Leads-close : Leads U u (codes ")") (r_paren ∷ [])
  Leads-close = Leads-mark U u b')' r_paren [] [] refl refl (Leads-nil U u)

  pub Leads-comma : Leads U u (codes ", ") (comma ∷ [])
  Leads-comma = Leads-mark U u b',' comma (32 ∷ []) [] refl refl space_

  arrow_space : Leads U u (codes "-> ") (arrow ∷ [])
  arrow_space = Leads-arrow U u (32 ∷ []) [] space_

  pub Leads-arrow_to : Leads U u (codes " -> ") (arrow ∷ [])
  Leads-arrow_to = Leads-space U u (codes "-> ") (arrow ∷ []) arrow_space

  pub Leads-close_to : Leads U u (codes ") -> ") (r_paren ∷ arrow ∷ [])
  Leads-close_to = Leads-mark U u b')' r_paren (codes " -> ") (arrow ∷ []) refl refl Leads-arrow_to

  -- A keyword and a space.
  pub Leads-keyword : (w : List ℕ) → is_word w ≡ true → Leads U u (w ++ 32 ∷ []) (ident w ∷ [])
  Leads-keyword w k = Leads-word w 32 [] [] k refl space_

  pub Leads-else : Leads U u (codes " else ") (ident (codes "else") ∷ [])
  Leads-else =
      Leads-space U u (codes "else ") (ident (codes "else") ∷ [])
        (Leads-keyword (codes "else") refl)

  -- A call's name and its parenthesis, with a point before it for a projection.
  pub Leads-call :
      (w : List ℕ) → is_word w ≡ true → Leads U u (w ++ b'(' ∷ []) (ident w ∷ l_paren ∷ [])
  Leads-call w k = Leads-word w b'(' [] (l_paren ∷ []) k refl open_paren

  pub Leads-method :
      (w : List ℕ)
      → is_word w ≡ true
      → Leads U u (b'.' ∷ (w ++ b'(' ∷ [])) (dot ∷ ident w ∷ l_paren ∷ [])
  Leads-method w k =
      Leads-mark U u b'.' dot (w ++ b'(' ∷ []) (ident w ∷ l_paren ∷ []) refl refl (Leads-call w k)

  pub Leads-open_list : Leads U u (codes " [") (l_bracket ∷ [])
  Leads-open_list =
      Leads-space U u (codes "[") (l_bracket ∷ [])
        (Leads-mark U u b'[' l_bracket [] [] refl refl (Leads-nil U u))

  pub Leads-close_list : Leads U u (codes "] else ") (r_bracket ∷ ident (codes "else") ∷ [])
  Leads-close_list =
      Leads-mark U u b']' r_bracket (codes " else ") (ident (codes "else") ∷ []) refl refl
        Leads-else
