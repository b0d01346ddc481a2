-- ===== src/Tests/Sources.antt =====
-- Runs of the lexer's and the formatter's functions.
use bet.Prelude.{ℕ, ◌+◌, ◌≡◌, refl, true, false, some, List, [], ◌∷◌, ◌++◌, All, if◌then◌else◌}
use bet.Lexer.Token.{Token, Spanned, ends_statement, kind, newline, ident}
use bet.Lexer.Asi.{
  apply_asi, asi_loop, as_semi, last_ends, IsNewline, significants, apply_asi-newline,
  apply_asi_sound,
}
use bet.Lexer.Literals.{unescape_str}
use bet.Formatter.Literals.{escape_str}
use bet.Formatter.RoundTrip.{unescape_str-escape_str}

abbrev pub at : ℕ → Token ℕ → Spanned ℕ
at n t = record { tok = t; span = record { start = n; end = n + 1 } }

-- `x ⏎ y`
abbrev pub before : List (Spanned ℕ)
before = at 0 (ident (b'x' ∷ [])) ∷ []

abbrev pub behind : List (Spanned ℕ)
behind = at 2 (ident (b'y' ∷ [])) ∷ []

ends : last_ends false (apply_asi before) ≡ true
unfolding apply_asi asi_loop ends_statement kind
ends = refl

apply_asi-newline_example :
    apply_asi (before ++ at 1 newline ∷ behind)
    ≡ apply_asi before
      ++ (if last_ends false (apply_asi before)
          then as_semi (at 1 newline) ∷ asi_loop behind false
          else asi_loop behind false)
apply_asi-newline_example = apply_asi-newline before behind (at 1 newline) refl

apply_asi_sound_example :
    All (λ sp. ¬ IsNewline sp) (apply_asi (before ++ at 1 newline ∷ behind))
    × (significants (apply_asi (before ++ at 1 newline ∷ behind))
        ≡ significants (before ++ at 1 newline ∷ behind))
    × (apply_asi (apply_asi (before ++ at 1 newline ∷ behind))
        ≡ apply_asi (before ++ at 1 newline ∷ behind))
apply_asi_sound_example = apply_asi_sound (before ++ at 1 newline ∷ behind)

-- A tab, a quote, a control character and a letter.
abbrev pub mixed : List ℕ
mixed = 9 ∷ 34 ∷ 27 ∷ b'z' ∷ []

unescape_str-escape_str_example : unescape_str (escape_str mixed) ≡ some mixed
unescape_str-escape_str_example = unescape_str-escape_str mixed
