-- ===== src/Tests/Texts.antt =====
-- Runs of the lexer of the textual IR.
use bet.Prelude.{ℕ, ◌≡◌, ◌⊎◌, refl, ◌&&◌, ◌||◌, List, [], ◌∷◌, ◌==◌, leb, arith}
use bet.Midir.Text.{
  Tok, num, percent, str, LexError, CharClasses, lex_str, lexed, lex_fails, round, lex_from, lex,
}
use bet.Midir.Text.Ends.{IsCharClasses, lex_ends}

-- The classes of `char` on ASCII.
abbrev pub ascii : CharClasses
ascii = record {
  is_whitespace = λ c. (c == 32) || (leb 9 c && leb c 13);
  is_alphabetic = λ c. (leb b'a' c && leb c b'z') || (leb b'A' c && leb c b'Z');
  is_alphanumeric =
      λ c. (leb b'0' c && leb c b'9') || ((leb b'a' c && leb c b'z') || (leb b'A' c && leb c b'Z'));
}

pub ascii-IsCharClasses : IsCharClasses ascii
ascii-IsCharClasses = record { alphabetic_counts = λ c h. ground (arith, h) }

-- `-7i8 % "a" //`, whose comment ends with the text.
abbrev mir_line : List ℕ
mir_line = 45 ∷ 55 ∷ 105 ∷ 56 ∷ 32 ∷ 37 ∷ 32 ∷ 34 ∷ 97 ∷ 34 ∷ 32 ∷ 47 ∷ 47 ∷ []

mir_line_lexed :
    lex ascii mir_line ≡ lexed (num (45 ∷ 55 ∷ 105 ∷ 56 ∷ []) ∷ percent ∷ str (97 ∷ []) ∷ [])
unfolding lex lex_from round lex_str
mir_line_lexed = refl

lex_ends_example :
    ((ts : List Tok) × (lex ascii mir_line ≡ lexed ts))
    ⊎ ((e : LexError) × (lex ascii mir_line ≡ lex_fails e))
lex_ends_example = lex_ends ascii ascii-IsCharClasses mir_line
