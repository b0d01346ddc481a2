-- ===== src/Midir/Text.antt =====
-- The lexer of the textual IR, `lex` of crates/midir/src/text.rs, and `escape` of its printer. A text is
-- the list of its code points, and the index `i` is the rest of the text.
pub mod Names
pub mod Quoted
pub mod Ends
pub mod Decimal
pub mod Printer
pub mod Parser
pub mod Steps
pub mod Numerals
pub mod Written
pub mod Constants
pub mod Operands
pub mod Projections
pub mod Places
pub mod Terms
pub mod Terminators
pub mod Listed
pub mod RoundTrip
pub mod Fuel
use bet.Prelude.{
  ℕ, zero, suc, Bool, true, false, ◌&&◌, ◌||◌, not, Option, none, some, List, [], ◌∷◌, ◌++◌, ◌==◌,
  leb, length, if◌then◌else◌,
}

pub data Tok : Type 0 where
  ident : List ℕ → Tok
  num : List ℕ → Tok
  str : List ℕ → Tok
  l_paren r_paren l_brace r_brace l_bracket r_bracket comma colon colon_colon semi percent at_sign :
      Tok
  arrow eq_sign dot : Tok

-- The errors of `ParseError::Lex`, without their positions.
pub data LexError : Type 0 where
  stray_minus unterminated_escape unterminated_string : LexError
  bad_escape : ℕ → LexError
  unexpected : ℕ → LexError

-- The classes of `char`, which the standard library takes from Unicode.
pub record CharClasses : Type 0 where
  pub is_whitespace : ℕ → Bool
  pub is_alphabetic : ℕ → Bool
  pub is_alphanumeric : ℕ → Bool

abbrev pub quote : ℕ
quote = 34

abbrev pub backslash : ℕ
backslash = 92

abbrev pub is_ascii_digit : ℕ → Bool
is_ascii_digit c = leb b'0' c && leb c b'9'

-- `escape`.
abbrev pub escape_char : ℕ → List ℕ
escape_char c =
    if c == quote
    then backslash ∷ quote ∷ []
    else if c == backslash
    then backslash ∷ backslash ∷ []
    else if c == 10
    then backslash ∷ b'n' ∷ []
    else if c == 9
    then backslash ∷ b't' ∷ []
    else if c == 13
    then backslash ∷ b'r' ∷ []
    else c ∷ []

unfoldable pub escape : List ℕ → List ℕ
escape [] = []
escape (c ∷ cs) = escape_char c ++ escape cs

-- A loop that takes characters of a class.
abbrev pub span : (ℕ → Bool) → List ℕ → List ℕ × List ℕ
span p [] = ([], [])
span p (c ∷ cs) = let rest = span p cs in if p c then (c ∷ rest.0, rest.1) else ([], c ∷ cs)

abbrev pub fraction : List ℕ → List ℕ × List ℕ
fraction [] = ([], [])
fraction (c ∷ []) = ([], c ∷ [])
fraction (c ∷ d ∷ cs) =
    if (c == b'.') && is_ascii_digit d
    then (c ∷ (span is_ascii_digit (d ∷ cs)).0, (span is_ascii_digit (d ∷ cs)).1)
    else ([], c ∷ d ∷ cs)

-- What follows a backslash.
abbrev pub decode_escape : ℕ → Option ℕ
decode_escape e =
    if e == b'n'
    then some 10
    else if e == b't'
    then some 9
    else if e == b'r'
    then some 13
    else if e == backslash
    then some backslash
    else if e == quote
    then some quote
    else none

-- What `lex_str` gives: the text and what follows the closing quote, or an error.
pub data Read : Type 0 where
  read : (text rest : List ℕ) → Read
  read_fails : LexError → Read

abbrev pub pushed : ℕ → Read → Read
pushed c (read text rest) = read (c ∷ text) rest
pushed c (read_fails e) = read_fails e

abbrev pub escaped : ℕ → Option ℕ → Read → Read
escaped e none r = read_fails (bad_escape e)
escaped e (some c) r = pushed c r

-- `lex_str`, behind the opening quote.
unfoldable pub lex_str : List ℕ → Read
lex_str [] = read_fails unterminated_string
lex_str (c ∷ []) =
    if c == quote
    then read [] []
    else if c == backslash
    then read_fails unterminated_escape
    else read_fails unterminated_string
lex_str (c ∷ e ∷ cs) =
    let behind = lex_str cs in
    let rest = lex_str (e ∷ cs) in
    if c == quote
    then read [] (e ∷ cs)
    else if c == backslash
    then escaped e (decode_escape e) behind
    else pushed c rest

-- The marks of one character.
abbrev pub mark : ℕ → Option Tok
mark c =
    if c == b'('
    then some l_paren
    else if c == b')'
    then some r_paren
    else if c == b'{'
    then some l_brace
    else if c == b'}'
    then some r_brace
    else if c == b'['
    then some l_bracket
    else if c == b']'
    then some r_bracket
    else if c == b','
    then some comma
    else if c == b';'
    then some semi
    else if c == b'%'
    then some percent
    else if c == b'@'
    then some at_sign
    else if c == b'='
    then some eq_sign
    else if c == b'.'
    then some dot
    else none

-- One round of the loop: a character or a comment is left out, a token is pushed, or `lex` returns.
pub data Round : Type 0 where
  skip : List ℕ → Round
  token : Tok → List ℕ → Round
  stop : LexError → Round

abbrev pub starts : (ℕ → Bool) → List ℕ → Bool
starts p [] = false
starts p (c ∷ cs) = p c

abbrev pub behind_one : List ℕ → List ℕ
behind_one [] = []
behind_one (c ∷ cs) = cs

abbrev pub str_token : Read → Round
str_token (read text rest) = token (str text) rest
str_token (read_fails e) = stop e

pub data Lexed : Type 0 where
  lexed : List Tok → Lexed
  lex_fails : LexError → Lexed
  out_of_fuel : Lexed

module _ (U : CharClasses) where
  abbrev pub in_suffix : ℕ → Bool
  in_suffix c = U.is_alphanumeric c || c == b'_'

  abbrev pub in_ident : ℕ → Bool
  in_ident c = U.is_alphanumeric c || ((c == b'_') || (c == b'$'))

  -- `lex_num`, whose sign is `sign`.
  abbrev pub lex_num : List ℕ → List ℕ → Round
  lex_num sign cs =
      let whole = span is_ascii_digit cs in
      let part = fraction whole.1 in
      let suffix = span in_suffix part.1 in
      token (num (sign ++ whole.0 ++ part.0 ++ suffix.0)) suffix.1

  -- The `match c`, and what stands before it.
  abbrev pub other_token : ℕ → List ℕ → Round
  other_token c cs =
      if c == b':'
      then if starts (λ d. d == b':') cs then token colon_colon (behind_one cs) else token colon cs
      else if c == b'-'
      then if starts (λ d. d == b'>') cs
        then token arrow (behind_one cs)
        else if starts is_ascii_digit cs
        then lex_num (c ∷ []) cs
        else stop stray_minus
      else if c == quote
      then str_token (lex_str cs)
      else if is_ascii_digit c
      then lex_num [] (c ∷ cs)
      else if U.is_alphabetic c || c == b'_'
      then token (ident (span in_ident (c ∷ cs)).0) (span in_ident (c ∷ cs)).1
      else stop (unexpected c)

  abbrev pub mark_or : ℕ → List ℕ → Option Tok → Round
  mark_or c cs none = other_token c cs
  mark_or c cs (some t) = token t cs

  unfoldable pub round : ℕ → List ℕ → Round
  unfolding lex_str
  round c cs =
      if U.is_whitespace c
      then skip cs
      else if (c == b'/') && starts (λ d. d == b'/') cs
      then skip (span (λ d. not (d == 10)) cs).1
      else mark_or c cs (mark c)

  abbrev pub put : Tok → Lexed → Lexed
  put t (lexed ts) = lexed (t ∷ ts)
  put t (lex_fails e) = lex_fails e
  put t out_of_fuel = out_of_fuel

  abbrev pub goes_on : (List ℕ → Lexed) → Round → Lexed
  goes_on k (skip rest) = k rest
  goes_on k (token t rest) = put t (k rest)
  goes_on k (stop e) = lex_fails e

  unfoldable pub lex_from : ℕ → List ℕ → Lexed
  unfolding round
  lex_from f [] = lexed []
  lex_from zero (c ∷ cs) = out_of_fuel
  lex_from (suc f) (c ∷ cs) = goes_on (λ rest. lex_from f rest) (round c cs)

  -- Each round takes a character.
  unfoldable pub lex : List ℕ → Lexed
  unfolding lex_from
  lex src = lex_from (length src) src
