-- ===== src/Lexer/Token.antt =====
-- The tokens of crates/frontend/src/lexer.rs. `F` stands for the type of 64-bit floats. A keyword
-- whose spelling is taken has `_kw` behind it.
use bet.Prelude.{ℕ, Bool, true, false, List}

pub record Span : Type 0 where
  pub start : ℕ
  pub end : ℕ

-- `Int` holds an `i128`; a literal of the scan has no sign, so its value is a natural number.
pub data Token (F : Type 0) : Type 0 where
  newline semi : Token F
  finna bet_kw lowkey facts drip moods pull extern fr naw vibin squad dip skip vibe : Token F
  slide yeet sheesh bounce nocap cap_kw ghosted flex hush crib soa cop evict tag : Token F
  holla trust in_kw as_kw : Token F
  ident : List ℕ → Token F
  float : F → Token F
  int : ℕ → Token F
  str : List ℕ → Token F
  byte : ℕ → Token F
  arrow eq_eq ne le ge shl_eq shr_eq shl shr and_and or_or plus_eq minus_eq star_eq : Token F
  slash_eq percent_eq amp_eq pipe_eq caret_eq lt gt eq plus minus star slash percent : Token F
  amp pipe caret tilde bang dot comma colon l_bracket r_bracket l_paren r_paren : Token F
  l_brace r_brace : Token F

pub record Spanned (F : Type 0) : Type 0 where
  pub tok : Token F
  pub span : Span

-- `ends_statement`: a newline right after this token ends the statement.
unfoldable pub ends_statement : {F : Type 0} → Token F → Bool
ends_statement (ident s) = true
ends_statement (int n) = true
ends_statement (float x) = true
ends_statement (str s) = true
ends_statement (byte b) = true
ends_statement nocap = true
ends_statement cap_kw = true
ends_statement ghosted = true
ends_statement r_paren = true
ends_statement r_bracket = true
ends_statement r_brace = true
ends_statement bet_kw = true
ends_statement dip = true
ends_statement skip = true
ends_statement bounce = true
ends_statement _ = false

-- The three arms of the match in `apply_asi`.
pub data Kind : Type 0 where
  a_newline a_semi significant : Kind

unfoldable pub kind : {F : Type 0} → Token F → Kind
kind newline = a_newline
kind semi = a_semi
kind _ = significant
