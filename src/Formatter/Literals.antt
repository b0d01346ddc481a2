-- ===== src/Formatter/Literals.antt =====
-- `escape_str` and `escape_byte` of crates/fmt/src/lib.rs: a literal's value written as source. A text
-- is the list of its code points.
use bet.Prelude.{ℕ, ◌+◌, ◌/◌, ◌%◌, ◌||◌, List, [], ◌∷◌, ◌++◌, ◌==◌, ltb, if◌then◌else◌}

-- A digit of `{:02x}`.
abbrev pub hex_digit : ℕ → ℕ
hex_digit d = if ltb d 10 then d + b'0' else d + 87

-- What `escape_str` pushes for one character.
unfoldable pub escape_char : ℕ → List ℕ
escape_char c =
    if c == 92
    then 92 ∷ 92 ∷ []
    else if c == 34
    then 92 ∷ 34 ∷ []
    else if c == 10
    then 92 ∷ b'n' ∷ []
    else if c == 9
    then 92 ∷ b't' ∷ []
    else if c == 13
    then 92 ∷ b'r' ∷ []
    else if c == 0
    then 92 ∷ b'0' ∷ []
    else if ltb c 0x20 || c == 0x7f
    then 92 ∷ b'x' ∷ hex_digit (c / 16) ∷ hex_digit (c % 16) ∷ []
    else c ∷ []

unfoldable pub escape_chars : List ℕ → List ℕ
unfolding escape_char
escape_chars [] = []
escape_chars (c ∷ cs) = escape_char c ++ escape_chars cs

unfoldable pub escape_str : List ℕ → List ℕ
unfolding escape_chars
escape_str s = 34 ∷ (escape_chars s ++ 34 ∷ [])

unfoldable pub escape_byte : ℕ → List ℕ
escape_byte b =
    if b == 92
    then 39 ∷ 92 ∷ 92 ∷ 39 ∷ []
    else if b == 39
    then 39 ∷ 92 ∷ 39 ∷ 39 ∷ []
    else if b == 10
    then 39 ∷ 92 ∷ b'n' ∷ 39 ∷ []
    else if b == 9
    then 39 ∷ 92 ∷ b't' ∷ 39 ∷ []
    else if b == 13
    then 39 ∷ 92 ∷ b'r' ∷ 39 ∷ []
    else if b == 0
    then 39 ∷ 92 ∷ b'0' ∷ 39 ∷ []
    else 39 ∷ b ∷ 39 ∷ []
