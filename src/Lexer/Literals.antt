-- ===== src/Lexer/Literals.antt =====
-- The literal decoders of crates/frontend/src/lexer.rs. A text is the list of its code points.
use bet.Prelude.{
  ℕ, zero, suc, ◌+◌, ◌-◌, ◌*◌, ◌^◌, ◌&&◌, Option, none, some, List, [], ◌∷◌, ◌==◌, ltb, leb,
  if◌then◌else◌, length, take, drop,
}

infixl 5 ◌>>=◌
abbrev ◌>>=◌ {ℓ κ} : {A : Type ℓ} {B : Type κ} → Option A → (A → Option B) → Option B
none >>= f = none
some a >>= f = f a

-- `char::to_digit(radix)`.
abbrev pub digit_value : ℕ → ℕ
digit_value c =
    if leb b'0' c && leb c b'9'
    then c - b'0'
    else if leb b'a' c && leb c b'z'
    then c - b'a' + 10
    else if leb b'A' c && leb c b'Z'
    then c - b'A' + 10
    else 99

abbrev pub to_digit : ℕ → ℕ → Option ℕ
to_digit radix c = if ltb (digit_value c) radix then some (digit_value c) else none

-- `chars().filter(|c| c != '_')`.
unfoldable pub without_underscores : List ℕ → List ℕ
without_underscores [] = []
without_underscores (c ∷ cs) =
    let rest = without_underscores cs in if c == b'_' then rest else c ∷ rest

-- `i128::from_str_radix` on digits: an error for an empty text, a character that is no digit, or a
-- value above `i128::MAX`. A literal of the scan has no sign.
unfoldable pub digits_value : ℕ → ℕ → List ℕ → Option ℕ
digits_value radix acc [] = some acc
digits_value radix acc (c ∷ cs) = do
  d ← to_digit radix c
  let rest = digits_value radix (acc * radix + d) cs
  if ltb (acc * radix + d) (2 ^ 127) then rest else none

abbrev pub from_str_radix : ℕ → List ℕ → Option ℕ
from_str_radix radix [] = none
from_str_radix radix (c ∷ cs) = digits_value radix 0 (c ∷ cs)

unfoldable pub parse_dec : List ℕ → Option ℕ
unfolding without_underscores digits_value
parse_dec s = from_str_radix 10 (without_underscores s)

-- The prefix `0x` or `0b` is stripped.
unfoldable pub parse_radix : List ℕ → ℕ → Option ℕ
unfolding without_underscores digits_value
parse_radix s radix = from_str_radix radix (without_underscores (drop 2 s))

-- `decode_escape`: what follows a backslash, and the characters that are left.
abbrev pub hex_pair : List ℕ → Option (ℕ × List ℕ)
hex_pair [] = none
hex_pair (h ∷ []) = none
hex_pair (h ∷ l ∷ cs) = do hi ← to_digit 16 h; lo ← to_digit 16 l; some (hi * 16 + lo, cs)

unfoldable pub decode_escape : List ℕ → Option (ℕ × List ℕ)
decode_escape [] = none
decode_escape (c ∷ cs) =
    if c == b'n'
    then some (10, cs)
    else if c == b't'
    then some (9, cs)
    else if c == b'r'
    then some (13, cs)
    else if c == 92
    then some (92, cs)
    else if c == 34
    then some (34, cs)
    else if c == 39
    then some (39, cs)
    else if c == b'0'
    then some (0, cs)
    else if c == b'x'
    then hex_pair cs
    else none

-- The loop of `unescape_str` on the text between the quotes. Each round takes a character, so the
-- length is fuel enough; `none` is the error of the source.
unfoldable pub unescape_loop : ℕ → List ℕ → Option (List ℕ)
unfolding decode_escape
unescape_loop f [] = some []
unescape_loop zero (c ∷ cs) = none
unescape_loop (suc f) (c ∷ cs) =
    let plain = (do out ← unescape_loop f cs; some (c ∷ out)) in
    let escaped = (do q ← decode_escape cs; out ← unescape_loop f q.1; some (q.0 ∷ out)) in
    if c == 92 then escaped else plain

-- `&raw[1..raw.len() - 1]`.
abbrev pub inner : List ℕ → List ℕ
inner raw = drop 1 (take (length raw - 1) raw)

unfoldable pub unescape_str : List ℕ → Option (List ℕ)
unfolding unescape_loop
unescape_str raw = unescape_loop (length (inner raw)) (inner raw)

abbrev pub byte_of : ℕ → Option ℕ
byte_of cp = if leb cp 0xff then some cp else none

abbrev pub unescape_inner : List ℕ → Option ℕ
unescape_inner [] = none
unescape_inner (c ∷ cs) = do
  decoded ← if c == 92 then (do q ← decode_escape cs; some q.0) else some c
  byte_of decoded

unfoldable pub unescape_byte : List ℕ → Option ℕ
unfolding decode_escape
unescape_byte raw = unescape_inner (inner raw)
