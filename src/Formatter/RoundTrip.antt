-- ===== src/Formatter/RoundTrip.antt =====
-- What the formatter writes for a literal, the lexer reads back as the same value.
use bet.Prelude.{
  ℕ, zero, suc, ◌+◌, ◌-◌, ◌*◌, ◌/◌, ◌%◌, ◌≤◌, ◌<◌, ◌≡◌, refl, ap, ◌∙◌, Bool, true, false, ◌||◌,
  some, List, [], ◌∷◌, ◌++◌, ◌==◌, ltb, leb, if◌then◌else◌, length, take, arith, length-append,
}
use bet.Lexer.Literals.{decode_escape, unescape_loop, unescape_str, unescape_byte, inner, to_digit}
use bet.Formatter.Literals.{hex_digit, escape_char, escape_chars, escape_str, escape_byte}

-- The text between the quotes of a quoted text.
inner-quoted : (q : ℕ) (s : List ℕ) → inner (q ∷ (s ++ q ∷ [])) ≡ s
inner-quoted q s =
    let e : suc (length (s ++ q ∷ [])) - 1 ≡ suc (length s) =
      omega (arith, length-append s (q ∷ [])) in
    rw e (cut s)
  where
    cut : (s : List ℕ) → take (length s) (s ++ q ∷ []) ≡ s
    cut [] = refl
    cut (c ∷ s) = ap (λ (t : List ℕ). c ∷ t) (cut s)

to_digit-hex_digit : (d : ℕ) → d < 16 → to_digit 16 (hex_digit d) ≡ some d
to_digit-hex_digit d h = ground arith

-- An escape: what `decode_escape` returns is read, and the loop goes on behind it.
read_escaped :
    (f c : ℕ) (cs rest out : List ℕ)
    → decode_escape cs ≡ some (c, rest)
    → unescape_loop f rest ≡ some out
    → unescape_loop (suc f) (92 ∷ cs) ≡ some (c ∷ out)
unfolding unescape_loop
read_escaped f c cs rest out d e = rw d (rw e refl)

read_plain :
    (f c : ℕ) (rest out : List ℕ)
    → (c == 92) ≡ false
    → unescape_loop f rest ≡ some out
    → unescape_loop (suc f) (c ∷ rest) ≡ some (c ∷ out)
unfolding unescape_loop
read_plain f c rest out d e = rw d (rw e refl)

-- A control character is written with two digits, which the decoder reads.
decode-hex :
    (c : ℕ) (rest : List ℕ)
    → c < 256
    → decode_escape (b'x' ∷ hex_digit (c / 16) ∷ hex_digit (c % 16) ∷ rest) ≡ some (c, rest)
unfolding decode_escape
decode-hex c rest h =
    let hi = to_digit-hex_digit (c / 16) (omega arith) in
    let lo = to_digit-hex_digit (c % 16) (omega arith) in
    let sum : (c / 16) * 16 + c % 16 ≡ c = omega arith in rw hi (rw lo (rw sum refl))

choice {ℓ} :
    (P : List ℕ → Type ℓ) (b : Bool) (x y : List ℕ)
    → ((b ≡ true) → P x)
    → ((b ≡ false) → P y)
    → P (if b then x else y)
choice P true x y holds fails = holds refl
choice P false x y holds fails = fails refl

-- One character: the loop reads what the escape of `c` says and goes on behind it.
module _ (f c : ℕ) (rest out : List ℕ) (e : unescape_loop f rest ≡ some out) where
  abbrev Reads : List ℕ → Type 0
  Reads written = unescape_loop (suc f) (written ++ rest) ≡ some (c ∷ out)

  named :
      (letter k : ℕ)
      → decode_escape (letter ∷ rest) ≡ some (k, rest)
      → (c == k) ≡ true
      → Reads (92 ∷ letter ∷ [])
  named letter k d h =
      let same : k ≡ c = ground arith in
      read_escaped f c (letter ∷ rest) rest out (d ∙ ap (λ (n : ℕ). some (n, rest)) same) e

  unescape_step : Reads (escape_char c)
  unfolding escape_char decode_escape
  unescape_step = choice Reads (c == 92) _ _ (named 92 92 refl) (λ backslash.
      choice Reads (c == 34) _ _ (named 34 34 refl) (λ h.
        choice Reads (c == 10) _ _ (named b'n' 10 refl) (λ h.
          choice Reads (c == 9) _ _ (named b't' 9 refl) (λ h.
            choice Reads (c == 13) _ _ (named b'r' 13 refl) (λ h.
              choice Reads (c == 0) _ _ (named b'0' 0 refl) (λ h.
                choice Reads (ltb c 0x20 || c == 0x7f) _ _
                  (λ control.
                    let small : c < 256 = ground arith in
                    read_escaped f c _ rest out (decode-hex c rest small) e)
                  (λ h. read_plain f c rest out backslash e)))))))

length-escape_char : (c : ℕ) → 1 ≤ length (escape_char c)
unfolding escape_char
length-escape_char c = ground arith

-- A text is read back from its escapes, whatever fuel is left over.
unescape-escape_chars :
    (s : List ℕ) (f : ℕ) → length s ≤ f → unescape_loop f (escape_chars s) ≡ some s
unfolding escape_chars unescape_loop
unescape-escape_chars [] f h = refl
unescape-escape_chars (c ∷ s) zero h = elim h [ ]
unescape-escape_chars (c ∷ s) (suc f) h =
    unescape_step f c (escape_chars s) s (unescape-escape_chars s f (omega arith))

length-escape_chars : (s : List ℕ) → length s ≤ length (escape_chars s)
unfolding escape_chars
length-escape_chars [] = omega arith
length-escape_chars (c ∷ s) = omega (
  arith,
  length-append (escape_char c) (escape_chars s),
  length-escape_char c,
  length-escape_chars s,
)

-- For every text, the lexer's `unescape_str` reads the formatter's `escape_str` of it back: the result
-- is the text, and never the error.
pub unescape_str-escape_str : (s : List ℕ) → unescape_str (escape_str s) ≡ some s
unfolding unescape_str escape_str
unescape_str-escape_str s =
    rw (inner-quoted 34 (escape_chars s))
      (unescape-escape_chars s (length (escape_chars s)) (length-escape_chars s))

-- For every byte, the lexer's `unescape_byte` reads the formatter's `escape_byte` of it back.
pub unescape_byte-escape_byte : (b : ℕ) → b < 256 → unescape_byte (escape_byte b) ≡ some b
unfolding unescape_byte escape_byte decode_escape
unescape_byte-escape_byte b h = choice Read (b == 92) _ _ (named 92) (λ backslash.
    choice Read (b == 39) _ _ (named 39) (λ e. choice Read (b == 10) _ _ (named 10) (λ e.
      choice Read (b == 9) _ _ (named 9) (λ e. choice Read (b == 13) _ _ (named 13) (λ e.
        choice Read (b == 0) _ _ (named 0)
          (λ e. let byte : leb b 0xff ≡ true = ground arith in rw backslash (rw byte refl)))))))
  where
    Read : List ℕ → Type 0
    Read written = unescape_byte written ≡ some b

    named : (k : ℕ) → (b == k) ≡ true → some k ≡ some b
    named k e = let same : k ≡ b = ground arith in ap some same
