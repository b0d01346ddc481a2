-- ===== src/Midir/Text/Quoted.antt =====
-- What `escape` writes between quotes, `lex_str` reads back.
use bet.Prelude.{
  ℕ, ◌≡◌, refl, ap, sym, ◌∙◌, false, some, List, [], ◌∷◌, ◌++◌, ◌==◌, Bool-cases, inl, inr, ==_iff,
}
use bet.Midir.Text.{quote, backslash, escape_char, escape, decode_escape, read, pushed, lex_str}

-- A text with a quote in it has a character.
read_escape :
    (c e : ℕ) (cs : List ℕ)
    → decode_escape e ≡ some c
    → lex_str (backslash ∷ e ∷ cs) ≡ pushed c (lex_str cs)
unfolding lex_str
read_escape c e cs d = rw d refl

read_plain :
    (c : ℕ) (e : ℕ) (cs : List ℕ)
    → (c == quote) ≡ false
    → (c == backslash) ≡ false
    → lex_str (c ∷ e ∷ cs) ≡ pushed c (lex_str (e ∷ cs))
unfolding lex_str
read_plain c e cs p q = rw (p, q) refl

-- One character is read from its escape, where something follows.
read_char :
    (c e : ℕ) (cs : List ℕ) → lex_str (escape_char c ++ e ∷ cs) ≡ pushed c (lex_str (e ∷ cs))
read_char c e cs = elim (Bool-cases (c == quote)) [
  | inl a ↦ let x : c ≡ quote = (==_iff c quote).0 a in rw x (read_escape quote quote (e ∷ cs) refl)
  | inr a ↦ elim (Bool-cases (c == backslash)) [
    | inl b ↦
        let x : c ≡ backslash = (==_iff c backslash).0 b in
        rw x (read_escape backslash backslash (e ∷ cs) refl)
    | inr b ↦ elim (Bool-cases (c == 10)) [
      | inl d ↦ let x : c ≡ 10 = (==_iff c 10).0 d in rw x (read_escape 10 b'n' (e ∷ cs) refl)
      | inr d ↦ elim (Bool-cases (c == 9)) [
        | inl g ↦ let x : c ≡ 9 = (==_iff c 9).0 g in rw x (read_escape 9 b't' (e ∷ cs) refl)
        | inr g ↦ elim (Bool-cases (c == 13)) [
          | inl h ↦ let x : c ≡ 13 = (==_iff c 13).0 h in rw x (read_escape 13 b'r' (e ∷ cs) refl)
          | inr h ↦ rw (a, b, d, g, h) (read_plain c e cs a b)
        ]
      ]
    ]
  ]
]

append_cons :
    (xs : List ℕ) (y : ℕ) (ys : List ℕ) → (e : ℕ) × (cs : List ℕ) × (xs ++ y ∷ ys ≡ e ∷ cs)
append_cons [] y ys = (y, ys, refl)
append_cons (x ∷ xs) y ys = (x, xs ++ y ∷ ys, refl)

append_assoc : (xs ys zs : List ℕ) → (xs ++ ys) ++ zs ≡ xs ++ (ys ++ zs)
append_assoc [] ys zs = refl
append_assoc (x ∷ xs) ys zs = ap (λ (r : List ℕ). x ∷ r) (append_assoc xs ys zs)

read_end : (rest : List ℕ) → lex_str (quote ∷ rest) ≡ read [] rest
unfolding lex_str
read_end [] = refl
read_end (e ∷ cs) = refl

pub lex_str-escape : (s rest : List ℕ) → lex_str (escape s ++ quote ∷ rest) ≡ read s rest
unfolding escape
lex_str-escape [] rest = read_end rest
lex_str-escape (c ∷ s) rest =
    let t = append_cons (escape s) quote rest in
    ap lex_str (
      append_assoc (escape_char c) (escape s) (quote ∷ rest)
      ∙ ap (λ (r : List ℕ). escape_char c ++ r) t.2)
    ∙ read_char c t.0 t.1
    ∙ ap (λ (r : List ℕ). pushed c (lex_str r)) (sym t.2)
    ∙ ap (pushed c) (lex_str-escape s rest)
