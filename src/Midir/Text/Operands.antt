-- ===== src/Midir/Text/Operands.antt =====
-- Constants of crates/midir/src/text.rs: what is printed is lexed and parsed back.
use mathlib.Core.List.{append-nil}
use bet.Prelude.{
  ℕ, ◌≡◌, ◌≢◌, refl, ap, sym, ◌∙◌, subst, ◌⊎◌, inl, inr, Bool, true, false, Option, some, List, [],
  ◌∷◌, ◌++◌, get_elem?, All, append-All,
}
use bet.Midir.Ir.{ℤ, Const, int, float, bool, str, ghosted, null_ptr, fn_ref, Func, Projs, const}
use bet.Midir.Module.{IntWidth, TyKind, int_ty, f32, f64}
use bet.Midir.Module.Interning.{IsModule}
use bet.Midir.Text.{Tok, ident, num, at_sign, CharClasses, quote, escape}
use bet.Midir.Text as Text
use bet.Midir.Text.Names.{codes, int_name}
use bet.Midir.Text.Decimal.{
  decimal, decimal_int, split_num, is_ascii_letter, Digit, NoLetter, Begins, decimal-Begins,
  Digit→NoLetter, split_num-suffix, IsI128,
}
use bet.Midir.Text.Printer.{FloatText, ◌+++◌, named, print_const, int_suffix, float_suffix}
use bet.Midir.Text.Parser.{
  Parser, Parse, Parsed, parsed, lookup, const_val, number_const, suffixed, float_const, bound,
  or_refuse, operand_by, pure, unknown_function,
}
use bet.Midir.Text.Terms.{starts_operand}
use bet.Midir.Text.Steps.{IsUnicode, Lexes, IsName, Lexes-name}
use bet.Midir.Text.Numerals.{sign_text, IsPart, Lexes-suffixed, Leads-quoted, Lexes-word, is_suffix}
use bet.Midir.Text.Written.{Written, Written-lead, Leads-at, Leads→Lexes}
use bet.Midir.Text.Constants.{
  number_const-int, number_const-float, int_name_lem, is_negative, magnitude, decimal_int_lem,
  sign-NoLetter,
}

module _ (U : CharClasses) (u : IsUnicode U) (F : FloatText) (s : Parser) where
  -- The parser at some tokens.
  abbrev pub at : List Tok → Parser
  at ts = record s { toks = ts }

  -- The float is written as a decimal, which no infinity and no NaN is, and is read back from that.
  pub record IsDecimal (bits : ℕ) : Type 0 where
    pub negative : Bool
    pub whole : List ℕ
    pub part : List ℕ
    pub shown : F.show bits ≡ sign_text negative ++ whole ++ part
    pub has_digits : Begins Digit whole
    pub has_part : IsPart part
    pub reads : F.read (F.show bits) ≡ some bits

  -- A constant that the text can stand for: its type is of its kind, and the function it names is known.
  abbrev pub PrintableConst : Const → Type 0
  PrintableConst (int v ty) =
      IsI128 v × ((w : IntWidth) × (b : Bool) × (get_elem? s.m.types ty ≡ some (int_ty w b)))
  PrintableConst (float bits ty) =
      IsDecimal bits × ((get_elem? s.m.types ty ≡ some f32) ⊎ (get_elem? s.m.types ty ≡ some f64))
  PrintableConst (bool b) = Unit
  PrintableConst (str t) = Unit
  PrintableConst ghosted = Unit
  PrintableConst null_ptr = Unit
  PrintableConst (fn_ref f) =
      (g : Func) × (get_elem? s.m.funcs f ≡ some g)
      × IsName U u g.name
      × (lookup g.name s.func_ids ≡ some f)

  -- `starts_operand` does not know `nullptr`.
  abbrev pub not_null : Const → Bool
  not_null null_ptr = false
  not_null _ = true

  -- The tokens that a constant is written as, and that are parsed as it wherever an operand stands.
  abbrev pub ConstText : Const → Type 0
  ConstText c =
      (ts : List Tok) × Written U u (print_const F s.m c) ts
      × ((next : Parse Projs) (rest : List Tok)
          → operand_by F next (at (ts ++ rest)) ≡ parsed (const c) (at rest))
      × ((rest : List Tok) → starts_operand (ts ++ rest) ≡ not_null c)

  word_text :
      (c : Const) (w : List ℕ)
      → print_const F s.m c ≡ some w
      → Lexes U u w (ident w ∷ [])
      → ((next : Parse Projs) (rest : List Tok)
          → operand_by F next (at (ident w ∷ rest)) ≡ parsed (const c) (at rest))
      → ((rest : List Tok) → starts_operand (ident w ∷ rest) ≡ not_null c)
      → ConstText c
  word_text c w e l r h = (ident w ∷ [], (w, e, l), r, h)

  number_text :
      (c : Const) (t : List ℕ)
      → print_const F s.m c ≡ some t
      → Lexes U u t (num t ∷ [])
      → ((rest : List Tok) → number_const F t (at rest) ≡ parsed c (at rest))
      → not_null c ≡ true
      → ConstText c
  unfolding const_val
  number_text c t e l r h = (
    num t ∷ [],
    (t, e, l),
    λ next rest. ap (λ (x : Parsed Const). bound x (λ a. pure (const a))) (r rest),
    λ rest. sym h,
  )

  int_text :
      (v : ℤ) (ty : ℕ) (w : IntWidth) (b : Bool)
      → IsModule s.m
      → IsI128 v
      → get_elem? s.m.types ty ≡ some (int_ty w b)
      → ConstText (int v ty)
  unfolding print_const
  int_text v ty w b im h e =
      let n = int_name_lem F w b in
      let sg = sign_text (is_negative F v) in
      let d = decimal (magnitude F v) in
      let q : sg ++ d ++ [] ≡ decimal_int v = append-nil (sg ++ d) ∙ sym (decimal_int_lem F v) in
      let ne : int_name w b ≢ [] = λ z. (let no : n.0 ∷ n.1 ≡ [] = sym n.2 ∙ z in cc) in
      let l =
        Lexes-suffixed U u (is_negative F v) d [] (int_name w b) (decimal-Begins (magnitude F v)) tt
          n.4 ne in
      number_text (int v ty) (decimal_int v ++ int_name w b)
        (ap (λ (o : Option TyKind). some (decimal_int v) +++ int_suffix o) e)
        (subst (λ (x : List ℕ). Lexes U u (x ++ int_name w b) (num (x ++ int_name w b) ∷ [])) q l)
        (λ rest. number_const-int F (at rest) v ty w b im e h) refl

  part-NoLetter : (part : List ℕ) → IsPart part → All NoLetter part
  part-NoLetter [] p = tt
  part-NoLetter (c ∷ []) p = absurd p
  part-NoLetter (c ∷ d ∷ ds) p = (rw p.0 refl, Digit→NoLetter (d ∷ ds) p.1)

  float_text :
      (bits ty : ℕ) (k : TyKind) (l : ℕ) (suf : List ℕ)
      → IsModule s.m
      → IsDecimal bits
      → get_elem? s.m.types ty ≡ some k
      → float_suffix (some k) ≡ some (l ∷ suf)
      → is_suffix (l ∷ suf) ≡ true
      → is_ascii_letter l ≡ true
      → ((t : List ℕ) → suffixed F (t, some (l ∷ suf)) ≡ float_const F t k)
      → ConstText (float bits ty)
  unfolding print_const
  float_text bits ty k l suf im d e q sf al f =
      let t = sign_text d.negative ++ d.whole ++ d.part in
      let nl : All NoLetter t =
        append-All NoLetter _ _
          (append-All NoLetter _ _ (sign-NoLetter F d.negative)
            (Digit→NoLetter d.whole (whole_digits d.has_digits)))
          (part-NoLetter d.part d.has_part) in
      let lx =
        Lexes-suffixed U u d.negative d.whole d.part (l ∷ suf) d.has_digits d.has_part sf
          (λ z. cc) in
      number_text (float bits ty) (F.show bits ++ l ∷ suf)
        (ap (λ (o : Option TyKind). some (F.show bits) +++ float_suffix o) e
          ∙ ap (λ (o : Option (List ℕ)). some (F.show bits) +++ o) q)
        (subst (λ (x : List ℕ). Lexes U u (x ++ l ∷ suf) (num (x ++ l ∷ suf) ∷ [])) (sym d.shown)
          lx)
        (λ rest.
          number_const-float F (at rest) bits ty (F.show bits) (l ∷ suf) k im e d.reads
            (subst (λ (x : List ℕ). split_num (x ++ l ∷ suf) ≡ (x, some (l ∷ suf))) (sym d.shown)
              (split_num-suffix t l suf nl al))
            (f (F.show bits)))
        refl
    where
      whole_digits : {w : List ℕ} → Begins Digit w → All Digit w
      whole_digits b = subst (All Digit) (sym b.2) (b.3, b.4)

  fn_text :
      (f : ℕ) (g : Func)
      → get_elem? s.m.funcs f ≡ some g
      → IsName U u g.name
      → lookup g.name s.func_ids ≡ some f
      → ConstText (fn_ref f)
  unfolding print_const const_val
  fn_text f g e n k = (
    at_sign ∷ ident g.name ∷ [],
    (let w =
          Written-lead U u (codes "@") (named (λ h. h.name) (get_elem? s.m.funcs f)) (at_sign ∷ [])
            (ident g.name ∷ []) (Leads-at U u)
            (g.name, ap (named (λ h. h.name)) e, Lexes-name U u g.name n) in
        w),
    λ next rest.
        ap
          (λ (o : Option ℕ).
            bound (bound (or_refuse unknown_function o (at rest)) (λ x. pure (fn_ref x)))
              (λ a. pure (const a)))
          k,
    λ rest. refl,
  )

  -- Every printable constant.
  pub const_text : (c : Const) → IsModule s.m → PrintableConst c → ConstText c
  unfolding print_const const_val
  const_text (int v ty) im h = int_text v ty h.1.0 h.1.1 im h.0 h.1.2
  const_text (float bits ty) im h = elim h.1 [
    | inl e ↦ float_text bits ty f32 102 (51 ∷ 50 ∷ []) im h.0 e refl refl refl (λ t. refl)
    | inr e ↦ float_text bits ty f64 102 (54 ∷ 52 ∷ []) im h.0 e refl refl refl (λ t. refl)
  ]
  const_text (bool true) im h =
      word_text (bool true) (codes "true") refl (Lexes-word U u (codes "true") refl)
        (λ next rest. refl) (λ rest. refl)
  const_text (bool false) im h =
      word_text (bool false) (codes "false") refl (Lexes-word U u (codes "false") refl)
        (λ next rest. refl) (λ rest. refl)
  const_text (str t) im h = (
    Text.str t ∷ [],
    (
      quote ∷ (escape t ++ quote ∷ []),
      refl,
      Leads→Lexes U u (quote ∷ (escape t ++ quote ∷ [])) (Text.str t ∷ []) (Leads-quoted U u t),
    ),
    λ next rest. refl,
    λ rest. refl,
  )
  const_text ghosted im h =
      word_text ghosted (codes "ghosted") refl (Lexes-word U u (codes "ghosted") refl)
        (λ next rest. refl) (λ rest. refl)
  const_text null_ptr im h =
      word_text null_ptr (codes "nullptr") refl (Lexes-word U u (codes "nullptr") refl)
        (λ next rest. refl) (λ rest. refl)
  const_text (fn_ref f) im h = fn_text f h.0 h.1 h.2 h.3
