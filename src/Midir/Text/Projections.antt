-- ===== src/Midir/Text/Projections.antt =====
-- Projections of crates/midir/src/text.rs: what is printed is lexed and parsed back.
use mathlib.Core.List.{append_assoc}
use bet.Prelude.{
  ℕ, zero, suc, ◌<◌, ◌≤◌, ◌^◌, ◌≡◌, refl, ap, sym, ◌∙◌, subst, Bool, true, false, Option, none,
  some, List, [], ◌∷◌, ◌++◌, length, length-append, arith,
}
use bet.Midir.Ir.{
  Place, place, Projs, no_proj, then_proj, Proj, field, index, deref, downcast, Operand, const,
  copy, moved,
}
use bet.Midir.Text.{Tok, ident, num, l_paren, r_paren, percent, dot, CharClasses}
use bet.Midir.Text.Names.{codes}
use bet.Midir.Text.Decimal.{decimal, is_ascii_letter}
use bet.Midir.Text.Printer.{
  FloatText, ◌+++◌, lit, print_operand, print_place, print_projs, print_proj,
}
use bet.Midir.Text.Parser.{
  Parser, Parse, Parsed, parsed, next_is, bound, pure, expect, place_by, operand_by, proj_of, projs,
}
use bet.Midir.Text.Terms.{starts_operand}
use bet.Midir.Text.Steps.{IsUnicode, Opens, Leads-mark, Leads-nil, Lexes-lead}
use bet.Midir.Text.Numerals.{Opens-field, Opens-nil, Lexes-decimal, Lexes-word}
use bet.Midir.Text.Written.{
  Written, OpensText, Written-some, Written-lead, Written-append, Opens-some, Leads-close,
  Leads-method, Leads→Lexes,
}
use bet.Midir.Text.Constants.{bare_u32-decimal}
use bet.Midir.Text.Operands.{at, PrintableConst, not_null}

-- A text that starts with a point and a letter, whatever follows.
abbrev HeadDot : Option (List ℕ) → Type 0
HeadDot o =
    (t : List ℕ)
    → o ≡ some t
    → (c : ℕ) × (cs : List ℕ) × (t ≡ b'.' ∷ c ∷ cs) × (is_ascii_letter c ≡ true)

HeadDot-lead :
    (c : ℕ) (cs : List ℕ) (o : Option (List ℕ))
    → is_ascii_letter c ≡ true
    → HeadDot (some (b'.' ∷ c ∷ cs) +++ o)
HeadDot-lead c cs none h t e = absurd (let no : ⊥ = cc in no)
HeadDot-lead c cs (some x) h t e = (c, cs ++ x, cc, h)

HeadDot-some : (c : ℕ) (cs : List ℕ) → is_ascii_letter c ≡ true → HeadDot (some (b'.' ∷ c ∷ cs))
HeadDot-some c cs h t e = (c, cs, cc, h)

module _ (U : CharClasses) (u : IsUnicode U) (F : FloatText) (s : Parser) where
  HeadDot-opens : (o p : Option (List ℕ)) → HeadDot o → OpensText U u (o +++ p)
  HeadDot-opens none p h t e = absurd (let no : ⊥ = cc in no)
  HeadDot-opens (some x) none h t e = absurd (let no : ⊥ = cc in no)
  HeadDot-opens (some x) (some y) h t e =
      let d = h x refl in
      let q : b'.' ∷ d.0 ∷ (d.1 ++ y) ≡ t = ap (λ (z : List ℕ). z ++ y) (sym d.2) ∙ cc in
      subst (Opens U u) q (Opens-field U u d.0 (d.1 ++ y) d.3)

  abbrev pub here : List Tok → Parser
  here = at U u F s

  -- What can be printed: constants that can, and ids of 32 bits.
  unfoldable mutual
    pub PrintableOperand : Operand → Type 0
    PrintableOperand (const c) = PrintableConst U u F s c
    PrintableOperand (copy p) = PrintablePlace p
    PrintableOperand (moved p) = PrintablePlace p

    pub PrintablePlace : Place → Type 0
    PrintablePlace (place local ps) = (local < 2 ^ 32) × PrintableProjs ps

    pub PrintableProjs : Projs → Type 0
    PrintableProjs no_proj = Unit
    PrintableProjs (then_proj p ps) = PrintableProj p × PrintableProjs ps

    pub PrintableProj : Proj → Type 0
    PrintableProj (field i) = i < 2 ^ 32
    PrintableProj (index op) = PrintableOperand op
    PrintableProj deref = Unit
    PrintableProj (downcast v) = v < 2 ^ 32

  -- A loop over the projections with fuel for `n` tokens.
  abbrev pub Enough : ℕ → Parse Projs → Type 0
  Enough most next =
      (t : Parser) (n : ℕ)
      → n ≤ most
      → n ≤ length t.toks
      → (f : ℕ) × (n < f) × (next t ≡ projs F f t)

  abbrev pub NoDot : List Tok → Type 0
  NoDot rest = next_is dot rest ≡ false

  abbrev pub ProjsText : Projs → Type 0
  ProjsText ps =
      (ts : List Tok) × Written U u (print_projs F s.m ps) ts
      × OpensText U u (print_projs F s.m ps)
      × ((f : ℕ) (rest : List Tok)
          → length ts < f
          → NoDot rest
          → projs F f (here (ts ++ rest)) ≡ parsed ps (here rest))

  abbrev pub ProjText : Proj → Type 0
  ProjText p =
      (w : List ℕ) × (ts : List Tok) × Written U u (print_proj F s.m p) (dot ∷ ident w ∷ ts)
      × HeadDot (print_proj F s.m p)
      × ((f : ℕ) (rest : List Tok)
          → length ts < f
          → proj_of F (projs F f) w (here (ts ++ rest)) ≡ parsed p (here rest))

  abbrev pub PlaceText : Place → Type 0
  PlaceText p =
      (ts : List Tok) × Written U u (print_place F s.m p) (percent ∷ ts)
      × ((next : Parse Projs) (rest : List Tok)
          → Enough (length ts) next
          → NoDot rest
          → place_by F next (here (percent ∷ (ts ++ rest))) ≡ parsed p (here rest))

  -- What `starts_operand` sees.
  abbrev pub seen : Operand → Bool
  seen (const c) = not_null U u F s c
  seen (copy p) = true
  seen (moved p) = true

  abbrev pub OperandText : Operand → Type 0
  OperandText op =
      (ts : List Tok) × Written U u (print_operand F s.m op) ts
      × ((next : Parse Projs) (rest : List Tok)
          → Enough (length ts) next
          → NoDot rest
          → operand_by F next (here (ts ++ rest)) ≡ parsed op (here rest))
      × ((rest : List Tok) → starts_operand (ts ++ rest) ≡ seen op)

  -- A projection by a number.
  number-Written :
      (i : ℕ) → Written U u (some (decimal i) +++ lit ")") (num (decimal i) ∷ r_paren ∷ [])
  number-Written i =
      Written-append U u (some (decimal i)) (lit ")") (num (decimal i) ∷ []) (r_paren ∷ [])
        (Written-some U u (decimal i) (num (decimal i) ∷ []) (Lexes-decimal U u i))
        (Written-some U u (codes ")") (r_paren ∷ [])
          (Leads→Lexes U u (codes ")") (r_paren ∷ []) (Leads-close U u)))
        (Opens-some U u b')' [] refl)

  pub field_text : (i : ℕ) → i < 2 ^ 32 → ProjText (field i)
  unfolding print_proj
  field_text i h = (
    codes "field",
    l_paren ∷ num (decimal i) ∷ r_paren ∷ [],
    Written-lead U u (codes ".field(") (some (decimal i) +++ lit ")")
        (dot ∷ ident (codes "field") ∷ l_paren ∷ []) (num (decimal i) ∷ r_paren ∷ [])
        (Leads-method U u (codes "field") refl) (number-Written i),
    HeadDot-lead b'f' (codes "ield(") (some (decimal i) +++ lit ")") refl,
    λ f rest lt.
        ap
          (λ (r : Parsed ℕ).
            bound (bound r (λ k. pure (field k)))
              (λ a. λ t. bound (expect r_paren t) (λ _. pure a)))
          (bare_u32-decimal s i (r_paren ∷ rest) h),
  )

  pub downcast_text : (v : ℕ) → v < 2 ^ 32 → ProjText (downcast v)
  unfolding print_proj
  downcast_text v h = (
    codes "downcast",
    l_paren ∷ num (decimal v) ∷ r_paren ∷ [],
    Written-lead U u (codes ".downcast(") (some (decimal v) +++ lit ")")
        (dot ∷ ident (codes "downcast") ∷ l_paren ∷ []) (num (decimal v) ∷ r_paren ∷ [])
        (Leads-method U u (codes "downcast") refl) (number-Written v),
    HeadDot-lead b'd' (codes "owncast(") (some (decimal v) +++ lit ")") refl,
    λ f rest lt.
        ap
          (λ (r : Parsed ℕ).
            bound (bound r (λ k. pure (downcast k)))
              (λ a. λ t. bound (expect r_paren t) (λ _. pure a)))
          (bare_u32-decimal s v (r_paren ∷ rest) h),
  )

  pub deref_text : ProjText deref
  unfolding print_proj
  deref_text = (
    codes "deref",
    [],
    (
      codes ".deref",
      refl,
      Lexes-lead U u (b'.' ∷ []) (codes "deref") (dot ∷ []) (ident (codes "deref") ∷ [])
          (Leads-mark U u b'.' dot [] [] refl refl (Leads-nil U u))
          (Lexes-word U u (codes "deref") refl),
    ),
    HeadDot-some b'd' (codes "eref") refl,
    λ f rest lt. refl,
  )

  pub index_text : (op : Operand) → OperandText op → ProjText (index op)
  unfolding print_proj
  index_text op o = (
    codes "index",
    l_paren ∷ (o.0 ++ r_paren ∷ []),
    Written-lead U u (codes ".index(") (print_operand F s.m op +++ lit ")")
        (dot ∷ ident (codes "index") ∷ l_paren ∷ []) (o.0 ++ r_paren ∷ [])
        (Leads-method U u (codes "index") refl)
        (Written-append U u (print_operand F s.m op) (lit ")") o.0 (r_paren ∷ []) o.1
          (Written-some U u (codes ")") (r_paren ∷ [])
            (Leads→Lexes U u (codes ")") (r_paren ∷ []) (Leads-close U u)))
          (Opens-some U u b')' [] refl)),
    HeadDot-lead b'i' (codes "ndex(") (print_operand F s.m op +++ lit ")") refl,
    λ f rest lt.
        let l = length-append o.0 (r_paren ∷ []) in
        ap
          (λ (ts : List Tok).
            bound (bound (operand_by F (projs F f) (here ts)) (λ a. pure (index a)))
              (λ a. λ t. bound (expect r_paren t) (λ _. pure a)))
          (append_assoc o.0 (r_paren ∷ []) rest)
        ∙ ap
            (λ (r : Parsed Operand).
              bound (bound r (λ a. pure (index a)))
                (λ a. λ t. bound (expect r_paren t) (λ _. pure a)))
            (o.2 (projs F f) (r_paren ∷ rest) (λ t n le short. (f, omega arith, refl)) refl),
  )

  pub no_proj_text : ProjsText no_proj
  unfolding print_projs projs
  no_proj_text = (
    [],
    ([], refl, λ rest b. refl),
    (λ t e. (let q : [] ≡ t = cc in subst (Opens U u) q (Opens-nil U u))),
    loop,
  )
    where
      loop :
          (f : ℕ) (rest : List Tok)
          → 0 < f
          → NoDot rest
          → projs F f (here rest) ≡ parsed no_proj (here rest)
      loop zero rest lt n = absurd (omega arith)
      loop (suc f) rest lt n = rw n refl

  pub then_proj_text :
      (p : Proj) (ps : Projs) → ProjText p → ProjsText ps → ProjsText (then_proj p ps)
  unfolding print_projs projs
  then_proj_text p ps a b = (
    dot ∷ ident a.0 ∷ (a.1 ++ b.0),
    Written-append U u (print_proj F s.m p) (print_projs F s.m ps) (dot ∷ ident a.0 ∷ a.1) b.0 a.2
        b.1 b.2,
    HeadDot-opens (print_proj F s.m p) (print_projs F s.m ps) a.3,
    loop,
  )
    where
      loop :
          (f : ℕ) (rest : List Tok)
          → suc (suc (length (a.1 ++ b.0))) < f
          → NoDot rest
          → projs F f (here (dot ∷ ident a.0 ∷ ((a.1 ++ b.0) ++ rest)))
            ≡ parsed (then_proj p ps) (here rest)
      loop zero rest lt n = absurd (omega arith)
      loop (suc f) rest lt n =
          let l = length-append a.1 b.0 in
          ap
            (λ (ts : List Tok).
              bound (proj_of F (projs F f) a.0 (here ts))
                (λ x. λ t. bound (projs F f t) (λ xs. pure (then_proj x xs))))
            (append_assoc a.1 b.0 rest)
          ∙ ap
              (λ (r : Parsed Proj).
                bound r (λ x. λ t. bound (projs F f t) (λ xs. pure (then_proj x xs))))
              (a.4 f (b.0 ++ rest) (omega arith))
          ∙ ap (λ (r : Parsed Projs). bound r (λ xs. pure (then_proj p xs)))
              (b.3 f rest (omega arith) n)
