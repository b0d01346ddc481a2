-- ===== src/Midir/Text/Listed.antt =====
-- The lists of cases and of values in the terminators of crates/midir/src/text.rs.
use mathlib.Core.List.{append_assoc}
use bet.Prelude.{
  ℕ, zero, suc, ◌<◌, ◌≤◌, ◌^◌, ◌≡◌, refl, ap, ◌∙◌, Bool, true, false, some, List, [], ◌∷◌, ◌++◌,
  length, length-append, All, arith,
}
use bet.Midir.Ir.{Operand, switch, return}
use bet.Midir.Text.{Tok, ident, num, l_bracket, r_bracket, comma, arrow, CharClasses}
use bet.Midir.Text.Names.{codes}
use bet.Midir.Text.Decimal.{decimal}
use bet.Midir.Text.Printer.{
  FloatText, ◌+++◌, lit, joined_by, mapped, print_operand, print_block, print_case, print_term,
}
use bet.Midir.Text.Parser.{Parser, Parse, Parsed, parsed, bound, pure, expect, bare_u64, block_id}
use bet.Midir.Text.Terms.{
  starts_operand, cases_from, all_cases, vals_from, some_vals, switch_default, switch_on,
  terminator,
}
use bet.Midir.Text.Steps.{IsUnicode}
use bet.Midir.Text.Numerals.{Lexes-decimal}
use bet.Midir.Text.Written.{
  Written, Written-some, Written-lead, Written-append, OpensText-char, Leads-keyword, Leads-comma,
  Leads-arrow_to, Leads-open_list, Leads-close_list,
}
use bet.Midir.Text.Constants.{bare_u64-decimal, block_id-label}
use bet.Midir.Module.Interning.{IsModule}
use bet.Midir.Text.Projections.{here, seen, PrintableOperand, OperandText}
use bet.Midir.Text.Places.{operand_text}
use bet.Midir.Text.Terminators.{label, label-Written, operand_reads, operand_then, Closed, TermText}

-- A case is a `u64` and a label.
abbrev pub PrintableCase : ℕ × ℕ → Type 0
PrintableCase c = (c.0 < 2 ^ 64) × (c.1 < 2 ^ 32)

abbrev cases_toks : List (ℕ × ℕ) → Bool → List Tok
cases_toks [] first = []
cases_toks (c ∷ cs) true = num (decimal c.0) ∷ arrow ∷ ident (label c.1) ∷ cases_toks cs false
cases_toks (c ∷ cs) false =
    comma ∷ num (decimal c.0) ∷ arrow ∷ ident (label c.1) ∷ cases_toks cs false

length-cases_toks : (cs : List (ℕ × ℕ)) (first : Bool) → length cs ≤ length (cases_toks cs first)
length-cases_toks [] first = omega arith
length-cases_toks (c ∷ cs) true = omega (arith, length-cases_toks cs false)
length-cases_toks (c ∷ cs) false = omega (arith, length-cases_toks cs false)

module _ (U : CharClasses) (u : IsUnicode U) (F : FloatText) (s : Parser) where
  case-Written :
      (c : ℕ × ℕ) → Written U u (print_case c) (num (decimal c.0) ∷ arrow ∷ ident (label c.1) ∷ [])
  case-Written c =
      Written-append U u (some (decimal c.0)) (lit " -> " +++ print_block c.1)
        (num (decimal c.0) ∷ []) (arrow ∷ ident (label c.1) ∷ [])
        (Written-some U u (decimal c.0) (num (decimal c.0) ∷ []) (Lexes-decimal U u c.0))
        (Written-lead U u (codes " -> ") (print_block c.1) (arrow ∷ []) (ident (label c.1) ∷ [])
          (Leads-arrow_to U u) (label-Written U u F s c.1))
        (OpensText-char U u 32 (codes "-> ") (print_block c.1) refl)

  cases-Written :
      (cs : List (ℕ × ℕ))
      → Written U u (joined_by (codes ", ") (mapped print_case cs)) (cases_toks cs true)
  cases-Written [] = ([], refl, λ rest b. refl)
  cases-Written (c ∷ []) = case-Written c
  cases-Written (c ∷ d ∷ cs) =
      let more = joined_by (codes ", ") (mapped print_case (d ∷ cs)) in
      Written-append U u (print_case c) (some (codes ", ") +++ more)
        (num (decimal c.0) ∷ arrow ∷ ident (label c.1) ∷ []) (comma ∷ cases_toks (d ∷ cs) true)
        (case-Written c)
        (Written-lead U u (codes ", ") more (comma ∷ []) (cases_toks (d ∷ cs) true)
          (Leads-comma U u) (cases-Written (d ∷ cs)))
        (OpensText-char U u b',' (32 ∷ []) more refl)

  module _ (f : ℕ) where
    then_cases : ℕ → ℕ → Parse (List (ℕ × ℕ))
    then_cases v bb t = bound (cases_from f false t) (λ cs. pure ((v, bb) ∷ cs))

    then_label : ℕ → Parse (List (ℕ × ℕ))
    unfolding then_cases
    then_label v t = bound (expect arrow t) (λ _. λ t'. bound (block_id t') (then_cases v))

    case_read :
        (c : ℕ × ℕ) (rest : List Tok)
        → PrintableCase c
        → bound
            (bare_u64 (here U u F s (num (decimal c.0) ∷ arrow ∷ ident (label c.1) ∷ rest)))
            then_label
          ≡ bound (cases_from f false (here U u F s rest)) (λ cs. pure (c ∷ cs))
    unfolding then_label then_cases
    case_read c rest h =
        ap (λ (r : Parsed ℕ). bound r then_label)
          (bare_u64-decimal s c.0 (arrow ∷ ident (label c.1) ∷ rest) h.0)
        ∙ ap (λ (r : Parsed ℕ). bound r (then_cases c.0)) (block_id-label s c.1 rest h.1)

  cases_read :
      (f : ℕ) (first : Bool) (cs : List (ℕ × ℕ)) (rest : List Tok)
      → length cs < f
      → All PrintableCase cs
      → cases_from f first (here U u F s (cases_toks cs first ++ r_bracket ∷ rest))
        ≡ parsed cs (here U u F s rest)
  unfolding cases_from then_label then_cases
  cases_read zero first cs rest lt h = absurd (omega arith)
  cases_read (suc f) first [] rest lt h = refl
  cases_read (suc f) true (c ∷ cs) rest lt h =
      case_read f c (cases_toks cs false ++ r_bracket ∷ rest) h.0
      ∙ ap (λ (r : Parsed (List (ℕ × ℕ))). bound r (λ ds. pure (c ∷ ds)))
          (cases_read f false cs rest (omega arith) h.1)
  cases_read (suc f) false (c ∷ cs) rest lt h =
      case_read f c (cases_toks cs false ++ r_bracket ∷ rest) h.0
      ∙ ap (λ (r : Parsed (List (ℕ × ℕ))). bound r (λ ds. pure (c ∷ ds)))
          (cases_read f false cs rest (omega arith) h.1)

  pub switch_text :
      (op : Operand) (cs : List (ℕ × ℕ)) (d : ℕ)
      → OperandText U u F s op
      → All PrintableCase cs
      → d < 2 ^ 32
      → TermText U u F s (switch op cs d)
  unfolding print_term terminator
  switch_text op cs d o h hd =
      let tail = r_bracket ∷ ident (codes "else") ∷ ident (label d) ∷ [] in
      let more = l_bracket ∷ (cases_toks cs true ++ tail) in
      let x = joined_by (codes ", ") (mapped print_case cs) in
      let y = lit "] else " +++ print_block d in
      let w1 =
        Written-lead U u (codes "] else ") (print_block d) (r_bracket ∷ ident (codes "else") ∷ [])
          (ident (label d) ∷ []) (Leads-close_list U u) (label-Written U u F s d) in
      let w2 =
        Written-append U u x y (cases_toks cs true) tail (cases-Written cs) w1
          (OpensText-char U u b']' (codes " else ") (print_block d) refl) in
      let w3 =
        Written-lead U u (codes " [") (x +++ y) (l_bracket ∷ []) (cases_toks cs true ++ tail)
          (Leads-open_list U u) w2 in
      let w4 =
        Written-append U u (print_operand F s.m op) (lit " [" +++ (x +++ y)) o.0 more o.1 w3
          (OpensText-char U u 32 (codes "[") (x +++ y) refl) in
      (
        ident (codes "switch") ∷ (o.0 ++ more),
        Written-lead U u (codes "switch ") (print_operand F s.m op +++ (lit " [" +++ (x +++ y)))
            (ident (codes "switch") ∷ []) (o.0 ++ more) (Leads-keyword U u (codes "switch") refl)
            w4,
        λ rest closed.
            let l = length-cases_toks cs true in
            let k = length-append (cases_toks cs true) (tail ++ rest) in
            ap (λ (r : Parsed Operand). bound r (switch_on F))
              (operand_then U u F s op o more rest refl)
            ∙ ap (λ (ts : List Tok). bound (all_cases (here U u F s ts)) (switch_default F op))
                (append_assoc (cases_toks cs true) tail rest)
            ∙ ap (λ (r : Parsed (List (ℕ × ℕ))). bound r (switch_default F op))
                (cases_read (suc (length (cases_toks cs true ++ (tail ++ rest)))) true cs
                  (ident (codes "else") ∷ ident (label d) ∷ rest) (omega arith) h)
            ∙ ap (λ (r : Parsed ℕ). bound r (λ e. pure (switch op cs e)))
                (block_id-label s d rest hd),
      )

  -- A list of values, of which there is one.
  abbrev pub ListText : Operand → List Operand → Type 0
  ListText v vs =
      (ts : List Tok) × Written U u (joined_by (codes ", ") (mapped (print_operand F s.m) (v ∷ vs)))
        ts
      × ((rest : List Tok) → starts_operand (ts ++ rest) ≡ seen U u F s v)
      × (length vs ≤ length ts)
      × ((f : ℕ) (rest : List Tok)
          → length vs < f
          → Closed rest
          → some_vals F f (here U u F s (ts ++ rest)) ≡ parsed (v ∷ vs) (here U u F s rest))

  one_text : (v : Operand) → OperandText U u F s v → ListText v []
  unfolding vals_from
  one_text v o = (o.0, o.1, o.3, omega arith, loop)
    where
      loop :
          (f : ℕ) (rest : List Tok)
          → 0 < f
          → Closed rest
          → some_vals F f (here U u F s (o.0 ++ rest)) ≡ parsed (v ∷ []) (here U u F s rest)
      loop zero rest lt c = absurd (omega arith)
      loop (suc f) rest lt c =
          ap
            (λ (r : Parsed Operand).
              bound r (λ x. λ t. bound (vals_from F (suc f) t) (λ xs. pure (x ∷ xs))))
            (operand_reads U u F s v o rest c.no_dot)
          ∙ (let n = c.no_comma in rw n refl)

  more_text :
      (v w : Operand) (vs : List Operand)
      → OperandText U u F s v
      → ListText w vs
      → ListText v (w ∷ vs)
  unfolding vals_from
  more_text v w vs o l =
      let x = joined_by (codes ", ") (mapped (print_operand F s.m) (w ∷ vs)) in
      let k = length-append o.0 (comma ∷ l.0) in
      (
        o.0 ++ comma ∷ l.0,
        Written-append U u (print_operand F s.m v) (some (codes ", ") +++ x) o.0 (comma ∷ l.0) o.1
            (Written-lead U u (codes ", ") x (comma ∷ []) l.0 (Leads-comma U u) l.1)
            (OpensText-char U u b',' (32 ∷ []) x refl),
        λ rest.
            ap starts_operand (append_assoc o.0 (comma ∷ l.0) rest) ∙ o.3 (comma ∷ (l.0 ++ rest)),
        (let q = l.3 in omega arith),
        loop,
      )
    where
      loop :
          (f : ℕ) (rest : List Tok)
          → suc (length vs) < f
          → Closed rest
          → some_vals F f (here U u F s ((o.0 ++ comma ∷ l.0) ++ rest))
            ≡ parsed (v ∷ w ∷ vs) (here U u F s rest)
      loop zero rest lt c = absurd (omega arith)
      loop (suc f) rest lt c =
          ap
            (λ (r : Parsed Operand).
              bound r (λ x. λ t. bound (vals_from F (suc f) t) (λ xs. pure (x ∷ xs))))
            (operand_then U u F s v o (comma ∷ l.0) rest refl)
          ∙ ap (λ (r : Parsed (List Operand)). bound r (λ xs. pure (v ∷ xs)))
              (l.4 f rest (omega arith) c)

  pub list_text :
      (v : Operand) (vs : List Operand)
      → IsModule s.m
      → PrintableOperand U u F s v
      → All (PrintableOperand U u F s) vs
      → ListText v vs
  list_text v [] im p h = one_text v (operand_text U u F s im v p)
  list_text v (w ∷ vs) im p h =
      more_text v w vs (operand_text U u F s im v p) (list_text w vs im h.0 h.1)

  pub return_text :
      (v : Operand) (vs : List Operand)
      → ListText v vs
      → seen U u F s v ≡ true
      → TermText U u F s (return (v ∷ vs))
  unfolding print_term terminator
  return_text v vs l e = (
    ident (codes "return") ∷ l.0,
    Written-lead U u (codes "return ")
        (joined_by (codes ", ") (mapped (print_operand F s.m) (v ∷ vs)))
        (ident (codes "return") ∷ []) l.0 (Leads-keyword U u (codes "return") refl) l.1,
    λ rest closed.
        let q = l.2 rest ∙ e in
        let k = length-append l.0 rest in
        let le = l.3 in
        rw q (
          ap (λ (r : Parsed (List Operand)). bound r (λ xs. pure (return xs)))
            (l.4 (suc (length (l.0 ++ rest))) rest (omega arith) closed)),
  )

  -- The printed values stay behind where the first of them is not seen.
  pub unseen_text :
      (v : Operand) (vs : List Operand) (l : ListText v vs) (rest : List Tok)
      → seen U u F s v ≡ false
      → terminator F (here U u F s (ident (codes "return") ∷ (l.0 ++ rest)))
        ≡ parsed (return []) (here U u F s (l.0 ++ rest))
  unfolding terminator
  unseen_text v vs l rest e = let q = l.2 rest ∙ e in rw q refl
