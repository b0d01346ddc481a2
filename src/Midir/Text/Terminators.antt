-- ===== src/Midir/Text/Terminators.antt =====
-- Terminators of crates/midir/src/text.rs: what is printed is lexed and parsed back.
use mathlib.Core.List.{append_assoc}
use bet.Prelude.{ℕ, suc, ◌<◌, ◌^◌, ◌≡◌, refl, ap, ◌∙◌, false, List, [], ◌∷◌, ◌++◌, length, arith}
use bet.Midir.Ir.{Place, Operand, Terminator, goto, branch, holla_check}
use bet.Midir.Text.{Tok, ident, l_paren, r_paren, comma, percent, arrow, dot, CharClasses}
use bet.Midir.Text.Names.{codes}
use bet.Midir.Text.Decimal.{decimal, decimal-Digit}
use bet.Midir.Text.Printer.{
  FloatText, ◌+++◌, lit, print_operand, print_place, print_block, print_term,
}
use bet.Midir.Text.Parser.{
  Parser, Parsed, parsed, next_is, bound, pure, parse_place, parse_operand, all_projs,
}
use bet.Midir.Text.Terms.{
  starts_operand, branch_else, branch_to, check_dead, check_live, check_place, check_crib,
  terminator,
}
use bet.Midir.Text.Steps.{IsUnicode}
use bet.Midir.Text.Numerals.{Lexes-word, digits-word}
use bet.Midir.Text.Written.{
  Written, Written-some, Written-lead, Written-append, OpensText-char, Leads-keyword, Leads-call,
  Leads-comma, Leads-arrow_to, Leads-close_to, Leads-else,
}
use bet.Midir.Text.Constants.{block_id-label}
use bet.Midir.Text.Projections.{here, NoDot, OperandText, PlaceText}

abbrev pub label : ℕ → List ℕ
label bb = codes "bb" ++ decimal bb

-- What stands behind a terminator goes on with no place and no list of values.
pub record Closed (rest : List Tok) : Type 0 where
  pub no_dot : next_is dot rest ≡ false
  pub no_comma : next_is comma rest ≡ false
  pub no_operand : starts_operand rest ≡ false

module _ (U : CharClasses) (u : IsUnicode U) (F : FloatText) (s : Parser) where
  pub label-Written : (bb : ℕ) → Written U u (print_block bb) (ident (label bb) ∷ [])
  label-Written bb =
      let d = digits-word U u (decimal bb) (decimal-Digit bb) in
      Written-some U u (label bb) (ident (label bb) ∷ []) (Lexes-word U u (label bb) (rw d refl))

  -- An operand or a place, with more behind it.
  pub operand_reads :
      (op : Operand) (o : OperandText U u F s op) (rest : List Tok)
      → NoDot U u F s rest
      → parse_operand F (here U u F s (o.0 ++ rest)) ≡ parsed op (here U u F s rest)
  unfolding parse_operand
  operand_reads op o rest nd =
      o.2 (all_projs F) rest (λ t n le short. (suc (length t.toks), omega arith, refl)) nd

  pub operand_then :
      (op : Operand) (o : OperandText U u F s op) (more rest : List Tok)
      → NoDot U u F s (more ++ rest)
      → parse_operand F (here U u F s ((o.0 ++ more) ++ rest))
        ≡ parsed op (here U u F s (more ++ rest))
  operand_then op o more rest nd =
      ap (λ (ts : List Tok). parse_operand F (here U u F s ts)) (append_assoc o.0 more rest)
      ∙ operand_reads op o (more ++ rest) nd

  place_then :
      (p : Place) (o : PlaceText U u F s p) (more rest : List Tok)
      → NoDot U u F s (more ++ rest)
      → parse_place F (here U u F s (percent ∷ ((o.0 ++ more) ++ rest)))
        ≡ parsed p (here U u F s (more ++ rest))
  unfolding parse_place
  place_then p o more rest nd =
      ap (λ (ts : List Tok). parse_place F (here U u F s (percent ∷ ts)))
        (append_assoc o.0 more rest)
      ∙ o.2 (all_projs F) (more ++ rest) (λ t n le short. (suc (length t.toks), omega arith, refl))
          nd

  -- The tokens that a terminator is written as, and that are parsed as it.
  abbrev pub TermText : Terminator → Type 0
  TermText t =
      (ts : List Tok) × Written U u (print_term F s.m t) ts
      × ((rest : List Tok)
          → Closed rest
          → terminator F (here U u F s (ts ++ rest)) ≡ parsed t (here U u F s rest))

  pub goto_text : (bb : ℕ) → bb < 2 ^ 32 → TermText (goto bb)
  unfolding print_term terminator
  goto_text bb h = (
    ident (codes "goto") ∷ ident (label bb) ∷ [],
    Written-lead U u (codes "goto ") (print_block bb) (ident (codes "goto") ∷ [])
        (ident (label bb) ∷ []) (Leads-keyword U u (codes "goto") refl) (label-Written bb),
    λ rest closed. ap (λ (r : Parsed ℕ). bound r (λ x. pure (goto x))) (block_id-label s bb rest h),
  )

  -- ` else `, and the label behind it.
  else-Written :
      (bb : ℕ)
      → Written U u (lit " else " +++ print_block bb) (ident (codes "else") ∷ ident (label bb) ∷ [])
  else-Written bb =
      Written-lead U u (codes " else ") (print_block bb) (ident (codes "else") ∷ [])
        (ident (label bb) ∷ []) (Leads-else U u) (label-Written bb)

  labels-Written :
      (a b : ℕ)
      → Written U u
          (print_block a +++ (lit " else " +++ print_block b))
          (ident (label a) ∷ ident (codes "else") ∷ ident (label b) ∷ [])
  labels-Written a b =
      Written-append U u (print_block a) (lit " else " +++ print_block b) (ident (label a) ∷ [])
        (ident (codes "else") ∷ ident (label b) ∷ []) (label-Written a) (else-Written b)
        (OpensText-char U u 32 (codes "else ") (print_block b) refl)

  pub branch_text :
      (c : Operand) (a b : ℕ)
      → OperandText U u F s c
      → a < 2 ^ 32
      → b < 2 ^ 32
      → TermText (branch c a b)
  unfolding print_term terminator
  branch_text c a b o ha hb =
      let more = arrow ∷ ident (label a) ∷ ident (codes "else") ∷ ident (label b) ∷ [] in
      let tail = lit " -> " +++ (print_block a +++ (lit " else " +++ print_block b)) in
      (
        ident (codes "branch") ∷ (o.0 ++ more),
        Written-lead U u (codes "branch ") (print_operand F s.m c +++ tail)
            (ident (codes "branch") ∷ []) (o.0 ++ more) (Leads-keyword U u (codes "branch") refl)
            (Written-append U u (print_operand F s.m c) tail o.0 more o.1
              (Written-lead U u (codes " -> ") (print_block a +++ (lit " else " +++ print_block b))
                (arrow ∷ []) (ident (label a) ∷ ident (codes "else") ∷ ident (label b) ∷ [])
                (Leads-arrow_to U u) (labels-Written a b))
              (OpensText-char U u 32 (codes "-> ")
                (print_block a +++ (lit " else " +++ print_block b)) refl)),
        λ rest closed.
            ap (λ (r : Parsed Operand). bound r (branch_to F)) (operand_then c o more rest refl)
            ∙ ap (λ (r : Parsed ℕ). bound r (branch_else F c))
                (block_id-label s a (ident (codes "else") ∷ ident (label b) ∷ rest) ha)
            ∙ ap (λ (r : Parsed ℕ). bound r (λ e. pure (branch c a e)))
                (block_id-label s b rest hb),
      )

  pub check_text :
      (tag crib : Operand) (p : Place) (a b : ℕ)
      → OperandText U u F s tag
      → OperandText U u F s crib
      → PlaceText U u F s p
      → a < 2 ^ 32
      → b < 2 ^ 32
      → TermText (holla_check tag crib p a b)
  unfolding print_term terminator
  check_text tag crib p a b ot oc op ha hb =
      let ends = ident (label a) ∷ ident (codes "else") ∷ ident (label b) ∷ [] in
      let more = r_paren ∷ arrow ∷ ends in
      let placed = comma ∷ percent ∷ (op.0 ++ more) in
      let cribbed = comma ∷ (oc.0 ++ placed) in
      let last = print_block a +++ (lit " else " +++ print_block b) in
      let w1 =
        Written-lead U u (codes ") -> ") last (r_paren ∷ arrow ∷ []) ends (Leads-close_to U u)
          (labels-Written a b) in
      let w2 =
        Written-append U u (print_place F s.m p) (lit ") -> " +++ last) (percent ∷ op.0) more op.1
          w1 (OpensText-char U u b')' (codes " -> ") last refl) in
      let x2 = print_place F s.m p +++ (lit ") -> " +++ last) in
      let w3 =
        Written-lead U u (codes ", ") x2 (comma ∷ []) (percent ∷ (op.0 ++ more)) (Leads-comma U u)
          w2 in
      let w4 =
        Written-append U u (print_operand F s.m crib) (lit ", " +++ x2) oc.0 placed oc.1 w3
          (OpensText-char U u b',' (32 ∷ []) x2 refl) in
      let x4 = print_operand F s.m crib +++ (lit ", " +++ x2) in
      let w5 =
        Written-lead U u (codes ", ") x4 (comma ∷ []) (oc.0 ++ placed) (Leads-comma U u) w4 in
      let w6 =
        Written-append U u (print_operand F s.m tag) (lit ", " +++ x4) ot.0 cribbed ot.1 w5
          (OpensText-char U u b',' (32 ∷ []) x4 refl) in
      (
        ident (codes "holla_check") ∷ l_paren ∷ (ot.0 ++ cribbed),
        Written-lead U u (codes "holla_check(") (print_operand F s.m tag +++ (lit ", " +++ x4))
            (ident (codes "holla_check") ∷ l_paren ∷ []) (ot.0 ++ cribbed)
            (Leads-call U u (codes "holla_check") refl) w6,
        λ rest closed.
            ap (λ (r : Parsed Operand). bound r (check_crib F))
              (operand_then tag ot cribbed rest refl)
            ∙ ap (λ (r : Parsed Operand). bound r (check_place F tag))
                (operand_then crib oc placed rest refl)
            ∙ ap (λ (r : Parsed Place). bound r (check_live F tag crib))
                (place_then p op more rest refl)
            ∙ ap (λ (r : Parsed ℕ). bound r (check_dead F tag crib p))
                (block_id-label s a (ident (codes "else") ∷ ident (label b) ∷ rest) ha)
            ∙ ap (λ (r : Parsed ℕ). bound r (λ e. pure (holla_check tag crib p a e)))
                (block_id-label s b rest hb),
      )
