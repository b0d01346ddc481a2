-- ===== src/Midir/Text/RoundTrip.antt =====
-- The printer of crates/midir/src/text.rs, its lexer and its parser together.
use bet.Prelude.{
  ℕ, ◌<◌, ◌^◌, ◌≡◌, refl, ap, ◌∙◌, true, Option, some, List, [], ◌∷◌, ◌++◌, All, false,
}
use bet.Midir.Ir.{
  Operand, const, null_ptr, Terminator, goto, branch, switch, holla_check, return, panic,
  unreachable,
}
use bet.Midir.Module.Interning.{IsModule}
use bet.Midir.Text.{Tok, ident, dot, CharClasses, lexed, put, lex}
use bet.Midir.Text.Names.{codes}
use bet.Midir.Text.Printer.{FloatText, joined_by, mapped, print_operand, print_term}
use bet.Midir.Text.Parser.{Parser, Parsed, parsed, bound, pure, next_is, parse_operand}
use bet.Midir.Text.Terms.{terminator}
use bet.Midir.Text.Steps.{IsUnicode, Boundary, puts}
use bet.Midir.Text.Numerals.{Lexes-word}
use bet.Midir.Text.Written.{Written, Written-some, Written-lead, Leads-keyword}
use bet.Midir.Text.Projections.{PrintableOperand, PrintablePlace, seen}
use bet.Midir.Text.Places.{operand_text, place_text}
use bet.Midir.Text.Terminators.{Closed, TermText, operand_reads, goto_text, branch_text, check_text}
use bet.Midir.Text.Listed.{PrintableCase, switch_text, list_text, return_text, unseen_text}

module _ (U : CharClasses) (u : IsUnicode U) (F : FloatText) (s : Parser) where
  puts_lexed : (ts more : List Tok) → puts U u ts (lexed more) ≡ lexed (ts ++ more)
  puts_lexed [] more = refl
  puts_lexed (t ∷ ts) more = ap (put U t) (puts_lexed ts more)

  -- A text that is written, in front of a text that is lexed.
  lex_before :
      (o : Option (List ℕ)) (ts : List Tok) (w : Written U u o ts) (rest : List ℕ) (more : List Tok)
      → Boundary U u rest
      → lex U rest ≡ lexed more
      → lex U (w.0 ++ rest) ≡ lexed (ts ++ more)
  lex_before o ts w rest more b e = w.2 rest b ∙ ap (puts U u ts) e ∙ puts_lexed ts more

  -- In a parser with the tables of the printer's module: an operand whose ids are of 32 bits, whose
  -- integers are of 128 bits and have an integer type, whose floats have a float type, are written
  -- as decimals and are read back from that, and whose functions have names that the parser knows,
  -- is printed without a panic. In front of a text that is lexed, that ends names and numbers and
  -- does not go on with a projection, the printed text is lexed and parsed as that operand, and
  -- what follows is left; the parser's tables are as they were.
  pub operand_round_trip :
      (op : Operand) (rest : List ℕ) (more : List Tok)
      → IsModule s.m
      → PrintableOperand U u F s op
      → Boundary U u rest
      → lex U rest ≡ lexed more
      → next_is dot more ≡ false
      → (text : List ℕ) × (toks : List Tok) × (print_operand F s.m op ≡ some text)
        × (lex U (text ++ rest) ≡ lexed toks)
        × (parse_operand F (record s { toks = toks }) ≡ parsed op (record s { toks = more }))
  operand_round_trip op rest more im p b e nd =
      let o = operand_text U u F s im op p in
      (
        o.1.0,
        o.0 ++ more,
        o.1.1,
        lex_before (print_operand F s.m op) o.0 o.1 rest more b e,
        operand_reads U u F s op o more nd,
      )

  -- A terminator with printable operands, labels of 32 bits, cases of 64 bits and values of which the
  -- first is no null pointer.
  abbrev FirstSeen : List Operand → Type 0
  FirstSeen [] = Unit
  FirstSeen (v ∷ vs) = seen U u F s v ≡ true

  abbrev pub PrintableTerm : Terminator → Type 0
  PrintableTerm (goto bb) = bb < 2 ^ 32
  PrintableTerm (branch c a b) = PrintableOperand U u F s c × (a < 2 ^ 32) × (b < 2 ^ 32)
  PrintableTerm (switch op cs d) = PrintableOperand U u F s op × All PrintableCase cs × (d < 2 ^ 32)
  PrintableTerm (holla_check tag crib p a b) =
      PrintableOperand U u F s tag
      × PrintableOperand U u F s crib
      × PrintablePlace U u F s p
      × (a < 2 ^ 32)
      × (b < 2 ^ 32)
  PrintableTerm (return vs) = All (PrintableOperand U u F s) vs × FirstSeen vs
  PrintableTerm (panic op) = PrintableOperand U u F s op
  PrintableTerm unreachable = Unit

  term_text : (t : Terminator) → IsModule s.m → PrintableTerm t → TermText U u F s t
  unfolding print_term terminator
  term_text (goto bb) im h = goto_text U u F s bb h
  term_text (branch c a b) im h = branch_text U u F s c a b (operand_text U u F s im c h.0) h.1 h.2
  term_text (switch op cs d) im h =
      switch_text U u F s op cs d (operand_text U u F s im op h.0) h.1 h.2
  term_text (holla_check tag crib p a b) im h =
      check_text U u F s tag crib p a b (operand_text U u F s im tag h.0)
        (operand_text U u F s im crib h.1) (place_text U u F s im p h.2) h.3 h.4
  term_text (return []) im h = (
    ident (codes "return") ∷ [],
    Written-some U u (codes "return") (ident (codes "return") ∷ [])
        (Lexes-word U u (codes "return") refl),
    λ rest closed. (let n = closed.no_operand in rw n refl),
  )
  term_text (return (v ∷ vs)) im h =
      return_text U u F s v vs (list_text U u F s v vs im h.0.0 h.0.1) h.1
  term_text (panic op) im h =
      let o = operand_text U u F s im op h in
      (
        ident (codes "panic") ∷ o.0,
        Written-lead U u (codes "panic ") (print_operand F s.m op) (ident (codes "panic") ∷ []) o.0
            (Leads-keyword U u (codes "panic") refl) o.1,
        λ rest closed.
            ap (λ (r : Parsed Operand). bound r (λ x. pure (panic x)))
              (operand_reads U u F s op o rest closed.no_dot),
      )
  term_text unreachable im h = (
    ident (codes "unreachable") ∷ [],
    Written-some U u (codes "unreachable") (ident (codes "unreachable") ∷ [])
        (Lexes-word U u (codes "unreachable") refl),
    λ rest closed. refl,
  )

  -- In a parser with the tables of the printer's module: a terminator whose operands are printable, whose
  -- labels are of 32 bits, whose cases are of 64 bits and whose first value is no null pointer is printed
  -- without a panic. In front of a text that is lexed, that ends names and numbers and goes on with no
  -- projection, comma or operand, the printed text is lexed and parsed as that terminator, and what
  -- follows is left; the parser's tables are as they were.
  pub term_round_trip :
      (t : Terminator) (rest : List ℕ) (more : List Tok)
      → IsModule s.m
      → PrintableTerm t
      → Boundary U u rest
      → lex U rest ≡ lexed more
      → Closed more
      → (text : List ℕ) × (toks : List Tok) × (print_term F s.m t ≡ some text)
        × (lex U (text ++ rest) ≡ lexed toks)
        × (terminator F (record s { toks = toks }) ≡ parsed t (record s { toks = more }))
  term_round_trip t rest more im p b e c =
      let o = term_text t im p in
      (o.1.0, o.0 ++ more, o.1.1, lex_before (print_term F s.m t) o.0 o.1 rest more b e, o.2 more c)

  -- A `return` of a null pointer and of any printable values behind it is printed without a panic, and
  -- the printed text is lexed; but it is parsed as a `return` without values, and the printed values are
  -- left as tokens in front of what follows.
  pub return_null_lost :
      (vs : List Operand) (rest : List ℕ) (more : List Tok)
      → IsModule s.m
      → All (PrintableOperand U u F s) vs
      → Boundary U u rest
      → lex U rest ≡ lexed more
      → (text : List ℕ) × (values : List Tok) × (print_term F s.m (return (const null_ptr ∷ vs))
          ≡ some text)
        × (lex U (text ++ rest) ≡ lexed (ident (codes "return") ∷ (values ++ more)))
        × (terminator F (record s { toks = ident (codes "return") ∷ (values ++ more) })
            ≡ parsed (return []) (record s { toks = values ++ more }))
  unfolding print_term PrintableOperand
  return_null_lost vs rest more im h b e =
      let l = list_text U u F s (const null_ptr) vs im tt h in
      let w =
        Written-lead U u (codes "return ")
          (joined_by (codes ", ") (mapped (print_operand F s.m) (const null_ptr ∷ vs)))
          (ident (codes "return") ∷ []) l.0 (Leads-keyword U u (codes "return") refl) l.1 in
      (
        w.0,
        l.0,
        w.1,
        lex_before (print_term F s.m (return (const null_ptr ∷ vs))) (ident (codes "return") ∷ l.0)
            w rest more b e,
        unseen_text U u F s (const null_ptr) vs l more refl,
      )
