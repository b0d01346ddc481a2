-- ===== src/Tests/Printed.antt =====
-- Runs of the printer and the parser of the textual IR.
use bet.Prelude.{length, ◌≤◌, ◌⊎◌, ℕ, ◌≡◌, refl, true, some, List, [], ◌∷◌, ◌++◌, arith}
use bet.Midir.Ir.{
  negsuc, int, null_ptr, fn_ref, place, no_proj, then_proj, field, index, deref, Operand, const,
  moved, Func, Terminator, switch, return,
}
use bet.Midir.Module.{Module, int_ty, w64, new_module, intern_ty, intern}
use bet.Midir.Module.Interning.{IsModule, intern_ty_lem, new_module-IsModule}
use bet.Midir.Text.{
  Tok, ident, num, percent, l_bracket, r_paren, r_brace, lexed, lex, lex_from, round,
}
use bet.Midir.Text.Names.{codes, int_name}
use bet.Midir.Text.Decimal.{digits, decimal, decimal_int, from_digits, parse_unsigned, split_num}
use bet.Midir.Text.Printer.{
  FloatText, print_const, print_operand, print_place, print_projs, print_proj, print_term,
}
use bet.Midir.Text.Parser.{
  Parser, ParseError, expected_integer, fails, parsed, parse_operand, projs,
}
use bet.Midir.Text.Terms.{terminator, cases_from}
use bet.Midir.Text.Steps.{IsUnicode}
use bet.Midir.Text.Projections.{PrintableOperand}
use bet.Midir.Text.Fuel.Terms.{terminator_ends}
use bet.Midir.Text.RoundTrip.{operand_round_trip, term_round_trip, return_null_lost}
use bet.Tests.Texts.{ascii, ascii-IsCharClasses}

ascii-IsUnicode : IsUnicode ascii
ascii-IsUnicode = record {
  classes = ascii-IsCharClasses;
  ascii_space = λ c h. refl;
  ascii_alphabetic = λ c h. refl;
  ascii_alphanumeric = λ c h. ground arith;
  letters_show = λ c h. ground arith;
}

-- Floats that are written by their bits.
abbrev by_bits : FloatText
unfolding decimal parse_unsigned
by_bits = record { show = decimal; read = parse_unsigned 64 }

abbrev named_main : Func
named_main = record {
  name = codes "main$1";
  params = [];
  rets = [];
  locals = [];
  blocks = [];
  entry = 0;
}

-- A module with one type, `i64`, and one function.
abbrev small_module : Module
small_module = record new_module {
  types = int_ty w64 true ∷ [];
  type_dedup = (int_ty w64 true, 0) ∷ [];
  funcs = named_main ∷ [];
}

small_module-IsModule : IsModule small_module
unfolding intern_ty intern IsModule
small_module-IsModule =
    (intern_ty_lem new_module (int_ty w64 true) (omega arith) new_module-IsModule).2

abbrev small_parser : Parser
small_parser = record { toks = []; m = small_module; func_ids = (codes "main$1", 0) ∷ [] }

-- `move %3.field(1).index(-5i64).deref`.
abbrev minus_five : Operand
minus_five = const (int (negsuc 4) 0)

abbrev deep : Operand
deep =
    moved (place 3 (then_proj (field 1) (then_proj (index minus_five) (then_proj deref no_proj))))

deep_printed :
    print_operand by_bits small_module deep ≡ some (codes "move %3.field(1).index(-5i64).deref")
unfolding print_operand print_place print_projs print_proj print_const decimal_int decimal digits
    int_name
deep_printed = refl

operand_round_trip_example :
    (text : List ℕ) × (toks : List Tok) × (print_operand by_bits small_module deep ≡ some text)
    × (lex ascii (text ++ codes ")") ≡ lexed toks)
    × (parse_operand by_bits (record small_parser { toks = toks })
        ≡ parsed deep (record small_parser { toks = r_paren ∷ [] }))
unfolding PrintableOperand lex lex_from round
operand_round_trip_example =
    operand_round_trip ascii ascii-IsUnicode by_bits small_parser deep (codes ")") (r_paren ∷ [])
      small_module-IsModule
      (omega arith, (omega arith, ((omega arith, (w64, true, refl)), (tt, tt)))) (refl, refl) refl
      refl

-- `switch @main$1 [0 -> bb1, 18446744073709551615 -> bb2] else bb3`, at the end of a function.
abbrev two_cases : Terminator
two_cases = switch (const (fn_ref 0)) ((0, 1) ∷ (18446744073709551615, 2) ∷ []) 3

two_cases_printed :
    print_term by_bits small_module two_cases
    ≡ some (codes "switch @main$1 [0 -> bb1, 18446744073709551615 -> bb2] else bb3")
unfolding print_term print_operand print_const decimal digits
two_cases_printed = refl

term_round_trip_example :
    (text : List ℕ) × (toks : List Tok) × (print_term by_bits small_module two_cases ≡ some text)
    × (lex ascii (text ++ codes "}") ≡ lexed toks)
    × (terminator by_bits (record small_parser { toks = toks })
        ≡ parsed two_cases (record small_parser { toks = r_brace ∷ [] }))
unfolding PrintableOperand lex lex_from round
term_round_trip_example =
    term_round_trip ascii ascii-IsUnicode by_bits small_parser two_cases (codes "}") (r_brace ∷ [])
      small_module-IsModule
      (
        (named_main, refl, (refl, (refl, (refl, (refl, (refl, (refl, tt)))))), refl),
        ((omega arith, omega arith), ((omega arith, omega arith), tt)),
        omega arith,
      )
      (refl, refl) refl (record { no_dot = refl; no_comma = refl; no_operand = refl })

return_null_lost_example :
    (text : List ℕ) × (values : List Tok) × (print_term by_bits small_module
        (return (const null_ptr ∷ minus_five ∷ []))
      ≡ some text)
    × (lex ascii (text ++ codes "}") ≡ lexed (ident (codes "return") ∷ (values ++ r_brace ∷ [])))
    × (terminator by_bits
          (record small_parser { toks = ident (codes "return") ∷ (values ++ r_brace ∷ []) })
        ≡ parsed (return []) (record small_parser { toks = values ++ r_brace ∷ [] }))
unfolding PrintableOperand lex lex_from round
return_null_lost_example =
    return_null_lost ascii ascii-IsUnicode by_bits small_parser (minus_five ∷ []) (codes "}")
      (r_brace ∷ []) small_module-IsModule ((omega arith, (w64, true, refl)), tt) (refl, refl) refl

-- `switch %1 [`, whose list has no end.
abbrev cut_short : Parser
cut_short = record small_parser {
  toks = ident (codes "switch") ∷ percent ∷ num (codes "1") ∷ l_bracket ∷ [];
}

terminator_ends_example :
    ((t : Terminator) × (rest : Parser) × (terminator by_bits cut_short ≡ parsed t rest)
      × (length rest.toks ≤ 4))
    ⊎ ((e : ParseError) × (terminator by_bits cut_short ≡ fails e))
terminator_ends_example = terminator_ends by_bits cut_short

cut_short_fails : terminator by_bits cut_short ≡ fails expected_integer
unfolding terminator parse_operand projs cases_from split_num parse_unsigned from_digits
cut_short_fails = refl
