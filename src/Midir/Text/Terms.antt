-- ===== src/Midir/Text/Terms.antt =====
-- `Parser::terminator` of crates/midir/src/text.rs, with its loops over cases and values.
use bet.Prelude.{ℕ, zero, suc, Bool, true, false, ◌||◌, List, [], ◌∷◌, length, if◌then◌else◌}
use bet.Midir.Ir.{
  Place, Operand, Terminator, goto, branch, switch, holla_check, return, panic, unreachable,
}
use bet.Midir.Text.{
  Tok, num, l_paren, r_paren, l_bracket, r_bracket, comma, percent, at_sign, arrow,
}
use bet.Midir.Text.Printer.{FloatText}
use bet.Midir.Text.Parser.{
  Parse, parsed, fails, out_of_fuel, ◌>>=◌, ◌>>◌, pure, bound, next_is, next_kw, bump, expect,
  bare_u64, block_id, parse_place, parse_operand, expected_else, expected_terminator,
}

abbrev pub needs_else : Parse (Unit {0})
needs_else s = if next_kw "else" s.toks then parsed tt (bump s) else fails expected_else

abbrev pub separator : Bool → Parse (Unit {0})
separator true = pure tt
separator false = expect comma

-- The loop over the cases, which starts with none.
unfoldable pub cases_from : ℕ → Bool → Parse (List (ℕ × ℕ))
cases_from zero first s = out_of_fuel
cases_from (suc f) first s =
    let more =
      (do
        separator first
        v ← bare_u64
        expect arrow
        bb ← block_id
        cs ← cases_from f false
        pure ((v, bb) ∷ cs))
        s in
    if next_is r_bracket s.toks then parsed [] (bump s) else more

-- Each round of a loop takes a token.
abbrev pub all_cases : Parse (List (ℕ × ℕ))
all_cases s = cases_from (suc (length s.toks)) true s

abbrev pub literal_next : List Tok → Bool
literal_next (num t ∷ ts) = true
literal_next (Tok.str t ∷ ts) = true
literal_next _ = false

abbrev pub starts_operand : List Tok → Bool
starts_operand ts =
    next_is percent ts
    || (literal_next ts
        || (next_is at_sign ts
            || (next_kw "move" ts
                || (next_kw "true" ts || (next_kw "false" ts || next_kw "ghosted" ts)))))

module _ (F : FloatText) where
  unfoldable pub vals_from : ℕ → Parse (List Operand)
  vals_from zero s = out_of_fuel
  vals_from (suc f) s =
      let more = (do v ← parse_operand F; vs ← vals_from f; pure (v ∷ vs)) (bump s) in
      if next_is comma s.toks then more else parsed [] s

  abbrev pub some_vals : ℕ → Parse (List Operand)
  some_vals f = do v ← parse_operand F; vs ← vals_from f; pure (v ∷ vs)

  abbrev pub returned : Parse Terminator
  returned s =
      if starts_operand s.toks
      then bound (some_vals (suc (length s.toks)) s) (λ vs. pure (return vs))
      else parsed (return []) s

  -- The parts of a branch, a switch and a check.
  abbrev pub branch_else : Operand → ℕ → Parse Terminator
  branch_else cond t = do needs_else; e ← block_id; pure (branch cond t e)

  abbrev pub branch_to : Operand → Parse Terminator
  branch_to cond = do expect arrow; t ← block_id; branch_else cond t

  abbrev pub switch_default : Operand → List (ℕ × ℕ) → Parse Terminator
  switch_default scrutinee cases = do needs_else; d ← block_id; pure (switch scrutinee cases d)

  abbrev pub switch_on : Operand → Parse Terminator
  switch_on scrutinee = do expect l_bracket; cs ← all_cases; switch_default scrutinee cs

  abbrev pub check_dead : Operand → Operand → Place → ℕ → Parse Terminator
  check_dead tag crib resolved live = do
    needs_else
    dead ← block_id
    pure (holla_check tag crib resolved live dead)

  abbrev pub check_live : Operand → Operand → Place → Parse Terminator
  check_live tag crib resolved = do
    expect r_paren
    expect arrow
    live ← block_id
    check_dead tag crib resolved live

  abbrev pub check_place : Operand → Operand → Parse Terminator
  check_place tag crib = do expect comma; resolved ← parse_place F; check_live tag crib resolved

  abbrev pub check_crib : Operand → Parse Terminator
  check_crib tag = do expect comma; crib ← parse_operand F; check_place tag crib

  unfoldable pub terminator : Parse Terminator
  terminator s =
      if next_kw "goto" s.toks
      then (do bb ← block_id; pure (goto bb)) (bump s)
      else if next_kw "branch" s.toks
      then (do cond ← parse_operand F; branch_to cond) (bump s)
      else if next_kw "switch" s.toks
      then (do scrutinee ← parse_operand F; switch_on scrutinee) (bump s)
      else if next_kw "holla_check" s.toks
      then (do expect l_paren; tag ← parse_operand F; check_crib tag) (bump s)
      else if next_kw "return" s.toks
      then returned (bump s)
      else if next_kw "panic" s.toks
      then (do op ← parse_operand F; pure (panic op)) (bump s)
      else if next_kw "unreachable" s.toks
      then parsed unreachable (bump s)
      else fails expected_terminator
