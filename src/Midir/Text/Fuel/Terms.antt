-- ===== src/Midir/Text/Fuel/Terms.antt =====
-- The parser of terminators of crates/midir/src/text.rs ends: each round of a loop takes a token.
use bet.Prelude.{
  ℕ, zero, suc, ◌<◌, ◌≤◌, ◌≡◌, Bool-cases, ◌⊎◌, inl, inr, refl, Bool, true, false, Option, none,
  some, List, [], ◌∷◌, length, arith,
}
use bet.Midir.Ir.{
  Place, Operand, Terminator, goto, branch, switch, holla_check, return, panic, unreachable,
}
use bet.Midir.Text.{Tok, comma, l_paren, r_paren, l_bracket, r_bracket, arrow}
use bet.Midir.Text.Decimal.{parse_unsigned, split_num}
use bet.Midir.Text.Printer.{FloatText}
use bet.Midir.Text.Parser.{
  ParseError, Parser, Parse, Parsed, parsed, fails, out_of_fuel, bound, pure, or_refuse, next_is,
  next_kw, behind, bump, num_of, expect, unsuffixed, bare_u64, block_id, parse_place, parse_operand,
  expected_integer,
}
use bet.Midir.Text.Terms.{
  starts_operand, needs_else, separator, cases_from, all_cases, vals_from, some_vals, returned,
  branch_to, switch_on, check_live, check_crib, terminator,
}
use bet.Midir.Text.Fuel.{
  Left, Ends, Left-weaken, then_, pure-Ends, length-behind, either_end, behind_end, expect-Ends,
  block_id-Ends, behind_less, parse_operand-Ends, parse_place-Ends,
}

module _ (F : FloatText) where
  -- The numbers in front of a case take a token.
  abbrev Less : ℕ → Parsed ℕ → Type 0
  Less k (parsed a s) = length s.toks < k
  Less k (fails e) = Unit
  Less k out_of_fuel = ⊥

  or_refuse-Less :
      (k : ℕ) (e : ParseError) (o : Option ℕ) (s : Parser)
      → length s.toks < k
      → Less k (or_refuse e o s)
  or_refuse-Less k e none s h = tt
  or_refuse-Less k e (some a) s h = h

  unsuffixed-Less :
      (k : ℕ) (r : List ℕ × Option (List ℕ)) (s : Parser)
      → length s.toks < k
      → Less k (unsuffixed r s)
  unsuffixed-Less k (t, some suf) s h = tt
  unsuffixed-Less k (t, none) s h = or_refuse-Less k _ (parse_unsigned 64 t) s h

  bare_u64-Less :
      (k : ℕ) (ts : List Tok) (s : Parser)
      → length ts ≤ k
      → Less k (bare_u64 (record s { toks = ts }))
  bare_u64-Less k [] s h = tt
  bare_u64-Less k (t ∷ ts) s h = number (num_of (t ∷ ts))
    where
      number :
          (o : Option (List ℕ))
          → Less k (
              bound
                (or_refuse expected_integer o (record s { toks = ts }))
                (λ x. unsuffixed (split_num x)))
      number none = tt
      number (some x) = unsuffixed-Less k (split_num x) (record s { toks = ts }) (omega arith)

  bound-Less {ℓ} :
      {A : Type ℓ} (k : ℕ) (r : Parsed ℕ) (f : ℕ → Parse A)
      → Less k r
      → ((a : ℕ) (s : Parser) → length s.toks < k → Left (length s.toks) (f a s))
      → Left k (bound r f)
  bound-Less k (parsed a s) f l e = Left-weaken (length s.toks) k (f a s) (omega arith) (e a s l)
  bound-Less k (fails x) f l e = tt
  bound-Less k out_of_fuel f l e = elim l [ ]

  separator-Ends : (n : ℕ) (first : Bool) → Ends n (separator first)
  separator-Ends n true s h = omega arith
  separator-Ends n false s h = expect-Ends n comma s h

  -- What stands behind the number of a case.
  behind_number : ℕ → ℕ → Parse (List (ℕ × ℕ))
  behind_number f v t = bound (expect arrow t) (λ z.
      λ t. bound (block_id t) (λ bb. λ t. bound (cases_from f false t) (λ cs. pure ((v, bb) ∷ cs))))

  cases_from-Ends : (f n : ℕ) (first : Bool) → n < f → Ends n (cases_from f first)
  unfolding cases_from behind_number
  cases_from-Ends zero n first lt s h = absurd (omega arith)
  cases_from-Ends (suc f) n first lt s h =
      either_end (length s.toks) (next_is r_bracket s.toks) (parsed [] (bump s)) _
        (length-behind s.toks)
        (then_ n (separator first) _ (separator-Ends n first)
          (λ z. λ t k.
            bound-Less (length t.toks) (bare_u64 t) (behind_number f)
              (bare_u64-Less (length t.toks) t.toks t (omega arith))
              (λ v t' l.
                one_case v (length t'.toks) (cases_from-Ends f (length t'.toks) false (omega arith))
                  t' (omega arith)))
          s h)
    where
      one_case : (v m : ℕ) → Ends m (cases_from f false) → Ends m (behind_number f v)
      one_case v m l = then_ m (expect arrow) _ (expect-Ends m arrow) (λ z.
          then_ m block_id _ (block_id-Ends m)
            (λ bb. then_ m (cases_from f false) _ l (λ cs. pure-Ends m ((v, bb) ∷ cs))))

  all_cases-Ends : (n : ℕ) → Ends n all_cases
  all_cases-Ends n s h =
      cases_from-Ends (suc (length s.toks)) (length s.toks) true (omega arith) s (omega arith)

  vals_from-Ends : (f n : ℕ) → n < f → Ends n (vals_from F f)
  unfolding vals_from
  vals_from-Ends zero n lt s h = absurd (omega arith)
  vals_from-Ends (suc f) n lt s h = elim (Bool-cases (next_is comma s.toks)) [
    | inr e ↦ rw e (omega arith)
    | inl e ↦
        (let less = behind_less F comma s.toks e in
          let m = length (behind s.toks) in
          let ih = vals_from-Ends f m (omega arith) in
          rw e (
            Left-weaken m (length s.toks) _ (omega arith) (
              then_ m (parse_operand F) _ (parse_operand-Ends F m)
                (λ v. then_ m (vals_from F f) _ ih (λ vs. pure-Ends m (v ∷ vs))) (bump s)
                (omega arith))))
  ]

  some_vals-Ends : (f n : ℕ) → n < f → Ends n (some_vals F f)
  some_vals-Ends f n lt =
      then_ n (parse_operand F) _ (parse_operand-Ends F n)
        (λ v. then_ n (vals_from F f) _ (vals_from-Ends f n lt) (λ vs. pure-Ends n (v ∷ vs)))

  returned-Ends : (n : ℕ) → Ends n (returned F)
  returned-Ends n s h =
      either_end (length s.toks) (starts_operand s.toks) _ (parsed (return []) s)
        (then_ (length s.toks) (some_vals F (suc (length s.toks))) _
          (some_vals-Ends (suc (length s.toks)) (length s.toks) (omega arith))
          (λ vs. pure-Ends (length s.toks) (return vs)) s (omega arith))
        (omega arith)

  needs_else-Ends : (n : ℕ) → Ends n needs_else
  needs_else-Ends n s h =
      either_end (length s.toks) (next_kw "else" s.toks) (parsed tt (bump s)) _
        (length-behind s.toks) tt

  -- A label behind `else`.
  else_label :
      (n : ℕ) (f : ℕ → Terminator)
      → Ends n (λ s. bound (needs_else s) (λ z. λ t. bound (block_id t) (λ e. pure (f e))))
  else_label n f =
      then_ n needs_else _ (needs_else-Ends n)
        (λ z. then_ n block_id _ (block_id-Ends n) (λ e. pure-Ends n (f e)))

  branch_to-Ends : (n : ℕ) (c : Operand) → Ends n (branch_to F c)
  branch_to-Ends n c =
      then_ n (expect arrow) _ (expect-Ends n arrow)
        (λ z. then_ n block_id _ (block_id-Ends n) (λ t. else_label n (branch c t)))

  switch_on-Ends : (n : ℕ) (op : Operand) → Ends n (switch_on F op)
  switch_on-Ends n op =
      then_ n (expect l_bracket) _ (expect-Ends n l_bracket)
        (λ z. then_ n all_cases _ (all_cases-Ends n) (λ cs. else_label n (switch op cs)))

  check_live-Ends : (n : ℕ) (tag crib : Operand) (p : Place) → Ends n (check_live F tag crib p)
  check_live-Ends n tag crib p = then_ n (expect r_paren) _ (expect-Ends n r_paren) (λ z.
      then_ n (expect arrow) _ (expect-Ends n arrow)
        (λ z. then_ n block_id _ (block_id-Ends n) (λ l. else_label n (holla_check tag crib p l))))

  check_crib-Ends : (n : ℕ) (tag : Operand) → Ends n (check_crib F tag)
  check_crib-Ends n tag = then_ n (expect comma) _ (expect-Ends n comma) (λ z.
      then_ n (parse_operand F) _ (parse_operand-Ends F n) (λ crib.
        then_ n (expect comma) _ (expect-Ends n comma) (λ z.
          then_ n (parse_place F) _ (parse_place-Ends F n) (λ p. check_live-Ends n tag crib p))))

  terminator-Ends : (n : ℕ) → Ends n (terminator F)
  unfolding terminator
  terminator-Ends n s h =
      let k = length s.toks in
      let go = λ (p : Parse Terminator) (e : Ends n p). behind_end n p s h e in
      either_end k (next_kw "goto" s.toks) _ _
        (go (λ t. bound (block_id t) (λ bb. pure (goto bb)))
          (then_ n block_id _ (block_id-Ends n) (λ bb. pure-Ends n (goto bb))))
        (either_end k (next_kw "branch" s.toks) _ _
          (go (λ t. bound (parse_operand F t) (branch_to F))
            (then_ n (parse_operand F) _ (parse_operand-Ends F n) (branch_to-Ends n)))
          (either_end k (next_kw "switch" s.toks) _ _
            (go (λ t. bound (parse_operand F t) (switch_on F))
              (then_ n (parse_operand F) _ (parse_operand-Ends F n) (switch_on-Ends n)))
            (either_end k (next_kw "holla_check" s.toks) _ _
              (go
                (λ t. bound (expect l_paren t) (λ z. λ t. bound (parse_operand F t) (check_crib F)))
                (then_ n (expect l_paren) _ (expect-Ends n l_paren)
                  (λ z. then_ n (parse_operand F) _ (parse_operand-Ends F n) (check_crib-Ends n))))
              (either_end k (next_kw "return" s.toks) _ _ (go (returned F) (returned-Ends n)) (
                either_end k (next_kw "panic" s.toks) _ _
                  (go (λ t. bound (parse_operand F t) (λ op. pure (panic op)))
                    (then_ n (parse_operand F) _ (parse_operand-Ends F n)
                      (λ op. pure-Ends n (panic op))))
                  (either_end k (next_kw "unreachable" s.toks) (parsed unreachable (bump s)) _
                    (length-behind s.toks) tt))))))

  -- The parser of terminators never runs out of fuel: on every list of tokens it gives a terminator and
  -- at most as many tokens as there were, or an error.
  pub terminator_ends :
      (s : Parser)
      → ((t : Terminator) × (rest : Parser) × (terminator F s ≡ parsed t rest)
          × (length rest.toks ≤ length s.toks))
        ⊎ ((e : ParseError) × (terminator F s ≡ fails e))
  terminator_ends s = given (terminator F s) (terminator-Ends (length s.toks) s (omega arith))
    where
      given :
          (r : Parsed Terminator)
          → Left (length s.toks) r
          → ((t : Terminator) × (rest : Parser) × (r ≡ parsed t rest)
              × (length rest.toks ≤ length s.toks))
            ⊎ ((e : ParseError) × (r ≡ fails e))
      given (parsed t rest) h = inl (t, rest, refl, h)
      given (fails e) h = inr (e, refl)
      given out_of_fuel h = elim h [ ]
