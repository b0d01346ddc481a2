-- ===== src/Midir/Text/Fuel.antt =====
-- The parser of operands and places of crates/midir/src/text.rs ends: each round of a loop takes a token.
pub mod Terms
use bet.Prelude.{
  ℕ, zero, suc, ◌%◌, ◌^◌, ◌<◌, ◌≤◌, ◌≡◌, ◌||◌, Bool-cases, ap, sym, ◌⊎◌, inl, inr, refl, Bool, true,
  false, Option, none, some, List, [], ◌∷◌, length, arith, if-either, if◌then◌else◌,
}
use bet.Midir.Ir.{
  Const, bool, ghosted, null_ptr, fn_ref, Place, place, Projs, no_proj, then_proj, Proj, field,
  index, deref, downcast, Operand, const, copy, moved, Terminator, goto, branch, switch,
  holla_check, return, panic, unreachable,
}
use bet.Midir.Module.{IntWidth, TyKind, f32, f64}
use bet.Midir.Text.{
  Tok, dot, comma, l_paren, r_paren, l_bracket, r_bracket, percent, at_sign, arrow,
}
use bet.Midir.Text.Names.{codes, same_text, parse_int_suffix}
use bet.Midir.Text.Decimal.{parse_unsigned, parse_i128, split_num}
use bet.Midir.Text.Printer.{FloatText}
use bet.Midir.Text.Parser.{
  ParseError, Parser, Parse, Parsed, parsed, fails, out_of_fuel, bound, pure, or_refuse, next_is,
  next_kw, behind, bump, ident_of, num_of, lookup, expect, expect_ident, unsuffixed, bare_u64,
  bare_u32, label_number, block_id, int_const, float_const, suffixed, number_const, str_or_num,
  function_const, const_val, place_by, operand_by, in_parens, proj_of, projs, all_projs,
  parse_place, parse_operand, expected_identifier, expected_integer,
}
use bet.Midir.Text.Terms.{
  starts_operand, needs_else, separator, cases_from, all_cases, vals_from, some_vals, returned,
  branch_else, branch_to, switch_default, switch_on, check_dead, check_live, check_place,
  check_crib, terminator,
}

-- An end, with at most `n` tokens left.
abbrev pub Left {ℓ} : {A : Type ℓ} → ℕ → Parsed A → Type 0
Left n (parsed a s) = length s.toks ≤ n
Left n (fails e) = Unit
Left n out_of_fuel = ⊥

-- From up to `n` tokens the parser ends, with no more than there were.
abbrev pub Ends {ℓ} : {A : Type ℓ} → ℕ → Parse A → Type 0
Ends n p = (s : Parser) → length s.toks ≤ n → Left (length s.toks) (p s)

pub Left-weaken {ℓ} : {A : Type ℓ} (k n : ℕ) (r : Parsed A) → k ≤ n → Left k r → Left n r
Left-weaken k n (parsed a s) h l = omega arith
Left-weaken k n (fails e) h l = tt
Left-weaken k n out_of_fuel h l = elim l [ ]

Left-bound {ℓ κ} :
    {A : Type ℓ} {B : Type κ} (n k : ℕ) (r : Parsed A) (f : A → Parse B)
    → k ≤ n
    → Left k r
    → ((a : A) → Ends n (f a))
    → Left k (bound r f)
Left-bound n k (parsed a s) f h l e = Left-weaken (length s.toks) k (f a s) l (e a s (omega arith))
Left-bound n k (fails x) f h l e = tt
Left-bound n k out_of_fuel f h l e = elim l [ ]

-- One step behind another.
pub then_ {ℓ κ} :
    {A : Type ℓ} {B : Type κ} (n : ℕ) (p : Parse A) (f : A → Parse B)
    → Ends n p
    → ((a : A) → Ends n (f a))
    → Ends n (λ s. bound (p s) f)
then_ n p f e k s h = Left-bound n (length s.toks) (p s) f h (e s h) k

pub pure-Ends {ℓ} : {A : Type ℓ} (n : ℕ) (a : A) → Ends n (pure a)
pure-Ends n a s h = omega arith

pub or_refuse-Ends {ℓ} :
    {A : Type ℓ} (n : ℕ) (e : ParseError) (o : Option A) → Ends n (or_refuse e o)
or_refuse-Ends n e none s h = tt
or_refuse-Ends n e (some a) s h = omega arith

pub length-behind : (ts : List Tok) → length (behind ts) ≤ length ts
length-behind [] = omega arith
length-behind (t ∷ ts) = omega arith

pub either_end {ℓ} :
    {A : Type ℓ} (n : ℕ) (b : Bool) (x y : Parsed A)
    → Left n x
    → Left n y
    → Left n (if b then x else y)
either_end n b x y h k = if-either (Left n) b x y h k

-- A step after a token is taken.
pub behind_end {ℓ} :
    {A : Type ℓ} (n : ℕ) (p : Parse A) (s : Parser)
    → length s.toks ≤ n
    → Ends n p
    → Left (length s.toks) (p (bump s))
behind_end n p s h e =
    let l = length-behind s.toks in
    Left-weaken (length (behind s.toks)) (length s.toks) (p (bump s)) l (e (bump s) (omega arith))

taken-Ends {ℓ} :
    {A : Type ℓ} (n : ℕ) (e : ParseError) (o : List Tok → Option A)
    → Ends n (λ s. or_refuse e (o s.toks) (bump s))
taken-Ends n e o s h = behind_end n (or_refuse e (o s.toks)) s h (or_refuse-Ends n e (o s.toks))

pub expect-Ends : (n : ℕ) (t : Tok) → Ends n (expect t)
expect-Ends n t s h =
    either_end (length s.toks) (next_is t s.toks) (parsed tt (bump s)) _ (length-behind s.toks) tt

expect_ident-Ends : (n : ℕ) → Ends n expect_ident
expect_ident-Ends n = taken-Ends n expected_identifier ident_of

unsuffixed-Ends : (n : ℕ) (r : List ℕ × Option (List ℕ)) → Ends n (unsuffixed r)
unsuffixed-Ends n (t, some suf) s h = tt
unsuffixed-Ends n (t, none) s h = or_refuse-Ends n _ (parse_unsigned 64 t) s h

bare_u64-Ends : (n : ℕ) → Ends n bare_u64
bare_u64-Ends n =
    then_ n _ (λ t. unsuffixed (split_num t)) (taken-Ends n _ num_of)
      (λ t. unsuffixed-Ends n (split_num t))

bare_u32-Ends : (n : ℕ) → Ends n bare_u32
bare_u32-Ends n = then_ n bare_u64 _ (bare_u64-Ends n) (λ k. pure-Ends n (k % 2 ^ 32))

pub block_id-Ends : (n : ℕ) → Ends n block_id
block_id-Ends n =
    then_ n expect_ident _ (expect_ident-Ends n) (λ id. or_refuse-Ends n _ (label_number id))

-- Interning keeps the tokens.
int_const-Ends : (n : ℕ) (t : List ℕ) (o : Option (IntWidth × Bool)) → Ends n (int_const t o)
int_const-Ends n t none s h = tt
int_const-Ends n t (some w) s h =
    then_ n (or_refuse _ (parse_i128 t)) _ (or_refuse-Ends n _ (parse_i128 t))
      (λ v. λ s h. omega arith) s h

module _ (F : FloatText) where
  float_const-Ends : (n : ℕ) (t : List ℕ) (k : TyKind) → Ends n (float_const F t k)
  float_const-Ends n t k =
      then_ n (or_refuse _ (F.read t)) _ (or_refuse-Ends n _ (F.read t)) (λ v. λ s h. omega arith)

  suffixed-Ends : (n : ℕ) (r : List ℕ × Option (List ℕ)) → Ends n (suffixed F r)
  suffixed-Ends n (t, none) s h = tt
  suffixed-Ends n (t, some suf) s h =
      if-either (Ends n) (same_text suf (codes "f32")) (float_const F t f32) _
        (float_const-Ends n t f32)
        (if-either (Ends n) (same_text suf (codes "f64")) (float_const F t f64)
          (int_const t (parse_int_suffix suf)) (float_const-Ends n t f64)
          (int_const-Ends n t (parse_int_suffix suf)))
        s h

  number_const-Ends : (n : ℕ) (t : List ℕ) → Ends n (number_const F t)
  unfolding number_const
  number_const-Ends n t = suffixed-Ends n (split_num t)

  str_or_num-Ends : (n : ℕ) (ts : List Tok) → Ends n (str_or_num F ts)
  str_or_num-Ends n (Tok.str t ∷ us) s h = omega arith
  str_or_num-Ends n (Tok.num t ∷ us) s h = number_const-Ends n t s h
  str_or_num-Ends n _ s h = tt

  const_val-Ends : (n : ℕ) → Ends n (const_val F)
  unfolding const_val
  const_val-Ends n s h =
      let k = length s.toks in
      let l = length-behind s.toks in
      either_end k (next_kw "true" s.toks) (parsed (bool true) (bump s)) _ l (
        either_end k (next_kw "false" s.toks) (parsed (bool false) (bump s)) _ l (
          either_end k (next_kw "ghosted" s.toks) (parsed ghosted (bump s)) _ l (
            either_end k (next_kw "nullptr" s.toks) (parsed null_ptr (bump s)) _ l (
              either_end k (next_is at_sign s.toks) (function_const F (bump s)) _
                (behind_end n (function_const F) s h function_Ends)
                (behind_end n (str_or_num F s.toks) s h (str_or_num-Ends n s.toks))))))
    where
      function_Ends : Ends n (function_const F)
      function_Ends = then_ n expect_ident _ (expect_ident-Ends n) (λ name.
          then_ n (λ t. or_refuse _ (lookup name t.func_ids) t) _
            (λ t h. or_refuse-Ends n _ (lookup name t.func_ids) t h) (λ f. pure-Ends n (fn_ref f)))

  module _ (n : ℕ) (next : Parse Projs) (e : Ends n next) where
    place_by-Ends : Ends n (place_by F next)
    place_by-Ends = then_ n (expect percent) _ (expect-Ends n percent) (λ z.
        then_ n bare_u32 _ (bare_u32-Ends n)
          (λ k. then_ n next _ e (λ ps. pure-Ends n (place k ps))))

    operand_by-Ends : Ends n (operand_by F next)
    operand_by-Ends s h =
        either_end (length s.toks) (next_kw "move" s.toks) _ _
          (behind_end n (λ t. bound (place_by F next t) (λ p. pure (moved p))) s h
            (then_ n (place_by F next) _ place_by-Ends (λ p. pure-Ends n (moved p))))
          (either_end (length s.toks) (next_is percent s.toks) _ _
            (then_ n (place_by F next) _ place_by-Ends (λ p. pure-Ends n (copy p)) s h)
            (then_ n (const_val F) _ (const_val-Ends n) (λ c. pure-Ends n (const c)) s h))

    in_parens-Ends : (p : Parse Proj) → Ends n p → Ends n (in_parens F p)
    in_parens-Ends p k = then_ n (expect l_paren) _ (expect-Ends n l_paren) (λ z.
        then_ n p _ k
          (λ a. then_ n (expect r_paren) _ (expect-Ends n r_paren) (λ z. pure-Ends n a)))

    proj_of-Ends : (kind : List ℕ) → Ends n (proj_of F next kind)
    proj_of-Ends kind =
        if-either (Ends n) (same_text kind (codes "field")) _ _
          (in_parens-Ends _ (then_ n bare_u32 _ (bare_u32-Ends n) (λ i. pure-Ends n (field i))))
          (if-either (Ends n) (same_text kind (codes "index")) _ _
            (in_parens-Ends _
              (then_ n (operand_by F next) _ operand_by-Ends (λ op. pure-Ends n (index op))))
            (if-either (Ends n) (same_text kind (codes "deref")) _ _ (pure-Ends n deref) (
              if-either (Ends n) (same_text kind (codes "downcast")) _ _
                (in_parens-Ends _
                  (then_ n bare_u32 _ (bare_u32-Ends n) (λ v. pure-Ends n (downcast v))))
                (λ s h. tt))))

  pub behind_less : (t : Tok) (ts : List Tok) → next_is t ts ≡ true → length (behind ts) < length ts
  behind_less t [] h = cc
  behind_less t (x ∷ ts) h = omega arith

  projs-Ends : (f n : ℕ) → n < f → Ends n (projs F f)
  unfolding projs
  projs-Ends zero n lt s h = absurd (omega arith)
  projs-Ends (suc f) n lt s h = elim (Bool-cases (next_is dot s.toks)) [
    | inr e ↦ rw e (omega arith)
    | inl e ↦
        (let less = behind_less dot s.toks e in
          let m = length (behind s.toks) in
          let ih = projs-Ends f m (omega arith) in
          rw e (
            Left-weaken m (length s.toks) _ (omega arith) (
              then_ m expect_ident _ (expect_ident-Ends m)
                (λ kind.
                  then_ m (proj_of F (projs F f) kind) _ (proj_of-Ends m (projs F f) ih kind)
                    (λ p. then_ m (projs F f) _ ih (λ ps. pure-Ends m (then_proj p ps))))
                (bump s) (omega arith))))
  ]

  all_projs-Ends : (n : ℕ) → Ends n (all_projs F)
  all_projs-Ends n s h =
      projs-Ends (suc (length s.toks)) (length s.toks) (omega arith) s (omega arith)

  pub parse_operand-Ends : (n : ℕ) → Ends n (parse_operand F)
  unfolding parse_operand
  parse_operand-Ends n = operand_by-Ends n (all_projs F) (all_projs-Ends n)

  pub parse_place-Ends : (n : ℕ) → Ends n (parse_place F)
  unfolding parse_place
  parse_place-Ends n = place_by-Ends n (all_projs F) (all_projs-Ends n)
