-- ===== src/Midir/Text/Parser.antt =====
-- `Parser` of crates/midir/src/text.rs for operands, places, constants and terminators. The index
-- `pos` is the rest of the tokens; an error is without its text and its position. The tables of names of
-- structs, sums and cribs and the types of locals serve the parts of the parser that are not here.
use Prim.Native.String.{String}
use bet.Prelude.{
  ℕ, zero, suc, ◌%◌, ◌^◌, Bool, true, false, Option, none, some, List, [], ◌∷◌, length,
  if◌then◌else◌,
}
use bet.Midir.Ir.{
  ℤ, Const, int, float, bool, ghosted, null_ptr, fn_ref, Place, place, Projs, no_proj, then_proj,
  Proj, field, index, deref, downcast, Operand, const, copy, moved, Terminator, goto, branch,
  switch, holla_check, return, panic, unreachable,
}
use bet.Midir.Ir as Ir
use bet.Midir.Module.{IntWidth, TyKind, int_ty, f32, f64, Module, intern_ty}
use bet.Midir.Text.{
  Tok, ident, num, l_paren, r_paren, l_brace, r_brace, l_bracket, r_bracket, comma, colon,
  colon_colon, semi, percent, at_sign, arrow, eq_sign, dot,
}
use bet.Midir.Text.Names.{codes, same_text, parse_int_suffix}
use bet.Midir.Text.Decimal.{parse_unsigned, parse_i128, split_num}
use bet.Midir.Text.Printer.{FloatText}

pub data ParseError : Type 0 where
  expected : Tok → ParseError
  expected_identifier expected_else expected_terminator expected_constant expected_integer :
      ParseError
  unknown_function unknown_projection bad_label bad_integer bad_float bad_suffix no_suffix
        has_suffix :
      ParseError

pub record Parser : Type 0 where
  pub toks : List Tok
  pub m : Module
  pub func_ids : List (List ℕ × ℕ)

pub data Parsed {ℓ} (A : Type ℓ) : Type ℓ where
  parsed : A → Parser → Parsed A
  fails : ParseError → Parsed A
  out_of_fuel : Parsed A

abbrev pub Parse {ℓ} : Type ℓ → Type ℓ
Parse A = Parser → Parsed A

abbrev pub bound {ℓ κ} : {A : Type ℓ} {B : Type κ} → Parsed A → (A → Parse B) → Parsed B
bound (parsed a s) f = f a s
bound (fails e) f = fails e
bound out_of_fuel f = out_of_fuel

infixl 5 ◌>>=◌ ◌>>◌
abbrev pub ◌>>=◌ {ℓ κ} : {A : Type ℓ} {B : Type κ} → Parse A → (A → Parse B) → Parse B
◌>>=◌ p f s = bound (p s) f

abbrev pub ◌>>◌ {ℓ κ} : {A : Type ℓ} {B : Type κ} → Parse A → Parse B → Parse B
◌>>◌ p q s = bound (p s) (λ _. q)

abbrev pub pure {ℓ} : {A : Type ℓ} → A → Parse A
pure a s = parsed a s

abbrev pub refuse {ℓ} : {A : Type ℓ} → ParseError → Parse A
refuse e s = fails e

-- `ok_or_else`.
abbrev pub or_refuse {ℓ} : {A : Type ℓ} → ParseError → Option A → Parse A
or_refuse e none s = fails e
or_refuse e (some a) s = parsed a s

-- The derived equality of tokens.
abbrev pub same_tok : Tok → Tok → Bool
same_tok (ident s) (ident t) = same_text s t
same_tok (num s) (num t) = same_text s t
same_tok (Tok.str s) (Tok.str t) = same_text s t
same_tok l_paren l_paren = true
same_tok r_paren r_paren = true
same_tok l_brace l_brace = true
same_tok r_brace r_brace = true
same_tok l_bracket l_bracket = true
same_tok r_bracket r_bracket = true
same_tok comma comma = true
same_tok colon colon = true
same_tok colon_colon colon_colon = true
same_tok semi semi = true
same_tok percent percent = true
same_tok at_sign at_sign = true
same_tok arrow arrow = true
same_tok eq_sign eq_sign = true
same_tok dot dot = true
same_tok _ _ = false

abbrev pub next_is : Tok → List Tok → Bool
next_is t [] = false
next_is t (u ∷ us) = same_tok u t

abbrev pub behind : List Tok → List Tok
behind [] = []
behind (t ∷ ts) = ts

abbrev pub bump : Parser → Parser
bump s = record s { toks = behind s.toks }

-- `eat` and `eat_kw`.
abbrev pub eat : Tok → Parse Bool
eat t s = if next_is t s.toks then parsed true (bump s) else parsed false s

abbrev pub expect : Tok → Parse (Unit {0})
expect t s = if next_is t s.toks then parsed tt (bump s) else fails (expected t)

abbrev pub next_kw : String → List Tok → Bool
next_kw kw (ident t ∷ us) = same_text t (codes kw)
next_kw kw _ = false

abbrev pub eat_kw : String → Parse Bool
eat_kw kw s = if next_kw kw s.toks then parsed true (bump s) else parsed false s

abbrev pub ident_of : List Tok → Option (List ℕ)
ident_of (ident t ∷ us) = some t
ident_of _ = none

abbrev pub expect_ident : Parse (List ℕ)
expect_ident s = or_refuse expected_identifier (ident_of s.toks) (bump s)

abbrev pub lookup : List ℕ → List (List ℕ × ℕ) → Option ℕ
lookup name [] = none
lookup name (e ∷ es) = let rest = lookup name es in if same_text name e.0 then some e.1 else rest

abbrev pub num_of : List Tok → Option (List ℕ)
num_of (num t ∷ us) = some t
num_of _ = none

-- A number without a suffix, of a type of `w` bits.
abbrev pub unsuffixed : List ℕ × Option (List ℕ) → Parse ℕ
unsuffixed (t, some suf) = refuse has_suffix
unsuffixed (t, none) = or_refuse bad_integer (parse_unsigned 64 t)

abbrev pub bare_u64 : Parse ℕ
bare_u64 = do t ← λ s. or_refuse expected_integer (num_of s.toks) (bump s); unsuffixed (split_num t)

-- `as u32`.
abbrev pub bare_u32 : Parse ℕ
bare_u32 = do n ← bare_u64; pure (n % 2 ^ 32)

abbrev pub label_number : List ℕ → Option ℕ
label_number (a ∷ b ∷ t) = if same_text (a ∷ b ∷ []) (codes "bb") then parse_unsigned 32 t else none
label_number _ = none

abbrev pub block_id : Parse ℕ
block_id = do id ← expect_ident; or_refuse bad_label (label_number id)

abbrev pub interned_ty : TyKind → Parse ℕ
interned_ty k s = parsed (intern_ty s.m k).0 (record s { m = (intern_ty s.m k).1 })

abbrev pub int_const : List ℕ → Option (IntWidth × Bool) → Parse Const
int_const t none = refuse bad_suffix
int_const t (some w) = do
  v ← or_refuse bad_integer (parse_i128 t)
  ty ← interned_ty (int_ty w.0 w.1)
  pure (int v ty)

module _ (F : FloatText) where
  abbrev pub float_const : List ℕ → TyKind → Parse Const
  float_const t k = do v ← or_refuse bad_float (F.read t); ty ← interned_ty k; pure (float v ty)

  abbrev pub suffixed : List ℕ × Option (List ℕ) → Parse Const
  suffixed (t, none) = refuse no_suffix
  suffixed (t, some suf) =
      if same_text suf (codes "f32")
      then float_const t f32
      else if same_text suf (codes "f64")
      then float_const t f64
      else int_const t (parse_int_suffix suf)

  unfoldable pub number_const : List ℕ → Parse Const
  number_const t = suffixed (split_num t)

  -- The last `match` of `const_val`.
  abbrev pub str_or_num : List Tok → Parse Const
  str_or_num (Tok.str t ∷ us) = pure (Ir.str t)
  str_or_num (num t ∷ us) = number_const t
  str_or_num _ = refuse expected_constant

  abbrev pub function_const : Parse Const
  function_const = do
    name ← expect_ident
    f ← λ s. or_refuse unknown_function (lookup name s.func_ids) s
    pure (fn_ref f)

  unfoldable pub const_val : Parse Const
  const_val s =
      if next_kw "true" s.toks
      then parsed (bool true) (bump s)
      else if next_kw "false" s.toks
      then parsed (bool false) (bump s)
      else if next_kw "ghosted" s.toks
      then parsed ghosted (bump s)
      else if next_kw "nullptr" s.toks
      then parsed null_ptr (bump s)
      else if next_is at_sign s.toks
      then function_const (bump s)
      else str_or_num s.toks (bump s)

  -- `place` and `operand`, with the loop over the projections.
  abbrev pub place_by : Parse Projs → Parse Place
  place_by next = do expect percent; n ← bare_u32; ps ← next; pure (place n ps)

  abbrev pub operand_by : Parse Projs → Parse Operand
  operand_by next s =
      if next_kw "move" s.toks
      then (do p ← place_by next; pure (moved p)) (bump s)
      else if next_is percent s.toks
      then (do p ← place_by next; pure (copy p)) s
      else (do c ← const_val; pure (const c)) s

  abbrev pub in_parens : Parse Proj → Parse Proj
  in_parens p = do expect l_paren; a ← p; expect r_paren; pure a

  abbrev pub proj_of : Parse Projs → List ℕ → Parse Proj
  proj_of next kind =
      if same_text kind (codes "field")
      then in_parens (do i ← bare_u32; pure (field i))
      else if same_text kind (codes "index")
      then in_parens (do op ← operand_by next; pure (index op))
      else if same_text kind (codes "deref")
      then pure deref
      else if same_text kind (codes "downcast")
      then in_parens (do v ← bare_u32; pure (downcast v))
      else refuse unknown_projection

  unfoldable pub projs : ℕ → Parse Projs
  projs zero s = out_of_fuel
  projs (suc f) s =
      let more =
        (do kind ← expect_ident; p ← proj_of (projs f) kind; ps ← projs f; pure (then_proj p ps))
          (bump s) in
      if next_is dot s.toks then more else parsed no_proj s

  -- Each round of the loop takes a token.
  abbrev pub all_projs : Parse Projs
  all_projs s = projs (suc (length s.toks)) s

  unfoldable pub parse_place : Parse Place
  parse_place = place_by all_projs

  unfoldable pub parse_operand : Parse Operand
  parse_operand = operand_by all_projs
