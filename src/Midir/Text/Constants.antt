-- ===== src/Midir/Text/Constants.antt =====
-- Numbers, labels and constants of crates/midir/src/text.rs: what is printed is parsed back.
use bet.Prelude.{
  ℕ, suc, ◌<◌, ◌^◌, ◌%◌, ◌≡◌, refl, ap, sym, ◌∙◌, Bool, true, false, Option, some, List, ◌∷◌, ◌++◌,
  get_elem?, All, arith, append-All, subst,
}
use bet.Midir.Ir.{ℤ, pos, negsuc, Const, int, float}
use bet.Midir.Module.{
  IntWidth, w8, w16, w32, w64, TyKind, int_ty, f32, Module, intern_ty, intern, interned,
}
use bet.Midir.Module.Interning.{IsModule}
use bet.Midir.Text.{Tok, ident, num}
use bet.Midir.Text.Names.{codes, int_name, parse_int_suffix}
use bet.Midir.Text.Decimal.{
  decimal, decimal_int, split_num, is_ascii_letter, NoLetter, decimal-Digit, Digit→NoLetter,
  split_num-bare, split_num-suffix, parse_unsigned-decimal, parse_i128-decimal_int, IsI128,
}
use bet.Midir.Text.Printer.{FloatText}
use bet.Midir.Text.Parser.{
  Parser, Parsed, parsed, bare_u64, bare_u32, block_id, number_const, suffixed, unsuffixed,
  int_const, float_const, interned_ty, bound, or_refuse, pure, bad_integer, bad_label, bad_float,
}
use bet.Midir.Text.Numerals.{sign_text, is_suffix}

-- The number of an id is read as the `u64` that it was, and kept as a `u32`.
module _ (s : Parser) where
  pub bare_u64-decimal :
      (n : ℕ) (rest : List Tok)
      → n < 2 ^ 64
      → bare_u64 (record s { toks = num (decimal n) ∷ rest }) ≡ parsed n (record s { toks = rest })
  bare_u64-decimal n rest h =
      ap (λ (r : List ℕ × Option (List ℕ)). unsuffixed r (record s { toks = rest }))
        (split_num-bare (decimal n) (Digit→NoLetter (decimal n) (decimal-Digit n)))
      ∙ ap (λ (o : Option ℕ). or_refuse bad_integer o (record s { toks = rest }))
          (parse_unsigned-decimal 64 n h)

  pub bare_u32-decimal :
      (n : ℕ) (rest : List Tok)
      → n < 2 ^ 32
      → bare_u32 (record s { toks = num (decimal n) ∷ rest }) ≡ parsed n (record s { toks = rest })
  bare_u32-decimal n rest h =
      ap (λ (r : Parsed ℕ). bound r (λ k. pure (k % 2 ^ 32)))
        (bare_u64-decimal n rest (omega arith))
      ∙ (let e : n % 2 ^ 32 ≡ n = omega arith in rw e refl)

  pub block_id-label :
      (n : ℕ) (rest : List Tok)
      → n < 2 ^ 32
      → block_id (record s { toks = ident (codes "bb" ++ decimal n) ∷ rest })
        ≡ parsed n (record s { toks = rest })
  block_id-label n rest h =
      ap (λ (o : Option ℕ). or_refuse bad_label o (record s { toks = rest }))
        (parse_unsigned-decimal 32 n h)

-- A type that the tables have is interned as it is.
pub intern_ty_known :
    (m : Module) (k : TyKind) (ty : ℕ)
    → IsModule m
    → get_elem? m.types ty ≡ some k
    → intern_ty m k ≡ (ty, m)
unfolding intern_ty intern IsModule
intern_ty_known m k ty v e =
    ap
      (λ (o : Option ℕ).
        let r = interned m.types m.type_dedup k o in
        (r.0, record m { types = r.1; type_dedup = r.2 }))
      (v.0.found k ty e)

module _ (F : FloatText) where
  suffixed_int :
      (t : List ℕ) (w : IntWidth) (b : Bool)
      → suffixed F (t, some (int_name w b)) ≡ int_const t (some (w, b))
  unfolding int_name parse_int_suffix
  suffixed_int t w8 true = refl
  suffixed_int t w8 false = refl
  suffixed_int t w16 true = refl
  suffixed_int t w16 false = refl
  suffixed_int t w32 true = refl
  suffixed_int t w32 false = refl
  suffixed_int t w64 true = refl
  suffixed_int t w64 false = refl

  -- An integer suffix is a letter and digits.
  pub int_name_lem :
      (w : IntWidth) (b : Bool)
      → (c : ℕ) × (cs : List ℕ) × (int_name w b ≡ c ∷ cs)
        × (is_ascii_letter c ≡ true)
        × (is_suffix (int_name w b) ≡ true)
  unfolding int_name
  int_name_lem w8 true = (_, _, refl, refl, refl)
  int_name_lem w8 false = (_, _, refl, refl, refl)
  int_name_lem w16 true = (_, _, refl, refl, refl)
  int_name_lem w16 false = (_, _, refl, refl, refl)
  int_name_lem w32 true = (_, _, refl, refl, refl)
  int_name_lem w32 false = (_, _, refl, refl, refl)
  int_name_lem w64 true = (_, _, refl, refl, refl)
  int_name_lem w64 false = (_, _, refl, refl, refl)

  abbrev pub is_negative : ℤ → Bool
  is_negative (pos n) = false
  is_negative (negsuc n) = true

  abbrev pub magnitude : ℤ → ℕ
  magnitude (pos n) = n
  magnitude (negsuc n) = suc n

  pub decimal_int_lem : (v : ℤ) → decimal_int v ≡ sign_text (is_negative v) ++ decimal (magnitude v)
  unfolding decimal_int
  decimal_int_lem (pos n) = refl
  decimal_int_lem (negsuc n) = refl

  pub sign-NoLetter : (b : Bool) → All NoLetter (sign_text b)
  sign-NoLetter true = (refl, tt)
  sign-NoLetter false = tt

  decimal_int-NoLetter : (v : ℤ) → All NoLetter (decimal_int v)
  decimal_int-NoLetter v = subst (All NoLetter) (sym (decimal_int_lem v)) (
      append-All NoLetter _ _ (sign-NoLetter (is_negative v))
        (Digit→NoLetter _ (decimal-Digit (magnitude v))))

  -- What the number token of an integer constant is parsed as.
  pub number_const-int :
      (s : Parser) (v : ℤ) (ty : ℕ) (w : IntWidth) (b : Bool)
      → IsModule s.m
      → get_elem? s.m.types ty ≡ some (int_ty w b)
      → IsI128 v
      → number_const F (decimal_int v ++ int_name w b) s ≡ parsed (int v ty) s
  unfolding number_const
  number_const-int s v ty w b im e h =
      let n = int_name_lem w b in
      let split : split_num (decimal_int v ++ int_name w b) ≡ (decimal_int v, some (int_name w b)) =
        subst (λ (x : List ℕ). split_num (decimal_int v ++ x) ≡ (decimal_int v, some x)) (sym n.2)
          (split_num-suffix (decimal_int v) n.0 n.1 (decimal_int-NoLetter v) n.3) in
      ap (λ (r : List ℕ × Option (List ℕ)). suffixed F r s) split
      ∙ ap (λ (p : Parser → Parsed Const). p s) (suffixed_int (decimal_int v) w b)
      ∙ ap
          (λ (o : Option ℤ).
            bound (or_refuse bad_integer o s)
              (λ x. λ t. bound (interned_ty (int_ty w b) t) (λ y. pure (int x y))))
          (parse_i128-decimal_int v h)
      ∙ ap (λ (r : ℕ × Module). parsed (int v r.0) (record s { m = r.1 }))
          (intern_ty_known s.m (int_ty w b) ty im e)

  same_f32 : (t : List ℕ) → suffixed F (t, some (codes "f32")) ≡ float_const F t f32
  same_f32 t = refl

  pub number_const-float :
      (s : Parser) (bits ty : ℕ) (t suf : List ℕ) (k : TyKind)
      → IsModule s.m
      → get_elem? s.m.types ty ≡ some k
      → F.read t ≡ some bits
      → split_num (t ++ suf) ≡ (t, some suf)
      → suffixed F (t, some suf) ≡ float_const F t k
      → number_const F (t ++ suf) s ≡ parsed (float bits ty) s
  unfolding number_const
  number_const-float s bits ty t suf k im e r split q =
      ap (λ (x : List ℕ × Option (List ℕ)). suffixed F x s) split
      ∙ ap (λ (p : Parser → Parsed Const). p s) q
      ∙ ap
          (λ (o : Option ℕ).
            bound (or_refuse bad_float o s)
              (λ x. λ u. bound (interned_ty k u) (λ y. pure (float x y))))
          r
      ∙ ap (λ (x : ℕ × Module). parsed (float bits x.0) (record s { m = x.1 }))
          (intern_ty_known s.m k ty im e)
