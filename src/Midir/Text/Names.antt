-- ===== src/Midir/Text/Names.antt =====
-- The naming tables of crates/midir/src/text.rs, which its printer and its parser share.
use Prim.Native.Char.{code}
use Prim.Native.String.{String}
use bet.Prelude.{
  ℕ, ◌≡◌, refl, Bool, true, false, ◌&&◌, Option, none, some, List, [], ◌∷◌, ◌++◌, ◌==◌,
  if◌then◌else◌,
}
use bet.Midir.Ir.{
  BinOp, add, sub, mul, div, rem, band, bor, bxor, shl, shr, eq_op, ne_op, lt_op, le_op, gt_op,
  ge_op, ArithMode, wrap, trap, na, CastKind, int_zext, int_sext, int_trunc, int_to_float,
  float_to_int, float_resize, bitcast,
}
use bet.Midir.Module.{IntWidth, w8, w16, w32, w64}

-- The code points of a literal.
abbrev pub codes : String → List ℕ
codes String.[] = []
codes (String.◌∷◌ c s) = code c ∷ codes s

abbrev pub same_text : List ℕ → List ℕ → Bool
same_text [] [] = true
same_text (a ∷ s) (b ∷ t) = (a == b) && same_text s t
same_text _ _ = false

-- An arm of a `match` on a text, and the arms behind it.
infixr 5 ◌or_else◌
abbrev ◌or_else◌ {ℓ} : {A : Type ℓ} → Option A → Option A → Option A
none or_else o = o
some a or_else o = some a

abbrev arm {ℓ} : {A : Type ℓ} → List ℕ → String → A → Option A
arm s name a = if same_text s (codes name) then some a else none

unfoldable pub binop_name : BinOp → List ℕ
binop_name add = codes "add"
binop_name sub = codes "sub"
binop_name mul = codes "mul"
binop_name div = codes "div"
binop_name rem = codes "rem"
binop_name band = codes "bitand"
binop_name bor = codes "bitor"
binop_name bxor = codes "bitxor"
binop_name shl = codes "shl"
binop_name shr = codes "shr"
binop_name eq_op = codes "eq"
binop_name ne_op = codes "ne"
binop_name lt_op = codes "lt"
binop_name le_op = codes "le"
binop_name gt_op = codes "gt"
binop_name ge_op = codes "ge"

unfoldable pub parse_binop : List ℕ → Option BinOp
parse_binop s =
    arm s "add" add
    or_else arm s "sub" sub
    or_else arm s "mul" mul
    or_else arm s "div" div
    or_else arm s "rem" rem
    or_else arm s "bitand" band
    or_else arm s "bitor" bor
    or_else arm s "bitxor" bxor
    or_else arm s "shl" shl
    or_else arm s "shr" shr
    or_else arm s "eq" eq_op
    or_else arm s "ne" ne_op
    or_else arm s "lt" lt_op
    or_else arm s "le" le_op
    or_else arm s "gt" gt_op
    or_else arm s "ge" ge_op

unfoldable pub mode_name : ArithMode → List ℕ
mode_name wrap = codes "wrap"
mode_name trap = codes "trap"
mode_name na = codes "na"

unfoldable pub parse_mode : List ℕ → Option ArithMode
parse_mode s = arm s "wrap" wrap or_else arm s "trap" trap or_else arm s "na" na

unfoldable pub cast_name : CastKind → List ℕ
cast_name int_zext = codes "zext"
cast_name int_sext = codes "sext"
cast_name int_trunc = codes "trunc"
cast_name int_to_float = codes "itof"
cast_name float_to_int = codes "ftoi"
cast_name float_resize = codes "fresize"
cast_name bitcast = codes "bitcast"

unfoldable pub parse_cast : List ℕ → Option CastKind
parse_cast s =
    arm s "zext" int_zext
    or_else arm s "sext" int_sext
    or_else arm s "trunc" int_trunc
    or_else arm s "itof" int_to_float
    or_else arm s "ftoi" float_to_int
    or_else arm s "fresize" float_resize
    or_else arm s "bitcast" bitcast

-- The decimal digits of `IntWidth::bits`.
abbrev width_text : IntWidth → List ℕ
width_text w8 = codes "8"
width_text w16 = codes "16"
width_text w32 = codes "32"
width_text w64 = codes "64"

unfoldable pub int_name : IntWidth → Bool → List ℕ
int_name w signed = (if signed then codes "i" else codes "u") ++ width_text w

abbrev parse_width : List ℕ → Option IntWidth
parse_width s = arm s "8" w8 or_else arm s "16" w16 or_else arm s "32" w32 or_else arm s "64" w64

abbrev with_sign : Bool → Option IntWidth → Option (IntWidth × Bool)
with_sign signed none = none
with_sign signed (some w) = some (w, signed)

unfoldable pub parse_int_suffix : List ℕ → Option (IntWidth × Bool)
parse_int_suffix [] = none
parse_int_suffix (c ∷ rest) =
    if c == b'i'
    then with_sign true (parse_width rest)
    else if c == b'u'
    then with_sign false (parse_width rest)
    else none

parse_binop-binop_name : (op : BinOp) → parse_binop (binop_name op) ≡ some op
unfolding parse_binop binop_name
parse_binop-binop_name add = refl
parse_binop-binop_name sub = refl
parse_binop-binop_name mul = refl
parse_binop-binop_name div = refl
parse_binop-binop_name rem = refl
parse_binop-binop_name band = refl
parse_binop-binop_name bor = refl
parse_binop-binop_name bxor = refl
parse_binop-binop_name shl = refl
parse_binop-binop_name shr = refl
parse_binop-binop_name eq_op = refl
parse_binop-binop_name ne_op = refl
parse_binop-binop_name lt_op = refl
parse_binop-binop_name le_op = refl
parse_binop-binop_name gt_op = refl
parse_binop-binop_name ge_op = refl

parse_mode-mode_name : (m : ArithMode) → parse_mode (mode_name m) ≡ some m
unfolding parse_mode mode_name
parse_mode-mode_name wrap = refl
parse_mode-mode_name trap = refl
parse_mode-mode_name na = refl

parse_cast-cast_name : (k : CastKind) → parse_cast (cast_name k) ≡ some k
unfolding parse_cast cast_name
parse_cast-cast_name int_zext = refl
parse_cast-cast_name int_sext = refl
parse_cast-cast_name int_trunc = refl
parse_cast-cast_name int_to_float = refl
parse_cast-cast_name float_to_int = refl
parse_cast-cast_name float_resize = refl
parse_cast-cast_name bitcast = refl

parse_int_suffix-int_name :
    (w : IntWidth) (s : Bool) → parse_int_suffix (int_name w s) ≡ some (w, s)
unfolding parse_int_suffix int_name
parse_int_suffix-int_name w8 true = refl
parse_int_suffix-int_name w8 false = refl
parse_int_suffix-int_name w16 true = refl
parse_int_suffix-int_name w16 false = refl
parse_int_suffix-int_name w32 true = refl
parse_int_suffix-int_name w32 false = refl
parse_int_suffix-int_name w64 true = refl
parse_int_suffix-int_name w64 false = refl

-- Every binary operator, overflow mode, cast kind and integer type is parsed back from the name
-- that it is printed as.
pub names_round_trip :
    (op : BinOp) (m : ArithMode) (k : CastKind) (w : IntWidth) (s : Bool)
    → (parse_binop (binop_name op) ≡ some op)
      × (parse_mode (mode_name m) ≡ some m)
      × (parse_cast (cast_name k) ≡ some k)
      × (parse_int_suffix (int_name w s) ≡ some (w, s))
names_round_trip op m k w s = (
  parse_binop-binop_name op,
  parse_mode-mode_name m,
  parse_cast-cast_name k,
  parse_int_suffix-int_name w s,
)
