-- ===== src/Interp/Ints.antt =====
-- Sized integers of crates/interp: `wrap_to` of value.rs, and the operators of interp.rs at a declared
-- width and signedness.
pub mod Fits
pub mod Exact
pub mod Held
pub mod Divided
pub mod DividedUnsigned
use bet.Prelude.{
  ℕ, suc, ◌+◌, ◌-◌, ◌*◌, ◌/◌, ◌%◌, ◌^◌, Bool, true, false, ◌&&◌, not, Option, none, some, List, [],
  ◌∷◌, ◌==◌, ltb, leb, if◌then◌else◌, bit_and, bit_or, bit_xor,
}
use bet.Midir.Ir.{ℤ, pos, negsuc}
use bet.Interp.Whole.{negate, ◌+ℤ◌, ◌-ℤ◌, ◌*ℤ◌, quot, rem, rem_euclid, shifted, eqℤ, ltℤ}
use bet.Interp.Value.{
  IntTy, Value, int, bool, byte, What, addition, subtraction, multiplication, division, remainder,
  negation, RunError, overflow, div_by_zero, type_error, Ran, ok, fails, panics,
}

-- `BinOp` of the syntax tree.
pub data BinOp : Type 0 where
  or_op and_op eq_op ne_op lt_op le_op gt_op ge_op bit_or_op bit_xor_op bit_and_op shl shr : BinOp
  add sub mul div rem_op : BinOp

abbrev pub word : IntTy
word = record { bits = 64; signed = true }

abbrev same_sign : Bool → Bool → Bool
same_sign true b = b
same_sign false b = not b

abbrev pub same_repr : IntTy → IntTy → Bool
same_repr a b = (a.bits == b.bits) && same_sign a.signed b.signed

-- The number of `k` bits that two's complement reads out of `m`, below `2 ^ k`.
abbrev pub resign : ℕ → ℕ → ℤ
resign k m = if leb (2 ^ (k - 1)) m then negsuc (2 ^ k - m - 1) else pos m

-- `v as i64`.
abbrev pub as_i64 : ℤ → ℤ
as_i64 v = resign 64 (rem_euclid v (2 ^ 64))

unfoldable pub wrap_to : ℤ → IntTy → ℤ
wrap_to v ty =
    if leb 64 ty.bits
    then as_i64 v
    else if ty.signed
    then resign ty.bits (rem_euclid v (2 ^ ty.bits))
    else pos (rem_euclid v (2 ^ ty.bits))

abbrev pub sized : ℤ → IntTy → Value
sized v ty = int (wrap_to v ty) ty

unfoldable pub combine_int_ty : IntTy → IntTy → IntTy
combine_int_ty a b =
    if same_repr a b
    then a
    else if not (same_repr a word) && same_repr b word
    then a
    else if same_repr a word && not (same_repr b word)
    then b
    else if leb b.bits a.bits
    then a
    else b

unfoldable pub operand_u64 : ℤ → IntTy → ℕ
operand_u64 a ty =
    if leb 64 ty.bits then rem_euclid a (2 ^ 64) else rem_euclid a (2 ^ 64) % 2 ^ ty.bits

-- `res` is a `u128`.
unfoldable pub store_unsigned : ℕ → IntTy → Value
store_unsigned res ty =
    int (if leb 64 ty.bits then resign 64 (res % 2 ^ 64) else pos (res % 2 ^ ty.bits)) ty

-- A result that is trapped where it does not come back from its width.
unfoldable pub trapped : What → ℤ → IntTy → Ran Value
trapped what res ty =
    if eqℤ (wrap_to res ty) res then ok (int (wrap_to res ty) ty) else fails (overflow what)

unfoldable pub neg_int : ℤ → IntTy → Ran Value
neg_int a ty =
    if ty.signed
    then trapped negation (negate a) ty
    else ok (store_unsigned ((2 ^ 128 - operand_u64 a ty) % 2 ^ 128) ty)

unfoldable pub bit_not : ℤ → IntTy → Value
bit_not v ty = int (wrap_to (negate v -ℤ pos 1) ty) ty

-- The sums, differences and products of `i128` and of `u128`.
abbrev pub exact : BinOp → ℤ → ℤ → ℤ
exact add x y = x +ℤ y
exact sub x y = x -ℤ y
exact _ x y = x *ℤ y

abbrev pub what_of : BinOp → What
what_of add = addition
what_of sub = subtraction
what_of _ = multiplication

abbrev pub wrapping : BinOp → ℕ → ℕ → ℕ
wrapping add x y = (x + y) % 2 ^ 128
wrapping sub x y = (x + 2 ^ 128 - y) % 2 ^ 128
wrapping _ x y = (x * y) % 2 ^ 128

unfoldable pub arithmetic : BinOp → ℤ → ℤ → IntTy → Ran Value
arithmetic op a b ty =
    if ty.signed
    then trapped (what_of op) (exact op a b) ty
    else ok (store_unsigned (wrapping op (operand_u64 a ty) (operand_u64 b ty)) ty)

abbrev is_div : BinOp → Bool
is_div div = true
is_div _ = false

abbrev pub least : ℕ → ℤ
least bits = negsuc (2 ^ (bits - 1) - 1)

-- `x / y` and `x % y` on two `u64`, which panic where `y` is 0: the test of `b` before them is on the
-- whole number, and a `b` that is not 0 can be 0 at the width.
abbrev pub divide_unsigned : BinOp → ℕ → ℕ → IntTy → Ran Value
divide_unsigned op x y ty =
    if y == 0 then panics else ok (store_unsigned (if is_div op then x / y else x % y) ty)

unfoldable pub divide : BinOp → ℤ → ℤ → IntTy → Ran Value
divide op a b ty =
    if eqℤ b (pos 0)
    then fails div_by_zero
    else if ty.signed
    then if eqℤ a (least ty.bits) && eqℤ b (negsuc 0)
      then fails (overflow (if is_div op then division else remainder))
      else ok (int (wrap_to (if is_div op then quot a b else rem a b) ty) ty)
    else divide_unsigned op (operand_u64 a ty) (operand_u64 b ty) ty

-- A bitwise operator on two `i64`.
abbrev pub bitwise : (ℕ → ℕ → ℕ) → ℤ → ℤ → IntTy → Value
bitwise f a b ty =
    int (wrap_to (resign 64 (f (rem_euclid a (2 ^ 64)) (rem_euclid b (2 ^ 64)))) ty) ty

-- `(b as u32) & (bits - 1)`.
abbrev pub amount : ℤ → IntTy → ℕ
amount b ty = bit_and (rem_euclid b (2 ^ 32)) (ty.bits - 1)

unfoldable pub shift_left : ℤ → ℕ → IntTy → Value
shift_left a k ty = int (wrap_to (resign 64 (rem_euclid a (2 ^ 64) * 2 ^ k % 2 ^ 64)) ty) ty

unfoldable pub shift_right : ℤ → ℕ → IntTy → Value
shift_right a k ty =
    int (wrap_to (if ty.signed then shifted a (2 ^ k) else resign 64 (operand_u64 a ty / 2 ^ k)) ty)
      ty

-- `a < b` at the operands' width.
unfoldable pub less : ℤ → ℤ → IntTy → Bool
less a b ty = if ty.signed then ltℤ a b else ltb (operand_u64 a ty) (operand_u64 b ty)

abbrev pub binary_at : BinOp → ℤ → ℤ → IntTy → Ran Value
binary_at add a b ty = arithmetic add a b ty
binary_at sub a b ty = arithmetic sub a b ty
binary_at mul a b ty = arithmetic mul a b ty
binary_at div a b ty = divide div a b ty
binary_at rem_op a b ty = divide rem_op a b ty
binary_at bit_and_op a b ty = ok (bitwise bit_and a b ty)
binary_at bit_or_op a b ty = ok (bitwise bit_or a b ty)
binary_at bit_xor_op a b ty = ok (bitwise bit_xor a b ty)
binary_at shl a b ty = ok (shift_left a (amount b ty) ty)
binary_at shr a b ty = ok (shift_right a (amount b ty) ty)
binary_at lt_op a b ty = ok (bool (less a b ty))
binary_at le_op a b ty = ok (bool (not (less b a ty)))
binary_at gt_op a b ty = ok (bool (less b a ty))
binary_at ge_op a b ty = ok (bool (not (less a b ty)))
binary_at _ a b ty = panics

unfoldable pub int_binary : BinOp → ℤ → IntTy → ℤ → IntTy → Ran Value
int_binary op a ta b tb = binary_at op a b (combine_int_ty ta tb)

-- `cast` to a sized integer, of values that are not floats.
unfoldable pub cast_int : Value → IntTy → Ran Value
cast_int (int v t) ty = ok (sized v ty)
cast_int (byte b) ty = ok (sized (pos b) ty)
cast_int (bool b) ty = ok (sized (pos (if b then 1 else 0)) ty)
cast_int other ty = fails type_error
