-- ===== src/Interp/Ints/Held.antt =====
-- Every integer operator gives a number that the type of its result can hold.
use bet.Prelude.{
  if-either, ℕ, ◌≡◌, inl, inr, refl, sym, subst, Bool, true, false, ◌&&◌, ◌==◌, if◌then◌else◌,
  Bool-cases,
}
use bet.Midir.Ir.{ℤ, pos, negsuc}
use bet.Interp.Whole.{eqℤ}
use bet.Interp.Value.{IntTy, Value, int, What, overflow, div_by_zero, Ran, ok, fails, panics}
use bet.Interp.Ints.{
  BinOp, add, sub, mul, div, rem_op, lt_op, le_op, gt_op, ge_op, shl, shr, bit_and_op, bit_or_op,
  bit_xor_op, eq_op, ne_op, and_op, or_op, wrap_to, combine_int_ty, operand_u64, store_unsigned,
  trapped, exact, what_of, wrapping, arithmetic, divide, least, shift_left, shift_right, binary_at,
  int_binary,
}
use bet.Interp.Ints.Fits.{IsIntTy, Fits, wrap_to_lem}
use bet.Interp.Ints.Exact.{
  trapped_lem, arithmetic_signed, arithmetic_unsigned, store_unsigned_lem, combine-IsIntTy,
}

-- A result is a number that its type holds, or is none.
abbrev pub Holds : IntTy → Ran Value → Type 0
Holds ty (ok (int w t)) = (t ≡ ty) × Fits ty w
Holds ty _ = Unit

module _ (ty : IntTy) (t : IsIntTy ty) where
  wrapped-Holds : (v : ℤ) → Holds ty (ok (int (wrap_to v ty) ty))
  wrapped-Holds v = (refl, (wrap_to_lem v ty t).0)

  trapped-Holds : (what : What) (v : ℤ) → Holds ty (trapped what v ty)
  trapped-Holds what v = elim (trapped_lem what v ty t) [
    | inl y ↦ subst (Holds ty) (sym y.1) (refl, y.0)
    | inr n ↦ subst (Holds ty) (sym n.1) tt
  ]

  stored-Holds : (res : ℕ) → ty.signed ≡ false → Holds ty (ok (store_unsigned res ty))
  stored-Holds res s =
      let r = store_unsigned_lem res ty t s in subst (λ v. Holds ty (ok v)) (sym r.1) (refl, r.2)

  arithmetic-Holds : (op : BinOp) (a b : ℤ) → Holds ty (arithmetic op a b ty)
  arithmetic-Holds op a b = elim (Bool-cases ty.signed) [
    | inl s ↦
        subst (Holds ty) (sym (arithmetic_signed op a b ty s))
          (trapped-Holds (what_of op) (exact op a b))
    | inr s ↦
        subst (Holds ty) (sym (arithmetic_unsigned op a b ty s))
          (stored-Holds (wrapping op (operand_u64 a ty) (operand_u64 b ty)) s)
  ]

  divide-Holds : (op : BinOp) (a b : ℤ) → Holds ty (divide op a b ty)
  unfolding divide
  divide-Holds op a b = if-either (Holds ty) (eqℤ b (pos 0)) (fails div_by_zero) _ tt (
      signed-or ty.signed refl _ _
        (if-either (Holds ty) (eqℤ a (least ty.bits) && eqℤ b (negsuc 0)) (fails (overflow _)) _ tt
          (wrapped-Holds _))
        (λ s. if-either (Holds ty) (operand_u64 b ty == 0) panics _ tt (stored-Holds _ s)))
    where
      signed-or :
          (x : Bool)
          → ty.signed ≡ x
          → (p q : Ran Value) → Holds ty p
          → (x ≡ false → Holds ty q)
          → Holds ty (if x then p else q)
      signed-or true e p q h k = h
      signed-or false e p q h k = k refl

  binary_at-Holds : (op : BinOp) (a b : ℤ) → Holds ty (binary_at op a b ty)
  unfolding shift_left shift_right
  binary_at-Holds add a b = arithmetic-Holds add a b
  binary_at-Holds sub a b = arithmetic-Holds sub a b
  binary_at-Holds mul a b = arithmetic-Holds mul a b
  binary_at-Holds div a b = divide-Holds div a b
  binary_at-Holds rem_op a b = divide-Holds rem_op a b
  binary_at-Holds bit_and_op a b = wrapped-Holds _
  binary_at-Holds bit_or_op a b = wrapped-Holds _
  binary_at-Holds bit_xor_op a b = wrapped-Holds _
  binary_at-Holds shl a b = wrapped-Holds _
  binary_at-Holds shr a b = wrapped-Holds _
  binary_at-Holds lt_op a b = tt
  binary_at-Holds le_op a b = tt
  binary_at-Holds gt_op a b = tt
  binary_at-Holds ge_op a b = tt
  binary_at-Holds eq_op a b = tt
  binary_at-Holds ne_op a b = tt
  binary_at-Holds and_op a b = tt
  binary_at-Holds or_op a b = tt

-- For operands of 1 to 64 bits and any operator, an integer that `int_binary` gives has the
-- combined type of the operands and fits it.
pub int_binary-Holds :
    (op : BinOp) (a : ℤ) (ta : IntTy) (b : ℤ) (tb : IntTy)
    → IsIntTy ta
    → IsIntTy tb
    → Holds (combine_int_ty ta tb) (int_binary op a ta b tb)
unfolding int_binary
int_binary-Holds op a ta b tb p q =
    binary_at-Holds (combine_int_ty ta tb) (combine-IsIntTy ta tb p q) op a b
