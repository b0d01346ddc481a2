-- ===== src/Interp/Ints/DividedUnsigned.antt =====
-- The division of unsigned integers: what it gives, and where it fails or panics.
use native.Mathlib.Nat.{mod-lt, mod-le, mod-eq_of_lt, div-le_self, div-add-mod'}
use bet.Prelude.{
  ◌+◌, ◌*◌, ◌/◌, ◌%◌, ◌^◌, ◌<◌, ◌≡◌, ◌≢◌, refl, ap, sym, ◌∙◌, true, false, ◌==◌, ==_iff, leb,
  if◌then◌else◌, arith, Bool-cases, inl, inr,
}
use bet.Prelude.Masks.{two_pow_pos}
use bet.Midir.Ir.{ℤ, pos}
use bet.Interp.Whole.{eqℤ}
use bet.Interp.Value.{IntTy, int, div_by_zero, ok, fails, panics}
use bet.Interp.Ints.{
  BinOp, div, rem_op, is_div, divide, operand_u64, store_unsigned, combine_int_ty, int_binary,
}
use bet.Interp.Ints.Fits.{IsIntTy, Fits}
use bet.Interp.Ints.Exact.{eqℤ_iff, combine-IsIntTy, store_unsigned_lem, operand_u64-lt}

operand_u64_zero : (ty : IntTy) → operand_u64 (pos 0) ty ≡ 0
unfolding operand_u64
operand_u64_zero ty = elim (Bool-cases (leb 64 ty.bits)) [
  | inl wide ↦ rw wide refl
  | inr narrow ↦ rw narrow (mod-eq_of_lt (two_pow_pos ty.bits))
]

module _ (ty : IntTy) (s : ty.signed ≡ false) (op : BinOp) (a b : ℤ) where
  differs : b ≢ pos 0 → eqℤ b (pos 0) ≡ false
  differs nz = elim (Bool-cases (eqℤ b (pos 0))) [
    | inl e ↦ absurd (nz ((eqℤ_iff b (pos 0)).0 e))
    | inr n ↦ n
  ]

  divide_panics : b ≢ pos 0 → operand_u64 b ty ≡ 0 → divide op a b ty ≡ panics
  unfolding divide operand_u64
  divide_panics nz e =
      let z = differs nz in
      let y : (operand_u64 b ty == 0) ≡ true = (==_iff (operand_u64 b ty) 0).1 e in
      rw (z, s, y) refl

  divide_stores :
      operand_u64 b ty ≢ 0
      → divide op a b ty
        ≡ ok (
            store_unsigned
              (if is_div op
                then operand_u64 a ty / operand_u64 b ty
                else operand_u64 a ty % operand_u64 b ty)
              ty)
  unfolding divide operand_u64 store_unsigned
  divide_stores ne =
      let z = differs (λ e. ne (ap (λ (v : ℤ). operand_u64 v ty) e ∙ operand_u64_zero ty)) in
      let y : (operand_u64 b ty == 0) ≡ false = ground (arith, ne) in rw (z, s, y) refl

-- For integers of 1 to 64 bits whose combined type is unsigned: `/` and `%` fail with `DivByZero` for a
-- divisor of 0, and panic for another divisor that is 0 at the width; for all other divisors they give the
-- quotient and the rest of the operands as they read at the width, at that type, which both fit.
pub unsigned_division :
    (a : ℤ) (ta : IntTy) (b : ℤ) (tb : IntTy)
    → IsIntTy ta
    → IsIntTy tb
    → (combine_int_ty ta tb).signed ≡ false
    → (b ≡ pos 0
        → (int_binary div a ta b tb ≡ fails div_by_zero)
          × (int_binary rem_op a ta b tb ≡ fails div_by_zero))
      × (b ≢ pos 0
          → operand_u64 b (combine_int_ty ta tb) ≡ 0
          → (int_binary div a ta b tb ≡ panics) × (int_binary rem_op a ta b tb ≡ panics))
      × (operand_u64 b (combine_int_ty ta tb) ≢ 0
          → (q : ℤ) × (r : ℤ) × (int_binary div a ta b tb ≡ ok (int q (combine_int_ty ta tb)))
            × (int_binary rem_op a ta b tb ≡ ok (int r (combine_int_ty ta tb)))
            × Fits (combine_int_ty ta tb) q
            × Fits (combine_int_ty ta tb) r
            × (operand_u64 a (combine_int_ty ta tb)
                ≡ operand_u64 q (combine_int_ty ta tb) * operand_u64 b (combine_int_ty ta tb)
                  + operand_u64 r (combine_int_ty ta tb))
            × (operand_u64 r (combine_int_ty ta tb) < operand_u64 b (combine_int_ty ta tb)))
unfolding int_binary divide
unsigned_division a ta b tb p q s =
    let ty = combine_int_ty ta tb in
    let t = combine-IsIntTy ta tb p q in
    let x = operand_u64 a ty in
    let y = operand_u64 b ty in
    let lx : x < 2 ^ ty.bits = operand_u64-lt a ty t in
    let v = store_unsigned_lem (x / y) ty t s in
    let w = store_unsigned_lem (x % y) ty t s in
    let quotient : operand_u64 v.0 ty ≡ x / y =
      v.3 ∙ mod-eq_of_lt (let l = div-le_self x y in omega arith) in
    let rest : operand_u64 w.0 ty ≡ x % y =
      w.3 ∙ mod-eq_of_lt (let l = mod-le x y in omega arith) in
    (
      (λ e. (ap (λ (z : ℤ). divide div a z ty) e, ap (λ (z : ℤ). divide rem_op a z ty) e)),
      (λ nz e. (divide_panics ty s div a b nz e, divide_panics ty s rem_op a b nz e)),
      λ ne. (
        v.0,
        w.0,
        divide_stores ty s div a b ne ∙ ap ok v.1,
        divide_stores ty s rem_op a b ne ∙ ap ok w.1,
        v.2,
        w.2,
        rw (quotient, rest) (sym (div-add-mod' x y)),
        rw rest (mod-lt x (omega arith)),
      ),
    )
