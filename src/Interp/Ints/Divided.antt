-- ===== src/Interp/Ints/Divided.antt =====
-- The division of signed integers: what it gives, and when it fails.
use native.Mathlib.Nat.{mod-le, div-le_self, div-lt_self, div-one}
use bet.Prelude.{
  ℕ, zero, suc, ◌-◌, ◌/◌, ◌%◌, ◌^◌, ◌≤◌, ◌<◌, ◌≡◌, ◌≢◌, refl, ap, sym, ◌∙◌, subst, Bool, true,
  false, ◌&&◌, leb, if◌then◌else◌, arith, Bool-cases, inl, inr, and-left, and-right,
}
use bet.Prelude.Masks.{two_pow_pos}
use bet.Midir.Ir.{ℤ, pos, negsuc}
use bet.Interp.Whole.{diff, quot, rem, eqℤ}
use bet.Interp.Whole.Quotients.{Divides, quot-rem-Divides, minus}
use bet.Interp.Value.{IntTy, int, overflow, div_by_zero, division, remainder, ok, fails}
use bet.Interp.Ints.{BinOp, div, rem_op, is_div, least, divide, wrap_to, combine_int_ty, int_binary}
use bet.Interp.Ints.Fits.{
  IsIntTy, Fits, above, below, Within, Within-Fits, Fits-Within, wrap_to_unchanged,
}
use bet.Interp.Ints.Exact.{eqℤ_iff, combine-IsIntTy}

minus-Within : (h m : ℕ) → 0 < h → m ≤ h → Within h (diff 0 m)
minus-Within h zero p le = p
minus-Within h (suc m) p le = subst (Within h) (sym (minus m)) (omega arith)

-- A quotient is in the range of its dividend, but for the least number divided by -1.
quot-Within :
    (h : ℕ) (a b : ℤ)
    → 0 < h
    → Within h a
    → ¬ ((a ≡ negsuc (h - 1)) × (b ≡ negsuc 0))
    → Within h (quot a b)
quot-Within h (pos a) (pos b) p w ne = let l = div-le_self a b in omega arith
quot-Within h (pos a) (negsuc b) p w ne =
    minus-Within h (a / suc b) p (let l = div-le_self a (suc b) in omega arith)
quot-Within h (negsuc a) (pos b) p w ne =
    minus-Within h (suc a / b) p (let l = div-le_self (suc a) b in omega arith)
quot-Within h (negsuc a) (negsuc zero) p w ne =
    let other : a ≢ h - 1 = λ e. ne (ap negsuc e, refl) in
    let one : suc a / 1 ≡ suc a = div-one (suc a) in omega arith
quot-Within h (negsuc a) (negsuc (suc b)) p w ne =
    let l : suc a / suc (suc b) < suc a = div-lt_self (omega arith) (omega arith) in omega arith

rem-Within : (h : ℕ) (a b : ℤ) → 0 < h → Within h a → Within h (rem a b)
rem-Within h (pos a) (pos b) p w = let l = mod-le a b in omega arith
rem-Within h (pos a) (negsuc b) p w = let l = mod-le a (suc b) in omega arith
rem-Within h (negsuc a) (pos b) p w =
    minus-Within h (suc a % b) p (let l = mod-le (suc a) b in omega arith)
rem-Within h (negsuc a) (negsuc b) p w =
    minus-Within h (suc a % suc b) p (let l = mod-le (suc a) (suc b) in omega arith)

module _ (ty : IntTy) (t : IsIntTy ty) (s : ty.signed ≡ true) where
  abbrev half : ℕ
  half = 2 ^ (ty.bits - 1)

  halves_meet : (above ty ≡ half) × (below ty ≡ half)
  halves_meet = elim (Bool-cases (leb 64 ty.bits)) [
    | inl wide ↦
        let u = t.bits_fit in
        let e : ty.bits ≡ 64 = ground arith in
        let k : 63 ≡ ty.bits - 1 = omega arith in
        let p : 2 ^ 63 ≡ half = ap (λ (j : ℕ). 2 ^ j) k in (rw wide p, rw wide p)
    | inr narrow ↦ (rw (narrow, s) refl, rw (narrow, s) refl)
  ]

  half-Fits : (v : ℤ) → Within half v → Fits ty v
  half-Fits v w = Within-Fits ty half v halves_meet.0 halves_meet.1 w

  divide_zero : (op : BinOp) (a : ℤ) → divide op a (pos 0) ty ≡ fails div_by_zero
  unfolding divide
  divide_zero op a = refl

  divide-least :
      (op : BinOp)
      → divide op (least ty.bits) (negsuc 0) ty
        ≡ fails (overflow (if is_div op then division else remainder))
  unfolding divide
  divide-least op =
      let e : eqℤ (least ty.bits) (least ty.bits) ≡ true =
        (eqℤ_iff (least ty.bits) (least ty.bits)).1 refl in
      rw (s, e) refl

  divide_whole :
      (op : BinOp) (a b : ℤ)
      → b ≢ pos 0
      → ¬ ((a ≡ least ty.bits) × (b ≡ negsuc 0))
      → divide op a b ty ≡ ok (int (wrap_to (if is_div op then quot a b else rem a b) ty) ty)
  unfolding divide
  divide_whole op a b nz ne =
      let z : eqℤ b (pos 0) ≡ false = differ (eqℤ b (pos 0)) (λ e. nz ((eqℤ_iff b (pos 0)).0 e)) in
      let l : (eqℤ a (least ty.bits) && eqℤ b (negsuc 0)) ≡ false =
        differ (eqℤ a (least ty.bits) && eqℤ b (negsuc 0)) (λ e. ne (
          (eqℤ_iff a (least ty.bits)).0 (and-left (eqℤ a (least ty.bits)) _ e),
          (eqℤ_iff b (negsuc 0)).0 (and-right (eqℤ a (least ty.bits)) _ e),
        )) in
      rw (z, s, l) refl
    where
      differ : (x : Bool) → ¬ (x ≡ true) → x ≡ false
      differ true n = absurd (n refl)
      differ false n = refl

-- For signed integers of 1 to 64 bits whose dividend fits the combined type: `/` and `%` fail with
-- `DivByZero` for a divisor of 0, and with an overflow for the least number of the type and -1; for all other
-- operands they give the quotient and the rest of the division that rounds to zero, at that type, which
-- both fit.
pub signed_division :
    (a : ℤ) (ta : IntTy) (b : ℤ) (tb : IntTy)
    → IsIntTy ta
    → IsIntTy tb
    → (combine_int_ty ta tb).signed ≡ true
    → Fits (combine_int_ty ta tb) a
    → (b ≡ pos 0
        → (int_binary div a ta b tb ≡ fails div_by_zero)
          × (int_binary rem_op a ta b tb ≡ fails div_by_zero))
      × (a ≡ least (combine_int_ty ta tb).bits
          → b ≡ negsuc 0
          → (int_binary div a ta b tb ≡ fails (overflow division))
            × (int_binary rem_op a ta b tb ≡ fails (overflow remainder)))
      × (b ≢ pos 0
          → ¬ ((a ≡ least (combine_int_ty ta tb).bits) × (b ≡ negsuc 0))
          → (q : ℤ) × (r : ℤ) × (int_binary div a ta b tb ≡ ok (int q (combine_int_ty ta tb)))
            × (int_binary rem_op a ta b tb ≡ ok (int r (combine_int_ty ta tb)))
            × Fits (combine_int_ty ta tb) q
            × Fits (combine_int_ty ta tb) r
            × Divides a b q r)
unfolding int_binary
signed_division a ta b tb p q s f =
    let ty = combine_int_ty ta tb in
    let t = combine-IsIntTy ta tb p q in
    let m = halves_meet ty t s in
    let pos_half : 0 < 2 ^ (ty.bits - 1) = two_pow_pos (ty.bits - 1) in
    let w = Fits-Within ty (2 ^ (ty.bits - 1)) a m.0 m.1 f in
    (
      λ e. (
        ap (λ (z : ℤ). divide div a z ty) e ∙ divide_zero ty t s div a,
        ap (λ (z : ℤ). divide rem_op a z ty) e ∙ divide_zero ty t s rem_op a,
      ),
      (λ d e. (
        ap (λ (z : ℤ). divide div a z ty) e
            ∙ ap (λ (z : ℤ). divide div z (negsuc 0) ty) d
            ∙ divide-least ty t s div,
        ap (λ (z : ℤ). divide rem_op a z ty) e
            ∙ ap (λ (z : ℤ). divide rem_op z (negsuc 0) ty) d
            ∙ divide-least ty t s rem_op,
      )),
      λ nz ne.
          let fq =
            half-Fits ty t s (quot a b) (quot-Within (2 ^ (ty.bits - 1)) a b pos_half w ne) in
          let fr = half-Fits ty t s (rem a b) (rem-Within (2 ^ (ty.bits - 1)) a b pos_half w) in
          (
            quot a b,
            rem a b,
            divide_whole ty t s div a b nz ne
                ∙ ap (λ (v : ℤ). ok (int v ty)) (wrap_to_unchanged (quot a b) ty t fq),
            divide_whole ty t s rem_op a b nz ne
                ∙ ap (λ (v : ℤ). ok (int v ty)) (wrap_to_unchanged (rem a b) ty t fr),
            fq,
            fr,
            quot-rem-Divides a b nz,
          ),
    )
