-- ===== src/Runtime/Rng/Zero.antt =====
-- The state of the generator is four words, never all zero: the seed cannot give the zero state, and
-- no draw leads to it.
use bet.Prelude.{ℕ, ◌*◌, ◌^◌, ◌<◌, ◌≡◌, sym, ◌∙◌, true, false, bit_xor, arith, Bool-cases, inl, inr}
use bet.Prelude.Xor.{xor_zero, xor_width}
use bet.Runtime.Rng.{RngState, rotate_left, splitmix, golden, all_zero, new_rng, next_u64, wrap64}

pub record IsWords (r : RngState) : Type 0 where
  pub w0 : r.s0 < 2 ^ 64
  pub w1 : r.s1 < 2 ^ 64
  pub w2 : r.s2 < 2 ^ 64
  pub w3 : r.s3 < 2 ^ 64
  pub some_set : all_zero r ≡ false

rotate_width : (x : ℕ) → x < 2 ^ 64 → rotate_left x 45 < 2 ^ 64
rotate_width x h = omega arith

rotate_zero : (x : ℕ) → x < 2 ^ 64 → rotate_left x 45 ≡ 0 → x ≡ 0
rotate_zero x h e = omega arith

-- A word that equals itself shifted left by 17 is zero.
shift_fixed : (x : ℕ) → x < 2 ^ 64 → x ≡ wrap64 (x * 2 ^ 17) → x ≡ 0
shift_fixed x h e = omega arith

splitmix_width : (z : ℕ) → splitmix z < 2 ^ 64
splitmix_width z = xor_width 64 _ _ (omega arith) (omega arith)

-- Every seed gives four words that are not all zero.
pub new_rng-IsWords : (seed : ℕ) → IsWords (new_rng seed)
unfolding new_rng
new_rng-IsWords seed =
    let z0 = golden seed in
    let z1 = golden z0 in
    let z2 = golden z1 in
    let z3 = golden z2 in
    ground (arith, splitmix_width z0, splitmix_width z1, splitmix_width z2, splitmix_width z3)

all_zero_parts :
    (r : RngState) → all_zero r ≡ true → (r.s0 ≡ 0) × (r.s1 ≡ 0) × (r.s2 ≡ 0) × (r.s3 ≡ 0)
all_zero_parts r h = (ground arith, ground arith, ground arith, ground arith)

not_all_zero : (r : RngState) → IsWords r → all_zero (next_u64 r).1 ≡ false
unfolding next_u64
not_all_zero r w = elim (Bool-cases (all_zero (next_u64 r).1)) [
  | inr e ↦ e
  | inl e ↦
      let (z0, z1, z2, z3) = all_zero_parts (next_u64 r).1 e in
      let t = wrap64 (r.s1 * 2 ^ 17) in
      let a2 = bit_xor r.s2 r.s0 in
      let a3 = bit_xor r.s3 r.s1 in
      let a3_zero : a3 ≡ 0 = rotate_zero a3 (xor_width 64 r.s3 r.s1 w.w3 w.w1) z3 in
      let e0 : r.s0 ≡ a3 = xor_zero r.s0 a3 z0 in
      let e1 : r.s1 ≡ a2 = xor_zero r.s1 a2 z1 in
      let e2 : a2 ≡ t = xor_zero a2 t z2 in
      let e3 : r.s3 ≡ r.s1 = xor_zero r.s3 r.s1 a3_zero in
      let s1_zero : r.s1 ≡ 0 = shift_fixed r.s1 w.w1 (e1 ∙ e2) in
      let s0_zero : r.s0 ≡ 0 = e0 ∙ a3_zero in
      let s2_zero : r.s2 ≡ 0 = xor_zero r.s2 r.s0 (sym e1 ∙ s1_zero) ∙ s0_zero in
      let s3_zero : r.s3 ≡ 0 = e3 ∙ s1_zero in absurd (ground (arith, w.some_set))
]

-- From four words that are not all zero, a draw is a 64-bit word and leaves four words that are not
-- all zero.
pub next_u64-IsWords :
    (r : RngState) → IsWords r → ((next_u64 r).0 < 2 ^ 64) × IsWords (next_u64 r).1
unfolding next_u64
next_u64-IsWords r w =
    let t = wrap64 (r.s1 * 2 ^ 17) in
    let a2 = bit_xor r.s2 r.s0 in
    let a3 = bit_xor r.s3 r.s1 in
    let a1 = bit_xor r.s1 a2 in
    let a0 = bit_xor r.s0 a3 in
    let b2 = xor_width 64 r.s2 r.s0 w.w2 w.w0 in
    let b3 = xor_width 64 r.s3 r.s1 w.w3 w.w1 in
    (
      omega arith,
      record {
        w0 = xor_width 64 r.s0 a3 w.w0 b3;
        w1 = xor_width 64 r.s1 a2 w.w1 b2;
        w2 = xor_width 64 a2 t b2 (omega arith);
        w3 = rotate_width a3 b3;
        some_set = not_all_zero r w;
      },
    )
