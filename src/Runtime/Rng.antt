-- ===== src/Runtime/Rng.antt =====
-- The generator of crates/rt-abi/src/lib.rs: `RngState`, xoshiro256** over four 64-bit words, and
-- its entry points in crates/runtime/src/lib.rs. `frac` gives a float and is not modelled.
pub mod Zero
pub mod Bound
use bet.Prelude.{
  ℕ, zero, suc, ◌+◌, ◌-◌, ◌*◌, ◌/◌, ◌%◌, ◌^◌, Bool, true, false, ◌&&◌, Option, none, some, ◌==◌,
  ltb, if◌then◌else◌, bit_xor,
}
use bet.Runtime.Outcome.{Outcome, done, die, ◌>>=◌, ◌>>◌, ThreadId, check_affinity}

pub record RngState : Type 0 where
  pub s0 : ℕ
  pub s1 : ℕ
  pub s2 : ℕ
  pub s3 : ℕ

abbrev pub wrap64 : ℕ → ℕ
wrap64 n = n % 2 ^ 64

-- `rotate_left` of a 64-bit word by less than 64: the two parts do not overlap.
abbrev pub rotate_left : ℕ → ℕ → ℕ
rotate_left x k = wrap64 (x * 2 ^ k) + x / 2 ^ (64 - k)

-- A round of splitmix64: the next word of the seed's sequence and what is made of it.
abbrev pub splitmix : ℕ → ℕ
splitmix z =
    let x = wrap64 (bit_xor z (z / 2 ^ 30) * 0xBF58_476D_1CE4_E5B9) in
    let y = wrap64 (bit_xor x (x / 2 ^ 27) * 0x94D0_49BB_1331_11EB) in bit_xor y (y / 2 ^ 31)

abbrev pub golden : ℕ → ℕ
golden z = wrap64 (z + 0x9E37_79B9_7F4A_7C15)

abbrev pub all_zero : RngState → Bool
all_zero r = r.s0 == 0 && (r.s1 == 0 && (r.s2 == 0 && r.s3 == 0))

-- `RngState::new`.
unfoldable pub new_rng : ℕ → RngState
new_rng seed =
    let z0 = golden seed in
    let z1 = golden z0 in
    let z2 = golden z1 in
    let z3 = golden z2 in
    let r : RngState = record {
      s0 = splitmix z0;
      s1 = splitmix z1;
      s2 = splitmix z2;
      s3 = splitmix z3;
    } in
    if all_zero r then record r { s0 = 1 } else r

-- `RngState::next_u64`, its result and the state that it leaves.
unfoldable pub next_u64 : RngState → ℕ × RngState
next_u64 r =
    let result = wrap64 (rotate_left (wrap64 (r.s1 * 5)) 7 * 9) in
    let t = wrap64 (r.s1 * 2 ^ 17) in
    let s2 = bit_xor r.s2 r.s0 in
    let s3 = bit_xor r.s3 r.s1 in
    let s1 = bit_xor r.s1 s2 in
    let s0 = bit_xor r.s0 s3 in
    (result, record { s0 = s0; s1 = s1; s2 = bit_xor s2 t; s3 = rotate_left s3 45 })

-- The redraws of `up_to` while the low word is below the threshold; `none` says that the fuel ran
-- out. The number of redraws has no bound that holds for every state.
unfoldable pub redraw : ℕ → ℕ → ℕ → ℕ → RngState → Option (ℕ × RngState)
redraw zero n threshold m r = none
redraw (suc f) n threshold m r =
    let (x, r') = next_u64 r in
    let again = redraw f n threshold (x * n) r' in
    if ltb (wrap64 m) threshold then again else some (m / 2 ^ 64, r)

-- `RngState::up_to`, with `f` rounds of the loop's test.
unfoldable pub up_to : ℕ → ℕ → RngState → Option (ℕ × RngState)
unfolding redraw
up_to f zero r = some (0, r)
up_to f (suc k) r =
    let n = suc k in
    let (x, r') = next_u64 r in
    if ltb (wrap64 (x * n)) n
    then redraw f n ((2 ^ 64 - n) % n) (x * n) r'
    else some (x * n / 2 ^ 64, r')

-- `RngBox` and `rng_ref`.
pub record RngBox : Type 0 where
  pub owner : ThreadId
  pub state : RngState

unfoldable pub bet_rng_new : ThreadId → ℕ → RngBox
unfolding new_rng
bet_rng_new me seed = record { owner = me; state = new_rng seed }

unfoldable pub bet_rng_next : ThreadId → RngBox → Outcome (ℕ × RngBox)
unfolding next_u64
bet_rng_next me b = do
  check_affinity b.owner me
  let q = next_u64 b.state
  done (q.0, record b { state = q.1 })

abbrev pub upto_result : RngBox → Option (ℕ × RngState) → Option (Outcome (ℕ × RngBox))
upto_result b none = none
upto_result b (some q) = some (done (q.0, record b { state = q.1 }))

unfoldable pub bet_rng_upto : ℕ → ThreadId → RngBox → ℕ → Option (Outcome (ℕ × RngBox))
unfolding up_to
bet_rng_upto f me b n = elim (check_affinity b.owner me) [
  | die w ↦ some (die w)
  | done u ↦ upto_result b (up_to f n b.state)
]
