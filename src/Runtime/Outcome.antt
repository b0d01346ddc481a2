-- ===== src/Runtime/Outcome.antt =====
-- What an entry point of crates/runtime/src/lib.rs comes to: a value, or an abort of the process
-- (`die`, and a Rust panic at an `extern "C"` boundary).
use bet.Prelude.{ℕ, ◌+◌, ◌%◌, ◌^◌, ◌≡◌, ◌==◌, if◌then◌else◌}

pub data Abort : Type 0 where
  wrong_thread bad_layout out_of_memory index_out_of_bounds exhausted dangling : Abort

pub data Outcome {ℓ} (A : Type ℓ) : Type ℓ where
  done : A → Outcome A
  die : Abort → Outcome A

infixl 5 ◌>>=◌ ◌>>◌
abbrev pub ◌>>=◌ {ℓ κ} : {A : Type ℓ} {B : Type κ} → Outcome A → (A → Outcome B) → Outcome B
done a >>= f = f a
die w >>= f = die w

abbrev pub ◌>>◌ {ℓ} : {B : Type ℓ} → Outcome (Unit {0}) → Outcome B → Outcome B
m >> k = m >>= λ _. k

pub done-injective {ℓ} : {A : Type ℓ} {a b : A} → done a ≡ done b → a ≡ b
done-injective {A} {a} {b} h = cc

-- A thread is known by its number.
abbrev pub ThreadId : Type 0
ThreadId = ℕ

-- `check_affinity`: the handle's owner must be the thread that runs.
abbrev pub check_affinity : ThreadId → ThreadId → Outcome (Unit {0})
check_affinity owner me = if owner == me then done tt else die wrong_thread

-- The casts `as u32` and the wrapping increment of a `u64`.
abbrev pub as_u32 : ℕ → ℕ
as_u32 n = n % 2 ^ 32

abbrev pub wrapping_succ : ℕ → ℕ
wrapping_succ g = (g + 1) % 2 ^ 64

-- `saturating_mul` and `saturating_add` of `usize`, on a 64-bit target.
abbrev pub usize_max : ℕ
usize_max = 0xffff_ffff_ffff_ffff
