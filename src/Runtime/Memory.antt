-- ===== src/Runtime/Memory.antt =====
-- The low-level allocation helpers of crates/runtime/src/lib.rs: `layout`, `alloc_or_die` and
-- `align_up`. The system allocator is not part of the repository: it is a parameter, with the laws
-- that its documentation states. `usize` has 64 bits and its arithmetic wraps as in a release build.
use Prim.Native.Nat.{max}
use native.Mathlib.Nat.{
  mul-mod_left, div-mul-le_self, lt-div-mul-add, div-lt_iff_lt-mul, mul-add-div_right, div-add-mod',
  div-eq_of_lt, pow-suc,
}
use bet.Prelude.{
  ℕ, zero, suc, ◌+◌, ◌-◌, ◌*◌, ◌/◌, ◌%◌, ◌^◌, ◌≤◌, ◌<◌, ◌≡◌, ◌≢◌, Bool, false, ◌&&◌, ◌||◌, ◌⊎◌,
  ◌==◌, leb, if◌then◌else◌, bit_and, arith, inl, inr, ap, ◌∙◌, Bool-cases, leb→le, and-right,
}
use bet.Prelude.Masks.{and_high, two_pow_pos, two_pow_add}
use bet.Runtime.Outcome.{Outcome, Abort, done, die, ◌>>=◌, bad_layout, out_of_memory}

-- Two blocks of memory with no byte in common.
abbrev pub Apart : ℕ → ℕ → ℕ → ℕ → Type 0
Apart b m c n = (b + m ≤ c) ⊎ (c + n ≤ b)

-- `std::alloc`: a request is answered by an address, null on failure. Memory in use is not given
-- out again, is aligned as asked, and does not wrap around the end of the address space.
pub record SysAlloc : Type 1 where
  pub Memory : Type 0
  pub alloc : Memory → ℕ → ℕ → ℕ × Memory
  pub dealloc : Memory → ℕ → ℕ → ℕ → Memory
  pub InUse : Memory → ℕ → ℕ → Type 0
  pub aligned :
      (h : Memory) (size align : ℕ)
      → (alloc h size align).0 ≢ 0
      → (alloc h size align).0 % align ≡ 0
  pub bounded :
      (h : Memory) (size align : ℕ)
      → (alloc h size align).0 ≢ 0
      → (alloc h size align).0 + size < 2 ^ 64
  pub apart :
      (h : Memory) (size align b n : ℕ)
      → InUse h b n
      → (alloc h size align).0 ≢ 0
      → Apart b n (alloc h size align).0 size
  pub given :
      (h : Memory) (size align : ℕ)
      → (alloc h size align).0 ≢ 0
      → InUse (alloc h size align).1 (alloc h size align).0 size
  pub keeps : (h : Memory) (size align b n : ℕ) → InUse h b n → InUse (alloc h size align).1 b n

-- `usize::is_power_of_two`.
abbrev pub is_power_below : ℕ → ℕ → Bool
is_power_below zero a = false
is_power_below (suc k) a = a == 2 ^ k || is_power_below k a

-- `layout`: `Layout::from_size_align` wants a power of two, and a size that does not pass
-- `isize::MAX` when it is rounded up to it.
unfoldable pub layout : ℕ → ℕ → Outcome (ℕ × ℕ)
layout size align =
    if is_power_below 64 (max align 1) && leb (max size 1 + max align 1) (2 ^ 63)
    then done (max size 1, max align 1)
    else die bad_layout

-- `align_up`: `(addr + align - 1) & !(align - 1)`.
unfoldable pub align_up : ℕ → ℕ → ℕ
align_up addr align = bit_and ((addr + max align 1 - 1) % 2 ^ 64) (2 ^ 64 - max align 1)

module _ (sys : SysAlloc) where
  -- `alloc_or_die(layout(size, align))`.
  unfoldable pub alloc_or_die : sys.Memory → ℕ → ℕ → Outcome (ℕ × sys.Memory)
  alloc_or_die h size align = do
    l ← layout size align
    let r = sys.alloc h l.0 l.1
    if r.0 == 0 then die out_of_memory else done r

mask_lem : (p q n : ℕ) → 1 ≤ p → n ≡ p * q → n - q ≡ (p - 1) * q
mask_lem zero q n h e = elim h [ ]
mask_lem (suc p) q n h e = let pred : suc p - 1 ≡ p = omega arith in rw pred (omega arith)

-- For a power of two `align_up` gives the least multiple that is not below the address.
pub align_up_lem :
    (addr k : ℕ)
    → k < 64
    → addr + 2 ^ k < 2 ^ 64
    → align_up addr (2 ^ k) ≡ (addr + 2 ^ k - 1) / 2 ^ k * 2 ^ k
unfolding align_up
align_up_lem addr k h lt =
    let whole : 64 ≡ 64 - k + k = omega arith in
    let split : 2 ^ 64 ≡ 2 ^ (64 - k) * 2 ^ k =
      ap (λ (t : ℕ). 2 ^ t) whole ∙ two_pow_add (64 - k) k in
    let pos : 1 ≤ 2 ^ k = two_pow_pos k in
    let m : max (2 ^ k) 1 ≡ 2 ^ k = omega arith in
    let mask : 2 ^ 64 - 2 ^ k ≡ (2 ^ (64 - k) - 1) * 2 ^ k =
      mask_lem (2 ^ (64 - k)) (2 ^ k) (2 ^ 64) (two_pow_pos (64 - k)) split in
    let same : (addr + 2 ^ k - 1) % 2 ^ 64 ≡ addr + 2 ^ k - 1 = omega arith in
    rw (m, same, mask)
      (and_high k (64 - k) (addr + 2 ^ k - 1)
        ((div-lt_iff_lt-mul pos).1 (rw (← split) (omega arith))))

-- For a power 2^k with k below 64, and an address that leaves room for it below 2^64, `align_up`
-- gives a multiple of the power that is not below the address and less than the power above it.
pub align_up_bounds :
    (addr k : ℕ)
    → k < 64
    → addr + 2 ^ k < 2 ^ 64
    → (align_up addr (2 ^ k) % 2 ^ k ≡ 0)
      × (addr ≤ align_up addr (2 ^ k))
      × (align_up addr (2 ^ k) < addr + 2 ^ k)
align_up_bounds addr k h lt =
    let q = (addr + 2 ^ k - 1) / 2 ^ k in
    let pos : 1 ≤ 2 ^ k = two_pow_pos k in
    let low = div-mul-le_self (addr + 2 ^ k - 1) (2 ^ k) in
    let high = lt-div-mul-add {a = addr + 2 ^ k - 1} pos in
    rw (align_up_lem addr k h lt) (mul-mod_left q (2 ^ k), omega arith, omega arith)

-- A multiple of the power is its own next multiple.
pub align_up_self :
    (addr k : ℕ) → k < 64 → addr + 2 ^ k < 2 ^ 64 → addr % 2 ^ k ≡ 0 → align_up addr (2 ^ k) ≡ addr
align_up_self addr k h lt z =
    let pos : 1 ≤ 2 ^ k = two_pow_pos k in
    let whole : addr / 2 ^ k * 2 ^ k ≡ addr = omega (arith, div-add-mod' addr (2 ^ k)) in
    let sum : addr + 2 ^ k - 1 ≡ addr / 2 ^ k * 2 ^ k + (2 ^ k - 1) = omega arith in
    let rest : (2 ^ k - 1) / 2 ^ k ≡ 0 = div-eq_of_lt (omega arith) in
    align_up_lem addr k h lt
    ∙ rw (sum, mul-add-div_right pos (addr / 2 ^ k) (2 ^ k - 1), rest) (omega arith)

-- A multiple of the greater of two powers is one of the lesser.
pub mod-max : (p k : ℕ) → p % max (2 ^ k) 16 ≡ 0 → p % 2 ^ k ≡ 0
mod-max p zero h = omega arith
mod-max p (suc zero) h = omega arith
mod-max p (suc (suc zero)) h = omega arith
mod-max p (suc (suc (suc zero))) h = omega arith
mod-max p (suc (suc (suc (suc k)))) h =
    let big : 16 ≤ 2 ^ suc (suc (suc (suc k))) = omega (
      arith,
      two_pow_pos k,
      pow-suc 2 k,
      pow-suc 2 (suc k),
      pow-suc 2 (suc (suc k)),
      pow-suc 2 (suc (suc (suc k))),
    ) in
    let e : max (2 ^ suc (suc (suc (suc k)))) 16 ≡ 2 ^ suc (suc (suc (suc k))) = omega arith in
    rw e at h

module _ (sys : SysAlloc) where
  -- What a successful request brings.
  pub record Granted (h : sys.Memory) (size align p : ℕ) (h' : sys.Memory) : Type 0 where
    pub aligned : p % max align 1 ≡ 0
    pub bounded : p + max size 1 < 2 ^ 64
    pub small : max size 1 + max align 1 ≤ 2 ^ 63
    pub in_use : sys.InUse h' p (max size 1)
    pub keeps : (b n : ℕ) → sys.InUse h b n → sys.InUse h' b n
    pub apart : (b n : ℕ) → sys.InUse h b n → Apart b n p (max size 1)

  pub alloc_or_die_cases :
      (h : sys.Memory) (size align : ℕ)
      → ((w : Abort) × (alloc_or_die sys h size align ≡ die w))
        ⊎ ((r : ℕ × sys.Memory) × (alloc_or_die sys h size align ≡ done r)
            × Granted h size align r.0 r.1)
  unfolding alloc_or_die layout
  alloc_or_die_cases h size align =
      elim (Bool-cases
        (is_power_below 64 (max align 1) && leb (max size 1 + max align 1) (2 ^ 63))) [
          | inr bad ↦ inl (bad_layout, rw bad)
          | inl good ↦ elim (Bool-cases ((sys.alloc h (max size 1) (max align 1)).0 == 0)) [
            | inl null ↦ inl (out_of_memory, rw good (rw null))
            | inr real ↦
                let p = (sys.alloc h (max size 1) (max align 1)).0 in
                let ne : p ≢ 0 = λ e. ground arith in
                inr (
                  sys.alloc h (max size 1) (max align 1),
                  rw good (rw real),
                  record {
                    aligned = sys.aligned h (max size 1) (max align 1) ne;
                    bounded = sys.bounded h (max size 1) (max align 1) ne;
                    small = leb→le _ _ (and-right _ _ good);
                    in_use = sys.given h (max size 1) (max align 1) ne;
                    keeps = λ b n u. sys.keeps h (max size 1) (max align 1) b n u;
                    apart = λ b n u. sys.apart h (max size 1) (max align 1) b n u ne;
                  },
                )
          ]
        ]
