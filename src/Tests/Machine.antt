-- ===== src/Tests/Machine.antt =====
-- A system allocator that hands out ever higher addresses, and refuses beyond the lower half.
use native.Mathlib.Nat.{div-add-mod', mul-mod_left}
use bet.Prelude.{
  ℕ, ◌+◌, ◌*◌, ◌/◌, ◌%◌, ◌^◌, ◌≤◌, ◌<◌, ◌≡◌, ◌≢◌, refl, Bool, true, false, ◌&&◌, inl, leb, ltb,
  arith, ap, ◌∙◌,
}
use bet.Runtime.Memory.{SysAlloc}

-- The next multiple of the alignment above what is in use.
abbrev pub next_address : ℕ → ℕ → ℕ
next_address top align = (top / align + 1) * align

abbrev pub answer : ℕ → ℕ → ℕ → Bool → ℕ × ℕ
answer top size align true = (next_address top align, next_address top align + size)
answer top size align false = (0, top)

abbrev pub rising : ℕ → ℕ → ℕ → ℕ × ℕ
rising top size align =
    answer top size align (ltb 0 align && leb (next_address top align + size) (2 ^ 63))

pub above : (top align : ℕ) → 0 < align → top < next_address top align
above top align h =
    let parts = div-add-mod' top align in
    let small : top % align < align = omega arith in
    let next : (top / align + 1) * align ≡ top / align * align + align = omega arith in omega arith

-- What a request that is granted gets.
pub granted :
    (top size align : ℕ)
    → (rising top size align).0 ≢ 0
    → (0 < align)
      × (next_address top align + size ≤ 2 ^ 63)
      × (rising top size align ≡ (next_address top align, next_address top align + size))
granted top size align h = pick (ltb 0 align && leb (next_address top align + size) (2 ^ 63)) refl h
  where
    pick :
        (b : Bool)
        → (ltb 0 align && leb (next_address top align + size) (2 ^ 63)) ≡ b
        → (answer top size align b).0 ≢ 0
        → (0 < align)
          × (next_address top align + size ≤ 2 ^ 63)
          × (answer top size align b ≡ (next_address top align, next_address top align + size))
    pick true e h = (ground arith, ground arith, refl)
    pick false e h = let no : ⊥ = h refl in elim no [ ]

pub keeps_top : (top size align : ℕ) → top ≤ (rising top size align).1
keeps_top top size align = pick (ltb 0 align && leb (next_address top align + size) (2 ^ 63)) refl
  where
    pick :
        (b : Bool)
        → (ltb 0 align && leb (next_address top align + size) (2 ^ 63)) ≡ b
        → top ≤ (answer top size align b).1
    pick true e = let a = above top align (ground arith) in omega arith
    pick false e = omega arith

abbrev pub machine : SysAlloc
machine = record {
  Memory = ℕ;
  alloc = rising;
  dealloc = λ top p size align. top;
  InUse = λ top b n. b + n ≤ top;
  aligned = λ top size align h.
      let g = granted top size align h in
      ap (λ (r : ℕ × ℕ). r.0 % align) g.2 ∙ mul-mod_left (top / align + 1) align;
  bounded = λ top size align h.
      let g = granted top size align h in let e = ap (λ (r : ℕ × ℕ). r.0) g.2 in omega (arith, g.1);
  apart = λ top size align b n used h.
      let g = granted top size align h in
      let e = ap (λ (r : ℕ × ℕ). r.0) g.2 in let a = above top align g.0 in inl (omega arith);
  given = λ top size align h.
      let g = granted top size align h in
      let e = ap (λ (r : ℕ × ℕ). r.0) g.2 in let f = ap (λ (r : ℕ × ℕ). r.1) g.2 in omega arith;
  keeps = λ top size align b n used. omega (arith, keeps_top top size align);
}
