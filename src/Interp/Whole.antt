-- ===== src/Interp/Whole.antt =====
-- The arithmetic of `i128` that integers are computed in, where nothing of it overflows: the whole
-- numbers.
pub mod Quotients
use bet.Prelude.{ℕ, suc, ◌+◌, ◌-◌, ◌*◌, ◌/◌, ◌%◌, Bool, true, false, ◌==◌, ltb, leb, if◌then◌else◌}
use bet.Midir.Ir.{ℤ, pos, negsuc}

-- The difference of two natural numbers.
abbrev pub diff : ℕ → ℕ → ℤ
diff a b = if leb b a then pos (a - b) else negsuc (b - a - 1)

abbrev pub negate : ℤ → ℤ
negate (pos n) = diff 0 n
negate (negsuc n) = pos (suc n)

infixl 6 ◌+ℤ◌ ◌-ℤ◌
infixl 7 ◌*ℤ◌
abbrev pub ◌+ℤ◌ : ℤ → ℤ → ℤ
pos a +ℤ pos b = pos (a + b)
pos a +ℤ negsuc b = diff a (suc b)
negsuc a +ℤ pos b = diff b (suc a)
negsuc a +ℤ negsuc b = negsuc (a + b + 1)

abbrev pub ◌-ℤ◌ : ℤ → ℤ → ℤ
a -ℤ b = a +ℤ negate b

abbrev pub ◌*ℤ◌ : ℤ → ℤ → ℤ
pos a *ℤ pos b = pos (a * b)
pos a *ℤ negsuc b = diff 0 (a * suc b)
negsuc a *ℤ pos b = diff 0 (suc a * b)
negsuc a *ℤ negsuc b = pos (suc a * suc b)

-- `/` and `%`, which round to zero; the divisor is not zero where they are used.
abbrev pub quot : ℤ → ℤ → ℤ
quot (pos a) (pos b) = pos (a / b)
quot (pos a) (negsuc b) = diff 0 (a / suc b)
quot (negsuc a) (pos b) = diff 0 (suc a / b)
quot (negsuc a) (negsuc b) = pos (suc a / suc b)

abbrev pub rem : ℤ → ℤ → ℤ
rem (pos a) (pos b) = pos (a % b)
rem (pos a) (negsuc b) = pos (a % suc b)
rem (negsuc a) (pos b) = diff 0 (suc a % b)
rem (negsuc a) (negsuc b) = diff 0 (suc a % suc b)

-- `rem_euclid` with a positive modulus.
abbrev pub rem_euclid : ℤ → ℕ → ℕ
rem_euclid (pos n) d = n % d
rem_euclid (negsuc n) d = d - 1 - n % d

-- An arithmetic shift to the right by `k` bits, where `p` is `2 ^ k`.
abbrev pub shifted : ℤ → ℕ → ℤ
shifted (pos n) p = pos (n / p)
shifted (negsuc n) p = negsuc (n / p)

abbrev pub eqℤ : ℤ → ℤ → Bool
eqℤ (pos a) (pos b) = a == b
eqℤ (negsuc a) (negsuc b) = a == b
eqℤ _ _ = false

abbrev pub ltℤ : ℤ → ℤ → Bool
ltℤ (pos a) (pos b) = ltb a b
ltℤ (pos a) (negsuc b) = false
ltℤ (negsuc a) (pos b) = true
ltℤ (negsuc a) (negsuc b) = ltb b a
