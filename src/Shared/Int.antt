-- ===== src/Shared/Int.antt =====
-- Signed integers over the native numbers, under the library's names, and Go's conversions of them.
use Prim.Native.Nat.{ℕ, ◌-◌, ◌%◌, ◌<◌}
use go_iecp.Shared.Tests.{ltb, if◌then◌else◌}

-- `negsuc n` is -(n + 1).
pub data ℤ : Type 0 where
  pos : ℕ → ℤ
  negsuc : ℕ → ℤ

-- The low bits of the two's complement, `modulus` being the power of two.
abbrev pub to_word : ℕ → ℤ → ℕ
to_word modulus (pos n) = n % modulus
to_word modulus (negsuc n) = modulus - 1 - n % modulus

-- The signed integer that a word means, `half` being the half of the modulus.
abbrev pub of_word : ℕ → ℕ → ℤ
of_word half n = if ltb n half then pos n else negsuc (half - 1 - (n - half))

-- From -half to half - 1.
abbrev pub InRange : ℕ → ℤ → Type 0
InRange half (pos n) = n < half
InRange half (negsuc n) = n < half
