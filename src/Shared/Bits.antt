-- ===== src/Shared/Bits.antt =====
-- Bit operations as arithmetic: tables over a byte, and `|` of two disjoint fields at any width.
use Prim.Native.Nat.{
  ℕ, zero, suc, ◌+◌, ◌*◌, ◌/◌, ◌%◌, ◌^◌, ◌≤◌, ◌<◌, max, min, bit_and, bit_or, digits,
  bit_or-bitwise, bit_and-bitwise,
}
use mathlib.Core.Path.{◌≡◌, refl, ap, ◌∙◌}
use mathlib.Core.Bool.{Bool, true, ◌&&◌}
use native.Mathlib.Nat.{pow-suc}
use native.Mathlib.Omega.{arith}
use go_iecp.Shared.Tests.{◌==◌}

-- Whether two functions agree on every value below a bound, found out by evaluation.
unfoldable pub agree : (f g : ℕ → ℕ) → ℕ → Bool
agree f g zero = true
agree f g (suc bound) = agree f g bound && f bound == g bound

pub table : (bound : ℕ) (f g : ℕ → ℕ) → agree f g bound ≡ true → (b : ℕ) → b < bound → f b ≡ g b
unfolding agree
table (suc bound) f g evaluated b below = ground (arith, table bound f g (ground arith) b)
table zero f g evaluated b below = absurd (omega arith)

-- Masks of a byte.
pub bit_and_01 : (b : ℕ) → b < 256 → bit_and b 0x01 ≡ b % 2
unfolding agree
bit_and_01 = table 256 _ _ refl

pub bit_and_03 : (b : ℕ) → b < 256 → bit_and b 0x03 ≡ b % 4
unfolding agree
bit_and_03 = table 256 _ _ refl

pub bit_and_3f : (b : ℕ) → b < 256 → bit_and b 0x3f ≡ b % 64
unfolding agree
bit_and_3f = table 256 _ _ refl

pub bit_and_7f : (b : ℕ) → b < 256 → bit_and b 0x7f ≡ b % 128
unfolding agree
bit_and_7f = table 256 _ _ refl

pub bit_and_fc : (b : ℕ) → b < 256 → bit_and b 0xfc ≡ b / 4 * 4
unfolding agree
bit_and_fc = table 256 _ _ refl

pub bit_and_0f : (b : ℕ) → b < 256 → bit_and b 0x0f ≡ b % 16
unfolding agree
bit_and_0f = table 256 _ _ refl

pub bit_and_1f : (b : ℕ) → b < 256 → bit_and b 0x1f ≡ b % 32
unfolding agree
bit_and_1f = table 256 _ _ refl

pub bit_and_c0 : (b : ℕ) → b < 256 → bit_and b 0xc0 ≡ b / 64 * 64
unfolding agree
bit_and_c0 = table 256 _ _ refl

pub bit_and_10 : (b : ℕ) → b < 256 → bit_and b 0x10 ≡ b / 16 % 2 * 16
unfolding agree
bit_and_10 = table 256 _ _ refl

pub bit_and_20 : (b : ℕ) → b < 256 → bit_and b 0x20 ≡ b / 32 % 2 * 32
unfolding agree
bit_and_20 = table 256 _ _ refl

pub bit_and_40 : (b : ℕ) → b < 256 → bit_and b 0x40 ≡ b / 64 % 2 * 64
unfolding agree
bit_and_40 = table 256 _ _ refl

pub bit_and_80 : (b : ℕ) → b < 256 → bit_and b 0x80 ≡ b / 128 * 128
unfolding agree
bit_and_80 = table 256 _ _ refl

pub bit_or_03 : (b : ℕ) → b < 256 → bit_or b 0x03 ≡ b / 4 * 4 + 3
unfolding agree
bit_or_03 = table 256 _ _ refl

-- Flags set above a field.
pub bit_or_20 : (b : ℕ) → b < 32 → bit_or b 0x20 ≡ b + 32
unfolding agree
bit_or_20 = table 32 _ _ refl

pub bit_or_40 : (b : ℕ) → b < 64 → bit_or b 0x40 ≡ b + 64
unfolding agree
bit_or_40 = table 64 _ _ refl

pub bit_or_80 : (b : ℕ) → b < 128 → bit_or b 0x80 ≡ b + 128
unfolding agree
bit_or_80 = table 128 _ _ refl

-- The recursion on binary digits that `|` means, where the low field ends below the high one.
or_fields :
    (fuel k low high : ℕ)
    → low ≤ fuel
    → low < 2 ^ k
    → digits (λ b. b) max fuel low (high * 2 ^ k) ≡ low + high * 2 ^ k
or_fields zero k zero high f h = omega arith
or_fields zero k (suc low) high f h = absurd (omega arith)
or_fields (suc fuel) k zero high f h = omega arith
or_fields (suc fuel) zero (suc low) high f h = absurd (omega arith)
or_fields (suc fuel) (suc k) (suc low) high f h =
    let twice : high * 2 ^ suc k ≡ 2 * (high * 2 ^ k) =
      omega (arith, ap (λ (t : ℕ). high * t) (pow-suc 2 k)) in
    let upper : high * 2 ^ suc k / 2 ≡ high * 2 ^ k = omega (arith, twice) in
    let half = or_fields fuel k (suc low / 2) high (omega arith) (omega (arith, pow-suc 2 k)) in
    rw upper (omega (arith, half, twice))

-- `low | high << k` is a sum when `low` has at most `k` bits.
pub bit_or-shift : (k low high : ℕ) → low < 2 ^ k → bit_or low (high * 2 ^ k) ≡ low + high * 2 ^ k
bit_or-shift k low high h =
    bit_or-bitwise low (high * 2 ^ k) ∙ or_fields low k low high (omega arith) h

abbrev and_digits : ℕ → ℕ → ℕ → ℕ
and_digits fuel a mask = digits (λ b. zero) min fuel a mask

-- A mask of up to eight low bits keeps those bits of any number.
low_masks :
    (fuel a : ℕ)
    → a ≤ fuel
    → (and_digits fuel a 0 ≡ 0)
      × (and_digits fuel a 1 ≡ a % 2)
      × (and_digits fuel a 3 ≡ a % 4)
      × (and_digits fuel a 7 ≡ a % 8)
      × (and_digits fuel a 15 ≡ a % 16)
      × (and_digits fuel a 31 ≡ a % 32)
      × (and_digits fuel a 63 ≡ a % 64)
      × (and_digits fuel a 127 ≡ a % 128)
      × (and_digits fuel a 255 ≡ a % 256)
low_masks zero zero h = omega arith
low_masks zero (suc a) h = absurd (omega arith)
low_masks (suc fuel) zero h = omega arith
low_masks (suc fuel) (suc a) h = omega (arith, low_masks fuel (suc a / 2) (omega arith))

-- The octet of any number.
pub bit_and_ff : (a : ℕ) → bit_and a 0xff ≡ a % 256
bit_and_ff a =
    let below : a ≤ a = omega arith in
    let masked : and_digits a a 255 ≡ a % 256 = omega (arith, low_masks a a below) in
    bit_and-bitwise a 0xff ∙ masked
