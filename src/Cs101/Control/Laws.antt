-- ===== src/Cs101/Control/Laws.antt =====
-- The control field of cs101/frame.go and its octet determine each other.
use go_iecp.Shared.{
  ℕ, ◌+◌, ◌*◌, ◌/◌, ◌%◌, ◌<◌, ◌≡◌, refl, true, false, bit_or, if◌then◌else◌, arith,
}
use go_iecp.Shared.Bits.{agree, table, bit_and_0f, bit_and_10, bit_and_20, bit_and_40, bit_and_80}
use go_iecp.Cs101.Control.{ControlField, parse_control_field, control_value}

-- Every octet is the value of the field that it is parsed to.
pub control_value-parse_control_field :
    (b : ℕ) → b < 256 → control_value (parse_control_field b) ≡ b
unfolding agree control_value parse_control_field
control_value-parse_control_field = table 256 _ _ refl

-- Each kind of station uses its own pair of flags, and a function code has four bits.
pub record IsControl (cf : ControlField) : Type 0 where
  pub primary_flags : cf.prm ≡ true → (cf.acd ≡ false) × (cf.dfc ≡ false)
  pub secondary_flags : cf.prm ≡ false → (cf.fcb ≡ false) × (cf.fcv ≡ false)
  pub fun_fits : cf.fun < 16

join_fun : (b : ℕ) → b < 256 → bit_or (b / 16 * 16) (b % 16) ≡ b
unfolding agree
join_fun = table 256 _ _ refl

-- The octet as a sum.
abbrev octet_of : ControlField → ℕ
octet_of cf =
    (if cf.dir then 128 else 0)
    + (if cf.prm
        then 64 + (if cf.fcb then 32 else 0) + (if cf.fcv then 16 else 0)
        else (if cf.acd then 32 else 0) + (if cf.dfc then 16 else 0))
    + cf.fun

control_value-octet_of : (cf : ControlField) → cf.fun < 16 → control_value cf ≡ octet_of cf
unfolding control_value
control_value-octet_of cf h = ground (arith, join_fun (octet_of cf), bit_and_0f cf.fun)

-- A field that uses the flags of its own kind of station, with a function code of four bits, is
-- parsed back from its value.
pub parse_control_field-control_value :
    (cf : ControlField) → IsControl cf → parse_control_field (control_value cf) ≡ cf
unfolding parse_control_field
parse_control_field-control_value cf w = ground (
  arith,
  control_value-octet_of cf,
  bit_and_0f (octet_of cf),
  bit_and_10 (octet_of cf),
  bit_and_20 (octet_of cf),
  bit_and_40 (octet_of cf),
  bit_and_80 (octet_of cf),
)
