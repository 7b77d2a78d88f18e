-- ===== src/Asdu/Identifier/Laws.antt =====
-- The octets of asdu/identifier.go read back what they were written from.
use go_iecp.Shared.{ℕ, ◌≡◌, ◌<◌, ◌+◌, ◌%◌, arith}
use go_iecp.Shared.Bits.{bit_and_3f, bit_and_7f, bit_and_40, bit_and_80, bit_or_40, bit_or_80}
use go_iecp.Asdu.Identifier.{
  VariableStruct, CauseOfTransmission, parse_variable_struct, variable_struct_value,
  parse_cause_of_transmission, cause_of_transmission_value,
}

pub parse-variable_struct_value :
    (v : VariableStruct) → v.number < 128 → parse_variable_struct (variable_struct_value v) ≡ v
unfolding parse_variable_struct variable_struct_value
parse-variable_struct_value v h = ground (
  arith,
  bit_or_80 v.number,
  bit_and_7f v.number,
  bit_and_7f (v.number + 128),
  bit_and_80 v.number,
  bit_and_80 (v.number + 128),
)

pub variable_struct_value-parse :
    (b : ℕ) → b < 256 → variable_struct_value (parse_variable_struct b) ≡ b
unfolding parse_variable_struct variable_struct_value
variable_struct_value-parse b h = ground (arith, bit_and_7f b, bit_and_80 b, bit_or_80 (b % 128))

pub parse-cause_of_transmission_value :
    (c : CauseOfTransmission)
    → c.cause < 64
    → parse_cause_of_transmission (cause_of_transmission_value c) ≡ c
unfolding parse_cause_of_transmission cause_of_transmission_value
parse-cause_of_transmission_value c h = ground (
  arith,
  bit_or_40 c.cause,
  bit_or_80 c.cause,
  bit_or_80 (c.cause + 64),
  bit_and_3f c.cause,
  bit_and_3f (c.cause + 64),
  bit_and_3f (c.cause + 128),
  bit_and_3f (c.cause + 64 + 128),
  bit_and_40 c.cause,
  bit_and_40 (c.cause + 64),
  bit_and_40 (c.cause + 128),
  bit_and_40 (c.cause + 64 + 128),
  bit_and_80 c.cause,
  bit_and_80 (c.cause + 64),
  bit_and_80 (c.cause + 128),
  bit_and_80 (c.cause + 64 + 128),
)

pub cause_of_transmission_value-parse :
    (b : ℕ) → b < 256 → cause_of_transmission_value (parse_cause_of_transmission b) ≡ b
unfolding parse_cause_of_transmission cause_of_transmission_value
cause_of_transmission_value-parse b h = ground (
  arith,
  bit_and_3f b,
  bit_and_40 b,
  bit_and_80 b,
  bit_or_40 (b % 64),
  bit_or_80 (b % 64),
  bit_or_80 (b % 64 + 64),
)
