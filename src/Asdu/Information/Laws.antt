-- ===== src/Asdu/Information/Laws.antt =====
-- The elements of asdu/information.go and their octets determine each other.
use go_iecp.Shared.{ℕ, ◌+◌, ◌*◌, ◌/◌, ◌<◌, ◌≡◌, refl, bit_and, bit_or, arith, InRange, to_word}
use go_iecp.Shared.Bits.{
  agree, table, bit_and_1f, bit_and_c0, bit_and_3f, bit_and_7f, bit_and_40, bit_and_80, bit_or_40,
  bit_or_80, bit_or-shift,
}
use go_iecp.Asdu.Information.{
  StepPosition, step_position_value, parse_step_position, CauseOfInitial, parse_cause_of_initial,
  cause_of_initial_value, parse_qualifier_count_call, qualifier_count_call_value,
  QualifierOfParameterMv, parse_qualifier_of_param_mv, qualifier_of_parameter_mv_value,
  QualifierOfCommand, parse_qualifier_of_command, qualifier_of_command_value,
  QualifierOfSetpointCmd, parse_qualifier_of_setpoint_cmd, qualifier_of_setpoint_cmd_value,
}

step_octet : (b : ℕ) → b < 256 → step_position_value (parse_step_position b) ≡ b
unfolding agree step_position_value parse_step_position
step_octet = table 256 _ _ refl

cause_octet : (b : ℕ) → b < 256 → cause_of_initial_value (parse_cause_of_initial b) ≡ b
unfolding agree cause_of_initial_value parse_cause_of_initial
cause_octet = table 256 _ _ refl

count_octet : (b : ℕ) → b < 256 → qualifier_count_call_value (parse_qualifier_count_call b) ≡ b
unfolding agree qualifier_count_call_value parse_qualifier_count_call
count_octet = table 256 _ _ refl

param_octet :
    (b : ℕ) → b < 256 → qualifier_of_parameter_mv_value (parse_qualifier_of_param_mv b) ≡ b
unfolding agree qualifier_of_parameter_mv_value parse_qualifier_of_param_mv
param_octet = table 256 _ _ refl

command_octet :
    (b : ℕ) → b < 256 → qualifier_of_command_value (parse_qualifier_of_command b) ≡ b / 4 * 4
unfolding agree qualifier_of_command_value parse_qualifier_of_command
command_octet = table 256 _ _ refl

setpoint_octet :
    (b : ℕ) → b < 256 → qualifier_of_setpoint_cmd_value (parse_qualifier_of_setpoint_cmd b) ≡ b
unfolding agree qualifier_of_setpoint_cmd_value parse_qualifier_of_setpoint_cmd
setpoint_octet = table 256 _ _ refl

-- For every octet, the step position, cause of initialisation, counter interrogation qualifier,
-- measured value parameter qualifier and set-point qualifier that are parsed from it have that
-- octet as their value again; the value of a command qualifier lacks the two lowest bits, which
-- hold the command's state.
pub value-parse :
    (b : ℕ)
    → b < 256
    → (step_position_value (parse_step_position b) ≡ b)
      × (cause_of_initial_value (parse_cause_of_initial b) ≡ b)
      × (qualifier_count_call_value (parse_qualifier_count_call b) ≡ b)
      × (qualifier_of_parameter_mv_value (parse_qualifier_of_param_mv b) ≡ b)
      × (qualifier_of_command_value (parse_qualifier_of_command b) ≡ b / 4 * 4)
      × (qualifier_of_setpoint_cmd_value (parse_qualifier_of_setpoint_cmd b) ≡ b)
value-parse b h = (
  step_octet b h,
  cause_octet b h,
  count_octet b h,
  param_octet b h,
  command_octet b h,
  setpoint_octet b h,
)

-- The octets of a value of seven bits, with the flag above it or without.
seven_bits :
    (w : ℕ)
    → w < 128
    → (bit_and w 0x80 ≡ 0)
      × (bit_and w 0x7f ≡ w)
      × (bit_and (bit_or w 0x80) 0x80 ≡ 128)
      × (bit_and (bit_or w 0x80) 0x7f ≡ w)
      × (bit_or w 0x80 ≡ w + 128)
seven_bits w h =
    ground
      (arith, bit_or_80 w, bit_and_80 w, bit_and_7f w, bit_and_80 (w + 128), bit_and_7f (w + 128))

-- A step position from -64 to 63, transient or not, is parsed back from its octet.
pub parse_step_position-step_position_value :
    (sp : StepPosition) → InRange 64 sp.val → parse_step_position (step_position_value sp) ≡ sp
unfolding parse_step_position step_position_value
parse_step_position-step_position_value sp h =
    let w = to_word 128 sp.val in
    ground
      (arith, seven_bits w, bit_and_40 w, bit_and_3f w, bit_and_40 (w + 128), bit_and_3f (w + 128))

pub parse_cause-value :
    (c : CauseOfInitial) → c.cause < 128 → parse_cause_of_initial (cause_of_initial_value c) ≡ c
unfolding parse_cause_of_initial cause_of_initial_value
parse_cause-value c h = ground (arith, seven_bits c.cause)

pub parse_setpoint-value :
    (q : QualifierOfSetpointCmd)
    → q.qual < 128
    → parse_qualifier_of_setpoint_cmd (qualifier_of_setpoint_cmd_value q) ≡ q
unfolding parse_qualifier_of_setpoint_cmd qualifier_of_setpoint_cmd_value
parse_setpoint-value q h = ground (arith, seven_bits q.qual)

pub parse_command-value :
    (q : QualifierOfCommand)
    → q.qual < 32
    → parse_qualifier_of_command (qualifier_of_command_value q) ≡ q
unfolding parse_qualifier_of_command qualifier_of_command_value
parse_command-value q h =
    ground (arith, bit_and_1f q.qual, bit_and_1f (q.qual + 32), seven_bits (q.qual * 4))

pub parse_param-value :
    (q : QualifierOfParameterMv)
    → q.category < 64
    → parse_qualifier_of_param_mv (qualifier_of_parameter_mv_value q) ≡ q
unfolding parse_qualifier_of_param_mv qualifier_of_parameter_mv_value
parse_param-value q h = ground (
  arith,
  bit_and_3f q.category,
  bit_or_40 q.category,
  bit_or_80 q.category,
  bit_or_80 (q.category + 64),
  bit_and_40 q.category,
  bit_and_80 q.category,
  bit_and_3f (q.category + 64),
  bit_and_40 (q.category + 64),
  bit_and_80 (q.category + 64),
  bit_and_3f (q.category + 128),
  bit_and_40 (q.category + 128),
  bit_and_80 (q.category + 128),
  bit_and_3f (q.category + 192),
  bit_and_40 (q.category + 192),
  bit_and_80 (q.category + 192),
)

parse_count-value :
    (r f : ℕ)
    → r < 64
    → f < 4
    → parse_qualifier_count_call
        (qualifier_count_call_value (record { request = r; freeze = f * 64 }))
      ≡ record { request = r; freeze = f * 64 }
unfolding parse_qualifier_count_call qualifier_count_call_value
parse_count-value r f hr hf = ground (
  arith,
  bit_and_3f r,
  bit_and_c0 (f * 64),
  bit_or-shift 6 r f,
  bit_and_3f (r + f * 64),
  bit_and_c0 (r + f * 64),
)

-- A cause of initialisation or a set-point qualifier of seven bits, a command qualifier of five, a
-- measured value parameter qualifier of six, and a counter interrogation qualifier whose request
-- has six bits and whose freeze is one of the four multiples of 64 is parsed back from its value.
pub parse-value :
    (c : CauseOfInitial) (s : QualifierOfSetpointCmd) (q : QualifierOfCommand)
    (m : QualifierOfParameterMv) (request freeze : ℕ)
    → c.cause < 128
    → s.qual < 128
    → q.qual < 32
    → m.category < 64
    → request < 64
    → freeze < 4
    → (parse_cause_of_initial (cause_of_initial_value c) ≡ c)
      × (parse_qualifier_of_setpoint_cmd (qualifier_of_setpoint_cmd_value s) ≡ s)
      × (parse_qualifier_of_command (qualifier_of_command_value q) ≡ q)
      × (parse_qualifier_of_param_mv (qualifier_of_parameter_mv_value m) ≡ m)
      × (parse_qualifier_count_call
            (qualifier_count_call_value (record { request = request; freeze = freeze * 64 }))
          ≡ record { request = request; freeze = freeze * 64 })
parse-value c s q m request freeze hc hs hq hm hr hf = (
  parse_cause-value c hc,
  parse_setpoint-value s hs,
  parse_command-value q hq,
  parse_param-value m hm,
  parse_count-value request freeze hr hf,
)
