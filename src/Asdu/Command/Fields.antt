-- ===== src/Asdu/Command/Fields.antt =====
-- The fields of the commands and parameters of asdu/cproc.go and asdu/cpara.go are decoded from their
-- octets.
use go_iecp.Shared.{
  ℕ, zero, suc, ◌≡◌, ◌<◌, ◌+◌, ◌*◌, ◌/◌, ◌%◌, refl, ◌∷◌, bit_and, bit_or, arith, ℤ, InRange,
}
use go_iecp.Shared.Bits.{agree, table, bit_and_01, bit_and_03, bit_and_1f, bit_and_fc, bit_or_80}
use go_iecp.Asdu.Information.{
  QualifierOfCommand, qualifier_of_command_value, qualifier_of_setpoint_cmd_value,
  QualifierOfParameterMv, qualifier_of_parameter_mv_value, CauseOfInitial, cause_of_initial_value,
}
use go_iecp.Asdu.Information.Laws.{
  parse_command-value, parse_setpoint-value, parse_param-value, parse_cause-value,
}
use go_iecp.Asdu.Codec.Front.{
  decode_byte-front, decode_bits_string32-front, decode_normalize-front, decode_scaled-front,
}
use go_iecp.Asdu.Monitor.Layouts.{Decodable}
use go_iecp.Asdu.Command.{
  Command, Parameter, SingleCommandInfo, DoubleCommandInfo, SetpointCommandInfo,
  SetpointCommandFloatInfo, BitsString32CommandInfo, ParameterActivationInfo, single_cmd,
  double_cmd, step_cmd, setpoint_cmd_normal, setpoint_cmd_scaled, setpoint_cmd_float,
  bits_string32_cmd, parameter_normal, parameter_scaled, parameter_float, parameter_activation,
  end_of_initialization,
}

bit_or_00 : (b : ℕ) → b < 256 → bit_or b 0 ≡ b
unfolding agree
bit_or_00 = table 256 _ _ refl

bit_or_01 : (b : ℕ) → b < 256 → bit_or b 1 ≡ b / 2 * 2 + 1
unfolding agree
bit_or_01 = table 256 _ _ refl

bit_or_02 : (b : ℕ) → b < 253 → bit_or (b / 4 * 4) 2 ≡ b / 4 * 4 + 2
unfolding agree
bit_or_02 = table 253 _ _ refl

bit_or_3 : (b : ℕ) → b < 253 → bit_or (b / 4 * 4) 3 ≡ b / 4 * 4 + 3
unfolding agree
bit_or_3 = table 253 _ _ refl

bit_and_fe : (b : ℕ) → b < 256 → bit_and b 0xfe ≡ b / 2 * 2
unfolding agree
bit_and_fe = table 256 _ _ refl

-- The value of a qualifier leaves the two low bits free.
command_value_free :
    (q : QualifierOfCommand)
    → q.qual < 32
    → (qualifier_of_command_value q < 253)
      × (qualifier_of_command_value q / 4 * 4 ≡ qualifier_of_command_value q)
unfolding qualifier_of_command_value
command_value_free q h = ground (arith, bit_and_1f q.qual, bit_or_80 (q.qual * 4))

low_bits : (w r : ℕ) → w < 253 → w / 4 * 4 ≡ w → r < 4 → bit_or w r ≡ w + r
low_bits w zero hw fw h = ground (arith, bit_or_00 w)
low_bits w (suc zero) hw fw h = ground (arith, bit_or_01 w)
low_bits w (suc (suc zero)) hw fw h = ground (arith, fw, bit_or_02 w)
low_bits w (suc (suc (suc zero))) hw fw h = ground (arith, fw, bit_or_3 w)
low_bits w (suc (suc (suc (suc r)))) hw fw h = absurd (omega arith)

abbrev pub SingleFits : SingleCommandInfo → Type 0
SingleFits c = c.qualifier.qual < 32

abbrev pub arrives : {V Q : Type 0} → Command V Q → V × Q
arrives c = (c.value, c.qualifier)

pub single_cmd-Decodable : (t : ℕ) → Decodable single_cmd t SingleFits arrives
unfolding single_cmd
single_cmd-Decodable t a c rest h =
    let w = qualifier_of_command_value c.qualifier in
    let (small, free) = command_value_free c.qualifier h in
    ground (
      arith,
      small,
      free,
      low_bits w 1 small free,
      bit_and_01 w,
      bit_and_01 (w + 1),
      bit_and_fe w,
      bit_and_fe (w + 1),
      parse_command-value c.qualifier h,
      decode_byte-front a rest w,
      decode_byte-front a rest (w + 1),
    )

abbrev pub DoubleFits : DoubleCommandInfo → Type 0
DoubleFits c = (c.value < 256) × (c.qualifier.qual < 32)

abbrev pub double_arrives : DoubleCommandInfo → ℕ × QualifierOfCommand
double_arrives c = (bit_and c.value 0x03, c.qualifier)

pub double_cmd-Decodable : (t : ℕ) → Decodable double_cmd t DoubleFits double_arrives
unfolding double_cmd
double_cmd-Decodable t a c rest (hv, h) =
    let w = qualifier_of_command_value c.qualifier in
    let r = c.value % 4 in
    let (small, free) = command_value_free c.qualifier h in
    ground (
      arith,
      small,
      free,
      bit_and_03 c.value hv,
      low_bits w r small free,
      bit_and_03 (w + r),
      bit_and_fc (w + r),
      parse_command-value c.qualifier h,
      decode_byte-front a rest (w + r),
    )

pub step_cmd-Decodable : (t : ℕ) → Decodable step_cmd t DoubleFits double_arrives
unfolding step_cmd double_cmd
step_cmd-Decodable = double_cmd-Decodable

abbrev pub SetpointFits : SetpointCommandInfo → Type 0
SetpointFits c = InRange 32768 c.value × (c.qualifier.qual < 128)

pub setpoint_cmd_normal-Decodable : (t : ℕ) → Decodable setpoint_cmd_normal t SetpointFits arrives
unfolding setpoint_cmd_normal
setpoint_cmd_normal-Decodable t a c rest (hv, h) =
    let w = qualifier_of_setpoint_cmd_value c.qualifier in
    ground (
      arith,
      decode_normalize-front a (w ∷ rest) c.value hv,
      decode_byte-front a rest w,
      parse_setpoint-value c.qualifier h,
    )

pub setpoint_cmd_scaled-Decodable : (t : ℕ) → Decodable setpoint_cmd_scaled t SetpointFits arrives
unfolding setpoint_cmd_scaled
setpoint_cmd_scaled-Decodable t a c rest (hv, h) =
    let w = qualifier_of_setpoint_cmd_value c.qualifier in
    ground (
      arith,
      decode_scaled-front a (w ∷ rest) c.value hv,
      decode_byte-front a rest w,
      parse_setpoint-value c.qualifier h,
    )

abbrev pub FloatFits : SetpointCommandFloatInfo → Type 0
FloatFits c = (c.value < 4294967296) × (c.qualifier.qual < 128)

pub setpoint_cmd_float-Decodable : (t : ℕ) → Decodable setpoint_cmd_float t FloatFits arrives
unfolding setpoint_cmd_float
setpoint_cmd_float-Decodable t a c rest (hv, h) =
    let w = qualifier_of_setpoint_cmd_value c.qualifier in
    ground (
      arith,
      decode_bits_string32-front a (w ∷ rest) c.value hv,
      decode_byte-front a rest w,
      parse_setpoint-value c.qualifier h,
    )

abbrev pub BitsFits : BitsString32CommandInfo → Type 0
BitsFits c = c.value < 4294967296

pub bits_string32_cmd-Decodable : (t : ℕ) → Decodable bits_string32_cmd t BitsFits (λ c. c.value)
unfolding bits_string32_cmd
bits_string32_cmd-Decodable t a c rest h = decode_bits_string32-front a rest c.value h

abbrev pub ParameterFits : Parameter ℤ → Type 0
ParameterFits c = InRange 32768 c.value × (c.qpm.category < 64)

abbrev pub parameter_arrives : {V : Type 0} → Parameter V → V × QualifierOfParameterMv
parameter_arrives c = (c.value, c.qpm)

pub parameter_normal-Decodable :
    (t : ℕ) → Decodable parameter_normal t ParameterFits parameter_arrives
unfolding parameter_normal
parameter_normal-Decodable t a c rest (hv, h) =
    let w = qualifier_of_parameter_mv_value c.qpm in
    ground (
      arith,
      decode_normalize-front a (w ∷ rest) c.value hv,
      decode_byte-front a rest w,
      parse_param-value c.qpm h,
    )

pub parameter_scaled-Decodable :
    (t : ℕ) → Decodable parameter_scaled t ParameterFits parameter_arrives
unfolding parameter_scaled
parameter_scaled-Decodable t a c rest (hv, h) =
    let w = qualifier_of_parameter_mv_value c.qpm in
    ground (
      arith,
      decode_scaled-front a (w ∷ rest) c.value hv,
      decode_byte-front a rest w,
      parse_param-value c.qpm h,
    )

abbrev pub ParameterFloatFits : Parameter ℕ → Type 0
ParameterFloatFits c = (c.value < 4294967296) × (c.qpm.category < 64)

pub parameter_float-Decodable :
    (t : ℕ) → Decodable parameter_float t ParameterFloatFits parameter_arrives
unfolding parameter_float
parameter_float-Decodable t a c rest (hv, h) =
    let w = qualifier_of_parameter_mv_value c.qpm in
    ground (
      arith,
      decode_bits_string32-front a (w ∷ rest) c.value hv,
      decode_byte-front a rest w,
      parse_param-value c.qpm h,
    )

abbrev pub ActivationFits : ParameterActivationInfo → Type 0
ActivationFits c = Unit

pub parameter_activation-Decodable :
    (t : ℕ) → Decodable parameter_activation t ActivationFits (λ c. c.qpa)
unfolding parameter_activation
parameter_activation-Decodable t a c rest h = decode_byte-front a rest c.qpa

abbrev pub InitialFits : ℕ × CauseOfInitial → Type 0
InitialFits c = c.1.cause < 128

pub end_of_initialization-Decodable :
    (t : ℕ) → Decodable end_of_initialization t InitialFits (λ c. c.1)
unfolding end_of_initialization
end_of_initialization-Decodable t a c rest h =
    ground (arith, decode_byte-front a rest (cause_of_initial_value c.1), parse_cause-value c.1 h)
