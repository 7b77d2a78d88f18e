-- ===== src/Asdu/Command.antt =====
-- asdu/cproc.go, asdu/cpara.go and asdu/msys.go: the commands, the parameters and the end of
-- initialization, of which an ASDU has one. An instant is the octets that carry it, and a float32
-- its 32 bits.
pub mod Functions
pub mod Fields
pub mod Arrivals
use go_iecp.Shared.{
  ℕ, Bool, false, ◌||◌, List, [], ◌∷◌, ◌++◌, Option, none, some, bit_and, bit_or, ◌==◌,
  if◌then◌else◌, ℤ, to_word,
}
use go_iecp.Asdu.Error.{Result, err, cmd_cause}
use go_iecp.Asdu.TypeId.{
  c_sc_na_1, c_sc_ta_1, c_dc_na_1, c_dc_ta_1, c_rc_na_1, c_rc_ta_1, c_se_na_1, c_se_ta_1, c_se_nb_1,
  c_se_tb_1, c_se_nc_1, c_se_tc_1, c_bo_na_1, c_bo_ta_1, p_me_na_1, p_me_nb_1, p_me_nc_1, p_ac_na_1,
  m_ei_na_1,
}
use go_iecp.Asdu.Identifier.{CauseOfTransmission}
use go_iecp.Asdu.Information.{
  QualifierOfCommand, qualifier_of_command_value, parse_qualifier_of_command,
  QualifierOfSetpointCmd, qualifier_of_setpoint_cmd_value, parse_qualifier_of_setpoint_cmd,
  QualifierOfParameterMv, qualifier_of_parameter_mv_value, parse_qualifier_of_param_mv,
  CauseOfInitial, cause_of_initial_value, parse_cause_of_initial,
}
use go_iecp.Asdu.Message.{Params, Asdu, valid, new_asdu}
use go_iecp.Asdu.System.{activation, deactivation}
use go_iecp.Asdu.Codec.{
  octets16, octets32, decode_byte, decode_normalize, decode_scaled, decode_bits_string32,
  decode_info_obj_addr,
}
use go_iecp.Asdu.Monitor.{
  Element, Layout, TimeTag, no_tag, cp56, mismatch, append_infos, element_of,
}
use go_iecp.Asdu.Monitor.Elements.{mapped}

-- A value with a qualifier.
pub record Command (V Q : Type 0) : Type 0 where
  pub ioa : ℕ
  pub value : V
  pub qualifier : Q
  pub time : List ℕ

abbrev pub SingleCommandInfo : Type 0
SingleCommandInfo = Command Bool QualifierOfCommand

-- A double command, and a step command.
abbrev pub DoubleCommandInfo : Type 0
DoubleCommandInfo = Command ℕ QualifierOfCommand

abbrev pub SetpointCommandInfo : Type 0
SetpointCommandInfo = Command ℤ QualifierOfSetpointCmd

abbrev pub SetpointCommandFloatInfo : Type 0
SetpointCommandFloatInfo = Command ℕ QualifierOfSetpointCmd

abbrev command_tag : (na ta type_id : ℕ) → TimeTag
command_tag na ta type_id =
    if type_id == na then no_tag else if type_id == ta then cp56 else mismatch

abbrev then_parsed : {A Q : Type 0} → (ℕ → Q) → Option (A × Asdu) → Option ((A × Q) × Asdu)
then_parsed f none = none
then_parsed f (some (v, a)) = mapped (λ b. (v, f b)) (decode_byte a)

abbrev command : {V Q : Type 0} → ℕ → V × Q → List ℕ → Command V Q
command x (v, q) time = record { ioa = x; value = v; qualifier = q; time = time }

unfoldable pub single_cmd : Layout SingleCommandInfo (Bool × QualifierOfCommand)
single_cmd = record {
  tag = command_tag c_sc_na_1 c_sc_ta_1;
  addr = λ c. c.ioa;
  time = λ c. c.time;
  fields = λ t c.
      (let value = qualifier_of_command_value c.qualifier in
        if c.value then bit_or value 0x01 else value)
      ∷ [];
  decode_fields = λ t a.
      mapped (λ b. (bit_and b 0x01 == 0x01, parse_qualifier_of_command (bit_and b 0xfe)))
        (decode_byte a);
  build = λ x. command x;
}

-- A double or a step command, by its types.
abbrev two_bit_cmd : ℕ → ℕ → Layout DoubleCommandInfo (ℕ × QualifierOfCommand)
two_bit_cmd na ta = record {
  tag = command_tag na ta;
  addr = λ c. c.ioa;
  time = λ c. c.time;
  fields = λ t c. bit_or (qualifier_of_command_value c.qualifier) (bit_and c.value 0x03) ∷ [];
  decode_fields = λ t a.
      mapped (λ b. (bit_and b 0x03, parse_qualifier_of_command (bit_and b 0xfc))) (decode_byte a);
  build = λ x. command x;
}

unfoldable pub double_cmd : Layout DoubleCommandInfo (ℕ × QualifierOfCommand)
double_cmd = two_bit_cmd c_dc_na_1 c_dc_ta_1

unfoldable pub step_cmd : Layout DoubleCommandInfo (ℕ × QualifierOfCommand)
step_cmd = two_bit_cmd c_rc_na_1 c_rc_ta_1

unfoldable pub setpoint_cmd_normal : Layout SetpointCommandInfo (ℤ × QualifierOfSetpointCmd)
setpoint_cmd_normal = record {
  tag = command_tag c_se_na_1 c_se_ta_1;
  addr = λ c. c.ioa;
  time = λ c. c.time;
  fields =
      λ t c. octets16 (to_word 65536 c.value) ++ (qualifier_of_setpoint_cmd_value c.qualifier ∷ []);
  decode_fields = λ t a. then_parsed parse_qualifier_of_setpoint_cmd (decode_normalize a);
  build = λ x. command x;
}

unfoldable pub setpoint_cmd_scaled : Layout SetpointCommandInfo (ℤ × QualifierOfSetpointCmd)
setpoint_cmd_scaled = record {
  tag = command_tag c_se_nb_1 c_se_tb_1;
  addr = λ c. c.ioa;
  time = λ c. c.time;
  fields =
      λ t c. octets16 (to_word 65536 c.value) ++ (qualifier_of_setpoint_cmd_value c.qualifier ∷ []);
  decode_fields = λ t a. then_parsed parse_qualifier_of_setpoint_cmd (decode_scaled a);
  build = λ x. command x;
}

unfoldable pub setpoint_cmd_float : Layout SetpointCommandFloatInfo (ℕ × QualifierOfSetpointCmd)
setpoint_cmd_float = record {
  tag = command_tag c_se_nc_1 c_se_tc_1;
  addr = λ c. c.ioa;
  time = λ c. c.time;
  fields = λ t c. octets32 c.value ++ (qualifier_of_setpoint_cmd_value c.qualifier ∷ []);
  decode_fields = λ t a. then_parsed parse_qualifier_of_setpoint_cmd (decode_bits_string32 a);
  build = λ x. command x;
}

-- A command without a qualifier.
pub record BitsString32CommandInfo : Type 0 where
  pub ioa : ℕ
  pub value : ℕ
  pub time : List ℕ

unfoldable pub bits_string32_cmd : Layout BitsString32CommandInfo ℕ
bits_string32_cmd = record {
  tag = command_tag c_bo_na_1 c_bo_ta_1;
  addr = λ c. c.ioa;
  time = λ c. c.time;
  fields = λ t c. octets32 c.value;
  decode_fields = λ t a. decode_bits_string32 a;
  build = λ x v time. record { ioa = x; value = v; time = time };
}

-- A measured value parameter.
pub record Parameter (V : Type 0) : Type 0 where
  pub ioa : ℕ
  pub value : V
  pub qpm : QualifierOfParameterMv

abbrev parameter : {V : Type 0} → ℕ → V × QualifierOfParameterMv → List ℕ → Parameter V
parameter x (v, q) time = record { ioa = x; value = v; qpm = q }

unfoldable pub parameter_normal : Layout (Parameter ℤ) (ℤ × QualifierOfParameterMv)
parameter_normal = record {
  tag = λ t. no_tag;
  addr = λ c. c.ioa;
  time = λ c. [];
  fields = λ t c. octets16 (to_word 65536 c.value) ++ (qualifier_of_parameter_mv_value c.qpm ∷ []);
  decode_fields = λ t a. then_parsed parse_qualifier_of_param_mv (decode_normalize a);
  build = λ x. parameter x;
}

unfoldable pub parameter_scaled : Layout (Parameter ℤ) (ℤ × QualifierOfParameterMv)
parameter_scaled = record {
  tag = λ t. no_tag;
  addr = λ c. c.ioa;
  time = λ c. [];
  fields = λ t c. octets16 (to_word 65536 c.value) ++ (qualifier_of_parameter_mv_value c.qpm ∷ []);
  decode_fields = λ t a. then_parsed parse_qualifier_of_param_mv (decode_scaled a);
  build = λ x. parameter x;
}

unfoldable pub parameter_float : Layout (Parameter ℕ) (ℕ × QualifierOfParameterMv)
parameter_float = record {
  tag = λ t. no_tag;
  addr = λ c. c.ioa;
  time = λ c. [];
  fields = λ t c. octets32 c.value ++ (qualifier_of_parameter_mv_value c.qpm ∷ []);
  decode_fields = λ t a. then_parsed parse_qualifier_of_param_mv (decode_bits_string32 a);
  build = λ x. parameter x;
}

pub record ParameterActivationInfo : Type 0 where
  pub ioa : ℕ
  pub qpa : ℕ

unfoldable pub parameter_activation : Layout ParameterActivationInfo ℕ
parameter_activation = record {
  tag = λ t. no_tag;
  addr = λ c. c.ioa;
  time = λ c. [];
  fields = λ t c. c.qpa ∷ [];
  decode_fields = λ t a. decode_byte a;
  build = λ x v time. record { ioa = x; qpa = v };
}

unfoldable pub end_of_initialization : Layout (ℕ × CauseOfInitial) CauseOfInitial
end_of_initialization = record {
  tag = λ t. no_tag;
  addr = λ c. c.0;
  time = λ c. [];
  fields = λ t c. cause_of_initial_value c.1 ∷ [];
  decode_fields = λ t a. mapped parse_cause_of_initial (decode_byte a);
  build = λ x v time. (x, v);
}
