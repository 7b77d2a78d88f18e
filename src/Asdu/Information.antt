-- ===== src/Asdu/Information.antt =====
-- asdu/information.go: the information elements that pack several fields into an octet.
pub mod Laws
use go_iecp.Shared.{
  ℕ, ◌*◌, ◌/◌, ◌-◌, Bool, bit_and, bit_or, ◌==◌, ◌!=◌, if◌then◌else◌, byte, ℤ, pos, negsuc, to_word,
}
use go_iecp.Asdu.Identifier.{set_flag}

-- `SinglePoint.Value` and `DoublePoint.Value`
unfoldable pub single_point_value : ℕ → ℕ
single_point_value p = byte (bit_and p 0x01)

unfoldable pub double_point_value : ℕ → ℕ
double_point_value p = byte (bit_and p 0x03)

pub record StepPosition : Type 0 where
  pub val : ℤ
  pub has_transient : Bool

unfoldable pub step_position_value : StepPosition → ℕ
step_position_value sp = byte (set_flag sp.has_transient 0x80 (to_word 128 sp.val))

-- `int(b) | (-1 &^ 0x3f)` is the low six bits of `b` less 64.
unfoldable pub parse_step_position : ℕ → StepPosition
parse_step_position b = record {
  val = if bit_and b 0x40 == 0 then pos (bit_and b 0x3f) else negsuc (63 - bit_and b 0x3f);
  has_transient = bit_and b 0x80 != 0;
}

pub record CauseOfInitial : Type 0 where
  pub cause : ℕ
  pub is_local_change : Bool

unfoldable pub parse_cause_of_initial : ℕ → CauseOfInitial
parse_cause_of_initial b = record {
  cause = bit_and b 0x7f;
  is_local_change = bit_and b 0x80 == 0x80;
}

unfoldable pub cause_of_initial_value : CauseOfInitial → ℕ
cause_of_initial_value c = set_flag c.is_local_change 0x80 c.cause

pub record QualifierCountCall : Type 0 where
  pub request : ℕ
  pub freeze : ℕ

unfoldable pub parse_qualifier_count_call : ℕ → QualifierCountCall
parse_qualifier_count_call b = record { request = bit_and b 0x3f; freeze = bit_and b 0xc0 }

unfoldable pub qualifier_count_call_value : QualifierCountCall → ℕ
qualifier_count_call_value q = bit_or (byte (bit_and q.request 0x3f)) (byte (bit_and q.freeze 0xc0))

pub record QualifierOfParameterMv : Type 0 where
  pub category : ℕ
  pub is_change : Bool
  pub is_in_operation : Bool

unfoldable pub parse_qualifier_of_param_mv : ℕ → QualifierOfParameterMv
parse_qualifier_of_param_mv b = record {
  category = bit_and b 0x3f;
  is_change = bit_and b 0x40 == 0x40;
  is_in_operation = bit_and b 0x80 == 0x80;
}

unfoldable pub qualifier_of_parameter_mv_value : QualifierOfParameterMv → ℕ
qualifier_of_parameter_mv_value q =
    set_flag q.is_in_operation 0x80 (set_flag q.is_change 0x40 (bit_and (byte q.category) 0x3f))

pub record QualifierOfCommand : Type 0 where
  pub qual : ℕ
  pub in_select : Bool

unfoldable pub parse_qualifier_of_command : ℕ → QualifierOfCommand
parse_qualifier_of_command b = record {
  qual = bit_and (b / 4) 0x1f;
  in_select = bit_and b 0x80 == 0x80;
}

unfoldable pub qualifier_of_command_value : QualifierOfCommand → ℕ
qualifier_of_command_value q = set_flag q.in_select 0x80 (byte (bit_and (byte q.qual) 0x1f * 4))

pub record QualifierOfSetpointCmd : Type 0 where
  pub qual : ℕ
  pub in_select : Bool

unfoldable pub parse_qualifier_of_setpoint_cmd : ℕ → QualifierOfSetpointCmd
parse_qualifier_of_setpoint_cmd b = record {
  qual = bit_and b 0x7f;
  in_select = bit_and b 0x80 == 0x80;
}

unfoldable pub qualifier_of_setpoint_cmd_value : QualifierOfSetpointCmd → ℕ
qualifier_of_setpoint_cmd_value q = set_flag q.in_select 0x80 (bit_and (byte q.qual) 0x7f)
