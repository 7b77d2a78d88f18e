-- ===== src/Asdu/Command/Functions.antt =====
-- asdu/cproc.go, asdu/cpara.go and asdu/msys.go: the senders and the getters.
use go_iecp.Shared.{ℕ, ℤ, Bool, false, ◌||◌, [], ◌∷◌, Option, none, some, ◌==◌, if◌then◌else◌}
use go_iecp.Asdu.Error.{Result, err, cmd_cause}
use go_iecp.Asdu.TypeId.{p_me_na_1, p_me_nb_1, p_me_nc_1, p_ac_na_1, m_ei_na_1}
use go_iecp.Asdu.Identifier.{CauseOfTransmission}
use go_iecp.Asdu.Information.{CauseOfInitial}
use go_iecp.Asdu.Message.{Params, Asdu, valid, new_asdu}
use go_iecp.Asdu.System.{activation, deactivation}
use go_iecp.Asdu.Codec.{decode_info_obj_addr}
use go_iecp.Asdu.Monitor.{Element, append_infos, element_of}
use go_iecp.Asdu.Command
use go_iecp.Asdu.Command.{
  SingleCommandInfo, DoubleCommandInfo, SetpointCommandInfo, SetpointCommandFloatInfo,
  BitsString32CommandInfo, Parameter, ParameterActivationInfo,
}

module _ {I : Type 0} (el : Element I) where
  unfoldable pub send_command : Params → ℕ → CauseOfTransmission → ℕ → I → Result Asdu
  send_command p type_id coa ca cmd = elim (valid p) [
    | some e ↦ err e
    | none ↦ append_infos el type_id false false (cmd ∷ []) (
        new_asdu p (record {
          type_id = type_id;
          variable = record { number = 1; is_sequence = false };
          coa = coa;
          orig_addr = 0;
          common_addr = ca;
        }))
  ]

  abbrev pub read_command : ℕ → Option (ℕ × Asdu) → Option I
  read_command type_id none = none
  read_command type_id (some (x, a)) = elim (el.read type_id x a) [
    | none ↦ none
    | some (v, b) ↦ some v
  ]

  unfoldable pub get_command : Asdu → Option I
  get_command a = read_command a.type_id (decode_info_obj_addr a)

abbrev pub caused : Bool → Result Asdu → Result Asdu
caused passes sent = if passes then sent else err cmd_cause

abbrev controls : CauseOfTransmission → Bool
controls coa = coa.cause == activation || coa.cause == deactivation

abbrev pub initialized : CauseOfTransmission → CauseOfTransmission
initialized coa = record coa { cause = 4 }

module _ (p : Params) (coa : CauseOfTransmission) (ca : ℕ) where
  unfoldable pub single_cmd : ℕ → SingleCommandInfo → Result Asdu
  single_cmd type_id cmd =
      caused (controls coa) (send_command (element_of Command.single_cmd) p type_id coa ca cmd)

  unfoldable pub double_cmd : ℕ → DoubleCommandInfo → Result Asdu
  double_cmd type_id cmd =
      caused (controls coa) (send_command (element_of Command.double_cmd) p type_id coa ca cmd)

  unfoldable pub step_cmd : ℕ → DoubleCommandInfo → Result Asdu
  step_cmd type_id cmd =
      caused (controls coa) (send_command (element_of Command.step_cmd) p type_id coa ca cmd)

  unfoldable pub setpoint_cmd_normal : ℕ → SetpointCommandInfo → Result Asdu
  setpoint_cmd_normal type_id cmd =
      caused (controls coa)
        (send_command (element_of Command.setpoint_cmd_normal) p type_id coa ca cmd)

  unfoldable pub setpoint_cmd_scaled : ℕ → SetpointCommandInfo → Result Asdu
  setpoint_cmd_scaled type_id cmd =
      caused (controls coa)
        (send_command (element_of Command.setpoint_cmd_scaled) p type_id coa ca cmd)

  unfoldable pub setpoint_cmd_float : ℕ → SetpointCommandFloatInfo → Result Asdu
  setpoint_cmd_float type_id cmd =
      caused (controls coa)
        (send_command (element_of Command.setpoint_cmd_float) p type_id coa ca cmd)

  unfoldable pub bits_string32_cmd : ℕ → BitsString32CommandInfo → Result Asdu
  bits_string32_cmd type_id cmd =
      caused (controls coa)
        (send_command (element_of Command.bits_string32_cmd) p type_id coa ca cmd)

  unfoldable pub parameter_normal : Parameter ℤ → Result Asdu
  parameter_normal info =
      caused (coa.cause == activation)
        (send_command (element_of Command.parameter_normal) p p_me_na_1 coa ca info)

  unfoldable pub parameter_scaled : Parameter ℤ → Result Asdu
  parameter_scaled info =
      caused (coa.cause == activation)
        (send_command (element_of Command.parameter_scaled) p p_me_nb_1 coa ca info)

  unfoldable pub parameter_float : Parameter ℕ → Result Asdu
  parameter_float info =
      caused (coa.cause == activation)
        (send_command (element_of Command.parameter_float) p p_me_nc_1 coa ca info)

  unfoldable pub parameter_activation : ParameterActivationInfo → Result Asdu
  parameter_activation info =
      caused (controls coa)
        (send_command (element_of Command.parameter_activation) p p_ac_na_1 coa ca info)

  unfoldable pub end_of_initialization : ℕ → CauseOfInitial → Result Asdu
  end_of_initialization ioa coi =
      send_command (element_of Command.end_of_initialization) p m_ei_na_1 (initialized coa) ca
        (ioa, coi)

unfoldable pub get_single_cmd : Asdu → Option SingleCommandInfo
get_single_cmd = get_command (element_of Command.single_cmd)

unfoldable pub get_double_cmd : Asdu → Option DoubleCommandInfo
get_double_cmd = get_command (element_of Command.double_cmd)

unfoldable pub get_step_cmd : Asdu → Option DoubleCommandInfo
get_step_cmd = get_command (element_of Command.step_cmd)

unfoldable pub get_setpoint_cmd_normal : Asdu → Option SetpointCommandInfo
get_setpoint_cmd_normal = get_command (element_of Command.setpoint_cmd_normal)

unfoldable pub get_setpoint_cmd_scaled : Asdu → Option SetpointCommandInfo
get_setpoint_cmd_scaled = get_command (element_of Command.setpoint_cmd_scaled)

unfoldable pub get_setpoint_cmd_float : Asdu → Option SetpointCommandFloatInfo
get_setpoint_cmd_float = get_command (element_of Command.setpoint_cmd_float)

unfoldable pub get_bits_string32_cmd : Asdu → Option BitsString32CommandInfo
get_bits_string32_cmd = get_command (element_of Command.bits_string32_cmd)

unfoldable pub get_parameter_normal : Asdu → Option (Parameter ℤ)
get_parameter_normal = get_command (element_of Command.parameter_normal)

unfoldable pub get_parameter_scaled : Asdu → Option (Parameter ℤ)
get_parameter_scaled = get_command (element_of Command.parameter_scaled)

unfoldable pub get_parameter_float : Asdu → Option (Parameter ℕ)
get_parameter_float = get_command (element_of Command.parameter_float)

unfoldable pub get_parameter_activation : Asdu → Option ParameterActivationInfo
get_parameter_activation = get_command (element_of Command.parameter_activation)

unfoldable pub get_end_of_initialization : Asdu → Option (ℕ × CauseOfInitial)
get_end_of_initialization = get_command (element_of Command.end_of_initialization)
