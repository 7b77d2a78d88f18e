-- ===== src/Asdu/Command/Arrivals.antt =====
-- The command, the parameter or the end of initialization that a sender of asdu/cproc.go,
-- asdu/cpara.go or asdu/msys.go hands over its getter reads.
use Prim.{tt}
use go_iecp.Shared.{
  ℕ, ℤ, ◌≡◌, ◌∙◌, sym, ap, append_nil, refl, Bool, true, false, Option, [], ◌∷◌, ◌++◌, some, arith,
}
use go_iecp.Asdu.Error.{Result, ok}
use go_iecp.Asdu.TypeId.{p_me_na_1, p_me_nb_1, p_me_nc_1, p_ac_na_1, m_ei_na_1}
use go_iecp.Asdu.Identifier.{CauseOfTransmission}
use go_iecp.Asdu.Information.{
  QualifierOfCommand, QualifierOfSetpointCmd, QualifierOfParameterMv, CauseOfInitial,
}
use go_iecp.Asdu.Message.{Params, Asdu, new_asdu}
use go_iecp.Asdu.Codec.{with_info_obj, append_bytes, decode_info_obj_addr}
use go_iecp.Asdu.Monitor.{Element, element_of, append_infos, decode_infos, Layout}
use go_iecp.Asdu.Monitor.RoundTrip.{Readable, started, decode_infos-append_infos}
use go_iecp.Asdu.Monitor.Layouts.{Fits, received, Decodable, element_of-Readable}
use go_iecp.Asdu.Command
use go_iecp.Asdu.Command.{
  SingleCommandInfo, DoubleCommandInfo, SetpointCommandInfo, SetpointCommandFloatInfo,
  BitsString32CommandInfo, Parameter, ParameterActivationInfo,
}
use go_iecp.Asdu.Command.Fields.{
  SingleFits, DoubleFits, SetpointFits, FloatFits, BitsFits, ParameterFits, ParameterFloatFits,
  ActivationFits, InitialFits, arrives, double_arrives, parameter_arrives, single_cmd-Decodable,
  double_cmd-Decodable, step_cmd-Decodable, setpoint_cmd_normal-Decodable,
  setpoint_cmd_scaled-Decodable, setpoint_cmd_float-Decodable, bits_string32_cmd-Decodable,
  parameter_normal-Decodable, parameter_scaled-Decodable, parameter_float-Decodable,
  parameter_activation-Decodable, end_of_initialization-Decodable,
}
use go_iecp.Asdu.Command.Functions
use go_iecp.Asdu.Command.Functions.{
  send_command, read_command, get_command, caused, initialized, get_single_cmd, get_double_cmd,
  get_step_cmd, get_setpoint_cmd_normal, get_setpoint_cmd_scaled, get_setpoint_cmd_float,
  get_bits_string32_cmd, get_parameter_normal, get_parameter_scaled, get_parameter_float,
  get_parameter_activation, get_end_of_initialization,
}

module _ {I : Type 0} (el : Element I) (type_id : ℕ) where
  send_command-append_infos :
      (p : Params) (coa : CauseOfTransmission) (ca : ℕ) (v : I) {b : Asdu}
      → send_command el p type_id coa ca v ≡ ok b
      → append_infos el type_id false false (v ∷ []) (started p type_id false coa ca 1) ≡ ok b
  unfolding send_command new_asdu
  send_command-append_infos p coa ca v h = ground (arith, h)

  read_command-decode_infos :
      (a : Asdu) {v : I}
      → decode_infos el type_id false 1 false 0 a ≡ some (v ∷ [])
      → read_command el type_id (decode_info_obj_addr a) ≡ some v
  unfolding decode_infos
  read_command-decode_infos a h = ground (arith, h)

  get_command-send_command :
      (Fit : I → Type 0) (arrives : ℕ → I → I)
      → Readable el type_id Fit arrives
      → (p : Params) (coa : CauseOfTransmission) (ca : ℕ) (v : I) {b : Asdu}
      → send_command el p type_id coa ca v ≡ ok b
      → Fit v
      → get_command el b ≡ some (arrives (el.ioa v) v)
  unfolding get_command append_bytes new_asdu
  get_command-send_command Fit arrives readable p coa ca v h fits =
      let a = started p type_id false coa ca 1 in
      let (body, b_eq, reads) =
        decode_infos-append_infos el type_id Fit arrives readable (v ∷ []) false false 0 a
          (send_command-append_infos p coa ca v h) (fits, tt) in
      ap (get_command el) b_eq
      ∙ ap (λ l. read_command el type_id (decode_info_obj_addr (with_info_obj a l)))
          (sym (append_nil body))
      ∙ read_command-decode_infos (with_info_obj a (body ++ [])) (reads [])

pub data CommandKind : Type 0 where
  single_kind double_kind step_kind setpoint_normal_kind setpoint_scaled_kind setpoint_float_kind
        bits_kind parameter_normal_kind parameter_scaled_kind parameter_float_kind activation_kind
        initialization_kind :
      CommandKind

abbrev pub Object : CommandKind → Type 0
Object single_kind = SingleCommandInfo
Object double_kind = DoubleCommandInfo
Object step_kind = DoubleCommandInfo
Object setpoint_normal_kind = SetpointCommandInfo
Object setpoint_scaled_kind = SetpointCommandInfo
Object setpoint_float_kind = SetpointCommandFloatInfo
Object bits_kind = BitsString32CommandInfo
Object parameter_normal_kind = Parameter ℤ
Object parameter_scaled_kind = Parameter ℤ
Object parameter_float_kind = Parameter ℕ
Object activation_kind = ParameterActivationInfo
Object initialization_kind = ℕ × CauseOfInitial

abbrev FieldsOf : CommandKind → Type 0
FieldsOf single_kind = Bool × QualifierOfCommand
FieldsOf double_kind = ℕ × QualifierOfCommand
FieldsOf step_kind = ℕ × QualifierOfCommand
FieldsOf setpoint_normal_kind = ℤ × QualifierOfSetpointCmd
FieldsOf setpoint_scaled_kind = ℤ × QualifierOfSetpointCmd
FieldsOf setpoint_float_kind = ℕ × QualifierOfSetpointCmd
FieldsOf bits_kind = ℕ
FieldsOf parameter_normal_kind = ℤ × QualifierOfParameterMv
FieldsOf parameter_scaled_kind = ℤ × QualifierOfParameterMv
FieldsOf parameter_float_kind = ℕ × QualifierOfParameterMv
FieldsOf activation_kind = ℕ
FieldsOf initialization_kind = CauseOfInitial

abbrev pub layout : (k : CommandKind) → Layout (Object k) (FieldsOf k)
layout single_kind = Command.single_cmd
layout double_kind = Command.double_cmd
layout step_kind = Command.step_cmd
layout setpoint_normal_kind = Command.setpoint_cmd_normal
layout setpoint_scaled_kind = Command.setpoint_cmd_scaled
layout setpoint_float_kind = Command.setpoint_cmd_float
layout bits_kind = Command.bits_string32_cmd
layout parameter_normal_kind = Command.parameter_normal
layout parameter_scaled_kind = Command.parameter_scaled
layout parameter_float_kind = Command.parameter_float
layout activation_kind = Command.parameter_activation
layout initialization_kind = Command.end_of_initialization

-- The type of a command, which the sender is given, and of the others, which have one.
abbrev pub type_of : CommandKind → ℕ → ℕ
type_of single_kind type_id = type_id
type_of double_kind type_id = type_id
type_of step_kind type_id = type_id
type_of setpoint_normal_kind type_id = type_id
type_of setpoint_scaled_kind type_id = type_id
type_of setpoint_float_kind type_id = type_id
type_of bits_kind type_id = type_id
type_of parameter_normal_kind type_id = p_me_na_1
type_of parameter_scaled_kind type_id = p_me_nb_1
type_of parameter_float_kind type_id = p_me_nc_1
type_of activation_kind type_id = p_ac_na_1
type_of initialization_kind type_id = m_ei_na_1

abbrev pub sent : (k : CommandKind) → Params → CauseOfTransmission → ℕ → ℕ → Object k → Result Asdu
sent single_kind p coa ca type_id info = Functions.single_cmd p coa ca type_id info
sent double_kind p coa ca type_id info = Functions.double_cmd p coa ca type_id info
sent step_kind p coa ca type_id info = Functions.step_cmd p coa ca type_id info
sent setpoint_normal_kind p coa ca type_id info =
    Functions.setpoint_cmd_normal p coa ca type_id info
sent setpoint_scaled_kind p coa ca type_id info =
    Functions.setpoint_cmd_scaled p coa ca type_id info
sent setpoint_float_kind p coa ca type_id info = Functions.setpoint_cmd_float p coa ca type_id info
sent bits_kind p coa ca type_id info = Functions.bits_string32_cmd p coa ca type_id info
sent parameter_normal_kind p coa ca type_id info = Functions.parameter_normal p coa ca info
sent parameter_scaled_kind p coa ca type_id info = Functions.parameter_scaled p coa ca info
sent parameter_float_kind p coa ca type_id info = Functions.parameter_float p coa ca info
sent activation_kind p coa ca type_id info = Functions.parameter_activation p coa ca info
sent initialization_kind p coa ca type_id info =
    Functions.end_of_initialization p coa ca info.0 info.1

abbrev pub got : (k : CommandKind) → Asdu → Option (Object k)
got single_kind = get_single_cmd
got double_kind = get_double_cmd
got step_kind = get_step_cmd
got setpoint_normal_kind = get_setpoint_cmd_normal
got setpoint_scaled_kind = get_setpoint_cmd_scaled
got setpoint_float_kind = get_setpoint_cmd_float
got bits_kind = get_bits_string32_cmd
got parameter_normal_kind = get_parameter_normal
got parameter_scaled_kind = get_parameter_scaled
got parameter_float_kind = get_parameter_float
got activation_kind = get_parameter_activation
got initialization_kind = get_end_of_initialization

-- The ranges of the Go types and of the fields of the qualifiers.
abbrev pub FieldsFit : (k : CommandKind) → Object k → Type 0
FieldsFit single_kind = SingleFits
FieldsFit double_kind = DoubleFits
FieldsFit step_kind = DoubleFits
FieldsFit setpoint_normal_kind = SetpointFits
FieldsFit setpoint_scaled_kind = SetpointFits
FieldsFit setpoint_float_kind = FloatFits
FieldsFit bits_kind = BitsFits
FieldsFit parameter_normal_kind = ParameterFits
FieldsFit parameter_scaled_kind = ParameterFits
FieldsFit parameter_float_kind = ParameterFloatFits
FieldsFit activation_kind = ActivationFits
FieldsFit initialization_kind = InitialFits

abbrev pub fields_arrive : (k : CommandKind) → Object k → FieldsOf k
fields_arrive single_kind = arrives
fields_arrive double_kind = double_arrives
fields_arrive step_kind = double_arrives
fields_arrive setpoint_normal_kind = arrives
fields_arrive setpoint_scaled_kind = arrives
fields_arrive setpoint_float_kind = arrives
fields_arrive bits_kind = λ c. c.value
fields_arrive parameter_normal_kind = parameter_arrives
fields_arrive parameter_scaled_kind = parameter_arrives
fields_arrive parameter_float_kind = parameter_arrives
fields_arrive activation_kind = λ c. c.qpa
fields_arrive initialization_kind = λ c. c.1

fields_arrive-Decodable :
    (k : CommandKind) (t : ℕ) → Decodable (layout k) t (FieldsFit k) (fields_arrive k)
fields_arrive-Decodable single_kind t = single_cmd-Decodable t
fields_arrive-Decodable double_kind t = double_cmd-Decodable t
fields_arrive-Decodable step_kind t = step_cmd-Decodable t
fields_arrive-Decodable setpoint_normal_kind t = setpoint_cmd_normal-Decodable t
fields_arrive-Decodable setpoint_scaled_kind t = setpoint_cmd_scaled-Decodable t
fields_arrive-Decodable setpoint_float_kind t = setpoint_cmd_float-Decodable t
fields_arrive-Decodable bits_kind t = bits_string32_cmd-Decodable t
fields_arrive-Decodable parameter_normal_kind t = parameter_normal-Decodable t
fields_arrive-Decodable parameter_scaled_kind t = parameter_scaled-Decodable t
fields_arrive-Decodable parameter_float_kind t = parameter_float-Decodable t
fields_arrive-Decodable activation_kind t = parameter_activation-Decodable t
fields_arrive-Decodable initialization_kind t = end_of_initialization-Decodable t

module _ (k : CommandKind) (type_id : ℕ) where
  -- An object in its ranges, with a time tag of the octets that the type calls for.
  abbrev pub IsSendable : Object k → Type 0
  IsSendable = Fits (layout k) (type_of k type_id) (FieldsFit k) (fields_arrive k)

  abbrev pub arrived : Object k → Object k
  arrived v =
      received (layout k) (type_of k type_id) (FieldsFit k) (fields_arrive k)
        ((element_of (layout k)).ioa v) v

caused-ok : (c : Bool) (r : Result Asdu) {b : Asdu} → caused c r ≡ ok b → r ≡ ok b
caused-ok true r h = h
caused-ok false r h = absurd (ground arith)

-- The cause that goes out: the end of initialization has its own.
abbrev cause_of : CommandKind → CauseOfTransmission → CauseOfTransmission
cause_of initialization_kind coa = initialized coa
cause_of _ coa = coa

sent-send_command :
    (k : CommandKind) (p : Params) (coa : CauseOfTransmission) (ca type_id : ℕ) (v : Object k)
    {b : Asdu}
    → sent k p coa ca type_id v ≡ ok b
    → send_command (element_of (layout k)) p (type_of k type_id) (cause_of k coa) ca v ≡ ok b
unfolding Functions.single_cmd Functions.double_cmd Functions.step_cmd Functions.setpoint_cmd_normal
    Functions.setpoint_cmd_scaled Functions.setpoint_cmd_float Functions.bits_string32_cmd
    Functions.parameter_normal Functions.parameter_scaled Functions.parameter_float
    Functions.parameter_activation Functions.end_of_initialization
sent-send_command single_kind p coa ca t v h = caused-ok _ _ h
sent-send_command double_kind p coa ca t v h = caused-ok _ _ h
sent-send_command step_kind p coa ca t v h = caused-ok _ _ h
sent-send_command setpoint_normal_kind p coa ca t v h = caused-ok _ _ h
sent-send_command setpoint_scaled_kind p coa ca t v h = caused-ok _ _ h
sent-send_command setpoint_float_kind p coa ca t v h = caused-ok _ _ h
sent-send_command bits_kind p coa ca t v h = caused-ok _ _ h
sent-send_command parameter_normal_kind p coa ca t v h = caused-ok _ _ h
sent-send_command parameter_scaled_kind p coa ca t v h = caused-ok _ _ h
sent-send_command parameter_float_kind p coa ca t v h = caused-ok _ _ h
sent-send_command activation_kind p coa ca t v h = caused-ok _ _ h
sent-send_command initialization_kind p coa ca t v h = h

got-get_command : (k : CommandKind) (a : Asdu) → got k a ≡ get_command (element_of (layout k)) a
unfolding get_single_cmd get_double_cmd get_step_cmd get_setpoint_cmd_normal get_setpoint_cmd_scaled
    get_setpoint_cmd_float get_bits_string32_cmd get_parameter_normal get_parameter_scaled
    get_parameter_float get_parameter_activation get_end_of_initialization
got-get_command single_kind a = refl
got-get_command double_kind a = refl
got-get_command step_kind a = refl
got-get_command setpoint_normal_kind a = refl
got-get_command setpoint_scaled_kind a = refl
got-get_command setpoint_float_kind a = refl
got-get_command bits_kind a = refl
got-get_command parameter_normal_kind a = refl
got-get_command parameter_scaled_kind a = refl
got-get_command parameter_float_kind a = refl
got-get_command activation_kind a = refl
got-get_command initialization_kind a = refl

-- The command of any kind, the measured value parameter, the parameter activation and the end of
-- initialization that its sender hands over, with its fields in their ranges and with a time tag of
-- the octets that the type calls for, is what the getter reads from the ASDU, without a panic: the
-- address, the value and the qualifier, and the time where the type has one; of a double or a step
-- command the two low bits of the value.
pub command_got-sent :
    (k : CommandKind) (p : Params) (coa : CauseOfTransmission) (ca type_id : ℕ) (v : Object k)
    {b : Asdu}
    → IsSendable k type_id v
    → sent k p coa ca type_id v ≡ ok b
    → got k b ≡ some (arrived k type_id v)
command_got-sent k p coa ca t v {b} fits h =
    got-get_command k b
    ∙ get_command-send_command (element_of (layout k)) (type_of k t) (IsSendable k t)
        (received (layout k) (type_of k t) (FieldsFit k) (fields_arrive k))
        (element_of-Readable (layout k) (type_of k t) (FieldsFit k) (fields_arrive k)
          (fields_arrive-Decodable k (type_of k t)))
        p (cause_of k coa) ca v (sent-send_command k p coa ca t v h) fits
