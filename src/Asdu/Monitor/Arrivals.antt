-- ===== src/Asdu/Monitor/Arrivals.antt =====
-- What the getters of asdu/mproc.go read of the ASDUs that its senders hand over, for every kind of
-- information object that an ASDU may have several of.
use go_iecp.Shared.{ℕ, ℤ, ◌≡◌, ◌∙◌, refl, Bool, true, false, List, Option, some, arith, All}
use go_iecp.Asdu.Error.{Result, ok}
use go_iecp.Asdu.Identifier.{CauseOfTransmission}
use go_iecp.Asdu.TypeId.{m_ps_na_1}
use go_iecp.Asdu.Information.{StepPosition}
use go_iecp.Asdu.Codec.{BinaryCounterReading}
use go_iecp.Asdu.Message.{Params, Asdu}
use go_iecp.Asdu.Monitor.{Layout, element_of, send_infos, get_infos}
use go_iecp.Asdu.Monitor.RoundTrip.{numbered, get_infos-send_infos}
use go_iecp.Asdu.Monitor.Layouts.{Fits, received, Decodable, element_of-Readable}
use go_iecp.Asdu.Monitor.Elements
use go_iecp.Asdu.Monitor.Elements.{
  BinaryCounterReadingInfo, BitString32Info, DoublePointInfo, EventOfProtectionEquipmentInfo,
  MeasuredValueFloatInfo, MeasuredValueNormalInfo, MeasuredValueScaledInfo,
  PackedSinglePointWithScdInfo, SinglePointInfo, StepPositionInfo,
}
use go_iecp.Asdu.Monitor.Fields.{
  CounterFits, DoubleFits, EventFits, FloatFits, ScdFits, SingleFits, StepFits, Word16Fits,
  Word32Fits, arrives, double_arrives, event_arrives, float_arrives, normal_arrives, scd_arrives,
  single_arrives, single_point-Decodable, double_point-Decodable, step_position-Decodable,
  bit_string32-Decodable, measured_value_normal-Decodable, measured_value_scaled-Decodable,
  measured_value_float-Decodable, integrated_totals-Decodable,
  event_of_protection_equipment-Decodable, packed_single_point_with_scd-Decodable,
}
use go_iecp.Asdu.Monitor.Senders.{
  permitted, single_typed, double_typed, step_typed, bit_string32_typed,
  measured_value_normal_typed, measured_value_scaled_typed, measured_value_float_typed,
  integrated_totals_typed, event_of_protection_equipment_typed, packed_single_point_with_scd,
}
use go_iecp.Asdu.Monitor.Getters.{
  get_single_point, get_double_point, get_step_position, get_bit_string32,
  get_measured_value_normal, get_measured_value_scaled, get_measured_value_float,
  get_integrated_totals, get_event_of_protection_equipment, get_packed_single_point_with_scd,
}

pub data Kind : Type 0 where
  single_kind double_kind step_kind bits_kind normal_kind scaled_kind float_kind totals_kind
        event_kind scd_kind :
      Kind

abbrev pub Object : Kind → Type 0
Object single_kind = SinglePointInfo
Object double_kind = DoublePointInfo
Object step_kind = StepPositionInfo
Object bits_kind = BitString32Info
Object normal_kind = MeasuredValueNormalInfo
Object scaled_kind = MeasuredValueScaledInfo
Object float_kind = MeasuredValueFloatInfo
Object totals_kind = BinaryCounterReadingInfo
Object event_kind = EventOfProtectionEquipmentInfo
Object scd_kind = PackedSinglePointWithScdInfo

-- The fields that are decoded of a kind.
abbrev FieldsOf : Kind → Type 0
FieldsOf single_kind = Bool × ℕ
FieldsOf double_kind = ℕ × ℕ
FieldsOf step_kind = StepPosition × ℕ
FieldsOf bits_kind = ℕ × ℕ
FieldsOf normal_kind = ℤ × ℕ
FieldsOf scaled_kind = ℤ × ℕ
FieldsOf float_kind = ℕ × ℕ
FieldsOf totals_kind = BinaryCounterReading
FieldsOf event_kind = (ℕ × ℕ) × ℕ
FieldsOf scd_kind = ℕ × ℕ

abbrev pub layout : (k : Kind) → Layout (Object k) (FieldsOf k)
layout single_kind = Elements.single_point
layout double_kind = Elements.double_point
layout step_kind = Elements.step_position
layout bits_kind = Elements.bit_string32
layout normal_kind = Elements.measured_value_normal
layout scaled_kind = Elements.measured_value_scaled
layout float_kind = Elements.measured_value_float
layout totals_kind = Elements.integrated_totals
layout event_kind = Elements.event_of_protection_equipment
layout scd_kind = Elements.packed_single_point_with_scd

-- The unexported sender of a kind; events go without a sequence, and one kind has a single type.
abbrev pub sent :
    (k : Kind) → Params → CauseOfTransmission → ℕ → ℕ → Bool → List (Object k) → Result Asdu
sent single_kind p coa ca type_id sequence infos = single_typed p coa ca type_id sequence infos
sent double_kind p coa ca type_id sequence infos = double_typed p coa ca type_id sequence infos
sent step_kind p coa ca type_id sequence infos = step_typed p coa ca type_id sequence infos
sent bits_kind p coa ca type_id sequence infos = bit_string32_typed p coa ca type_id sequence infos
sent normal_kind p coa ca type_id sequence infos =
    measured_value_normal_typed p coa ca type_id sequence infos
sent scaled_kind p coa ca type_id sequence infos =
    measured_value_scaled_typed p coa ca type_id sequence infos
sent float_kind p coa ca type_id sequence infos =
    measured_value_float_typed p coa ca type_id sequence infos
sent totals_kind p coa ca type_id sequence infos =
    integrated_totals_typed p coa ca type_id sequence infos
sent event_kind p coa ca type_id sequence infos =
    event_of_protection_equipment_typed p coa ca type_id infos
sent scd_kind p coa ca type_id sequence infos = packed_single_point_with_scd p coa ca sequence infos

abbrev pub in_sequence : Kind → Bool → Bool
in_sequence event_kind sequence = false
in_sequence _ sequence = sequence

abbrev pub type_of : Kind → ℕ → ℕ
type_of scd_kind type_id = m_ps_na_1
type_of _ type_id = type_id

abbrev pub got : (k : Kind) → Asdu → Option (List (Object k))
got single_kind = get_single_point
got double_kind = get_double_point
got step_kind = get_step_position
got bits_kind = get_bit_string32
got normal_kind = get_measured_value_normal
got scaled_kind = get_measured_value_scaled
got float_kind = get_measured_value_float
got totals_kind = get_integrated_totals
got event_kind = get_event_of_protection_equipment
got scd_kind = get_packed_single_point_with_scd

-- The ranges of the Go types.
abbrev pub FieldsFit : (k : Kind) → Object k → Type 0
FieldsFit single_kind = SingleFits
FieldsFit double_kind = DoubleFits
FieldsFit step_kind = StepFits
FieldsFit bits_kind = Word32Fits
FieldsFit normal_kind = Word16Fits
FieldsFit scaled_kind = Word16Fits
FieldsFit float_kind = FloatFits
FieldsFit totals_kind = CounterFits
FieldsFit event_kind = EventFits
FieldsFit scd_kind = ScdFits

-- The fields that arrive.
abbrev pub fields_arrive : (k : Kind) → ℕ → Object k → FieldsOf k
fields_arrive single_kind t = single_arrives
fields_arrive double_kind t = double_arrives
fields_arrive step_kind t = arrives
fields_arrive bits_kind t = arrives
fields_arrive normal_kind t = normal_arrives t
fields_arrive scaled_kind t = arrives
fields_arrive float_kind t = float_arrives
fields_arrive totals_kind t = λ v. v.value
fields_arrive event_kind t = event_arrives
fields_arrive scd_kind t = scd_arrives

fields_arrive-Decodable :
    (k : Kind) (t : ℕ) → Decodable (layout k) t (FieldsFit k) (fields_arrive k t)
fields_arrive-Decodable single_kind t = single_point-Decodable t
fields_arrive-Decodable double_kind t = double_point-Decodable t
fields_arrive-Decodable step_kind t = step_position-Decodable t
fields_arrive-Decodable bits_kind t = bit_string32-Decodable t
fields_arrive-Decodable normal_kind t = measured_value_normal-Decodable t
fields_arrive-Decodable scaled_kind t = measured_value_scaled-Decodable t
fields_arrive-Decodable float_kind t = measured_value_float-Decodable t
fields_arrive-Decodable totals_kind t = integrated_totals-Decodable t
fields_arrive-Decodable event_kind t = event_of_protection_equipment-Decodable t
fields_arrive-Decodable scd_kind t = packed_single_point_with_scd-Decodable t

module _ (k : Kind) (type_id : ℕ) where
  -- An object in its types' ranges, with a time tag of the octets that the type calls for.
  abbrev pub IsSendable : Object k → Type 0
  IsSendable =
      Fits (layout k) (type_of k type_id) (FieldsFit k) (fields_arrive k (type_of k type_id))

  abbrev pub arrived : Bool → List (Object k) → List (Object k)
  arrived sequence =
      numbered (element_of (layout k)) (type_of k type_id) IsSendable
        (received (layout k) (type_of k type_id) (FieldsFit k)
          (fields_arrive k (type_of k type_id)))
        (in_sequence k sequence) false 0

pub permitted-ok : (c : Bool) (r : Result Asdu) {b : Asdu} → permitted c r ≡ ok b → r ≡ ok b
permitted-ok true r h = h
permitted-ok false r h = absurd (ground arith)

pub sent-send_infos :
    (k : Kind) (p : Params) (coa : CauseOfTransmission) (ca type_id : ℕ) (sequence : Bool)
    (infos : List (Object k)) {b : Asdu}
    → sent k p coa ca type_id sequence infos ≡ ok b
    → send_infos (element_of (layout k)) p (type_of k type_id) (in_sequence k sequence) coa ca infos
      ≡ ok b
unfolding single_typed double_typed step_typed bit_string32_typed measured_value_normal_typed
    measured_value_scaled_typed measured_value_float_typed integrated_totals_typed
    event_of_protection_equipment_typed packed_single_point_with_scd
sent-send_infos single_kind p coa ca t sequence infos h = h
sent-send_infos double_kind p coa ca t sequence infos h = h
sent-send_infos step_kind p coa ca t sequence infos h = h
sent-send_infos bits_kind p coa ca t sequence infos h = h
sent-send_infos normal_kind p coa ca t sequence infos h = h
sent-send_infos scaled_kind p coa ca t sequence infos h = h
sent-send_infos float_kind p coa ca t sequence infos h = h
sent-send_infos totals_kind p coa ca t sequence infos h = h
sent-send_infos event_kind p coa ca t sequence infos h = permitted-ok _ _ h
sent-send_infos scd_kind p coa ca t sequence infos h = permitted-ok _ _ h

got-get_infos : (k : Kind) (a : Asdu) → got k a ≡ get_infos (element_of (layout k)) a
unfolding get_single_point get_double_point get_step_position get_bit_string32
    get_measured_value_normal get_measured_value_scaled get_measured_value_float
    get_integrated_totals get_event_of_protection_equipment get_packed_single_point_with_scd
got-get_infos single_kind a = refl
got-get_infos double_kind a = refl
got-get_infos step_kind a = refl
got-get_infos bits_kind a = refl
got-get_infos normal_kind a = refl
got-get_infos scaled_kind a = refl
got-get_infos float_kind a = refl
got-get_infos totals_kind a = refl
got-get_infos event_kind a = refl
got-get_infos scd_kind a = refl

-- The objects of an ASDU that a sender of any of the ten kinds hands over, whose fields are in their
-- types' ranges and whose time tags have the octets that the type calls for, are what the getter
-- reads from it, in their order: with their own addresses, or in a sequence with addresses that
-- count up from the first; the getter does not panic. A quality arrives as far as the octet has
-- room for it, and a type without a time tag or a quality loses it.
pub got-sent :
    (k : Kind) (p : Params) (coa : CauseOfTransmission) (ca type_id : ℕ) (sequence : Bool)
    (infos : List (Object k)) {b : Asdu}
    → sent k p coa ca type_id sequence infos ≡ ok b
    → All (IsSendable k type_id) infos
    → got k b ≡ some (arrived k type_id sequence infos)
got-sent k p coa ca t sequence infos {b} h fits =
    got-get_infos k b
    ∙ get_infos-send_infos (element_of (layout k)) (type_of k t) (IsSendable k t)
        (received (layout k) (type_of k t) (FieldsFit k) (fields_arrive k (type_of k t)))
        (element_of-Readable (layout k) (type_of k t) (FieldsFit k) (fields_arrive k (type_of k t))
          (fields_arrive-Decodable k _))
        p (in_sequence k sequence) coa ca infos (sent-send_infos k p coa ca t sequence infos h) fits
