-- ===== src/Asdu/Monitor/Fields.antt =====
-- The fields of each information object of asdu/mproc.go are decoded from their octets.
use go_iecp.Shared.{
  ℕ, ◌≡◌, ◌<◌, ◌+◌, ◌*◌, ◌/◌, ◌%◌, refl, Bool, ◌∷◌, ◌++◌, bit_and, bit_or, arith, ℤ, InRange, ◌==◌,
  if◌then◌else◌,
}
use go_iecp.Shared.Bits.{agree, table, bit_and_01, bit_and_03, bit_or-shift}
use go_iecp.Asdu.TypeId.{m_me_nd_1}
use go_iecp.Asdu.Information.{step_position_value}
use go_iecp.Asdu.Information.Laws.{parse_step_position-step_position_value}
use go_iecp.Asdu.Codec.{octets16}
use go_iecp.Asdu.Codec.Front.{
  decode_byte-front, decode_cp16-front, decode_bits_string32-front, decode_status-front,
  decode_normalize-front, decode_scaled-front, decode_counter-front,
}
use go_iecp.Asdu.Monitor.Layouts.{Decodable}
use go_iecp.Asdu.Monitor.Elements.{
  Info, SinglePointInfo, DoublePointInfo, StepPositionInfo, MeasuredValueNormalInfo,
  MeasuredValueFloatInfo, BinaryCounterReadingInfo, ProtectionInfo, packed_start_events,
  packed_output_circuit_info, PackedSinglePointWithScdInfo, single_point, double_point,
  step_position, bit_string32, measured_value_normal, measured_value_scaled, measured_value_float,
  integrated_totals, event_of_protection_equipment, packed_single_point_with_scd,
}

bit_and_f0 : (b : ℕ) → b < 256 → bit_and b 0xf0 ≡ b / 16 * 16
unfolding agree
bit_and_f0 = table 256 _ _ refl

bit_and_f8 : (b : ℕ) → b < 256 → bit_and b 0xf8 ≡ b / 8 * 8
unfolding agree
bit_and_f8 = table 256 _ _ refl

-- The quality of a float that is masked twice.
twice_f1 : (b : ℕ) → b < 256 → bit_and (bit_and b 0xf1) 0xf1 ≡ bit_and b 0xf1
unfolding agree
twice_f1 = table 256 _ _ refl

-- A value of four bits and a quality in one octet.
quality_octet :
    (v q : ℕ)
    → v < 16
    → q < 256
    → (bit_or v (bit_and q 0xf0) ≡ v + bit_and q 0xf0)
      × (bit_and (v + bit_and q 0xf0) 0xf0 ≡ bit_and q 0xf0)
quality_octet v q hv hq =
    ground (arith, bit_and_f0 q hq, bit_or-shift 4 v (q / 16), bit_and_f0 (v + q / 16 * 16))

abbrev pub IsOctet : ℕ → Type 0
IsOctet b = b < 256

bit_and_01_set : (v q : ℕ) → v < 2 → q < 256 → bit_and (v + bit_and q 0xf0) 0x01 ≡ v
bit_and_01_set v q hv hq = ground (arith, bit_and_f0 q hq, bit_and_01 (v + q / 16 * 16))

bit_and_03_set : (v q : ℕ) → v < 4 → q < 256 → bit_and (v + bit_and q 0xf0) 0x03 ≡ v
bit_and_03_set v q hv hq = ground (arith, bit_and_f0 q hq, bit_and_03 (v + q / 16 * 16))

-- For each kind: the ranges of the Go types, and the fields that arrive.
abbrev pub SingleFits : SinglePointInfo → Type 0
SingleFits v = v.qds < 256

abbrev pub single_arrives : SinglePointInfo → Bool × ℕ
single_arrives v = (v.value, bit_and v.qds 0xf0)

pub single_point-Decodable : (t : ℕ) → Decodable single_point t SingleFits single_arrives
unfolding single_point
single_point-Decodable t a v rest h = ground (
  arith,
  quality_octet 0 v.qds,
  quality_octet 1 v.qds,
  bit_and_01_set 0 v.qds,
  bit_and_01_set 1 v.qds,
  decode_byte-front a rest (bit_or (if v.value then 1 else 0) (bit_and v.qds 0xf0)),
)

abbrev pub DoubleFits : DoublePointInfo → Type 0
DoubleFits v = (v.value < 256) × (v.qds < 256)

abbrev pub double_arrives : DoublePointInfo → ℕ × ℕ
double_arrives v = (bit_and v.value 0x03, bit_and v.qds 0xf0)

pub double_point-Decodable : (t : ℕ) → Decodable double_point t DoubleFits double_arrives
unfolding double_point
double_point-Decodable t a v rest (hv, hq) = ground (
  arith,
  bit_and_03 v.value hv,
  quality_octet (v.value % 4) v.qds,
  bit_and_03_set (v.value % 4) v.qds,
  decode_byte-front a rest (bit_or (bit_and v.value 0x03) (bit_and v.qds 0xf0)),
)

abbrev pub StepFits : StepPositionInfo → Type 0
StepFits v = InRange 64 v.value.val

abbrev pub arrives : {V : Type 0} → Info V → V × ℕ
arrives v = (v.value, v.qds)

pub step_position-Decodable : (t : ℕ) → Decodable step_position t StepFits arrives
unfolding step_position
step_position-Decodable t a v rest h = ground (
  arith,
  parse_step_position-step_position_value v.value h,
  decode_byte-front a (v.qds ∷ rest) (step_position_value v.value),
  decode_byte-front a rest v.qds,
)

abbrev pub Word32Fits : Info ℕ → Type 0
Word32Fits v = v.value < 4294967296

pub bit_string32-Decodable : (t : ℕ) → Decodable bit_string32 t Word32Fits arrives
unfolding bit_string32
bit_string32-Decodable t a v rest h =
    ground
      (arith, decode_bits_string32-front a (v.qds ∷ rest) v.value h, decode_byte-front a rest v.qds)

abbrev pub Word16Fits : Info ℤ → Type 0
Word16Fits v = InRange 32768 v.value

-- M_ME_ND_1 does not carry the quality.
abbrev pub normal_arrives : ℕ → MeasuredValueNormalInfo → ℤ × ℕ
normal_arrives t v = (v.value, if t == m_me_nd_1 then 0 else v.qds)

pub measured_value_normal-Decodable :
    (t : ℕ) → Decodable measured_value_normal t Word16Fits (normal_arrives t)
unfolding measured_value_normal
measured_value_normal-Decodable t a v rest h = ground (
  arith,
  decode_normalize-front a rest v.value h,
  decode_normalize-front a (v.qds ∷ rest) v.value h,
  decode_byte-front a rest v.qds,
)

pub measured_value_scaled-Decodable : (t : ℕ) → Decodable measured_value_scaled t Word16Fits arrives
unfolding measured_value_scaled
measured_value_scaled-Decodable t a v rest h =
    ground (arith, decode_scaled-front a (v.qds ∷ rest) v.value h, decode_byte-front a rest v.qds)

abbrev pub FloatFits : MeasuredValueFloatInfo → Type 0
FloatFits v = (v.value < 4294967296) × (v.qds < 256)

abbrev pub float_arrives : MeasuredValueFloatInfo → ℕ × ℕ
float_arrives v = (v.value, bit_and v.qds 0xf1)

pub measured_value_float-Decodable :
    (t : ℕ) → Decodable measured_value_float t FloatFits float_arrives
unfolding measured_value_float
measured_value_float-Decodable t a v rest (hv, hq) = ground (
  arith,
  twice_f1 v.qds hq,
  decode_bits_string32-front a (bit_and v.qds 0xf1 ∷ rest) v.value hv,
  decode_byte-front a rest (bit_and v.qds 0xf1),
)

abbrev pub CounterFits : BinaryCounterReadingInfo → Type 0
CounterFits v = InRange 2147483648 v.value.counter_reading × (v.value.seq_number < 32)

pub integrated_totals-Decodable : (t : ℕ) → Decodable integrated_totals t CounterFits (λ v. v.value)
unfolding integrated_totals
integrated_totals-Decodable t a v rest (h, s) = decode_counter-front a rest v.value h s

abbrev pub EventFits : ProtectionInfo → Type 0
EventFits v = (v.event < 256) × (v.qdp < 256) × (v.msec < 65536)

abbrev pub event_arrives : ProtectionInfo → (ℕ × ℕ) × ℕ
event_arrives v = ((bit_and v.event 0x03, bit_and v.qdp 0xf8), v.msec)

-- An event of two bits and a quality in one octet.
event_octet :
    (v q : ℕ)
    → v < 4
    → q < 256
    → (bit_and (bit_or v (bit_and q 0xf8)) 0x03 ≡ v)
      × (bit_and (bit_or v (bit_and q 0xf8)) 0xf8 ≡ bit_and q 0xf8)
event_octet v q hv hq = ground (
  arith,
  bit_and_f8 q hq,
  bit_or-shift 3 v (q / 8),
  bit_and_03 (v + q / 8 * 8),
  bit_and_f8 (v + q / 8 * 8),
)

pub event_of_protection_equipment-Decodable :
    (t : ℕ) → Decodable event_of_protection_equipment t EventFits event_arrives
unfolding event_of_protection_equipment
event_of_protection_equipment-Decodable t a v rest (he, hq, hm) = ground (
  arith,
  bit_and_03 v.event he,
  event_octet (v.event % 4) v.qdp,
  decode_byte-front a (octets16 v.msec ++ rest)
      (bit_or (bit_and v.event 0x03) (bit_and v.qdp 0xf8)),
  decode_cp16-front a rest v.msec hm,
)

abbrev pub packed_arrives : ProtectionInfo → (ℕ × ℕ) × ℕ
packed_arrives v = ((v.event, bit_and v.qdp 0xf8), v.msec)

twice_f8 : (b : ℕ) → b < 256 → bit_and (bit_and b 0xf8) 0xf8 ≡ bit_and b 0xf8
unfolding agree
twice_f8 = table 256 _ _ refl

pub packed_start_events-Decodable :
    (t : ℕ) → Decodable packed_start_events t EventFits packed_arrives
unfolding packed_start_events
packed_start_events-Decodable t a v rest (he, hq, hm) = ground (
  arith,
  twice_f8 v.qdp hq,
  decode_byte-front a (bit_and v.qdp 0xf8 ∷ (octets16 v.msec ++ rest)) v.event,
  decode_byte-front a (octets16 v.msec ++ rest) (bit_and v.qdp 0xf8),
  decode_cp16-front a rest v.msec hm,
)

pub packed_output_circuit_info-Decodable :
    (t : ℕ) → Decodable packed_output_circuit_info t EventFits packed_arrives
unfolding packed_output_circuit_info packed_start_events
packed_output_circuit_info-Decodable = packed_start_events-Decodable

abbrev pub ScdFits : PackedSinglePointWithScdInfo → Type 0
ScdFits v = v.scd < 4294967296

abbrev pub scd_arrives : PackedSinglePointWithScdInfo → ℕ × ℕ
scd_arrives v = (v.scd, v.qds)

pub packed_single_point_with_scd-Decodable :
    (t : ℕ) → Decodable packed_single_point_with_scd t ScdFits scd_arrives
unfolding packed_single_point_with_scd
packed_single_point_with_scd-Decodable t a v rest h =
    ground (arith, decode_status-front a (v.qds ∷ rest) v.scd h, decode_byte-front a rest v.qds)
