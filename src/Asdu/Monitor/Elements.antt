-- ===== src/Asdu/Monitor/Elements.antt =====
-- asdu/mproc.go: the information objects of process information, with the octets that their senders
-- append and the order in which their getters decode them. A float32 is its 32 bits.
use go_iecp.Shared.{
  ℕ, Bool, List, [], ◌∷◌, ◌++◌, Option, none, some, bit_and, bit_or, ◌==◌, if◌then◌else◌, ℤ,
  to_word,
}
use go_iecp.Asdu.TypeId.{
  m_bo_na_1, m_bo_ta_1, m_bo_tb_1, m_dp_na_1, m_dp_ta_1, m_dp_tb_1, m_ep_ta_1, m_ep_tb_1, m_ep_tc_1,
  m_ep_td_1, m_ep_te_1, m_ep_tf_1, m_it_na_1, m_it_ta_1, m_it_tb_1, m_me_na_1, m_me_nb_1, m_me_nc_1,
  m_me_nd_1, m_me_ta_1, m_me_tb_1, m_me_tc_1, m_me_td_1, m_me_te_1, m_me_tf_1, m_sp_na_1, m_sp_ta_1,
  m_sp_tb_1, m_st_na_1, m_st_ta_1, m_st_tb_1,
}
use go_iecp.Asdu.Information.{StepPosition, step_position_value, parse_step_position}
use go_iecp.Asdu.Message.{Asdu}
use go_iecp.Asdu.Codec.{
  octets16, octets32, decode_byte, decode_normalize, decode_scaled, decode_bits_string32,
  decode_cp16_time2a, decode_status_and_status_change_detection, BinaryCounterReading,
  counter_octets, decode_binary_counter_reading,
}
use go_iecp.Asdu.Monitor.{Layout, TimeTag, no_tag, three_types, two_types}

pub record Info (V : Type 0) : Type 0 where
  pub ioa : ℕ
  pub value : V
  pub qds : ℕ
  pub time : List ℕ

abbrev pub SinglePointInfo : Type 0
SinglePointInfo = Info Bool

abbrev pub DoublePointInfo : Type 0
DoublePointInfo = Info ℕ

abbrev pub StepPositionInfo : Type 0
StepPositionInfo = Info StepPosition

abbrev pub BitString32Info : Type 0
BitString32Info = Info ℕ

abbrev pub MeasuredValueNormalInfo : Type 0
MeasuredValueNormalInfo = Info ℤ

abbrev pub MeasuredValueScaledInfo : Type 0
MeasuredValueScaledInfo = Info ℤ

abbrev pub MeasuredValueFloatInfo : Type 0
MeasuredValueFloatInfo = Info ℕ

pub record BinaryCounterReadingInfo : Type 0 where
  pub ioa : ℕ
  pub value : BinaryCounterReading
  pub time : List ℕ

-- The event is the start events or the output circuits in the packed objects.
pub record ProtectionInfo : Type 0 where
  pub ioa : ℕ
  pub event : ℕ
  pub qdp : ℕ
  pub msec : ℕ
  pub time : List ℕ

abbrev pub EventOfProtectionEquipmentInfo : Type 0
EventOfProtectionEquipmentInfo = ProtectionInfo

abbrev pub PackedStartEventsOfProtectionEquipmentInfo : Type 0
PackedStartEventsOfProtectionEquipmentInfo = ProtectionInfo

abbrev pub PackedOutputCircuitInfoInfo : Type 0
PackedOutputCircuitInfoInfo = ProtectionInfo

pub record PackedSinglePointWithScdInfo : Type 0 where
  pub ioa : ℕ
  pub scd : ℕ
  pub qds : ℕ

-- A value that is decoded goes through a function.
abbrev pub mapped : {A B : Type 0} → (A → B) → Option (A × Asdu) → Option (B × Asdu)
mapped f none = none
mapped f (some (v, a)) = some (f v, a)

-- The octet behind a value.
abbrev then_byte : {A : Type 0} → Option (A × Asdu) → Option ((A × ℕ) × Asdu)
then_byte none = none
then_byte (some (v, a)) = mapped (λ b. (v, b)) (decode_byte a)

abbrev then_cp16 : {A : Type 0} → Option (A × Asdu) → Option ((A × ℕ) × Asdu)
then_cp16 none = none
then_cp16 (some (v, a)) = mapped (λ b. (v, b)) (decode_cp16_time2a a)

abbrev info : {V : Type 0} → ℕ → V × ℕ → List ℕ → Info V
info x (v, q) t = record { ioa = x; value = v; qds = q; time = t }

abbrev with_qds : {A : Type 0} → Option (A × Asdu) → ℕ → ℕ → Option ((A × ℕ) × Asdu)
with_qds read nd type_id = if type_id == nd then mapped (λ v. (v, 0)) read else then_byte read

unfoldable pub single_point : Layout SinglePointInfo (Bool × ℕ)
single_point = record {
  tag = three_types m_sp_na_1 m_sp_ta_1 m_sp_tb_1;
  addr = λ v. v.ioa;
  time = λ v. v.time;
  fields = λ t v. bit_or (if v.value then 1 else 0) (bit_and v.qds 0xf0) ∷ [];
  decode_fields = λ t a. mapped (λ b. (bit_and b 0x01 == 0x01, bit_and b 0xf0)) (decode_byte a);
  build = λ x. info x;
}

unfoldable pub double_point : Layout DoublePointInfo (ℕ × ℕ)
double_point = record {
  tag = three_types m_dp_na_1 m_dp_ta_1 m_dp_tb_1;
  addr = λ v. v.ioa;
  time = λ v. v.time;
  fields = λ t v. bit_or (bit_and v.value 0x03) (bit_and v.qds 0xf0) ∷ [];
  decode_fields = λ t a. mapped (λ b. (bit_and b 0x03, bit_and b 0xf0)) (decode_byte a);
  build = λ x. info x;
}

unfoldable pub step_position : Layout StepPositionInfo (StepPosition × ℕ)
step_position = record {
  tag = three_types m_st_na_1 m_st_ta_1 m_st_tb_1;
  addr = λ v. v.ioa;
  time = λ v. v.time;
  fields = λ t v. step_position_value v.value ∷ v.qds ∷ [];
  decode_fields = λ t a. then_byte (mapped parse_step_position (decode_byte a));
  build = λ x. info x;
}

unfoldable pub bit_string32 : Layout BitString32Info (ℕ × ℕ)
bit_string32 = record {
  tag = three_types m_bo_na_1 m_bo_ta_1 m_bo_tb_1;
  addr = λ v. v.ioa;
  time = λ v. v.time;
  fields = λ t v. octets32 v.value ++ (v.qds ∷ []);
  decode_fields = λ t a. then_byte (decode_bits_string32 a);
  build = λ x. info x;
}

-- Only M_ME_ND_1 goes without the quality.
abbrev normal_tag : ℕ → TimeTag
normal_tag type_id =
    if type_id == m_me_nd_1 then no_tag else three_types m_me_na_1 m_me_ta_1 m_me_td_1 type_id

unfoldable pub measured_value_normal : Layout MeasuredValueNormalInfo (ℤ × ℕ)
measured_value_normal = record {
  tag = normal_tag;
  addr = λ v. v.ioa;
  time = λ v. v.time;
  fields = λ t v. octets16 (to_word 65536 v.value) ++ (if t == m_me_nd_1 then [] else v.qds ∷ []);
  decode_fields = λ t a. with_qds (decode_normalize a) m_me_nd_1 t;
  build = λ x. info x;
}

unfoldable pub measured_value_scaled : Layout MeasuredValueScaledInfo (ℤ × ℕ)
measured_value_scaled = record {
  tag = three_types m_me_nb_1 m_me_tb_1 m_me_te_1;
  addr = λ v. v.ioa;
  time = λ v. v.time;
  fields = λ t v. octets16 (to_word 65536 v.value) ++ (v.qds ∷ []);
  decode_fields = λ t a. then_byte (decode_scaled a);
  build = λ x. info x;
}

unfoldable pub measured_value_float : Layout MeasuredValueFloatInfo (ℕ × ℕ)
measured_value_float = record {
  tag = three_types m_me_nc_1 m_me_tc_1 m_me_tf_1;
  addr = λ v. v.ioa;
  time = λ v. v.time;
  fields = λ t v. octets32 v.value ++ (bit_and v.qds 0xf1 ∷ []);
  decode_fields = λ t a. mapped (λ f. (f.0, bit_and f.1 0xf1)) (then_byte (decode_bits_string32 a));
  build = λ x. info x;
}

unfoldable pub integrated_totals : Layout BinaryCounterReadingInfo BinaryCounterReading
integrated_totals = record {
  tag = three_types m_it_na_1 m_it_ta_1 m_it_tb_1;
  addr = λ v. v.ioa;
  time = λ v. v.time;
  fields = λ t v. counter_octets v.value;
  decode_fields = λ t a. decode_binary_counter_reading a;
  build = λ x f time. record { ioa = x; value = f; time = time };
}

abbrev protection_info : ℕ → (ℕ × ℕ) × ℕ → List ℕ → ProtectionInfo
protection_info x ((event, qdp), msec) time = record {
  ioa = x;
  event = event;
  qdp = qdp;
  msec = msec;
  time = time;
}

unfoldable pub event_of_protection_equipment : Layout EventOfProtectionEquipmentInfo ((ℕ × ℕ) × ℕ)
event_of_protection_equipment = record {
  tag = two_types m_ep_ta_1 m_ep_td_1;
  addr = λ v. v.ioa;
  time = λ v. v.time;
  fields = λ t v. bit_or (bit_and v.event 0x03) (bit_and v.qdp 0xf8) ∷ octets16 v.msec;
  decode_fields = λ t a. then_cp16 (mapped (λ b. (bit_and b 0x03, bit_and b 0xf8)) (decode_byte a));
  build = protection_info;
}

-- The packed objects: an octet of events and one of quality.
abbrev packed : ℕ → ℕ → Layout ProtectionInfo ((ℕ × ℕ) × ℕ)
packed ta tb = record {
  tag = two_types ta tb;
  addr = λ v. v.ioa;
  time = λ v. v.time;
  fields = λ t v. v.event ∷ bit_and v.qdp 0xf8 ∷ octets16 v.msec;
  decode_fields =
      λ t a. then_cp16 (mapped (λ f. (f.0, bit_and f.1 0xf8)) (then_byte (decode_byte a)));
  build = protection_info;
}

unfoldable pub packed_start_events : Layout PackedStartEventsOfProtectionEquipmentInfo ((ℕ × ℕ) × ℕ)
packed_start_events = packed m_ep_tb_1 m_ep_te_1

unfoldable pub packed_output_circuit_info : Layout PackedOutputCircuitInfoInfo ((ℕ × ℕ) × ℕ)
packed_output_circuit_info = packed m_ep_tc_1 m_ep_tf_1

-- Its senders and getter have no switch on the type.
unfoldable pub packed_single_point_with_scd : Layout PackedSinglePointWithScdInfo (ℕ × ℕ)
packed_single_point_with_scd = record {
  tag = λ t. no_tag;
  addr = λ v. v.ioa;
  time = λ v. [];
  fields = λ t v. octets32 v.scd ++ (v.qds ∷ []);
  decode_fields = λ t a. then_byte (decode_status_and_status_change_detection a);
  build = λ x f time. record { ioa = x; scd = f.0; qds = f.1 };
}
