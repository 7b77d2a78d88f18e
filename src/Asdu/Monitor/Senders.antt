-- ===== src/Asdu/Monitor/Senders.antt =====
-- asdu/mproc.go: the senders of process information, by the parameters of the connection, the
-- cause and the common address. A sender whose name ends in `typed` is the unexported function.
use go_iecp.Shared.{ℕ, Bool, false, ◌&&◌, ◌||◌, List, ◌==◌, leb, if◌then◌else◌}
use go_iecp.Asdu.Error.{Result, err, cmd_cause}
use go_iecp.Asdu.TypeId.{
  m_bo_na_1, m_bo_ta_1, m_bo_tb_1, m_dp_na_1, m_dp_ta_1, m_dp_tb_1, m_ep_ta_1, m_ep_td_1, m_it_na_1,
  m_it_ta_1, m_it_tb_1, m_me_na_1, m_me_nb_1, m_me_nc_1, m_me_nd_1, m_me_ta_1, m_me_tb_1, m_me_tc_1,
  m_me_td_1, m_me_te_1, m_me_tf_1, m_ps_na_1, m_sp_na_1, m_sp_ta_1, m_sp_tb_1, m_st_na_1, m_st_ta_1,
  m_st_tb_1,
}
use go_iecp.Asdu.Identifier.{CauseOfTransmission}
use go_iecp.Asdu.Message.{Params, Asdu}
use go_iecp.Asdu.System.{spontaneous, request}
use go_iecp.Asdu.Monitor.{element_of, send_infos}
use go_iecp.Asdu.Monitor.Elements
use go_iecp.Asdu.Monitor.Elements.{
  BinaryCounterReadingInfo, BitString32Info, DoublePointInfo, EventOfProtectionEquipmentInfo,
  MeasuredValueFloatInfo, MeasuredValueNormalInfo, MeasuredValueScaledInfo,
  PackedSinglePointWithScdInfo, SinglePointInfo, StepPositionInfo,
}

abbrev pub periodic : ℕ
periodic = 1

abbrev pub background : ℕ
background = 2

abbrev pub return_info_remote : ℕ
return_info_remote = 11

abbrev pub return_info_local : ℕ
return_info_local = 12

-- From `InterrogatedByStation` to `InterrogatedByGroup16`.
abbrev interrogated : ℕ → Bool
interrogated c = leb 20 c && leb c 36

-- The causes that a sender lets pass.
abbrev pub requested : ℕ → Bool
requested c = c == spontaneous || c == request

abbrev pub changed : ℕ → Bool
changed c = requested c || c == return_info_remote || c == return_info_local

abbrev pub scanned : ℕ → Bool
scanned c = c == background || requested c || interrogated c

abbrev pub reported : ℕ → Bool
reported c = c == background || changed c || interrogated c

abbrev pub measured : ℕ → Bool
measured c = c == periodic || scanned c

-- From `RequestByGeneralCounter` to `RequestByGroup4Counter`.
abbrev pub counted : ℕ → Bool
counted c = requested c || (leb 37 c && leb c 41)

abbrev pub permitted : Bool → Result Asdu → Result Asdu
permitted passes sent = if passes then sent else err cmd_cause

module _ (p : Params) (coa : CauseOfTransmission) (ca : ℕ) where
  unfoldable pub single_typed : ℕ → Bool → List SinglePointInfo → Result Asdu
  single_typed type_id sequence infos =
      send_infos (element_of Elements.single_point) p type_id sequence coa ca infos

  unfoldable pub single : Bool → List SinglePointInfo → Result Asdu
  single sequence infos = permitted (reported coa.cause) (single_typed m_sp_na_1 sequence infos)

  unfoldable pub single_cp24_time2a : List SinglePointInfo → Result Asdu
  single_cp24_time2a infos = permitted (changed coa.cause) (single_typed m_sp_ta_1 false infos)

  unfoldable pub single_cp56_time2a : List SinglePointInfo → Result Asdu
  single_cp56_time2a infos = permitted (changed coa.cause) (single_typed m_sp_tb_1 false infos)

  unfoldable pub double_typed : ℕ → Bool → List DoublePointInfo → Result Asdu
  double_typed type_id sequence infos =
      send_infos (element_of Elements.double_point) p type_id sequence coa ca infos

  unfoldable pub double : Bool → List DoublePointInfo → Result Asdu
  double sequence infos = permitted (reported coa.cause) (double_typed m_dp_na_1 sequence infos)

  unfoldable pub double_cp24_time2a : List DoublePointInfo → Result Asdu
  double_cp24_time2a infos = permitted (changed coa.cause) (double_typed m_dp_ta_1 false infos)

  unfoldable pub double_cp56_time2a : List DoublePointInfo → Result Asdu
  double_cp56_time2a infos = permitted (changed coa.cause) (double_typed m_dp_tb_1 false infos)

  unfoldable pub step_typed : ℕ → Bool → List StepPositionInfo → Result Asdu
  step_typed type_id sequence infos =
      send_infos (element_of Elements.step_position) p type_id sequence coa ca infos

  unfoldable pub step : Bool → List StepPositionInfo → Result Asdu
  step sequence infos = permitted (reported coa.cause) (step_typed m_st_na_1 sequence infos)

  unfoldable pub step_cp24_time2a : List StepPositionInfo → Result Asdu
  step_cp24_time2a infos = permitted (changed coa.cause) (step_typed m_st_ta_1 false infos)

  unfoldable pub step_cp56_time2a : List StepPositionInfo → Result Asdu
  step_cp56_time2a infos = permitted (changed coa.cause) (step_typed m_st_tb_1 false infos)

  unfoldable pub bit_string32_typed : ℕ → Bool → List BitString32Info → Result Asdu
  bit_string32_typed type_id sequence infos =
      send_infos (element_of Elements.bit_string32) p type_id sequence coa ca infos

  unfoldable pub bit_string32 : Bool → List BitString32Info → Result Asdu
  bit_string32 sequence infos =
      permitted (scanned coa.cause) (bit_string32_typed m_bo_na_1 sequence infos)

  unfoldable pub bit_string32_cp24_time2a : List BitString32Info → Result Asdu
  bit_string32_cp24_time2a infos =
      permitted (requested coa.cause) (bit_string32_typed m_bo_ta_1 false infos)

  unfoldable pub bit_string32_cp56_time2a : List BitString32Info → Result Asdu
  bit_string32_cp56_time2a infos =
      permitted (requested coa.cause) (bit_string32_typed m_bo_tb_1 false infos)

  unfoldable pub measured_value_normal_typed : ℕ → Bool → List MeasuredValueNormalInfo → Result Asdu
  measured_value_normal_typed type_id sequence infos =
      send_infos (element_of Elements.measured_value_normal) p type_id sequence coa ca infos

  unfoldable pub measured_value_normal : Bool → List MeasuredValueNormalInfo → Result Asdu
  measured_value_normal sequence infos =
      permitted (measured coa.cause) (measured_value_normal_typed m_me_na_1 sequence infos)

  unfoldable pub measured_value_normal_cp24_time2a : List MeasuredValueNormalInfo → Result Asdu
  measured_value_normal_cp24_time2a infos =
      permitted (changed coa.cause) (measured_value_normal_typed m_me_ta_1 false infos)

  unfoldable pub measured_value_normal_cp56_time2a : List MeasuredValueNormalInfo → Result Asdu
  measured_value_normal_cp56_time2a infos =
      permitted (changed coa.cause) (measured_value_normal_typed m_me_td_1 false infos)

  unfoldable pub measured_value_normal_no_quality :
      Bool → List MeasuredValueNormalInfo → Result Asdu
  measured_value_normal_no_quality sequence infos =
      permitted (measured coa.cause) (measured_value_normal_typed m_me_nd_1 sequence infos)

  unfoldable pub measured_value_scaled_typed : ℕ → Bool → List MeasuredValueScaledInfo → Result Asdu
  measured_value_scaled_typed type_id sequence infos =
      send_infos (element_of Elements.measured_value_scaled) p type_id sequence coa ca infos

  unfoldable pub measured_value_scaled : Bool → List MeasuredValueScaledInfo → Result Asdu
  measured_value_scaled sequence infos =
      permitted (measured coa.cause) (measured_value_scaled_typed m_me_nb_1 sequence infos)

  unfoldable pub measured_value_scaled_cp24_time2a : List MeasuredValueScaledInfo → Result Asdu
  measured_value_scaled_cp24_time2a infos =
      permitted (changed coa.cause) (measured_value_scaled_typed m_me_tb_1 false infos)

  unfoldable pub measured_value_scaled_cp56_time2a : List MeasuredValueScaledInfo → Result Asdu
  measured_value_scaled_cp56_time2a infos =
      permitted (changed coa.cause) (measured_value_scaled_typed m_me_te_1 false infos)

  unfoldable pub measured_value_float_typed : ℕ → Bool → List MeasuredValueFloatInfo → Result Asdu
  measured_value_float_typed type_id sequence infos =
      send_infos (element_of Elements.measured_value_float) p type_id sequence coa ca infos

  unfoldable pub measured_value_float : Bool → List MeasuredValueFloatInfo → Result Asdu
  measured_value_float sequence infos =
      permitted (measured coa.cause) (measured_value_float_typed m_me_nc_1 sequence infos)

  unfoldable pub measured_value_float_cp24_time2a : List MeasuredValueFloatInfo → Result Asdu
  measured_value_float_cp24_time2a infos =
      permitted (changed coa.cause) (measured_value_float_typed m_me_tc_1 false infos)

  unfoldable pub measured_value_float_cp56_time2a : List MeasuredValueFloatInfo → Result Asdu
  measured_value_float_cp56_time2a infos =
      permitted (changed coa.cause) (measured_value_float_typed m_me_tf_1 false infos)

  unfoldable pub integrated_totals_typed : ℕ → Bool → List BinaryCounterReadingInfo → Result Asdu
  integrated_totals_typed type_id sequence infos =
      send_infos (element_of Elements.integrated_totals) p type_id sequence coa ca infos

  unfoldable pub integrated_totals : Bool → List BinaryCounterReadingInfo → Result Asdu
  integrated_totals sequence infos =
      permitted (counted coa.cause) (integrated_totals_typed m_it_na_1 sequence infos)

  unfoldable pub integrated_totals_cp24_time2a : List BinaryCounterReadingInfo → Result Asdu
  integrated_totals_cp24_time2a infos =
      permitted (counted coa.cause) (integrated_totals_typed m_it_ta_1 false infos)

  unfoldable pub integrated_totals_cp56_time2a : List BinaryCounterReadingInfo → Result Asdu
  integrated_totals_cp56_time2a infos =
      permitted (counted coa.cause) (integrated_totals_typed m_it_tb_1 false infos)

  unfoldable pub event_of_protection_equipment_typed :
      ℕ → List EventOfProtectionEquipmentInfo → Result Asdu
  event_of_protection_equipment_typed type_id infos =
      permitted (coa.cause == spontaneous) (
        send_infos (element_of Elements.event_of_protection_equipment) p type_id false coa ca infos)

  unfoldable pub event_of_protection_equipment_cp24_time2a :
      List EventOfProtectionEquipmentInfo → Result Asdu
  event_of_protection_equipment_cp24_time2a = event_of_protection_equipment_typed m_ep_ta_1

  unfoldable pub event_of_protection_equipment_cp56_time2a :
      List EventOfProtectionEquipmentInfo → Result Asdu
  event_of_protection_equipment_cp56_time2a = event_of_protection_equipment_typed m_ep_td_1

  unfoldable pub packed_single_point_with_scd :
      Bool → List PackedSinglePointWithScdInfo → Result Asdu
  packed_single_point_with_scd sequence infos = permitted (reported coa.cause) (
      send_infos (element_of Elements.packed_single_point_with_scd) p m_ps_na_1 sequence coa ca
        infos)
