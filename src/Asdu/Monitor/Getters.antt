-- ===== src/Asdu/Monitor/Getters.antt =====
-- asdu/mproc.go: the getters of process information.
use go_iecp.Shared.{List, Option}
use go_iecp.Asdu.Message.{Asdu}
use go_iecp.Asdu.Monitor.{element_of, get_infos}
use go_iecp.Asdu.Monitor.Elements
use go_iecp.Asdu.Monitor.Elements.{
  BinaryCounterReadingInfo, BitString32Info, DoublePointInfo, EventOfProtectionEquipmentInfo,
  MeasuredValueFloatInfo, MeasuredValueNormalInfo, MeasuredValueScaledInfo,
  PackedSinglePointWithScdInfo, SinglePointInfo, StepPositionInfo,
}

unfoldable pub get_single_point : Asdu → Option (List SinglePointInfo)
get_single_point = get_infos (element_of Elements.single_point)

unfoldable pub get_double_point : Asdu → Option (List DoublePointInfo)
get_double_point = get_infos (element_of Elements.double_point)

unfoldable pub get_step_position : Asdu → Option (List StepPositionInfo)
get_step_position = get_infos (element_of Elements.step_position)

unfoldable pub get_bit_string32 : Asdu → Option (List BitString32Info)
get_bit_string32 = get_infos (element_of Elements.bit_string32)

unfoldable pub get_measured_value_normal : Asdu → Option (List MeasuredValueNormalInfo)
get_measured_value_normal = get_infos (element_of Elements.measured_value_normal)

unfoldable pub get_measured_value_scaled : Asdu → Option (List MeasuredValueScaledInfo)
get_measured_value_scaled = get_infos (element_of Elements.measured_value_scaled)

unfoldable pub get_measured_value_float : Asdu → Option (List MeasuredValueFloatInfo)
get_measured_value_float = get_infos (element_of Elements.measured_value_float)

unfoldable pub get_integrated_totals : Asdu → Option (List BinaryCounterReadingInfo)
get_integrated_totals = get_infos (element_of Elements.integrated_totals)

unfoldable pub get_event_of_protection_equipment :
    Asdu → Option (List EventOfProtectionEquipmentInfo)
get_event_of_protection_equipment = get_infos (element_of Elements.event_of_protection_equipment)

unfoldable pub get_packed_single_point_with_scd : Asdu → Option (List PackedSinglePointWithScdInfo)
get_packed_single_point_with_scd = get_infos (element_of Elements.packed_single_point_with_scd)
