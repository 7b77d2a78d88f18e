-- ===== src/Asdu/Monitor/Packed.antt =====
-- asdu/mproc.go: the senders and the getters of the packed events of protection equipment, of which
-- an ASDU has one.
pub mod Single
use go_iecp.Shared.{
  ℕ, Bool, false, ◌||◌, List, [], ◌∷◌, Option, none, some, ◌==◌, ◌!=◌, if◌then◌else◌,
}
use go_iecp.Asdu.Error.{Result, err}
use go_iecp.Asdu.TypeId.{m_ep_tb_1, m_ep_tc_1, m_ep_te_1, m_ep_tf_1}
use go_iecp.Asdu.Identifier.{CauseOfTransmission}
use go_iecp.Asdu.Message.{Params, Asdu, new_asdu}
use go_iecp.Asdu.System.{spontaneous}
use go_iecp.Asdu.Codec.{decode_info_obj_addr}
use go_iecp.Asdu.Monitor.{Element, element_of, check_valid, append_infos}
use go_iecp.Asdu.Monitor.Elements
use go_iecp.Asdu.Monitor.Elements.{
  ProtectionInfo, PackedStartEventsOfProtectionEquipmentInfo, PackedOutputCircuitInfoInfo,
}
use go_iecp.Asdu.Monitor.Senders.{permitted}

module _ (el : Element ProtectionInfo) where
  unfoldable pub send_one : Params → ℕ → CauseOfTransmission → ℕ → ProtectionInfo → Result Asdu
  send_one p type_id coa ca info = elim (check_valid p type_id false 1) [
    | some e ↦ err e
    | none ↦ append_infos el type_id false false (info ∷ []) (
        new_asdu p (record {
          type_id = type_id;
          variable = record { number = 1; is_sequence = false };
          coa = coa;
          orig_addr = 0;
          common_addr = ca;
        }))
  ]

  abbrev read_one : ℕ → Option (ℕ × Asdu) → Option ProtectionInfo
  read_one type_id none = none
  read_one type_id (some (x, a)) = elim (el.read type_id x a) [ none ↦ none | some (v, b) ↦ some v ]

  -- An ASDU with another number of objects gives the empty one.
  unfoldable pub get_one : Asdu → Option ProtectionInfo
  get_one a =
      if a.variable.is_sequence || a.variable.number != 1
      then some (record { ioa = 0; event = 0; qdp = 0; msec = 0; time = [] })
      else read_one a.type_id (decode_info_obj_addr a)

module _ (p : Params) (coa : CauseOfTransmission) (ca : ℕ) where
  unfoldable pub packed_start_events_typed :
      ℕ → PackedStartEventsOfProtectionEquipmentInfo → Result Asdu
  packed_start_events_typed type_id info =
      permitted (coa.cause == spontaneous)
        (send_one (element_of Elements.packed_start_events) p type_id coa ca info)

  unfoldable pub packed_start_events_cp24_time2a :
      PackedStartEventsOfProtectionEquipmentInfo → Result Asdu
  packed_start_events_cp24_time2a = packed_start_events_typed m_ep_tb_1

  unfoldable pub packed_start_events_cp56_time2a :
      PackedStartEventsOfProtectionEquipmentInfo → Result Asdu
  packed_start_events_cp56_time2a = packed_start_events_typed m_ep_te_1

  unfoldable pub packed_output_circuit_info_typed : ℕ → PackedOutputCircuitInfoInfo → Result Asdu
  packed_output_circuit_info_typed type_id info =
      permitted (coa.cause == spontaneous)
        (send_one (element_of Elements.packed_output_circuit_info) p type_id coa ca info)

  unfoldable pub packed_output_circuit_info_cp24_time2a : PackedOutputCircuitInfoInfo → Result Asdu
  packed_output_circuit_info_cp24_time2a = packed_output_circuit_info_typed m_ep_tc_1

  unfoldable pub packed_output_circuit_info_cp56_time2a : PackedOutputCircuitInfoInfo → Result Asdu
  packed_output_circuit_info_cp56_time2a = packed_output_circuit_info_typed m_ep_tf_1

unfoldable pub get_packed_start_events : Asdu → Option PackedStartEventsOfProtectionEquipmentInfo
get_packed_start_events = get_one (element_of Elements.packed_start_events)

unfoldable pub get_packed_output_circuit_info : Asdu → Option PackedOutputCircuitInfoInfo
get_packed_output_circuit_info = get_one (element_of Elements.packed_output_circuit_info)
