-- ===== src/Cs101/Tests/Commands.antt =====
-- The theorems on the commands and the payloads of the package cs101 at concrete ones.
use go_iecp.Shared.{ℕ, zero, suc, ◌≡◌, refl, true, false, List, [], ◌∷◌, some, arith, byte}
use go_iecp.Asdu.Tests.{command, command_octets, command_valid, params_wide}
use go_iecp.Asdu.Error.{ok}
use go_iecp.Asdu.Identifier.{
  CauseOfTransmission, get_info_obj_size, variable_struct_value, cause_of_transmission_value,
}
use go_iecp.Asdu.Message.{Params, Identifier, identifier_size}
use go_iecp.Asdu.Marshal.{
  marshal_binary, expected_info_obj_len, variable_info_obj_size, objects_size, raw_octets,
}
use go_iecp.Cs101.Control.{parse_control_field}
use go_iecp.Cs101.Frame.{Frame, new_data_frame}
use go_iecp.Cs101.Frame.Decode.{get_control_field}
use go_iecp.Cs101.Client.{prim_control}
use go_iecp.Cs101.Server.{Server, HandlerAsduPayload, blocked}
use go_iecp.Cs101.Server.Handler.{specific_call}
use go_iecp.Cs101.Server.Handler.Getters.{getter_call, specific_call-getter_call}
use go_iecp.Cs101.Server.Secondary.{handle_incoming_frame}
use go_iecp.Cs101.Server.Secondary.Blocked.{handle_incoming_frame-blocked}
use go_iecp.Cs101.Client.Commands.{built, build_raw_asdu, command_asdu, encode_ioa}
use go_iecp.Cs101.Client.Commands.Encoding.{
  commanded, command_asdu-marshal_binary, build_raw_asdu-cut,
}
use go_iecp.Cs101.Exchange.Delivery.{IsReady, user_data, sending-IsOutstanding, control_fields}
use go_iecp.Cs101.Tests.Stations.{outstation, station, master, ready, command_read}

abbrev activation_cause : CauseOfTransmission
activation_cause = record { is_test = false; is_negative = false; cause = 6 }

abbrev station_interrogation : List ℕ
station_interrogation = 0 ∷ 0 ∷ 0 ∷ 20 ∷ []

interrogation_marshals :
    marshal_binary (commanded 100 activation_cause 258 station_interrogation params_wide)
    ≡ ok (100 ∷ 1 ∷ 6 ∷ 0 ∷ 2 ∷ 1 ∷ 0 ∷ 0 ∷ 0 ∷ 20 ∷ [])
unfolding marshal_binary expected_info_obj_len variable_info_obj_size objects_size get_info_obj_size
    raw_octets identifier_size variable_struct_value cause_of_transmission_value
interrogation_marshals = refl

interrogation_expected :
    expected_info_obj_len (commanded 100 activation_cause 258 station_interrogation params_wide)
    ≡ some 4
unfolding expected_info_obj_len variable_info_obj_size objects_size get_info_obj_size
interrogation_expected = refl

command_asdu-marshal_binary_example :
    command_asdu 100 activation_cause 258 station_interrogation params_wide
    ≡ built (commanded 100 activation_cause 258 station_interrogation params_wide)
command_asdu-marshal_binary_example =
    command_asdu-marshal_binary 100 258 activation_cause station_interrogation params_wide
      (ground arith) command_valid interrogation_expected interrogation_marshals

abbrev params_narrow : Params
params_narrow = record params_wide { common_addr_size = 1; info_obj_addr_size = 1 }

abbrev command_id : Identifier
command_id = command.identifier

-- Station 258 and the object 300, where both addresses have one octet.
build_raw_asdu-cut_example :
    (build_raw_asdu command_id [] params_narrow
      ≡ build_raw_asdu (record command_id { common_addr = byte 258 }) [] params_narrow)
    × (encode_ioa 300 params_narrow ≡ encode_ioa (byte 300) params_narrow)
build_raw_asdu-cut_example =
    build_raw_asdu-cut command_id 300 [] params_narrow refl refl (ground arith)

specific_call-getter_call_example :
    specific_call 45 command.info_obj params_wide ≡ getter_call command
specific_call-getter_call_example = specific_call-getter_call command command_valid (omega arith)

abbrev command_frame : Frame
command_frame = (user_data station master command_octets).frame

abbrev waiting : ℕ → List HandlerAsduPayload
waiting zero = []
waiting (suc n) = record { identifier = command_id; raw_data = command_octets } ∷ waiting n

abbrev crowded : Server
crowded = record outstation { handler_payload = waiting 50 }

handle_incoming_frame-blocked_example : handle_incoming_frame 0 command_frame crowded ≡ blocked
unfolding get_control_field parse_control_field new_data_frame prim_control
handle_incoming_frame-blocked_example =
    handle_incoming_frame-blocked 0 command_frame crowded command
      (sending-IsOutstanding station master crowded command_octets crowded_ready).expected
      (control_fields master true).3 command_read (omega arith)
  where
    crowded_ready : IsReady station master crowded
    crowded_ready = record {
      idle = refl;
      line_free = refl;
      connected = refl;
      station = ready.station;
      active = refl;
      for_server = ready.for_server;
      same_size = refl;
      fits = ready.fits;
      not_broadcast = ready.not_broadcast;
      free = record { connected = refl; free = refl };
      agree = refl;
    }
