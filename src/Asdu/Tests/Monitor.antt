-- ===== src/Asdu/Tests/Monitor.antt =====
-- The theorems on asdu/mproc.go and asdu/cproc.go at concrete information objects.
use go_iecp.Shared.{◌≡◌, refl, true, false, List, [], ◌∷◌, some, none, arith, All, pos, negsuc}
use go_iecp.Asdu.Error.{ok}
use go_iecp.Asdu.Identifier.{CauseOfTransmission, get_info_obj_size}
use go_iecp.Asdu.Message.{Asdu, new_asdu, valid, identifier_size, set_variable_number}
use go_iecp.Asdu.Codec.{append_bytes, append_info_obj_addr}
use go_iecp.Asdu.Marshal.{marshal_binary, unmarshal_binary, raw_octets}
use go_iecp.Asdu.Monitor.{check_valid, append_infos, send_infos, element_of}
use go_iecp.Asdu.Monitor.Elements
use go_iecp.Asdu.Monitor.Elements.{MeasuredValueNormalInfo, ProtectionInfo}
use go_iecp.Asdu.Monitor.Senders.{measured_value_normal_typed}
use go_iecp.Asdu.Monitor.Getters.{get_measured_value_normal}
use go_iecp.Asdu.Monitor.Arrivals.{sent, normal_kind, IsSendable, arrived}
use go_iecp.Asdu.Monitor.Delivery.{marshal_binary-sent, got-unmarshal_binary-sent}
use go_iecp.Asdu.Marshal.RoundTrip.{IsMarshallable}
use go_iecp.Asdu.Monitor.Packed.{send_one, packed_start_events_typed, get_packed_start_events}
use go_iecp.Asdu.Monitor.Packed.Single.{
  packed_sent, start_kind, IsPackable, packed_arrived, packed_got-packed_sent,
}
use go_iecp.Asdu.Information.{qualifier_of_command_value}
use go_iecp.Asdu.Command
use go_iecp.Asdu.Command.{DoubleCommandInfo}
use go_iecp.Asdu.Command.Functions
use go_iecp.Asdu.Command.Functions.{send_command, get_double_cmd}
use go_iecp.Asdu.Command.Arrivals
use go_iecp.Asdu.Command.Arrivals.{double_kind, command_got-sent}
use go_iecp.Asdu.Tests.{params_wide, command}

abbrev spontaneously : CauseOfTransmission
spontaneously = record { is_test = false; is_negative = false; cause = 3 }

-- Two neighbouring values, of which the second is overflowed.
abbrev two_values : List MeasuredValueNormalInfo
two_values =
    record { ioa = 70000; value = negsuc 4; qds = 0; time = [] }
    ∷ record { ioa = 70001; value = pos 300; qds = 1; time = [] }
    ∷ []

abbrev two_values_asdu : Asdu
two_values_asdu = record {
  params = params_wide;
  identifier = record {
    type_id = 9;
    variable = record { number = 2; is_sequence = true };
    coa = spontaneously;
    orig_addr = 0;
    common_addr = 258;
  };
  info_obj = 112 ∷ 17 ∷ 1 ∷ 251 ∷ 255 ∷ 0 ∷ 44 ∷ 1 ∷ 1 ∷ [];
}

two_values_sent :
    sent normal_kind params_wide spontaneously 258 9 true two_values ≡ ok two_values_asdu
unfolding measured_value_normal_typed send_infos check_valid get_info_obj_size valid identifier_size
    set_variable_number new_asdu append_infos append_info_obj_addr append_bytes element_of
    Elements.measured_value_normal
two_values_sent = refl

two_values_fit : All (IsSendable normal_kind 9) two_values
unfolding Elements.measured_value_normal
two_values_fit = ground arith

two_values-IsMarshallable : IsMarshallable two_values_asdu
two_values-IsMarshallable = ground arith

marshal_binary-sent_example : marshal_binary two_values_asdu ≡ ok (raw_octets two_values_asdu)
marshal_binary-sent_example =
    marshal_binary-sent normal_kind params_wide spontaneously 258 9 true two_values two_values_fit
      two_values_sent two_values-IsMarshallable

got-unmarshal_binary-sent_example :
    ((unmarshal_binary command (raw_octets two_values_asdu)).1 ≡ none)
    × (get_measured_value_normal ((unmarshal_binary command (raw_octets two_values_asdu)).0)
        ≡ some (arrived normal_kind 9 true two_values))
got-unmarshal_binary-sent_example =
    got-unmarshal_binary-sent normal_kind params_wide spontaneously 258 9 true two_values command
      (ground arith) two_values_fit two_values_sent refl marshal_binary-sent_example

-- The objects arrive unchanged, the addresses being neighbours.
arrived-two_values : arrived normal_kind 9 true two_values ≡ two_values
unfolding Elements.measured_value_normal element_of
arrived-two_values = refl

-- Two start events.
abbrev start_events : ProtectionInfo
start_events = record { ioa = 16; event = 5; qdp = 0x80; msec = 1000; time = 1 ∷ 2 ∷ 3 ∷ [] }

abbrev start_events_asdu : Asdu
start_events_asdu = record {
  params = params_wide;
  identifier = record {
    type_id = 18;
    variable = record { number = 1; is_sequence = false };
    coa = spontaneously;
    orig_addr = 0;
    common_addr = 258;
  };
  info_obj = 16 ∷ 0 ∷ 0 ∷ 5 ∷ 128 ∷ 232 ∷ 3 ∷ 1 ∷ 2 ∷ 3 ∷ [];
}

start_events_sent :
    packed_sent start_kind params_wide spontaneously 258 18 start_events ≡ ok start_events_asdu
unfolding packed_start_events_typed send_one check_valid get_info_obj_size valid identifier_size
    new_asdu append_infos append_info_obj_addr append_bytes element_of Elements.packed_start_events
start_events_sent = refl

start_events_fit : IsPackable start_kind 18 start_events
unfolding Elements.packed_start_events
start_events_fit = ground arith

packed_got-packed_sent_example :
    get_packed_start_events start_events_asdu ≡ some (packed_arrived start_kind 18 start_events)
packed_got-packed_sent_example =
    packed_got-packed_sent start_kind params_wide spontaneously 258 18 start_events start_events_fit
      start_events_sent

-- A double command, selected with a long pulse.
abbrev close_breaker : DoubleCommandInfo
close_breaker = record {
  ioa = 500;
  value = 2;
  qualifier = record { qual = 2; in_select = true };
  time = [];
}

abbrev activated : CauseOfTransmission
activated = record { is_test = false; is_negative = false; cause = 6 }

abbrev close_breaker_asdu : Asdu
close_breaker_asdu = record {
  params = params_wide;
  identifier = record {
    type_id = 46;
    variable = record { number = 1; is_sequence = false };
    coa = activated;
    orig_addr = 0;
    common_addr = 258;
  };
  info_obj = 244 ∷ 1 ∷ 0 ∷ 138 ∷ [];
}

close_breaker_sent :
    Arrivals.sent double_kind params_wide activated 258 46 close_breaker ≡ ok close_breaker_asdu
unfolding Functions.double_cmd send_command valid new_asdu append_infos append_info_obj_addr
    append_bytes element_of Command.double_cmd qualifier_of_command_value
close_breaker_sent = refl

close_breaker_fits : Arrivals.IsSendable double_kind 46 close_breaker
unfolding Command.double_cmd
close_breaker_fits = ground arith

command_got-sent_example :
    get_double_cmd close_breaker_asdu ≡ some (Arrivals.arrived double_kind 46 close_breaker)
command_got-sent_example =
    command_got-sent double_kind params_wide activated 258 46 close_breaker close_breaker_fits
      close_breaker_sent
