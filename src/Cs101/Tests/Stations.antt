-- ===== src/Cs101/Tests/Stations.antt =====
-- The theorems on the two stations of a link, at a link of one station with the address 1.
use go_iecp.Shared.{
  ℕ, pos, ◌≡◌, ◌≢◌, inl, refl, true, false, List, [], ◌∷◌, ◌++◌, none, some, arith,
}
use go_iecp.Asdu.Tests.{
  command, command_octets, command_marshals, command_expected, command_valid, params_wide,
}
use go_iecp.Asdu.Error.{ok}
use go_iecp.Asdu.Identifier.{
  get_info_obj_size, variable_struct_value, cause_of_transmission_value, parse_variable_struct,
  parse_cause_of_transmission,
}
use go_iecp.Asdu.Message.{Asdu, new_asdu, identifier_size}
use go_iecp.Asdu.Marshal.{
  marshal_binary, unmarshal_binary, expected_info_obj_len, variable_info_obj_size, objects_size,
  raw_octets, parse_fields, fix_info_obj_size,
}
use go_iecp.Asdu.Marshal.RoundTrip.{unmarshal_binary-marshal_binary}
use go_iecp.Cs101.Control.{parse_control_field}
use go_iecp.Cs101.Frame.Decode.{empty_identifier}
use go_iecp.Cs101.Config.{Config, default_config}
use go_iecp.Cs101.Server.{Server}
use go_iecp.Cs101.Server.Secondary.{is_broadcast}
use go_iecp.Cs101.Client.{Client, Secondary, phase_active, find_sec}
use go_iecp.Cs101.Exchange.{Passage, request_lost, response_lost, passed, exchange}
use go_iecp.Cs101.Exchange.Lossless.{exchange-lost}
use go_iecp.Cs101.Exchange.Delivery.{IsReady, sending, user_data, sending-IsOutstanding}
use go_iecp.Cs101.Exchange.InOrder.{
  Sending, Passes, repeated, transfer, transfer-raw, raw, all_readable, readable, octets_of, first,
}

abbrev serial_config : Config
serial_config = record default_config { serial_address = 0x2f ∷ []; baud_rate = pos 9600 }

abbrev pub outstation : Server
outstation = record {
  config = serial_config;
  params = params_wide;
  connected = true;
  send_frame = [];
  handler_payload = [];
  link_active = true;
  fcb_expected = true;
  last_resp = none;
  class1 = [];
  class2 = [];
  prim_queue = [];
  prim_out = none;
  prim_out_ctrl = parse_control_field 0;
  prim_fcb = false;
  prim_active = false;
  prim_retry = 0;
  prim_deadline = 0;
  prim_next_init = 0;
}

abbrev pub station : Secondary
station = record { addr = 1; phase = phase_active; fcb = true; want_class1 = false; dfc = false }

abbrev pub master : Client
master = record {
  config = serial_config;
  params = params_wide;
  secondary_addrs = [];
  connected = true;
  send_frame = [];
  rcv_asdu = [];
  send_queue = [];
  secs = station ∷ [];
  poll_idx = 0;
  last_sent = none;
  retry_count = 0;
  fcb_expected = true;
  t1_timer = none;
  link_active = true;
}

pub ready : IsReady station master outstation
unfolding default_config find_sec is_broadcast
ready = record {
  idle = refl;
  line_free = refl;
  connected = refl;
  station = refl;
  active = refl;
  for_server = refl;
  same_size = refl;
  fits = inl (refl, omega arith);
  not_broadcast = refl;
  free = record { connected = refl; free = refl };
  agree = refl;
}

exchange-lost_example :
    exchange 0 (response_lost ∷ passed ∷ []) (sending station master command_octets, outstation)
    ≡ exchange 0 (passed ∷ []) (sending station master command_octets, outstation)
exchange-lost_example =
    exchange-lost 0 response_lost [] (user_data station master command_octets)
      (sending station master command_octets) outstation (cc)
      (sending-IsOutstanding station master outstation command_octets ready)

pub command_read :
    unmarshal_binary (new_asdu params_wide empty_identifier) command_octets ≡ (command, none)
unfolding new_asdu
command_read =
    unmarshal_binary-marshal_binary command (new_asdu params_wide empty_identifier) (ground arith)
      command_valid refl command_expected command_marshals

-- An ASDU of a private type, which is written and not read.
abbrev private_asdu : Asdu
private_asdu = record {
  params = params_wide;
  identifier = record {
    type_id = 200;
    variable = record { number = 1; is_sequence = false };
    coa = record { is_test = false; is_negative = false; cause = 3 };
    orig_addr = 0;
    common_addr = 258;
  };
  info_obj = 16 ∷ 0 ∷ 0 ∷ 9 ∷ [];
}

abbrev private_octets : List ℕ
private_octets = 200 ∷ 1 ∷ 3 ∷ 0 ∷ 2 ∷ 1 ∷ 16 ∷ 0 ∷ 0 ∷ 9 ∷ []

private_asdu-marshalled : marshal_binary private_asdu ≡ ok private_octets
unfolding marshal_binary expected_info_obj_len variable_info_obj_size get_info_obj_size
    identifier_size raw_octets variable_struct_value cause_of_transmission_value
private_asdu-marshalled = refl

-- The command twice, with the private ASDU between; the line loses the first response and the last
-- request.
abbrev thrice : List Sending
thrice =
    (command, response_lost ∷ passed ∷ [])
    ∷ (private_asdu, passed ∷ [])
    ∷ (command, request_lost ∷ passed ∷ [])
    ∷ []

-- The private one is dropped.
all_readable-thrice : all_readable params_wide thrice ≡ command_octets ∷ command_octets ∷ []
unfolding all_readable readable octets_of marshal_binary expected_info_obj_len
    variable_info_obj_size objects_size get_info_obj_size identifier_size raw_octets
    variable_struct_value cause_of_transmission_value unmarshal_binary new_asdu parse_fields
    fix_info_obj_size parse_variable_struct parse_cause_of_transmission
all_readable-thrice = refl

transfer-raw_example :
    (c' : Client) × (s' : Server) × (sec' : Secondary) × (transfer 0 1 thrice (master, outstation)
      ≡ some (c', s'))
    × (raw s'.handler_payload ≡ raw outstation.handler_payload ++ all_readable params_wide thrice)
    × IsReady sec' c' s'
transfer-raw_example =
    transfer-raw 0 thrice station master outstation ready refl (omega arith)
      (passes response_lost (cc), (private_passes, (passes request_lost (cc), tt)))
  where
    passes : (way : Passage) → way ≢ passed → Passes (command, way ∷ passed ∷ [])
    passes way lost = record {
      octets = command_octets;
      marshalled = command_marshals;
      survives = repeated way lost;
    }

    private_passes : Passes (private_asdu, passed ∷ [])
    private_passes = record {
      octets = private_octets;
      marshalled = private_asdu-marshalled;
      survives = first;
    }
