-- ===== src/Cs104/Tests/Streams.antt =====
-- The theorems on the stream and the handlers of cs104/server_session.go at concrete octets.
use go_iecp.Shared.{
  ℕ, ◌≡◌, refl, true, false, Bool, List, [], ◌∷◌, ◌++◌, some, none, arith, All, take, drop,
}
use go_iecp.Asdu.Error.{ok, common_addr_zero}
use go_iecp.Asdu.Identifier.{get_info_obj_size, variable_struct_value, cause_of_transmission_value}
use go_iecp.Asdu.Message.{Asdu, reply_mirror, identifier_size}
use go_iecp.Asdu.Marshal.{
  marshal_binary, unmarshal_binary, expected_info_obj_len, variable_info_obj_size, objects_size,
  raw_octets,
}
use go_iecp.Asdu.Marshal.RoundTrip.{received}
use go_iecp.Asdu.Tests.{
  params_wide, command, command_octets, command_marshals, command_expected, command_valid,
}
use go_iecp.Asdu.System.{get_test_command}
use go_iecp.Asdu.Codec.{decode_info_obj_addr, decode_uint16}
use go_iecp.Cs104.Apci.{i_apci, new_i_frame, parse, ok as parsed}
use go_iecp.Cs104.Receive.{received_apdus, recv_loop}
use go_iecp.Cs104.Receive.Frames.{IsFramed, received_apdus-IsFramed}
use go_iecp.Cs104.Receive.Resync.{received_apdus-noise}
use go_iecp.Cs104.Transfer.{unmarshal_binary-parse-recv_loop}
use go_iecp.Cs104.Handler.{server_handler, replies, send, refused}
use go_iecp.Cs104.Handler.Replies.{send-server_handler, send-server_handler-zero}

-- Three octets of noise, an S frame, the head of another frame.
abbrev stream : List ℕ
stream = 1 ∷ 2 ∷ 3 ∷ 0x68 ∷ 4 ∷ 1 ∷ 0 ∷ 2 ∷ 0 ∷ 0x68 ∷ 5 ∷ []

received_apdus-IsFramed_example :
    All IsFramed (received_apdus stream) × (recv_loop 100 [] 2 stream ≡ received_apdus stream)
received_apdus-IsFramed_example = received_apdus-IsFramed 100 stream (omega arith)

received_apdus-noise_example :
    received_apdus stream ≡ (0x68 ∷ 4 ∷ 1 ∷ 0 ∷ 2 ∷ 0 ∷ []) ∷ received_apdus (0x68 ∷ 5 ∷ [])
received_apdus-noise_example =
    received_apdus-noise (1 ∷ 2 ∷ 3 ∷ []) (0x68 ∷ 4 ∷ 1 ∷ 0 ∷ 2 ∷ 0 ∷ []) (0x68 ∷ 5 ∷ [])
      (omega arith) (ground arith)

-- The command in an I frame with numbers 32767 and 1.
abbrev command_apdu : List ℕ
command_apdu = 0x68 ∷ 14 ∷ 0xfe ∷ 0xff ∷ 2 ∷ 0 ∷ command_octets

command_framed : new_i_frame 32767 1 command_octets ≡ some command_apdu
unfolding new_i_frame
command_framed = refl

unmarshal_binary-parse-recv_loop_example :
    (received_apdus ((7 ∷ []) ++ (command_apdu ++ (0x68 ∷ [])))
      ≡ command_apdu ∷ received_apdus (0x68 ∷ []))
    × (parse command_apdu ≡ parsed (i_apci 32767 1) command_octets)
    × (unmarshal_binary command command_octets ≡ (received command, none))
unmarshal_binary-parse-recv_loop_example =
    unmarshal_binary-parse-recv_loop command command 32767 1 (7 ∷ []) (0x68 ∷ []) (ground arith)
      command_valid refl command_expected (omega arith) (omega arith) (omega arith) command_marshals
      command_framed

-- A test command to a common address.
abbrev test_command : ℕ → Asdu
test_command addr = record {
  params = params_wide;
  identifier = record {
    type_id = 104;
    variable = record { number = 1; is_sequence = false };
    coa = record { is_test = false; is_negative = false; cause = 6 };
    orig_addr = 0;
    common_addr = addr;
  };
  info_obj = 0 ∷ 0 ∷ 0 ∷ 0xaa ∷ 0x55 ∷ [];
}

-- The application takes everything.
abbrev never : Asdu → Bool
never _ = false

test_command_marshals :
    marshal_binary (test_command 1) ≡ ok (104 ∷ 1 ∷ 6 ∷ 0 ∷ 1 ∷ 0 ∷ 0 ∷ 0 ∷ 0 ∷ 0xaa ∷ 0x55 ∷ [])
unfolding marshal_binary expected_info_obj_len variable_info_obj_size objects_size get_info_obj_size
    raw_octets identifier_size variable_struct_value cause_of_transmission_value
test_command_marshals = refl

test_command_confirmed :
    server_handler never (test_command 1) ≡ replies (reply_mirror (test_command 1) 7)
unfolding server_handler get_test_command decode_info_obj_addr decode_uint16
test_command_confirmed = refl

send-server_handler_example :
    (raw' : List ℕ) × (send true 1 [] (reply_mirror (test_command 1) 7) ≡ ([] ++ (raw' ∷ []), none))
    × (take 2 raw' ≡ 104 ∷ 1 ∷ [])
    × (drop 3 raw' ≡ 0 ∷ 1 ∷ 0 ∷ 0 ∷ 0 ∷ 0 ∷ 0xaa ∷ 0x55 ∷ [])
send-server_handler_example =
    send-server_handler never (test_command 1) (reply_mirror (test_command 1) 7) 1 []
      test_command_marshals test_command_confirmed (omega arith)

test_command_unknown :
    server_handler never (test_command 0) ≡ replies (reply_mirror (test_command 0) 46)
unfolding server_handler
test_command_unknown = refl

send-server_handler-zero_example :
    send true 1 [] (reply_mirror (test_command 0) 46) ≡ ([], some (refused common_addr_zero))
send-server_handler-zero_example =
    send-server_handler-zero never (test_command 0) (reply_mirror (test_command 0) 46) 1 []
      (ground arith) refl test_command_unknown
