-- ===== src/Cs101/Tests.antt =====
-- The theorems on the package cs101 at concrete frames.
pub mod Stations
pub mod Commands
use go_iecp.Shared.{ℕ, ◌≡◌, refl, true, false, List, [], ◌∷◌, ◌++◌, arith}
use go_iecp.Asdu.Tests.{command, command_octets, command_marshals, command_expected, command_valid}
use go_iecp.Asdu.Marshal.RoundTrip.{received}
use go_iecp.Cs101.Control.{ControlField, parse_control_field, control_value}
use go_iecp.Cs101.Control.Laws.{
  control_value-parse_control_field, parse_control_field-control_value,
}
use go_iecp.Cs101.Frame.{Frame, ok, new_data_frame, parse_frame, marshal_binary, calculate_checksum}
use go_iecp.Cs101.Frame.RoundTrip.{parse_frame-marshal_binary}
use go_iecp.Cs101.Frame.Accept.{marshal_binary-parse_frame, parse_frame-start2, wire}
use go_iecp.Cs101.Frame.Decode.{decode_asdu, decoded, get_control_field}
use go_iecp.Cs101.Frame.Decode.Transfer.{decode_asdu-parse_frame}

-- User data, confirmed, with the frame count bit: function 3 of a primary station.
abbrev user_data : ControlField
user_data = record {
  dir = false;
  prm = true;
  fcb = true;
  fcv = true;
  acd = false;
  dfc = false;
  fun = 3;
}

-- Two octets of ASDU to the link address 1.
abbrev data_frame : Frame
data_frame = record {
  start = 0x68;
  length1 = 0;
  length2 = 0;
  start2 = 0;
  control = 0x73;
  link_addr = 1 ∷ [];
  asdu = 45 ∷ 2 ∷ [];
  checksum = 0;
  end = 0;
}

abbrev data_octets : List ℕ
data_octets = 0x68 ∷ 4 ∷ 4 ∷ 0x68 ∷ 0x73 ∷ 1 ∷ 45 ∷ 2 ∷ 163 ∷ 0x16 ∷ []

-- The frame as it is parsed.
abbrev sent_frame : Frame
sent_frame = record data_frame {
  length1 = 4;
  length2 = 4;
  start2 = 0x68;
  checksum = 163;
  end = 0x16;
}

data_frame_marshals :
    marshal_binary data_frame 1 ≡ ok (data_octets, record data_frame { checksum = 163 })
unfolding marshal_binary calculate_checksum
data_frame_marshals = refl

parse_frame-marshal_binary_example :
    parse_frame 1 (data_octets ++ (0x10 ∷ [])) ≡ ok (sent_frame, 0x10 ∷ [])
unfolding calculate_checksum
parse_frame-marshal_binary_example =
    parse_frame-marshal_binary data_frame 1 (0x10 ∷ []) data_frame_marshals

marshal_binary-parse_frame_example :
    (0x68 ∷ 4 ∷ 4 ∷ 0x68 ∷ 0x73 ∷ 1 ∷ 45 ∷ 2 ∷ 163 ∷ 0x16 ∷ 0x10 ∷ []
      ≡ wire (sent_frame) ++ (0x10 ∷ []))
    × (marshal_binary (sent_frame) 1 ≡ ok (wire (sent_frame), sent_frame))
marshal_binary-parse_frame_example =
    marshal_binary-parse_frame 1 0x68 (4 ∷ 4 ∷ 0x68 ∷ 0x73 ∷ 1 ∷ 45 ∷ 2 ∷ 163 ∷ 0x16 ∷ 0x10 ∷ [])
      (sent_frame) (0x10 ∷ []) (omega arith) (omega arith) parse_frame-marshal_binary_example

parse_frame-start2_example :
    parse_frame 1 (0x68 ∷ 4 ∷ 4 ∷ 0 ∷ 0x73 ∷ 1 ∷ 45 ∷ 2 ∷ 163 ∷ 0x16 ∷ 0x10 ∷ [])
    ≡ ok (record (sent_frame) { start2 = 0 }, 0x10 ∷ [])
parse_frame-start2_example =
    parse_frame-start2 1 4 4 0x68 0 0x73 (1 ∷ 45 ∷ 2 ∷ 163 ∷ 0x16 ∷ 0x10 ∷ [])
      parse_frame-marshal_binary_example

-- The command in a frame to the link address 258.
abbrev command_frame : List ℕ
command_frame = 0x68 ∷ 13 ∷ 13 ∷ 0x68 ∷ 0x73 ∷ 2 ∷ 1 ∷ (command_octets ++ (131 ∷ 0x16 ∷ []))

command_frame_marshals :
    marshal_binary (new_data_frame (control_value user_data) (2 ∷ 1 ∷ []) command_octets) 2
    ≡ ok (
      command_frame,
      record (new_data_frame (control_value user_data) (2 ∷ 1 ∷ []) command_octets) {
        checksum = 131;
      },
    )
unfolding marshal_binary new_data_frame control_value calculate_checksum
command_frame_marshals = refl

decode_asdu-parse_frame_example :
    (f : Frame) × (parse_frame 2 (command_frame ++ (0xe5 ∷ [])) ≡ ok (f, 0xe5 ∷ []))
    × (decode_asdu f command.params ≡ decoded (received command))
    × (get_control_field f ≡ user_data)
decode_asdu-parse_frame_example =
    decode_asdu-parse_frame command user_data (2 ∷ 1 ∷ []) (0xe5 ∷ []) 2 (ground arith)
      command_valid command_expected command_marshals (ground arith) command_frame_marshals
