-- ===== src/Cs101/Frame/Decode/Transfer.antt =====
-- An ASDU from one end of a cs101 link to the other: asdu/asdu.go inside cs101/frame.go.
use go_iecp.Shared.{ℕ, ◌≡◌, List, ◌++◌, some, none, arith, refl}
use go_iecp.Asdu.Error.{ok}
use go_iecp.Asdu.Message.{Asdu, valid, new_asdu}
use go_iecp.Asdu.Marshal.{marshal_binary, expected_info_obj_len}
use go_iecp.Asdu.Marshal.RoundTrip.{
  IsWellFormed, received, unmarshal_binary-marshal_binary, length-marshal_binary,
}
use go_iecp.Cs101.Control.{ControlField, control_value}
use go_iecp.Cs101.Control.Laws.{IsControl, parse_control_field-control_value}
use go_iecp.Cs101.Frame.{
  Frame, start_variable, new_data_frame, parse_frame, marshal_binary as marshal_frame,
  ok as frame_ok,
}
use go_iecp.Cs101.Frame.RoundTrip.{parse_frame-marshal_binary, received as received_frame}
use go_iecp.Cs101.Frame.Decode.{decode_asdu, decoded, get_control_field, empty_identifier}

decode_asdu-received :
    (f : Frame) (a : Asdu) {raw : List ℕ} {n : ℕ}
    → f.asdu ≡ raw
    → f.start ≡ start_variable
    → IsWellFormed a
    → valid a.params ≡ none
    → expected_info_obj_len a ≡ some n
    → marshal_binary a ≡ ok raw
    → decode_asdu f a.params ≡ decoded (received a)
unfolding decode_asdu new_asdu
decode_asdu-received f a e s w v h m = ground (
  arith,
  length-marshal_binary a m,
  unmarshal_binary-marshal_binary a (new_asdu a.params empty_identifier) w v refl h m,
)

-- A well-formed ASDU under valid parameters, of a type and payload whose length is knowable, that
-- MarshalBinary encodes, put by NewDataFrame behind a control field that uses its own station's
-- flags and any link address, and marshalled to octets: followed by any others, these are parsed
-- to a frame from which DecodeASDU, with the same parameters, returns the ASDU as the receiver
-- knows it, and GetControlField the control field, and the others are left in the reader.
pub decode_asdu-parse_frame :
    (a : Asdu) (cf : ControlField) (link_addr rest : List ℕ) (size : ℕ) {raw octets : List ℕ}
    {n : ℕ} {g : Frame}
    → IsWellFormed a
    → valid a.params ≡ none
    → expected_info_obj_len a ≡ some n
    → marshal_binary a ≡ ok raw
    → IsControl cf
    → marshal_frame (new_data_frame (control_value cf) link_addr raw) size ≡ frame_ok (octets, g)
    → (f : Frame) × (parse_frame size (octets ++ rest) ≡ frame_ok (f, rest))
      × (decode_asdu f a.params ≡ decoded (received a))
      × (get_control_field f ≡ cf)
unfolding new_data_frame get_control_field
decode_asdu-parse_frame a cf link_addr rest size {raw = raw} w v h m c fm = (
  received_frame size sent,
  parse_frame-marshal_binary sent size rest fm,
  decode_asdu-received (received_frame size sent) a refl refl w v h m,
  parse_control_field-control_value cf c,
)
  where
    sent : Frame
    sent = new_data_frame (control_value cf) link_addr raw
