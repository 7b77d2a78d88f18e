-- ===== src/Cs101/Frame/Decode.antt =====
-- cs101/frame.go: the readers of a parsed frame.
pub mod Transfer
use go_iecp.Shared.{
  ℕ, ◌+◌, ◌*◌, Bool, true, false, not, ◌||◌, List, [], ◌∷◌, Option, none, some, ◌==◌, ◌!=◌,
  if◌then◌else◌, length,
}
use go_iecp.Asdu.Error.{Error}
use go_iecp.Asdu.Message.{Params, Asdu, Identifier, new_asdu}
use go_iecp.Asdu.Marshal.{unmarshal_binary}
use go_iecp.Cs101.Control.{ControlField, parse_control_field}
use go_iecp.Cs101.Frame.{Frame, start_variable}

-- The errors of `DecodeASDU`: no ASDU in the frame, or one that cannot be decoded.
pub data Decoded : Type 0 where
  decoded : Asdu → Decoded
  no_asdu : Decoded
  failed : Error → Decoded

-- The identifier of `NewEmptyASDU`.
abbrev pub empty_identifier : Identifier
empty_identifier = record {
  type_id = 0;
  variable = record { number = 0; is_sequence = false };
  coa = record { is_test = false; is_negative = false; cause = 0 };
  orig_addr = 0;
  common_addr = 0;
}

abbrev decoded_or_failed : Asdu × Option Error → Decoded
decoded_or_failed (a, none) = decoded a
decoded_or_failed (a, some e) = failed e

pub decode_asdu : Frame → Params → Decoded
decode_asdu f p =
    if f.start != start_variable || length f.asdu == 0
    then no_asdu
    else decoded_or_failed (unmarshal_binary (new_asdu p empty_identifier) f.asdu)

abbrev decoded_or_nil : Decoded → Option Asdu
decoded_or_nil (decoded a) = some a
decoded_or_nil no_asdu = none
decoded_or_nil (failed e) = none

unfoldable pub get_asdu : Frame → Params → Option Asdu
get_asdu f p =
    if f.start != start_variable || length f.asdu == 0
    then none
    else decoded_or_nil (decode_asdu f p)

unfoldable pub get_control_field : Frame → ControlField
get_control_field f = parse_control_field f.control

abbrev little_endian : List ℕ → ℕ
little_endian (b0 ∷ []) = b0
little_endian (b0 ∷ b1 ∷ []) = b0 + b1 * 256
little_endian _ = 0

unfoldable pub get_link_address : Frame → ℕ
get_link_address f = little_endian f.link_addr
