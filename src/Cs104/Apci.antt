-- ===== src/Cs104/Apci.antt =====
-- cs104/apci.go: the I, S and U frames and their parser.
pub mod RoundTrip
use go_iecp.Shared.{
  ℕ, ◌+◌, ◌*◌, ◌/◌, Bool, true, false, ◌||◌, List, [], ◌∷◌, Option, none, some, bit_and, bit_or,
  ◌==◌, ◌!=◌, ltb, leb, if◌then◌else◌, byte, uint16, length,
}
use go_iecp.Asdu.Message.{asdu_size_max}

abbrev pub start_frame : ℕ
start_frame = 0x68

abbrev pub apci_ctl_filed_size : ℕ
apci_ctl_filed_size = 4

abbrev pub apdu_size_max : ℕ
apdu_size_max = 255

abbrev pub u_start_dt_active : ℕ
u_start_dt_active = 0x04

abbrev pub u_start_dt_confirm : ℕ
u_start_dt_confirm = 0x08

abbrev pub u_stop_dt_active : ℕ
u_stop_dt_active = 0x10

abbrev pub u_stop_dt_confirm : ℕ
u_stop_dt_confirm = 0x20

abbrev pub u_test_fr_active : ℕ
u_test_fr_active = 0x40

abbrev pub u_test_fr_confirm : ℕ
u_test_fr_confirm = 0x80

-- `iAPCI`, `sAPCI` and `uAPCI`: send and receive number, receive number, function.
pub data Apci : Type 0 where
  i_apci : ℕ → ℕ → Apci
  s_apci : ℕ → Apci
  u_apci : ℕ → Apci

-- `none` is the error of an ASDU that is too large.
unfoldable pub new_i_frame : ℕ → ℕ → List ℕ → Option (List ℕ)
new_i_frame send_sn rcv_sn asdus =
    if ltb asdu_size_max (length asdus)
    then none
    else some (
        start_frame
        ∷ byte (length asdus + 4)
        ∷ byte (uint16 (send_sn * 2))
        ∷ byte (send_sn / 128)
        ∷ byte (uint16 (rcv_sn * 2))
        ∷ byte (rcv_sn / 128)
        ∷ asdus)

unfoldable pub new_s_frame : ℕ → List ℕ
new_s_frame rcv_sn =
    start_frame ∷ 4 ∷ 0x01 ∷ 0x00 ∷ byte (uint16 (rcv_sn * 2)) ∷ byte (rcv_sn / 128) ∷ []

unfoldable pub new_u_frame : ℕ → List ℕ
new_u_frame which = start_frame ∷ 4 ∷ bit_or which 0x03 ∷ 0x00 ∷ 0x00 ∷ 0x00 ∷ []

unfoldable pub is_valid_u_function : ℕ → Bool
is_valid_u_function f =
    f == u_start_dt_active
    || f == u_start_dt_confirm
    || f == u_stop_dt_active
    || f == u_stop_dt_confirm
    || f == u_test_fr_active
    || f == u_test_fr_confirm

-- The reasons that `ErrInvalidAPCI` is wrapped with.
pub data InvalidApci : Type 0 where
  too_short length_mismatch i_without_asdu i_control s_length s_control : InvalidApci
  u_length u_reserved u_function : InvalidApci

pub data Parsed : Type 0 where
  ok : Apci → List ℕ → Parsed
  invalid : InvalidApci → Parsed

-- `uint16(low)>>1 + uint16(high)<<7`
sequence_number : ℕ → ℕ → ℕ
sequence_number low high = uint16 (low / 2 + uint16 (high * 128))

parse_i : (len ctr1 ctr2 ctr3 ctr4 : ℕ) → List ℕ → Parsed
unfolding sequence_number
parse_i len ctr1 ctr2 ctr3 ctr4 asdu =
    if leb len apci_ctl_filed_size
    then invalid i_without_asdu
    else if bit_and ctr3 0x01 != 0
    then invalid i_control
    else ok (i_apci (sequence_number ctr1 ctr2) (sequence_number ctr3 ctr4)) asdu

parse_s : (len ctr1 ctr2 ctr3 ctr4 : ℕ) → List ℕ → Parsed
unfolding sequence_number
parse_s len ctr1 ctr2 ctr3 ctr4 asdu =
    if len != apci_ctl_filed_size
    then invalid s_length
    else if ctr1 != 0x01 || ctr2 != 0 || bit_and ctr3 0x01 != 0
    then invalid s_control
    else ok (s_apci (sequence_number ctr3 ctr4)) asdu

parse_u : (len ctr1 ctr2 ctr3 ctr4 : ℕ) → List ℕ → Parsed
parse_u len ctr1 ctr2 ctr3 ctr4 asdu =
    if len != apci_ctl_filed_size
    then invalid u_length
    else if ctr2 != 0 || ctr3 != 0 || ctr4 != 0
    then invalid u_reserved
    else let function = bit_and ctr1 0xfc in
      if is_valid_u_function function then ok (u_apci function) asdu else invalid u_function

-- The six octets, and what follows them: `apdu[6:]`.
parse_apci : (len ctr1 ctr2 ctr3 ctr4 : ℕ) → List ℕ → Parsed
parse_apci len ctr1 ctr2 ctr3 ctr4 asdu =
    if len != length asdu + 4
    then invalid length_mismatch
    else if bit_and ctr1 0x01 == 0
    then parse_i len ctr1 ctr2 ctr3 ctr4 asdu
    else if bit_and ctr1 0x03 == 0x01
    then parse_s len ctr1 ctr2 ctr3 ctr4 asdu
    else parse_u len ctr1 ctr2 ctr3 ctr4 asdu

-- Fewer than six octets are refused. The start octet is the receive loop's to check.
unfoldable pub parse : List ℕ → Parsed
unfolding parse_apci parse_i parse_s parse_u
parse (start ∷ len ∷ ctr1 ∷ ctr2 ∷ ctr3 ∷ ctr4 ∷ asdu) = parse_apci len ctr1 ctr2 ctr3 ctr4 asdu
parse _ = invalid too_short
