-- ===== src/Cs101/Frame.antt =====
-- cs101/frame.go: FT1.2 frames. A reader is the list of the octets that it still delivers; a read
-- that finds too few of them, or is cancelled, fails.
pub mod RoundTrip
pub mod Decode
pub mod Accept
use go_iecp.Shared.{
  ℕ, ◌+◌, ◌-◌, ◌≡◌, Bool, true, false, not, ◌&&◌, ◌||◌, List, [], ◌∷◌, ◌++◌, Option, none, some,
  ◌==◌, ◌!=◌, ltb, if◌then◌else◌, byte, uint16, length, take, drop, get_or,
}
use go_iecp.Asdu.Message.{Params, Asdu, Identifier, new_asdu}
use go_iecp.Asdu.Marshal.{unmarshal_binary}
use go_iecp.Cs101.Control.{ControlField, parse_control_field}

abbrev pub single_char_ack : ℕ
single_char_ack = 0xe5

abbrev pub start_fixed : ℕ
start_fixed = 0x10

abbrev pub start_variable : ℕ
start_variable = 0x68

abbrev pub end_char : ℕ
end_char = 0x16

abbrev pub max_length_field : ℕ
max_length_field = 255

unfoldable pub is_broadcast_addr : ℕ → ℕ → Bool
is_broadcast_addr addr link_addr_size =
    if link_addr_size == 1
    then addr == 0xff
    else if link_addr_size == 2
    then addr == 0xffff
    else false

pub max_asdu_len : ℕ → ℕ
max_asdu_len link_addr_size = max_length_field - 1 - link_addr_size

pub record Frame : Type 0 where
  pub start : ℕ
  pub length1 : ℕ
  pub length2 : ℕ
  pub start2 : ℕ
  pub control : ℕ
  pub link_addr : List ℕ
  pub asdu : List ℕ
  pub checksum : ℕ
  pub end : ℕ

pub data FrameError : Type 0 where
  invalid_start_char length_mismatch checksum_mismatch frame_too_short : FrameError
  frame_len_exceeded invalid_link_addr_len invalid_end_char : FrameError
  link_addr_length_mismatch read_failed : FrameError

pub data Result {ℓ} (A : Type ℓ) : Type ℓ where
  ok : A → Result A
  err : FrameError → Result A

-- A frame of which only the start is set.
abbrev pub started_frame : ℕ → Frame
started_frame start = record {
  start = start;
  length1 = 0;
  length2 = 0;
  start2 = 0;
  control = 0;
  link_addr = [];
  asdu = [];
  checksum = 0;
  end = 0;
}

abbrev sum_octets : ℕ → List ℕ → ℕ
sum_octets sum [] = sum
sum_octets sum (b ∷ rest) = sum_octets (uint16 (sum + b)) rest

unfoldable pub calculate_checksum : ℕ → List ℕ → List ℕ → ℕ
calculate_checksum control link_addr asdu =
    byte (sum_octets (sum_octets (uint16 control) link_addr) asdu)

-- `io.ReadFull`
abbrev read_full : ℕ → List ℕ → Option (List ℕ × List ℕ)
read_full n reader = if ltb (length reader) n then none else some (take n reader, drop n reader)

-- The checks that close both kinds of frame.
check_end : Frame → List ℕ → Result (Frame × List ℕ)
check_end f rest =
    if f.end != end_char
    then err invalid_end_char
    else if calculate_checksum f.control f.link_addr f.asdu != f.checksum
    then err checksum_mismatch
    else ok (f, rest)

fixed_frame : ℕ → List ℕ → Frame
fixed_frame size fixed_data = record {
  start = start_fixed;
  length1 = 0;
  length2 = 0;
  start2 = 0;
  control = get_or fixed_data 0 0;
  link_addr = take size (drop 1 fixed_data);
  asdu = [];
  checksum = get_or fixed_data (size + 1) 0;
  end = get_or fixed_data (size + 2) 0;
}

parse_fixed : ℕ → List ℕ → Result (Frame × List ℕ)
unfolding fixed_frame check_end
parse_fixed size reader = elim (read_full (1 + size + 1 + 1) reader) [
  | none ↦ err read_failed
  | some (fixed_data, rest) ↦ check_end (fixed_frame size fixed_data) rest
]

variable_frame : ℕ → List ℕ → List ℕ → Frame
variable_frame size header body =
    let body_len = get_or header 0 0 + 1 in
    record {
      start = start_variable;
      length1 = get_or header 0 0;
      length2 = get_or header 1 0;
      start2 = get_or header 2 0;
      control = get_or header 3 0;
      link_addr = take size body;
      asdu = drop size (take (body_len - 2) body);
      checksum = get_or body (body_len - 2) 0;
      end = get_or body (body_len - 1) 0;
    }

parse_body : ℕ → List ℕ → List ℕ → Result (Frame × List ℕ)
unfolding variable_frame check_end
parse_body size header reader =
    if get_or header 0 0 != get_or header 1 0
    then err length_mismatch
    else if ltb (get_or header 0 0) (1 + size)
    then err frame_too_short
    else elim (read_full (get_or header 0 0 + 1) reader) [
      | none ↦ err read_failed
      | some (body, rest) ↦ check_end (variable_frame size header body) rest
    ]

parse_variable : ℕ → List ℕ → Result (Frame × List ℕ)
unfolding parse_body
parse_variable size reader = elim (read_full 4 reader) [
  | none ↦ err read_failed
  | some (header, rest) ↦ parse_body size header rest
]

-- `ParseFrame`: the frame, and what the reader still holds.
pub parse_frame : ℕ → List ℕ → Result (Frame × List ℕ)
unfolding parse_fixed parse_variable
parse_frame size [] = if ltb 2 size then err invalid_link_addr_len else err read_failed
parse_frame size (start ∷ reader) =
    if ltb 2 size
    then err invalid_link_addr_len
    else if start == single_char_ack
    then ok (started_frame start, reader)
    else if start == start_fixed
    then parse_fixed size reader
    else if start == start_variable
    then parse_variable size reader
    else err invalid_start_char

-- `Frame.MarshalBinary`: the octets, and the frame with the checksum that the call sets.
marshal_fixed : Frame → List ℕ × Frame
marshal_fixed f =
    let checksum = calculate_checksum f.control f.link_addr [] in
    (
      start_fixed ∷ f.control ∷ (f.link_addr ++ (checksum ∷ end_char ∷ [])),
      record f { checksum = checksum },
    )

marshal_variable : ℕ → Frame → Result (List ℕ × Frame)
marshal_variable size f =
    let length_field = 1 + size + length f.asdu in
    if ltb max_length_field length_field
    then err frame_len_exceeded
    else let checksum = calculate_checksum f.control f.link_addr f.asdu in
      ok (
        start_variable
            ∷ byte length_field
            ∷ byte length_field
            ∷ start_variable
            ∷ f.control
            ∷ (f.link_addr ++ (f.asdu ++ (checksum ∷ end_char ∷ []))),
        record f { checksum = checksum },
      )

unfoldable pub marshal_binary : Frame → ℕ → Result (List ℕ × Frame)
unfolding marshal_fixed marshal_variable
marshal_binary f size =
    if ltb 2 size
    then err invalid_link_addr_len
    else if length f.link_addr != size
    then err link_addr_length_mismatch
    else if f.start == start_fixed
    then ok (marshal_fixed f)
    else if f.start == start_variable
    then marshal_variable size f
    else err invalid_start_char

unfoldable pub new_fixed_frame : ℕ → List ℕ → Frame
new_fixed_frame control link_addr = record (started_frame start_fixed) {
  control = control;
  link_addr = link_addr;
}

unfoldable pub new_data_frame : ℕ → List ℕ → List ℕ → Frame
new_data_frame control link_addr asdu_data = record (started_frame start_variable) {
  control = control;
  link_addr = link_addr;
  asdu = asdu_data;
}
