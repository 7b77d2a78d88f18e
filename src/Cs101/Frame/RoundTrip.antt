-- ===== src/Cs101/Frame/RoundTrip.antt =====
-- A frame that cs101/frame.go marshals is parsed back, whatever follows it.
use go_iecp.Shared.{
  ℕ, ◌+◌, ◌≡◌, List, [], ◌∷◌, ◌++◌, some, ◌==◌, if◌then◌else◌, length, arith, length-append,
  take-append, drop-append, get_or-append, append_assoc,
}
use go_iecp.Cs101.Frame.{
  Frame, ok, start_fixed, start_variable, end_char, calculate_checksum, read_full, parse_fixed,
  parse_variable, parse_body, fixed_frame, variable_frame, check_end, parse_frame, marshal_fixed,
  marshal_variable, marshal_binary,
}

-- What the other station holds of a frame: a fixed one carries no ASDU and no lengths.
abbrev pub received : ℕ → Frame → Frame
received size f = record f {
  length1 = if f.start == start_fixed then 0 else 1 + size + length f.asdu;
  length2 = if f.start == start_fixed then 0 else 1 + size + length f.asdu;
  start2 = if f.start == start_fixed then 0 else start_variable;
  asdu = if f.start == start_fixed then [] else f.asdu;
  checksum =
      calculate_checksum f.control f.link_addr (if f.start == start_fixed then [] else f.asdu);
  end = end_char;
}

read_full-append : (n : ℕ) (xs ys : List ℕ) → n ≡ length xs → read_full n (xs ++ ys) ≡ some (xs, ys)
read_full-append n xs ys h =
    ground (arith, length-append xs ys, take-append xs ys, drop-append xs ys)

parse_fixed-marshal_fixed :
    (f : Frame) (rest : List ℕ)
    → parse_fixed (length f.link_addr) (
        f.control
        ∷ ((f.link_addr ++ (calculate_checksum f.control f.link_addr [] ∷ end_char ∷ [])) ++ rest))
      ≡ ok (received (length f.link_addr) (record f { start = start_fixed }), rest)
unfolding parse_fixed fixed_frame check_end
parse_fixed-marshal_fixed f rest =
    let check = calculate_checksum f.control f.link_addr [] in
    let tail = check ∷ end_char ∷ [] in
    ground (
      arith,
      read_full-append (length f.link_addr + 3) (f.control ∷ (f.link_addr ++ tail)) rest,
      length-append f.link_addr tail,
      take-append f.link_addr tail,
      get_or-append f.link_addr tail 0 0,
      get_or-append f.link_addr tail 1 0,
    )

parse_variable-parse_body :
    (size a b c d : ℕ) (reader : List ℕ)
    → parse_variable size (a ∷ b ∷ c ∷ d ∷ reader) ≡ parse_body size (a ∷ b ∷ c ∷ d ∷ []) reader
unfolding parse_variable
parse_variable-parse_body size a b c d reader = ground arith

-- The octets that follow the control field of a variable frame.
abbrev body_of : Frame → List ℕ
body_of f =
    f.link_addr ++ (f.asdu ++ (calculate_checksum f.control f.link_addr f.asdu ∷ end_char ∷ []))

abbrev header_of : Frame → List ℕ
header_of f =
    (1 + length f.link_addr + length f.asdu)
    ∷ (1 + length f.link_addr + length f.asdu)
    ∷ start_variable
    ∷ f.control
    ∷ []

length-body_of : (f : Frame) → length (body_of f) ≡ 2 + length f.link_addr + length f.asdu
length-body_of f =
    let tail = calculate_checksum f.control f.link_addr f.asdu ∷ end_char ∷ [] in
    omega (arith, length-append f.link_addr (f.asdu ++ tail), length-append f.asdu tail)

variable_frame-body_of :
    (f : Frame)
    → variable_frame (length f.link_addr) (header_of f) (body_of f)
      ≡ received (length f.link_addr) (record f { start = start_variable })
unfolding variable_frame
variable_frame-body_of f =
    let tail = calculate_checksum f.control f.link_addr f.asdu ∷ end_char ∷ [] in
    ground (
      arith,
      append_assoc f.link_addr f.asdu tail,
      length-append f.link_addr f.asdu,
      take-append f.link_addr (f.asdu ++ tail),
      take-append (f.link_addr ++ f.asdu) tail,
      drop-append f.link_addr f.asdu,
      get_or-append (f.link_addr ++ f.asdu) tail 0 0,
      get_or-append (f.link_addr ++ f.asdu) tail 1 0,
    )

parse_body-body_of :
    (f : Frame) (rest : List ℕ)
    → parse_body (length f.link_addr) (header_of f) (body_of f ++ rest)
      ≡ ok (received (length f.link_addr) (record f { start = start_variable }), rest)
unfolding parse_body check_end
parse_body-body_of f rest = ground (
  arith,
  length-body_of f,
  read_full-append (2 + length f.link_addr + length f.asdu) (body_of f) rest,
  variable_frame-body_of f,
)

parse_variable-marshal_variable :
    (f : Frame) (rest : List ℕ)
    → parse_variable (length f.link_addr) (header_of f ++ (body_of f ++ rest))
      ≡ ok (received (length f.link_addr) (record f { start = start_variable }), rest)
parse_variable-marshal_variable f rest =
    let n = 1 + length f.link_addr + length f.asdu in
    rw (
      parse_variable-parse_body (length f.link_addr) n n start_variable f.control
          (body_of f ++ rest),
      parse_body-body_of f rest,
    )

-- The octets that MarshalBinary makes of a frame, followed by any others, are parsed by
-- ParseFrame, for the same size of the link address, to a frame of the same start, control field,
-- link address and, for a variable frame, ASDU, and the others are left in the reader. The lengths
-- of a variable frame are those of its contents, the checksum is that of the contents, and a fixed
-- frame carries no ASDU.
pub parse_frame-marshal_binary :
    (f : Frame) (size : ℕ) (rest : List ℕ) {octets : List ℕ} {g : Frame}
    → marshal_binary f size ≡ ok (octets, g)
    → parse_frame size (octets ++ rest) ≡ ok (received size f, rest)
unfolding marshal_binary parse_frame marshal_fixed marshal_variable
parse_frame-marshal_binary f size rest h =
    ground (arith, parse_fixed-marshal_fixed f rest, parse_variable-marshal_variable f rest)
