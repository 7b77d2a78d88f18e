-- ===== src/Cs101/Frame/Accept.antt =====
-- What cs101/frame.go accepts as a frame: the octets that it would have marshalled, but for the
-- second start octet, which it does not look at.
use go_iecp.Shared.{
  ℕ, suc, zero, ◌+◌, ◌-◌, ◌≡◌, ◌≢◌, ◌<◌, refl, List, [], ◌∷◌, ◌++◌, ◌==◌, if◌then◌else◌, length,
  take, drop, get_or, arith, length-take, take-append-drop, length-drop, append_assoc, take-take,
  ◌≤◌,
}
use go_iecp.Cs101.Frame.{
  Frame, ok, start_fixed, start_variable, end_char, calculate_checksum, single_char_ack,
  parse_fixed, parse_variable, parse_body, fixed_frame, variable_frame, check_end, parse_frame,
  marshal_fixed, marshal_variable, marshal_binary,
}

take-two :
    (n : ℕ) (xs : List ℕ)
    → length xs ≡ n + 2
    → take n xs ++ (get_or xs n 0 ∷ get_or xs (n + 1) 0 ∷ []) ≡ xs
take-two n [] h = ground arith
take-two zero (x ∷ []) h = ground arith
take-two zero (x ∷ y ∷ []) h = refl
take-two zero (x ∷ y ∷ z ∷ xs) h = ground arith
take-two (suc n) (x ∷ xs) h = ground (arith, take-two n xs)

-- The octets of a frame on the wire.
abbrev pub wire : Frame → List ℕ
wire f =
    if f.start == start_fixed
    then start_fixed ∷ f.control ∷ (f.link_addr ++ (f.checksum ∷ f.end ∷ []))
    else f.start
      ∷ f.length1
      ∷ f.length2
      ∷ f.start2
      ∷ f.control
      ∷ (f.link_addr ++ (f.asdu ++ (f.checksum ∷ f.end ∷ [])))

parse_fixed-ok :
    (size : ℕ) (reader : List ℕ) (f : Frame) (rest : List ℕ)
    → parse_fixed size reader ≡ ok (f, rest)
    → (start_fixed ∷ reader ≡ wire f ++ rest)
      × (f.start ≡ start_fixed)
      × (f.end ≡ end_char)
      × (length f.link_addr ≡ size)
      × (calculate_checksum f.control f.link_addr f.asdu ≡ f.checksum)
      × (f.asdu ≡ [])
unfolding parse_fixed fixed_frame check_end
parse_fixed-ok size [] f rest h = ground arith
parse_fixed-ok size (c ∷ reader) f rest h = ground (
  arith,
  take-append-drop (size + 2) reader,
  length-take (size + 2) reader,
  take-two size (take (size + 2) reader),
  length-take size (take (size + 2) reader),
)

-- The body of a variable frame, cut into its parts.
body-parts :
    (size n : ℕ) (body : List ℕ)
    → size ≤ n
    → length body ≡ n + 2
    → take size body ++ (drop size (take n body) ++ (get_or body n 0 ∷ get_or body (n + 1) 0 ∷ []))
      ≡ body
body-parts size n body le len =
    let tail = get_or body n 0 ∷ get_or body (n + 1) 0 ∷ [] in
    ground (
      arith,
      take-append-drop size (take n body),
      take-take size n body,
      take-two n body,
      append_assoc (take size body) (drop size (take n body)) tail,
    )

parse_body-ok :
    (size a b s c : ℕ) (reader : List ℕ) (f : Frame) (rest : List ℕ)
    → parse_body size (a ∷ b ∷ s ∷ c ∷ []) reader ≡ ok (f, rest)
    → (start_variable ∷ a ∷ b ∷ s ∷ c ∷ reader ≡ wire f ++ rest)
      × (f.start ≡ start_variable)
      × (f.end ≡ end_char)
      × (length f.link_addr ≡ size)
      × (calculate_checksum f.control f.link_addr f.asdu ≡ f.checksum)
      × (f.length1 ≡ a)
      × (f.length2 ≡ a)
      × (f.start2 ≡ s)
      × (1 + size + length f.asdu ≡ a)
unfolding parse_body variable_frame check_end
parse_body-ok size a b s c reader f rest h = ground (
  arith,
  take-append-drop (a + 1) reader,
  length-take (a + 1) reader,
  body-parts size (a - 1) (take (a + 1) reader),
  length-take size (take (a + 1) reader),
  length-take (a - 1) (take (a + 1) reader),
  length-drop size (take (a - 1) (take (a + 1) reader)),
  append_assoc (take size (take (a + 1) reader))
      (drop size (take (a - 1) (take (a + 1) reader))
        ++ (get_or (take (a + 1) reader) (a - 1) 0 ∷ get_or (take (a + 1) reader) a 0 ∷ []))
      (drop (a + 1) reader),
)

parse_variable-ok :
    (size : ℕ) (reader : List ℕ) (f : Frame) (rest : List ℕ)
    → parse_variable size reader ≡ ok (f, rest)
    → (start_variable ∷ reader ≡ wire f ++ rest)
      × (f.start ≡ start_variable)
      × (f.end ≡ end_char)
      × (length f.link_addr ≡ size)
      × (calculate_checksum f.control f.link_addr f.asdu ≡ f.checksum)
      × (f.length1 ≡ get_or reader 0 0)
      × (f.length2 ≡ f.length1)
      × (1 + size + length f.asdu ≡ f.length1)
unfolding parse_variable
parse_variable-ok size (a ∷ b ∷ s ∷ c ∷ reader) f rest h =
    ground (arith, parse_body-ok size a b s c reader f rest)
parse_variable-ok size (a ∷ b ∷ s ∷ []) f rest h = ground arith
parse_variable-ok size (a ∷ b ∷ []) f rest h = ground arith
parse_variable-ok size (a ∷ []) f rest h = ground arith
parse_variable-ok size [] f rest h = ground arith

-- A frame other than the single octet that ParseFrame accepts, of a reader whose octet after the
-- start is below 256, is on the wire exactly the octets that it consumed, the others are left in
-- the reader, and MarshalBinary makes the same octets of it and leaves it as it is, except that
-- its second start octet becomes 0x68 whatever it was.
pub marshal_binary-parse_frame :
    (size start : ℕ) (reader : List ℕ) (f : Frame) (rest : List ℕ)
    → get_or reader 0 0 < 256
    → start ≢ single_char_ack
    → parse_frame size (start ∷ reader) ≡ ok (f, rest)
    → (start ∷ reader ≡ wire f ++ rest)
      × (marshal_binary f size ≡ ok (wire (record f { start2 = start_variable }), f))
unfolding parse_frame marshal_binary marshal_fixed marshal_variable
marshal_binary-parse_frame size start reader f rest small ack h =
    ground (arith, parse_fixed-ok size reader f rest, parse_variable-ok size reader f rest)

-- ParseFrame decides on a variable frame without a look at its second start octet: with any other
-- value there it accepts the same octets to the same frame, but for that octet.
pub parse_frame-start2 :
    (size a b s t c : ℕ) (reader : List ℕ) {f : Frame} {rest : List ℕ}
    → parse_frame size (start_variable ∷ a ∷ b ∷ s ∷ c ∷ reader) ≡ ok (f, rest)
    → parse_frame size (start_variable ∷ a ∷ b ∷ t ∷ c ∷ reader)
      ≡ ok (record f { start2 = t }, rest)
unfolding parse_frame parse_variable parse_body variable_frame check_end
parse_frame-start2 size a b s t c reader h = ground arith
