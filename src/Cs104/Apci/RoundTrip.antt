-- ===== src/Cs104/Apci/RoundTrip.antt =====
-- The parser of cs104/apci.go accepts the frames that its builders make, and no others.
use go_iecp.Shared.{
  ℕ, ◌+◌, ◌*◌, ◌/◌, ◌<◌, ◌≤◌, ◌≡◌, ◌≢◌, refl, true, List, [], ◌∷◌, Option, some, bit_and, bit_or,
  length, get_or, arith, byte, uint16, All, IsByte, Bool-cases, inl, inr, ◌==◌,
}
use go_iecp.Shared.Bits.{bit_and_01, bit_and_03, bit_and_fc, bit_or_03}
use go_iecp.Asdu.Message.{asdu_size_max}
use go_iecp.Cs104.Apci.{
  Apci, i_apci, s_apci, u_apci, new_i_frame, new_s_frame, new_u_frame, is_valid_u_function, ok,
  parse, parse_i, parse_s, parse_u, parse_apci, start_frame, apdu_size_max,
}

-- The frame that the builder of each format makes.
unfoldable pub frame_of : Apci → List ℕ → Option (List ℕ)
frame_of (i_apci send_sn rcv_sn) asdus = new_i_frame send_sn rcv_sn asdus
frame_of (s_apci rcv_sn) asdus = some (new_s_frame rcv_sn)
frame_of (u_apci function) asdus = some (new_u_frame function)

-- Sequence numbers have fifteen bits, an I frame has an ASDU, the others none.
abbrev pub IsLegal : Apci → List ℕ → Type 0
IsLegal (i_apci send_sn rcv_sn) asdus = (send_sn < 32768) × (rcv_sn < 32768) × (0 < length asdus)
IsLegal (s_apci rcv_sn) asdus = (rcv_sn < 32768) × (asdus ≡ [])
IsLegal (u_apci function) asdus = (is_valid_u_function function ≡ true) × (asdus ≡ [])

u_function_byte :
    (f : ℕ)
    → is_valid_u_function f ≡ true
    → (bit_and (bit_or f 0x03) 0x01 ≡ 1)
      × (bit_and (bit_or f 0x03) 0x03 ≡ 3)
      × (bit_and (bit_or f 0x03) 0xfc ≡ f)
unfolding is_valid_u_function
u_function_byte f h = ground arith

u_control :
    (ctr1 : ℕ)
    → ctr1 < 256
    → bit_and ctr1 0x01 ≢ 0
    → bit_and ctr1 0x03 ≢ 1
    → bit_or (bit_and ctr1 0xfc) 0x03 ≡ ctr1
u_control ctr1 b odd other =
    ground (arith, bit_and_01 ctr1, bit_and_03 ctr1, bit_and_fc ctr1, bit_or_03 (ctr1 / 4 * 4))

-- Every frame that a builder makes of a legal header and ASDU is parsed to that header and ASDU.
pub parse-frame_of :
    (head : Apci) (asdus : List ℕ) {apdu : List ℕ}
    → IsLegal head asdus
    → frame_of head asdus ≡ some apdu
    → parse apdu ≡ ok head asdus
unfolding parse frame_of new_i_frame new_s_frame new_u_frame
parse-frame_of (i_apci s r) asdus l h =
    ground (arith, bit_and_01 (byte (uint16 (s * 2))), bit_and_01 (byte (uint16 (r * 2))))
parse-frame_of (s_apci r) asdus l h = ground (arith, bit_and_01 (byte (uint16 (r * 2))))
parse-frame_of (u_apci f) asdus l h = ground (arith, u_function_byte f)

abbrev Rebuilds : Apci → List ℕ → List ℕ → Type 0
Rebuilds head asdus apdu = (frame_of head asdus ≡ some apdu) × IsLegal head asdus

module _ (ctr1 ctr2 ctr3 ctr4 : ℕ) (asdu : List ℕ)
    (bs : All IsByte (ctr1 ∷ ctr2 ∷ ctr3 ∷ ctr4 ∷ [])) (short : length asdu ≤ asdu_size_max) where
  abbrev apdu : List ℕ
  apdu = start_frame ∷ (length asdu + 4) ∷ ctr1 ∷ ctr2 ∷ ctr3 ∷ ctr4 ∷ asdu

  parse_i-Rebuilds :
      {head : Apci} {asdus : List ℕ}
      → bit_and ctr1 0x01 ≡ 0
      → parse_i (length asdu + 4) ctr1 ctr2 ctr3 ctr4 asdu ≡ ok head asdus
      → Rebuilds head asdus apdu
  unfolding parse_i frame_of new_i_frame
  parse_i-Rebuilds even h = ground (arith, bit_and_01 ctr1, bit_and_01 ctr3)

  parse_s-Rebuilds :
      {head : Apci} {asdus : List ℕ}
      → parse_s (length asdu + 4) ctr1 ctr2 ctr3 ctr4 asdu ≡ ok head asdus
      → Rebuilds head asdus apdu
  unfolding parse_s frame_of new_s_frame
  parse_s-Rebuilds h = ground (arith, bit_and_01 ctr3)

  parse_u-ok :
      {head : Apci} {asdus : List ℕ}
      → parse_u (length asdu + 4) ctr1 ctr2 ctr3 ctr4 asdu ≡ ok head asdus
      → (head ≡ u_apci (bit_and ctr1 0xfc))
        × (asdus ≡ [])
        × (asdu ≡ [])
        × (ctr2 ≡ 0)
        × (ctr3 ≡ 0)
        × (ctr4 ≡ 0)
        × (is_valid_u_function (bit_and ctr1 0xfc) ≡ true)
  unfolding parse_u
  parse_u-ok h = ground arith

  parse_u-Rebuilds :
      {head : Apci} {asdus : List ℕ}
      → bit_and ctr1 0x01 ≢ 0
      → bit_and ctr1 0x03 ≢ 1
      → parse_u (length asdu + 4) ctr1 ctr2 ctr3 ctr4 asdu ≡ ok head asdus
      → Rebuilds head asdus apdu
  unfolding frame_of new_u_frame
  parse_u-Rebuilds odd other h =
      let (is_head, no_asdus, no_asdu, e2, e3, e4, valid) = parse_u-ok h in
      rw (is_head, no_asdus, no_asdu, e2, e3, e4)
        ((rw (u_control ctr1 bs.0 odd other)), (valid, refl))

  parse_apci-Rebuilds :
      {head : Apci} {asdus : List ℕ}
      → parse_apci (length asdu + 4) ctr1 ctr2 ctr3 ctr4 asdu ≡ ok head asdus
      → Rebuilds head asdus apdu
  unfolding parse_apci
  parse_apci-Rebuilds {head} {asdus} h = elim (Bool-cases (bit_and ctr1 0x01 == 0)) [
    | inl even ↦ parse_i-Rebuilds (ground arith) (ground arith)
    | inr odd ↦ elim (Bool-cases (bit_and ctr1 0x03 == 0x01)) [
      | inl s ↦ parse_s-Rebuilds (ground arith)
      | inr u ↦ parse_u-Rebuilds (ground arith) (ground arith) (ground arith)
    ]
  ]

parse_apci-length :
    (len ctr1 ctr2 ctr3 ctr4 : ℕ) (asdu : List ℕ) {head : Apci} {asdus : List ℕ}
    → parse_apci len ctr1 ctr2 ctr3 ctr4 asdu ≡ ok head asdus
    → len ≡ length asdu + 4
unfolding parse_apci
parse_apci-length len ctr1 ctr2 ctr3 ctr4 asdu h = ground arith

-- A frame of octets, from the start octet on and of 255 octets at most, that the parser accepts
-- is the very frame that the builder makes of the header and the ASDU found in it, and these are
-- legal.
pub frame_of-parse :
    (apdu : List ℕ) {head : Apci} {asdus : List ℕ}
    → All IsByte apdu
    → get_or apdu 0 0 ≡ start_frame
    → length apdu ≤ apdu_size_max
    → parse apdu ≡ ok head asdus
    → (frame_of head asdus ≡ some apdu) × IsLegal head asdus
unfolding parse
frame_of-parse (s ∷ n ∷ c1 ∷ c2 ∷ c3 ∷ c4 ∷ rest) bs e l h =
    let len = parse_apci-length n c1 c2 c3 c4 rest h in
    rw (e, len) (parse_apci-Rebuilds c1 c2 c3 c4 rest (omega arith) (omega arith) (rw len at h))
frame_of-parse _ bs e l h = cc
