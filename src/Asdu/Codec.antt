-- ===== src/Asdu/Codec.antt =====
-- asdu/codec.go: the values that are appended to the information object and decoded from its front.
-- An index or a slice out of range panics: a decoder then gives `none`.
pub mod Laws
pub mod Front
use go_iecp.Shared.{
  ℕ, ◌+◌, ◌*◌, ◌/◌, ◌%◌, Bool, List, [], ◌∷◌, ◌++◌, Option, none, some, bit_and, bit_or, ◌==◌, ltb,
  if◌then◌else◌, byte, ℤ, to_word, of_word,
}
use go_iecp.Asdu.Error.{Result, ok, err, info_obj_addr_fit, param}
use go_iecp.Asdu.Identifier.{set_flag}
use go_iecp.Asdu.Message.{Asdu}

unfoldable pub append_bytes : Asdu → List ℕ → Asdu
append_bytes a b = record a { info_obj = a.info_obj ++ b }

abbrev pub with_info_obj : Asdu → List ℕ → Asdu
with_info_obj a octets = record a { info_obj = octets }

-- The decoders read at the front of the slice.
decode_byte_of : Asdu → List ℕ → Option (ℕ × Asdu)
decode_byte_of a [] = none
decode_byte_of a (v ∷ rest) = some (v, with_info_obj a rest)

unfoldable pub decode_byte : Asdu → Option (ℕ × Asdu)
unfolding decode_byte_of
decode_byte a = decode_byte_of a a.info_obj

unfoldable pub append_uint16 : Asdu → ℕ → Asdu
append_uint16 a b = append_bytes a (byte (bit_and b 0xff) ∷ byte (bit_and (b / 256) 0xff) ∷ [])

decode_uint16_of : Asdu → List ℕ → Option (ℕ × Asdu)
decode_uint16_of a (b0 ∷ b1 ∷ rest) = some (b0 + b1 * 256, with_info_obj a rest)
decode_uint16_of a _ = none

unfoldable pub decode_uint16 : Asdu → Option (ℕ × Asdu)
unfolding decode_uint16_of
decode_uint16 a = decode_uint16_of a a.info_obj

-- The octets of a 32-bit number, the low one first.
abbrev pub octets32 : ℕ → List ℕ
octets32 v = byte v ∷ byte (v / 256) ∷ byte (v / 65536) ∷ byte (v / 16777216) ∷ []

decode_uint32_of : Asdu → List ℕ → Option (ℕ × Asdu)
decode_uint32_of a (b0 ∷ b1 ∷ b2 ∷ b3 ∷ rest) =
    some (b0 + b1 * 256 + b2 * 65536 + b3 * 16777216, with_info_obj a rest)
decode_uint32_of a _ = none

unfoldable pub append_info_obj_addr : Asdu → ℕ → Result Asdu
append_info_obj_addr a addr =
    if a.info_obj_addr_size == 1
    then if ltb 255 addr then err info_obj_addr_fit else ok (append_bytes a (byte addr ∷ []))
    else if a.info_obj_addr_size == 2
    then if ltb 65535 addr
      then err info_obj_addr_fit
      else ok (append_bytes a (byte addr ∷ byte (addr / 256) ∷ []))
    else if a.info_obj_addr_size == 3
    then if ltb 16777215 addr
      then err info_obj_addr_fit
      else ok (append_bytes a (byte addr ∷ byte (addr / 256) ∷ byte (addr / 65536) ∷ []))
    else err param

decode_addr3 : Asdu → List ℕ → Option (ℕ × Asdu)
decode_addr3 a (b0 ∷ b1 ∷ b2 ∷ rest) =
    some (bit_or (bit_or b0 (b1 * 256)) (b2 * 65536), with_info_obj a rest)
decode_addr3 a _ = none

decode_addr2 : Asdu → List ℕ → Option (ℕ × Asdu)
decode_addr2 a (b0 ∷ b1 ∷ rest) = some (bit_or b0 (b1 * 256), with_info_obj a rest)
decode_addr2 a _ = none

unfoldable pub decode_info_obj_addr : Asdu → Option (ℕ × Asdu)
unfolding decode_addr3 decode_addr2 decode_byte_of
decode_info_obj_addr a =
    if a.info_obj_addr_size == 1
    then decode_byte_of a a.info_obj
    else if a.info_obj_addr_size == 2
    then decode_addr2 a a.info_obj
    else if a.info_obj_addr_size == 3
    then decode_addr3 a a.info_obj
    else none

abbrev pub octets16 : ℕ → List ℕ
octets16 v = byte v ∷ byte (v / 256) ∷ []

-- `AppendNormalize` and `AppendScaled`: a Go int16 both.
unfoldable pub append_normalize : Asdu → ℤ → Asdu
append_normalize a n = append_bytes a (octets16 (to_word 65536 n))

unfoldable pub append_scaled : Asdu → ℤ → Asdu
append_scaled a i = append_bytes a (octets16 (to_word 65536 i))

signed16 : Option (ℕ × Asdu) → Option (ℤ × Asdu)
signed16 none = none
signed16 (some (v, a)) = some (of_word 32768 v, a)

unfoldable pub decode_normalize : Asdu → Option (ℤ × Asdu)
unfolding signed16 decode_uint16_of
decode_normalize a = signed16 (decode_uint16_of a a.info_obj)

unfoldable pub decode_scaled : Asdu → Option (ℤ × Asdu)
unfolding signed16 decode_uint16_of
decode_scaled a = signed16 (decode_uint16_of a a.info_obj)

pub record BinaryCounterReading : Type 0 where
  pub counter_reading : ℤ
  pub seq_number : ℕ
  pub has_carry : Bool
  pub is_adjusted : Bool
  pub is_invalid : Bool

abbrev pub counter_octets : BinaryCounterReading → List ℕ
counter_octets v =
    let value =
      set_flag v.is_invalid 0x80
        (set_flag v.is_adjusted 0x40 (set_flag v.has_carry 0x20 (bit_and v.seq_number 0x1f))) in
    octets32 (to_word 4294967296 v.counter_reading) ++ (value ∷ [])

unfoldable pub append_binary_counter_reading : Asdu → BinaryCounterReading → Asdu
append_binary_counter_reading a v = append_bytes a (counter_octets v)

abbrev counter_of : ℕ → ℕ → BinaryCounterReading
counter_of v b = record {
  counter_reading = of_word 2147483648 v;
  seq_number = bit_and b 0x1f;
  has_carry = bit_and b 0x20 == 0x20;
  is_adjusted = bit_and b 0x40 == 0x40;
  is_invalid = bit_and b 0x80 == 0x80;
}

decode_counter_of : Asdu → List ℕ → Option (BinaryCounterReading × Asdu)
decode_counter_of a (b0 ∷ b1 ∷ b2 ∷ b3 ∷ b ∷ rest) =
    some (counter_of (b0 + b1 * 256 + b2 * 65536 + b3 * 16777216) b, with_info_obj a rest)
decode_counter_of a _ = none

unfoldable pub decode_binary_counter_reading : Asdu → Option (BinaryCounterReading × Asdu)
unfolding decode_counter_of
decode_binary_counter_reading a = decode_counter_of a a.info_obj

unfoldable pub append_bits_string32 : Asdu → ℕ → Asdu
append_bits_string32 a v = append_bytes a (octets32 v)

unfoldable pub decode_bits_string32 : Asdu → Option (ℕ × Asdu)
unfolding decode_uint32_of
decode_bits_string32 a = decode_uint32_of a a.info_obj

unfoldable pub append_cp16_time2a : Asdu → ℕ → Asdu
append_cp16_time2a a msec = append_bytes a (byte msec ∷ byte (msec / 256) ∷ [])

unfoldable pub decode_cp16_time2a : Asdu → Option (ℕ × Asdu)
unfolding decode_uint16_of
decode_cp16_time2a a = decode_uint16_of a a.info_obj

unfoldable pub append_status_and_status_change_detection : Asdu → ℕ → Asdu
append_status_and_status_change_detection a scd = append_bytes a (octets32 scd)

unfoldable pub decode_status_and_status_change_detection : Asdu → Option (ℕ × Asdu)
unfolding decode_uint32_of
decode_status_and_status_change_detection a = decode_uint32_of a a.info_obj
