-- ===== src/Asdu/Codec/Front.antt =====
-- The octets of a value in front of the information object are decoded by asdu/codec.go.
use go_iecp.Shared.{ℕ, ◌<◌, ◌≡◌, ◌∷◌, ◌++◌, List, some, arith, refl, ℤ, InRange, to_word}
use go_iecp.Asdu.Message.{Asdu}
use go_iecp.Asdu.Codec.{
  append_bytes, with_info_obj, octets16, octets32, counter_octets, decode_byte, decode_byte_of,
  append_normalize, append_scaled, decode_normalize, decode_scaled, BinaryCounterReading,
  append_binary_counter_reading, decode_binary_counter_reading, append_bits_string32,
  decode_bits_string32, append_cp16_time2a, decode_cp16_time2a,
  append_status_and_status_change_detection, decode_status_and_status_change_detection,
}
use go_iecp.Asdu.Codec.Laws.{
  decode-append, decode-append_signed, decode_binary_counter_reading-append_binary_counter_reading,
}

module _ (a : Asdu) (rest : List ℕ) where
  pub decode_byte-front :
      (b : ℕ) → decode_byte (with_info_obj a (b ∷ rest)) ≡ some (b, with_info_obj a rest)
  unfolding decode_byte decode_byte_of
  decode_byte-front b = refl

  pub decode_cp16-front :
      (v : ℕ)
      → v < 65536
      → decode_cp16_time2a (with_info_obj a (octets16 v ++ rest)) ≡ some (v, with_info_obj a rest)
  unfolding append_cp16_time2a append_bytes
  decode_cp16-front v h = (decode-append a v 0 rest h (ground arith)).1

  pub decode_bits_string32-front :
      (v : ℕ)
      → v < 4294967296
      → decode_bits_string32 (with_info_obj a (octets32 v ++ rest)) ≡ some (v, with_info_obj a rest)
  unfolding append_bits_string32 append_bytes
  decode_bits_string32-front v h = (decode-append a 0 v rest (ground arith) h).2

  pub decode_status-front :
      (v : ℕ)
      → v < 4294967296
      → decode_status_and_status_change_detection (with_info_obj a (octets32 v ++ rest))
        ≡ some (v, with_info_obj a rest)
  unfolding append_status_and_status_change_detection append_bytes
  decode_status-front v h = (decode-append a 0 v rest (ground arith) h).3

  pub decode_normalize-front :
      (z : ℤ)
      → InRange 32768 z
      → decode_normalize (with_info_obj a (octets16 (to_word 65536 z) ++ rest))
        ≡ some (z, with_info_obj a rest)
  unfolding append_normalize append_bytes
  decode_normalize-front z h = (decode-append_signed a z rest h).0

  pub decode_scaled-front :
      (z : ℤ)
      → InRange 32768 z
      → decode_scaled (with_info_obj a (octets16 (to_word 65536 z) ++ rest))
        ≡ some (z, with_info_obj a rest)
  unfolding append_scaled append_bytes
  decode_scaled-front z h = (decode-append_signed a z rest h).1

  pub decode_counter-front :
      (v : BinaryCounterReading)
      → InRange 2147483648 v.counter_reading
      → v.seq_number < 32
      → decode_binary_counter_reading (with_info_obj a (counter_octets v ++ rest))
        ≡ some (v, with_info_obj a rest)
  unfolding append_binary_counter_reading append_bytes
  decode_counter-front v h s =
      decode_binary_counter_reading-append_binary_counter_reading a v rest h s
