-- ===== src/Asdu/Codec/Laws.antt =====
-- What asdu/codec.go appends to an empty information object it decodes from its front.
use go_iecp.Shared.{
  ℕ, ◌+◌, ◌*◌, ◌/◌, ◌<◌, ◌≡◌, List, [], ◌++◌, some, bit_and, bit_or, arith, byte, ℤ, InRange,
  to_word, of_word, ◌==◌,
}
use go_iecp.Shared.Bits.{
  bit_or-shift, bit_and_ff, bit_and_1f, bit_and_20, bit_and_40, bit_and_80, bit_or_20, bit_or_40,
  bit_or_80,
}
use go_iecp.Asdu.Identifier.{set_flag}
use go_iecp.Asdu.Error.{ok}
use go_iecp.Asdu.Message.{Asdu}
use go_iecp.Asdu.Codec.{
  append_bytes, with_info_obj, decode_uint16_of, decode_uint16, decode_uint32_of, append_uint16,
  append_info_obj_addr, decode_info_obj_addr, decode_addr2, decode_addr3, decode_byte_of,
  append_normalize, append_scaled, signed16, decode_normalize, decode_scaled, BinaryCounterReading,
  append_binary_counter_reading, decode_counter_of, decode_binary_counter_reading,
  append_bits_string32, decode_bits_string32, append_cp16_time2a, decode_cp16_time2a,
  append_status_and_status_change_detection, decode_status_and_status_change_detection,
}

-- The ASDU of which the information object has these octets in front of it.
abbrev pub followed_by : Asdu → List ℕ → Asdu
followed_by a rest = with_info_obj a (a.info_obj ++ rest)

abbrev pub emptied : Asdu → Asdu
emptied a = with_info_obj a []

join3 :
    (b0 b1 b2 : ℕ)
    → b0 < 256
    → b1 < 256
    → bit_or (bit_or b0 (b1 * 256)) (b2 * 65536) ≡ b0 + b1 * 256 + b2 * 65536
join3 b0 b1 b2 h0 h1 = ground (arith, bit_or-shift 8 b0 b1, bit_or-shift 16 (b0 + b1 * 256) b2)

-- An information object address that AppendInfoObjAddr appends to an ASDU without information
-- objects, whatever octets follow, is what DecodeInfoObjAddr takes from the front of it, and the
-- octets that follow are left.
pub decode_info_obj_addr-append_info_obj_addr :
    (a : Asdu) (addr : ℕ) (rest : List ℕ) {b : Asdu}
    → append_info_obj_addr (emptied a) addr ≡ ok b
    → decode_info_obj_addr (followed_by b rest) ≡ some (addr, with_info_obj a rest)
unfolding append_info_obj_addr append_bytes decode_info_obj_addr decode_addr2 decode_addr3
    decode_byte_of
decode_info_obj_addr-append_info_obj_addr a addr rest h = ground (
  arith,
  bit_or-shift 8 (byte addr) (byte (addr / 256)),
  join3 (byte addr) (byte (addr / 256)) (byte (addr / 65536)),
)

-- A number of the width of its Go type that is appended to an ASDU without information objects as
-- a uint16, a CP16Time2a, a bit string or a status with change detection, whatever octets follow,
-- is decoded from the front of it, and the octets that follow are left.
pub decode-append :
    (a : Asdu) (v w : ℕ) (rest : List ℕ)
    → v < 65536
    → w < 4294967296
    → (decode_uint16 (followed_by (append_uint16 (emptied a) v) rest)
        ≡ some (v, with_info_obj a rest))
      × (decode_cp16_time2a (followed_by (append_cp16_time2a (emptied a) v) rest)
          ≡ some (v, with_info_obj a rest))
      × (decode_bits_string32 (followed_by (append_bits_string32 (emptied a) w) rest)
          ≡ some (w, with_info_obj a rest))
      × (decode_status_and_status_change_detection
            (followed_by (append_status_and_status_change_detection (emptied a) w) rest)
          ≡ some (w, with_info_obj a rest))
unfolding append_uint16 decode_uint16 decode_uint16_of append_cp16_time2a decode_cp16_time2a
    append_bits_string32 decode_bits_string32 decode_uint32_of
    append_status_and_status_change_detection decode_status_and_status_change_detection append_bytes
decode-append a v w rest hv hw = ground (arith, bit_and_ff v, bit_and_ff (v / 256))

word16-signed : (z : ℤ) → InRange 32768 z → of_word 32768 (to_word 65536 z) ≡ z
word16-signed z h = ground arith

-- A normalized or a scaled value of sixteen bits with its sign that is appended to an ASDU
-- without information objects, whatever octets follow, is decoded from the front of it, and the
-- octets that follow are left.
pub decode-append_signed :
    (a : Asdu) (z : ℤ) (rest : List ℕ)
    → InRange 32768 z
    → (decode_normalize (followed_by (append_normalize (emptied a) z) rest)
        ≡ some (z, with_info_obj a rest))
      × (decode_scaled (followed_by (append_scaled (emptied a) z) rest)
          ≡ some (z, with_info_obj a rest))
unfolding append_normalize decode_normalize append_scaled decode_scaled signed16 decode_uint16_of
    append_bytes
decode-append_signed a z rest h = ground (arith, word16-signed z h)

-- The octet after the counter.
abbrev sequence_octet : BinaryCounterReading → ℕ
sequence_octet v =
    set_flag v.is_invalid 0x80
      (set_flag v.is_adjusted 0x40 (set_flag v.has_carry 0x20 (bit_and v.seq_number 0x1f)))

-- It holds the sequence number and the flags.
sequence_octet-fields :
    (v : BinaryCounterReading)
    → v.seq_number < 32
    → (bit_and (sequence_octet v) 0x1f ≡ v.seq_number)
      × ((bit_and (sequence_octet v) 0x20 == 0x20) ≡ v.has_carry)
      × ((bit_and (sequence_octet v) 0x40 == 0x40) ≡ v.is_adjusted)
      × ((bit_and (sequence_octet v) 0x80 == 0x80) ≡ v.is_invalid)
sequence_octet-fields v h =
    let n = v.seq_number in
    ground (
      arith,
      bit_and_1f n,
      bit_or_40 n,
      bit_or_40 (n + 32),
      bit_or_80 n,
      bit_or_80 (n + 32),
      bit_or_80 (n + 64),
      bit_or_80 (n + 96),
      bit_or_20 n,
      bit_and_1f (sequence_octet v),
      bit_and_20 (sequence_octet v),
      bit_and_40 (sequence_octet v),
      bit_and_80 (sequence_octet v),
    )

word32-signed : (z : ℤ) → InRange 2147483648 z → of_word 2147483648 (to_word 4294967296 z) ≡ z
word32-signed z h = ground arith

-- A counter reading of 32 bits with its sign, with a sequence number of five bits and any flags,
-- that is appended to an ASDU without information objects, whatever octets follow, is decoded
-- from the front of it, and the octets that follow are left.
pub decode_binary_counter_reading-append_binary_counter_reading :
    (a : Asdu) (v : BinaryCounterReading) (rest : List ℕ)
    → InRange 2147483648 v.counter_reading
    → v.seq_number < 32
    → decode_binary_counter_reading (followed_by (append_binary_counter_reading (emptied a) v) rest)
      ≡ some (v, with_info_obj a rest)
unfolding append_binary_counter_reading decode_binary_counter_reading decode_counter_of append_bytes
decode_binary_counter_reading-append_binary_counter_reading a v rest h s =
    ground (arith, word32-signed v.counter_reading h, sequence_octet-fields v s)
