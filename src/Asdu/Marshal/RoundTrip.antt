-- ===== src/Asdu/Marshal/RoundTrip.antt =====
-- An ASDU that asdu/asdu.go marshals is read back.
use go_iecp.Shared.{
  ℕ, ◌+◌, ◌≡◌, ◌<◌, ◌≤◌, ◌/◌, ◌⊎◌, ◌≢◌, false, List, none, some, length, byte, ◌==◌, if◌then◌else◌,
  arith,
}
use go_iecp.Shared.Bits.{bit_or-shift}
use go_iecp.Asdu.Error.{ok}
use go_iecp.Asdu.Identifier.Laws.{parse-variable_struct_value, parse-cause_of_transmission_value}
use go_iecp.Asdu.Message.{Params, Identifier, Asdu, asdu_size_max, identifier_size, valid}
use go_iecp.Asdu.Marshal.{
  marshal_refusal, checked_octets, raw_octets, parse_fields, marshal_binary, unmarshal_binary,
  expected_info_obj_len, fix_info_obj_size, variable_info_obj_size, objects_size, expected_of,
  expected_fixed,
}
use go_iecp.Asdu.TypeId.{f_sg_na_1}
use go_iecp.Asdu.Identifier.{get_info_obj_size, invalid_common_addr, global_common_addr}

-- The Go types' ranges, and the number that the qualifier has seven bits for.
pub record IsWellFormed (a : Asdu) : Type 0 where
  pub type_id_byte : a.type_id < 256
  pub number_fits : a.variable.number < 128
  pub cause_fits : a.coa.cause < 64
  pub orig_addr_byte : a.orig_addr < 256
  pub common_addr_uint16 : a.common_addr < 65536

-- A cause of one octet does not carry the originator address.
abbrev pub received : Asdu → Asdu
received a = record a {
  identifier = record id { orig_addr = if a.cause_size == 1 then 0 else a.orig_addr };
}
  where
    id : Identifier
    id = a.identifier

pub record IsSized (p : Params) : Type 0 where
  pub cause_size_valid : (p.cause_size ≡ 1) ⊎ (p.cause_size ≡ 2)
  pub common_addr_size_valid : (p.common_addr_size ≡ 1) ⊎ (p.common_addr_size ≡ 2)

pub valid-IsSized : (p : Params) → valid p ≡ none → IsSized p
unfolding valid
valid-IsSized p h = ground arith

marshal_refusal-none : (a : Asdu) → marshal_refusal a ≡ none → IsSized a.params
unfolding marshal_refusal
marshal_refusal-none a h = ground arith

parse_fields-raw_octets :
    (a : Asdu)
    → IsWellFormed a
    → marshal_refusal a ≡ none
    → parse_fields a.params (raw_octets a) ≡ received a
unfolding parse_fields raw_octets marshal_refusal identifier_size
parse_fields-raw_octets a w h = ground (
  arith,
  parse-variable_struct_value a.variable,
  parse-cause_of_transmission_value a.coa,
  bit_or-shift 8 (byte a.common_addr) (byte (a.common_addr / 256)),
)

fix_info_obj_size_exact :
    (a : Asdu)
    → valid a.params ≡ none
    → a.variable.number ≢ 0
    → expected_info_obj_len a ≡ some (length a.info_obj)
    → fix_info_obj_size (received a) ≡ (received a, none)
unfolding valid expected_info_obj_len fix_info_obj_size variable_info_obj_size objects_size
fix_info_obj_size_exact a v n h = ground arith

marshal_refusal-number : (a : Asdu) → marshal_refusal a ≡ none → a.variable.number ≢ 0
unfolding marshal_refusal
marshal_refusal-number a h = ground arith

marshal_binary-ok :
    (a : Asdu) {raw : List ℕ} {n : ℕ}
    → expected_info_obj_len a ≡ some n
    → marshal_binary a ≡ ok raw
    → (marshal_refusal a ≡ none) × (raw ≡ raw_octets a) × (n ≡ length a.info_obj)
unfolding marshal_binary
marshal_binary-ok a e h = ground arith

-- What a marshalled ASDU is like.
pub marshal_binary-parts :
    (a : Asdu) (raw : List ℕ)
    → marshal_binary a ≡ ok raw
    → (raw ≡ raw_octets a)
      × IsSized a.params
      × (identifier_size a.params + length a.info_obj ≤ asdu_size_max)
unfolding marshal_binary marshal_refusal checked_octets
marshal_binary-parts a raw h = ground (arith, h)

length-raw_octets :
    (a : Asdu) → marshal_refusal a ≡ none → identifier_size a.params ≤ length (raw_octets a)
unfolding raw_octets identifier_size marshal_refusal
length-raw_octets a h = ground arith

pub unmarshal_binary-sized :
    (a : Asdu) (raw : List ℕ)
    → IsSized a.params
    → identifier_size a.params ≤ length raw
    → unmarshal_binary a raw ≡ fix_info_obj_size (parse_fields a.params raw)
unfolding unmarshal_binary
unmarshal_binary-sized a raw s h = ground arith

-- What `MarshalBinary` writes for a well-formed ASDU under valid parameters, of a type and
-- payload whose length is knowable, `UnmarshalBinary` reads back without an error under the same
-- parameters, whatever the receiving ASDU held: every field and octet is the sender's, except
-- that a cause of one octet loses the originator address.
pub unmarshal_binary-marshal_binary :
    (a b : Asdu) {raw : List ℕ} {n : ℕ}
    → IsWellFormed a
    → valid a.params ≡ none
    → b.params ≡ a.params
    → expected_info_obj_len a ≡ some n
    → marshal_binary a ≡ ok raw
    → unmarshal_binary b raw ≡ (received a, none)
unmarshal_binary-marshal_binary a b w v p e h =
    let (fits, raw_eq, n_eq) = marshal_binary-ok a e h in
    ground (
      arith,
      unmarshal_binary-sized b (raw_octets a),
      marshal_refusal-none a fits,
      length-raw_octets a fits,
      parse_fields-raw_octets a w fits,
      fix_info_obj_size_exact a v (marshal_refusal-number a fits),
    )

-- A type other than the segment has the length that its size calls for.
pub expected_info_obj_len-sized :
    (a : Asdu) {size : ℕ}
    → get_info_obj_size a.type_id ≡ ok size
    → (a.type_id == f_sg_na_1) ≡ false
    → expected_info_obj_len a ≡ some (objects_size a size)
unfolding expected_info_obj_len variable_info_obj_size expected_of expected_fixed
expected_info_obj_len-sized a h s = ground (arith, h, s)

-- A cause and a common address that `MarshalBinary` does not refuse.
pub record IsMarshallable (a : Asdu) : Type 0 where
  pub cause_set : a.coa.cause ≢ 0
  pub common_addr_set : a.common_addr ≢ invalid_common_addr
  pub common_addr_fits :
      (a.common_addr_size ≡ 1) → (a.common_addr ≡ global_common_addr) ⊎ (a.common_addr < 255)

pub marshal_binary-IsMarshallable :
    (a : Asdu)
    → IsMarshallable a
    → valid a.params ≡ none
    → a.type_id ≢ 0
    → a.variable.number ≢ 0
    → identifier_size a.params + length a.info_obj ≤ asdu_size_max
    → expected_info_obj_len a ≡ some (length a.info_obj)
    → marshal_binary a ≡ ok (raw_octets a)
unfolding marshal_binary marshal_refusal checked_octets valid identifier_size
marshal_binary-IsMarshallable a m v t n fits e =
    ground (arith, e, v, m.cause_set, m.common_addr_set, m.common_addr_fits)

pub length-marshal_binary : (a : Asdu) {raw : List ℕ} → marshal_binary a ≡ ok raw → length raw ≢ 0
unfolding marshal_binary raw_octets
length-marshal_binary a h = ground arith
