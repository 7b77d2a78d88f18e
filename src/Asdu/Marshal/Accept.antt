-- ===== src/Asdu/Marshal/Accept.antt =====
-- What `UnmarshalBinary` of asdu/asdu.go accepts.
use go_iecp.Shared.{
  ℕ, zero, suc, ◌-◌, ◌≡◌, ◌<◌, ◌≤◌, ◌+◌, ◌⊎◌, ◌≢◌, List, [], ◌∷◌, none, some, length, true, false,
  get_or, arith, length-drop, refl, All, IsByte,
}
use go_iecp.Shared.Bits.{bit_or-shift}
use go_iecp.Asdu.Error.{ok}
use go_iecp.Asdu.TypeId.{f_sg_na_1}
use go_iecp.Asdu.Identifier.{get_info_obj_size, parse_variable_struct}
use go_iecp.Asdu.Identifier.Laws.{variable_struct_value-parse, cause_of_transmission_value-parse}
use go_iecp.Asdu.Message.{Params, Asdu, identifier_size, valid, asdu_size_max}
use go_iecp.Asdu.Marshal.{
  marshal_refusal, raw_octets, parse_fields, marshal_binary, unmarshal_binary,
  expected_info_obj_len, fix_info_obj_size, variable_info_obj_size, objects_size,
}
use go_iecp.Asdu.Marshal.RoundTrip.{unmarshal_binary-sized, valid-IsSized}

fix_info_obj_size-ok :
    (a : Asdu) {a' : Asdu}
    → a.allow_trailing_octets ≡ false
    → fix_info_obj_size a ≡ (a', none)
    → (a' ≡ a) × (expected_info_obj_len a ≡ some (length a.info_obj))
unfolding fix_info_obj_size expected_info_obj_len
fix_info_obj_size-ok a t h = ground arith

unmarshal_binary-ok :
    (b : Asdu) (raw : List ℕ) {a : Asdu}
    → unmarshal_binary b raw ≡ (a, none)
    → ((b.cause_size ≡ 1) ⊎ (b.cause_size ≡ 2))
      × ((b.common_addr_size ≡ 1) ⊎ (b.common_addr_size ≡ 2))
      × (identifier_size b.params ≤ length raw)
      × (fix_info_obj_size (parse_fields b.params raw) ≡ (a, none))
unfolding unmarshal_binary
unmarshal_binary-ok b raw h = ground arith

-- One lemma for each pair of sizes: the fields, written again, are the octets they came from.
module _ (p : Params) (x0 x1 x2 x3 : ℕ) (rest : List ℕ) where
  octets_1_1 :
      p.cause_size ≡ 1
      → p.common_addr_size ≡ 1
      → All IsByte (x0 ∷ x1 ∷ x2 ∷ x3 ∷ [])
      → raw_octets (parse_fields p (x0 ∷ x1 ∷ x2 ∷ x3 ∷ rest)) ≡ x0 ∷ x1 ∷ x2 ∷ x3 ∷ rest
  unfolding raw_octets parse_fields identifier_size
  octets_1_1 c a bs =
      rw (c, a)
        (ground (arith, variable_struct_value-parse x1, cause_of_transmission_value-parse x2))

  octets_1_2 :
      (x4 : ℕ)
      → p.cause_size ≡ 1
      → p.common_addr_size ≡ 2
      → All IsByte (x0 ∷ x1 ∷ x2 ∷ x3 ∷ x4 ∷ [])
      → raw_octets (parse_fields p (x0 ∷ x1 ∷ x2 ∷ x3 ∷ x4 ∷ rest)) ≡ x0 ∷ x1 ∷ x2 ∷ x3 ∷ x4 ∷ rest
  unfolding raw_octets parse_fields identifier_size
  octets_1_2 x4 c a bs =
      rw (c, a)
        (ground (
          arith,
          variable_struct_value-parse x1,
          cause_of_transmission_value-parse x2,
          bit_or-shift 8 x3 x4,
        ))

  octets_2_1 :
      (x4 : ℕ)
      → p.cause_size ≡ 2
      → p.common_addr_size ≡ 1
      → All IsByte (x0 ∷ x1 ∷ x2 ∷ x3 ∷ x4 ∷ [])
      → raw_octets (parse_fields p (x0 ∷ x1 ∷ x2 ∷ x3 ∷ x4 ∷ rest)) ≡ x0 ∷ x1 ∷ x2 ∷ x3 ∷ x4 ∷ rest
  unfolding raw_octets parse_fields identifier_size
  octets_2_1 x4 c a bs =
      rw (c, a)
        (ground (arith, variable_struct_value-parse x1, cause_of_transmission_value-parse x2))

  octets_2_2 :
      (x4 x5 : ℕ)
      → p.cause_size ≡ 2
      → p.common_addr_size ≡ 2
      → All IsByte (x0 ∷ x1 ∷ x2 ∷ x3 ∷ x4 ∷ x5 ∷ [])
      → raw_octets (parse_fields p (x0 ∷ x1 ∷ x2 ∷ x3 ∷ x4 ∷ x5 ∷ rest))
        ≡ x0 ∷ x1 ∷ x2 ∷ x3 ∷ x4 ∷ x5 ∷ rest
  unfolding raw_octets parse_fields identifier_size
  octets_2_2 x4 x5 c a bs =
      rw (c, a)
        (ground (
          arith,
          variable_struct_value-parse x1,
          cause_of_transmission_value-parse x2,
          bit_or-shift 8 x4 x5,
        ))

module _ (p : Params) (cause_sized : (p.cause_size ≡ 1) ⊎ (p.cause_size ≡ 2))
    (addr_sized : (p.common_addr_size ≡ 1) ⊎ (p.common_addr_size ≡ 2)) where
  raw_octets-parse_fields :
      (raw : List ℕ)
      → All IsByte raw
      → 2 + p.cause_size + p.common_addr_size ≤ length raw
      → raw_octets (parse_fields p raw) ≡ raw
  raw_octets-parse_fields [] bs h = absurd (omega arith)
  raw_octets-parse_fields (x0 ∷ []) bs h = absurd (omega arith)
  raw_octets-parse_fields (x0 ∷ x1 ∷ []) bs h = absurd (omega arith)
  raw_octets-parse_fields (x0 ∷ x1 ∷ x2 ∷ []) bs h = absurd (omega arith)
  raw_octets-parse_fields (x0 ∷ x1 ∷ x2 ∷ x3 ∷ []) bs h =
      octets_1_1 p x0 x1 x2 x3 [] (omega arith) (omega arith) bs
  raw_octets-parse_fields (x0 ∷ x1 ∷ x2 ∷ x3 ∷ x4 ∷ []) bs h = ground (
    arith,
    octets_1_1 p x0 x1 x2 x3 (x4 ∷ []),
    octets_1_2 p x0 x1 x2 x3 [] x4,
    octets_2_1 p x0 x1 x2 x3 [] x4,
  )
  raw_octets-parse_fields (x0 ∷ x1 ∷ x2 ∷ x3 ∷ x4 ∷ x5 ∷ rest) bs h = ground (
    arith,
    octets_1_1 p x0 x1 x2 x3 (x4 ∷ x5 ∷ rest),
    octets_1_2 p x0 x1 x2 x3 (x5 ∷ rest) x4,
    octets_2_1 p x0 x1 x2 x3 (x5 ∷ rest) x4,
    octets_2_2 p x0 x1 x2 x3 rest x4 x5,
  )

-- Without `AllowTrailingOctets`, an ASDU that `UnmarshalBinary` accepts has exactly the
-- information object octets that its type and its qualifier call for.
pub unmarshal_binary-exact :
    (b : Asdu) (raw : List ℕ) {a : Asdu}
    → b.allow_trailing_octets ≡ false
    → unmarshal_binary b raw ≡ (a, none)
    → expected_info_obj_len a ≡ some (length a.info_obj)
unfolding parse_fields
unmarshal_binary-exact b raw t h =
    let (_, _, _, fixed) = unmarshal_binary-ok b raw h in
    let (same, size) = fix_info_obj_size-ok (parse_fields b.params raw) t fixed in rw same size

-- What `MarshalBinary` asks of an ASDU beyond what `UnmarshalBinary` has checked.
pub record IsSendable (a : Asdu) : Type 0 where
  pub has_cause : a.coa.cause ≢ 0
  pub has_common_addr : a.common_addr ≢ 0
  pub has_type_id : a.type_id ≢ 0
  pub has_objects : a.variable.number ≢ 0
  pub fits : identifier_size a.params + length a.info_obj ≤ asdu_size_max

marshal_refusal-IsSendable :
    (a : Asdu)
    → ((a.cause_size ≡ 1) ⊎ (a.cause_size ≡ 2))
    → ((a.common_addr_size ≡ 1) ⊎ (a.common_addr_size ≡ 2))
    → ((a.common_addr_size ≡ 1) → (a.common_addr ≡ 65535) ⊎ (a.common_addr < 255))
    → IsSendable a
    → marshal_refusal a ≡ none
unfolding marshal_refusal
marshal_refusal-IsSendable a c d e s = ground arith

parsed_addr :
    (p : Params) (raw : List ℕ) (last : ℕ)
    → p.common_addr_size ≡ 1
    → get_or raw (identifier_size p - 1) 0 ≡ last
    → last < 256
    → ((parse_fields p raw).common_addr ≡ 65535) ⊎ ((parse_fields p raw).common_addr < 255)
unfolding parse_fields
parsed_addr p raw last one e h = ground arith

get_or-IsByte : (raw : List ℕ) (i : ℕ) → All IsByte raw → get_or raw i 0 < 256
get_or-IsByte [] i h = omega arith
get_or-IsByte (x ∷ raw) zero h = h.0
get_or-IsByte (x ∷ raw) (suc i) h = get_or-IsByte raw i h.1

marshal_binary-fits :
    (a : Asdu)
    → marshal_refusal a ≡ none
    → expected_info_obj_len a ≡ some (length a.info_obj)
    → marshal_binary a ≡ ok (raw_octets a)
unfolding marshal_binary
marshal_binary-fits a h e = ground arith

-- What `UnmarshalBinary` accepts from a list of octets, `MarshalBinary` writes back octet for
-- octet, if trailing octets are not allowed and the ASDU has a cause, a common address, a type,
-- an object at least, and at most 249 octets.
pub marshal_binary-unmarshal_binary :
    (b : Asdu) (raw : List ℕ) {a : Asdu}
    → All IsByte raw
    → b.allow_trailing_octets ≡ false
    → unmarshal_binary b raw ≡ (a, none)
    → IsSendable a
    → marshal_binary a ≡ ok raw
unfolding parse_fields identifier_size
marshal_binary-unmarshal_binary b raw bs t h s =
    let (cause_sized, addr_sized, long, fixed) = unmarshal_binary-ok b raw h in
    let (same, size) = fix_info_obj_size-ok (parse_fields b.params raw) t fixed in
    ground (
      arith,
      marshal_binary-fits (parse_fields b.params raw),
      marshal_refusal-IsSendable (parse_fields b.params raw) cause_sized addr_sized,
      parsed_addr b.params raw (get_or raw (identifier_size b.params - 1) 0),
      get_or-IsByte raw (identifier_size b.params - 1) bs,
      raw_octets-parse_fields b.params cause_sized addr_sized raw bs long,
    )

fix_zero_objects :
    (a : Asdu) (size : ℕ)
    → valid a.params ≡ none
    → a.type_id ≢ f_sg_na_1
    → a.variable ≡ record { number = 0; is_sequence = true }
    → get_info_obj_size a.type_id ≡ ok size
    → length a.info_obj ≡ a.info_obj_addr_size
    → fix_info_obj_size a ≡ (a, none)
unfolding fix_info_obj_size variable_info_obj_size objects_size valid
fix_zero_objects a size v t q e l = ground arith

-- Under valid parameters, octets of any known type but a segment whose qualifier is 80 hex, a
-- sequence of no objects, and which hold one information object address and nothing more, are
-- accepted, and the ASDU that they leave claims no objects.
pub unmarshal_binary-zero_objects :
    (b : Asdu) (raw : List ℕ) {size : ℕ}
    → valid b.params ≡ none
    → get_or raw 0 0 ≢ f_sg_na_1
    → get_info_obj_size (get_or raw 0 0) ≡ ok size
    → get_or raw 1 0 ≡ 0x80
    → length raw ≡ identifier_size b.params + b.info_obj_addr_size
    → ((unmarshal_binary b raw).1 ≡ none) × ((unmarshal_binary b raw).0.variable.number ≡ 0)
unfolding parse_fields parse_variable_struct
unmarshal_binary-zero_objects b raw {size} v t e q l =
    let read : unmarshal_binary b raw ≡ (parse_fields b.params raw, none) = ground (
      arith,
      unmarshal_binary-sized b raw (valid-IsSized b.params v) (omega arith),
      fix_zero_objects (parse_fields b.params raw) size v t,
      length-drop (identifier_size b.params) raw,
    ) in
    rw read (refl, rw q)
