-- ===== src/Asdu/Monitor.antt =====
-- asdu/mproc.go: what its senders and getters of process information share. A sender gives the ASDU
-- that it hands to `Connect.Send`, or its error; a getter that panics gives `none`. The instant of an
-- information object is the octets that carry it: none, the three of a CP24Time2a or the seven of a
-- CP56Time2a.
pub mod RoundTrip
pub mod Layouts
pub mod Elements
pub mod Fields
pub mod Senders
pub mod Getters
pub mod Arrivals
pub mod Wire
pub mod Delivery
pub mod Sizes
pub mod Marshals
pub mod Packed
use go_iecp.Shared.{
  ℕ, zero, suc, ◌+◌, ◌*◌, Bool, true, false, ◌||◌, not, List, [], ◌∷◌, ◌++◌, Option, none, some,
  ◌==◌, ltb, if◌then◌else◌, length, take, drop,
}
use go_iecp.Asdu.Error.{
  Error, Result, ok, err, ◌>>=◌, not_any_obj_info, length_out_of_range, type_id_not_match,
}
use go_iecp.Asdu.Identifier.{CauseOfTransmission, get_info_obj_size}
use go_iecp.Asdu.Message.{
  Params, Asdu, asdu_size_max, identifier_size, valid, new_asdu, set_variable_number,
}
use go_iecp.Asdu.Codec.{with_info_obj, append_bytes, append_info_obj_addr, decode_info_obj_addr}

-- The length that an ASDU of so many objects would have.
abbrev asdu_len : Params → Bool → ℕ → ℕ → ℕ
asdu_len p sequence n size =
    if sequence
    then identifier_size p + n * size + p.info_obj_addr_size
    else identifier_size p + n * (size + p.info_obj_addr_size)

unfoldable check_len : Params → Bool → ℕ → ℕ → Option Error
check_len p sequence n size = elim (valid p) [
  | some e ↦ some e
  | none ↦ if ltb asdu_size_max (asdu_len p sequence n size) then some length_out_of_range else none
]

unfoldable pub check_valid : Params → ℕ → Bool → ℕ → Option Error
unfolding check_len
check_valid p type_id sequence n =
    if n == 0
    then some not_any_obj_info
    else elim (get_info_obj_size type_id) [ err e ↦ some e | ok size ↦ check_len p sequence n size ]

-- The time tag that the switch on the type calls for; no case may match.
pub data TimeTag : Type 0 where
  no_tag cp24 cp56 mismatch : TimeTag

abbrev pub three_types : (na ta tb type_id : ℕ) → TimeTag
three_types na ta tb type_id =
    if type_id == na
    then no_tag
    else if type_id == ta
    then cp24
    else if type_id == tb
    then cp56
    else mismatch

abbrev pub two_types : (ta tb type_id : ℕ) → TimeTag
two_types ta tb type_id = if type_id == ta then cp24 else if type_id == tb then cp56 else mismatch

abbrev pub time_octets : TimeTag → List ℕ → Result (List ℕ)
time_octets no_tag time = ok []
time_octets cp24 time = ok time
time_octets cp56 time = ok time
time_octets mismatch time = err type_id_not_match

-- `DecodeCP24Time2a` and `DecodeCP56Time2a`
unfoldable pub decode_time : ℕ → Asdu → Option (List ℕ × Asdu)
decode_time n a =
    if ltb (length a.info_obj) n
    then none
    else some (take n a.info_obj, with_info_obj a (drop n a.info_obj))

unfoldable pub decode_time_tag : TimeTag → Asdu → Option (List ℕ × Asdu)
unfolding decode_time
decode_time_tag no_tag a = some ([], a)
decode_time_tag cp24 a = decode_time 3 a
decode_time_tag cp56 a = decode_time 7 a
decode_time_tag mismatch a = none

-- One kind of information object: its address, the octets behind the address for a type, and how
-- they are read again for a type and an address.
pub record Element {ℓ} (I : Type ℓ) : Type ℓ where
  pub ioa : I → ℕ
  pub octets : ℕ → I → Result (List ℕ)
  pub read : ℕ → ℕ → Asdu → Option (I × Asdu)

-- An object that writes fields of type `F`, then its time tag.
pub record Layout {ℓ} (I F : Type ℓ) : Type ℓ where
  pub tag : ℕ → TimeTag
  pub addr : I → ℕ
  pub time : I → List ℕ
  pub fields : ℕ → I → List ℕ
  pub decode_fields : ℕ → Asdu → Option (F × Asdu)
  pub build : ℕ → F → List ℕ → I

module _ {ℓ} {I F : Type ℓ} (l : Layout I F) where
  tagged_octets : ℕ → I → Result (List ℕ)
  tagged_octets type_id v =
      time_octets (l.tag type_id) (l.time v) >>= (λ time. ok (l.fields type_id v ++ time))

  read_tag : ℕ → ℕ → F × Asdu → Option (I × Asdu)
  read_tag type_id x (f, a) = elim (decode_time_tag (l.tag type_id) a) [
    | none ↦ none
    | some (time, b) ↦ some (l.build x f time, b)
  ]

  read_tagged : ℕ → ℕ → Asdu → Option (I × Asdu)
  unfolding read_tag
  read_tagged type_id x a = elim (l.decode_fields type_id a) [
    | none ↦ none
    | some fa ↦ read_tag type_id x fa
  ]

  unfoldable pub element_of : Element I
  unfolding tagged_octets read_tagged
  element_of = record { ioa = l.addr; octets = tagged_octets; read = read_tagged }

module _ {ℓ} {I : Type ℓ} (el : Element I) where
  -- The loop of a sender: `once` says that the first address has been written.
  unfoldable pub append_infos : ℕ → Bool → Bool → List I → Asdu → Result Asdu
  append_infos type_id sequence once [] a = ok a
  append_infos type_id sequence once (v ∷ infos) a =
      (if not sequence || not once then append_info_obj_addr a (el.ioa v) else ok a) >>= (λ b.
        el.octets type_id v
        >>= (λ os. append_infos type_id sequence true infos (append_bytes b os)))

  filled : Params → ℕ → Bool → CauseOfTransmission → ℕ → List I → Result Asdu
  filled p type_id sequence coa ca infos =
      set_variable_number
        (new_asdu p (record {
          type_id = type_id;
          variable = record { number = 0; is_sequence = sequence };
          coa = coa;
          orig_addr = 0;
          common_addr = ca;
        }))
        (length infos)
      >>= append_infos type_id sequence false infos

  unfoldable pub send_infos : Params → ℕ → Bool → CauseOfTransmission → ℕ → List I → Result Asdu
  unfolding filled
  send_infos p type_id sequence coa ca infos =
      elim (check_valid p type_id sequence (length infos)) [
        | some e ↦ err e
        | none ↦ filled p type_id sequence coa ca infos
      ]

  -- The address of the next object: read, or one more than the last.
  abbrev next_addr : Bool → ℕ → Asdu → Option (ℕ × Asdu)
  next_addr true x a = decode_info_obj_addr a
  next_addr false x a = some (suc x, a)

  unfoldable pub decode_infos : ℕ → Bool → ℕ → Bool → ℕ → Asdu → Option (List I)
  decode_infos type_id sequence zero once x a = some []
  decode_infos type_id sequence (suc n) once x a = elim (next_addr (not sequence || not once) x a) [
    | none ↦ none
    | some (y, b) ↦ elim (el.read type_id y b) [
      | none ↦ none
      | some (v, c) ↦ elim (decode_infos type_id sequence n true y c) [
        | none ↦ none
        | some vs ↦ some (v ∷ vs)
      ]
    ]
  ]

  -- A getter leaves the ASDU as it was.
  unfoldable pub get_infos : Asdu → Option (List I)
  get_infos a = decode_infos a.type_id a.variable.is_sequence a.variable.number false 0 a
