-- ===== src/Asdu/Marshal.antt =====
-- asdu/asdu.go: `MarshalBinary`, `UnmarshalBinary` and `FixInfoObjSize`.
pub mod RoundTrip
pub mod Mirror
pub mod Accept
use go_iecp.Shared.{
  ℕ, ◌+◌, ◌*◌, Bool, true, false, not, ◌&&◌, ◌||◌, List, [], ◌∷◌, ◌++◌, Option, none, some, bit_or,
  ◌==◌, ◌!=◌, ltb, leb, if◌then◌else◌, byte, uint16, length, take, drop, get_or, ◌/◌, ◌-◌,
}
use go_iecp.Asdu.Error.{
  Error, Result, ok, err, param, cause_zero, common_addr_zero, type_id_zero, info_obj_count_zero,
  length_out_of_range, info_obj_size_mismatch, info_obj_index_fit, trailing_octets, eof,
}
use go_iecp.Asdu.TypeId.{f_sg_na_1}
use go_iecp.Asdu.Identifier.{
  get_info_obj_size, parse_variable_struct, variable_struct_value, parse_cause_of_transmission,
  cause_of_transmission_value, invalid_common_addr, global_common_addr,
}
use go_iecp.Asdu.Message.{Params, Asdu, asdu_size_max, identifier_size}

-- `variableInfoObjSize`: the size and whether the type carries its own length.
unfoldable pub variable_info_obj_size : Asdu → ℕ × Bool
variable_info_obj_size a =
    if a.type_id != f_sg_na_1
    then (0, false)
    else let head_size = a.info_obj_addr_size + 4 in
      if ltb (length a.info_obj) head_size
      then (0, true)
      else (head_size + get_or a.info_obj (a.info_obj_addr_size + 3) 0, true)

-- The octets that the qualifier and an object size call for.
unfoldable pub objects_size : Asdu → ℕ → ℕ
objects_size a obj_size =
    if a.variable.is_sequence
    then a.info_obj_addr_size + a.variable.number * obj_size
    else a.variable.number * (a.info_obj_addr_size + obj_size)

expected_fixed : Asdu → Result ℕ → Option ℕ
expected_fixed a (ok obj_size) = some (objects_size a obj_size)
expected_fixed a (err e) = none

expected_of : Asdu → ℕ × Bool → Option ℕ
expected_of a (size, true) = if size == 0 then none else some size
expected_of a (size, false) = expected_fixed a (get_info_obj_size a.type_id)

-- `expectedInfoObjLen`: `none` when it is not knowable.
unfoldable pub expected_info_obj_len : Asdu → Option ℕ
unfolding expected_of expected_fixed
expected_info_obj_len a = expected_of a (variable_info_obj_size a)

-- The switch at the head of `MarshalBinary`.
marshal_refusal : Asdu → Option Error
marshal_refusal a =
    if a.coa.cause == 0
    then some cause_zero
    else if not (a.cause_size == 1 || a.cause_size == 2)
    then some param
    else if a.common_addr == invalid_common_addr
    then some common_addr_zero
    else if not (a.common_addr_size == 1 || a.common_addr_size == 2)
    then some param
    else if a.common_addr_size == 1
        && (a.common_addr != global_common_addr && leb 255 a.common_addr)
    then some param
    else if a.type_id == 0
    then some type_id_zero
    else if a.variable.number == 0
    then some info_obj_count_zero
    else if ltb asdu_size_max (identifier_size a.params + length a.info_obj)
    then some length_out_of_range
    else none

-- The originator octet, which a cause of one octet leaves out.
orig_addr_octets : Asdu → List ℕ
orig_addr_octets a = if a.cause_size == 2 then byte a.orig_addr ∷ [] else []

common_addr_octets : Asdu → List ℕ
common_addr_octets a =
    if a.common_addr_size == 1
    then (if a.common_addr == global_common_addr then 255 else byte a.common_addr) ∷ []
    else byte a.common_addr ∷ byte (a.common_addr / 256) ∷ []

-- What the writes into `raw` leave there.
unfoldable pub raw_octets : Asdu → List ℕ
unfolding orig_addr_octets common_addr_octets
raw_octets a =
    byte a.type_id
    ∷ variable_struct_value a.variable
    ∷ cause_of_transmission_value a.coa
    ∷ (orig_addr_octets a ++ (common_addr_octets a ++ a.info_obj))

checked_octets : Asdu → Option ℕ → Result (List ℕ)
checked_octets a none = ok (raw_octets a)
checked_octets a (some want) =
    if want != length a.info_obj then err info_obj_size_mismatch else ok (raw_octets a)

unfoldable pub marshal_binary : Asdu → Result (List ℕ)
unfolding marshal_refusal checked_octets
marshal_binary a = elim (marshal_refusal a) [
  | some e ↦ err e
  | none ↦ checked_octets a (expected_info_obj_len a)
]

-- The last switch of `FixInfoObjSize`, which both kinds of size end in.
cut_trailing : Asdu → ℕ → Asdu × Option Error
cut_trailing a size =
    if ltb size (length a.info_obj)
    then if a.allow_trailing_octets
      then (record a { info_obj = take size a.info_obj }, none)
      else (a, some trailing_octets)
    else (a, none)

fix_variable : Asdu → ℕ → Asdu × Option Error
unfolding cut_trailing
fix_variable a size =
    if size == 0 || ltb (length a.info_obj) size then (a, some eof) else cut_trailing a size

fix_fixed : Asdu → Result ℕ → Asdu × Option Error
unfolding cut_trailing
fix_fixed a (err e) = (a, some e)
fix_fixed a (ok obj_size) =
    let size = objects_size a obj_size in
    if size == 0
    then (a, some info_obj_index_fit)
    else if ltb (length a.info_obj) size
    then (a, some eof)
    else cut_trailing a size

fix_of : Asdu → ℕ × Bool → Asdu × Option Error
unfolding fix_variable fix_fixed
fix_of a (size, true) = fix_variable a size
fix_of a (size, false) = fix_fixed a (get_info_obj_size a.type_id)

unfoldable pub fix_info_obj_size : Asdu → Asdu × Option Error
unfolding fix_of
fix_info_obj_size a = fix_of a (variable_info_obj_size a)

-- The 8-bit global address stands for the 16-bit one.
widen_common_addr : ℕ → ℕ
widen_common_addr addr = if addr == 255 then global_common_addr else addr

parse_common_addr : Params → List ℕ → ℕ
unfolding widen_common_addr
parse_common_addr p raw =
    let len_dui = identifier_size p in
    if p.common_addr_size == 1
    then widen_common_addr (get_or raw (len_dui - 1) 0)
    else bit_or (get_or raw (len_dui - 2) 0) (get_or raw (len_dui - 1) 0 * 256)

-- The ASDU that the parsed fields leave in `sf`, before `FixInfoObjSize`. An index stays below
-- `lenDUI`, which the length was checked against, so the default of `get_or` is never read.
unfoldable pub parse_fields : Params → List ℕ → Asdu
unfolding parse_common_addr
parse_fields p raw = record {
  params = p;
  identifier = record {
    type_id = get_or raw 0 0;
    variable = parse_variable_struct (get_or raw 1 0);
    coa = parse_cause_of_transmission (get_or raw 2 0);
    orig_addr = if p.cause_size == 1 then 0 else get_or raw 3 0;
    common_addr = parse_common_addr p raw;
  };
  info_obj = drop (identifier_size p) raw;
}

-- `UnmarshalBinary`: the ASDU that the call leaves behind, and its error.
unfoldable pub unmarshal_binary : Asdu → List ℕ → Asdu × Option Error
unfolding parse_fields
unmarshal_binary a raw =
    if not (a.cause_size == 1 || a.cause_size == 2)
      || not (a.common_addr_size == 1 || a.common_addr_size == 2)
    then (a, some param)
    else if ltb (length raw) (identifier_size a.params)
    then (a, some eof)
    else fix_info_obj_size (parse_fields a.params raw)
