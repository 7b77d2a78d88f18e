-- ===== src/Asdu/Message.antt =====
-- asdu/asdu.go: the parameters, the ASDU, and its binary form both ways.
-- A zone is named by a number, and a nil one is `none`. Sizes and counts are Go ints that the
-- code keeps from being negative.
use go_iecp.Shared.{
  ℕ, ◌+◌, ◌*◌, ◌^◌, Bool, true, false, ◌||◌, List, [], Option, none, some, ◌==◌, ltb, leb,
  if◌then◌else◌, byte,
}
use go_iecp.Asdu.Error.{
  Error, Result, ok, err, param, common_addr_zero, common_addr_fit, info_obj_index_fit,
}
use go_iecp.Asdu.Identifier.{VariableStruct, CauseOfTransmission, invalid_common_addr}

abbrev pub asdu_size_max : ℕ
asdu_size_max = 249

pub record Params : Type 0 where
  pub cause_size : ℕ
  pub orig_address : ℕ
  pub common_addr_size : ℕ
  pub info_obj_addr_size : ℕ
  pub info_obj_time_zone : Option ℕ
  pub allow_trailing_octets : Bool

abbrev is_nil {ℓ} : {A : Type ℓ} → Option A → Bool
is_nil none = true
is_nil (some _) = false

-- `Params.Valid`
unfoldable pub valid : Params → Option Error
valid p =
    if (ltb p.cause_size 1 || ltb 2 p.cause_size)
      || (ltb p.common_addr_size 1 || ltb 2 p.common_addr_size)
      || (ltb p.info_obj_addr_size 1 || ltb 3 p.info_obj_addr_size)
      || is_nil p.info_obj_time_zone
    then some param
    else none

-- `bits.Len(addr) > size*8` says that `addr` is 2 ^ (8 * size) at least.
unfoldable pub valid_common_addr : Params → ℕ → Option Error
valid_common_addr p addr =
    if addr == invalid_common_addr
    then some common_addr_zero
    else if leb (2 ^ (p.common_addr_size * 8)) addr
    then some common_addr_fit
    else none

unfoldable pub identifier_size : Params → ℕ
identifier_size p = 2 + p.cause_size + p.common_addr_size

pub record Identifier : Type 0 where
  pub type_id : ℕ
  pub variable : VariableStruct
  pub coa : CauseOfTransmission
  pub orig_addr : ℕ
  pub common_addr : ℕ

pub record Asdu : Type 0 where
  pub params : Params
  pub open params use *
  pub identifier : Identifier
  pub open identifier use *
  pub info_obj : List ℕ

-- `NewASDU`, and `NewEmptyASDU` before its identifier is set.
unfoldable pub new_asdu : Params → Identifier → Asdu
new_asdu p id = record { params = p; identifier = id; info_obj = [] }

-- `SetVariableNumber`
unfoldable pub set_variable_number : Asdu → ℕ → Result Asdu
set_variable_number a n =
    if leb 128 n
    then err info_obj_index_fit
    else ok (record a { identifier = record id { variable = record v { number = byte n } } })
  where
    id : Identifier
    id = a.identifier

    v : VariableStruct
    v = a.variable

-- The ASDU that `SendReplyMirror` sends: the request under another cause.
unfoldable pub reply_mirror : Asdu → ℕ → Asdu
reply_mirror a c = record {
  params = a.params;
  identifier = record id { coa = record co { cause = c } };
  info_obj = a.info_obj;
}
  where
    id : Identifier
    id = a.identifier

    co : CauseOfTransmission
    co = a.coa

-- `Reply`: the request, whose common address becomes `addr`, and the ASDU returned.
unfoldable pub reply : Asdu → ℕ → ℕ → Asdu × Asdu
reply a c addr = (addressed, reply_mirror addressed c)
  where
    id : Identifier
    id = a.identifier

    addressed : Asdu
    addressed = record a { identifier = record id { common_addr = addr } }
