-- ===== src/Cs101/Server/Handler.antt =====
-- cs101/server.go: `callHandler`, which reads the commands by offsets of its own. The handlers are
-- the application's: the model says which is called with what, after `ASDUHandlerAll`. A time is
-- the seven octets that carry it.
pub mod Getters
use go_iecp.Shared.{
  ℕ, ◌+◌, ◌*◌, Bool, true, false, List, [], ◌∷◌, Option, none, some, bit_or, ◌==◌, ltb,
  if◌then◌else◌, length, take, drop, get_or,
}
use go_iecp.Asdu.TypeId.{c_ic_na_1, c_ci_na_1, c_rd_na_1, c_cs_na_1, c_rp_na_1, c_cd_na_1}
use go_iecp.Asdu.Information.{QualifierCountCall, parse_qualifier_count_call}
use go_iecp.Asdu.Message.{Params, Asdu, identifier_size}
use go_iecp.Cs101.Server.{HandlerAsduPayload}

-- The handler that is called, or the text that says that the octets are too few.
pub data Call : Type 0 where
  interrogation : ℕ → Call
  counter_interrogation : QualifierCountCall → Call
  read : ℕ → Call
  clock_sync : List ℕ → Call
  reset_process : ℕ → Call
  delay_acquisition : ℕ → Call
  asdu not_enough : Call

unfoldable pub parse_ioa : List ℕ → Params → ℕ
parse_ioa octets p =
    if ltb (length octets) p.info_obj_addr_size
    then 0
    else if p.info_obj_addr_size == 1
    then get_or octets 0 0
    else if p.info_obj_addr_size == 2
    then get_or octets 0 0 + get_or octets 1 0 * 256
    else if p.info_obj_addr_size == 3
    then bit_or (bit_or (get_or octets 0 0) (get_or octets 1 0 * 256)) (get_or octets 2 0 * 65536)
    else 0

-- With the octets of the information objects behind the object address.
unfoldable pub specific_call : ℕ → List ℕ → Params → Call
specific_call type_id info p =
    let size = p.info_obj_addr_size in
    if type_id == c_ic_na_1
    then if ltb (length info) (size + 1) then not_enough else interrogation (get_or info size 0)
    else if type_id == c_ci_na_1
    then if ltb (length info) (size + 1)
      then not_enough
      else counter_interrogation (parse_qualifier_count_call (get_or info size 0))
    else if type_id == c_rd_na_1
    then if ltb (length info) size then not_enough else read (parse_ioa info p)
    else if type_id == c_cs_na_1
    then if ltb (length info) (size + 7) then not_enough else clock_sync (take 7 (drop size info))
    else if type_id == c_rp_na_1
    then if ltb (length info) (size + 1) then not_enough else reset_process (get_or info size 0)
    else if type_id == c_cd_na_1
    then if ltb (length info) (size + 2)
      then not_enough
      else delay_acquisition (get_or info size 0 + get_or info (size + 1) 0 * 256)
    else asdu

-- The ASDU that the handlers are given, and the call after `ASDUHandlerAll`; `none` where the
-- payload is shorter than an identifier.
unfoldable pub call_handler : Params → HandlerAsduPayload → Option (Asdu × Call)
call_handler p payload =
    if ltb (length payload.raw_data) (identifier_size p)
    then none
    else let info = drop (identifier_size p) payload.raw_data in
      some (
        record { params = p; identifier = payload.identifier; info_obj = info },
        specific_call payload.identifier.type_id info p,
      )
