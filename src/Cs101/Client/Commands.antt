-- ===== src/Cs101/Client/Commands.antt =====
-- cs101/client.go: the commands of the client, which it encodes by itself, under parameters that
-- `Params.Valid` accepts. A time is the seven octets of it.
pub mod Encoding
use go_iecp.Shared.{
  ℕ, zero, suc, ◌+◌, ◌/◌, ◌%◌, Bool, true, false, List, [], ◌∷◌, ◌++◌, Option, none, some, ◌==◌,
  ◌!=◌, ltb, leb, if◌then◌else◌, byte, length,
}
use go_iecp.Asdu.Error.{Error}
use go_iecp.Asdu.TypeId.{
  c_ic_na_1, c_ci_na_1, c_rd_na_1, c_cs_na_1, c_ts_na_1, c_rp_na_1, c_cd_na_1,
}
use go_iecp.Asdu.Identifier.{
  CauseOfTransmission, variable_struct_value, cause_of_transmission_value, global_common_addr,
}
use go_iecp.Asdu.Information.{QualifierCountCall, qualifier_count_call_value}
use go_iecp.Asdu.Message.{Params, Identifier, Asdu, asdu_size_max, identifier_size, new_asdu}
use go_iecp.Asdu.Marshal.{unmarshal_binary}
use go_iecp.Cs101.Frame.Decode.{empty_identifier}
use go_iecp.Cs101.Link.{LinkError}
use go_iecp.Cs101.Client.{Client}
use go_iecp.Cs101.Client.Queue.{send}

-- A slice of zeros.
abbrev zeros : ℕ → List ℕ
zeros zero = []
zeros (suc n) = 0 ∷ zeros n

unfoldable pub encode_ioa : ℕ → Params → List ℕ
encode_ioa ioa p =
    if p.info_obj_addr_size == 1
    then byte ioa ∷ []
    else if p.info_obj_addr_size == 2
    then byte ioa ∷ byte (ioa / 256) ∷ []
    else if p.info_obj_addr_size == 3
    then byte ioa ∷ byte (ioa / 256) ∷ byte (ioa / 65536) ∷ []
    else zeros p.info_obj_addr_size

-- What the code answers with texts, and the errors of `UnmarshalBinary` and `Send`.
pub data CommandError : Type 0 where
  size_exceeded header_mismatch : CommandError
  unmarshal : Error → CommandError
  sending : LinkError → CommandError

pub data Built {ℓ} (A : Type ℓ) : Type ℓ where
  built : A → Built A
  refused : CommandError → Built A

-- The octets before the common address.
head_octets : Identifier → Params → List ℕ
head_octets id p =
    byte id.type_id
    ∷ variable_struct_value id.variable
    ∷ cause_of_transmission_value id.coa
    ∷ (if p.cause_size == 2 then byte id.orig_addr ∷ [] else [])

addr_octets : Identifier → Params → List ℕ
addr_octets id p =
    if p.common_addr_size == 1
    then (if id.common_addr == global_common_addr then 255 else byte id.common_addr) ∷ []
    else byte id.common_addr ∷ byte (id.common_addr / 256) ∷ []

unfoldable pub build_raw_asdu : Identifier → List ℕ → Params → Built (List ℕ)
unfolding head_octets addr_octets
build_raw_asdu id info p =
    let header = head_octets id p ++ addr_octets id p in
    if ltb asdu_size_max (identifier_size p + length info)
    then refused size_exceeded
    else if length header != identifier_size p
    then refused header_mismatch
    else built (header ++ info)

abbrev pub identified : ℕ → CauseOfTransmission → ℕ → Identifier
identified type_id coa ca = record {
  type_id = type_id;
  variable = record { number = 1; is_sequence = false };
  coa = coa;
  orig_addr = 0;
  common_addr = ca;
}

abbrev read_back : Asdu × Option Error → Built Asdu
read_back (a, none) = built a
read_back (a, some e) = refused (unmarshal e)

-- The ASDU of a command, built and read back.
unfoldable pub command_asdu : ℕ → CauseOfTransmission → ℕ → List ℕ → Params → Built Asdu
command_asdu type_id coa ca info p = elim (build_raw_asdu (identified type_id coa ca) info p) [
  | refused e ↦ refused e
  | built raw ↦ read_back (unmarshal_binary (new_asdu p (identified type_id coa ca)) raw)
]

abbrev outcome : Client × Option LinkError → Client × Option CommandError
outcome (c, none) = (c, none)
outcome (c, some e) = (c, some (sending e))

unfoldable pub send_command : Built Asdu → Client → Client × Option CommandError
send_command (refused e) c = (c, some e)
send_command (built a) c = outcome (send a c)

module _ (coa : CauseOfTransmission) (ca : ℕ) (c : Client) where
  unfoldable pub interrogation_cmd : ℕ → Client × Option CommandError
  interrogation_cmd qoi =
      send_command
        (command_asdu c_ic_na_1 coa ca (encode_ioa 0 c.params ++ (byte qoi ∷ [])) c.params) c

  unfoldable pub counter_interrogation_cmd : QualifierCountCall → Client × Option CommandError
  counter_interrogation_cmd qcc =
      send_command
        (command_asdu c_ci_na_1 coa ca
          (encode_ioa 0 c.params ++ (qualifier_count_call_value qcc ∷ [])) c.params)
        c

  unfoldable pub read_cmd : ℕ → Client × Option CommandError
  read_cmd ioa = send_command (command_asdu c_rd_na_1 coa ca (encode_ioa ioa c.params) c.params) c

  unfoldable pub clock_synchronization_cmd : List ℕ → Client × Option CommandError
  clock_synchronization_cmd time =
      send_command (command_asdu c_cs_na_1 coa ca (encode_ioa 0 c.params ++ time) c.params) c

  unfoldable pub reset_process_cmd : ℕ → Client × Option CommandError
  reset_process_cmd qrp =
      send_command
        (command_asdu c_rp_na_1 coa ca (encode_ioa 0 c.params ++ (byte qrp ∷ [])) c.params) c

  unfoldable pub delay_acquire_command : ℕ → Client × Option CommandError
  delay_acquire_command msec =
      send_command
        (command_asdu c_cd_na_1 coa ca
          (encode_ioa 0 c.params ++ (byte msec ∷ byte (msec / 256) ∷ [])) c.params)
        c

  unfoldable pub test_command : Client × Option CommandError
  test_command =
      send_command
        (command_asdu c_ts_na_1 coa ca (encode_ioa 0 c.params ++ (0xaa ∷ 0x55 ∷ [])) c.params) c
