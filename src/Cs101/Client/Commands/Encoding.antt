-- ===== src/Cs101/Client/Commands/Encoding.antt =====
-- The encoding of cs101/client.go against that of asdu/asdu.go.
use go_iecp.Shared.{ℕ, ◌≡◌, ◌≢◌, refl, List, none, some, byte, arith}
use go_iecp.Asdu.Error.{ok}
use go_iecp.Asdu.Message.{Params, Identifier, Asdu, identifier_size, valid, new_asdu}
use go_iecp.Asdu.Identifier.{CauseOfTransmission, global_common_addr}
use go_iecp.Asdu.Marshal.{marshal_binary, raw_octets, expected_info_obj_len}
use go_iecp.Asdu.Marshal.RoundTrip.{
  IsWellFormed, marshal_binary-parts, unmarshal_binary-marshal_binary,
}
use go_iecp.Cs101.Client.Commands.{built, build_raw_asdu, identified, command_asdu, encode_ioa}

-- What `MarshalBinary` makes of an ASDU, `buildRawASDU` makes of its identifier and the octets of
-- its information objects.
pub build_raw_asdu-marshal_binary :
    (a : Asdu) (raw : List ℕ)
    → marshal_binary a ≡ ok raw
    → build_raw_asdu a.identifier a.info_obj a.params ≡ built raw
unfolding raw_octets build_raw_asdu identifier_size
build_raw_asdu-marshal_binary a raw h = ground (arith, marshal_binary-parts a raw h)

-- The ASDU with the identifier that a command has.
abbrev pub commanded : ℕ → CauseOfTransmission → ℕ → List ℕ → Params → Asdu
commanded type_id coa ca info p = record {
  params = p;
  identifier = identified type_id coa ca;
  info_obj = info;
}

-- A command whose ASDU is well-formed, of a type and octets whose length is knowable, and can be
-- marshalled under valid parameters: what the client builds from octets of its own and reads back is
-- this very ASDU.
pub command_asdu-marshal_binary :
    (type_id ca : ℕ) (coa : CauseOfTransmission) (info : List ℕ) (p : Params) {n : ℕ} {raw : List ℕ}
    → IsWellFormed (commanded type_id coa ca info p)
    → valid p ≡ none
    → expected_info_obj_len (commanded type_id coa ca info p) ≡ some n
    → marshal_binary (commanded type_id coa ca info p) ≡ ok raw
    → command_asdu type_id coa ca info p ≡ built (commanded type_id coa ca info p)
unfolding command_asdu new_asdu
command_asdu-marshal_binary type_id ca coa info p w v e h = ground (
  arith,
  build_raw_asdu-marshal_binary (commanded type_id coa ca info p) _ h,
  unmarshal_binary-marshal_binary (commanded type_id coa ca info p)
      (new_asdu p (identified type_id coa ca)) w v refl e h,
)

-- On a link with addresses of one octet, the client builds the same octets for a station as for the
-- one that the low octet of its address names, unless it is the global one, and the same object
-- address as for the low octet of it.
pub build_raw_asdu-cut :
    (id : Identifier) (ioa : ℕ) (info : List ℕ) (p : Params)
    → p.common_addr_size ≡ 1
    → p.info_obj_addr_size ≡ 1
    → id.common_addr ≢ global_common_addr
    → (build_raw_asdu id info p
        ≡ build_raw_asdu (record id { common_addr = byte id.common_addr }) info p)
      × (encode_ioa ioa p ≡ encode_ioa (byte ioa) p)
unfolding build_raw_asdu encode_ioa
build_raw_asdu-cut id ioa info p a b c = ground (arith, a, b, c)
