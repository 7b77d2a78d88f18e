-- ===== src/Asdu/Monitor/Packed/Single.antt =====
-- The packed events of protection equipment that a sender of asdu/mproc.go hands over its getter
-- reads.
use go_iecp.Shared.{ℕ, ◌≡◌, ◌∙◌, sym, ap, append_nil, false, Option, [], ◌∷◌, ◌++◌, some, arith}
use Prim.{tt}
use go_iecp.Asdu.Error.{Result, ok}
use go_iecp.Asdu.Identifier.{CauseOfTransmission}
use go_iecp.Asdu.Message.{Params, Asdu, new_asdu}
use go_iecp.Asdu.Codec.{with_info_obj, append_bytes, decode_info_obj_addr}
use go_iecp.Asdu.Monitor.{Element, element_of, append_infos, decode_infos, Layout}
use go_iecp.Asdu.Monitor.RoundTrip.{Readable, started, decode_infos-append_infos}
use go_iecp.Asdu.Monitor.Layouts.{Fits, received, element_of-Readable}
use go_iecp.Asdu.Monitor.Elements
use go_iecp.Asdu.Monitor.Elements.{ProtectionInfo}
use go_iecp.Asdu.Monitor.Fields.{
  EventFits, packed_arrives, packed_start_events-Decodable, packed_output_circuit_info-Decodable,
}
use go_iecp.Asdu.Monitor.Arrivals.{permitted-ok}
use go_iecp.Asdu.Monitor.Packed.{
  send_one, get_one, read_one, packed_start_events_typed, packed_output_circuit_info_typed,
  get_packed_start_events, get_packed_output_circuit_info,
}

module _ (el : Element ProtectionInfo) (type_id : ℕ) where
  send_one-append_infos :
      (p : Params) (coa : CauseOfTransmission) (ca : ℕ) (v : ProtectionInfo) {b : Asdu}
      → send_one el p type_id coa ca v ≡ ok b
      → append_infos el type_id false false (v ∷ []) (started p type_id false coa ca 1) ≡ ok b
  unfolding send_one new_asdu
  send_one-append_infos p coa ca v h = ground (arith, h)

  read_one-decode_infos :
      (a : Asdu) {v : ProtectionInfo}
      → decode_infos el type_id false 1 false 0 a ≡ some (v ∷ [])
      → read_one el type_id (decode_info_obj_addr a) ≡ some v
  unfolding decode_infos
  read_one-decode_infos a h = ground (arith, h)

  get_one-send_one :
      (Fit : ProtectionInfo → Type 0) (arrives : ℕ → ProtectionInfo → ProtectionInfo)
      → Readable el type_id Fit arrives
      → (p : Params) (coa : CauseOfTransmission) (ca : ℕ) (v : ProtectionInfo) {b : Asdu}
      → send_one el p type_id coa ca v ≡ ok b
      → Fit v
      → get_one el b ≡ some (arrives (el.ioa v) v)
  unfolding get_one append_bytes new_asdu
  get_one-send_one Fit arrives readable p coa ca v h fits =
      let a = started p type_id false coa ca 1 in
      let (body, b_eq, reads) =
        decode_infos-append_infos el type_id Fit arrives readable (v ∷ []) false false 0 a
          (send_one-append_infos p coa ca v h) (fits, tt) in
      ap (get_one el) b_eq
      ∙ ap (λ l. read_one el type_id (decode_info_obj_addr (with_info_obj a l)))
          (sym (append_nil body))
      ∙ read_one-decode_infos (with_info_obj a (body ++ [])) (reads [])

pub data PackedKind : Type 0 where
  start_kind circuit_kind : PackedKind

abbrev pub packed_layout : PackedKind → Layout ProtectionInfo ((ℕ × ℕ) × ℕ)
packed_layout start_kind = Elements.packed_start_events
packed_layout circuit_kind = Elements.packed_output_circuit_info

abbrev pub packed_sent :
    PackedKind → Params → CauseOfTransmission → ℕ → ℕ → ProtectionInfo → Result Asdu
packed_sent start_kind = packed_start_events_typed
packed_sent circuit_kind = packed_output_circuit_info_typed

abbrev pub packed_got : PackedKind → Asdu → Option ProtectionInfo
packed_got start_kind = get_packed_start_events
packed_got circuit_kind = get_packed_output_circuit_info

-- The ranges of the Go types, and a time tag of the octets that the type calls for.
abbrev pub IsPackable : PackedKind → ℕ → ProtectionInfo → Type 0
IsPackable k t = Fits (packed_layout k) t EventFits packed_arrives

abbrev pub packed_arrived : PackedKind → ℕ → ProtectionInfo → ProtectionInfo
packed_arrived k t v = received (packed_layout k) t EventFits packed_arrives v.ioa v

get_one-laid_out :
    (k : PackedKind) (p : Params) (coa : CauseOfTransmission) (ca t : ℕ) (v : ProtectionInfo)
    {b : Asdu}
    → send_one (element_of (packed_layout k)) p t coa ca v ≡ ok b
    → IsPackable k t v
    → get_one (element_of (packed_layout k)) b
      ≡ some (
          received
            (packed_layout k)
            t
            EventFits
            packed_arrives
            ((element_of (packed_layout k)).ioa v)
            v)
get_one-laid_out start_kind p coa ca t =
    get_one-send_one (element_of Elements.packed_start_events) t (IsPackable start_kind t)
      (received Elements.packed_start_events t EventFits packed_arrives)
      (element_of-Readable Elements.packed_start_events t EventFits packed_arrives
        (packed_start_events-Decodable t))
      p coa ca
get_one-laid_out circuit_kind p coa ca t =
    get_one-send_one (element_of Elements.packed_output_circuit_info) t (IsPackable circuit_kind t)
      (received Elements.packed_output_circuit_info t EventFits packed_arrives)
      (element_of-Readable Elements.packed_output_circuit_info t EventFits packed_arrives
        (packed_output_circuit_info-Decodable t))
      p coa ca

-- The packed start events or output circuits that a sender hands over its getter reads from the
-- ASDU, with their address and without a panic; the quality keeps the bits that it has. The fields
-- are in their types' ranges and the time tag has the octets that the type calls for.
pub packed_got-packed_sent :
    (k : PackedKind) (p : Params) (coa : CauseOfTransmission) (ca type_id : ℕ) (v : ProtectionInfo)
    {b : Asdu}
    → IsPackable k type_id v
    → packed_sent k p coa ca type_id v ≡ ok b
    → packed_got k b ≡ some (packed_arrived k type_id v)
unfolding packed_start_events_typed packed_output_circuit_info_typed get_packed_start_events
    get_packed_output_circuit_info element_of Elements.packed_start_events
    Elements.packed_output_circuit_info
packed_got-packed_sent start_kind p coa ca t v fits h =
    get_one-laid_out start_kind p coa ca t v (permitted-ok _ _ h) fits
packed_got-packed_sent circuit_kind p coa ca t v fits h =
    get_one-laid_out circuit_kind p coa ca t v (permitted-ok _ _ h) fits
