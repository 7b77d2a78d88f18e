-- ===== src/Asdu/Monitor/Delivery.antt =====
-- Process information from the sender of asdu/mproc.go over the binary form to the getter.
use go_iecp.Shared.{ℕ, ◌≡◌, ◌∙◌, ap, Bool, List, [], ◌∷◌, some, none, All}
use go_iecp.Asdu.Error.{ok}
use go_iecp.Asdu.Identifier.{get_info_obj_size, CauseOfTransmission}
use go_iecp.Asdu.Message.{Params, Asdu}
use go_iecp.Asdu.Marshal.{marshal_binary, unmarshal_binary, raw_octets}
use go_iecp.Asdu.Marshal.RoundTrip.{IsMarshallable}
use go_iecp.Asdu.Monitor.Sizes.{length-octets}
use go_iecp.Asdu.Monitor.Marshals.{IsLong, marshal_binary-send_infos}
use go_iecp.Asdu.Monitor.{element_of}
use go_iecp.Asdu.Monitor.Wire.{InRanges, unmarshal_binary-send_infos}
use go_iecp.Asdu.Monitor.Arrivals.{
  Kind, Object, layout, sent, in_sequence, type_of, got, IsSendable, arrived, sent-send_infos,
  got-sent,
}

sized_objects :
    (k : Kind) (t size : ℕ) (infos : List (Object k))
    → get_info_obj_size (type_of k t) ≡ ok size
    → All (IsSendable k t) infos
    → All (IsLong (element_of (layout k)) (type_of k t) size) infos
sized_objects k t size [] g fits = fits
sized_objects k t size (v ∷ infos) g (fit, fits) =
    (λ os h. length-octets k t v fit h g, sized_objects k t size infos g fits)

-- `MarshalBinary` writes every ASDU that a sender of any of the ten kinds hands over under a cause
-- other than zero and a common address that is not zero and that an address of one octet has room
-- for or is the global one: the objects have together the octets that the type, the number and the
-- sequence call for, and with the identifier no more than the largest ASDU. The objects have their
-- fields in their types' ranges and time tags of the octets that the type calls for.
pub marshal_binary-sent :
    (k : Kind) (p : Params) (coa : CauseOfTransmission) (ca type_id : ℕ) (sequence : Bool)
    (infos : List (Object k)) {b : Asdu}
    → All (IsSendable k type_id) infos
    → sent k p coa ca type_id sequence infos ≡ ok b
    → IsMarshallable b
    → marshal_binary b ≡ ok (raw_octets b)
marshal_binary-sent k p coa ca t sequence infos fits h =
    marshal_binary-send_infos p (type_of k t) (in_sequence k sequence) coa ca
      (element_of (layout k)) infos (sent-send_infos k p coa ca t sequence infos h)
      (λ size g. sized_objects k t size infos g fits)

-- An ASDU that a sender of any of the ten kinds hands over, for a type, a cause and a common address
-- in their ranges, and that `MarshalBinary` writes, `UnmarshalBinary` reads under the same
-- parameters without an error, whatever the receiving ASDU held, and the getter reads from the
-- result the objects that were sent, in their order: with their own addresses, or in a sequence
-- with addresses that count up from the first, and as far as the octets of the type have room.
-- The objects have their fields in their types' ranges and time tags of the octets that the type
-- calls for.
pub got-unmarshal_binary-sent :
    (k : Kind) (p : Params) (coa : CauseOfTransmission) (ca type_id : ℕ) (sequence : Bool)
    (infos : List (Object k)) (c : Asdu) {b : Asdu} {raw : List ℕ}
    → InRanges coa ca (type_of k type_id)
    → All (IsSendable k type_id) infos
    → sent k p coa ca type_id sequence infos ≡ ok b
    → c.params ≡ p
    → marshal_binary b ≡ ok raw
    → ((unmarshal_binary c raw).1 ≡ none)
      × (got k ((unmarshal_binary c raw).0) ≡ some (arrived k type_id sequence infos))
got-unmarshal_binary-sent k p coa ca t sequence infos c r fits h same m =
    let read =
      unmarshal_binary-send_infos (element_of (layout k)) p (type_of k t) (in_sequence k sequence)
        coa ca infos c r (sent-send_infos k p coa ca t sequence infos h) same m in
    (ap (λ x. x.1) read, ap (λ x. got k (x.0)) read ∙ got-sent k p coa ca t sequence infos h fits)
