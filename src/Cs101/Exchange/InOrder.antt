-- ===== src/Cs101/Exchange/InOrder.antt =====
-- Confirmed user data from cs101/client.go to cs101/server.go, one ASDU after the other.
use go_iecp.Shared.{
  ℕ, ◌+◌, ◌<◌, ◌≤◌, ◌≡◌, ◌≢◌, refl, ap, ◌∙◌, sym, false, not, List, [], ◌∷◌, ◌++◌, Option, none,
  some, arith, length, length-append, append_assoc, append_nil, All,
}
use go_iecp.Asdu.Error.{Error, ok, err}
use go_iecp.Asdu.Message.{Asdu, Params, new_asdu}
use go_iecp.Asdu.Marshal.{marshal_binary, unmarshal_binary}
use go_iecp.Cs101.Frame.Decode.{empty_identifier}
use go_iecp.Cs101.Server.{Server, HandlerAsduPayload, class1_pending, handler_payload_cap}
use go_iecp.Cs101.Client.{Client, Secondary}
use go_iecp.Cs101.Client.Handle.{confirm_sec}
use go_iecp.Cs101.Client.Queue.{send_asdu}
use go_iecp.Cs101.Link.{LinkError}
use go_iecp.Cs101.Exchange.{Passage, passed, receive_all, carry, attempt, exchange, then_on}
use go_iecp.Cs101.Exchange.Lossless.{exchange-lost}
use go_iecp.Cs101.Exchange.Delivery.{
  IsReady, user_data, sending, send_asdu-sending, sending-IsOutstanding, payloads_of, handed,
  delivered, serve-delivered, next, acknowledged, receive-acknowledged, control_fields,
  find_sec-update_sec,
}

-- The line lets the frame pass at the first attempt or at the repetition.
pub data Survives : List Passage → Type 0 where
  first : Survives (passed ∷ [])
  repeated : (way : Passage) → way ≢ passed → Survives (way ∷ passed ∷ [])

confirm_sec-next :
    (sec : Secondary) (c : Client) (octets : List ℕ)
    → confirm_sec (user_data sec c octets).ctrl (record sec { dfc = false }) ≡ next sec
unfolding confirm_sec
confirm_sec-next sec c octets =
    let (prm, fcv, fcb, fun) = control_fields c sec.fcb in ground (arith, prm, fcv, fcb, fun)

-- The server once the line has taken its acknowledgement.
abbrev served_payload : Server → List ℕ → Server
served_payload s octets = record (delivered s (handed s.params octets)) { send_frame = [] }

module _ (now : ℕ) (sec : Secondary) (c : Client) (s : Server) (octets : List ℕ)
    (ready : IsReady sec c s) (room : length s.handler_payload < handler_payload_cap)
    (no_class1 : s.class1 ≡ []) where
  no_pending : class1_pending s ≡ false
  unfolding class1_pending
  no_pending = ground (arith, no_class1)

  exchange-passed :
      exchange now (passed ∷ []) (sending sec c octets, s)
      ≡ some (acknowledged sec c octets, (served_payload s octets))
  unfolding exchange attempt carry receive_all
  exchange-passed = rw (serve-delivered now sec c s octets ready room) (
      ap (λ (d : Client). some (d, (served_payload s octets)))
        (rw no_pending (receive-acknowledged sec c s octets ready)))

  exchange-delivered :
      (tries : List Passage)
      → Survives tries
      → exchange now tries (sending sec c octets, s)
        ≡ some (acknowledged sec c octets, (served_payload s octets))
  exchange-delivered _ first = exchange-passed
  exchange-delivered _ (repeated way n) =
      exchange-lost now way [] (user_data sec c octets) (sending sec c octets) s n
        (sending-IsOutstanding sec c s octets ready)
      ∙ exchange-passed

  acknowledged-IsReady : IsReady (next sec) (acknowledged sec c octets) (served_payload s octets)
  acknowledged-IsReady = record {
    idle = refl;
    line_free = refl;
    connected = ready.connected;
    station =
        find_sec-update_sec (confirm_sec (user_data sec c octets).ctrl) sec.addr _
          (record sec { dfc = false })
          (find_sec-update_sec (λ (x : Secondary). record x { dfc = false }) sec.addr c.secs sec
            ready.station refl)
          (ap (λ (x : Secondary). x.addr) (confirm_sec-next sec c octets))
        ∙ ap some (confirm_sec-next sec c octets);
    active = ready.active;
    for_server = ready.for_server;
    same_size = ready.same_size;
    fits = ready.fits;
    not_broadcast = ready.not_broadcast;
    free = record { connected = ready.free.connected; free = refl };
    agree = ap not ready.agree;
  }

-- What is to be sent, and what the line does with it.
abbrev pub Sending : Type 0
Sending = Asdu × List Passage

-- The ASDUs sent one after the other to the station at `addr`.
pub transfer : ℕ → ℕ → List Sending → Client × Server → Option (Client × Server)
transfer now addr [] cs = some cs
transfer now addr ((a, tries) ∷ rest) (c, s) =
    then_on (exchange now tries ((send_asdu (record { asdu = a; addr = addr }) c).0, s))
      (transfer now addr rest)

-- An ASDU that can be sent, on a line that lets it pass.
pub record Passes (x : Sending) : Type 0 where
  pub octets : List ℕ
  pub marshalled : marshal_binary x.0 ≡ ok octets
  pub survives : Survives x.1

-- The octets of an ASDU.
unfoldable pub octets_of : Asdu → List ℕ
octets_of a = elim (marshal_binary a) [ ok octets ↦ octets | err e ↦ [] ]

pub raw : List HandlerAsduPayload → List (List ℕ)
raw [] = []
raw (p ∷ rest) = p.raw_data ∷ raw rest

-- The octets, when an ASDU is read from them under these parameters.
unfoldable pub readable : Params → List ℕ → List (List ℕ)
readable p octets = elim ((unmarshal_binary (new_asdu p empty_identifier) octets).1) [
  | none ↦ octets ∷ []
  | some e ↦ []
]

unfoldable pub all_readable : Params → List Sending → List (List ℕ)
all_readable p [] = []
all_readable p (x ∷ rest) = readable p (octets_of x.0) ++ all_readable p rest

octets_of-ok : (a : Asdu) (octets : List ℕ) → marshal_binary a ≡ ok octets → octets_of a ≡ octets
unfolding octets_of
octets_of-ok a octets h = ground (arith, h)

raw-append : (xs ys : List HandlerAsduPayload) → raw (xs ++ ys) ≡ raw xs ++ raw ys
unfolding raw
raw-append [] ys = refl
raw-append (x ∷ xs) ys = ap (λ l. x.raw_data ∷ l) (raw-append xs ys)

raw-handed : (p : Params) (octets : List ℕ) → raw (handed p octets) ≡ readable p octets
unfolding raw readable
raw-handed p octets = ground arith

length-payloads_of : (d : Asdu × Option Error) (octets : List ℕ) → length (payloads_of d octets) ≤ 1
length-payloads_of (a, none) octets = ground arith
length-payloads_of (a, some e) octets = ground arith

-- From an idle client with the server as its active station, their count bits in agreement, and a
-- server without class 1 data and with room for a payload of each ASDU: of ASDUs that MarshalBinary
-- writes, whatever the line loses, as long as each frame passes at the first attempt or the
-- repetition, the server hands to its handler, once and in order, the octets of those that its own
-- UnmarshalBinary reads, and of no others; the client is then idle again and the two are in
-- agreement for the next.
pub transfer-raw :
    (now : ℕ) (xs : List Sending) (sec : Secondary) (c : Client) (s : Server)
    → IsReady sec c s
    → s.class1 ≡ []
    → length s.handler_payload + length xs ≤ handler_payload_cap
    → All Passes xs
    → (c' : Client) × (s' : Server) × (sec' : Secondary) × (transfer now sec.addr xs (c, s)
        ≡ some (c', s'))
      × (raw s'.handler_payload ≡ raw s.handler_payload ++ all_readable s.params xs)
      × IsReady sec' c' s'
unfolding transfer all_readable raw
transfer-raw now [] sec c s r n k w = (c, s, sec, refl, sym (append_nil (raw s.handler_payload)), r)
transfer-raw now ((a, tries) ∷ xs) sec c s r n k (p, w) =
    let (c', s', sec', runs, holds, ready) =
      transfer-raw now xs (next sec) (acknowledged sec c p.octets) (served_payload s p.octets)
        (acknowledged-IsReady now sec c s p.octets r room n) n fits w in
    (
      c',
      s',
      sec',
      ap (λ (d : Client). then_on (exchange now tries (d, s)) (transfer now sec.addr xs))
            (ap (λ (d : Client × Option LinkError). d.0)
              (send_asdu-sending sec c s a p.octets r p.marshalled))
          ∙ ap (λ (o : Option (Client × Server)). then_on o (transfer now sec.addr xs))
              (exchange-delivered now sec c s p.octets r room n tries p.survives)
          ∙ runs,
      holds
          ∙ ap (λ (l : List (List ℕ)). l ++ all_readable s.params xs)
              (raw-append s.handler_payload (handed s.params p.octets))
          ∙ append_assoc (raw s.handler_payload) (raw (handed s.params p.octets))
              (all_readable s.params xs)
          ∙ ap (λ (o : List (List ℕ)). raw s.handler_payload ++ (o ++ all_readable s.params xs))
              (raw-handed s.params p.octets
                ∙ ap (readable s.params) (sym (octets_of-ok a p.octets p.marshalled))),
      ready,
    )
  where
    room : length s.handler_payload < handler_payload_cap
    room = omega arith

    fits : length (s.handler_payload ++ handed s.params p.octets) + length xs ≤ handler_payload_cap
    fits = omega (
      arith,
      length-append s.handler_payload (handed s.params p.octets),
      length-payloads_of (unmarshal_binary (new_asdu s.params empty_identifier) p.octets) p.octets,
    )
