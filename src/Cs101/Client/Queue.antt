-- ===== src/Cs101/Client/Queue.antt =====
-- cs101/client.go: the queue of ASDUs that wait to be sent.
use go_iecp.Shared.{
  ℕ, Bool, true, false, not, ◌&&◌, List, [], ◌∷◌, ◌++◌, Option, none, some, if◌then◌else◌, length,
}
use go_iecp.Asdu.Error.{ok, err}
use go_iecp.Asdu.Message.{Asdu}
use go_iecp.Asdu.Marshal.{marshal_binary}
use go_iecp.Cs101.Frame.{new_data_frame, is_broadcast_addr}
use go_iecp.Cs101.Link.{
  LinkError, use_closed_connection, not_active, send_queue_full, marshal, prim_fc_user_data_conf,
  prim_fc_user_data_no_conf, encode_link_addr, at_limit,
}
use go_iecp.Cs101.Client.{
  Client, Secondary, Outgoing, is_active, find_sec, default_addr, prim_control, send_frame_to_chan,
  send_confirmed,
}

unfoldable pub send_to : Asdu → ℕ → Client → Client × Option LinkError
send_to a addr c =
    if not c.connected
    then (c, some use_closed_connection)
    else if at_limit (length c.send_queue) c.config.max_send_queue_size
    then (c, some send_queue_full)
    else (record c { send_queue = c.send_queue ++ (record { asdu = a; addr = addr } ∷ []) }, none)

-- `Send`
unfoldable pub send : Asdu → Client → Client × Option LinkError
send a c = send_to a (default_addr c) c

-- `_sendASDU` to every station.
unfoldable pub broadcast_asdu : Outgoing → Client → Client × Option LinkError
broadcast_asdu out c = elim (marshal_binary out.asdu) [
  | err e ↦ (c, some (marshal e))
  | ok octets ↦
      send_frame_to_chan
        (new_data_frame (prim_control c prim_fc_user_data_no_conf false false)
          (encode_link_addr c.config.link_addr_size out.addr) octets)
        c
]

-- `_sendASDU` to an active station.
unfoldable pub confirmed_asdu : Outgoing → Secondary → Client → Client × Option LinkError
confirmed_asdu out sec c = elim (marshal_binary out.asdu) [
  | err e ↦ (c, some (marshal e))
  | ok octets ↦
      let control = prim_control c prim_fc_user_data_conf true sec.fcb in
      send_confirmed
        (new_data_frame control (encode_link_addr c.config.link_addr_size sec.addr) octets) control
        sec.addr c
]

abbrev is_active? : Option Secondary → Bool
is_active? none = false
is_active? (some s) = is_active s.phase

unfoldable pub send_asdu : Outgoing → Client → Client × Option LinkError
send_asdu out c =
    if is_broadcast_addr out.addr c.config.link_addr_size
    then broadcast_asdu out c
    else elim (find_sec c.secs out.addr) [
      | none ↦ (c, some not_active)
      | some sec ↦ if is_active sec.phase then confirmed_asdu out sec c else (c, some not_active)
    ]

-- What becomes of an entry: it is sent, dropped, or kept.
pub data Choice : Type 0 where
  chosen dropped kept : Choice

unfoldable pub choose : Client → Outgoing → Choice
choose c e =
    if is_broadcast_addr e.addr c.config.link_addr_size
    then chosen
    else elim (find_sec c.secs e.addr) [
      | none ↦ dropped
      | some sec ↦ if is_active sec.phase && not sec.dfc then chosen else kept
    ]

-- The first entry that can be sent, and the queue without it and what was dropped before it.
unfoldable pub take_next : Client → List Outgoing → Option Outgoing × List Outgoing
take_next c [] = (none, [])
take_next c (e ∷ rest) =
    let more = take_next c rest in
    elim (choose c e) [ chosen ↦ (some e, rest) | dropped ↦ more | kept ↦ (more.0, e ∷ more.1) ]

abbrev is_none {ℓ} : {A : Type ℓ} → Option A → Bool
is_none none = true
is_none (some a) = false

-- `trySendNextFromQueue`: whether a frame was handed over.
unfoldable pub try_send_next_from_queue : Client → Client × Bool
try_send_next_from_queue c = elim c.last_sent [
  | some p ↦ (c, false)
  | none ↦
      let taken = take_next c c.send_queue in
      let c1 = record c { send_queue = taken.1 } in
      elim taken.0 [
        | none ↦ (c1, false)
        | some next ↦ let sent = send_asdu next c1 in (sent.0, is_none sent.1)
      ]
]
