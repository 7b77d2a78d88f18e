-- ===== src/Cs101/Client/Run.antt =====
-- cs101/client.go: `runProtocol` as a step over what its select takes, and `tick`.
use go_iecp.Shared.{
  ℕ, zero, suc, ◌+◌, ◌%◌, true, false, not, ◌&&◌, [], Option, none, some, ◌==◌, ltb, if◌then◌else◌,
  length, get_elem?,
}
use go_iecp.Cs101.Frame.{Frame}
use go_iecp.Cs101.Link.{
  LinkError, timeout_t1, prim_fc_reset_link, prim_fc_req_status, prim_fc_req_data1,
  prim_fc_req_data2,
}
use go_iecp.Cs101.Client.{
  Client, phase_status, phase_reset, phase_active, Pending, is_active, is_balanced,
  init_secondaries, default_addr, find_sec, update_sec, update_link_active, first_active_secondary,
  send_frame_to_chan, send_reset_link, send_request_link_status, send_test_link, send_req_data,
}
use go_iecp.Cs101.Client.Handle.{failed_sec, handle_incoming_frame}
use go_iecp.Cs101.Client.Queue.{try_send_next_from_queue}

-- The loop of `tick` over the stations, with the rounds that are left.
unfoldable pub poll : ℕ → Client → Client
poll zero c = c
poll (suc rounds) c =
    let c1 = record c { poll_idx = (c.poll_idx + 1) % length c.secs } in
    let more = poll rounds c1 in
    elim (get_elem? c.secs c.poll_idx) [
      | none ↦ c
      | some sec ↦ elim sec.phase [
        | phase_status ↦ send_request_link_status sec c1
        | phase_reset ↦ send_reset_link sec c1
        | phase_active ↦
            if is_balanced c
            then more
            else if sec.want_class1
            then send_req_data sec prim_fc_req_data1 c1
            else send_req_data sec prim_fc_req_data2 c1
      ]
    ]

unfoldable pub tick : Client → Client
tick c = elim c.last_sent [
  | some p ↦ c
  | none ↦
      let tried = try_send_next_from_queue c in
      if tried.1 then tried.0 else poll (length tried.0.secs) tried.0
]

-- A manual request, made while the link is free.
unfoldable pub link_request : ℕ → Client → Client
link_request fun c = elim c.last_sent [
  | some p ↦ c
  | none ↦ elim (find_sec c.secs (default_addr c)) [
    | none ↦ c
    | some sec ↦
        if fun == prim_fc_reset_link
        then send_reset_link sec c
        else if fun == prim_fc_req_status
        then send_request_link_status sec c
        else if fun == prim_fc_req_data2
        then if is_active sec.phase && not (is_balanced c)
          then send_req_data sec prim_fc_req_data2 c
          else c
        else c
  ]
]

-- The outstanding frame once more, as it was.
unfoldable pub retry : Pending → Client → Client × Option LinkError
retry p c =
    let sent = send_frame_to_chan p.frame c in
    elim sent.1 [
      | some e ↦ (sent.0, some e)
      | none ↦ (record sent.0 { t1_timer = some c.config.timeout_repeat_t2 }, none)
    ]

-- The response timeout: the client, and the error that ends the connection.
unfoldable pub t1_timeout : Client → Client × Option LinkError
t1_timeout c = elim c.last_sent [
  | none ↦ (record c { t1_timer = none }, none)
  | some p ↦
      if ltb c.retry_count 1
      then retry p (record c { retry_count = c.retry_count + 1; t1_timer = none })
      else (
        update_link_active (record c {
          last_sent = none;
          retry_count = 0;
          t1_timer = none;
          secs = update_sec failed_sec p.addr c.secs;
        }),
        if length c.secs == 1 then some timeout_t1 else none,
      )
]

unfoldable pub t3_timeout : Client → Client
t3_timeout c = elim c.last_sent [
  | some p ↦ c
  | none ↦ elim (first_active_secondary c.secs) [ none ↦ c | some sec ↦ send_test_link sec c ]
]

unfoldable pub stop_if_free : Client → Client
stop_if_free c = elim c.last_sent [ none ↦ record c { t1_timer = none } | some p ↦ c ]

-- A frame, after which the response timer is stopped when nothing is outstanding.
unfoldable pub receive : Frame → Client → Client
receive f c = stop_if_free (handle_incoming_frame f c).0

pub data Event : Type 0 where
  try_send t1 t3 : Event
  link_req : ℕ → Event
  rcv_frame : Frame → Event

-- One round of the loop.
unfoldable pub run : Event → Client → Client × Option LinkError
run try_send c = (tick c, none)
run (link_req fun) c = (link_request fun c, none)
run t1 c = t1_timeout c
run t3 c = (t3_timeout c, none)
run (rcv_frame f) c = (receive f c, none)

-- The state that `runProtocol` begins with.
unfoldable pub start : Client → Client
start c = init_secondaries (record c {
  send_frame = [];
  rcv_asdu = [];
  send_queue = [];
  last_sent = none;
  retry_count = 0;
  fcb_expected = true;
  t1_timer = none;
  link_active = false;
})
