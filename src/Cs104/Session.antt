-- ===== src/Cs104/Session.antt =====
-- cs104/server_session.go: the state machine of `SrvSession.run`. A state is what the loop holds
-- between two iterations; an event is the branch of its selects that is taken. Times are numbers
-- of nanoseconds; one reading of the clock serves an iteration. A channel that a frame or an ASDU
-- is put into is the list of all that was put into it, oldest first.
pub mod Invariant
pub mod Delivery
pub mod StopDt
use go_iecp.Shared.{
  ℕ, ◌+◌, ◌*◌, Bool, true, false, not, ◌&&◌, ◌||◌, List, [], ◌∷◌, ◌++◌, Option, none, some, ◌==◌,
  ◌!=◌, ltb, leb, if◌then◌else◌, uint16,
}
use go_iecp.Cs104.Apci.{
  Apci, i_apci, s_apci, u_apci, ok, invalid, parse, new_i_frame, new_s_frame, new_u_frame,
  u_start_dt_active, u_start_dt_confirm, u_stop_dt_active, u_stop_dt_confirm, u_test_fr_active,
  u_test_fr_confirm,
}
use go_iecp.Cs104.Config.{Config, hour}
use go_iecp.Cs104.Sequence.{
  Link, SeqPending, clean_link, seq15, seq_no_count, update_ack_no_out, record_sent,
}

pub record Session : Type 0 where
  pub link : Link
  pub open link use *
  pub is_active : Bool
  pub pending_stop_dt : Bool
  -- The time a hundred years after the start that stands for no timeout.
  pub will_not_timeout : ℕ
  pub un_ack_rcv_since : ℕ
  pub idle_timeout3_sine : ℕ
  pub test_fr_alive_send_since : ℕ
  pub send_raw : List (List ℕ)
  pub rcv_asdu : List (List ℕ)

-- How an iteration ends: `run` goes on, returns, or panics by an index out of range.
pub data Outcome : Type 0 where
  running : Session → Outcome
  stopped : Session → Outcome
  panicked : Outcome

pub data Event : Type 0 where
  -- An ASDU waits in `sendASDU`, at a time.
  transmits : List ℕ → ℕ → Event
  -- The ticker's time, and the clock's when the branch runs.
  ticks : ℕ → ℕ → Event
  -- An APDU from `rcvRaw`, at a time.
  receives : List ℕ → ℕ → Event
  -- `ctx.Done()`.
  done : Event

abbrev pub timeout_resolution : ℕ
timeout_resolution = 100_000_000

-- `now.Sub(since) >= timeout`
abbrev pub elapsed : ℕ → ℕ → ℕ → Bool
elapsed now since timeout = leb (since + timeout) now

-- A session as `run` sets it up at a time, after `cleanUp`.
unfoldable pub started : ℕ → Session
started now = record {
  link = clean_link;
  is_active = false;
  pending_stop_dt = false;
  will_not_timeout = now + 24 * 365 * 100 * hour;
  un_ack_rcv_since = now + 24 * 365 * 100 * hour;
  idle_timeout3_sine = now;
  test_fr_alive_send_since = now + 24 * 365 * 100 * hour;
  send_raw = [];
  rcv_asdu = [];
}

abbrev pub put_frame : List ℕ → Session → Session
put_frame frame s = record s { send_raw = s.send_raw ++ (frame ∷ []) }

abbrev pub put_u_frame : ℕ → Session → Session
put_u_frame which s = put_frame (new_u_frame which) s

-- The closure `sendSFrame`, with the assignment that follows each call of it.
abbrev pub acknowledge : Session → Session
acknowledge s =
    put_frame (new_s_frame s.seq_no_rcv)
      (record s { link = record l { ack_no_rcv = l.seq_no_rcv } })
  where
    l : Link
    l = s.link

abbrev frame_or_nil : Option (List ℕ) → List ℕ
frame_or_nil none = []
frame_or_nil (some frame) = frame

-- The closure `sendIFrame`: an ASDU that is too large takes a number too, and a nil frame.
pub send_i_frame : List ℕ → ℕ → Session → Session
send_i_frame asdu now s =
    put_frame (frame_or_nil (new_i_frame s.seq_no_send s.seq_no_rcv asdu))
      (record s { link = record_sent s.link now })

-- The closure `confirmStopDtIfDone`.
pub confirm_stop_dt_if_done : Session → Session
confirm_stop_dt_if_done s =
    if s.pending_stop_dt && s.ack_no_send == s.seq_no_send
    then put_u_frame u_stop_dt_confirm (record s { pending_stop_dt = false })
    else s

receive_s : ℕ → Session → Outcome
receive_s rcv_sn s =
    let (l, accepted) = update_ack_no_out s.link rcv_sn in
    if accepted then running (confirm_stop_dt_if_done (record s { link = l })) else stopped s

-- An I frame while data transfer is stopped: only its acknowledgement counts.
receive_i_inactive : ℕ → Session → Session
receive_i_inactive rcv_sn s =
    let (l, accepted) = update_ack_no_out s.link rcv_sn in
    if accepted then confirm_stop_dt_if_done (record s { link = l }) else s

-- An I frame that is in sequence, after its acknowledgement.
deliver : Config → List ℕ → ℕ → Session → Session
deliver c asdu now s =
    let l = s.link in
    let t = record s {
      rcv_asdu = s.rcv_asdu ++ (asdu ∷ []);
      un_ack_rcv_since = if l.ack_no_rcv == l.seq_no_rcv then now else s.un_ack_rcv_since;
      link = record l { seq_no_rcv = seq15 (uint16 (l.seq_no_rcv + 1)) };
    } in
    if leb c.recv_un_ack_limit_w (seq_no_count t.ack_no_rcv t.seq_no_rcv) then acknowledge t else t

receive_i : Config → ℕ → ℕ → List ℕ → ℕ → Session → Outcome
receive_i c send_sn rcv_sn asdu now s =
    if not s.is_active
    then running (receive_i_inactive rcv_sn s)
    else let (l, accepted) = update_ack_no_out s.link rcv_sn in
      if not accepted || send_sn != s.seq_no_rcv
      then stopped (record s { link = l })
      else running (deliver c asdu now (record s { link = l }))

-- A STOPDT activation.
stop_dt : Session → Session
stop_dt s =
    let t = record s { is_active = false } in
    let u = if t.ack_no_rcv != t.seq_no_rcv then acknowledge t else t in
    if u.ack_no_send == u.seq_no_send
    then put_u_frame u_stop_dt_confirm (record u { pending_stop_dt = false })
    else record u { pending_stop_dt = true }

receive_u : ℕ → Session → Session
receive_u function s =
    if function == u_start_dt_active
    then record (put_u_frame u_start_dt_confirm s) { is_active = true; pending_stop_dt = false }
    else if function == u_stop_dt_active
    then stop_dt s
    else if function == u_test_fr_active
    then put_u_frame u_test_fr_confirm s
    else if function == u_test_fr_confirm
    then record s { test_fr_alive_send_since = s.will_not_timeout }
    else s

receive_head : Config → Apci → List ℕ → ℕ → Session → Outcome
unfolding receive_s receive_i receive_i_inactive deliver receive_u stop_dt
receive_head c (s_apci rcv_sn) asdu now s = receive_s rcv_sn s
receive_head c (i_apci send_sn rcv_sn) asdu now s = receive_i c send_sn rcv_sn asdu now s
receive_head c (u_apci function) asdu now s = running (receive_u function s)

receive_apdu : Config → List ℕ → ℕ → Session → Outcome
unfolding receive_head
receive_apdu c apdu now s =
    let t = record s { idle_timeout3_sine = now } in
    elim (parse apdu) [ invalid e ↦ running t | ok head asdu ↦ receive_head c head asdu now t ]

-- The acknowledgement and the keepalive of a tick.
tick_idle : Config → ℕ → ℕ → Session → Session
tick_idle c now clock s =
    let t =
      if s.ack_no_rcv != s.seq_no_rcv
        && (elapsed now s.un_ack_rcv_since c.recv_un_ack_timeout2
            || elapsed now s.idle_timeout3_sine timeout_resolution)
      then acknowledge s
      else s in
    if elapsed now t.idle_timeout3_sine c.idle_timeout3
    then record (put_u_frame u_test_fr_active t) {
      test_fr_alive_send_since = clock;
      idle_timeout3_sine = clock;
    }
    else t

-- The check of the oldest unacknowledged frame: `sf.pending[0]` of an empty list panics.
tick_oldest : Config → ℕ → ℕ → Session → List SeqPending → Outcome
tick_oldest c now clock s [] = panicked
tick_oldest c now clock s (oldest ∷ rest) =
    let l = s.link in
    if elapsed now oldest.send_time c.send_un_ack_timeout1
    then stopped (record s { link = record l { ack_no_send = uint16 (l.ack_no_send + 1) } })
    else running (tick_idle c now clock s)

tick : Config → ℕ → ℕ → Session → Outcome
unfolding tick_oldest tick_idle
tick c now clock s =
    if elapsed now s.test_fr_alive_send_since c.send_un_ack_timeout1
    then stopped s
    else if s.ack_no_send != s.seq_no_send
    then tick_oldest c now clock s s.pending
    else running (tick_idle c now clock s)

-- The head of the loop: an ASDU is taken only in data transfer, and below `k`.
transmit : Config → List ℕ → ℕ → Session → Session
unfolding send_i_frame
transmit c asdu now s =
    if s.is_active && ltb (seq_no_count s.ack_no_send s.seq_no_send) c.send_un_ack_limit_k
    then record (send_i_frame asdu now s) { idle_timeout3_sine = now }
    else s

pub step : Config → Session → Event → Outcome
unfolding transmit tick receive_apdu
step c s (transmits asdu now) = running (transmit c asdu now s)
step c s (ticks now clock) = tick c now clock s
step c s (receives apdu now) = receive_apdu c apdu now s
step c s done = stopped s

-- The loop over a sequence of events; nothing follows a stop or a panic.
pub run : Config → Outcome → List Event → Outcome
run c (running s) (e ∷ es) = run c (step c s e) es
run c o _ = o
