-- ===== src/Cs104/Session/Invariant.antt =====
-- What holds of a server session of cs104/server_session.go between two iterations of `run`.
use go_iecp.Shared.{
  ℕ, ◌+◌, ◌<◌, ◌≤◌, ◌≡◌, ◌≢◌, refl, true, false, List, [], ◌∷◌, uint16, length, arith, All, IsByte,
  length-drop, length-append,
}
use go_iecp.Cs104.Apci.{Apci, i_apci, s_apci, u_apci, ok, invalid, parse, Parsed}
use go_iecp.Cs104.Config.{Config}
use go_iecp.Cs104.Config.Laws.{IsValid}
use go_iecp.Cs104.Sequence.{
  Link, SeqPending, clean_link, seq15, seq_no_count, update_ack_no_out, record_sent,
}
use go_iecp.Cs104.Sequence.Window.{
  IsWindow, distance, seq_no_count-window, update_ack_no_out_lem, update_ack_no_out-IsWindow,
  record_sent-IsWindow,
}
use go_iecp.Cs104.Session.{
  Session, Outcome, running, stopped, panicked, Event, transmits, ticks, receives, done, started,
  acknowledge, confirm_stop_dt_if_done, receive_s, receive_i_inactive, deliver, receive_i, stop_dt,
  receive_u, receive_head, receive_apdu, tick_idle, tick_oldest, tick, transmit, step, run,
}

-- The limits k and w, and a STOPDT confirmation that waits only for what is unacknowledged.
pub record Inv (c : Config) (s : Session) : Type 0 where
  pub is_window : IsWindow s.link
  pub in_flight : length s.pending ≤ c.send_un_ack_limit_k
  pub unconfirmed : seq_no_count s.ack_no_rcv s.seq_no_rcv < c.recv_un_ack_limit_w
  pub stop_waits :
      s.pending_stop_dt ≡ true → (s.is_active ≡ false) × (s.ack_no_send ≢ s.seq_no_send)

-- What an outcome keeps: a session that goes on keeps the invariant, and nothing panics.
abbrev pub Keeps : Config → Outcome → Type 0
Keeps c (running s) = Inv c s
Keeps c (stopped s) = Unit
Keeps c panicked = ⊥

-- The numbers of a header have fifteen bits.
abbrev pub IsNumbered : Apci → Type 0
IsNumbered (i_apci send_sn rcv_sn) = (send_sn < 32768) × (rcv_sn < 32768)
IsNumbered (s_apci rcv_sn) = rcv_sn < 32768
IsNumbered (u_apci function) = Unit

-- The connection delivers octets.
abbrev pub IsPossible : Event → Type 0
IsPossible (receives apdu now) = All IsByte apdu
IsPossible (transmits asdu now) = Unit
IsPossible (ticks now clock) = Unit
IsPossible done = Unit

pub parse-IsNumbered :
    (apdu : List ℕ) {head : Apci} {asdus : List ℕ}
    → All IsByte apdu
    → parse apdu ≡ ok head asdus
    → IsNumbered head
unfolding parse
parse-IsNumbered (s ∷ n ∷ c1 ∷ c2 ∷ c3 ∷ c4 ∷ rest) bs h = ground arith
parse-IsNumbered _ bs h = cc

seq_no_count_self : (a : ℕ) → a < 32768 → seq_no_count a a ≡ 0
unfolding seq_no_count
seq_no_count_self a h = ground arith

-- The fields that an acknowledgement leaves alone, and the list that it only shortens.
record IsAcknowledged (l m : Link) : Type 0 where
  same_seq_no_send : m.seq_no_send ≡ l.seq_no_send
  same_seq_no_rcv : m.seq_no_rcv ≡ l.seq_no_rcv
  same_ack_no_rcv : m.ack_no_rcv ≡ l.ack_no_rcv
  shorter : length m.pending ≤ length l.pending

update-IsAcknowledged :
    (l : Link) (ack_no : ℕ)
    → IsWindow l
    → ack_no < 32768
    → IsAcknowledged l (update_ack_no_out l ack_no).0
update-IsAcknowledged l ack_no w h = ground (
  arith,
  update_ack_no_out_lem l ack_no w h,
  length-drop (distance l.ack_no_send ack_no) l.pending,
)

module _ (c : Config) (c_valid : IsValid c) where
  confirm-Inv :
      (s : Session)
      → IsWindow s.link
      → length s.pending ≤ c.send_un_ack_limit_k
      → seq_no_count s.ack_no_rcv s.seq_no_rcv < c.recv_un_ack_limit_w
      → (s.pending_stop_dt ≡ true → s.is_active ≡ false)
      → Inv c (confirm_stop_dt_if_done s)
  unfolding confirm_stop_dt_if_done
  confirm-Inv s w k r p = ground arith

  receive_s-Keeps :
      (rcv_sn : ℕ) (s : Session) → Inv c s → rcv_sn < 32768 → Keeps c (receive_s rcv_sn s)
  unfolding receive_s
  receive_s-Keeps rcv_sn s inv h = ground (
    arith,
    update-IsAcknowledged s.link rcv_sn inv.is_window h,
    update_ack_no_out-IsWindow s.link rcv_sn inv.is_window h,
    confirm-Inv (record s { link = (update_ack_no_out s.link rcv_sn).0 }),
  )

  receive_i_inactive-Inv :
      (rcv_sn : ℕ) (s : Session) → Inv c s → rcv_sn < 32768 → Inv c (receive_i_inactive rcv_sn s)
  unfolding receive_i_inactive
  receive_i_inactive-Inv rcv_sn s inv h = ground (
    arith,
    update-IsAcknowledged s.link rcv_sn inv.is_window h,
    update_ack_no_out-IsWindow s.link rcv_sn inv.is_window h,
    confirm-Inv (record s { link = (update_ack_no_out s.link rcv_sn).0 }),
  )

  acknowledge-IsWindow : (s : Session) → IsWindow s.link → IsWindow (acknowledge s).link
  acknowledge-IsWindow s w = ground arith

  deliver-Inv :
      (asdu : List ℕ) (now : ℕ) (s : Session)
      → IsWindow s.link
      → length s.pending ≤ c.send_un_ack_limit_k
      → s.pending_stop_dt ≡ false
      → Inv c (deliver c asdu now s)
  unfolding deliver
  deliver-Inv asdu now s w k p =
      ground (arith, seq_no_count_self (seq15 (uint16 (s.seq_no_rcv + 1))), c_valid)

  receive_i-Keeps :
      (send_sn rcv_sn : ℕ) (asdu : List ℕ) (now : ℕ) (s : Session)
      → Inv c s
      → rcv_sn < 32768
      → Keeps c (receive_i c send_sn rcv_sn asdu now s)
  unfolding receive_i
  receive_i-Keeps send_sn rcv_sn asdu now s inv h = ground (
    arith,
    receive_i_inactive-Inv rcv_sn s inv h,
    update-IsAcknowledged s.link rcv_sn inv.is_window h,
    update_ack_no_out-IsWindow s.link rcv_sn inv.is_window h,
    deliver-Inv asdu now (record s { link = (update_ack_no_out s.link rcv_sn).0 }),
  )

  stop_dt-Inv : (s : Session) → Inv c s → Inv c (stop_dt s)
  unfolding stop_dt
  stop_dt-Inv s inv = ground (arith, seq_no_count_self s.seq_no_rcv, c_valid)

  receive_u-Inv : (function : ℕ) (s : Session) → Inv c s → Inv c (receive_u function s)
  unfolding receive_u
  receive_u-Inv function s inv = ground (arith, stop_dt-Inv s inv)

  receive_head-Keeps :
      (head : Apci) (asdu : List ℕ) (now : ℕ) (s : Session)
      → Inv c s
      → IsNumbered head
      → Keeps c (receive_head c head asdu now s)
  unfolding receive_head
  receive_head-Keeps (s_apci rcv_sn) asdu now s inv h = receive_s-Keeps rcv_sn s inv h
  receive_head-Keeps (i_apci send_sn rcv_sn) asdu now s inv h =
      receive_i-Keeps send_sn rcv_sn asdu now s inv h.1
  receive_head-Keeps (u_apci function) asdu now s inv h = receive_u-Inv function s inv

  receive_apdu-Keeps :
      (apdu : List ℕ) (now : ℕ) (s : Session)
      → All IsByte apdu
      → Inv c s
      → Keeps c (receive_apdu c apdu now s)
  unfolding receive_apdu
  receive_apdu-Keeps apdu now s bs inv = go (parse apdu) refl
    where
      idle : Session
      idle = record s { idle_timeout3_sine = now }

      idle-Inv : Inv c idle
      idle-Inv = ground arith

      go : (r : Parsed) → parse apdu ≡ r → Keeps c (receive_apdu c apdu now s)
      go (invalid e) eq = rw (eq, receive_apdu) idle-Inv
      go (ok head asdu) eq =
          rw (eq, receive_apdu)
            (receive_head-Keeps head asdu now idle idle-Inv (parse-IsNumbered apdu bs eq))

  tick_idle-Inv : (now clock : ℕ) (s : Session) → Inv c s → Inv c (tick_idle c now clock s)
  unfolding tick_idle
  tick_idle-Inv now clock s inv = ground (arith, seq_no_count_self s.seq_no_rcv, c_valid)

  -- What is not acknowledged is on the list, so its first entry is there.
  tick_oldest-Keeps :
      (now clock : ℕ) (s : Session) (ps : List SeqPending)
      → Inv c s
      → s.ack_no_send ≢ s.seq_no_send
      → ps ≡ s.pending
      → Keeps c (tick_oldest c now clock s ps)
  unfolding tick_oldest
  tick_oldest-Keeps now clock s [] inv h e = ground (arith, inv.is_window)
  tick_oldest-Keeps now clock s (p ∷ ps) inv h e = ground (arith, tick_idle-Inv now clock s inv)

  tick-Keeps : (now clock : ℕ) (s : Session) → Inv c s → Keeps c (tick c now clock s)
  unfolding tick
  tick-Keeps now clock s inv =
      ground (arith, tick_oldest-Keeps now clock s s.pending inv, tick_idle-Inv now clock s inv)

  transmit-Inv : (asdu : List ℕ) (now : ℕ) (s : Session) → Inv c s → Inv c (transmit c asdu now s)
  unfolding transmit record_sent
  transmit-Inv asdu now s inv = ground (
    arith,
    length-append s.pending (record { seq = seq15 s.seq_no_send; send_time = now } ∷ []),
    c_valid,
    inv.is_window,
    seq_no_count-window s.ack_no_send (length s.pending),
    record_sent-IsWindow s.link now inv.is_window,
    seq_no_count_self s.seq_no_rcv,
  )

  -- One event, under a valid configuration: if it leaves the loop running, the invariant holds
  -- again, and it does not panic. An APDU is octets.
  step-Keeps : (s : Session) (e : Event) → IsPossible e → Inv c s → Keeps c (step c s e)
  unfolding step
  step-Keeps s (transmits asdu now) h inv = transmit-Inv asdu now s inv
  step-Keeps s (ticks now clock) h inv = tick-Keeps now clock s inv
  step-Keeps s (receives apdu now) h inv = receive_apdu-Keeps apdu now s h inv
  step-Keeps s done h inv = tt

  run-Keeps-from :
      (o : Outcome) (es : List Event) → All IsPossible es → Keeps c o → Keeps c (run c o es)
  unfolding run
  run-Keeps-from (running s) (e ∷ es) h k =
      run-Keeps-from (step c s e) es h.1 (step-Keeps s e h.0 k)
  run-Keeps-from (running s) [] h k = k
  run-Keeps-from (stopped s) es h k = tt
  run-Keeps-from panicked es h k = k

started-Inv : (c : Config) (now : ℕ) → IsValid c → Inv c (started now)
unfolding started clean_link
started-Inv c now v = ground (arith, v, seq_no_count_self 0)

-- Under a valid configuration and from the start of a session, no sequence of events, in which
-- every APDU is octets, makes the loop panic; and while it runs, at most k I frames are
-- unacknowledged, their numbers are consecutive up to the next one, fewer than w received I
-- frames wait for an acknowledgement, and a STOPDT confirmation waits only while data transfer is
-- stopped and something is unacknowledged.
pub run-Keeps :
    (c : Config) (now : ℕ) (es : List Event)
    → IsValid c
    → All IsPossible es
    → Keeps c (run c (running (started now)) es)
run-Keeps c now es v h = run-Keeps-from c v (running (started now)) es h (started-Inv c now v)
