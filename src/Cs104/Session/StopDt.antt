-- ===== src/Cs104/Session/StopDt.antt =====
-- When a server session of cs104/server_session.go confirms a STOPDT.
use go_iecp.Shared.{
  ℕ, suc, ◌+◌, ◌≡◌, ◌⊎◌, inl, refl, true, false, ◌==◌, if◌then◌else◌, List, [], ◌∷◌, ◌++◌, get_or,
  uint16, arith, All,
}
use go_iecp.Cs104.Apci.{
  Apci, i_apci, s_apci, u_apci, ok, invalid, parse, Parsed, new_i_frame, new_s_frame, new_u_frame,
  u_stop_dt_confirm, u_test_fr_active,
}
use go_iecp.Cs104.Config.{Config}
use go_iecp.Cs104.Config.Laws.{IsValid}
use go_iecp.Cs104.Sequence.{seq15, update_ack_no_out}
use go_iecp.Cs104.Session.{
  Session, Outcome, running, stopped, panicked, Event, transmits, ticks, receives, done,
  acknowledge, confirm_stop_dt_if_done, receive_s, receive_i_inactive, deliver, receive_i, stop_dt,
  receive_u, receive_head, receive_apdu, tick_idle, tick_oldest, tick, transmit, step, run, started,
  send_i_frame, frame_or_nil, put_u_frame,
}
use go_iecp.Cs104.Session.Invariant.{Inv, IsPossible, Keeps, run-Keeps}

-- The STOPDT confirmations among frames, told by their third octet.
abbrev pub stop_confirms : List (List ℕ) → ℕ
stop_confirms [] = 0
stop_confirms (f ∷ fs) = (if get_or f 2 0 == 0x23 then 1 else 0) + stop_confirms fs

stop_confirms-append :
    (fs : List (List ℕ)) (f : List ℕ)
    → stop_confirms (fs ++ (f ∷ [])) ≡ stop_confirms fs + (if get_or f 2 0 == 0x23 then 1 else 0)
stop_confirms-append [] f = ground arith
stop_confirms-append (g ∷ fs) f = ground (arith, stop_confirms-append fs f)

-- From one session to the next, either nothing is confirmed, or one STOPDT is, with data transfer
-- stopped and every I frame acknowledged.
abbrev pub Confirmed : Session → Outcome → Type 0
Confirmed s (running t) =
    (stop_confirms t.send_raw ≡ stop_confirms s.send_raw)
    ⊎ ((stop_confirms t.send_raw ≡ suc (stop_confirms s.send_raw))
        × (t.is_active ≡ false)
        × (t.ack_no_send ≡ t.seq_no_send))
Confirmed s _ = Unit

acknowledge-confirms :
    (s : Session) → stop_confirms (acknowledge s).send_raw ≡ stop_confirms s.send_raw
unfolding new_s_frame
acknowledge-confirms s = ground (arith, stop_confirms-append s.send_raw (new_s_frame s.seq_no_rcv))

module _ (c : Config) where
  confirm-Confirmed :
      (s : Session)
      → (s.pending_stop_dt ≡ true → s.is_active ≡ false)
      → Confirmed s (running (confirm_stop_dt_if_done s))
  unfolding confirm_stop_dt_if_done
  confirm-Confirmed s p =
      ground (arith, stop_confirms-append s.send_raw (new_u_frame u_stop_dt_confirm))

  receive_s-Confirmed : (n : ℕ) (s : Session) → Inv c s → Confirmed s (receive_s n s)
  unfolding receive_s
  receive_s-Confirmed n s inv = ground (
    arith,
    inv.stop_waits,
    confirm-Confirmed (record s { link = (update_ack_no_out s.link n).0 }),
  )

  deliver-confirms :
      (asdu : List ℕ) (now : ℕ) (s : Session)
      → stop_confirms (deliver c asdu now s).send_raw ≡ stop_confirms s.send_raw
  unfolding deliver new_s_frame
  deliver-confirms asdu now s =
      ground
        (arith, stop_confirms-append s.send_raw (new_s_frame (seq15 (uint16 (s.seq_no_rcv + 1)))))

  receive_i-Confirmed :
      (m n : ℕ) (asdu : List ℕ) (now : ℕ) (s : Session)
      → Inv c s
      → Confirmed s (receive_i c m n asdu now s)
  unfolding receive_i receive_i_inactive
  receive_i-Confirmed m n asdu now s inv = ground (
    arith,
    inv.stop_waits,
    confirm-Confirmed (record s { link = (update_ack_no_out s.link n).0 }),
    deliver-confirms asdu now (record s { link = (update_ack_no_out s.link n).0 }),
  )

  keepalive-confirms :
      (s : Session)
      → stop_confirms (put_u_frame u_test_fr_active s).send_raw ≡ stop_confirms s.send_raw
  unfolding new_u_frame
  keepalive-confirms s =
      ground (arith, stop_confirms-append s.send_raw (new_u_frame u_test_fr_active))

  tick_idle-confirms :
      (now clock : ℕ) (s : Session)
      → stop_confirms (tick_idle c now clock s).send_raw ≡ stop_confirms s.send_raw
  unfolding tick_idle
  tick_idle-confirms now clock s =
      ground
        (arith, acknowledge-confirms s, keepalive-confirms s, keepalive-confirms (acknowledge s))

  tick-Confirmed : (now clock : ℕ) (s : Session) → Confirmed s (tick c now clock s)
  unfolding tick tick_oldest
  tick-Confirmed now clock s = ground (arith, tick_idle-confirms now clock s)

  stop_dt-Confirmed : (s : Session) → Confirmed s (running (stop_dt s))
  unfolding stop_dt
  stop_dt-Confirmed s = ground (
    arith,
    acknowledge-confirms s,
    stop_confirms-append s.send_raw (new_u_frame u_stop_dt_confirm),
    stop_confirms-append (acknowledge s).send_raw (new_u_frame u_stop_dt_confirm),
  )

  receive_u-Confirmed : (f : ℕ) (s : Session) → Confirmed s (running (receive_u f s))
  unfolding receive_u new_u_frame
  receive_u-Confirmed f s = ground (
    arith,
    stop_dt-Confirmed s,
    stop_confirms-append s.send_raw (new_u_frame 0x08),
    stop_confirms-append s.send_raw (new_u_frame 0x80),
  )

  transmit-Confirmed :
      (asdu : List ℕ) (now : ℕ) (s : Session)
      → Inv c s
      → Confirmed s (running (transmit c asdu now s))
  unfolding transmit send_i_frame new_i_frame
  transmit-Confirmed asdu now s inv = ground (
    arith,
    stop_confirms-append s.send_raw (frame_or_nil (new_i_frame s.seq_no_send s.seq_no_rcv asdu)),
  )

  receive_head-Confirmed :
      (head : Apci) (asdu : List ℕ) (now : ℕ) (s : Session)
      → Inv c s
      → Confirmed s (receive_head c head asdu now s)
  unfolding receive_head
  receive_head-Confirmed (s_apci n) asdu now s inv = receive_s-Confirmed n s inv
  receive_head-Confirmed (i_apci m n) asdu now s inv = receive_i-Confirmed m n asdu now s inv
  receive_head-Confirmed (u_apci f) asdu now s inv = receive_u-Confirmed f s

  receive_apdu-Confirmed :
      (apdu : List ℕ) (now : ℕ) (s : Session) → Inv c s → Confirmed s (receive_apdu c apdu now s)
  unfolding receive_apdu
  receive_apdu-Confirmed apdu now s inv = go (parse apdu) refl
    where
      idle : Session
      idle = record s { idle_timeout3_sine = now }

      idle-Inv : Inv c idle
      idle-Inv = ground arith

      go : (r : Parsed) → parse apdu ≡ r → Confirmed s (receive_apdu c apdu now s)
      go (invalid e) eq = rw (eq, receive_apdu) (inl refl)
      go (ok head asdu) eq =
          rw (eq, receive_apdu) (receive_head-Confirmed head asdu now idle idle-Inv)

step-Confirmed : (c : Config) (s : Session) (e : Event) → Inv c s → Confirmed s (step c s e)
unfolding step
step-Confirmed c s (transmits asdu now) inv = transmit-Confirmed c asdu now s inv
step-Confirmed c s (ticks now clock) inv = tick-Confirmed c now clock s
step-Confirmed c s (receives apdu now) inv = receive_apdu-Confirmed c apdu now s inv
step-Confirmed c s done inv = tt

-- Of what one more event makes of an outcome.
abbrev pub ConfirmedAfter : Outcome → Outcome → Type 0
ConfirmedAfter (running s) o = Confirmed s o
ConfirmedAfter _ o = Unit

run_none : (c : Config) (o : Outcome) → run c o [] ≡ o
unfolding run
run_none c (running s) = refl
run_none c (stopped s) = refl
run_none c panicked = refl

run_one : (c : Config) (o : Outcome) (e : Event) → Keeps c o → ConfirmedAfter o (run c o (e ∷ []))
unfolding run
run_one c (running s) e k = rw (run_none c (step c s e)) (step-Confirmed c s e k)
run_one c (stopped s) e k = tt
run_one c panicked e k = tt

-- Under a valid configuration and after any sequence of events from the start of a session, in
-- which every APDU is octets, while run goes on: one more event puts out no STOPDT confirmation,
-- or it puts out one, and then data transfer is stopped and no I frame is left unacknowledged.
pub run-ConfirmedAfter :
    (c : Config) (now : ℕ) (es : List Event) (e : Event)
    → IsValid c
    → All IsPossible es
    → let o = run c (running (started now)) es in ConfirmedAfter o (run c o (e ∷ []))
run-ConfirmedAfter c now es e v h =
    run_one c (run c (running (started now)) es) e (run-Keeps c now es v h)
