-- ===== src/Cs104/Session/Delivery.antt =====
-- What a server session of cs104/server_session.go hands to the application.
use go_iecp.Shared.{
  ℕ, ◌+◌, ◌<◌, ◌≡◌, refl, ◌&&◌, ◌==◌, if◌then◌else◌, List, [], ◌∷◌, ◌++◌, length, arith,
  length-append, append_assoc, append_nil,
}
use go_iecp.Cs104.Apci.{Apci, i_apci, s_apci, u_apci, ok, invalid, parse, Parsed}
use go_iecp.Cs104.Config.{Config}
use go_iecp.Cs104.Sequence.{Link, seq15, update_ack_no_out, record_sent, clean_link}
use go_iecp.Cs104.Session.{
  Session, Outcome, running, stopped, panicked, Event, transmits, ticks, receives, done, started,
  confirm_stop_dt_if_done, receive_s, receive_i_inactive, deliver, receive_i, stop_dt, receive_u,
  receive_head, receive_apdu, tick_idle, tick_oldest, tick, transmit, step, run, send_i_frame,
}

abbrev delivered_of : Session → Parsed → List (List ℕ)
delivered_of s (ok (i_apci send_sn rcv_sn) asdu) =
    if s.is_active && send_sn == s.seq_no_rcv then asdu ∷ [] else []
delivered_of s _ = []

-- What one event hands over: the ASDU of an I frame that comes in data transfer with the number
-- that is due.
abbrev pub delivered : Session → Event → List (List ℕ)
delivered s (receives apdu now) = delivered_of s (parse apdu)
delivered s _ = []

-- What an outcome holds beyond a session: these ASDUs, each with its number.
abbrev Adds : Session → List (List ℕ) → Outcome → Type 0
Adds s asdus (running t) =
    (t.rcv_asdu ≡ s.rcv_asdu ++ asdus) × (t.seq_no_rcv ≡ seq15 (s.seq_no_rcv + length asdus))
Adds s asdus _ = Unit

update-seq_no_rcv : (l : Link) (n : ℕ) → (update_ack_no_out l n).0.seq_no_rcv ≡ l.seq_no_rcv
unfolding update_ack_no_out
update-seq_no_rcv l n = ground arith

module _ (c : Config) where
  -- Two sessions that agree in what is handed over.
  abbrev Same : Session → Session → Type 0
  Same s t = (t.rcv_asdu ≡ s.rcv_asdu) × (t.seq_no_rcv ≡ s.seq_no_rcv)

  confirm-Same : (s : Session) → Same s (confirm_stop_dt_if_done s)
  unfolding confirm_stop_dt_if_done
  confirm-Same s = ground arith

  Same-Adds : (s t : Session) → s.seq_no_rcv < 32768 → Same s t → Adds s [] (running t)
  Same-Adds s t h e = ground (arith, append_nil s.rcv_asdu)

  receive_s-Adds : (n : ℕ) (s : Session) → s.seq_no_rcv < 32768 → Adds s [] (receive_s n s)
  unfolding receive_s
  receive_s-Adds n s h = ground (
    arith,
    update-seq_no_rcv s.link n,
    confirm-Same (record s { link = (update_ack_no_out s.link n).0 }),
    append_nil s.rcv_asdu,
  )

  receive_i-Adds :
      (send_sn rcv_sn : ℕ) (asdu : List ℕ) (now : ℕ) (s : Session)
      → s.seq_no_rcv < 32768
      → Adds s
          (delivered_of s (ok (i_apci send_sn rcv_sn) asdu))
          (receive_i c send_sn rcv_sn asdu now s)
  unfolding receive_i receive_i_inactive deliver
  receive_i-Adds send_sn rcv_sn asdu now s h = ground (
    arith,
    update-seq_no_rcv s.link rcv_sn,
    confirm-Same (record s { link = (update_ack_no_out s.link rcv_sn).0 }),
    append_nil s.rcv_asdu,
  )

  receive_u-Same : (function : ℕ) (s : Session) → Same s (receive_u function s)
  unfolding receive_u stop_dt
  receive_u-Same function s = ground arith

  tick-Adds : (now clock : ℕ) (s : Session) → s.seq_no_rcv < 32768 → Adds s [] (tick c now clock s)
  unfolding tick tick_oldest tick_idle
  tick-Adds now clock s h = ground (arith, append_nil s.rcv_asdu)

  transmit-Same : (asdu : List ℕ) (now : ℕ) (s : Session) → Same s (transmit c asdu now s)
  unfolding transmit send_i_frame record_sent
  transmit-Same asdu now s = ground arith

  receive_head-Adds :
      (head : Apci) (asdu : List ℕ) (now : ℕ) (s : Session)
      → s.seq_no_rcv < 32768
      → Adds s (delivered_of s (ok head asdu)) (receive_head c head asdu now s)
  unfolding receive_head
  receive_head-Adds (s_apci n) asdu now s h = receive_s-Adds n s h
  receive_head-Adds (i_apci n m) asdu now s h = receive_i-Adds n m asdu now s h
  receive_head-Adds (u_apci f) asdu now s h = Same-Adds s (receive_u f s) h (receive_u-Same f s)

  receive_apdu-Adds :
      (apdu : List ℕ) (now : ℕ) (s : Session)
      → s.seq_no_rcv < 32768
      → Adds s (delivered_of s (parse apdu)) (receive_apdu c apdu now s)
  unfolding receive_apdu
  receive_apdu-Adds apdu now s h = go (parse apdu) refl
    where
      idle : Session
      idle = record s { idle_timeout3_sine = now }

      go :
          (r : Parsed)
          → parse apdu ≡ r
          → Adds s (delivered_of s (parse apdu)) (receive_apdu c apdu now s)
      go (invalid e) eq = rw (eq, receive_apdu) (Same-Adds s idle h (refl, refl))
      go (ok head asdu) eq = rw (eq, receive_apdu) (receive_head-Adds head asdu now idle h)

  step-Adds : (s : Session) (e : Event) → s.seq_no_rcv < 32768 → Adds s (delivered s e) (step c s e)
  unfolding step
  step-Adds s (transmits asdu now) h =
      Same-Adds s (transmit c asdu now s) h (transmit-Same asdu now s)
  step-Adds s (ticks now clock) h = tick-Adds now clock s h
  step-Adds s (receives apdu now) h = receive_apdu-Adds apdu now s h
  step-Adds s done h = tt

-- What a sequence of events hands over, until the loop ends.
pub deliveries : Config → Session → List Event → List (List ℕ)
deliveries c s [] = []
deliveries c s (e ∷ es) = elim (step c s e) [
  | running t ↦ delivered s e ++ deliveries c t es
  | _ ↦ delivered s e
]

deliveries-running :
    (c : Config) (s u : Session) (e : Event) (es : List Event)
    → step c s e ≡ running u
    → deliveries c s (e ∷ es) ≡ delivered s e ++ deliveries c u es
unfolding deliveries
deliveries-running c s u e es eq = rw (eq, deliveries) refl

run-running :
    (c : Config) (s u : Session) (e : Event) (es : List Event)
    → step c s e ≡ running u
    → run c (running s) (e ∷ es) ≡ run c (running u) es
unfolding run
run-running c s u e es eq = rw (eq, run) refl

run-ended :
    (c : Config) (o : Outcome) (es : List Event) {t : Session}
    → run c o es ≡ running t
    → (s : Session) × (o ≡ running s)
unfolding run
run-ended c (running s) es h = (s, refl)
run-ended c (stopped s) es h = absurd (ground arith)
run-ended c panicked es h = absurd (ground arith)

run-deliveries :
    (c : Config) (s t : Session) (es : List Event)
    → s.seq_no_rcv < 32768
    → run c (running s) es ≡ running t
    → (t.rcv_asdu ≡ s.rcv_asdu ++ deliveries c s es)
      × (t.seq_no_rcv ≡ seq15 (s.seq_no_rcv + length (deliveries c s es)))
unfolding run deliveries
run-deliveries c s t [] h r = ground (arith, append_nil s.rcv_asdu)
run-deliveries c s t (e ∷ es) h r =
    let (u, eq) = run-ended c (step c s e) es r in go u eq (λ k. run-deliveries c u t es k)
  where
    go :
        (u : Session)
        → step c s e ≡ running u
        → (u.seq_no_rcv < 32768
            → run c (running u) es ≡ running t
            → (t.rcv_asdu ≡ u.rcv_asdu ++ deliveries c u es)
              × (t.seq_no_rcv ≡ seq15 (u.seq_no_rcv + length (deliveries c u es))))
        → (t.rcv_asdu ≡ s.rcv_asdu ++ deliveries c s (e ∷ es))
          × (t.seq_no_rcv ≡ seq15 (s.seq_no_rcv + length (deliveries c s (e ∷ es))))
    go u eq rec =
        let added : Adds s (delivered s e) (running u) = rw eq at (step-Adds c s e h) in
        let later : run c (running u) es ≡ running t = rw (run-running c s u e es eq) at r in
        ground (
          arith,
          added,
          rec (omega arith) later,
          deliveries-running c s u e es eq,
          append_assoc s.rcv_asdu (delivered s e) (deliveries c u es),
          length-append (delivered s e) (deliveries c u es),
        )

-- An outcome that goes on holds these ASDUs, and counts them.
abbrev pub Delivers : List (List ℕ) → Outcome → Type 0
Delivers asdus (running t) = (t.rcv_asdu ≡ asdus) × (t.seq_no_rcv ≡ seq15 (length asdus))
Delivers asdus _ = Unit

-- As long as run goes on from the start of a session, whatever the events, the ASDUs put into
-- rcvASDU are exactly those of the I frames that came in data transfer with the number that was
-- due, in the order of their coming, and the number that is due next is their count modulo 32768.
pub run-Delivers :
    (c : Config) (now : ℕ) (es : List Event)
    → Delivers (deliveries c (started now) es) (run c (running (started now)) es)
unfolding started clean_link
run-Delivers c now es = go (run c (running (started now)) es) refl
  where
    go :
        (o : Outcome)
        → run c (running (started now)) es ≡ o
        → Delivers (deliveries c (started now) es) o
    go (running t) r = ground (arith, run-deliveries c (started now) t es (omega arith) r)
    go (stopped t) r = tt
    go panicked r = tt
