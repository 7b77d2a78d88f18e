-- ===== src/Cs104/Sequence/Window.antt =====
-- The send window: `pending` holds the numbers from `ackNoSend` on, one for each I frame that is
-- not acknowledged, and an acknowledgement moves the window by its distance or is refused.
use go_iecp.Shared.{
  ℕ, zero, suc, ◌+◌, ◌-◌, ◌<◌, ◌≤◌, ◌≡◌, true, false, List, [], ◌∷◌, ◌++◌, some, leb, if◌then◌else◌,
  length, drop, arith, Bool-cases, inl, inr, length-append, length-drop,
}
use go_iecp.Cs104.Sequence.{
  SeqPending, Link, clean_link, seq15, seq_no_count, pending_after, update_ack_no_out, record_sent,
}

-- The entries carry consecutive numbers.
abbrev pub IsRun : ℕ → List SeqPending → Type 0
IsRun a [] = Unit
IsRun a (v ∷ rest) = (v.seq ≡ a) × IsRun (seq15 (a + 1)) rest

pub record IsWindow (l : Link) : Type 0 where
  pub ack_no_send_fits : l.ack_no_send < 32768
  pub seq_no_rcv_fits : l.seq_no_rcv < 32768
  pub ack_no_rcv_fits : l.ack_no_rcv < 32768
  pub pending_run : IsRun l.ack_no_send l.pending
  pub pending_fits : length l.pending < 32768
  pub window : l.seq_no_send ≡ seq15 (l.ack_no_send + length l.pending)

-- How far an acknowledgement is ahead of the oldest unacknowledged number.
abbrev pub distance : ℕ → ℕ → ℕ
distance ack_no_send ack_no = seq15 (ack_no + 32768 - ack_no_send)

pub seq_no_count-window : (a n : ℕ) → a < 32768 → n < 32768 → seq_no_count a (seq15 (a + n)) ≡ n
unfolding seq_no_count
seq_no_count-window a n ha hn = ground arith

seq_no_count-ack :
    (a n ack : ℕ)
    → a < 32768
    → n < 32768
    → ack < 32768
    → seq_no_count ack (seq15 (a + n)) ≡ seq15 (n + 32768 - distance a ack)
unfolding seq_no_count
seq_no_count-ack a n ack ha hn hk = ground arith

pending_after-drop :
    (a d : ℕ) (ps : List SeqPending)
    → a < 32768
    → d < length ps
    → length ps < 32768
    → IsRun a ps
    → pending_after (seq15 (a + d)) ps ≡ some (drop (suc d) ps)
unfolding pending_after
pending_after-drop a d [] ha hd hl r = absurd (omega arith)
pending_after-drop a zero (v ∷ ps) ha hd hl r = ground arith
pending_after-drop a (suc d) (v ∷ ps) ha hd hl r =
    ground (arith, pending_after-drop (seq15 (a + 1)) d ps)

IsRun-drop :
    (a d : ℕ) (ps : List SeqPending)
    → a < 32768
    → IsRun a ps
    → d ≤ length ps
    → IsRun (seq15 (a + d)) (drop d ps)
IsRun-drop a zero ps ha r h = rw (same a ha) r
  where
    same : (x : ℕ) → x < 32768 → seq15 (x + 0) ≡ x
    same x hx = omega arith
IsRun-drop a (suc d) [] ha r h = tt
IsRun-drop a (suc d) (v ∷ ps) ha r h =
    let next : seq15 (a + suc d) ≡ seq15 (seq15 (a + 1) + d) = omega arith in
    rw next (IsRun-drop (seq15 (a + 1)) d ps (omega arith) r.1 (omega arith))

IsRun-append :
    (a t : ℕ) (ps : List SeqPending)
    → a < 32768
    → IsRun a ps
    → IsRun a (ps ++ (record { seq = seq15 (a + length ps); send_time = t } ∷ []))
IsRun-append a t [] ha r = (omega arith, tt)
IsRun-append a t (v ∷ ps) ha r =
    let next : seq15 (a + length (v ∷ ps)) ≡ seq15 (seq15 (a + 1) + length ps) = omega arith in
    (r.0, rw next (IsRun-append (seq15 (a + 1)) t ps (omega arith) r.1))

-- In a window, an acknowledgement number of fifteen bits is accepted exactly when it is no
-- further from the oldest unacknowledged number than there are frames waiting. Then it becomes
-- that number, and just the frames before it are taken off the list; otherwise nothing changes.
pub update_ack_no_out_lem :
    (l : Link) (ack_no : ℕ)
    → IsWindow l
    → ack_no < 32768
    → let d = distance l.ack_no_send ack_no in
      update_ack_no_out l ack_no ≡ (
        if leb d (length l.pending)
        then (record l { ack_no_send = ack_no; pending = drop d l.pending }, true)
        else (l, false))
unfolding update_ack_no_out
update_ack_no_out_lem l ack_no w h = ground (
  arith,
  seq_no_count-window l.ack_no_send (length l.pending),
  seq_no_count-ack l.ack_no_send (length l.pending) ack_no,
  pending_after-drop l.ack_no_send (distance l.ack_no_send ack_no - 1) l.pending,
)

pub clean_link-IsWindow : IsWindow clean_link
unfolding clean_link
clean_link-IsWindow = ground arith

acknowledged-IsWindow :
    (l : Link) (ack_no : ℕ)
    → IsWindow l
    → ack_no < 32768
    → distance l.ack_no_send ack_no ≤ length l.pending
    → IsWindow (record l {
      ack_no_send = ack_no;
      pending = drop (distance l.ack_no_send ack_no) l.pending;
    })
acknowledged-IsWindow l ack_no w h d =
    let moved : seq15 (l.ack_no_send + distance l.ack_no_send ack_no) ≡ ack_no =
      ground (arith, w.ack_no_send_fits) in
    record {
      ack_no_send_fits = h;
      seq_no_rcv_fits = w.seq_no_rcv_fits;
      ack_no_rcv_fits = w.ack_no_rcv_fits;
      pending_run = rw moved at (
          IsRun-drop l.ack_no_send (distance l.ack_no_send ack_no) l.pending w.ack_no_send_fits
            w.pending_run d);
      pending_fits =
          omega (arith, length-drop (distance l.ack_no_send ack_no) l.pending, w.pending_fits);
      window = ground (
        arith,
        length-drop (distance l.ack_no_send ack_no) l.pending,
        w.window,
        w.ack_no_send_fits,
        w.pending_fits,
      );
    }

-- An acknowledgement of fifteen bits, accepted or not, keeps the window.
pub update_ack_no_out-IsWindow :
    (l : Link) (ack_no : ℕ) → IsWindow l → ack_no < 32768 → IsWindow (update_ack_no_out l ack_no).0
update_ack_no_out-IsWindow l ack_no w h = elim (Bool-cases (leb d (length l.pending))) [
  | inl near ↦
      rw (update_ack_no_out_lem l ack_no w h, near)
        (acknowledged-IsWindow l ack_no w h (ground arith))
  | inr far ↦ rw (update_ack_no_out_lem l ack_no w h, far) w
]
  where
    d : ℕ
    d = distance l.ack_no_send ack_no

pub record_sent-IsWindow :
    (l : Link) (now : ℕ) → IsWindow l → length l.pending < 32767 → IsWindow (record_sent l now)
unfolding record_sent
record_sent-IsWindow l now w h =
    let sent : seq15 l.seq_no_send ≡ seq15 (l.ack_no_send + length l.pending) =
      omega (arith, w.window) in
    record {
      ack_no_send_fits = w.ack_no_send_fits;
      seq_no_rcv_fits = w.seq_no_rcv_fits;
      ack_no_rcv_fits = w.seq_no_rcv_fits;
      pending_run =
          rw sent (IsRun-append l.ack_no_send now l.pending w.ack_no_send_fits w.pending_run);
      pending_fits = omega (
        arith,
        length-append l.pending (record { seq = seq15 l.seq_no_send; send_time = now } ∷ []),
      );
      window = omega (
        arith,
        w.window,
        length-append l.pending (record { seq = seq15 l.seq_no_send; send_time = now } ∷ []),
      );
    }
