-- ===== src/Cs104/Sequence.antt =====
-- The sequence numbers of cs104/server_session.go and cs104/client.go, which hold the same fields
-- and the same `updateAckNoOut`. They are uint16, and `x & 32767` is `x % 32768`.
pub mod Window
use go_iecp.Shared.{
  ℕ, ◌+◌, ◌-◌, ◌%◌, Bool, true, false, List, [], ◌∷◌, ◌++◌, Option, none, some, ◌==◌, ltb,
  if◌then◌else◌, uint16,
}

pub record SeqPending : Type 0 where
  pub seq : ℕ
  pub send_time : ℕ

pub record Link : Type 0 where
  pub seq_no_send : ℕ
  pub ack_no_send : ℕ
  pub seq_no_rcv : ℕ
  pub ack_no_rcv : ℕ
  pub pending : List SeqPending

-- What `cleanUp` sets the numbers to.
unfoldable pub clean_link : Link
clean_link = record {
  seq_no_send = 0;
  ack_no_send = 0;
  seq_no_rcv = 0;
  ack_no_rcv = 0;
  pending = [];
}

abbrev pub seq15 : ℕ → ℕ
seq15 x = x % 32768

-- Both numbers are uint16, and so is the difference.
unfoldable pub seq_no_count : ℕ → ℕ → ℕ
seq_no_count next_ack_no next_seq_no =
    let next_seq_no' =
      if ltb next_seq_no next_ack_no then uint16 (next_seq_no + 32768) else next_seq_no in
    uint16 (next_seq_no' + 65536 - next_ack_no)

-- The loop over `pending`: what stands behind the first entry of that number, if one has it.
pending_after : ℕ → List SeqPending → Option (List SeqPending)
pending_after target [] = none
pending_after target (v ∷ rest) = if v.seq == target then some rest else pending_after target rest

pruned : ℕ → List SeqPending → List SeqPending
unfolding pending_after
pruned target pending = elim (pending_after target pending) [ none ↦ pending | some rest ↦ rest ]

unfoldable pub update_ack_no_out : Link → ℕ → Link × Bool
unfolding pruned seq_no_count
update_ack_no_out l ack_no =
    if ack_no == l.ack_no_send
    then (l, true)
    else if ltb (seq_no_count l.ack_no_send l.seq_no_send) (seq_no_count ack_no l.seq_no_send)
    then (l, false)
    else let target = seq15 (uint16 (ack_no + 65535)) in
      (record l { pending = pruned target l.pending; ack_no_send = ack_no }, true)

-- The changes that `sendIFrame` makes to the numbers.
unfoldable pub record_sent : Link → ℕ → Link
record_sent l now = record l {
  ack_no_rcv = l.seq_no_rcv;
  seq_no_send = seq15 (uint16 (l.seq_no_send + 1));
  pending = l.pending ++ (record { seq = seq15 l.seq_no_send; send_time = now } ∷ []);
}
