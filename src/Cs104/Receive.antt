-- ===== src/Cs104/Receive.antt =====
-- cs104/server_session.go: `SrvSession.recvLoop`, and the same loop of cs104/client.go. The
-- connection is the list of the octets that it still delivers; a read that finds too few of them
-- fails, and the loop returns. The loop's buffer is the list of the `rdCnt` octets read into it.
pub mod Frames
pub mod Resync
use go_iecp.Shared.{
  ℕ, zero, suc, ◌+◌, ◌-◌, Bool, ◌||◌, List, [], ◌∷◌, ◌++◌, Option, none, some, ◌==◌, ◌!=◌, ltb,
  if◌then◌else◌, length, take, drop, get_or,
}
use go_iecp.Cs104.Apci.{start_frame, apci_ctl_filed_size, apdu_size_max}

-- What an iteration leaves: the octets that count as read and the length wanted, or an APDU.
pub data Progress : Type 0 where
  reading : List ℕ → ℕ → Progress
  complete : List ℕ → Progress

-- The second octet of the buffer is the length field.
check_length : List ℕ → ℕ → Progress
check_length raw wanted =
    if ltb wanted (apci_ctl_filed_size + 2) || ltb apdu_size_max wanted
    then reading [] 2
    else if length raw == wanted
    then complete raw
    else reading raw wanted

-- The body of the loop after a read.
after_read : List ℕ → ℕ → Progress
unfolding check_length
after_read [] wanted = reading [] wanted
after_read (first ∷ []) wanted =
    if first != start_frame then reading [] wanted else reading (first ∷ []) wanted
after_read (first ∷ second ∷ more) wanted =
    if first != start_frame
    then if second == start_frame then reading (start_frame ∷ []) 2 else reading [] 2
    else check_length (first ∷ second ∷ more) (second + 2)

-- The APDUs put into `rcvRaw`, by at most a number of reads.
pub recv_loop : ℕ → List ℕ → ℕ → List ℕ → List (List ℕ)
unfolding after_read
recv_loop zero raw wanted conn = []
recv_loop (suc fuel) raw wanted conn =
    if ltb (length conn) (wanted - length raw)
    then []
    else elim (after_read (raw ++ take (wanted - length raw) conn) wanted) [
      | reading raw' wanted' ↦ recv_loop fuel raw' wanted' (drop (wanted - length raw) conn)
      | complete apdu ↦ apdu ∷ recv_loop fuel [] 2 (drop (wanted - length raw) conn)
    ]

-- Every read takes an octet at least, so one read more than there are octets is enough.
unfoldable pub received_apdus : List ℕ → List (List ℕ)
received_apdus conn = recv_loop (suc (length conn)) [] 2 conn
