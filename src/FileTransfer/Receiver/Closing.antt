-- ===== src/FileTransfer/Receiver/Closing.antt =====
-- How a transfer of the receiver of filetransfer/receiver.go ends.
use go_iecp.Shared.{ℕ, ◌≡◌, true, some, arith}
use go_iecp.FileTransfer.Sections.{file_checksum}
use go_iecp.FileTransfer.Message.{
  Message, call_or_select, ack, file_ready, section_ready, segment, last_section_or_segment,
  directory,
}
use go_iecp.FileTransfer.Receiver.{
  Receiver, Completed, step, on_file_ready, on_section_ready, on_segment,
  on_last_section_or_segment, end_of_section, end_of_file, reset,
}

-- A message that carries the checksum `chs`.
unfoldable pub Closes : ℕ → Message → Type 0
Closes chs (last_section_or_segment ca info) = info.chs ≡ chs
Closes chs (call_or_select ca info) = ⊥
Closes chs (ack ca info) = ⊥
Closes chs (file_ready ca info) = ⊥
Closes chs (section_ready ca info) = ⊥
Closes chs (segment ca info) = ⊥
Closes chs (directory ca info) = ⊥

-- A step finishes a file only in an active transfer, on a last section or segment that carries the
-- checksum of the octets put together so far; the file is these octets under the address and the
-- name of the transfer, and the receiver is reset.
pub step-completed :
    (r : Receiver) (m : Message) (c : Completed)
    → (step r m).completed ≡ some c
    → (r.active ≡ true)
      × (c ≡ record { ioa = r.ioa; nof = r.nof; content = r.file_buf })
      × Closes (file_checksum c.content) m
      × ((step r m).receiver ≡ reset r)
unfolding step on_file_ready on_section_ready on_segment on_last_section_or_segment end_of_section
    end_of_file Closes
step-completed r (directory ca infos) c h = ground (arith, h)
step-completed r (file_ready ca info) c h = ground (arith, h)
step-completed r (section_ready ca info) c h = ground (arith, h)
step-completed r (segment ca info) c h = ground (arith, h)
step-completed r (last_section_or_segment ca info) c h = ground (arith, h)
step-completed r (ack ca info) c h = ground (arith, h)
step-completed r (call_or_select ca req) c h = ground (arith, h)
