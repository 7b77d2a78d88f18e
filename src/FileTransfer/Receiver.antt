-- ===== src/FileTransfer/Receiver.antt =====
-- filetransfer/receiver.go: the `Receiver`. Messages are decoded, and the transport takes every
-- message that a step sends. A finished file is what the step hands to the store and the callback.
pub mod Assembling
pub mod Closing
use go_iecp.Shared.{
  ℕ, Bool, true, false, not, ◌&&◌, ◌||◌, List, [], ◌∷◌, ◌++◌, Option, none, some, ◌==◌, ◌!=◌,
  if◌then◌else◌, length,
}
use go_iecp.FileTransfer.Sections.{file_checksum}
use go_iecp.FileTransfer.Message.{
  Message, call_or_select, ack, file_ready, section_ready, segment, last_section_or_segment,
  directory, CallOrSelectFileInfo, AckFileOrSectionInfo, FileReadyInfo, SectionReadyInfo,
  SegmentInfo, LastSectionOrSegmentInfo, scq_default, scq_select_file, scq_request_file,
  scq_request_section, afq_pos_ack_file, afq_neg_ack_file, afq_pos_ack_section, afq_neg_ack_section,
  lsq_file_without_deactivate, lsq_file_with_deactivate, lsq_section_without_deactivate,
  lsq_section_with_deactivate, file_err_none, file_err_checksum_failed,
}
use go_iecp.FileTransfer.Sender.{
  TransferError, no_transfer, busy, checksum, unsupported, file_not_found,
}

pub record Receiver : Type 0 where
  pub auto_accept : Bool
  pub active : Bool
  pub ca : ℕ
  pub ioa : ℕ
  pub nof : ℕ
  pub nos : ℕ
  pub called : Bool
  pub section_buf : List ℕ
  pub file_buf : List ℕ

-- `completed`: a file with its address and name.
pub record Completed : Type 0 where
  pub ioa : ℕ
  pub nof : ℕ
  pub content : List ℕ

-- What `step` returns.
pub record Received : Type 0 where
  pub receiver : Receiver
  pub sent : List Message
  pub completed : Option Completed
  pub error : Option TransferError

unfoldable pub new_receiver : Receiver
new_receiver = record {
  auto_accept = true;
  active = false;
  ca = 0;
  ioa = 0;
  nof = 0;
  nos = 0;
  called = false;
  section_buf = [];
  file_buf = [];
}

unfoldable pub reset : Receiver → Receiver
reset r = record r {
  active = false;
  called = false;
  section_buf = [];
  file_buf = [];
  nos = 0;
  ioa = 0;
  nof = 0;
}

abbrev silent : Receiver → Received
silent r = record { receiver = r; sent = []; completed = none; error = none }

abbrev failed : Receiver → TransferError → Received
failed r e = record { receiver = r; sent = []; completed = none; error = some e }

abbrev sends : Receiver → Message → Received
sends r m = record { receiver = r; sent = m ∷ []; completed = none; error = none }

abbrev call : Receiver → ℕ → ℕ → Message
call r nos action =
    call_or_select r.ca (record { ioa = r.ioa; nof = r.nof; nos = nos; action = action })

-- The transfer that `RequestFile` and an accepted offer begin.
abbrev begun : Receiver → ℕ → ℕ → ℕ → Receiver
begun r ca ioa nof = record r {
  active = true;
  ca = ca;
  ioa = ioa;
  nof = nof;
  nos = 0;
  section_buf = [];
  file_buf = [];
}

unfoldable pub request_file : Receiver → ℕ → ℕ → ℕ → Received
request_file r ca ioa nof =
    if r.active
    then failed r busy
    else sends (begun r ca ioa nof) (call (begun r ca ioa nof) 0 scq_select_file)

unfoldable pub on_file_ready : ℕ → FileReadyInfo → Receiver → Received
on_file_ready ca info r =
    if info.is_negative
    then failed (reset r) file_not_found
    else if r.active
    then if r.called || info.ioa != r.ioa || info.nof != r.nof
      then silent r
      else sends (record r { called = true }) (call r 0 scq_request_file)
    else if not r.auto_accept
    then silent r
    else sends (begun r ca info.ioa info.nof)
        (call (begun r ca info.ioa info.nof) 0 scq_select_file)

unfoldable pub on_section_ready : SectionReadyInfo → Receiver → Received
on_section_ready info r =
    if not r.active || info.nof != r.nof
    then failed r no_transfer
    else if info.is_not_ready
    then failed (reset r) no_transfer
    else let t = record r { nos = info.nos; section_buf = [] } in
      sends t (call t info.nos scq_request_section)

unfoldable pub on_segment : SegmentInfo → Receiver → Received
on_segment info r =
    if not r.active || info.nof != r.nof || info.nos != r.nos
    then failed r no_transfer
    else silent (record r { section_buf = r.section_buf ++ info.segment })

abbrev acknowledgement : Receiver → ℕ → ℕ → ℕ → Message
acknowledgement r nos action error =
    ack r.ca (record { ioa = r.ioa; nof = r.nof; nos = nos; action = action; error = error })

-- The end of a section.
unfoldable pub end_of_section : LastSectionOrSegmentInfo → Receiver → Received
end_of_section info r =
    if file_checksum r.section_buf != info.chs
    then record {
      receiver = record r { section_buf = [] };
      sent = acknowledgement r r.nos afq_neg_ack_section file_err_checksum_failed ∷ [];
      completed = none;
      error = some checksum;
    }
    else sends (record r { file_buf = r.file_buf ++ r.section_buf; section_buf = [] })
        (acknowledgement r r.nos afq_pos_ack_section file_err_none)

-- The end of the file.
unfoldable pub end_of_file : LastSectionOrSegmentInfo → Receiver → Received
end_of_file info r =
    if file_checksum r.file_buf != info.chs
    then record {
      receiver = reset r;
      sent = acknowledgement r info.nos afq_neg_ack_file file_err_checksum_failed ∷ [];
      completed = none;
      error = some checksum;
    }
    else record {
      receiver = reset r;
      sent = acknowledgement r info.nos afq_pos_ack_file file_err_none ∷ [];
      completed = some (record { ioa = r.ioa; nof = r.nof; content = r.file_buf });
      error = none;
    }

unfoldable pub on_last_section_or_segment : LastSectionOrSegmentInfo → Receiver → Received
unfolding end_of_section end_of_file
on_last_section_or_segment info r =
    if not r.active || info.nof != r.nof
    then failed r no_transfer
    else if info.lsq == lsq_section_without_deactivate || info.lsq == lsq_section_with_deactivate
    then end_of_section info r
    else if info.lsq == lsq_file_without_deactivate || info.lsq == lsq_file_with_deactivate
    then end_of_file info r
    else silent r

-- `Receiver.step`; a directory goes to its callback.
unfoldable pub step : Receiver → Message → Received
unfolding on_file_ready on_section_ready on_segment on_last_section_or_segment
step r (directory ca infos) = silent r
step r (file_ready ca info) = on_file_ready ca info r
step r (section_ready ca info) = on_section_ready info r
step r (segment ca info) = on_segment info r
step r (last_section_or_segment ca info) = on_last_section_or_segment info r
step r (ack ca info) = failed r unsupported
step r (call_or_select ca req) = failed r unsupported

-- A receiver over a sequence of messages, up to a finished file; what it sends, in order.
unfoldable pub receive_all : Receiver → List Message → List Message → Received
receive_all r sent [] = record { receiver = r; sent = sent; completed = none; error = none }
receive_all r sent (m ∷ ms) =
    let o = step r m in
    let more = receive_all o.receiver (sent ++ o.sent) ms in
    elim o.completed [ some c ↦ record o { sent = sent ++ o.sent } | none ↦ more ]
