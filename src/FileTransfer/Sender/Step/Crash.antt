-- ===== src/FileTransfer/Sender/Step/Crash.antt =====
-- A message with which filetransfer/sender.go indexes behind its sections.
use go_iecp.Shared.{ℕ, ◌≤◌, ◌≡◌, true, length, get_elem?-none, arith}
use go_iecp.FileTransfer.Message.{
  ack, call_or_select, AckFileOrSectionInfo, CallOrSelectFileInfo, afq_neg_ack_section,
  scq_request_section,
}
use go_iecp.FileTransfer.Sender.{Sender, panicked, section_data_of, section_data_actions}
use go_iecp.FileTransfer.Sender.Step.{step, on_ack, on_call_or_select, in_transfer}

-- A transfer whose last section was acknowledged, so that the closing of the file has been sent:
-- the acknowledgement that refuses a section, or the call of the current section of that file,
-- makes the sender index behind its sections and panic.
pub step-panicked :
    (max : ℕ) (s : Sender) (ca : ℕ) (info : AckFileOrSectionInfo) (req : CallOrSelectFileInfo)
    → s.active ≡ true
    → length s.sections ≤ s.cur
    → info.action ≡ afq_neg_ack_section
    → req.action ≡ scq_request_section
    → req.nof ≡ s.nof
    → req.nos ≡ 0
    → (step max s (ack ca info) ≡ panicked) × (step max s (call_or_select ca req) ≡ panicked)
unfolding step on_ack on_call_or_select in_transfer section_data_actions section_data_of
step-panicked max s ca info req a l i r n z = ground (arith, get_elem?-none s.sections s.cur l)
