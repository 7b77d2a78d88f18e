-- ===== src/FileTransfer/Sender/Step.antt =====
-- filetransfer/sender.go: `Sender.step` and the exchanges that it answers.
pub mod Crash
pub mod Serving
use go_iecp.Shared.{
  ℕ, suc, ◌+◌, ◌-◌, ◌%◌, Bool, true, false, not, ◌&&◌, ◌||◌, List, [], ◌∷◌, ◌++◌, Option, none,
  some, ◌==◌, ◌!=◌, ltb, leb, if◌then◌else◌, length,
}
use go_iecp.FileTransfer.Message.{
  Message, call_or_select, ack, file_ready, section_ready, segment, last_section_or_segment,
  directory, CallOrSelectFileInfo, AckFileOrSectionInfo, scq_default, scq_select_file,
  scq_request_file, scq_deactivate_file, scq_delete_file, scq_select_section, scq_request_section,
  scq_deactivate_section, afq_pos_ack_file, afq_neg_ack_file, afq_pos_ack_section,
  afq_neg_ack_section,
}
use go_iecp.FileTransfer.Sender.{
  Sender, TransferError, file_not_found, no_transfer, unsupported, Stepped, stepped, panicked,
  reset, load, store_read, store_delete, neg_ack_file, neg_ack_section, directory_actions,
  section_ready_actions, section_data_actions, last_section_actions,
}

-- The sum of the sections' lengths, as a uint32.
unfoldable pub sum_lengths : ℕ → List (List ℕ) → ℕ
sum_lengths n [] = n
sum_lengths n (sec ∷ rest) = sum_lengths ((n + length sec) % 4294967296) rest

unfoldable pub select_file : ℕ → CallOrSelectFileInfo → Sender → Option Sender → Stepped
select_file ca req s none = stepped s (neg_ack_file ca req ∷ []) (some file_not_found)
select_file ca req s (some t) =
    stepped t
      (file_ready ca (record {
        ioa = req.ioa;
        nof = req.nof;
        length_of_file = sum_lengths 0 t.sections;
        is_negative = false;
      })
        ∷ [])
      none

unfoldable pub request_file : ℕ → CallOrSelectFileInfo → Sender → Stepped
request_file ca req s =
    if not s.active || s.ioa != req.ioa || s.nof != req.nof
    then elim (load s ca req) [
      | none ↦ stepped s (neg_ack_file ca req ∷ []) (some file_not_found)
      | some t ↦ section_ready_actions (record t { cur = 0 })
    ]
    else section_ready_actions (record s { cur = 0 })

-- The section that a message names becomes the current one; `nos` counts from 1.
unfoldable pub at_section : ℕ → CallOrSelectFileInfo → Sender → (Sender → Stepped) → Stepped
at_section ca req s serve =
    if req.nos == 0 || leb (length s.sections) (req.nos - 1)
    then stepped s (neg_ack_section ca req ∷ []) (some no_transfer)
    else serve (record s { cur = req.nos - 1 })

unfoldable pub in_transfer : ℕ → CallOrSelectFileInfo → Sender → Stepped → Stepped
in_transfer ca req s serve =
    if not s.active || req.nof != s.nof
    then stepped s (neg_ack_file ca req ∷ []) (some no_transfer)
    else serve

unfoldable pub delete_file : ℕ → CallOrSelectFileInfo → Sender → Option (List ℕ) → Stepped
delete_file ca req s none = stepped s (neg_ack_file ca req ∷ []) (some file_not_found)
delete_file ca req s (some _) =
    let t = record s { store = store_delete s.store req.ioa req.nof } in
    stepped (if t.active && (t.ioa == req.ioa && t.nof == req.nof) then reset t else t) [] none

unfoldable pub on_call_or_select : ℕ → ℕ → CallOrSelectFileInfo → Sender → Stepped
unfolding select_file request_file at_section in_transfer delete_file
on_call_or_select max ca req s =
    if req.action == scq_default
    then directory_actions s ca
    else if req.action == scq_select_file
    then select_file ca req s (load s ca req)
    else if req.action == scq_request_file
    then request_file ca req s
    else if req.action == scq_select_section
    then in_transfer ca req s (at_section ca req s section_ready_actions)
    else if req.action == scq_request_section
    then in_transfer ca req s (
        if req.nos != 0
        then at_section ca req s (section_data_actions max)
        else section_data_actions max s)
    else if req.action == scq_deactivate_file || req.action == scq_deactivate_section
    then stepped (reset s) [] none
    else if req.action == scq_delete_file
    then delete_file ca req s (store_read s.store req.ioa req.nof)
    else stepped s [] none

-- A positive acknowledgement of a section: the next one is ready, or the file ends.
unfoldable pub next_section : Sender → Stepped
next_section s =
    if ltb s.cur (length s.sections) then section_ready_actions s else last_section_actions s

unfoldable pub on_ack : ℕ → AckFileOrSectionInfo → Sender → Stepped
unfolding next_section
on_ack max info s =
    if not s.active
    then stepped s [] (some no_transfer)
    else if info.action == afq_pos_ack_section
    then next_section (record s { cur = s.cur + 1 })
    else if info.action == afq_neg_ack_section
    then section_data_actions max s
    else if info.action == afq_pos_ack_file || info.action == afq_neg_ack_file
    then stepped (reset s) [] none
    else stepped s [] none

unfoldable pub step : ℕ → Sender → Message → Stepped
unfolding on_call_or_select on_ack
step max s (call_or_select ca req) = on_call_or_select max ca req s
step max s (ack ca info) = on_ack max info s
step max s _ = stepped s [] (some unsupported)

-- The messages that `Handle` sends for a sequence of received ones, up to a panic.
unfoldable pub transcript : ℕ → Sender → List Message → List Message
transcript max s [] = []
transcript max s (m ∷ ms) = elim (step max s m) [
  | stepped t sent e ↦ sent ++ transcript max t ms
  | panicked ↦ []
]
