-- ===== src/FileTransfer/Tests.antt =====
-- The theorems on filetransfer/ at concrete files.
use go_iecp.Shared.{ℕ, ◌<◌, ◌≡◌, refl, true, false, List, [], ◌∷◌, some, arith, length, All}
use go_iecp.FileTransfer.Sections.{
  pieces, cut, file_checksum, sum_from, split_sections, concat, IsPiece, split_sections-concat,
}
use go_iecp.FileTransfer.Message.{
  Message, last_section_or_segment, ack, call_or_select, AckFileOrSectionInfo, CallOrSelectFileInfo,
  afq_pos_ack_section, afq_neg_ack_section, scq_request_section,
}
use go_iecp.FileTransfer.Sender.{Sender, panicked, store_read, section_messages}
use go_iecp.FileTransfer.Receiver.{
  Receiver, Completed, new_receiver, receive_all, on_last_section_or_segment, end_of_file,
}
use go_iecp.FileTransfer.Receiver
use go_iecp.FileTransfer.Receiver.Closing.{Closes, step-completed}
use go_iecp.FileTransfer.Receiver.Assembling.{Follows, assembled, receive_all-section_messages}
use go_iecp.FileTransfer.Sender.Step.{step, transcript}
use go_iecp.FileTransfer.Sender.Step.Crash.{step-panicked}
use go_iecp.FileTransfer.Sender.Step.Serving.{payload, Round, calls, file_call, payload-transcript}

abbrev five : List ℕ
five = 1 ∷ 2 ∷ 3 ∷ 4 ∷ 5 ∷ []

split_sections-concat_example :
    (concat (split_sections five 2) ≡ five)
    × (0 < length five → All (IsPiece 2) (split_sections five 2))
    × (length five ≡ 0 → split_sections five 2 ≡ [] ∷ [])
split_sections-concat_example = split_sections-concat five 2

-- A store of one file, served in sections of three octets.
abbrev idle : Sender
idle = record {
  store = record { ioa = 7; nof = 2; content = five } ∷ [];
  section_size = 3;
  active = false;
  ca = 0;
  ioa = 0;
  nof = 0;
  sections = [];
  cur = 0;
}

idle_read : store_read idle.store 7 2 ≡ some five
unfolding store_read
idle_read = refl

-- The first section is called by its number, as the receiver does, and the second as the current
-- one.
abbrev round : ℕ → ℕ → Round
round called nos = record {
  call_ca = 1;
  call_ioa = 7;
  call_nos = called;
  ack_ca = 1;
  ack_info = record { ioa = 7; nof = 2; nos = nos; action = afq_pos_ack_section; error = 0 };
  positive = refl;
}

abbrev two_rounds : List Round
two_rounds = round 1 1 ∷ round 0 2 ∷ []

two_sections : length two_rounds ≡ length (split_sections five 3)
unfolding split_sections pieces cut
two_sections = refl

payload-transcript_example :
    payload (transcript 2 idle (file_call 1 7 2 ∷ calls 2 two_rounds)) ≡ five
payload-transcript_example =
    payload-transcript 2 idle 1 7 2 two_rounds (omega arith) refl idle_read (ground arith)
      two_sections

-- Both sections are acknowledged.
abbrev closing : Sender
closing = record idle {
  active = true;
  ioa = 7;
  nof = 2;
  sections = (1 ∷ 2 ∷ 3 ∷ []) ∷ (4 ∷ 5 ∷ []) ∷ [];
  cur = 2;
}

abbrev refusal : AckFileOrSectionInfo
refusal = record { ioa = 7; nof = 2; nos = 2; action = afq_neg_ack_section; error = 2 }

abbrev recall : CallOrSelectFileInfo
recall = record { ioa = 7; nof = 2; nos = 0; action = scq_request_section }

step-panicked_example :
    (step 2 closing (ack 1 refusal) ≡ panicked)
    × (step 2 closing (call_or_select 1 recall) ≡ panicked)
step-panicked_example =
    step-panicked 2 closing 1 refusal recall refl (omega arith) refl refl refl refl

-- The receiver that waits for the first section of the file.
abbrev serving : Sender
serving = record closing { cur = 0 }

abbrev waiting : Receiver
waiting = record new_receiver { active = true; ioa = 7; nof = 2; nos = 1; called = true }

waiting-Follows : Follows serving waiting
unfolding new_receiver
waiting-Follows = record { active = refl; same_nof = refl; same_nos = refl }

waiting-empty : waiting.section_buf ≡ []
unfolding new_receiver
waiting-empty = refl

receive_all-section_messages_example :
    receive_all waiting [] (section_messages 2 serving (1 ∷ 2 ∷ 3 ∷ []))
    ≡ assembled waiting (1 ∷ 2 ∷ 3 ∷ [])
receive_all-section_messages_example =
    receive_all-section_messages 2 serving waiting (1 ∷ 2 ∷ 3 ∷ []) (omega arith) waiting-Follows
      waiting-empty

-- The receiver with the whole file, and the message that ends it.
abbrev full : Receiver
full = record waiting { nos = 2; file_buf = five }

abbrev ending : Message
ending = last_section_or_segment 1 (record { ioa = 7; nof = 2; nos = 3; lsq = 1; chs = 15 })

abbrev delivered : Completed
delivered = record { ioa = 7; nof = 2; content = five }

full-delivered : (Receiver.step full ending).completed ≡ some delivered
unfolding Receiver.step on_last_section_or_segment end_of_file new_receiver file_checksum sum_from
full-delivered = refl

step-completed_example :
    (full.active ≡ true)
    × (delivered ≡ record { ioa = full.ioa; nof = full.nof; content = full.file_buf })
    × Closes (file_checksum delivered.content) ending
    × ((Receiver.step full ending).receiver ≡ Receiver.reset full)
step-completed_example = step-completed full ending delivered full-delivered
