-- ===== src/FileTransfer/Receiver/Assembling.antt =====
-- The receiver of filetransfer/receiver.go puts together what the sender of filetransfer/sender.go
-- sends for a section.
use go_iecp.Shared.{
  ℕ, ◌+◌, ◌<◌, ◌≡◌, refl, true, List, [], ◌∷◌, ◌++◌, none, byte, arith, append_nil, append_assoc,
  ap, sym, ◌∙◌,
}
use go_iecp.FileTransfer.Sections.{pieces, concat, concat-pieces, file_checksum}
use go_iecp.FileTransfer.Message.{
  Message, segment, last_section_or_segment, lsq_section_without_deactivate, afq_pos_ack_section,
  file_err_none,
}
use go_iecp.FileTransfer.Sender.{Sender, segments_of, section_messages}
use go_iecp.FileTransfer.Receiver.{
  Receiver, Received, step, receive_all, on_segment, on_last_section_or_segment, end_of_section,
  acknowledgement,
}

-- A receiver that waits for the section which a sender serves.
pub record Follows (s : Sender) (r : Receiver) : Type 0 where
  pub active : r.active ≡ true
  pub same_nof : r.nof ≡ s.nof
  pub same_nos : r.nos ≡ byte (s.cur + 1)

receive_all-quiet :
    (r t : Receiver) (sent : List Message) (m : Message) (ms : List Message)
    → step r m ≡ record { receiver = t; sent = []; completed = none; error = none }
    → receive_all r sent (m ∷ ms) ≡ receive_all t sent ms
unfolding receive_all
receive_all-quiet r t sent m ms h = ground (arith, h, append_nil sent)

pub receive_all-last :
    (r t : Receiver) (m n : Message)
    → step r m ≡ record { receiver = t; sent = n ∷ []; completed = none; error = none }
    → receive_all r [] (m ∷ [])
      ≡ record { receiver = t; sent = n ∷ []; completed = none; error = none }
unfolding receive_all
receive_all-last r t m n h = ground (arith, h)

abbrev buffered : Receiver → List ℕ → Receiver
buffered r xs = record r { section_buf = r.section_buf ++ xs }

step-segment :
    (s : Sender) (r : Receiver) (p : List ℕ)
    → Follows s r
    → step r
        (segment s.ca (record { ioa = s.ioa; nof = s.nof; nos = byte (s.cur + 1); segment = p }))
      ≡ record { receiver = buffered r p; sent = []; completed = none; error = none }
unfolding step on_segment
step-segment s r p w = ground (arith, w)

buffered-Follows : (s : Sender) (r : Receiver) (p : List ℕ) → Follows s r → Follows s (buffered r p)
buffered-Follows s r p w = ground (arith, w)

receive_all-segments :
    (s : Sender) (ps : List (List ℕ)) (r : Receiver) (n : Message)
    → Follows s r
    → receive_all r [] (segments_of s ps ++ (n ∷ []))
      ≡ receive_all (buffered r (concat ps)) [] (n ∷ [])
unfolding segments_of concat
receive_all-segments s [] r n w =
    ap (λ (b : List ℕ). receive_all (record r { section_buf = b }) [] (n ∷ []))
      (sym (append_nil r.section_buf))
receive_all-segments s (p ∷ ps) r n w =
    receive_all-quiet r (buffered r p) [] _ _ (step-segment s r p w)
    ∙ receive_all-segments s ps (buffered r p) n (buffered-Follows s r p w)
    ∙ ap (λ (b : List ℕ). receive_all (record r { section_buf = b }) [] (n ∷ []))
        (append_assoc r.section_buf p (concat ps))

-- The receiver after a section, and what it sends.
abbrev pub assembled : Receiver → List ℕ → Received
assembled r section = record {
  receiver = record r { file_buf = r.file_buf ++ section; section_buf = [] };
  sent = acknowledgement r r.nos afq_pos_ack_section file_err_none ∷ [];
  completed = none;
  error = none;
}

abbrev marker : Sender → List ℕ → Message
marker s section = last_section_or_segment s.ca (record {
  ioa = s.ioa;
  nof = s.nof;
  nos = byte (s.cur + 1);
  lsq = lsq_section_without_deactivate;
  chs = file_checksum section;
})

step-marker :
    (s : Sender) (r : Receiver) (section : List ℕ)
    → Follows s r
    → r.section_buf ≡ section
    → step r (marker s section) ≡ assembled r section
unfolding step on_last_section_or_segment end_of_section
step-marker s r section w b = ground (arith, w)

-- A receiver in the transfer that the sender serves, which waits for the section at the sender's
-- place with nothing of it yet: the messages with which the sender sends a section of any octets,
-- with room for a segment, make it append just these octets to the file and acknowledge the
-- section positively, and it finishes no file.
pub receive_all-section_messages :
    (max : ℕ) (s : Sender) (r : Receiver) (section : List ℕ)
    → 0 < max
    → Follows s r
    → r.section_buf ≡ []
    → receive_all r [] (section_messages max s section) ≡ assembled r section
unfolding section_messages
receive_all-section_messages max s r section room w empty =
    receive_all-segments s (pieces max section) r (marker s section) w
    ∙ receive_all-last full _ (marker s section) _
        (step-marker s full section (buffered-Follows s r _ w) whole)
    ∙ same
  where
    full : Receiver
    full = buffered r (concat (pieces max section))

    whole : full.section_buf ≡ section
    whole = ground (arith, empty, concat-pieces max section room)

    same : assembled full section ≡ assembled r section
    same = refl
