-- ===== src/FileTransfer/Sender/Step/Serving.antt =====
-- The sender of filetransfer/sender.go serves the whole file to a station that follows the
-- procedure.
use go_iecp.Shared.{
  ℕ, suc, ◌+◌, ◌≤◌, ◌<◌, ◌≡◌, refl, true, false, List, [], ◌∷◌, ◌++◌, Option, some, none, length,
  get_elem?, get_elem?-below, drop-get_elem?, drop_all, drop, arith, append_assoc, ◌∙◌, ap, ◌⊎◌,
  inl, inr,
}
use go_iecp.FileTransfer.Sections.{
  pieces, concat, length-split_sections, concat-pieces, split_sections, split_sections-concat,
}
use go_iecp.FileTransfer.Message.{
  Message, call_or_select, ack, file_ready, section_ready, segment, last_section_or_segment,
  directory, AckFileOrSectionInfo, scq_request_section, scq_request_file, afq_pos_ack_section,
}
use go_iecp.FileTransfer.Sender.{
  TransferError, Sender, stepped, section_data_of, section_data_actions, section_messages,
  segments_of, section_ready_of, section_ready_actions, last_section_actions, load, store_read,
}
use go_iecp.FileTransfer.Sender.Step.{
  step, on_ack, on_call_or_select, next_section, in_transfer, at_section, transcript, request_file,
}

-- The octets of the segments among messages.
abbrev pub payload : List Message → List ℕ
payload [] = []
payload (segment ca info ∷ ms) = info.segment ++ payload ms
payload (_ ∷ ms) = payload ms

payload-append : (ms ns : List Message) → payload (ms ++ ns) ≡ payload ms ++ payload ns
payload-append [] ns = refl
payload-append (segment ca info ∷ ms) ns =
    ground (arith, payload-append ms ns, append_assoc info.segment (payload ms) (payload ns))
payload-append (call_or_select ca info ∷ ms) ns = payload-append ms ns
payload-append (ack ca info ∷ ms) ns = payload-append ms ns
payload-append (file_ready ca info ∷ ms) ns = payload-append ms ns
payload-append (section_ready ca info ∷ ms) ns = payload-append ms ns
payload-append (last_section_or_segment ca info ∷ ms) ns = payload-append ms ns
payload-append (directory ca infos ∷ ms) ns = payload-append ms ns

payload-segments_of :
    (s : Sender) (ps : List (List ℕ)) (n : Message)
    → payload (n ∷ []) ≡ []
    → payload (segments_of s ps ++ (n ∷ [])) ≡ concat ps
unfolding segments_of concat
payload-segments_of s [] n h = h
payload-segments_of s (p ∷ ps) n h = ground (arith, payload-segments_of s ps n h)

-- The call of a section and the positive acknowledgement of it; each may come under any common
-- address, and the sender does not look at the object address and the acknowledged names.
pub record Round : Type 0 where
  pub call_ca : ℕ
  pub call_ioa : ℕ
  pub call_nos : ℕ
  pub ack_ca : ℕ
  pub ack_info : AckFileOrSectionInfo
  pub positive : ack_info.action ≡ afq_pos_ack_section

abbrev pub section_call : ℕ → Round → Message
section_call nof r =
    call_or_select r.call_ca
      (record { ioa = r.call_ioa; nof = nof; nos = r.call_nos; action = scq_request_section })

abbrev pub section_ack : Round → Message
section_ack r = ack r.ack_ca r.ack_info

abbrev pub calls : ℕ → List Round → List Message
calls nof [] = []
calls nof (r ∷ rs) = section_call nof r ∷ section_ack r ∷ calls nof rs

-- Each call has the number of its section, of which the first is `n + 1`, or zero for the current
-- one.
abbrev pub IsNumbered : ℕ → List Round → Type 0
IsNumbered n [] = Unit
IsNumbered n (r ∷ rs) = ((r.call_nos ≡ 0) ⊎ (r.call_nos ≡ n + 1)) × IsNumbered (n + 1) rs

le_or_lt : (m n : ℕ) → (m ≤ n) ⊎ (n < m)
le_or_lt m n = ground arith

-- An acknowledgement moves the sender on without a segment.
next_section-stepped :
    (t : Sender)
    → (sent : List Message) × (next_section t ≡ stepped t sent none) × (payload sent ≡ [])
unfolding next_section section_ready_actions section_ready_of last_section_actions
next_section-stepped t = elim (le_or_lt (length t.sections) t.cur) [
  | inl past ↦ (_, closing past, refl)
  | inr below ↦
      let (x, here) = get_elem?-below t.sections t.cur below in (_, ready here below, refl)
]
  where
    closing : length t.sections ≤ t.cur → next_section t ≡ last_section_actions t
    closing h = ground arith

    ready :
        {x : List ℕ}
        → get_elem? t.sections t.cur ≡ some x
        → t.cur < length t.sections
        → next_section t ≡ section_ready_of t (some x)
    ready h b = ground arith

module _ (max : ℕ) (some_room : 0 < max) where
  step-section_call :
      (s : Sender) (r : Round) (section : List ℕ)
      → s.active ≡ true
      → (r.call_nos ≡ 0) ⊎ (r.call_nos ≡ s.cur + 1)
      → s.cur < length s.sections
      → get_elem? s.sections s.cur ≡ some section
      → step max s (section_call s.nof r) ≡ stepped s (section_messages max s section) none
  unfolding step on_call_or_select in_transfer at_section section_data_actions section_data_of
  step-section_call s r section a numbered below g = ground (arith, a, numbered, below, g)

  payload-section_messages :
      (s : Sender) (section : List ℕ) → payload (section_messages max s section) ≡ section
  unfolding section_messages
  payload-section_messages s section =
      payload-segments_of s (pieces max section) _ refl ∙ concat-pieces max section some_room

  step-section_ack :
      (s : Sender) (r : Round)
      → s.active ≡ true
      → step max s (section_ack r) ≡ next_section (record s { cur = s.cur + 1 })
  unfolding step on_ack
  step-section_ack s r a = ground (arith, a, r.positive)

  transcript-stepped :
      (s t : Sender) (m : Message) (ms sent : List Message) {e : Option TransferError}
      → step max s m ≡ stepped t sent e
      → transcript max s (m ∷ ms) ≡ sent ++ transcript max t ms
  unfolding transcript
  transcript-stepped s t m ms sent eq = rw (eq, transcript) refl

  -- From the current section on.
  payload-calls :
      (rounds : List Round) (s : Sender)
      → s.active ≡ true
      → IsNumbered s.cur rounds
      → length s.sections ≡ s.cur + length rounds
      → payload (transcript max s (calls s.nof rounds)) ≡ concat (drop s.cur s.sections)
  unfolding transcript concat
  payload-calls [] s a i n = ground (arith, drop_all s.sections s.cur)
  payload-calls (r ∷ rounds) s a (numbered, i) n =
      let (section, here) = get_elem?-below s.sections s.cur below in
      let (sent, acked, quiet) = next_section-stepped next in
      rw
        (
          transcript-stepped s s (section_call s.nof r) (section_ack r ∷ calls s.nof rounds) _
              (step-section_call s r section a numbered below here),
          payload-append (section_messages max s section)
              (transcript max s (section_ack r ∷ calls s.nof rounds)),
          payload-section_messages s section,
          transcript-stepped s next (section_ack r) (calls s.nof rounds) sent
              (step-section_ack s r a ∙ acked),
          payload-append sent (transcript max next (calls s.nof rounds)),
          quiet,
          drop-get_elem? s.sections s.cur here,
        )
        (ap (λ l. section ++ l) (later (payload-calls rounds next a i (omega arith))))
    where
      below : s.cur < length s.sections
      below = omega arith

      next : Sender
      next = record s { cur = s.cur + 1 }

      later :
          {p : List ℕ}
          → p ≡ concat (drop (s.cur + 1) s.sections)
          → p ≡ concat (drop (suc s.cur) s.sections)
      later h = ground (arith, h)

-- The call of a file.
abbrev pub file_call : ℕ → ℕ → ℕ → Message
file_call ca ioa nof =
    call_or_select ca (record { ioa = ioa; nof = nof; nos = 0; action = scq_request_file })

-- The sender that the call leaves, at its first section.
abbrev serving : Sender → ℕ → ℕ → ℕ → List ℕ → Sender
serving s ca ioa nof data' = record s {
  active = true;
  ca = ca;
  ioa = ioa;
  nof = nof;
  sections = split_sections data' s.section_size;
  cur = 0;
}

step-file_call :
    (max : ℕ) (s : Sender) (ca ioa nof : ℕ) {data' : List ℕ}
    → s.active ≡ false
    → store_read s.store ioa nof ≡ some data'
    → step max s (file_call ca ioa nof) ≡ section_ready_actions (serving s ca ioa nof data')
unfolding step on_call_or_select request_file load
step-file_call max s ca ioa nof a r = ground arith

section_ready-stepped :
    (t : Sender)
    → t.cur < length t.sections
    → (sent : List Message) × (section_ready_actions t ≡ stepped t sent none) × (payload sent ≡ [])
unfolding section_ready_actions section_ready_of
section_ready-stepped t below =
    let (x, here) = get_elem?-below t.sections t.cur below in
    (_, ap (section_ready_of t) here, refl)

-- A sender with no transfer, whose store has a file, and a transport with room for a segment: to
-- the call of that file, and then for each of its sections in order a call by its number, counted
-- from 1 (which an octet holds up to 255), or by zero for the current one, and a positive
-- acknowledgement, the sender answers with segments whose octets, put together in the order in
-- which they are sent, are the file. The common addresses of the messages, the object addresses of
-- the section calls and what the acknowledgements name are arbitrary.
pub payload-transcript :
    (max : ℕ) (s : Sender) (ca ioa nof : ℕ) (rounds : List Round) {data' : List ℕ}
    → 0 < max
    → s.active ≡ false
    → store_read s.store ioa nof ≡ some data'
    → IsNumbered 0 rounds
    → length rounds ≡ length (split_sections data' s.section_size)
    → payload (transcript max s (file_call ca ioa nof ∷ calls nof rounds)) ≡ data'
payload-transcript max s ca ioa nof rounds {data' = data'} room a r i n =
    let t = serving s ca ioa nof data' in
    let (sent, ready, quiet) =
      section_ready-stepped t (length-split_sections data' s.section_size) in
    rw
      (
        transcript-stepped max room s t (file_call ca ioa nof) (calls nof rounds) sent
            (step-file_call max s ca ioa nof a r ∙ ready),
        payload-append sent (transcript max t (calls nof rounds)),
        quiet,
      )
      (payload-calls max room rounds t refl i (omega (arith, n))
        ∙ (split_sections-concat data' s.section_size).0)
