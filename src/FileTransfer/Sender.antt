-- ===== src/FileTransfer/Sender.antt =====
-- filetransfer/sender.go: the `Sender`, with the in-memory store of filetransfer/store.go as the
-- list of its files, each once. Messages are decoded, their common address first, and the
-- transport takes every message; the times of files are left out; `max` is the largest segment under its parameters.
pub mod Step
use go_iecp.Shared.{
  ℕ, suc, ◌+◌, ◌-◌, ◌%◌, Bool, true, false, not, ◌&&◌, ◌||◌, List, [], ◌∷◌, ◌++◌, Option, none,
  some, map, ◌==◌, ◌!=◌, ltb, leb, if◌then◌else◌, byte, length, get_elem?,
}
use go_iecp.FileTransfer.Sections.{
  split_sections, pieces, file_checksum, sum_checksums, default_section_size,
}
use go_iecp.FileTransfer.Message.{
  Message, call_or_select, ack, file_ready, section_ready, segment, last_section_or_segment,
  directory, CallOrSelectFileInfo, AckFileOrSectionInfo, DirectoryInfo, scq_default,
  scq_select_file, scq_request_file, scq_deactivate_file, scq_delete_file, scq_select_section,
  scq_request_section, scq_deactivate_section, afq_pos_ack_file, afq_neg_ack_file,
  afq_pos_ack_section, afq_neg_ack_section, lsq_file_without_deactivate,
  lsq_section_without_deactivate, file_err_unexpected_name_of_file,
  file_err_unexpected_name_of_section,
}

pub record File : Type 0 where
  pub ioa : ℕ
  pub nof : ℕ
  pub content : List ℕ

pub data TransferError : Type 0 where
  file_not_found no_transfer busy checksum unsupported param : TransferError

abbrev is_file : ℕ → ℕ → File → Bool
is_file ioa nof f = f.ioa == ioa && f.nof == nof

-- `MemStore.Read`
unfoldable pub store_read : List File → ℕ → ℕ → Option (List ℕ)
store_read [] ioa nof = none
store_read (f ∷ fs) ioa nof = if is_file ioa nof f then some f.content else store_read fs ioa nof

-- `MemStore.Delete`
unfoldable pub store_delete : List File → ℕ → ℕ → List File
store_delete [] ioa nof = []
store_delete (f ∷ fs) ioa nof = if is_file ioa nof f then fs else f ∷ store_delete fs ioa nof

-- `MemStore.List` sorts by address, then by name.
unfoldable pub insert_file : File → List File → List File
insert_file f [] = f ∷ []
insert_file f (g ∷ gs) =
    if ltb f.ioa g.ioa || f.ioa == g.ioa && leb f.nof g.nof
    then f ∷ g ∷ gs
    else g ∷ insert_file f gs

unfoldable pub store_list : List File → List File
store_list [] = []
store_list (f ∷ fs) = insert_file f (store_list fs)

pub record Sender : Type 0 where
  pub store : List File
  pub section_size : ℕ
  pub active : Bool
  pub ca : ℕ
  pub ioa : ℕ
  pub nof : ℕ
  pub sections : List (List ℕ)
  pub cur : ℕ

-- What a step returns: the sender, the messages, an error; or a panic by an index out of range.
pub data Stepped : Type 0 where
  stepped : Sender → List Message → Option TransferError → Stepped
  panicked : Stepped

-- `NewSender` and `SetSectionSize`
unfoldable pub new_sender : List File → Sender
new_sender store = record {
  store = store;
  section_size = default_section_size;
  active = false;
  ca = 0;
  ioa = 0;
  nof = 0;
  sections = [];
  cur = 0;
}

unfoldable pub set_section_size : Sender → ℕ → Sender
set_section_size s n = if ltb 0 n then record s { section_size = n } else s

unfoldable pub reset : Sender → Sender
reset s = record s { active = false; sections = []; cur = 0; ioa = 0; nof = 0 }

abbrev neg_ack_file : ℕ → CallOrSelectFileInfo → Message
neg_ack_file ca req = ack ca (record {
  ioa = req.ioa;
  nof = req.nof;
  nos = req.nos;
  action = afq_neg_ack_file;
  error = file_err_unexpected_name_of_file;
})

abbrev neg_ack_section : ℕ → CallOrSelectFileInfo → Message
neg_ack_section ca req = ack ca (record {
  ioa = req.ioa;
  nof = req.nof;
  nos = req.nos;
  action = afq_neg_ack_section;
  error = file_err_unexpected_name_of_section;
})

unfoldable pub load : Sender → ℕ → CallOrSelectFileInfo → Option Sender
load s ca req = elim (store_read s.store req.ioa req.nof) [
  | none ↦ none
  | some data' ↦ some (record s {
    active = true;
    ca = ca;
    ioa = req.ioa;
    nof = req.nof;
    sections = split_sections data' s.section_size;
    cur = 0;
  })
]

-- `directoryActions`: the entries, of which the last says so.
unfoldable pub directory_infos : List File → List DirectoryInfo
directory_infos [] = []
directory_infos (f ∷ fs) =
    record {
      ioa = f.ioa;
      nof = f.nof;
      length_of_file = length f.content;
      is_last_file_of_directory = length fs == 0;
    }
    ∷ directory_infos fs

unfoldable pub directory_actions : Sender → ℕ → Stepped
directory_actions s ca =
    let infos = directory_infos (store_list s.store) in
    stepped s (if length infos == 0 then [] else directory ca infos ∷ []) none

-- `sectionReadyActions` of the section at `cur`, if there is one.
unfoldable pub section_ready_of : Sender → Option (List ℕ) → Stepped
section_ready_of s none = panicked
section_ready_of s (some section) =
    stepped s
      (section_ready s.ca (record {
        ioa = s.ioa;
        nof = s.nof;
        nos = byte (s.cur + 1);
        length_of_section = length section;
        is_not_ready = false;
      })
        ∷ [])
      none

unfoldable pub section_ready_actions : Sender → Stepped
section_ready_actions s = section_ready_of s (get_elem? s.sections s.cur)

unfoldable pub segments_of : Sender → List (List ℕ) → List Message
segments_of s [] = []
segments_of s (p ∷ ps) =
    segment s.ca (record { ioa = s.ioa; nof = s.nof; nos = byte (s.cur + 1); segment = p })
    ∷ segments_of s ps

-- The segments of a section, then the last one's marker with the checksum.
unfoldable pub section_messages : ℕ → Sender → List ℕ → List Message
section_messages max s section =
    segments_of s (pieces max section)
    ++ (last_section_or_segment s.ca (record {
      ioa = s.ioa;
      nof = s.nof;
      nos = byte (s.cur + 1);
      lsq = lsq_section_without_deactivate;
      chs = file_checksum section;
    })
        ∷ [])

-- `sectionDataActions`: without room for a segment `Handle` aborts.
unfoldable pub section_data_of : ℕ → Sender → Option (List ℕ) → Stepped
section_data_of max s none = panicked
section_data_of max s (some section) =
    if max == 0
    then stepped (reset s) [] (some param)
    else stepped s (section_messages max s section) none

unfoldable pub section_data_actions : ℕ → Sender → Stepped
section_data_actions max s = section_data_of max s (get_elem? s.sections s.cur)

unfoldable pub last_section_actions : Sender → Stepped
last_section_actions s =
    stepped s
      (last_section_or_segment s.ca (record {
        ioa = s.ioa;
        nof = s.nof;
        nos = byte (length s.sections);
        lsq = lsq_file_without_deactivate;
        chs = sum_checksums 0 s.sections;
      })
        ∷ [])
      none
