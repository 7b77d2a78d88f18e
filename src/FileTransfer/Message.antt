-- ===== src/FileTransfer/Message.antt =====
-- The information objects of asdu/filet.go that the components of filetransfer/ exchange, decoded,
-- with the common address, and the numbers of their qualifiers.
use go_iecp.Shared.{ℕ, List, Bool}

abbrev pub scq_default : ℕ
scq_default = 0

abbrev pub scq_select_file : ℕ
scq_select_file = 1

abbrev pub scq_request_file : ℕ
scq_request_file = 2

abbrev pub scq_deactivate_file : ℕ
scq_deactivate_file = 3

abbrev pub scq_delete_file : ℕ
scq_delete_file = 4

abbrev pub scq_select_section : ℕ
scq_select_section = 5

abbrev pub scq_request_section : ℕ
scq_request_section = 6

abbrev pub scq_deactivate_section : ℕ
scq_deactivate_section = 7

abbrev pub afq_pos_ack_file : ℕ
afq_pos_ack_file = 1

abbrev pub afq_neg_ack_file : ℕ
afq_neg_ack_file = 2

abbrev pub afq_pos_ack_section : ℕ
afq_pos_ack_section = 3

abbrev pub afq_neg_ack_section : ℕ
afq_neg_ack_section = 4

abbrev pub lsq_file_without_deactivate : ℕ
lsq_file_without_deactivate = 1

abbrev pub lsq_file_with_deactivate : ℕ
lsq_file_with_deactivate = 2

abbrev pub lsq_section_with_deactivate : ℕ
lsq_section_with_deactivate = 4

abbrev pub lsq_section_without_deactivate : ℕ
lsq_section_without_deactivate = 3

abbrev pub file_err_none : ℕ
file_err_none = 0

abbrev pub file_err_checksum_failed : ℕ
file_err_checksum_failed = 2

abbrev pub file_err_unexpected_name_of_file : ℕ
file_err_unexpected_name_of_file = 4

abbrev pub file_err_unexpected_name_of_section : ℕ
file_err_unexpected_name_of_section = 5

pub record CallOrSelectFileInfo : Type 0 where
  pub ioa : ℕ
  pub nof : ℕ
  pub nos : ℕ
  pub action : ℕ

pub record AckFileOrSectionInfo : Type 0 where
  pub ioa : ℕ
  pub nof : ℕ
  pub nos : ℕ
  pub action : ℕ
  pub error : ℕ

pub record FileReadyInfo : Type 0 where
  pub ioa : ℕ
  pub nof : ℕ
  pub length_of_file : ℕ
  pub is_negative : Bool

pub record SectionReadyInfo : Type 0 where
  pub ioa : ℕ
  pub nof : ℕ
  pub nos : ℕ
  pub length_of_section : ℕ
  pub is_not_ready : Bool

pub record SegmentInfo : Type 0 where
  pub ioa : ℕ
  pub nof : ℕ
  pub nos : ℕ
  pub segment : List ℕ

pub record LastSectionOrSegmentInfo : Type 0 where
  pub ioa : ℕ
  pub nof : ℕ
  pub nos : ℕ
  pub lsq : ℕ
  pub chs : ℕ

pub record DirectoryInfo : Type 0 where
  pub ioa : ℕ
  pub nof : ℕ
  pub length_of_file : ℕ
  pub is_last_file_of_directory : Bool

pub data Message : Type 0 where
  call_or_select : ℕ → CallOrSelectFileInfo → Message
  ack : ℕ → AckFileOrSectionInfo → Message
  file_ready : ℕ → FileReadyInfo → Message
  section_ready : ℕ → SectionReadyInfo → Message
  segment : ℕ → SegmentInfo → Message
  last_section_or_segment : ℕ → LastSectionOrSegmentInfo → Message
  directory : ℕ → List DirectoryInfo → Message
