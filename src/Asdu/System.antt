-- ===== src/Asdu/System.antt =====
-- asdu/csys.go: what the system commands in the control direction carry, and the causes of
-- asdu/identifier.go that their answers name. A getter leaves the ASDU as it was; one that reads
-- behind the end of the information object panics, which is `none`. A time is the seven octets
-- that carry it.
use go_iecp.Shared.{ℕ, Bool, List, Option, none, some, ◌==◌, ltb, if◌then◌else◌, length, take}
use go_iecp.Asdu.Message.{Asdu}
use go_iecp.Asdu.Information.{QualifierCountCall, parse_qualifier_count_call}
use go_iecp.Asdu.Codec.{decode_info_obj_addr, decode_byte, decode_uint16}

abbrev pub spontaneous : ℕ
spontaneous = 3

abbrev pub request : ℕ
request = 5

abbrev pub activation : ℕ
activation = 6

abbrev pub activation_con : ℕ
activation_con = 7

abbrev pub deactivation : ℕ
deactivation = 8

abbrev pub unknown_type_id : ℕ
unknown_type_id = 44

abbrev pub unknown_cot : ℕ
unknown_cot = 45

abbrev pub unknown_ca : ℕ
unknown_ca = 46

abbrev pub unknown_ioa : ℕ
unknown_ioa = 47

abbrev pub fbp_test_word : ℕ
fbp_test_word = 0x55aa

-- An address, then what a reader finds behind it.
abbrev pub addressed {ℓ} : {A : Type ℓ} → Asdu → (Asdu → Option A) → Option (ℕ × A)
addressed a read = elim (decode_info_obj_addr a) [
  | none ↦ none
  | some (ioa, b) ↦ elim (read b) [ none ↦ none | some v ↦ some (ioa, v) ]
]

abbrev value_of : Option (ℕ × Asdu) → Option ℕ
value_of none = none
value_of (some (v, a)) = some v

abbrev octet : Asdu → Option ℕ
octet a = value_of (decode_byte a)

abbrev word : Asdu → Option ℕ
word a = value_of (decode_uint16 a)

abbrev count_call : Asdu → Option QualifierCountCall
count_call a = elim (octet a) [ none ↦ none | some b ↦ some (parse_qualifier_count_call b) ]

abbrev time_octets : Asdu → Option (List ℕ)
time_octets a = if ltb (length a.info_obj) 7 then none else some (take 7 a.info_obj)

abbrev test_word : Asdu → Option Bool
test_word a = elim (word a) [ none ↦ none | some w ↦ some (w == fbp_test_word) ]

unfoldable pub get_interrogation_cmd : Asdu → Option (ℕ × ℕ)
get_interrogation_cmd a = addressed a octet

unfoldable pub get_counter_interrogation_cmd : Asdu → Option (ℕ × QualifierCountCall)
get_counter_interrogation_cmd a = addressed a count_call

unfoldable pub get_read_cmd : Asdu → Option ℕ
get_read_cmd a = value_of (decode_info_obj_addr a)

unfoldable pub get_clock_synchronization_cmd : Asdu → Option (ℕ × List ℕ)
get_clock_synchronization_cmd a = addressed a time_octets

unfoldable pub get_test_command : Asdu → Option (ℕ × Bool)
get_test_command a = addressed a test_word

unfoldable pub get_reset_process_cmd : Asdu → Option (ℕ × ℕ)
get_reset_process_cmd a = addressed a octet

unfoldable pub get_delay_acquire_command : Asdu → Option (ℕ × ℕ)
get_delay_acquire_command a = addressed a word
