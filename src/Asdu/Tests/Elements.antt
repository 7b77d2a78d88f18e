-- ===== src/Asdu/Tests/Elements.antt =====
-- The theorems on asdu/information.go and asdu/codec.go at concrete values.
use go_iecp.Shared.{◌*◌, ◌≡◌, refl, true, false, [], ◌∷◌, some, arith, negsuc}
use go_iecp.Asdu.Error.{ok}
use go_iecp.Asdu.Information.{
  StepPosition, CauseOfInitial, parse_cause_of_initial, cause_of_initial_value,
  parse_qualifier_count_call, qualifier_count_call_value, QualifierOfParameterMv,
  parse_qualifier_of_param_mv, qualifier_of_parameter_mv_value, QualifierOfCommand,
  parse_qualifier_of_command, qualifier_of_command_value, QualifierOfSetpointCmd,
  parse_qualifier_of_setpoint_cmd, qualifier_of_setpoint_cmd_value,
}
use go_iecp.Asdu.Information.Laws.{parse-value}
use go_iecp.Asdu.Codec.{
  BinaryCounterReading, append_bytes, append_info_obj_addr, append_uint16, decode_uint16,
  append_cp16_time2a, decode_cp16_time2a, append_bits_string32, decode_bits_string32,
  append_status_and_status_change_detection, decode_status_and_status_change_detection,
  append_normalize, decode_normalize, append_scaled, decode_scaled, append_binary_counter_reading,
  decode_binary_counter_reading, with_info_obj,
}
use go_iecp.Asdu.Codec.Laws.{
  followed_by, emptied, decode-append, decode-append_signed,
  decode_binary_counter_reading-append_binary_counter_reading,
}
use go_iecp.Asdu.Tests.{command}

-- Step -64, in transition.
abbrev lowest_step : StepPosition
lowest_step = record { val = negsuc 63; has_transient = true }

abbrev local_reset : CauseOfInitial
local_reset = record { cause = 1; is_local_change = true }

abbrev set_point : QualifierOfSetpointCmd
set_point = record { qual = 100; in_select = false }

abbrev select_pulse : QualifierOfCommand
select_pulse = record { qual = 31; in_select = true }

abbrev high_limit : QualifierOfParameterMv
high_limit = record { category = 4; is_change = true; is_in_operation = false }

parse-value_example :
    (parse_cause_of_initial (cause_of_initial_value local_reset) ≡ local_reset)
    × (parse_qualifier_of_setpoint_cmd (qualifier_of_setpoint_cmd_value set_point) ≡ set_point)
    × (parse_qualifier_of_command (qualifier_of_command_value select_pulse) ≡ select_pulse)
    × (parse_qualifier_of_param_mv (qualifier_of_parameter_mv_value high_limit) ≡ high_limit)
    × (parse_qualifier_count_call
          (qualifier_count_call_value (record { request = 5; freeze = 3 * 64 }))
        ≡ record { request = 5; freeze = 3 * 64 })
parse-value_example =
    parse-value local_reset set_point select_pulse high_limit 5 3 (omega arith) (omega arith)
      (omega arith) (omega arith) (omega arith) (omega arith)

addr_appended :
    append_info_obj_addr (emptied command) 70000 ≡ ok (with_info_obj command (112 ∷ 17 ∷ 1 ∷ []))
unfolding append_info_obj_addr append_bytes
addr_appended = refl

decode-append_example :
    (decode_uint16 (followed_by (append_uint16 (emptied command) 0x55aa) (9 ∷ []))
      ≡ some (0x55aa, with_info_obj command (9 ∷ [])))
    × (decode_cp16_time2a (followed_by (append_cp16_time2a (emptied command) 0x55aa) (9 ∷ []))
        ≡ some (0x55aa, with_info_obj command (9 ∷ [])))
    × (decode_bits_string32
          (followed_by (append_bits_string32 (emptied command) 0x01020304) (9 ∷ []))
        ≡ some (0x01020304, with_info_obj command (9 ∷ [])))
    × (decode_status_and_status_change_detection (
          followed_by
            (append_status_and_status_change_detection (emptied command) 0x01020304)
            (9 ∷ []))
        ≡ some (0x01020304, with_info_obj command (9 ∷ [])))
decode-append_example = decode-append command 0x55aa 0x01020304 (9 ∷ []) (omega arith) (omega arith)

decode-append_signed_example :
    (decode_normalize (followed_by (append_normalize (emptied command) (negsuc 299)) (9 ∷ []))
      ≡ some (negsuc 299, with_info_obj command (9 ∷ [])))
    × (decode_scaled (followed_by (append_scaled (emptied command) (negsuc 299)) (9 ∷ []))
        ≡ some (negsuc 299, with_info_obj command (9 ∷ [])))
decode-append_signed_example = decode-append_signed command (negsuc 299) (9 ∷ []) (omega arith)

-- -70000, with sequence number 17, adjusted.
abbrev reading : BinaryCounterReading
reading = record {
  counter_reading = negsuc 69999;
  seq_number = 17;
  has_carry = false;
  is_adjusted = true;
  is_invalid = false;
}

decode_binary_counter_reading-append_binary_counter_reading_example :
    decode_binary_counter_reading
      (followed_by (append_binary_counter_reading (emptied command) reading) (9 ∷ []))
    ≡ some (reading, with_info_obj command (9 ∷ []))
decode_binary_counter_reading-append_binary_counter_reading_example =
    decode_binary_counter_reading-append_binary_counter_reading command reading (9 ∷ [])
      (omega arith) (omega arith)
