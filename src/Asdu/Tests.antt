-- ===== src/Asdu/Tests.antt =====
-- The theorems on asdu/asdu.go at concrete octets.
pub mod Elements
pub mod Monitor
use go_iecp.Shared.{ℕ, ◌≡◌, refl, true, false, List, [], ◌∷◌, some, none, arith}
use go_iecp.Asdu.Error.{ok}
use go_iecp.Asdu.Identifier.{get_info_obj_size, variable_struct_value, cause_of_transmission_value}
use go_iecp.Asdu.Message.{Params, Asdu, new_asdu, valid, identifier_size}
use go_iecp.Asdu.Marshal.{
  marshal_binary, unmarshal_binary, expected_info_obj_len, variable_info_obj_size, objects_size,
  raw_octets,
}
use go_iecp.Asdu.Marshal.RoundTrip.{unmarshal_binary-marshal_binary}
use go_iecp.Asdu.Marshal.Accept.{
  unmarshal_binary-exact, marshal_binary-unmarshal_binary, unmarshal_binary-zero_objects,
}

-- `ParamsWide`
abbrev pub params_wide : Params
params_wide = record {
  cause_size = 2;
  orig_address = 0;
  common_addr_size = 2;
  info_obj_addr_size = 3;
  info_obj_time_zone = some 0;
  allow_trailing_octets = false;
}

-- A single command, activated by originator 5, at station 258.
abbrev pub command : Asdu
command = record {
  params = params_wide;
  identifier = record {
    type_id = 45;
    variable = record { number = 1; is_sequence = false };
    coa = record { is_test = false; is_negative = true; cause = 6 };
    orig_addr = 5;
    common_addr = 258;
  };
  info_obj = 16 ∷ 0 ∷ 0 ∷ 129 ∷ [];
}

abbrev pub command_octets : List ℕ
command_octets = 45 ∷ 1 ∷ 70 ∷ 5 ∷ 2 ∷ 1 ∷ 16 ∷ 0 ∷ 0 ∷ 129 ∷ []

pub command_marshals : marshal_binary command ≡ ok command_octets
unfolding marshal_binary expected_info_obj_len variable_info_obj_size objects_size get_info_obj_size
    raw_octets identifier_size variable_struct_value cause_of_transmission_value
command_marshals = refl

pub command_expected : expected_info_obj_len command ≡ some 4
unfolding expected_info_obj_len variable_info_obj_size objects_size get_info_obj_size
command_expected = refl

pub command_valid : valid params_wide ≡ none
unfolding valid
command_valid = refl

unmarshal_binary-marshal_binary_example :
    unmarshal_binary (new_asdu params_wide command.identifier) command_octets ≡ (command, none)
unfolding new_asdu
unmarshal_binary-marshal_binary_example =
    unmarshal_binary-marshal_binary command (new_asdu params_wide command.identifier) (ground arith)
      command_valid refl command_expected command_marshals

command_unmarshals : unmarshal_binary command command_octets ≡ (command, none)
command_unmarshals =
    unmarshal_binary-marshal_binary command command (ground arith) command_valid refl
      command_expected command_marshals

unmarshal_binary-exact_example : expected_info_obj_len command ≡ some 4
unmarshal_binary-exact_example =
    unmarshal_binary-exact command command_octets refl command_unmarshals

marshal_binary-unmarshal_binary_example : marshal_binary command ≡ ok command_octets
unfolding identifier_size
marshal_binary-unmarshal_binary_example =
    marshal_binary-unmarshal_binary command command_octets (omega arith) refl command_unmarshals
      (ground arith)

-- An interrogation command that claims to be a sequence of no objects.
abbrev empty_octets : List ℕ
empty_octets = 100 ∷ 0x80 ∷ 6 ∷ 0 ∷ 1 ∷ 0 ∷ 0 ∷ 0 ∷ 0 ∷ []

unmarshal_binary-zero_objects_example :
    ((unmarshal_binary command empty_octets).1 ≡ none)
    × ((unmarshal_binary command empty_octets).0.variable.number ≡ 0)
unfolding get_info_obj_size identifier_size
unmarshal_binary-zero_objects_example =
    unmarshal_binary-zero_objects command empty_octets {size = 1} command_valid (omega arith) refl
      refl refl
