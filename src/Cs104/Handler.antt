-- ===== src/Cs104/Handler.antt =====
-- cs104/server_session.go: `serverHandler`, `handlerLoop` and `Send`. The application's handler is
-- an argument where the session looks at its answer: whether ASDUHandler returns an error. Its
-- other methods are called with the values that an action names; ASDUHandlerAll is called before
-- every action.
pub mod Replies
use go_iecp.Shared.{
  ℕ, ◌+◌, Bool, true, false, not, ◌||◌, List, [], ◌∷◌, ◌++◌, Option, none, some, ◌==◌, ◌!=◌, ltb,
  if◌then◌else◌, length,
}
use go_iecp.Asdu.Error.{Error, ok, err}
use go_iecp.Asdu.TypeId.{
  c_ic_na_1, c_ci_na_1, c_rd_na_1, c_cs_na_1, c_ts_na_1, c_rp_na_1, c_cd_na_1,
}
use go_iecp.Asdu.Identifier.{invalid_common_addr}
use go_iecp.Asdu.Message.{Params, Asdu, reply_mirror}
use go_iecp.Asdu.Marshal.{marshal_binary, unmarshal_binary}
use go_iecp.Asdu.Information.{QualifierCountCall}
use go_iecp.Asdu.System.{
  spontaneous, request, activation, activation_con, deactivation, unknown_type_id, unknown_cot,
  unknown_ca, unknown_ioa, get_interrogation_cmd, get_counter_interrogation_cmd, get_read_cmd,
  get_clock_synchronization_cmd, get_test_command, get_reset_process_cmd, get_delay_acquire_command,
}

pub data Action : Type 0 where
  -- The ASDU that is sent back.
  replies : Asdu → Action
  interrogation_handler : ℕ → Action
  counter_interrogation_handler : QualifierCountCall → Action
  read_handler : ℕ → Action
  clock_sync_handler : List ℕ → Action
  reset_process_handler : ℕ → Action
  delay_acquisition_handler : ℕ → Action
  -- ASDUHandler took the ASDU.
  handled : Action
  -- A panic, which `serverHandler` recovers from and logs.
  panicked : Action

-- The checks of the cause and the common address that open a command's case.
checked : Bool → Asdu → Action → Action
checked cause_allowed a action =
    if not cause_allowed
    then replies (reply_mirror a unknown_cot)
    else if a.common_addr == invalid_common_addr
    then replies (reply_mirror a unknown_ca)
    else action

-- The check of the information object address.
at_irrelevant {ℓ} : {A : Type ℓ} → Asdu → Option (ℕ × A) → (A → Action) → Action
at_irrelevant a none action = panicked
at_irrelevant a (some (ioa, v)) action =
    if ioa != 0 then replies (reply_mirror a unknown_ioa) else action v

read_action : Option ℕ → Action
read_action none = panicked
read_action (some ioa) = read_handler ioa

-- ASDUHandler, which returns an error or not.
default_action : (Asdu → Bool) → Asdu → Action
default_action fails a = if fails a then replies (reply_mirror a unknown_type_id) else handled

unfoldable pub server_handler : (Asdu → Bool) → Asdu → Action
unfolding checked at_irrelevant read_action default_action
server_handler fails a =
    if a.type_id == c_ic_na_1
    then checked (a.coa.cause == activation || a.coa.cause == deactivation) a
        (at_irrelevant a (get_interrogation_cmd a) interrogation_handler)
    else if a.type_id == c_ci_na_1
    then checked (a.coa.cause == activation) a
        (at_irrelevant a (get_counter_interrogation_cmd a) counter_interrogation_handler)
    else if a.type_id == c_rd_na_1
    then checked (a.coa.cause == request) a (read_action (get_read_cmd a))
    else if a.type_id == c_cs_na_1
    then checked (a.coa.cause == activation) a
        (at_irrelevant a (get_clock_synchronization_cmd a) clock_sync_handler)
    else if a.type_id == c_ts_na_1
    then checked (a.coa.cause == activation) a
        (at_irrelevant a (get_test_command a) (λ _. replies (reply_mirror a activation_con)))
    else if a.type_id == c_rp_na_1
    then checked (a.coa.cause == activation) a
        (at_irrelevant a (get_reset_process_cmd a) reset_process_handler)
    else if a.type_id == c_cd_na_1
    then checked (a.coa.cause == activation || a.coa.cause == spontaneous) a
        (at_irrelevant a (get_delay_acquire_command a) delay_acquisition_handler)
    else default_action fails a

pub data SendError : Type 0 where
  use_closed_connection buffer_fulled : SendError
  refused : Error → SendError

-- `Send`: the connection's state, the buffer of `sendASDU` and its capacity.
pub send : Bool → ℕ → List (List ℕ) → Asdu → List (List ℕ) × Option SendError
send is_connected capacity send_asdu u =
    if not is_connected then (send_asdu, some use_closed_connection) else elim (marshal_binary u) [
      | err e ↦ (send_asdu, some (refused e))
      | ok data' ↦
          if ltb (length send_asdu) capacity
          then (send_asdu ++ (data' ∷ []), none)
          else (send_asdu, some buffer_fulled)
    ]
