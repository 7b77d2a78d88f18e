-- ===== src/Cs101/Client.antt =====
-- cs101/client.go: the `Client`, which is the primary station of a link, and on a balanced link a
-- secondary one too. The table of the stations is a list in the order of `secOrder`; a timer is the
-- duration that it was last set to, or none when it is stopped.
pub mod Handle
pub mod Queue
pub mod Run
pub mod Commands
use go_iecp.Shared.{
  ℕ, ◌+◌, Bool, true, false, not, ◌&&◌, ◌||◌, bit_and, bit_or, List, [], ◌∷◌, ◌++◌, Option, none,
  some, ◌==◌, ltb, leb, if◌then◌else◌, length, get_elem?,
}
use go_iecp.Asdu.Identifier.{set_flag}
use go_iecp.Asdu.Message.{Params, Asdu}
use go_iecp.Cs101.Control.{
  ControlField, parse_control_field, ctrl_dir, ctrl_prm, ctrl_fcb, ctrl_fcv, ctrl_func_mask,
}
use go_iecp.Cs101.Frame.{Frame, new_fixed_frame, is_broadcast_addr}
use go_iecp.Cs101.Config.{Config, mode_balanced}
use go_iecp.Cs101.Link.{
  LinkError, use_closed_connection, buffer_fulled, prim_fc_reset_link, prim_fc_req_status,
  prim_fc_test_link, send_frame_cap, encode_link_addr,
}

-- `secondaryPhase`
pub data Phase : Type 0 where
  phase_status phase_reset phase_active : Phase

abbrev pub is_active : Phase → Bool
is_active phase_active = true
is_active phase_status = false
is_active phase_reset = false

-- `secondaryState`
pub record Secondary : Type 0 where
  pub addr : ℕ
  pub phase : Phase
  pub fcb : Bool
  pub want_class1 : Bool
  pub dfc : Bool

-- `outgoingASDU`
pub record Outgoing : Type 0 where
  pub asdu : Asdu
  pub addr : ℕ

-- `pendingSend`
pub record Pending : Type 0 where
  pub frame : Frame
  pub ctrl : ControlField
  pub addr : ℕ

pub record Client : Type 0 where
  pub config : Config
  pub params : Params
  pub secondary_addrs : List ℕ
  pub connected : Bool
  pub send_frame : List Frame
  pub rcv_asdu : List Asdu
  pub send_queue : List Outgoing
  pub secs : List Secondary
  pub poll_idx : ℕ
  pub last_sent : Option Pending
  pub retry_count : ℕ
  pub fcb_expected : Bool
  pub t1_timer : Option ℕ
  pub link_active : Bool

unfoldable pub is_balanced : Client → Bool
is_balanced c = c.config.mode == mode_balanced

-- The map from addresses to stations, and a change of one of them.
unfoldable pub find_sec : List Secondary → ℕ → Option Secondary
find_sec [] addr = none
find_sec (s ∷ rest) addr = if s.addr == addr then some s else find_sec rest addr

unfoldable pub update_sec : (Secondary → Secondary) → ℕ → List Secondary → List Secondary
update_sec f addr [] = []
update_sec f addr (s ∷ rest) = if s.addr == addr then f s ∷ rest else s ∷ update_sec f addr rest

abbrev new_secondary : ℕ → Secondary
new_secondary addr = record {
  addr = addr;
  phase = phase_status;
  fcb = false;
  want_class1 = false;
  dfc = false;
}

abbrev is_some {ℓ} : {A : Type ℓ} → Option A → Bool
is_some none = false
is_some (some a) = true

-- The stations of `initSecondaries`, added in order to those that are there.
unfoldable pub add_secondaries : ℕ → List ℕ → List Secondary → List Secondary
add_secondaries size [] secs = secs
add_secondaries size (a ∷ rest) secs = add_secondaries size rest (
    if is_some (find_sec secs a) || is_broadcast_addr a size
    then secs
    else secs ++ (new_secondary a ∷ []))

abbrev is_empty {ℓ} : {A : Type ℓ} → List A → Bool
is_empty [] = true
is_empty (x ∷ xs) = false

unfoldable pub init_secondaries : Client → Client
init_secondaries c = record c {
  secs =
      add_secondaries c.config.link_addr_size
        (if is_empty c.secondary_addrs || is_balanced c
          then c.config.link_address ∷ []
          else c.secondary_addrs)
        [];
  poll_idx = 0;
}

abbrev head_or : List ℕ → ℕ → ℕ
head_or [] d = d
head_or (a ∷ rest) d = a

unfoldable pub default_addr : Client → ℕ
default_addr c =
    if is_balanced c then c.config.link_address else head_or c.secondary_addrs c.config.link_address

unfoldable pub any_active : List Secondary → Bool
any_active [] = false
any_active (s ∷ rest) = is_active s.phase || any_active rest

unfoldable pub update_link_active : Client → Client
update_link_active c = record c { link_active = any_active c.secs }

unfoldable pub first_active_secondary : List Secondary → Option Secondary
first_active_secondary [] = none
first_active_secondary (s ∷ rest) =
    if is_active s.phase then some s else first_active_secondary rest

unfoldable pub prim_control : Client → ℕ → Bool → Bool → ℕ
prim_control c fun fcv fcb =
    let control =
      set_flag (is_balanced c) ctrl_dir (bit_or ctrl_prm (bit_and fun ctrl_func_mask)) in
    if fcv then set_flag fcb ctrl_fcb (bit_or control ctrl_fcv) else control

unfoldable pub send_frame_to_chan : Frame → Client → Client × Option LinkError
send_frame_to_chan f c =
    if not c.connected
    then (c, some use_closed_connection)
    else if leb send_frame_cap (length c.send_frame)
    then (c, some buffer_fulled)
    else (record c { send_frame = c.send_frame ++ (f ∷ []) }, none)

-- A frame that waits for its confirmation, sent and noted.
unfoldable pub send_confirmed : Frame → ℕ → ℕ → Client → Client × Option LinkError
send_confirmed f control addr c =
    let sent = send_frame_to_chan f c in
    elim sent.1 [
      | some e ↦ sent
      | none ↦ (
        record sent.0 {
          last_sent = some (record { frame = f; ctrl = parse_control_field control; addr = addr });
          retry_count = 0;
          t1_timer = some c.config.timeout_response_t1;
        },
        none,
      )
    ]

unfoldable pub send_prim_confirmed : Secondary → ℕ → Bool → Client → Client × Option LinkError
send_prim_confirmed sec fun fcv c =
    let control = prim_control c fun fcv sec.fcb in
    send_confirmed (new_fixed_frame control (encode_link_addr c.config.link_addr_size sec.addr))
      control sec.addr c

unfoldable pub send_sec_fixed : ℕ → ℕ → Client → Client × Option LinkError
send_sec_fixed fun addr c =
    send_frame_to_chan
      (new_fixed_frame (set_flag (is_balanced c) ctrl_dir (bit_and fun ctrl_func_mask))
        (encode_link_addr c.config.link_addr_size addr))
      c

unfoldable pub send_reset_link : Secondary → Client → Client
send_reset_link sec c =
    (send_prim_confirmed sec prim_fc_reset_link false (
      update_link_active (record c {
        secs = update_sec (λ (s : Secondary). record s { phase = phase_reset }) sec.addr c.secs;
      }))).0

unfoldable pub send_request_link_status : Secondary → Client → Client
send_request_link_status sec c = (send_prim_confirmed sec prim_fc_req_status false c).0

unfoldable pub send_test_link : Secondary → Client → Client
send_test_link sec c = (send_prim_confirmed sec prim_fc_test_link true c).0

unfoldable pub send_req_data : Secondary → ℕ → Client → Client
send_req_data sec fun c = (send_prim_confirmed sec fun true c).0
