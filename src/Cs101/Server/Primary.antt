-- ===== src/Cs101/Server/Primary.antt =====
-- cs101/server.go: the primary role of the server on a balanced link.
use go_iecp.Shared.{
  ℕ, ◌+◌, ◌*◌, Bool, true, false, not, bit_and, bit_or, List, [], ◌∷◌, none, some, ◌==◌, ltb,
  if◌then◌else◌, ◌||◌,
}
use go_iecp.Asdu.Error.{ok, err}
use go_iecp.Asdu.Identifier.{set_flag}
use go_iecp.Asdu.Message.{Asdu}
use go_iecp.Asdu.Marshal.{marshal_binary}
use go_iecp.Cs101.Control.{ControlField, ctrl_prm, ctrl_fcb, ctrl_fcv, ctrl_func_mask}
use go_iecp.Cs101.Frame.{Frame, new_fixed_frame, new_data_frame}
use go_iecp.Cs101.Frame.Decode.{get_control_field}
use go_iecp.Cs101.Link.{
  prim_fc_reset_link, prim_fc_user_data_conf, sec_fc_conf_ack, sec_fc_conf_nack, sec_fc_resp_status,
  sec_fc_resp_link_nf, sec_fc_resp_link_ni,
}
use go_iecp.Cs101.Server.{Server, build_link_address, send_frame_to_chan}

unfoldable pub prim_control : ℕ → Bool → Bool → ℕ
prim_control fun fcv fcb =
    let control = bit_or ctrl_prm (bit_and fun ctrl_func_mask) in
    if fcv then set_flag fcb ctrl_fcb (bit_or control ctrl_fcv) else control

-- `primSendConfirmed` at the time `now`.
unfoldable pub prim_send_confirmed : ℕ → Frame → Server → Server
prim_send_confirmed now f s =
    let sent = send_frame_to_chan f s in
    elim sent.1 [
      | some e ↦ sent.0
      | none ↦ record sent.0 {
        prim_out = some f;
        prim_out_ctrl = get_control_field f;
        prim_retry = 0;
        prim_deadline = now + s.config.timeout_response_t1;
      }
    ]

-- `primConfirm(true)`, the only way it is called.
unfoldable pub prim_confirm : Server → Server
prim_confirm s = elim s.prim_out [
  | none ↦ s
  | some p ↦
      let reset = s.prim_out_ctrl.fun == prim_fc_reset_link in
      record s {
        prim_fcb =
            if reset
            then true
            else if s.prim_out_ctrl.fcv
            then not s.prim_out_ctrl.fcb
            else s.prim_fcb;
        prim_active = reset || s.prim_active;
        prim_out = none;
        prim_retry = 0;
      }
]

unfoldable pub handle_peer_secondary_frame : ℕ → ControlField → Server → Server
handle_peer_secondary_frame now ctrl s =
    if ctrl.fun == sec_fc_conf_ack
    then prim_confirm s
    else if ctrl.fun == sec_fc_conf_nack
    then s
    else if ctrl.fun == sec_fc_resp_status
    then prim_confirm s
    else if ctrl.fun == sec_fc_resp_link_nf || ctrl.fun == sec_fc_resp_link_ni
    then record s {
      prim_out = none;
      prim_retry = 0;
      prim_active = false;
      prim_next_init = now + s.config.timeout_response_t1;
    }
    else s

-- What `primTick` does about an outstanding frame.
unfoldable pub prim_overdue : ℕ → Frame → Server → Server
prim_overdue now p s =
    if not (ltb s.prim_deadline now)
    then s
    else if ltb s.prim_retry 1
    then record (send_frame_to_chan p (record s { prim_retry = s.prim_retry + 1 })).0 {
      prim_deadline = now + s.config.timeout_repeat_t2;
    }
    else record s {
      prim_out = none;
      prim_retry = 0;
      prim_active = false;
      prim_next_init = now + s.config.timeout_response_t1;
    }

unfoldable pub prim_init : ℕ → Server → Server
prim_init now s =
    if ltb s.prim_next_init now
    then prim_send_confirmed now
        (new_fixed_frame (prim_control prim_fc_reset_link false false) (build_link_address s))
        (record s { prim_next_init = now + 2 * s.config.timeout_response_t1 })
    else s

unfoldable pub prim_send_next : ℕ → List Asdu → Server → Server
prim_send_next now [] s = s
prim_send_next now (next ∷ rest) s = elim (marshal_binary next) [
  | err e ↦ record s { prim_queue = rest }
  | ok octets ↦
      prim_send_confirmed now
        (new_data_frame (prim_control prim_fc_user_data_conf true s.prim_fcb) (build_link_address s)
          octets)
        (record s { prim_queue = rest })
]

unfoldable pub prim_tick : ℕ → Server → Server
prim_tick now s = elim s.prim_out [
  | some p ↦ prim_overdue now p s
  | none ↦ if not s.prim_active then prim_init now s else prim_send_next now s.prim_queue s
]
