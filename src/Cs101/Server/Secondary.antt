-- ===== src/Cs101/Server/Secondary.antt =====
-- cs101/server.go: `handleIncomingFrame`, the secondary role of the server.
pub mod Answers
pub mod Repeated
pub mod Blocked
use go_iecp.Shared.{
  ℕ, Bool, true, false, not, ◌&&◌, ◌||◌, List, [], ◌∷◌, Option, none, some, ◌==◌, ◌!=◌, ltb,
  if◌then◌else◌,
}
use go_iecp.Cs101.Control.{ControlField}
use go_iecp.Cs101.Frame.{Frame, single_char_ack}
use go_iecp.Cs101.Frame.Decode.{get_control_field, get_link_address}
use go_iecp.Cs101.Link.{
  LinkError, differs, prim_fc_reset_link, prim_fc_reset_user, prim_fc_test_link,
  prim_fc_user_data_conf, prim_fc_user_data_no_conf, prim_fc_req_access, prim_fc_req_status,
  prim_fc_req_data1, prim_fc_req_data2, sec_fc_resp_link_ni,
}
use go_iecp.Cs101.Server.{
  Server, Outcome, done, blocked, finish, is_balanced, send_frame_to_chan, send_resp,
  fixed_response, send_link_ack, send_link_status, respond_class_data, dispatch_asdu,
}
use go_iecp.Cs101.Server.Primary.{prim_confirm, handle_peer_secondary_frame}

unfoldable pub reset_link : Server → Server × Option LinkError
reset_link s =
    let sent =
      send_link_ack (record s { link_active = false; fcb_expected = true; last_resp = none }) in
    elim sent.1 [ some e ↦ sent | none ↦ (record sent.0 { link_active = true }, none) ]

-- A repeated frame is answered as before.
unfoldable pub resend : Server → Server × Option LinkError
resend s = elim s.last_resp [ none ↦ send_link_ack s | some f ↦ send_frame_to_chan f s ]

unfoldable pub user_data_conf : ControlField → Frame → Server → Outcome
user_data_conf ctrl f s =
    if not ctrl.fcv
    then done s none
    else elim (dispatch_asdu f s) [ none ↦ blocked | some s1 ↦ finish (send_link_ack s1) ]

unfoldable pub user_data_no_conf : Frame → Server → Outcome
user_data_no_conf f s = elim (dispatch_asdu f s) [ none ↦ blocked | some s1 ↦ done s1 none ]

-- The function codes of a primary station.
unfoldable pub handle_function : ControlField → Frame → Server → Outcome
handle_function ctrl f s =
    if ctrl.fun == prim_fc_reset_link
    then finish (reset_link s)
    else if ctrl.fun == prim_fc_reset_user || ctrl.fun == prim_fc_test_link
    then finish (send_link_ack s)
    else if ctrl.fun == prim_fc_user_data_conf
    then user_data_conf ctrl f s
    else if ctrl.fun == prim_fc_user_data_no_conf
    then user_data_no_conf f s
    else if ctrl.fun == prim_fc_req_access || ctrl.fun == prim_fc_req_status
    then finish (send_link_status s)
    else if ctrl.fun == prim_fc_req_data1
    then finish (respond_class_data 1 s)
    else if ctrl.fun == prim_fc_req_data2
    then finish (respond_class_data 2 s)
    else finish (send_resp (fixed_response sec_fc_resp_link_ni false s) s)

-- A frame of a primary station, with the frame count bit checked.
unfoldable pub handle_primary : ControlField → Frame → Server → Outcome
handle_primary ctrl f s =
    if ctrl.fcv
    then if differs ctrl.fcb s.fcb_expected
      then finish (resend s)
      else handle_function ctrl f (record s { fcb_expected = not s.fcb_expected })
    else handle_function ctrl f s

unfoldable pub handle_broadcast : ControlField → Frame → Server → Outcome
handle_broadcast ctrl f s =
    if not ctrl.prm
    then done s none
    else if ctrl.fun == prim_fc_user_data_no_conf
    then user_data_no_conf f s
    else done s none

unfoldable pub is_broadcast : ℕ → ℕ → Bool
is_broadcast size addr = (size == 1 && addr == 0xff) || (size == 2 && addr == 0xffff)

unfoldable pub handle_addressed : ℕ → Frame → Server → Outcome
handle_addressed now f s =
    let ctrl = get_control_field f in
    if not ctrl.prm
    then if is_balanced s then done (handle_peer_secondary_frame now ctrl s) none else done s none
    else handle_primary ctrl f s

unfoldable pub handle_incoming_frame : ℕ → Frame → Server → Outcome
handle_incoming_frame now f s =
    if f.start == single_char_ack
    then if is_balanced s then done (prim_confirm s) none else done s none
    else if ltb 0 s.config.link_addr_size
    then if get_link_address f != s.config.link_address
        && not (is_broadcast s.config.link_addr_size (get_link_address f))
      then done s none
      else if is_broadcast s.config.link_addr_size (get_link_address f)
      then handle_broadcast (get_control_field f) f s
      else handle_addressed now f s
    else handle_addressed now f s
