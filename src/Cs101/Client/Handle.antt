-- ===== src/Cs101/Client/Handle.antt =====
-- cs101/client.go: `handleIncomingFrame`.
use go_iecp.Shared.{
  ℕ, Bool, true, false, not, ◌&&◌, ◌||◌, [], ◌∷◌, ◌++◌, Option, none, some, ◌==◌, ◌!=◌, ltb,
  if◌then◌else◌,
}
use go_iecp.Asdu.Message.{Asdu}
use go_iecp.Cs101.Control.{ControlField}
use go_iecp.Cs101.Frame.{Frame, single_char_ack, start_fixed, start_variable}
use go_iecp.Cs101.Frame.Decode.{get_control_field, get_link_address, get_asdu}
use go_iecp.Cs101.Link.{
  LinkError, differs, prim_fc_reset_link, prim_fc_reset_user, prim_fc_test_link,
  prim_fc_user_data_conf, prim_fc_user_data_no_conf, prim_fc_req_status, prim_fc_req_data1,
  sec_fc_conf_ack, sec_fc_user_data_conf, sec_fc_user_data_no_rep, sec_fc_resp_status,
  sec_fc_resp_link_nf, sec_fc_resp_link_ni,
}
use go_iecp.Cs101.Client.{
  Client, Secondary, phase_status, phase_reset, phase_active, Pending, is_active, is_balanced,
  find_sec, update_sec, update_link_active, send_sec_fixed, send_req_data,
}

-- The station after its outstanding frame is confirmed.
unfoldable pub confirm_sec : ControlField → Secondary → Secondary
confirm_sec ctrl s =
    let t = if ctrl.fcv then record s { fcb = not ctrl.fcb } else s in
    if ctrl.fun == prim_fc_reset_link
    then record t { phase = phase_active; fcb = true }
    else if ctrl.fun == prim_fc_req_status
    then record t {
      phase = elim s.phase [
        | phase_status ↦ phase_reset
        | phase_reset ↦ phase_reset
        | phase_active ↦ phase_active
      ];
    }
    else if ctrl.fun == prim_fc_req_data1
    then record t { want_class1 = false }
    else t

abbrev pub settled : Client → Client
settled c = record c { last_sent = none; retry_count = 0 }

unfoldable pub confirm_pending : Pending → Client → Client
confirm_pending p c =
    let c1 = record c { secs = update_sec (confirm_sec p.ctrl) p.addr c.secs } in
    settled (if p.ctrl.fun == prim_fc_reset_link then update_link_active c1 else c1)

-- `confirmPositive`, with `none` for the address of a single character.
unfoldable pub confirm_positive : Option ℕ → Client → Client
confirm_positive addr c = elim c.last_sent [
  | none ↦ c
  | some p ↦ elim addr [
    | none ↦ confirm_pending p c
    | some a ↦ if p.addr != a then c else confirm_pending p c
  ]
]

abbrev pub failed_sec : Secondary → Secondary
failed_sec s = record s { phase = phase_status; want_class1 = false }

unfoldable pub fail_transaction : ℕ → Client → Client
fail_transaction addr c = elim c.last_sent [
  | none ↦ c
  | some p ↦
      if p.addr != addr
      then c
      else update_link_active (settled (record c { secs = update_sec failed_sec p.addr c.secs }))
]

-- `dispatchASDU`; the handler loop makes room.
abbrev pub dispatch_asdu : Option Asdu → Client → Client
dispatch_asdu none c = c
dispatch_asdu (some a) c = record c { rcv_asdu = c.rcv_asdu ++ (a ∷ []) }

unfoldable pub handle_fixed : ControlField → ℕ → Client → Client
handle_fixed ctrl addr c =
    if (ctrl.fun == sec_fc_conf_ack || ctrl.fun == sec_fc_user_data_no_rep)
      || ctrl.fun == sec_fc_resp_status
    then confirm_positive (some addr) c
    else if ctrl.fun == sec_fc_resp_link_nf || ctrl.fun == sec_fc_resp_link_ni
    then fail_transaction addr c
    else c

unfoldable pub handle_variable : ControlField → ℕ → Frame → Client → Client
handle_variable ctrl addr f c =
    if ctrl.fun == sec_fc_user_data_conf || ctrl.fun == sec_fc_resp_status
    then dispatch_asdu (get_asdu f c.params) (confirm_positive (some addr) c)
    else if ctrl.fun == sec_fc_user_data_no_rep
    then confirm_positive (some addr) c
    else c

-- The access demand of a station that is in the table.
unfoldable pub demand_access : ControlField → ℕ → Client → Client
demand_access ctrl addr c =
    if not ctrl.acd || is_balanced c then c else elim (find_sec c.secs addr) [
      | none ↦ c
      | some sec ↦
          let c1 = record c {
            secs = update_sec (λ (s : Secondary). record s { want_class1 = true }) addr c.secs;
          } in
          elim c.last_sent [
            | some p ↦ c1
            | none ↦ if is_active sec.phase then send_req_data sec prim_fc_req_data1 c1 else c1
          ]
    ]

-- A response of a secondary station.
unfoldable pub handle_secondary : ControlField → ℕ → Frame → Client → Client
handle_secondary ctrl addr f c =
    let c1 = record c {
      secs = update_sec (λ (s : Secondary). record s { dfc = ctrl.dfc }) addr c.secs;
    } in
    demand_access ctrl addr (
      if f.start == start_fixed
      then handle_fixed ctrl addr c1
      else if f.start == start_variable
      then handle_variable ctrl addr f c1
      else c1)

-- The function codes of the peer's primary role.
unfoldable pub handle_peer_function : ControlField → ℕ → Frame → Client → Client × Option LinkError
handle_peer_function ctrl addr f c =
    if ctrl.fun == prim_fc_reset_link
    then send_sec_fixed sec_fc_conf_ack addr (record c { fcb_expected = true })
    else if ctrl.fun == prim_fc_reset_user || ctrl.fun == prim_fc_test_link
    then send_sec_fixed sec_fc_conf_ack addr c
    else if ctrl.fun == prim_fc_user_data_conf
    then send_sec_fixed sec_fc_conf_ack addr (dispatch_asdu (get_asdu f c.params) c)
    else if ctrl.fun == prim_fc_user_data_no_conf
    then (dispatch_asdu (get_asdu f c.params) c, none)
    else if ctrl.fun == prim_fc_req_status
    then send_sec_fixed sec_fc_resp_status addr c
    else send_sec_fixed sec_fc_resp_link_ni addr c

unfoldable pub handle_peer_primary_frame :
    ControlField → ℕ → Frame → Client → Client × Option LinkError
handle_peer_primary_frame ctrl addr f c =
    if ctrl.fcv
    then if differs ctrl.fcb c.fcb_expected
      then send_sec_fixed sec_fc_conf_ack addr c
      else handle_peer_function ctrl addr f (record c { fcb_expected = not c.fcb_expected })
    else handle_peer_function ctrl addr f c

abbrev is_none {ℓ} : {A : Type ℓ} → Option A → Bool
is_none none = true
is_none (some a) = false

unfoldable pub handle_incoming_frame : Frame → Client → Client × Option LinkError
handle_incoming_frame f c =
    if f.start == single_char_ack
    then (confirm_positive none c, none)
    else if ltb 0 c.config.link_addr_size && is_none (find_sec c.secs (get_link_address f))
    then (c, none)
    else if (get_control_field f).prm
    then if not (is_balanced c)
      then (c, none)
      else handle_peer_primary_frame (get_control_field f) (get_link_address f) f c
    else (handle_secondary (get_control_field f) (get_link_address f) f c, none)
