-- ===== src/Cs101/Server.antt =====
-- cs101/server.go: the `Server`, which is the secondary station of a link, and on a balanced link a
-- primary one too. A channel is the list of what it holds; the loops that only move frames
-- between channels and the port are not part of the state.
pub mod Primary
pub mod Secondary
pub mod Handler
use go_iecp.Shared.{
  ℕ, ◌+◌, Bool, true, false, not, ◌&&◌, ◌||◌, bit_and, bit_or, List, [], ◌∷◌, ◌++◌, Option, none,
  some, ◌==◌, ltb, leb, if◌then◌else◌, length,
}
use go_iecp.Asdu.Error.{Error, ok, err}
use go_iecp.Asdu.Identifier.{set_flag}
use go_iecp.Asdu.Message.{Params, Asdu, Identifier, new_asdu}
use go_iecp.Asdu.Marshal.{marshal_binary, unmarshal_binary}
use go_iecp.Cs101.Control.{ControlField, parse_control_field, ctrl_acd, ctrl_func_mask}
use go_iecp.Cs101.Frame.{Frame, new_fixed_frame, new_data_frame}
use go_iecp.Cs101.Frame.Decode.{empty_identifier}
use go_iecp.Cs101.Config.{Config, mode_balanced}
use go_iecp.Cs101.Link.{
  LinkError, use_closed_connection, buffer_fulled, send_queue_full, sec_fc_conf_ack,
  sec_fc_conf_nack, sec_fc_resp_status, sec_fc_user_data_conf, sec_fc_user_data_no_rep,
  send_frame_cap, encode_link_addr, at_limit,
}

-- `handlerASDUPayload`
pub record HandlerAsduPayload : Type 0 where
  pub identifier : Identifier
  pub raw_data : List ℕ

pub record Server : Type 0 where
  pub config : Config
  pub params : Params
  pub connected : Bool
  pub send_frame : List Frame
  pub handler_payload : List HandlerAsduPayload
  pub link_active : Bool
  pub fcb_expected : Bool
  pub last_resp : Option Frame
  pub class1 : List Asdu
  pub class2 : List Asdu
  pub prim_queue : List Asdu
  pub prim_out : Option Frame
  pub prim_out_ctrl : ControlField
  pub prim_fcb : Bool
  pub prim_active : Bool
  pub prim_retry : ℕ
  pub prim_deadline : ℕ
  pub prim_next_init : ℕ

-- A handled frame with the error that is returned, or a handler that waits for room among the
-- payloads: only the loop that runs it would make any.
pub data Outcome : Type 0 where
  done : Server → Option LinkError → Outcome
  blocked : Outcome

abbrev pub finish : Server × Option LinkError → Outcome
finish (s, e) = done s e

unfoldable pub is_balanced : Server → Bool
is_balanced s = s.config.mode == mode_balanced

unfoldable pub build_link_address : Server → List ℕ
build_link_address s = encode_link_addr s.config.link_addr_size s.config.link_address

unfoldable pub sec_control : ℕ → Bool → ℕ
sec_control fun acd = set_flag acd ctrl_acd (bit_and fun ctrl_func_mask)

unfoldable pub class1_pending : Server → Bool
class1_pending s = ltb 0 (length s.class1)

-- What `popClassData` takes from the first queue or, when it is empty, from the second, and the
-- two queues after it.
unfoldable pub pop_first : List Asdu → List Asdu → Option Asdu × List Asdu × List Asdu
pop_first (a ∷ rest) second = (some a, rest, second)
pop_first [] (a ∷ rest) = (some a, [], rest)
pop_first [] [] = (none, [], [])

unfoldable pub pop_class_data : ℕ → Server → Option Asdu × Server
unfolding pop_first
pop_class_data class s =
    if class == 2
    then (let p = pop_first s.class2 s.class1 in (p.0, record s { class2 = p.1; class1 = p.2 }))
    else (let p = pop_first s.class1 s.class2 in (p.0, record s { class1 = p.1; class2 = p.2 }))

unfoldable pub send_frame_to_chan : Frame → Server → Server × Option LinkError
send_frame_to_chan f s =
    if not s.connected
    then (s, some use_closed_connection)
    else if leb send_frame_cap (length s.send_frame)
    then (s, some buffer_fulled)
    else (record s { send_frame = s.send_frame ++ (f ∷ []) }, none)

unfoldable pub send_resp : Frame → Server → Server × Option LinkError
send_resp f s = send_frame_to_chan f (record s { last_resp = some f })

abbrev pub fixed_response : ℕ → Bool → Server → Frame
fixed_response fun acd s = new_fixed_frame (sec_control fun acd) (build_link_address s)

unfoldable pub send_link_ack : Server → Server × Option LinkError
send_link_ack s = send_resp (fixed_response sec_fc_conf_ack (class1_pending s) s) s

unfoldable pub send_link_nack : Server → Server × Option LinkError
send_link_nack s = send_resp (fixed_response sec_fc_conf_nack false s) s

unfoldable pub send_link_status : Server → Server × Option LinkError
send_link_status s = send_resp (fixed_response sec_fc_resp_status (class1_pending s) s) s

-- The response to a poll, with the server that the ASDU was taken from.
pub class_response : Option Asdu → Server → Frame
class_response none s = fixed_response sec_fc_user_data_no_rep false s
class_response (some a) s = elim (marshal_binary a) [
  | ok octets ↦
      new_data_frame (sec_control sec_fc_user_data_conf (class1_pending s)) (build_link_address s)
        octets
  | err e ↦ fixed_response sec_fc_user_data_no_rep (class1_pending s) s
]

unfoldable pub respond_class_data : ℕ → Server → Server × Option LinkError
unfolding class_response
respond_class_data class s =
    let popped = pop_class_data class s in send_resp (class_response popped.0 popped.1) popped.1

abbrev periodic : ℕ
periodic = 1

abbrev background : ℕ
background = 2

-- The capacity of the channel of payloads.
abbrev pub handler_payload_cap : ℕ
handler_payload_cap = 50

unfoldable pub dispatch_decoded : Asdu × Option Error → Frame → Server → Option Server
dispatch_decoded (a, some e) f s = some s
dispatch_decoded (a, none) f s =
    if leb handler_payload_cap (length s.handler_payload)
    then none
    else some (record s {
      handler_payload =
          s.handler_payload ++ (record { identifier = a.identifier; raw_data = f.asdu } ∷ []);
    })

-- `dispatchASDU`, or `none` where it waits for room.
unfoldable pub dispatch_asdu : Frame → Server → Option Server
unfolding dispatch_decoded
dispatch_asdu f s =
    dispatch_decoded (unmarshal_binary (new_asdu s.params empty_identifier) f.asdu) f s

-- `Send`
unfoldable pub send : Asdu → Server → Server × Option LinkError
send a s =
    if not s.connected
    then (s, some use_closed_connection)
    else if is_balanced s
    then if at_limit (length s.prim_queue) s.config.max_send_queue_size
      then (s, some send_queue_full)
      else (record s { prim_queue = s.prim_queue ++ (a ∷ []) }, none)
    else if a.coa.cause == periodic || a.coa.cause == background
    then if at_limit (length s.class2) s.config.max_send_queue_size
      then (s, some send_queue_full)
      else (record s { class2 = s.class2 ++ (a ∷ []) }, none)
    else if at_limit (length s.class1) s.config.max_send_queue_size
    then (s, some send_queue_full)
    else (record s { class1 = s.class1 ++ (a ∷ []) }, none)

-- The state that `serveConn` begins a connection with.
unfoldable pub serve_conn : ℕ → Server → Server
serve_conn now s = record s {
  connected = true;
  send_frame = [];
  handler_payload = [];
  link_active = false;
  fcb_expected = true;
  last_resp = none;
  prim_out = none;
  prim_active = false;
  prim_retry = 0;
  prim_next_init = now;
}
