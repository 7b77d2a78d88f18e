-- ===== src/Cs101/Exchange/Delivery.antt =====
-- A transaction of user data between cs101/client.go and cs101/server.go.
use go_iecp.Shared.{
  ℕ, ◌<◌, ◌≡◌, refl, ap, ◌∙◌, sym, Bool, true, false, not, List, [], ◌∷◌, ◌++◌, Option, none, some,
  arith, append_nil, length,
}
use go_iecp.Asdu.Error.{Error, ok}
use go_iecp.Asdu.Message.{Asdu, Params, new_asdu}
use go_iecp.Asdu.Marshal.{marshal_binary, unmarshal_binary}
use go_iecp.Cs101.Control.{parse_control_field, ControlField}
use go_iecp.Cs101.Frame.{Frame, new_data_frame, new_fixed_frame, is_broadcast_addr}
use go_iecp.Cs101.Frame.Decode.{get_control_field, empty_identifier}
use go_iecp.Cs101.Link.{encode_link_addr, prim_fc_user_data_conf, sec_fc_conf_ack}
use go_iecp.Cs101.Server.{
  Server, sec_control, HandlerAsduPayload, build_link_address, fixed_response, class1_pending,
  dispatch_asdu, dispatch_decoded, send_link_ack, send_resp, send_frame_to_chan, done,
  handler_payload_cap,
}
use go_iecp.Cs101.Server.Secondary.{is_broadcast, handle_function, user_data_conf}
use go_iecp.Cs101.Server.Secondary.Answers.{IsFree, settling}
use go_iecp.Cs101.Server.Secondary.Repeated.{serve, serve-done, serve-handle_function}
use go_iecp.Cs101.Client.{
  Client, Secondary, Outgoing, Pending, phase_active, find_sec, update_sec, prim_control,
  send_confirmed,
}
use go_iecp.Cs101.Client
use go_iecp.Cs101.Client.Queue.{send_asdu, confirmed_asdu}
use go_iecp.Cs101.Exchange.{taken}
use go_iecp.Cs101.Client.Handle.{
  confirm_sec, handle_fixed, confirm_positive, confirm_pending, demand_access,
}
use go_iecp.Cs101.Client.Run.{receive, stop_if_free}
use go_iecp.Cs101.Exchange.Settling.{AddrFits, Reaches, receive_lem, get_link_address-encode}
use go_iecp.Cs101.Exchange.Lossless.{IsOutstanding}

-- The client is idle, the server is its active station `sec`, and their count bits agree.
pub record IsReady (sec : Secondary) (c : Client) (s : Server) : Type 0 where
  pub idle : c.last_sent ≡ none
  pub line_free : c.send_frame ≡ []
  pub connected : c.connected ≡ true
  pub station : find_sec c.secs sec.addr ≡ some sec
  pub active : sec.phase ≡ phase_active
  pub for_server : sec.addr ≡ s.config.link_address
  pub same_size : c.config.link_addr_size ≡ s.config.link_addr_size
  pub fits : AddrFits s.config.link_addr_size sec.addr
  pub not_broadcast : is_broadcast s.config.link_addr_size sec.addr ≡ false
  pub free : IsFree s
  pub agree : sec.fcb ≡ s.fcb_expected

is_broadcast-is_broadcast_addr :
    (size addr : ℕ) → is_broadcast_addr addr size ≡ is_broadcast size addr
unfolding is_broadcast_addr is_broadcast
is_broadcast-is_broadcast_addr size addr = ground arith

-- The frame of user data, as the client notes it.
abbrev pub user_data : Secondary → Client → List ℕ → Pending
user_data sec c octets =
    let control = prim_control c prim_fc_user_data_conf true sec.fcb in
    record {
      frame = new_data_frame control (encode_link_addr c.config.link_addr_size sec.addr) octets;
      ctrl = parse_control_field control;
      addr = sec.addr;
    }

-- The client that has put it on the line.
abbrev pub sending : Secondary → Client → List ℕ → Client
sending sec c octets = record c {
  send_frame = (user_data sec c octets).frame ∷ [];
  last_sent = some (user_data sec c octets);
  retry_count = 0;
  t1_timer = some c.config.timeout_response_t1;
}

pub send_asdu-sending :
    (sec : Secondary) (c : Client) (s : Server) (a : Asdu) (octets : List ℕ)
    → IsReady sec c s
    → marshal_binary a ≡ ok octets
    → send_asdu (record { asdu = a; addr = sec.addr }) c ≡ (sending sec c octets, none)
unfolding send_asdu confirmed_asdu send_confirmed Client.send_frame_to_chan
send_asdu-sending sec c s a octets w m =
    ground (arith, w, m, is_broadcast-is_broadcast_addr c.config.link_addr_size sec.addr)

pub control_fields :
    (c : Client) (fcb : Bool)
    → let ctrl = parse_control_field (prim_control c prim_fc_user_data_conf true fcb) in
      (ctrl.prm ≡ true) × (ctrl.fcv ≡ true) × (ctrl.fcb ≡ fcb) × (ctrl.fun ≡ prim_fc_user_data_conf)
unfolding parse_control_field prim_control
control_fields c true = ground arith
control_fields c false = ground arith

pub sending-IsOutstanding :
    (sec : Secondary) (c : Client) (s : Server) (octets : List ℕ)
    → IsReady sec c s
    → IsOutstanding (user_data sec c octets) (sending sec c octets) s
unfolding new_data_frame get_control_field
sending-IsOutstanding sec c s octets w =
    let (prm, fcv, fcb, fun) = control_fields c sec.fcb in
    record {
      waiting = refl;
      first_try = refl;
      on_line = refl;
      connected = w.connected;
      known = ground (arith, w.station);
      for_server = w.for_server;
      fits = w.fits;
      free = w.free;
      expected = record {
        framed = ground arith;
        addressed =
            get_link_address-encode c.config.link_addr_size sec.addr _ (ground (arith, w)) refl
            ∙ w.for_server;
        not_broadcast = ground (arith, w.not_broadcast, w.for_server);
        is_counted = record {
          primary = prm;
          counted = fcv;
          not_reset = ground (arith, fun);
          answered = ground (arith, fun);
        };
        fcb = fcb ∙ w.agree;
      };
    }

-- What the server hands to its handler: the octets, when it reads an ASDU from them.
abbrev pub payloads_of : Asdu × Option Error → List ℕ → List HandlerAsduPayload
payloads_of (a, none) octets = record { identifier = a.identifier; raw_data = octets } ∷ []
payloads_of (a, some e) octets = []

abbrev pub handed : Params → List ℕ → List HandlerAsduPayload
handed p octets = payloads_of (unmarshal_binary (new_asdu p empty_identifier) octets) octets

-- The server after the user data, and its acknowledgement.
abbrev pub delivered : Server → List HandlerAsduPayload → Server
delivered s payloads = record s {
  fcb_expected = not s.fcb_expected;
  handler_payload = s.handler_payload ++ payloads;
  last_resp = some (fixed_response sec_fc_conf_ack (class1_pending s) s);
}

dispatch_decoded-payloads :
    (d : Asdu × Option Error) (f : Frame) (s : Server)
    → length s.handler_payload < handler_payload_cap
    → dispatch_decoded d f s
      ≡ some (record s { handler_payload = s.handler_payload ++ payloads_of d f.asdu })
unfolding dispatch_decoded
dispatch_decoded-payloads (a, none) f s room = ground (arith, room)
dispatch_decoded-payloads (a, some e) f s room =
    ap (λ (l : List HandlerAsduPayload). some (record s { handler_payload = l }))
      (sym (append_nil s.handler_payload))

user_data_conf-delivered :
    (ctrl : ControlField) (f : Frame) (s : Server)
    → ctrl.fcv ≡ true
    → ctrl.fun ≡ prim_fc_user_data_conf
    → IsFree s
    → length s.handler_payload < handler_payload_cap
    → handle_function ctrl f (record s { fcb_expected = not s.fcb_expected })
      ≡ done
          (record (delivered s (handed s.params f.asdu)) {
            send_frame = fixed_response sec_fc_conf_ack (class1_pending s) s ∷ [];
          })
          none
unfolding handle_function user_data_conf dispatch_asdu send_link_ack send_resp send_frame_to_chan
    class1_pending build_link_address
user_data_conf-delivered ctrl f s fcv fun w room =
    let t : Server = record s { fcb_expected = not s.fcb_expected } in
    let d = unmarshal_binary (new_asdu s.params empty_identifier) f.asdu in
    ground (arith, fcv, fun, w, dispatch_decoded-payloads d f t room)

pub serve-delivered :
    (now : ℕ) (sec : Secondary) (c : Client) (s : Server) (octets : List ℕ)
    → IsReady sec c s
    → length s.handler_payload < handler_payload_cap
    → serve now (user_data sec c octets).frame s
      ≡ some (
        record (delivered s (handed s.params octets)) { send_frame = [] },
        fixed_response sec_fc_conf_ack (class1_pending s) s ∷ [],
      )
unfolding new_data_frame get_control_field
serve-delivered now sec c s octets w room =
    let p = user_data sec c octets in
    let (prm, fcv, fcb, fun) = control_fields c sec.fcb in
    serve-done now p.frame s _ none (
      serve-handle_function now p.frame s (sending-IsOutstanding sec c s octets w).expected
      ∙ user_data_conf-delivered p.ctrl p.frame s fcv fun w.free room)

pub find_sec-update_sec :
    (f : Secondary → Secondary) (addr : ℕ) (secs : List Secondary) (sec : Secondary)
    → find_sec secs addr ≡ some sec
    → (f sec).addr ≡ sec.addr
    → find_sec (update_sec f addr secs) addr ≡ some (f sec)
unfolding find_sec update_sec
find_sec-update_sec f addr [] sec h k = ground (arith, h)
find_sec-update_sec f addr (x ∷ rest) sec h k =
    ground (arith, h, k, find_sec-update_sec f addr rest sec)

-- The station after its acknowledgement.
abbrev pub next : Secondary → Secondary
next sec = record sec { fcb = not sec.fcb; dfc = false }

-- The client after it.
abbrev pub acknowledged : Secondary → Client → List ℕ → Client
acknowledged sec c octets =
    let p = user_data sec c octets in
    record c {
      send_frame = [];
      last_sent = none;
      retry_count = 0;
      t1_timer = none;
      secs =
          update_sec (confirm_sec p.ctrl) sec.addr
            (update_sec (λ (x : Secondary). record x { dfc = false }) sec.addr c.secs);
    }

ack-Reaches :
    (sec : Secondary) (c : Client) (s : Server) (octets : List ℕ)
    → IsReady sec c s
    → Reaches
        (user_data sec c octets)
        (fixed_response sec_fc_conf_ack false s)
        (taken (sending sec c octets))
unfolding get_control_field parse_control_field new_fixed_frame sec_control settling
    build_link_address
ack-Reaches sec c s octets w = record {
  waiting = refl;
  known = ground (arith, w.station);
  from =
      get_link_address-encode s.config.link_addr_size sec.addr _ w.fits
        (ap (encode_link_addr s.config.link_addr_size) (sym w.for_server));
  secondary = refl;
  settles = refl;
}

pub receive-acknowledged :
    (sec : Secondary) (c : Client) (s : Server) (octets : List ℕ)
    → IsReady sec c s
    → receive (fixed_response sec_fc_conf_ack false s) (taken (sending sec c octets))
      ≡ acknowledged sec c octets
unfolding get_control_field parse_control_field new_fixed_frame sec_control handle_fixed
    confirm_positive confirm_pending demand_access stop_if_free
receive-acknowledged sec c s octets w =
    let (prm, fcv, fcb, fun) = control_fields c sec.fcb in
    receive_lem (user_data sec c octets) (fixed_response sec_fc_conf_ack false s)
      (taken (sending sec c octets)) (ack-Reaches sec c s octets w)
    ∙ ground (arith, prm, fcv, fcb, fun)
