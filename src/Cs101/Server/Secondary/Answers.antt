-- ===== src/Cs101/Server/Secondary/Answers.antt =====
-- The responses of the secondary station of cs101/server.go.
use go_iecp.Shared.{
  ℕ, ◌≡◌, ◌≢◌, refl, Bool, true, false, List, [], ◌∷◌, Option, none, some, arith, inl, inr,
  Option-cases, ◌&&◌, ◌||◌, ◌==◌, All,
}
use go_iecp.Asdu.Error.{ok, err}
use go_iecp.Asdu.Message.{Asdu}
use go_iecp.Asdu.Marshal.{marshal_binary}
use go_iecp.Cs101.Control.{ControlField, parse_control_field}
use go_iecp.Cs101.Frame.{Frame, start_fixed, start_variable, new_fixed_frame, new_data_frame}
use go_iecp.Cs101.Frame.Decode.{get_control_field}
use go_iecp.Cs101.Link.{
  LinkError, prim_fc_reset_link, prim_fc_user_data_no_conf, sec_fc_conf_ack, sec_fc_resp_status,
  sec_fc_resp_link_ni, sec_fc_user_data_no_rep, sec_fc_user_data_conf,
}
use go_iecp.Cs101.Server.{
  Server, build_link_address, sec_control, done, finish, send_frame_to_chan, send_resp,
  class1_pending, fixed_response, class_response, pop_class_data, send_link_ack, send_link_status,
  respond_class_data, dispatch_asdu, dispatch_decoded,
}
use go_iecp.Cs101.Server.Secondary.{handle_function, user_data_conf}

-- A frame with a valid count bit that asks for a response.
pub record IsCounted (ctrl : ControlField) : Type 0 where
  pub primary : ctrl.prm ≡ true
  pub counted : ctrl.fcv ≡ true
  pub not_reset : ctrl.fun ≢ prim_fc_reset_link
  pub answered : ctrl.fun ≢ prim_fc_user_data_no_conf

abbrev pub one_or_none {ℓ} : {A : Type ℓ} → Option A → List A
one_or_none none = []
one_or_none (some a) = a ∷ []

-- A server that has its channel of frames free.
pub record IsFree (s : Server) : Type 0 where
  pub connected : s.connected ≡ true
  pub free : s.send_frame ≡ []

-- The frames that end a transaction of the client: by their start and function code.
unfoldable pub settling : ℕ → ℕ → Bool
settling start fun =
    (start == start_fixed
      && ((fun == sec_fc_conf_ack || fun == sec_fc_user_data_no_rep)
          || (fun == sec_fc_resp_status || fun == sec_fc_resp_link_ni)))
    || (start == start_variable && fun == sec_fc_user_data_conf)

-- A response with the address `addr` that settles.
pub record IsAnswer (addr : List ℕ) (r : Frame) : Type 0 where
  pub address : r.link_addr ≡ addr
  pub secondary : (get_control_field r).prm ≡ false
  pub settles : settling r.start (get_control_field r).fun ≡ true

module _ (s : Server) where
  ack-IsAnswer :
      (acd : Bool) → IsAnswer (build_link_address s) (fixed_response sec_fc_conf_ack acd s)
  unfolding settling get_control_field parse_control_field sec_control new_fixed_frame
  ack-IsAnswer true = record { address = refl; secondary = refl; settles = refl }
  ack-IsAnswer false = record { address = refl; secondary = refl; settles = refl }

  status-IsAnswer :
      (acd : Bool) → IsAnswer (build_link_address s) (fixed_response sec_fc_resp_status acd s)
  unfolding settling get_control_field parse_control_field sec_control new_fixed_frame
  status-IsAnswer true = record { address = refl; secondary = refl; settles = refl }
  status-IsAnswer false = record { address = refl; secondary = refl; settles = refl }

  no_rep-IsAnswer :
      (acd : Bool) → IsAnswer (build_link_address s) (fixed_response sec_fc_user_data_no_rep acd s)
  unfolding settling get_control_field parse_control_field sec_control new_fixed_frame
  no_rep-IsAnswer true = record { address = refl; secondary = refl; settles = refl }
  no_rep-IsAnswer false = record { address = refl; secondary = refl; settles = refl }

  ni-IsAnswer :
      (acd : Bool) → IsAnswer (build_link_address s) (fixed_response sec_fc_resp_link_ni acd s)
  unfolding settling get_control_field parse_control_field sec_control new_fixed_frame
  ni-IsAnswer true = record { address = refl; secondary = refl; settles = refl }
  ni-IsAnswer false = record { address = refl; secondary = refl; settles = refl }

  user_data-IsAnswer :
      (acd : Bool) (octets : List ℕ)
      → IsAnswer
          (build_link_address s)
          (new_data_frame (sec_control sec_fc_user_data_conf acd) (build_link_address s) octets)
  unfolding settling get_control_field parse_control_field sec_control new_data_frame
  user_data-IsAnswer true octets = record { address = refl; secondary = refl; settles = refl }
  user_data-IsAnswer false octets = record { address = refl; secondary = refl; settles = refl }

class_response-IsAnswer :
    (a : Option Asdu) (s : Server) → IsAnswer (build_link_address s) (class_response a s)
unfolding class_response
class_response-IsAnswer none s = no_rep-IsAnswer s false
class_response-IsAnswer (some a) s =
    elim (marshal_binary a)
      as (λ o. IsAnswer (build_link_address s) (elim o [
        | ok octets ↦
            new_data_frame (sec_control sec_fc_user_data_conf (class1_pending s))
              (build_link_address s) octets
        | err e ↦ fixed_response sec_fc_user_data_no_rep (class1_pending s) s
      ])) [
        | ok octets ↦ user_data-IsAnswer s (class1_pending s) octets
        | err e ↦ no_rep-IsAnswer s (class1_pending s)
      ]

-- What the handling of a counted frame leaves: the response that it sent, and the rest of the link
-- state as it was.
pub record Responded (s t : Server) : Type 0 where
  pub response : t.last_resp ≢ none
  pub answer : All (IsAnswer (build_link_address s)) (one_or_none t.last_resp)
  pub sent : t.send_frame ≡ one_or_none t.last_resp
  pub same_fcb : t.fcb_expected ≡ s.fcb_expected
  pub same_config : t.config ≡ s.config
  pub same_connected : t.connected ≡ s.connected

send_resp-Responded :
    (f : Frame) (s t : Server) (e : Option LinkError)
    → IsFree s
    → IsAnswer (build_link_address s) f
    → finish (send_resp f s) ≡ done t e
    → Responded s t
unfolding send_resp send_frame_to_chan
send_resp-Responded f s t e w a h = ground (arith, w, a, h)

-- A server that differs from another in its queues and payloads only.
record Kept (s t : Server) : Type 0 where
  free : t.send_frame ≡ s.send_frame
  fcb : t.fcb_expected ≡ s.fcb_expected
  config : t.config ≡ s.config
  connected : t.connected ≡ s.connected

pop_class_data-Kept : (class : ℕ) (s : Server) → Kept s (pop_class_data class s).1
unfolding pop_class_data
pop_class_data-Kept class s = ground arith

dispatch_asdu-Kept : (f : Frame) (s t : Server) → dispatch_asdu f s ≡ some t → Kept s t
unfolding dispatch_asdu dispatch_decoded
dispatch_asdu-Kept f s t h = ground (arith, h)

Kept-Responded : (s s1 t : Server) → Kept s s1 → Responded s1 t → Responded s t
unfolding build_link_address
Kept-Responded s s1 t k w = ground (arith, k, w)

Kept-IsFree : (s s1 : Server) → Kept s s1 → IsFree s → IsFree s1
Kept-IsFree s s1 k w = ground (arith, k, w)

user_data_conf-Responded :
    (ctrl : ControlField) (f : Frame) (s t : Server) (e : Option LinkError)
    → ctrl.fcv ≡ true
    → IsFree s
    → user_data_conf ctrl f s ≡ done t e
    → Responded s t
unfolding user_data_conf send_link_ack
user_data_conf-Responded ctrl f s t e c w h = elim (Option-cases (dispatch_asdu f s)) [
  | inl out ↦ ground (arith, h, out)
  | inr (s1, got) ↦ ground (
    arith,
    c,
    h,
    got,
    dispatch_asdu-Kept f s s1 got,
    Kept-Responded s s1 t (dispatch_asdu-Kept f s s1 got),
    send_resp-Responded (fixed_response sec_fc_conf_ack (class1_pending s1) s1) s1 t e
        (Kept-IsFree s s1 (dispatch_asdu-Kept f s s1 got) w) (ack-IsAnswer s1 (class1_pending s1)),
  )
]

respond_class_data-Responded :
    (class : ℕ) (s t : Server) (e : Option LinkError)
    → IsFree s
    → finish (respond_class_data class s) ≡ done t e
    → Responded s t
unfolding respond_class_data
respond_class_data-Responded class s t e w h =
    let k = pop_class_data-Kept class s in
    Kept-Responded s _ t k
      (send_resp-Responded _ _ t e (Kept-IsFree s _ k w) (class_response-IsAnswer _ _) h)

pub handle_function-Responded :
    (ctrl : ControlField) (f : Frame) (s t : Server) (e : Option LinkError)
    → IsCounted ctrl
    → IsFree s
    → handle_function ctrl f s ≡ done t e
    → Responded s t
unfolding handle_function send_link_ack send_link_status
handle_function-Responded ctrl f s t e c w h = ground (
  arith,
  c,
  h,
  user_data_conf-Responded ctrl f s t e c.counted w,
  respond_class_data-Responded 1 s t e w,
  respond_class_data-Responded 2 s t e w,
  send_resp-Responded (fixed_response sec_fc_conf_ack (class1_pending s) s) s t e w
      (ack-IsAnswer s (class1_pending s)),
  send_resp-Responded (fixed_response sec_fc_resp_status (class1_pending s) s) s t e w
      (status-IsAnswer s (class1_pending s)),
  send_resp-Responded (fixed_response sec_fc_resp_link_ni false s) s t e w (ni-IsAnswer s false),
)
