-- ===== src/Cs101/Server/Secondary/Repeated.antt =====
-- The frame count bit of cs101/server.go: a frame that comes again is answered again, and changes
-- nothing else.
use go_iecp.Shared.{
  ℕ, ◌≡◌, ◌≢◌, ◌⊎◌, refl, ap, ◌∙◌, true, false, not, List, [], ◌∷◌, Option, none, some, arith, inl,
  inr, All,
}
use go_iecp.Cs101.Control.{ControlField}
use go_iecp.Cs101.Frame.{Frame, single_char_ack}
use go_iecp.Cs101.Frame.Decode.{get_control_field, get_link_address}
use go_iecp.Cs101.Link.{LinkError}
use go_iecp.Cs101.Server.{
  Server, build_link_address, Outcome, done, blocked, finish, send_frame_to_chan,
}
use go_iecp.Cs101.Server.Secondary.{
  handle_function, handle_primary, handle_incoming_frame, handle_addressed, is_broadcast, resend,
}
use go_iecp.Cs101.Server.Secondary.Answers.{
  IsCounted, IsAnswer, one_or_none, IsFree, Responded, handle_function-Responded,
}

abbrev served : Outcome → Option (Server × List Frame)
served (done t e) = some (record t { send_frame = [] }, t.send_frame)
served blocked = none

-- A frame handled, and the frames that the line then takes from the server.
unfoldable pub serve : ℕ → Frame → Server → Option (Server × List Frame)
serve now f s = served (handle_incoming_frame now f s)

-- A frame for this station alone, whose count bit is the one expected.
pub record IsExpected (f : Frame) (s : Server) : Type 0 where
  pub framed : f.start ≢ single_char_ack
  pub addressed : get_link_address f ≡ s.config.link_address
  pub not_broadcast : is_broadcast s.config.link_addr_size s.config.link_address ≡ false
  pub is_counted : IsCounted (get_control_field f)
  pub fcb : (get_control_field f).fcb ≡ s.fcb_expected

handle_incoming_frame-primary :
    (now : ℕ) (f : Frame) (s : Server)
    → f.start ≢ single_char_ack
    → get_link_address f ≡ s.config.link_address
    → is_broadcast s.config.link_addr_size s.config.link_address ≡ false
    → (get_control_field f).prm ≡ true
    → handle_incoming_frame now f s ≡ handle_primary (get_control_field f) f s
unfolding handle_incoming_frame handle_addressed
handle_incoming_frame-primary now f s a b c d = ground (arith, a, b, c, d)

handle_primary-first :
    (ctrl : ControlField) (f : Frame) (s : Server)
    → ctrl.fcv ≡ true
    → ctrl.fcb ≡ s.fcb_expected
    → handle_primary ctrl f s
      ≡ handle_function ctrl f (record s { fcb_expected = not s.fcb_expected })
unfolding handle_primary
handle_primary-first ctrl f s a b = ground (arith, a, b)

handle_primary-again :
    (ctrl : ControlField) (f : Frame) (s : Server)
    → ctrl.fcv ≡ true
    → ctrl.fcb ≡ not s.fcb_expected
    → handle_primary ctrl f s ≡ finish (resend s)
unfolding handle_primary
handle_primary-again ctrl f s a b = ground (arith, a, b)

resend_lem :
    (s : Server)
    → IsFree s
    → s.last_resp ≢ none
    → finish (resend s) ≡ done (record s { send_frame = one_or_none s.last_resp }) none
unfolding resend send_frame_to_chan
resend_lem s w h = ground (arith, w, h)

pub serve-handle_function :
    (now : ℕ) (f : Frame) (s : Server)
    → IsExpected f s
    → handle_incoming_frame now f s
      ≡ handle_function (get_control_field f) f (record s { fcb_expected = not s.fcb_expected })
serve-handle_function now f s x =
    handle_incoming_frame-primary now f s x.framed x.addressed x.not_broadcast x.is_counted.primary
    ∙ handle_primary-first (get_control_field f) f s x.is_counted.counted x.fcb

-- The frame again, at what a served server has become.
serve-again :
    (later : ℕ) (f : Frame) (s u : Server)
    → s.connected ≡ true
    → IsExpected f s
    → Responded (record s { fcb_expected = not s.fcb_expected }) u
    → serve later f (record u { send_frame = [] })
      ≡ some (record u { send_frame = [] }, u.send_frame)
unfolding serve
serve-again later f s u c x r =
    let t : Server = record u { send_frame = [] } in
    ground (
      arith,
      c,
      x,
      r,
      handle_incoming_frame-primary later f t,
      handle_primary-again (get_control_field f) f t,
      resend_lem t,
    )

Outcome-cases :
    (o : Outcome) → (o ≡ blocked) ⊎ ((t : Server) × (e : Option LinkError) × (o ≡ done t e))
Outcome-cases blocked = inl refl
Outcome-cases (done t e) = inr (t, e, refl)

pub serve-done :
    (now : ℕ) (f : Frame) (s u : Server) (e : Option LinkError)
    → handle_incoming_frame now f s ≡ done u e
    → serve now f s ≡ some (record u { send_frame = [] }, u.send_frame)
unfolding serve
serve-done now f s u e h = ap served h

serve-blocked :
    (now : ℕ) (f : Frame) (s : Server)
    → handle_incoming_frame now f s ≡ blocked
    → serve now f s ≡ none
unfolding serve
serve-blocked now f s h = ap served h

-- A counted frame for this station, with the frame count bit that it expects: when it comes again,
-- at any time, after the line has taken the response, the server answers with the same frame and
-- is as it was before, whatever the frame asked for.
pub serve-serve :
    (now later : ℕ) (f : Frame) (s t : Server) (frames : List Frame)
    → IsFree s
    → IsExpected f s
    → serve now f s ≡ some (t, frames)
    → serve later f t ≡ some (t, frames)
serve-serve now later f s t frames w x h =
    elim (Outcome-cases (handle_function (get_control_field f) f g)) [
      | inl out ↦ ground (arith, h, serve-blocked now f s (serve-handle_function now f s x ∙ out))
      | inr (u, e, got) ↦ ground (
        arith,
        h,
        serve-done now f s u e (serve-handle_function now f s x ∙ got),
        serve-again later f s u w.connected x
            (handle_function-Responded (get_control_field f) f g u e x.is_counted free got),
      )
    ]
  where
    g : Server
    g = record s { fcb_expected = not s.fcb_expected }

    free : IsFree g
    free = ground (arith, w)

one_or_none-IsAnswer :
    (addr : List ℕ) (o : Option Frame)
    → o ≢ none
    → All (IsAnswer addr) (one_or_none o)
    → (r : Frame) × (one_or_none o ≡ r ∷ []) × IsAnswer addr r
one_or_none-IsAnswer addr none n w = absurd (n refl)
one_or_none-IsAnswer addr (some r) n w = (r, refl, w.0)

-- The response to such a frame.
pub serve-IsAnswer :
    (now : ℕ) (f : Frame) (s t : Server) (frames : List Frame)
    → IsFree s
    → IsExpected f s
    → serve now f s ≡ some (t, frames)
    → (r : Frame) × (frames ≡ r ∷ []) × IsAnswer (build_link_address s) r
unfolding build_link_address
serve-IsAnswer now f s t frames w x h =
    elim (Outcome-cases (handle_function (get_control_field f) f g)) [
      | inl out ↦
          absurd (ground (arith, h, serve-blocked now f s (serve-handle_function now f s x ∙ out)))
      | inr (u, e, got) ↦
          let r = handle_function-Responded (get_control_field f) f g u e x.is_counted free got in
          let (a, b, c) =
            one_or_none-IsAnswer (build_link_address g) u.last_resp r.response r.answer in
          (
            a,
            ground (arith, h, r, b, serve-done now f s u e (serve-handle_function now f s x ∙ got)),
            c,
          )
    ]
  where
    g : Server
    g = record s { fcb_expected = not s.fcb_expected }

    free : IsFree g
    free = ground (arith, w)
