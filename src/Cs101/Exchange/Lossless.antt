-- ===== src/Cs101/Exchange/Lossless.antt =====
-- The link procedure of cs101/client.go and cs101/server.go hides a loss from both stations.
use go_iecp.Shared.{
  ℕ, ◌≡◌, ◌≢◌, inl, inr, refl, ap, ◌∙◌, sym, true, List, [], ◌∷◌, Option, none, some, arith,
  Option-cases,
}
use go_iecp.Cs101.Frame.{Frame}
use go_iecp.Cs101.Link.{encode_link_addr}
use go_iecp.Cs101.Server.{Server, build_link_address}
use go_iecp.Cs101.Server.Secondary.Answers.{IsFree}
use go_iecp.Cs101.Server.Secondary.Repeated.{IsExpected, serve, serve-serve, serve-IsAnswer}
use go_iecp.Cs101.Client.{Client, Pending, find_sec, send_frame_to_chan}
use go_iecp.Cs101.Client.Run.{t1_timeout, retry}
use go_iecp.Cs101.Exchange.{
  Passage, request_lost, response_lost, passed, taken, receive_all, carry, attempt, exchange,
  then_on,
}
use go_iecp.Cs101.Exchange.Settling.{retried, AddrFits, receive-retried}

-- The frame `p` of the client is on the line to its station, the server, for the first time.
pub record IsOutstanding (p : Pending) (c : Client) (s : Server) : Type 0 where
  pub waiting : c.last_sent ≡ some p
  pub first_try : c.retry_count ≡ 0
  pub on_line : c.send_frame ≡ p.frame ∷ []
  pub connected : c.connected ≡ true
  pub known : find_sec c.secs p.addr ≢ none
  pub for_server : p.addr ≡ s.config.link_address
  pub fits : AddrFits s.config.link_addr_size p.addr
  pub free : IsFree s
  pub expected : IsExpected p.frame s

-- The client after the response timeout.
abbrev again : Pending → Client → Client
again p c = record (retried 1 (some c.config.timeout_repeat_t2) c) { send_frame = p.frame ∷ [] }

t1_timeout-again :
    (p : Pending) (c : Client) (s : Server)
    → IsOutstanding p c s
    → (t1_timeout (taken c)).0 ≡ again p c
unfolding t1_timeout retry send_frame_to_chan
t1_timeout-again p c s w = ground (arith, w)

receive_all-again :
    (p : Pending) (c : Client) (s t : Server) (now : ℕ) (frames : List Frame)
    → IsOutstanding p c s
    → serve now p.frame s ≡ some (t, frames)
    → receive_all frames (taken (again p c)) ≡ receive_all frames (taken c)
unfolding receive_all build_link_address
receive_all-again p c s t now frames w h =
    let (r, one, answer) = serve-IsAnswer now p.frame s t frames w.free w.expected h in
    rw one (
      receive-retried p r (taken c) s.config.link_addr_size 1 (some c.config.timeout_repeat_t2)
        w.fits w.waiting w.known
        (record {
          address =
              answer.address ∙ ap (encode_link_addr s.config.link_addr_size) (sym w.for_server);
          secondary = answer.secondary;
          settles = answer.settles;
        }))

carry-passed :
    (now : ℕ) (f : Frame) (c d : Client) (s : Server)
    → ((t : Server) (frames : List Frame)
        → serve now f s ≡ some (t, frames)
        → receive_all frames c ≡ receive_all frames d)
    → carry now passed f c s ≡ carry now passed f d s
unfolding carry
carry-passed now f c d s h = elim (Option-cases (serve now f s)) [
  | inl e ↦ ground (arith, e)
  | inr (o, e) ↦ ground (arith, e, h o.0 o.1)
]

attempt-on_line :
    (now : ℕ) (way : Passage) (p : Pending) (c : Client) (s : Server)
    → c.send_frame ≡ p.frame ∷ []
    → attempt now way c.send_frame c s ≡ carry now way p.frame (taken c) s
unfolding attempt
attempt-on_line now way p c s h = ap (λ (l : List Frame). attempt now way l c s) h

-- The repetition, at a server that answers as it did at first.
passed-again :
    (now : ℕ) (p : Pending) (c : Client) (s t u : Server) (frames : List Frame)
    → IsOutstanding p c s
    → serve now p.frame s ≡ some (t, frames)
    → serve now p.frame u ≡ some (t, frames)
    → let d = (t1_timeout (taken c)).0 in
      attempt now passed d.send_frame d u ≡ some (receive_all frames (taken c), t)
unfolding carry
passed-again now p c s t u frames w h k =
    let again_lem = t1_timeout-again p c s w in
    attempt-on_line now passed p (t1_timeout (taken c)).0 u
      (ap (λ (d : Client). d.send_frame) again_lem)
    ∙ rw k (
        ap (λ (d : Client). some (d, t))
          (ap (λ (d : Client). receive_all frames (taken d)) again_lem
            ∙ receive_all-again p c s t now frames w h))

-- The repetition at a server that is stuck.
stuck-again :
    (now : ℕ) (p : Pending) (c : Client) (s : Server)
    → IsOutstanding p c s
    → serve now p.frame s ≡ none
    → let d = (t1_timeout (taken c)).0 in attempt now passed d.send_frame d s ≡ none
unfolding carry
stuck-again now p c s w h =
    attempt-on_line now passed p (t1_timeout (taken c)).0 s
      (ap (λ (d : Client). d.send_frame) (t1_timeout-again p c s w))
    ∙ rw h refl

attempt-again :
    (now : ℕ) (way : Passage) (p : Pending) (c : Client) (s : Server)
    → way ≢ passed
    → IsOutstanding p c s
    → then_on (carry now way p.frame (taken c) s) (λ o. attempt now passed o.0.send_frame o.0 o.1)
      ≡ carry now passed p.frame (taken c) s
unfolding carry
attempt-again now request_lost p c s n w = elim (Option-cases (serve now p.frame s)) [
  | inl e ↦ stuck-again now p c s w e ∙ rw e refl
  | inr ((t, frames), e) ↦ passed-again now p c s t s frames w e e ∙ rw e refl
]
attempt-again now response_lost p c s n w = elim (Option-cases (serve now p.frame s)) [
  | inl e ↦ rw e refl
  | inr ((t, frames), e) ↦ rw e (
      passed-again now p c s t t frames w e
        (serve-serve now now p.frame s t frames w.free w.expected e))
]
attempt-again now passed p c s n w = absurd (n refl)

then_on-then_on {ℓ} :
    {A : Type ℓ} (o : Option A) (f g : A → Option A)
    → then_on o (λ a. then_on (f a) g) ≡ then_on (then_on o f) g
then_on-then_on none f g = refl
then_on-then_on (some a) f g = refl

-- While a frame of the client with a frame count bit is on the line to its station for the first
-- time: if the line loses it, or loses the response, and lets the repetition pass, then both
-- stations are afterwards just as if the first attempt had passed, whatever the frame asked for:
-- what the server hands to its handler, its queues and its count bit, and what the client receives,
-- its table and its next frame.
pub exchange-lost :
    (now : ℕ) (way : Passage) (ways : List Passage) (p : Pending) (c : Client) (s : Server)
    → way ≢ passed
    → IsOutstanding p c s
    → exchange now (way ∷ passed ∷ ways) (c, s) ≡ exchange now (passed ∷ ways) (c, s)
unfolding exchange
exchange-lost now way ways p c s n w =
    ap (λ (o : Option (Client × Server)). then_on o (exchange now (passed ∷ ways)))
      (attempt-on_line now way p c s w.on_line)
    ∙ then_on-then_on (carry now way p.frame (taken c) s)
        (λ o. attempt now passed o.0.send_frame o.0 o.1) (exchange now ways)
    ∙ ap (λ (o : Option (Client × Server)). then_on o (exchange now ways))
        (attempt-again now way p c s n w ∙ sym (attempt-on_line now passed p c s w.on_line))
