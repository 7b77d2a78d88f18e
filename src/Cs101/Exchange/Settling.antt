-- ===== src/Cs101/Exchange/Settling.antt =====
-- How the client of cs101/client.go ends a transaction: the same, whatever its response timer and its
-- count of retries are.
use go_iecp.Shared.{
  ℕ, ◌<◌, ◌≡◌, ◌⊎◌, inl, inr, ◌≢◌, ap, sym, ◌∙◌, true, false, Option, none, some, arith,
  if◌then◌else◌, ◌==◌,
}
use go_iecp.Cs101.Control.{ControlField}
use go_iecp.Cs101.Frame.{Frame, start_fixed, start_variable}
use go_iecp.Cs101.Frame.Decode.{get_control_field, get_link_address, get_asdu}
use go_iecp.Cs101.Link.{encode_link_addr}
use go_iecp.Cs101.Server.Secondary.Answers.{IsAnswer, settling}
use go_iecp.Cs101.Client.{
  Client, Secondary, Pending, find_sec, update_sec, update_link_active, send_req_data,
  send_prim_confirmed, send_confirmed, send_frame_to_chan, prim_control, is_balanced,
}
use go_iecp.Cs101.Client.Handle.{
  confirm_pending, confirm_positive, fail_transaction, handle_fixed, handle_variable, demand_access,
  handle_secondary, handle_incoming_frame,
}
use go_iecp.Cs101.Client.Run.{receive, stop_if_free}

-- A client in the course of its retries.
abbrev pub retried : ℕ → Option ℕ → Client → Client
retried count timer c = record c { retry_count = count; t1_timer = timer }

abbrev timed : Option ℕ → Client → Client
timed timer c = record c { t1_timer = timer }

-- A transaction is over, and leaves the timer as it is.
record Ends (f : Client → Client) (c : Client) : Type 0 where
  free : (f c).last_sent ≡ none
  same : (count : ℕ) (timer : Option ℕ) → f (retried count timer c) ≡ timed timer (f c)

confirm_pending-Ends : (p : Pending) (c : Client) → Ends (confirm_pending p) c
unfolding confirm_pending update_link_active
confirm_pending-Ends p c = record { free = ground arith; same = λ count timer. ground arith }

confirm_positive-Ends :
    (p : Pending) (c : Client) → c.last_sent ≡ some p → Ends (confirm_positive (some p.addr)) c
unfolding confirm_positive
confirm_positive-Ends p c h = record {
  free = ground (arith, h, (confirm_pending-Ends p c).free);
  same = λ count timer. ground (arith, h, (confirm_pending-Ends p c).same count timer);
}

fail_transaction-Ends :
    (p : Pending) (c : Client) → c.last_sent ≡ some p → Ends (fail_transaction p.addr) c
unfolding fail_transaction update_link_active
fail_transaction-Ends p c h = record {
  free = ground (arith, h);
  same = λ count timer. ground (arith, h);
}

abbrev pub respond : ControlField → ℕ → Frame → Client → Client
respond ctrl addr f c =
    (if f.start == start_fixed
      then handle_fixed ctrl addr c
      else if f.start == start_variable
      then handle_variable ctrl addr f c
      else c)

respond-Ends :
    (ctrl : ControlField) (p : Pending) (f : Frame) (c : Client)
    → c.last_sent ≡ some p
    → settling f.start ctrl.fun ≡ true
    → Ends (respond ctrl p.addr f) c
unfolding settling handle_fixed handle_variable
respond-Ends ctrl p f c h k = record {
  free = ground (
    arith,
    h,
    k,
    (confirm_positive-Ends p c h).free,
    (fail_transaction-Ends p c h).free,
    get_asdu f c.params,
  );
  same = λ count timer. ground (
    arith,
    h,
    k,
    (confirm_positive-Ends p c h).same count timer,
    (fail_transaction-Ends p c h).same count timer,
    get_asdu f c.params,
  );
}

demand_access-timed :
    (ctrl : ControlField) (addr : ℕ) (timer : Option ℕ) (c : Client)
    → c.last_sent ≡ none
    → stop_if_free (demand_access ctrl addr (timed timer c))
      ≡ stop_if_free (demand_access ctrl addr c)
unfolding stop_if_free demand_access send_req_data send_prim_confirmed send_confirmed
    send_frame_to_chan is_balanced prim_control
demand_access-timed ctrl addr timer c h = ground (arith, h)

-- A response reaches the client.
pub record Reaches (p : Pending) (r : Frame) (c : Client) : Type 0 where
  pub waiting : c.last_sent ≡ some p
  pub known : find_sec c.secs p.addr ≢ none
  pub from : get_link_address r ≡ p.addr
  pub secondary : (get_control_field r).prm ≡ false
  pub settles : settling r.start (get_control_field r).fun ≡ true

abbrev pub noted : ControlField → ℕ → Client → Client
noted ctrl addr c = record c {
  secs = update_sec (λ (s : Secondary). record s { dfc = ctrl.dfc }) addr c.secs;
}

pub receive_lem :
    (p : Pending) (r : Frame) (c : Client)
    → Reaches p r c
    → receive r c
      ≡ stop_if_free (
          demand_access
            (get_control_field r)
            p.addr
            (respond (get_control_field r) p.addr r (noted (get_control_field r) p.addr c)))
unfolding receive handle_incoming_frame handle_secondary settling
receive_lem p r c w = ground (arith, w)

receive-ends :
    (p : Pending) (r : Frame) (c : Client) (count : ℕ) (timer : Option ℕ)
    → Reaches p r c
    → receive r (retried count timer c) ≡ receive r c
receive-ends p r c count timer w =
    receive_lem p r (retried count timer c) (record {
      waiting = w.waiting;
      known = w.known;
      from = w.from;
      secondary = w.secondary;
      settles = w.settles;
    })
    ∙ ap (λ (d : Client). stop_if_free (demand_access (get_control_field r) p.addr d))
        (e.same count timer)
    ∙ demand_access-timed (get_control_field r) p.addr timer _ e.free
    ∙ sym (receive_lem p r c w)
  where
    e : Ends (respond (get_control_field r) p.addr r) (noted (get_control_field r) p.addr c)
    e = respond-Ends (get_control_field r) p r _ w.waiting w.settles

-- An address of one or of two octets.
abbrev pub AddrFits : ℕ → ℕ → Type 0
AddrFits size addr = ((size ≡ 1) × (addr < 256)) ⊎ ((size ≡ 2) × (addr < 65536))

pub get_link_address-encode :
    (size addr : ℕ) (r : Frame)
    → AddrFits size addr
    → r.link_addr ≡ encode_link_addr size addr
    → get_link_address r ≡ addr
unfolding get_link_address encode_link_addr
get_link_address-encode size addr r (inl (a, b)) d = ground (arith, a, b, d)
get_link_address-encode size addr r (inr (a, b)) d = ground (arith, a, b, d)

-- The answer of a server to the outstanding frame makes the client forget how often it has tried.
pub receive-retried :
    (p : Pending) (r : Frame) (c : Client) (size count : ℕ) (timer : Option ℕ)
    → AddrFits size p.addr
    → c.last_sent ≡ some p
    → find_sec c.secs p.addr ≢ none
    → IsAnswer (encode_link_addr size p.addr) r
    → receive r (retried count timer c) ≡ receive r c
receive-retried p r c size count timer a w k x = receive-ends p r c count timer (record {
  waiting = w;
  known = k;
  from = get_link_address-encode size p.addr r a x.address;
  secondary = x.secondary;
  settles = x.settles;
})
