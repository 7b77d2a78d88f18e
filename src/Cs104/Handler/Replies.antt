-- ===== src/Cs104/Handler/Replies.antt =====
-- The answers of the server's handler in cs104/server_session.go.
use go_iecp.Shared.{
  ℕ, refl, ◌<◌, ◌≤◌, ◌≡◌, ◌≢◌, ◌⊎◌, Bool, true, false, List, [], ◌∷◌, ◌++◌, Option, not, ◌!=◌, ◌||◌,
  inl, none, some, length, take, drop, arith, ◌==◌, if◌then◌else◌,
}
use go_iecp.Asdu.Error.{Error, ok, err, common_addr_zero}
use go_iecp.Asdu.Message.{Asdu, reply_mirror}
use go_iecp.Asdu.Marshal.{marshal_binary}
use go_iecp.Asdu.Marshal.Mirror.{marshal_binary-reply_mirror, marshal_binary-zero}
use go_iecp.Asdu.Marshal.RoundTrip.{IsSized}
use go_iecp.Asdu.TypeId.{
  c_ic_na_1, c_ci_na_1, c_rd_na_1, c_cs_na_1, c_ts_na_1, c_rp_na_1, c_cd_na_1,
}
use go_iecp.Asdu.System.{
  get_interrogation_cmd, get_counter_interrogation_cmd, get_read_cmd, get_clock_synchronization_cmd,
  get_test_command, get_reset_process_cmd, get_delay_acquire_command, activation, deactivation,
  spontaneous, request, activation_con, unknown_type_id, unknown_cot, unknown_ca, unknown_ioa,
}
use go_iecp.Cs104.Handler.{
  Action, handled, interrogation_handler, counter_interrogation_handler, clock_sync_handler,
  reset_process_handler, delay_acquisition_handler, server_handler, replies, send, refused, checked,
  at_irrelevant, read_action, default_action,
}

-- What the handler sends back is the request under one of five causes.
abbrev IsAnswer : Asdu → Asdu → Type 0
IsAnswer a r =
    (r ≡ reply_mirror a r.coa.cause)
    × ((r.coa.cause ≡ activation_con)
        ⊎ ((unknown_type_id ≤ r.coa.cause) × (r.coa.cause ≤ unknown_ioa)))

abbrev is_reply : Action → Bool
is_reply (replies r) = true
is_reply _ = false

-- Of an action: if it replies, the reply is an answer to `a`.
module _ (a : Asdu) where
  abbrev Answers : Action → Type 0
  Answers action = (r : Asdu) → action ≡ replies r → IsAnswer a r

  if-Answers : (b : Bool) {x y : Action} → Answers x → Answers y → Answers (if b then x else y)
  if-Answers true hx hy = hx
  if-Answers false hx hy = hy

  mirror-Answers :
      (c : ℕ)
      → (c ≡ activation_con) ⊎ ((unknown_type_id ≤ c) × (c ≤ unknown_ioa))
      → Answers (replies (reply_mirror a c))
  unfolding reply_mirror
  mirror-Answers c h r e = ground arith

  checked-Answers :
      (allowed : Bool) {action : Action} → Answers action → Answers (checked allowed a action)
  unfolding checked
  checked-Answers allowed h =
      if-Answers (not allowed) (mirror-Answers unknown_cot (omega arith))
        (if-Answers (a.common_addr == 0) (mirror-Answers unknown_ca (omega arith)) h)

  at_irrelevant-Answers :
      {A : Type 0} (o : Option (ℕ × A)) {action : A → Action}
      → ((v : A) → Answers (action v))
      → Answers (at_irrelevant a o action)
  unfolding at_irrelevant
  at_irrelevant-Answers none h = λ r e. ground arith
  at_irrelevant-Answers (some (ioa, v)) h =
      if-Answers (ioa != 0) (mirror-Answers unknown_ioa (omega arith)) (h v)

  read_action-Answers : (o : Option ℕ) → Answers (read_action o)
  unfolding read_action
  read_action-Answers none r e = ground arith
  read_action-Answers (some ioa) r e = ground arith

  silent : (action : Action) → is_reply action ≡ false → Answers action
  silent action h r e = ground arith

  server_handler-Answers : (fails : Asdu → Bool) → Answers (server_handler fails a)
  unfolding server_handler default_action
  server_handler-Answers fails =
      if-Answers (id == c_ic_na_1)
        (command (cause == activation || cause == deactivation) (get_interrogation_cmd a)
          (λ v. silent (interrogation_handler v) refl))
        (if-Answers (id == c_ci_na_1)
          (command active (get_counter_interrogation_cmd a)
            (λ v. silent (counter_interrogation_handler v) refl))
          (if-Answers (id == c_rd_na_1)
            (checked-Answers (cause == request) (read_action-Answers (get_read_cmd a)))
            (if-Answers (id == c_cs_na_1)
              (command active (get_clock_synchronization_cmd a)
                (λ v. silent (clock_sync_handler v) refl))
              (if-Answers (id == c_ts_na_1)
                (command active (get_test_command a)
                  (λ v. mirror-Answers activation_con (inl refl)))
                (if-Answers (id == c_rp_na_1)
                  (command active (get_reset_process_cmd a)
                    (λ v. silent (reset_process_handler v) refl))
                  (if-Answers (id == c_cd_na_1)
                    (command (cause == activation || cause == spontaneous)
                      (get_delay_acquire_command a)
                      (λ v. silent (delay_acquisition_handler v) refl))
                    (if-Answers (fails a) (mirror-Answers unknown_type_id (omega arith))
                      (silent handled refl))))))))
    where
      id : ℕ
      id = a.type_id

      cause : ℕ
      cause = a.coa.cause

      active : Bool
      active = cause == activation

      command :
          {A : Type 0} (allowed : Bool) (o : Option (ℕ × A)) {action : A → Action}
          → ((v : A) → Answers (action v))
          → Answers (checked allowed a (at_irrelevant a o action))
      command allowed o h = checked-Answers allowed (at_irrelevant-Answers o h)

answer-cause : (a r : Asdu) → IsAnswer a r → r.coa.cause ≢ 0
answer-cause a r h = ground arith

send-ok :
    (r : Asdu) (capacity : ℕ) (q : List (List ℕ)) {raw : List ℕ}
    → length q < capacity
    → marshal_binary r ≡ ok raw
    → send true capacity q r ≡ (q ++ (raw ∷ []), none)
unfolding send
send-ok r capacity q l h = ground arith

send-err :
    (r : Asdu) (capacity : ℕ) (q : List (List ℕ)) {e : Error}
    → marshal_binary r ≡ err e
    → send true capacity q r ≡ (q, some (refused e))
unfolding send
send-err r capacity q h = ground arith

-- Every reply mirror that serverHandler itself sends, the one for a type that the application's
-- ASDUHandler answers with an error included, for a request that MarshalBinary would encode to some
-- octets, Send on a connected session puts into a buffer that is not full, encoded to the same
-- octets but for the third, the cause of transmission. What the application's handlers send on
-- their own is not covered.
pub send-server_handler :
    (fails : Asdu → Bool) (a r : Asdu) (capacity : ℕ) (send_asdu : List (List ℕ)) {raw : List ℕ}
    → marshal_binary a ≡ ok raw
    → server_handler fails a ≡ replies r
    → length send_asdu < capacity
    → (raw' : List ℕ) × (send true capacity send_asdu r ≡ (send_asdu ++ (raw' ∷ []), none))
      × (take 2 raw' ≡ take 2 raw)
      × (drop 3 raw' ≡ drop 3 raw)
send-server_handler fails a r capacity send_asdu m h l =
    let answer = server_handler-Answers a fails r h in
    let (raw', sent, head, tail) =
      marshal_binary-reply_mirror a r.coa.cause (answer-cause a r answer) m in
    (raw', send-ok r capacity send_asdu l (rw answer.0 sent), head, tail)

-- Whatever serverHandler sends back for a request with the common address 0, the answer of unknown
-- common address included, Send refuses with ErrCommonAddrZero on a connected session, and the
-- buffer stays as it is.
pub send-server_handler-zero :
    (fails : Asdu → Bool) (a r : Asdu) (capacity : ℕ) (send_asdu : List (List ℕ))
    → IsSized a.params
    → a.common_addr ≡ 0
    → server_handler fails a ≡ replies r
    → send true capacity send_asdu r ≡ (send_asdu, some (refused common_addr_zero))
send-server_handler-zero fails a r capacity send_asdu s z h =
    let answer = server_handler-Answers a fails r h in
    send-err r capacity send_asdu
      (rw answer.0 (marshal_binary-zero a r.coa.cause (answer-cause a r answer) s z))
