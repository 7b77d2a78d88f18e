-- ===== src/Cs104/Tests.antt =====
-- The theorems on the package cs104 at concrete frames and events.
pub mod Streams
use go_iecp.Shared.{ℕ, ◌≡◌, refl, true, List, [], ◌∷◌, some, none, arith, ◌↔◌}
use go_iecp.Cs104.Apci.{i_apci, ok, parse, new_i_frame}
use go_iecp.Cs104.Apci.RoundTrip.{frame_of, IsLegal, parse-frame_of, frame_of-parse}
use go_iecp.Cs104.Config.{valid, default_config}
use go_iecp.Cs104.Config.Laws.{IsValid, filled, valid-none}
use go_iecp.Cs104.Sequence.{Link, update_ack_no_out}
use go_iecp.Cs104.Sequence.Window.{update_ack_no_out_lem}
use go_iecp.Cs104.Session.{Event, transmits, ticks, receives, running, started, run}
use go_iecp.Cs104.Session.Invariant.{Keeps, run-Keeps}
use go_iecp.Cs104.Session.Delivery.{Delivers, deliveries, run-Delivers}
use go_iecp.Cs104.Session.StopDt.{ConfirmedAfter, run-ConfirmedAfter}

-- An I frame with numbers 32767 and 5, and three octets of ASDU.
abbrev i_frame : List ℕ
i_frame = 0x68 ∷ 7 ∷ 0xfe ∷ 0xff ∷ 10 ∷ 0 ∷ 1 ∷ 2 ∷ 3 ∷ []

parse-frame_of_example : parse i_frame ≡ ok (i_apci 32767 5) (1 ∷ 2 ∷ 3 ∷ [])
unfolding frame_of new_i_frame
parse-frame_of_example = parse-frame_of (i_apci 32767 5) (1 ∷ 2 ∷ 3 ∷ []) (omega arith) refl

frame_of-parse_example :
    (frame_of (i_apci 32767 5) (1 ∷ 2 ∷ 3 ∷ []) ≡ some i_frame)
    × IsLegal (i_apci 32767 5) (1 ∷ 2 ∷ 3 ∷ [])
frame_of-parse_example =
    frame_of-parse i_frame (omega arith) refl (omega arith) parse-frame_of_example

default_config-IsValid : IsValid default_config
unfolding default_config
default_config-IsValid = ground arith

valid-none_example :
    (valid default_config ≡ (default_config, none))
    ↔ ((default_config ≡ filled default_config) × IsValid (filled default_config))
valid-none_example = valid-none default_config default_config

-- Numbers 32766, 32767 and 0 are waiting.
abbrev wrapping : Link
wrapping = record {
  seq_no_send = 1;
  ack_no_send = 32766;
  seq_no_rcv = 0;
  ack_no_rcv = 0;
  pending =
      record { seq = 32766; send_time = 1 }
      ∷ record { seq = 32767; send_time = 2 }
      ∷ record { seq = 0; send_time = 3 }
      ∷ [];
}

update_ack_no_out_example :
    update_ack_no_out wrapping 0
    ≡ (record wrapping { ack_no_send = 0; pending = record { seq = 0; send_time = 3 } ∷ [] }, true)
update_ack_no_out_example = update_ack_no_out_lem wrapping 0 (omega arith) (omega arith)

-- STARTDT, two ASDUs, an acknowledgement of one, an I frame, a tick, STOPDT.
abbrev life : List Event
life =
    receives (0x68 ∷ 4 ∷ 0x07 ∷ 0 ∷ 0 ∷ 0 ∷ []) 10
    ∷ transmits (1 ∷ []) 20
    ∷ transmits (2 ∷ []) 30
    ∷ receives (0x68 ∷ 4 ∷ 1 ∷ 0 ∷ 2 ∷ 0 ∷ []) 40
    ∷ receives (0x68 ∷ 5 ∷ 0 ∷ 0 ∷ 2 ∷ 0 ∷ 9 ∷ []) 50
    ∷ ticks 60 61
    ∷ receives (0x68 ∷ 4 ∷ 0x13 ∷ 0 ∷ 0 ∷ 0 ∷ []) 70
    ∷ []

run-Keeps_example : Keeps default_config (run default_config (running (started 0)) life)
run-Keeps_example = run-Keeps default_config 0 life default_config-IsValid (omega arith)

run-Delivers_example :
    Delivers
      (deliveries default_config (started 0) life)
      (run default_config (running (started 0)) life)
run-Delivers_example = run-Delivers default_config 0 life

-- Data transfer, one ASDU sent, its acknowledgement; then STOPDT, which is confirmed at once.
abbrev before_stop : List Event
before_stop =
    receives (0x68 ∷ 4 ∷ 0x07 ∷ 0 ∷ 0 ∷ 0 ∷ []) 10
    ∷ transmits (1 ∷ []) 20
    ∷ receives (0x68 ∷ 4 ∷ 1 ∷ 0 ∷ 2 ∷ 0 ∷ []) 40
    ∷ []

abbrev stop_event : Event
stop_event = receives (0x68 ∷ 4 ∷ 0x13 ∷ 0 ∷ 0 ∷ 0 ∷ []) 70

run-ConfirmedAfter_example :
    ConfirmedAfter
      (run default_config (running (started 0)) before_stop)
      (run default_config (run default_config (running (started 0)) before_stop) (stop_event ∷ []))
run-ConfirmedAfter_example =
    run-ConfirmedAfter default_config 0 before_stop stop_event default_config-IsValid (omega arith)
