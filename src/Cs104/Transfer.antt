-- ===== src/Cs104/Transfer.antt =====
-- An ASDU from one end of a cs104 connection to the other: asdu/asdu.go inside the I frames of
-- cs104/apci.go, taken out of the stream by recvLoop of cs104/server_session.go.
use go_iecp.Shared.{ℕ, ◌<◌, ◌≡◌, ◌≢◌, List, ◌∷◌, ◌++◌, some, none, length, All, arith}
use go_iecp.Asdu.Error.{ok}
use go_iecp.Asdu.Message.{Asdu, valid}
use go_iecp.Asdu.Marshal.{marshal_binary, unmarshal_binary, expected_info_obj_len}
use go_iecp.Asdu.Marshal.RoundTrip.{
  IsWellFormed, received, unmarshal_binary-marshal_binary, length-marshal_binary,
}
use go_iecp.Cs104.Apci.{start_frame, new_i_frame, parse, i_apci, ok as parsed}
use go_iecp.Cs104.Apci.RoundTrip.{frame_of, parse-frame_of}
use go_iecp.Cs104.Receive.{received_apdus}
use go_iecp.Cs104.Receive.Frames.{IsFramed}
use go_iecp.Cs104.Receive.Resync.{received_apdus-noise}

new_i_frame-IsFramed :
    (send_sn rcv_sn : ℕ) (asdus apdu : List ℕ)
    → new_i_frame send_sn rcv_sn asdus ≡ some apdu
    → IsFramed apdu
unfolding new_i_frame
new_i_frame-IsFramed send_sn rcv_sn asdus apdu h = ground arith

parse-new_i_frame :
    (send_sn rcv_sn : ℕ) (asdus : List ℕ) {apdu : List ℕ}
    → send_sn < 32768
    → rcv_sn < 32768
    → length asdus ≢ 0
    → new_i_frame send_sn rcv_sn asdus ≡ some apdu
    → parse apdu ≡ parsed (i_apci send_sn rcv_sn) asdus
unfolding frame_of
parse-new_i_frame send_sn rcv_sn asdus hs hr n h =
    parse-frame_of (i_apci send_sn rcv_sn) asdus (hs, hr, omega arith) h

-- A well-formed ASDU under valid parameters, of a type and payload whose length is knowable, that
-- MarshalBinary encodes and newIFrame frames with numbers of fifteen bits, sent behind any octets
-- that are not 0x68 and before any others: recvLoop passes on that APDU first and then what it
-- passes on of the others; parse finds the numbers and the ASDU's octets in it; and
-- UnmarshalBinary makes of these the ASDU as the receiver knows it.
pub unmarshal_binary-parse-recv_loop :
    (a b : Asdu) (send_sn rcv_sn : ℕ) (noise rest : List ℕ) {raw apdu : List ℕ} {n : ℕ}
    → IsWellFormed a
    → valid a.params ≡ none
    → b.params ≡ a.params
    → expected_info_obj_len a ≡ some n
    → send_sn < 32768
    → rcv_sn < 32768
    → All (λ o. o ≢ start_frame) noise
    → marshal_binary a ≡ ok raw
    → new_i_frame send_sn rcv_sn raw ≡ some apdu
    → (received_apdus (noise ++ (apdu ++ rest)) ≡ apdu ∷ received_apdus rest)
      × (parse apdu ≡ parsed (i_apci send_sn rcv_sn) raw)
      × (unmarshal_binary b raw ≡ (received a, none))
unmarshal_binary-parse-recv_loop a b send_sn rcv_sn noise rest {raw = raw} {apdu = apdu} w v p e hs
      hr q m f =
    (
      received_apdus-noise noise apdu rest q (new_i_frame-IsFramed send_sn rcv_sn raw apdu f),
      parse-new_i_frame send_sn rcv_sn raw hs hr (length-marshal_binary a m) f,
      unmarshal_binary-marshal_binary a b w v p e m,
    )
