-- ===== src/Cs101/Server/Secondary/Blocked.antt =====
-- The channel of payloads of cs101/server.go, which one loop both fills and empties.
use go_iecp.Shared.{◌≤◌, ◌≡◌, ◌∙◌, ℕ, none, length, arith}
use go_iecp.Asdu.Message.{Asdu, new_asdu}
use go_iecp.Asdu.Marshal.{unmarshal_binary}
use go_iecp.Cs101.Frame.{Frame}
use go_iecp.Cs101.Frame.Decode.{empty_identifier, get_control_field}
use go_iecp.Cs101.Link.{prim_fc_user_data_conf}
use go_iecp.Cs101.Server.{Server, blocked, handler_payload_cap, dispatch_asdu, dispatch_decoded}
use go_iecp.Cs101.Server.Secondary.{handle_incoming_frame, handle_function, user_data_conf}
use go_iecp.Cs101.Server.Secondary.Repeated.{IsExpected, serve-handle_function}

-- Where fifty payloads wait for the loop, a frame of confirmed user data for this station, with the
-- count bit that it expects and an ASDU that can be decoded, makes the loop wait for room that only
-- it could make.
pub handle_incoming_frame-blocked :
    (now : ℕ) (f : Frame) (s : Server) (a : Asdu)
    → IsExpected f s
    → (get_control_field f).fun ≡ prim_fc_user_data_conf
    → unmarshal_binary (new_asdu s.params empty_identifier) f.asdu ≡ (a, none)
    → handler_payload_cap ≤ length s.handler_payload
    → handle_incoming_frame now f s ≡ blocked
unfolding handle_function user_data_conf dispatch_asdu dispatch_decoded
handle_incoming_frame-blocked now f s a x fun decodes full =
    serve-handle_function now f s x ∙ ground (arith, x, fun, decodes, full)
