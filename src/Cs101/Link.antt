-- ===== src/Cs101/Link.antt =====
-- cs101/frame.go and cs101/error.go: the function codes and the errors of the link procedures, and
-- what both stations build a frame from.
use go_iecp.Shared.{
  ℕ, ℤ, pos, negsuc, ◌/◌, Bool, true, false, not, List, [], ◌∷◌, ◌==◌, leb, if◌then◌else◌, byte,
}
use go_iecp.Asdu.Error.{Error}

abbrev pub prim_fc_reset_link : ℕ
prim_fc_reset_link = 0

abbrev pub prim_fc_reset_user : ℕ
prim_fc_reset_user = 1

abbrev pub prim_fc_test_link : ℕ
prim_fc_test_link = 2

abbrev pub prim_fc_user_data_conf : ℕ
prim_fc_user_data_conf = 3

abbrev pub prim_fc_user_data_no_conf : ℕ
prim_fc_user_data_no_conf = 4

abbrev pub prim_fc_req_access : ℕ
prim_fc_req_access = 8

abbrev pub prim_fc_req_status : ℕ
prim_fc_req_status = 9

abbrev pub prim_fc_req_data1 : ℕ
prim_fc_req_data1 = 10

abbrev pub prim_fc_req_data2 : ℕ
prim_fc_req_data2 = 11

abbrev pub sec_fc_conf_ack : ℕ
sec_fc_conf_ack = 0

abbrev pub sec_fc_conf_nack : ℕ
sec_fc_conf_nack = 1

abbrev pub sec_fc_user_data_conf : ℕ
sec_fc_user_data_conf = 8

abbrev pub sec_fc_user_data_no_rep : ℕ
sec_fc_user_data_no_rep = 9

abbrev pub sec_fc_resp_status : ℕ
sec_fc_resp_status = 11

abbrev pub sec_fc_resp_link_nf : ℕ
sec_fc_resp_link_nf = 14

abbrev pub sec_fc_resp_link_ni : ℕ
sec_fc_resp_link_ni = 15

pub data LinkError : Type 0 where
  use_closed_connection buffer_fulled not_active send_queue_full timeout_t1 : LinkError
  marshal : Error → LinkError

-- The capacity of the channel of frames to be sent.
abbrev pub send_frame_cap : ℕ
send_frame_cap = 20

-- `PutUint16` of the little-endian order.
unfoldable pub encode_link_addr : ℕ → ℕ → List ℕ
encode_link_addr size addr =
    if size == 1
    then byte addr ∷ []
    else if size == 2
    then byte addr ∷ byte (addr / 256) ∷ []
    else []

-- `len(queue) >= MaxSendQueueSize`
abbrev pub at_limit : ℕ → ℤ → Bool
at_limit n (pos limit) = leb limit n
at_limit n (negsuc limit) = true

-- `!=` on Booleans.
abbrev pub differs : Bool → Bool → Bool
differs true b = not b
differs false b = b
