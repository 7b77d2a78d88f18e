-- ===== src/Cs104/Config/Laws.antt =====
-- What `Valid` of cs104/config.go leaves behind.
use go_iecp.Shared.{ℕ, ◌≤◌, ◌<◌, ◌*◌, ◌≡◌, none, some, ◌==◌, if◌then◌else◌, arith, leb, ◌&&◌, ◌↔◌}
use go_iecp.Cs104.Config.{Config, second, hour, defaulted, valid}

-- The ranges of the standard, and t2 below t1.
pub record IsValid (c : Config) : Type 0 where
  pub t0_least : second ≤ c.connect_timeout0
  pub t0_most : c.connect_timeout0 ≤ 255 * second
  pub k_least : 1 ≤ c.send_un_ack_limit_k
  pub k_most : c.send_un_ack_limit_k ≤ 32767
  pub t1_least : second ≤ c.send_un_ack_timeout1
  pub t1_most : c.send_un_ack_timeout1 ≤ 255 * second
  pub w_least : 1 ≤ c.recv_un_ack_limit_w
  pub w_most : c.recv_un_ack_limit_w ≤ 32767
  pub t2_least : second ≤ c.recv_un_ack_timeout2
  pub t2_most : c.recv_un_ack_timeout2 ≤ 255 * second
  pub t3_least : second ≤ c.idle_timeout3
  pub t3_most : c.idle_timeout3 ≤ 48 * hour
  pub t2_below_t1 : c.recv_un_ack_timeout2 < c.send_un_ack_timeout1

abbrev or_default : ℕ → ℕ → ℕ
or_default x default = if x == 0 then default else x

-- The values given, and the default of the standard for each unspecified one.
pub filled : Config → Config
filled c = record {
  connect_timeout0 = or_default c.connect_timeout0 (30 * second);
  send_un_ack_limit_k = or_default c.send_un_ack_limit_k 12;
  send_un_ack_timeout1 = or_default c.send_un_ack_timeout1 (15 * second);
  recv_un_ack_limit_w = or_default c.recv_un_ack_limit_w 8;
  recv_un_ack_timeout2 = or_default c.recv_un_ack_timeout2 (10 * second);
  idle_timeout3 = or_default c.idle_timeout3 (20 * second);
}

defaulted_lem :
    (x default least most : ℕ)
    → least ≤ default
    → default ≤ most
    → let y = or_default x default in
      defaulted x default least most ≡ (if leb least y && leb y most then some y else none)
unfolding defaulted
defaulted_lem x default least most h k = ground arith

-- `Valid` answers without an error exactly when the values, with the defaults filled in, lie in
-- the ranges of the standard and t2 is below t1; it then leaves the filled values.
pub valid-none : (c c' : Config) → (valid c ≡ (c', none)) ↔ ((c' ≡ filled c) × IsValid (filled c))
unfolding valid filled
valid-none c c' = (
  λ h. ground (
    arith,
    defaulted_lem c.connect_timeout0 (30 * second) second (255 * second),
    defaulted_lem c.send_un_ack_limit_k 12 1 32767,
    defaulted_lem c.send_un_ack_timeout1 (15 * second) second (255 * second),
    defaulted_lem c.recv_un_ack_limit_w 8 1 32767,
    defaulted_lem c.recv_un_ack_timeout2 (10 * second) second (255 * second),
    defaulted_lem c.idle_timeout3 (20 * second) second (48 * hour),
  ),
  λ h. ground (
    arith,
    defaulted_lem c.connect_timeout0 (30 * second) second (255 * second),
    defaulted_lem c.send_un_ack_limit_k 12 1 32767,
    defaulted_lem c.send_un_ack_timeout1 (15 * second) second (255 * second),
    defaulted_lem c.recv_un_ack_limit_w 8 1 32767,
    defaulted_lem c.recv_un_ack_timeout2 (10 * second) second (255 * second),
    defaulted_lem c.idle_timeout3 (20 * second) second (48 * hour),
  ),
)
