-- ===== src/Cs104/Config.antt =====
-- cs104/config.go: the parameters of the protocol. A duration is a number of nanoseconds; the
-- negative ones, which `Valid` refuses with those below the minimum, are left out.
pub mod Laws
use go_iecp.Shared.{
  ℕ, ◌*◌, Bool, true, false, ◌||◌, Option, none, some, ◌==◌, ltb, leb, if◌then◌else◌,
}

abbrev pub second : ℕ
second = 1_000_000_000

abbrev pub hour : ℕ
hour = 3600 * second

pub record Config : Type 0 where
  pub connect_timeout0 : ℕ
  pub send_un_ack_limit_k : ℕ
  pub send_un_ack_timeout1 : ℕ
  pub recv_un_ack_limit_w : ℕ
  pub recv_un_ack_timeout2 : ℕ
  pub idle_timeout3 : ℕ

-- The texts of the errors that `Valid` returns.
pub data ConfigError : Type 0 where
  t0_range k_range t1_range w_range t2_range t3_range t2_not_below_t1 : ConfigError

-- The default for an unspecified value, or `none` for one out of range.
defaulted : ℕ → ℕ → ℕ → ℕ → Option ℕ
defaulted x default least most =
    if x == 0 then some default else if ltb x least || ltb most x then none else some x

-- The checks of `Valid`, in its order; each goes on with the next, and leaves the values that
-- are set by then.
check_order : Config → Config × Option ConfigError
check_order c =
    if leb c.send_un_ack_timeout1 c.recv_un_ack_timeout2
    then (c, some t2_not_below_t1)
    else (c, none)

check_t3 : Config → Config × Option ConfigError
check_t3 c = elim (defaulted c.idle_timeout3 (20 * second) second (48 * hour)) [
  | none ↦ (c, some t3_range)
  | some t ↦ check_order (record c { idle_timeout3 = t })
]

check_t2 : Config → Config × Option ConfigError
check_t2 c = elim (defaulted c.recv_un_ack_timeout2 (10 * second) second (255 * second)) [
  | none ↦ (c, some t2_range)
  | some t ↦ check_t3 (record c { recv_un_ack_timeout2 = t })
]

check_w : Config → Config × Option ConfigError
check_w c = elim (defaulted c.recv_un_ack_limit_w 8 1 32767) [
  | none ↦ (c, some w_range)
  | some w ↦ check_t2 (record c { recv_un_ack_limit_w = w })
]

check_t1 : Config → Config × Option ConfigError
check_t1 c = elim (defaulted c.send_un_ack_timeout1 (15 * second) second (255 * second)) [
  | none ↦ (c, some t1_range)
  | some t ↦ check_w (record c { send_un_ack_timeout1 = t })
]

check_k : Config → Config × Option ConfigError
check_k c = elim (defaulted c.send_un_ack_limit_k 12 1 32767) [
  | none ↦ (c, some k_range)
  | some k ↦ check_t1 (record c { send_un_ack_limit_k = k })
]

pub valid : Config → Config × Option ConfigError
unfolding check_order check_t3 check_t2 check_w check_t1 check_k
valid c = elim (defaulted c.connect_timeout0 (30 * second) second (255 * second)) [
  | none ↦ (c, some t0_range)
  | some t ↦ check_k (record c { connect_timeout0 = t })
]

unfoldable pub default_config : Config
default_config = record {
  connect_timeout0 = 30 * second;
  send_un_ack_limit_k = 12;
  send_un_ack_timeout1 = 15 * second;
  recv_un_ack_limit_w = 8;
  recv_un_ack_timeout2 = 10 * second;
  idle_timeout3 = 20 * second;
}

-- `flowControlAdvice`: whether it has advice.
pub flow_control_advice : Config → Bool
flow_control_advice c = ltb (2 * c.send_un_ack_limit_k) (3 * c.recv_un_ack_limit_w)
