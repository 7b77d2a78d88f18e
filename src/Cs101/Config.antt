-- ===== src/Cs101/Config.antt =====
-- cs101/config.go: the parameters of the link. A duration is a number of nanoseconds. The connect
-- timeout of TCP may be negative, which `Valid` lets pass; the other negative durations, which it
-- refuses with those below the minimum, are left out. A text is the list of its octets.
pub mod Laws
use go_iecp.Shared.{
  ℕ, ℤ, pos, negsuc, ◌*◌, Bool, true, false, ◌&&◌, ◌||◌, List, [], ◌∷◌, Option, none, some, ◌==◌,
  ◌!=◌, ltb, leb, if◌then◌else◌,
}
use go_iecp.Cs104.Config.{second, hour}

abbrev pub millisecond : ℕ
millisecond = 1_000_000

abbrev pub mode_unbalanced : ℕ
mode_unbalanced = 0

abbrev pub mode_balanced : ℕ
mode_balanced = 1

abbrev pub transport_serial : ℕ
transport_serial = 0

abbrev pub transport_tcp_client : ℕ
transport_tcp_client = 1

abbrev pub transport_tcp_server : ℕ
transport_tcp_server = 2

pub record Config : Type 0 where
  pub transport : ℕ
  pub serial_address : List ℕ
  pub baud_rate : ℤ
  pub tcp_address : List ℕ
  pub connect_timeout : ℤ
  pub mode : ℕ
  pub link_address : ℕ
  pub link_addr_size : ℕ
  pub timeout_response_t1 : ℕ
  pub timeout_repeat_t2 : ℕ
  pub timeout_test_t3 : ℕ
  pub timeout_send_link_msg : ℕ
  pub max_send_queue_size : ℤ
  pub max_apdu_length : ℕ

-- The texts of the errors that `Valid` returns.
pub data ConfigError : Type 0 where
  serial_address_missing baud_rate_sign tcp_address_missing transport_type : ConfigError
  transmission_mode addr_size addr_limit t1_range t2_range t2_not_below_t1 : ConfigError
  t3_range send_link_msg_range send_queue_sign apdu_range : ConfigError

abbrev is_empty : List ℕ → Bool
is_empty [] = true
is_empty (c ∷ cs) = false

abbrev is_positive : ℤ → Bool
is_positive (pos n) = ltb 0 n
is_positive (negsuc n) = false

abbrev is_zero : ℤ → Bool
is_zero (pos n) = n == 0
is_zero (negsuc n) = false

-- The default for an unspecified value, or `none` for one out of range.
unfoldable pub defaulted : ℕ → ℕ → ℕ → ℕ → Option ℕ
defaulted x default least most =
    if x == 0 then some default else if ltb x least || ltb most x then none else some x

-- The checks of `Valid`, in its order; each goes on with the next, and leaves the values that
-- are set by then.
check_apdu : Config → Config × Option ConfigError
check_apdu c = elim (defaulted c.max_apdu_length 253 1 253) [
  | none ↦ (c, some apdu_range)
  | some n ↦ (record c { max_apdu_length = n }, none)
]

check_queue : Config → Config × Option ConfigError
check_queue c = elim c.max_send_queue_size [
  | pos n ↦ check_apdu (if n == 0 then record c { max_send_queue_size = pos 100 } else c)
  | negsuc n ↦ (c, some send_queue_sign)
]

check_send_link_msg : Config → Config × Option ConfigError
check_send_link_msg c =
    elim (defaulted c.timeout_send_link_msg (200 * millisecond) millisecond (10000 * millisecond)) [
      | none ↦ (c, some send_link_msg_range)
      | some t ↦ check_queue (record c { timeout_send_link_msg = t })
    ]

check_t3 : Config → Config × Option ConfigError
check_t3 c = elim (defaulted c.timeout_test_t3 (20 * second) second (48 * hour)) [
  | none ↦ (c, some t3_range)
  | some t ↦ check_send_link_msg (record c { timeout_test_t3 = t })
]

check_order : Config → Config × Option ConfigError
check_order c =
    if leb c.timeout_response_t1 c.timeout_repeat_t2 then (c, some t2_not_below_t1) else check_t3 c

check_t2 : Config → Config × Option ConfigError
check_t2 c = elim (defaulted c.timeout_repeat_t2 (5 * second) second (255 * second)) [
  | none ↦ (c, some t2_range)
  | some t ↦ check_order (record c { timeout_repeat_t2 = t })
]

check_t1 : Config → Config × Option ConfigError
check_t1 c = elim (defaulted c.timeout_response_t1 (10 * second) second (255 * second)) [
  | none ↦ (c, some t1_range)
  | some t ↦ check_t2 (record c { timeout_response_t1 = t })
]

check_link : Config → Config × Option ConfigError
check_link c =
    if c.mode != mode_unbalanced && c.mode != mode_balanced
    then (c, some transmission_mode)
    else if ltb c.link_addr_size 1 || ltb 2 c.link_addr_size
    then (c, some addr_size)
    else if c.link_addr_size == 1 && ltb 0xff c.link_address
    then (c, some addr_limit)
    else check_t1 c

-- `Config.Valid`
unfoldable pub valid : Config → Config × Option ConfigError
unfolding check_link check_t1 check_t2 check_order check_t3 check_send_link_msg check_queue
    check_apdu
valid c =
    if c.transport == transport_serial
    then if is_empty c.serial_address
      then (c, some serial_address_missing)
      else if is_positive c.baud_rate
      then check_link c
      else (c, some baud_rate_sign)
    else if c.transport == transport_tcp_client || c.transport == transport_tcp_server
    then if is_empty c.tcp_address
      then (c, some tcp_address_missing)
      else check_link (
          if is_zero c.connect_timeout then record c { connect_timeout = pos (30 * second) } else c)
    else (c, some transport_type)

unfoldable pub default_config : Config
default_config = record {
  transport = transport_serial;
  serial_address = [];
  baud_rate = pos 0;
  tcp_address = [];
  connect_timeout = pos 0;
  mode = mode_unbalanced;
  link_address = 1;
  link_addr_size = 1;
  timeout_response_t1 = 10 * second;
  timeout_repeat_t2 = 5 * second;
  timeout_test_t3 = 20 * second;
  timeout_send_link_msg = 200 * millisecond;
  max_send_queue_size = pos 100;
  max_apdu_length = 253;
}
