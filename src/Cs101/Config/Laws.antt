-- ===== src/Cs101/Config/Laws.antt =====
-- What `Valid` of cs101/config.go leaves behind.
use go_iecp.Shared.{ℕ, ℤ, pos, negsuc, ◌≤◌, ◌<◌, ◌*◌, ◌≡◌, ◌≢◌, ◌==◌, if◌then◌else◌, [], true}
use go_iecp.Cs104.Config.{second, hour}
use go_iecp.Cs101.Config.{
  Config, millisecond, mode_balanced, transport_serial, transport_tcp_server, is_positive,
}

-- The ranges of the timeouts and sizes, and T2 below T1.
pub record IsTimed (c : Config) : Type 0 where
  pub t1_least : second ≤ c.timeout_response_t1
  pub t1_most : c.timeout_response_t1 ≤ 255 * second
  pub t2_least : second ≤ c.timeout_repeat_t2
  pub t2_below_t1 : c.timeout_repeat_t2 < c.timeout_response_t1
  pub t3_least : second ≤ c.timeout_test_t3
  pub t3_most : c.timeout_test_t3 ≤ 48 * hour
  pub send_least : millisecond ≤ c.timeout_send_link_msg
  pub send_most : c.timeout_send_link_msg ≤ 10000 * millisecond
  pub queue_positive : is_positive c.max_send_queue_size ≡ true
  pub apdu_least : 1 ≤ c.max_apdu_length
  pub apdu_most : c.max_apdu_length ≤ 253

-- The mode, and an address that fits its one or two octets.
pub record IsLinked (c : Config) : Type 0 where
  pub mode : c.mode ≤ mode_balanced
  pub size_least : 1 ≤ c.link_addr_size
  pub size_most : c.link_addr_size ≤ 2
  pub address_fits : c.link_addr_size ≡ 1 → c.link_address ≤ 0xff

-- A serial port with its speed, or a TCP endpoint.
pub record IsReachable (c : Config) : Type 0 where
  pub transport : c.transport ≤ transport_tcp_server
  pub serial :
      c.transport ≡ transport_serial → (c.serial_address ≢ []) × (is_positive c.baud_rate ≡ true)
  pub tcp : c.transport ≢ transport_serial → c.tcp_address ≢ []

abbrev or_default : ℕ → ℕ → ℕ
or_default x default = if x == 0 then default else x

abbrev or_signed : ℤ → ℕ → ℤ
or_signed (pos n) default = if n == 0 then pos default else pos n
or_signed (negsuc n) default = negsuc n

-- The values given, and the default for each unspecified one that the transport uses.
pub filled : Config → Config
filled c = record c {
  connect_timeout =
      if c.transport == transport_serial
      then c.connect_timeout
      else or_signed c.connect_timeout (30 * second);
  timeout_response_t1 = or_default c.timeout_response_t1 (10 * second);
  timeout_repeat_t2 = or_default c.timeout_repeat_t2 (5 * second);
  timeout_test_t3 = or_default c.timeout_test_t3 (20 * second);
  timeout_send_link_msg = or_default c.timeout_send_link_msg (200 * millisecond);
  max_send_queue_size = or_signed c.max_send_queue_size 100;
  max_apdu_length = or_default c.max_apdu_length 253;
}

-- The values after the checks of the timeouts and sizes.
abbrev filled_times : Config → Config
filled_times c = record c {
  timeout_response_t1 = or_default c.timeout_response_t1 (10 * second);
  timeout_repeat_t2 = or_default c.timeout_repeat_t2 (5 * second);
  timeout_test_t3 = or_default c.timeout_test_t3 (20 * second);
  timeout_send_link_msg = or_default c.timeout_send_link_msg (200 * millisecond);
  max_send_queue_size = or_signed c.max_send_queue_size 100;
  max_apdu_length = or_default c.max_apdu_length 253;
}
