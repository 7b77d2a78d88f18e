-- ===== src/Asdu/Marshal/Mirror.antt =====
-- The mirror of a request in asdu/asdu.go: SendReplyMirror's ASDU under MarshalBinary.
use go_iecp.Shared.{ℕ, ◌≡◌, ◌≢◌, refl, List, take, drop, none, arith}
use go_iecp.Asdu.Error.{ok, err, common_addr_zero}
use go_iecp.Asdu.Message.{Asdu, reply_mirror, identifier_size}
use go_iecp.Asdu.Marshal.{
  marshal_refusal, raw_octets, marshal_binary, expected_info_obj_len, expected_of, expected_fixed,
  variable_info_obj_size, objects_size, checked_octets, orig_addr_octets, common_addr_octets,
}
use go_iecp.Asdu.Marshal.RoundTrip.{IsSized}

module _ (a : Asdu) (c : ℕ) where
  expected-mirror : expected_info_obj_len (reply_mirror a c) ≡ expected_info_obj_len a
  unfolding expected_info_obj_len expected_of expected_fixed variable_info_obj_size objects_size
      reply_mirror
  expected-mirror = refl

  refusal-mirror : c ≢ 0 → marshal_refusal a ≡ none → marshal_refusal (reply_mirror a c) ≡ none
  unfolding marshal_refusal reply_mirror identifier_size
  refusal-mirror n h = ground arith

  octets-mirror :
      (take 2 (raw_octets (reply_mirror a c)) ≡ take 2 (raw_octets a))
      × (drop 3 (raw_octets (reply_mirror a c)) ≡ drop 3 (raw_octets a))
  unfolding raw_octets orig_addr_octets common_addr_octets reply_mirror
  octets-mirror = (refl, refl)

  info_obj-mirror : (reply_mirror a c).info_obj ≡ a.info_obj
  unfolding reply_mirror
  info_obj-mirror = refl

  pub marshal_binary-reply_mirror :
      {raw : List ℕ}
      → c ≢ 0
      → marshal_binary a ≡ ok raw
      → (raw' : List ℕ) × (marshal_binary (reply_mirror a c) ≡ ok raw')
        × (take 2 raw' ≡ take 2 raw)
        × (drop 3 raw' ≡ drop 3 raw)
  unfolding marshal_binary checked_octets
  marshal_binary-reply_mirror n h = (
    raw_octets (reply_mirror a c),
    ground (arith, expected-mirror, refusal-mirror n, info_obj-mirror),
    ground (arith, octets-mirror),
    ground (arith, octets-mirror),
  )

  pub marshal_binary-zero :
      c ≢ 0
      → IsSized a.params
      → a.common_addr ≡ 0
      → marshal_binary (reply_mirror a c) ≡ err common_addr_zero
  unfolding marshal_binary marshal_refusal reply_mirror
  marshal_binary-zero n s z = ground arith
