-- ===== src/Asdu/Monitor/Layouts.antt =====
-- An information object of asdu/mproc.go that is fields and a time tag is read from its octets
-- when the fields are.
use go_iecp.Shared.{
  ℕ, ◌≡◌, List, [], ◌++◌, some, length, arith, append_assoc, take-append, drop-append,
  length-append,
}
use go_iecp.Asdu.Error.{ok}
use go_iecp.Asdu.Message.{Asdu}
use go_iecp.Asdu.Codec.{with_info_obj}
use go_iecp.Asdu.Monitor.{
  TimeTag, no_tag, cp24, cp56, mismatch, time_octets, decode_time, decode_time_tag, Layout,
  tagged_octets, read_tag, read_tagged, element_of,
}
use go_iecp.Asdu.Monitor.RoundTrip.{Readable, bind-ok}

-- A time tag has the octets of its kind.
abbrev pub IsTimed : TimeTag → List ℕ → Type 0
IsTimed no_tag time = Unit
IsTimed cp24 time = length time ≡ 3
IsTimed cp56 time = length time ≡ 7
IsTimed mismatch time = Unit

-- What arrives of it: a type without a time tag loses it.
abbrev pub received_time : TimeTag → List ℕ → List ℕ
received_time no_tag time = []
received_time cp24 time = time
received_time cp56 time = time
received_time mismatch time = []

decode_time-append :
    (n : ℕ) (a : Asdu) (time rest : List ℕ)
    → length time ≡ n
    → decode_time n (with_info_obj a (time ++ rest)) ≡ some (time, with_info_obj a rest)
unfolding decode_time
decode_time-append n a time rest h =
    ground (arith, h, length-append time rest, take-append time rest, drop-append time rest)

decode_time_tag-time_octets :
    (tag : TimeTag) (a : Asdu) (time rest : List ℕ) {os : List ℕ}
    → IsTimed tag time
    → time_octets tag time ≡ ok os
    → decode_time_tag tag (with_info_obj a (os ++ rest))
      ≡ some (received_time tag time, with_info_obj a rest)
unfolding decode_time_tag
decode_time_tag-time_octets no_tag a time rest t h = ground (arith, h)
decode_time_tag-time_octets cp24 a time rest t h =
    ground (arith, h, decode_time-append 3 a time rest t)
decode_time_tag-time_octets cp56 a time rest t h =
    ground (arith, h, decode_time-append 7 a time rest t)
decode_time_tag-time_octets mismatch a time rest t h = absurd (ground (arith, h))

module _ {ℓ} {I F : Type ℓ} (l : Layout I F) (type_id : ℕ) (FitFields : I → Type 0)
    (f : I → F) where
  abbrev pub Fits : I → Type 0
  Fits v = FitFields v × IsTimed (l.tag type_id) (l.time v)

  abbrev pub received : ℕ → I → I
  received x v = l.build x (f v) (received_time (l.tag type_id) (l.time v))

  abbrev pub Decodable : Type ℓ
  Decodable =
      (a : Asdu) (v : I) (rest : List ℕ)
      → FitFields v
      → l.decode_fields type_id (with_info_obj a (l.fields type_id v ++ rest))
        ≡ some (f v, with_info_obj a rest)

  pub element_of-Readable : Decodable → Readable (element_of l) type_id Fits received
  unfolding Readable element_of tagged_octets read_tagged read_tag
  element_of-Readable decodable a v os rest x (fits, timed) h =
      let (time, written, os_eq) = bind-ok (time_octets (l.tag type_id) (l.time v)) _ h in
      ground (
        arith,
        os_eq,
        append_assoc (l.fields type_id v) time rest,
        decodable a v (time ++ rest) fits,
        decode_time_tag-time_octets (l.tag type_id) a (l.time v) rest timed written,
      )
