-- ===== src/Asdu/Monitor/Sizes.antt =====
-- The octets of an information object of asdu/mproc.go are as many as the table of asdu/identifier.go
-- gives for the type.
use go_iecp.Shared.{ℕ, ◌≡◌, ◌≢◌, ◌+◌, List, ◌==◌, if◌then◌else◌, length, length-append, arith}
use go_iecp.Asdu.Error.{ok}
use go_iecp.Asdu.TypeId.{m_me_nd_1}
use go_iecp.Asdu.Identifier.{get_info_obj_size}
use go_iecp.Asdu.Monitor.{
  TimeTag, no_tag, cp24, cp56, mismatch, time_octets, Layout, element_of, tagged_octets,
}
use go_iecp.Asdu.Monitor.RoundTrip.{bind-ok}
use go_iecp.Asdu.Monitor.Layouts.{IsTimed}
use go_iecp.Asdu.Monitor.Elements
use go_iecp.Asdu.Monitor.Arrivals.{
  Kind, Object, layout, type_of, IsSendable, single_kind, double_kind, step_kind, bits_kind,
  normal_kind, scaled_kind, float_kind, totals_kind, event_kind, scd_kind,
}

abbrev time_size : TimeTag → ℕ
time_size no_tag = 0
time_size cp24 = 3
time_size cp56 = 7
time_size mismatch = 0

length-time_octets :
    (tag : TimeTag) (time : List ℕ) {os : List ℕ}
    → IsTimed tag time
    → time_octets tag time ≡ ok os
    → (length os ≡ time_size tag) × (tag ≢ mismatch)
length-time_octets no_tag time t h = ground (arith, h)
length-time_octets cp24 time t h = ground (arith, h, t)
length-time_octets cp56 time t h = ground (arith, h, t)
length-time_octets mismatch time t h = absurd (ground (arith, h))

abbrev fields_size : Kind → ℕ → ℕ
fields_size single_kind t = 1
fields_size double_kind t = 1
fields_size step_kind t = 2
fields_size bits_kind t = 5
fields_size normal_kind t = if t == m_me_nd_1 then 2 else 3
fields_size scaled_kind t = 3
fields_size float_kind t = 5
fields_size totals_kind t = 5
fields_size event_kind t = 3
fields_size scd_kind t = 5

length-fields : (k : Kind) (t : ℕ) (v : Object k) → length ((layout k).fields t v) ≡ fields_size k t
unfolding Elements.single_point Elements.double_point Elements.step_position Elements.bit_string32
    Elements.measured_value_normal Elements.measured_value_scaled Elements.measured_value_float
    Elements.integrated_totals Elements.event_of_protection_equipment
    Elements.packed_single_point_with_scd
length-fields single_kind t v = ground arith
length-fields double_kind t v = ground arith
length-fields step_kind t v = ground arith
length-fields bits_kind t v = ground arith
length-fields normal_kind t v = ground arith
length-fields scaled_kind t v = ground arith
length-fields float_kind t v = ground arith
length-fields totals_kind t v = ground arith
length-fields event_kind t v = ground arith
length-fields scd_kind t v = ground arith

size-type :
    (k : Kind) (t : ℕ) {size : ℕ}
    → (layout k).tag (type_of k t) ≢ mismatch
    → get_info_obj_size (type_of k t) ≡ ok size
    → size ≡ fields_size k (type_of k t) + time_size ((layout k).tag (type_of k t))
unfolding get_info_obj_size Elements.single_point Elements.double_point Elements.step_position
    Elements.bit_string32 Elements.measured_value_normal Elements.measured_value_scaled
    Elements.measured_value_float Elements.integrated_totals Elements.event_of_protection_equipment
    Elements.packed_single_point_with_scd
size-type single_kind t m h = ground (arith, m, h)
size-type double_kind t m h = ground (arith, m, h)
size-type step_kind t m h = ground (arith, m, h)
size-type bits_kind t m h = ground (arith, m, h)
size-type normal_kind t m h = ground (arith, m, h)
size-type scaled_kind t m h = ground (arith, m, h)
size-type float_kind t m h = ground (arith, m, h)
size-type totals_kind t m h = ground (arith, m, h)
size-type event_kind t m h = ground (arith, m, h)
size-type scd_kind t m h = ground (arith, m, h)

length-tagged_octets :
    {I F : Type 0} (l : Layout I F) (t : ℕ) (v : I) {os : List ℕ}
    → IsTimed (l.tag t) (l.time v)
    → (element_of l).octets t v ≡ ok os
    → (length os ≡ length (l.fields t v) + time_size (l.tag t)) × (l.tag t ≢ mismatch)
unfolding element_of tagged_octets
length-tagged_octets l t v timed h =
    let (time, written, os_eq) = bind-ok (time_octets (l.tag t) (l.time v)) _ h in
    let (len, matches) = length-time_octets (l.tag t) (l.time v) timed written in
    (ground (arith, os_eq, len, length-append (l.fields t v) time), matches)

-- The octets of an object are as many as the table gives.
pub length-octets :
    (k : Kind) (t : ℕ) (v : Object k) {os : List ℕ} {size : ℕ}
    → IsSendable k t v
    → (element_of (layout k)).octets (type_of k t) v ≡ ok os
    → get_info_obj_size (type_of k t) ≡ ok size
    → length os ≡ size
length-octets k t v (fits, timed) h g =
    let (len, matches) = length-tagged_octets (layout k) (type_of k t) v timed h in
    omega (arith, len, length-fields k (type_of k t) v, size-type k t matches g)
