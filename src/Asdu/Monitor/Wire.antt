-- ===== src/Asdu/Monitor/Wire.antt =====
-- An ASDU of process information between its sender, the binary form of asdu/asdu.go and its
-- getter.
use go_iecp.Shared.{
  ℕ, ◌≡◌, ◌≢◌, ◌<◌, ◌∙◌, ◌==◌, refl, sym, ap, Bool, true, false, Option, List, [], ◌∷◌, some, none,
  arith, length, if◌then◌else◌, not, ◌||◌,
}
use go_iecp.Asdu.Error.{Error, Result, ok, err}
use go_iecp.Asdu.Identifier.{CauseOfTransmission, get_info_obj_size}
use go_iecp.Asdu.TypeId.{f_sg_na_1}
use go_iecp.Asdu.Message.{Params, Asdu, new_asdu, valid, set_variable_number}
use go_iecp.Asdu.Codec.{with_info_obj, append_bytes, append_info_obj_addr}
use go_iecp.Asdu.Codec.Laws.{emptied}
use go_iecp.Asdu.Marshal.{marshal_binary, unmarshal_binary, expected_info_obj_len, objects_size}
use go_iecp.Asdu.Marshal.RoundTrip.{
  unmarshal_binary-marshal_binary, IsWellFormed, received, expected_info_obj_len-sized,
}
use go_iecp.Asdu.Monitor.{Element, append_infos, send_infos, check_valid, check_len, filled}
use go_iecp.Asdu.Monitor.RoundTrip.{bind-ok, started, send_infos-filled}

append_info_obj_addr-emptied :
    (a : Asdu) (addr : ℕ) {b : Asdu} → append_info_obj_addr a addr ≡ ok b → emptied b ≡ emptied a
unfolding append_info_obj_addr append_bytes
append_info_obj_addr-emptied a addr h = ground (arith, h)

append_bytes-emptied : (a : Asdu) (os : List ℕ) → emptied (append_bytes a os) ≡ emptied a
unfolding append_bytes
append_bytes-emptied a os = refl

addressed-emptied :
    (fresh : Bool) (a : Asdu) (addr : ℕ) {b : Asdu}
    → (if fresh then append_info_obj_addr a addr else ok a) ≡ ok b
    → emptied b ≡ emptied a
addressed-emptied true a addr h = append_info_obj_addr-emptied a addr h
addressed-emptied false a addr h = ground (arith, h)

module _ {ℓ} {I : Type ℓ} (el : Element I) (type_id : ℕ) (sequence : Bool) where
  -- A sender touches nothing but the octets of the objects.
  append_infos-emptied :
      (infos : List I) (once : Bool) (a : Asdu) {b : Asdu}
      → append_infos el type_id sequence once infos a ≡ ok b
      → emptied b ≡ emptied a
  unfolding append_infos
  append_infos-emptied [] once a h = ground (arith, h)
  append_infos-emptied (v ∷ infos) once a h =
      let fresh = not sequence || not once in
      let (c, addressed, h1) =
        bind-ok (if fresh then append_info_obj_addr a (el.ioa v) else ok a) _ h in
      let (os, written, h2) = bind-ok (el.octets type_id v) _ h1 in
      append_infos-emptied infos true (append_bytes c os) h2
      ∙ append_bytes-emptied c os
      ∙ addressed-emptied fresh a (el.ioa v) addressed

  module _ (p : Params) (coa : CauseOfTransmission) (ca : ℕ) (infos : List I) where
    pub send_infos-started :
        {b : Asdu}
        → send_infos el p type_id sequence coa ca infos ≡ ok b
        → with_info_obj (started p type_id sequence coa ca (length infos)) b.info_obj ≡ b
    unfolding new_asdu
    send_infos-started {b} h = sym (
        ap (λ d. with_info_obj d b.info_obj)
          (append_infos-emptied infos false (started p type_id sequence coa ca (length infos))
            (send_infos-filled el p type_id sequence coa ca infos h)))

abbrev pub sized_by : Result ℕ → (ℕ → Option Error) → Option Error
sized_by (err e) check = some e
sized_by (ok size) check = check size

pub sized_by-none :
    (r : Result ℕ) (check : ℕ → Option Error)
    → sized_by r check ≡ none
    → (size : ℕ) × (r ≡ ok size) × (check size ≡ none)
sized_by-none (err e) check h = absurd (ground arith)
sized_by-none (ok size) check h = (size, refl, h)

module _ (p : Params) (type_id : ℕ) (sequence : Bool) (n : ℕ) where
  pub check_valid-sized :
      check_valid p type_id sequence n ≡ none
      → (n ≢ 0) × (sized_by (get_info_obj_size type_id) (check_len p sequence n) ≡ none)
  unfolding check_valid
  check_valid-sized h = ground (arith, h)

  pub check_len-valid : (size : ℕ) → check_len p sequence n size ≡ none → valid p ≡ none
  unfolding check_len
  check_len-valid size h = ground (arith, h)

-- The segment has no size in the table.
pub get_info_obj_size-segment :
    (t size : ℕ) → get_info_obj_size t ≡ ok size → (t == f_sg_na_1) ≡ false
unfolding get_info_obj_size
get_info_obj_size-segment t size h = ground (arith, h)

-- The ranges of the Go types, which the code keeps without a test.
pub record InRanges (coa : CauseOfTransmission) (ca type_id : ℕ) : Type 0 where
  pub type_id_byte : type_id < 256
  pub cause_fits : coa.cause < 64
  pub common_addr_uint16 : ca < 65536

module _ (p : Params) (type_id : ℕ) (sequence : Bool) (coa : CauseOfTransmission) (ca n : ℕ) where
  started-expected :
      (size : ℕ) (body : List ℕ)
      → get_info_obj_size type_id ≡ ok size
      → (m : ℕ) × (expected_info_obj_len (with_info_obj (started p type_id sequence coa ca n) body)
          ≡ some m)
  unfolding new_asdu
  started-expected size body h =
      let a = with_info_obj (started p type_id sequence coa ca n) body in
      (
        objects_size a size,
        expected_info_obj_len-sized a h (get_info_obj_size-segment type_id size h),
      )

  started-IsWellFormed :
      (body : List ℕ)
      → InRanges coa ca type_id
      → n < 128
      → IsWellFormed (with_info_obj (started p type_id sequence coa ca n) body)
  unfolding new_asdu
  started-IsWellFormed body r h = record {
    type_id_byte = r.type_id_byte;
    number_fits = h;
    cause_fits = r.cause_fits;
    orig_addr_byte = ground arith;
    common_addr_uint16 = r.common_addr_uint16;
  }

  -- The originator address is zero, so that nothing is lost.
  started-received :
      (body : List ℕ)
      → received (with_info_obj (started p type_id sequence coa ca n) body)
        ≡ with_info_obj (started p type_id sequence coa ca n) body
  unfolding new_asdu
  started-received body = ground arith

  unmarshal_binary-started :
      (body : List ℕ) (c : Asdu) {raw : List ℕ} {size : ℕ}
      → InRanges coa ca type_id
      → n < 128
      → valid p ≡ none
      → get_info_obj_size type_id ≡ ok size
      → c.params ≡ p
      → marshal_binary (with_info_obj (started p type_id sequence coa ca n) body) ≡ ok raw
      → unmarshal_binary c raw ≡ (with_info_obj (started p type_id sequence coa ca n) body, none)
  unfolding new_asdu
  unmarshal_binary-started body c {size = size} r h v g same m =
      let a = with_info_obj (started p type_id sequence coa ca n) body in
      let (len, expected) = started-expected size body g in
      unmarshal_binary-marshal_binary a c (started-IsWellFormed body r h) v same expected m
      ∙ ap (λ b. (b, none)) (started-received body)

module _ {ℓ} {I : Type ℓ} (el : Element I) where
  pub send_infos-passed :
      (p : Params) (type_id : ℕ) (sequence : Bool) (coa : CauseOfTransmission) (ca : ℕ)
      (infos : List I) {b : Asdu}
      → send_infos el p type_id sequence coa ca infos ≡ ok b
      → (check_valid p type_id sequence (length infos) ≡ none) × (length infos < 128)
  unfolding send_infos filled set_variable_number
  send_infos-passed p type_id sequence coa ca infos h = ground (arith, h)

  -- What a sender hands over and `MarshalBinary` writes, `UnmarshalBinary` reads back whole.
  pub unmarshal_binary-send_infos :
      (p : Params) (type_id : ℕ) (sequence : Bool) (coa : CauseOfTransmission) (ca : ℕ)
      (infos : List I) (c : Asdu) {b : Asdu} {raw : List ℕ}
      → InRanges coa ca type_id
      → send_infos el p type_id sequence coa ca infos ≡ ok b
      → c.params ≡ p
      → marshal_binary b ≡ ok raw
      → unmarshal_binary c raw ≡ (b, none)
  unmarshal_binary-send_infos p type_id sequence coa ca infos c {b} r h same m =
      let n = length infos in
      let (passed, few) = send_infos-passed p type_id sequence coa ca infos h in
      let (some_infos, sized) = check_valid-sized p type_id sequence n passed in
      let (size, g, fits) =
        sized_by-none (get_info_obj_size type_id) (check_len p sequence n) sized in
      let b_eq = send_infos-started el type_id sequence p coa ca infos h in
      unmarshal_binary-started p type_id sequence coa ca n b.info_obj c r few
        (check_len-valid p type_id sequence n size fits) g same (ap marshal_binary b_eq ∙ m)
      ∙ ap (λ d. (d, none)) b_eq
