-- ===== src/Asdu/Monitor/Marshals.antt =====
-- `MarshalBinary` of asdu/asdu.go writes what the senders of asdu/mproc.go hand over.
use go_iecp.Shared.{
  ℕ, zero, suc, ◌≡◌, ◌≢◌, ◌≤◌, ◌+◌, ◌*◌, ◌∙◌, sym, ap, Bool, true, false, not, ◌||◌, List, [], ◌∷◌,
  some, none, All, length, length-append, if◌then◌else◌, arith,
}
use mathlib.Core.Path.{subst}
use go_iecp.Asdu.Error.{ok}
use go_iecp.Asdu.Identifier.{CauseOfTransmission, get_info_obj_size}
use go_iecp.Asdu.Message.{Params, Asdu, asdu_size_max, identifier_size, valid, new_asdu}
use go_iecp.Asdu.Codec.{with_info_obj, append_bytes, append_info_obj_addr}
use go_iecp.Asdu.Marshal.{marshal_binary, raw_octets, objects_size}
use go_iecp.Asdu.Marshal.RoundTrip.{
  expected_info_obj_len-sized, IsMarshallable, marshal_binary-IsMarshallable,
}
use go_iecp.Asdu.Monitor.{Element, append_infos, send_infos, check_len}
use go_iecp.Asdu.Monitor.RoundTrip.{bind-ok, started, send_infos-filled, addr_octets}
use go_iecp.Asdu.Monitor.Wire.{
  sized_by-none, check_valid-sized, check_len-valid, send_infos-started, send_infos-passed,
  get_info_obj_size-segment,
}

-- The octets that objects take: an address in front of each, or of the first of a sequence.
abbrev infos_len : Bool → ℕ → ℕ → Bool → ℕ → ℕ
infos_len sequence addr size once zero = 0
infos_len sequence addr size once (suc n) =
    (if not sequence || not once then addr else 0) + size + infos_len sequence addr size true n

infos_len-once : (addr size n : ℕ) → infos_len true addr size true n ≡ n * size
infos_len-once addr size zero = ground arith
infos_len-once addr size (suc n) = ground (arith, infos_len-once addr size n)

infos_len-each :
    (addr size n : ℕ) (once : Bool) → infos_len false addr size once n ≡ n * (addr + size)
infos_len-each addr size zero once = ground arith
infos_len-each addr size (suc n) once = ground (arith, infos_len-each addr size n true)

infos_len-sequence : (addr size n : ℕ) → n ≢ 0 → infos_len true addr size false n ≡ addr + n * size
infos_len-sequence addr size zero h = absurd (ground (arith, h))
infos_len-sequence addr size (suc n) h = ground (arith, infos_len-once addr size n)

length-append_bytes :
    (a : Asdu) (os : List ℕ) → length (append_bytes a os).info_obj ≡ length a.info_obj + length os
unfolding append_bytes
length-append_bytes a os = length-append a.info_obj os

length-append_info_obj_addr :
    (a : Asdu) (addr : ℕ) {b : Asdu}
    → append_info_obj_addr a addr ≡ ok b
    → (length b.info_obj ≡ length a.info_obj + a.info_obj_addr_size)
      × (b.info_obj_addr_size ≡ a.info_obj_addr_size)
unfolding append_info_obj_addr append_bytes
length-append_info_obj_addr a addr h =
    ground (arith, h, length-append a.info_obj (addr_octets a.info_obj_addr_size addr))

addressed-length :
    (fresh : Bool) (a : Asdu) (addr : ℕ) {b : Asdu}
    → (if fresh then append_info_obj_addr a addr else ok a) ≡ ok b
    → (length b.info_obj ≡ length a.info_obj + (if fresh then a.info_obj_addr_size else 0))
      × (b.info_obj_addr_size ≡ a.info_obj_addr_size)
addressed-length true a addr h = length-append_info_obj_addr a addr h
addressed-length false a addr h = ground (arith, h)

-- An object takes `size` octets.
abbrev pub IsLong {ℓ} : {I : Type ℓ} → Element I → ℕ → ℕ → I → Type 0
IsLong el type_id size v = (os : List ℕ) → el.octets type_id v ≡ ok os → length os ≡ size

module _ {ℓ} {I : Type ℓ} (el : Element I) (type_id size : ℕ) (sequence : Bool) where
  length-append_infos :
      (infos : List I) (once : Bool) (a : Asdu) {b : Asdu}
      → append_infos el type_id sequence once infos a ≡ ok b
      → All (IsLong el type_id size) infos
      → length b.info_obj
        ≡ length a.info_obj + infos_len sequence a.info_obj_addr_size size once (length infos)
  unfolding append_infos append_bytes
  length-append_infos [] once a h f = ground (arith, h)
  length-append_infos (v ∷ infos) once a h (long, all_long) =
      let fresh = not sequence || not once in
      let (c, addressed, h1) =
        bind-ok (if fresh then append_info_obj_addr a (el.ioa v) else ok a) _ h in
      let (os, written, h2) = bind-ok (el.octets type_id v) _ h1 in
      let (len, same) = addressed-length fresh a (el.ioa v) addressed in
      let rest = λ (s : ℕ). infos_len sequence s size true (length infos) in
      let later =
        length-append_infos infos true (append_bytes c os) h2 all_long
        ∙ ap (λ s. length (append_bytes c os).info_obj + rest s) same in
      omega (arith, later, length-append_bytes c os, len, long os written)

infos_len-objects_size :
    (type_id size : ℕ) (sequence : Bool) (p : Params) (coa : CauseOfTransmission) (ca n : ℕ)
    (body : List ℕ)
    → n ≢ 0
    → infos_len sequence p.info_obj_addr_size size false n
      ≡ objects_size (with_info_obj (started p type_id sequence coa ca n) body) size
unfolding objects_size new_asdu
infos_len-objects_size type_id size true p coa ca n body h =
    infos_len-sequence p.info_obj_addr_size size n h
infos_len-objects_size type_id size false p coa ca n body h =
    infos_len-each p.info_obj_addr_size size n false

get_info_obj_size-zero : (t size : ℕ) → get_info_obj_size t ≡ ok size → t ≢ 0
unfolding get_info_obj_size
get_info_obj_size-zero t size h = ground (arith, h)

module _ (p : Params) (sequence : Bool) (n size : ℕ) where
  check_len-fits :
      check_len p sequence n size ≡ none
      → identifier_size p
          + (if sequence
              then p.info_obj_addr_size + n * size
              else n * (p.info_obj_addr_size + size))
        ≤ asdu_size_max
  unfolding check_len
  check_len-fits h = ground (arith, h)

module _ (p : Params) (type_id : ℕ) (sequence : Bool) (coa : CauseOfTransmission) (ca : ℕ) where
  marshal_binary-started :
      (n size : ℕ) (body : List ℕ)
      → valid p ≡ none
      → get_info_obj_size type_id ≡ ok size
      → n ≢ 0
      → check_len p sequence n size ≡ none
      → length body ≡ infos_len sequence p.info_obj_addr_size size false n
      → IsMarshallable (with_info_obj (started p type_id sequence coa ca n) body)
      → marshal_binary (with_info_obj (started p type_id sequence coa ca n) body)
        ≡ ok (raw_octets (with_info_obj (started p type_id sequence coa ca n) body))
  unfolding new_asdu objects_size
  marshal_binary-started n size body v g some_infos fits len m =
      let a = with_info_obj (started p type_id sequence coa ca n) body in
      let total = len ∙ infos_len-objects_size type_id size sequence p coa ca n body some_infos in
      marshal_binary-IsMarshallable a m v (get_info_obj_size-zero type_id size g) some_infos
        (ground (arith, total, check_len-fits p sequence n size fits))
        (expected_info_obj_len-sized a g (get_info_obj_size-segment type_id size g)
          ∙ ap some (sym total))

  module _ {ℓ} {I : Type ℓ} (el : Element I) where
    -- What a sender hands over is written, when its objects have the octets of their type.
    pub marshal_binary-send_infos :
        (infos : List I) {b : Asdu}
        → send_infos el p type_id sequence coa ca infos ≡ ok b
        → ((size : ℕ) → get_info_obj_size type_id ≡ ok size → All (IsLong el type_id size) infos)
        → IsMarshallable b
        → marshal_binary b ≡ ok (raw_octets b)
    unfolding new_asdu
    marshal_binary-send_infos infos {b} h long =
        let n = length infos in
        let (passed, few) = send_infos-passed el p type_id sequence coa ca infos h in
        let (some_infos, sized) = check_valid-sized p type_id sequence n passed in
        let (size, g, fits) =
          sized_by-none (get_info_obj_size type_id) (check_len p sequence n) sized in
        let len =
          length-append_infos el type_id size sequence infos false
            (started p type_id sequence coa ca n)
            (send_infos-filled el p type_id sequence coa ca infos h) (long size g) in
        subst (λ d. IsMarshallable d → marshal_binary d ≡ ok (raw_octets d))
          (send_infos-started el type_id sequence p coa ca infos h)
          (marshal_binary-started n size b.info_obj (check_len-valid p type_id sequence n size fits)
            g some_infos fits (omega (arith, len)))
