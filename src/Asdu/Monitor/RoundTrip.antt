-- ===== src/Asdu/Monitor/RoundTrip.antt =====
-- What a sender of asdu/mproc.go puts into an ASDU its getter reads, for any kind of information
-- object that is read from its own octets.
use go_iecp.Shared.{
  ℕ, suc, ◌≡◌, refl, ap, ◌∙◌, sym, Bool, true, false, ◌||◌, not, List, [], ◌∷◌, ◌++◌, some, ◌==◌,
  if◌then◌else◌, length, byte, arith, All, append_nil, append_assoc, ◌/◌,
}
use go_iecp.Asdu.Error.{Result, ok, err, ◌>>=◌}
use go_iecp.Asdu.Identifier.{CauseOfTransmission}
use go_iecp.Asdu.Message.{Params, Asdu, set_variable_number, new_asdu}
use go_iecp.Asdu.Codec.{with_info_obj, append_bytes, append_info_obj_addr}
use go_iecp.Asdu.Codec.Laws.{emptied, decode_info_obj_addr-append_info_obj_addr}
use go_iecp.Asdu.Monitor.{
  Element, append_infos, send_infos, next_addr, decode_infos, get_infos, filled,
}

pub bind-ok {ℓ κ} :
    {A : Type ℓ} {B : Type κ} (m : Result A) (f : A → Result B) {y : B}
    → (m >>= f) ≡ ok y
    → (x : A) × (m ≡ ok x) × (f x ≡ ok y)
bind-ok (ok x) f h = (x, refl, h)
bind-ok (err e) f h = absurd (ground arith)

abbrev pub addr_octets : ℕ → ℕ → List ℕ
addr_octets size addr =
    if size == 1
    then byte addr ∷ []
    else if size == 2
    then byte addr ∷ byte (addr / 256) ∷ []
    else byte addr ∷ byte (addr / 256) ∷ byte (addr / 65536) ∷ []

pub append_info_obj_addr-appends :
    (a : Asdu) (addr : ℕ) {b : Asdu}
    → append_info_obj_addr a addr ≡ ok b
    → (b ≡ append_bytes a (addr_octets a.info_obj_addr_size addr))
      × (append_info_obj_addr (emptied a) addr
          ≡ ok (with_info_obj a (addr_octets a.info_obj_addr_size addr)))
unfolding append_info_obj_addr append_bytes
append_info_obj_addr-appends a addr h = ground (arith, h)

append_bytes-nil : (a : Asdu) → append_bytes a [] ≡ a
unfolding append_bytes
append_bytes-nil a = ap (with_info_obj a) (append_nil a.info_obj)

append_bytes-append_bytes :
    (a : Asdu) (os ps : List ℕ) → append_bytes (append_bytes a os) ps ≡ append_bytes a (os ++ ps)
unfolding append_bytes
append_bytes-append_bytes a os ps = ap (with_info_obj a) (append_assoc a.info_obj os ps)

with_info_obj-joined :
    (a : Asdu) (front os l : List ℕ) {c : Asdu}
    → c ≡ append_bytes a front
    → with_info_obj (append_bytes c os) l ≡ with_info_obj a l
unfolding append_bytes
with_info_obj-joined a front os l h = ap (λ d. with_info_obj d l) h

regroup :
    (front os body rest : List ℕ)
    → (front ++ (os ++ body)) ++ rest ≡ front ++ (os ++ (body ++ rest))
regroup front os body rest =
    append_assoc front (os ++ body) rest ∙ ap (λ l. front ++ l) (append_assoc os body rest)

join_octets :
    (a : Asdu) (front os body : List ℕ) {b c : Asdu}
    → c ≡ append_bytes a front
    → b ≡ append_bytes (append_bytes c os) body
    → b ≡ append_bytes a (front ++ (os ++ body))
join_octets a front os body hc hb = cc (
  hc,
  hb,
  append_bytes-append_bytes a front os,
  append_bytes-append_bytes a (front ++ os) body,
  append_assoc front os body,
)

abbrev pub started : Params → ℕ → Bool → CauseOfTransmission → ℕ → ℕ → Asdu
started p type_id sequence coa ca n = new_asdu p (record {
  type_id = type_id;
  variable = record { number = n; is_sequence = sequence };
  coa = coa;
  orig_addr = 0;
  common_addr = ca;
})

set_variable_number-started :
    (p : Params) (type_id : ℕ) (sequence : Bool) (coa : CauseOfTransmission) (ca n : ℕ) {a : Asdu}
    → set_variable_number (started p type_id sequence coa ca 0) n ≡ ok a
    → a ≡ started p type_id sequence coa ca n
unfolding set_variable_number new_asdu
set_variable_number-started p type_id sequence coa ca n h = ground (arith, h)

module _ {ℓ} {I : Type ℓ} (el : Element I) where
  pub send_infos-filled :
      (p : Params) (type_id : ℕ) (sequence : Bool) (coa : CauseOfTransmission) (ca : ℕ)
      (infos : List I) {b : Asdu}
      → send_infos el p type_id sequence coa ca infos ≡ ok b
      → append_infos el type_id sequence false infos
          (started p type_id sequence coa ca (length infos))
        ≡ ok b
  unfolding send_infos filled
  send_infos-filled p type_id sequence coa ca infos h =
      let passed : filled el p type_id sequence coa ca infos ≡ ok _ = ground (arith, h) in
      let (a, numbered, appended) = bind-ok _ _ passed in
      ap (append_infos el type_id sequence false infos)
        (sym (set_variable_number-started p type_id sequence coa ca (length infos) numbered))
      ∙ appended

  decode_infos-step :
      (type_id n : ℕ) (sequence once : Bool) (x y : ℕ) (a : Asdu) {b c : Asdu} {v : I} {vs : List I}
      → next_addr el (not sequence || not once) x a ≡ some (y, b)
      → el.read type_id y b ≡ some (v, c)
      → decode_infos el type_id sequence n true y c ≡ some vs
      → decode_infos el type_id sequence (suc n) once x a ≡ some (v ∷ vs)
  unfolding decode_infos
  decode_infos-step type_id n sequence once x y a h1 h2 h3 = ground (arith, h1, h2, h3)

  -- The address of an object: its own, or one more than the last.
  abbrev address : Bool → ℕ → ℕ → ℕ
  address true x addr = addr
  address false x addr = suc x

  next_addr-read :
      (fresh : Bool) (a : Asdu) (addr x : ℕ) {b : Asdu}
      → (if fresh then append_info_obj_addr a addr else ok a) ≡ ok b
      → (os : List ℕ) × (b ≡ append_bytes a os)
        × ((rest : List ℕ)
            → next_addr el fresh x (with_info_obj a (os ++ rest))
              ≡ some (address fresh x addr, with_info_obj a rest))
  next_addr-read true a addr x h =
      let (appended, alone) = append_info_obj_addr-appends a addr h in
      (
        addr_octets a.info_obj_addr_size addr,
        appended,
        λ rest. decode_info_obj_addr-append_info_obj_addr a addr rest alone,
      )
  next_addr-read false a addr x h = ([], ground (arith, append_bytes-nil a, h), λ rest. refl)

  module _ (type_id : ℕ) (Fits : I → Type 0) (received : ℕ → I → I) where
    -- An object that fits is read, with the address given, from the octets written for it.
    unfoldable pub Readable : Type ℓ
    Readable =
        (a : Asdu) (v : I) (os rest : List ℕ) (x : ℕ)
        → Fits v
        → el.octets type_id v ≡ ok os
        → el.read type_id x (with_info_obj a (os ++ rest))
          ≡ some (received x v, with_info_obj a rest)

    -- The objects as they arrive: in a sequence the addresses count up from the first.
    abbrev pub numbered : Bool → Bool → ℕ → List I → List I
    numbered sequence once x [] = []
    numbered sequence once x (v ∷ vs) =
        received (address (not sequence || not once) x (el.ioa v)) v
        ∷ numbered sequence true (address (not sequence || not once) x (el.ioa v)) vs

    module _ (readable : Readable) where
      pub decode_infos-append_infos :
          (infos : List I) (sequence once : Bool) (x : ℕ) (a : Asdu) {b : Asdu}
          → append_infos el type_id sequence once infos a ≡ ok b
          → All Fits infos
          → (body : List ℕ) × (b ≡ append_bytes a body)
            × ((rest : List ℕ)
                → decode_infos el type_id sequence
                    (length infos)
                    once
                    x
                    (with_info_obj a (body ++ rest))
                  ≡ some (numbered sequence once x infos))
      unfolding append_infos decode_infos Readable
      decode_infos-append_infos [] sequence once x a h f =
          ([], ground (arith, append_bytes-nil a, h), λ rest. refl)
      decode_infos-append_infos (v ∷ infos) sequence once x a h (fits, all_fit) =
          let fresh = not sequence || not once in
          let (c, addressed, h1) =
            bind-ok (if fresh then append_info_obj_addr a (el.ioa v) else ok a) _ h in
          let (os, written, h2) = bind-ok (el.octets type_id v) _ h1 in
          let (front, c_eq, next) = next_addr-read fresh a (el.ioa v) x addressed in
          let y = address fresh x (el.ioa v) in
          let (body, b_eq, later) =
            decode_infos-append_infos infos sequence true y (append_bytes c os) h2 all_fit in
          (
            front ++ (os ++ body),
            join_octets a front os body c_eq b_eq,
            λ rest.
                decode_infos-step type_id (length infos) sequence once x y _
                  (ap (λ l. next_addr el fresh x (with_info_obj a l)) (regroup front os body rest)
                    ∙ next (os ++ (body ++ rest)))
                  (readable a v os (body ++ rest) y fits written)
                  (sym (
                      ap (decode_infos el type_id sequence (length infos) true y)
                        (with_info_obj-joined a front os (body ++ rest) c_eq))
                    ∙ later rest),
          )

      -- What arrives of the objects of an ASDU that a sender hands over.
      pub get_infos-send_infos :
          (p : Params) (sequence : Bool) (coa : CauseOfTransmission) (ca : ℕ) (infos : List I)
          {b : Asdu}
          → send_infos el p type_id sequence coa ca infos ≡ ok b
          → All Fits infos
          → get_infos el b ≡ some (numbered sequence false 0 infos)
      unfolding get_infos append_bytes new_asdu
      get_infos-send_infos p sequence coa ca infos h f =
          let a = started p type_id sequence coa ca (length infos) in
          let (body, b_eq, reads) =
            decode_infos-append_infos infos sequence false 0 a
              (send_infos-filled p type_id sequence coa ca infos h) f in
          ap (get_infos el) b_eq
          ∙ ap (λ l. decode_infos el type_id sequence (length infos) false 0 (with_info_obj a l))
              (sym (append_nil body))
          ∙ reads []
