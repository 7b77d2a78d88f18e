-- ===== src/Cs101/Server/Handler/Getters.antt =====
-- The offsets of cs101/server.go against the getters of asdu/csys.go.
use go_iecp.Shared.{
  ℕ, zero, suc, ap, ◌∙◌, drop, take, get_or, length-drop, ◌+◌, ◌*◌, ◌≡◌, refl, List, [], ◌∷◌,
  Option, none, some, ◌==◌, ltb, if◌then◌else◌, All, IsByte, length, arith,
}
use go_iecp.Shared.Bits.{bit_or-shift}
use go_iecp.Asdu.TypeId.{c_ic_na_1, c_ci_na_1, c_rd_na_1, c_cs_na_1, c_rp_na_1, c_cd_na_1}
use go_iecp.Asdu.Information.{parse_qualifier_count_call}
use go_iecp.Asdu.Message.{Asdu, valid}
use go_iecp.Asdu.Codec.{with_info_obj, decode_info_obj_addr, decode_byte, decode_uint16}
use go_iecp.Asdu.System.{
  get_interrogation_cmd, get_counter_interrogation_cmd, get_read_cmd, get_clock_synchronization_cmd,
  get_reset_process_cmd, get_delay_acquire_command,
}
use go_iecp.Cs101.Server.Handler.{
  Call, interrogation, counter_interrogation, read, clock_sync, reset_process, delay_acquisition,
  asdu, not_enough, parse_ioa, specific_call,
}

abbrev called {ℓ} : {A : Type ℓ} → (A → Call) → Option (ℕ × A) → Call
called f none = not_enough
called f (some (ioa, v)) = f v

abbrev called_read : Option ℕ → Call
called_read none = not_enough
called_read (some ioa) = read ioa

-- The call by what the getters read.
pub getter_call : Asdu → Call
getter_call a =
    if a.type_id == c_ic_na_1
    then called interrogation (get_interrogation_cmd a)
    else if a.type_id == c_ci_na_1
    then called counter_interrogation (get_counter_interrogation_cmd a)
    else if a.type_id == c_rd_na_1
    then called_read (get_read_cmd a)
    else if a.type_id == c_cs_na_1
    then called clock_sync (get_clock_synchronization_cmd a)
    else if a.type_id == c_rp_na_1
    then called reset_process (get_reset_process_cmd a)
    else if a.type_id == c_cd_na_1
    then called delay_acquisition (get_delay_acquire_command a)
    else asdu

addr_lem :
    (a : Asdu) (info : List ℕ)
    → valid a.params ≡ none
    → All IsByte info
    → decode_info_obj_addr (with_info_obj a info) ≡ (
        if ltb (length info) a.info_obj_addr_size
        then none
        else some (parse_ioa info a.params, with_info_obj a (drop a.info_obj_addr_size info)))
unfolding decode_info_obj_addr valid parse_ioa
addr_lem a [] v w = ground (arith, v)
addr_lem a (b0 ∷ []) v w = ground (arith, v)
addr_lem a (b0 ∷ b1 ∷ []) v w = ground (arith, v, w, bit_or-shift 8 b0 b1)
addr_lem a (b0 ∷ b1 ∷ b2 ∷ rest) v w = ground (arith, v, w, bit_or-shift 8 b0 b1)

octet_lem :
    (a : Asdu) (info : List ℕ)
    → decode_byte (with_info_obj a info) ≡ (
        if ltb (length info) 1 then none else some (get_or info 0 0, with_info_obj a (drop 1 info)))
unfolding decode_byte
octet_lem a [] = refl
octet_lem a (b ∷ rest) = ground arith

word_lem :
    (a : Asdu) (info : List ℕ)
    → decode_uint16 (with_info_obj a info) ≡ (
        if ltb (length info) 2
        then none
        else some (get_or info 0 0 + get_or info 1 0 * 256, with_info_obj a (drop 2 info)))
unfolding decode_uint16
word_lem a [] = refl
word_lem a (b ∷ []) = refl
word_lem a (b ∷ c ∷ rest) = ground arith

get_or-drop : (n i : ℕ) (xs : List ℕ) → get_or (drop n xs) i 0 ≡ get_or xs (n + i) 0
get_or-drop zero i xs = ap (λ (j : ℕ). get_or xs j 0) (omega arith)
get_or-drop (suc n) i [] = refl
get_or-drop (suc n) i (x ∷ xs) = get_or-drop n i xs ∙ ground arith

module _ (a : Asdu) (v : valid a.params ≡ none) (w : All IsByte a.info_obj) where
  abbrev found {ℓ} : {A : Type ℓ} → ℕ → A → Option (ℕ × A)
  found n x =
      if ltb (length a.info_obj) (a.info_obj_addr_size + n)
      then none
      else some (parse_ioa a.info_obj a.params, x)

  abbrev at_offset : ℕ → ℕ
  at_offset i = get_or a.info_obj (a.info_obj_addr_size + i) 0

  interrogation_lem : get_interrogation_cmd a ≡ found 1 (at_offset 0)
  unfolding get_interrogation_cmd
  interrogation_lem = ground (
    arith,
    addr_lem a a.info_obj v w,
    octet_lem a (drop a.info_obj_addr_size a.info_obj),
    length-drop a.info_obj_addr_size a.info_obj,
    get_or-drop a.info_obj_addr_size 0 a.info_obj,
  )

  counter_lem : get_counter_interrogation_cmd a ≡ found 1 (parse_qualifier_count_call (at_offset 0))
  unfolding get_counter_interrogation_cmd
  counter_lem = ground (
    arith,
    addr_lem a a.info_obj v w,
    octet_lem a (drop a.info_obj_addr_size a.info_obj),
    length-drop a.info_obj_addr_size a.info_obj,
    get_or-drop a.info_obj_addr_size 0 a.info_obj,
  )

  reset_lem : get_reset_process_cmd a ≡ found 1 (at_offset 0)
  unfolding get_reset_process_cmd
  reset_lem = ground (
    arith,
    addr_lem a a.info_obj v w,
    octet_lem a (drop a.info_obj_addr_size a.info_obj),
    length-drop a.info_obj_addr_size a.info_obj,
    get_or-drop a.info_obj_addr_size 0 a.info_obj,
  )

  delay_lem : get_delay_acquire_command a ≡ found 2 (at_offset 0 + at_offset 1 * 256)
  unfolding get_delay_acquire_command
  delay_lem = ground (
    arith,
    addr_lem a a.info_obj v w,
    word_lem a (drop a.info_obj_addr_size a.info_obj),
    length-drop a.info_obj_addr_size a.info_obj,
    get_or-drop a.info_obj_addr_size 0 a.info_obj,
    get_or-drop a.info_obj_addr_size 1 a.info_obj,
  )

  clock_lem :
      get_clock_synchronization_cmd a ≡ found 7 (take 7 (drop a.info_obj_addr_size a.info_obj))
  unfolding get_clock_synchronization_cmd
  clock_lem = ground (arith, addr_lem a a.info_obj v w, length-drop a.info_obj_addr_size a.info_obj)

  read_lem : get_read_cmd a ≡ (
      if ltb (length a.info_obj) a.info_obj_addr_size
      then none
      else some (parse_ioa a.info_obj a.params))
  unfolding get_read_cmd
  read_lem = ground (arith, addr_lem a a.info_obj v w)

-- Under valid parameters and for octets, the server calls a handler with what the getter of the
-- command reads from the same ASDU, and refuses it as too short exactly when the getter would read
-- behind the end.
pub specific_call-getter_call :
    (a : Asdu)
    → valid a.params ≡ none
    → All IsByte a.info_obj
    → specific_call a.type_id a.info_obj a.params ≡ getter_call a
unfolding specific_call getter_call
specific_call-getter_call a v w = ground (
  arith,
  interrogation_lem a v w,
  counter_lem a v w,
  read_lem a v w,
  clock_lem a v w,
  reset_lem a v w,
  delay_lem a v w,
)
