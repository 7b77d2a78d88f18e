-- ===== src/Asdu/Error.antt =====
-- asdu/error.go: the errors of the asdu package, with the `io.EOF` that the decoders return.
pub data Error : Type 0 where
  type_identifier cause_zero common_addr_zero : Error
  param invalid_time_tag origin_addr_fit common_addr_fit info_obj_addr_fit : Error
  info_obj_index_fit trailing_octets inro_group_num_fit : Error
  type_id_zero info_obj_count_zero info_obj_size_mismatch : Error
  length_out_of_range not_any_obj_info type_id_not_match cmd_cause eof : Error

-- A value, or the error that took its place.
pub data Result {ℓ} (A : Type ℓ) : Type ℓ where
  ok : A → Result A
  err : Error → Result A

infixl 5 ◌>>=◌
abbrev pub ◌>>=◌ {ℓ κ} : {A : Type ℓ} {B : Type κ} → Result A → (A → Result B) → Result B
ok a >>= f = f a
err e >>= f = err e
