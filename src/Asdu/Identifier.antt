-- ===== src/Asdu/Identifier.antt =====
-- asdu/identifier.go: the variable structure qualifier, the cause of transmission, the size table.
pub mod Laws
use go_iecp.Shared.{
  ℕ, Bool, List, [], ◌∷◌, Option, none, some, bit_and, bit_or, ◌==◌, if◌then◌else◌,
}
use go_iecp.Asdu.Error.{Result, ok, err, type_identifier}
use go_iecp.Asdu.TypeId.{
  m_sp_na_1, m_sp_ta_1, m_dp_na_1, m_dp_ta_1, m_st_na_1, m_st_ta_1, m_bo_na_1, m_bo_ta_1, m_me_na_1,
  m_me_ta_1, m_me_nb_1, m_me_tb_1, m_me_nc_1, m_me_tc_1, m_it_na_1, m_it_ta_1, m_ep_ta_1, m_ep_tb_1,
  m_ep_tc_1, m_ps_na_1, m_me_nd_1, m_sp_tb_1, m_dp_tb_1, m_st_tb_1, m_bo_tb_1, m_me_td_1, m_me_te_1,
  m_me_tf_1, m_it_tb_1, m_ep_td_1, m_ep_te_1, m_ep_tf_1, c_sc_na_1, c_dc_na_1, c_rc_na_1, c_se_na_1,
  c_se_nb_1, c_se_nc_1, c_bo_na_1, c_sc_ta_1, c_dc_ta_1, c_rc_ta_1, c_se_ta_1, c_se_tb_1, c_se_tc_1,
  c_bo_ta_1, m_ei_na_1, c_ic_na_1, c_ci_na_1, c_rd_na_1, c_cs_na_1, c_ts_na_1, c_rp_na_1, c_cd_na_1,
  c_ts_ta_1, p_me_na_1, p_me_nb_1, p_me_nc_1, p_ac_na_1, f_fr_na_1, f_sr_na_1, f_sc_na_1, f_ls_na_1,
  f_af_na_1, f_dr_ta_1, f_sg_na_1,
}

abbrev info_obj_sizes : List (ℕ × ℕ)
info_obj_sizes =
    (m_sp_na_1, 1)
    ∷ (m_sp_ta_1, 4)
    ∷ (m_dp_na_1, 1)
    ∷ (m_dp_ta_1, 4)
    ∷ (m_st_na_1, 2)
    ∷ (m_st_ta_1, 5)
    ∷ (m_bo_na_1, 5)
    ∷ (m_bo_ta_1, 8)
    ∷ (m_me_na_1, 3)
    ∷ (m_me_ta_1, 6)
    ∷ (m_me_nb_1, 3)
    ∷ (m_me_tb_1, 6)
    ∷ (m_me_nc_1, 5)
    ∷ (m_me_tc_1, 8)
    ∷ (m_it_na_1, 5)
    ∷ (m_it_ta_1, 8)
    ∷ (m_ep_ta_1, 6)
    ∷ (m_ep_tb_1, 7)
    ∷ (m_ep_tc_1, 7)
    ∷ (m_ps_na_1, 5)
    ∷ (m_me_nd_1, 2)
    ∷ (m_sp_tb_1, 8)
    ∷ (m_dp_tb_1, 8)
    ∷ (m_st_tb_1, 9)
    ∷ (m_bo_tb_1, 12)
    ∷ (m_me_td_1, 10)
    ∷ (m_me_te_1, 10)
    ∷ (m_me_tf_1, 12)
    ∷ (m_it_tb_1, 12)
    ∷ (m_ep_td_1, 10)
    ∷ (m_ep_te_1, 11)
    ∷ (m_ep_tf_1, 11)
    ∷ (c_sc_na_1, 1)
    ∷ (c_dc_na_1, 1)
    ∷ (c_rc_na_1, 1)
    ∷ (c_se_na_1, 3)
    ∷ (c_se_nb_1, 3)
    ∷ (c_se_nc_1, 5)
    ∷ (c_bo_na_1, 4)
    ∷ (c_sc_ta_1, 8)
    ∷ (c_dc_ta_1, 8)
    ∷ (c_rc_ta_1, 8)
    ∷ (c_se_ta_1, 10)
    ∷ (c_se_tb_1, 10)
    ∷ (c_se_tc_1, 12)
    ∷ (c_bo_ta_1, 11)
    ∷ (m_ei_na_1, 1)
    ∷ (c_ic_na_1, 1)
    ∷ (c_ci_na_1, 1)
    ∷ (c_rd_na_1, 0)
    ∷ (c_cs_na_1, 7)
    ∷ (c_ts_na_1, 2)
    ∷ (c_rp_na_1, 1)
    ∷ (c_cd_na_1, 2)
    ∷ (c_ts_ta_1, 9)
    ∷ (p_me_na_1, 3)
    ∷ (p_me_nb_1, 3)
    ∷ (p_me_nc_1, 5)
    ∷ (p_ac_na_1, 1)
    ∷ (f_fr_na_1, 6)
    ∷ (f_sr_na_1, 7)
    ∷ (f_sc_na_1, 4)
    ∷ (f_ls_na_1, 5)
    ∷ (f_af_na_1, 4)
    ∷ (f_dr_ta_1, 13)
    ∷ []

abbrev lookup_size : ℕ → List (ℕ × ℕ) → Option ℕ
lookup_size id [] = none
lookup_size id ((k, n) ∷ rest) = if k == id then some n else lookup_size id rest

unfoldable pub get_info_obj_size : ℕ → Result ℕ
get_info_obj_size id = elim (lookup_size id info_obj_sizes) [
  | none ↦ err type_identifier
  | some size ↦ ok size
]

pub record VariableStruct : Type 0 where
  pub number : ℕ
  pub is_sequence : Bool

unfoldable pub parse_variable_struct : ℕ → VariableStruct
parse_variable_struct b = record { number = bit_and b 0x7f; is_sequence = bit_and b 0x80 == 0x80 }

pub record CauseOfTransmission : Type 0 where
  pub is_test : Bool
  pub is_negative : Bool
  pub cause : ℕ

unfoldable pub parse_cause_of_transmission : ℕ → CauseOfTransmission
parse_cause_of_transmission b = record {
  is_test = bit_and b 0x80 == 0x80;
  is_negative = bit_and b 0x40 == 0x40;
  cause = bit_and b 0x3f;
}

unfoldable pub variable_struct_value : VariableStruct → ℕ
variable_struct_value v = if v.is_sequence then bit_or v.number 0x80 else v.number

-- `v |= mask` when the flag is set.
abbrev pub set_flag : Bool → ℕ → ℕ → ℕ
set_flag flag mask v = if flag then bit_or v mask else v

unfoldable pub cause_of_transmission_value : CauseOfTransmission → ℕ
cause_of_transmission_value c = set_flag c.is_test 0x80 (set_flag c.is_negative 0x40 c.cause)

abbrev pub invalid_common_addr : ℕ
invalid_common_addr = 0

abbrev pub global_common_addr : ℕ
global_common_addr = 65535
