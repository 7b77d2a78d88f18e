-- ===== src/Cs101/Control.antt =====
-- cs101/frame.go: the control field.
pub mod Laws
use go_iecp.Shared.{ℕ, Bool, true, false, bit_and, bit_or, ◌!=◌, if◌then◌else◌}
use go_iecp.Asdu.Identifier.{set_flag}

abbrev pub ctrl_dir : ℕ
ctrl_dir = 0x80

abbrev pub ctrl_prm : ℕ
ctrl_prm = 0x40

abbrev pub ctrl_fcb : ℕ
ctrl_fcb = 0x20

abbrev pub ctrl_fcv : ℕ
ctrl_fcv = 0x10

abbrev pub ctrl_acd : ℕ
ctrl_acd = 0x20

abbrev pub ctrl_dfc : ℕ
ctrl_dfc = 0x10

abbrev pub ctrl_func_mask : ℕ
ctrl_func_mask = 0x0f

pub record ControlField : Type 0 where
  pub dir : Bool
  pub prm : Bool
  pub fcb : Bool
  pub fcv : Bool
  pub acd : Bool
  pub dfc : Bool
  pub fun : ℕ

unfoldable pub parse_control_field : ℕ → ControlField
parse_control_field b =
    let primary = bit_and b ctrl_prm != 0 in
    record {
      dir = bit_and b ctrl_dir != 0;
      prm = primary;
      fcb = if primary then bit_and b ctrl_fcb != 0 else false;
      fcv = if primary then bit_and b ctrl_fcv != 0 else false;
      acd = if primary then false else bit_and b ctrl_acd != 0;
      dfc = if primary then false else bit_and b ctrl_dfc != 0;
      fun = bit_and b ctrl_func_mask;
    }

-- `ControlField.Value`
unfoldable pub control_value : ControlField → ℕ
control_value cf =
    let b = set_flag cf.dir ctrl_dir 0 in
    let flags =
      if cf.prm
      then set_flag cf.fcv ctrl_fcv (set_flag cf.fcb ctrl_fcb (bit_or b ctrl_prm))
      else set_flag cf.dfc ctrl_dfc (set_flag cf.acd ctrl_acd b) in
    bit_or flags (bit_and cf.fun ctrl_func_mask)
