-- ===== src/Shim/Types.antt =====
-- The data of shim/hm2_shim.h and the constants of linuxcnc/hal.h that the shim reads.
use driver_hostmot.Base.{ℕ, Bool, Option, Text, ◌/◌, ◌%◌, ◌==◌}

-- `hm2_shim_type`
pub data ShimType : Type 0 where
  bool_cell sint_cell uint_cell real_cell : ShimType

-- `hm2_shim_dir`: driver to core, and core to driver.
pub data Dir : Type 0 where
  to_core from_core : Dir

-- `dir == HM2_SHIM_TO_CORE`
abbrev pub is_to_core : Dir → Bool
is_to_core to_core = Bool.true
is_to_core from_core = Bool.false

-- `hm2_shim_signal`. A cell is its offset in the arena; `none` is the null pointer.
pub record Signal : Type 0 where
  pub name : Text
  pub type : ShimType
  pub dir : Dir
  pub cell : Option ℕ

-- `hm2_shim_funct`, with the exported function and its argument as one value `F`.
pub record Funct (F : Type 0) : Type 0 where
  pub name : Text
  pub funct : F
  pub uses_fp : Bool

-- What a declaring call returns: 0, `-EINVAL` or `-ENOMEM`.
pub data Status : Type 0 where
  done einval enomem : Status

-- HAL_NAME_LEN
abbrev pub hal_name_len : ℕ
hal_name_len = 55

-- `dir & HAL_IN`, `dir & HAL_OUT` and `dir & HAL_WO` of a `hal_pdir_t`
abbrev pub has_in : ℕ → Bool
has_in dir = dir / 16 % 2 == 1

abbrev pub has_out : ℕ → Bool
has_out dir = dir / 32 % 2 == 1

abbrev pub has_wo : ℕ → Bool
has_wo dir = dir / 128 % 2 == 1

-- The values of HAL_IN, HAL_OUT, HAL_IO, HAL_RO and HAL_RW.
abbrev pub hal_in : ℕ
hal_in = 16

abbrev pub hal_out : ℕ
hal_out = 32

abbrev pub hal_io : ℕ
hal_io = 48

abbrev pub hal_ro : ℕ
hal_ro = 64

abbrev pub hal_rw : ℕ
hal_rw = 192
