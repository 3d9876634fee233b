-- ===== src/Shim/Cell.antt =====
-- A pin's cell: eight bytes that are read and written through the type of the pin
-- (`hm2_cell`, `hm2_shim_cell_get` and `hm2_shim_cell_set` of shim/hal_shim.c).
pub mod Laws
use driver_hostmot.Base.{ℕ, Bool, Option, none, some, ◌==◌, if◌then◌else◌, update}
use driver_hostmot.Base.Int.{pos}
use driver_hostmot.Double.{Double}
use driver_hostmot.Shim.Types.{ShimType, bool_cell, sint_cell, uint_cell, real_cell, Signal}

-- The arena as the 64-bit word at each offset.
abbrev pub Memory : Type 0
Memory = ℕ → ℕ

module _ (d : Double) where
  open d use {Real}

  -- `0.0`
  abbrev pub nought : Real
  nought = d.of_int (pos 0)

  -- The value in a cell, by the pin's type.
  unfoldable pub decode : ShimType → ℕ → Real
  decode bool_cell word = if word == 0 then nought else d.of_int (pos 1)
  decode sint_cell word = d.of_s64 word
  decode uint_cell word = d.of_u64 word
  decode real_cell word = d.of_bits word

  -- What is stored for a value, by the pin's type.
  unfoldable pub encode : ShimType → Real → ℕ
  encode bool_cell value = if d.eq value nought then 0 else 1
  encode sint_cell value = d.to_s64 value
  encode uint_cell value = if d.lt value nought then 0 else d.to_u64 value
  encode real_cell value = d.to_bits value

  read : Memory → ShimType → Option ℕ → Real
  read mem type none = nought
  read mem type (some at) = decode type (mem at)

  write : Memory → ShimType → Option ℕ → Real → Memory
  write mem type none value = mem
  write mem type (some at) value = update mem at (encode type value)

  -- `hm2_shim_cell_get`
  unfoldable pub cell_get : Memory → Signal → Real
  unfolding read decode
  cell_get mem signal = read mem signal.type signal.cell

  -- `hm2_shim_cell_set`
  unfoldable pub cell_set : Memory → Signal → Real → Memory
  unfolding write encode
  cell_set mem signal value = write mem signal.type signal.cell value
