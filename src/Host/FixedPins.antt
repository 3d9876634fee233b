-- ===== src/Host/FixedPins.antt =====
-- The `pin.` lines of the configuration (`fix_pins` of host/main.c): each sets a pin that the driver
-- only reads and nothing drives. A pin is known by its index in the shim's table.
pub mod Laws
use driver_hostmot.Base.{
  ℕ, ◌+◌, Bool, true, false, not, ◌&&◌, ◌||◌, Option, none, some, is_some, List, [], ◌∷◌, ◌++◌,
  Text, ◌==◌, if◌then◌else◌, length, get_elem?, str_eq,
}
use driver_hostmot.Base.Int.{pos, negsuc}
use driver_hostmot.Double.{Double}
use driver_hostmot.Shim.Types.{
  ShimType, bool_cell, sint_cell, uint_cell, real_cell, Dir, to_core, from_core, is_to_core, Signal,
}
use driver_hostmot.Shim.Cell.{Memory, nought, cell_set}

-- A `pin.` line: the name, the value and the line's number.
pub record PinLine (Real : Type 0) : Type 0 where
  pub name : Text
  pub value : Real
  pub line : ℕ

-- The entries of a name: the last that the driver reads, and the last that it writes.
abbrev pub Found : Type 0
Found = Option (ℕ × Signal) × Option (ℕ × Signal)

abbrev pub see : ℕ → Signal → Found → Found
see i s (reads, writes) = if is_to_core s.dir then (reads, some (i, s)) else (some (i, s), writes)

unfoldable pub find_pin : Text → ℕ → List Signal → Found → Found
find_pin name i [] found = found
find_pin name i (s ∷ rest) found =
    find_pin name (i + 1) rest (if str_eq s.name name then see i s found else found)

-- Why a line is refused.
pub data PinError : Type 0 where
  not_declared driver_writes does_not_fit : PinError

module _ (d : Double) where
  open d use {Real}

  -- `value == (double)(long long)value`
  abbrev whole : Real → Bool
  whole v = d.eq v (d.of_s64 (d.to_s64 v))

  unfoldable pub fits : ShimType → Real → Bool
  fits bool_cell v = d.eq v (nought d) || d.eq v (d.of_int (pos 1))
  fits sint_cell v =
      whole v && (d.le (d.of_int (negsuc 2147483647)) v && d.le v (d.of_int (pos 2147483647)))
  fits uint_cell v = whole v && (d.le (nought d) v && d.le v (d.of_int (pos 4294967295)))
  fits real_cell v = true

  -- What one line does: the pin that it fixes, or why it is refused.
  pub data Verdict : Type 0 where
    fix : ℕ → Signal → Verdict
    refuse : PinError → Verdict

  abbrev judge_found : Real → Found → Verdict
  judge_found v (none, none) = refuse not_declared
  judge_found v (reads, some w) = refuse driver_writes
  judge_found v (some (i, s), none) = if fits s.type v then fix i s else refuse does_not_fit

  unfoldable pub judge : List Signal → PinLine Real → Verdict
  judge signals p = judge_found p.value (find_pin p.name 0 signals (none, none))

  -- `fixed_pins` so far, the cells, and how many lines were refused.
  pub record Fixing : Type 0 where
    pub fixed : List ℕ
    pub memory : Memory
    pub failures : ℕ

  abbrev pub obey : Real → Verdict → Fixing → Fixing
  obey v (fix i s) f = record f { fixed = f.fixed ++ i ∷ []; memory = cell_set d f.memory s v }
  obey v (refuse e) f = record f { failures = f.failures + 1 }

  unfoldable pub fix_lines : List Signal → List (PinLine Real) → Fixing → Fixing
  fix_lines signals [] f = f
  fix_lines signals (p ∷ rest) f = fix_lines signals rest (obey p.value (judge signals p) f)

  -- The Boolean says whether the `calloc` succeeds; `none` is -1.
  unfoldable pub fix_pins :
      Bool → List Signal → List (PinLine Real) → Memory → Option (List ℕ × Memory)
  fix_pins allocated signals lines memory =
      if not allocated
      then none
      else let f = fix_lines signals lines (record { fixed = []; memory = memory; failures = 0 }) in
        if f.failures == 0 then some (f.fixed, f.memory) else none
