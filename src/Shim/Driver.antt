-- ===== src/Shim/Driver.antt =====
-- The calls that a driver's module makes of the shim while it starts (shim/hal_shim.c), in any order
-- and with any arguments. The driver itself is an argument: the list of its calls.
pub mod Tables
pub mod Kept
pub mod Invariant
pub mod Named
pub mod Names
use driver_hostmot.Base.{ℕ, Bool, Option, none, some, List, [], ◌∷◌, Text, update}
use driver_hostmot.Base.Int.{ℤ}
use driver_hostmot.Double.{Double}
use driver_hostmot.Shim.Types.{ShimType}
use driver_hostmot.Shim.Arena.{hal_malloc}
use driver_hostmot.Shim.State.{Shim}
use driver_hostmot.Shim.Params.{Params}
use driver_hostmot.Shim.Components.{hal_init, hal_exit, hal_ready}
use driver_hostmot.Shim.Pins.{new_pin, hal_param_new_fake, hal_export_functf, new_param}

-- A call, with what it is given and with whether the C library can give it memory. `store` is a
-- write of the driver through a pointer that it was given.
pub data Call (F : Type 0) : Type 0 where
  init : Option Text → Call F
  exit ready : ℕ → Call F
  malloc : ℤ → Call F
  pin : (ref : Bool) (dir : ℕ) (type : ShimType) (initial : ℕ) (text : Option Text) → Call F
  param :
      (ref : Bool) (dir : ℕ) (type : ShimType) (initial : ℕ) (text : Option Text) (grows : Bool)
      → Call F
  param_fake : (refs : Bool) → Call F
  export : Option F → (uses_fp : Bool) (text : Option Text) → Call F
  store : (at word : ℕ) → Call F

module _ (d : Double) {F : Type 0} where
  unfoldable pub call : Call F → Shim F × Params d.Real → Shim F × Params d.Real
  call (init name) (s, p) = ((hal_init name s).1, p)
  call (exit id) (s, p) = (hal_exit id s, p)
  call (ready id) (s, p) = (hal_ready id s, p)
  call (malloc n) (s, p) = (record s { arena = (hal_malloc n s.arena).1 }, p)
  call (pin ref dir type initial text) (s, p) = ((new_pin ref dir type initial text s).2, p)
  call (param ref dir type initial text grows) (s, p) =
      let r = new_param d ref dir type initial text grows s p in (r.2, r.3)
  call (param_fake refs) (s, p) = ((hal_param_new_fake refs s).2, p)
  call (export f uses_fp text) (s, p) = ((hal_export_functf f uses_fp text s).1, p)
  call (store at word) (s, p) = (record s { memory = update s.memory at word }, p)

  unfoldable pub calls : List (Call F) → Shim F × Params d.Real → Shim F × Params d.Real
  calls [] w = w
  calls (c ∷ rest) w = calls rest (call c w)
