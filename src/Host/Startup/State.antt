-- ===== src/Host/Startup/State.antt =====
-- What the start of `main` (host/main.c) is given, and what the process holds.
use driver_hostmot.Base.{ℕ, Bool, Option, List, ◌++◌, Text, codes}
use driver_hostmot.Base.Int.{ℤ}
use driver_hostmot.Double.{Double}
use driver_hostmot.Shim.Types.{Funct}
use driver_hostmot.Shim.Cell.{Memory}
use driver_hostmot.Shim.State.{Shim}
use driver_hostmot.Shim.Params.{Params}
use driver_hostmot.Host.Objects.{Objects, Handle}
use driver_hostmot.Host.Bind.{Bound}
use driver_hostmot.Host.Config.Keys.{Libc, Config}
use driver_hostmot.Host.Startup.Modules.{Opened}

pub record Given (d : Double) (F : Type 0) : Type 0 where
  pub libc : Libc d
  pub strtol : Text → ℤ
  -- the configuration file, and whether the allocations for a line succeed
  pub file : Option (List Text)
  pub lines_allocated : ℕ → Bool
  -- the allocations of `hm2_shim_init`, `hm2_shim_set_params`, `strdup`, `fix_pins`, `bind_signals`
  pub arena_ok : Bool
  pub signals_ok : Bool
  pub functs_ok : Bool
  pub claims_ok : Bool
  pub dup : Bool
  pub fixed_ok : Bool
  pub bound_ok : Bool
  -- libhostmot2.so and the transport, where `dlopen` finds them
  pub generic : Option (Opened F)
  pub transport : Option (Opened F)
  -- the shared object
  pub opens : Bool
  pub sizes : Bool
  pub maps : Bool
  pub renames : Bool
  -- the clock at the description, whether the log's writer starts, what the reads and writes of the
  -- measurement leave in the arena, what they declare, and whether a signal came by then
  pub now : ℕ
  pub ring_starts : Bool
  pub measured : Memory → Memory
  pub worst : ℕ
  pub stopping : Bool

-- The two modules, in what is said of their exit functions.
pub data Which : Type 0 where
  the_generic the_transport : Which

-- What the process holds.
pub record Process (d : Double) (F : Type 0) : Type 0 where
  pub shim : Shim F
  pub params : Params d.Real
  pub objects : Objects
  pub generic : Option (Opened F)
  pub transport : Option (Opened F)
  pub ringed : Bool
  pub exited : List Which
  pub in_cycle : Bool

-- What the loop starts with.
pub record Ready (d : Double) (F : Type 0) : Type 0 where
  pub config : Config d.Real
  pub read : Funct F
  pub write : Funct F
  pub inputs : List (Bound d.Real)
  pub outputs : List (Bound d.Real)
  pub handle : Handle d.Real

-- The name under which the region is made.
abbrev pub measuring : Text → Text
measuring name = name ++ codes ".measuring"
