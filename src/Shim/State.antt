-- ===== src/Shim/State.antt =====
-- The state of the shim: the static variables of shim/hal_shim.c, and its start and end
-- (`hm2_shim_init`, `hm2_shim_fini`).
use driver_hostmot.Base.{ℕ, Bool, true, false, not, ◌||◌, List, [], Text, if◌then◌else◌}
use driver_hostmot.Shim.Types.{Signal, Funct}
use driver_hostmot.Shim.Arena.{Arena}
use driver_hostmot.Shim.Cell.{Memory}

-- One of `components`.
pub record Component : Type 0 where
  pub name : Text
  pub ready : Bool

-- `F` stands for an exported function with its argument.
pub record Shim (F : Type 0) : Type 0 where
  pub arena : Arena
  pub memory : Memory
  pub signals : List Signal
  pub signal_capacity : ℕ
  pub functs : List (Funct F)
  pub funct_capacity : ℕ
  pub components : List Component

module _ {F : Type 0} where
  -- Releases the arena and the tables.
  unfoldable pub hm2_shim_fini : Shim F → Shim F
  hm2_shim_fini s = record s {
    arena = record s.arena { mapped = false; size = 0; used = 0 };
    signals = [];
    signal_capacity = 0;
    functs = [];
    funct_capacity = 0;
    components = [];
  }

  -- The three Booleans say which `calloc` succeeds; `false` is the return of -1. `calloc` clears
  -- the arena. Locking it into memory changes no value.
  unfoldable pub hm2_shim_init :
      (arena signals functs : Bool) → (bytes max_signals max_functs : ℕ) → Shim F → Bool × Shim F
  unfolding hm2_shim_fini
  hm2_shim_init arena_ok signals_ok functs_ok bytes max_signals max_functs s =
      if not arena_ok || (not signals_ok || not functs_ok)
      then (false, hm2_shim_fini (record s { arena = record s.arena { mapped = arena_ok } }))
      else (
        true,
        record s {
          arena = record { mapped = true; size = bytes; used = 0; overflowed = false };
          memory = λ _. 0;
          signals = [];
          signal_capacity = max_signals;
          functs = [];
          funct_capacity = max_functs;
        },
      )
