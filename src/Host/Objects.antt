-- ===== src/Host/Objects.antt =====
-- The shared objects by name (`hm2_region_create`, `hm2_region_rename`, `hm2_region_destroy` of
-- host/region.c). What the system does of itself is a Boolean argument: whether it opens, sizes,
-- maps or renames an object. Its names are a function from paths to objects.
pub mod Names
pub mod Life
use driver_hostmot.Base.{
  ℕ, ◌+◌, Bool, true, false, not, Option, none, some, List, [], ◌∷◌, ◌++◌, Text, ◌==◌, str_eq,
  if◌then◌else◌, take,
}
use driver_hostmot.Host.Region.{
  Region, Header, hm2_region_layout, hm2_region_set_state, starting, shutdown, bus_init, no_fault,
}

-- The objects under /dev/shm by path, and how many were ever made.
pub record Objects : Type 0 where
  pub at : Text → Option ℕ
  pub made : ℕ

-- The path of a name under /dev/shm: `shm_path`, and what `shm_open` and `shm_unlink` do.
abbrev pub shm_path : Text → Text
shm_path [] = b'/' ∷ []
shm_path (c ∷ name) = if c == b'/' then c ∷ name else b'/' ∷ c ∷ name

abbrev pub put : Text → Option ℕ → Objects → Objects
put path object o = record o { at = λ p. if str_eq p path then object else o.at p }

abbrev pub shm_unlink : Text → Objects → Objects
shm_unlink name o = put (shm_path name) none o

-- `hm2_region`: the mapping, which object it is of, `name`, `owner`; `mapped` is `base != NULL`.
pub record Handle (Real : Type 0) : Type 0 where
  pub region : Region Real
  pub object : ℕ
  pub name : Text
  pub owner : Bool
  pub mapped : Bool

-- The bytes of `name`, less its NUL.
abbrev pub name_max : ℕ
name_max = 255

module _ {Real : Type 0} (clear : Real) where
  abbrev clear_header : Header
  clear_header = record {
    version_major = 0;
    version_minor = 0;
    version_patch = 0;
    axis_count = 0;
    generation = 0;
    layout_size = 0;
    cycle_time_ns = 0;
    core_watchdog_cycles = 0;
    response_watchdog_cycles = 0;
    sync_manager_watchdog_us = 0;
    spin_iterations = 0;
    flags = 0;
    worst_case_cycle_ns = 0;
  }

  -- A new object's bytes are zero.
  abbrev pub clear_region : ℕ → ℕ → Region Real
  clear_region inputs outputs = record {
    block = hm2_region_layout inputs outputs;
    shared_block = none;
    header = clear_header;
    cycle = 0;
    response = 0;
    futex_word = 0;
    state = starting;
    bus = λ _. (bus_init, no_fault);
    table = λ _. none;
    doubles = λ _. clear;
    overruns = 0;
  }

  -- `none` is -1.
  unfoldable pub hm2_region_create :
      (opens sizes maps : Bool)
      → Text
      → (inputs outputs : ℕ) → Objects
      → Option (Handle Real) × Objects
  hm2_region_create opens sizes maps name inputs outputs o =
      let unlinked = shm_unlink name o in
      if not opens
      then (none, unlinked)
      else let opened = record (put (shm_path name) (some o.made) unlinked) { made = o.made + 1 } in
        if not sizes
        then (none, shm_unlink name opened)
        else if not maps
        then (none, shm_unlink name opened)
        else (
          some (record {
            region = clear_region inputs outputs;
            object = o.made;
            name = take name_max name;
            owner = true;
            mapped = true;
          }),
          opened,
        )

module _ {Real : Type 0} where
  -- `false` is -1. There is nothing to rename where the path has no object.
  unfoldable pub hm2_region_rename :
      (renames : Bool) → Text → Handle Real → Objects → Bool × Handle Real × Objects
  hm2_region_rename renames name h o = elim (o.at (shm_path h.name)) [
    | none ↦ (false, h, o)
    | some object ↦ if not renames then (false, h, o) else (
      true,
      record h { name = take name_max name },
      put (shm_path name) (some object) (put (shm_path h.name) none o),
    )
  ]

  unfoldable pub hm2_region_destroy : Handle Real → Objects → Handle Real × Objects
  hm2_region_destroy h o = if not h.mapped then (h, o) else (
    record h { region = hm2_region_set_state shutdown h.region; mapped = false },
    if h.owner then shm_unlink h.name o else o,
  )
