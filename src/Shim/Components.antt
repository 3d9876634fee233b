-- ===== src/Shim/Components.antt =====
-- The components that the driver's modules create (`hal_init`, `hal_exit`, `hal_ready`,
-- `hm2_shim_component_ready`, `hm2_shim_component_name` of shim/hal_shim.c).
use driver_hostmot.Base.{
  ℕ, zero, suc, ◌+◌, Bool, true, false, Option, none, some, List, [], ◌∷◌, ◌++◌, Text, leb,
  if◌then◌else◌, length, get_elem?, set, take,
}
use driver_hostmot.Shim.Types.{hal_name_len}
use driver_hostmot.Shim.State.{Shim, Component}

-- HM2_MAX_COMPONENTS
abbrev pub max_components : ℕ
max_components = 8

-- `components[comp_id - 1].ready = value`, where the identifier is one that was given. A negative
-- identifier does what 0 does: nothing.
abbrev pub set_ready : ℕ → Bool → List Component → List Component
set_ready zero value l = l
set_ready (suc i) value l = elim (get_elem? l i) [
  | none ↦ l
  | some c ↦ set l i (record c { ready = value })
]

all_ready : List Component → Bool
all_ready [] = true
all_ready (c ∷ l) = if c.ready then all_ready l else false

module _ {F : Type 0} where
  -- `none` is -EINVAL; otherwise the identifier. A long name is cut.
  unfoldable pub hal_init : Option Text → Shim F → Option ℕ × Shim F
  hal_init none s = (none, s)
  hal_init (some name) s = if leb max_components (length s.components) then (none, s) else (
    some (length s.components + 1),
    record s {
      components = s.components ++ record { name = take hal_name_len name; ready = false } ∷ [];
    },
  )

  unfoldable pub hal_exit : ℕ → Shim F → Shim F
  hal_exit id s = record s { components = set_ready id false s.components }

  unfoldable pub hal_ready : ℕ → Shim F → Shim F
  hal_ready id s = record s { components = set_ready id true s.components }

  unfoldable pub hm2_shim_component_ready : Shim F → Bool
  unfolding all_ready
  hm2_shim_component_ready s = elim s.components [ [] ↦ false | c ∷ l ↦ all_ready (c ∷ l) ]

  unfoldable pub hm2_shim_component_name : Shim F → Text
  hm2_shim_component_name s = elim s.components [ [] ↦ [] | c ∷ l ↦ c.name ]
