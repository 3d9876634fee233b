-- ===== src/Shim/Params.antt =====
-- The HAL parameters: what the configuration sets, which of it a declaration claimed, and what the
-- driver declared (shim/param_table.c).
pub mod Claims
use driver_hostmot.Base.{
  ℕ, ◌+◌, ◌*◌, Bool, true, false, Option, none, some, List, [], ◌∷◌, ◌++◌, Text, ◌==◌, ltb,
  if◌then◌else◌, length, get_elem?, get_or, set, replicate, str_eq, ends_with,
}
use driver_hostmot.Double.{Double}
use driver_hostmot.Shim.Types.{ShimType, Signal, to_core}
use driver_hostmot.Shim.Cell.{Memory, cell_get}

-- `declared_param`
pub record DeclaredParam : Type 0 where
  pub name : Text
  pub type : ShimType
  pub cell : ℕ
  pub writable : Bool

-- The static variables of the file. `claimed` is `none` for the null pointer.
pub record Params (Real : Type 0) : Type 0 where
  pub configured : List (Text × Real)
  pub claimed : Option (List Bool)
  pub declared : List DeclaredParam
  pub capacity : ℕ

-- `param_claimed && param_claimed[i]`
abbrev pub is_claimed : Option (List Bool) → ℕ → Bool
is_claimed none i = false
is_claimed (some l) i = get_or l i false

-- `if (param_claimed) param_claimed[i] = 1;`
abbrev pub claim : Option (List Bool) → ℕ → Option (List Bool)
claim none i = none
claim (some l) i = some (set l i true)

-- What every view of a declared parameter says.
abbrev pub view_of : DeclaredParam → Signal
view_of p = record { name = p.name; type = p.type; dir = to_core; cell = some p.cell }

-- The first declared parameter whose name ends so.
first_ending : Text → List DeclaredParam → Option Signal
first_ending suffix [] = none
first_ending suffix (p ∷ l) =
    if ends_with suffix p.name then some (view_of p) else first_ending suffix l

-- The names that no declaration claimed, from index `i` on: those that fit into the array behind
-- the `found` ones before them, and how many there are in all.
unclaimed_from :
    {Real : Type 0} → Option (List Bool) → ℕ → ℕ → ℕ → List (Text × Real) → List Text × ℕ
unclaimed_from claimed capacity i found [] = ([], found)
unclaimed_from claimed capacity i found ((name, value) ∷ rest) =
    let kept = is_claimed claimed i in
    let (names, n) =
      unclaimed_from claimed capacity (i + 1) (if kept then found else found + 1) rest in
    if kept then (names, n) else ((if ltb found capacity then name ∷ names else names), n)

module _ {Real : Type 0} where
  -- The Boolean says whether the `calloc` of the claims succeeds.
  unfoldable pub hm2_shim_set_params : Bool → List (Text × Real) → Params Real → Params Real
  hm2_shim_set_params allocated values p = record p {
    configured = values;
    claimed =
        if length values == 0
        then none
        else if allocated
        then some (replicate (length values) false)
        else none;
  }

  -- The index and the value of the first entry of that name, counting from `i`.
  unfoldable pub find_param : Text → ℕ → List (Text × Real) → Option (ℕ × Real)
  find_param name i [] = none
  find_param name i ((n, value) ∷ rest) =
      if str_eq n name then some (i, value) else find_param name (i + 1) rest

  unfoldable pub hm2_shim_param_lookup : Text → Params Real → Option Real × Params Real
  hm2_shim_param_lookup name p = elim (find_param name 0 p.configured) [
    | none ↦ (none, p)
    | some (i, value) ↦ (some value, record p { claimed = claim p.claimed i })
  ]

  -- The Boolean says whether the `realloc`, where one is made, succeeds.
  unfoldable pub hm2_shim_note_param : Bool → DeclaredParam → Params Real → Params Real
  hm2_shim_note_param allocated new p =
      if length p.declared == p.capacity
      then if allocated
        then record p {
          declared = p.declared ++ new ∷ [];
          capacity = if p.capacity == 0 then 256 else p.capacity * 2;
        }
        else p
      else record p { declared = p.declared ++ new ∷ [] }

  -- `hm2_shim_param_count` and `hm2_shim_declared_param_count`
  unfoldable pub hm2_shim_param_count : Params Real → ℕ
  hm2_shim_param_count p = length p.declared

  unfoldable pub hm2_shim_param_view : ℕ → Params Real → Option (Signal × Bool)
  hm2_shim_param_view index p = elim (get_elem? p.declared index) [
    | none ↦ none
    | some q ↦ some (view_of q, q.writable)
  ]

  unfoldable pub hm2_shim_param_ending : Text → Params Real → Option Signal
  unfolding first_ending
  hm2_shim_param_ending suffix p = first_ending suffix p.declared

  unfoldable pub hm2_shim_unclaimed_params : ℕ → Params Real → List Text × ℕ
  unfolding unclaimed_from
  hm2_shim_unclaimed_params capacity p = unclaimed_from p.claimed capacity 0 0 p.configured

module _ (d : Double) where
  -- The name and the value of a declared parameter.
  unfoldable pub hm2_shim_declared_param_at : ℕ → Memory → Params d.Real → Option (Text × d.Real)
  hm2_shim_declared_param_at index mem p = elim (get_elem? p.declared index) [
    | none ↦ none
    | some q ↦ some (q.name, cell_get d mem (view_of q))
  ]
