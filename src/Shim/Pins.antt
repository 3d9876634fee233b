-- ===== src/Shim/Pins.antt =====
-- Pins, parameters and exported functions as the driver declares them (shim/hal_shim.c). What
-- `vsnprintf` makes of the format and its arguments is an argument: `none` where it fails. Messages
-- are not modelled.
pub mod Declare
pub mod Table
pub mod Invariant
use driver_hostmot.Base.{
  ℕ, ◌+◌, Bool, true, false, not, ◌&&◌, ◌||◌, Option, none, some, List, [], ◌∷◌, ◌++◌, Text, codes,
  ltb, leb, if◌then◌else◌, length, get_elem?, update, ends_with,
}
use driver_hostmot.Base.Int.{pos}
use driver_hostmot.Double.{Double}
use driver_hostmot.Shim.Types.{
  ShimType, bool_cell, sint_cell, uint_cell, real_cell, Dir, to_core, from_core, Signal, Funct,
  Status, done, einval, enomem, hal_name_len, has_in, has_out, has_wo,
}
use driver_hostmot.Shim.Arena.{Arena, hal_malloc}
use driver_hostmot.Shim.Cell.{nought}
use driver_hostmot.Shim.State.{Shim}
use driver_hostmot.Shim.Params.{Params, DeclaredParam, hm2_shim_param_lookup, hm2_shim_note_param}

-- Copies a name into the arena; one longer than HAL's is refused.
unfoldable pub arena_name : Option Text → Arena → Option Text × Arena
arena_name none a = (none, a)
arena_name (some name) a =
    if leb (hal_name_len + 1) (length name)
    then (none, a)
    else let (block, a') = hal_malloc (pos (length name + 1)) a in
      elim block [ none ↦ (none, a') | some _ ↦ (some name, a') ]

-- `channel_dir`
unfoldable pub channel_dir : ℕ → Dir
channel_dir dir = if has_in dir then from_core else to_core

abbrev pub probe_enable : Text
probe_enable = codes ".probe-enable"

-- `written_back_anyway`: the name ends so and is longer.
unfoldable pub written_back_anyway : Text → Bool
written_back_anyway name = ltb (length probe_enable) (length name) && ends_with probe_enable name

-- Whether a pin is published once in each direction.
abbrev pub both_ways : ℕ → Text → Bool
both_ways dir name = has_in dir && has_out dir || has_in dir && written_back_anyway name

-- A signal on the cell at that offset.
abbrev pub signal_at : Text → ShimType → ℕ → Dir → Signal
signal_at name type at dir = record { name = name; type = type; dir = dir; cell = some at }

module _ {F : Type 0} where
  unfoldable pub publish : Signal → Shim F → Bool × Shim F
  publish new s =
      if leb s.signal_capacity (length s.signals)
      then (false, s)
      else (true, record s { signals = s.signals ++ new ∷ [] })

  -- The publishing half of `new_pin`: the status, and the table as it then is.
  unfoldable pub publish_pin : ℕ → Text → ShimType → ℕ → Shim F → Status × Shim F
  publish_pin dir name type at s =
      if both_ways dir name
      then (let (first, s') = publish (signal_at name type at from_core) s in
          let (second, s'') = publish (signal_at name type at to_core) s' in
          if first then (if second then (done, s'') else (enomem, s'')) else (enomem, s'))
      else (let (ok, s') = publish (signal_at name type at (channel_dir dir)) s in
          if ok then (done, s') else (enomem, s'))

  -- Takes a name and a cell from the arena: the two ways to fail before anything is published.
  unfoldable pub name_and_cell : Option Text → ℕ → Shim F → Option (Text × ℕ) × Shim F
  unfolding arena_name
  name_and_cell text initial s =
      let (name, a) = arena_name text s.arena in
      elim name [
        | none ↦ (none, record s { arena = a })
        | some n ↦
            let (cell, a') = hal_malloc (pos 8) a in
            elim cell [
              | none ↦ (none, record s { arena = a' })
              | some at ↦
                  (some (n, at), record s { arena = a'; memory = update s.memory at initial })
            ]
      ]

  -- `new_pin`, behind every `hal_pin_new_*`: the status, what `*ref` is set to, and the shim.
  -- `initial` is the cell's word.
  unfoldable pub new_pin :
      Bool → ℕ → ShimType → ℕ → Option Text → Shim F → Status × Option ℕ × Shim F
  new_pin ref dir type initial text s =
      if not ref
      then (einval, none, s)
      else let (made, s') = name_and_cell text initial s in
        elim made [
          | none ↦ (enomem, none, s')
          | some (name, at) ↦
              let (status, s'') = publish_pin dir name type at s' in
              elim status [ done ↦ (done, some at, s'') | other ↦ (other, none, s'') ]
        ]

  -- `hal_param_new_fake`: a cell and no entry.
  unfoldable pub hal_param_new_fake : Bool → Shim F → Status × Option ℕ × Shim F
  hal_param_new_fake refs s =
      if not refs
      then (einval, none, s)
      else let (cell, a) = hal_malloc (pos 8) s.arena in
        elim cell [
          | none ↦ (enomem, none, record s { arena = a })
          | some at ↦ (done, some at, record s { arena = a; memory = update s.memory at 0 })
        ]

  -- `hal_export_functf`; `none` is the null function.
  unfoldable pub hal_export_functf : Option F → Bool → Option Text → Shim F → Status × Shim F
  unfolding arena_name
  hal_export_functf none uses_fp text s = (einval, s)
  hal_export_functf (some f) uses_fp text s =
      if leb s.funct_capacity (length s.functs)
      then (enomem, s)
      else let (name, a) = arena_name text s.arena in
        elim name [
          | none ↦ (enomem, record s { arena = a })
          | some n ↦ (
            done,
            record s {
              arena = a;
              functs = s.functs ++ record { name = n; funct = f; uses_fp = uses_fp } ∷ [];
            },
          )
        ]

  -- `hm2_shim_signal_count`, `hm2_shim_signal_at`, `hm2_shim_funct_count`, `hm2_shim_funct_at`
  unfoldable pub hm2_shim_signal_count : Shim F → ℕ
  hm2_shim_signal_count s = length s.signals

  unfoldable pub hm2_shim_signal_at : ℕ → Shim F → Option Signal
  hm2_shim_signal_at index s = get_elem? s.signals index

  unfoldable pub hm2_shim_funct_count : Shim F → ℕ
  hm2_shim_funct_count s = length s.functs

  unfoldable pub hm2_shim_funct_at : ℕ → Shim F → Option (Funct F)
  hm2_shim_funct_at index s = get_elem? s.functs index

  funct_ending : Text → List (Funct F) → Option (Funct F)
  funct_ending suffix [] = none
  funct_ending suffix (f ∷ l) = if ends_with suffix f.name then some f else funct_ending suffix l

  unfoldable pub hm2_shim_funct_ending : Text → Shim F → Option (Funct F)
  unfolding funct_ending
  hm2_shim_funct_ending suffix s = funct_ending suffix s.functs

module _ (d : Double) where
  -- The cell's word for a configured value: the casts of `new_param`'s switch.
  unfoldable pub configured_word : ShimType → d.Real → ℕ
  configured_word bool_cell value = if d.eq value (nought d) then 0 else 1
  configured_word sint_cell value = d.to_s64 value
  configured_word uint_cell value = d.to_u64 value
  configured_word real_cell value = d.to_bits value

module _ (d : Double) {F : Type 0} where
  -- `new_param`, behind every `hal_param_new_*`. The last Boolean says whether the table of
  -- declared parameters can grow.
  unfoldable pub new_param :
      Bool
      → ℕ
      → ShimType
      → ℕ
      → Option Text
      → Bool
      → Shim F
      → Params d.Real
      → Status × Option ℕ × Shim F × Params d.Real
  new_param ref dir type initial text grows s p =
      if not ref
      then (einval, none, s, p)
      else let (made, s') = name_and_cell text initial s in
        elim made [
          | none ↦ (enomem, none, s', p)
          | some (name, at) ↦
              let (found, p') = hm2_shim_param_lookup name p in
              let s'' : Shim F = elim found [
                | none ↦ s'
                | some value ↦ record s' {
                  memory = update s'.memory at (configured_word d type value);
                }
              ] in
              let entry : DeclaredParam = record {
                name = name;
                type = type;
                cell = at;
                writable = has_wo dir;
              } in
              (done, some at, s'', hm2_shim_note_param grows entry p')
        ]
