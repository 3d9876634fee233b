-- ===== src/Host/Bind.antt =====
-- The signal table of the channel (host/main.c): which pin or parameter crosses in which direction,
-- with what index and flags, and what is written into the region's table of descriptors.
pub mod Entries
pub mod Dense
pub mod Outputs
pub mod Declared
use driver_hostmot.Base.{
  ℕ, ◌+◌, Bool, true, false, not, ◌&&◌, ◌||◌, Option, none, some, is_some, List, [], ◌∷◌, ◌++◌,
  Text, String, codes, ◌==◌, if◌then◌else◌, length, get_elem?, str_eq, find_text,
}
use driver_hostmot.Base.Int.{pos}
use driver_hostmot.Double.{Double}
use driver_hostmot.Shim.Types.{
  ShimType, bool_cell, sint_cell, uint_cell, real_cell, Dir, to_core, from_core, is_to_core, Signal,
}
use driver_hostmot.Shim.Params.{DeclaredParam, view_of}
use driver_hostmot.Host.Region.{Region, u32, hm2_region_declare}

-- `bound_signal`
pub record Bound (Real : Type 0) : Type 0 where
  pub signal : Signal
  pub value_index : ℕ
  pub flags : ℕ
  pub last : Real

-- CNC_OUTBOARD_SIGNAL_ON_CHANGE and _FIXED
abbrev pub on_change : ℕ
on_change = 1

abbrev pub fixed_flag : ℕ
fixed_flag = 2

-- `is_fixed`
unfoldable pub is_fixed : List ℕ → ℕ → Bool
is_fixed [] i = false
is_fixed (f ∷ rest) i = f == i || is_fixed rest i

-- Two cell pointers are equal.
abbrev pub same_cell : Option ℕ → Option ℕ → Bool
same_cell none none = true
same_cell (some a) (some b) = a == b
same_cell _ _ = false

-- `written_by_the_driver`: another entry over the same cell is written by the driver. The list is
-- the table from index `j` on, the pin's index is `i`.
unfoldable pub written_from : ℕ → Signal → ℕ → List Signal → Bool
written_from i s j [] = false
written_from i s j (other ∷ rest) =
    not (j == i) && (same_cell other.cell s.cell && is_to_core other.dir)
    || written_from i s (j + 1) rest

unfoldable pub written_by_the_driver : List Signal → ℕ → Signal → Bool
written_by_the_driver signals i s = written_from i s 0 signals

-- `pin_named`
unfoldable pub pin_named : Text → Bool → List Signal → Bool
pin_named name toward_core [] = false
pin_named name toward_core (s ∷ rest) =
    (if is_to_core s.dir then toward_core else not toward_core) && str_eq s.name name
    || pin_named name toward_core rest

-- `bound_inputs`, `bound_outputs`, `params_published`, `params_writable`
pub record Binding (Real : Type 0) : Type 0 where
  pub inputs : List (Bound Real)
  pub outputs : List (Bound Real)
  pub params_published : ℕ
  pub params_writable : ℕ

module _ {Real : Type 0} (clear : Real) where
  abbrev bind_input : Signal → ℕ → Binding Real → Binding Real
  bind_input s flags b = record b {
    inputs =
        b.inputs
        ++ record { signal = s; value_index = length b.inputs; flags = flags; last = clear } ∷ [];
  }

  abbrev bind_output : Signal → ℕ → Binding Real → Binding Real
  bind_output s flags b = record b {
    outputs =
        b.outputs
        ++ record { signal = s; value_index = length b.outputs; flags = flags; last = clear } ∷ [];
  }

  -- One turn of the loop of `bind_signals`.
  unfoldable pub bind_pin : List Signal → List ℕ → ℕ → Signal → Binding Real → Binding Real
  bind_pin signals fixed i s b =
      if is_to_core s.dir || is_fixed fixed i
      then bind_input s (if is_to_core s.dir then 0 else fixed_flag) b
      else bind_output s (if written_by_the_driver signals i s then on_change else 0) b

  unfoldable pub bind_pins : List Signal → List ℕ → ℕ → List Signal → Binding Real → Binding Real
  bind_pins signals fixed i [] b = b
  bind_pins signals fixed i (s ∷ rest) b =
      bind_pins signals fixed (i + 1) rest (bind_pin signals fixed i s b)

  -- One turn of the loop of `bind_params`.
  unfoldable pub bind_param : List Signal → DeclaredParam → Binding Real → Binding Real
  bind_param signals p b =
      if pin_named p.name true signals
      then b
      else let read =
          bind_input (view_of p) 0 (record b { params_published = b.params_published + 1 }) in
        if p.writable && not (pin_named p.name false signals)
        then bind_output (record (view_of p) { dir = from_core }) on_change
            (record read { params_writable = b.params_writable + 1 })
        else read

  unfoldable pub bind_params : List Signal → List DeclaredParam → Binding Real → Binding Real
  bind_params signals [] b = b
  bind_params signals (p ∷ rest) b = bind_params signals rest (bind_param signals p b)

  abbrev pub nothing_bound : Binding Real
  nothing_bound = record { inputs = []; outputs = []; params_published = 0; params_writable = 0 }

  -- `bind_signals`. The Boolean says whether the three `calloc`s succeed; they clear what they
  -- give, so `last` starts as `clear`.
  unfoldable pub bind_signals :
      Bool → List Signal → List DeclaredParam → List ℕ → Option (Binding Real)
  bind_signals allocated signals params fixed =
      if not allocated
      then none
      else some (bind_params signals params (bind_pins signals fixed 0 signals nothing_bound))

-- CNC_OUTBOARD_SIGNAL_BOOL, _I32 and _F64
unfoldable pub channel_type : ShimType → ℕ
channel_type bool_cell = 0
channel_type sint_cell = 1
channel_type uint_cell = 1
channel_type real_cell = 2

abbrev holds : String → Text → Bool
holds part name = is_some (find_text (codes part) name)

-- The role is guessed from the name, and from the type where the name says nothing.
unfoldable pub channel_role : Text → ShimType → ℕ
channel_role name type =
    if holds ".position" name || holds ".counts" name
    then 2
    else if holds ".velocity" name
    then 3
    else if holds ".index-enable" name || (holds ".probe-enable" name || holds ".latch" name)
    then 8
    else (elim type [ bool_cell ↦ 0 | _ ↦ 1 ])

-- One of `host_signals`.
pub record HostSignal : Type 0 where
  pub name : Text
  pub type : ℕ
  pub unit : ℕ

abbrev pub host_signals : List HostSignal
host_signals =
    record { name = codes "hm2-host.read-time"; type = 2; unit = 9 }
    ∷ record { name = codes "hm2-host.answer-time"; type = 2; unit = 9 }
    ∷ record { name = codes "hm2-host.answers-late"; type = 1; unit = 10 }
    ∷ record { name = codes "hm2-host.sserial-faults"; type = 1; unit = 10 }
    ∷ record { name = codes "hm2-host.sserial-waits"; type = 1; unit = 10 }
    ∷ []

-- CNC_OUTBOARD_SIGNAL_INPUT and _OUTPUT
abbrev pub input_direction : ℕ
input_direction = 0

abbrev pub output_direction : ℕ
output_direction = 1

module _ {Real : Type 0} where
  -- The descriptors of one direction, from table index `slot` on.
  unfoldable pub declare_bound : ℕ → ℕ → List (Bound Real) → Region Real → Region Real
  declare_bound direction slot [] r = r
  declare_bound direction slot (b ∷ rest) r = declare_bound direction (slot + 1) rest (
      hm2_region_declare slot b.signal.name direction (channel_type b.signal.type)
        (channel_role b.signal.name b.signal.type) 0 (u32 b.value_index) b.flags r)

  unfoldable pub declare_host : ℕ → ℕ → List HostSignal → Region Real → Region Real
  declare_host slot value_index [] r = r
  declare_host slot value_index (h ∷ rest) r =
      declare_host (slot + 1) (value_index + 1) rest
        (hm2_region_declare slot h.name input_direction h.type 1 h.unit (u32 value_index) 0 r)

  -- `declare_signals`: the inputs, this process's own, the outputs.
  unfoldable pub declare_signals : Binding Real → Region Real → Region Real
  declare_signals b r =
      let ins = length b.inputs in
      declare_bound output_direction (ins + length host_signals) b.outputs
        (declare_host ins ins host_signals (declare_bound input_direction 0 b.inputs r))
