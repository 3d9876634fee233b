-- ===== src/Host/Config/Keys.antt =====
-- The configuration and what each key sets (`add_module_param`, `add_hal_param`, `parse_pin_value`,
-- `add_pin` and the keys of `hm2_config_load` in host/config.c).
use driver_hostmot.Base.{
  ℕ, ◌%◌, ◌^◌, Bool, true, false, not, ◌||◌, Option, none, some, List, [], ◌∷◌, ◌++◌, Text, String,
  codes, ◌==◌, leb, if◌then◌else◌, drop, take, length, str_eq, starts_with,
}
use driver_hostmot.Base.Int.{ℤ, pos, negsuc}
use driver_hostmot.Double.{Double}
use driver_hostmot.Host.FixedPins.{PinLine}
use driver_hostmot.Host.Config.Lines.{cut}

-- The number parsers of libc, which the program uses and does not implement.
pub record Libc (d : Double) : Type 0 where
  -- `strtoul` and `strtoull` in the given base
  pub strtoul : ℕ → Text → ℕ
  -- `(int)strtol(text, NULL, 0)`
  pub strtol : Text → ℤ
  -- `strtod`: the value, how many bytes it took, and whether `errno` is set
  pub strtod : Text → d.Real × ℕ × Bool
  pub isfinite : d.Real → Bool
  -- the literals `1.5`, `0.8` and `1.0` of the defaults and the checks
  pub one_and_a_half : d.Real
  pub four_fifths : d.Real

-- `struct hm2_module_param`
pub record ModuleParam : Type 0 where
  pub name : Text
  pub index : ℕ
  pub value : Text

-- `hm2_config`
pub record Config (Real : Type 0) : Type 0 where
  pub region : Text
  pub transport : Text
  pub axis_count : ℕ
  pub cycle_us : ℕ
  pub core_watchdog_cycles : ℕ
  pub response_watchdog_cycles : ℕ
  pub drive_watchdog_us : ℕ
  pub spin_iterations : ℕ
  pub worst_case_cycle_ns : ℕ
  pub measure_cycles : ℕ
  pub worst_case_margin : Real
  pub sserial_transfer_us : ℕ
  pub send_deadline : Real
  pub same_cycle : Bool
  pub arena_bytes : ℕ
  pub max_signals : ℕ
  pub max_functs : ℕ
  pub log_level : ℤ
  pub rt_priority : ℤ
  pub cpu_affinity : ℤ
  pub module_params : List ModuleParam
  pub params : List (Text × Real)
  pub pins : List (PinLine Real)

-- `strcmp(text, literal) == 0`
abbrev pub is_key : String → Text → Bool
is_key literal text = str_eq text (codes literal)

unfoldable pub has_pin : {Real : Type 0} → Text → List (PinLine Real) → Bool
has_pin name [] = false
has_pin name (p ∷ rest) = str_eq p.name name || has_pin name rest

module _ (d : Double) (c : Libc d) where
  open d use {Real}

  abbrev u32_of : Text → ℕ
  u32_of value = c.strtoul 0 value % 2 ^ 32

  -- `split_index`
  unfoldable pub split_index : Text → Text × ℕ
  split_index name =
      let (front, rest) = cut b'[' name in
      elim rest [ none ↦ (name, 0) | some digits ↦ (front, c.strtoul 10 digits) ]

  -- `none` is -1: the line counts as a failure and changes nothing.
  unfoldable pub add_module_param : Bool → Text → Text → Config Real → Option (Config Real)
  unfolding split_index
  add_module_param allocated name value g =
      let (short, index) = split_index name in
      if leb 128 (length short) || leb 256 (length value)
      then none
      else if allocated
      then some (record g {
        module_params =
            g.module_params ++ record { name = short; index = index; value = value } ∷ [];
      })
      else none

  unfoldable pub add_hal_param : Bool → Text → Real → Config Real → Option (Config Real)
  add_hal_param allocated name value g =
      if allocated then some (record g { params = g.params ++ (name, value) ∷ [] }) else none

  unfoldable pub parse_pin_value : Text → Option Real
  parse_pin_value text =
      if is_key "true" text
      then some (d.of_int (pos 1))
      else if is_key "false" text
      then some (d.of_int (pos 0))
      else let (value, taken, failed) = c.strtod text in
        if taken == 0 || (not (taken == length text) || (failed || not (c.isfinite value)))
        then none
        else some value

  unfoldable pub add_pin : Bool → Text → Real → ℕ → Config Real → Option (Config Real)
  unfolding has_pin
  add_pin allocated name value line g =
      if has_pin name g.pins
      then none
      else if allocated
      then some
          (record g { pins = g.pins ++ record { name = name; value = value; line = line } ∷ [] })
      else none

  -- The keys that set one value. `none` is a key that this host does not know, or a `same_cycle`
  -- that is neither true nor false.
  unfoldable pub set_scalar : Text → Text → Config Real → Option (Config Real)
  set_scalar key value g =
      if is_key "region" key
      then some (record g { region = take 255 value })
      else if is_key "transport" key
      then some (record g { transport = take 63 value })
      else if is_key "axes" key
      then some (record g { axis_count = u32_of value })
      else if is_key "cycle_us" key
      then some (record g { cycle_us = u32_of value })
      else if is_key "worst_case_cycle_ns" key
      then some (record g { worst_case_cycle_ns = c.strtoul 0 value })
      else if is_key "measure_cycles" key
      then some (record g { measure_cycles = u32_of value })
      else if is_key "worst_case_margin" key
      then some (record g { worst_case_margin = (c.strtod value).0 })
      else if is_key "sserial_transfer_us" key
      then some (record g { sserial_transfer_us = u32_of value })
      else if is_key "core_watchdog_cycles" key
      then some (record g { core_watchdog_cycles = u32_of value })
      else if is_key "response_watchdog_cycles" key
      then some (record g { response_watchdog_cycles = u32_of value })
      else if is_key "drive_watchdog_us" key
      then some (record g { drive_watchdog_us = u32_of value })
      else if is_key "spin_iterations" key
      then some (record g { spin_iterations = u32_of value })
      else if is_key "send_deadline" key
      then some (record g { send_deadline = (c.strtod value).0 })
      else if is_key "same_cycle" key
      then (if is_key "true" value || is_key "1" value
          then some (record g { same_cycle = true })
          else if is_key "false" value || is_key "0" value
          then some (record g { same_cycle = false })
          else none)
      else if is_key "arena_bytes" key
      then some (record g { arena_bytes = c.strtoul 0 value })
      else if is_key "max_signals" key
      then some (record g { max_signals = c.strtoul 0 value })
      else if is_key "max_functs" key
      then some (record g { max_functs = c.strtoul 0 value })
      else if is_key "log_level" key
      then some (record g { log_level = c.strtol value })
      else if is_key "rt_priority" key
      then some (record g { rt_priority = c.strtol value })
      else if is_key "cpu_affinity" key
      then some (record g { cpu_affinity = c.strtol value })
      else none

  -- One `key = value` line.
  unfoldable pub set_key : Bool → ℕ → Text → Text → Config Real → Option (Config Real)
  set_key allocated line key value g =
      if starts_with (codes "module.") key
      then add_module_param allocated (drop 7 key) value g
      else if starts_with (codes "param.") key
      then add_hal_param allocated (drop 6 key) (c.strtod value).0 g
      else if starts_with (codes "pin.") key
      then (elim (parse_pin_value value) [
        | none ↦ none
        | some v ↦ add_pin allocated (drop 4 key) v line g
      ])
      else set_scalar key value g

  -- What `memset` and the assignments before the file is opened leave.
  unfoldable pub defaults : Config Real
  defaults = record {
    region = codes "/cnc-hm2-0";
    transport = codes "hm2_eth";
    axis_count = 3;
    cycle_us = 1000;
    core_watchdog_cycles = 100;
    response_watchdog_cycles = 100;
    drive_watchdog_us = 10000;
    spin_iterations = 0;
    worst_case_cycle_ns = 0;
    measure_cycles = 1000;
    worst_case_margin = c.one_and_a_half;
    sserial_transfer_us = 150;
    send_deadline = c.four_fifths;
    same_cycle = true;
    arena_bytes = 8388608;
    max_signals = 4096;
    max_functs = 64;
    log_level = pos 3;
    rt_priority = pos 92;
    cpu_affinity = negsuc 0;
    module_params = [];
    params = [];
    pins = [];
  }
