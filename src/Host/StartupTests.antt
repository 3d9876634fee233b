-- ===== src/Host/StartupTests.antt =====
-- The start of `main` on concrete inputs: a driver with three pins and both cyclic functions.
use driver_hostmot.Base.{
  All, ◌↔◌, if◌then◌else◌, is_some, Bool, ends_with, ℕ, ◌+◌, ◌≡◌, refl, true, false, Option, none,
  some, List, [], ◌∷◌, codes, ◌∙◌, arith, length, str_eq, get_elem?,
}
use driver_hostmot.Base.Int.{ℤ, pos}
use driver_hostmot.Concrete.{tenths}
use driver_hostmot.Shim.Types.{from_core, bool_cell, uint_cell, hal_in, hal_out}
use driver_hostmot.Shim.Driver.Kept.{IsDriven}
use driver_hostmot.Shim.Driver.{Call, pin, export, call, calls}
use driver_hostmot.Shim.ModuleParams.{Module, int_value}
use driver_hostmot.Shim.Arena.{hal_malloc}
use driver_hostmot.Shim.State.{hm2_shim_init}
use driver_hostmot.Shim.Params.{hm2_shim_unclaimed_params, hm2_shim_set_params}
use driver_hostmot.Shim.Pins.{
  hm2_shim_funct_ending, hal_export_functf, new_pin, name_and_cell, arena_name, publish_pin,
  publish, channel_dir, written_back_anyway,
}
use driver_hostmot.Host.FixedPins.{fix_pins, fix_lines, judge, find_pin, fits}
use driver_hostmot.Host.Bind.{
  Bound, bind_signals, bind_pins, bind_pin, bind_params, bind_param, is_fixed,
  written_by_the_driver, written_from, pin_named,
}
use driver_hostmot.Host.Config.Keys.{ModuleParam, defaults}
use driver_hostmot.Shim.Cell.{Memory, cell_get}
use driver_hostmot.Host.Region.Values.{output, value_at}
use driver_hostmot.Host.Cycle.{seed_outputs}
use driver_hostmot.Host.Startup.Settable.{HasPlace}
use driver_hostmot.Host.Startup.Placed.{place_params_iff}
use driver_hostmot.Host.Startup.Seeds.{start_seeds}
use driver_hostmot.Host.ConfigTests.{decimal, file, loaded, loaded_is}
use driver_hostmot.Host.Objects.{clear_region, Objects, hm2_region_create, hm2_region_rename}
use driver_hostmot.Host.Startup.Modules.{Opened, place_params}
use driver_hostmot.Host.Startup.State.{Given, Process, Ready}
use driver_hostmot.Host.Startup.{
  start_with, load_modules, start_driver, bind_all, make_region, furnish, Start, ended, cycling,
  start_from, start,
}
use driver_hostmot.Host.Startup.Outcome.{IsGivenBack}
use driver_hostmot.Host.Startup.Result.{start-start_from, start_gives_back, start_ready}

abbrev no_params : Module
no_params = record {
  address = λ _. none;
  type = λ _. none;
  size = λ _. none;
  variables = λ b i. int_value (pos 0);
}

abbrev board_calls : List (Call ℕ)
board_calls =
    pin true hal_in uint_cell 0 (some (codes "s.max"))
    ∷ pin true hal_in bool_cell 1 (some (codes "out"))
    ∷ pin true hal_out bool_cell 0 (some (codes "in"))
    ∷ export (some 1) true (some (codes "hm2.read"))
    ∷ export (some 2) true (some (codes "hm2.write"))
    ∷ []

abbrev driver_module : List (Call ℕ) → Opened ℕ
driver_module l = record {
  module_of = no_params;
  has_main = true;
  has_exit = true;
  main_calls = l;
  main_ok = true;
}

abbrev given : Option (Opened ℕ) → Given tenths ℕ
given transport = record {
  libc = decimal;
  strtol = λ t. pos 0;
  file = some file;
  lines_allocated = λ _. true;
  arena_ok = true;
  signals_ok = true;
  functs_ok = true;
  claims_ok = true;
  dup = true;
  fixed_ok = true;
  bound_ok = true;
  generic = some (driver_module []);
  transport = transport;
  opens = true;
  sizes = true;
  maps = true;
  renames = true;
  now = 7;
  ring_starts = true;
  measured = λ m. m;
  worst = 120000;
  stopping = false;
}

abbrev no_objects : Objects
no_objects = record { at = λ _. none; made = 3 }

-- What a start that should end early, or should reach the cycle, came to.
abbrev ends : {g : Given tenths ℕ} → Start tenths g → Process tenths ℕ
ends (ended status p) = p
ends (cycling r p) = p

abbrev some_ready : Ready tenths ℕ
some_ready = record {
  config = loaded;
  read = record { name = []; funct = 0; uses_fp = true };
  write = record { name = []; funct = 0; uses_fp = true };
  inputs = [];
  outputs = [];
  handle = record {
    region = clear_region (pos 0) 0 0;
    object = 0;
    name = [];
    owner = true;
    mapped = true;
  };
}

abbrev readies : {g : Given tenths ℕ} → Start tenths g → Ready tenths ℕ
readies (ended status p) = some_ready
readies (cycling r p) = r

abbrev lame : Given tenths ℕ
lame = given none

abbrev whole : Given tenths ℕ
whole = given (some (driver_module board_calls))

ends_early :
    start tenths lame no_objects ≡ ended 1 (ends (start_from tenths lame loaded no_objects))
unfolding start_from hm2_shim_init start_with load_modules
ends_early = start-start_from tenths lame no_objects loaded loaded_is ∙ refl

start_gives_back_example :
    IsGivenBack tenths no_objects loaded (ends (start_from tenths lame loaded no_objects))
unfolding defaults
start_gives_back_example =
    (start_gives_back tenths lame no_objects loaded 1
      (ends (start_from tenths lame loaded no_objects)) loaded_is
      (λ path object e. absurd (ground arith)) (omega arith) (omega arith) ends_early).1

abbrev reaches : {g : Given tenths ℕ} → Start tenths g → Bool
reaches (ended status p) = false
reaches (cycling r p) = true

reached :
    {g : Given tenths ℕ} (s : Start tenths g) → reaches s ≡ true → s ≡ cycling (readies s) (ends s)
reached (ended status p) e = absurd (ground arith)
reached (cycling r p) e = refl

abbrev whole_start : Start tenths whole
whole_start = start_from tenths whole loaded no_objects

abbrev no_output : Bound ℤ
no_output = record {
  signal = record { name = []; type = bool_cell; dir = from_core; cell = none };
  value_index = 0;
  flags = 0;
  last = pos 0;
}

abbrev the_output : Option (Bound ℤ) → Bound ℤ
the_output none = no_output
the_output (some b) = b

output_is : (x : Option (Bound ℤ)) → is_some x ≡ true → x ≡ some (the_output x)
output_is none e = absurd (ground arith)
output_is (some b) e = refl

whole_start_is :
    (reaches whole_start ≡ true)
    × (is_some (get_elem? (readies whole_start).outputs 0) ≡ true)
    × (length (readies whole_start).inputs + 5 + length (readies whole_start).outputs ≡ 8)
unfolding start_from hm2_shim_init start_with load_modules place_params defaults start_driver
    hm2_shim_unclaimed_params calls call hm2_shim_set_params bind_all hm2_shim_funct_ending
    hal_export_functf new_pin name_and_cell hal_malloc arena_name publish_pin publish channel_dir
    written_back_anyway ends_with fix_pins fix_lines judge find_pin fits bind_signals bind_pins
    bind_pin bind_params bind_param is_fixed written_by_the_driver written_from pin_named
    make_region furnish hm2_region_create hm2_region_rename str_eq seed_outputs
whole_start_is = (refl, refl, refl)

start_is_whole : start tenths whole no_objects ≡ cycling (readies whole_start) (ends whole_start)
start_is_whole =
    start-start_from tenths whole no_objects loaded loaded_is ∙ reached whole_start whole_start_is.0

start_ready_example : IsDriven ((ends whole_start).shim, (ends whole_start).params)
unfolding defaults
start_ready_example =
    (start_ready tenths whole no_objects loaded (readies whole_start) (ends whole_start) loaded_is
      (λ path object e. absurd (ground arith)) (omega arith) (omega arith) start_is_whole).0

abbrev out_pin : Bound ℤ
out_pin = the_output (get_elem? (readies whole_start).outputs 0)

start_seeds_example :
    (mem : Memory) × ((ends whole_start).shim.memory ≡ mem)
    × (out_pin.last ≡ cell_get tenths mem out_pin.signal)
    × (value_at (readies whole_start).handle.region (output 1 0) ≡ out_pin.last)
unfolding defaults
start_seeds_example =
    start_seeds tenths whole no_objects loaded (readies whole_start) (ends whole_start) 1 0 out_pin
      loaded_is (λ path object e. absurd (ground arith)) (omega arith) (omega arith) start_is_whole
      (omega (arith, whole_start_is.2)) (omega arith)
      (output_is (get_elem? (readies whole_start).outputs 0) whole_start_is.1)

abbrev board_ip : ModuleParam
board_ip = record { name = codes "board_ip"; index = 0; value = codes "10.10.10.10" }

-- A module whose only parameter is the string `board_ip`.
abbrev with_board_ip : Module
with_board_ip = record no_params {
  address = λ s. if str_eq s (codes "rtapi_info_address_board_ip") then some 1 else none;
  type = λ s. if str_eq s (codes "rtapi_info_type_board_ip") then some (codes "s") else none;
}

place_params_iff_example :
    ((place_params (λ t. pos 0) true (board_ip ∷ []) no_params with_board_ip).0 ≡ true)
    ↔ All (HasPlace (λ t. pos 0) true no_params with_board_ip) (board_ip ∷ [])
place_params_iff_example =
    place_params_iff (λ t. pos 0) true (board_ip ∷ []) no_params with_board_ip
