-- ===== src/Shim/DriverTests.antt =====
-- A driver that declares two pins, one too many, and a parameter that the file sets.
use driver_hostmot.Base.{
  str_eq, if◌then◌else◌, ℕ, true, none, some, List, [], ◌∷◌, codes, refl, arith, All,
}
use driver_hostmot.Base.Int.{pos}
use driver_hostmot.Concrete.{tenths}
use driver_hostmot.Shim.Types.{bool_cell, real_cell, hal_io, Signal}
use driver_hostmot.Shim.State.{Shim, hm2_shim_init}
use driver_hostmot.Shim.Params.{Params, DeclaredParam}
use driver_hostmot.Shim.ModuleParams.{Module, int_value}
use driver_hostmot.Shim.Driver.{Call, init, pin, param, store, calls}
use driver_hostmot.Shim.Driver.Kept.{IsDriven}
use driver_hostmot.Shim.Driver.Names.{IsOneOf, pin_names, param_names, start_and_calls-IsDriven}

abbrev off : Shim ℕ
off = record {
  arena = record { mapped = true; size = 0; used = 0; overflowed = true };
  memory = λ _. 1;
  signals = [];
  signal_capacity = 0;
  functs = [];
  funct_capacity = 0;
  components = [];
}

abbrev given : Params tenths.Real
given = record {
  configured = (codes "scale", pos 25) ∷ [];
  claimed = some (true ∷ []);
  declared = [];
  capacity = 0;
}

abbrev its_calls : List (Call ℕ)
its_calls =
    init (some (codes "hm2"))
    ∷ pin true hal_io bool_cell 1 (some (codes "index-enable"))
    ∷ param true 192 real_cell 0 (some (codes "scale")) true
    ∷ store 16 7
    ∷ pin true hal_io bool_cell 1 (some (codes "out"))
    ∷ []

start_and_calls-IsDriven_example :
    let w = calls tenths its_calls ((hm2_shim_init true true true 256 3 1 off).1, given) in
    IsDriven w
    × All (λ (h : Signal). IsOneOf h.name (pin_names its_calls)) w.0.signals
    × All (λ (q : DeclaredParam). IsOneOf q.name (param_names its_calls)) w.1.declared
unfolding hm2_shim_init
start_and_calls-IsDriven_example =
    start_and_calls-IsDriven tenths true true true 256 3 1 off its_calls given (omega arith) refl
      refl

-- A module with an array `debug` of two ints.
abbrev with_debug : Module
with_debug = record {
  address = λ s. if str_eq s (codes "rtapi_info_address_debug") then some 5 else none;
  type = λ s. if str_eq s (codes "rtapi_info_type_debug") then some (codes "i") else none;
  size = λ s. if str_eq s (codes "rtapi_info_size_debug") then some 2 else none;
  variables = λ b i. int_value (pos 0);
}
