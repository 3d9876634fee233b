-- ===== src/Host/Startup/Modules.antt =====
-- The driver's two modules (`hm2_module`, `load_module` of host/main.c) and their parameters.
use driver_hostmot.Base.{Bool, true, false, Option, none, some, List, [], ◌∷◌, Text, if◌then◌else◌}
use driver_hostmot.Base.Int.{ℤ}
use driver_hostmot.Shim.Driver.{Call}
use driver_hostmot.Shim.ModuleParams.{Module, placed, absent, refused, hm2_shim_set_module_param}
use driver_hostmot.Host.Config.Keys.{ModuleParam}

-- `hm2_module` with a handle: its variables, whether it exports the two functions, the calls that its
-- `rtapi_app_main` makes of the shim, and whether that returns 0.
pub record Opened (F : Type 0) : Type 0 where
  pub module_of : Module
  pub has_main : Bool
  pub has_exit : Bool
  pub main_calls : List (Call F)
  pub main_ok : Bool

-- `none` is a `dlopen` that fails; a module without a main function keeps its handle, and fails.
unfoldable pub load_module : {F : Type 0} → Option (Opened F) → Bool × Option (Opened F)
load_module none = (false, none)
load_module (some m) = (m.has_main, some m)

-- One turn of the loop over `module_params`: the transport first, then the generic driver.
unfoldable pub place_param :
    (strtol : Text → ℤ) (dup : Bool)
    → ModuleParam
    → (generic transport : Module) → Bool × Module × Module
place_param strtol dup p generic transport =
    let (in_transport, transport') =
      hm2_shim_set_module_param strtol dup (some p.name) p.index (some p.value) transport in
    let (in_generic, generic') =
      hm2_shim_set_module_param strtol dup (some p.name) p.index (some p.value) generic in
    elim in_transport [
      | placed ↦ (true, generic, transport')
      | refused ↦ (false, generic, transport')
      | absent ↦ elim in_generic [
        | placed ↦ (true, generic', transport')
        | _ ↦ (false, generic', transport')
      ]
    ]

unfoldable pub place_params :
    (strtol : Text → ℤ) (dup : Bool)
    → List ModuleParam
    → (generic transport : Module) → Bool × Module × Module
place_params strtol dup [] generic transport = (true, generic, transport)
place_params strtol dup (p ∷ rest) generic transport =
    let (ok, generic', transport') = place_param strtol dup p generic transport in
    let all_placed = place_params strtol dup rest generic' transport' in
    if ok then all_placed else (false, generic', transport')
