-- ===== src/Host/Startup.antt =====
-- The start of `main` (host/main.c), from the configuration file to the cycle, without --setsserial.
-- What the program does not decide is the record `Given`: the file's lines, what the C library and the
-- system can give, what the driver's modules call, and what the measurement of the worst cycle finds.
pub mod State
pub mod Modules
pub mod Settable
pub mod Placed
pub mod Stages
pub mod Named
pub mod Outcome
pub mod Furnish
pub mod Result
pub mod Seeds
use driver_hostmot.Base.{
  ℕ, ◌+◌, ◌*◌, ◌%◌, ◌^◌, Bool, true, false, not, ◌&&◌, ◌||◌, Option, none, some, List, [], ◌∷◌,
  ◌++◌, Text, codes, ◌==◌, ltb, if◌then◌else◌, length,
}
use driver_hostmot.Base.Int.{ℤ}
use driver_hostmot.Double.{Double}
use driver_hostmot.Shim.Types.{Funct}
use driver_hostmot.Shim.Cell.{Memory, nought}
use driver_hostmot.Shim.State.{Shim, hm2_shim_init, hm2_shim_fini}
use driver_hostmot.Shim.Params.{Params, hm2_shim_set_params, hm2_shim_unclaimed_params}
use driver_hostmot.Shim.Pins.{hm2_shim_funct_ending}
use driver_hostmot.Shim.Driver.{calls}
use driver_hostmot.Host.Region.{
  RegionConfig, Region, u32, hm2_region_describe, hm2_region_declare_worst, hm2_region_set_state,
  running,
}
use driver_hostmot.Host.Objects.{
  Objects, Handle, hm2_region_create, hm2_region_rename, hm2_region_destroy,
}
use driver_hostmot.Host.FixedPins.{fix_pins}
use driver_hostmot.Host.Bind.{Binding, Bound, bind_signals, host_signals, declare_signals}
use driver_hostmot.Host.Cycle.{seed_outputs}
use driver_hostmot.Host.Config.Keys.{Libc, Config}
use driver_hostmot.Host.Config.Load.{hm2_config_load}
use driver_hostmot.Host.Startup.Modules.{Opened, place_params}
use driver_hostmot.Host.Startup.State.{
  Given, Which, the_generic, the_transport, Process, Ready, measuring,
}

module _ (d : Double) {F : Type 0} (g : Given d F) where
  -- The label `fail`.
  unfoldable pub exit_module : Which → Option (Opened F) → Process d F → Process d F
  exit_module which none p = p
  exit_module which (some m) p =
      if m.has_exit then record p { exited = p.exited ++ which ∷ [] } else p

  unfoldable pub fail : Process d F → Process d F
  unfolding exit_module
  fail p =
      let q = exit_module the_generic p.generic (exit_module the_transport p.transport p) in
      record q { ringed = false; shim = hm2_shim_fini q.shim }

  -- Both modules loaded and given their parameters.
  unfoldable pub load_modules : Config d.Real → Process d F → Bool × Process d F
  load_modules config p = elim g.generic [
    | none ↦ (false, p)
    | some generic ↦
        if not generic.has_main
        then (false, record p { generic = some generic })
        else elim g.transport [
          | none ↦ (false, record p { generic = some generic })
          | some transport ↦
              if not transport.has_main
              then (false, record p { generic = some generic; transport = some transport })
              else (let (ok, gm, tm) =
                    place_params g.strtol g.dup config.module_params generic.module_of
                      transport.module_of in
                  (
                    ok,
                    record p {
                      generic = some (record generic { module_of = gm });
                      transport = some (record transport { module_of = tm });
                    },
                  ))
        ]
  ]

  -- `rtapi_app_main` of a module.
  unfoldable pub app_main : Option (Opened F) → Process d F → Bool × Process d F
  app_main none p = (false, p)
  app_main (some m) p =
      let w = calls d m.main_calls (p.shim, p.params) in
      (m.main_ok, record p { shim = w.0; params = w.1 })

  -- Both, the generic driver first, and the parameters that nothing claimed.
  unfoldable pub start_driver : Process d F → Bool × Process d F
  unfolding app_main
  start_driver p =
      let (generic_ok, p') = app_main p.generic p in
      let (transport_ok, p'') = app_main p'.transport p' in
      if not generic_ok
      then (false, p')
      else if not transport_ok
      then (false, p'')
      else (not (ltb 0 (hm2_shim_unclaimed_params 16 p''.params).1), p'')

  -- The read and the write function, the fixed pins and the signals.
  unfoldable pub bind_all :
      Config d.Real → Process d F → Option (Funct F × Funct F × Binding d.Real) × Process d F
  bind_all config p = elim (hm2_shim_funct_ending (codes ".read") p.shim) [
    | none ↦ (none, p)
    | some read ↦ elim (hm2_shim_funct_ending (codes ".write") p.shim) [
      | none ↦ (none, p)
      | some write ↦ elim (fix_pins d g.fixed_ok p.shim.signals config.pins p.shim.memory) [
        | none ↦ (none, p)
        | some (fixed, memory) ↦
            let p' : Process d F = record p { shim = record p.shim { memory = memory } } in
            elim (bind_signals (nought d) g.bound_ok p.shim.signals p.params.declared fixed) [
              | none ↦ (none, p')
              | some b ↦ (some (read, write, b), p')
            ]
      ]
    ]
  ]

  abbrev pub region_config : Config d.Real → RegionConfig
  region_config config = record {
    axis_count = config.axis_count;
    cycle_ns = u32 (config.cycle_us * 1000);
    core_watchdog_cycles = config.core_watchdog_cycles;
    response_watchdog_cycles = config.response_watchdog_cycles;
    drive_watchdog_us = config.drive_watchdog_us;
    spin_iterations = config.spin_iterations;
    worst_case_cycle_ns = 0;
    flags = if config.same_cycle then 1 else 0;
  }

  -- What is written into the region before it has its name: the outputs with their own values, and
  -- the region.
  unfoldable pub furnish :
      Config d.Real → Binding d.Real → Memory → Region d.Real → List (Bound d.Real) × Region d.Real
  furnish config b memory r =
      let described = hm2_region_describe g.now (region_config config) r in
      let (outputs, seeded) = seed_outputs d b.outputs memory (declare_signals b described) in
      (outputs, hm2_region_declare_worst g.worst seeded)

  -- The region, made, furnished and named.
  unfoldable pub make_region :
      Config d.Real
      → Binding d.Real
      → Process d F
      → Option (List (Bound d.Real) × Handle d.Real) × Process d F
  unfolding furnish
  make_region config b p =
      let (made, o) =
        hm2_region_create (nought d) g.opens g.sizes g.maps (measuring config.region)
          (length b.inputs + length host_signals) (length b.outputs) p.objects in
      elim made [
        | none ↦ (none, record p { objects = o })
        | some h ↦
            let (outputs, region) = furnish config b p.shim.memory h.region in
            let finished : Handle d.Real = record h { region = region } in
            let p' : Process d F = record p {
              shim = record p.shim { memory = g.measured p.shim.memory };
              ringed = g.ring_starts;
            } in
            let (renamed, h', o') = hm2_region_rename g.renames config.region finished o in
            if g.stopping
            then (none, record p' { objects = (hm2_region_destroy finished o).1 })
            else if not renamed
            then (none, record p' { objects = (hm2_region_destroy h' o').1 })
            else (
              some (outputs, record h' { region = hm2_region_set_state running h'.region }),
              record p' { objects = o'; in_cycle = true },
            )
      ]

  -- What a start comes to: the status that `main` returns, or what the loop starts with.
  pub data Start : Type 0 where
    ended : ℕ → Process d F → Start
    cycling : Ready d F → Process d F → Start

  -- From the arena on.
  unfoldable pub start_with : Config d.Real → Process d F → Start
  start_with config p =
      let (loaded, p1) = load_modules config p in
      if not loaded
      then ended 1 (fail p1)
      else let (started, p2) = start_driver p1 in
        if not started
        then ended 1 (fail p2)
        else let (bound, p3) = bind_all config p2 in
          elim bound [
            | none ↦ ended 1 (fail p3)
            | some (read, write, b) ↦
                let (made, p4) = make_region config b p3 in
                elim made [
                  | none ↦ ended 1 (fail p4)
                  | some (outputs, h) ↦
                      cycling
                        (record {
                          config = config;
                          read = read;
                          write = write;
                          inputs = b.inputs;
                          outputs = outputs;
                          handle = h;
                        })
                        p4
                ]
          ]

  -- A process before `main`.
  abbrev pub untouched : Objects → Process d F
  untouched o = record {
    shim = record {
      arena = record { mapped = false; size = 0; used = 0; overflowed = false };
      memory = λ _. 0;
      signals = [];
      signal_capacity = 0;
      functs = [];
      funct_capacity = 0;
      components = [];
    };
    params = record { configured = []; claimed = none; declared = []; capacity = 0 };
    objects = o;
    generic = none;
    transport = none;
    ringed = false;
    exited = [];
    in_cycle = false;
  }

  -- From the loaded configuration on.
  unfoldable pub start_from : Config d.Real → Objects → Start
  start_from config o =
      let p = untouched o in
      let (ok, shim) =
        hm2_shim_init g.arena_ok g.signals_ok g.functs_ok config.arena_bytes config.max_signals
          config.max_functs p.shim in
      if not ok
      then ended 1 (record p { shim = shim })
      else start_with config (record p {
        shim = shim;
        params = hm2_shim_set_params g.claims_ok config.params p.params;
      })

  unfoldable pub start : Objects → Start
  start o = elim (hm2_config_load d g.libc g.lines_allocated g.file) [
    | none ↦ ended 1 (untouched o)
    | some config ↦ start_from config o
  ]
