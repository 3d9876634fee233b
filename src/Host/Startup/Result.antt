-- ===== src/Host/Startup/Result.antt =====
-- What the start of `main` leaves: a process that is ready for its cycle, or one that gave all back.
use driver_hostmot.Base.{
  ℕ, ◌+◌, ◌*◌, ◌≤◌, ◌<◌, ◌^◌, ◌≡◌, ◌≢◌, inl, inr, refl, ap, ◌∙◌, subst, Bool, false, some, Text,
  codes, arith, Bool-cases, length,
}
use driver_hostmot.Double.{Double}
use driver_hostmot.Shim.Cell.{nought}
use driver_hostmot.Shim.State.{Shim, hm2_shim_init, hm2_shim_fini}
use driver_hostmot.Shim.Params.{hm2_shim_set_params, hm2_shim_unclaimed_params}
use driver_hostmot.Shim.Pins.{hm2_shim_funct_ending}
use driver_hostmot.Shim.Driver.Kept.{IsDriven}
use driver_hostmot.Shim.Driver.Invariant.{fresh-IsDriven}
use driver_hostmot.Host.Region.{
  running, u32, hm2_region_set_state, hm2_region_describe, hm2_region_declare_worst,
}
use driver_hostmot.Host.Objects.{clear_region, Objects, name_max}
use driver_hostmot.Host.Objects.Names.{IsNumbered, IsNamed}
use driver_hostmot.Host.Config.Keys.{Config}
use driver_hostmot.Host.Config.Load.{hm2_config_load}
use driver_hostmot.Host.Bind.{host_signals, declare_signals}
use driver_hostmot.Host.Startup.State.{Given, Process, Ready, measuring}
use driver_hostmot.Host.Startup.{
  untouched, furnish, region_config, ended, cycling, start_from, start,
}
use driver_hostmot.Host.Startup.Furnish.{declare_signals-IsStill, seed_outputs-IsStill}
use driver_hostmot.Host.Startup.Outcome.{
  IsGivenBack, IsReady, Finish, given_back, in_order, start_with-Finish,
}

module _ (d : Double) {F : Type 0} (g : Given d F) (o : Objects) (config : Config d.Real) where
  params-IsDriven :
      (claims : Bool) (s : Shim F)
      → IsDriven (s, (untouched d g o).params)
      → IsDriven (s, hm2_shim_set_params claims config.params (untouched d g o).params)
  unfolding hm2_shim_set_params
  params-IsDriven claims s v = record { table = v.table; params = v.params; distinct = v.distinct }

  init_fails :
      (s : Shim F)
      → (hm2_shim_init g.arena_ok g.signals_ok g.functs_ok config.arena_bytes config.max_signals
          config.max_functs s).0
        ≡ false
      → (hm2_shim_init g.arena_ok g.signals_ok g.functs_ok config.arena_bytes config.max_signals
          config.max_functs s).1
        ≡ hm2_shim_fini (record s { arena = record s.arena { mapped = g.arena_ok } })
  unfolding hm2_shim_init
  init_fails s e = ground arith

  pub start-start_from :
      hm2_config_load d g.libc g.lines_allocated g.file ≡ some config
      → start d g o ≡ start_from d g config o
  unfolding start
  start-start_from loaded = rw (start, loaded) refl

  start-Finish :
      hm2_config_load d g.libc g.lines_allocated g.file ≡ some config
      → IsNumbered o
      → length (measuring config.region) ≤ name_max
      → config.arena_bytes < 2 ^ 63
      → Finish d g o config (start d g o)
  unfolding start_from hm2_shim_fini
  start-Finish loaded numbered fits small =
      let s0 : Shim F = (untouched d g o).shim in
      let init =
        hm2_shim_init g.arena_ok g.signals_ok g.functs_ok config.arena_bytes config.max_signals
          config.max_functs s0 in
      let nowhere : (path : Text) → o.at path ≢ some o.made =
        λ path e. absurd (omega (arith, numbered path o.made e)) in
      elim (Bool-cases init.0) [
        | inr bad ↦
            rw (start-start_from loaded, start_from, bad, init_fails s0 bad)
              (given_back _ (record {
                tables = (refl, refl, refl);
                arena = refl;
                ringed = refl;
                in_cycle = refl;
                exited = refl;
                others = λ path ne. refl;
                gone = nowhere;
              }))
        | inl ok ↦
            rw (start-start_from loaded, start_from, ok)
              (start_with-Finish d g o config _ (refl, refl, (λ path ne. refl), nowhere) refl
                numbered fits
                (params-IsDriven g.claims_ok init.1 (
                  fresh-IsDriven d g.arena_ok g.signals_ok g.functs_ok config.arena_bytes
                    config.max_signals config.max_functs s0 (untouched d g o).params small ok
                    refl)))
      ]

  of_ended :
      (status : ℕ) (p : Process d F)
      → Finish d g o config (ended status p)
      → (status ≡ 1) × IsGivenBack d o config p
  of_ended _ _ (given_back p h) = (refl, h)

  of_cycling :
      (r : Ready d F) (p : Process d F)
      → Finish d g o config (cycling r p)
      → IsReady d g o config r p
  of_cycling _ _ (in_order r p h) = h

  -- A start whose configuration is accepted, with room for the region's first name and an arena below
  -- 2^63 bytes, over numbered objects, that ends before the cycle: `main` returns 1; the shim has no
  -- table and no arena left and the log has no writer; the exit functions of the modules that were
  -- loaded ran, the transport's first; the region's object is under no name, and no name but the one
  -- it was made under is changed.
  pub start_gives_back :
      (status : ℕ) (p : Process d F)
      → hm2_config_load d g.libc g.lines_allocated g.file ≡ some config
      → IsNumbered o
      → length (measuring config.region) ≤ name_max
      → config.arena_bytes < 2 ^ 63
      → start d g o ≡ ended status p
      → (status ≡ 1) × IsGivenBack d o config p
  start_gives_back status p loaded numbered fits small e =
      of_ended status p (subst (Finish d g o config) e (start-Finish loaded numbered fits small))

  pub is_ready :
      (r : Ready d F) (p : Process d F)
      → hm2_config_load d g.libc g.lines_allocated g.file ≡ some config
      → IsNumbered o
      → length (measuring config.region) ≤ name_max
      → config.arena_bytes < 2 ^ 63
      → start d g o ≡ cycling r p
      → IsReady d g o config r p
  is_ready r p loaded numbered fits small e =
      of_cycling r p (subst (Finish d g o config) e (start-Finish loaded numbered fits small))

  -- What the core finds of the region before the first cycle.
  still :
      (r : Ready d F) (p : Process d F)
      → (h : IsReady d g o config r p)
      → (r.handle.region.state ≡ running)
        × (r.handle.region.cycle ≡ 0)
        × (r.handle.region.response ≡ 0)
        × (r.handle.region.header.cycle_time_ns ≡ u32 (config.cycle_us * 1000))
        × (r.handle.region.header.worst_case_cycle_ns ≡ g.worst)
  unfolding furnish hm2_region_set_state hm2_region_declare_worst hm2_region_describe
  still r p h =
      let b = h.binding in
      let mem = h.after.shim.memory in
      let cleared =
        clear_region (nought d) (length b.inputs + length host_signals) (length b.outputs) in
      let described = hm2_region_describe g.now (region_config d g config) cleared in
      let declared = declare_signals-IsStill b described in
      let seeds = seed_outputs-IsStill d b.outputs mem (declare_signals b described) in
      let all = h.is_made.furnished in
      (
        ap (λ x. x.state) all,
        ap (λ x. x.cycle) all ∙ seeds.cycle ∙ declared.cycle,
        ap (λ x. x.response) all ∙ seeds.response ∙ declared.response,
        ap (λ x. x.header.cycle_time_ns) all
            ∙ ap (λ x. x.cycle_time_ns) (seeds.header ∙ declared.header),
        ap (λ x. x.header.worst_case_cycle_ns) all,
      )

  -- A start whose configuration is accepted, with room for the region's first name and an arena below
  -- 2^63 bytes, over numbered objects, that reaches the cycle: the tables of pins and parameters are in
  -- order; no configured parameter is unclaimed; the loop has a read and a write function that the
  -- driver exported; the region's object is new and has the configured name and no other; it is
  -- running at cycle 0 with no answer, and its header has the period in nanoseconds modulo 2^32 and
  -- the worst cycle that was found.
  pub start_ready :
      (r : Ready d F) (p : Process d F)
      → hm2_config_load d g.libc g.lines_allocated g.file ≡ some config
      → IsNumbered o
      → length (measuring config.region) ≤ name_max
      → config.arena_bytes < 2 ^ 63
      → start d g o ≡ cycling r p
      → IsDriven (p.shim, p.params)
        × ((hm2_shim_unclaimed_params 16 p.params).1 ≡ 0)
        × (hm2_shim_funct_ending (codes ".read") p.shim ≡ some r.read)
        × (hm2_shim_funct_ending (codes ".write") p.shim ≡ some r.write)
        × IsNamed r.handle p.objects
        × (r.handle.name ≡ config.region)
        × (r.handle.object ≡ o.made)
        × ((r.handle.region.state ≡ running)
            × (r.handle.region.cycle ≡ 0)
            × (r.handle.region.response ≡ 0)
            × (r.handle.region.header.cycle_time_ns ≡ u32 (config.cycle_us * 1000))
            × (r.handle.region.header.worst_case_cycle_ns ≡ g.worst))
  unfolding hm2_shim_funct_ending
  start_ready r p loaded numbered fits small e =
      let h = is_ready r p loaded numbered fits small e in
      (
        h.driven,
        h.claimed,
        rw (h.tables.1) (h.is_bound.reads),
        rw (h.tables.1) (h.is_bound.writes),
        h.is_made.named,
        h.is_made.name_eq,
        h.is_made.object ∙ ap (λ (x : Objects). x.made) h.objects_eq,
        still r p h,
      )
