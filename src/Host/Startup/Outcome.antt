-- ===== src/Host/Startup/Outcome.antt =====
-- How the start of `main` ends: with the cycle, or with everything given back.
use driver_hostmot.Base.{
  append-nil, ◌≤◌, ◌≡◌, ◌≢◌, inl, inr, refl, sym, ap, ◌∙◌, subst, false, Option, none, some, List,
  [], ◌∷◌, ◌++◌, Text, if◌then◌else◌, Bool-cases, length,
}
use driver_hostmot.Double.{Double}
use driver_hostmot.Shim.Types.{Funct}
use driver_hostmot.Shim.State.{hm2_shim_fini}
use driver_hostmot.Shim.Params.{hm2_shim_unclaimed_params}
use driver_hostmot.Shim.Driver.Kept.{IsDriven}
use driver_hostmot.Host.Objects.{Handle, Objects, shm_path, name_max}
use driver_hostmot.Host.Objects.Names.{IsNumbered}
use driver_hostmot.Host.Config.Keys.{Config}
use driver_hostmot.Host.Bind.{Binding, Bound}
use driver_hostmot.Host.Startup.Modules.{Opened}
use driver_hostmot.Host.Startup.State.{
  Given, Process, Ready, Which, the_generic, the_transport, measuring,
}
use driver_hostmot.Host.Startup.{
  exit_module, fail, load_modules, start_driver, bind_all, make_region, Start, ended, cycling,
  start_with,
}
use driver_hostmot.Host.Startup.Stages.{
  Keeps, Keeps-trans, load_modules-Keeps, start_driver-Keeps, IsBound, BindOutcome, unbound, bound,
  bind_all-BindOutcome,
}
use driver_hostmot.Host.Startup.Named.{
  IsMade, RegionOutcome, unmade, made, make_region-RegionOutcome,
}

module _ (d : Double) {F : Type 0} where
  -- The exit functions that a failed start runs, in order.
  abbrev pub exit_of : Which → Option (Opened F) → List Which
  exit_of which none = []
  exit_of which (some m) = if m.has_exit then which ∷ [] else []

  -- Nothing is left: no table, no arena, no writer of the log, no object, and no name but the
  -- region's first changed; the opened modules' exit functions ran, the transport's first.
  pub record IsGivenBack (o : Objects) (config : Config d.Real) (p : Process d F) : Type 0 where
    pub tables : (p.shim.signals ≡ []) × (p.shim.functs ≡ []) × (p.shim.components ≡ [])
    pub arena : p.shim.arena.mapped ≡ false
    pub ringed : p.ringed ≡ false
    pub in_cycle : p.in_cycle ≡ false
    pub exited : p.exited ≡ exit_of the_transport p.transport ++ exit_of the_generic p.generic
    pub others :
        (path : Text) → path ≢ shm_path (measuring config.region) → p.objects.at path ≡ o.at path
    pub gone : (path : Text) → p.objects.at path ≢ some o.made

  -- What the loop can rely on.
  pub record IsReady (g : Given d F) (o : Objects) (config : Config d.Real) (r : Ready d F)
      (p : Process d F) : Type 0 where
    pub config_eq : r.config ≡ config
    pub driven : IsDriven (p.shim, p.params)
    pub claimed : (hm2_shim_unclaimed_params 16 p.params).1 ≡ 0
    pub before : Process d F
    pub after : Process d F
    pub tables :
        (p.shim.signals ≡ after.shim.signals)
        × (p.shim.functs ≡ after.shim.functs)
        × (p.params ≡ after.params)
    pub binding : Binding d.Real
    pub is_bound : IsBound d g config before after r.read r.write binding
    pub inputs : r.inputs ≡ binding.inputs
    pub objects_eq : after.objects ≡ o
    pub is_made : IsMade d g config binding after p r.outputs r.handle

  pub data Finish (g : Given d F) (o : Objects) (config : Config d.Real) : Start d g → Type 0 where
    given_back : (p : Process d F) → IsGivenBack o config p → Finish g o config (ended 1 p)
    in_order :
        (r : Ready d F) (p : Process d F) → IsReady g o config r p → Finish g o config (cycling r p)

  module _ (g : Given d F) (o : Objects) (config : Config d.Real) where
    abbrev IsClean : Process d F → Type 0
    IsClean p =
        (p.exited ≡ [])
        × (p.in_cycle ≡ false)
        × ((path : Text)
            → path ≢ shm_path (measuring config.region)
            → p.objects.at path ≡ o.at path)
        × ((path : Text) → p.objects.at path ≢ some o.made)

    exit_one :
        (which : Which) (m : Option (Opened F)) (p : Process d F)
        → exit_module d g which m p ≡ record p { exited = p.exited ++ exit_of which m }
    unfolding exit_module
    exit_one which none p = ap (λ l. record p { exited = l }) (sym (append-nil p.exited))
    exit_one which (some m) p = elim (Bool-cases m.has_exit) [
      | inl has ↦ rw has refl
      | inr without ↦ rw without (ap (λ l. record p { exited = l }) (sym (append-nil p.exited)))
    ]

    fail-Finish : (p : Process d F) → IsClean p → Finish g o config (ended 1 (fail d g p))
    unfolding fail hm2_shim_fini
    fail-Finish p clean =
        let t = exit_of the_transport p.transport in
        let ran : exit_module d g the_generic p.generic
              (exit_module d g the_transport p.transport p)
            ≡ record p { exited = (p.exited ++ t) ++ exit_of the_generic p.generic } =
          ap (exit_module d g the_generic p.generic) (exit_one the_transport p.transport p)
          ∙ exit_one the_generic p.generic (record p { exited = p.exited ++ t }) in
        subst
          (λ q.
            Finish g o config (ended 1 (record q { ringed = false; shim = hm2_shim_fini q.shim })))
          (sym ran)
          (given_back _ (record {
            tables = (refl, refl, refl);
            arena = refl;
            ringed = refl;
            in_cycle = clean.1;
            exited = ap (λ (l : List Which). (l ++ t) ++ exit_of the_generic p.generic) clean.0;
            others = clean.2;
            gone = clean.3;
          }))

    Keeps-IsClean : (p q : Process d F) → Keeps d p q → IsClean p → IsClean q
    Keeps-IsClean p q k clean = (
      k.exited ∙ clean.0,
      k.in_cycle ∙ clean.1,
      (λ path ne. ap (λ (x : Objects). x.at path) k.objects ∙ clean.2 path ne),
      (λ path e. clean.3 path (ap (λ (x : Objects). x.at path) (sym k.objects) ∙ e)),
    )

    -- The region's stage, once the signals are bound.
    with_region :
        (before q : Process d F) (read write : Funct F) (b : Binding d.Real)
        → IsClean q
        → q.objects ≡ o
        → IsNumbered o
        → length (measuring config.region) ≤ name_max
        → IsDriven (q.shim, q.params)
        → (hm2_shim_unclaimed_params 16 q.params).1 ≡ 0
        → IsBound d g config before q read write b
        → (made : Option (List (Bound d.Real) × Handle d.Real) × Process d F)
        → RegionOutcome d g config b q made
        → Finish g o config (elim made.0 as (λ _. Start d g) [
          | none ↦ ended 1 (fail d g made.1)
          | some (outputs, h) ↦
              cycling
                (record {
                  config = config;
                  read = read;
                  write = write;
                  inputs = b.inputs;
                  outputs = outputs;
                  handle = h;
                })
                made.1
        ])
    with_region before q read write b clean same numbered fits driven claimed is_bound _
          (unmade r u) =
        fail-Finish r (
          u.exited ∙ clean.0,
          u.in_cycle ∙ clean.1,
          (λ path ne. u.others path ne ∙ clean.2 path ne),
          (λ path e. u.gone path (e ∙ ap (λ (x : Objects). some x.made) (sym same))),
        )
    with_region before q read write b clean same numbered fits driven claimed is_bound _
          (made r outputs h m) =
        in_order _ r (record {
          config_eq = refl;
          driven = m.driven driven;
          claimed = ap (λ x. (hm2_shim_unclaimed_params 16 x).1) m.params ∙ claimed;
          before = before;
          after = q;
          tables = (m.tables.0, m.tables.1, m.params);
          binding = b;
          is_bound = is_bound;
          inputs = refl;
          objects_eq = same;
          is_made = m;
        })

    with_signals :
        (p : Process d F)
        → IsClean p
        → p.objects ≡ o
        → IsNumbered o
        → length (measuring config.region) ≤ name_max
        → IsDriven (p.shim, p.params)
        → (hm2_shim_unclaimed_params 16 p.params).1 ≡ 0
        → (x : Option (Funct F × Funct F × Binding d.Real) × Process d F)
        → BindOutcome d g config p x
        → Finish g o config (elim x.0 as (λ _. Start d g) [
          | none ↦ ended 1 (fail d g x.1)
          | some (read, write, b) ↦
              (let (result, p4) = make_region d g config b x.1 in
                elim result as (λ _. Start d g) [
                  | none ↦ ended 1 (fail d g p4)
                  | some (outputs, h) ↦
                      cycling
                        (record {
                          config = config;
                          read = read;
                          write = write;
                          inputs = b.inputs;
                          outputs = outputs;
                          handle = h;
                        })
                        p4
                ])
        ])
    with_signals p clean same numbered fits driven claimed _ (unbound q k) =
        fail-Finish q (Keeps-IsClean p q k clean)
    with_signals p clean same numbered fits driven claimed _
          (bound q read write b k params b_facts) =
        with_region p q read write b (Keeps-IsClean p q k clean) (k.objects ∙ same) numbered fits
          (k.driven driven) (ap (λ x. (hm2_shim_unclaimed_params 16 x).1) params ∙ claimed) b_facts
          (make_region d g config b q)
          (make_region-RegionOutcome d g config b q
            (subst IsNumbered (sym (k.objects ∙ same)) numbered) fits)

    pub start_with-Finish :
        (p : Process d F)
        → IsClean p
        → p.objects ≡ o
        → IsNumbered o
        → length (measuring config.region) ≤ name_max
        → IsDriven (p.shim, p.params)
        → Finish g o config (start_with d g config p)
    unfolding start_with
    start_with-Finish p clean same numbered fits driven =
        let p1 : Process d F = (load_modules d g config p).1 in
        let k1 = load_modules-Keeps d g config p in
        let p2 : Process d F = (start_driver d g p1).1 in
        let k2 = start_driver-Keeps d g p1 in
        let k = Keeps-trans d p p1 p2 k1 k2.0 in
        elim (Bool-cases (load_modules d g config p).0) [
          | inr bad ↦ rw (start_with, bad) (fail-Finish p1 (Keeps-IsClean p p1 k1 clean))
          | inl good ↦ elim k2.1 [
            | inl bad ↦ rw (start_with, good, bad) (fail-Finish p2 (Keeps-IsClean p p2 k clean))
            | inr claimed ↦ elim (Bool-cases (start_driver d g p1).0) [
              | inr bad ↦ rw (start_with, good, bad) (fail-Finish p2 (Keeps-IsClean p p2 k clean))
              | inl started ↦
                  rw (start_with, good, started)
                    (with_signals p2 (Keeps-IsClean p p2 k clean) (k.objects ∙ same) numbered fits
                      (k.driven driven) claimed (bind_all d g config p2)
                      (bind_all-BindOutcome d g config p2))
            ]
          ]
        ]
