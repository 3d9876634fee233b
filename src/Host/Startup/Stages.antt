-- ===== src/Host/Startup/Stages.antt =====
-- What each stage of the start keeps and gives, as far as the signals are bound.
use driver_hostmot.Base.{
  ℕ, ◌≡◌, ◌⊎◌, inl, inr, refl, ◌∙◌, false, Option, none, some, List, codes, arith, Bool-cases,
  Option-cases,
}
use driver_hostmot.Double.{Double}
use driver_hostmot.Shim.Types.{Funct}
use driver_hostmot.Shim.Cell.{nought}
use driver_hostmot.Shim.Params.{hm2_shim_unclaimed_params}
use driver_hostmot.Shim.Pins.{hm2_shim_funct_ending}
use driver_hostmot.Shim.Driver.Kept.{IsDriven, memory-IsDriven}
use driver_hostmot.Shim.Driver.Invariant.{calls-IsDriven}
use driver_hostmot.Host.Config.Keys.{Config}
use driver_hostmot.Host.Bind.{Binding, bind_signals}
use driver_hostmot.Host.FixedPins.{fix_pins}
use driver_hostmot.Host.Startup.Modules.{Opened}
use driver_hostmot.Host.Startup.State.{Given, Process}
use driver_hostmot.Host.Startup.{load_modules, app_main, start_driver, bind_all}

module _ (d : Double) {F : Type 0} where
  -- The tables stay in order, and nothing outside the driver and its tables is touched.
  pub record Keeps (p q : Process d F) : Type 0 where
    pub driven : IsDriven (p.shim, p.params) → IsDriven (q.shim, q.params)
    pub objects : q.objects ≡ p.objects
    pub ringed : q.ringed ≡ p.ringed
    pub exited : q.exited ≡ p.exited
    pub in_cycle : q.in_cycle ≡ p.in_cycle

  Keeps-refl : (p : Process d F) → Keeps p p
  Keeps-refl p = record {
    driven = λ v. v;
    objects = refl;
    ringed = refl;
    exited = refl;
    in_cycle = refl;
  }

  pub Keeps-trans : (p q r : Process d F) → Keeps p q → Keeps q r → Keeps p r
  Keeps-trans p q r h k = record {
    driven = λ v. k.driven (h.driven v);
    objects = k.objects ∙ h.objects;
    ringed = k.ringed ∙ h.ringed;
    exited = k.exited ∙ h.exited;
    in_cycle = k.in_cycle ∙ h.in_cycle;
  }

  Keeps-modules :
      (p : Process d F) (a b : Option (Opened F))
      → Keeps p (record p { generic = a; transport = b })
  Keeps-modules p a b = record {
    driven = λ v. v;
    objects = refl;
    ringed = refl;
    exited = refl;
    in_cycle = refl;
  }

  -- What is known once the signals are bound.
  pub record IsBound (g : Given d F) (config : Config d.Real) (before q : Process d F)
      (read write : Funct F) (b : Binding d.Real) : Type 0 where
    pub fixed : List ℕ
    pub reads : hm2_shim_funct_ending (codes ".read") q.shim ≡ some read
    pub writes : hm2_shim_funct_ending (codes ".write") q.shim ≡ some write
    pub fixes :
        fix_pins d g.fixed_ok q.shim.signals config.pins before.shim.memory
        ≡ some (fixed, q.shim.memory)
    pub binds : bind_signals (nought d) g.bound_ok q.shim.signals q.params.declared fixed ≡ some b

  pub data BindOutcome (g : Given d F) (config : Config d.Real) (p : Process d F)
      : Option (Funct F × Funct F × Binding d.Real) × Process d F → Type 0 where
    unbound : (q : Process d F) → Keeps p q → BindOutcome g config p (none, q)
    bound :
        (q : Process d F) (read write : Funct F) (b : Binding d.Real)
        → Keeps p q
        → (q.params ≡ p.params)
        → IsBound g config p q read write b
        → BindOutcome g config p (some (read, write, b), q)

  module _ (g : Given d F) where
    pub load_modules-Keeps :
        (config : Config d.Real) (p : Process d F) → Keeps p (load_modules d g config p).1
    unfolding load_modules
    load_modules-Keeps config p = elim (Option-cases g.generic) [
      | inl e ↦ rw (load_modules, e) (Keeps-refl p)
      | inr (a, e) ↦ elim (Bool-cases a.has_main) [
        | inr no_main ↦ rw (load_modules, e, no_main) (Keeps-modules p _ _)
        | inl main ↦ elim (Option-cases g.transport) [
          | inl f ↦ rw (load_modules, e, main, f) (Keeps-modules p _ _)
          | inr (b, f) ↦ elim (Bool-cases b.has_main) [
            | inr no_main ↦ rw (load_modules, e, main, f, no_main) (Keeps-modules p _ _)
            | inl main2 ↦ rw (load_modules, e, main, f, main2) (Keeps-modules p _ _)
          ]
        ]
      ]
    ]

    app_main-Keeps : (m : Option (Opened F)) (p : Process d F) → Keeps p (app_main d g m p).1
    unfolding app_main
    app_main-Keeps none p = Keeps-refl p
    app_main-Keeps (some m) p = record {
      driven = calls-IsDriven d m.main_calls (p.shim, p.params);
      objects = refl;
      ringed = refl;
      exited = refl;
      in_cycle = refl;
    }

    pub start_driver-Keeps :
        (p : Process d F)
        → Keeps p (start_driver d g p).1
          × (((start_driver d g p).0 ≡ false)
              ⊎ ((hm2_shim_unclaimed_params 16 (start_driver d g p).1.params).1 ≡ 0))
    unfolding start_driver
    start_driver-Keeps p =
        let p1 : Process d F = (app_main d g p.generic p).1 in
        let p2 : Process d F = (app_main d g p1.transport p1).1 in
        let one = app_main-Keeps p.generic p in
        let both = Keeps-trans p p1 p2 one (app_main-Keeps p1.transport p1) in
        elim (Bool-cases (app_main d g p.generic p).0) [
          | inr bad ↦ rw (start_driver, bad) (one, inl refl)
          | inl good ↦ elim (Bool-cases (app_main d g p1.transport p1).0) [
            | inr bad ↦ rw (start_driver, good, bad) (both, inl refl)
            | inl good2 ↦ rw (start_driver, good, good2) (both, ground arith)
          ]
        ]

    fixed-Keeps :
        (m : ℕ → ℕ) (p : Process d F) → Keeps p (record p { shim = record p.shim { memory = m } })
    fixed-Keeps m p = record {
      driven = memory-IsDriven m p.shim p.params;
      objects = refl;
      ringed = refl;
      exited = refl;
      in_cycle = refl;
    }

    pub bind_all-BindOutcome :
        (config : Config d.Real) (p : Process d F) → BindOutcome g config p (bind_all d g config p)
    unfolding bind_all hm2_shim_funct_ending
    bind_all-BindOutcome config p =
        elim (Option-cases (hm2_shim_funct_ending (codes ".read") p.shim)) [
          | inl e ↦ rw (bind_all, e) (unbound p (Keeps-refl p))
          | inr (read, e) ↦ elim (Option-cases (hm2_shim_funct_ending (codes ".write") p.shim)) [
            | inl f ↦ rw (bind_all, e, f) (unbound p (Keeps-refl p))
            | inr (write, f) ↦
                elim (Option-cases
                  (fix_pins d g.fixed_ok p.shim.signals config.pins p.shim.memory)) [
                    | inl h ↦ rw (bind_all, e, f, h) (unbound p (Keeps-refl p))
                    | inr ((fixed, memory), h) ↦
                        elim (Option-cases (
                          bind_signals (nought d) g.bound_ok p.shim.signals p.params.declared
                            fixed)) [
                              | inl k ↦ rw (bind_all, e, f, h, k) (unbound _ (fixed-Keeps memory p))
                              | inr (b, k) ↦
                                  rw (bind_all, e, f, h, k)
                                    (bound _ read write b (fixed-Keeps memory p) refl (record {
                                      fixed = fixed;
                                      reads = e;
                                      writes = f;
                                      fixes = h;
                                      binds = k;
                                    }))
                            ]
                  ]
          ]
        ]
