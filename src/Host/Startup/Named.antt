-- ===== src/Host/Startup/Named.antt =====
-- The region as the start makes it: which names its object has, on every branch.
use driver_hostmot.Base.{
  ◌+◌, ◌≤◌, ◌≡◌, ◌≢◌, inl, inr, refl, sym, ap, ◌∙◌, Bool, true, false, not, Option, none, some,
  List, Text, codes, arith, if◌then◌else◌, length, length-append,
}
use driver_hostmot.Double.{Double}
use driver_hostmot.Shim.Cell.{nought}
use driver_hostmot.Shim.Driver.Kept.{IsDriven, memory-IsDriven}
use driver_hostmot.Host.Region.{running, hm2_region_set_state}
use driver_hostmot.Host.Objects.{
  Objects, Handle, shm_path, name_max, clear_region, hm2_region_create, hm2_region_rename,
  hm2_region_destroy,
}
use driver_hostmot.Host.Objects.Names.{
  path-cases, IsNumbered, IsNamed, hm2_region_create_lem, hm2_region_create-region,
}
use driver_hostmot.Host.Objects.Life.{
  Renaming, renamed, kept, hm2_region_rename_lem, hm2_region_destroy_lem,
}
use driver_hostmot.Host.Config.Keys.{Config}
use driver_hostmot.Host.Bind.{Binding, Bound, host_signals}
use driver_hostmot.Host.Startup.State.{Given, Process, measuring}
use driver_hostmot.Host.Startup.{furnish, make_region}

module _ (d : Double) {F : Type 0} where
  -- No object was left behind, and no name but the first was touched.
  pub record IsUnmade (config : Config d.Real) (p q : Process d F) : Type 0 where
    pub driven : IsDriven (p.shim, p.params) → IsDriven (q.shim, q.params)
    pub modules : (q.generic ≡ p.generic) × (q.transport ≡ p.transport)
    pub others :
        (path : Text)
        → path ≢ shm_path (measuring config.region)
        → q.objects.at path ≡ p.objects.at path
    pub gone : (path : Text) → q.objects.at path ≢ some p.objects.made
    pub exited : q.exited ≡ p.exited
    pub in_cycle : q.in_cycle ≡ p.in_cycle

  -- The object is furnished, running, and has the name of the file and no other.
  pub record IsMade (g : Given d F) (config : Config d.Real) (b : Binding d.Real)
      (p q : Process d F) (outputs : List (Bound d.Real)) (h : Handle d.Real) : Type 0 where
    pub driven : IsDriven (p.shim, p.params) → IsDriven (q.shim, q.params)
    pub params : q.params ≡ p.params
    pub memory : q.shim.memory ≡ g.measured p.shim.memory
    pub tables : (q.shim.signals ≡ p.shim.signals) × (q.shim.functs ≡ p.shim.functs)
    pub named : IsNamed h q.objects
    pub name_eq : h.name ≡ config.region
    pub object : h.object ≡ p.objects.made
    pub others :
        (path : Text)
        → path ≢ shm_path (measuring config.region)
        → path ≢ shm_path config.region
        → q.objects.at path ≡ p.objects.at path
    pub furnished :
        h.region
        ≡ hm2_region_set_state running
            (furnish d g config b p.shim.memory (
              clear_region (nought d) (length b.inputs + length host_signals) (length b.outputs))).1
    pub outputs_eq :
        outputs
        ≡ (furnish d g config b p.shim.memory
            (clear_region (nought d) (length b.inputs + length host_signals) (length b.outputs))).0
    pub in_cycle : q.in_cycle ≡ true

  pub data RegionOutcome (g : Given d F) (config : Config d.Real) (b : Binding d.Real)
      (p : Process d F) : Option (List (Bound d.Real) × Handle d.Real) × Process d F → Type 0 where
    unmade : (q : Process d F) → IsUnmade config p q → RegionOutcome g config b p (none, q)
    made :
        (q : Process d F) (outputs : List (Bound d.Real)) (h : Handle d.Real)
        → IsMade g config b p q outputs h
        → RegionOutcome g config b p (some (outputs, h), q)

  module _ (g : Given d F) where
    module _ (config : Config d.Real) (b : Binding d.Real) (p : Process d F) where
      abbrev first_path : Text
      first_path = shm_path (measuring config.region)

      -- The next number is on no path where the one path that may have changed has no object.
      nowhere :
          (o : Objects)
          → IsNumbered p.objects
          → ((path : Text) → path ≢ first_path → o.at path ≡ p.objects.at path)
          → o.at first_path ≢ some p.objects.made
          → (path : Text) → o.at path ≢ some p.objects.made
      nowhere o numbered others first path e = elim (path-cases path first_path) [
        | inl same ↦ first (sym (ap o.at same) ∙ e)
        | inr ne ↦ absurd (omega (arith, numbered path p.objects.made (sym (others path ne) ∙ e)))
      ]

      -- The process with the region furnished, before it is named.
      abbrev furnished_process : Objects → Process d F
      furnished_process o = record p {
        shim = record p.shim { memory = g.measured p.shim.memory };
        objects = o;
        ringed = g.ring_starts;
      }

      -- Removing the object once more: by its first name, no other was touched.
      removed :
          (h : Handle d.Real) (o : Objects)
          → IsNamed h o
          → h.mapped ≡ true
          → h.owner ≡ true
          → h.name ≡ measuring config.region
          → h.object ≡ p.objects.made
          → ((path : Text) → path ≢ first_path → o.at path ≡ p.objects.at path)
          → IsUnmade config p (furnished_process (hm2_region_destroy h o).1)
      removed h o named mapped owner name_eq object others =
          let gone = hm2_region_destroy_lem h o named mapped owner in
          record {
            driven = memory-IsDriven (g.measured p.shim.memory) p.shim p.params;
            modules = (refl, refl);
            others = λ path ne. gone.3 path (λ e. ne (e ∙ ap shm_path name_eq)) ∙ others path ne;
            gone = λ path e. gone.0 path (e ∙ ap some (sym object));
            exited = refl;
            in_cycle = refl;
          }

      abbrev outs : List (Bound d.Real)
      outs =
          (furnish d g config b p.shim.memory
            (clear_region (nought d) (length b.inputs + length host_signals) (length b.outputs))).0

      -- What follows the renaming.
      abbrev named_region :
          (l : List (Bound d.Real)) (h : Handle d.Real) (o : Objects)
          → Bool × Handle d.Real × Objects
          → Option (List (Bound d.Real) × Handle d.Real) × Process d F
      named_region l h o r =
          if g.stopping
          then (none, furnished_process (hm2_region_destroy h o).1)
          else if not r.0
          then (none, furnished_process (hm2_region_destroy r.1 r.2).1)
          else (
            some (l, record r.1 { region = hm2_region_set_state running r.1.region }),
            record (furnished_process r.2) { in_cycle = true },
          )

      if_outcome :
          (c : Bool) (x y : Option (List (Bound d.Real) × Handle d.Real) × Process d F)
          → RegionOutcome g config b p x
          → RegionOutcome g config b p y
          → RegionOutcome g config b p (if c then x else y)
      if_outcome true x y v w = v
      if_outcome false x y v w = w

      by-Renaming :
          (l : List (Bound d.Real)) (h : Handle d.Real) (o : Objects)
          → IsNamed h o
          → h.mapped ≡ true
          → h.owner ≡ true
          → h.name ≡ measuring config.region
          → h.object ≡ p.objects.made
          → l ≡ outs
          → h.region
            ≡ (furnish d g config b p.shim.memory (
                clear_region
                  (nought d)
                  (length b.inputs + length host_signals)
                  (length b.outputs))).1
          → ((path : Text) → path ≢ first_path → o.at path ≡ p.objects.at path)
          → (r : Bool × Handle d.Real × Objects) → Renaming config.region h o r
          → RegionOutcome g config b p (named_region l h o r)
      by-Renaming l h o named mapped owner name_eq object same region others r renaming =
          if_outcome g.stopping _ _ (unmade _ gone) (by_result r renaming)
        where
          gone : IsUnmade config p (furnished_process (hm2_region_destroy h o).1)
          gone = removed h o named mapped owner name_eq object others

          by_result :
              (r : Bool × Handle d.Real × Objects)
              → Renaming config.region h o r
              → RegionOutcome g config b p (
                  if not r.0 then (none, furnished_process (hm2_region_destroy r.1 r.2).1) else (
                    some (l, record r.1 { region = hm2_region_set_state running r.1.region }),
                    record (furnished_process r.2) { in_cycle = true },
                  ))
          by_result _ kept = unmade _ gone
          by_result _ (renamed q now_named others2) = made _ _ _ (record {
            driven = memory-IsDriven (g.measured p.shim.memory) p.shim p.params;
            params = refl;
            memory = refl;
            tables = (refl, refl);
            named = now_named;
            name_eq = refl;
            object = object;
            others = λ path ne1 ne2.
                others2 path (λ e. ne1 (e ∙ ap shm_path name_eq)) ne2 ∙ others path ne1;
            furnished = ap (hm2_region_set_state running) region;
            outputs_eq = same;
            in_cycle = refl;
          })

    -- The object number that a creation did not use is on no path.
    pub make_region-RegionOutcome :
        (config : Config d.Real) (b : Binding d.Real) (p : Process d F)
        → IsNumbered p.objects
        → length (measuring config.region) ≤ name_max
        → RegionOutcome g config b p (make_region d g config b p)
    unfolding make_region
    make_region-RegionOutcome config b p numbered fits =
        let name = measuring config.region in
        let ins = length b.inputs + length host_signals in
        let outs = length b.outputs in
        let c = hm2_region_create (nought d) g.opens g.sizes g.maps name ins outs p.objects in
        let created =
          hm2_region_create_lem (nought d) g.opens g.sizes g.maps name ins outs p.objects numbered
            fits in
        elim created.outcome [
          | inl (failed, nothing) ↦
              rw (make_region, failed)
                (unmade _ (record {
                  driven = λ v. v;
                  modules = (refl, refl);
                  others = created.others;
                  gone =
                      nowhere config b p c.1 numbered created.others (λ e. clash (sym nothing ∙ e));
                  exited = refl;
                  in_cycle = refl;
                }))
          | inr (h, e, name_eq, object, mapped, owner, named) ↦
              let region =
                hm2_region_create-region (nought d) g.opens g.sizes g.maps name ins outs p.objects h
                  e in
              let furnished = furnish d g config b p.shim.memory h.region in
              let finished : Handle d.Real = record h { region = furnished.1 } in
              rw (make_region, e)
                (by-Renaming config b p furnished.0 finished c.1 named mapped owner name_eq object
                  (ap (λ x. (furnish d g config b p.shim.memory x).0) region)
                  (ap (λ x. (furnish d g config b p.shim.memory x).1) region) created.others
                  (hm2_region_rename g.renames config.region finished c.1)
                  (hm2_region_rename_lem g.renames config.region finished c.1 named
                    (omega (arith, fits, length-append config.region (codes ".measuring")))))
        ]
      where
        clash : none ≡ some p.objects.made → ⊥
        clash q = absurd (ground arith)
