-- ===== src/Host/Startup/Placed.antt =====
-- Which module parameters of a configuration find a place (the loop over `module_params` of `main`).
use driver_hostmot.Base.{
  ◌≡◌, ◌↔◌, inl, inr, refl, sym, ◌∙◌, Bool, true, false, some, List, [], ◌∷◌, Text, arith, All,
  All-imp, Bool-cases,
}
use driver_hostmot.Base.Int.{ℤ}
use driver_hostmot.Shim.ModuleParams.{
  Module, Placing, placed, absent, refused, hm2_shim_set_module_param,
}
use driver_hostmot.Shim.ModuleParams.Set.{Outcome, hm2_shim_set_module_param_lem}
use driver_hostmot.Host.Config.Keys.{ModuleParam}
use driver_hostmot.Host.Startup.Modules.{place_param, place_params}
use driver_hostmot.Host.Startup.Settable.{
  HasPlace, Alike, set-Alike, HasPlace-Alike, back, IsSettable-placed, placed-IsSettable,
  IsMissing-absent, absent-IsMissing,
}

module _ (strtol : Text → ℤ) (dup : Bool) where
  -- One parameter.
  abbrev settings : ModuleParam → Module → Placing × Module
  settings p m = hm2_shim_set_module_param strtol dup (some p.name) p.index (some p.value) m

  outcome :
      (p : ModuleParam) (m : Module) → Outcome strtol dup p.name p.index p.value m (settings p m)
  outcome p m = hm2_shim_set_module_param_lem strtol dup p.name p.index p.value m

  place_param-HasPlace :
      (p : ModuleParam) (g t : Module)
      → ((place_param strtol dup p g t).0 ≡ true → HasPlace strtol dup g t p)
        × (HasPlace strtol dup g t p → (place_param strtol dup p g t).0 ≡ true)
        × Alike strtol dup g (place_param strtol dup p g t).1
        × Alike strtol dup t (place_param strtol dup p g t).2
  unfolding place_param
  place_param-HasPlace p g t = by_returns (settings p t).0 (settings p g).0 refl refl
    where
      ta : Alike strtol dup t (settings p t).1
      ta = set-Alike strtol dup p.name p.index p.value t (settings p t) (outcome p t)

      ga : Alike strtol dup g (settings p g).1
      ga = set-Alike strtol dup p.name p.index p.value g (settings p g) (outcome p g)

      -- A place that is not in the transport is in the generic driver.
      settled : (settings p t).0 ≡ absent → HasPlace strtol dup g t p → (settings p g).0 ≡ placed
      settled e (inr (m, s)) = placed-IsSettable strtol dup p g (settings p g) (outcome p g) s
      settled e (inl s) =
          clash (sym e ∙ placed-IsSettable strtol dup p t (settings p t) (outcome p t) s)
        where
          clash : absent ≡ placed → (settings p g).0 ≡ placed
          clash q = absurd (ground arith)

      by_returns :
          (a b : Placing)
          → (settings p t).0 ≡ a
          → (settings p g).0 ≡ b
          → ((place_param strtol dup p g t).0 ≡ true → HasPlace strtol dup g t p)
            × (HasPlace strtol dup g t p → (place_param strtol dup p g t).0 ≡ true)
            × Alike strtol dup g (place_param strtol dup p g t).1
            × Alike strtol dup t (place_param strtol dup p g t).2
      by_returns placed b e f =
          rw (place_param, e)
            (
              (λ _. inl (IsSettable-placed strtol dup p t (settings p t) (outcome p t) e)),
              (λ _. refl),
              (refl, refl, refl),
              ta,
            )
      by_returns refused b e f =
          rw (place_param, e)
            ((λ q. absurd (ground arith)), (λ h. absurd (unplaced h)), (refl, refl, refl), ta)
        where
          unplaced : HasPlace strtol dup g t p → ⊥
          unplaced (inl s) =
              clash (sym e ∙ placed-IsSettable strtol dup p t (settings p t) (outcome p t) s)
            where
              clash : refused ≡ placed → ⊥
              clash q = absurd (ground arith)
          unplaced (inr (m, s)) =
              clash (sym e ∙ absent-IsMissing strtol dup p t (settings p t) (outcome p t) m)
            where
              clash : refused ≡ absent → ⊥
              clash q = absurd (ground arith)
      by_returns absent placed e f =
          rw (place_param, e, f)
            (
              (λ _. inr (
                IsMissing-absent strtol dup p t (settings p t) (outcome p t) e,
                IsSettable-placed strtol dup p g (settings p g) (outcome p g) f,
              )),
              (λ _. refl),
              ga,
              ta,
            )
      by_returns absent absent e f =
          rw (place_param, e, f)
            ((λ q. absurd (ground arith)), (λ h. clash (sym f ∙ settled e h)), ga, ta)
        where
          clash : absent ≡ placed → false ≡ true
          clash q = absurd (ground arith)
      by_returns absent refused e f =
          rw (place_param, e, f)
            ((λ q. absurd (ground arith)), (λ h. clash (sym f ∙ settled e h)), ga, ta)
        where
          clash : refused ≡ placed → false ≡ true
          clash q = absurd (ground arith)

  -- The parameters of a configuration are all placed exactly if each of them, in the modules as they
  -- were loaded, is an element that the transport declares with a value of its type, or a name that the
  -- transport lacks and an element that the generic driver declares with a value of its type.
  pub place_params_iff :
      (l : List ModuleParam) (g t : Module)
      → ((place_params strtol dup l g t).0 ≡ true) ↔ All (HasPlace strtol dup g t) l
  unfolding place_params
  place_params_iff [] g t = ((λ _. tt), (λ _. refl))
  place_params_iff (p ∷ l) g t =
      let g1 : Module = (place_param strtol dup p g t).1 in
      let t1 : Module = (place_param strtol dup p g t).2 in
      let one = place_param-HasPlace p g t in
      let rest = place_params_iff l g1 t1 in
      elim (Bool-cases (place_param strtol dup p g t).0) [
        | inl ok ↦
            rw (place_params, ok)
              (
                (λ q. (
                  one.0 ok,
                  All-imp (HasPlace strtol dup g1 t1) (HasPlace strtol dup g t)
                      (HasPlace-Alike strtol dup g1 g t1 t (back strtol dup g g1 one.2)
                        (back strtol dup t t1 one.3))
                      l (rest.0 q),
                )),
                (λ a. rest.1 (
                    All-imp (HasPlace strtol dup g t) (HasPlace strtol dup g1 t1)
                      (HasPlace-Alike strtol dup g g1 t t1 one.2 one.3) l a.1)),
              )
        | inr bad ↦
            rw (place_params, bad) ((λ q. absurd (ground arith)), (λ a. sym bad ∙ one.1 a.0))
      ]
