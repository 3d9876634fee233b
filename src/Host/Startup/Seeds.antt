-- ===== src/Host/Startup/Seeds.antt =====
-- Every output starts from its own pin: the region as the core finds it after the start of `main`.
use driver_hostmot.Base.{
  ℕ, ◌+◌, ◌≤◌, ◌<◌, ◌^◌, ◌≡◌, sym, ap, ◌∙◌, subst, Bool, true, false, some, List, arith,
  Option-cases, inl, inr, length, get_elem?, lt_length, length_le,
}
use mathlib.Core.Option.{some-injective}
use driver_hostmot.Double.{Double}
use driver_hostmot.Shim.Types.{Signal}
use driver_hostmot.Shim.Params.{DeclaredParam}
use driver_hostmot.Shim.Cell.{Memory, nought, cell_get}
use driver_hostmot.Host.Region.{
  Region, running, hm2_region_set_state, hm2_region_describe, hm2_region_declare_worst,
}
use driver_hostmot.Host.Region.Layout.{IsLaidOut, hm2_region_layout-IsLaidOut}
use driver_hostmot.Host.Region.Values.{output, value_at}
use driver_hostmot.Host.Objects.{Objects, name_max, clear_region}
use driver_hostmot.Host.Objects.Names.{IsNumbered}
use driver_hostmot.Host.Config.Keys.{Config}
use driver_hostmot.Host.Config.Load.{hm2_config_load}
use driver_hostmot.Host.Bind.{Binding, Bound, bind_signals, host_signals, declare_signals}
use driver_hostmot.Host.Bind.Dense.{IsDense, bind_signals_lem}
use driver_hostmot.Host.Cycle.{seed_outputs}
use driver_hostmot.Host.Startup.State.{Given, Process, Ready, measuring}
use driver_hostmot.Host.Startup.{furnish, region_config, cycling, start}
use driver_hostmot.Host.Startup.Furnish.{
  declare_signals-IsStill, seed_outputs_lem, length-seed_outputs,
}
use driver_hostmot.Host.Startup.Result.{is_ready}

-- The numbering of the binding's outputs, whose allocation succeeded.
bind_signals-IsDense :
    {Real : Type 0} (clear : Real) (ok : Bool) (signals : List Signal) (params : List DeclaredParam)
    (fixed : List ℕ) (b : Binding Real)
    → bind_signals clear ok signals params fixed ≡ some b
    → IsDense 0 b.inputs × IsDense 0 b.outputs
unfolding bind_signals
bind_signals-IsDense clear false signals params fixed b e = absurd (ground arith)
bind_signals-IsDense clear true signals params fixed b e =
    let h = bind_signals_lem clear signals params fixed b e in (h.0, h.1)

module _ (d : Double) where
  open d use {Real}

  -- An output that was seeded, with the one that it was.
  seeded_from :
      (l : List (Bound Real)) (mem : Memory) (r : Region Real) (i : ℕ) (b : Bound Real)
      → get_elem? (seed_outputs d l mem r).0 i ≡ some b
      → (c : Bound Real) × (get_elem? l i ≡ some c)
  seeded_from l mem r i b e = elim (Option-cases (get_elem? l i)) [
    | inr (c, at) ↦ (c, at)
    | inl past ↦ absurd (
        omega (
          arith,
          length_le l i past,
          lt_length (seed_outputs d l mem r).0 i b e,
          length-seed_outputs d l mem r,
        ))
  ]

  module _ {F : Type 0} (g : Given d F) (o : Objects) (config : Config Real) where
    furnished_at :
        (b : Binding Real) (mem : Memory) (parity i : ℕ) (c : Bound Real)
        → IsDense 0 b.outputs
        → length b.inputs + length host_signals + length b.outputs < 2 ^ 32
        → parity < 2
        → get_elem?
            (furnish d g config b mem (
              clear_region (nought d) (length b.inputs + length host_signals) (length b.outputs))).0
            i
          ≡ some c
        → (c.last ≡ cell_get d mem c.signal)
          × (value_at
                (hm2_region_set_state running
                  (furnish d g config b mem (
                    clear_region
                      (nought d)
                      (length b.inputs + length host_signals)
                      (length b.outputs))).1)
                (output parity i)
              ≡ c.last)
    unfolding furnish hm2_region_set_state hm2_region_declare_worst hm2_region_describe
    furnished_at b mem parity i c dense few hp e =
        let ins = length b.inputs + length host_signals in
        let outs = length b.outputs in
        let described =
          hm2_region_describe g.now (region_config d g config) (clear_region (nought d) ins outs) in
        let r = declare_signals b described in
        let laid : IsLaidOut ins outs r.block =
          subst (IsLaidOut ins outs) (sym (declare_signals-IsStill b described).block)
            (hm2_region_layout-IsLaidOut ins outs (omega arith) few) in
        let from = seeded_from b.outputs mem r i c e in
        let h =
          seed_outputs_lem d ins outs b.outputs mem r parity i from.0 laid (omega arith) dense
            (omega arith) hp from.1 in
        let same : record (from.0) { last = cell_get d mem from.0.signal } ≡ c =
          some-injective _ _ (sym h.1 ∙ e) in
        (
          sym (ap (λ (x : Bound Real). x.last) same)
              ∙ ap (λ (x : Bound Real). cell_get d mem x.signal) same,
          h.0 ∙ ap (λ (x : Bound Real). x.last) same,
        )

    length-furnish :
        (b : Binding Real) (mem : Memory) (r : Region Real)
        → length (furnish d g config b mem r).0 ≡ length b.outputs
    unfolding furnish
    length-furnish b mem r = length-seed_outputs d b.outputs mem _

    -- A start whose configuration is accepted, with room for the region's first name and an arena
    -- below 2^63 bytes, over numbered objects, that reaches the cycle with fewer than 2^32 signals:
    -- both halves of the region hold for each output what its pin held before the measurement of the
    -- worst cycle, and that is the value its first answer is compared with.
    pub start_seeds :
        (r : Ready d F) (p : Process d F) (parity i : ℕ) (b : Bound Real)
        → hm2_config_load d g.libc g.lines_allocated g.file ≡ some config
        → IsNumbered o
        → length (measuring config.region) ≤ name_max
        → config.arena_bytes < 2 ^ 63
        → start d g o ≡ cycling r p
        → length r.inputs + length host_signals + length r.outputs < 2 ^ 32
        → parity < 2
        → get_elem? r.outputs i ≡ some b
        → (mem : Memory) × (p.shim.memory ≡ g.measured mem)
          × (b.last ≡ cell_get d mem b.signal)
          × (value_at r.handle.region (output parity i) ≡ b.last)
    start_seeds r p parity i b loaded numbered fits small e few hp at =
        let h = is_ready d g o config r p loaded numbered fits small e in
        let dense = bind_signals-IsDense (nought d) g.bound_ok _ _ _ h.binding h.is_bound.binds in
        let mem = h.after.shim.memory in
        let seeds =
          furnished_at h.binding mem parity i b dense.1
            (omega (
              arith,
              few,
              ap length h.inputs,
              ap length h.is_made.outputs_eq,
              length-furnish h.binding mem (
                  clear_region (nought d) (length h.binding.inputs + length host_signals)
                    (length h.binding.outputs)),
            ))
            hp (ap (λ l. get_elem? l i) (sym h.is_made.outputs_eq) ∙ at) in
        (
          mem,
          h.is_made.memory,
          seeds.0,
          ap (λ x. value_at x (output parity i)) h.is_made.furnished ∙ seeds.1,
        )
