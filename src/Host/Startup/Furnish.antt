-- ===== src/Host/Startup/Furnish.antt =====
-- The region before it has its name: every output starts from what its pin holds (the seeding loop of
-- `main`), and nothing else of the channel has moved.
use driver_hostmot.Base.{
  ℕ, zero, suc, ◌+◌, ◌≤◌, ◌<◌, ◌≡◌, refl, sym, ap, ◌∙◌, some, List, [], ◌∷◌, arith, length,
  get_elem?, if◌then◌else◌, ◌==◌, subst,
}
use mathlib.Core.Option.{some-injective}
use driver_hostmot.Double.{Double}
use driver_hostmot.Shim.Cell.{Memory, cell_get}
use driver_hostmot.Host.Region.{Region, hm2_region_declare, hm2_region_seed_output}
use driver_hostmot.Host.Region.Layout.{IsLaidOut}
use driver_hostmot.Host.Region.Values.{output, value_at}
use driver_hostmot.Host.Region.Seed.{hm2_region_seed_output_lem}
use driver_hostmot.Host.Bind.{
  Bound, Binding, HostSignal, declare_bound, declare_host, declare_signals, host_signals,
}
use driver_hostmot.Host.Bind.Dense.{IsDense}
use driver_hostmot.Host.Cycle.{seed_outputs}

-- Neither the layout nor the header nor the words that both sides exchange are changed.
pub record IsStill {Real : Type 0} (r t : Region Real) : Type 0 where
  pub block : t.block ≡ r.block
  pub header : t.header ≡ r.header
  pub cycle : t.cycle ≡ r.cycle
  pub response : t.response ≡ r.response
  pub state : t.state ≡ r.state

module _ {Real : Type 0} where
  IsStill-trans : (r t u : Region Real) → IsStill r t → IsStill t u → IsStill r u
  IsStill-trans r t u h k = record {
    block = k.block ∙ h.block;
    header = k.header ∙ h.header;
    cycle = k.cycle ∙ h.cycle;
    response = k.response ∙ h.response;
    state = k.state ∙ h.state;
  }

  declare_bound-IsStill :
      (direction slot : ℕ) (l : List (Bound Real)) (r : Region Real)
      → IsStill r (declare_bound direction slot l r)
  unfolding declare_bound hm2_region_declare
  declare_bound-IsStill direction slot [] r = record {
    block = refl;
    header = refl;
    cycle = refl;
    response = refl;
    state = refl;
  }
  declare_bound-IsStill direction slot (b ∷ l) r =
      let rest = declare_bound-IsStill direction (slot + 1) l _ in
      record {
        block = rest.block;
        header = rest.header;
        cycle = rest.cycle;
        response = rest.response;
        state = rest.state;
      }

  declare_host-IsStill :
      (slot index : ℕ) (l : List HostSignal) (r : Region Real)
      → IsStill r (declare_host slot index l r)
  unfolding declare_host hm2_region_declare
  declare_host-IsStill slot index [] r = record {
    block = refl;
    header = refl;
    cycle = refl;
    response = refl;
    state = refl;
  }
  declare_host-IsStill slot index (h ∷ l) r =
      let rest = declare_host-IsStill (slot + 1) (index + 1) l _ in
      record {
        block = rest.block;
        header = rest.header;
        cycle = rest.cycle;
        response = rest.response;
        state = rest.state;
      }

  pub declare_signals-IsStill :
      (b : Binding Real) (r : Region Real) → IsStill r (declare_signals b r)
  unfolding declare_signals
  declare_signals-IsStill b r =
      let one = declare_bound-IsStill 0 0 b.inputs r in
      let two = declare_host-IsStill (length b.inputs) (length b.inputs) host_signals _ in
      let three = declare_bound-IsStill 1 (length b.inputs + length host_signals) b.outputs _ in
      IsStill-trans r _ _ one (IsStill-trans _ _ _ two three)

  seed-IsStill :
      (index : ℕ) (v : Real) (r : Region Real) → IsStill r (hm2_region_seed_output index v r)
  unfolding hm2_region_seed_output
  seed-IsStill index v r = record {
    block = ground arith;
    header = ground arith;
    cycle = ground arith;
    response = ground arith;
    state = ground arith;
  }

module _ (d : Double) where
  open d use {Real}

  pub seed_outputs-IsStill :
      (l : List (Bound Real)) (mem : Memory) (r : Region Real)
      → IsStill r (seed_outputs d l mem r).1
  unfolding seed_outputs
  seed_outputs-IsStill [] mem r = record {
    block = refl;
    header = refl;
    cycle = refl;
    response = refl;
    state = refl;
  }
  seed_outputs-IsStill (b ∷ l) mem r =
      let v = cell_get d mem b.signal in
      IsStill-trans r _ _ (seed-IsStill b.value_index v r)
        (seed_outputs-IsStill l mem (hm2_region_seed_output b.value_index v r))

  module _ (inputs outputs : ℕ) where
    -- The seeding of the outputs from index `k` on leaves those before.
    seed_before :
        (k : ℕ) (l : List (Bound Real)) (mem : Memory) (r : Region Real) (p i : ℕ)
        → IsLaidOut inputs outputs r.block
        → 0 < inputs + outputs
        → IsDense k l
        → p < 2
        → i < outputs
        → i < k
        → value_at (seed_outputs d l mem r).1 (output p i) ≡ value_at r (output p i)
    unfolding seed_outputs
    seed_before k [] mem r p i laid any dense hp hi lt = refl
    seed_before k (b ∷ l) mem r p i laid any dense hp hi lt =
        let v = cell_get d mem b.signal in
        let r1 = hm2_region_seed_output b.value_index v r in
        seed_before (k + 1) l mem r1 p i
          (subst (IsLaidOut inputs outputs) (sym (seed-IsStill b.value_index v r).block) laid) any
          dense.1 hp hi (omega arith)
        ∙ hm2_region_seed_output_lem inputs outputs r b.value_index v laid any (output p i) (hp, hi)
        ∙ ground (arith, dense.0)

    seed_at :
        (k : ℕ) (l : List (Bound Real)) (mem : Memory) (r : Region Real) (p j : ℕ) (b : Bound Real)
        → IsLaidOut inputs outputs r.block
        → 0 < inputs + outputs
        → IsDense k l
        → k + length l ≤ outputs
        → p < 2
        → get_elem? l j ≡ some b
        → (value_at (seed_outputs d l mem r).1 (output p (k + j)) ≡ cell_get d mem b.signal)
          × (get_elem? (seed_outputs d l mem r).0 j
              ≡ some (record b { last = cell_get d mem b.signal }))
    unfolding seed_outputs
    seed_at k [] mem r p j b laid any dense room hp e = absurd (ground arith)
    seed_at k (c ∷ l) mem r p zero b laid any dense room hp e =
        let v = cell_get d mem c.signal in
        let r1 = hm2_region_seed_output c.value_index v r in
        let same : c ≡ b = some-injective _ _ e in
        (
          seed_before (k + 1) l mem r1 p (k + 0)
                (subst (IsLaidOut inputs outputs) (sym (seed-IsStill c.value_index v r).block) laid)
                any dense.1 hp (omega arith) (omega arith)
              ∙ hm2_region_seed_output_lem inputs outputs r c.value_index v laid any
                  (output p (k + 0)) (hp, omega arith)
              ∙ if_same (k + 0) c.value_index v (value_at r (output p (k + 0)))
                  (omega (arith, dense.0))
              ∙ ap (λ (x : Bound Real). cell_get d mem x.signal) same,
          ap (λ (x : Bound Real). some (record x { last = cell_get d mem x.signal })) same,
        )
      where
        if_same : (a b : ℕ) (v old : Real) → a ≡ b → (if a == b then v else old) ≡ v
        if_same a b v old same = ground arith
    seed_at k (c ∷ l) mem r p (suc j) b laid any dense room hp e =
        let v = cell_get d mem c.signal in
        let r1 = hm2_region_seed_output c.value_index v r in
        let rest =
          seed_at (k + 1) l mem r1 p j b
            (subst (IsLaidOut inputs outputs) (sym (seed-IsStill c.value_index v r).block) laid) any
            dense.1 (omega arith) hp e in
        (
          ap (λ (x : ℕ). value_at (seed_outputs d l mem r1).1 (output p x)) {x = k + suc j}
                {y = k + 1 + j} (omega arith)
              ∙ rest.0,
          rest.1,
        )

    -- Seeding the outputs of a region that is laid out for them, numbered from 0 on: both halves hold,
    -- at each output's index, what its pin's cell holds, and the output's last value is that too.
    pub seed_outputs_lem :
        (l : List (Bound Real)) (mem : Memory) (r : Region Real) (p j : ℕ) (b : Bound Real)
        → IsLaidOut inputs outputs r.block
        → 0 < inputs + outputs
        → IsDense 0 l
        → length l ≤ outputs
        → p < 2
        → get_elem? l j ≡ some b
        → (value_at (seed_outputs d l mem r).1 (output p j) ≡ cell_get d mem b.signal)
          × (get_elem? (seed_outputs d l mem r).0 j
              ≡ some (record b { last = cell_get d mem b.signal }))
    seed_outputs_lem l mem r p j b laid any dense room hp e =
        let h = seed_at 0 l mem r p j b laid any dense (omega (arith, room)) hp e in
        (
          ap (λ (x : ℕ). value_at (seed_outputs d l mem r).1 (output p x)) {x = j} {y = 0 + j}
                (omega arith)
              ∙ h.0,
          h.1,
        )

  pub length-seed_outputs :
      (l : List (Bound Real)) (mem : Memory) (r : Region Real)
      → length (seed_outputs d l mem r).0 ≡ length l
  unfolding seed_outputs
  length-seed_outputs [] mem r = refl
  length-seed_outputs (b ∷ l) mem r = ap suc (length-seed_outputs l mem _)
