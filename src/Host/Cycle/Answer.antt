-- ===== src/Host/Cycle/Answer.antt =====
-- The core's answer into the driver's pins (`take_answer`).
use driver_hostmot.Base.{
  ℕ, ◌+◌, ◌<◌, ◌≡◌, ◌≢◌, ◌⊎◌, inl, inr, refl, sym, ap, ◌∙◌, true, ◌&&◌, some, List, [], ◌∷◌, arith,
  ◌==◌, if◌then◌else◌, All, Bool-cases, subst,
}
use driver_hostmot.Double.{Double}
use driver_hostmot.Shim.Cell.{Memory, encode}
use driver_hostmot.Shim.Cell.Laws.{cell_set-at, cell_set-elsewhere}
use driver_hostmot.Host.Region.{Region, hm2_region_collect, add64}
use driver_hostmot.Host.Region.Layout.{IsLaidOut}
use driver_hostmot.Host.Region.Values.{output, value_at, outputs-some}
use driver_hostmot.Host.Bind.{Bound}
use driver_hostmot.Host.Cycle.{Counts, is_on_change, apply_output, apply_outputs, take_answer}

-- Every output has a cell, and none that another has.
abbrev pub CellsDiffer : {Real : Type 0} → List (Bound Real) → Type 0
CellsDiffer [] = Unit
CellsDiffer (b ∷ rest) =
    (at : ℕ) × (b.signal.cell ≡ some at)
    × All (λ c. c.signal.cell ≢ some at) rest
    × CellsDiffer rest

module _ (d : Double) where
  open d use {Real}

  -- What an output's cell holds behind an answer, having held `old`.
  abbrev pub applied : Bound Real → Real → ℕ → ℕ
  applied b value old =
      if is_on_change b.flags && d.eq value b.last then old else encode d b.signal.type value

  apply_output-cell :
      (values : ℕ → Real) (b : Bound Real) (mem : Memory) (at : ℕ)
      → b.signal.cell ≡ some at
      → (apply_output d values b mem).1 at ≡ applied b (values b.value_index) (mem at)
  unfolding apply_output
  apply_output-cell values b mem at e =
      ground (arith, cell_set-at d mem b.signal at (values b.value_index) e)

  apply_output-other :
      (values : ℕ → Real) (b : Bound Real) (mem : Memory) (at : ℕ)
      → b.signal.cell ≢ some at
      → (apply_output d values b mem).1 at ≡ mem at
  unfolding apply_output
  apply_output-other values b mem at ne =
      ground (arith, cell_set-elsewhere d mem b.signal at (values b.value_index) ne)

  apply_outputs-other :
      (values : ℕ → Real) (l : List (Bound Real)) (mem : Memory) (at : ℕ)
      → All (λ b. b.signal.cell ≢ some at) l
      → (apply_outputs d values l mem).1 at ≡ mem at
  unfolding apply_outputs
  apply_outputs-other values [] mem at h = refl
  apply_outputs-other values (b ∷ l) mem at h =
      apply_outputs-other values l (apply_output d values b mem).1 at h.1
      ∙ apply_output-other values b mem at h.0

  -- An output's cell holds what the answer makes of it.
  abbrev pub IsApplied : (ℕ → Real) → Memory → Memory → Bound Real → Type 0
  IsApplied values before after b =
      (at : ℕ) × (b.signal.cell ≡ some at)
      × (after at ≡ applied b (values b.value_index) (before at))

  apply_outputs-IsApplied :
      (values : ℕ → Real) (l : List (Bound Real)) (mem before : Memory)
      → CellsDiffer l
      → ((x : ℕ) → All (λ b. b.signal.cell ≢ some x) l ⊎ (mem x ≡ before x))
      → All (IsApplied values before (apply_outputs d values l mem).1) l
  unfolding apply_outputs
  apply_outputs-IsApplied values [] mem before v same = tt
  apply_outputs-IsApplied values (b ∷ l) mem before (at, e, others, v) same =
      let one : Memory = (apply_output d values b mem).1 in
      (
        (
          at,
          e,
          apply_outputs-other values l one at others
              ∙ apply_output-cell values b mem at e
              ∙ ap (applied b (values b.value_index)) (unchanged (same at)),
        ),
        apply_outputs-IsApplied values l one before v (λ x. next x (same x)),
      )
    where
      same_index : {x : ℕ} → (x == at) ≡ true → at ≡ x
      same_index eq = ground arith

      unchanged :
          (All (λ c. c.signal.cell ≢ some at) (b ∷ l)) ⊎ (mem at ≡ before at) → mem at ≡ before at
      unchanged (inl h) = absurd (h.0 e)
      unchanged (inr h) = h

      next :
          (x : ℕ)
          → (All (λ c. c.signal.cell ≢ some x) (b ∷ l)) ⊎ (mem x ≡ before x)
          → All (λ c. c.signal.cell ≢ some x) l ⊎ ((apply_output d values b mem).1 x ≡ before x)
      next x (inl h) = inl h.1
      next x (inr h) =
          elim (Bool-cases (x == at))
            as (λ _.
              All (λ c. c.signal.cell ≢ some x) l
              ⊎ ((apply_output d values b mem).1 x ≡ before x)) [
                | inl eq ↦
                    inl (subst (λ y. All (λ c. c.signal.cell ≢ some y) l) (same_index eq) others)
                | inr ne ↦ inr (
                    apply_output-other values b mem x (λ f. absurd (ground (arith, sym e ∙ f))) ∙ h)
              ]

  -- Once there is an answer, its values go to the pins.
  take_answer-answered :
      (r : Region Real) (l : List (Bound Real)) (mem : Memory) (c : Counts)
      → 0 < r.block.count
      → r.response ≢ 0
      → let a = apply_outputs d (λ i. value_at r (output r.response i)) l mem in
        take_answer d r l mem c ≡ (
          a.0,
          a.1,
          record c {
            attached = true;
            stale_collects =
                if r.response == r.cycle then c.stale_collects else add64 c.stale_collects 1;
          },
        )
  unfolding take_answer hm2_region_collect
  take_answer-answered r l mem c some_signal answered =
      ground (arith, outputs-some r.block r.response some_signal)

  -- The core's answer, once there is one, in a region that is laid out. The cells of the outputs
  -- differ. Each output's cell takes the value in the half of the cycle that was answered, but one
  -- that is applied on a change keeps what it held where the value is the one applied last; a cell
  -- that is no output's keeps what it held; the core counts as attached, and the collect as stale
  -- where the answer is not of the cycle published last.
  pub take_answer_lem :
      (inputs outputs : ℕ) (r : Region Real) (l : List (Bound Real)) (mem : Memory) (c : Counts)
      (elsewhere : ℕ)
      → IsLaidOut inputs outputs r.block
      → 0 < inputs + outputs
      → r.response ≢ 0
      → CellsDiffer l
      → All (λ b. b.signal.cell ≢ some elsewhere) l
      → let t = take_answer d r l mem c in
        All (IsApplied (λ i. value_at r (output r.response i)) mem t.1) l
        × (t.1 elsewhere ≡ mem elsewhere)
        × (t.2.attached ≡ true)
        × (t.2.stale_collects
            ≡ (if r.response == r.cycle then c.stale_collects else add64 c.stale_collects 1))
  take_answer_lem inputs outputs r l mem c elsewhere v some_signal answered differ other =
      let values : ℕ → Real = λ i. value_at r (output r.response i) in
      rw
        (take_answer-answered r l mem c (omega (arith, v.counts, v.input_count, v.output_count))
          answered)
        (
          apply_outputs-IsApplied values l mem mem differ (λ x. inr refl),
          apply_outputs-other values l mem elsewhere other,
          refl,
          refl,
        )

  apply_output-again :
      (values later : ℕ → Real) (b : Bound Real) (mem between : Memory) (at : ℕ)
      → later b.value_index ≡ values b.value_index
      → d.eq (values b.value_index) (values b.value_index) ≡ true
      → (is_on_change b.flags ≡ true) ⊎ (b.signal.cell ≢ some at)
      → (apply_output d later (apply_output d values b mem).0 between).1 at ≡ between at
  unfolding apply_output
  apply_output-again values later b mem between at same number (inl on_change) =
      rw (on_change) (ground arith)
  apply_output-again values later b mem between at same number (inr ne) =
      ground (arith, cell_set-elsewhere d between b.signal at (later b.value_index) ne)

  apply_outputs-again :
      (values later : ℕ → Real) (l : List (Bound Real)) (mem between : Memory) (at : ℕ)
      → All (λ b. later b.value_index ≡ values b.value_index) l
      → All (λ b. d.eq (values b.value_index) (values b.value_index) ≡ true) l
      → All (λ b. (is_on_change b.flags ≡ true) ⊎ (b.signal.cell ≢ some at)) l
      → (apply_outputs d later (apply_outputs d values l mem).0 between).1 at ≡ between at
  unfolding apply_outputs
  apply_outputs-again values later [] mem between at same number h = refl
  apply_outputs-again values later (b ∷ l) mem between at same number h =
      apply_outputs-again values later l (apply_output d values b mem).1
        (apply_output d later (apply_output d values b mem).0 between).1 at same.1 number.1 h.1
      ∙ apply_output-again values later b mem between at same.0 number.0 h.0

  -- An answer that repeats the last one's values writes nothing to a pin that is applied on a
  -- change: whatever the driver has put into its cell meanwhile stays. The values are numbers, each
  -- equal to itself, and no other output is over the cell.
  pub repeated_answer :
      (r r' : Region Real) (l : List (Bound Real)) (mem between : Memory) (c c' : Counts) (at : ℕ)
      → 0 < r.block.count
      → 0 < r'.block.count
      → r.response ≢ 0
      → r'.response ≢ 0
      → All
          (λ b.
            value_at r' (output r'.response b.value_index)
            ≡ value_at r (output r.response b.value_index))
          l
      → All
          (λ b.
            d.eq
              (value_at r (output r.response b.value_index))
              (value_at r (output r.response b.value_index))
            ≡ true)
          l
      → All (λ b. (is_on_change b.flags ≡ true) ⊎ (b.signal.cell ≢ some at)) l
      → (take_answer d r' (take_answer d r l mem c).0 between c').1 at ≡ between at
  repeated_answer r r' l mem between c c' at some_signal some_signal' a a' same number h =
      rw (take_answer-answered r l mem c some_signal a) (
        rw
          (take_answer-answered r' (apply_outputs d (λ i. value_at r (output r.response i)) l mem).0
            between c' some_signal' a')
          (apply_outputs-again (λ i. value_at r (output r.response i))
            (λ i. value_at r' (output r'.response i)) l mem between at same number h))
