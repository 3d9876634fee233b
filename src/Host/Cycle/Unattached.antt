-- ===== src/Host/Cycle/Unattached.antt =====
-- Periods before the core's first answer (the loop of `main`): the process commands nothing.
use driver_hostmot.Base.{
  ℕ, ◌≡◌, ◌≢◌, inl, inr, refl, sym, ap, ◌∙◌, Bool, true, false, not, ◌&&◌, Option, none, some, List,
  [], ◌∷◌, ◌++◌, arith, ◌==◌, ltb, leb, length, All, Bool-cases, Option-cases,
}
use driver_hostmot.Double.{Double}
use driver_hostmot.Shim.Types.{Signal}
use driver_hostmot.Shim.Cell.{Memory}
use driver_hostmot.Host.Region.{
  add64, Region, store_double, hm2_region_begin, hm2_region_publish, hm2_region_set_bus,
  hm2_region_collect, hm2_region_inputs, hm2_region_wait_answer, hm2_region_answered,
}
use driver_hostmot.Host.Bind.{Bound}
use driver_hostmot.Host.Cycle.{
  Counts, Health, Measures, publish_cycle, take_answer, fill_inputs, fill_measures,
  look_after_board,
}
use driver_hostmot.Host.Cycle.Period.{Around, Period, period, periods, goes_on, waited}

module _ (d : Double) where
  open d use {Real}

  -- The core has not answered, and its silence is not counted.
  pub record IsUnattached (p : Period d) : Type 0 where
    pub no_answer : p.region.response ≡ 0
    pub attached : p.counts.attached ≡ false
    pub unanswered : p.counts.unanswered ≡ 0

  -- A core that does not answer in a period, whose wait for an answer ends all the same.
  pub record IsSilent (e : Around d) : Type 0 where
    pub first : (r : Region Real) → r.response ≡ 0 → (e.core_first r).response ≡ 0
    pub then_on : (r : Region Real) → r.response ≡ 0 → (e.core r).response ≡ 0
    pub ends : (cycle : ℕ) → hm2_region_wait_answer cycle e.wait ≢ none

  take_answer-never :
      (r : Region Real) (l : List (Bound Real)) (mem : Memory) (c : Counts)
      → r.response ≡ 0
      → take_answer d r l mem c ≡ (l, mem, c)
  unfolding take_answer hm2_region_collect
  take_answer-never r l mem c e = rw (take_answer, e) refl

  store-response :
      (half : Option ℕ) (i : ℕ) (v : Real) (r : Region Real)
      → (store_double half i v r).response ≡ r.response
  store-response none i v r = refl
  store-response (some h) i v r = refl

  fill_inputs-response :
      (half : Option ℕ) (l : List (Bound Real)) (mem : Memory) (r : Region Real)
      → (fill_inputs d half l mem r).response ≡ r.response
  unfolding fill_inputs
  fill_inputs-response half [] mem r = refl
  fill_inputs-response half (b ∷ l) mem r =
      fill_inputs-response half l mem _ ∙ store-response half b.value_index _ r

  fill_measures-response :
      (half : Option ℕ) (n : ℕ) (m : Measures Real) (r : Region Real)
      → (fill_measures d half n m r).response ≡ r.response
  unfolding fill_measures
  fill_measures-response none n m r = refl
  fill_measures-response (some h) n m r = refl

  begin-response : (r : Region Real) → (hm2_region_begin r).1.response ≡ r.response
  unfolding hm2_region_begin
  begin-response r = ground arith

  publish-unattached :
      (watchdog : ℕ) (inputs : List (Bound Real)) (m : Measures Real) (h : Health) (mem : Memory)
      (c : Counts) (r : Region Real)
      → c.attached ≡ false
      → c.unanswered ≡ 0
      → ((publish_cycle d watchdog inputs m h mem c r).0 ≡ true)
        × ((publish_cycle d watchdog inputs m h mem c r).2.attached ≡ false)
        × ((publish_cycle d watchdog inputs m h mem c r).2.unanswered ≡ 0)
        × ((publish_cycle d watchdog inputs m h mem c r).3.response ≡ r.response)
  unfolding publish_cycle hm2_region_publish hm2_region_set_bus
  publish-unattached watchdog inputs m h mem c r away quiet =
      let begun = hm2_region_begin r in
      let half = hm2_region_inputs begun.1.block begun.0 in
      elim (Bool-cases (begun.0 == 0)) [
        | inl behind ↦
            rw (publish_cycle, behind, away, quiet, patient watchdog c.drives_dropped)
              (refl, refl, refl, begin-response r)
        | inr next ↦
            rw (publish_cycle, next)
              (
                refl,
                away,
                refl,
                fill_measures-response half (length inputs) m
                      (fill_inputs d half inputs mem begun.1)
                    ∙ fill_inputs-response half inputs mem begun.1
                    ∙ begin-response r,
              )
      ]
    where
      patient : (w : ℕ) (dropped : Bool) → (not dropped && (ltb 0 w && leb w 0)) ≡ false
      patient w dropped = ground arith

  -- What a period of a core that does not answer leaves of a process that it has not attached to.
  abbrev OnlyDriven : Around d → Period d → Period d → Type 0
  OnlyDriven e p q =
      IsUnattached q × (q.memory ≡ e.write (e.read p.memory)) × (q.outputs ≡ p.outputs)

  abbrev EndsDriven : Around d → Period d → Option (Bool × Period d) → Type 0
  EndsDriven e p none = ⊥
  EndsDriven e p (some (on, q)) = (on ≡ goes_on d q.region) × OnlyDriven e p q

  -- The wait changes neither the region nor the pins.
  waited-kept :
      (waits : Bool) (wait : List (ℕ × Bool)) (cycle : ℕ) (p : Period d)
      → hm2_region_wait_answer cycle wait ≢ none
      → (q : Period d) × (waited d waits wait cycle p ≡ some q)
        × (q.region ≡ p.region)
        × (q.memory ≡ p.memory)
        × (q.outputs ≡ p.outputs)
        × (q.counts ≡ p.counts)
  waited-kept false wait cycle p ends = (p, refl, refl, refl, refl, refl)
  waited-kept true wait cycle p ends = elim (Option-cases (hm2_region_wait_answer cycle wait)) [
    | inl e ↦ absurd (ends e)
    | inr (answered, e) ↦ elim (Bool-cases answered) [
      | inl in_time ↦ (
        record p { answers_on_time = add64 p.answers_on_time 1 },
        rw (waited, e, in_time) refl,
        refl,
        refl,
        refl,
        refl,
      )
      | inr late ↦ (
        record p { answers_late = add64 p.answers_late 1 },
        rw (waited, e, late) refl,
        refl,
        refl,
        refl,
        refl,
      )
    ]
  ]

  period-unattached :
      (same_cycle : Bool) (watchdog : ℕ) (inputs : List (Bound Real))
      (io_error has_bit : Option Signal) (e : Around d) (p : Period d)
      → IsUnattached p
      → IsSilent e
      → EndsDriven e p (period d same_cycle watchdog inputs io_error has_bit e p)
  unfolding period
  period-unattached true watchdog inputs io_error has_bit e p away silent =
      let memory = e.read p.memory in
      let health = look_after_board d memory io_error has_bit p.health in
      let out = publish_cycle d watchdog inputs e.measures health memory p.counts p.region in
      let facts =
        publish-unattached watchdog inputs e.measures health memory p.counts p.region away.attached
          away.unanswered in
      let here : Period d = record p {
        region = out.3;
        memory = memory;
        health = health;
        counts = out.2;
      } in
      let waits = not (out.1 == 0) && ltb 0 (hm2_region_answered (e.core_first out.3)) in
      let (q, f, region, mem, outs, counts) =
        waited-kept waits e.wait out.1 here (silent.ends out.1) in
      let seen : Region Real = e.core (e.core_first q.region) in
      let none_yet : seen.response ≡ 0 =
        silent.then_on (e.core_first q.region)
          (silent.first q.region (ap (λ x. x.response) region ∙ facts.3 ∙ away.no_answer)) in
      rw (period, facts.0, f, take_answer-never seen q.outputs q.memory q.counts none_yet)
        (
          refl,
          (
            record {
              no_answer = none_yet;
              attached = ap (λ x. x.attached) counts ∙ facts.1;
              unanswered = ap (λ x. x.unanswered) counts ∙ facts.2;
            },
            ap e.write mem,
            outs,
          ),
        )
  period-unattached false watchdog inputs io_error has_bit e p away silent =
      let memory = e.write (e.read p.memory) in
      let health = look_after_board d memory io_error has_bit p.health in
      let out = publish_cycle d watchdog inputs e.measures health memory p.counts p.region in
      let facts =
        publish-unattached watchdog inputs e.measures health memory p.counts p.region away.attached
          away.unanswered in
      rw (period, take_answer-never p.region p.outputs p.memory p.counts away.no_answer, facts.0)
        (
          refl,
          (
            record {
              no_answer =
                  silent.then_on (e.core_first out.3)
                    (silent.first out.3 (facts.3 ∙ away.no_answer));
              attached = facts.1;
              unanswered = facts.2;
            },
            refl,
            refl,
          ),
        )

  -- The arena after the driver's own reads and writes only.
  abbrev pub driven_only : List (Around d) → Memory → Memory
  driven_only [] mem = mem
  driven_only (e ∷ rest) mem = driven_only rest (e.write (e.read mem))

  -- Where the loop stands after the periods given: it ran them all and goes on, or the first of them
  -- behind which the region was shut down or faulted has ended it.
  pub data Reached (same_cycle : Bool) (watchdog : ℕ) (inputs : List (Bound Real))
      (io_error has_bit : Option Signal) (p q : Period d) : List (Around d) → Bool → Type 0 where
    all_run :
        (l : List (Around d))
        → q.memory ≡ driven_only l p.memory
        → Reached same_cycle watchdog inputs io_error has_bit p q l true
    ended_by :
        (front : List (Around d)) (last : Around d) (rest : List (Around d)) (before : Period d)
        → periods d same_cycle watchdog inputs io_error has_bit front p ≡ some (true, before)
        → goes_on d q.region ≡ false
        → q.memory ≡ driven_only (front ++ last ∷ []) p.memory
        → Reached same_cycle watchdog inputs io_error has_bit p q (front ++ last ∷ rest) false

  module _ (same_cycle : Bool) (watchdog : ℕ) (inputs : List (Bound Real))
      (io_error has_bit : Option Signal) where
    -- One period more in front.
    Reached-cons :
        (e : Around d) (l : List (Around d)) (p r q : Period d) (on : Bool)
        → period d same_cycle watchdog inputs io_error has_bit e p ≡ some (true, r)
        → r.memory ≡ e.write (e.read p.memory)
        → Reached same_cycle watchdog inputs io_error has_bit r q l on
        → Reached same_cycle watchdog inputs io_error has_bit p q (e ∷ l) on
    unfolding periods
    Reached-cons e _ p r q _ run mem (all_run l h) = all_run (e ∷ l) (h ∙ ap (driven_only l) mem)
    Reached-cons e _ p r q _ run mem (ended_by front last rest before ran off h) =
        ended_by (e ∷ front) last rest before (rw (periods, run) ran) off
          (h ∙ ap (driven_only (front ++ last ∷ [])) mem)

    -- However many periods pass in which the core does not answer, from one that it has not attached
    -- to, each wait for it ending: the loop comes to an end of them, having run them all, or all up to
    -- one behind which the region was shut down or faulted. The arena holds what the driver's reads
    -- and writes of the periods that were run left and nothing else, no output has been given a value,
    -- and the silence is not counted.
    pub before_first_answer :
        (l : List (Around d)) (p : Period d)
        → IsUnattached p
        → All IsSilent l
        → (on : Bool) × (q : Period d) × (periods d same_cycle watchdog inputs io_error has_bit l p
            ≡ some (on, q))
          × Reached same_cycle watchdog inputs io_error has_bit p q l on
          × (q.outputs ≡ p.outputs)
          × IsUnattached q
    unfolding periods
    before_first_answer [] p away silent = (true, p, refl, all_run [] refl, refl, away)
    before_first_answer (e ∷ l) p away silent =
        by_period (period d same_cycle watchdog inputs io_error has_bit e p) refl
          (period-unattached same_cycle watchdog inputs io_error has_bit e p away silent.0)
          (λ r h. before_first_answer l r h silent.1)
      where
        by_period :
            (x : Option (Bool × Period d))
            → period d same_cycle watchdog inputs io_error has_bit e p ≡ x
            → EndsDriven e p x
            → ((r : Period d)
                → IsUnattached r
                → (on : Bool) × (q : Period d) × (periods d same_cycle watchdog inputs io_error
                      has_bit l r
                    ≡ some (on, q))
                  × Reached same_cycle watchdog inputs io_error has_bit r q l on
                  × (q.outputs ≡ r.outputs)
                  × IsUnattached q)
            → (on : Bool) × (q : Period d) × (periods d same_cycle watchdog inputs io_error has_bit
                  (e ∷ l)
                  p
                ≡ some (on, q))
              × Reached same_cycle watchdog inputs io_error has_bit p q (e ∷ l) on
              × (q.outputs ≡ p.outputs)
              × IsUnattached q
        by_period none run h go = absurd h
        by_period (some (false, r)) run h go =
            (false, r, rw (periods, run) refl, ended_by [] e l p refl (sym h.0) h.1.1, h.1.2, h.1.0)
        by_period (some (true, r)) run h go =
            let later = go r h.1.0 in
            (
              later.0,
              later.1,
              rw (periods, run) later.2,
              Reached-cons e l p r later.1 later.0 run h.1.1 later.3,
              later.4 ∙ h.1.2,
              later.5,
            )
