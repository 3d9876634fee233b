-- ===== src/Host/Cycle/Silence.antt =====
-- A core that stops answering: the loop of `main` and the counter behind `response_watchdog_cycles`.
use driver_hostmot.Base.{
  ℕ, ◌+◌, ◌^◌, ◌<◌, ◌≡◌, Bool, true, false, not, ◌||◌, List, [], ◌∷◌, arith, ◌==◌, ltb,
  if◌then◌else◌, length, ◌⊎◌, inl, inr, refl, sym, ap, ap₂, ◌∙◌, Bool-cases, All, Option, some,
}
use driver_hostmot.Double.{Double}
use driver_hostmot.Shim.Types.{Signal}
use driver_hostmot.Host.Region.{Region, add64, ChannelState, faulted}
use driver_hostmot.Host.Bind.{Bound}
use driver_hostmot.Host.Cycle.{Counts, take_answer, look_after_board}
use driver_hostmot.Host.Cycle.Unanswered.{
  IsUnanswered, counted, publish_cycle-over, publish_cycle-still, goes_on-state,
  take_answer-unanswered,
}
use driver_hostmot.Host.Cycle.Period.{Around, Period, period, periods, goes_on, answer_and_write}

module _ (d : Double) where
  open d use {Real}

  -- What a core that does nothing keeps of the region: the answer, the cycle and the state.
  pub record Keeps (f : Region Real → Region Real) : Type 0 where
    pub response : (r : Region Real) → (f r).response ≡ r.response
    pub cycle : (r : Region Real) → (f r).cycle ≡ r.cycle
    pub state : (r : Region Real) → (f r).state ≡ r.state

  -- A period in which the core does nothing.
  abbrev pub IsQuiet : Around d → Type 0
  IsQuiet e = Keeps e.core_first × Keeps e.core

  -- The loop waits for an answer: it goes on, the last cycle has no answer, a core that has answered
  -- counts as attached, and the count of unanswered periods is below the limit.
  pub record IsWaiting (watchdog : ℕ) (p : Period d) : Type 0 where
    pub unanswered : IsUnanswered p.region
    pub settled : (p.counts.attached ≡ true) ⊎ (p.region.response ≡ 0)
    pub driven : p.counts.drives_dropped ≡ false
    pub below : p.counts.unanswered < watchdog
    pub on : goes_on d p.region ≡ true

  -- What such a period leaves.
  record IsNext (watchdog : ℕ) (p q : Period d) : Type 0 where
    attached : q.counts.attached ≡ p.counts.attached
    unanswered : q.counts.unanswered ≡ counted p.counts
    dropped : q.counts.drives_dropped ≡ (counted p.counts == watchdog)
    response : q.region.response ≡ p.region.response
    cycle : q.region.cycle ≡ p.region.cycle
    state : q.region.state ≡ (if counted p.counts == watchdog then faulted else p.region.state)

  module _ (watchdog : ℕ) (inputs : List (Bound Real)) (io_error has_bit : Option Signal) where
    period-quiet :
        (same_cycle : Bool) (e : Around d) (p : Period d)
        → watchdog < 2 ^ 32
        → IsWaiting watchdog p
        → IsQuiet e
        → (q : Period d) × (period d same_cycle watchdog inputs io_error has_bit e p
            ≡ some (not (counted p.counts == watchdog), q))
          × IsNext watchdog p q
    unfolding period
    period-quiet true e p small v quiet =
        let memory = e.read p.memory in
        let health = look_after_board d memory io_error has_bit p.health in
        let n = counted p.counts in
        elim (Bool-cases (n == watchdog)) [
          | inl reached ↦
              let over =
                publish_cycle-over d watchdog inputs e.measures health memory p.counts p.region
                  v.unanswered v.driven v.below small reached in
              let ended : Period d = record p {
                region = record p.region { overruns = add64 p.region.overruns 1; state = faulted };
                memory = memory;
                health = health;
                counts = record p.counts { unanswered = n; drives_dropped = true };
              } in
              (
                ended,
                rw (period, over, reached) refl,
                record {
                  attached = refl;
                  unanswered = refl;
                  dropped = sym reached;
                  response = refl;
                  cycle = refl;
                  state = rw reached refl;
                },
              )
          | inr going ↦
              let still =
                publish_cycle-still d watchdog inputs e.measures health memory p.counts p.region
                  v.unanswered v.driven v.below small going in
              let left : Region Real = record p.region { overruns = add64 p.region.overruns 1 } in
              let c : Counts = record p.counts { unanswered = n } in
              let seen : Region Real = e.core (e.core_first left) in
              let response = quiet.1.response (e.core_first left) ∙ quiet.0.response left in
              let cycle = quiet.1.cycle (e.core_first left) ∙ quiet.0.cycle left in
              let state = quiet.1.state (e.core_first left) ∙ quiet.0.state left in
              let taken =
                take_answer-unanswered d seen p.outputs memory c
                  (omega (arith, response, cycle, v.unanswered.behind))
                  (settled_on seen response) in
              let here : Period d = record p {
                region = seen;
                memory = memory;
                health = health;
                counts = c;
              } in
              let q : Period d = answer_and_write d e.write here in
              (
                q,
                rw (period, still, going)
                    (ap (λ b. some (b, q)) (goes_on-state d p.region seen state ∙ v.on)),
                record {
                  attached = taken.0;
                  unanswered = taken.1;
                  dropped = taken.2 ∙ v.driven ∙ sym going;
                  response = response;
                  cycle = cycle;
                  state = state ∙ rw going refl;
                },
              )
        ]
      where
        settled_on :
            (r : Region Real)
            → r.response ≡ p.region.response
            → (p.counts.attached ≡ true) ⊎ (r.response ≡ 0)
        settled_on r e = elim v.settled [ inl a ↦ inl a | inr z ↦ inr (e ∙ z) ]
    period-quiet false e p small v quiet =
        let t = take_answer d p.region p.outputs p.memory p.counts in
        let memory = e.write (e.read t.1) in
        let health = look_after_board d memory io_error has_bit p.health in
        let facts =
          take_answer-unanswered d p.region p.outputs p.memory p.counts v.unanswered.behind
            v.settled in
        let same : counted t.2 ≡ counted p.counts =
          ap₂ (λ (a : Bool) (u : ℕ). if a then u + 1 else u) facts.0 facts.1 in
        let up : t.2.drives_dropped ≡ false = facts.2 ∙ v.driven in
        let lt : t.2.unanswered < watchdog = omega (arith, facts.1, v.below) in
        elim (Bool-cases (counted p.counts == watchdog)) [
          | inl reached ↦
              let over =
                publish_cycle-over d watchdog inputs e.measures health memory t.2 p.region
                  v.unanswered up lt small (ap (λ n. n == watchdog) same ∙ reached) in
              let ended : Period d = record p {
                region = record p.region { overruns = add64 p.region.overruns 1; state = faulted };
                memory = memory;
                outputs = t.0;
                health = health;
                counts = record t.2 { unanswered = counted t.2; drives_dropped = true };
              } in
              (
                ended,
                rw (period, over, reached) refl,
                record {
                  attached = facts.0;
                  unanswered = same;
                  dropped = sym reached;
                  response = refl;
                  cycle = refl;
                  state = rw reached refl;
                },
              )
          | inr going ↦
              let still =
                publish_cycle-still d watchdog inputs e.measures health memory t.2 p.region
                  v.unanswered up lt small (ap (λ n. n == watchdog) same ∙ going) in
              let left : Region Real = record p.region { overruns = add64 p.region.overruns 1 } in
              let seen : Region Real = e.core (e.core_first left) in
              let state = quiet.1.state (e.core_first left) ∙ quiet.0.state left in
              let q : Period d = record p {
                region = seen;
                memory = memory;
                outputs = t.0;
                health = health;
                counts = record t.2 { unanswered = counted t.2 };
              } in
              (
                q,
                rw (period, still, going)
                    (ap (λ b. some (b, q)) (goes_on-state d p.region seen state ∙ v.on)),
                record {
                  attached = facts.0;
                  unanswered = same;
                  dropped = up ∙ sym going;
                  response = quiet.1.response (e.core_first left) ∙ quiet.0.response left;
                  cycle = quiet.1.cycle (e.core_first left) ∙ quiet.0.cycle left;
                  state = state ∙ rw going refl;
                },
              )
        ]

    IsNext-IsWaiting :
        (p q : Period d)
        → (counted p.counts == watchdog) ≡ false
        → IsWaiting watchdog p
        → IsNext watchdog p q
        → IsWaiting watchdog q
    IsNext-IsWaiting p q going v h = record {
      unanswered = record {
        behind = omega (arith, h.response, h.cycle, v.unanswered.behind);
        bounded = omega (arith, h.cycle, v.unanswered.bounded);
      };
      settled = elim v.settled [ inl a ↦ inl (h.attached ∙ a) | inr z ↦ inr (h.response ∙ z) ];
      driven = h.dropped ∙ going;
      below = ground (arith, h.unanswered, v.below);
      on = goes_on-state d p.region q.region (h.state ∙ rw going refl) ∙ v.on;
    }

    -- From a period in which the loop goes on, with a cycle published last that is not the last
    -- number of 64 bits and has no answer, the drives not dropped, a core that has ever answered
    -- counted as attached and the count of unanswered periods below the limit: while the core does
    -- nothing, the loop of main ends in the period in which the count reaches
    -- `response_watchdog_cycles`, a number of 32 bits that is not 0, and not before. It has then
    -- dropped the drives and faulted the channel; otherwise the channel's state is kept. A core that
    -- never attached does not end the loop. No cycle is published meanwhile.
    pub silent_core :
        (same_cycle : Bool) (l : List (Around d)) (p : Period d)
        → watchdog < 2 ^ 32
        → IsWaiting watchdog p
        → All IsQuiet l
        → let on = not p.counts.attached || ltb (p.counts.unanswered + length l) watchdog in
          (q : Period d) × (periods d same_cycle watchdog inputs io_error has_bit l p
            ≡ some (on, q))
          × (q.counts.drives_dropped ≡ not on)
          × (q.region.state ≡ (if on then p.region.state else faulted))
          × (q.region.cycle ≡ p.region.cycle)
    unfolding periods
    silent_core same_cycle [] p small v quiet =
        let on : (not p.counts.attached || ltb (p.counts.unanswered + 0) watchdog) ≡ true =
          ground (arith, v.below) in
        rw on (p, refl, v.driven, refl, refl)
    silent_core same_cycle (e ∷ l) p small v quiet =
        let (q, run, h) = period-quiet same_cycle e p small v quiet.0 in
        elim (Bool-cases (counted p.counts == watchdog)) [
          | inl reached ↦
              let off : (not p.counts.attached
                    || ltb (p.counts.unanswered + length (e ∷ l)) watchdog)
                  ≡ false =
                ground (arith, v.below) in
              let stops : period d same_cycle watchdog inputs io_error has_bit e p
                  ≡ some (false, q) =
                run ∙ ap (λ b. some (not b, q)) reached in
              rw off (
                q,
                rw (periods, stops) refl,
                h.dropped ∙ reached,
                h.state ∙ rw reached refl,
                h.cycle,
              )
          | inr going ↦
              let later =
                silent_core same_cycle l q small (IsNext-IsWaiting p q going v h) quiet.1 in
              let runs : period d same_cycle watchdog inputs io_error has_bit e p ≡ some (true, q) =
                run ∙ ap (λ b. some (not b, q)) going in
              let same : (not q.counts.attached || ltb (q.counts.unanswered + length l) watchdog)
                  ≡ (not p.counts.attached || ltb (p.counts.unanswered + length (e ∷ l)) watchdog) =
                rw (h.attached, h.unanswered) (ground arith) in
              (
                later.0,
                rw (periods, runs) (later.1 ∙ ap (λ b. some (b, later.0)) same),
                later.2 ∙ ap not same,
                later.3
                    ∙ ap₂ (λ (b : Bool) (s : ChannelState). if b then s else faulted) same
                        (h.state ∙ rw going refl),
                later.4 ∙ h.cycle,
              )
        ]
