-- ===== src/Host/UnattachedTests.antt =====
-- Two periods in which a concrete core does not answer.
use driver_hostmot.Base.{
  ◌≡◌, ◌≢◌, ℕ, arith, refl, Bool, true, false, Option, none, some, List, [], ◌∷◌, update,
}
use driver_hostmot.Concrete.{tenths}
use driver_hostmot.Host.Region.{
  hm2_region_layout, hm2_region_begin, hm2_region_publish, hm2_region_inputs, hm2_region_set_bus,
  hm2_region_collect, hm2_region_state, hm2_region_answered, hm2_region_wait_answer,
}
use driver_hostmot.Host.Cycle.{
  publish_cycle, take_answer, fill_inputs, fill_measures, look_after_board,
}
use driver_hostmot.Host.Cycle.Period.{Around, Period, period, periods, goes_on}
use driver_hostmot.Host.Cycle.Unattached.{IsUnattached, IsSilent, Reached, before_first_answer}
use driver_hostmot.Host.CycleTests.{region, ins, outs, memory, counts, well, measures}

-- The board's position moves to `n`; the core sets the word it waits on and nothing else.
abbrev silent_around : Around tenths
silent_around = record {
  read = λ m. update m 8 20;
  write = λ m. update m 32 1;
  core_first = λ r. r;
  core = λ r. record r { futex_word = 0 };
  measures = measures;
  wait = (0, false) ∷ [];
}

abbrev two : List (Around tenths)
two = silent_around ∷ silent_around ∷ []

abbrev first : Period tenths
first = record {
  region = record region { cycle = 0; response = 0; futex_word = 0 };
  memory = memory;
  outputs = outs;
  health = well;
  counts = counts;
  answers_on_time = 0;
  answers_late = 0;
}

abbrev period_of : Option (Bool × Period tenths) → Period tenths
period_of none = first
period_of (some (on, q)) = q

abbrev second : Period tenths
second = period_of (periods tenths false 2 ins none none two first)

ran_on : periods tenths false 2 ins none none two first ≡ some (true, second)
unfolding periods period goes_on publish_cycle take_answer fill_inputs fill_measures
    look_after_board hm2_region_begin hm2_region_publish hm2_region_inputs hm2_region_set_bus
    hm2_region_collect hm2_region_state hm2_region_answered hm2_region_layout
ran_on = refl

wait_ends : (cycle : ℕ) → hm2_region_wait_answer cycle silent_around.wait ≢ none
unfolding hm2_region_wait_answer
wait_ends cycle e = absurd (ground arith)

silent : IsSilent tenths silent_around
silent = record { first = λ r e. e; then_on = λ r e. e; ends = wait_ends }

before_first_answer_example :
    (on : Bool) × (q : Period tenths) × (periods tenths false 2 ins none none two first
      ≡ some (on, q))
    × Reached tenths false 2 ins none none first q two on
    × (q.outputs ≡ outs)
    × IsUnattached tenths q
before_first_answer_example =
    before_first_answer tenths false 2 ins none none two first
      (record { no_answer = refl; attached = refl; unanswered = refl }) (silent, (silent, tt))
