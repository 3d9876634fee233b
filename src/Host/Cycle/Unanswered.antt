-- ===== src/Host/Cycle/Unanswered.antt =====
-- A period whose last cycle has no answer, stage by stage (`publish_cycle`, `take_answer` and the end
-- of the loop of `main`).
use driver_hostmot.Base.{
  ℕ, ◌+◌, ◌^◌, ◌<◌, ◌≡◌, true, false, List, arith, ◌==◌, if◌then◌else◌, ◌⊎◌, refl,
}
use driver_hostmot.Double.{Double}
use driver_hostmot.Shim.Cell.{Memory}
use driver_hostmot.Host.Region.{
  Region, add64, hm2_region_begin, hm2_region_set_state, hm2_region_collect, hm2_region_state,
  faulted,
}
use driver_hostmot.Host.Bind.{Bound}
use driver_hostmot.Host.Cycle.{Counts, Health, Measures, publish_cycle, take_answer}
use driver_hostmot.Host.Cycle.Period.{goes_on}

-- The last published cycle has no answer.
pub record IsUnanswered {Real : Type 0} (r : Region Real) : Type 0 where
  pub behind : r.response < r.cycle
  pub bounded : r.cycle + 1 < 2 ^ 64

-- The count of unanswered periods after one more.
abbrev pub counted : Counts → ℕ
counted c = if c.attached then c.unanswered + 1 else c.unanswered

module _ (d : Double) where
  open d use {Real}

  -- Nothing is published and the period is counted; where the count reaches the limit, the drives are
  -- dropped and the channel is faulted.
  pub publish_cycle-over :
      (watchdog : ℕ) (inputs : List (Bound Real)) (m : Measures Real) (h : Health) (mem : Memory)
      (c : Counts) (r : Region Real)
      → IsUnanswered r
      → c.drives_dropped ≡ false
      → c.unanswered < watchdog
      → watchdog < 2 ^ 32
      → (counted c == watchdog) ≡ true
      → publish_cycle d watchdog inputs m h mem c r ≡ (
        false,
        0,
        record c { unanswered = counted c; drives_dropped = true },
        record r { overruns = add64 r.overruns 1; state = faulted },
      )
  unfolding publish_cycle hm2_region_begin hm2_region_set_state
  publish_cycle-over watchdog inputs m h mem c r v up lt small reached =
      ground (arith, v.behind, v.bounded)

  pub publish_cycle-still :
      (watchdog : ℕ) (inputs : List (Bound Real)) (m : Measures Real) (h : Health) (mem : Memory)
      (c : Counts) (r : Region Real)
      → IsUnanswered r
      → c.drives_dropped ≡ false
      → c.unanswered < watchdog
      → watchdog < 2 ^ 32
      → (counted c == watchdog) ≡ false
      → publish_cycle d watchdog inputs m h mem c r
        ≡ (true, 0, record c { unanswered = counted c }, record r { overruns = add64 r.overruns 1 })
  unfolding publish_cycle hm2_region_begin
  publish_cycle-still watchdog inputs m h mem c r v up lt small going =
      ground (arith, v.behind, v.bounded)

  pub goes_on-state : (r s : Region Real) → s.state ≡ r.state → goes_on d s ≡ goes_on d r
  unfolding goes_on hm2_region_state
  goes_on-state r s e = rw e refl

  pub take_answer-unanswered :
      (r : Region Real) (l : List (Bound Real)) (mem : Memory) (c : Counts)
      → r.response < r.cycle
      → (c.attached ≡ true) ⊎ (r.response ≡ 0)
      → ((take_answer d r l mem c).2.attached ≡ c.attached)
        × ((take_answer d r l mem c).2.unanswered ≡ c.unanswered)
        × ((take_answer d r l mem c).2.drives_dropped ≡ c.drives_dropped)
  unfolding take_answer hm2_region_collect
  take_answer-unanswered r l mem c lt settled = ground arith
