-- ===== src/Host/WorstCycleTests.antt =====
-- The measurement of the worst cycle over three concrete periods.
use driver_hostmot.Base.{
  ◌+◌, ◌*◌, ◌/◌, ◌≡◌, true, false, List, [], ◌∷◌, arith, ltb, if◌then◌else◌, take, drop, refl,
}
use driver_hostmot.Base.Int.{ℤ, pos, negsuc}
use driver_hostmot.Concrete.{tenths, tenths_lt}
use driver_hostmot.Host.Region.{add64}
use driver_hostmot.Host.Config.Keys.{Config, defaults}
use driver_hostmot.Host.ConfigTests.{loaded}
use driver_hostmot.Host.WorstCycle.{
  Timed, IsWorst, declare_worst_cycle, declare_worst_cycle_lem, measure,
}

-- Of times that are not negative.
abbrev add_times : ℤ → ℤ → ℤ
add_times (pos a) (pos b) = pos (a + b)
add_times _ b = b

abbrev mul_times : ℤ → ℤ → ℤ
mul_times (pos a) (pos b) = pos (a * b / 10)
mul_times _ b = b

abbrev config : Config ℤ
config = record loaded { measure_cycles = 12; worst_case_margin = pos 15 }

abbrev timed : List (Timed ℤ)
timed =
    record { read_s = pos 90; write_s = pos 90 }
    ∷ record { read_s = pos 20; write_s = pos 10 }
    ∷ record { read_s = pos 10; write_s = pos 10 }
    ∷ []

irreflexive : (a : ℤ) → tenths_lt a a ≡ false
irreflexive (pos a) = ground arith
irreflexive (negsuc a) = ground arith

transitive : (a b c : ℤ) → tenths_lt a b ≡ true → tenths_lt b c ≡ true → tenths_lt a c ≡ true
transitive (pos a) (pos b) (pos c) ab bc = ground arith
transitive (pos a) (pos b) (negsuc c) ab bc = absurd (ground arith)
transitive (pos a) (negsuc b) c ab bc = absurd (ground arith)
transitive (negsuc a) (pos b) (pos c) ab bc = refl
transitive (negsuc a) (pos b) (negsuc c) ab bc = absurd (ground arith)
transitive (negsuc a) (negsuc b) (pos c) ab bc = refl
transitive (negsuc a) (negsuc b) (negsuc c) ab bc = ground arith

-- The first of twelve is skipped: 3 s at worst, 4.5 s with the margin.
declared : declare_worst_cycle tenths add_times mul_times config timed ≡ 4500000001
unfolding declare_worst_cycle measure defaults
declared = refl

declare_worst_cycle_lem_example :
    (worst : ℤ) × IsWorst tenths add_times mul_times
      (pos 0)
      (drop (config.measure_cycles / 10) (take config.measure_cycles timed))
      worst
    × (declare_worst_cycle tenths add_times mul_times config timed ≡ (
        if ltb 0 config.worst_case_cycle_ns
        then config.worst_case_cycle_ns
        else add64
            (tenths.to_u64 (
              mul_times
                (mul_times worst config.worst_case_margin)
                (tenths.of_int (pos 1000000000))))
            1))
declare_worst_cycle_lem_example =
    declare_worst_cycle_lem tenths add_times mul_times transitive irreflexive config timed
