-- ===== src/Host/Tests.antt =====
-- The host on concrete inputs: a channel of two inputs and one output, a table of three entries.
use driver_hostmot.Base.{ℕ, some, ◌+◌, ◌*◌, ◌%◌, ◌≤◌, ◌≡◌, refl, none, arith, update}
use driver_hostmot.Base.Int.{ℤ, pos}
use driver_hostmot.Host.Region.{
  add64, mul64, sizeof_double, hm2_region_outputs, Block, Region, hm2_region_layout, starting,
  hm2_region_seed_output, hm2_region_begin, hm2_region_publish, Header, bus_init, no_fault,
}
use driver_hostmot.Host.Region.Layout.{IsLaidOut, hm2_region_layout-IsLaidOut}
use driver_hostmot.Host.Region.Values.{
  input, output, address, value_at, half_of, index_of, values_apart, address_in_region,
}
use driver_hostmot.Host.Region.Seed.{seeded, hm2_region_seed_output_lem}
use driver_hostmot.Host.Region.Channel.{
  System, Step, Reach, here, next, begin, publish, load, fill, answer, IsStart, idle, filling,
  waiting, answering, never_both,
}
use driver_hostmot.Host.Region.Snapshot.{answer_stays, question_stays}

abbrev two_in_one_out : Block
two_in_one_out = hm2_region_layout 2 1

two_in_one_out-IsLaidOut : IsLaidOut 2 1 two_in_one_out
two_in_one_out-IsLaidOut = hm2_region_layout-IsLaidOut 2 1 (omega arith) (omega arith)

hm2_region_layout-IsLaidOut_example : IsLaidOut 2 1 (hm2_region_layout 2 1)
hm2_region_layout-IsLaidOut_example = hm2_region_layout-IsLaidOut 2 1 (omega arith) (omega arith)

abbrev second_half : ℕ
second_half = add64 two_in_one_out.output_offset (mul64 (1 % 2) two_in_one_out.output_stride)

found : half_of two_in_one_out (output 1 0) ≡ some second_half
unfolding hm2_region_outputs hm2_region_layout
found = refl

values_apart_example : output 1 0 ≡ output 1 0
values_apart_example =
    values_apart 2 1 two_in_one_out two_in_one_out-IsLaidOut (output 1 0) (output 1 0) second_half
      second_half (omega arith, omega arith) (omega arith, omega arith) found found refl

address_in_region_example :
    (half : ℕ) × (half_of two_in_one_out (input 1 1) ≡ some half)
    × (two_in_one_out.table_offset + two_in_one_out.count * 96
        ≤ add64 half (mul64 (index_of (input 1 1)) sizeof_double))
    × (add64 half (mul64 (index_of (input 1 1)) sizeof_double) + 8 ≤ two_in_one_out.region_size)
address_in_region_example =
    address_in_region 2 1 two_in_one_out two_in_one_out-IsLaidOut (input 1 1)
      (omega arith, omega arith)

abbrev pub no_header : Header
no_header = record {
  version_major = 0;
  version_minor = 0;
  version_patch = 0;
  axis_count = 0;
  generation = 0;
  layout_size = 0;
  cycle_time_ns = 0;
  core_watchdog_cycles = 0;
  response_watchdog_cycles = 0;
  sync_manager_watchdog_us = 0;
  spin_iterations = 0;
  flags = 0;
  worst_case_cycle_ns = 0;
}

-- The region as it is mapped: all zero.
abbrev mapped : Region ℤ
mapped = record {
  block = two_in_one_out;
  shared_block = none;
  header = no_header;
  cycle = 0;
  response = 0;
  futex_word = 0;
  state = starting;
  bus = λ _. (bus_init, no_fault);
  table = λ _. none;
  doubles = λ _. pos 0;
  overruns = 0;
}

hm2_region_seed_output_example :
    value_at (hm2_region_seed_output 0 (pos 7) mapped) (output 1 0)
    ≡ seeded 0 (pos 7) (output 1 0) (value_at mapped (output 1 0))
hm2_region_seed_output_example =
    hm2_region_seed_output_lem 2 1 mapped 0 (pos 7) two_in_one_out-IsLaidOut (omega arith)
      (output 1 0) (omega arith, omega arith)

-- This process begins cycle 1, fills an input, publishes it, and the core loads it.
abbrev at_rest : System ℤ
at_rest = record { region = mapped; host = idle; core = waiting }

abbrev at_rest-IsStart : IsStart ℤ at_rest
at_rest-IsStart = record { cycle = refl; response = refl; host = refl; core = refl }

abbrev begun : System ℤ
begun = record { region = mapped; host = filling 1; core = waiting }

to_begun : Step ℤ at_rest begun
unfolding hm2_region_begin
to_begun = begin refl (λ e. absurd (ground arith)) refl

abbrev filled : System ℤ
filled = record begun {
  region = record mapped {
    doubles = update mapped.doubles (address two_in_one_out (input (1 % 2) 1)) (pos 5);
  };
}

to_filled : Step ℤ begun filled
unfolding hm2_region_layout
to_filled = fill 1 1 (pos 5) refl (ground arith) refl

abbrev published : System ℤ
published = record filled { region = hm2_region_publish 1 filled.region; host = idle }

to_published : Step ℤ filled published
to_published = publish 1 refl refl

abbrev loaded : System ℤ
loaded = record { region = published.region; host = idle; core = answering 1 }

to_loaded : Step ℤ published loaded
unfolding hm2_region_publish
to_loaded = load refl (λ e. absurd (ground arith)) refl

run : Reach ℤ at_rest loaded
run = next (next (next (next here to_begun) to_filled) to_published) to_loaded

abbrev answered : System ℤ
answered = record loaded {
  region = record loaded.region {
    doubles = update loaded.region.doubles (address loaded.region.block (output (1 % 2) 0)) (pos 9);
  };
}

to_answered : Step ℤ loaded answered
unfolding hm2_region_layout hm2_region_publish
to_answered = answer 1 0 (pos 9) refl (ground arith) refl

never_both_example :
    (loaded.region.response ≤ loaded.region.cycle)
    × (loaded.region.cycle ≤ loaded.region.response + 1)
    × (¬ ((loaded.host ≡ filling 2) × (loaded.core ≡ answering 1)))
never_both_example = never_both ℤ at_rest-IsStart run 2 1

answer_stays_example :
    value_at answered.region (output (loaded.region.response % 2) 0)
    ≡ value_at loaded.region (output (loaded.region.response % 2) 0)
answer_stays_example =
    answer_stays ℤ 2 1 at_rest-IsStart two_in_one_out-IsLaidOut run to_answered 0 (omega arith)

question_stays_example :
    value_at answered.region (input (1 % 2) 1) ≡ value_at loaded.region (input (1 % 2) 1)
question_stays_example =
    question_stays ℤ 2 1 1 at_rest-IsStart two_in_one_out-IsLaidOut run refl to_answered 1
      (omega arith)
