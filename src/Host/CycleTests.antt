-- ===== src/Host/CycleTests.antt =====
-- The cycle on concrete inputs: one pin to the core, one from it, one of both ways.
use driver_hostmot.Base.{
  ◌+◌, ◌%◌, ◌<◌, ◌≡◌, ◌≢◌, inl, inr, refl, true, false, none, some, List, [], ◌∷◌, codes, arith,
  ltb, if◌then◌else◌, update, All, not, ◌||◌,
}
use driver_hostmot.Base.Int.{ℤ, pos}
use driver_hostmot.Concrete.{tenths}
use driver_hostmot.Shim.Types.{bool_cell, real_cell, to_core, from_core, Signal}
use driver_hostmot.Shim.Cell.{Memory}
use driver_hostmot.Shim.Pins.{signal_at}
use driver_hostmot.Host.Tests.{no_header}
use driver_hostmot.Host.Region.{
  Block, Region, hm2_region_layout, running, faulted, bus_init, no_fault, hm2_region_begin,
  hm2_region_state, add64, bus_fault, bus_operational, link_fault, watchdog_fault,
}
use driver_hostmot.Host.Region.Layout.{IsLaidOut, hm2_region_layout-IsLaidOut}
use driver_hostmot.Host.Region.Values.{input, output, address, value_at}
use driver_hostmot.Host.Bind.{Bound, Binding, declare_signals}
use driver_hostmot.Host.Bind.Declared.{described, declare_signals_lem}
use driver_hostmot.Host.Cycle.{
  Counts, Health, Measures, take_answer, publish_cycle, bus_state, bus_cause, is_raised,
  look_after_board,
}
use driver_hostmot.Host.Cycle.Answer.{CellsDiffer, IsApplied, take_answer_lem, repeated_answer}
use driver_hostmot.Host.Cycle.Silence.{Keeps, silent_core}
use driver_hostmot.Host.Cycle.Period.{Around, Period, goes_on, periods}
use driver_hostmot.Host.Cycle.Publish.{crossed, publish_cycle_lem}
use driver_hostmot.Host.Cycle.Board.{look_after_board_lem}

abbrev block : Block
block = hm2_region_layout 7 2

block-IsLaidOut : IsLaidOut 7 2 block
block-IsLaidOut = hm2_region_layout-IsLaidOut 7 2 (omega arith) (omega arith)

-- Cycle 1 is published and answered.
abbrev pub region : Region ℤ
region = record {
  block = block;
  shared_block = some block;
  header = no_header;
  cycle = 1;
  response = 1;
  futex_word = 1;
  state = running;
  bus = λ _. (bus_init, no_fault);
  table = λ _. none;
  doubles = λ _. pos 70;
  overruns = 0;
}

abbrev pub ins : List (Bound ℤ)
ins =
    record {
      signal = signal_at (codes "in") real_cell 8 to_core;
      value_index = 0;
      flags = 0;
      last = pos 0;
    }
    ∷ record {
      signal = signal_at (codes "index") bool_cell 16 to_core;
      value_index = 1;
      flags = 0;
      last = pos 0;
    }
    ∷ []

abbrev pub outs : List (Bound ℤ)
outs =
    record {
      signal = signal_at (codes "index") bool_cell 16 from_core;
      value_index = 0;
      flags = 1;
      last = pos 0;
    }
    ∷ record {
      signal = signal_at (codes "out") real_cell 24 from_core;
      value_index = 1;
      flags = 0;
      last = pos 0;
    }
    ∷ []

abbrev pub memory : Memory
memory _ = 0

abbrev pub counts : Counts
counts = record {
  attached = false;
  stale_collects = 0;
  unanswered = 0;
  drives_dropped = false;
  published = 1;
}

outs-CellsDiffer : CellsDiffer outs
outs-CellsDiffer = (16, refl, (λ e. absurd (ground arith), tt), (24, refl, tt, tt))

take_answer_lem_example :
    let t = take_answer tenths region outs memory counts in
    All (IsApplied tenths (λ i. value_at region (output 1 i)) memory t.1) outs
    × (t.1 8 ≡ 0)
    × (t.2.attached ≡ true)
    × (t.2.stale_collects ≡ 0)
take_answer_lem_example =
    take_answer_lem tenths 7 2 region outs memory counts 8 block-IsLaidOut (omega arith)
      (λ e. absurd (omega arith)) outs-CellsDiffer
      ((λ e. absurd (ground arith)), ((λ e. absurd (ground arith)), tt))

some_signal : 0 < block.count
unfolding hm2_region_layout
some_signal = omega arith

-- The driver raises the pin of both ways; the answer of cycle 1 is collected again.
repeated_answer_example :
    (take_answer tenths
        (record region { cycle = 2 })
        (take_answer tenths region outs memory counts).0
        (update memory 16 1)
        counts).1
      16
    ≡ 1
repeated_answer_example =
    repeated_answer tenths region (record region { cycle = 2 }) outs memory (update memory 16 1)
      counts counts 16 some_signal some_signal (λ e. absurd (omega arith))
      (λ e. absurd (omega arith)) (refl, (refl, tt)) (refl, (refl, tt))
      (inl refl, (inr (λ e. absurd (ground arith)), tt))

abbrev pub measures : Measures ℤ
measures = record {
  read_time = pos 1;
  answer_time = pos 2;
  answers_late = pos 3;
  sserial_faults = pos 4;
  sserial_waits = pos 5;
}

abbrev pub well : Health
well = record { link_dead = false; bitten = false }

abbrev attached_counts : Counts
attached_counts = record counts { attached = true }

abbrev idle : Around tenths
idle = record {
  read = λ m. update m 8 20;
  write = λ m. update m 32 1;
  core_first = λ r. r;
  core = λ r. record r { futex_word = 0 };
  measures = measures;
  wait = [];
}

same-Keeps : Keeps tenths (λ r. r)
same-Keeps = record { response = λ r. refl; cycle = λ r. refl; state = λ r. refl }

idle-Keeps : Keeps tenths (λ r. record r { futex_word = 0 })
idle-Keeps = record { response = λ r. refl; cycle = λ r. refl; state = λ r. refl }

abbrev waiting : Period tenths
waiting = record {
  region = record region { cycle = 2 };
  memory = memory;
  outputs = outs;
  health = well;
  counts = attached_counts;
  answers_on_time = 0;
  answers_late = 0;
}

is_running : goes_on tenths waiting.region ≡ true
unfolding goes_on hm2_region_state
is_running = refl

-- Cycle 2 is published and never answered; two unanswered periods are the limit.
silent_core_example :
    (q : Period tenths) × (periods tenths true 2 ins none none (idle ∷ idle ∷ idle ∷ []) waiting
      ≡ some (not true || ltb (0 + 3) 2, q))
    × (q.counts.drives_dropped ≡ not (not true || ltb (0 + 3) 2))
    × (q.region.state ≡ (if not true || ltb (0 + 3) 2 then running else faulted))
    × (q.region.cycle ≡ 2)
silent_core_example =
    silent_core tenths 2 ins none none true (idle ∷ idle ∷ idle ∷ []) waiting (omega arith)
      (record {
        unanswered = record { behind = omega arith; bounded = omega arith };
        settled = inl refl;
        driven = refl;
        below = omega arith;
        on = is_running;
      })
      ((same-Keeps, idle-Keeps), ((same-Keeps, idle-Keeps), ((same-Keeps, idle-Keeps), tt)))

begun : (hm2_region_begin region).0 ≢ 0
unfolding hm2_region_begin
begun e = absurd (omega arith)

publish_cycle_lem_example :
    let n = add64 region.cycle 1 in
    let t = publish_cycle tenths 2 ins measures well memory attached_counts region in
    (t.0 ≡ true)
    × (t.1 ≡ n)
    × (t.2.unanswered ≡ 0)
    × (t.3.cycle ≡ n)
    × (t.3.bus (n % 2) ≡ (bus_state well, bus_cause well))
    × (t.3.doubles (address block (input 0 1))
        ≡ crossed tenths ins memory measures (n % 2) (input 0 1) (value_at region (input 0 1)))
publish_cycle_lem_example =
    publish_cycle_lem tenths 2 2 ins measures well memory attached_counts region block-IsLaidOut
      (refl, (refl, tt)) begun (input 0 1) (omega arith, omega arith)

abbrev io_error : Signal
io_error = signal_at (codes "hm2.io_error") bool_cell 32 to_core

look_after_board_lem_example :
    let after =
      look_after_board tenths memory (some io_error) none (record well { link_dead = true }) in
    let link = is_raised tenths memory (some io_error) in
    let bite = is_raised tenths memory none in
    (bus_state after ≡ (if link || bite then bus_fault else bus_operational))
    × (bus_cause after ≡ (if link then link_fault else if bite then watchdog_fault else no_fault))
look_after_board_lem_example =
    look_after_board_lem tenths memory io_error none (record well { link_dead = true })

abbrev binding : Binding ℤ
binding = record { inputs = ins; outputs = outs; params_published = 0; params_writable = 0 }

declare_signals_lem_example :
    declare_signals binding region ≡ record region { table = described binding region }
declare_signals_lem_example =
    declare_signals_lem binding region (omega arith, (omega arith, tt))
      (omega arith, (omega arith, tt))
