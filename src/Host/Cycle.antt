-- ===== src/Host/Cycle.antt =====
-- The cycle of host/main.c: the stages that `main` runs once a period, in its order, and
-- `take_answer`. The driver's read and write functions, the core and the clock are arguments. What is
-- measured goes to the log and to this process's own signals; here it is a value that is given.
pub mod Answer
pub mod Unanswered
pub mod Silence
pub mod Fill
pub mod Publish
pub mod Board
pub mod Period
pub mod Unattached
use driver_hostmot.Base.{
  ℕ, ◌+◌, ◌*◌, ◌%◌, ◌^◌, Bool, true, false, not, ◌&&◌, ◌||◌, Option, none, some, is_some, List, [],
  ◌∷◌, ◌++◌, Text, codes, ◌==◌, leb, ltb, if◌then◌else◌, length, ends_with,
}
use driver_hostmot.Double.{Double}
use driver_hostmot.Shim.Types.{Signal}
use driver_hostmot.Shim.Cell.{Memory, nought, cell_get, cell_set}
use driver_hostmot.Host.Region.{
  Region, Freshness, fresh, stale, never, ChannelState, starting, running, shutdown, faulted,
  BusState, bus_init, bus_operational, bus_fault, BusFault, no_fault, link_fault, watchdog_fault,
  add64, hm2_region_begin, hm2_region_collect, hm2_region_inputs, hm2_region_outputs,
  hm2_region_publish, hm2_region_seed_output, hm2_region_set_bus, hm2_region_set_state,
  hm2_region_state, hm2_region_answered, hm2_region_wait_answer, load_double, store_double,
}
use driver_hostmot.Host.Bind.{Bound}

-- `flags & CNC_OUTBOARD_SIGNAL_ON_CHANGE`
abbrev pub is_on_change : ℕ → Bool
is_on_change flags = flags % 2 == 1

-- The first input that is the board's `has_bit`.
unfoldable pub find_has_bit : {Real : Type 0} → List (Bound Real) → Option Signal
find_has_bit [] = none
find_has_bit (b ∷ rest) =
    if ends_with (codes ".watchdog.has_bit") b.signal.name then some b.signal else find_has_bit rest

-- What the loop knows of the board.
pub record Health : Type 0 where
  pub link_dead : Bool
  pub bitten : Bool

-- The bus words of a cycle.
abbrev pub bus_state : Health → BusState
bus_state h = if h.link_dead || h.bitten then bus_fault else bus_operational

abbrev pub bus_cause : Health → BusFault
bus_cause h = if h.link_dead then link_fault else if h.bitten then watchdog_fault else no_fault

-- What the loop counts.
pub record Counts : Type 0 where
  pub attached : Bool
  pub stale_collects : ℕ
  pub unanswered : ℕ
  pub drives_dropped : Bool
  pub published : ℕ

-- The five values that this process publishes of itself, in the order of `host_signals`.
pub record Measures (Real : Type 0) : Type 0 where
  pub read_time : Real
  pub answer_time : Real
  pub answers_late : Real
  pub sserial_faults : Real
  pub sserial_waits : Real

module _ (d : Double) where
  open d use {Real}

  -- Before the first cycle: every output starts from what its pin holds.
  unfoldable pub seed_outputs :
      List (Bound Real) → Memory → Region Real → List (Bound Real) × Region Real
  seed_outputs [] mem r = ([], r)
  seed_outputs (b ∷ rest) mem r =
      let value = cell_get d mem b.signal in
      let (l, r') = seed_outputs rest mem (hm2_region_seed_output b.value_index value r) in
      (record b { last = value } ∷ l, r')

  -- One turn of the loop of `take_answer`.
  unfoldable pub apply_output : (ℕ → Real) → Bound Real → Memory → Bound Real × Memory
  apply_output values b mem =
      let value = values b.value_index in
      if is_on_change b.flags
      then (if d.eq value b.last
          then (b, mem)
          else (record b { last = value }, cell_set d mem b.signal value))
      else (b, cell_set d mem b.signal value)

  unfoldable pub apply_outputs :
      (ℕ → Real) → List (Bound Real) → Memory → List (Bound Real) × Memory
  apply_outputs values [] mem = ([], mem)
  apply_outputs values (b ∷ rest) mem =
      let (b', mem') = apply_output values b mem in
      let (l, mem'') = apply_outputs values rest mem' in (b' ∷ l, mem'')

  -- The values of an answer, where there is a value block.
  abbrev pub answer_values : Region Real → ℕ → Option (ℕ → Real)
  answer_values r answered = elim (hm2_region_outputs r.block answered) [
    | none ↦ none
    | some half ↦ some (load_double r half)
  ]

  abbrev pub apply_answer :
      Option (ℕ → Real) → List (Bound Real) → Memory → List (Bound Real) × Memory
  apply_answer none l mem = (l, mem)
  apply_answer (some values) l mem = apply_outputs values l mem

  unfoldable pub take_answer :
      Region Real → List (Bound Real) → Memory → Counts → List (Bound Real) × Memory × Counts
  take_answer r l mem c =
      let (freshness, answered) = hm2_region_collect r in
      let (l', mem') = apply_answer (answer_values r answered) l mem in
      elim freshness [
        | never ↦ (l, mem, c)
        | fresh ↦ (l', mem', record c { attached = true })
        | stale ↦
            (l', mem', record c { attached = true; stale_collects = add64 c.stale_collects 1 })
      ]

  -- `hm2_shim_cell_get(signal) != 0.0`, false where there is no such signal.
  abbrev pub is_raised : Memory → Option Signal → Bool
  is_raised mem none = false
  is_raised mem (some s) = not (d.eq (cell_get d mem s) (nought d))

  -- What the driver says of itself after its read. A link stays dead where there is nothing to read.
  unfoldable pub look_after_board : Memory → (io_error has_bit : Option Signal) → Health → Health
  look_after_board mem io_error has_bit h = record {
    link_dead =
        if not h.link_dead && is_raised mem io_error
        then true
        else if h.link_dead && (is_some io_error && not (is_raised mem io_error))
        then false
        else h.link_dead;
    bitten = is_raised mem has_bit;
  }

  -- The driver's pins into the half of the cycle.
  unfoldable pub fill_inputs : Option ℕ → List (Bound Real) → Memory → Region Real → Region Real
  fill_inputs half [] mem r = r
  fill_inputs half (b ∷ rest) mem r =
      fill_inputs half rest mem (store_double half b.value_index (cell_get d mem b.signal) r)

  unfoldable pub fill_measures : Option ℕ → ℕ → Measures Real → Region Real → Region Real
  fill_measures half n m r = store_double half (n + 4) m.sserial_waits (
      store_double half (n + 3) m.sserial_faults (
        store_double half (n + 2) m.answers_late
          (store_double half (n + 1) m.answer_time (store_double half n m.read_time r))))

  -- The stage that publishes: whether the loop goes on, the cycle begun or 0, and what is left.
  unfoldable pub publish_cycle :
      (response_watchdog_cycles : ℕ)
      → List (Bound Real)
      → Measures Real
      → Health
      → Memory
      → Counts
      → Region Real
      → Bool × ℕ × Counts × Region Real
  publish_cycle watchdog inputs m h mem c r =
      let (cycle, r') = hm2_region_begin r in
      if cycle == 0
      then (let unanswered = if c.attached then add64 c.unanswered 1 else c.unanswered in
          if not c.drives_dropped && (ltb 0 watchdog && leb watchdog unanswered)
          then (
            false,
            cycle,
            record c { unanswered = unanswered; drives_dropped = true },
            hm2_region_set_state faulted r',
          )
          else (true, cycle, record c { unanswered = unanswered }, r'))
      else (let half = hm2_region_inputs r'.block cycle in
          (
            true,
            cycle,
            record c { unanswered = 0; published = cycle },
            hm2_region_publish cycle (
                hm2_region_set_bus cycle (bus_state h) (bus_cause h)
                  (fill_measures half (length inputs) m (fill_inputs half inputs mem r'))),
          ))
