-- ===== src/Host/Cycle/Period.antt =====
-- A whole period of the loop of `main`, and its two orders: with the core's answer written in the
-- period that asked for it, and with the answer to the period before.
use driver_hostmot.Base.{
  ℕ, Bool, true, false, not, ◌&&◌, Option, none, some, List, [], ◌∷◌, ◌==◌, ltb, if◌then◌else◌,
}
use driver_hostmot.Double.{Double}
use driver_hostmot.Shim.Types.{Signal}
use driver_hostmot.Shim.Cell.{Memory}
use driver_hostmot.Host.Region.{
  Region, shutdown, faulted, add64, hm2_region_state, hm2_region_answered, hm2_region_wait_answer,
}
use driver_hostmot.Host.Bind.{Bound}
use driver_hostmot.Host.Cycle.{
  Health, Counts, Measures, take_answer, look_after_board, publish_cycle,
}

module _ (d : Double) where
  open d use {Real}

  -- The end of a period: whether the core is still there.
  unfoldable pub goes_on : Region Real → Bool
  goes_on r = elim (hm2_region_state r) [ shutdown ↦ false | faulted ↦ false | _ ↦ true ]

  -- What surrounds a period: the driver's two functions, what the core does to the region before
  -- the wait for its answer and from then on, and what the wait sees.
  pub record Around : Type 0 where
    pub read : Memory → Memory
    pub write : Memory → Memory
    pub core_first : Region Real → Region Real
    pub core : Region Real → Region Real
    pub measures : Measures Real
    pub wait : List (ℕ × Bool)

  -- What a period leaves.
  pub record Period : Type 0 where
    pub region : Region Real
    pub memory : Memory
    pub outputs : List (Bound Real)
    pub health : Health
    pub counts : Counts
    pub answers_on_time : ℕ
    pub answers_late : ℕ

  -- The wait of a period of the same cycle: `none` where it never ends.
  abbrev pub waited : Bool → List (ℕ × Bool) → ℕ → Period → Option Period
  waited false wait cycle p = some p
  waited true wait cycle p = elim (hm2_region_wait_answer cycle wait) [
    | none ↦ none
    | some true ↦ some (record p { answers_on_time = add64 p.answers_on_time 1 })
    | some false ↦ some (record p { answers_late = add64 p.answers_late 1 })
  ]

  abbrev pub answer_and_write : (Memory → Memory) → Period → Period
  answer_and_write write p =
      let (l, mem, c) = take_answer d p.region p.outputs p.memory p.counts in
      record p { outputs = l; memory = write mem; counts = c }

  -- A whole period: whether the loop goes on, and what is left; `none` where the wait never ends.
  unfoldable pub period :
      (same_cycle : Bool) (response_watchdog_cycles : ℕ) (inputs : List (Bound Real))
      (io_error has_bit : Option Signal)
      → Around
      → Period
      → Option (Bool × Period)
  period same_cycle watchdog inputs io_error has_bit e p =
      let taken =
        if same_cycle
        then (p.outputs, p.memory, p.counts)
        else take_answer d p.region p.outputs p.memory p.counts in
      let has_read = e.read taken.1 in
      let memory = if same_cycle then has_read else e.write has_read in
      let health = look_after_board d memory io_error has_bit p.health in
      let (alive, cycle, counts, region) =
        publish_cycle d watchdog inputs e.measures health memory taken.2 p.region in
      let here = record p {
        region = region;
        memory = memory;
        outputs = taken.0;
        health = health;
        counts = counts;
      } in
      if not alive
      then some (false, here)
      else let waits = not (cycle == 0) && ltb 0 (hm2_region_answered (e.core_first region)) in
        elim (waited (same_cycle && waits) e.wait cycle here) [
          | none ↦ none
          | some after ↦
              let seen = record after { region = e.core (e.core_first after.region) } in
              let last = if same_cycle then answer_and_write e.write seen else seen in
              some (goes_on last.region, last)
        ]

  -- The loop of `main`, over the periods that are given.
  unfoldable pub periods :
      (same_cycle : Bool) (response_watchdog_cycles : ℕ) (inputs : List (Bound Real))
      (io_error has_bit : Option Signal)
      → List Around
      → Period
      → Option (Bool × Period)
  periods same_cycle watchdog inputs io_error has_bit [] p = some (true, p)
  periods same_cycle watchdog inputs io_error has_bit (e ∷ rest) p =
      elim (period same_cycle watchdog inputs io_error has_bit e p) [
        | none ↦ none
        | some (false, q) ↦ some (false, q)
        | some (true, q) ↦ periods same_cycle watchdog inputs io_error has_bit rest q
      ]
