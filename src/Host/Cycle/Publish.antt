-- ===== src/Host/Cycle/Publish.antt =====
-- What the core finds in a published cycle (`publish_cycle`): the driver's pins, this process's own
-- values and the bus words, in the half of that cycle.
use driver_hostmot.Base.{
  ℕ, ◌+◌, ◌-◌, ◌%◌, ◌<◌, ◌≡◌, ◌≢◌, inl, inr, refl, sym, ap, ◌∙◌, true, ◌&&◌, none, some, List,
  arith, ◌==◌, leb, if◌then◌else◌, length, lt_length, length_le, get_elem?, Option-cases, subst,
}
use driver_hostmot.Double.{Double}
use driver_hostmot.Shim.Cell.{Memory, cell_get}
use driver_hostmot.Host.Region.{
  Block, Region, add64, mul64, store_double, hm2_region_begin, hm2_region_set_bus,
  hm2_region_publish,
}
use driver_hostmot.Host.Region.Layout.{IsLaidOut}
use driver_hostmot.Host.Region.Values.{Slot, input, output, InRange, address, value_at, inputs-some}
use driver_hostmot.Host.Bind.{Bound}
use driver_hostmot.Host.Bind.Dense.{IsDense}
use driver_hostmot.Host.Cycle.{
  Counts, Health, Measures, bus_state, bus_cause, fill_inputs, fill_measures, publish_cycle,
}
use driver_hostmot.Host.Cycle.Fill.{
  input_half, stored, store_input, Misses, fill_inputs-block, fill_inputs-Misses, fill_inputs-hits,
}

module _ (d : Double) where
  open d use {Real}

  -- The values of this process behind the pins'.
  abbrev pub measure : Measures Real → ℕ → Real
  measure m i =
      if i == 0
      then m.read_time
      else if i == 1
      then m.answer_time
      else if i == 2
      then m.answers_late
      else if i == 3
      then m.sserial_faults
      else m.sserial_waits

  -- What a slot holds once cycle of parity `p` is published.
  abbrev pub crossed : List (Bound Real) → Memory → Measures Real → ℕ → Slot → Real → Real
  crossed l mem m p (output q j) old = old
  crossed l mem m p (input q j) old =
      if q == p
      then (elim (get_elem? l j) [
        | some b ↦ cell_get d mem b.signal
        | none ↦ measure m (j - length l)
      ])
      else old

  -- What a slot holds once this process's own values are stored behind `n` inputs.
  abbrev measured : ℕ → Measures Real → ℕ → Slot → Real → Real
  measured n m p (input q j) old = if q == p && leb n j then measure m (j - n) else old
  measured n m p (output q j) old = old

  fill_measures-measured :
      (n outputs p : ℕ) (m : Measures Real) (r : Region Real)
      → IsLaidOut (n + 5) outputs r.block
      → p < 2
      → (s : Slot) → InRange (n + 5) outputs s
      → let r' = fill_measures d (some (input_half r.block p)) n m r in
        r'.doubles (address r.block s) ≡ measured n m p s (value_at r s)
  unfolding fill_measures
  fill_measures-measured n outputs p m r v hp s h =
      let half = some (input_half r.block p) in
      let r1 = store_double half n m.read_time r in
      let r2 = store_double half (n + 1) m.answer_time r1 in
      let r3 = store_double half (n + 2) m.answers_late r2 in
      let r4 = store_double half (n + 3) m.sserial_faults r3 in
      store_input (n + 5) outputs r4 p (n + 4) m.sserial_waits v hp (omega arith) s h
      ∙ ap (stored p (n + 4) m.sserial_waits s) (
          store_input (n + 5) outputs r3 p (n + 3) m.sserial_faults v hp (omega arith) s h
          ∙ ap (stored p (n + 3) m.sserial_faults s) (
              store_input (n + 5) outputs r2 p (n + 2) m.answers_late v hp (omega arith) s h
              ∙ ap (stored p (n + 2) m.answers_late s) (
                  store_input (n + 5) outputs r1 p (n + 1) m.answer_time v hp (omega arith) s h
                  ∙ ap (stored p (n + 1) m.answer_time s)
                      (store_input (n + 5) outputs r p n m.read_time v hp (omega arith) s h))))
      ∙ last s h
    where
      last :
          (s : Slot)
          → InRange (n + 5) outputs s
          → stored p (n + 4) m.sserial_waits s (
              stored p (n + 3) m.sserial_faults s (
                stored p
                  (n + 2)
                  m.answers_late
                  s
                  (stored p (n + 1) m.answer_time s (stored p n m.read_time s (value_at r s)))))
            ≡ measured n m p s (value_at r s)
      last (output q j) h = refl
      last (input q j) h = ground arith

  fill_measures-elsewhere :
      (n outputs p : ℕ) (m : Measures Real) (r : Region Real) (b : Block)
      → r.block ≡ b
      → IsLaidOut (n + 5) outputs b
      → p < 2
      → (s : Slot) → InRange (n + 5) outputs s
      → (fill_measures d (some (input_half b p)) n m r).doubles (address b s)
        ≡ measured n m p s (r.doubles (address b s))
  fill_measures-elsewhere n outputs p m r b e v hp s h =
      subst
        (λ (x : Block).
          (fill_measures d (some (input_half x p)) n m r).doubles (address x s)
          ≡ measured n m p s (r.doubles (address x s)))
        e
        (fill_measures-measured n outputs p m r (subst (IsLaidOut (n + 5) outputs) (sym e) v) hp s
          h)

  -- Both loops that fill a half.
  filled-crossed :
      (outputs p : ℕ) (l : List (Bound Real)) (m : Measures Real) (mem : Memory) (r : Region Real)
      → IsLaidOut (length l + 5) outputs r.block
      → p < 2
      → IsDense 0 l
      → (s : Slot) → InRange (length l + 5) outputs s
      → let half = some (input_half r.block p) in
        (fill_measures d half (length l) m (fill_inputs d half l mem r)).doubles (address r.block s)
        ≡ crossed l mem m p s (value_at r s)
  filled-crossed outputs p l m mem r v hp dense s h =
      fill_measures-elsewhere (length l) outputs p m
        (fill_inputs d (some (input_half r.block p)) l mem r) r.block
        (fill_inputs-block d (input_half r.block p) l mem r) v hp s h
      ∙ by_slot s h
    where
      after : ℕ → Real
      after = (fill_inputs d (some (input_half r.block p)) l mem r).doubles

      misses :
          (s : Slot)
          → InRange (length l + 5) outputs s
          → Misses p 0 (length l) s
          → after (address r.block s) ≡ value_at r s
      misses s h miss =
          fill_inputs-Misses d (length l + 5) outputs p 0 l mem r v hp dense (omega arith) s h miss

      by_slot :
          (s : Slot)
          → InRange (length l + 5) outputs s
          → measured (length l) m p s (after (address r.block s))
            ≡ crossed l mem m p s (value_at r s)
      by_slot (output q j) h = misses (output q j) h tt
      by_slot (input q j) h = elim (Option-cases (get_elem? l j)) [
        | inl e ↦ rw e (ground (arith, length_le l j e, misses (input q j) h))
        | inr (b, e) ↦ rw e (
            ground (
              arith,
              lt_length l j b e,
              misses (input q j) h,
              fill_inputs-hits d (length l + 5) outputs p 0 l mem r v hp dense (omega arith) j b e,
            ))
      ]

  begin-some :
      (r : Region Real) → (hm2_region_begin r).0 ≢ 0 → hm2_region_begin r ≡ (add64 r.cycle 1, r)
  unfolding hm2_region_begin
  begin-some r h = ground arith

  input_half-mod : (b : Block) (n : ℕ) → input_half b (n % 2) ≡ input_half b n
  input_half-mod b n =
      ap (λ (x : ℕ). add64 b.input_offset (mul64 x b.input_stride)) {x = n % 2 % 2} {y = n % 2}
        (omega arith)

  -- What the stage does with a cycle that is begun.
  publish_cycle-begun :
      (watchdog : ℕ) (l : List (Bound Real)) (m : Measures Real) (h : Health) (mem : Memory)
      (c : Counts) (r : Region Real)
      → 0 < r.block.count
      → (hm2_region_begin r).0 ≢ 0
      → let n = add64 r.cycle 1 in
        let half = some (input_half r.block n) in
        publish_cycle d watchdog l m h mem c r ≡ (
          true,
          n,
          record c { unanswered = 0; published = n },
          hm2_region_publish n (
              hm2_region_set_bus n
                (bus_state h)
                (bus_cause h)
                (fill_measures d half (length l) m (fill_inputs d half l mem r))),
        )
  unfolding publish_cycle
  publish_cycle-begun watchdog l m h mem c r some_signal begun =
      ground (arith, begin-some r begun, inputs-some r.block (add64 r.cycle 1) some_signal)

  -- A cycle that is begun, in a region that is laid out for the pins and this process's five values,
  -- the pins being numbered from 0 without a gap, is published: the core then finds in the half of its parity, at the index of each pin, what the
  -- pin holds, and behind them what this process measured, and no other value of the region is
  -- changed; the bus words of the half are those of the board's health, the silence counted is
  -- none, and the loop goes on.
  pub publish_cycle_lem :
      (watchdog outputs : ℕ) (l : List (Bound Real)) (m : Measures Real) (h : Health) (mem : Memory)
      (c : Counts) (r : Region Real)
      → IsLaidOut (length l + 5) outputs r.block
      → IsDense 0 l
      → (hm2_region_begin r).0 ≢ 0
      → (s : Slot) → InRange (length l + 5) outputs s
      → let n = add64 r.cycle 1 in
        let t = publish_cycle d watchdog l m h mem c r in
        (t.0 ≡ true)
        × (t.1 ≡ n)
        × (t.2.unanswered ≡ 0)
        × (t.3.cycle ≡ n)
        × (t.3.bus (n % 2) ≡ (bus_state h, bus_cause h))
        × (t.3.doubles (address r.block s) ≡ crossed l mem m (n % 2) s (value_at r s))
  unfolding hm2_region_publish hm2_region_set_bus
  publish_cycle_lem watchdog outputs l m h mem c r v dense begun s hs =
      let n = add64 r.cycle 1 in
      rw
        (publish_cycle-begun watchdog l m h mem c r
          (omega (arith, v.counts, v.input_count, v.output_count)) begun)
        (
          refl,
          refl,
          refl,
          refl,
          ground arith,
          ap
                (λ (x : ℕ).
                  (fill_measures d (some x) (length l) m (fill_inputs d (some x) l mem r)).doubles
                    (address r.block s))
                (sym (input_half-mod r.block n))
              ∙ filled-crossed outputs (n % 2) l m mem r v (omega arith) dense s hs,
        )
