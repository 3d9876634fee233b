-- ===== src/Host/Config/Load.antt =====
-- The whole file (`hm2_config_load` of host/config.c): every line, then the checks.
use driver_hostmot.Base.{
  ℕ, ◌+◌, Bool, not, ◌||◌, ◌&&◌, Option, none, some, List, [], ◌∷◌, Text, ◌==◌, leb, ltb,
  if◌then◌else◌,
}
use driver_hostmot.Base.Int.{pos}
use driver_hostmot.Double.{Double}
use driver_hostmot.Host.Config.Lines.{blank, no_equals, setting, read_line}
use driver_hostmot.Host.Config.Keys.{Libc, Config, set_key, defaults}

module _ (d : Double) (c : Libc d) where
  open d use {Real}

  -- The configuration so far and how many lines failed.
  abbrev pub Reading : Type 0
  Reading = Config Real × ℕ

  abbrev count : Config Real → ℕ → Option (Config Real) → Reading
  count g failures none = (g, failures + 1)
  count g failures (some g') = (g', failures)

  -- One turn of the loop, at the line of that number.
  unfoldable pub take_line : Bool → ℕ → Text → Reading → Reading
  take_line allocated number chunk (g, failures) = elim (read_line chunk) [
    | blank ↦ (g, failures)
    | no_equals ↦ (g, failures + 1)
    | setting key value ↦ count g failures (set_key d c allocated number key value g)
  ]

  -- `allocated n` says whether the allocations for line `n` succeed.
  unfoldable pub take_lines : (ℕ → Bool) → ℕ → List Text → Reading → Reading
  take_lines allocated number [] r = r
  take_lines allocated number (chunk ∷ rest) r =
      take_lines allocated (number + 1) rest
        (take_line (allocated (number + 1)) (number + 1) chunk r)

  -- The checks after the file is read.
  unfoldable pub acceptable : Config Real → Bool
  acceptable g =
      not (g.cycle_us == 0)
      && (not (g.worst_case_cycle_ns == 0 && ltb g.measure_cycles 10)
          && (d.le (d.of_int (pos 1)) g.worst_case_margin
              && (not (leb g.cycle_us g.sserial_transfer_us)
                  && not (
                      d.le g.send_deadline (d.of_int (pos 0))
                      || d.le (d.of_int (pos 1)) g.send_deadline))))

  -- `hm2_config_load`; the file is `none` where it cannot be opened, the result where it is refused.
  unfoldable pub hm2_config_load : (ℕ → Bool) → Option (List Text) → Option (Config Real)
  hm2_config_load allocated none = none
  hm2_config_load allocated (some lines) =
      let (g, failures) = take_lines allocated 0 lines (defaults d c, 0) in
      if ltb 0 failures then none else if acceptable g then some g else none
