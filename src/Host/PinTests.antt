-- ===== src/Host/PinTests.antt =====
-- The signal table and the file of pins on concrete inputs: a pin of both ways, a position that the
-- driver reads, and a parameter.
use driver_hostmot.Base.{
  ℕ, ◌+◌, ◌≡◌, ◌≢◌, inl, inr, refl, true, false, some, List, [], ◌∷◌, ◌++◌, codes, arith, length,
  All, update, str_eq,
}
use driver_hostmot.Base.Int.{ℤ, pos}
use driver_hostmot.Concrete.{tenths}
use driver_hostmot.Shim.Types.{bool_cell, real_cell, to_core, from_core, Signal}
use driver_hostmot.Shim.Cell.{cell_set}
use driver_hostmot.Shim.Pins.{signal_at}
use driver_hostmot.Shim.Params.{DeclaredParam}
use driver_hostmot.Shim.Pins.Invariant.{Separate, IsPlaced}
use driver_hostmot.Host.FixedPins.{PinLine, fix_pins, find_pin, judge, fix_lines, fits}
use driver_hostmot.Host.FixedPins.Laws.{IsFixed, fix_pins_lem}
use driver_hostmot.Host.Bind.{
  Binding, bind_signals, bind_pins, bind_params, nothing_bound, is_fixed,
}
use driver_hostmot.Host.Bind.Entries.{
  signals_of, given_pins, taken_pins, given_params, taken_params,
}
use driver_hostmot.Host.Bind.Dense.{IsDense, bind_signals_lem}
use driver_hostmot.Host.Bind.Outputs.{IsOutput, bind_pins_lem, fixed_pin_kept}

abbrev index_read : Signal
index_read = signal_at (codes "e.index") bool_cell 8 from_core

abbrev index_written : Signal
index_written = signal_at (codes "e.index") bool_cell 8 to_core

abbrev limit : Signal
limit = signal_at (codes "s.max") real_cell 24 from_core

abbrev table : List Signal
table = index_read ∷ index_written ∷ limit ∷ []

table-Separate : Separate table
table-Separate = (
  (inr (refl, refl, refl), (inl (λ e. absurd (ground arith)), tt)),
  ((inl (λ e. absurd (ground arith)), tt), (tt, tt)),
)

table-IsPlaced : All (IsPlaced 32) table
table-IsPlaced = (
  record { cell = 8; cell_eq = refl; in_arena = omega arith; short = omega arith },
  (
    record { cell = 8; cell_eq = refl; in_arena = omega arith; short = omega arith },
    (record { cell = 24; cell_eq = refl; in_arena = omega arith; short = omega arith }, tt),
  ),
)

abbrev lines : List (PinLine ℤ)
lines = record { name = codes "s.max"; value = pos 6; line = 4 } ∷ []

abbrev memory : ℕ → ℕ
memory _ = 0

abbrev params : List DeclaredParam
params =
    record { name = codes "s.min"; type = real_cell; cell = 40; writable = true }
    ∷ record { name = codes "e.index"; type = bool_cell; cell = 48; writable = false }
    ∷ []

bind_pins_lem_example :
    All
      (IsOutput table (2 ∷ []))
      (bind_pins (pos 0) table (2 ∷ []) 0 table (nothing_bound (pos 0))).outputs
bind_pins_lem_example = bind_pins_lem (pos 0) table (2 ∷ [])

limit_fixed : is_fixed (2 ∷ []) 2 ≡ true
unfolding is_fixed
limit_fixed = refl

fixed_pin_kept_example :
    All
      (λ b. b.signal.cell ≢ some 24)
      (bind_pins (pos 0) table (2 ∷ []) 0 table (nothing_bound (pos 0))).outputs
fixed_pin_kept_example =
    fixed_pin_kept (pos 0) table (2 ∷ []) 2 limit table-Separate refl refl limit_fixed

abbrev bound : Binding ℤ
bound =
    bind_params (pos 0) table params
      (bind_pins (pos 0) table (2 ∷ []) 0 table (nothing_bound (pos 0)))

bound_is : bind_signals (pos 0) true table params (2 ∷ []) ≡ some bound
unfolding bind_signals
bound_is = refl

bind_signals_lem_example :
    IsDense 0 bound.inputs
    × IsDense 0 bound.outputs
    × (signals_of bound.inputs ≡ given_pins (2 ∷ []) 0 table ++ given_params table params)
    × (signals_of bound.outputs ≡ taken_pins (2 ∷ []) 0 table ++ taken_params table params)
    × (length bound.inputs + length bound.outputs
        ≡ 3 + bound.params_published + bound.params_writable)
    × (bound.params_published ≡ length (given_params table params))
    × (bound.params_writable ≡ length (taken_params table params))
bind_signals_lem_example = bind_signals_lem (pos 0) table params (2 ∷ []) bound bound_is

abbrev after : ℕ → ℕ
after = update memory 24 12

fixed_is : fix_pins tenths true table lines memory ≡ some (2 ∷ [], after)
unfolding fix_pins fix_lines judge find_pin str_eq fits cell_set
fixed_is = refl

fix_pins_lem_example : All (IsFixed tenths table (2 ∷ []) after) lines
fix_pins_lem_example =
    fix_pins_lem tenths table 32 lines memory (2 ∷ []) after table-Separate table-IsPlaced (tt, tt)
      fixed_is
