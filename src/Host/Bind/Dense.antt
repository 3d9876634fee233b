-- ===== src/Host/Bind/Dense.antt =====
-- What the channel is given of the pins and the parameters, and how it is numbered (`bind_signals`).
use driver_hostmot.Base.{
  ℕ, ◌+◌, ◌≡◌, refl, subst, ap, ◌∙◌, true, false, not, ◌&&◌, ◌||◌, some, List, [], ◌∷◌, ◌++◌, arith,
  length, Bool-cases, inl, inr, length-snoc,
}
use driver_hostmot.Shim.Types.{Signal, is_to_core}
use driver_hostmot.Shim.Params.{DeclaredParam}
use driver_hostmot.Host.Bind.Entries.{
  signals_of, given_pins, taken_pins, given_params, taken_params, bind_pins-entries,
  bind_params-entries,
}
use driver_hostmot.Host.Bind.{
  Bound, Binding, is_fixed, bind_pin, bind_pins, bind_param, bind_params, bind_signals,
  nothing_bound, pin_named,
}

module _ {Real : Type 0} where
  -- The values of a direction are numbered in their order, from `k` on.
  abbrev pub IsDense : ℕ → List (Bound Real) → Type 0
  IsDense k [] = Unit
  IsDense k (b ∷ rest) = (b.value_index ≡ k) × IsDense (k + 1) rest

  IsDense-snoc :
      (k : ℕ) (l : List (Bound Real)) (b : Bound Real)
      → IsDense k l
      → b.value_index ≡ k + length l
      → IsDense k (l ++ b ∷ [])
  IsDense-snoc k [] b h e = (omega arith, tt)
  IsDense-snoc k (c ∷ l) b h e = (h.0, IsDense-snoc (k + 1) l b h.1 (omega arith))

  pub record IsNumbered (b : Binding Real) : Type 0 where
    pub inputs : IsDense 0 b.inputs
    pub outputs : IsDense 0 b.outputs

  module _ (clear : Real) where
    bind_pin-IsNumbered :
        (signals : List Signal) (fixed : List ℕ) (i : ℕ) (s : Signal) (b : Binding Real)
        → IsNumbered b
        → IsNumbered (bind_pin clear signals fixed i s b)
          × (length (bind_pin clear signals fixed i s b).inputs
                + length (bind_pin clear signals fixed i s b).outputs
              ≡ length b.inputs + length b.outputs + 1)
    unfolding bind_pin
    bind_pin-IsNumbered signals fixed i s b v =
        elim (Bool-cases (is_to_core s.dir || is_fixed fixed i)) [
          | inl yes_input ↦ rw yes_input (
            record {
              inputs = IsDense-snoc 0 b.inputs _ v.inputs (omega arith);
              outputs = v.outputs;
            },
            omega (arith, length-snoc {0} b.inputs),
          )
          | inr output ↦ rw output (
            record {
              inputs = v.inputs;
              outputs = IsDense-snoc 0 b.outputs _ v.outputs (omega arith);
            },
            omega (arith, length-snoc {0} b.outputs),
          )
        ]

    bind_pins-IsNumbered :
        (signals : List Signal) (fixed : List ℕ) (i : ℕ) (l : List Signal) (b : Binding Real)
        → IsNumbered b
        → IsNumbered (bind_pins clear signals fixed i l b)
          × (length (bind_pins clear signals fixed i l b).inputs
                + length (bind_pins clear signals fixed i l b).outputs
              ≡ length b.inputs + length b.outputs + length l)
    unfolding bind_pins
    bind_pins-IsNumbered signals fixed i [] b v = (v, omega arith)
    bind_pins-IsNumbered signals fixed i (s ∷ l) b v =
        let one = bind_pin-IsNumbered signals fixed i s b v in
        let rest =
          bind_pins-IsNumbered signals fixed (i + 1) l (bind_pin clear signals fixed i s b) one.0 in
        (rest.0, omega arith)

    bind_pins-counts :
        (signals : List Signal) (fixed : List ℕ) (i : ℕ) (l : List Signal) (b : Binding Real)
        → ((bind_pins clear signals fixed i l b).params_published ≡ b.params_published)
          × ((bind_pins clear signals fixed i l b).params_writable ≡ b.params_writable)
    unfolding bind_pins bind_pin
    bind_pins-counts signals fixed i [] b = (refl, refl)
    bind_pins-counts signals fixed i (s ∷ l) b =
        ground
          (arith, bind_pins-counts signals fixed (i + 1) l (bind_pin clear signals fixed i s b))

    -- What `bind_params` keeps: the numbering, and the counts of what it published.
    record IsCounted (pins : ℕ) (b : Binding Real) : Type 0 where
      numbered : IsNumbered b
      total : length b.inputs + length b.outputs ≡ pins + b.params_published + b.params_writable

    bind_param-IsCounted :
        (signals : List Signal) (p : DeclaredParam) (pins : ℕ) (b : Binding Real)
        → IsCounted pins b
        → IsCounted pins (bind_param clear signals p b)
    unfolding bind_param
    bind_param-IsCounted signals p pins b v = elim (Bool-cases (pin_named p.name true signals)) [
      | inl taken ↦ rw taken v
      | inr free ↦ elim (Bool-cases (p.writable && not (pin_named p.name false signals))) [
        | inl both ↦
            rw (free, both)
              (record {
                numbered = record {
                  inputs = IsDense-snoc 0 b.inputs _ v.numbered.inputs (omega arith);
                  outputs = IsDense-snoc 0 b.outputs _ v.numbered.outputs (omega arith);
                };
                total = omega (arith, v.total, length-snoc {0} b.inputs, length-snoc {0} b.outputs);
              })
        | inr only ↦
            rw (free, only)
              (record {
                numbered = record {
                  inputs = IsDense-snoc 0 b.inputs _ v.numbered.inputs (omega arith);
                  outputs = v.numbered.outputs;
                };
                total = omega (arith, v.total, length-snoc {0} b.inputs);
              })
      ]
    ]

    bind_params-IsCounted :
        (signals : List Signal) (l : List DeclaredParam) (pins : ℕ) (b : Binding Real)
        → IsCounted pins b
        → IsCounted pins (bind_params clear signals l b)
    unfolding bind_params
    bind_params-IsCounted signals [] pins b v = v
    bind_params-IsCounted signals (p ∷ l) pins b v =
        bind_params-IsCounted signals l pins (bind_param clear signals p b)
          (bind_param-IsCounted signals p pins b v)

    -- What the channel is given, once the allocations succeed. Its inputs are, in this order and
    -- each with its name, type and cell, the pins of the table that the driver writes or a line
    -- fixed, and the parameters whose name no pin has that the driver writes; its outputs are the
    -- other pins, and of those parameters the writable ones whose name no pin has that the driver
    -- reads. The values of each direction are numbered from zero without a gap, there are as many
    -- entries as pins and parameters counted, and the counts are those of the parameters given and
    -- taken.
    pub bind_signals_lem :
        (signals : List Signal) (params : List DeclaredParam) (fixed : List ℕ) (b : Binding Real)
        → bind_signals clear true signals params fixed ≡ some b
        → IsDense 0 b.inputs
          × IsDense 0 b.outputs
          × (signals_of b.inputs ≡ given_pins fixed 0 signals ++ given_params signals params)
          × (signals_of b.outputs ≡ taken_pins fixed 0 signals ++ taken_params signals params)
          × (length b.inputs + length b.outputs
              ≡ length signals + b.params_published + b.params_writable)
          × (b.params_published ≡ length (given_params signals params))
          × (b.params_writable ≡ length (taken_params signals params))
    unfolding bind_signals
    bind_signals_lem signals params fixed b e =
        let start = nothing_bound clear in
        let bound = bind_pins clear signals fixed 0 signals start in
        let pins =
          bind_pins-IsNumbered signals fixed 0 signals start
            (record { inputs = tt; outputs = tt }) in
        let none_yet = bind_pins-counts signals fixed 0 signals start in
        let counted : IsCounted (length signals) bound = record {
          numbered = pins.0;
          total = omega arith;
        } in
        let all = bind_params-IsCounted signals params (length signals) bound counted in
        let of_pins = bind_pins-entries clear signals fixed 0 signals start in
        let of_params = bind_params-entries clear signals params bound in
        let same : bind_params clear signals params bound ≡ b = cc in
        subst
          (λ (b : Binding Real).
            IsDense 0 b.inputs
            × IsDense 0 b.outputs
            × (signals_of b.inputs ≡ given_pins fixed 0 signals ++ given_params signals params)
            × (signals_of b.outputs ≡ taken_pins fixed 0 signals ++ taken_params signals params)
            × (length b.inputs + length b.outputs
                ≡ length signals + b.params_published + b.params_writable)
            × (b.params_published ≡ length (given_params signals params))
            × (b.params_writable ≡ length (taken_params signals params)))
          same
          (
            all.numbered.inputs,
            all.numbered.outputs,
            of_params.0 ∙ ap (λ t. t ++ given_params signals params) of_pins.0,
            of_params.1 ∙ ap (λ t. t ++ taken_params signals params) of_pins.1,
            all.total,
            omega (arith, of_params.2, none_yet.0),
            omega (arith, of_params.3, none_yet.1),
          )
