-- ===== src/Host/Bind/Entries.antt =====
-- Which pins and parameters `bind_signals` gives the core and takes from it, as lists of their own.
use driver_hostmot.Base.{
  ℕ, ◌+◌, ◌≡◌, refl, sym, ap, ◌∙◌, true, false, not, ◌&&◌, ◌||◌, List, [], ◌∷◌, ◌++◌, arith, length,
  Bool-cases, inl, inr, append-nil, if◌then◌else◌,
}
use driver_hostmot.Shim.Types.{Signal, is_to_core, from_core}
use driver_hostmot.Shim.Params.{DeclaredParam, view_of}
use driver_hostmot.Host.Bind.{
  Bound, Binding, is_fixed, bind_pin, bind_pins, bind_param, bind_params, pin_named,
}

-- The entries of the table, from index `i` on, that the driver writes or a line of the file fixed.
abbrev pub given_pins : List ℕ → ℕ → List Signal → List Signal
given_pins fixed i [] = []
given_pins fixed i (s ∷ l) =
    if is_to_core s.dir || is_fixed fixed i
    then s ∷ given_pins fixed (i + 1) l
    else given_pins fixed (i + 1) l

-- The others.
abbrev pub taken_pins : List ℕ → ℕ → List Signal → List Signal
taken_pins fixed i [] = []
taken_pins fixed i (s ∷ l) =
    if is_to_core s.dir || is_fixed fixed i
    then taken_pins fixed (i + 1) l
    else s ∷ taken_pins fixed (i + 1) l

-- The parameters whose name no pin towards the core has.
abbrev pub given_params : List Signal → List DeclaredParam → List Signal
given_params signals [] = []
given_params signals (p ∷ l) =
    if pin_named p.name true signals
    then given_params signals l
    else view_of p ∷ given_params signals l

-- Of these, the writable ones whose name no pin from the core has.
abbrev pub taken_params : List Signal → List DeclaredParam → List Signal
taken_params signals [] = []
taken_params signals (p ∷ l) =
    if not (pin_named p.name true signals) && (p.writable && not (pin_named p.name false signals))
    then record (view_of p) { dir = from_core } ∷ taken_params signals l
    else taken_params signals l

module _ {Real : Type 0} where
  abbrev pub signals_of : List (Bound Real) → List Signal
  signals_of [] = []
  signals_of (b ∷ l) = b.signal ∷ signals_of l

  signals_of-snoc :
      (l : List (Bound Real)) (b : Bound Real) (rest : List Signal)
      → signals_of (l ++ b ∷ []) ++ rest ≡ signals_of l ++ b.signal ∷ rest
  signals_of-snoc [] b rest = refl
  signals_of-snoc (c ∷ l) b rest = ap (λ t. c.signal ∷ t) (signals_of-snoc l b rest)

  module _ (clear : Real) (signals : List Signal) where
    bind_pin-entries :
        (fixed : List ℕ) (i : ℕ) (s : Signal) (l : List Signal) (b : Binding Real)
        → (signals_of (bind_pin clear signals fixed i s b).inputs ++ given_pins fixed (i + 1) l
            ≡ signals_of b.inputs ++ given_pins fixed i (s ∷ l))
          × (signals_of (bind_pin clear signals fixed i s b).outputs ++ taken_pins fixed (i + 1) l
              ≡ signals_of b.outputs ++ taken_pins fixed i (s ∷ l))
    unfolding bind_pin
    bind_pin-entries fixed i s l b = elim (Bool-cases (is_to_core s.dir || is_fixed fixed i)) [
      | inl given ↦ rw given (signals_of-snoc b.inputs _ _, refl)
      | inr taken ↦ rw taken (refl, signals_of-snoc b.outputs _ _)
    ]

    pub bind_pins-entries :
        (fixed : List ℕ) (i : ℕ) (l : List Signal) (b : Binding Real)
        → (signals_of (bind_pins clear signals fixed i l b).inputs
            ≡ signals_of b.inputs ++ given_pins fixed i l)
          × (signals_of (bind_pins clear signals fixed i l b).outputs
              ≡ signals_of b.outputs ++ taken_pins fixed i l)
    unfolding bind_pins
    bind_pins-entries fixed i [] b = (sym (append-nil _), sym (append-nil _))
    bind_pins-entries fixed i (s ∷ l) b =
        let one = bind_pin-entries fixed i s l b in
        let rest = bind_pins-entries fixed (i + 1) l (bind_pin clear signals fixed i s b) in
        (rest.0 ∙ one.0, rest.1 ∙ one.1)

    bind_param-entries :
        (p : DeclaredParam) (l : List DeclaredParam) (b : Binding Real)
        → (signals_of (bind_param clear signals p b).inputs ++ given_params signals l
            ≡ signals_of b.inputs ++ given_params signals (p ∷ l))
          × (signals_of (bind_param clear signals p b).outputs ++ taken_params signals l
              ≡ signals_of b.outputs ++ taken_params signals (p ∷ l))
          × ((bind_param clear signals p b).params_published + length (given_params signals l)
              ≡ b.params_published + length (given_params signals (p ∷ l)))
          × ((bind_param clear signals p b).params_writable + length (taken_params signals l)
              ≡ b.params_writable + length (taken_params signals (p ∷ l)))
    unfolding bind_param
    bind_param-entries p l b = elim (Bool-cases (pin_named p.name true signals)) [
      | inl hidden ↦ rw hidden (refl, refl, refl, refl)
      | inr free ↦ elim (Bool-cases (p.writable && not (pin_named p.name false signals))) [
        | inl both ↦
            rw (free, both)
              (
                signals_of-snoc b.inputs _ _,
                signals_of-snoc b.outputs _ _,
                omega arith,
                omega arith,
              )
        | inr only ↦ rw (free, only) (signals_of-snoc b.inputs _ _, refl, omega arith, refl)
      ]
    ]

    pub bind_params-entries :
        (l : List DeclaredParam) (b : Binding Real)
        → (signals_of (bind_params clear signals l b).inputs
            ≡ signals_of b.inputs ++ given_params signals l)
          × (signals_of (bind_params clear signals l b).outputs
              ≡ signals_of b.outputs ++ taken_params signals l)
          × ((bind_params clear signals l b).params_published
              ≡ b.params_published + length (given_params signals l))
          × ((bind_params clear signals l b).params_writable
              ≡ b.params_writable + length (taken_params signals l))
    unfolding bind_params
    bind_params-entries [] b = (sym (append-nil _), sym (append-nil _), omega arith, omega arith)
    bind_params-entries (p ∷ l) b =
        let one = bind_param-entries p l b in
        let rest = bind_params-entries l (bind_param clear signals p b) in
        (rest.0 ∙ one.0, rest.1 ∙ one.1, rest.2 ∙ one.2, rest.3 ∙ one.3)
