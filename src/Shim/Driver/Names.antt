-- ===== src/Shim/Driver/Names.antt =====
-- The names in the tables of pins and of parameters are the whole names that the driver gave.
use driver_hostmot.Base.{
  ◌<◌, ◌^◌, ◌≡◌, ◌⊎◌, inl, inr, refl, Bool, true, none, some, List, [], ◌∷◌, Text, ℕ, All,
}
use driver_hostmot.Double.{Double}
use driver_hostmot.Shim.Types.{Signal}
use driver_hostmot.Shim.State.{Shim, hm2_shim_init}
use driver_hostmot.Shim.Params.{Params, DeclaredParam}
use driver_hostmot.Shim.Driver.{
  Call, init, exit, ready, malloc, pin, param, param_fake, export, store, calls,
}
use driver_hostmot.Shim.Driver.Kept.{IsDriven}
use driver_hostmot.Shim.Driver.Invariant.{calls-IsDriven, fresh-IsDriven}
use driver_hostmot.Shim.Driver.Named.{Gives, calls-named, fresh-named}

-- One of the texts.
abbrev pub IsOneOf : Text → List Text → Type 0
IsOneOf t [] = ⊥
IsOneOf t (u ∷ l) = (t ≡ u) ⊎ IsOneOf t l

-- The names that a list of calls gives to pins, and to parameters.
abbrev pub pin_names : {F : Type 0} → List (Call F) → List Text
pin_names [] = []
pin_names (pin ref dir type w (some t) ∷ l) = t ∷ pin_names l
pin_names (_ ∷ l) = pin_names l

abbrev pub param_names : {F : Type 0} → List (Call F) → List Text
param_names [] = []
param_names (param ref dir type w (some t) grows ∷ l) = t ∷ param_names l
param_names (_ ∷ l) = param_names l

-- A name that is in a list is in a longer one, and every call gives names of its own list.
IsOneOf-Gives :
    {F : Type 0} (front l : List (Call F))
    → ((t : Text) → IsOneOf t (pin_names l) → IsOneOf t (pin_names front))
    → ((t : Text) → IsOneOf t (param_names l) → IsOneOf t (param_names front))
    → All (Gives (λ t. IsOneOf t (pin_names front)) (λ t. IsOneOf t (param_names front))) l
IsOneOf-Gives front [] more_pins more_params = tt
IsOneOf-Gives front (pin ref dir type w (some t) ∷ l) more_pins more_params =
    (more_pins t (inl refl), IsOneOf-Gives front l (λ u h. more_pins u (inr h)) more_params)
IsOneOf-Gives front (param ref dir type w (some t) grows ∷ l) more_pins more_params =
    (more_params t (inl refl), IsOneOf-Gives front l more_pins (λ u h. more_params u (inr h)))
IsOneOf-Gives front (pin ref dir type w none ∷ l) more_pins more_params =
    (tt, IsOneOf-Gives front l more_pins more_params)
IsOneOf-Gives front (param ref dir type w none grows ∷ l) more_pins more_params =
    (tt, IsOneOf-Gives front l more_pins more_params)
IsOneOf-Gives front (init name ∷ l) more_pins more_params =
    (tt, IsOneOf-Gives front l more_pins more_params)
IsOneOf-Gives front (exit id ∷ l) more_pins more_params =
    (tt, IsOneOf-Gives front l more_pins more_params)
IsOneOf-Gives front (ready id ∷ l) more_pins more_params =
    (tt, IsOneOf-Gives front l more_pins more_params)
IsOneOf-Gives front (malloc n ∷ l) more_pins more_params =
    (tt, IsOneOf-Gives front l more_pins more_params)
IsOneOf-Gives front (param_fake refs ∷ l) more_pins more_params =
    (tt, IsOneOf-Gives front l more_pins more_params)
IsOneOf-Gives front (export f fp text ∷ l) more_pins more_params =
    (tt, IsOneOf-Gives front l more_pins more_params)
IsOneOf-Gives front (store at word ∷ l) more_pins more_params =
    (tt, IsOneOf-Gives front l more_pins more_params)

module _ (d : Double) {F : Type 0} where
  -- Whatever the driver calls, in whatever order, after an `hm2_shim_init` that succeeded with an
  -- arena below 2^63 bytes and with no parameter declared yet, and whichever calls fail: the table
  -- of pins is within its capacity, its names fit HAL's length and its cells are in the arena and
  -- apart; every declared parameter has a cell in the arena that is no pin's and no other
  -- parameter's; and each name in the two tables is the whole name that one of the calls gave.
  pub start_and_calls-IsDriven :
      (a g f : Bool) (bytes max_signals max_functs : ℕ) (s : Shim F) (l : List (Call F))
      (p : Params d.Real)
      → bytes < 2 ^ 63
      → (hm2_shim_init a g f bytes max_signals max_functs s).0 ≡ true
      → p.declared ≡ []
      → let w = calls d l ((hm2_shim_init a g f bytes max_signals max_functs s).1, p) in
        IsDriven w
        × All (λ (h : Signal). IsOneOf h.name (pin_names l)) w.0.signals
        × All (λ (q : DeclaredParam). IsOneOf q.name (param_names l)) w.1.declared
  start_and_calls-IsDriven a g f bytes max_signals max_functs s l p fits ok none_yet =
      let start = fresh-IsDriven d a g f bytes max_signals max_functs s p fits ok none_yet in
      let P : Text → Type 0 = λ t. IsOneOf t (pin_names l) in
      let Q : Text → Type 0 = λ t. IsOneOf t (param_names l) in
      let named =
        calls-named P Q d l _ start (IsOneOf-Gives l l (λ t h. h) (λ t h. h))
          (fresh-named P Q d a g f bytes max_signals max_functs s p ok none_yet) in
      (calls-IsDriven d l _ start, named.pins, named.params)
