-- ===== src/Host/Config/Allowed.antt =====
-- Which lines of the configuration file are understood, and that every line which sets something is
-- one of them (host/config.c).
use driver_hostmot.Base.{
  ℕ, ◌≡◌, ◌⊎◌, inl, inr, refl, subst, Bool, true, false, ◌||◌, ◌&&◌, not, ltb, ◌==◌, if◌then◌else◌,
  some, List, [], ◌∷◌, Text, arith, length, str_eq, eq_of_str_eq, Bool-cases, Option-cases, drop,
  starts_with, codes,
}
use driver_hostmot.Double.{Double}
use driver_hostmot.Host.Config.Lines.{blank, setting, read_line}
use driver_hostmot.Host.Config.Keys.{
  Libc, Config, split_index, add_module_param, parse_pin_value, set_scalar, set_key,
}

-- The keys that host/hm2_host.h and README.md list beside the three name spaces.
abbrev pub known_keys : List Text
known_keys =
    codes "region"
    ∷ codes "transport"
    ∷ codes "axes"
    ∷ codes "cycle_us"
    ∷ codes "worst_case_cycle_ns"
    ∷ codes "measure_cycles"
    ∷ codes "worst_case_margin"
    ∷ codes "sserial_transfer_us"
    ∷ codes "core_watchdog_cycles"
    ∷ codes "response_watchdog_cycles"
    ∷ codes "drive_watchdog_us"
    ∷ codes "spin_iterations"
    ∷ codes "send_deadline"
    ∷ codes "same_cycle"
    ∷ codes "arena_bytes"
    ∷ codes "max_signals"
    ∷ codes "max_functs"
    ∷ codes "log_level"
    ∷ codes "rt_priority"
    ∷ codes "cpu_affinity"
    ∷ []

pub is_one_of : Text → List Text → Bool
is_one_of key [] = false
is_one_of key (k ∷ rest) = str_eq key k || is_one_of key rest

module _ (d : Double) (c : Libc d) where
  open d use {Real}

  -- `true`, `false`, or a finite number that `strtod` reads to its end without an error.
  pub is_pin_value : Text → Bool
  is_pin_value text =
      is_one_of text (codes "true" ∷ codes "false" ∷ [])
      || (let (value, taken, failed) = c.strtod text in
          ltb 0 taken && (taken == length text && (not failed && c.isfinite value)))

  -- What README.md and host/hm2_host.h allow for a key: a module parameter whose name, less its
  -- index, and value fit, any HAL parameter, a pin with a value, `same_cycle` with a word or a
  -- digit, and the other known keys.
  pub is_allowed : Text → Text → Bool
  is_allowed key value =
      if starts_with (codes "module.") key
      then ltb (length (split_index d c (drop 7 key)).0) 128 && ltb (length value) 256
      else if starts_with (codes "param.") key
      then true
      else if starts_with (codes "pin.") key
      then is_pin_value value
      else if str_eq key (codes "same_cycle")
      then is_one_of value (codes "true" ∷ codes "1" ∷ codes "false" ∷ codes "0" ∷ [])
      else is_one_of key known_keys

  -- A line is blank, a comment, or sets a known key to a value that the key allows.
  abbrev pub IsUnderstood : Text → Type 0
  IsUnderstood chunk =
      (read_line chunk ≡ blank)
      ⊎ ((key : Text) × (value : Text) × (read_line chunk ≡ setting key value)
          × (is_allowed key value ≡ true))

  set_scalar-known :
      (key value : Text) (g g' : Config Real)
      → set_scalar d c key value g ≡ some g'
      → is_one_of key known_keys ≡ true
  unfolding set_scalar is_one_of
  set_scalar-known key value g g' e = ground arith

  set_scalar-same_cycle :
      (key value : Text) (g g' : Config Real)
      → str_eq key (codes "same_cycle") ≡ true
      → set_scalar d c key value g ≡ some g'
      → is_one_of value (codes "true" ∷ codes "1" ∷ codes "false" ∷ codes "0" ∷ []) ≡ true
  unfolding set_scalar is_one_of str_eq
  set_scalar-same_cycle key value g g' same e =
      let here : set_scalar d c (codes "same_cycle") value g ≡ some g' =
        subst (λ k. set_scalar d c k value g ≡ some g') (eq_of_str_eq key (codes "same_cycle") same)
          e in
      ground arith

  parse_pin_value-some :
      (value : Text) (x : Real) → parse_pin_value d c value ≡ some x → is_pin_value value ≡ true
  unfolding parse_pin_value is_pin_value is_one_of
  parse_pin_value-some value x e = ground arith

  add_module_param-fits :
      (ok : Bool) (name value : Text) (g g' : Config Real)
      → add_module_param d c ok name value g ≡ some g'
      → (ltb (length (split_index d c name).0) 128 && ltb (length value) 256) ≡ true
  unfolding add_module_param
  add_module_param-fits ok name value g g' e = ground arith

  pub set_key-allowed :
      (ok : Bool) (line : ℕ) (key value : Text) (g g' : Config Real)
      → set_key d c ok line key value g ≡ some g'
      → is_allowed key value ≡ true
  unfolding set_key is_allowed
  set_key-allowed ok line key value g g' e = elim (Bool-cases (starts_with (codes "module.") key)) [
    | inl m ↦ rw m (add_module_param-fits ok (drop 7 key) value g g' (rw m at e))
    | inr m ↦ elim (Bool-cases (starts_with (codes "param.") key)) [
      | inl p ↦ rw (m, p) refl
      | inr p ↦ elim (Bool-cases (starts_with (codes "pin.") key)) [
        | inl q ↦ elim (Option-cases (parse_pin_value d c value)) [
          | inl bad ↦ absurd (ground arith)
          | inr (x, good) ↦ rw (m, p, q) (parse_pin_value-some value x good)
        ]
        | inr q ↦
            let scalar : set_scalar d c key value g ≡ some g' = rw (m, p, q) at e in
            elim (Bool-cases (str_eq key (codes "same_cycle"))) [
              | inl same ↦ rw (m, p, q, same) (set_scalar-same_cycle key value g g' same scalar)
              | inr other ↦ rw (m, p, q, other) (set_scalar-known key value g g' scalar)
            ]
      ]
    ]
  ]
