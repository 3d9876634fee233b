-- ===== src/Host/Config/Accepted.antt =====
-- What holds of every configuration that `hm2_config_load` accepts.
use driver_hostmot.Base.{
  ℕ, ◌+◌, ◌≤◌, ◌<◌, ◌≡◌, ◌≢◌, ◌⊎◌, inl, inr, refl, subst, Bool, true, false, some, List, [], ◌∷◌,
  ◌++◌, Text, arith, length, All, All-append, str_eq, str_eq_refl, Bool-cases, Option-cases, drop,
  starts_with, codes,
}
use driver_hostmot.Base.Int.{pos}
use driver_hostmot.Double.{Double}
use driver_hostmot.Host.FixedPins.{PinLine}
use driver_hostmot.Host.FixedPins.Laws.{NamesDiffer}
use driver_hostmot.Host.Config.Lines.{Line, blank, no_equals, setting, read_line}
use driver_hostmot.Host.Config.Keys.{
  Libc, Config, ModuleParam, has_pin, split_index, add_module_param, add_hal_param, add_pin,
  parse_pin_value, set_scalar, set_key, defaults,
}
use driver_hostmot.Host.Config.Allowed.{IsUnderstood, set_key-allowed}
use driver_hostmot.Host.Config.Load.{take_line, take_lines, acceptable, hm2_config_load}

-- The name and the value fit the arrays of `struct hm2_module_param`, closing NULs included.
abbrev pub Fits : ModuleParam → Type 0
Fits m = (length m.name < 128) × (length m.value < 256)

-- What the lines keep of a configuration.
pub record IsTidy {Real : Type 0} (g : Config Real) : Type 0 where
  pub pins : NamesDiffer g.pins
  pub modules : All Fits g.module_params

NamesDiffer-snoc :
    {Real : Type 0} (l : List (PinLine Real)) (p : PinLine Real)
    → NamesDiffer l
    → has_pin p.name l ≡ false
    → NamesDiffer (l ++ p ∷ [])
unfolding has_pin
NamesDiffer-snoc [] p h e = (tt, tt)
NamesDiffer-snoc (q ∷ l) p h e = (
  All-append (λ r. q.name ≢ r.name) l (p ∷ []) h.0 (differ, tt),
  NamesDiffer-snoc l p h.1 (ground arith),
)
  where
    differ : q.name ≢ p.name
    differ same = cc (subst (λ t. str_eq q.name t ≡ true) same (str_eq_refl q.name), first)
      where
        first : str_eq q.name p.name ≡ false
        first = ground arith

module _ (d : Double) (c : Libc d) where
  open d use {Real}

  set_scalar-same :
      (key value : Text) (g g' : Config Real)
      → set_scalar d c key value g ≡ some g'
      → (g'.pins ≡ g.pins) × (g'.module_params ≡ g.module_params)
  unfolding set_scalar
  set_scalar-same key value g g' e = ground arith

  add_module_param-IsTidy :
      (ok : Bool) (name value : Text) (g g' : Config Real)
      → IsTidy g
      → add_module_param d c ok name value g ≡ some g'
      → IsTidy g'
  unfolding add_module_param
  add_module_param-IsTidy ok name value g g' v e =
      let m : ModuleParam = record {
        name = (split_index d c name).0;
        index = (split_index d c name).1;
        value = value;
      } in
      let fits : Fits m = ground arith in
      let same : record g { module_params = g.module_params ++ m ∷ [] } ≡ g' = ground arith in
      subst IsTidy same (record {
        pins = v.pins;
        modules = All-append Fits g.module_params (m ∷ []) v.modules (fits, tt);
      })

  add_pin-IsTidy :
      (ok : Bool) (name : Text) (value : Real) (line : ℕ) (g g' : Config Real)
      → IsTidy g
      → add_pin d c ok name value line g ≡ some g'
      → IsTidy g'
  unfolding add_pin
  add_pin-IsTidy ok name value line g g' v e =
      let p : PinLine Real = record { name = name; value = value; line = line } in
      let free : has_pin name g.pins ≡ false = ground arith in
      let same : record g { pins = g.pins ++ p ∷ [] } ≡ g' = ground arith in
      subst IsTidy same
        (record { pins = NamesDiffer-snoc g.pins p v.pins free; modules = v.modules })

  add_hal_param-IsTidy :
      (ok : Bool) (name : Text) (value : Real) (g g' : Config Real)
      → IsTidy g
      → add_hal_param d c ok name value g ≡ some g'
      → IsTidy g'
  unfolding add_hal_param
  add_hal_param-IsTidy ok name value g g' v e =
      let same : record g { params = g.params ++ (name, value) ∷ [] } ≡ g' = ground arith in
      subst IsTidy same (record { pins = v.pins; modules = v.modules })

  set_key-IsTidy :
      (ok : Bool) (line : ℕ) (key value : Text) (g g' : Config Real)
      → IsTidy g
      → set_key d c ok line key value g ≡ some g'
      → IsTidy g'
  unfolding set_key
  set_key-IsTidy ok line key value g g' v e =
      elim (Bool-cases (starts_with (codes "module.") key)) [
        | inl m ↦ add_module_param-IsTidy ok (drop 7 key) value g g' v (rw m at e)
        | inr m ↦ elim (Bool-cases (starts_with (codes "param.") key)) [
          | inl p ↦ add_hal_param-IsTidy ok (drop 6 key) (c.strtod value).0 g g' v (rw (m, p) at e)
          | inr p ↦ elim (Bool-cases (starts_with (codes "pin.") key)) [
            | inl q ↦ elim (Option-cases (parse_pin_value d c value)) [
              | inl bad ↦ absurd (ground arith)
              | inr (x, good) ↦
                  add_pin-IsTidy ok (drop 4 key) x line g g' v (rw (m, p, q, good) at e)
            ]
            | inr q ↦
                let same = set_scalar-same key value g g' (rw (m, p, q) at e) in
                record { pins = rw (same.0) v.pins; modules = rw (same.1) v.modules }
          ]
        ]
      ]

  -- What a line does to the configuration, and that one which is not understood is counted.
  record IsTaken (chunk : Text) (failures : ℕ) (r : Config Real × ℕ) : Type 0 where
    tidy : IsTidy r.0
    failures_le : failures ≤ r.1
    understood : (r.1 ≡ failures) → IsUnderstood d c chunk

  take_line-IsTaken :
      (ok : Bool) (number : ℕ) (chunk : Text) (g : Config Real) (failures : ℕ)
      → IsTidy g
      → IsTaken chunk failures (take_line d c ok number chunk (g, failures))
  take_line-IsTaken ok number chunk g failures v = by_line (read_line chunk) refl
    where
      by_line :
          (l : Line)
          → read_line chunk ≡ l
          → IsTaken chunk failures (take_line d c ok number chunk (g, failures))
      by_line blank e =
          unfold take_line in
          rw (e, take_line)
            (record { tidy = v; failures_le = omega arith; understood = λ h. inl e })
      by_line no_equals e =
          unfold take_line in
          rw (e, take_line)
            (record { tidy = v; failures_le = omega arith; understood = λ h. absurd (omega arith) })
      by_line (setting key value) e = elim (Option-cases (set_key d c ok number key value g)) [
        | inl bad ↦
            unfold take_line in
            rw (e, bad, take_line)
              (record {
                tidy = v;
                failures_le = omega arith;
                understood = λ h. absurd (omega arith);
              })
        | inr (g', good) ↦
            unfold take_line in
            rw (e, good, take_line)
              (record {
                tidy = set_key-IsTidy ok number key value g g' v good;
                failures_le = omega arith;
                understood =
                    λ h. inr (key, value, e, set_key-allowed d c ok number key value g g' good);
              })
      ]

  take_lines-IsTaken :
      (ok : ℕ → Bool) (number : ℕ) (l : List Text) (g : Config Real) (failures : ℕ)
      → IsTidy g
      → let r = take_lines d c ok number l (g, failures) in
        IsTidy r.0 × (failures ≤ r.1) × (r.1 ≡ failures → All (IsUnderstood d c) l)
  unfolding take_lines
  take_lines-IsTaken ok number [] g failures v = (v, omega arith, λ h. tt)
  take_lines-IsTaken ok number (chunk ∷ l) g failures v =
      let one = take_line-IsTaken (ok (number + 1)) (number + 1) chunk g failures v in
      let r = take_line d c (ok (number + 1)) (number + 1) chunk (g, failures) in
      let rest = take_lines-IsTaken ok (number + 1) l r.0 r.1 one.tidy in
      (
        rest.0,
        omega (arith, one.failures_le),
        λ h. (
          one.understood (omega (arith, one.failures_le)),
          rest.2 (omega (arith, one.failures_le)),
        ),
      )

  -- What the checks after the file ask for.
  pub record IsUsable (g : Config Real) : Type 0 where
    pub cycle : 0 < g.cycle_us
    pub measured : (0 < g.worst_case_cycle_ns) ⊎ (10 ≤ g.measure_cycles)
    pub margin : d.le (d.of_int (pos 1)) g.worst_case_margin ≡ true
    pub transfer : g.sserial_transfer_us < g.cycle_us
    pub deadline_above : d.le g.send_deadline (d.of_int (pos 0)) ≡ false
    pub deadline_below : d.le (d.of_int (pos 1)) g.send_deadline ≡ false

  acceptable-IsUsable : (g : Config Real) → acceptable d c g ≡ true → IsUsable g
  unfolding acceptable
  acceptable-IsUsable g h = ground arith

  -- Of an accepted file, whatever the allocations did, every line is blank, a comment, or sets a
  -- known key to a value that the key allows: a pin to `true`, `false` or a finite number that is
  -- read to its end, `same_cycle` to true, 1, false or 0, a module parameter to a text that fits,
  -- and the others to any text.
  -- The configuration meets every check, with one value for a pin and module parameters that fit.
  pub hm2_config_load_lem :
      (ok : ℕ → Bool) (lines : List Text) (g : Config Real)
      → hm2_config_load d c ok (some lines) ≡ some g
      → IsUsable g × IsTidy g × All (IsUnderstood d c) lines
  unfolding hm2_config_load defaults
  hm2_config_load_lem ok lines g e =
      let r = take_lines d c ok 0 lines (defaults d c, 0) in
      let taken =
        take_lines-IsTaken ok 0 lines (defaults d c) 0 (record { pins = tt; modules = tt }) in
      let none_failed : r.1 ≡ 0 = ground arith in
      let good : acceptable d c r.0 ≡ true = ground arith in
      let same : r.0 ≡ g = ground arith in
      (
        subst IsUsable same (acceptable-IsUsable r.0 good),
        subst IsTidy same taken.0,
        taken.2 none_failed,
      )
