-- ===== src/Shim/Driver/Named.antt =====
-- A call adds no name to the tables of pins and of parameters but the whole one that it gives.
use driver_hostmot.Base.{
  update, arith, ◌≡◌, inl, inr, refl, sym, subst, Bool, true, false, Option, none, some, List, [],
  ◌∷◌, ◌++◌, Text, ℕ, All, All-append, Bool-cases, Option-cases, length, ◌==◌, leb,
}
use mathlib.Core.Option.{some-injective}
use driver_hostmot.Double.{Double}
use driver_hostmot.Shim.Types.{ShimType, Status, done, Signal, has_wo}
use driver_hostmot.Shim.Arena.{hal_malloc}
use driver_hostmot.Base.Int.{pos}
use driver_hostmot.Shim.State.{Shim, hm2_shim_init}
use driver_hostmot.Shim.Params.{
  Params, DeclaredParam, hm2_shim_param_lookup, hm2_shim_note_param, find_param,
}
use driver_hostmot.Shim.Components.{max_components, hal_init, hal_exit, hal_ready}
use driver_hostmot.Shim.Pins.{
  name_and_cell, publish_pin, new_pin, new_param, hal_param_new_fake, hal_export_functf, arena_name,
  configured_word,
}
use driver_hostmot.Shim.Pins.Declare.{name_and_cell-tables, name_and_cell-some}
use driver_hostmot.Shim.Driver.{
  Call, init, exit, ready, malloc, pin, param, param_fake, export, store, call, calls,
}
use driver_hostmot.Shim.Driver.Tables.{publish_pin-All}
use driver_hostmot.Shim.Driver.Kept.{IsDriven}
use driver_hostmot.Shim.Driver.Invariant.{call-IsDriven}

looked_up :
    {Real : Type 0} (name : Text) (p : Params Real)
    → (hm2_shim_param_lookup name p).1.declared ≡ p.declared
unfolding hm2_shim_param_lookup
looked_up name p = elim (Option-cases (find_param name 0 p.configured)) [
  | inl e ↦ rw (e, hm2_shim_param_lookup) refl
  | inr (found, e) ↦ rw (e, hm2_shim_param_lookup) refl
]

module _ {F : Type 0} where
  export-signals :
      (f : Option F) (fp : Bool) (text : Option Text) (s : Shim F)
      → (hal_export_functf f fp text s).1.signals ≡ s.signals
  unfolding hal_export_functf
  export-signals none fp text s = refl
  export-signals (some f) fp text s = elim (Bool-cases (leb s.funct_capacity (length s.functs))) [
    | inl full ↦ rw full refl
    | inr room ↦ elim (Option-cases (arena_name text s.arena).0) [
      | inl e ↦ rw (room, e) refl
      | inr (n, e) ↦ rw (room, e) refl
    ]
  ]

  fake-signals : (refs : Bool) (s : Shim F) → (hal_param_new_fake refs s).2.signals ≡ s.signals
  unfolding hal_param_new_fake
  fake-signals false s = refl
  fake-signals true s = elim (Option-cases (hal_malloc (pos 8) s.arena).0) [
    | inl e ↦ rw e refl
    | inr (at, e) ↦ rw e refl
  ]

  init-signals : (name : Option Text) (s : Shim F) → (hal_init name s).1.signals ≡ s.signals
  unfolding hal_init
  init-signals none s = refl
  init-signals (some name) s = elim (Bool-cases (leb max_components (length s.components))) [
    | inl full ↦ rw full refl
    | inr room ↦ rw room refl
  ]

module _ (P Q : Text → Type 0) where
  -- A name that is given meets `R`.
  abbrev pub Meets : (Text → Type 0) → Option Text → Type 0
  Meets R none = Unit
  Meets R (some t) = R t

  -- The name that a call gives to a pin meets `P`, the one that it gives to a parameter `Q`.
  abbrev pub Gives : {F : Type 0} → Call F → Type 0
  Gives (pin ref dir type w text) = Meets P text
  Gives (param ref dir type w text grows) = Meets Q text
  Gives _ = Unit

  Meets-some :
      (R : Text → Type 0) (text : Option Text) (t : Text) → Meets R text → text ≡ some t → R t
  Meets-some R none t h e = absurd (ground arith)
  Meets-some R (some u) t h e = subst R (some-injective _ _ e) h

  module _ {F Real : Type 0} where
    pub record AreNamed (w : Shim F × Params Real) : Type 0 where
      pub pins : All (λ (g : Signal). P g.name) w.0.signals
      pub params : All (λ (q : DeclaredParam). Q q.name) w.1.declared

    status-named :
        (status : Status) (at : ℕ) (s : Shim F) (p : Params Real)
        → AreNamed (s, p)
        → AreNamed (
          (elim status as (λ _. Status × Option ℕ × Shim F) [
            | done ↦ (done, some at, s)
            | other ↦ (other, none, s)
          ]).2,
          p,
        )
    status-named done at s p h = h
    status-named _ at s p h = h

    new_pin-named :
        (ref : Bool) (dir : ℕ) (type : ShimType) (w : ℕ) (text : Option Text) (s : Shim F)
        (p : Params Real)
        → IsDriven (s, p)
        → Meets P text
        → AreNamed (s, p)
        → AreNamed ((new_pin ref dir type w text s).2, p)
    unfolding new_pin
    new_pin-named false dir type w text s p v gives h = h
    new_pin-named true dir type w text s p v gives h =
        let s' = (name_and_cell text w s).1 in
        let kept : All (λ (g : Signal). P g.name) s'.signals =
          rw ((name_and_cell-tables text w s).0) (h.pins) in
        elim (Option-cases (name_and_cell text w s).0) [
          | inl e ↦ rw e (record { pins = kept; params = h.params })
          | inr ((name, at), e) ↦
              let whole = name_and_cell-some text w s name at v.table.arena e in
              rw e (
                status-named (publish_pin dir name type at s').0 at
                  (publish_pin dir name type at s').1 p
                  (record {
                    pins =
                        publish_pin-All (λ (g : Signal). P g.name) dir name type at s' kept
                          (λ d. Meets-some P text name gives whole.0);
                    params = h.params;
                  }))
        ]

    note-named :
        (grows : Bool) (q : DeclaredParam) (s : Shim F) (p : Params Real)
        → Q q.name
        → AreNamed (s, p)
        → AreNamed (s, hm2_shim_note_param grows q p)
    unfolding hm2_shim_note_param
    note-named grows q s p named h = elim (Bool-cases (length p.declared == p.capacity)) [
      | inl full ↦ elim (Bool-cases grows) [
        | inl more_room ↦ rw (full, more_room) (record { pins = h.pins; params = longer })
        | inr same ↦ rw (full, same) h
      ]
      | inr room ↦ rw room (record { pins = h.pins; params = longer })
    ]
      where
        longer : All (λ (r : DeclaredParam). Q r.name) (p.declared ++ q ∷ [])
        longer =
            All-append (λ (r : DeclaredParam). Q r.name) p.declared (q ∷ []) h.params (named, tt)

    same-named :
        (s s' : Shim F) (p : Params Real)
        → s'.signals ≡ s.signals
        → AreNamed (s, p)
        → AreNamed (s', p)
    same-named s s' p e h = record {
      pins = subst (All (λ (g : Signal). P g.name)) (sym e) h.pins;
      params = h.params;
    }

  module _ (d : Double) {F : Type 0} where
    set-named :
        (type : ShimType) (at : ℕ) (found : Option d.Real) (s : Shim F) (p : Params d.Real)
        → AreNamed (s, p)
        → AreNamed (
          elim found as (λ _. Shim F) [
            | none ↦ s
            | some value ↦ record s { memory = update s.memory at (configured_word d type value) }
          ],
          p,
        )
    set-named type at none s p h = h
    set-named type at (some value) s p h = record { pins = h.pins; params = h.params }

    new_param-named :
        (ref : Bool) (dir : ℕ) (type : ShimType) (w : ℕ) (text : Option Text) (grows : Bool)
        (s : Shim F) (p : Params d.Real)
        → IsDriven (s, p)
        → Meets Q text
        → AreNamed (s, p)
        → AreNamed (
          (new_param d ref dir type w text grows s p).2,
          (new_param d ref dir type w text grows s p).3,
        )
    unfolding new_param
    new_param-named false dir type w text grows s p v gives h = h
    new_param-named true dir type w text grows s p v gives h =
        let s' : Shim F = (name_and_cell text w s).1 in
        let kept = same-named s s' p (name_and_cell-tables text w s).0 h in
        elim (Option-cases (name_and_cell text w s).0) [
          | inl e ↦ rw e kept
          | inr ((name, at), e) ↦
              let named =
                Meets-some Q text name gives
                  (name_and_cell-some text w s name at v.table.arena e).0 in
              let p' : Params d.Real = (hm2_shim_param_lookup name p).1 in
              rw e (
                note-named grows
                  (record { name = name; type = type; cell = at; writable = has_wo dir }) _ p' named
                  (set-named type at (hm2_shim_param_lookup name p).0 s' p' (record {
                    pins = kept.pins;
                    params =
                        subst (All (λ (q : DeclaredParam). Q q.name)) (sym (looked_up name p))
                          kept.params;
                  })))
        ]

    call-named :
        (c : Call F) (w : Shim F × Params d.Real)
        → IsDriven w
        → Gives c
        → AreNamed w
        → AreNamed (call d c w)
    unfolding call hal_exit hal_ready
    call-named (init name) (s, p) v gives h = same-named s _ p (init-signals name s) h
    call-named (exit id) (s, p) v gives h = same-named s _ p refl h
    call-named (ready id) (s, p) v gives h = same-named s _ p refl h
    call-named (malloc n) (s, p) v gives h = same-named s _ p refl h
    call-named (pin ref dir type w text) (s, p) v gives h =
        new_pin-named ref dir type w text s p v gives h
    call-named (param ref dir type w text grows) (s, p) v gives h =
        new_param-named ref dir type w text grows s p v gives h
    call-named (param_fake refs) (s, p) v gives h = same-named s _ p (fake-signals refs s) h
    call-named (export f fp text) (s, p) v gives h = same-named s _ p (export-signals f fp text s) h
    call-named (store at word) (s, p) v gives h = same-named s _ p refl h

    pub calls-named :
        (l : List (Call F)) (w : Shim F × Params d.Real)
        → IsDriven w
        → All Gives l
        → AreNamed w
        → AreNamed (calls d l w)
    unfolding calls
    calls-named [] w v gives h = h
    calls-named (c ∷ l) w v gives h =
        calls-named l (call d c w) (call-IsDriven d c w v) gives.1 (call-named c w v gives.0 h)

module _ (P Q : Text → Type 0) (d : Double) {F : Type 0} where
  pub fresh-named :
      (a g f : Bool) (bytes max_signals max_functs : ℕ) (s : Shim F) (p : Params d.Real)
      → (hm2_shim_init a g f bytes max_signals max_functs s).0 ≡ true
      → p.declared ≡ []
      → AreNamed P Q ((hm2_shim_init a g f bytes max_signals max_functs s).1, p)
  unfolding hm2_shim_init
  fresh-named true true true bytes max_signals max_functs s p ok none_yet = record {
    pins = tt;
    params = rw none_yet tt;
  }
  fresh-named false g f bytes max_signals max_functs s p ok none_yet = absurd (ground arith)
  fresh-named true false f bytes max_signals max_functs s p ok none_yet = absurd (ground arith)
  fresh-named true true false bytes max_signals max_functs s p ok none_yet = absurd (ground arith)
