-- ===== src/Shim/Driver/Invariant.antt =====
-- What holds of the tables of pins and of parameters whatever the driver calls.
use driver_hostmot.Base.{
  ℕ, ◌<◌, ◌^◌, ◌≡◌, ◌≢◌, update, Bool, true, false, Option, none, some, List, [], ◌∷◌, Text, arith,
  leb, length, All, All-imp, Bool-cases, Option-cases, inl, inr,
}
use driver_hostmot.Double.{Double}
use driver_hostmot.Shim.Types.{ShimType, has_wo, Signal}
use driver_hostmot.Shim.Arena.{hal_malloc}
use driver_hostmot.Shim.Arena.Blocks.{hal_malloc-IsSound, used-le-hal_malloc}
use driver_hostmot.Shim.State.{Shim, hm2_shim_init}
use driver_hostmot.Shim.Params.{Params, DeclaredParam, hm2_shim_param_lookup, hm2_shim_note_param}
use driver_hostmot.Shim.Components.{max_components, hal_init, hal_exit, hal_ready}
use driver_hostmot.Shim.Pins.{name_and_cell, new_param, configured_word}
use driver_hostmot.Shim.Pins.Declare.{name_and_cell-tables, name_and_cell-some}
use driver_hostmot.Shim.Pins.Invariant.{IsPlaced, cell-ne}
use driver_hostmot.Shim.Driver.{
  Call, init, exit, ready, malloc, pin, param, param_fake, export, store, call, calls,
}
use driver_hostmot.Shim.Driver.Tables.{IsParam}
use driver_hostmot.Shim.Driver.Kept.{
  IsDriven, note-IsDriven, arena-IsDriven, memory-IsDriven, lookup-IsDriven, name_and_cell-IsDriven,
  new_pin-IsDriven, hal_param_new_fake-IsDriven, components-IsDriven, hal_export_functf-IsDriven,
}

module _ (d : Double) {F : Type 0} where
  note_set :
      (type : ShimType) (at : ℕ) (grows : Bool) (q : DeclaredParam) (found : Option d.Real)
      (s : Shim F) (p : Params d.Real)
      → IsDriven (s, p)
      → IsParam s q
      → All (λ (r : DeclaredParam). r.cell ≢ q.cell) p.declared
      → IsDriven (
        elim found as (λ _. Shim F) [
          | none ↦ s
          | some value ↦ record s { memory = update s.memory at (configured_word d type value) }
        ],
        hm2_shim_note_param grows q p,
      )
  note_set type at grows q none s p v h a = note-IsDriven grows q s p v h a
  note_set type at grows q (some value) s p v h a =
      let m : ℕ → ℕ = update s.memory at (configured_word d type value) in
      note-IsDriven grows q (record s { memory = m }) p (memory-IsDriven m s p v) h a

  new_param-IsDriven :
      (ref : Bool) (dir : ℕ) (type : ShimType) (w : ℕ) (text : Option Text) (grows : Bool)
      (s : Shim F) (p : Params d.Real)
      → IsDriven (s, p)
      → IsDriven (
        (new_param d ref dir type w text grows s p).2,
        (new_param d ref dir type w text grows s p).3,
      )
  unfolding new_param
  new_param-IsDriven false dir type w text grows s p v = v
  new_param-IsDriven true dir type w text grows s p v =
      elim (Option-cases (name_and_cell text w s).0) [
        | inl e ↦ rw e (name_and_cell-IsDriven text w s p v)
        | inr ((name, at), e) ↦
            let fresh = name_and_cell-some text w s name at v.table.arena e in
            let looked =
              lookup-IsDriven name (name_and_cell text w s).1 p
                (name_and_cell-IsDriven text w s p v) in
            rw e (
              note_set type at grows
                (record { name = name; type = type; cell = at; writable = has_wo dir })
                (hm2_shim_param_lookup name p).0 (name_and_cell text w s).1
                (hm2_shim_param_lookup name p).1 looked.0
                (
                  fresh.4,
                  fresh.1,
                  rw ((name_and_cell-tables text w s).0) (
                      All-imp (IsPlaced s.arena.used) (λ (h : Signal). h.cell ≢ some at)
                        (cell-ne s.arena.used at fresh.3) s.signals v.table.placed),
                )
                (rw (looked.1) (
                  All-imp (IsParam s) (λ (r : DeclaredParam). r.cell ≢ at)
                    (λ r h same. omega (arith, fresh.3, h.0, same)) p.declared v.params)))
      ]

  init-IsDriven :
      (name : Option Text) (s : Shim F) (p : Params d.Real)
      → IsDriven (s, p)
      → IsDriven ((hal_init name s).1, p)
  unfolding hal_init
  init-IsDriven none s p v = v
  init-IsDriven (some name) s p v = elim (Bool-cases (leb max_components (length s.components))) [
    | inl full ↦ rw full v
    | inr room ↦ rw room (components-IsDriven _ s p v)
  ]

  pub call-IsDriven : (c : Call F) (w : Shim F × Params d.Real) → IsDriven w → IsDriven (call d c w)
  unfolding call hal_exit hal_ready
  call-IsDriven (init name) (s, p) v = init-IsDriven name s p v
  call-IsDriven (exit id) (s, p) v = components-IsDriven _ s p v
  call-IsDriven (ready id) (s, p) v = components-IsDriven _ s p v
  call-IsDriven (malloc n) (s, p) v =
      arena-IsDriven (hal_malloc n s.arena).1 s p v (hal_malloc-IsSound n s.arena v.table.arena)
        (used-le-hal_malloc n s.arena v.table.arena).0
  call-IsDriven (pin ref dir type w text) (s, p) v = new_pin-IsDriven ref dir type w text s p v
  call-IsDriven (param ref dir type w text grows) (s, p) v =
      new_param-IsDriven ref dir type w text grows s p v
  call-IsDriven (param_fake refs) (s, p) v = hal_param_new_fake-IsDriven refs s p v
  call-IsDriven (export f fp text) (s, p) v = hal_export_functf-IsDriven f fp text s p v
  call-IsDriven (store at word) (s, p) v = memory-IsDriven _ s p v

  pub calls-IsDriven :
      (l : List (Call F)) (w : Shim F × Params d.Real) → IsDriven w → IsDriven (calls d l w)
  unfolding calls
  calls-IsDriven [] w v = v
  calls-IsDriven (c ∷ rest) w v = calls-IsDriven rest (call d c w) (call-IsDriven c w v)

  pub fresh-IsDriven :
      (a g f : Bool) (bytes max_signals max_functs : ℕ) (s : Shim F) (p : Params d.Real)
      → bytes < 2 ^ 63
      → (hm2_shim_init a g f bytes max_signals max_functs s).0 ≡ true
      → p.declared ≡ []
      → IsDriven ((hm2_shim_init a g f bytes max_signals max_functs s).1, p)
  unfolding hm2_shim_init
  fresh-IsDriven true true true bytes max_signals max_functs s p fits ok none_yet = record {
    table = record {
      arena = record { within = omega arith; aligned = omega arith; bounded = fits };
      capacity = omega arith;
      placed = tt;
      separate = tt;
    };
    params = rw none_yet tt;
    distinct = rw none_yet tt;
  }
  fresh-IsDriven false g f bytes max_signals max_functs s p fits ok none_yet = absurd (ground arith)
  fresh-IsDriven true false f bytes max_signals max_functs s p fits ok none_yet =
      absurd (ground arith)
  fresh-IsDriven true true false bytes max_signals max_functs s p fits ok none_yet =
      absurd (ground arith)
