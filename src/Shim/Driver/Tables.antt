-- ===== src/Shim/Driver/Tables.antt =====
-- A parameter's cell and the table of pins, which no declaration puts another cell over.
use driver_hostmot.Base.{
  ℕ, ◌+◌, ◌≤◌, ◌≢◌, Bool, true, false, Option, none, some, [], ◌∷◌, Text, arith, leb, if◌then◌else◌,
  length, All, All-append, All-imp, Bool-cases, Option-cases, inl, inr,
}
use driver_hostmot.Shim.Types.{
  ShimType, Dir, to_core, from_core, Signal, Status, done, hal_name_len,
}
use driver_hostmot.Shim.Arena.{Arena}
use driver_hostmot.Shim.Arena.Blocks.{IsSound}
use driver_hostmot.Shim.State.{Shim}
use driver_hostmot.Shim.Params.{DeclaredParam}
use driver_hostmot.Shim.Pins.{
  name_and_cell, signal_at, both_ways, channel_dir, publish, publish_pin, new_pin,
}
use driver_hostmot.Shim.Pins.Declare.{
  name_and_cell-Onward, name_and_cell-tables, name_and_cell-some,
}
use driver_hostmot.Shim.Pins.Table.{publish_pin-frame}
use driver_hostmot.Shim.Pins.Invariant.{IsTable, IsPlaced, IsPlaced-le}

module _ {F : Type 0} where
  -- A cell in the used part of the arena that is no pin's, and a whole name.
  abbrev pub IsParam : Shim F → DeclaredParam → Type 0
  IsParam s q =
      (q.cell + 8 ≤ s.arena.used)
      × (length q.name ≤ hal_name_len)
      × All (λ (g : Signal). g.cell ≢ some q.cell) s.signals

  pub IsTable-arena :
      (a : Arena) (s : Shim F)
      → IsTable s
      → IsSound a
      → s.arena.used ≤ a.used
      → IsTable (record s { arena = a })
  IsTable-arena a s t sound le = record {
    arena = sound;
    capacity = t.capacity;
    placed = All-imp (IsPlaced s.arena.used) (IsPlaced a.used) (IsPlaced-le le) s.signals t.placed;
    separate = t.separate;
  }

  -- What holds of the entries so far and of the new ones, over a fresh cell, holds of all.
  module _ (P : Signal → Type 0) where
    publish-All : (g : Signal) (s : Shim F) → All P s.signals → P g → All P (publish g s).1.signals
    unfolding publish
    publish-All g s h p = elim (Bool-cases (leb s.signal_capacity (length s.signals))) [
      | inl full ↦ rw full h
      | inr room ↦ rw room (All-append P s.signals (g ∷ []) h (p, tt))
    ]

    All-if :
        (b : Bool) (x y : Status × Shim F)
        → All P x.1.signals
        → All P y.1.signals
        → All P (if b then x else y).1.signals
    All-if true x y h k = h
    All-if false x y h k = k

    pub publish_pin-All :
        (dir : ℕ) (name : Text) (type : ShimType) (at : ℕ) (s : Shim F)
        → All P s.signals
        → ((d : Dir) → P (signal_at name type at d))
        → All P (publish_pin dir name type at s).1.signals
    unfolding publish_pin
    publish_pin-All dir name type at s h p =
        let first = publish-All (signal_at name type at from_core) s h (p from_core) in
        let second =
          publish-All (signal_at name type at to_core)
            (publish (signal_at name type at from_core) s).1 first (p to_core) in
        let only =
          publish-All (signal_at name type at (channel_dir dir)) s h (p (channel_dir dir)) in
        All-if (both_ways dir name) _ _
          (All-if (publish (signal_at name type at from_core) s).0 _ _
            (All-if
              (publish (signal_at name type at to_core)
                (publish (signal_at name type at from_core) s).1).0
              _ _ second second)
            first)
          (All-if (publish (signal_at name type at (channel_dir dir)) s).0 _ _ only only)

  IsParam-status :
      (q : DeclaredParam) (status : Status) (at : ℕ) (s : Shim F)
      → IsParam s q
      → IsParam
          (elim status as (λ _. Status × Option ℕ × Shim F) [
            | done ↦ (done, some at, s)
            | other ↦ (other, none, s)
          ]).2
          q
  IsParam-status q done at s h = h
  IsParam-status q _ at s h = h

  pub name_and_cell-IsParam :
      (text : Option Text) (w : ℕ) (s : Shim F)
      → IsTable s
      → (q : DeclaredParam) → IsParam s q
      → IsParam (name_and_cell text w s).1 q
  name_and_cell-IsParam text w s t q h =
      let onward = name_and_cell-Onward text w s t.arena in
      (omega (arith, h.0, onward.used_le), h.1, rw ((name_and_cell-tables text w s).0) (h.2))

  -- A new pin leaves every declared parameter its cell.
  pub new_pin-IsParam :
      (ref : Bool) (dir : ℕ) (type : ShimType) (w : ℕ) (text : Option Text) (s : Shim F)
      → IsTable s
      → (q : DeclaredParam) → IsParam s q
      → IsParam (new_pin ref dir type w text s).2 q
  unfolding new_pin
  new_pin-IsParam false dir type w text s t q h = h
  new_pin-IsParam true dir type w text s t q h = elim (Option-cases (name_and_cell text w s).0) [
    | inl e ↦ rw e kept
    | inr ((name, at), e) ↦
        let fresh = name_and_cell-some text w s name at t.arena e in
        rw e (
          IsParam-status q (publish_pin dir name type at s').0 at
            (publish_pin dir name type at s').1
            (
              rw ((publish_pin-frame dir name type at s').1) (kept.0),
              h.1,
              publish_pin-All (λ (g : Signal). g.cell ≢ some q.cell) dir name type at s' kept.2
                  (λ d same. ground (arith, fresh.3, h.0)),
            ))
  ]
    where
      s' : Shim F
      s' = (name_and_cell text w s).1

      kept : IsParam s' q
      kept = name_and_cell-IsParam text w s t q h
