-- ===== src/Shim/Pins/Table.antt =====
-- The table of published pins (`publish`, `new_pin`): what one pin adds to it, and that every entry
-- has a name of HAL's length and a cell in the arena that no other pin has.
use driver_hostmot.Base.{
  ℕ, ◌+◌, ◌%◌, ◌≤◌, ◌≡◌, inl, inr, true, Option, some, List, [], ◌∷◌, ◌++◌, Text, arith,
  if◌then◌else◌, length, update, append_assoc, Option-cases,
}
use driver_hostmot.Shim.Types.{ShimType, to_core, from_core, Signal, done, hal_name_len}
use driver_hostmot.Shim.Arena.Blocks.{IsSound}
use driver_hostmot.Shim.State.{Shim}
use driver_hostmot.Shim.Pins.{
  name_and_cell, signal_at, both_ways, channel_dir, publish, publish_pin, new_pin,
}
use driver_hostmot.Shim.Pins.Declare.{
  name_and_cell-Onward, name_and_cell-tables, name_and_cell-some,
}

-- What a pin adds to the table.
abbrev pub entries : ℕ → Text → ShimType → ℕ → List Signal
entries dir name type at =
    if both_ways dir name
    then signal_at name type at from_core ∷ signal_at name type at to_core ∷ []
    else signal_at name type at (channel_dir dir) ∷ []

module _ {F : Type 0} where
  publish_pin-done :
      (dir : ℕ) (name : Text) (type : ShimType) (at : ℕ) (s : Shim F)
      → (publish_pin dir name type at s).0 ≡ done
      → (publish_pin dir name type at s).1.signals ≡ s.signals ++ entries dir name type at
  unfolding publish_pin publish
  publish_pin-done dir name type at s e = ground (
    arith,
    append_assoc s.signals (signal_at name type at from_core ∷ [])
        (signal_at name type at to_core ∷ []),
  )

  pub publish_pin-frame :
      (dir : ℕ) (name : Text) (type : ShimType) (at : ℕ) (s : Shim F)
      → ((publish_pin dir name type at s).1.memory ≡ s.memory)
        × ((publish_pin dir name type at s).1.arena ≡ s.arena)
        × ((publish_pin dir name type at s).1.signal_capacity ≡ s.signal_capacity)
  unfolding publish_pin publish
  publish_pin-frame dir name type at s = ground arith

  -- From a sound arena, a declared pin has its whole name in the table, with a fresh aligned cell that holds the
  -- default; a pin of both ways has an entry in each direction over that one cell, another has one.
  pub new_pin-done :
      (dir : ℕ) (type : ShimType) (w : ℕ) (text : Option Text) (s : Shim F) (at : ℕ)
      → IsSound s.arena
      → (new_pin true dir type w text s).0 ≡ done
      → (new_pin true dir type w text s).1 ≡ some at
      → (name : Text) × (text ≡ some name)
        × (length name ≤ hal_name_len)
        × (at % 8 ≡ 0)
        × (s.arena.used ≤ at)
        × (at + 8 ≤ s.arena.size)
        × ((new_pin true dir type w text s).2.signals ≡ s.signals ++ entries dir name type at)
        × ((new_pin true dir type w text s).2.memory ≡ update s.memory at w)
  unfolding new_pin
  new_pin-done dir type w text s at v e ea = elim (Option-cases (name_and_cell text w s).0) [
    | inl none_made ↦ absurd (ground arith)
    | inr (p, made) ↦
        let s' : Shim F = (name_and_cell text w s).1 in
        let pin = publish_pin dir p.0 type p.1 s' in
        let published : pin.0 ≡ done = ground arith in
        let same : p.1 ≡ at = ground arith in
        let fresh = name_and_cell-some text w s p.0 p.1 v made in
        let room = name_and_cell-Onward text w s v in
        let tables = name_and_cell-tables text w s in
        let frame = publish_pin-frame dir p.0 type p.1 s' in
        let table = publish_pin-done dir p.0 type p.1 s' published in
        (
          p.0,
          fresh.0,
          fresh.1,
          ground arith,
          ground arith,
          ground arith,
          ground arith,
          ground arith,
        )
  ]
