-- ===== src/Shim/Pins/Declare.antt =====
-- What one declaration takes from the arena and leaves in the tables (`arena_name`, `new_pin`).
use driver_hostmot.Base.{ℕ, ◌+◌, ◌%◌, ◌≤◌, ◌≡◌, Option, none, some, Text, arith, length, update}
use driver_hostmot.Shim.Types.{hal_name_len}
use driver_hostmot.Shim.Arena.{Arena}
use driver_hostmot.Shim.Arena.Blocks.{IsSound, Onward, hal_malloc-Onward, hal_malloc-block}
use driver_hostmot.Shim.State.{Shim}
use driver_hostmot.Shim.Pins.{arena_name, name_and_cell}

pub arena_name-Onward :
    (text : Option Text) (a : Arena) → IsSound a → Onward a (arena_name text a).1
unfolding arena_name
arena_name-Onward none a v = ground arith
arena_name-Onward (some name) a v = ground (arith, hal_malloc-Onward (length name + 1) a v)

-- A name that is kept is kept whole and fits HAL's length.
pub arena_name-whole :
    (text : Option Text) (a : Arena) (n : Text)
    → (arena_name text a).0 ≡ some n
    → (text ≡ some n) × (length n ≤ hal_name_len)
unfolding arena_name
arena_name-whole none a n e = ground arith
arena_name-whole (some name) a n e = ground arith

module _ {F : Type 0} where
  pub name_and_cell-Onward :
      (text : Option Text) (w : ℕ) (s : Shim F)
      → IsSound s.arena
      → Onward s.arena (name_and_cell text w s).1.arena
  unfolding name_and_cell
  name_and_cell-Onward text w s v =
      let a : Arena = (arena_name text s.arena).1 in
      let h = arena_name-Onward text s.arena v in ground (arith, h, hal_malloc-Onward 8 a h.sound)

  pub name_and_cell-tables :
      (text : Option Text) (w : ℕ) (s : Shim F)
      → ((name_and_cell text w s).1.signals ≡ s.signals)
        × ((name_and_cell text w s).1.signal_capacity ≡ s.signal_capacity)
  unfolding name_and_cell
  name_and_cell-tables text w s = ground arith

  -- The name is whole, and the cell is fresh, aligned and set.
  pub name_and_cell-some :
      (text : Option Text) (w : ℕ) (s : Shim F) (n : Text) (at : ℕ)
      → IsSound s.arena
      → (name_and_cell text w s).0 ≡ some (n, at)
      → (text ≡ some n)
        × (length n ≤ hal_name_len)
        × (at % 8 ≡ 0)
        × (s.arena.used ≤ at)
        × (at + 8 ≤ (name_and_cell text w s).1.arena.used)
        × ((name_and_cell text w s).1.memory ≡ update s.memory at w)
  unfolding name_and_cell
  name_and_cell-some text w s n at v e =
      let a : Arena = (arena_name text s.arena).1 in
      let h = arena_name-Onward text s.arena v in
      ground (
        arith,
        h,
        hal_malloc-Onward 8 a h.sound,
        hal_malloc-block 8 at a h.sound,
        arena_name-whole text s.arena n,
      )
