-- ===== src/Shim/Pins/Invariant.antt =====
-- The invariant of the table of pins, which every declaration keeps, failed ones included.
use driver_hostmot.Base.{
  ℕ, ◌+◌, ◌≤◌, ◌≡◌, ◌≢◌, ◌⊎◌, inl, inr, refl, sym, ◌∙◌, Bool, true, false, Option, none, some, List,
  [], ◌∷◌, ◌++◌, Text, arith, leb, if◌then◌else◌, length, length-append, All, All-append, All-imp,
  Bool-cases, Option-cases,
}
use driver_hostmot.Shim.Types.{
  ShimType, Dir, to_core, from_core, Signal, Status, done, hal_name_len,
}
use driver_hostmot.Shim.Arena.Blocks.{IsSound}
use driver_hostmot.Shim.State.{Shim}
use driver_hostmot.Shim.Pins.{
  name_and_cell, signal_at, both_ways, channel_dir, publish, publish_pin, new_pin,
}
use driver_hostmot.Shim.Pins.Declare.{
  name_and_cell-Onward, name_and_cell-tables, name_and_cell-some,
}

-- A whole name of HAL's length, and a cell of eight bytes in the part of the arena in use.
pub record IsPlaced (used : ℕ) (g : Signal) : Type 0 where
  pub cell : ℕ
  pub cell_eq : g.cell ≡ some cell
  pub in_arena : cell + 8 ≤ used
  pub short : length g.name ≤ hal_name_len

-- Two entries have cells of their own, or are the two directions of one pin, the driver's reading
-- first.
abbrev pub Apart : Signal → Signal → Type 0
Apart g h = (g.cell ≢ h.cell) ⊎ (g.name ≡ h.name) × (g.dir ≡ from_core) × (h.dir ≡ to_core)

abbrev pub Separate : List Signal → Type 0
Separate [] = Unit
Separate (g ∷ l) = All (Apart g) l × Separate l

module _ {F : Type 0} where
  pub record IsTable (s : Shim F) : Type 0 where
    pub arena : IsSound s.arena
    pub capacity : length s.signals ≤ s.signal_capacity
    pub placed : All (IsPlaced s.arena.used) s.signals
    pub separate : Separate s.signals

Separate-snoc :
    (l : List Signal) (g : Signal) → Separate l → All (λ h. Apart h g) l → Separate (l ++ g ∷ [])
Separate-snoc [] g s a = (tt, tt)
Separate-snoc (h ∷ l) g s a =
    (All-append (Apart h) l (g ∷ []) s.0 (a.0, tt), Separate-snoc l g s.1 a.1)

pub IsPlaced-le : {m n : ℕ} → m ≤ n → (g : Signal) → IsPlaced m g → IsPlaced n g
IsPlaced-le h g p = record {
  cell = p.cell;
  cell_eq = p.cell_eq;
  in_arena = omega arith;
  short = p.short;
}

-- An old cell is not one that starts where the arena ended.
Apart-fresh :
    (used at : ℕ) (g h : Signal) → used ≤ at → h.cell ≡ some at → IsPlaced used g → Apart g h
Apart-fresh used at g h le e p = inl (λ same. cellclash (sym p.cell_eq ∙ same ∙ e))
  where
    cellclash : some p.cell ≡ some at → ⊥
    cellclash q = absurd (ground arith)

pub cell-ne : (used at : ℕ) → used ≤ at → (h : Signal) → IsPlaced used h → h.cell ≢ some at
cell-ne used at le h p e = absurd (ground (arith, p.cell_eq, p.in_arena))

module _ {F : Type 0} where
  publish-IsTable :
      (g : Signal) (s : Shim F)
      → IsTable s
      → IsPlaced s.arena.used g
      → All (λ h. Apart h g) s.signals
      → IsTable (publish g s).1
  unfolding publish
  publish-IsTable g s v p a = elim (Bool-cases (leb s.signal_capacity (length s.signals))) [
    | inl full ↦ rw full v
    | inr room ↦ rw room (record {
      arena = v.arena;
      capacity = ground (arith, length-append s.signals (g ∷ []));
      placed = All-append (IsPlaced s.arena.used) s.signals (g ∷ []) v.placed (p, tt);
      separate = Separate-snoc s.signals g v.separate a;
    })
  ]

  publish-cases :
      (g : Signal) (s : Shim F)
      → (publish g s ≡ (false, s))
        ⊎ (publish g s ≡ (true, record s { signals = s.signals ++ g ∷ [] }))
  unfolding publish
  publish-cases g s = elim (Bool-cases (leb s.signal_capacity (length s.signals))) [
    | inl full ↦ inl (rw full)
    | inr room ↦ inr (rw room)
  ]

  -- Both directions of a pin, whether or not there is room for the first.
  publish_second :
      (name : Text) (type : ShimType) (at : ℕ) (s : Shim F)
      → IsTable s
      → ((d : Dir) → IsPlaced s.arena.used (signal_at name type at d))
      → ((d : Dir) → All (λ h. Apart h (signal_at name type at d)) s.signals)
      → IsTable
          (publish
            (signal_at name type at to_core)
            (publish (signal_at name type at from_core) s).1).1
  publish_second name type at s v p a = elim (publish-cases one s) [
    | inl full ↦ rw full (publish-IsTable two s v (p to_core) (a to_core))
    | inr room ↦
        let w : IsTable (publish one s).1 = publish-IsTable one s v (p from_core) (a from_core) in
        rw room (
          publish-IsTable two (record s { signals = s.signals ++ one ∷ [] }) (rw room at w)
            (p to_core)
            (All-append (λ h. Apart h two) s.signals (one ∷ []) (a to_core)
              (inr (refl, refl, refl), tt)))
  ]
    where
      one : Signal
      one = signal_at name type at from_core

      two : Signal
      two = signal_at name type at to_core

  IsTable-if :
      (b : Bool) (x y : Status × Shim F)
      → IsTable x.1
      → IsTable y.1
      → IsTable (if b then x else y).1
  IsTable-if true x y h k = h
  IsTable-if false x y h k = k

  publish_pin-IsTable :
      (dir : ℕ) (name : Text) (type : ShimType) (at : ℕ) (s : Shim F)
      → IsTable s
      → at + 8 ≤ s.arena.used
      → length name ≤ hal_name_len
      → All (λ h. h.cell ≢ some at) s.signals
      → IsTable (publish_pin dir name type at s).1
  unfolding publish_pin
  publish_pin-IsTable dir name type at s v room short fresh =
      let first =
        publish-IsTable (signal_at name type at from_core) s v (placed from_core)
          (apart from_core) in
      let second = publish_second name type at s v placed apart in
      let only =
        publish-IsTable (signal_at name type at (channel_dir dir)) s v (placed (channel_dir dir))
          (apart (channel_dir dir)) in
      IsTable-if (both_ways dir name) _ _
        (IsTable-if (publish (signal_at name type at from_core) s).0 _ _
          (IsTable-if
            (publish (signal_at name type at to_core)
              (publish (signal_at name type at from_core) s).1).0
            _ _ second second)
          first)
        (IsTable-if (publish (signal_at name type at (channel_dir dir)) s).0 _ _ only only)
    where
      placed : (d : Dir) → IsPlaced s.arena.used (signal_at name type at d)
      placed d = record { cell = at; cell_eq = refl; in_arena = room; short = short }

      apart : (d : Dir) → All (λ h. Apart h (signal_at name type at d)) s.signals
      apart d =
          All-imp (λ h. h.cell ≢ some at) (λ h. Apart h (signal_at name type at d)) (λ h ne. inl ne)
            s.signals fresh

  -- Taking a name and a cell leaves the table as it is, over a longer used part of the arena.
  pub name_and_cell-IsTable :
      (text : Option Text) (w : ℕ) (s : Shim F) → IsTable s → IsTable (name_and_cell text w s).1
  name_and_cell-IsTable text w s v =
      let onward = name_and_cell-Onward text w s v.arena in
      let tables = name_and_cell-tables text w s in
      record {
        arena = onward.sound;
        capacity = rw (tables.0, tables.1) v.capacity;
        placed = rw (tables.0) (
            All-imp (IsPlaced s.arena.used) (IsPlaced (name_and_cell text w s).1.arena.used)
              (IsPlaced-le onward.used_le) s.signals v.placed);
        separate = rw (tables.0) v.separate;
      }

  IsTable-status :
      (status : Status) (at : ℕ) (s : Shim F)
      → IsTable s
      → IsTable
          (elim status as (λ _. Status × Option ℕ × Shim F) [
            | done ↦ (done, some at, s)
            | other ↦ (other, none, s)
          ]).2
  IsTable-status done at s v = v
  IsTable-status _ at s v = v

  -- Every declaration of a pin, failed or not, in a table that is so, keeps the table within its capacity, its names whole
  -- and of HAL's length, and its cells in the arena and apart.
  pub new_pin-IsTable :
      (ref : Bool) (dir : ℕ) (type : ShimType) (w : ℕ) (text : Option Text) (s : Shim F)
      → IsTable s
      → IsTable (new_pin ref dir type w text s).2
  unfolding new_pin
  new_pin-IsTable false dir type w text s v = v
  new_pin-IsTable true dir type w text s v = elim (Option-cases (name_and_cell text w s).0) [
    | inl e ↦ rw e taken
    | inr ((name, at), e) ↦
        let fresh = name_and_cell-some text w s name at v.arena e in
        let apart =
          All-imp (IsPlaced s.arena.used) (λ h. h.cell ≢ some at) (cell-ne s.arena.used at fresh.3)
            s.signals v.placed in
        rw e (
          IsTable-status (publish_pin dir name type at s').0 at (publish_pin dir name type at s').1
            (publish_pin-IsTable dir name type at s' taken fresh.4 fresh.1
              (rw ((name_and_cell-tables text w s).0) apart)))
  ]
    where
      s' : Shim F
      s' = (name_and_cell text w s).1

      taken : IsTable s'
      taken = name_and_cell-IsTable text w s v
