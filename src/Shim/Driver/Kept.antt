-- ===== src/Shim/Driver/Kept.antt =====
-- What the driver's calls leave, and that each part of a call keeps it.
use driver_hostmot.Base.{
  ℕ, ◌≤◌, ◌≡◌, ◌≢◌, update, refl, Bool, true, false, Option, none, some, List, [], ◌∷◌, ◌++◌, Text,
  arith, leb, length, All, All-append, All-imp, Bool-cases, Option-cases, inl, inr, ◌==◌,
}
use driver_hostmot.Base.Int.{pos}
use driver_hostmot.Shim.Types.{ShimType, Funct}
use driver_hostmot.Shim.Arena.{Arena, hal_malloc}
use driver_hostmot.Shim.Arena.Blocks.{IsSound, hal_malloc-IsSound, used-le-hal_malloc}
use driver_hostmot.Shim.State.{Shim, Component}
use driver_hostmot.Shim.Params.{
  Params, DeclaredParam, hm2_shim_param_lookup, hm2_shim_note_param, find_param,
}
use driver_hostmot.Shim.Pins.{
  name_and_cell, new_pin, hal_param_new_fake, hal_export_functf, arena_name,
}
use driver_hostmot.Shim.Pins.Declare.{arena_name-Onward}
use driver_hostmot.Shim.Pins.Invariant.{IsTable, name_and_cell-IsTable, new_pin-IsTable}
use driver_hostmot.Shim.Driver.Tables.{
  IsParam, IsTable-arena, name_and_cell-IsParam, new_pin-IsParam,
}

-- The parameters' own cells differ.
abbrev pub Distinct : List DeclaredParam → Type 0
Distinct [] = Unit
Distinct (q ∷ l) = All (λ (r : DeclaredParam). q.cell ≢ r.cell) l × Distinct l

pub Distinct-snoc :
    (l : List DeclaredParam) (q : DeclaredParam)
    → Distinct l
    → All (λ (r : DeclaredParam). r.cell ≢ q.cell) l
    → Distinct (l ++ q ∷ [])
Distinct-snoc [] q d a = (tt, tt)
Distinct-snoc (r ∷ l) q d a = (
  All-append (λ (x : DeclaredParam). r.cell ≢ x.cell) l (q ∷ []) d.0 (a.0, tt),
  Distinct-snoc l q d.1 a.1,
)

module _ {F Real : Type 0} where
  -- What the driver's calls leave: a table in order, and parameters whose cells are in the arena,
  -- no pin's and each its own.
  pub record IsDriven (w : Shim F × Params Real) : Type 0 where
    pub table : IsTable w.0
    pub params : All (IsParam w.0) w.1.declared
    pub distinct : Distinct w.1.declared

  pub note-IsDriven :
      (grows : Bool) (q : DeclaredParam) (s : Shim F) (p : Params Real)
      → IsDriven (s, p)
      → IsParam s q
      → All (λ (r : DeclaredParam). r.cell ≢ q.cell) p.declared
      → IsDriven (s, hm2_shim_note_param grows q p)
  unfolding hm2_shim_note_param
  note-IsDriven grows q s p v h a = elim (Bool-cases (length p.declared == p.capacity)) [
    | inl full ↦ elim (Bool-cases grows) [
      | inl more ↦ rw (full, more) (record { table = v.table; params = longer; distinct = apart })
      | inr same ↦ rw (full, same) v
    ]
    | inr room ↦ rw room (record { table = v.table; params = longer; distinct = apart })
  ]
    where
      longer : All (IsParam s) (p.declared ++ q ∷ [])
      longer = All-append (IsParam s) p.declared (q ∷ []) v.params (h, tt)

      apart : Distinct (p.declared ++ q ∷ [])
      apart = Distinct-snoc p.declared q v.distinct a

  -- A longer used part of the arena, over the same table.
  pub arena-IsDriven :
      (a : Arena) (s : Shim F) (p : Params Real)
      → IsDriven (s, p)
      → IsSound a
      → s.arena.used ≤ a.used
      → IsDriven (record s { arena = a }, p)
  arena-IsDriven a s p v sound le = record {
    table = IsTable-arena a s v.table sound le;
    params =
        All-imp (IsParam s) (IsParam (record s { arena = a }))
          (λ q h. (omega (arith, h.0, le), h.1, h.2)) p.declared v.params;
    distinct = v.distinct;
  }

  pub memory-IsDriven :
      (m : ℕ → ℕ) (s : Shim F) (p : Params Real)
      → IsDriven (s, p)
      → IsDriven (record s { memory = m }, p)
  memory-IsDriven m s p v = record {
    table = record {
      arena = v.table.arena;
      capacity = v.table.capacity;
      placed = v.table.placed;
      separate = v.table.separate;
    };
    params = v.params;
    distinct = v.distinct;
  }

  pub lookup-IsDriven :
      (name : Text) (s : Shim F) (p : Params Real)
      → IsDriven (s, p)
      → IsDriven (s, (hm2_shim_param_lookup name p).1)
        × ((hm2_shim_param_lookup name p).1.declared ≡ p.declared)
  unfolding hm2_shim_param_lookup
  lookup-IsDriven name s p v = elim (Option-cases (find_param name 0 p.configured)) [
    | inl e ↦ rw (e, hm2_shim_param_lookup) (v, refl)
    | inr (found, e) ↦
        rw (e, hm2_shim_param_lookup)
          (record { table = v.table; params = v.params; distinct = v.distinct }, refl)
  ]

  pub name_and_cell-IsDriven :
      (text : Option Text) (w : ℕ) (s : Shim F) (p : Params Real)
      → IsDriven (s, p)
      → IsDriven ((name_and_cell text w s).1, p)
  name_and_cell-IsDriven text w s p v = record {
    table = name_and_cell-IsTable text w s v.table;
    params =
        All-imp (IsParam s) (IsParam (name_and_cell text w s).1)
          (name_and_cell-IsParam text w s v.table) p.declared v.params;
    distinct = v.distinct;
  }

  pub new_pin-IsDriven :
      (ref : Bool) (dir : ℕ) (type : ShimType) (w : ℕ) (text : Option Text) (s : Shim F)
      (p : Params Real)
      → IsDriven (s, p)
      → IsDriven ((new_pin ref dir type w text s).2, p)
  new_pin-IsDriven ref dir type w text s p v = record {
    table = new_pin-IsTable ref dir type w text s v.table;
    params =
        All-imp (IsParam s) (IsParam (new_pin ref dir type w text s).2)
          (new_pin-IsParam ref dir type w text s v.table) p.declared v.params;
    distinct = v.distinct;
  }

  pub hal_param_new_fake-IsDriven :
      (refs : Bool) (s : Shim F) (p : Params Real)
      → IsDriven (s, p)
      → IsDriven ((hal_param_new_fake refs s).2, p)
  unfolding hal_param_new_fake
  hal_param_new_fake-IsDriven false s p v = v
  hal_param_new_fake-IsDriven true s p v =
      let a : Arena = (hal_malloc (pos 8) s.arena).1 in
      let w =
        arena-IsDriven a s p v (hal_malloc-IsSound (pos 8) s.arena v.table.arena)
          (used-le-hal_malloc (pos 8) s.arena v.table.arena).0 in
      elim (Option-cases (hal_malloc (pos 8) s.arena).0) [
        | inl e ↦ rw e w
        | inr (at, e) ↦ rw e (memory-IsDriven (update s.memory at 0) (record s { arena = a }) p w)
      ]

  pub functs-IsDriven :
      (l : List (Funct F)) (s : Shim F) (p : Params Real)
      → IsDriven (s, p)
      → IsDriven (record s { functs = l }, p)
  functs-IsDriven l s p v = record {
    table = record {
      arena = v.table.arena;
      capacity = v.table.capacity;
      placed = v.table.placed;
      separate = v.table.separate;
    };
    params = v.params;
    distinct = v.distinct;
  }

  pub components-IsDriven :
      (l : List Component) (s : Shim F) (p : Params Real)
      → IsDriven (s, p)
      → IsDriven (record s { components = l }, p)
  components-IsDriven l s p v = record {
    table = record {
      arena = v.table.arena;
      capacity = v.table.capacity;
      placed = v.table.placed;
      separate = v.table.separate;
    };
    params = v.params;
    distinct = v.distinct;
  }

  pub hal_export_functf-IsDriven :
      (f : Option F) (fp : Bool) (text : Option Text) (s : Shim F) (p : Params Real)
      → IsDriven (s, p)
      → IsDriven ((hal_export_functf f fp text s).1, p)
  unfolding hal_export_functf
  hal_export_functf-IsDriven none fp text s p v = v
  hal_export_functf-IsDriven (some f) fp text s p v =
      let a : Arena = (arena_name text s.arena).1 in
      let onward = arena_name-Onward text s.arena v.table.arena in
      let w = arena-IsDriven a s p v onward.sound onward.used_le in
      elim (Bool-cases (leb s.funct_capacity (length s.functs))) [
        | inl full ↦ rw full v
        | inr room ↦ elim (Option-cases (arena_name text s.arena).0) [
          | inl e ↦ rw (room, e) w
          | inr (n, e) ↦ rw (room, e) (functs-IsDriven _ (record s { arena = a }) p w)
        ]
      ]
