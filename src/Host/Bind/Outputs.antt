-- ===== src/Host/Bind/Outputs.antt =====
-- What the core may write: which entries of the pin table become outputs, and which of those are
-- applied on a change only (`bind_signals`, `written_by_the_driver`, `is_fixed`).
use driver_hostmot.Base.{
  ℕ, zero, suc, ◌+◌, ◌<◌, ◌≡◌, ◌≢◌, ◌↔◌, ◌⊎◌, inl, inr, refl, ap, subst, ◌∙◌, sym, true, false, not,
  ◌&&◌, ◌||◌, Option, none, some, List, [], ◌∷◌, arith, if◌then◌else◌, length, Bool-cases,
  get_elem?, ◌==◌, All, All-append, All-imp, All-get_elem?,
}
use driver_hostmot.Shim.Types.{Signal, is_to_core, to_core, from_core}
use driver_hostmot.Shim.Pins.Invariant.{Separate, Apart}
use driver_hostmot.Host.Bind.{
  Bound, Binding, is_fixed, bind_pin, bind_pins, nothing_bound, same_cell, written_from,
  written_by_the_driver, on_change,
}

-- Another entry of the table, written by the driver, lies over the cell.
pub record IsWrittenToo (table : List Signal) (i : ℕ) (s : Signal) : Type 0 where
  pub index : ℕ
  pub other : Signal
  pub another : index ≢ i
  pub at : get_elem? table index ≡ some other
  pub cell : other.cell ≡ s.cell
  pub dir : other.dir ≡ to_core

same_cell_iff : (a b : Option ℕ) → (same_cell a b ≡ true) ↔ (a ≡ b)
same_cell_iff none none = ground arith
same_cell_iff none (some b) = ground arith
same_cell_iff (some a) none = ground arith
same_cell_iff (some a) (some b) = ground arith

written_from_sound :
    (i : ℕ) (s : Signal) (j : ℕ) (l : List Signal)
    → written_from i s j l ≡ true
    → (k : ℕ) × (other : Signal) × (j + k ≢ i)
      × (get_elem? l k ≡ some other)
      × (other.cell ≡ s.cell)
      × (other.dir ≡ to_core)
unfolding written_from
written_from_sound i s j [] h = absurd (ground arith)
written_from_sound i s j (x ∷ l) h =
    elim (Bool-cases (not (j == i) && (same_cell x.cell s.cell && is_to_core x.dir))) [
      | inl here ↦
          (0, x, ground arith, refl, (same_cell_iff x.cell s.cell).0 (ground arith), ground arith)
      | inr later ↦
          let r = written_from_sound i s (j + 1) l (ground arith) in
          (suc r.0, r.1, ground arith, r.3, r.4, r.5)
    ]

written_from_complete :
    (i : ℕ) (s : Signal) (j : ℕ) (l : List Signal) (k : ℕ) (other : Signal)
    → j + k ≢ i
    → get_elem? l k ≡ some other
    → other.cell ≡ s.cell
    → other.dir ≡ to_core
    → written_from i s j l ≡ true
unfolding written_from
written_from_complete i s j [] k other ne at cell dir = absurd (ground arith)
written_from_complete i s j (x ∷ l) zero other ne at cell dir =
    ground (arith, same_cell_iff x.cell s.cell)
written_from_complete i s j (x ∷ l) (suc k) other ne at cell dir =
    ground (arith, written_from_complete i s (j + 1) l k other (ground arith) at cell dir)

written_by_the_driver_iff :
    (table : List Signal) (i : ℕ) (s : Signal)
    → (written_by_the_driver table i s ≡ true) ↔ IsWrittenToo table i s
unfolding written_by_the_driver
written_by_the_driver_iff table i s = (
  λ h.
      let r = written_from_sound i s 0 table h in
      record { index = r.0; other = r.1; another = ground arith; at = r.3; cell = r.4; dir = r.5 },
  λ w.
      written_from_complete i s 0 table w.index w.other (ground (arith, w.another)) w.at w.cell
        w.dir,
)

module _ {Real : Type 0} where
  -- An output comes from an entry that the driver reads and that no line of the file fixed; it is
  -- applied on a change exactly if the driver writes the same cell, and every cycle otherwise.
  pub record IsOutput (table : List Signal) (fixed : List ℕ) (b : Bound Real) : Type 0 where
    pub index : ℕ
    pub at : get_elem? table index ≡ some b.signal
    pub reads : b.signal.dir ≡ from_core
    pub free : is_fixed fixed index ≡ false
    pub flagged : (b.flags ≡ on_change) ↔ IsWrittenToo table index b.signal
    pub plain : (b.flags ≡ on_change) ⊎ (b.flags ≡ 0)

  module _ (clear : Real) where
    as-IsOutput :
        (table : List Signal) (fixed : List ℕ) (i k : ℕ) (s : Signal)
        → get_elem? table i ≡ some s
        → is_to_core s.dir ≡ false
        → is_fixed fixed i ≡ false
        → IsOutput table fixed (record {
          signal = s;
          value_index = k;
          flags = if written_by_the_driver table i s then on_change else 0;
          last = clear;
        })
    as-IsOutput table fixed i k s at reads free =
        let iff = written_by_the_driver_iff table i s in
        record {
          index = i;
          at = at;
          reads = ground arith;
          free = free;
          flagged = (λ f. iff.0 (ground arith), λ w. rw (iff.1 w));
          plain = ground arith;
        }

    bind_pin-outputs :
        (table : List Signal) (fixed : List ℕ) (i : ℕ) (s : Signal) (b : Binding Real)
        → get_elem? table i ≡ some s
        → All (IsOutput table fixed) b.outputs
        → All (IsOutput table fixed) (bind_pin clear table fixed i s b).outputs
    unfolding bind_pin
    bind_pin-outputs table fixed i s b at h =
        elim (Bool-cases (is_to_core s.dir || is_fixed fixed i)) [
          | inl e ↦ rw e h
          | inr e ↦ rw e (
              All-append (IsOutput table fixed) b.outputs (_ ∷ []) h (
                as-IsOutput table fixed i (length b.outputs) s at (ground arith) (ground arith),
                tt,
              ))
        ]

    bind_pins-outputs :
        (table : List Signal) (fixed : List ℕ) (i : ℕ) (l : List Signal) (b : Binding Real)
        → ((k : ℕ) → get_elem? table (i + k) ≡ get_elem? l k)
        → All (IsOutput table fixed) b.outputs
        → All (IsOutput table fixed) (bind_pins clear table fixed i l b).outputs
    unfolding bind_pins
    bind_pins-outputs table fixed i [] b behind h = h
    bind_pins-outputs table fixed i (s ∷ l) b behind h =
        bind_pins-outputs table fixed (i + 1) l (bind_pin clear table fixed i s b)
          (λ k. ap (get_elem? table) {x = i + 1 + k} {y = i + suc k} (omega arith) ∙ behind (suc k))
          (bind_pin-outputs table fixed i s b
            (ap (get_elem? table) {x = i} {y = i + 0} (omega arith) ∙ behind 0) h)

    -- Of the pins the core may write only such as the driver reads and no `pin.` line fixed; each
    -- of them is applied on a change only exactly where another entry that the driver writes is over
    -- its cell, and has no flag otherwise.
    pub bind_pins_lem :
        (table : List Signal) (fixed : List ℕ)
        → All
            (IsOutput table fixed)
            (bind_pins clear table fixed 0 table (nothing_bound clear)).outputs
    bind_pins_lem table fixed =
        bind_pins-outputs table fixed 0 table (nothing_bound clear)
          (λ k. ap (get_elem? table) {x = 0 + k} {y = k} (omega arith)) tt

Separate-get :
    (l : List Signal) (i k : ℕ) (s t : Signal)
    → Separate l
    → i < k
    → get_elem? l i ≡ some s
    → get_elem? l k ≡ some t
    → Apart s t
Separate-get [] i k s t v lt ei ek = absurd (ground arith)
Separate-get (x ∷ l) zero zero s t v lt ei ek = absurd (omega arith)
Separate-get (x ∷ l) zero (suc k) s t v lt ei ek =
    subst (λ y. Apart y t) (some-eq ei) (All-get_elem? (Apart x) l k t v.0 ek)
  where
    some-eq : {a b : Signal} → some a ≡ some b → a ≡ b
    some-eq e = cc
Separate-get (x ∷ l) (suc i) zero s t v lt ei ek = absurd (omega arith)
Separate-get (x ∷ l) (suc i) (suc k) s t v lt ei ek = Separate-get l i k s t v.1 (omega arith) ei ek

-- Two entries that the driver reads have cells of their own.
pub read_apart :
    (l : List Signal) (i k : ℕ) (s t : Signal)
    → Separate l
    → i ≢ k
    → get_elem? l i ≡ some s
    → get_elem? l k ≡ some t
    → s.dir ≡ from_core
    → t.dir ≡ from_core
    → s.cell ≢ t.cell
read_apart l i k s t v ne ei ek ds dt same = elim (lt_cases i k ne) [
  | inl lt ↦ clash s t (Separate-get l i k s t v lt ei ek) same dt
  | inr gt ↦ clash t s (Separate-get l k i t s v gt ek ei) (sym same) ds
]
  where
    lt_cases : (i k : ℕ) → i ≢ k → (i < k) ⊎ (k < i)
    lt_cases i k ne = grind arith

    clash : (g h : Signal) → Apart g h → g.cell ≡ h.cell → h.dir ≡ from_core → ⊥
    clash g h (inl ne) e d = ne e
    clash g h (inr (n, x, y)) e d = cc

module _ {Real : Type 0} (clear : Real) where
  -- In a table whose cells are apart, a pin that the driver reads and a line of the file fixed cannot
  -- be changed from the core: no output of the pins is over its cell.
  pub fixed_pin_kept :
      (table : List Signal) (fixed : List ℕ) (i : ℕ) (s : Signal)
      → Separate table
      → get_elem? table i ≡ some s
      → s.dir ≡ from_core
      → is_fixed fixed i ≡ true
      → All
          (λ b. b.signal.cell ≢ s.cell)
          (bind_pins clear table fixed 0 table (nothing_bound clear)).outputs
  fixed_pin_kept table fixed i s v at reads kept =
      All-imp (IsOutput table fixed) (λ b. b.signal.cell ≢ s.cell)
        (λ b o.
          read_apart table o.index i b.signal s v (λ e. cc (ap (is_fixed fixed) e, o.free, kept))
            o.at at o.reads reads)
        (bind_pins clear table fixed 0 table (nothing_bound clear)).outputs
        (bind_pins_lem clear table fixed)
