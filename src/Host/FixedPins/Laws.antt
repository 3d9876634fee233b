-- ===== src/Host/FixedPins/Laws.antt =====
-- A start that goes on past `fix_pins` has fixed every `pin.` line, and only pins that nothing else
-- writes.
use driver_hostmot.Base.{
  ℕ, suc, ◌+◌, ◌≤◌, ◌≡◌, ◌≢◌, ◌⊎◌, inl, inr, refl, ap, sym, ◌∙◌, subst, true, Option, none, some,
  is_some, List, [], ◌∷◌, ◌++◌, Text, arith, if◌then◌else◌, get_elem?, All, All-imp, All-get_elem?,
  Bool-cases, str_eq, str_eq_iff, eq_of_str_eq, update_ne, update_self,
}
use driver_hostmot.Double.{Double}
use driver_hostmot.Shim.Types.{Signal, is_to_core, from_core}
use driver_hostmot.Shim.Cell.{Memory, cell_set, encode}
use driver_hostmot.Shim.Cell.Laws.{cell_set-some, cell_set-none}
use driver_hostmot.Shim.Pins.Invariant.{Separate, IsPlaced}
use driver_hostmot.Host.Bind.{is_fixed}
use driver_hostmot.Host.Bind.Outputs.{read_apart}
use driver_hostmot.Host.FixedPins.{
  PinLine, Found, see, find_pin, fits, Verdict, fix, refuse, judge, judge_found, Fixing, obey,
  fix_lines, fix_pins,
}

-- The pins of that name are read by the driver and not written by it, and this is one of them.
pub record IsReadOnly (table : List Signal) (name : Text) (i : ℕ) (s : Signal) : Type 0 where
  pub at : get_elem? table i ≡ some s
  pub name_eq : s.name ≡ name
  pub reads : s.dir ≡ from_core
  pub unwritten : All (λ t. (t.name ≢ name) ⊎ (t.dir ≡ from_core)) table

-- What is known of the entries found in `l`, which stands at index `i` of the table.
abbrev ReadsAt : List Signal → Text → Option (ℕ × Signal) → Type 0
ReadsAt table name none = Unit {0}
ReadsAt table name (some (k, s)) =
    (get_elem? table k ≡ some s) × (s.name ≡ name) × (s.dir ≡ from_core)

-- The entries found, once one more is looked at.
abbrev looked : Text → ℕ → Signal → Found → Found
looked name i s found = if str_eq s.name name then see i s found else found

find_pin-written :
    (name : Text) (i : ℕ) (l : List Signal) (found : Found)
    → is_some found.1 ≡ true
    → is_some (find_pin name i l found).1 ≡ true
unfolding find_pin
find_pin-written name i [] found h = h
find_pin-written name i (s ∷ l) found h =
    find_pin-written name (i + 1) l (looked name i s found) (ground arith)

looked-ReadsAt :
    (table : List Signal) (name : Text) (i : ℕ) (s : Signal) (found : Found)
    → get_elem? table i ≡ some s
    → ReadsAt table name found.0
    → ReadsAt table name (looked name i s found).0
looked-ReadsAt table name i s (reads, writes) at h = elim (Bool-cases (str_eq s.name name)) [
  | inl same ↦ elim (Bool-cases (is_to_core s.dir)) [
    | inl t ↦ rw (same, t) h
    | inr t ↦ rw (same, t) (at, eq_of_str_eq s.name name same, ground arith)
  ]
  | inr other ↦ rw other h
]

find_pin_sound :
    (table : List Signal) (name : Text) (i : ℕ) (l : List Signal) (found : Found)
    → ((k : ℕ) → get_elem? table (i + k) ≡ get_elem? l k)
    → ReadsAt table name found.0
    → (find_pin name i l found).1 ≡ none
    → ReadsAt table name (find_pin name i l found).0
      × All (λ t. (t.name ≢ name) ⊎ (t.dir ≡ from_core)) l
unfolding find_pin
find_pin_sound table name i [] found behind h e = (h, tt)
find_pin_sound table name i (s ∷ l) found behind h e =
    let at : get_elem? table i ≡ some s =
      ap (get_elem? table) {x = i} {y = i + 0} (omega arith) ∙ behind 0 in
    let rest =
      find_pin_sound table name (i + 1) l (looked name i s found)
        (λ k. ap (get_elem? table) {x = i + 1 + k} {y = i + suc k} (omega arith) ∙ behind (suc k))
        (looked-ReadsAt table name i s found at h) e in
    let never_written = find_pin-written name (i + 1) l (looked name i s found) in
    (
      rest.0,
      (
        elim (Bool-cases (str_eq s.name name)) [
          | inl same ↦ inr (ground (arith, never_written))
          | inr other ↦ inl (λ e. cc ((str_eq_iff s.name name).1 e, other))
        ],
        rest.1,
      ),
    )

-- Lines of different names: `add_pin` refuses a second line of a name.
abbrev pub NamesDiffer : {Real : Type 0} → List (PinLine Real) → Type 0
NamesDiffer [] = Unit
NamesDiffer (p ∷ rest) = All (λ q. p.name ≢ q.name) rest × NamesDiffer rest

module _ (d : Double) where
  open d use {Real}

  judge_found-fix :
      (v : Real) (found : Found) (i : ℕ) (s : Signal)
      → judge_found d v found ≡ fix i s
      → (found ≡ (some (i, s), none)) × (fits d s.type v ≡ true)
  judge_found-fix v (none, none) i s e = absurd (ground arith)
  judge_found-fix v (none, some w) i s e = absurd (ground arith)
  judge_found-fix v (some p, some w) i s e = absurd (ground arith)
  judge_found-fix v (some (j, t), none) i s e = ground arith

  -- What a line that is fixed names, and that its value fits.
  judge-fix :
      (table : List Signal) (p : PinLine Real) (i : ℕ) (s : Signal)
      → judge d table p ≡ fix i s
      → IsReadOnly table p.name i s × (fits d s.type p.value ≡ true)
  unfolding judge
  judge-fix table p i s e =
      let f = find_pin p.name 0 table (none, none) in
      let found = judge_found-fix p.value f i s e in
      let sound =
        find_pin_sound table p.name 0 table (none, none)
          (λ k. ap (get_elem? table) {x = 0 + k} {y = k} (omega arith)) tt
          (ap (λ (x : Found). x.1) found.0) in
      let here : ReadsAt table p.name (some (i, s)) =
        subst (λ (x : Found). ReadsAt table p.name x.0) found.0 sound.0 in
      (record { at = here.0; name_eq = here.1; reads = here.2; unwritten = sound.1 }, found.1)

  pub failures-le :
      (table : List Signal) (lines : List (PinLine Real)) (f : Fixing d)
      → f.failures ≤ (fix_lines d table lines f).failures
  unfolding fix_lines
  failures-le table [] f = omega arith
  failures-le table (p ∷ rest) f =
      let f' : Fixing d = obey d p.value (judge d table p) f in
      omega (arith, failures-le table rest f', obey-le p.value (judge d table p) f)
    where
      obey-le : (v : Real) (j : Verdict d) (f : Fixing d) → f.failures ≤ (obey d v j f).failures
      obey-le v (fix i s) f = omega arith
      obey-le v (refuse e) f = omega arith

  -- A cell that no line writes keeps its word.
  fix_lines-frame :
      (table : List Signal) (lines : List (PinLine Real)) (f : Fixing d) (at : ℕ)
      → All (λ q. (k : ℕ) (t : Signal) → judge d table q ≡ fix k t → t.cell ≢ some at) lines
      → (fix_lines d table lines f).memory at ≡ f.memory at
  unfolding fix_lines
  fix_lines-frame table [] f at h = refl
  fix_lines-frame table (p ∷ rest) f at h =
      fix_lines-frame table rest (obey d p.value (judge d table p) f) at h.1
      ∙ by_verdict (judge d table p) refl
    where
      by_cell :
          (s : Signal) (c : Option ℕ)
          → s.cell ≡ c
          → s.cell ≢ some at
          → cell_set d f.memory s p.value at ≡ f.memory at
      by_cell s none e ne = ap (λ (m : Memory). m at) (cell_set-none d f.memory s p.value e)
      by_cell s (some a) e ne =
          ap (λ (m : Memory). m at) (cell_set-some d f.memory s a p.value e)
          ∙ update_ne f.memory a at (encode d s.type p.value) (λ same. ne (e ∙ ap some same))

      by_verdict :
          (j : Verdict d) → judge d table p ≡ j → (obey d p.value j f).memory at ≡ f.memory at
      by_verdict (fix i s) e = by_cell s s.cell refl (h.0 i s e)
      by_verdict (refuse x) e = refl

  -- What is left of a line once every line is fixed: a pin that nothing else writes, known as
  -- fixed, whose cell holds the line's value.
  pub record IsFixed (table : List Signal) (fixed : List ℕ) (memory : Memory) (p : PinLine Real)
      : Type 0 where
    pub index : ℕ
    pub signal : Signal
    pub cell : ℕ
    pub read_only : IsReadOnly table p.name index signal
    pub fitting : fits d signal.type p.value ≡ true
    pub known : is_fixed fixed index ≡ true
    pub cell_eq : signal.cell ≡ some cell
    pub value : memory cell ≡ encode d signal.type p.value

  is_fixed-append : (xs ys : List ℕ) (i : ℕ) → is_fixed xs i ≡ true → is_fixed (xs ++ ys) i ≡ true
  unfolding is_fixed
  is_fixed-append [] ys i h = absurd (ground arith)
  is_fixed-append (x ∷ xs) ys i h = ground (arith, is_fixed-append xs ys i)

  is_fixed-snoc : (xs : List ℕ) (i : ℕ) → is_fixed (xs ++ i ∷ []) i ≡ true
  unfolding is_fixed
  is_fixed-snoc [] i = ground arith
  is_fixed-snoc (x ∷ xs) i = ground (arith, is_fixed-snoc xs i)

  fix_lines-fixed :
      (table : List Signal) (lines : List (PinLine Real)) (f : Fixing d) (i : ℕ)
      → is_fixed f.fixed i ≡ true
      → is_fixed (fix_lines d table lines f).fixed i ≡ true
  unfolding fix_lines
  fix_lines-fixed table [] f i h = h
  fix_lines-fixed table (p ∷ rest) f i h =
      fix_lines-fixed table rest (obey d p.value (judge d table p) f) i
        (by_verdict (judge d table p))
    where
      by_verdict : (j : Verdict d) → is_fixed (obey d p.value j f).fixed i ≡ true
      by_verdict (fix k s) = is_fixed-append f.fixed (k ∷ []) i h
      by_verdict (refuse e) = h

  -- A later line of another name is about another cell.
  later_line_elsewhere :
      (table : List Signal) (p q : PinLine Real) (i at : ℕ) (s : Signal)
      → Separate table
      → IsReadOnly table p.name i s
      → s.cell ≡ some at
      → p.name ≢ q.name
      → (k : ℕ) (t : Signal) → judge d table q ≡ fix k t
      → t.cell ≢ some at
  later_line_elsewhere table p q i at s v ro e ne k t j same =
      let other = (judge-fix table q k t j).0 in
      read_apart table k i t s v
        (λ eq.
          ne (sym ro.name_eq ∙ ap (λ (x : Signal). x.name) (one_entry eq other.at) ∙ other.name_eq))
        other.at ro.at other.reads ro.reads (same ∙ sym e)
    where
      one_entry : k ≡ i → get_elem? table k ≡ some t → s ≡ t
      one_entry eq at = cc (ap (get_elem? table) eq, ro.at)

  fix_lines-IsFixed :
      (table : List Signal) (used : ℕ) (lines : List (PinLine Real)) (f : Fixing d)
      → Separate table
      → All (IsPlaced used) table
      → NamesDiffer lines
      → (fix_lines d table lines f).failures ≡ 0
      → All
          (IsFixed table (fix_lines d table lines f).fixed (fix_lines d table lines f).memory)
          lines
  unfolding fix_lines
  fix_lines-IsFixed table used [] f v pl nd e = tt
  fix_lines-IsFixed table used (p ∷ rest) f v pl nd e = (
    by_verdict (judge d table p) refl,
    fix_lines-IsFixed table used rest (obey d p.value (judge d table p) f) v pl nd.1 e,
  )
    where
      f' : Fixing d
      f' = obey d p.value (judge d table p) f

      end : Fixing d
      end = fix_lines d table rest f'

      by_verdict : (j : Verdict d) → judge d table p ≡ j → IsFixed table end.fixed end.memory p
      by_verdict (refuse x) j = absurd (
          omega (
            arith,
            failures-le table rest f',
            ap (λ (y : Verdict d). (obey d p.value y f).failures) j,
          ))
      by_verdict (fix i s) j =
          let sound = judge-fix table p i s j in
          let placed = All-get_elem? (IsPlaced used) table i s pl sound.0.at in
          let now : f' ≡ obey d p.value (fix i s) f =
            ap (λ (y : Verdict d). obey d p.value y f) j in
          record {
            index = i;
            signal = s;
            cell = placed.cell;
            read_only = sound.0;
            fitting = sound.1;
            known = fix_lines-fixed table rest f' i (rw now (is_fixed-snoc f.fixed i));
            cell_eq = placed.cell_eq;
            value =
                fix_lines-frame table rest f' placed.cell (
                  All-imp (λ q. p.name ≢ q.name) _
                    (λ q ne k t jq.
                      later_line_elsewhere table p q i placed.cell s v sound.0 placed.cell_eq ne k t
                        jq)
                    rest nd.0)
                ∙ ap (λ (x : Fixing d). x.memory placed.cell) now
                ∙ ap (λ (m : Memory). m placed.cell)
                    (cell_set-some d f.memory s placed.cell p.value placed.cell_eq)
                ∙ update_self f.memory placed.cell (encode d s.type p.value);
          }

  -- With a table whose cells are in place and apart, and lines that name different pins, a start
  -- that goes on past `fix_pins` has every line of the file fixed: the pin it names is one
  -- that the driver reads and never writes, the value fits it, and its cell holds that value.
  pub fix_pins_lem :
      (table : List Signal) (used : ℕ) (lines : List (PinLine Real)) (memory : Memory)
      (fixed : List ℕ) (after : Memory)
      → Separate table
      → All (IsPlaced used) table
      → NamesDiffer lines
      → fix_pins d true table lines memory ≡ some (fixed, after)
      → All (IsFixed table fixed after) lines
  unfolding fix_pins
  fix_pins_lem table used lines memory fixed after v pl nd e =
      let start : Fixing d = record { fixed = []; memory = memory; failures = 0 } in
      let end = fix_lines d table lines start in
      let ok : end.failures ≡ 0 = ground arith in
      let f : end.fixed ≡ fixed = ground arith in
      let m : end.memory ≡ after = ground arith in
      subst (λ x. All (IsFixed table x after) lines) f
        (subst (λ x. All (IsFixed table end.fixed x) lines) m
          (fix_lines-IsFixed table used lines start v pl nd ok))
