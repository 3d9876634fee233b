-- ===== src/Host/Objects/Names.antt =====
-- Which name a shared object has, from its creation to its removal.
use driver_hostmot.Base.{
  ℕ, ◌+◌, ◌≤◌, ◌<◌, ◌≡◌, ◌≢◌, ◌↔◌, ◌⊎◌, inl, inr, refl, sym, ap, ◌∙◌, subst, Bool, true, false,
  Option, none, some, Text, arith, length, take, take_all, str_eq, str_eq_iff, str_eq_refl,
  eq_of_str_eq, Bool-cases,
}
use mathlib.Core.Option.{some-injective}
use driver_hostmot.Host.Objects.{
  clear_region, Objects, shm_path, put, shm_unlink, Handle, name_max, hm2_region_create,
}

-- No path has an object that is still to be made.
abbrev pub IsNumbered : Objects → Type 0
IsNumbered o = (path : Text) (object : ℕ) → o.at path ≡ some object → object < o.made

-- The object has the name of its handle, and no other.
abbrev pub IsNamed : {Real : Type 0} → Handle Real → Objects → Type 0
IsNamed h o = (path : Text) → (o.at path ≡ some h.object) ↔ (path ≡ shm_path h.name)

pub put_self : (path : Text) (x : Option ℕ) (o : Objects) → (put path x o).at path ≡ x
put_self path x o = rw (str_eq_refl path) refl

pub put_ne : (p path : Text) (x : Option ℕ) (o : Objects) → p ≢ path → (put path x o).at p ≡ o.at p
put_ne p path x o ne = elim (Bool-cases (str_eq p path)) [
  | inl same ↦ absurd (ne (eq_of_str_eq p path same))
  | inr other ↦ rw other refl
]

-- A path either is the one, or is not.
pub path-cases : (p path : Text) → (p ≡ path) ⊎ (p ≢ path)
path-cases p path = elim (Bool-cases (str_eq p path)) [
  | inl same ↦ inl (eq_of_str_eq p path same)
  | inr other ↦ inr (λ e. cc ((str_eq_iff p path).1 e, other))
]

module _ {Real : Type 0} where
  -- Naming an object that has no name.
  pub put-IsNamed :
      (h : Handle Real) (o : Objects)
      → ((path : Text) → o.at path ≢ some h.object)
      → IsNamed h (put (shm_path h.name) (some h.object) o)
  put-IsNamed h o nowhere path = (to, from)
    where
      to :
          (put (shm_path h.name) (some h.object) o).at path ≡ some h.object → path ≡ shm_path h.name
      to e = elim (path-cases path (shm_path h.name)) [
        | inl same ↦ same
        | inr ne ↦
            absurd (nowhere path (sym (put_ne path (shm_path h.name) (some h.object) o ne) ∙ e))
      ]

      from :
          path ≡ shm_path h.name → (put (shm_path h.name) (some h.object) o).at path ≡ some h.object
      from e =
          ap (put (shm_path h.name) (some h.object) o).at e
          ∙ put_self (shm_path h.name) (some h.object) o

  -- Taking its one name from an object.
  pub put-none :
      (h : Handle Real) (o : Objects)
      → IsNamed h o
      → (path : Text) → (put (shm_path h.name) none o).at path ≢ some h.object
  put-none h o named path e = elim (path-cases path (shm_path h.name)) [
    | inl same ↦
        clash
          (sym (ap (put (shm_path h.name) none o).at same ∙ put_self (shm_path h.name) none o) ∙ e)
    | inr ne ↦ ne ((named path).0 (sym (put_ne path (shm_path h.name) none o ne) ∙ e))
  ]
    where
      clash : none ≡ some h.object → ⊥
      clash q = absurd (ground arith)

IsNumbered-unlink : (name : Text) (o : Objects) → IsNumbered o → IsNumbered (shm_unlink name o)
IsNumbered-unlink name o numbered path object e = elim (path-cases path (shm_path name)) [
  | inl same ↦ clash (sym (ap (shm_unlink name o).at same ∙ put_self (shm_path name) none o) ∙ e)
  | inr ne ↦ numbered path object (sym (put_ne path (shm_path name) none o ne) ∙ e)
]
  where
    clash : none ≡ some object → object < o.made
    clash q = absurd (ground arith)

-- The next object, under a path.
abbrev opened : Text → Objects → Objects
opened name o = record (put (shm_path name) (some o.made) o) { made = o.made + 1 }

IsNumbered-opened : (name : Text) (o : Objects) → IsNumbered o → IsNumbered (opened name o)
IsNumbered-opened name o numbered path object e = elim (path-cases path (shm_path name)) [
  | inl same ↦
      newest (sym (ap (opened name o).at same ∙ put_self (shm_path name) (some o.made) o) ∙ e)
  | inr ne ↦
      omega (arith, numbered path object (sym (put_ne path (shm_path name) (some o.made) o ne) ∙ e))
]
  where
    newest : some o.made ≡ some object → object < o.made + 1
    newest q = ground arith

opened_others :
    (name : Text) (o : Objects) (path : Text)
    → path ≢ shm_path name
    → (opened name (shm_unlink name o)).at path ≡ o.at path
opened_others name o path ne =
    put_ne path (shm_path name) (some o.made) (shm_unlink name o) ne
    ∙ put_ne path (shm_path name) none o ne

-- What a creation under a name leaves: no other path changed, and the name with the new object, or
-- with none.
pub record Creation {Real : Type 0} (name : Text) (o : Objects)
    (made : Option (Handle Real) × Objects) : Type 0 where
  pub others : (path : Text) → path ≢ shm_path name → made.1.at path ≡ o.at path
  pub numbered : IsNumbered made.1
  pub outcome :
      ((made.0 ≡ none) × (made.1.at (shm_path name) ≡ none))
      ⊎ ((h : Handle Real) × (made.0 ≡ some h)
          × (h.name ≡ name)
          × (h.object ≡ o.made)
          × (h.mapped ≡ true)
          × (h.owner ≡ true)
          × IsNamed h made.1)

module _ {Real : Type 0} (clear : Real) where
  failed :
      (name : Text) (o p : Objects)
      → IsNumbered p
      → ((path : Text) → path ≢ shm_path name → p.at path ≡ o.at path)
      → Creation {Real = Real} name o (none, shm_unlink name p)
  failed name o p numbered others = record {
    others = λ path ne. put_ne path (shm_path name) none p ne ∙ others path ne;
    numbered = IsNumbered-unlink name p numbered;
    outcome = inl (refl, put_self (shm_path name) none p);
  }

  -- A creation over objects that are numbered, under a name that fits, whatever fails of it: no other
  -- path is changed; either it succeeds and the object is new and has that name and no other, or the
  -- name has no object.
  pub hm2_region_create_lem :
      (opens sizes maps : Bool) (name : Text) (inputs outputs : ℕ) (o : Objects)
      → IsNumbered o
      → length name ≤ name_max
      → Creation name o (hm2_region_create clear opens sizes maps name inputs outputs o)
  unfolding hm2_region_create
  hm2_region_create_lem false sizes maps name inputs outputs o numbered fits =
      failed name o o numbered (λ path ne. refl)
  hm2_region_create_lem true false maps name inputs outputs o numbered fits =
      failed name o (opened name (shm_unlink name o))
        (IsNumbered-opened name (shm_unlink name o) (IsNumbered-unlink name o numbered))
        (opened_others name o)
  hm2_region_create_lem true true false name inputs outputs o numbered fits =
      failed name o (opened name (shm_unlink name o))
        (IsNumbered-opened name (shm_unlink name o) (IsNumbered-unlink name o numbered))
        (opened_others name o)
  hm2_region_create_lem true true true name inputs outputs o numbered fits =
      let h : Handle Real = record {
        region = clear_region clear inputs outputs;
        object = o.made;
        name = take name_max name;
        owner = true;
        mapped = true;
      } in
      record {
        others = opened_others name o;
        numbered = IsNumbered-opened name (shm_unlink name o) (IsNumbered-unlink name o numbered);
        outcome = inr (
          h,
          refl,
          take_all name name_max fits,
          refl,
          refl,
          refl,
          subst (λ (n : Text). IsNamed (record h { name = n }) (opened name (shm_unlink name o)))
              (sym (take_all name name_max fits))
              (put-IsNamed (record h { name = name }) (shm_unlink name o)
                (λ path e.
                  absurd (omega (arith, IsNumbered-unlink name o numbered path o.made e)))),
        );
      }

  pub hm2_region_create-region :
      (opens sizes maps : Bool) (name : Text) (inputs outputs : ℕ) (o : Objects) (h : Handle Real)
      → (hm2_region_create clear opens sizes maps name inputs outputs o).0 ≡ some h
      → h.region ≡ clear_region clear inputs outputs
  unfolding hm2_region_create
  hm2_region_create-region false sizes maps name inputs outputs o h e = absurd (ground arith)
  hm2_region_create-region true false maps name inputs outputs o h e = absurd (ground arith)
  hm2_region_create-region true true false name inputs outputs o h e = absurd (ground arith)
  hm2_region_create-region true true true name inputs outputs o h e =
      ap (λ (x : Handle Real). x.region) (sym (some-injective _ _ e))
