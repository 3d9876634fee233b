-- ===== src/Shim/Params/Claims.antt =====
-- Which configured parameters no declaration claimed (`hm2_shim_set_params`,
-- `hm2_shim_param_lookup`, `hm2_shim_unclaimed_params`).
use driver_hostmot.Base.{
  ℕ, suc, ◌+◌, ◌<◌, ◌≡◌, ◌⊎◌, inl, inr, refl, ap, sym, ◌∙◌, Bool, true, false, not, ◌||◌, ◌&&◌, ap₂,
  ◌-◌, eq_of_str_eq, append_assoc, length-snoc, take, take_all, none, some, List, [], ◌∷◌, ◌++◌,
  Text, arith, if◌then◌else◌, length, get_or, set, replicate, str_eq, Bool-cases, ltb,
}
use driver_hostmot.Shim.Params.{
  Params, claim, hm2_shim_set_params, find_param, hm2_shim_param_lookup, hm2_shim_unclaimed_params,
  unclaimed_from,
}

-- Whether a name is one of those.
abbrev pub is_one_of_names : List Text → Text → Bool
is_one_of_names [] n = false
is_one_of_names (name ∷ rest) n = str_eq n name || is_one_of_names rest n

get_or-length : (xs ys : List Bool) (x : Bool) → get_or (xs ++ x ∷ ys) (length xs) false ≡ x
get_or-length [] ys x = refl
get_or-length (y ∷ xs) ys x = get_or-length xs ys x

-- A name is listed where there is room for it.
take-step :
    (capacity found : ℕ) (name : Text) (later : List Text)
    → (if ltb found capacity
        then name ∷ take (capacity - (found + 1)) later
        else take (capacity - (found + 1)) later)
      ≡ take (capacity - found) (name ∷ later)
take-step capacity found name later = elim (Bool-cases (ltb found capacity)) [
  | inl room ↦ rw room (
      ap (λ (n : ℕ). take n (name ∷ later)) {x = suc (capacity - (found + 1))}
        {y = capacity - found} (ground arith))
  | inr full ↦ rw full (
      ap (λ (n : ℕ). take n later) {x = capacity - (found + 1)} {y = 0} (ground arith)
      ∙ ap (λ (n : ℕ). take n (name ∷ later)) {x = 0} {y = capacity - found} (ground arith))
]

module _ {Real : Type 0} where
  -- The declarations of a run look their names up one after another.
  unfoldable pub lookups : List Text → Params Real → Params Real
  lookups [] p = p
  lookups (name ∷ rest) p = lookups rest (hm2_shim_param_lookup name p).1

  -- The marks of the entries: those with a name that `f` has and no earlier entry, which `g` knows.
  abbrev marks : (f g : Text → Bool) → List (Text × Real) → List Bool
  marks f g [] = []
  marks f g ((n, v) ∷ rest) = (f n && not (g n)) ∷ marks f (λ m. str_eq n m || g m) rest

  marks-same :
      (f h g : Text → Bool) (l : List (Text × Real))
      → ((n : Text) → f n ≡ h n)
      → marks f g l ≡ marks h g l
  marks-same f h g [] e = refl
  marks-same f h g ((n, v) ∷ l) e = rw (e n, marks-same f h (λ m. str_eq n m || g m) l e) refl

  -- A name that an earlier entry has marks nothing more.
  marks-known :
      (f g : Text → Bool) (name : Text) (l : List (Text × Real))
      → g name ≡ true
      → marks (λ n. str_eq n name || f n) g l ≡ marks f g l
  marks-known f g name [] e = refl
  marks-known f g name ((n, v) ∷ l) e =
      ap₂ (λ (x : Bool) (y : List Bool). x ∷ y) (head n)
        (marks-known f (λ m. str_eq n m || g m) name l (ground arith))
    where
      head : (n : Text) → ((str_eq n name || f n) && not (g n)) ≡ (f n && not (g n))
      head n = elim (Bool-cases (str_eq n name)) [
        | inl same ↦ let known : g n ≡ true = ap g (eq_of_str_eq n name same) ∙ e in ground arith
        | inr other ↦ ground arith
      ]

  -- What a look-up does to the marks: it finds nothing and they stay, or it marks what it finds.
  abbrev Found : (f g : Text → Bool) (name : Text) (k : ℕ) (l : List (Text × Real)) → Type 0
  Found f g name k l =
      (find_param name k l ≡ none) × (marks f g l ≡ marks (λ n. str_eq n name || f n) g l)
      ⊎ ((j : ℕ) × (v : Real) × (find_param name k l ≡ some (k + j, v))
          × (set (marks f g l) j true ≡ marks (λ n. str_eq n name || f n) g l))

  find_param-Found :
      (f g : Text → Bool) (name : Text) (k : ℕ) (l : List (Text × Real))
      → g name ≡ false
      → Found f g name k l
  unfolding find_param
  find_param-Found f g name k [] e = inl (refl, refl)
  find_param-Found f g name k ((n, v) ∷ l) e = elim (Bool-cases (str_eq n name)) [
    | inl same ↦
        let here : g n ≡ false = ap g (eq_of_str_eq n name same) ∙ e in
        inr (
          0,
          v,
          rw same (ap (λ (x : ℕ). some (x, v)) {x = k} {y = k + 0} (omega arith)),
          ap₂ (λ (x : Bool) (y : List Bool). x ∷ y) (found same here)
              (sym (marks-known f (λ m. str_eq n m || g m) name l (ground arith))),
        )
    | inr other ↦ elim (find_param-Found f (λ m. str_eq n m || g m) name (k + 1) l (ground arith)) [
      | inl (nowhere, kept) ↦
          inl (rw other nowhere, ap₂ (λ (x : Bool) (y : List Bool). x ∷ y) (head other) kept)
      | inr (j, w, at, set_there) ↦ inr (
        suc j,
        w,
        rw other (at ∙ ap (λ (x : ℕ). some (x, w)) {x = k + 1 + j} {y = k + suc j} (omega arith)),
        ap₂ (λ (x : Bool) (y : List Bool). x ∷ y) (head other) set_there,
      )
    ]
  ]
    where
      head : str_eq n name ≡ false → (f n && not (g n)) ≡ ((str_eq n name || f n) && not (g n))
      head other = ground arith

      found : str_eq n name ≡ true → g n ≡ false → true ≡ ((str_eq n name || f n) && not (g n))
      found same here = ground arith

  -- A look-up claims what is found, in a table whose claims are the marks of `f`.
  lookup-marks :
      (f : Text → Bool) (name : Text) (p : Params Real)
      → p.claimed ≡ some (marks f (λ _. false) p.configured)
      → ((hm2_shim_param_lookup name p).1.claimed
          ≡ some (marks (λ n. str_eq n name || f n) (λ _. false) p.configured))
        × ((hm2_shim_param_lookup name p).1.configured ≡ p.configured)
  unfolding hm2_shim_param_lookup
  lookup-marks f name p e = elim (find_param-Found f (λ _. false) name 0 p.configured refl) [
    | inl (nowhere, kept) ↦ ground (arith, nowhere, e, kept)
    | inr (j, v, at, set_there) ↦ ground (
      arith,
      at ∙ ap (λ (x : ℕ). some (x, v)) {x = 0 + j} {y = j} (omega arith),
      ap (λ c. claim c j) e ∙ ap some set_there,
    )
  ]

  lookups-marks :
      (names : List Text) (f : Text → Bool) (p : Params Real)
      → p.claimed ≡ some (marks f (λ _. false) p.configured)
      → ((lookups names p).claimed
          ≡ some (marks (λ n. is_one_of_names names n || f n) (λ _. false) p.configured))
        × ((lookups names p).configured ≡ p.configured)
  unfolding lookups
  lookups-marks [] f p e = (e, refl)
  lookups-marks (name ∷ names) f p e =
      let one = lookup-marks f name p e in
      let p' = (hm2_shim_param_lookup name p).1 in
      let rest =
        lookups-marks names (λ n. str_eq n name || f n) p'
          (one.0 ∙ ap (λ c. some (marks (λ n. str_eq n name || f n) (λ _. false) c)) (sym one.1)) in
      (
        rest.0
            ∙ ap
                (λ c.
                  some
                    (marks (λ n. is_one_of_names names n || (str_eq n name || f n)) (λ _. false) c))
                one.1
            ∙ ap some (marks-same _ _ (λ _. false) p.configured (λ n. ground arith)),
        rest.1 ∙ one.1,
      )

  -- The entries of a file that stay unclaimed: those that no name looked up (`f`) is the name of, and
  -- those with the name of an earlier entry (`g`).
  abbrev pub strays : (f g : Text → Bool) → List (Text × Real) → List Text
  strays f g [] = []
  strays f g ((n, v) ∷ rest) =
      let later = strays f (λ m. str_eq n m || g m) rest in
      if f n && not (g n) then later else n ∷ later

  -- The names listed, where the claims behind `before` are the marks.
  unclaimed_from-strays :
      (f g : Text → Bool) (before claims : List Bool) (capacity i found : ℕ)
      (l : List (Text × Real))
      → claims ≡ before ++ marks f g l
      → i ≡ length before
      → unclaimed_from (some claims) capacity i found l
        ≡ (take (capacity - found) (strays f g l), found + length (strays f g l))
  unfolding unclaimed_from
  unclaimed_from-strays f g before claims capacity i found [] e ei =
      ap₂ (λ (x : List Text) (n : ℕ). (x, n)) (sym (take_all [] (capacity - found) (omega arith)))
        (omega arith)
  unclaimed_from-strays f g before claims capacity i found ((n, v) ∷ l) e ei =
      let x = f n && not (g n) in
      let g' : Text → Bool = λ m. str_eq n m || g m in
      let here : get_or claims i false ≡ x =
        ap₂ (λ c k. get_or c k false) e ei ∙ get_or-length before (marks f g' l) x in
      let behind : claims ≡ (before ++ x ∷ []) ++ marks f g' l =
        e ∙ sym (append_assoc before (x ∷ []) (marks f g' l)) in
      let later : i + 1 ≡ length (before ++ x ∷ []) = omega (arith, length-snoc before x) in
      elim (Bool-cases x) [
        | inl claimed ↦
            let rest =
              unclaimed_from-strays f g' (before ++ x ∷ []) claims capacity (i + 1) found l behind
                later in
            ground (arith, here ∙ claimed, rest)
        | inr stray ↦
            let rest =
              unclaimed_from-strays f g' (before ++ x ∷ []) claims capacity (i + 1) (found + 1) l
                behind later in
            ground (arith, here ∙ stray, rest, take-step capacity found n (strays f g' l))
      ]

  marks-nobody :
      (g : Text → Bool) (l : List (Text × Real))
      → replicate (length l) false ≡ marks (λ _. false) g l
  marks-nobody g [] = refl
  marks-nobody g ((n, v) ∷ l) = ap (λ x. false ∷ x) (marks-nobody (λ m. str_eq n m || g m) l)

  set_params-marks :
      (l : List (Text × Real)) (p : Params Real)
      → 0 < length l
      → (hm2_shim_set_params true l p).claimed ≡ some (marks (λ _. false) (λ _. false) l)
  unfolding hm2_shim_set_params
  set_params-marks l p some_entry = ground (arith, marks-nobody (λ _. false) l)

  -- Once a configuration with some entry is set, and the claims are allocated, the stray entries behind any run of
  -- look-ups are those whose name none of them asked for and those that repeat the name of an
  -- earlier entry: their number is given, and those that fit the array are listed in the order of
  -- the file.
  pub hm2_shim_unclaimed_params_lem :
      (names : List Text) (l : List (Text × Real)) (p : Params Real) (capacity : ℕ)
      → 0 < length l
      → hm2_shim_unclaimed_params capacity (lookups names (hm2_shim_set_params true l p)) ≡ (
        take capacity (strays (is_one_of_names names) (λ _. false) l),
        length (strays (is_one_of_names names) (λ _. false) l),
      )
  unfolding hm2_shim_unclaimed_params hm2_shim_set_params
  hm2_shim_unclaimed_params_lem names l p capacity some_entry =
      let asked = is_one_of_names names in
      let after =
        lookups-marks names (λ _. false) (hm2_shim_set_params true l p)
          (set_params-marks l p some_entry) in
      ap₂ (λ c k. unclaimed_from c capacity 0 0 k)
        (after.0 ∙ ap some (marks-same _ asked (λ _. false) l (λ n. ground arith))) after.1
      ∙ unclaimed_from-strays asked (λ _. false) [] (marks asked (λ _. false) l) capacity 0 0 l refl
          refl
      ∙ all_room (length (strays asked (λ _. false) l)) (strays asked (λ _. false) l)
    where
      all_room :
          (n : ℕ) (x : List Text)
          → ◌≡◌ {A = List Text × ℕ} (take (capacity - 0) x, 0 + n) (take capacity x, n)
      all_room n x = ground arith
