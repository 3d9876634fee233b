-- ===== src/Host/Startup/Settable.antt =====
-- Whether a driver's module has a place for a module parameter, by what it declares.
use driver_hostmot.Base.{ℕ, ◌≡◌, ◌⊎◌, inl, inr, refl, sym, ap, ◌∙◌, Bool, none, some, Text, arith}
use mathlib.Core.Option.{some-injective}
use driver_hostmot.Base.Int.{ℤ}
use driver_hostmot.Shim.ModuleParams.{
  Value, null_string, placing_of, Module, Placing, placed, absent, symbol, has_index, value_of,
}
use driver_hostmot.Shim.ModuleParams.Set.{
  IsElement, Outcome, was_placed, was_absent, no_index, no_value, no_copy,
}
use driver_hostmot.Host.Config.Keys.{ModuleParam}

none_is_some {ℓ κ} : {A : Type ℓ} {B : Type κ} {a : A} → none ≡ some a → B
none_is_some e = absurd (ground arith)

module _ (strtol : Text → ℤ) (dup : Bool) where
  -- The module declares the element, and the text is a value of its type.
  pub record IsSettable (p : ModuleParam) (m : Module) : Type 0 where
    pub base : ℕ
    pub type : Text
    pub value : Value
    pub element : IsElement m p.name p.index base type
    pub reads : value_of strtol dup type p.value ≡ some value
    pub copied : placing_of value ≡ placed

  -- The module has no variable or no type by that name.
  abbrev pub IsMissing : ModuleParam → Module → Type 0
  IsMissing p m =
      (m.address (symbol "rtapi_info_address_" p.name) ≡ none)
      ⊎ (m.type (symbol "rtapi_info_type_" p.name) ≡ none)

  -- Where `main` finds a place: in the transport, or in the generic driver for a name that the
  -- transport does not have.
  abbrev pub HasPlace : (generic transport : Module) → ModuleParam → Type 0
  HasPlace generic transport p =
      IsSettable p transport ⊎ IsMissing p transport × IsSettable p generic

  -- The same declarations, whatever the variables hold.
  abbrev pub Alike : Module → Module → Type 0
  Alike m n = (n.address ≡ m.address) × (n.type ≡ m.type) × (n.size ≡ m.size)

  pub set-Alike :
      (name : Text) (index : ℕ) (value : Text) (m : Module) (r : Placing × Module)
      → Outcome strtol dup name index value m r
      → Alike m r.1
  set-Alike name index value m _ (was_placed base type v el e k) = (refl, refl, refl)
  set-Alike name index value m _ (was_absent e) = (refl, refl, refl)
  set-Alike name index value m _ (no_index base type a t e) = (refl, refl, refl)
  set-Alike name index value m _ (no_value base type el e) = (refl, refl, refl)
  set-Alike name index value m _ (no_copy base type el e k) = (refl, refl, refl)

  IsSettable-Alike : (p : ModuleParam) (m n : Module) → Alike m n → IsSettable p m → IsSettable p n
  IsSettable-Alike p m n same s = record {
    base = s.base;
    type = s.type;
    value = s.value;
    element = record {
      address = ap (λ f. f (symbol "rtapi_info_address_" p.name)) same.0 ∙ s.element.address;
      typed = ap (λ f. f (symbol "rtapi_info_type_" p.name)) same.1 ∙ s.element.typed;
      index_fits =
          ap (λ f. has_index (f (symbol "rtapi_info_size_" p.name)) p.index) same.2
          ∙ s.element.index_fits;
    };
    reads = s.reads;
    copied = s.copied;
  }

  IsMissing-Alike : (p : ModuleParam) (m n : Module) → Alike m n → IsMissing p m → IsMissing p n
  IsMissing-Alike p m n same (inl e) =
      inl (ap (λ f. f (symbol "rtapi_info_address_" p.name)) same.0 ∙ e)
  IsMissing-Alike p m n same (inr e) =
      inr (ap (λ f. f (symbol "rtapi_info_type_" p.name)) same.1 ∙ e)

  pub HasPlace-Alike :
      (g h t u : Module)
      → Alike g h
      → Alike t u
      → (p : ModuleParam) → HasPlace g t p
      → HasPlace h u p
  HasPlace-Alike g h t u sg st p (inl s) = inl (IsSettable-Alike p t u st s)
  HasPlace-Alike g h t u sg st p (inr (m, s)) =
      inr (IsMissing-Alike p t u st m, IsSettable-Alike p g h sg s)

  pub back : (m n : Module) → Alike m n → Alike n m
  back m n same = (sym same.0, sym same.1, sym same.2)

  -- The returns, by what the module declares.
  module _ (p : ModuleParam) (m : Module) where
    pub IsSettable-placed :
        (r : Placing × Module)
        → Outcome strtol dup p.name p.index p.value m r
        → r.0 ≡ placed
        → IsSettable p m
    IsSettable-placed _ (was_placed base type v el e k) q = record {
      base = base;
      type = type;
      value = v;
      element = el;
      reads = e;
      copied = k;
    }
    IsSettable-placed _ (was_absent e) q = absurd (ground arith)
    IsSettable-placed _ (no_index base type a t e) q = absurd (ground arith)
    IsSettable-placed _ (no_value base type el e) q = absurd (ground arith)
    IsSettable-placed _ (no_copy base type el e k) q = absurd (ground arith)

    pub placed-IsSettable :
        (r : Placing × Module)
        → Outcome strtol dup p.name p.index p.value m r
        → IsSettable p m
        → r.0 ≡ placed
    placed-IsSettable _ (was_placed base type v el e k) s = refl
    placed-IsSettable _ (was_absent (inl e)) s = none_is_some (sym e ∙ s.element.address)
    placed-IsSettable _ (was_absent (inr e)) s = none_is_some (sym e ∙ s.element.typed)
    placed-IsSettable _ (no_index base type a t e) s = absurd (ground (arith, s.element.index_fits))
    placed-IsSettable _ (no_value base type el e) s =
        let same : type ≡ s.type = some-injective _ _ (sym el.typed ∙ s.element.typed) in
        none_is_some (sym e ∙ ap (λ t. value_of strtol dup t p.value) same ∙ s.reads)
    placed-IsSettable _ (no_copy base type el e k) s =
        let same : type ≡ s.type = some-injective _ _ (sym el.typed ∙ s.element.typed) in
        let null : null_string ≡ s.value =
          some-injective _ _ (sym e ∙ ap (λ t. value_of strtol dup t p.value) same ∙ s.reads) in
        ap placing_of null ∙ s.copied

    pub IsMissing-absent :
        (r : Placing × Module)
        → Outcome strtol dup p.name p.index p.value m r
        → r.0 ≡ absent
        → IsMissing p m
    IsMissing-absent _ (was_absent e) q = e
    IsMissing-absent _ (was_placed base type v el e k) q = absurd (ground arith)
    IsMissing-absent _ (no_index base type a t e) q = absurd (ground arith)
    IsMissing-absent _ (no_value base type el e) q = absurd (ground arith)
    IsMissing-absent _ (no_copy base type el e k) q = absurd (ground arith)

    found_not_missing :
        (base : ℕ) (type : Text)
        → m.address (symbol "rtapi_info_address_" p.name) ≡ some base
        → m.type (symbol "rtapi_info_type_" p.name) ≡ some type
        → IsMissing p m
        → ⊥
    found_not_missing base type a t (inl e) = none_is_some (sym e ∙ a)
    found_not_missing base type a t (inr e) = none_is_some (sym e ∙ t)

    pub absent-IsMissing :
        (r : Placing × Module)
        → Outcome strtol dup p.name p.index p.value m r
        → IsMissing p m
        → r.0 ≡ absent
    absent-IsMissing _ (was_absent e) x = refl
    absent-IsMissing _ (was_placed base type v el e k) x =
        absurd (found_not_missing base type el.address el.typed x)
    absent-IsMissing _ (no_index base type a t e) x = absurd (found_not_missing base type a t x)
    absent-IsMissing _ (no_value base type el e) x =
        absurd (found_not_missing base type el.address el.typed x)
    absent-IsMissing _ (no_copy base type el e k) x =
        absurd (found_not_missing base type el.address el.typed x)
