-- ===== src/Shim/ModuleParams/Set.antt =====
-- What setting a module's parameter changes, and when it does not.
use driver_hostmot.Base.{
  ℕ, ◌≡◌, ◌⊎◌, inl, inr, refl, arith, [], ◌∷◌, Bool, true, false, none, some, Text, Bool-cases,
  Option-cases,
}
use driver_hostmot.Base.Int.{ℤ}
use driver_hostmot.Shim.ModuleParams.{
  Value, int_value, long_value, string_value, null_string, placing_of, Module, Placing, placed,
  absent, refused, symbol, set_variable, has_index, value_of, hm2_shim_set_module_param,
}

-- Element `index` of a parameter that the module declares, at `base`, with a type letter.
pub record IsElement (m : Module) (name : Text) (index base : ℕ) (type : Text) : Type 0 where
  pub address : m.address (symbol "rtapi_info_address_" name) ≡ some base
  pub typed : m.type (symbol "rtapi_info_type_" name) ≡ some type
  pub index_fits : has_index (m.size (symbol "rtapi_info_size_" name)) index ≡ true

-- The outcome of each return.
pub data Outcome (strtol : Text → ℤ) (dup : Bool) (name : Text) (index : ℕ) (value : Text)
    (m : Module) : Placing × Module → Type 0 where
  was_placed :
      (base : ℕ) (type : Text) (v : Value)
      → IsElement m name index base type
      → value_of strtol dup type value ≡ some v
      → placing_of v ≡ placed
      → Outcome strtol dup name index value m (placed, set_variable base index v m)
  was_absent :
      (m.address (symbol "rtapi_info_address_" name) ≡ none)
        ⊎ (m.type (symbol "rtapi_info_type_" name) ≡ none)
      → Outcome strtol dup name index value m (absent, m)
  no_index :
      (base : ℕ) (type : Text)
      → m.address (symbol "rtapi_info_address_" name) ≡ some base
      → m.type (symbol "rtapi_info_type_" name) ≡ some type
      → has_index (m.size (symbol "rtapi_info_size_" name)) index ≡ false
      → Outcome strtol dup name index value m (refused, m)
  no_value :
      (base : ℕ) (type : Text)
      → IsElement m name index base type
      → value_of strtol dup type value ≡ none
      → Outcome strtol dup name index value m (refused, m)
  no_copy :
      (base : ℕ) (type : Text)
      → IsElement m name index base type
      → value_of strtol dup type value ≡ some null_string
      → dup ≡ false
      → Outcome strtol dup name index value m (refused, set_variable base index null_string m)

no_null :
    (strtol : Text → ℤ) (dup : Bool) (type value : Text)
    → value_of strtol dup type value ≡ some null_string
    → dup ≡ false
unfolding value_of
no_null strtol dup [] value e = ground arith
no_null strtol dup (letter ∷ rest) value e = ground arith

pub hm2_shim_set_module_param_lem :
    (strtol : Text → ℤ) (dup : Bool) (name : Text) (index : ℕ) (value : Text) (m : Module)
    → Outcome strtol dup name index value m
        (hm2_shim_set_module_param strtol dup (some name) index (some value) m)
unfolding hm2_shim_set_module_param
hm2_shim_set_module_param_lem strtol dup name index value m =
    elim (Option-cases (m.address (symbol "rtapi_info_address_" name))) [
      | inl e ↦ rw (hm2_shim_set_module_param, e) (was_absent (inl e))
      | inr (base, e) ↦ elim (Option-cases (m.type (symbol "rtapi_info_type_" name))) [
        | inl f ↦ rw (hm2_shim_set_module_param, e, f) (was_absent (inr f))
        | inr (type, f) ↦
            elim (Bool-cases (has_index (m.size (symbol "rtapi_info_size_" name)) index)) [
              | inl g ↦ elim (Option-cases (value_of strtol dup type value)) [
                | inl h ↦
                    rw (hm2_shim_set_module_param, e, f, g, h)
                      (no_value base type (record { address = e; typed = f; index_fits = g }) h)
                | inr (v, h) ↦
                    rw (hm2_shim_set_module_param, e, f, g, h)
                      (stored base type v (record { address = e; typed = f; index_fits = g }) h)
              ]
              | inr g ↦ rw (hm2_shim_set_module_param, e, f, g) (no_index base type e f g)
            ]
      ]
    ]
  where
    stored :
        (base : ℕ) (type : Text) (v : Value)
        → IsElement m name index base type
        → value_of strtol dup type value ≡ some v
        → Outcome strtol dup name index value m (placing_of v, set_variable base index v m)
    stored base type (int_value n) el h = was_placed base type (int_value n) el h refl
    stored base type (long_value n) el h = was_placed base type (long_value n) el h refl
    stored base type (string_value t) el h = was_placed base type (string_value t) el h refl
    stored base type null_string el h = no_copy base type el h (no_null strtol dup type value h)
