-- ===== src/Shim/ModuleParams.antt =====
-- The parameters of a driver's module (`hm2_shim_set_module_param` of shim/rtapi_shim.c). A module is
-- what `dlsym` finds in it by symbol, null pointers as `none`, and its variables by base and index.
pub mod Set
use driver_hostmot.Base.{
  ℕ, ◌-◌, ◌%◌, ◌^◌, Bool, true, false, not, ◌&&◌, ◌||◌, Option, none, some, is_some, List, [], ◌∷◌,
  ◌++◌, Text, String, codes, ◌==◌, leb, if◌then◌else◌, take, suc,
}
use driver_hostmot.Base.Int.{ℤ, pos, negsuc}

-- An int, a long, a string, or a null pointer in a string's place.
pub data Value : Type 0 where
  int_value long_value : ℤ → Value
  string_value : Text → Value
  null_string : Value

-- `*address` is the base of a parameter's variables, `*type` its letter, `*size` its elements.
pub record Module : Type 0 where
  pub address : Text → Option ℕ
  pub type : Text → Option Text
  pub size : Text → Option ℕ
  pub variables : ℕ → ℕ → Value

-- The returns 0, 1 and -1.
pub data Placing : Type 0 where
  placed absent refused : Placing

-- `char symbol[256]` after the `snprintf`.
abbrev pub symbol : String → Text → Text
symbol prefix name = take 255 (codes prefix ++ name)

-- `(int)` of a long.
abbrev pub to_int : ℤ → ℤ
to_int (pos n) =
    if leb (2 ^ 31) (n % 2 ^ 32) then negsuc (2 ^ 32 - 1 - n % 2 ^ 32) else pos (n % 2 ^ 32)
to_int (negsuc n) =
    if leb (2 ^ 31) (n % 2 ^ 32) then pos (2 ^ 32 - 1 - n % 2 ^ 32) else negsuc (n % 2 ^ 32)

abbrev pub set_variable : ℕ → ℕ → Value → Module → Module
set_variable base index value m = record m {
  variables = λ b i. if b == base && i == index then value else m.variables b i;
}

-- Whether the index is one the declaration has: an element, or 0 of a parameter that is no array.
abbrev pub has_index : Option ℕ → ℕ → Bool
has_index (some size) index = not (leb size index)
has_index none index = index == 0

-- What is stored for a type; `none` where the type is another. `strtol` is libc's, in base 0, and
-- `dup` says whether `strdup` succeeds.
unfoldable pub value_of : (strtol : Text → ℤ) (dup : Bool) → Text → Text → Option Value
value_of strtol dup [] value = none
value_of strtol dup (letter ∷ rest) value =
    if letter == b'i'
    then some (int_value (to_int (strtol value)))
    else if letter == b'l'
    then some (long_value (strtol value))
    else if letter == b's'
    then some (if dup then string_value value else null_string)
    else none

-- A string that was not copied is stored as a null pointer and then refused.
abbrev pub placing_of : Value → Placing
placing_of null_string = refused
placing_of _ = placed

-- `none` is a null pointer for the name or the value.
unfoldable pub hm2_shim_set_module_param :
    (strtol : Text → ℤ) (dup : Bool)
    → Option Text
    → (index : ℕ) → Option Text
    → Module
    → Placing × Module
hm2_shim_set_module_param strtol dup none index value m = (refused, m)
hm2_shim_set_module_param strtol dup (some name) index none m = (refused, m)
hm2_shim_set_module_param strtol dup (some name) index (some value) m =
    elim (m.address (symbol "rtapi_info_address_" name)) [
      | none ↦ (absent, m)
      | some base ↦ elim (m.type (symbol "rtapi_info_type_" name)) [
        | none ↦ (absent, m)
        | some type ↦
            if not (has_index (m.size (symbol "rtapi_info_size_" name)) index)
            then (refused, m)
            else elim (value_of strtol dup type value) [
              | none ↦ (refused, m)
              | some v ↦ (placing_of v, set_variable base index v m)
            ]
      ]
    ]
