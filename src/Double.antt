-- ===== src/Double.antt =====
-- The C type `double` and the conversions of the compiler, which the program uses and does not
-- implement: a parameter of the modules that compute with values.
use driver_hostmot.Base.{ℕ, ◌≡◌, Bool}
use driver_hostmot.Base.Int.{ℤ}

-- A 64-bit integer cell is its bit pattern, a number below 2 ^ 64.
pub record Double : Type 1 where
  pub Real : Type 0
  -- an integer literal such as `0.0` or `-2147483648.0`
  pub of_int : ℤ → Real
  -- `==`, `<` and `<=`
  pub eq : Real → Real → Bool
  pub lt : Real → Real → Bool
  pub le : Real → Real → Bool
  -- `(double)` of a signed and of an unsigned 64-bit integer, and the casts back
  pub of_s64 : ℕ → Real
  pub of_u64 : ℕ → Real
  pub to_s64 : Real → ℕ
  pub to_u64 : Real → ℕ
  -- the eight bytes that a double is stored in
  pub to_bits : Real → ℕ
  pub of_bits : ℕ → Real
  -- A stored double is read back as it was.
  pub of_bits-to_bits : (x : Real) → of_bits (to_bits x) ≡ x
