-- ===== src/Concrete.antt =====
-- A concrete `Double` for the tests: tenths, with the casts of C for the whole ones.
use driver_hostmot.Base.{
  ℕ, ◌+◌, ◌-◌, ◌*◌, ◌/◌, ◌%◌, ◌^◌, ◌≡◌, Bool, true, false, ◌==◌, leb, ltb, not, if◌then◌else◌,
  arith,
}
use driver_hostmot.Base.Int.{ℤ, pos, negsuc}
use driver_hostmot.Double.{Double}

abbrev tenths_eq : ℤ → ℤ → Bool
tenths_eq (pos a) (pos b) = a == b
tenths_eq (negsuc a) (negsuc b) = a == b
tenths_eq _ _ = false

abbrev tenths_le : ℤ → ℤ → Bool
tenths_le (pos a) (pos b) = leb a b
tenths_le (negsuc a) (negsuc b) = leb b a
tenths_le (negsuc a) (pos b) = true
tenths_le (pos a) (negsuc b) = false

abbrev pub tenths_lt : ℤ → ℤ → Bool
tenths_lt a b = not (tenths_le b a)

-- A whole number as tenths, and the whole part back.
abbrev of_whole : ℤ → ℤ
of_whole (pos n) = pos (10 * n)
of_whole (negsuc n) = negsuc (10 * n + 9)

abbrev to_whole : ℤ → ℤ
to_whole (pos n) = pos (n / 10)
to_whole (negsuc n) = if ltb n 9 then pos 0 else negsuc ((n + 1) / 10 - 1)

-- Two's complement.
abbrev of_word : ℕ → ℤ
of_word n = if ltb n (2 ^ 63) then pos n else negsuc (2 ^ 64 - 1 - n)

abbrev to_word : ℤ → ℕ
to_word (pos n) = n % 2 ^ 64
to_word (negsuc n) = 2 ^ 64 - 1 - n % 2 ^ 64

abbrev to_pattern : ℤ → ℕ
to_pattern (pos n) = 2 * n
to_pattern (negsuc n) = 2 * n + 1

abbrev of_pattern : ℕ → ℤ
of_pattern n = if n % 2 == 0 then pos (n / 2) else negsuc (n / 2)

pub pattern_round_trip : (x : ℤ) → of_pattern (to_pattern x) ≡ x
pattern_round_trip (pos n) = ground arith
pattern_round_trip (negsuc n) = ground arith

abbrev pub tenths : Double
tenths = record {
  Real = ℤ;
  of_int = of_whole;
  eq = tenths_eq;
  lt = tenths_lt;
  le = tenths_le;
  of_s64 = λ n. of_whole (of_word n);
  of_u64 = λ n. of_whole (pos n);
  to_s64 = λ x. to_word (to_whole x);
  to_u64 = λ x. to_word (to_whole x);
  to_bits = to_pattern;
  of_bits = of_pattern;
  of_bits-to_bits = pattern_round_trip;
}
