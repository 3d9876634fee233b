-- ===== src/Shim/Argv.antt =====
-- Splitting of a configuration string (`rtapi_argv_split` of shim/rtapi_shim.c). `strtok` is libc's:
-- it takes the longest runs of bytes that are no separator, in order.

pub mod Words
use driver_hostmot.Base.{
  ℕ, ◌+◌, ◌/◌, Bool, true, false, ◌||◌, Option, none, some, List, [], ◌∷◌, Text, ◌==◌,
  if◌then◌else◌, length,
}

-- ` `, `\t`, `\n` and `\r`
abbrev pub is_separator : ℕ → Bool
is_separator c = c == 32 || (c == 9 || (c == 10 || c == 13))

-- The token that stands at the front of a text, which is empty before a separator, and the tokens
-- behind it.
unfoldable pub tokens_from : Text → Text × List Text
tokens_from [] = ([], [])
tokens_from (c ∷ t) =
    let (word, rest) = tokens_from t in
    if is_separator c
    then ([], elim word [ [] ↦ rest | d ∷ w ↦ (d ∷ w) ∷ rest ])
    else (c ∷ word, rest)

-- What the calls of `strtok` give.
unfoldable pub strtok_all : Text → List Text
unfolding tokens_from
strtok_all t = let (word, rest) = tokens_from t in elim word [ [] ↦ rest | d ∷ w ↦ (d ∷ w) ∷ rest ]

-- The length of the array that `calloc` is asked for.
abbrev pub argv_size : Text → ℕ
argv_size text = length text / 2 + 2

-- `rtapi_argv_split`: the arguments before the closing null. The Boolean says whether both
-- allocations succeed.
unfoldable pub rtapi_argv_split : Bool → Option Text → Option (List Text)
rtapi_argv_split allocated none = none
rtapi_argv_split allocated (some text) = if allocated then some (strtok_all text) else none
