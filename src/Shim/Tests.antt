-- ===== src/Shim/Tests.antt =====
-- The shim on concrete inputs: an arena of 256 bytes, a table of four pins.
use driver_hostmot.Base.{
  List, ◌∷◌, take, ℕ, ◌+◌, ◌%◌, ◌^◌, ◌-◌, ◌≤◌, ◌<◌, ◌≡◌, ◌⊎◌, inr, refl, true, false, none, some,
  [], ◌++◌, codes, Text, arith, length, update,
}
use driver_hostmot.Base.Int.{ℤ, pos, negsuc}
use driver_hostmot.Concrete.{tenths}
use driver_hostmot.Shim.Types.{
  bool_cell, sint_cell, real_cell, to_core, from_core, Signal, done, hal_name_len, hal_io,
}
use driver_hostmot.Shim.Arena.{Arena, hal_malloc}
use driver_hostmot.Shim.Arena.Blocks.{IsSound, Later, here, next, call, hal_malloc_disjoint}
use driver_hostmot.Shim.Cell.{cell_get, cell_set}
use driver_hostmot.Shim.Cell.Laws.{IsExact, cell_get-cell_set}
use driver_hostmot.Shim.State.{Shim}
use driver_hostmot.Shim.Params.{Params, hm2_shim_set_params, hm2_shim_unclaimed_params}
use driver_hostmot.Shim.Params.Claims.{
  lookups, strays, is_one_of_names, hm2_shim_unclaimed_params_lem,
}
use driver_hostmot.Shim.Pins.{new_pin, name_and_cell, signal_at, publish_pin, publish}
use driver_hostmot.Shim.Pins.Table.{entries, new_pin-done}

abbrev small_arena : Arena
small_arena = record { mapped = true; size = 256; used = 0; overflowed = false }

small_arena-IsSound : IsSound small_arena
small_arena-IsSound = record { within = omega arith; aligned = omega arith; bounded = omega arith }

abbrev empty : Shim ℕ
empty = record {
  arena = small_arena;
  memory = λ _. 0;
  signals = [];
  signal_capacity = 4;
  functs = [];
  funct_capacity = 4;
  components = [];
}

abbrev encoder : Text
encoder = codes "hm2.encoder.00.index-enable"

-- A block of 13 bytes, a request that is too large, and a block of 8 bytes.
abbrev between :
    Later
      (hal_malloc (pos 13) small_arena).1
      (hal_malloc (pos 1000) (hal_malloc (pos 13) small_arena).1).1
between = next here (call (pos 1000))

second_block :
    (hal_malloc (pos 8) (hal_malloc (pos 1000) (hal_malloc (pos 13) small_arena).1).1).0 ≡ some 16
unfolding hal_malloc
second_block = refl

first_block : (hal_malloc (pos 13) small_arena).0 ≡ some 0
unfolding hal_malloc
first_block = refl

hal_malloc_disjoint_example : (0 + 13 ≤ 16) × (16 + 8 ≤ 256)
hal_malloc_disjoint_example =
    hal_malloc_disjoint 13 8 0 16 small_arena
      (hal_malloc (pos 1000) (hal_malloc (pos 13) small_arena).1).1 small_arena-IsSound
      (omega arith) (omega arith) first_block between second_block

declared : (new_pin true hal_io bool_cell 1 (some encoder) empty).0 ≡ done
unfolding new_pin name_and_cell hal_malloc publish_pin publish
declared = refl

declared_at : (new_pin true hal_io bool_cell 1 (some encoder) empty).1 ≡ some 32
unfolding new_pin name_and_cell hal_malloc publish_pin publish
declared_at = refl

new_pin-done_example :
    (name : Text) × (some encoder ≡ some name)
    × (length name ≤ hal_name_len)
    × (32 % 8 ≡ 0)
    × (0 ≤ 32)
    × (32 + 8 ≤ 256)
    × ((new_pin true hal_io bool_cell 1 (some encoder) empty).2.signals
        ≡ [] ++ entries hal_io name bool_cell 32)
    × ((new_pin true hal_io bool_cell 1 (some encoder) empty).2.memory ≡ update (λ _. 0) 32 1)
new_pin-done_example =
    new_pin-done hal_io bool_cell 1 (some encoder) empty 32 small_arena-IsSound declared declared_at

exact_signed :
    (n : ℕ)
    → n ≤ 2 ^ 53 ⊎ (2 ^ 64 ≤ n + 2 ^ 53) × (n < 2 ^ 64)
    → tenths.to_s64 (tenths.of_s64 n) ≡ n
exact_signed n h = ground arith

exact_unsigned : (n : ℕ) → n ≤ 2 ^ 53 → tenths.to_u64 (tenths.of_u64 n) ≡ n
exact_unsigned n h = omega arith

tenths-IsExact : IsExact tenths
tenths-IsExact = record {
  signed = exact_signed;
  unsigned = exact_unsigned;
  not_negative = λ n. ground arith;
  eq_refl = refl;
  one_ne_nought = refl;
}

abbrev counts : Signal
counts = signal_at (codes "hm2.encoder.00.counts") sint_cell 8 to_core

abbrev scale : Signal
scale = signal_at (codes "hm2.encoder.00.scale") real_cell 16 from_core

cell_get-cell_set_example :
    (cell_get tenths (cell_set tenths (λ _. 0) counts (negsuc 49)) counts ≡ negsuc 49)
    × (cell_get tenths (cell_set tenths (λ _. 0) counts (negsuc 49)) scale
        ≡ cell_get tenths (λ _. 0) scale)
cell_get-cell_set_example =
    cell_get-cell_set tenths tenths-IsExact (λ _. 0) counts scale 8 (negsuc 49) refl
      (2 ^ 64 - 5, inr (omega arith, omega arith), refl) (λ e. absurd (ground arith))

abbrev no_params : Params ℤ
no_params = record { configured = []; claimed = none; declared = []; capacity = 0 }

-- A name that nothing asks for, and one that the file has twice.
abbrev configured : List (Text × ℤ)
configured = (codes "a", pos 1) ∷ (codes "b", pos 2) ∷ (codes "b", pos 3) ∷ []

hm2_shim_unclaimed_params_lem_example :
    hm2_shim_unclaimed_params 1
      (lookups (codes "b" ∷ codes "c" ∷ []) (hm2_shim_set_params true configured no_params))
    ≡ (
      take 1 (strays (is_one_of_names (codes "b" ∷ codes "c" ∷ [])) (λ _. false) configured),
      length (strays (is_one_of_names (codes "b" ∷ codes "c" ∷ [])) (λ _. false) configured),
    )
hm2_shim_unclaimed_params_lem_example =
    hm2_shim_unclaimed_params_lem (codes "b" ∷ codes "c" ∷ []) configured no_params 1 (omega arith)
