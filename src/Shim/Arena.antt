-- ===== src/Shim/Arena.antt =====
-- The arena of shim/hal_shim.c: HAL's allocator, which only goes forward. The one message that a
-- full arena logs is not modelled; that it is said once is what `overflowed` is for.
pub mod Blocks
use driver_hostmot.Base.{
  ℕ, ◌+◌, ◌-◌, ◌*◌, ◌/◌, ◌%◌, ◌^◌, Bool, true, false, not, ◌||◌, Option, none, some, ltb,
  if◌then◌else◌,
}
use driver_hostmot.Base.Int.{ℤ, pos, negsuc}

-- `arena != NULL`, `arena_size`, `arena_used`, `arena_overflowed`
pub record Arena : Type 0 where
  pub mapped : Bool
  pub size : ℕ
  pub used : ℕ
  pub overflowed : Bool

-- `((size_t)size + 7u) & ~(size_t)7u`
abbrev pub rounded : ℕ → ℕ
rounded n = (n + 7) % 2 ^ 64 / 8 * 8

-- `arena_size - arena_used`, in `size_t`
abbrev pub room : Arena → ℕ
room a = (a.size + 2 ^ 64 - a.used) % 2 ^ 64

-- `void *hal_malloc(long int size)`; the block is its offset in the arena.
unfoldable pub hal_malloc : ℤ → Arena → Option ℕ × Arena
hal_malloc (negsuc n) a = (none, a)
hal_malloc (pos n) a =
    if not a.mapped || ltb (room a) (rounded n)
    then (none, record a { overflowed = true })
    else (some a.used, record a { used = (a.used + rounded n) % 2 ^ 64 })
