-- ===== src/Host/Region/Layout.antt =====
-- The parts of the region do not overlap (`hm2_region_layout`).
use driver_hostmot.Base.{ℕ, ◌+◌, ◌*◌, ◌%◌, ◌^◌, ◌≤◌, ◌<◌, ◌≡◌, arith}
use driver_hostmot.Host.Region.{
  Block, to_line, hm2_region_layout, sizeof_shm, sizeof_block, sizeof_desc, sizeof_double,
  cache_line,
}

pub to_line-le :
    (n : ℕ) → n < 2 ^ 63 → (n ≤ to_line n) × (to_line n < n + 64) × (to_line n % 64 ≡ 0)
unfolding to_line
to_line-le n h = omega arith

-- What the core checks of a block: where each part begins, that it lies behind the one before with
-- room for its entries, and the cache lines.
pub record IsLaidOut (inputs outputs : ℕ) (b : Block) : Type 0 where
  pub counts : b.count ≡ b.input_count + b.output_count
  pub input_count : b.input_count ≡ inputs
  pub output_count : b.output_count ≡ outputs
  pub table_room : sizeof_shm + sizeof_block ≤ b.table_offset
  pub input_room : b.table_offset + b.count * sizeof_desc ≤ b.input_offset
  pub input_half : inputs * sizeof_double ≤ b.input_stride
  pub output_room : b.input_offset + 2 * b.input_stride ≡ b.output_offset
  pub output_half : outputs * sizeof_double ≤ b.output_stride
  pub end : b.output_offset + 2 * b.output_stride ≡ b.region_size
  pub aligned_table : b.table_offset % cache_line ≡ 0
  pub aligned_inputs : b.input_offset % cache_line ≡ 0
  pub aligned_input_half : b.input_stride % cache_line ≡ 0
  pub aligned_outputs : b.output_offset % cache_line ≡ 0
  pub aligned_output_half : b.output_stride % cache_line ≡ 0
  pub small : b.region_size < 2 ^ 63

-- With at least one signal and fewer than 2 ^ 32, no sum of the layout wraps: the table, the two
-- input halves and the two output halves lie behind one another with room for their entries, each
-- on cache lines of its own, and the region ends where the last one does.
pub hm2_region_layout-IsLaidOut :
    (inputs outputs : ℕ)
    → 0 < inputs + outputs
    → inputs + outputs < 2 ^ 32
    → IsLaidOut inputs outputs (hm2_region_layout inputs outputs)
unfolding hm2_region_layout to_line
hm2_region_layout-IsLaidOut inputs outputs some_signal few = ground arith
