-- ===== src/Host/Region.antt =====
-- The shared region (host/region.c, host/include/cnc_outboard.h): its layout, its header and the
-- calls of one cycle. A double of the region is addressed by its byte offset. The memory orderings are
-- not modelled.
pub mod Layout
pub mod Values
pub mod Seed
pub mod Channel
pub mod Snapshot
use driver_hostmot.Base.{
  ℕ, ◌+◌, ◌-◌, ◌*◌, ◌/◌, ◌%◌, ◌^◌, ◌≤◌, Bool, true, false, ◌&&◌, Option, none, some, List, [], ◌∷◌,
  Text, ltb, leb, ◌==◌, if◌then◌else◌, update, take,
}

-- Sums and products of `size_t` and `uint64_t`.
abbrev pub add64 : ℕ → ℕ → ℕ
add64 a b = (a + b) % 2 ^ 64

abbrev pub mul64 : ℕ → ℕ → ℕ
mul64 a b = a * b % 2 ^ 64

abbrev pub u32 : ℕ → ℕ
u32 n = n % 2 ^ 32

-- CNC_OUTBOARD_CACHE_LINE
abbrev pub cache_line : ℕ
cache_line = 64

-- `sizeof` of the fixed part: header, `cycle`, two inputs, `response`, two outputs, `futex_word`
-- and `state`, each on a cache line of its own.
abbrev pub max_axes : ℕ
max_axes = 32

abbrev pub sizeof_input : ℕ
sizeof_input = 32 + max_axes * 32

abbrev pub sizeof_output : ℕ
sizeof_output = max_axes * 24

abbrev pub sizeof_shm : ℕ
sizeof_shm = 64 + 64 + 2 * sizeof_input + 64 + 2 * sizeof_output + 64 + 64

abbrev pub sizeof_block : ℕ
sizeof_block = 80

abbrev pub sizeof_desc : ℕ
sizeof_desc = 96

abbrev pub sizeof_double : ℕ
sizeof_double = 8

-- `cnc_outboard_signal_block`
pub record Block : Type 0 where
  pub count : ℕ
  pub input_count : ℕ
  pub output_count : ℕ
  pub desc_size : ℕ
  pub table_offset : ℕ
  pub input_offset : ℕ
  pub output_offset : ℕ
  pub input_stride : ℕ
  pub output_stride : ℕ
  pub region_size : ℕ

unfoldable pub to_line : ℕ → ℕ
to_line bytes = mul64 (add64 bytes (cache_line - 1) / cache_line) cache_line

-- `hm2_region_layout`; what it returns is the block's `region_size`.
unfoldable pub hm2_region_layout : ℕ → ℕ → Block
hm2_region_layout inputs outputs =
    let count = add64 inputs outputs in
    if count == 0
    then record {
      count = 0;
      input_count = 0;
      output_count = 0;
      desc_size = 0;
      table_offset = 0;
      input_offset = 0;
      output_offset = 0;
      input_stride = 0;
      output_stride = 0;
      region_size = sizeof_shm;
    }
    else (let table_offset = to_line (sizeof_shm + sizeof_block) in
        let table_size = mul64 count sizeof_desc in
        let input_offset = to_line (add64 table_offset table_size) in
        let input_stride = to_line (mul64 inputs sizeof_double) in
        let output_offset = add64 input_offset (mul64 2 input_stride) in
        let output_stride = to_line (mul64 outputs sizeof_double) in
        record {
          count = u32 count;
          input_count = u32 inputs;
          output_count = u32 outputs;
          desc_size = sizeof_desc;
          table_offset = table_offset;
          input_offset = input_offset;
          output_offset = output_offset;
          input_stride = input_stride;
          output_stride = output_stride;
          region_size = add64 output_offset (mul64 2 output_stride);
        })

-- `cnc_outboard_channel_state`
pub data ChannelState : Type 0 where
  starting running shutdown faulted : ChannelState

-- `cnc_outboard_bus_state` and `cnc_outboard_bus_fault`, as far as the process sets them
pub data BusState : Type 0 where
  bus_init bus_operational bus_fault : BusState

pub data BusFault : Type 0 where
  no_fault link_fault watchdog_fault : BusFault

-- `cnc_outboard_config`, with the version that the header file fixes
pub record Header : Type 0 where
  pub version_major : ℕ
  pub version_minor : ℕ
  pub version_patch : ℕ
  pub axis_count : ℕ
  pub generation : ℕ
  pub layout_size : ℕ
  pub cycle_time_ns : ℕ
  pub core_watchdog_cycles : ℕ
  pub response_watchdog_cycles : ℕ
  pub sync_manager_watchdog_us : ℕ
  pub spin_iterations : ℕ
  pub flags : ℕ
  pub worst_case_cycle_ns : ℕ

-- `hm2_region_config`
pub record RegionConfig : Type 0 where
  pub axis_count : ℕ
  pub cycle_ns : ℕ
  pub core_watchdog_cycles : ℕ
  pub response_watchdog_cycles : ℕ
  pub drive_watchdog_us : ℕ
  pub spin_iterations : ℕ
  pub worst_case_cycle_ns : ℕ
  pub flags : ℕ

-- `cnc_outboard_signal_desc`
pub record Descriptor : Type 0 where
  pub name : Text
  pub direction : ℕ
  pub type : ℕ
  pub role : ℕ
  pub unit : ℕ
  pub value_index : ℕ
  pub update_divisor : ℕ
  pub flags : ℕ

-- `hm2_region` with the mapping behind it. `shared_block` is the block as the core finds it behind
-- the fixed part, where there are signals. The table of descriptors is a function of the index, the
-- doubles one of the byte offset, the bus words one of the half.
pub record Region (Real : Type 0) : Type 0 where
  pub block : Block
  pub shared_block : Option Block
  pub header : Header
  pub cycle : ℕ
  pub response : ℕ
  pub futex_word : ℕ
  pub state : ChannelState
  pub bus : ℕ → BusState × BusFault
  pub table : ℕ → Option Descriptor
  pub doubles : ℕ → Real
  pub overruns : ℕ

-- HM2_COLLECT_FRESH, _STALE and _NEVER
pub data Freshness : Type 0 where
  fresh stale never : Freshness

module _ {Real : Type 0} where
  -- The nanoseconds of the monotonic clock are an argument.
  unfoldable pub hm2_region_describe : (now : ℕ) → RegionConfig → Region Real → Region Real
  hm2_region_describe now c r = record r {
    header = record {
      version_major = 2;
      version_minor = 3;
      version_patch = 0;
      axis_count = c.axis_count;
      generation = now;
      layout_size = sizeof_shm;
      cycle_time_ns = c.cycle_ns;
      core_watchdog_cycles = c.core_watchdog_cycles;
      response_watchdog_cycles = c.response_watchdog_cycles;
      sync_manager_watchdog_us = c.drive_watchdog_us;
      spin_iterations = c.spin_iterations;
      flags = c.flags;
      worst_case_cycle_ns = c.worst_case_cycle_ns;
    };
    shared_block = if ltb 0 r.block.count then some r.block else r.shared_block;
    state = starting;
  }

  -- A name longer than a descriptor's is cut by `snprintf`.
  unfoldable pub hm2_region_declare :
      (index : ℕ)
      → Text
      → (direction type role unit value_index flags : ℕ) → Region Real
      → Region Real
  hm2_region_declare index name direction type role unit value_index flags r = record r {
    table = update r.table index (
        some (record {
          name = take 63 name;
          direction = direction;
          type = type;
          role = role;
          unit = unit;
          value_index = value_index;
          update_divisor = 1;
          flags = flags;
        }));
  }

  unfoldable pub hm2_region_set_state : ChannelState → Region Real → Region Real
  hm2_region_set_state state r = record r { state = state }

  unfoldable pub hm2_region_declare_worst : ℕ → Region Real → Region Real
  hm2_region_declare_worst worst r = record r {
    header = record r.header { worst_case_cycle_ns = worst };
  }

-- The byte offset of a parity's half of a value block; `none` is the null pointer.
unfoldable pub value_half : Block → (offset stride cycle : ℕ) → Option ℕ
value_half b offset stride cycle =
    if b.count == 0 then none else some (add64 offset (mul64 (cycle % 2) stride))

unfoldable pub hm2_region_inputs : Block → ℕ → Option ℕ
unfolding value_half
hm2_region_inputs b cycle = value_half b b.input_offset b.input_stride cycle

unfoldable pub hm2_region_outputs : Block → ℕ → Option ℕ
unfolding value_half
hm2_region_outputs b cycle = value_half b b.output_offset b.output_stride cycle

module _ {Real : Type 0} where
  -- `half[index]`, read and written; a null half is not touched.
  abbrev pub load_double : Region Real → ℕ → ℕ → Real
  load_double r half index = r.doubles (add64 half (mul64 index sizeof_double))

  abbrev pub store_double : Option ℕ → ℕ → Real → Region Real → Region Real
  store_double none index value r = r
  store_double (some half) index value r = record r {
    doubles = update r.doubles (add64 half (mul64 index sizeof_double)) value;
  }

  unfoldable pub hm2_region_seed_output : ℕ → Real → Region Real → Region Real
  hm2_region_seed_output index value r =
      if leb r.block.output_count index
      then r
      else store_double (hm2_region_outputs r.block 1) index value
          (store_double (hm2_region_outputs r.block 0) index value r)

  -- The cycle to write, or 0 where the core has not finished the previous one.
  unfoldable pub hm2_region_begin : Region Real → ℕ × Region Real
  hm2_region_begin r =
      let next = add64 r.cycle 1 in
      if leb 2 next && ltb (add64 r.response 1) next
      then (0, record r { overruns = add64 r.overruns 1 })
      else (next, r)

  unfoldable pub hm2_region_set_bus : ℕ → BusState → BusFault → Region Real → Region Real
  hm2_region_set_bus cycle state fault r = record r {
    bus = update r.bus (cycle % 2) (state, fault);
  }

  unfoldable pub hm2_region_publish : ℕ → Region Real → Region Real
  hm2_region_publish cycle r = record r { cycle = cycle; futex_word = u32 (r.futex_word + 1) }

  -- The freshness, and the cycle that the newest answer is of.
  unfoldable pub hm2_region_collect : Region Real → Freshness × ℕ
  hm2_region_collect r =
      if r.response == 0
      then (never, r.response)
      else if r.response == r.cycle
      then (fresh, r.response)
      else (stale, r.response)

  unfoldable pub hm2_region_answered : Region Real → ℕ
  hm2_region_answered r = r.response

  unfoldable pub hm2_region_state : Region Real → ChannelState
  hm2_region_state r = r.state

-- `hm2_region_wait_answer`. Each turn of the loop sees a value of `response` and whether time is
-- left until the deadline; `none` is a wait that goes on after the turns listed.
unfoldable pub hm2_region_wait_answer : ℕ → List (ℕ × Bool) → Option Bool
hm2_region_wait_answer cycle [] = none
hm2_region_wait_answer cycle ((response, time_left) ∷ rest) =
    let again = hm2_region_wait_answer cycle rest in
    if leb cycle response then some true else if time_left then again else some false
