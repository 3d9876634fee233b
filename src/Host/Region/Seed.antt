-- ===== src/Host/Region/Seed.antt =====
-- Seeding an output (`hm2_region_seed_output`).
use driver_hostmot.Base.{ℕ, ◌+◌, ◌<◌, ◌≡◌, arith, leb, update, if◌then◌else◌, ◌==◌}
use driver_hostmot.Host.Region.{Region, hm2_region_seed_output}
use driver_hostmot.Host.Region.Layout.{IsLaidOut}
use driver_hostmot.Host.Region.Values.{
  Slot, input, output, InRange, address, address-injective, value_at, outputs-some, parity-cases,
}

module _ {Real : Type 0} where
  -- What a slot holds once output `index` is seeded with `v`, having held `old`.
  abbrev pub seeded : ℕ → Real → Slot → Real → Real
  seeded index v (input p i) old = old
  seeded index v (output p i) old = if i == index then v else old

  seed-some :
      (r : Region Real) (index : ℕ) (v : Real)
      → 0 < r.block.count
      → hm2_region_seed_output index v r ≡ (
          if leb r.block.output_count index then r else record r {
            doubles =
                update
                  (update r.doubles (address r.block (output 0 index)) v)
                  (address r.block (output 1 index))
                  v;
          })
  unfolding hm2_region_seed_output
  seed-some r index v h = rw (outputs-some r.block 0 h, outputs-some r.block 1 h)

  -- In a region that is laid out, with some signal, seeding an output puts the value into both halves at its index, and changes no other value of
  -- the region; an index that is no output's changes nothing.
  pub hm2_region_seed_output_lem :
      (inputs outputs : ℕ) (r : Region Real) (index : ℕ) (v : Real)
      → IsLaidOut inputs outputs r.block
      → 0 < inputs + outputs
      → (s : Slot) → InRange inputs outputs s
      → value_at (hm2_region_seed_output index v r) s ≡ seeded index v s (value_at r s)
  hm2_region_seed_output_lem inputs outputs r index v l some_signal (input p i) h =
      rw (seed-some r index v (omega arith)) (
        ground (
          arith,
          address-injective inputs outputs r.block l (input p i) (output 0 index),
          address-injective inputs outputs r.block l (input p i) (output 1 index),
        ))
  hm2_region_seed_output_lem inputs outputs r index v l some_signal (output p i) h =
      rw (seed-some r index v (omega arith)) (
        ground (
          arith,
          parity-cases p h.0,
          address-injective inputs outputs r.block l (output p i) (output 0 index),
          address-injective inputs outputs r.block l (output p i) (output 1 index),
        ))
