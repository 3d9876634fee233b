-- ===== src/Host/Region/Values.antt =====
-- The doubles of the region and where they are (`value_half`).
use driver_hostmot.Base.{
  ℕ, ◌+◌, ◌*◌, ◌%◌, ◌≤◌, ◌<◌, ◌≡◌, ◌⊎◌, inl, inr, refl, ap, ap₂, sym, ◌∙◌, Option, some, arith,
}
use driver_hostmot.Host.Region.{
  Block, Region, add64, mul64, sizeof_double, hm2_region_inputs, hm2_region_outputs,
}
use driver_hostmot.Host.Region.Layout.{IsLaidOut}

-- A value of the channel: its direction, the parity of its half and its index.
pub data Slot : Type 0 where
  input output : ℕ → ℕ → Slot

abbrev pub InRange : ℕ → ℕ → Slot → Type 0
InRange inputs outputs (input parity i) = (parity < 2) × (i < inputs)
InRange inputs outputs (output parity i) = (parity < 2) × (i < outputs)

-- Where the process reads and writes a value.
abbrev pub address : Block → Slot → ℕ
address b (input parity i) =
    add64 (add64 b.input_offset (mul64 (parity % 2) b.input_stride)) (mul64 i sizeof_double)
address b (output parity i) =
    add64 (add64 b.output_offset (mul64 (parity % 2) b.output_stride)) (mul64 i sizeof_double)

-- The address without the wrap of 64 bits.
abbrev plain : Block → Slot → ℕ
plain b (input parity i) = b.input_offset + parity * b.input_stride + i * sizeof_double
plain b (output parity i) = b.output_offset + parity * b.output_stride + i * sizeof_double

pub parity-cases : (p : ℕ) → p < 2 → (p ≡ 0) ⊎ (p ≡ 1)
parity-cases p h = omega arith

address-plain :
    (inputs outputs : ℕ) (b : Block)
    → IsLaidOut inputs outputs b
    → (s : Slot) → InRange inputs outputs s
    → address b s ≡ plain b s
address-plain inputs outputs b v (input p i) h = elim (parity-cases p h.0) [
  | inl e ↦ rw e (omega arith)
  | inr e ↦ rw e (omega arith)
]
address-plain inputs outputs b v (output p i) h = elim (parity-cases p h.0) [
  | inl e ↦ rw e (omega arith)
  | inr e ↦ rw e (omega arith)
]

half_index :
    (off stride p q i j n : ℕ)
    → p < 2
    → q < 2
    → i < n
    → j < n
    → n * 8 ≤ stride
    → off + p * stride + i * 8 ≡ off + q * stride + j * 8
    → (p ≡ q) × (i ≡ j)
half_index off stride p q i j n hp hq hi hj hn e =
    ground
      (arith, parity-cases p hp, parity-cases q hq, ap (λ (k : ℕ). k * stride) {x = p} {y = p} refl)

-- An input lies before every output.
before_outputs :
    (inputs outputs : ℕ) (b : Block)
    → IsLaidOut inputs outputs b
    → (p i q j : ℕ) → p < 2
    → i < inputs
    → plain b (input p i) < plain b (output q j)
before_outputs inputs outputs b v p i q j hp hi = elim (parity-cases p hp) [
  | inl e ↦ rw e (omega arith)
  | inr e ↦ rw e (omega arith)
]

plain-injective :
    (inputs outputs : ℕ) (b : Block)
    → IsLaidOut inputs outputs b
    → (s t : Slot) → InRange inputs outputs s
    → InRange inputs outputs t
    → plain b s ≡ plain b t
    → s ≡ t
plain-injective inputs outputs b v (input p i) (input q j) hs ht e =
    let h =
      half_index b.input_offset b.input_stride p q i j inputs hs.0 ht.0 hs.1 ht.1 v.input_half e in
    ap₂ input h.0 h.1
plain-injective inputs outputs b v (output p i) (output q j) hs ht e =
    let h =
      half_index b.output_offset b.output_stride p q i j outputs hs.0 ht.0 hs.1 ht.1 v.output_half
        e in
    ap₂ output h.0 h.1
plain-injective inputs outputs b v (input p i) (output q j) hs ht e =
    absurd (omega (arith, before_outputs inputs outputs b v p i q j hs.0 hs.1))
plain-injective inputs outputs b v (output q j) (input p i) hs ht e =
    absurd (omega (arith, before_outputs inputs outputs b v p i q j ht.0 ht.1))

-- Values of different slots have different addresses.
pub address-injective :
    (inputs outputs : ℕ) (b : Block)
    → IsLaidOut inputs outputs b
    → (s t : Slot) → InRange inputs outputs s
    → InRange inputs outputs t
    → address b s ≡ address b t
    → s ≡ t
address-injective inputs outputs b v s t hs ht e =
    plain-injective inputs outputs b v s t hs ht
      (sym (address-plain inputs outputs b v s hs) ∙ e ∙ address-plain inputs outputs b v t ht)

address_bounds :
    (inputs outputs : ℕ) (b : Block)
    → IsLaidOut inputs outputs b
    → (s : Slot) → InRange inputs outputs s
    → (b.table_offset + b.count * 96 ≤ address b s) × (address b s + 8 ≤ b.region_size)
address_bounds inputs outputs b v s h = rw (address-plain inputs outputs b v s h) (bounds s h)
  where
    bounds :
        (s : Slot)
        → InRange inputs outputs s
        → (b.table_offset + b.count * 96 ≤ plain b s) × (plain b s + 8 ≤ b.region_size)
    bounds (input p i) h = elim (parity-cases p h.0) [
      | inl e ↦ rw e (omega arith)
      | inr e ↦ rw e (omega arith)
    ]
    bounds (output p i) h = elim (parity-cases p h.0) [
      | inl e ↦ rw e (omega arith)
      | inr e ↦ rw e (omega arith)
    ]

-- The half of a value block, where there are signals.
pub outputs-some :
    (b : Block) (p : ℕ)
    → 0 < b.count
    → hm2_region_outputs b p ≡ some (add64 b.output_offset (mul64 (p % 2) b.output_stride))
unfolding hm2_region_outputs
outputs-some b p h = ground arith

pub inputs-some :
    (b : Block) (p : ℕ)
    → 0 < b.count
    → hm2_region_inputs b p ≡ some (add64 b.input_offset (mul64 (p % 2) b.input_stride))
unfolding hm2_region_inputs
inputs-some b p h = ground arith

-- The half that the process takes for a slot, and the index in it.
abbrev pub half_of : Block → Slot → Option ℕ
half_of b (input parity i) = hm2_region_inputs b parity
half_of b (output parity i) = hm2_region_outputs b parity

abbrev pub index_of : Slot → ℕ
index_of (input parity i) = i
index_of (output parity i) = i

some_signals :
    (inputs outputs : ℕ) (b : Block)
    → IsLaidOut inputs outputs b
    → (s : Slot) → InRange inputs outputs s
    → 0 < b.count
some_signals inputs outputs b v (input p i) h =
    omega (arith, v.counts, v.input_count, v.output_count)
some_signals inputs outputs b v (output p i) h =
    omega (arith, v.counts, v.input_count, v.output_count)

half_of-some :
    (b : Block) (s : Slot)
    → 0 < b.count
    → (half : ℕ) × (half_of b s ≡ some half)
      × (add64 half (mul64 (index_of s) sizeof_double) ≡ address b s)
half_of-some b (input p i) h = (_, inputs-some b p h, refl)
half_of-some b (output p i) h = (_, outputs-some b p h, refl)

-- In a region that is laid out, the half that the process takes for a value exists, and the double
-- at the value's index lies in the region, behind the table of descriptors.
pub address_in_region :
    (inputs outputs : ℕ) (b : Block)
    → IsLaidOut inputs outputs b
    → (s : Slot) → InRange inputs outputs s
    → (half : ℕ) × (half_of b s ≡ some half)
      × (b.table_offset + b.count * 96 ≤ add64 half (mul64 (index_of s) sizeof_double))
      × (add64 half (mul64 (index_of s) sizeof_double) + 8 ≤ b.region_size)
address_in_region inputs outputs b v s h =
    let found = half_of-some b s (some_signals inputs outputs b v s h) in
    let within = address_bounds inputs outputs b v s h in
    (found.0, found.1, rw (found.2) (within.0), rw (found.2) (within.1))

-- In a region that is laid out, two values that the process reads or writes at one place are one
-- value: of one direction, one half and one index.
pub values_apart :
    (inputs outputs : ℕ) (b : Block)
    → IsLaidOut inputs outputs b
    → (s t : Slot) (h k : ℕ) → InRange inputs outputs s
    → InRange inputs outputs t
    → half_of b s ≡ some h
    → half_of b t ≡ some k
    → add64 h (mul64 (index_of s) sizeof_double) ≡ add64 k (mul64 (index_of t) sizeof_double)
    → s ≡ t
values_apart inputs outputs b v s t h k hs ht eh ek same =
    let fs = half_of-some b s (some_signals inputs outputs b v s hs) in
    let ft = half_of-some b t (some_signals inputs outputs b v t ht) in
    let one : fs.0 ≡ h = cc (fs.1, eh) in
    let two : ft.0 ≡ k = cc (ft.1, ek) in
    address-injective inputs outputs b v s t hs ht (
      sym fs.2
      ∙ ap (λ (x : ℕ). add64 x (mul64 (index_of s) sizeof_double)) one
      ∙ same
      ∙ ap (λ (x : ℕ). add64 x (mul64 (index_of t) sizeof_double)) (sym two)
      ∙ ft.2)

module _ {Real : Type 0} where
  -- What the core or the process reads at a slot.
  abbrev pub value_at : Region Real → Slot → Real
  value_at r s = r.doubles (address r.block s)
