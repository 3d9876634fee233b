-- ===== src/Host/Cycle/Fill.antt =====
-- The loops of `main` that fill the half of a cycle with the driver's pins.
use driver_hostmot.Base.{
  ℕ, zero, suc, ◌+◌, ◌%◌, ◌≤◌, ◌<◌, ◌≡◌, ◌≢◌, ◌⊎◌, inl, inr, refl, ap, ◌∙◌, ◌&&◌, some, List, [],
  ◌∷◌, arith, ◌==◌, if◌then◌else◌, length, get_elem?,
}
use driver_hostmot.Double.{Double}
use driver_hostmot.Shim.Cell.{Memory, cell_get}
use driver_hostmot.Host.Region.{Block, Region, add64, mul64, store_double}
use driver_hostmot.Host.Region.Layout.{IsLaidOut}
use driver_hostmot.Host.Region.Values.{
  Slot, input, output, InRange, address, address-injective, value_at,
}
use driver_hostmot.Host.Bind.{Bound}
use driver_hostmot.Host.Bind.Dense.{IsDense}
use driver_hostmot.Host.Cycle.{fill_inputs}

-- The half that inputs of a parity are in.
abbrev pub input_half : Block → ℕ → ℕ
input_half b p = add64 b.input_offset (mul64 (p % 2) b.input_stride)

module _ {Real : Type 0} where
  -- What a slot holds once input `i` of parity `p` is stored.
  abbrev pub stored : ℕ → ℕ → Real → Slot → Real → Real
  stored p i v (input q j) old = if q == p && j == i then v else old
  stored p i v (output q j) old = old

  -- A store to an input changes that input and no other value.
  pub store_input :
      (inputs outputs : ℕ) (r : Region Real) (p i : ℕ) (v : Real)
      → IsLaidOut inputs outputs r.block
      → p < 2
      → i < inputs
      → (s : Slot) → InRange inputs outputs s
      → value_at (store_double (some (input_half r.block p)) i v r) s
        ≡ stored p i v s (value_at r s)
  store_input inputs outputs r p i v l hp hi (input q j) h =
      ground (arith, address-injective inputs outputs r.block l (input q j) (input p i) h (hp, hi))
  store_input inputs outputs r p i v l hp hi (output q j) h =
      ground (arith, address-injective inputs outputs r.block l (output q j) (input p i) h (hp, hi))

-- A slot that is not one of the inputs `k` up to `k + n` of that parity.
abbrev pub Misses : ℕ → ℕ → ℕ → Slot → Type 0
Misses p k n (input q j) = (q ≢ p) ⊎ (j < k) ⊎ (k + n ≤ j)
Misses p k n (output q j) = Unit

module _ (d : Double) where
  open d use {Real}

  pub fill_inputs-block :
      (half : ℕ) (l : List (Bound Real)) (mem : Memory) (r : Region Real)
      → (fill_inputs d (some half) l mem r).block ≡ r.block
  unfolding fill_inputs
  fill_inputs-block half [] mem r = refl
  fill_inputs-block half (b ∷ l) mem r = fill_inputs-block half l mem _

  pub fill_inputs-Misses :
      (inputs outputs : ℕ) (p k : ℕ) (l : List (Bound Real)) (mem : Memory) (r : Region Real)
      → IsLaidOut inputs outputs r.block
      → p < 2
      → IsDense k l
      → k + length l ≤ inputs
      → (s : Slot) → InRange inputs outputs s
      → Misses p k (length l) s
      → let r' = fill_inputs d (some (input_half r.block p)) l mem r in
        r'.doubles (address r.block s) ≡ value_at r s
  unfolding fill_inputs
  fill_inputs-Misses inputs outputs p k [] mem r v hp dense room s h miss = refl
  fill_inputs-Misses inputs outputs p k (b ∷ l) mem r v hp dense room (input q j) h miss =
      fill_inputs-Misses inputs outputs p (k + 1) l mem
        (store_double (some (input_half r.block p)) b.value_index (cell_get d mem b.signal) r) v hp
        dense.1 (omega arith) (input q j) h (ground arith)
      ∙ ground (
        arith,
        store_input inputs outputs r p b.value_index (cell_get d mem b.signal) v hp
            (omega (arith, dense.0)) (input q j) h,
        dense.0,
      )
  fill_inputs-Misses inputs outputs p k (b ∷ l) mem r v hp dense room (output q j) h miss =
      fill_inputs-Misses inputs outputs p (k + 1) l mem
        (store_double (some (input_half r.block p)) b.value_index (cell_get d mem b.signal) r) v hp
        dense.1 (omega arith) (output q j) h tt
      ∙ store_input inputs outputs r p b.value_index (cell_get d mem b.signal) v hp
          (omega (arith, dense.0)) (output q j) h

  pub fill_inputs-hits :
      (inputs outputs : ℕ) (p k : ℕ) (l : List (Bound Real)) (mem : Memory) (r : Region Real)
      → IsLaidOut inputs outputs r.block
      → p < 2
      → IsDense k l
      → k + length l ≤ inputs
      → (i : ℕ) (b : Bound Real) → get_elem? l i ≡ some b
      → let r' = fill_inputs d (some (input_half r.block p)) l mem r in
        r'.doubles (address r.block (input p (k + i))) ≡ cell_get d mem b.signal
  unfolding fill_inputs
  fill_inputs-hits inputs outputs p k [] mem r v hp dense room i b e = absurd (ground arith)
  fill_inputs-hits inputs outputs p k (b ∷ l) mem r v hp dense room zero c e =
      fill_inputs-Misses inputs outputs p (k + 1) l mem
        (store_double (some (input_half r.block p)) b.value_index (cell_get d mem b.signal) r) v hp
        dense.1 (omega arith) (input p (k + 0)) (hp, omega arith) (inr (inl (omega arith)))
      ∙ ground (
        arith,
        store_input inputs outputs r p b.value_index (cell_get d mem b.signal) v hp
            (omega (arith, dense.0)) (input p (k + 0)) (hp, omega arith),
        dense.0,
      )
  fill_inputs-hits inputs outputs p k (b ∷ l) mem r v hp dense room (suc i) c e =
      ap
        (λ (x : ℕ).
          (fill_inputs d (some (input_half r.block p)) l mem (
              store_double (some (input_half r.block p)) b.value_index (cell_get d mem b.signal)
                r)).doubles
            (address r.block (input p x)))
        {x = k + suc i} {y = k + 1 + i} (omega arith)
      ∙ fill_inputs-hits inputs outputs p (k + 1) l mem
          (store_double (some (input_half r.block p)) b.value_index (cell_get d mem b.signal) r) v
          hp dense.1 (omega arith) i c e
