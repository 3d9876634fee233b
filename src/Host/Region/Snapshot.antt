-- ===== src/Host/Region/Snapshot.antt =====
-- What one process reads in the region stays as it is while it reads it, whatever the other does.
use driver_hostmot.Base.{ℕ, ◌%◌, ◌<◌, ◌≡◌, ◌≢◌, refl, sym, ap, ◌∙◌, arith, update_ne}
use driver_hostmot.Host.Region.{Block, Region, hm2_region_begin, hm2_region_publish}
use driver_hostmot.Host.Region.Layout.{IsLaidOut}
use driver_hostmot.Host.Region.Values.{
  Slot, input, output, InRange, address, address-injective, value_at,
}
use driver_hostmot.Host.Region.Channel.{
  System, Step, begin, overrun, fill, publish, load, answer, respond, Reach, here, next, IsInStep,
  IsStart, Reach-IsInStep, filling, answering,
}

output_parity : {p q i j : ℕ} → output p i ≡ output q j → p ≡ q
output_parity e = cc

input_parity : {p q i j : ℕ} → input p i ≡ input q j → p ≡ q
input_parity e = cc

module _ (Real : Type 0) where
  Step-block : {s t : System Real} → Step Real s t → t.region.block ≡ s.region.block
  unfolding hm2_region_begin hm2_region_publish
  Step-block {s} (begin h ne e) = rw e (ground arith)
  Step-block {s} (overrun h z e) = rw e (ground arith)
  Step-block (fill n i x h lt e) = rw e
  Step-block (publish n h e) = rw e
  Step-block (load h ne e) = rw e
  Step-block (answer c i x h lt e) = rw e
  Step-block (respond c h e) = rw e

  Reach-block : {s t : System Real} → Reach Real s t → t.region.block ≡ s.region.block
  Reach-block here = refl
  Reach-block (next r st) = Step-block st ∙ Reach-block r

  begin-doubles : (r : Region Real) → (hm2_region_begin r).1.doubles ≡ r.doubles
  unfolding hm2_region_begin
  begin-doubles r = ground arith

  begin-block : (r : Region Real) → (hm2_region_begin r).1.block ≡ r.block
  unfolding hm2_region_begin
  begin-block r = ground arith

  -- A step of the core or of this process leaves a slot alone unless it stores to that very slot.
  step_frame :
      (inputs outputs : ℕ) {s t : System Real}
      → IsLaidOut inputs outputs s.region.block
      → Step Real s t
      → (x : Slot) → InRange inputs outputs x
      → ((n i : ℕ) → s.host ≡ filling n → i < inputs → x ≢ input (n % 2) i)
      → ((c i : ℕ) → s.core ≡ answering c → i < outputs → x ≢ output (c % 2) i)
      → t.region.doubles (address s.region.block x) ≡ s.region.doubles (address s.region.block x)
  unfolding hm2_region_publish
  step_frame inputs outputs {s} l (begin h ne e) x hx hi ho =
      rw e (ap (λ (f : ℕ → Real). f (address s.region.block x)) (begin-doubles s.region))
  step_frame inputs outputs {s} l (overrun h z e) x hx hi ho =
      rw e (ap (λ (f : ℕ → Real). f (address s.region.block x)) (begin-doubles s.region))
  step_frame inputs outputs {s} l (fill n i v h lt e) x hx hi ho = rw e (
      update_ne s.region.doubles (address s.region.block (input (n % 2) i))
        (address s.region.block x) v
        (λ same. hi n i h (omega arith) (
          sym (
            address-injective inputs outputs s.region.block l (input (n % 2) i) x
              (omega arith, omega arith) hx same))))
  step_frame inputs outputs l (publish n h e) x hx hi ho = rw e
  step_frame inputs outputs l (load h ne e) x hx hi ho = rw e
  step_frame inputs outputs {s} l (answer c i v h lt e) x hx hi ho = rw e (
      update_ne s.region.doubles (address s.region.block (output (c % 2) i))
        (address s.region.block x) v
        (λ same. ho c i h (omega arith) (
          sym (
            address-injective inputs outputs s.region.block l (output (c % 2) i) x
              (omega arith, omega arith) hx same))))
  step_frame inputs outputs l (respond c h e) x hx hi ho = rw e

  -- Of a region that `hm2_region_layout` laid out, from the start and in every interleaving: no move
  -- changes an output value of the half that the newest answer is in, which this process reads.
  pub answer_stays :
      (inputs outputs : ℕ) {first s t : System Real}
      → IsStart Real first
      → IsLaidOut inputs outputs first.region.block
      → Reach Real first s
      → Step Real s t
      → (i : ℕ) → i < outputs
      → value_at t.region (output (s.region.response % 2) i)
        ≡ value_at s.region (output (s.region.response % 2) i)
  answer_stays inputs outputs {first} {s} {t} b l r st i h =
      ap (λ (bl : Block). t.region.doubles (address bl x)) (Step-block st)
      ∙ step_frame inputs outputs (rw (Reach-block r) l) st x (omega arith, h) (λ n j k lt e. cc)
          (λ c j k lt e. other c k (output_parity e))
    where
      x : Slot
      x = output (s.region.response % 2) i

      v : IsInStep Real s
      v = Reach-IsInStep Real b r

      other : (c : ℕ) → s.core ≡ answering c → s.region.response % 2 ≡ c % 2 → ⊥
      other c k e = omega (arith, v.core_at c k)

  -- Of a region that `hm2_region_layout` laid out, from the start and in every interleaving: while
  -- the core works on a cycle, no move changes an input value of that cycle's half.
  pub question_stays :
      (inputs outputs : ℕ) {first s t : System Real} (c : ℕ)
      → IsStart Real first
      → IsLaidOut inputs outputs first.region.block
      → Reach Real first s
      → s.core ≡ answering c
      → Step Real s t
      → (i : ℕ) → i < inputs
      → value_at t.region (input (c % 2) i) ≡ value_at s.region (input (c % 2) i)
  question_stays inputs outputs {first} {s} {t} c b l r work st i h =
      ap (λ (bl : Block). t.region.doubles (address bl x)) (Step-block st)
      ∙ step_frame inputs outputs (rw (Reach-block r) l) st x (omega arith, h)
          (λ n j k lt e. not_both n k) (λ d j k lt e. cc)
    where
      x : Slot
      x = input (c % 2) i

      v : IsInStep Real s
      v = Reach-IsInStep Real b r

      not_both : (n : ℕ) → s.host ≡ filling n → ⊥
      not_both n k = omega (arith, v.core_at c work, v.host_at n k)
