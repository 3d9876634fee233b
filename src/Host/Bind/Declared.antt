-- ===== src/Host/Bind/Declared.antt =====
-- The table of descriptors that the core reads (`declare_signals`).
use driver_hostmot.Base.{
  ℕ, zero, suc, ◌+◌, ◌-◌, ◌≤◌, ◌<◌, ◌≡◌, ◌⊎◌, inl, inr, refl, ap, ◌∙◌, Option, none, some, List, [],
  ◌∷◌, arith, length, lt_length, length_le, get_elem?, take, update_ne, subst, fun_ext, take_all,
  All, All-get_elem?,
}
use driver_hostmot.Host.Region.{Region, Descriptor, u32, hm2_region_declare}
use driver_hostmot.Host.Bind.{
  Bound, Binding, HostSignal, host_signals, channel_type, channel_role, declare_bound, declare_host,
  declare_signals, input_direction, output_direction,
}

-- What the core reads of a pin or a parameter, and of one of this process's own values.
abbrev pub descriptor_of : {Real : Type 0} → ℕ → Bound Real → Descriptor
descriptor_of direction b = record {
  name = b.signal.name;
  direction = direction;
  type = channel_type b.signal.type;
  role = channel_role b.signal.name b.signal.type;
  unit = 0;
  value_index = u32 b.value_index;
  update_divisor = 1;
  flags = b.flags;
}

abbrev pub host_descriptor : ℕ → HostSignal → Descriptor
host_descriptor value_index h = record {
  name = h.name;
  direction = input_direction;
  type = h.type;
  role = 1;
  unit = h.unit;
  value_index = u32 value_index;
  update_divisor = 1;
  flags = 0;
}

-- The name fits the array of a descriptor, its NUL included.
abbrev pub NameFits : {Real : Type 0} → Bound Real → Type 0
NameFits b = length b.signal.name < 64

-- What `hm2_region_declare` makes of a descriptor.
abbrev cut_name : Descriptor → Descriptor
cut_name x = record x { name = take 63 x.name }

cut_whole : (x : Descriptor) → length x.name < 64 → cut_name x ≡ x
cut_whole x lt = ap (λ t. record x { name = t }) (take_all x.name 63 (omega arith))

host_names : All (λ (h : HostSignal). length h.name < 64) host_signals
host_names = (omega arith, (omega arith, (omega arith, (omega arith, (omega arith, tt)))))

-- An index outside a block of `n` that starts at `slot`.
abbrev Outside : ℕ → ℕ → ℕ → Type 0
Outside slot n i = (i < slot) ⊎ (slot + n ≤ i)

module _ {Real : Type 0} where
  -- What an index of the table describes: an input, else a value of this process, else an output,
  -- else what was there.
  abbrev pub entry :
      ℕ
      → Option (Bound Real)
      → Option HostSignal
      → Option (Bound Real)
      → Option Descriptor
      → Option Descriptor
  entry i (some x) h o old = some (descriptor_of input_direction x)
  entry i none (some h) o old = some (host_descriptor i h)
  entry i none none (some x) old = some (descriptor_of output_direction x)
  entry i none none none old = old

  -- The table as it should be.
  abbrev pub described : Binding Real → Region Real → ℕ → Option Descriptor
  described b r i =
      entry i (get_elem? b.inputs i) (get_elem? host_signals (i - length b.inputs))
        (get_elem? b.outputs (i - (length b.inputs + length host_signals))) (r.table i)

  declare_bound-Outside :
      (direction slot : ℕ) (l : List (Bound Real)) (r : Region Real) (i : ℕ)
      → Outside slot (length l) i
      → (declare_bound direction slot l r).table i ≡ r.table i
  unfolding declare_bound hm2_region_declare
  declare_bound-Outside direction slot [] r i h = refl
  declare_bound-Outside direction slot (b ∷ l) r i h =
      declare_bound-Outside direction (slot + 1) l _ i (ground arith)
      ∙ update_ne r.table slot i (some (cut_name (descriptor_of direction b))) (ground arith)

  declare_bound-some :
      (direction slot : ℕ) (l : List (Bound Real)) (r : Region Real) (k : ℕ) (b : Bound Real)
      → get_elem? l k ≡ some b
      → (declare_bound direction slot l r).table (slot + k)
        ≡ some (cut_name (descriptor_of direction b))
  unfolding declare_bound hm2_region_declare
  declare_bound-some direction slot [] r k b e = absurd (ground arith)
  declare_bound-some direction slot (c ∷ l) r zero b e =
      declare_bound-Outside direction (slot + 1) l _ (slot + 0) (inl (omega arith)) ∙ ground arith
  declare_bound-some direction slot (c ∷ l) r (suc k) b e =
      ap (declare_bound direction (slot + 1) l _).table {x = slot + suc k} {y = slot + 1 + k}
        (omega arith)
      ∙ declare_bound-some direction (slot + 1) l _ k b e

  declare_host-Outside :
      (slot value_index : ℕ) (l : List HostSignal) (r : Region Real) (i : ℕ)
      → Outside slot (length l) i
      → (declare_host slot value_index l r).table i ≡ r.table i
  unfolding declare_host hm2_region_declare
  declare_host-Outside slot v [] r i h = refl
  declare_host-Outside slot v (b ∷ l) r i h =
      declare_host-Outside (slot + 1) (v + 1) l _ i (ground arith)
      ∙ update_ne r.table slot i (some (cut_name (host_descriptor v b))) (ground arith)

  declare_host-some :
      (slot value_index : ℕ) (l : List HostSignal) (r : Region Real) (k : ℕ) (h : HostSignal)
      → get_elem? l k ≡ some h
      → (declare_host slot value_index l r).table (slot + k)
        ≡ some (cut_name (host_descriptor (value_index + k) h))
  unfolding declare_host hm2_region_declare
  declare_host-some slot v [] r k h e = absurd (ground arith)
  declare_host-some slot v (c ∷ l) r zero h e =
      declare_host-Outside (slot + 1) (v + 1) l _ (slot + 0) (inl (omega arith)) ∙ ground arith
  declare_host-some slot v (c ∷ l) r (suc k) h e =
      ap (declare_host (slot + 1) (v + 1) l _).table {x = slot + suc k} {y = slot + 1 + k}
        (omega arith)
      ∙ declare_host-some (slot + 1) (v + 1) l _ k h e
      ∙ ap (λ (x : ℕ). some (cut_name (host_descriptor x h))) {x = v + 1 + k} {y = v + suc k}
          (omega arith)

  declare_signals-table :
      (b : Binding Real) (r : Region Real)
      → All NameFits b.inputs
      → All NameFits b.outputs
      → (i : ℕ) → (declare_signals b r).table i ≡ described b r i
  unfolding declare_signals
  declare_signals-table b r gives takes i =
      by_entry (get_elem? b.inputs i) (get_elem? host_signals (i - ins))
        (get_elem? b.outputs (i - (ins + 5))) refl refl refl
    where
      ins : ℕ
      ins = length b.inputs

      r1 : Region Real
      r1 = declare_bound input_direction 0 b.inputs r

      r2 : Region Real
      r2 = declare_host ins ins host_signals r1

      host_at :
          (h : HostSignal)
          → get_elem? host_signals (i - ins) ≡ some h
          → ins + (i - ins) ≡ i
          → r2.table i ≡ some (host_descriptor i h)
      host_at h f same =
          subst (λ x. r2.table x ≡ some (cut_name (host_descriptor x h))) same
            (declare_host-some ins ins host_signals r1 (i - ins) h f)
          ∙ ap some (
              cut_whole (host_descriptor i h) (
                All-get_elem? (λ (h : HostSignal). length h.name < 64) host_signals (i - ins) h
                  host_names f))

      output_at :
          (x : Bound Real)
          → get_elem? b.outputs (i - (ins + 5)) ≡ some x
          → ins + 5 + (i - (ins + 5)) ≡ i
          → (declare_bound output_direction (ins + 5) b.outputs r2).table i
            ≡ some (descriptor_of output_direction x)
      output_at x g same =
          subst
            (λ y.
              (declare_bound output_direction (ins + 5) b.outputs r2).table y
              ≡ some (cut_name (descriptor_of output_direction x)))
            same (declare_bound-some output_direction (ins + 5) b.outputs r2 (i - (ins + 5)) x g)
          ∙ ap some (
              cut_whole (descriptor_of output_direction x)
                (All-get_elem? NameFits b.outputs (i - (ins + 5)) x takes g))

      by_entry :
          (x : Option (Bound Real)) (h : Option HostSignal) (o : Option (Bound Real))
          → get_elem? b.inputs i ≡ x
          → get_elem? host_signals (i - ins) ≡ h
          → get_elem? b.outputs (i - (ins + 5)) ≡ o
          → (declare_bound output_direction (ins + 5) b.outputs r2).table i
            ≡ entry i x h o (r.table i)
      by_entry (some x) h o e f g =
          let lt = lt_length b.inputs i x e in
          declare_bound-Outside output_direction (ins + 5) b.outputs r2 i (inl (omega arith))
          ∙ declare_host-Outside ins ins host_signals r1 i (inl lt)
          ∙ ap r1.table {x = i} {y = 0 + i} (omega arith)
          ∙ declare_bound-some input_direction 0 b.inputs r i x e
          ∙ ap some (
              cut_whole (descriptor_of input_direction x)
                (All-get_elem? NameFits b.inputs i x gives e))
      by_entry none (some h) o e f g =
          let le = length_le b.inputs i e in
          let lt = lt_length host_signals (i - ins) h f in
          declare_bound-Outside output_direction (ins + 5) b.outputs r2 i (inl (omega arith))
          ∙ host_at h f (omega arith)
      by_entry none none (some x) e f g =
          let le = length_le b.inputs i e in
          let past = length_le host_signals (i - ins) f in output_at x g (omega arith)
      by_entry none none none e f g =
          let le = length_le b.inputs i e in
          let past = length_le host_signals (i - ins) f in
          let behind = length_le b.outputs (i - (ins + 5)) g in
          declare_bound-Outside output_direction (ins + 5) b.outputs r2 i (inr (omega arith))
          ∙ declare_host-Outside ins ins host_signals r1 i (inr (omega arith))
          ∙ declare_bound-Outside input_direction 0 b.inputs r i (inr (omega arith))

  declare_bound-frame :
      (direction slot : ℕ) (l : List (Bound Real)) (r : Region Real)
      → declare_bound direction slot l r
        ≡ record r { table = (declare_bound direction slot l r).table }
  unfolding declare_bound hm2_region_declare
  declare_bound-frame direction slot [] r = refl
  declare_bound-frame direction slot (b ∷ l) r = declare_bound-frame direction (slot + 1) l _

  declare_host-frame :
      (slot value_index : ℕ) (l : List HostSignal) (r : Region Real)
      → declare_host slot value_index l r
        ≡ record r { table = (declare_host slot value_index l r).table }
  unfolding declare_host hm2_region_declare
  declare_host-frame slot v [] r = refl
  declare_host-frame slot v (h ∷ l) r = declare_host-frame (slot + 1) (v + 1) l _

  -- A change of the table alone, after another.
  only_table :
      (r1 r2 r : Region Real)
      → r2 ≡ record r1 { table = r2.table }
      → r1 ≡ record r { table = r1.table }
      → r2 ≡ record r { table = r2.table }
  only_table r1 r2 r e f = e ∙ ap (λ (x : Region Real). record x { table = r2.table }) f

  -- For signals whose names fit a descriptor, as those of HAL's length do: the region that is left
  -- has in every entry of its table what the binding says, with the whole name: the inputs from
  -- index 0, then this process's own values, each with its place as its value's index, then the
  -- outputs, and behind them what was there; nothing else of the region is changed.
  pub declare_signals_lem :
      (b : Binding Real) (r : Region Real)
      → All NameFits b.inputs
      → All NameFits b.outputs
      → declare_signals b r ≡ record r { table = described b r }
  unfolding declare_signals
  declare_signals_lem b r gives takes =
      let ins = length b.inputs in
      let r1 = declare_bound input_direction 0 b.inputs r in
      let r2 = declare_host ins ins host_signals r1 in
      let r3 = declare_bound output_direction (ins + length host_signals) b.outputs r2 in
      only_table r2 r3 r
        (declare_bound-frame output_direction (ins + length host_signals) b.outputs r2)
        (only_table r1 r2 r (declare_host-frame ins ins host_signals r1)
          (declare_bound-frame input_direction 0 b.inputs r))
      ∙ ap (λ (t : ℕ → Option Descriptor). record r { table = t })
          (fun_ext (λ i. declare_signals-table b r gives takes i))
