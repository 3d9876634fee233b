-- ===== src/Shim/Cell/Laws.antt =====
-- What is written to a cell is what is read from it, and no other cell changes.
use driver_hostmot.Base.{
  ℕ, ◌+◌, ◌^◌, ◌<◌, ◌≤◌, ◌≡◌, ◌≢◌, ◌⊎◌, inl, inr, none, sym, ap, ◌∙◌, refl, true, false, Option,
  some, Option-cases, update, update_self, update_ne,
}
use driver_hostmot.Base.Int.{pos}
use driver_hostmot.Double.{Double}
use driver_hostmot.Shim.Types.{ShimType, bool_cell, sint_cell, uint_cell, real_cell, Signal}
use driver_hostmot.Shim.Cell.{Memory, nought, read, write, decode, encode, cell_get, cell_set}

module _ (d : Double) where
  open d use {Real}

  -- IEEE 754 and the conversions of C, where they are exact: a whole number of at most 53 bits.
  pub record IsExact : Type 0 where
    pub signed :
        (n : ℕ) → n ≤ 2 ^ 53 ⊎ (2 ^ 64 ≤ n + 2 ^ 53) × (n < 2 ^ 64) → d.to_s64 (d.of_s64 n) ≡ n
    pub unsigned : (n : ℕ) → n ≤ 2 ^ 53 → d.to_u64 (d.of_u64 n) ≡ n
    pub not_negative : (n : ℕ) → d.lt (d.of_u64 n) (nought d) ≡ false
    pub eq_refl : d.eq (nought d) (nought d) ≡ true
    pub one_ne_nought : d.eq (d.of_int (pos 1)) (nought d) ≡ false

  -- The values that a pin of each type can hold and a double can carry.
  abbrev pub Holds : ShimType → Real → Type 0
  Holds bool_cell v = (v ≡ nought d) ⊎ (v ≡ d.of_int (pos 1))
  Holds sint_cell v =
      (n : ℕ) × (n ≤ 2 ^ 53 ⊎ (2 ^ 64 ≤ n + 2 ^ 53) × (n < 2 ^ 64)) × (v ≡ d.of_s64 n)
  Holds uint_cell v = (n : ℕ) × (n ≤ 2 ^ 53) × (v ≡ d.of_u64 n)
  Holds real_cell v = Unit {0}

  decode-encode :
      (x : IsExact) (t : ShimType) (v : Real) → Holds t v → decode d t (encode d t v) ≡ v
  unfolding decode encode
  decode-encode x bool_cell v (inl e) = rw (e, x.eq_refl) refl
  decode-encode x bool_cell v (inr e) = rw (e, x.one_ne_nought) refl
  decode-encode x sint_cell v (n, small, e) = rw (e, x.signed n small) refl
  decode-encode x uint_cell v (n, small, e) = rw (e, x.not_negative n, x.unsigned n small) refl
  decode-encode x real_cell v h = d.of_bits-to_bits v

  -- A signal on another cell reads as before.
  pub cell_get-update_ne :
      (mem : Memory) (other : Signal) (at word : ℕ)
      → other.cell ≢ some at
      → cell_get d (update mem at word) other ≡ cell_get d mem other
  unfolding cell_get
  cell_get-update_ne mem other at word ne = by_cell other.cell ne
    where
      by_cell :
          (c : Option ℕ)
          → c ≢ some at
          → read d (update mem at word) other.type c ≡ read d mem other.type c
      by_cell none h = refl
      by_cell (some b) h =
          ap (decode d other.type) (update_ne mem at b word (λ e. h (ap some (sym e))))

  pub cell_get-some :
      (mem : Memory) (s : Signal) (at : ℕ)
      → s.cell ≡ some at
      → cell_get d mem s ≡ decode d s.type (mem at)
  unfolding cell_get
  cell_get-some mem s at e = rw (e, read)

  pub cell_set-some :
      (mem : Memory) (s : Signal) (at : ℕ) (v : Real)
      → s.cell ≡ some at
      → cell_set d mem s v ≡ update mem at (encode d s.type v)
  unfolding cell_set
  cell_set-some mem s at v e = rw (e, write)

  pub cell_set-none :
      (mem : Memory) (s : Signal) (v : Real) → s.cell ≡ none → cell_set d mem s v ≡ mem
  unfolding cell_set
  cell_set-none mem s v e = rw (e, write)

  -- What a write leaves at the signal's own cell and at any other.
  pub cell_set-at :
      (mem : Memory) (s : Signal) (at : ℕ) (v : Real)
      → s.cell ≡ some at
      → cell_set d mem s v at ≡ encode d s.type v
  cell_set-at mem s at v e =
      ap (λ (m : Memory). m at) (cell_set-some mem s at v e)
      ∙ update_self mem at (encode d s.type v)

  pub cell_set-elsewhere :
      (mem : Memory) (s : Signal) (at : ℕ) (v : Real)
      → s.cell ≢ some at
      → cell_set d mem s v at ≡ mem at
  cell_set-elsewhere mem s at v ne = elim (Option-cases s.cell) [
    | inl e ↦ ap (λ (m : Memory). m at) (cell_set-none mem s v e)
    | inr (a, e) ↦
        ap (λ (m : Memory). m at) (cell_set-some mem s a v e)
        ∙ update_ne mem a at (encode d s.type v) (λ same. ne (e ∙ ap some same))
  ]

  -- Where the conversions are exact on whole numbers of at most 53 bits, a value that the pin can hold
  -- is read back as it was written, and every signal on another cell reads as before.
  pub cell_get-cell_set :
      (x : IsExact) (mem : Memory) (s other : Signal) (at : ℕ) (v : Real)
      → s.cell ≡ some at
      → Holds s.type v
      → other.cell ≢ some at
      → (cell_get d (cell_set d mem s v) s ≡ v)
        × (cell_get d (cell_set d mem s v) other ≡ cell_get d mem other)
  cell_get-cell_set x mem s other at v e h ne = rw (cell_set-some mem s at v e) (
    cell_get-some (update mem at (encode d s.type v)) s at e
        ∙ ap (decode d s.type) (update_self mem at (encode d s.type v))
        ∙ decode-encode x s.type v h,
    cell_get-update_ne mem other at (encode d s.type v) ne,
  )
