-- ===== src/Host/LogRing/Contents.antt =====
-- The lines in the slots of the ring from the tail on, oldest first.
use driver_hostmot.Base.{
  ℕ, zero, suc, ◌+◌, ◌-◌, ◌%◌, ◌^◌, ◌≤◌, ◌<◌, ◌≡◌, refl, ap, ap₂, sym, ◌∙◌, List, [], ◌∷◌, ◌++◌,
  Text, arith, length, update, update_ne,
}
use driver_hostmot.Host.LogRing.{
  log_slots, depth, Writer, resting, draining, printed, drained, returned,
}
use driver_hostmot.Host.Region.{add64}

abbrev pub items : (ℕ → Text) → ℕ → ℕ → List Text
items slots at zero = []
items slots at (suc n) = slots (at % log_slots) ∷ items slots (at + 1) n

pub items-mod :
    (slots : ℕ → Text) (a b n : ℕ)
    → a % log_slots ≡ b % log_slots
    → items slots a n ≡ items slots b n
items-mod slots a b zero e = refl
items-mod slots a b (suc n) e =
    ap₂ (λ (x : Text) (l : List Text). x ∷ l) (ap slots e)
      (items-mod slots (a + 1) (b + 1) n (omega arith))

pub length-items : (slots : ℕ → Text) (at n : ℕ) → length (items slots at n) ≡ n
length-items slots at zero = refl
length-items slots at (suc n) = omega (arith, length-items slots (at + 1) n)

pub items-snoc :
    (slots : ℕ → Text) (at n : ℕ)
    → items slots at (suc n) ≡ items slots at n ++ slots ((at + n) % log_slots) ∷ []
items-snoc slots at zero =
    ap (λ (k : ℕ). slots (k % log_slots) ∷ []) {x = at} {y = at + 0} (omega arith)
items-snoc slots at (suc n) =
    ap (λ l. slots (at % log_slots) ∷ l)
      (items-snoc slots (at + 1) n
        ∙ ap (λ (k : ℕ). items slots (at + 1) n ++ slots (k % log_slots) ∷ []) {x = at + 1 + n}
            {y = at + suc n} (omega arith))

-- A store to a free slot changes no line that waits.
pub items-update :
    (slots : ℕ → Text) (at n free : ℕ) (line : Text)
    → at + n ≤ free
    → free < at + log_slots
    → items (update slots (free % log_slots) line) at n ≡ items slots at n
items-update slots at zero free line le lt = refl
items-update slots at (suc n) free line le lt =
    ap₂ (λ (x : Text) (l : List Text). x ∷ l)
      (update_ne slots (free % log_slots) (at % log_slots) line (λ e. absurd (omega arith)))
      (items-update slots (at + 1) n free line (omega arith) (omega arith))

-- The lines that wait for the writer: one that it has printed waits no more, though its slot is held.
abbrev pub waiting_for : Writer → (ℕ → Text) → (tail depth : ℕ) → List Text
waiting_for (printed seen) slots tail n = items slots (tail + 1) (n - 1)
waiting_for (draining seen) slots tail n = items slots tail n
waiting_for resting slots tail n = items slots tail n
waiting_for drained slots tail n = items slots tail n
waiting_for returned slots tail n = items slots tail n

-- The writer saw a head that the producer has reached, and holds a line that is there.
abbrev pub WriterFits : Writer → (head tail : ℕ) → Type 0
WriterFits (draining seen) head tail = (seen < 2 ^ 64) × (depth seen tail ≤ depth head tail)
WriterFits (printed seen) head tail =
    (seen < 2 ^ 64) × (depth seen tail ≤ depth head tail) × (1 ≤ depth seen tail)
WriterFits resting head tail = Unit
WriterFits drained head tail = Unit
WriterFits returned head tail = Unit

pub waiting-publish :
    (w : Writer) (slots : ℕ → Text) (head tail : ℕ)
    → head < 2 ^ 64
    → tail < 2 ^ 64
    → depth head tail < log_slots
    → WriterFits w head tail
    → waiting_for w slots tail (depth (add64 head 1) tail)
      ≡ waiting_for w slots tail (depth head tail) ++ slots (head % log_slots) ∷ []
waiting-publish w slots head tail hh ht room fits = by_writer w fits
  where
    whole :
        items slots tail (depth (add64 head 1) tail)
        ≡ items slots tail (depth head tail) ++ slots (head % log_slots) ∷ []
    whole =
        ap (items slots tail) {x = depth (add64 head 1) tail} {y = suc (depth head tail)}
          (omega arith)
        ∙ items-snoc slots tail (depth head tail)
        ∙ ap (λ (k : ℕ). items slots tail (depth head tail) ++ slots k ∷ [])
            {x = (tail + depth head tail) % log_slots} {y = head % log_slots} (omega arith)

    held :
        1 ≤ depth head tail
        → items slots (tail + 1) (depth (add64 head 1) tail - 1)
          ≡ items slots (tail + 1) (depth head tail - 1) ++ slots (head % log_slots) ∷ []
    held some_line =
        ap (items slots (tail + 1)) {x = depth (add64 head 1) tail - 1}
          {y = suc (depth head tail - 1)} (omega arith)
        ∙ items-snoc slots (tail + 1) (depth head tail - 1)
        ∙ ap (λ (k : ℕ). items slots (tail + 1) (depth head tail - 1) ++ slots k ∷ [])
            {x = (tail + 1 + (depth head tail - 1)) % log_slots} {y = head % log_slots}
            (omega arith)

    by_writer :
        (w : Writer)
        → WriterFits w head tail
        → waiting_for w slots tail (depth (add64 head 1) tail)
          ≡ waiting_for w slots tail (depth head tail) ++ slots (head % log_slots) ∷ []
    by_writer resting f = whole
    by_writer (draining seen) f = whole
    by_writer (printed seen) f = held (omega arith)
    by_writer drained f = whole
    by_writer returned f = whole

pub waiting-copy :
    (w : Writer) (slots : ℕ → Text) (head tail : ℕ) (line : Text)
    → head < 2 ^ 64
    → tail < 2 ^ 64
    → depth head tail < log_slots
    → WriterFits w head tail
    → waiting_for w (update slots (head % log_slots) line) tail (depth head tail)
      ≡ waiting_for w slots tail (depth head tail)
waiting-copy w slots head tail line hh ht room fits = by_writer w fits
  where
    n : ℕ
    n = depth head tail

    same : (tail + n) % log_slots ≡ head % log_slots
    same = omega arith

    whole : items (update slots (head % log_slots) line) tail n ≡ items slots tail n
    whole =
        ap (λ (k : ℕ). items (update slots k line) tail n) (sym same)
        ∙ items-update slots tail n (tail + n) line (omega arith) (omega arith)

    held :
        1 ≤ n
        → items (update slots (head % log_slots) line) (tail + 1) (n - 1)
          ≡ items slots (tail + 1) (n - 1)
    held some_line =
        ap (λ (k : ℕ). items (update slots k line) (tail + 1) (n - 1)) (sym same)
        ∙ items-update slots (tail + 1) (n - 1) (tail + n) line (omega arith) (omega arith)

    by_writer :
        (w : Writer)
        → WriterFits w head tail
        → waiting_for w (update slots (head % log_slots) line) tail n ≡ waiting_for w slots tail n
    by_writer resting f = whole
    by_writer (draining seen) f = whole
    by_writer (printed seen) f = held (omega arith)
    by_writer drained f = whole
    by_writer returned f = whole
