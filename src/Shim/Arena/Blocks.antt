-- ===== src/Shim/Arena/Blocks.antt =====
-- Blocks of the arena are aligned, lie inside it and never overlap (`hal_malloc`).
use driver_hostmot.Base.{
  ℕ, ◌+◌, ◌*◌, ◌/◌, ◌%◌, ◌^◌, ◌≤◌, ◌<◌, ◌≡◌, ◌↔◌, true, none, some, arith, ltb, if◌then◌else◌,
}
use driver_hostmot.Base.Int.{ℤ, pos, negsuc}
use driver_hostmot.Shim.Arena.{Arena, hal_malloc}

pub record IsSound (a : Arena) : Type 0 where
  pub within : a.used ≤ a.size
  pub aligned : a.used % 8 ≡ 0
  pub bounded : a.size < 2 ^ 63

-- A call of `hal_malloc`, whatever it returns.
pub data Step (a : Arena) : Arena → Type 0 where
  call : (n : ℤ) → Step a (hal_malloc n a).1

pub data Later (a : Arena) : Arena → Type 0 where
  here : Later a a
  next : {b c : Arena} → Later a b → Step b c → Later a c

pub hal_malloc-IsSound : (n : ℤ) (a : Arena) → IsSound a → IsSound (hal_malloc n a).1
unfolding hal_malloc
hal_malloc-IsSound (pos n) a v = ground arith
hal_malloc-IsSound (negsuc n) a v = v

pub used-le-hal_malloc :
    (n : ℤ) (a : Arena)
    → IsSound a
    → (a.used ≤ (hal_malloc n a).1.used) × ((hal_malloc n a).1.size ≡ a.size)
unfolding hal_malloc
used-le-hal_malloc (pos n) a v = ground arith
used-le-hal_malloc (negsuc n) a v = omega arith

-- From one arena to another that the allocator left: sound, and nothing given back.
pub record Onward (a b : Arena) : Type 0 where
  pub sound : IsSound b
  pub used_le : a.used ≤ b.used
  pub size_eq : b.size ≡ a.size

pub hal_malloc-Onward : (n : ℕ) (a : Arena) → IsSound a → Onward a (hal_malloc (pos n) a).1
hal_malloc-Onward n a v =
    let h = used-le-hal_malloc (pos n) a v in
    record { sound = hal_malloc-IsSound (pos n) a v; used_le = h.0; size_eq = h.1 }

pub Onward-trans : {a b c : Arena} → Onward a b → Onward b c → Onward a c
Onward-trans h k = record { sound = k.sound; used_le = omega arith; size_eq = omega arith }

pub Later-used :
    {a b : Arena} → IsSound a → Later a b → IsSound b × (a.used ≤ b.used) × (b.size ≡ a.size)
Later-used v here = (v, omega arith, omega arith)
Later-used v (next r (call n)) =
    let h = Later-used v r in
    let m = used-le-hal_malloc n _ h.0 in (hal_malloc-IsSound n _ h.0, omega arith, omega arith)

-- A block that is handed out is eight-byte aligned and lies in the part that the arena had free.
pub hal_malloc-block :
    (n p : ℕ) (a : Arena)
    → IsSound a
    → n < 2 ^ 63
    → (hal_malloc (pos n) a).0 ≡ some p
    → (p % 8 ≡ 0)
      × (p ≡ a.used)
      × (p + n ≤ (hal_malloc (pos n) a).1.used)
      × ((hal_malloc (pos n) a).1.used ≤ a.size)
unfolding hal_malloc
hal_malloc-block n p a v h e = ground arith

-- In a sound arena, two blocks of less than 2 ^ 63 bytes do not overlap, however many calls, failed ones among them, lie between: the later
-- block begins at or after the end of the earlier one.
pub hal_malloc_disjoint :
    (m n p q : ℕ) (a c : Arena)
    → IsSound a
    → m < 2 ^ 63
    → n < 2 ^ 63
    → (hal_malloc (pos m) a).0 ≡ some p
    → Later (hal_malloc (pos m) a).1 c
    → (hal_malloc (pos n) c).0 ≡ some q
    → (p + m ≤ q) × (q + n ≤ a.size)
hal_malloc_disjoint m n p q a c v hm hn ep r eq =
    let first = hal_malloc-block m p a v hm ep in
    let between = Later-used (hal_malloc-IsSound (pos m) a v) r in
    let second = hal_malloc-block n q c between.0 hn eq in
    let kept = used-le-hal_malloc (pos m) a v in omega arith

-- A request fails exactly when what is left of a sound, mapped arena is smaller than the size
-- rounded up to eight; what is in use grows by that size where it succeeds and by nothing where it
-- fails.
hal_malloc_fails :
    (n : ℕ) (a : Arena)
    → IsSound a
    → a.mapped ≡ true
    → n < 2 ^ 63
    → (((hal_malloc (pos n) a).0 ≡ none) ↔ (a.size < a.used + (n + 7) / 8 * 8))
      × ((hal_malloc (pos n) a).1.used
          ≡ (if ltb a.size (a.used + (n + 7) / 8 * 8) then a.used else a.used + (n + 7) / 8 * 8))
unfolding hal_malloc
hal_malloc_fails n a v mapped h = ((λ e. ground arith, λ e. ground arith), ground arith)
