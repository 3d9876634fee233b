-- ===== src/Base/Bytes.antt =====
-- C strings as lists of bytes without the closing NUL, and what the code asks of them.
use Prim.Native.Nat.{ℕ, ◌-◌}
use Prim.Native.Char.{code}
use Prim.Native.String.{String}
use mathlib.Core.Path.{◌≡◌, refl, ap, sym, ◌∙◌}
use mathlib.Core.Logic.{◌↔◌}
use mathlib.Core.Bool.{Bool, true, false, ◌&&◌}
use mathlib.Core.Option.{Option, none, some}
use mathlib.Core.List.{List, [], ◌∷◌, ◌++◌}
use native.Mathlib.Omega.{arith}
use driver_hostmot.Base.Tests.{◌==◌, ==_iff, ==_refl, leb, if◌then◌else◌, &&_true, le→leb}
use driver_hostmot.Base.Lists.{length, length-append, take, drop, drop-append, take-append-drop}

abbrev pub Text : Type 0
Text = List ℕ

-- The code points of a literal: its bytes, as the literals of the source are ASCII.
abbrev pub codes : String → Text
codes String.[] = []
codes (String.◌∷◌ c s) = code c ∷ codes s

-- `strcmp(a, b) == 0`
unfoldable pub str_eq : Text → Text → Bool
str_eq [] [] = true
str_eq (a ∷ s) (b ∷ t) = a == b && str_eq s t
str_eq _ _ = false

pub str_eq_refl : (s : Text) → str_eq s s ≡ true
unfolding str_eq
str_eq_refl [] = refl
str_eq_refl (a ∷ s) = rw (==_refl a) (str_eq_refl s)

pub eq_of_str_eq : (s t : Text) → str_eq s t ≡ true → s ≡ t
unfolding str_eq
eq_of_str_eq [] [] h = refl
eq_of_str_eq [] (b ∷ t) h = cc
eq_of_str_eq (a ∷ s) [] h = cc
eq_of_str_eq (a ∷ s) (b ∷ t) h =
    let p : (((a == b) ≡ true) × (str_eq s t ≡ true)) = &&_true (a == b) (str_eq s t) h in
    cc ((==_iff a b).0 p.0, eq_of_str_eq s t p.1)

pub str_eq_iff : (s t : Text) → (str_eq s t ≡ true) ↔ (s ≡ t)
str_eq_iff s t = (eq_of_str_eq s t, λ e. rw e (str_eq_refl t))

-- `length >= tail && strcmp(name + length - tail, suffix) == 0`
unfoldable pub ends_with : Text → Text → Bool
ends_with suffix name =
    leb (length suffix) (length name) && str_eq (drop (length name - length suffix) name) suffix

ends_with_split :
    (suffix name : Text) → ends_with suffix name ≡ true → (front : Text) × (name ≡ front ++ suffix)
unfolding ends_with
ends_with_split suffix name h =
    let k : ℕ = length name - length suffix in
    let p = &&_true (leb (length suffix) (length name)) (str_eq (drop k name) suffix) h in
    (
      take k name,
      sym (take-append-drop k name)
          ∙ ap (λ t. take k name ++ t) (eq_of_str_eq (drop k name) suffix p.1),
    )

ends_with-append : (suffix front : Text) → ends_with suffix (front ++ suffix) ≡ true
unfolding ends_with
ends_with-append suffix front =
    rw
      (drop-append front suffix (length (front ++ suffix) - length suffix)
        (omega (arith, length-append front suffix)))
      (rw
        (le→leb (length suffix) (length (front ++ suffix))
          (omega (arith, length-append front suffix)))
        (str_eq_refl suffix))

-- The test finds exactly the names that are something followed by the suffix.
pub ends_with_iff :
    (suffix name : Text)
    → (ends_with suffix name ≡ true) ↔ ((front : Text) × (name ≡ front ++ suffix))
ends_with_iff suffix name = (ends_with_split suffix name, λ p. rw p.1 (ends_with-append suffix p.0))

-- Whether a text begins with another: `strncmp(text, p, strlen(p)) == 0`.
unfoldable pub starts_with : Text → Text → Bool
starts_with [] t = true
starts_with (a ∷ p) [] = false
starts_with (a ∷ p) (b ∷ t) = a == b && starts_with p t

-- `strstr(text, p)`: the text from the first place where `p` stands.
unfoldable pub find_text : Text → Text → Option Text
unfolding starts_with
find_text p [] = if starts_with p [] then some [] else none
find_text p (a ∷ t) = if starts_with p (a ∷ t) then some (a ∷ t) else find_text p t

-- `strchr(text, c)`: the text from the first `c`, beside what stands before it.
unfoldable pub split_at : ℕ → Text → Text × Option Text
split_at c [] = ([], none)
split_at c (a ∷ t) =
    let (front, rest) = split_at c t in if a == c then ([], some (a ∷ t)) else (a ∷ front, rest)
