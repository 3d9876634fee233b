-- ===== src/Host/Config/Lines.antt =====
-- From a line of the file to a key and a value (`trim`, `split_index` and the head of the loop of
-- `hm2_config_load` in host/config.c).
use driver_hostmot.Base.{
  ℕ, Bool, ◌||◌, ◌&&◌, Option, none, some, [], ◌∷◌, Text, ◌==◌, leb, if◌then◌else◌, split_at,
}

-- `isspace` in the C locale: tab to carriage return, and the space.
abbrev pub is_space : ℕ → Bool
is_space c = c == 32 || leb 9 c && leb c 13

unfoldable pub trim_front : Text → Text
trim_front [] = []
trim_front (c ∷ t) = if is_space c then trim_front t else c ∷ t

unfoldable pub trim_back : Text → Text
trim_back [] = []
trim_back (c ∷ t) =
    let rest = trim_back t in
    if is_space c then (elim rest [ [] ↦ [] | d ∷ r ↦ c ∷ d ∷ r ]) else c ∷ rest

unfoldable pub trim : Text → Text
unfolding trim_front trim_back
trim text = trim_back (trim_front text)

-- What is before the first such character, and what is behind it.
abbrev pub cut : ℕ → Text → Text × Option Text
cut c text =
    let (front, rest) = split_at c text in
    (front, elim rest [ none ↦ none | some [] ↦ some [] | some (x ∷ r) ↦ some r ])

-- What a line of the file is.
pub data Line : Type 0 where
  blank : Line
  no_equals : Line
  setting : (key value : Text) → Line

abbrev classify : Text → Line
classify [] = blank
classify (c ∷ t) =
    let (key, rest) = cut b'=' (c ∷ t) in
    elim rest [ none ↦ no_equals | some value ↦ setting (trim key) (trim value) ]

-- The comment is cut, the rest trimmed and split at its first `=`.
unfoldable pub read_line : Text → Line
unfolding trim
read_line chunk = classify (trim (cut b'#' chunk).0)
