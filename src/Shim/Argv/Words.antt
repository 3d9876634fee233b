-- ===== src/Shim/Argv/Words.antt =====
-- The arguments that a configuration string is split into, and that the array has room for them.
use driver_hostmot.Base.{
  ◌+◌, ◌*◌, ◌≤◌, ◌<◌, ◌≡◌, refl, ap, inl, inr, subst, true, false, some, List, [], ◌∷◌, ◌++◌, Text,
  if◌then◌else◌, length, arith, All, Bool-cases,
}
use driver_hostmot.Shim.Argv.{is_separator, tokens_from, strtok_all, argv_size, rtapi_argv_split}

-- An argument has some text, and no separator in it.
abbrev pub IsArgument : Text → Type 0
IsArgument w = (0 < length w) × All (λ c. is_separator c ≡ false) w

-- The arguments put together, and a text without its separators.
abbrev pub joined : List Text → Text
joined [] = []
joined (w ∷ rest) = w ++ joined rest

abbrev pub without_separators : Text → Text
without_separators [] = []
without_separators (c ∷ t) =
    if is_separator c then without_separators t else c ∷ without_separators t

-- What holds of the front token and the tokens behind it.
record IsSplit (t w : Text) (r : List Text) : Type 0 where
  front : All (λ c. is_separator c ≡ false) w
  words : All IsArgument r
  room : 2 * length r + length w ≤ length t
  whole : w ++ joined r ≡ without_separators t

tokens_from-IsSplit : (t : Text) → IsSplit t (tokens_from t).0 (tokens_from t).1
unfolding tokens_from
tokens_from-IsSplit [] = record { front = tt; words = tt; room = omega arith; whole = refl }
tokens_from-IsSplit (c ∷ t) = elim (Bool-cases (is_separator c)) [
  | inl e ↦ rw e (after e (tokens_from t).0 (tokens_from t).1 (tokens_from-IsSplit t))
  | inr e ↦
      let v = tokens_from-IsSplit t in
      rw e (record {
        front = (e, v.front);
        words = v.words;
        room = omega (arith, v.room);
        whole = rw e (ap (λ (x : Text). c ∷ x) v.whole);
      })
]
  where
    after :
        is_separator c ≡ true
        → (w : Text) (r : List Text) → IsSplit t w r
        → IsSplit (c ∷ t) [] (elim w [ [] ↦ r | d ∷ x ↦ (d ∷ x) ∷ r ])
    after e [] r v = record {
      front = tt;
      words = v.words;
      room = omega (arith, v.room);
      whole = rw e v.whole;
    }
    after e (d ∷ x) r v = record {
      front = tt;
      words = ((omega arith, v.front), v.words);
      room = omega (arith, v.room);
      whole = rw e v.whole;
    }

-- A string whose allocations succeed is split into arguments that have some text and no white space
-- in them and that put together are the string without its white space; with the closing null they
-- fit the array.
pub rtapi_argv_split_lem :
    (text : Text) (l : List Text)
    → rtapi_argv_split true (some text) ≡ some l
    → All IsArgument l × (joined l ≡ without_separators text) × (length l + 1 ≤ argv_size text)
unfolding rtapi_argv_split strtok_all
rtapi_argv_split_lem text l e = by_front (tokens_from text).0 (tokens_from-IsSplit text) (some-eq e)
  where
    some-eq : {a b : List Text} → some a ≡ some b → a ≡ b
    some-eq q = cc

    by_front :
        (w : Text)
        → IsSplit text w (tokens_from text).1
        → (elim w [ [] ↦ (tokens_from text).1 | d ∷ x ↦ (d ∷ x) ∷ (tokens_from text).1 ]) ≡ l
        → All IsArgument l × (joined l ≡ without_separators text) × (length l + 1 ≤ argv_size text)
    by_front [] v q =
        subst
          (λ l.
            All IsArgument l
            × (joined l ≡ without_separators text)
            × (length l + 1 ≤ argv_size text))
          q (v.words, v.whole, omega (arith, v.room))
    by_front (d ∷ x) v q =
        subst
          (λ l.
            All IsArgument l
            × (joined l ≡ without_separators text)
            × (length l + 1 ≤ argv_size text))
          q (((omega arith, v.front), v.words), v.whole, omega (arith, v.room))
