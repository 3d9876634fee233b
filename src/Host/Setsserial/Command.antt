-- ===== src/Host/Setsserial/Command.antt =====
-- Which commands the arguments can carry, and the text that a command becomes.
use driver_hostmot.Base.{
  ap₂, ℕ, suc, ◌+◌, ◌<◌, ◌≡◌, inl, inr, ap, ◌∙◌, Bool, true, Option, none, some, List, [], ◌∷◌,
  ◌++◌, Text, arith, append_assoc, append-nil, ltb, if◌then◌else◌, length, length-append,
  Bool-cases,
}
use driver_hostmot.Host.Setsserial.{command_size, add_words}

-- The words with a space between any two.
abbrev pub spaced : List Text → Text
spaced [] = []
spaced (word ∷ words) = b' ' ∷ (word ++ spaced words)

abbrev pub joined : List Text → Text
joined [] = []
joined (word ∷ words) = word ++ spaced words

-- A command that fits the array with its NUL.
abbrev pub kept : Text → Option Text
kept command = if ltb (length command) command_size then some command else none

-- Behind the first word.
add_words-spaced :
    (i : ℕ) (command : Text) (words : List Text)
    → length command < command_size
    → add_words (suc i) command words ≡ kept (command ++ spaced words)
unfolding add_words
add_words-spaced i command [] short = rw (append-nil command) (ground arith)
add_words-spaced i command (word ∷ words) short =
    let longer : Text = (command ++ b' ' ∷ []) ++ word in
    let same : longer ++ spaced words ≡ command ++ (b' ' ∷ (word ++ spaced words)) =
      append_assoc (command ++ b' ' ∷ []) word (spaced words)
      ∙ append_assoc command (b' ' ∷ []) (word ++ spaced words) in
    let size : length longer ≡ length command + length word + 1 =
      omega (arith, length-append (command ++ b' ' ∷ []) word, length-append command (b' ' ∷ [])) in
    let whole = length-append longer (spaced words) in
    let next : add_words (suc i + 1)
          ((if ltb 0 (suc i) then command ++ b' ' ∷ [] else command) ++ word) words
        ≡ add_words (suc (suc i)) longer words =
      ap₂
        (λ (n : ℕ) (b : Bool).
          add_words n ((if b then command ++ b' ' ∷ [] else command) ++ word) words)
        {x = suc i + 1} {y = suc (suc i)} {u = ltb 0 (suc i)} {v = true} (omega arith)
        (ground arith) in
    elim (Bool-cases (ltb command_size (length command + length word + 2))) [
      | inl long ↦ rw (add_words, long) (ground (arith, size, whole, ap length same))
      | inr fits ↦
          rw (add_words, fits)
            (next ∙ add_words-spaced (suc i) longer words (ground (arith, size)) ∙ ap kept same)
    ]

-- Two words and more become the words with a space between any two, if that fits the array of 1024
-- bytes with its NUL, and are refused otherwise.
pub add_words_lem :
    (first second : Text) (words : List Text)
    → add_words 0 [] (first ∷ second ∷ words) ≡ kept (joined (first ∷ second ∷ words))
unfolding add_words
add_words_lem first second words = elim (Bool-cases (ltb command_size (0 + length first + 2))) [
  | inl long ↦ rw (add_words, long) (ground (arith, length-append first (spaced (second ∷ words))))
  | inr fits ↦ rw (add_words, fits) (add_words-spaced 0 first (second ∷ words) (ground arith))
]
