-- ===== src/Host/Setsserial/Mode.antt =====
-- What the arguments of hm2-host are taken for, and what --setsserial runs.
use driver_hostmot.Base.{
  ◌≡◌, ◌⊎◌, inl, inr, refl, Bool, true, false, not, List, [], ◌∷◌, Text, codes, arith, ◌==◌,
  if◌then◌else◌, length, str_eq, eq_of_str_eq, Bool-cases,
}
use driver_hostmot.Host.Setsserial.{
  Arguments, usage, not_a_command, run, setsserial_command, read_arguments, check_words,
  take_config,
}

-- What may be run: nothing, or with --setsserial one of the two commands with its two words.
pub data IsCommand : Bool → List Text → Type 0 where
  no_command : (setsserial : Bool) → IsCommand setsserial []
  three_words :
      (word a b : Text)
      → (word ≡ codes "set") ⊎ (word ≡ codes "flash")
      → IsCommand true (word ∷ a ∷ b ∷ [])

-- Of a run that the arguments come to.
abbrev pub Sensible : Arguments → Type 0
Sensible usage = Unit
Sensible not_a_command = Unit
Sensible (run setsserial config_path module_dir words) =
    IsCommand setsserial words × (setsserial_command module_dir ≡ false)

command_word :
    (word : Text) → setsserial_command word ≡ true → (word ≡ codes "set") ⊎ (word ≡ codes "flash")
unfolding setsserial_command
command_word word e = elim (Bool-cases (str_eq word (codes "set"))) [
  | inl set ↦ inl (eq_of_str_eq word (codes "set") set)
  | inr other ↦ inr (eq_of_str_eq word (codes "flash") (ground arith))
]

check_words-Sensible :
    (setsserial : Bool) (path dir : Text) (words : List Text)
    → setsserial_command dir ≡ false
    → Sensible (check_words setsserial path dir words)
check_words-Sensible setsserial path dir [] fine = (no_command setsserial, fine)
check_words-Sensible false path dir (word ∷ words) fine = tt
check_words-Sensible true path dir (word ∷ []) fine = tt
check_words-Sensible true path dir (word ∷ a ∷ []) fine = tt
check_words-Sensible true path dir (word ∷ a ∷ b ∷ []) fine =
    elim (Bool-cases (setsserial_command word)) [
      | inl known ↦ rw known (three_words word a b (command_word word known), fine)
      | inr unknown ↦ rw unknown tt
    ]
check_words-Sensible true path dir (word ∷ a ∷ b ∷ c ∷ rest) fine =
    let four : (length (word ∷ a ∷ b ∷ c ∷ rest) == 3) ≡ false = ground arith in rw four tt

dot_is_no_command : setsserial_command (codes ".") ≡ false
unfolding setsserial_command str_eq
dot_is_no_command = refl

if-Sensible :
    (c : Bool) (x y : Arguments)
    → (c ≡ true → Sensible x)
    → (c ≡ false → Sensible y)
    → Sensible (if c then x else y)
if-Sensible true x y h k = h refl
if-Sensible false x y h k = k refl

take_config-Sensible :
    (setsserial : Bool) (words : List Text) → Sensible (take_config setsserial words)
take_config-Sensible setsserial [] = tt
take_config-Sensible setsserial (path ∷ []) = (no_command setsserial, dot_is_no_command)
take_config-Sensible setsserial (path ∷ word ∷ words) =
    if-Sensible (not (setsserial_command word)) (check_words setsserial path word words)
      (check_words setsserial path (codes ".") (word ∷ words))
      (λ dir. check_words-Sensible setsserial path word words (ground arith))
      (λ known. check_words-Sensible setsserial path (codes ".") (word ∷ words) dot_is_no_command)

-- Whatever the arguments: a run has a command only with --setsserial, and then it is set or flash with
-- two words more; and the module directory is neither of the two words.
pub read_arguments_lem : (words : List Text) → Sensible (read_arguments words)
unfolding read_arguments
read_arguments_lem [] = tt
read_arguments_lem (word ∷ words) = elim (Bool-cases (str_eq word (codes "--setsserial"))) [
  | inl mode ↦ rw mode (take_config-Sensible true words)
  | inr path ↦ rw path (take_config-Sensible false (word ∷ words))
]
