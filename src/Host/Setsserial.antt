-- ===== src/Host/Setsserial.antt =====
-- The arguments of hm2-host and its mode --setsserial (host/main.c): which commands are taken, how a
-- command is put together, what is listed and what is handed to the setsserial module.
pub mod Command
pub mod Mode
use driver_hostmot.Base.{
  ℕ, ◌+◌, Bool, true, false, not, ◌&&◌, ◌||◌, Option, none, some, List, [], ◌∷◌, ◌++◌, Text, codes,
  ◌==◌, ltb, leb, if◌then◌else◌, length, str_eq, starts_with,
}
use driver_hostmot.Base.Int.{ℤ, pos, negsuc}
use driver_hostmot.Double.{Double}
use driver_hostmot.Shim.Cell.{Memory, cell_get}
use driver_hostmot.Shim.Params.{Params, DeclaredParam, view_of}
use driver_hostmot.Shim.ModuleParams.{
  Module, Placing, placed, absent, refused, hm2_shim_set_module_param,
}

unfoldable pub setsserial_command : Text → Bool
setsserial_command word = str_eq word (codes "set") || str_eq word (codes "flash")

-- What the arguments behind the program's name come to: the two refusals, both with status 2, or a
-- run.
pub data Arguments : Type 0 where
  usage not_a_command : Arguments
  run : (setsserial : Bool) (config_path module_dir : Text) (words : List Text) → Arguments

-- The words of a command, where there are any.
abbrev check_words : Bool → Text → Text → List Text → Arguments
check_words setsserial config_path module_dir [] = run setsserial config_path module_dir []
check_words setsserial config_path module_dir (word ∷ words) =
    if not setsserial || (not (length (word ∷ words) == 3) || not (setsserial_command word))
    then not_a_command
    else run setsserial config_path module_dir (word ∷ words)

-- Behind the configuration file.
abbrev take_module_dir : Bool → Text → List Text → Arguments
take_module_dir setsserial config_path [] = check_words setsserial config_path (codes ".") []
take_module_dir setsserial config_path (word ∷ words) =
    if not (setsserial_command word)
    then check_words setsserial config_path word words
    else check_words setsserial config_path (codes ".") (word ∷ words)

abbrev take_config : Bool → List Text → Arguments
take_config setsserial [] = usage
take_config setsserial (path ∷ words) = take_module_dir setsserial path words

unfoldable pub read_arguments : List Text → Arguments
read_arguments [] = usage
read_arguments (word ∷ words) =
    if str_eq word (codes "--setsserial")
    then take_config true words
    else take_config false (word ∷ words)

-- `char command[1024]`
abbrev pub command_size : ℕ
command_size = 1024

-- The loop that puts the words into `command`; `none` is the error of one that is too long.
unfoldable pub add_words : (i : ℕ) (command : Text) → List Text → Option Text
add_words i command [] = some command
add_words i command (word ∷ words) =
    let rest =
      add_words (i + 1) ((if ltb 0 i then command ++ b' ' ∷ [] else command) ++ word) words in
    if ltb command_size (length command + length word + 2) then none else rest

-- The part of a name behind its last dot: `strrchr(name, '.') + 1`.
unfoldable pub leaf_of : Text → Option Text
leaf_of [] = none
leaf_of (c ∷ name) =
    let later = leaf_of name in
    elim later [ some leaf ↦ some leaf | none ↦ if c == b'.' then some name else none ]

-- `leaf && strncmp(leaf + 1, "nv", 2) == 0`
unfoldable pub is_stored : Text → Bool
is_stored name = elim (leaf_of name) [ none ↦ false | some leaf ↦ starts_with (codes "nv") leaf ]

-- What the setsserial module does with a command; `none` where it cannot be loaded.
pub record Setter : Type 0 where
  pub module_of : Module
  pub app_main : Module → ℤ

-- The status 0, and what was listed and run.
pub record Served (Real : Type 0) : Type 0 where
  pub ok : Bool
  pub listed : List (Text × Real × Bool)
  pub ran : Option (Module × ℤ)

abbrev pub is_zero : ℤ → Bool
is_zero (pos n) = n == 0
is_zero (negsuc n) = false

module _ (d : Double) where
  -- `list_sserial`: `finds` is hm2_get_sserial of libhostmot2, `none` where it exports none.
  unfoldable pub list_params :
      (Text → Bool) → Memory → List DeclaredParam → List (Text × d.Real × Bool)
  list_params finds mem [] = []
  list_params finds mem (q ∷ rest) =
      let others = list_params finds mem rest in
      if finds q.name
      then (q.name, cell_get d mem (view_of q), is_stored q.name) ∷ others
      else others

  unfoldable pub list_sserial :
      Option (Text → Bool) → Memory → Params d.Real → List (Text × d.Real × Bool)
  list_sserial none mem p = []
  list_sserial (some finds) mem p = list_params finds mem p.declared

-- `run_setsserial`: the module with its `cmd` as its main function found it, and the status; `none`
-- is -1 before the module is run.
unfoldable pub run_setsserial :
    (strtol : Text → ℤ) (dup : Bool) → Option Setter → Text → Option (Module × ℤ)
run_setsserial strtol dup none command = none
run_setsserial strtol dup (some s) command =
    let (set, m) =
      hm2_shim_set_module_param strtol dup (some (codes "cmd")) 0 (some command) s.module_of in
    elim set [ placed ↦ some (m, s.app_main m) | _ ↦ none ]

module _ (d : Double) where
  unfoldable pub setsserial_mode :
      (strtol : Text → ℤ) (dup : Bool)
      → Option Setter
      → Option (Text → Bool)
      → Memory
      → Params d.Real
      → List Text
      → Served d.Real
  setsserial_mode strtol dup setter finds mem p [] =
      let listed = list_sserial d finds mem p in
      record { ok = ltb 0 (length listed); listed = listed; ran = none }
  setsserial_mode strtol dup setter finds mem p (word ∷ words) =
      let listed = list_sserial d finds mem p in
      elim (add_words 0 [] (word ∷ words)) [
        | none ↦ record { ok = false; listed = listed; ran = none }
        | some command ↦ elim (run_setsserial strtol dup setter command) [
          | none ↦ record { ok = false; listed = listed; ran = none }
          | some (m, status) ↦ record {
            ok = is_zero status;
            listed = listed;
            ran = some (m, status);
          }
        ]
      ]
