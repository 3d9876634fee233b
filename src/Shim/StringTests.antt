-- ===== src/Shim/StringTests.antt =====
-- Messages and configuration strings on concrete inputs.
use driver_hostmot.Base.{
  ◌+◌, ◌≤◌, ◌≡◌, refl, some, List, [], ◌∷◌, ◌++◌, Text, codes, arith, All, Bool,
}
use driver_hostmot.Shim.Messages.{Log, gather}
use driver_hostmot.Shim.Messages.Whole.{IsPending, IsLine, gather_lem, gather_in_parts}
use driver_hostmot.Shim.Argv.{rtapi_argv_split, strtok_all, argv_size}
use driver_hostmot.Shim.Argv.Words.{IsArgument, joined, without_separators, rtapi_argv_split_lem}

abbrev log : Log
log = record { pending = codes "hm2: "; pending_level = 3; msg_level = 3 }

log-IsPending : IsPending log
log-IsPending = record {
  short = omega arith;
  one_line = (
    λ e. absurd (omega arith),
    (
      λ e. absurd (omega arith),
      (λ e. absurd (omega arith), (λ e. absurd (omega arith), (λ e. absurd (omega arith), tt))),
    ),
  );
}

gather_lem_example :
    IsPending (gather 1 (some (codes "board\n no")) log).0
    × All (IsLine 3) (gather 1 (some (codes "board\n no")) log).1
gather_lem_example = gather_lem 1 (some (codes "board\n no")) log log-IsPending

gather_in_parts_example :
    let first = gather 1 (some (codes "bo")) log in
    let second = gather 1 (some (codes "ard\n")) first.0 in
    gather 1 (some (codes "board\n")) log ≡ (second.0, first.1 ++ second.1)
gather_in_parts_example = gather_in_parts 1 (codes "bo") (codes "ard\n") log (omega arith)

abbrev arguments : List Text
arguments = codes "num_encoders=3" ∷ codes "num_pwmgens=3" ∷ []

split_into :
    rtapi_argv_split Bool.true (some (codes " num_encoders=3  num_pwmgens=3\n")) ≡ some arguments
unfolding rtapi_argv_split strtok_all
split_into = refl

rtapi_argv_split_lem_example :
    All IsArgument arguments
    × (joined arguments ≡ without_separators (codes " num_encoders=3  num_pwmgens=3\n"))
    × (2 + 1 ≤ argv_size (codes " num_encoders=3  num_pwmgens=3\n"))
rtapi_argv_split_lem_example =
    rtapi_argv_split_lem (codes " num_encoders=3  num_pwmgens=3\n") arguments split_into
