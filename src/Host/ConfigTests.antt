-- ===== src/Host/ConfigTests.antt =====
-- The configuration file on a concrete file of four lines, with the numbers of libc read in decimal.
use driver_hostmot.Base.{
  ℕ, ◌+◌, ◌-◌, ◌*◌, ◌≡◌, refl, true, false, ◌&&◌, some, List, [], ◌∷◌, codes, Text, All, str_eq,
  leb, if◌then◌else◌, starts_with, split_at,
}
use driver_hostmot.Base.Int.{ℤ, pos}
use driver_hostmot.Concrete.{tenths}
use driver_hostmot.Host.Config.Lines.{read_line}
use driver_hostmot.Host.Config.Keys.{
  Libc, Config, defaults, set_key, add_pin, set_scalar, parse_pin_value,
}
use driver_hostmot.Host.Config.Load.{hm2_config_load, take_lines, take_line, acceptable}
use driver_hostmot.Host.Config.Allowed.{IsUnderstood}
use driver_hostmot.Host.Config.Accepted.{IsUsable, IsTidy, hm2_config_load_lem}

-- The digits at the front of a text: their number, and how many there are.
digits : ℕ → ℕ → Text → ℕ × ℕ
digits value taken [] = (value, taken)
digits value taken (c ∷ t) =
    let rest = digits (value * 10 + (c - 48)) (taken + 1) t in
    if leb 48 c && leb c 57 then rest else (value, taken)

abbrev pub decimal : Libc tenths
unfolding digits
decimal = record {
  strtoul = λ base t. (digits 0 0 t).0;
  strtol = λ t. pos (digits 0 0 t).0;
  strtod = λ t. (pos (10 * (digits 0 0 t).0), (digits 0 0 t).1, false);
  isfinite = λ x. true;
  one_and_a_half = pos 15;
  four_fifths = pos 8;
}

abbrev pub file : List Text
file =
    codes "# hosts\n"
    ∷ codes "cycle_us = 500\n"
    ∷ codes "pin.s.max = 6\n"
    ∷ codes "same_cycle = 0"
    ∷ []

abbrev pub loaded : Config ℤ
loaded = record (defaults tenths decimal) {
  cycle_us = 500;
  same_cycle = false;
  pins = record { name = codes "s.max"; value = pos 60; line = 3 } ∷ [];
}

pub loaded_is : hm2_config_load tenths decimal (λ _. true) (some file) ≡ some loaded
unfolding hm2_config_load take_lines take_line read_line split_at set_key starts_with set_scalar
    str_eq parse_pin_value decimal add_pin defaults acceptable
loaded_is = refl

hm2_config_load_lem_example :
    IsUsable tenths decimal loaded × IsTidy loaded × All (IsUnderstood tenths decimal) file
hm2_config_load_lem_example = hm2_config_load_lem tenths decimal (λ _. true) file loaded loaded_is
