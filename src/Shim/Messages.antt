-- ===== src/Shim/Messages.antt =====
-- The driver's messages (shim/rtapi_shim.c): fragments are gathered into lines. What `vsnprintf`
-- makes of the format and its arguments is an argument: `none` where it fails. A line that is handed
-- to the sink is a pair of its level and its text.
pub mod Whole
use driver_hostmot.Base.{
  ℕ, ◌+◌, ◌-◌, Bool, true, false, ◌&&◌, Option, none, some, List, [], ◌∷◌, ◌++◌, Text, ◌==◌, ltb,
  leb, if◌then◌else◌, length, take,
}

-- A line as the sink gets it.
pub record Message : Type 0 where
  pub level : ℕ
  pub text : Text

-- `pending`, `pending_level` and `msg_level`; RTAPI's levels are 0 to 5.
pub record Log : Type 0 where
  pub pending : Text
  pub pending_level : ℕ
  pub msg_level : ℕ

-- The size of the arrays `pending` and `chunk`.
abbrev pub line_size : ℕ
line_size = 1024

-- `\n`
abbrev pub newline : ℕ
newline = 10

-- One byte of a chunk at that level.
unfoldable pub gather_byte : ℕ → ℕ → Log → Log × List Message
gather_byte level c s =
    if c == newline
    then (
      record s { pending = []; pending_level = level },
      if ltb 0 (length s.pending) && leb s.pending_level s.msg_level
          then record { level = s.pending_level; text = s.pending } ∷ []
          else [],
    )
    else if ltb (length s.pending + 1) line_size
    then (record s { pending = s.pending ++ c ∷ [] }, [])
    else (s, [])

unfoldable pub gather_bytes : ℕ → Text → Log → Log × List Message
gather_bytes level [] s = (s, [])
gather_bytes level (c ∷ t) s =
    let (s', sent) = gather_byte level c s in
    let (s'', rest) = gather_bytes level t s' in (s'', sent ++ rest)

-- `gather`, behind `rtapi_print_msg` and `rtapi_print`. `vsnprintf` cuts a chunk at 1023 bytes.
unfoldable pub gather : ℕ → Option Text → Log → Log × List Message
gather level none s = (s, [])
gather level (some text) s =
    gather_bytes level (take (line_size - 1) text)
      (if length s.pending == 0 then record s { pending_level = level } else s)

unfoldable pub hm2_shim_flush_log : Log → Log × List Message
hm2_shim_flush_log s =
    if ltb 0 (length s.pending)
    then (record s { pending = [] }, record { level = s.pending_level; text = s.pending } ∷ [])
    else (s, [])

-- `hm2_shim_log`: a line of the shim's own, whole.
unfoldable pub hm2_shim_log : ℕ → Text → Log → List Message
hm2_shim_log level text s =
    if ltb s.msg_level level
    then []
    else record { level = level; text = take (line_size - 1) text } ∷ []
