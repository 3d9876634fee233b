-- ===== src/Host/LogRing.antt =====
-- The log of host/main.c: how `hm2_log` makes a line, and the ring between the thread that runs the
-- cycle and `log_writer`, as a step relation on what the two threads share. A move is what a thread
-- does between two of its accesses to the counters; the sleep between two rounds of the writer and
-- the memory orderings are not modelled.
pub mod Line
pub mod Contents
pub mod Queue
pub mod Refine
pub mod Order
pub mod Drain
use driver_hostmot.Base.{
  ℕ, ◌+◌, ◌-◌, ◌%◌, ◌^◌, ◌≤◌, ◌<◌, ◌≡◌, ◌≢◌, Bool, true, false, Option, none, some, List, [], ◌∷◌,
  ◌++◌, Text, ◌==◌, leb, ltb, if◌then◌else◌, length, take, update,
}
use driver_hostmot.Host.Region.{add64}

-- LOG_SLOTS and LOG_LINE
abbrev pub log_slots : ℕ
log_slots = 256

abbrev pub log_line : ℕ
log_line = 512

-- The array `line` of `hm2_log` up to its closing NUL. `prefix` is what `snprintf` makes of the time
-- and the level and `message` what `vsnprintf` makes of the rest, whole; `none` where it fails.
unfoldable pub hm2_log_line : (prefix message : Option Text) → Text
hm2_log_line prefix message =
    let head : Text = elim prefix [
      | none ↦ []
      | some p ↦ if leb (log_line - 1) (length p) then [] else p
    ] in
    let used = length head in
    let room = log_line - used - 1 in
    let body : Text = elim message [ none ↦ [] | some m ↦ take (room - 1) m ] in
    let length_wanted = used + elim message as (λ _. ℕ) [ none ↦ 0 | some m ↦ length m ] in
    let length_kept = if ltb (log_line - 2) length_wanted then log_line - 2 else length_wanted in
    take length_kept (head ++ body) ++ b'\n' ∷ []

-- `log_head - log_tail`, in `size_t`
abbrev pub depth : (head tail : ℕ) → ℕ
depth head tail = (head + 2 ^ 64 - tail) % 2 ^ 64

-- Where `hm2_log` is: outside, with a line that there is room for, with that line in its slot.
pub data Producer : Type 0 where
  idle : Producer
  copying copied : Text → Producer

-- Where `log_writer` is: at the start of a round, in its inner loop up to the head it saw, behind
-- the `fputs` of a line, behind the inner loop, returned.
pub data Writer : Type 0 where
  resting : Writer
  draining printed : ℕ → Writer
  drained : Writer
  returned : Writer

-- `log_ring`, `log_head`, `log_tail`, `log_dropped` and `log_stop`, the lines of the ring that went to
-- stderr, the writer's `reported` and the numbers in its lines on dropped ones, and both threads.
pub record System : Type 0 where
  pub slots : ℕ → Text
  pub head : ℕ
  pub tail : ℕ
  pub dropped : ℕ
  pub stop : Bool
  pub out : List Text
  pub reported : ℕ
  pub reports : List ℕ
  pub producer : Producer
  pub writer : Writer

-- A move, with the line that it appends to the log or loses.
pub data Event : Type 0 where
  quiet : Event
  accepted lost : Text → Event

-- The moves of `hm2_log` with a line.
unfoldable pub try_line : Text → System → Event × System
try_line line s =
    if leb log_slots (depth s.head s.tail)
    then (lost line, record s { dropped = add64 s.dropped 1 })
    else (quiet, record s { producer = copying line })

unfoldable pub copy_line : Text → System → System
copy_line line s = record s {
  slots = update s.slots (s.head % log_slots) line;
  producer = copied line;
}

unfoldable pub publish_line : System → System
publish_line s = record s { head = add64 s.head 1; producer = idle }

-- The moves of `log_writer`.
unfoldable pub load_head : System → System
load_head s = record s { writer = draining s.head }

unfoldable pub print_line : ℕ → System → System
print_line seen s = record s {
  out = s.out ++ s.slots (s.tail % log_slots) ∷ [];
  writer = printed seen;
}

unfoldable pub release_slot : ℕ → System → System
release_slot seen s = record s { tail = add64 s.tail 1; writer = draining seen }

unfoldable pub end_drain : System → System
end_drain s = record s {
  reports =
      if s.dropped == s.reported then s.reports else s.reports ++ depth s.dropped s.reported ∷ [];
  reported = s.dropped;
  writer = drained;
}

unfoldable pub end_round : System → System
end_round s = record s {
  writer = if s.stop then (if s.head == s.tail then returned else resting) else resting;
}

-- One move of either thread. The thread that runs the cycle is the one that stops the writer
-- (`log_from_ring`), and it logs nothing more until the writer has returned.
pub data Step (s : System) : Event → System → Type 0 where
  try :
      (line : Text)
      → s.producer ≡ idle
      → s.stop ≡ false
      → Step s (try_line line s).0 (try_line line s).1
  copy : (line : Text) → s.producer ≡ copying line → Step s quiet (copy_line line s)
  publish : (line : Text) → s.producer ≡ copied line → Step s (accepted line) (publish_line s)
  load : s.writer ≡ resting → Step s quiet (load_head s)
  print : (seen : ℕ) → s.writer ≡ draining seen → s.tail ≢ seen → Step s quiet (print_line seen s)
  release : (seen : ℕ) → s.writer ≡ printed seen → Step s quiet (release_slot seen s)
  finish : (seen : ℕ) → s.writer ≡ draining seen → s.tail ≡ seen → Step s quiet (end_drain s)
  turn : s.writer ≡ drained → Step s quiet (end_round s)
  halt : s.producer ≡ idle → s.stop ≡ false → Step s quiet (record s { stop = true })

-- The ring before the writer starts.
abbrev pub empty_ring : (ℕ → Text) → System
empty_ring slots = record {
  slots = slots;
  head = 0;
  tail = 0;
  dropped = 0;
  stop = false;
  out = [];
  reported = 0;
  reports = [];
  producer = idle;
  writer = resting;
}
