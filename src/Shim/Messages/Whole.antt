-- ===== src/Shim/Messages/Whole.antt =====
-- What reaches the log: whole lines of bounded length, however the driver cuts them (`gather`).
use driver_hostmot.Base.{
  take_all, ℕ, ◌+◌, ◌-◌, ◌≤◌, ◌<◌, ◌≡◌, ◌≢◌, ◌⊎◌, inl, inr, refl, sym, ap, ◌∙◌, subst, ◌&&◌, Option,
  none, some, List, [], ◌∷◌, ◌++◌, Text, ◌==◌, ltb, leb, if◌then◌else◌, length, length-append, take,
  arith, take_all, All, All-append, append_assoc, Bool-cases,
}
use driver_hostmot.Shim.Messages.{
  Message, Log, line_size, newline, gather_byte, gather_bytes, gather,
}

-- What is pending is a part of one line, and its closing NUL has room.
pub record IsPending (s : Log) : Type 0 where
  pub short : length s.pending < line_size
  pub one_line : All (λ c. c ≢ newline) s.pending

-- A line that is sent.
pub record IsLine (msg_level : ℕ) (m : Message) : Type 0 where
  pub some_text : 0 < length m.text
  pub short : length m.text < line_size
  pub one_line : All (λ c. c ≢ newline) m.text
  pub wanted : m.level ≤ msg_level

-- A log and the lines sent on the way to it, from a log with that level.
abbrev pub IsSent : ℕ → Log × List Message → Type 0
IsSent msg_level r = IsPending r.0 × (r.0.msg_level ≡ msg_level) × All (IsLine msg_level) r.1

gather_byte-IsSent :
    (level c : ℕ) (s : Log) → IsPending s → IsSent s.msg_level (gather_byte level c s)
unfolding gather_byte
gather_byte-IsSent level c s v = elim (Bool-cases (c == newline)) [
  | inl e ↦ elim (Bool-cases (ltb 0 (length s.pending) && leb s.pending_level s.msg_level)) [
    | inl f ↦
        rw (e, f)
          (
            record { short = omega arith; one_line = tt },
            refl,
            (
              record {
                some_text = ground arith;
                short = v.short;
                one_line = v.one_line;
                wanted = ground arith;
              },
              tt,
            ),
          )
    | inr f ↦ rw (e, f) (record { short = omega arith; one_line = tt }, refl, tt)
  ]
  | inr e ↦ elim (Bool-cases (ltb (length s.pending + 1) line_size)) [
    | inl f ↦
        rw (e, f)
          (
            record {
              short = ground (arith, length-append s.pending (c ∷ []));
              one_line =
                  All-append (λ c. c ≢ newline) s.pending (c ∷ []) v.one_line (ground arith, tt);
            },
            refl,
            tt,
          )
    | inr f ↦ rw (e, f) (v, refl, tt)
  ]
]

gather_bytes-IsSent :
    (level : ℕ) (t : Text) (s : Log) → IsPending s → IsSent s.msg_level (gather_bytes level t s)
unfolding gather_bytes
gather_bytes-IsSent level [] s v = (v, refl, tt)
gather_bytes-IsSent level (c ∷ t) s v =
    let one = gather_byte-IsSent level c s v in
    let r = gather_byte level c s in
    let rest = gather_bytes-IsSent level t r.0 one.0 in
    (
      rest.0,
      rest.1 ∙ one.1,
      All-append (IsLine s.msg_level) r.1 (gather_bytes level t r.0).1 one.2
          (subst (λ n. All (IsLine n) (gather_bytes level t r.0).1) one.1 rest.2),
    )

-- Whatever the driver prints, nothing is written past the end of the pending line, and each line
-- that `gather` hands to the sink has some text without a newline, fits the line's array and is
-- of a level that is asked for.
pub gather_lem :
    (level : ℕ) (text : Option Text) (s : Log)
    → IsPending s
    → IsPending (gather level text s).0 × All (IsLine s.msg_level) (gather level text s).1
unfolding gather
gather_lem level none s v = (v, tt)
gather_lem level (some t) s v = elim (Bool-cases (length s.pending == 0)) [
  | inl e ↦
      let r =
        gather_bytes-IsSent level (take (line_size - 1) t) (record s { pending_level = level })
          (record { short = v.short; one_line = v.one_line }) in
      rw e (r.0, r.2)
  | inr e ↦ let r = gather_bytes-IsSent level (take (line_size - 1) t) s v in rw e (r.0, r.2)
]

gather_bytes-append :
    (level : ℕ) (a b : Text) (s : Log)
    → gather_bytes level (a ++ b) s ≡ (
        let first = gather_bytes level a s in
        let second = gather_bytes level b first.0 in (second.0, first.1 ++ second.1))
unfolding gather_bytes
gather_bytes-append level [] b s = refl
gather_bytes-append level (c ∷ a) b s =
    let r = gather_byte level c s in
    let first = gather_bytes level a r.0 in
    let second = gather_bytes level b first.0 in
    ap (λ (x : Log × List Message). (x.0, r.1 ++ x.1)) (gather_bytes-append level a b r.0)
    ∙ ap (λ (x : List Message). (second.0, x)) (sym (append_assoc r.1 first.1 second.1))

-- A pending line that is empty has the level of the bytes that come.
abbrev Leveled : ℕ → Log → Type 0
Leveled level s = (0 < length s.pending) ⊎ (s.pending_level ≡ level)

gather_bytes-Leveled :
    (level : ℕ) (t : Text) (s : Log) → Leveled level s → Leveled level (gather_bytes level t s).0
unfolding gather_bytes
gather_bytes-Leveled level [] s h = h
gather_bytes-Leveled level (c ∷ t) s h =
    gather_bytes-Leveled level t (gather_byte level c s).0 (one c h)
  where
    one : (c : ℕ) → Leveled level s → Leveled level (gather_byte level c s).0
    one c h = unfold gather_byte in ground (arith, length-append s.pending (c ∷ []))

-- What a chunk of less than the array's size does.
gather-short :
    (level : ℕ) (t : Text) (s : Log)
    → length t < line_size
    → gather level (some t) s
      ≡ gather_bytes level t
          (if length s.pending == 0 then record s { pending_level = level } else s)
unfolding gather
gather-short level t s h =
    ap
      (λ (x : Text).
        gather_bytes level x
          (if length s.pending == 0 then record s { pending_level = level } else s))
      (take_all t (line_size - 1) (omega arith))

started :
    (level : ℕ) (s : Log)
    → Leveled level (if length s.pending == 0 then record s { pending_level = level } else s)
started level s = ground arith

same_start :
    (level : ℕ) (s : Log)
    → Leveled level s
    → (if length s.pending == 0 then record s { pending_level = level } else s) ≡ s
same_start level s (inl h) = ground arith
same_start level s (inr h) = ground arith

-- How the driver cuts a text of less than the array's size does not matter: printed in two parts at
-- one level it leaves the log as it does in one, and the same lines are sent.
pub gather_in_parts :
    (level : ℕ) (a b : Text) (s : Log)
    → length (a ++ b) < line_size
    → let first = gather level (some a) s in
      let second = gather level (some b) first.0 in
      gather level (some (a ++ b)) s ≡ (second.0, first.1 ++ second.1)
gather_in_parts level a b s h =
    let start : Log = if length s.pending == 0 then record s { pending_level = level } else s in
    let one = gather-short level a s (omega (arith, length-append a b)) in
    let f = gather_bytes level a start in
    let two : gather level (some b) f.0 ≡ gather_bytes level b f.0 =
      gather-short level b f.0 (omega (arith, length-append a b))
      ∙ ap (gather_bytes level b)
          (same_start level f.0 (gather_bytes-Leveled level a start (started level s))) in
    gather-short level (a ++ b) s h
    ∙ gather_bytes-append level a b start
    ∙ sym (
        ap
          (λ (x : Log × List Message).
            ((gather level (some b) x.0).0, x.1 ++ (gather level (some b) x.0).1))
          one
        ∙ ap (λ (y : Log × List Message). (y.0, f.1 ++ y.1)) two)
