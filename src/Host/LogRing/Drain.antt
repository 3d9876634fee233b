-- ===== src/Host/LogRing/Drain.antt =====
-- `log_from_ring`: once the stop is asked for, the writer writes what waits and returns.
use driver_hostmot.Base.{
  ℕ, suc, ◌+◌, ◌*◌, ◌≤◌, ◌≡◌, ◌⊎◌, inl, inr, refl, ap, sym, ◌∙◌, subst, true, List, [], ◌∷◌, ◌++◌,
  arith, ◌==◌, if◌then◌else◌, Bool-cases, ==_iff, append-nil, length, length-append,
}
use driver_hostmot.Host.LogRing.{
  depth, idle, Writer, resting, draining, printed, drained, returned, System, Event, quiet,
  load_head, print_line, release_slot, end_drain, end_round, Step, try, copy, publish, load, print,
  release, finish, turn, halt,
}
use driver_hostmot.Host.LogRing.Queue.{IsRing, view}
use driver_hostmot.Host.LogRing.Refine.{refine, writer_at}
use driver_hostmot.Host.LogRing.Contents.{items, waiting_for}
use driver_hostmot.Host.Region.{add64}
use driver_hostmot.Host.LogRing.Order.{
  Run, start, more, accepted_lines, accepted_lines-append, taken, taken-Run,
}

-- How many moves the writer still makes when no line comes in any more.
abbrev pub moves_left : Writer → (head tail : ℕ) → ℕ
moves_left resting head tail = 2 * depth head tail + 3
moves_left (draining seen) head tail = 2 * depth head tail + (if seen == head then 2 else 5)
moves_left (printed seen) head tail = 2 * depth head tail + (if seen == head then 1 else 4)
moves_left drained head tail = if head == tail then 1 else 2 * depth head tail + 4
moves_left returned head tail = 0

abbrev pub left : System → ℕ
left s = moves_left s.writer s.head s.tail

abbrev pub EndsEmpty : Writer → (head tail : ℕ) → Type 0
EndsEmpty returned head tail = head ≡ tail
EndsEmpty resting head tail = Unit
EndsEmpty (draining seen) head tail = Unit
EndsEmpty (printed seen) head tail = Unit
EndsEmpty drained head tail = Unit

-- The stop is asked for, and the thread that asked waits for the writer.
abbrev pub IsStopping : System → Type 0
IsStopping s = IsRing s × (s.stop ≡ true) × (s.producer ≡ idle) × EndsEmpty s.writer s.head s.tail

abbrev pub NextMove : System → Type 0
NextMove s = (e : Event) × ((t : System) × Step s e t)

-- The writer is never stuck before it returns.
next_move : (s : System) → IsStopping s → (s.writer ≡ returned) ⊎ NextMove s
next_move s stopping = by_writer s.writer refl
  where
    by_writer : (w : Writer) → s.writer ≡ w → (s.writer ≡ returned) ⊎ NextMove s
    by_writer resting e = inr (quiet, (load_head s, load e))
    by_writer (draining seen) e = elim (Bool-cases (s.tail == seen)) [
      | inl all ↦ inr (quiet, (end_drain s, finish seen e ((==_iff s.tail seen).0 all)))
      | inr some_left ↦ inr (
        quiet,
        (print_line seen s, print seen e (λ same. cc (some_left, (==_iff s.tail seen).1 same))),
      )
    ]
    by_writer (printed seen) e = inr (quiet, (release_slot seen s, release seen e))
    by_writer drained e = inr (quiet, (end_round s, turn e))
    by_writer returned e = inl e

-- One move less with each move, and no line goes in.
move_down :
    (s t : System) (e : Event)
    → IsStopping s
    → Step s e t
    → (t.stop ≡ true)
      × (t.producer ≡ idle)
      × EndsEmpty t.writer t.head t.tail
      × (left s ≡ suc (left t))
      × (e ≡ quiet)
unfolding load_head print_line release_slot end_drain end_round
move_down s t e stopping (try line p on) = cc (stopping.1, on)
move_down s t e stopping (copy line p) = cc (stopping.2, p)
move_down s t e stopping (publish line p) = cc (stopping.2, p)
move_down s t e stopping (load w) =
    (stopping.1, stopping.2, tt, ap (λ x. moves_left x s.head s.tail) w ∙ ground arith, refl)
move_down s t e stopping (print seen w behind) =
    (stopping.1, stopping.2, tt, ap (λ x. moves_left x s.head s.tail) w ∙ ground arith, refl)
move_down s t e stopping (release seen w) =
    let ring = stopping.0 in
    let fits = writer_at s ring (printed seen) w in
    let smaller : depth s.head s.tail ≡ suc (depth s.head (add64 s.tail 1)) =
      omega (arith, fits.0, fits.1, fits.2, ring.0, ring.1) in
    (
      stopping.1,
      stopping.2,
      tt,
      ap (λ x. moves_left x s.head s.tail) w ∙ ground (arith, smaller),
      refl,
    )
move_down s t e stopping (finish seen w all) = (
  stopping.1,
  stopping.2,
  tt,
  ap (λ x. moves_left x s.head s.tail) w ∙ ground (arith, all, stopping.0.0, stopping.0.1),
  refl,
)
move_down s t e stopping (turn w) =
    let down = ap (λ x. moves_left x s.head s.tail) w in
    elim (Bool-cases (s.head == s.tail)) [
      | inl empty ↦
          rw (stopping.1, empty)
            (refl, stopping.2, (==_iff s.head s.tail).0 empty, down ∙ ground arith, refl)
      | inr lines ↦ rw (stopping.1, lines) (refl, stopping.2, tt, down ∙ ground arith, refl)
    ]
move_down s t e stopping (halt p on) = cc (stopping.1, on)

-- From a stop on, every run is as long as it took moves, and at its end the writer goes on or is done.
IsStopping-Run :
    (s t : System) (es : List Event)
    → IsStopping s
    → Run s es t
    → IsStopping t × (left s ≡ length es + left t) × (accepted_lines es ≡ [])
IsStopping-Run s t es stopping start = (stopping, omega arith, refl)
IsStopping-Run s t es stopping (more {es = fs} {t = m} {e = e} run last) =
    let before = IsStopping-Run s m fs stopping run in
    let down = move_down m t e before.0 last in
    (
      ((refine m e t before.0.0 last).0, down.0, down.1, down.2),
      omega (arith, before.1, down.3, length-append fs (e ∷ [])),
      accepted_lines-append fs (e ∷ [])
          ∙ ap (λ l. l ++ accepted_lines (e ∷ [])) before.2
          ∙ ap (λ x. accepted_lines (x ∷ [])) down.4,
    )

nothing_waits : (s : System) → IsStopping s → s.writer ≡ returned → (view s).waiting ≡ []
nothing_waits s stopping w =
    let empty : s.head ≡ s.tail = subst (λ x. EndsEmpty x s.head s.tail) w stopping.3 in
    ap (λ x. waiting_for x s.slots s.tail (depth s.head s.tail)) w
    ∙ ap (items s.slots s.tail) {x = depth s.head s.tail} {y = 0}
        (omega (arith, empty, stopping.0.0, stopping.0.1))

left_bound : (w : Writer) (head tail : ℕ) → moves_left w head tail ≤ 2 * depth head tail + 5
left_bound resting head tail = omega arith
left_bound (draining seen) head tail = ground arith
left_bound (printed seen) head tail = ground arith
left_bound drained head tail = ground arith
left_bound returned head tail = omega arith

-- Once the stop is asked for, whatever moves the writer makes: it makes at most two for each line in the ring and five more, and
-- at each point of its run it can make another, or has returned and all that was written and all that
-- waited when the stop was asked for is on stderr, in order.
pub drain :
    (s t : System) (es : List Event)
    → IsStopping s
    → Run s es t
    → (length es ≤ 2 * depth s.head s.tail + 5)
      × (((t.writer ≡ returned) × (t.out ≡ s.out ++ (view s).waiting)) ⊎ NextMove t)
drain s t es stopping run =
    let after = IsStopping-Run s t es stopping run in
    (
      omega (arith, after.1, left_bound s.writer s.head s.tail),
      elim (next_move t after.0) [
        | inl w ↦ inl (
          w,
          sym (append-nil t.out)
              ∙ ap (λ l. t.out ++ l) (sym (nothing_waits t after.0 w))
              ∙ (taken-Run s t es stopping.0 run).1
              ∙ ap (λ l. taken (view s) ++ l) after.2
              ∙ append-nil (taken (view s)),
        )
        | inr step ↦ inr step
      ],
    )
