-- ===== src/Host/LogRing/Refine.antt =====
-- Each move on the ring is a step of the queue.
use driver_hostmot.Base.{
  ℕ, suc, ◌+◌, ◌-◌, ◌%◌, ◌^◌, ◌≤◌, ◌<◌, ◌≡◌, ◌≢◌, ap, sym, ◌∙◌, subst, [], ◌∷◌, ◌++◌, Text, arith,
  leb, leb→le, ◌==◌, Bool-cases, inl, inr, update_self,
}
use driver_hostmot.Host.LogRing.{
  log_slots, depth, Producer, idle, copying, copied, Writer, resting, draining, printed, drained,
  returned, System, Event, quiet, accepted, try_line, copy_line, publish_line, load_head,
  print_line, release_slot, end_drain, end_round, Step, try, copy, publish, load, print, release,
  finish, turn, halt,
}
use driver_hostmot.Host.LogRing.Contents.{
  items, items-mod, waiting_for, WriterFits, waiting-publish, waiting-copy,
}
use driver_hostmot.Host.Region.{add64}
use driver_hostmot.Host.LogRing.Queue.{
  ProducerFits, IsRing, view, QueueStep, still, push, drop, pop, queue_of, length-waiting,
  WriterFits-add64, ProducerFits-add64,
}

module _ (s : System) (ring : IsRing s) where
  head_fits : s.head < 2 ^ 64
  head_fits = ring.0

  tail_fits : s.tail < 2 ^ 64
  tail_fits = ring.1

  producer_at : (p : Producer) → s.producer ≡ p → ProducerFits p s.slots s.head s.tail
  producer_at p e = subst (λ x. ProducerFits x s.slots s.head s.tail) e ring.3

  pub writer_at : (w : Writer) → s.writer ≡ w → WriterFits w s.head s.tail
  writer_at w e = subst (λ x. WriterFits x s.head s.tail) e ring.4

  abbrev Refines : Event → System → Type 0
  Refines e t = IsRing t × QueueStep (view s) e (view t)

  refine_try : (line : Text) → s.producer ≡ idle → Refines (try_line line s).0 (try_line line s).1
  unfolding try_line
  refine_try line e = elim (Bool-cases (leb log_slots (depth s.head s.tail))) [
    | inl full ↦ rw full (
      ring,
      drop line (
          omega (
            arith,
            leb→le log_slots (depth s.head s.tail) full,
            (length-waiting s.writer s.slots s.head s.tail ring.4).1,
          )),
    )
    | inr room ↦ rw room ((ring.0, ring.1, ring.2, ground arith, ring.4), still)
  ]

  refine_copy : (line : Text) → s.producer ≡ copying line → Refines quiet (copy_line line s)
  unfolding copy_line
  refine_copy line e =
      let room : depth s.head s.tail < log_slots = producer_at (copying line) e in
      (
        (ring.0, ring.1, ring.2, (room, update_self s.slots (s.head % log_slots) line), ring.4),
        subst (λ w. QueueStep (view s) quiet (queue_of (view s) w))
            (sym (waiting-copy s.writer s.slots s.head s.tail line head_fits tail_fits room ring.4))
            still,
      )

  refine_publish :
      (line : Text) → s.producer ≡ copied line → Refines (accepted line) (publish_line s)
  unfolding publish_line
  refine_publish line e =
      let fits = producer_at (copied line) e in
      let waits = length-waiting s.writer s.slots s.head s.tail ring.4 in
      (
        (
          omega arith,
          ring.1,
          omega (arith, ring.2, fits.0),
          tt,
          WriterFits-add64 s.writer s.head s.tail head_fits tail_fits fits.0 ring.4,
        ),
        subst (λ w. QueueStep (view s) (accepted line) (queue_of (view s) w))
            (sym (
              waiting-publish s.writer s.slots s.head s.tail head_fits tail_fits fits.0 ring.4
              ∙ ap (λ x. (view s).waiting ++ x ∷ []) fits.1))
            (push line (omega (arith, waits.0, fits.0))),
      )

  -- Moves of the writer that leave the lines that wait as they are.
  rests :
      (w : Writer)
      → waiting_for s.writer s.slots s.tail (depth s.head s.tail)
        ≡ waiting_for w s.slots s.tail (depth s.head s.tail)
      → QueueStep
          (view s)
          quiet
          (queue_of (view s) (waiting_for w s.slots s.tail (depth s.head s.tail)))
  rests w e = subst (λ l. QueueStep (view s) quiet (queue_of (view s) l)) e still

  waiting_at :
      (w : Writer)
      → s.writer ≡ w
      → waiting_for s.writer s.slots s.tail (depth s.head s.tail)
        ≡ waiting_for w s.slots s.tail (depth s.head s.tail)
  waiting_at w e = ap (λ x. waiting_for x s.slots s.tail (depth s.head s.tail)) e

  refine_load : s.writer ≡ resting → Refines quiet (load_head s)
  unfolding load_head
  refine_load e = (
    (ring.0, ring.1, ring.2, ring.3, (ring.0, omega arith)),
    rests (draining s.head) (waiting_at resting e),
  )

  refine_finish : (seen : ℕ) → s.writer ≡ draining seen → Refines quiet (end_drain s)
  unfolding end_drain
  refine_finish seen e =
      ((ring.0, ring.1, ring.2, ring.3, tt), rests drained (waiting_at (draining seen) e))

  refine_turn : s.writer ≡ drained → Refines quiet (end_round s)
  unfolding end_round
  refine_turn e = elim (Bool-cases s.stop) [
    | inl stopped ↦ elim (Bool-cases (s.head == s.tail)) [
      | inl empty ↦
          rw (stopped, empty)
            ((ring.0, ring.1, ring.2, ring.3, tt), rests returned (waiting_at drained e))
      | inr more ↦
          rw (stopped, more)
            ((ring.0, ring.1, ring.2, ring.3, tt), rests resting (waiting_at drained e))
    ]
    | inr on ↦ rw on ((ring.0, ring.1, ring.2, ring.3, tt), rests resting (waiting_at drained e))
  ]

  refine_print :
      (seen : ℕ) → s.writer ≡ draining seen → s.tail ≢ seen → Refines quiet (print_line seen s)
  unfolding print_line
  refine_print seen e behind =
      let fits = writer_at (draining seen) e in
      let held : 1 ≤ depth seen s.tail = omega (arith, fits.0, ring.1, behind) in
      let n : ℕ = depth s.head s.tail in
      (
        (ring.0, ring.1, ring.2, ring.3, (fits.0, fits.1, held)),
        pop (s.slots (s.tail % log_slots)) (items s.slots (s.tail + 1) (n - 1)) (
            waiting_at (draining seen) e
            ∙ ap (items s.slots s.tail) {x = n} {y = suc (n - 1)} (omega (arith, held, fits.1))),
      )

  refine_release : (seen : ℕ) → s.writer ≡ printed seen → Refines quiet (release_slot seen s)
  unfolding release_slot
  refine_release seen e =
      let fits = writer_at (printed seen) e in
      let n : ℕ = depth s.head s.tail in
      let next : items s.slots (s.tail + 1) (n - 1)
          ≡ items s.slots (add64 s.tail 1) (depth s.head (add64 s.tail 1)) =
        items-mod s.slots (s.tail + 1) (add64 s.tail 1) (n - 1) (omega arith)
        ∙ ap (items s.slots (add64 s.tail 1)) {x = n - 1} {y = depth s.head (add64 s.tail 1)}
            (omega (arith, fits.1, fits.2, head_fits, tail_fits)) in
      (
        (
          ring.0,
          omega arith,
          omega (arith, ring.2, fits.1, fits.2, head_fits, tail_fits),
          ProducerFits-add64 s.producer s.slots s.head s.tail head_fits tail_fits ring.2
              (omega (arith, fits.1, fits.2)) ring.3,
          (fits.0, omega (arith, fits.0, fits.1, fits.2, head_fits, tail_fits)),
        ),
        subst (λ l. QueueStep (view s) quiet (queue_of (view s) l))
            (waiting_at (printed seen) e ∙ next) still,
      )

-- Each move of the two threads keeps the ring in order and is a step of the queue of its lines, with
-- the same line accepted or lost.
pub refine :
    (s : System) (e : Event) (t : System)
    → IsRing s
    → Step s e t
    → IsRing t × QueueStep (view s) e (view t)
refine s e t ring (try line p on) = refine_try s ring line p
refine s e t ring (copy line p) = refine_copy s ring line p
refine s e t ring (publish line p) = refine_publish s ring line p
refine s e t ring (load w) = refine_load s ring w
refine s e t ring (print seen w behind) = refine_print s ring seen w behind
refine s e t ring (release seen w) = refine_release s ring seen w
refine s e t ring (finish seen w all) = refine_finish s ring seen w
refine s e t ring (turn w) = refine_turn s ring w
refine s e t ring (halt p on) = (ring, still)
