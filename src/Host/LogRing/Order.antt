-- ===== src/Host/LogRing/Order.antt =====
-- What the log holds after any sequence of moves of its two threads.
use driver_hostmot.Base.{
  ℕ, suc, ◌+◌, ◌%◌, ◌^◌, ◌≤◌, ◌≡◌, refl, ap, sym, ◌∙◌, List, [], ◌∷◌, ◌++◌, Text, arith,
  append_assoc, append-nil, length,
}
use driver_hostmot.Host.LogRing.{log_slots, System, Event, quiet, accepted, lost, Step, empty_ring}
use driver_hostmot.Host.LogRing.Queue.{
  IsRing, Queue, view, QueueStep, still, push, drop, pop, waiting_fits,
}
use driver_hostmot.Host.LogRing.Refine.{refine}

-- Moves in sequence, with their events.
pub data Run (s : System) : List Event → System → Type 0 where
  start : Run s [] s
  more :
      {es : List Event} {t u : System} {e : Event}
      → Run s es t
      → Step t e u
      → Run s (es ++ e ∷ []) u

-- The lines that went in, in order, and how many were lost.
abbrev pub accepted_lines : List Event → List Text
accepted_lines [] = []
accepted_lines (accepted line ∷ es) = line ∷ accepted_lines es
accepted_lines (quiet ∷ es) = accepted_lines es
accepted_lines (lost line ∷ es) = accepted_lines es

abbrev pub losses : List Event → ℕ
losses [] = 0
losses (lost line ∷ es) = suc (losses es)
losses (quiet ∷ es) = losses es
losses (accepted line ∷ es) = losses es

pub accepted_lines-append :
    (es fs : List Event) → accepted_lines (es ++ fs) ≡ accepted_lines es ++ accepted_lines fs
accepted_lines-append [] fs = refl
accepted_lines-append (accepted line ∷ es) fs = ap (λ l. line ∷ l) (accepted_lines-append es fs)
accepted_lines-append (quiet ∷ es) fs = accepted_lines-append es fs
accepted_lines-append (lost line ∷ es) fs = accepted_lines-append es fs

losses-append : (es fs : List Event) → losses (es ++ fs) ≡ losses es + losses fs
losses-append [] fs = omega arith
losses-append (lost line ∷ es) fs = omega (arith, losses-append es fs)
losses-append (quiet ∷ es) fs = losses-append es fs
losses-append (accepted line ∷ es) fs = losses-append es fs

-- All lines that the queue took, the written ones first.
abbrev pub taken : Queue → List Text
taken q = q.written ++ q.waiting

taken_step :
    (q r : Queue) (e : Event)
    → QueueStep q e r
    → (taken r ≡ taken q ++ accepted_lines (e ∷ []))
      × (r.dropped % 2 ^ 64 ≡ (q.dropped + losses (e ∷ [])) % 2 ^ 64)
taken_step q r e still = (sym (append-nil (taken q)), omega arith)
taken_step q r e (push line room) =
    (sym (append_assoc q.written q.waiting (line ∷ [])), omega arith)
taken_step q r e (drop line full) = (sym (append-nil (taken q)), omega arith)
taken_step q r e (pop line rest waits) = (
  append_assoc q.written (line ∷ []) rest
      ∙ ap (λ l. q.written ++ l) (sym waits)
      ∙ sym (append-nil (taken q)),
  omega arith,
)

-- A run from a ring in order.
pub taken-Run :
    (s t : System) (es : List Event)
    → IsRing s
    → Run s es t
    → IsRing t
      × (taken (view t) ≡ taken (view s) ++ accepted_lines es)
      × (t.dropped % 2 ^ 64 ≡ (s.dropped + losses es) % 2 ^ 64)
taken-Run s t es ring start = (ring, sym (append-nil (taken (view s))), omega arith)
taken-Run s t es ring (more {es = fs} {t = m} {e = e} run last) =
    let before = taken-Run s m fs ring run in
    let step = refine m e t before.0 last in
    let moved = taken_step (view m) (view t) e step.1 in
    (
      step.0,
      moved.0
          ∙ ap (λ l. l ++ accepted_lines (e ∷ [])) before.1
          ∙ append_assoc (taken (view s)) (accepted_lines fs) (accepted_lines (e ∷ []))
          ∙ ap (λ l. taken (view s) ++ l) (sym (accepted_lines-append fs (e ∷ []))),
      omega (arith, moved.1, before.2, losses-append fs (e ∷ [])),
    )

-- However the moves of the two threads interleave from the empty ring on: what of the ring went to
-- stderr and then what waits are the lines that `hm2_log` put in, each once and in order; at most
-- LOG_SLOTS lines wait; and the count of lost lines is theirs, modulo 2^64.
pub every_line_once :
    (slots : ℕ → Text) (es : List Event) (t : System)
    → Run (empty_ring slots) es t
    → (t.out ++ (view t).waiting ≡ accepted_lines es)
      × (length (view t).waiting ≤ log_slots)
      × (t.dropped % 2 ^ 64 ≡ losses es % 2 ^ 64)
every_line_once slots es t run =
    let after =
      taken-Run (empty_ring slots) t es (omega arith, omega arith, omega arith, tt, tt) run in
    (after.1, omega (arith, waiting_fits t after.0), omega (arith, after.2))
