-- ===== src/Host/LogRing/Queue.antt =====
-- What holds of the ring between any two moves, and the bounded queue of lines that it stands for.
use driver_hostmot.Base.{
  ℕ, suc, ◌+◌, ◌-◌, ◌%◌, ◌^◌, ◌≤◌, ◌<◌, ◌≡◌, List, [], ◌∷◌, ◌++◌, Text, arith, length,
}
use driver_hostmot.Host.LogRing.{
  log_slots, depth, Producer, idle, copying, copied, Writer, resting, draining, printed, drained,
  returned, System, Event, quiet, accepted, lost,
}
use driver_hostmot.Host.LogRing.Contents.{length-items, waiting_for, WriterFits}
use driver_hostmot.Host.Region.{add64}

-- A producer with a line in hand has a slot for it.
abbrev pub ProducerFits : Producer → (ℕ → Text) → (head tail : ℕ) → Type 0
ProducerFits idle slots head tail = Unit
ProducerFits (copying line) slots head tail = depth head tail < log_slots
ProducerFits (copied line) slots head tail =
    (depth head tail < log_slots) × (slots (head % log_slots) ≡ line)

-- What holds between any two moves.
abbrev pub IsRing : System → Type 0
IsRing s =
    (s.head < 2 ^ 64)
    × (s.tail < 2 ^ 64)
    × (depth s.head s.tail ≤ log_slots)
    × ProducerFits s.producer s.slots s.head s.tail
    × WriterFits s.writer s.head s.tail

-- The log as its users see it.
pub record Queue : Type 0 where
  pub waiting : List Text
  pub written : List Text
  pub dropped : ℕ

abbrev pub view : System → Queue
view s = record {
  waiting = waiting_for s.writer s.slots s.tail (depth s.head s.tail);
  written = s.out;
  dropped = s.dropped;
}

-- The promise: a line goes in behind the others or, when at most one place is free, is lost and
-- counted; lines come out in the order they went in.
pub data QueueStep (q : Queue) : Event → Queue → Type 0 where
  still : QueueStep q quiet q
  push :
      (line : Text)
      → length q.waiting < log_slots
      → QueueStep q (accepted line) (record q { waiting = q.waiting ++ line ∷ [] })
  drop :
      (line : Text)
      → log_slots ≤ suc (length q.waiting)
      → QueueStep q (lost line) (record q { dropped = add64 q.dropped 1 })
  pop :
      (line : Text) (rest : List Text)
      → q.waiting ≡ line ∷ rest
      → QueueStep q quiet (record q { waiting = rest; written = q.written ++ line ∷ [] })

abbrev pub queue_of : Queue → List Text → Queue
queue_of q waiting = record q { waiting = waiting }

-- How many lines wait, by what the writer holds.
pub length-waiting :
    (w : Writer) (slots : ℕ → Text) (head tail : ℕ)
    → WriterFits w head tail
    → (length (waiting_for w slots tail (depth head tail)) ≤ depth head tail)
      × (depth head tail ≤ suc (length (waiting_for w slots tail (depth head tail))))
length-waiting w slots head tail fits = by_writer w fits
  where
    n : ℕ
    n = depth head tail

    by_writer :
        (w : Writer)
        → WriterFits w head tail
        → (length (waiting_for w slots tail n) ≤ n)
          × (n ≤ suc (length (waiting_for w slots tail n)))
    by_writer resting f = omega (arith, length-items slots tail n)
    by_writer (draining seen) f = omega (arith, length-items slots tail n)
    by_writer (printed seen) f = omega (arith, length-items slots (tail + 1) (n - 1))
    by_writer drained f = omega (arith, length-items slots tail n)
    by_writer returned f = omega (arith, length-items slots tail n)

-- A step of the producer keeps what the writer relies on.
pub WriterFits-add64 :
    (w : Writer) (head tail : ℕ)
    → head < 2 ^ 64
    → tail < 2 ^ 64
    → depth head tail < log_slots
    → WriterFits w head tail
    → WriterFits w (add64 head 1) tail
WriterFits-add64 w head tail hh ht room fits = by_writer w fits
  where
    by_writer : (w : Writer) → WriterFits w head tail → WriterFits w (add64 head 1) tail
    by_writer resting f = tt
    by_writer (draining seen) f = (f.0, omega (arith, f.1))
    by_writer (printed seen) f = (f.0, omega (arith, f.1), omega (arith, f.2))
    by_writer drained f = tt
    by_writer returned f = tt

-- A slot given back keeps what the producer relies on.
pub ProducerFits-add64 :
    (p : Producer) (slots : ℕ → Text) (head tail : ℕ)
    → head < 2 ^ 64
    → tail < 2 ^ 64
    → depth head tail ≤ log_slots
    → 1 ≤ depth head tail
    → ProducerFits p slots head tail
    → ProducerFits p slots head (add64 tail 1)
ProducerFits-add64 p slots head tail hh ht full held fits = by_producer p fits
  where
    by_producer :
        (p : Producer) → ProducerFits p slots head tail → ProducerFits p slots head (add64 tail 1)
    by_producer idle f = tt
    by_producer (copying line) f = omega (arith, f)
    by_producer (copied line) f = (omega (arith, f.0), f.1)

pub waiting_fits : (s : System) → IsRing s → length (view s).waiting ≤ log_slots
waiting_fits s ring =
    omega (arith, ring.2, (length-waiting s.writer s.slots s.head s.tail ring.4).0)
