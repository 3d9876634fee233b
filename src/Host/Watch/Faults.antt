-- ===== src/Host/Watch/Faults.antt =====
-- How faults are counted over the periods (`sserial_watch_add`, `sserial_faults_seen`).
use driver_hostmot.Base.{
  ℕ, ◌+◌, ◌≤◌, ◌≡◌, refl, Bool, true, false, Option, none, some, List, [], ◌∷◌, ◌++◌, Text,
  if◌then◌else◌, length, arith, All, All-append, length-append, leb,
}
use driver_hostmot.Double.{Double}
use driver_hostmot.Shim.Types.{Signal}
use driver_hostmot.Shim.Cell.{Memory, cell_get}
use driver_hostmot.Host.Watch.{
  Watched, max_ports, sserial_port_of, sserial_watch_add, sserial_faults_seen,
}

module _ (d : Double) where
  open d use {Real}

  -- How many of the counters differ upward from one memory to another.
  abbrev pub risen : Memory → Memory → List (Watched Real) → ℕ
  risen before after [] = 0
  risen before after (w ∷ rest) =
      if d.lt (cell_get d before w.signal) (cell_get d after w.signal)
      then risen before after rest + 1
      else risen before after rest

  -- The faults of a run of periods, each with the memory behind its read.
  unfoldable pub faults_over : List Memory → List (Watched Real) → ℕ × List (Watched Real)
  faults_over [] l = (0, l)
  faults_over (mem ∷ rest) l =
      let (seen, l') = sserial_faults_seen d mem l in
      let (n, l'') = faults_over rest l' in (seen + n, l'')

  -- The same by looking at each period beside the one before.
  abbrev pub rises : Memory → List Memory → List (Watched Real) → ℕ
  rises before [] l = 0
  rises before (mem ∷ rest) l = risen before mem l + rises mem rest l

  -- What is remembered is what the counters read.
  abbrev pub IsUpToDate : Memory → List (Watched Real) → Type 0
  IsUpToDate mem l = All (λ w. w.last ≡ cell_get d mem w.signal) l

  sserial_faults_seen_lem :
      (before mem : Memory) (l : List (Watched Real))
      → IsUpToDate before l
      → ((sserial_faults_seen d mem l).0 ≡ risen before mem l)
        × IsUpToDate mem (sserial_faults_seen d mem l).1
        × ((a b : Memory) → risen a b (sserial_faults_seen d mem l).1 ≡ risen a b l)
  unfolding sserial_faults_seen
  sserial_faults_seen_lem before mem [] v = (refl, tt, λ a b. refl)
  sserial_faults_seen_lem before mem (w ∷ l) v =
      let rest = sserial_faults_seen_lem before mem l v.1 in
      (rw (v.0, rest.0) refl, (refl, rest.1), λ a b. rw (rest.2 a b) refl)

  rises-same :
      (mem : Memory) (l : List (Watched Real)) (before : Memory) (run : List Memory)
      → ((a b : Memory) → risen a b (sserial_faults_seen d mem l).1 ≡ risen a b l)
      → rises before run (sserial_faults_seen d mem l).1 ≡ rises before run l
  rises-same mem l before [] h = refl
  rises-same mem l before (m ∷ run) h = rw (h before m, rises-same mem l m run h) refl

  -- Over any run of periods the faults counted are the periods in which each watched counter read
  -- more than in the period before, for counters whose remembered count is the one they read at
  -- first; a counter that falls is no fault, and is counted again when it rises from where it fell.
  pub faults_over_lem :
      (before : Memory) (run : List Memory) (l : List (Watched Real))
      → IsUpToDate before l
      → (faults_over run l).0 ≡ rises before run l
  unfolding faults_over
  faults_over_lem before [] l v = refl
  faults_over_lem before (mem ∷ run) l v =
      let one = sserial_faults_seen_lem before mem l v in
      let rest = faults_over_lem mem run (sserial_faults_seen d mem l).1 one.1 in
      rw (one.0, rest, rises-same mem l mem run one.2) refl

  -- Adding any pin keeps at most eight ports watched, each with the count it reads.
  sserial_watch_add-IsUpToDate :
      (atoi : Text → Option ℕ) (mem : Memory) (s : Signal) (l : List (Watched Real))
      → IsUpToDate mem l
      → length l ≤ max_ports
      → IsUpToDate mem (sserial_watch_add d atoi mem s l).1
        × (length (sserial_watch_add d atoi mem s l).1 ≤ max_ports)
  unfolding sserial_watch_add
  sserial_watch_add-IsUpToDate atoi mem s l v le = by_port (sserial_port_of atoi s.name)
    where
      by_room :
          (port : ℕ) (b : Bool)
          → b ≡ leb max_ports (length l)
          → let r : Bool × List (Watched Real) =
              if b
              then (false, l)
              else (true, l ++ record { signal = s; port = port; last = cell_get d mem s } ∷ []) in
            IsUpToDate mem r.1 × (length r.1 ≤ max_ports)
      by_room port true e = (v, le)
      by_room port false e = (
        All-append (λ w. w.last ≡ cell_get d mem w.signal) l (_ ∷ []) v (refl, tt),
        ground (
          arith,
          length-append l (record { signal = s; port = port; last = cell_get d mem s } ∷ []),
        ),
      )

      by_port :
          (o : Option ℕ)
          → let r : Bool × List (Watched Real) = elim o [
            | none ↦ (false, l)
            | some port ↦
                if leb max_ports (length l)
                then (false, l)
                else (true, l ++ record { signal = s; port = port; last = cell_get d mem s } ∷ [])
          ] in
            IsUpToDate mem r.1 × (length r.1 ≤ max_ports)
      by_port none = (v, le)
      by_port (some port) = by_room port (leb max_ports (length l)) refl
