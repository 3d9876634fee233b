-- ===== src/Host/Watch.antt =====
-- The fault counters of Smart Serial ports (host/sserial_watch.c). What is logged of a fault is not
-- modelled.
pub mod Faults
use driver_hostmot.Base.{
  ℕ, ◌+◌, Bool, true, false, Option, none, some, List, [], ◌∷◌, ◌++◌, Text, codes, leb, ltb,
  if◌then◌else◌, length, drop, ends_with, find_text,
}
use driver_hostmot.Base.Int.{pos}
use driver_hostmot.Double.{Double}
use driver_hostmot.Shim.Types.{Signal}
use driver_hostmot.Shim.Cell.{Memory, cell_get}
use driver_hostmot.Host.Region.{add64}

-- MAX_SSERIAL_PORTS
abbrev pub max_ports : ℕ
max_ports = 8

-- The port's number as text, where a name is that of a port's fault count.
abbrev pub port_text : Text → Option Text
port_text name =
    if ends_with (codes ".fault-count") name
    then (if leb (length name) (length (codes ".fault-count"))
        then none
        else (elim (find_text (codes ".sserial.port-") name) [
          | none ↦ none
          | some at ↦ some (drop (length (codes ".sserial.port-")) at)
        ]))
    else none

-- `sserial_port_of`: `none` is -1 and any other number below 0. `atoi` is an argument, with `none`
-- for such a number.
unfoldable pub sserial_port_of : (Text → Option ℕ) → Text → Option ℕ
sserial_port_of atoi name = elim (port_text name) [ none ↦ none | some t ↦ atoi t ]

-- One of `pins`, `ports` and `last`.
pub record Watched (Real : Type 0) : Type 0 where
  pub signal : Signal
  pub port : ℕ
  pub last : Real

module _ (d : Double) where
  open d use {Real}

  unfoldable pub sserial_watch_add :
      (Text → Option ℕ) → Memory → Signal → List (Watched Real) → Bool × List (Watched Real)
  sserial_watch_add atoi mem s l = elim (sserial_port_of atoi s.name) [
    | none ↦ (false, l)
    | some port ↦
        if leb max_ports (length l)
        then (false, l)
        else (true, l ++ record { signal = s; port = port; last = cell_get d mem s } ∷ [])
  ]

  -- `sserial_faults_seen`: how many counters have risen, and the counts as they now are.
  unfoldable pub sserial_faults_seen : Memory → List (Watched Real) → ℕ × List (Watched Real)
  sserial_faults_seen mem [] = (0, [])
  sserial_faults_seen mem (w ∷ rest) =
      let count = cell_get d mem w.signal in
      let (seen, l) = sserial_faults_seen mem rest in
      ((if d.lt w.last count then seen + 1 else seen), record w { last = count } ∷ l)
