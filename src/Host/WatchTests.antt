-- ===== src/Host/WatchTests.antt =====
-- The watch on a concrete port.
use driver_hostmot.Base.{ℕ, ◌≡◌, refl, List, [], ◌∷◌, codes}
use driver_hostmot.Base.Int.{ℤ}
use driver_hostmot.Concrete.{tenths}
use driver_hostmot.Shim.Types.{Signal, uint_cell, to_core}
use driver_hostmot.Shim.Pins.{signal_at}
use driver_hostmot.Shim.Cell.{Memory, cell_get}
use driver_hostmot.Host.Watch.{Watched}
use driver_hostmot.Host.Watch.Faults.{faults_over, rises, faults_over_lem}

abbrev fault_count : Signal
fault_count = signal_at (codes "hm2_7i92.0.sserial.port-0.fault-count") uint_cell 8 to_core

abbrev reads : ℕ → Memory
reads n _ = n

abbrev watched : List (Watched ℤ)
watched =
    record { signal = fault_count; port = 0; last = cell_get tenths (reads 2) fault_count } ∷ []

faults_over_lem_example :
    (faults_over tenths (reads 3 ∷ reads 0 ∷ reads 1 ∷ []) watched).0
    ≡ rises tenths (reads 2) (reads 3 ∷ reads 0 ∷ reads 1 ∷ []) watched
faults_over_lem_example =
    faults_over_lem tenths (reads 2) (reads 3 ∷ reads 0 ∷ reads 1 ∷ []) watched (refl, tt)
