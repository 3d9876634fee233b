-- ===== src/Host/Cycle/Board.antt =====
-- What the core is told of the board (`look_after_board` and the bus words).
use driver_hostmot.Base.{◌≡◌, ◌||◌, Option, some, arith, if◌then◌else◌}
use driver_hostmot.Double.{Double}
use driver_hostmot.Shim.Types.{Signal}
use driver_hostmot.Shim.Cell.{Memory}
use driver_hostmot.Host.Region.{bus_operational, bus_fault, no_fault, link_fault, watchdog_fault}
use driver_hostmot.Host.Cycle.{Health, is_raised, look_after_board, bus_state, bus_cause}

module _ (d : Double) where
  -- With a driver that declares `io_error`, whatever was known before: the bus is operational
  -- exactly while neither `io_error` nor `has_bit` is raised; the fault is the link's where
  -- `io_error` is raised, whether or not the watchdog has bitten too, and the watchdog's where only
  -- `has_bit` is.
  pub look_after_board_lem :
      (mem : Memory) (io_error : Signal) (has_bit : Option Signal) (h : Health)
      → let after = look_after_board d mem (some io_error) has_bit h in
        let link = is_raised d mem (some io_error) in
        let bite = is_raised d mem has_bit in
        (bus_state after ≡ (if link || bite then bus_fault else bus_operational))
        × (bus_cause after
            ≡ (if link then link_fault else if bite then watchdog_fault else no_fault))
  unfolding look_after_board
  look_after_board_lem mem io_error has_bit h = ground arith
