-- ===== src/Host.antt =====
-- The process `hm2-host` (host/).
pub mod Tests
pub mod PinTests
pub mod WatchTests
pub mod ConfigTests
pub mod CycleTests
pub mod UnattachedTests
pub mod WorstCycleTests
pub mod Region
pub mod Objects
pub mod Startup
pub mod Setsserial
pub mod WorstCycle
pub mod FixedPins
pub mod Bind
pub mod Config
pub mod Cycle
pub mod Watch
pub mod LogRing
pub mod LogTests
pub mod StartupTests
pub mod SetsserialTests
