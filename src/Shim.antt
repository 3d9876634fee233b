-- ===== src/Shim.antt =====
-- The HAL and RTAPI surface that the driver is linked against (shim/).
pub mod Tests
pub mod StringTests
pub mod Types
pub mod Arena
pub mod Cell
pub mod State
pub mod Components
pub mod Params
pub mod Pins
pub mod Messages
pub mod Argv
pub mod Driver
pub mod DriverTests
pub mod ModuleParams
