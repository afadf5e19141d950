-- ===== src/Control.antt =====
-- The control pipeline of src/control: one module to a stage, and the tick that composes them.
pub mod Fusion
pub mod Ema
pub mod Curve
pub mod Hysteresis
pub mod Slew
pub mod Panic
pub mod Clamp
pub mod Adapter
pub mod Loop
pub mod Daemon
mod Tests
mod StageTests
