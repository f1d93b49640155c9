-- ===== src/Pacer.antt =====
-- lib/pacer.go: the pacers, a child module for each, and the interface that the attack calls.
pub mod Constant
pub mod Linear
pub mod Sine
mod Tests
