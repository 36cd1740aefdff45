-- ===== src/Tests.antt =====
-- Runs at concrete inputs, and the theorems at inputs that meet their hypotheses.
mod Python
pub mod Sample
pub mod Running
mod Handlers
mod Overlaps
mod Grants
mod Flights
mod Witnesses
