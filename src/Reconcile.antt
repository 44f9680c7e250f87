-- ===== src/Reconcile.antt =====
-- Package reconcile: set reconciliation of event populations.
pub mod Field
pub mod Element
pub mod Accumulator
pub mod Sketch
pub mod PinSketch
pub mod Decode
pub mod Resident
pub mod Triage
pub mod Client
