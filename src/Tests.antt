-- ===== src/Tests.antt =====
-- Runs of the models at concrete inputs.
mod Reconcile
mod PinSketch
mod Element
mod Client
mod Merkle
mod LtHash
mod Cuckoo
mod Fields
mod ServerKey
