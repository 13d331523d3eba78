-- ===== src/Examples.antt =====
-- The theorems at concrete inputs.
mod Frames
mod Queues
mod Linked
mod Device
mod Manager
mod Whole
mod Sample
mod Dialog
