-- ===== src/Examples.antt =====
-- Runs of the models at concrete inputs.
pub mod Samples
pub mod Loaded
mod Serving
mod Turns
mod Ends
mod Socket
pub mod Nodes
mod Reads
mod Plugged
