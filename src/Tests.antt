-- ===== src/Tests.antt =====
-- Runs of the model on concrete inputs.
pub mod Data
pub mod Helper
pub mod Exchange
pub mod Streams
pub mod Marks
pub mod Together
pub mod Options
pub mod Pages
pub mod Paths
pub mod Races
pub mod Server
pub mod Later
pub mod Transport
pub mod Workers
