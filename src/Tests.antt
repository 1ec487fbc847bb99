-- ===== src/Tests.antt =====
-- The theorems at concrete inputs, and runs of the models.
pub mod CharRanges
pub mod Buffers
pub mod LineTables
pub mod Heaps
pub mod CStrings
pub mod JobQueues
pub mod StringBuffers
pub mod Texts
pub mod Maps
pub mod Promises
pub mod StackSizes
pub mod Cycles
pub mod Resolutions
