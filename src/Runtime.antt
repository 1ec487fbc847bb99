-- ===== src/Runtime.antt =====
-- The runtime of Sources/QuickJSC/quickjs.c: memory accounting, the job queue with
-- promises, and the collector of cycles.
pub mod Malloc
pub mod Jobs
pub mod Promises
pub mod Gc
