-- ===== src/Workers.antt =====
-- skrift/workers: job envelopes, and the in-memory backends of memory.py.
pub mod Job
pub mod Queue
pub mod EventLog
pub mod StateStore
pub mod DeadLetter
pub mod Runtime
