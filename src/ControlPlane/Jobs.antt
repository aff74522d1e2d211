-- ===== src/ControlPlane/Jobs.antt =====
-- apps/control-plane/src/jobs/queue.ts: the job queue.
pub mod Rows
pub mod Queue
pub mod Tables
pub mod Steps
pub mod Soundness
pub mod Invariant
pub mod Ends
pub mod Fencing
pub mod Claims
pub mod Recovery
pub mod Order
pub mod Worker
