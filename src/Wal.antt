-- ===== src/Wal.antt =====
-- The write-ahead log: its writer, switch-core/src/journal.rs, and its reader, the settlement daemon
-- of switch-core/src/bin/settle.rs.
pub mod Journal
pub mod Settle
pub mod Frames
pub mod Settled
pub mod Cutoff
pub mod Emptied
pub mod Resumed
