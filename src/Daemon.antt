-- ===== src/Daemon.antt =====
-- The payment daemon, payment-daemon/src: what its HTTP handlers do to the running switch and show of
-- it, and the manager that probes the nodes.
pub mod HotReload
pub mod NetworkManager
pub mod Journal
pub mod JournalView
pub mod Probed
