-- ===== src/Ops.antt =====
-- The control plane, ops-control-plane/src/main.rs: the tables that the operators edit, and what it
-- publishes from them to the switch.
pub mod Table
pub mod History
pub mod Live
pub mod Publish
pub mod Published
pub mod Handlers
