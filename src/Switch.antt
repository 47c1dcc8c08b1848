-- ===== src/Switch.antt =====
-- The switch engine, switch-core/src/engine.rs with context.rs, state.rs, compliance.rs and
-- tsp_vault.rs: its shared state, and what a worker does to it. The children hold one loop each:
-- the ingress workers, the HSM worker, the bank reply workers and the reaper.
--
-- One pass of a loop is one function on the shared state. What the maps of other crates return,
-- whether a channel takes a message and what the clock says are arguments of that function.
pub mod State
pub mod Stip
pub mod Compliance
pub mod Ingress
pub mod Reply
pub mod Reaper
pub mod Guard
pub mod Responders
pub mod Translation
pub mod Hsm
pub mod Run
