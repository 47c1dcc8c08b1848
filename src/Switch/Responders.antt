-- ===== src/Switch/Responders.antt =====
-- The responders of the terminals under the operations of engine.rs: how often each is held by the
-- guard, waits for the HSM worker or was sent a reply.
mod Count
mod Answers
mod Forward
pub mod Ingress
pub mod Loops
pub mod Security
unfoldable pub use Count.{held, answered, queued, owes, uses}
