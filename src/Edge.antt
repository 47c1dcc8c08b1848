-- ===== src/Edge.antt =====
-- The TCP edges: the length-prefixed frames of edge-ingress and edge-egress, the Thales frames of
-- payment-proto, and what the edges do with a message that cannot be delivered.
pub mod Frame
pub mod Thales
pub mod Server
pub mod Egress
