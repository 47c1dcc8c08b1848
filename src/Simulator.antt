-- ===== src/Simulator.antt =====
-- The programs of ISO8583PaymentSimulator: the bank that answers the switch, and the generator of traffic.
pub mod Bank
pub mod Traffic
pub mod SecurityModule
