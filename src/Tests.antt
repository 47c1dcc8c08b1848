-- ===== src/Tests.antt =====
-- Concrete runs of the models: the switch, the wire formats, the log, the control plane, the daemon and
-- the egress client, the ledger and the simulator.
mod Samples
mod Switch
mod Dialect
mod Wire
mod Log
mod Ops
mod Egress
mod Ledger
mod Simulator
mod Security
