-- ===== src/Lib.antt =====
-- The ISO-8583 payment switch of ISO8583PaymentEngine, as shallow definitions with proofs.
--
-- Parts, with the crate's path under ISO8583PaymentEngine/:
--   Base       names and lemmas that all parts share: lists, byte strings (Bytes, &[u8] and String
--              alike), UTF-8 with its lossy reading, decimal text, dictionaries, signed integers.
--   Canonical  payment-proto/src/canonical.rs, the protobuf Transaction, and to_pb and from_pb of
--              switch-core/src/lib.rs.
--   Routing    switch-core/src/routing.rs: the trie that maps a PAN to a route.
--   Switch     switch-core/src/engine.rs with context.rs, state.rs, compliance.rs, tsp_vault.rs and
--              hsm_client.rs. State is the shared state as one record; Ingress, Stip, Reply, Reaper
--              and Hsm are one pass of each thread's loop as a function on it; Run has the
--              interleavings of the passes.
--   Dialect    payment-proto/src/iso_dialect.rs, payment-proto/src/dialects and
--              iso-dialect/src/lib.rs: parsers and builders of the message's bytes.
--   Edge       edge-ingress/src/codec.rs (which edge-egress/src/client.rs repeats),
--              payment-proto/src/thales.rs, the contexts that edge-ingress/src/server.rs makes, and
--              Egress, the client of edge-egress/src/client.rs with its store of advices.
--   Wal        switch-core/src/journal.rs, the log's writer, and switch-core/src/bin/settle.rs, its
--              reader.
--   Daemon     payment-daemon/src/main.rs, the hot reloads and the journal view, and
--              payment-daemon/src/network_manager.rs, the probes of the nodes.
--   Ledger     switch-core/src/ledger_worker.rs, the shadow ledger with its fees, and the settlement
--              trigger of ops-control-plane/src/main.rs.
--   Ops        ops-control-plane/src/main.rs, beside ISO8583PaymentEngine/: the versioned tables of
--              the operators and their publication to the daemon.
--   Simulator  ISO8583PaymentSimulator/, beside ISO8583PaymentEngine/: the simulated banks of
--              mock-bank-node/src/main.rs, the simulated security module of src/bin/mock_hsm.rs,
--              and the traffic generator of src/engine.rs and src/main.rs.
--   Tests      concrete runs.
--
-- The edge parses a frame by a dialect into a canonical event and sends it, with the sending half of
-- a oneshot channel, to an ingress worker. The worker screens it, puts it into the idempotency guard
-- under its RRN, STAN and acquirer, and either queues it for the HSM worker or journals it and
-- forwards it under an egress STAN. A bank reply worker takes the reply back to the entry; the reaper
-- ends what is not answered in time. The settlement daemon and the journal view read the journal, and
-- the ledger worker books the events of the switch in batches. A client for each bank takes the
-- messages off the bank's channel, and stores an advice that it cannot hand over. The control plane
-- keeps a new version of a row for each edit, and posts the live rows to the daemon, which replaces
-- the tables of the switch by them; the network manager probes the nodes.
--
-- What stands for what. A channel is the list of what was sent into it; a terminal's oneshot channel
-- is a number, and a reply is noted under it. A DashMap or a sled tree is an association list, and
-- no theorem needs more of its order than that a pass over it keeps the order. One pass of a loop is
-- atomic; a schedule interleaves whole passes. The workers of the traffic generator interleave by
-- single atomic operations. A table of SQLite is the list of its rows, and whether the database
-- takes a statement is an argument. f64 is a type parameter with its operations. The clock, the open
-- channels, the nodes that take a message and bincode are an argument (Environment); prost's codec
-- and the answers of the HSM are parameters. A panic is none, or the constructor panic of a result.
--
-- Bounds and fuel. A u64, i64, u32 or u16 keeps its wrap-around (% 2 ^ w) where the source computes or
-- casts. The loop over the bitmaps makes at most three rounds, since the offset of the bits grows by 64
-- up to 129, so its fuel 3 is enough; digits_of has fuel for the twenty digits of a 64-bit number; the
-- sweep's fuel is the length of the file, and each record takes at least five bytes of it. All other
-- loops are structural.
--
-- Not modelled: the metrics, logs and telemetry, which change no state of the switch; the settlement
-- cron, whose one statement goes by the clock of the database; sockets, tasks and the start-up of the
-- processes; the test orchestrator and the operator console, which drive the switch from outside.
pub mod Base
pub mod Canonical
pub mod Routing
pub mod Simulator
pub mod Switch
pub mod Dialect
pub mod Edge
pub mod Wal
pub mod Daemon
pub mod Ledger
pub mod Ops
pub mod Tests
