-- ===== src/Dialect.antt =====
-- The ISO-8583 dialects of payment-proto and iso-dialect: what a message's bytes mean as a canonical
-- event, and how an event is written. `Fields` has the readers and writers of one field, `Event` the
-- parts that the dialects share, and one module each the four dialects, three of which read the
-- fields of `Subset`.
pub mod Fields
pub mod Event
pub mod Subset
pub mod Standard
pub mod Universal
pub mod UkFps
pub mod Interac
