-- ===== src/Otel.antt =====
-- otel: a store of counters in time windows, with the handlers that fill it and read it.
mod Tests
pub mod Store
pub mod Fingerprint
pub mod Handler
pub mod Client
