-- ===== src/Cassandra.antt =====
-- micro-cassandra: a memtable, sorted files, and the database over both.
mod Tests
pub mod Entry
pub mod Memtable
pub mod Format
pub mod Name
pub mod Table
pub mod Db
