-- ===== src/Crdt.antt =====
-- conflict-free-replicated-datatypes/crdt: the replicated sequence and the wire format of its ops.
mod Tests
pub mod Node
pub mod Op
pub mod Rga
pub mod Ui
pub mod Peer
pub mod Main
