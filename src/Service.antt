-- ===== src/Service.antt =====
-- db-as-a-service: named databases behind HTTP. The directories, the manager, the compactor and the
-- server's handlers. A request is handled as a whole before the next one.
mod Tests
pub mod Tree
pub mod Manager
pub mod Compactor
pub mod Server
pub mod Directories
pub mod Registry
pub mod Spec
pub mod Keeps
pub mod Handlers
pub mod Conforms
pub mod History
pub mod Escape
pub mod Main
