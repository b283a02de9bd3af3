-- ===== src/Core.antt =====
-- crates/rip-core: the domain types that every frontend and worker of the server shares.
pub mod Error
pub mod State
pub mod Document
pub mod Mapping
pub mod Pages
pub mod Print
pub mod Job
pub mod Ticket
