-- ===== src/Dtls.antt =====
-- The DTLS layer: DTLS/ of the repository.
pub mod Node
pub mod Clients
pub mod Records
pub mod Sessions
pub mod Client
pub mod Tasks
pub mod Socket
pub mod ClientThread
pub mod ServerThread
pub mod Credentials
pub mod Server
mod Examples
