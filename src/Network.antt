-- ===== src/Network.antt =====
-- The message protocol: Network/ of the repository.
pub mod Qt
pub mod Fragment
pub mod Message
pub mod Protocol
pub mod Sender
pub mod Waiting
pub mod Timer
pub mod Sequence
pub mod Packet
pub mod Receive
pub mod Stream
pub mod Timeouts
pub mod Example
pub mod Exchange
pub mod Dialogue
pub mod WaitHelper
