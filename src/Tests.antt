-- ===== src/Tests.antt =====
-- The theorems of the library at concrete inputs, and runs of the model.
pub mod Board
pub mod Adapter
pub mod Lobby
pub mod Manager
pub mod Packet
pub mod Connections
pub mod Client
pub mod Player
pub mod Tasks
