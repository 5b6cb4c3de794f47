-- ===== src/Game.antt =====
-- The realtime part of the server, src/game.
pub mod Error
pub mod Message
pub mod Board
pub mod Packet
pub mod Adapter
pub mod Lobby
pub mod Manager
pub mod Connections
pub mod Client
