-- ===== src/Game.antt =====
-- The shared world and its duels (internal/game).
pub mod Message
pub mod Side
pub mod Duel
pub mod Lobby
pub mod World
