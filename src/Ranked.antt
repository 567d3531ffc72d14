-- ===== src/Ranked.antt =====
-- Ranked play (internal/ranked).
pub mod Ladder
pub mod Elo
pub mod Records
