-- ===== src/Net.antt =====
-- A player's connection (internal/netconn).
pub mod Session
