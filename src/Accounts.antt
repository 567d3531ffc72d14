-- ===== src/Accounts.antt =====
-- Accounts (internal/auth, internal/characters, internal/store).
pub mod Characters
pub mod Players
pub mod Auth
