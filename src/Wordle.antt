-- ===== src/Wordle.antt =====
-- The daily Wordle and the puzzle of duels (internal/puzzles/wordle).
pub mod Score
pub mod Puzzle
pub mod Session
pub mod Service
pub mod Leaderboard
