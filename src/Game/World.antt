-- ===== src/Game/World.antt =====
-- The shared world: entities, players, the spatial grid, movement, what players see, chat
-- (internal/game: world.go, grid.go, movement.go, worldmap.go, replication.go, presence.go, chat.go,
-- profile.go).
-- A player is named by its client. The entities live in one store under their ids, and a player, the
-- grid and the lists of changed entities name them by id, so that they share one entity as the source's
-- pointers do. Sprites are left out (a function of the class).
pub mod Grid
pub mod State
pub mod Move
pub mod Players
pub mod Invariant
pub mod Replicate
pub mod Mirror
pub mod Watch
pub mod Events
pub mod Budget
pub mod Travel
pub mod Profile
pub mod Interact
