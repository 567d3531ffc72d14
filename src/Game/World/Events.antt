-- ===== src/Game/World/Events.antt =====
-- What stays true of the world under all that happens in it (internal/game: world.go, movement.go,
-- chat.go, replication.go).
pub mod Step
pub mod Changes
pub mod Joins
pub mod Moves
pub mod Run
use nytrpg.Prelude.{List, is_some, lookup, refl, some, true, ℕ, ◌≡◌, ◌≤◌}
use nytrpg.Game.Duel.Tick.{tick}
use nytrpg.Game.World.Grid.{Cells, cell_at}
use nytrpg.Game.World.Invariant.{IsPlaced}
use nytrpg.Game.World.Mirror.{Follows}
use nytrpg.Game.World.Replicate.Known.{Unique}
use nytrpg.Game.World.State.{Entity, Player, Sent, World, WorldMap, new_world}
use nytrpg.Game.World.Watch.{nothing_shown, watch}

-- Everyone stands where the grid says, each player has an entity of its own, and every client shows
-- the world as its player knows it, but for what has changed since the last tick.
pub record IsState (tick next : ℕ) (entities : List (ℕ × Entity)) (cells : Cells)
    (players : List (ℕ × Player)) (outbox : List (ℕ × Sent)) : Type 0 where
  pub placed : IsPlaced entities cells
  pub below : (id : ℕ) (e : Entity) → lookup id entities ≡ some e → id ≤ next
  pub unique : Unique players
  pub owns :
      (c : ℕ) (p : Player) → lookup c players ≡ some p → is_some (lookup p.ent entities) ≡ true
  pub apart :
      (c d : ℕ) (p q : Player)
      → lookup c players ≡ some p
      → lookup d players ≡ some q
      → p.ent ≡ q.ent
      → c ≡ d
  pub follows :
      (c : ℕ) (p : Player)
      → lookup c players ≡ some p
      → Follows tick next entities p.known (watch c outbox nothing_shown)

abbrev pub IsWorld : World → Type 0
IsWorld w = IsState w.tick w.next_id w.entities w.cells w.players w.outbox

pub new_world-IsWorld : (area : WorldMap) → IsWorld (new_world area)
unfolding cell_at
new_world-IsWorld area = record {
  placed = record { grid_right = λ id key. refl; cell_right = λ id e h. cc };
  below = λ id e h. cc;
  unique = tt;
  owns = λ c p h. cc;
  apart = λ c d p q h k e. cc;
  follows = λ c p h. cc;
}
