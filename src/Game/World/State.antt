-- ===== src/Game/World/State.antt =====
-- The world's state and what changes its entities (internal/game: world.go, worldmap.go). int32
-- coordinates are ℤ: those on a map stay far from its ends, and a position off the map is refused.
-- Encoded messages and the counters of Stats are left out, but for refused moves.
use nytrpg.Prelude.{
  Bool, List, Option, [], delete, false, if◌then◌else◌, insert, leb, lookup, ltb_ℤ, neg_part, none,
  pos, pos_part, some, true, ℕ, ℤ, ◌%◌, ◌&&◌, ◌++◌, ◌+◌, ◌^◌, ◌∷◌,
}
use nytrpg.Classes.{ClassId}
use nytrpg.Game.Lobby.{Lobby}
use nytrpg.Game.World.Grid.{CellKey, Cells, Vec, cell_of, grid_insert, grid_remove, key_eq}
use nytrpg.Ranked.Elo.{Rating}
use nytrpg.Text.{Text}

-- The part of protocol.WorldMap that the world decides by.
pub record WorldMap : Type 0 where
  pub width : ℤ
  pub height : ℤ
  pub spawn : Vec

-- `Entity`, a player's: the only kind there is.
pub record Entity : Type 0 where
  pub name : Text
  pub char_name : Text
  pub class : ClassId
  pub at : Vec
  pub elo : ℤ
  pub moved : Bool
  pub elo_changed : Bool
  pub cell : CellKey

-- `moveBudget`
pub record Allowance : Type 0 where
  pub budget : ℕ
  pub budget_at : ℕ

-- `player`; `p.duel` is kept by the lobby. `known` holds the tick in which an entity was last in view.
pub record Player : Type 0 where
  pub player_id : ℕ
  pub char_id : ℕ
  pub rating : Rating
  pub ent : ℕ
  pub known : List (ℕ × ℕ)
  pub allowance : Allowance

-- protocol.EntitySpawn without its id; protocol.EntityMove and EntityElo are pairs.
pub record Spawn : Type 0 where
  pub name : Text
  pub char_name : Text
  pub class : ClassId
  pub at : Vec
  pub elo : ℤ

-- protocol.WorldUpdate
pub record Update : Type 0 where
  pub spawns : List (ℕ × Spawn)
  pub moves : List (ℕ × Vec)
  pub despawns : List ℕ
  pub elos : List (ℕ × ℤ)

-- What the world sends: Welcome, Correction, WorldUpdate and ChatMsg, with what varies of them.
pub data Sent : Type 0 where
  welcome : ℕ → Vec → ℤ → Sent
  correction : Vec → Sent
  world_update : Update → Sent
  said : ℕ → Text → Sent

-- `World`
pub record World : Type 0 where
  pub area : WorldMap
  pub entities : List (ℕ × Entity)
  pub players : List (ℕ × Player)
  pub cells : Cells
  pub next_id : ℕ
  pub tick : ℕ
  pub moved_ids : List ℕ
  pub elo_ids : List ℕ
  pub lobby : Lobby
  pub online : List ℕ
  pub rejected_moves : ℕ
  pub outbox : List (ℕ × Sent)

-- `NewWorld`
abbrev pub new_world : WorldMap → World
new_world area = record {
  area = area;
  entities = [];
  players = [];
  cells = [];
  next_id = 0;
  tick = 0;
  moved_ids = [];
  elo_ids = [];
  lobby = record {
    offers = [];
    next_offer = 0;
    playing = [];
    duels = [];
    next_duel = 0;
    told = [];
  };
  online = [];
  rejected_moves = 0;
  outbox = [];
}

abbrev pub send : ℕ → Sent → World → World
send c msg w = record w { outbox = w.outbox ++ (c, msg) ∷ [] }

-- `clamp`
unfoldable pub clamp : ℤ → ℤ → ℤ → ℤ
clamp v lo hi = if ltb_ℤ v lo then lo else if ltb_ℤ hi v then hi else v

abbrev pub leb_ℤ : ℤ → ℤ → Bool
leb_ℤ a b = leb (pos_part a + neg_part b) (pos_part b + neg_part a)

-- `inBounds`
unfoldable pub in_bounds : WorldMap → Vec → Bool
in_bounds area p =
    leb_ℤ (pos 0) p.x && leb_ℤ (pos 0) p.y && leb_ℤ p.x area.width && leb_ℤ p.y area.height

-- `newEntity`: the id wraps as a uint32. The caller's fields are set in the same step.
unfoldable pub new_entity : Text → Text → ClassId → ℤ → Vec → World → World
unfolding cell_of grid_insert
new_entity name char_name class elo at w =
    let id = (w.next_id + 1) % 2 ^ 32 in
    let cell = cell_of at in
    let e : Entity = record {
      name = name;
      char_name = char_name;
      class = class;
      at = at;
      elo = elo;
      moved = false;
      elo_changed = false;
      cell = cell;
    } in
    record w {
      next_id = id;
      entities = insert id e w.entities;
      cells = grid_insert id cell w.cells;
    }

unfoldable pub remove_stored : ℕ → Option Entity → World → World
unfolding grid_remove
remove_stored id none w = w
remove_stored id (some e) w = record w {
  cells = grid_remove id e.cell w.cells;
  entities = delete id w.entities;
}

-- `removeEntity`
unfoldable pub remove_entity : ℕ → World → World
unfolding remove_stored
remove_entity id w = remove_stored id (lookup id w.entities) w

-- `grid.moved`: the entity's cell and the grid.
unfoldable pub grid_moved : ℕ → Entity → Cells → Entity × Cells
unfolding cell_of grid_insert grid_remove
grid_moved id e cells =
    let cell = cell_of e.at in
    if key_eq cell e.cell
    then (e, cells)
    else (record e { cell = cell }, grid_insert id cell (grid_remove id e.cell cells))

-- `e.Pos = pos` and `entityMoved`
unfoldable pub put_entity : ℕ → Entity → Vec → World → World
unfolding grid_moved
put_entity id e at w =
    let (placed, cells) = grid_moved id (record e { at = at }) w.cells in
    record w {
      cells = cells;
      entities = insert id (record placed { moved = true }) w.entities;
      moved_ids = (if e.moved then w.moved_ids else w.moved_ids ++ id ∷ []);
    }

-- `setRating`
unfoldable pub set_rating : ℕ → Player → Entity → Rating → World → World
set_rating c p e r w = record w {
  players = insert c (record p { rating = r }) w.players;
  entities = insert p.ent (record e { elo = r.elo; elo_changed = true }) w.entities;
  elo_ids = (if e.elo_changed then w.elo_ids else w.elo_ids ++ p.ent ∷ []);
}

unfoldable pub rate_entity : ℕ → Player → Option Entity → Rating → World → World
unfolding set_rating
rate_entity c p none r w = w
rate_entity c p (some e) r w = set_rating c p e r w

unfoldable pub rate_player : ℕ → Option Player → Rating → World → World
unfolding rate_entity
rate_player c none r w = w
rate_player c (some p) r w = rate_entity c p (lookup p.ent w.entities) r w
