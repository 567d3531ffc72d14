-- ===== src/Game/World/Replicate.antt =====
-- What each player is sent of the entities around it, and the world's step (internal/game:
-- replication.go, world.go). An entity that the grid names is in the store.
pub mod Known
pub mod Picture
pub mod Visits
pub mod Clear
use nytrpg.Prelude.{
  Bool, List, Option, [], false, if◌then◌else◌, insert, is_empty, is_some, keep, lookup, none, some,
  ℕ, ◌&&◌, ◌++◌, ◌+◌, ◌==◌, ◌∷◌,
}
use nytrpg.Game.Duel.Tick.{tick}
use nytrpg.Game.Lobby.{expire_offers}
use nytrpg.Game.Side.{out}
use nytrpg.Game.World.Grid.{Cells, Vec, near}
use nytrpg.Game.World.State.{Entity, Player, Sent, Spawn, Update, World, world_update}

-- `Entity.spawnMsg`
unfoldable pub spawn_of : Entity → Spawn
spawn_of e = record {
  name = e.name;
  char_name = e.char_name;
  class = e.class;
  at = e.at;
  elo = e.elo;
}

-- The update of a player so far, and the entities that it knows.
pub record View : Type 0 where
  pub upd : Update
  pub known : List (ℕ × ℕ)

-- What a known entity adds to the update.
abbrev pub changes : ℕ → Entity → Update → Update
changes id e u = record u {
  moves = (if e.moved then u.moves ++ (id, e.at) ∷ [] else u.moves);
  elos = (if e.elo_changed then u.elos ++ (id, e.elo) ∷ [] else u.elos);
}

-- The function that `replicate` passes to `near`.
unfoldable pub visit : ℕ → ℕ → List (ℕ × Entity) → ℕ → View → View
unfolding spawn_of
visit tick self entities id v = if id == self then v else elim (lookup id entities) [
  | none ↦ v
  | some e ↦
      let upd =
        if is_some (lookup id v.known)
        then changes id e v.upd
        else record v.upd { spawns = v.upd.spawns ++ (id, spawn_of e) ∷ [] } in
      record { upd = upd; known = insert id tick v.known }
]

unfoldable pub visit_all : ℕ → ℕ → List (ℕ × Entity) → List ℕ → View → View
unfolding visit
visit_all tick self entities [] v = v
visit_all tick self entities (id ∷ ids) v =
    visit_all tick self entities ids (visit tick self entities id v)

-- The known entities that were not seen in this tick.
unfoldable pub stale : ℕ → List (ℕ × ℕ) → List ℕ
stale tick [] = []
stale tick ((id, seen) ∷ known) =
    let rest = stale tick known in if seen == tick then rest else id ∷ rest

abbrev pub fresh : ℕ → List (ℕ × ℕ) → List (ℕ × ℕ)
fresh tick known = keep (λ k. k.1 == tick) known

abbrev pub no_update : Update
no_update = record { spawns = []; moves = []; despawns = []; elos = [] }

-- The loop of `replicate`, for one player at a place.
unfoldable pub view_of : ℕ → Vec → ℕ → List (ℕ × Entity) → Cells → List (ℕ × ℕ) → View
unfolding near visit_all stale
view_of tick at self entities cells known =
    let v =
      visit_all tick self entities (near at cells) (record { upd = no_update; known = known }) in
    record { upd = record v.upd { despawns = stale tick v.known }; known = fresh tick v.known }

abbrev pub is_no_update : Update → Bool
is_no_update u = is_empty u.spawns && is_empty u.moves && is_empty u.despawns && is_empty u.elos

abbrev pub place_or : Vec → Option Entity → Vec
place_or at none = at
place_or at (some e) = e.at

abbrev pub place_of : ℕ → World → Vec
place_of id w = place_or w.area.spawn (lookup id w.entities)

abbrev pub player_view : World → Player → View
player_view w p = view_of w.tick (place_of p.ent w) p.ent w.entities w.cells p.known

-- The players with what they know now, and what each is sent.
unfoldable pub replicate_all : World → List (ℕ × Player) → List (ℕ × Player) × List (ℕ × Sent)
replicate_all w [] = ([], [])
replicate_all w ((c, p) ∷ players) =
    let v = player_view w p in
    let (rest, out) = replicate_all w players in
    (
      (c, record p { known = v.known }) ∷ rest,
      (if is_no_update v.upd then out else (c, world_update v.upd) ∷ out),
    )

abbrev pub unmark_moved : ℕ → Option Entity → List (ℕ × Entity) → List (ℕ × Entity)
unmark_moved id none entities = entities
unmark_moved id (some e) entities = insert id (record e { moved = false }) entities

unfoldable pub clear_moved : List ℕ → List (ℕ × Entity) → List (ℕ × Entity)
clear_moved [] entities = entities
clear_moved (id ∷ ids) entities = clear_moved ids (unmark_moved id (lookup id entities) entities)

abbrev pub unmark_elo : ℕ → Option Entity → List (ℕ × Entity) → List (ℕ × Entity)
unmark_elo id none entities = entities
unmark_elo id (some e) entities = insert id (record e { elo_changed = false }) entities

unfoldable pub clear_elo : List ℕ → List (ℕ × Entity) → List (ℕ × Entity)
clear_elo [] entities = entities
clear_elo (id ∷ ids) entities = clear_elo ids (unmark_elo id (lookup id entities) entities)

-- `replicate`
unfoldable pub replicate_world : World → World
unfolding replicate_all clear_moved clear_elo
replicate_world w =
    let (players, out) = replicate_all w w.players in
    record w {
      players = players;
      outbox = w.outbox ++ out;
      entities = clear_elo w.elo_ids (clear_moved w.moved_ids w.entities);
      moved_ids = [];
      elo_ids = [];
    }

-- `step`, with what its systems do to the lobby.
unfoldable pub step : ℕ → World → World
unfolding expire_offers replicate_world
step now w = replicate_world (record w { tick = w.tick + 1; lobby = expire_offers now w.lobby })
