-- ===== src/Game/World/Events/Run.antt =====
-- The world from its start (internal/game/world.go: Run): commands and ticks in any order.
use nytrpg.Prelude.{
  List, Option, [], ap, arith, false, is_some, length, lookup, none, not, refl, some, sym, true, ℕ,
  ℤ, ◌&&◌, ◌+◌, ◌<◌, ◌==◌, ◌^◌, ◌∙◌, ◌∷◌, ◌≡◌, ◌≢◌, ◌≤◌,
}
use nytrpg.Game.Duel.Invariant.{if_keeps}
use nytrpg.Game.Lobby.{leave_lobby}
use nytrpg.Game.World.Events.{IsWorld, new_world-IsWorld}
use nytrpg.Game.World.Events.Joins.{join-IsWorld, leave-IsWorld}
use nytrpg.Game.World.Events.Moves.{chat-IsWorld, move-IsWorld, set_rating-IsWorld}
use nytrpg.Game.World.Events.Step.{shown_to, step-IsWorld, step-shown}
use nytrpg.Game.World.Grid.{CellKey, Vec, cell_at, cell_of, cell_size, eq_ℤ, has, key_eq}
use nytrpg.Game.World.Grid.Near.{Within, is_around-Within}
use nytrpg.Game.World.Invariant.{stands}
use nytrpg.Game.World.Mirror.{shown_near}
use nytrpg.Game.World.Move.{distance, move, move_entity, move_player, move_to, spend}
use nytrpg.Game.World.Players.{
  Character, chat, chat_player, join, leave, leave_player, release_online,
}
use nytrpg.Game.World.Replicate.{place_or, replicate_world, step}
use nytrpg.Game.World.State.{
  Entity, Player, World, WorldMap, in_bounds, new_entity, new_world, put_entity, rate_entity,
  rate_player, remove_entity, remove_stored, set_rating,
}
use nytrpg.Game.World.Watch.{nothing_shown, watch}
use nytrpg.Ranked.Elo.{Rating}
use nytrpg.Text.{Text}

-- A command or a tick. `player_rated` is a duel's settlement, of a player who is there.
pub data Command : Type 0 where
  player_joins : ℕ → ℕ → Text → Character → Rating → ℕ → ℕ → ℕ → Command
  player_leaves : ℕ → Command
  player_moves : ℕ → Vec → ℕ → Command
  player_rated : ℕ → Rating → Command
  player_says : ℕ → Text → Command
  world_ticks : ℕ → Command

next_id-remove_stored :
    (id : ℕ) (o : Option Entity) (w : World) → (remove_stored id o w).next_id ≡ w.next_id
unfolding remove_stored
next_id-remove_stored id none w = refl
next_id-remove_stored id (some e) w = refl

next_id-leave_player :
    (c : ℕ) (o : Option Player) (w : World) → (leave_player c o w).next_id ≡ w.next_id
unfolding leave_player remove_entity release_online
next_id-leave_player c none w = refl
next_id-leave_player c (some p) w =
    next_id-remove_stored p.ent (lookup p.ent w.entities)
      (record w { lobby = leave_lobby c w.lobby })

next_id-rate_player :
    (c : ℕ) (o : Option Player) (r : Rating) (w : World) → (rate_player c o r w).next_id ≡ w.next_id
unfolding rate_player rate_entity set_rating
next_id-rate_player c none r w = refl
next_id-rate_player c (some p) r w = rated_entity (lookup p.ent w.entities)
  where
    rated_entity : (o : Option Entity) → (rate_entity c p o r w).next_id ≡ w.next_id
    rated_entity none = refl
    rated_entity (some e) = refl

next_id-chat_player :
    (o : Option Player) (msg : Text) (w : World) → (chat_player o msg w).next_id ≡ w.next_id
unfolding chat_player
next_id-chat_player none msg w = refl
next_id-chat_player (some p) msg w = refl

module _ (hypot : ℤ → ℤ → ℕ) where
  unfoldable pub handle : Command → World → World
  unfolding join leave move rate_player chat step
  handle (player_joins c player_id username ch rating dx dy now) w =
      join c player_id username ch rating dx dy now w
  handle (player_leaves c) w = leave c w
  handle (player_moves c at now) w = move hypot c at now w
  handle (player_rated c r) w = rate_player c (lookup c w.players) r w
  handle (player_says c msg) w = chat c msg w
  handle (world_ticks now) w = step now w

  unfoldable pub run_world : List Command → World → World
  unfolding handle
  run_world [] w = w
  run_world (e ∷ es) w = run_world es (handle e w)

  rate_entity-IsWorld :
      (c : ℕ) (p : Player) (o : Option Entity) (r : Rating) (w : World)
      → IsWorld w
      → lookup c w.players ≡ some p
      → lookup p.ent w.entities ≡ o
      → IsWorld (rate_entity c p o r w)
  unfolding rate_entity
  rate_entity-IsWorld c p none r w v found stored = v
  rate_entity-IsWorld c p (some e) r w v found stored = set_rating-IsWorld c p e r w v found stored

  rate_player-IsWorld :
      (c : ℕ) (o : Option Player) (r : Rating) (w : World)
      → IsWorld w
      → lookup c w.players ≡ o
      → IsWorld (rate_player c o r w)
  unfolding rate_player
  rate_player-IsWorld c none r w v found = v
  rate_player-IsWorld c (some p) r w v found =
      rate_entity-IsWorld c p (lookup p.ent w.entities) r w v found refl

  handle-IsWorld :
      (e : Command) (w : World) → IsWorld w → w.next_id + 1 < 2 ^ 32 → IsWorld (handle e w)
  unfolding handle
  handle-IsWorld (player_joins c player_id username ch rating dx dy now) w v room =
      join-IsWorld c player_id username ch rating dx dy now w v room
  handle-IsWorld (player_leaves c) w v room = leave-IsWorld c w v
  handle-IsWorld (player_moves c at now) w v room = move-IsWorld hypot c at now w v
  handle-IsWorld (player_rated c r) w v room = rate_player-IsWorld c (lookup c w.players) r w v refl
  handle-IsWorld (player_says c msg) w v room = chat-IsWorld c msg w v
  handle-IsWorld (world_ticks now) w v room = step-IsWorld w now v

  next_id-move_entity :
      (c : ℕ) (p : Player) (o : Option Entity) (at : Vec) (now : ℕ) (w : World)
      → (move_entity hypot c p o at now w).next_id ≡ w.next_id
  unfolding move_entity move_to put_entity
  next_id-move_entity c p none at now w = refl
  next_id-move_entity c p (some e) at now w =
      if_keeps (λ (v : World). v.next_id ≡ w.next_id) (eq_ℤ at.x e.at.x && eq_ℤ at.y e.at.y) refl
        (if_keeps (λ (v : World). v.next_id ≡ w.next_id) (not (in_bounds w.area at)) refl
          (if_keeps (λ (v : World). v.next_id ≡ w.next_id)
            (spend (distance hypot e.at at) now p.allowance).0 refl refl))

  next_id-move_player :
      (c : ℕ) (o : Option Player) (at : Vec) (now : ℕ) (w : World)
      → (move_player hypot c o at now w).next_id ≡ w.next_id
  unfolding move_player
  next_id-move_player c none at now w = refl
  next_id-move_player c (some p) at now w =
      next_id-move_entity c p (lookup p.ent w.entities) at now w

  -- Only a join takes an id.
  next_id-handle : (e : Command) (w : World) → (handle e w).next_id ≤ w.next_id + 1
  unfolding handle join new_entity leave move chat step replicate_world
  next_id-handle (player_joins c player_id username ch rating dx dy now) w = omega arith
  next_id-handle (player_leaves c) w = omega (arith, next_id-leave_player c (lookup c w.players) w)
  next_id-handle (player_moves c at now) w =
      omega (arith, next_id-move_player c (lookup c w.players) at now w)
  next_id-handle (player_rated c r) w =
      omega (arith, next_id-rate_player c (lookup c w.players) r w)
  next_id-handle (player_says c msg) w =
      omega (arith, next_id-chat_player (lookup c w.players) msg w)
  next_id-handle (world_ticks now) w = omega arith

  run_world-IsWorld :
      (es : List Command) (w : World)
      → IsWorld w
      → w.next_id + length es < 2 ^ 32
      → IsWorld (run_world es w)
  unfolding run_world
  run_world-IsWorld [] w v room = v
  run_world-IsWorld (e ∷ es) w v room =
      run_world-IsWorld es (handle e w) (handle-IsWorld e w v (omega arith))
        (omega (arith, next_id-handle e w))

  -- The world after its start and the events.
  abbrev pub reached : WorldMap → List Command → World
  reached area es = run_world es (new_world area)

  pub reached-IsWorld :
      (area : WorldMap) (es : List Command) → length es < 2 ^ 32 → IsWorld (reached area es)
  reached-IsWorld area es room =
      run_world-IsWorld es (new_world area) (new_world-IsWorld area) (omega (arith, room))

  -- Whatever happened before (in fewer than 2^32 events), after a tick the client of each player shows
  -- exactly the entities in the nine cells around its own, as they are now, and nothing else: all
  -- updates that were sent to it add up.
  pub run_world-shown :
      (area : WorldMap) (es : List Command) (now c id : ℕ) (p : Player)
      → length es < 2 ^ 32
      → lookup c (reached area es).players ≡ some p
      → watch c (step now (reached area es)).outbox nothing_shown id
        ≡ shown_to (reached area es) p id
  run_world-shown area es now c id p room found =
      step-shown (reached area es) now c p (reached-IsWorld area es room) found id

  -- In every world that is reached in fewer than 2^32 events, each player has an entity, two players
  -- with one entity are one, and a player's entity stands in the cell of its place and in no other.
  pub run_world-own :
      (area : WorldMap) (es : List Command) (c d : ℕ) (p q : Player)
      → length es < 2 ^ 32
      → lookup c (reached area es).players ≡ some p
      → lookup d (reached area es).players ≡ some q
      → (is_some (lookup p.ent (reached area es).entities) ≡ true)
        × (p.ent ≡ q.ent → c ≡ d)
        × ((e : Entity)
            → lookup p.ent (reached area es).entities ≡ some e
            → (key : CellKey)
            → has p.ent (cell_at key (reached area es).cells) ≡ key_eq (cell_of e.at) key)
  run_world-own area es c d p q room found found' =
      let v = reached-IsWorld area es room in
      (
        v.owns c p found,
        v.apart c d p q found found',
        λ e stored key.
            v.placed.grid_right p.ent key
            ∙ ap (stands key) stored
            ∙ ap (λ (k : CellKey). key_eq k key) (v.placed.cell_right p.ent e stored),
      )

  -- In a world that is reached in fewer than 2^32 events, after a tick, a player sees another who is at
  -- most a cell's width away on both axes, where that player is and with the elo that it has.
  pub run_world-near :
      (area : WorldMap) (es : List Command) (now c d : ℕ) (p q : Player) (e f : Entity)
      → length es < 2 ^ 32
      → c ≢ d
      → lookup c (reached area es).players ≡ some p
      → lookup d (reached area es).players ≡ some q
      → lookup p.ent (reached area es).entities ≡ some e
      → lookup q.ent (reached area es).entities ≡ some f
      → Within cell_size e.at.x f.at.x × Within cell_size e.at.y f.at.y
      → watch c (step now (reached area es)).outbox nothing_shown q.ent ≡ some (f.at, f.elo)
  run_world-near area es now c d p q e f room differ found found' stored stored' close =
      let v = reached-IsWorld area es room in
      let seen = (is_around-Within e.at f.at).0 close in
      let own = other_ent p q (λ same. differ (v.apart c d p q found found' (sym same))) in
      run_world-shown area es now c q.ent p room found
      ∙ rw (own, stored')
          (ap (λ (o : Option Entity). shown_near (place_or (reached area es).area.spawn o) (some f))
              stored
            ∙ rw (v.placed.cell_right q.ent f stored', seen) refl)
    where
      other_ent : (p q : Player) → (q.ent ≡ p.ent → ⊥) → (q.ent == p.ent) ≡ false
      other_ent p q h = ground (arith, h)
