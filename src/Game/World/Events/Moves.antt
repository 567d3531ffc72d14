-- ===== src/Game/World/Events/Moves.antt =====
-- Moves, ratings and chat (internal/game: movement.go, world.go, chat.go).
use nytrpg.Prelude.{
  List, Option, [], ap, insert, lookup, map, none, not, refl, some, sym, true, ℕ, ℤ, ◌&&◌, ◌==◌,
  ◌∙◌, ◌∷◌, ◌≡◌,
}
use nytrpg.Game.Duel.Invariant.{if_keeps}
use nytrpg.Game.World.Events.{IsWorld}
use nytrpg.Game.World.Events.Changes.{send-IsState, set_entity-IsState, set_player-IsState}
use nytrpg.Game.World.Grid.{Cells, Vec, cell_of, eq_ℤ, key_eq}
use nytrpg.Game.World.Invariant.{grid_moved-IsPlaced, keep-IsPlaced}
use nytrpg.Game.World.Move.{distance, move, move_entity, move_player, move_to, spend}
use nytrpg.Game.World.Players.{chat, chat_player}
use nytrpg.Game.World.Replicate.Picture.{Picture}
use nytrpg.Game.World.State.{
  Entity, Player, World, correction, grid_moved, in_bounds, put_entity, said, set_rating,
}
use nytrpg.Game.World.Watch.{watch}
use nytrpg.Ranked.Elo.{Rating}
use nytrpg.Text.{Text}

-- What `grid.moved` leaves as it is.
grid_moved_same :
    (id : ℕ) (e : Entity) (cells : Cells)
    → ((grid_moved id e cells).0.elo ≡ e.elo)
      × ((grid_moved id e cells).0.elo_changed ≡ e.elo_changed)
unfolding grid_moved
grid_moved_same id e cells =
    if_keeps (λ (m : Entity × Cells). (m.0.elo ≡ e.elo) × (m.0.elo_changed ≡ e.elo_changed))
      (key_eq (cell_of e.at) e.cell) (refl, refl) (refl, refl)

pub put_entity-IsWorld :
    (id : ℕ) (e : Entity) (at : Vec) (w : World)
    → IsWorld w
    → lookup id w.entities ≡ some e
    → IsWorld (put_entity id e at w)
unfolding put_entity
put_entity-IsWorld id e at w v stored =
    let there : Entity = record e { at = at } in
    let moved = grid_moved id there w.cells in
    let same = grid_moved_same id there w.cells in
    set_entity-IsState w.tick w.next_id w.entities w.cells w.players w.outbox id e
      (record moved.0 { moved = true }) moved.1 v stored
      (λ still. cc, λ still. (sym same.1 ∙ still, sym same.0))
      (grid_moved-IsPlaced id there e w.entities w.cells v.placed stored refl)

-- A correction changes nothing of what a client shows.
correction-quiet :
    (c : ℕ) (at : Vec) (d : ℕ) (pic : Picture) → watch d ((c, correction at) ∷ []) pic ≡ pic
unfolding watch
correction-quiet c at d pic = if_keeps (λ (p : Picture). p ≡ pic) (c == d) refl refl

module _ (hypot : ℤ → ℤ → ℕ) where
  move_to-IsWorld :
      (c : ℕ) (p : Player) (e : Entity) (at : Vec) (now : ℕ) (w : World)
      → IsWorld w
      → lookup c w.players ≡ some p
      → lookup p.ent w.entities ≡ some e
      → IsWorld (move_to hypot c p e at now w)
  unfolding move_to
  move_to-IsWorld c p e at now w v found stored =
      let paid = (spend (distance hypot e.at at) now p.allowance).1 in
      let players = insert c (record p { allowance = paid }) w.players in
      let v' =
        set_player-IsState w.tick w.next_id w.entities w.cells w.players w.outbox c p
          (record p { allowance = paid }) v found refl refl in
      if_keeps IsWorld (not (in_bounds w.area at))
        (send-IsState w.tick w.next_id w.entities w.cells w.players w.outbox
          ((c, correction e.at) ∷ []) v (λ d pic. correction-quiet c e.at d pic))
        (if_keeps IsWorld (spend (distance hypot e.at at) now p.allowance).0
          (put_entity-IsWorld p.ent e at (record w { players = players }) v' stored)
          (send-IsState w.tick w.next_id w.entities w.cells players w.outbox
            ((c, correction e.at) ∷ []) v' (λ d pic. correction-quiet c e.at d pic)))

  move_entity-IsWorld :
      (c : ℕ) (p : Player) (o : Option Entity) (at : Vec) (now : ℕ) (w : World)
      → IsWorld w
      → lookup c w.players ≡ some p
      → lookup p.ent w.entities ≡ o
      → IsWorld (move_entity hypot c p o at now w)
  unfolding move_entity
  move_entity-IsWorld c p none at now w v found stored = v
  move_entity-IsWorld c p (some e) at now w v found stored =
      if_keeps IsWorld (eq_ℤ at.x e.at.x && eq_ℤ at.y e.at.y) v
        (move_to-IsWorld c p e at now w v found stored)

  move_player-IsWorld :
      (c : ℕ) (o : Option Player) (at : Vec) (now : ℕ) (w : World)
      → IsWorld w
      → lookup c w.players ≡ o
      → IsWorld (move_player hypot c o at now w)
  unfolding move_player
  move_player-IsWorld c none at now w v found = v
  move_player-IsWorld c (some p) at now w v found =
      move_entity-IsWorld c p (lookup p.ent w.entities) at now w v found refl

  pub move-IsWorld :
      (c : ℕ) (at : Vec) (now : ℕ) (w : World) → IsWorld w → IsWorld (move hypot c at now w)
  unfolding move
  move-IsWorld c at now w v = move_player-IsWorld c (lookup c w.players) at now w v refl

-- A new rating shows in the entity, which is marked.
pub set_rating-IsWorld :
    (c : ℕ) (p : Player) (e : Entity) (r : Rating) (w : World)
    → IsWorld w
    → lookup c w.players ≡ some p
    → lookup p.ent w.entities ≡ some e
    → IsWorld (set_rating c p e r w)
unfolding set_rating
set_rating-IsWorld c p e r w v found stored =
    let rated = record p { rating = r } in
    let v' =
      set_player-IsState w.tick w.next_id w.entities w.cells w.players w.outbox c p rated v found
        refl refl in
    let marked = record e { elo = r.elo; elo_changed = true } in
    set_entity-IsState w.tick w.next_id w.entities w.cells (insert c rated w.players) w.outbox p.ent
      e marked w.cells v' stored (λ still. (still, refl), λ still. cc)
      (keep-IsPlaced p.ent marked w.entities w.cells e v.placed stored refl
        (v.placed.cell_right p.ent e stored))

chat-quiet :
    (id : ℕ) (msg : Text) (players : List (ℕ × Player)) (d : ℕ) (pic : Picture)
    → watch d (map (λ q. (q.0, said id msg)) players) pic ≡ pic
unfolding watch
chat-quiet id msg [] d pic = refl
chat-quiet id msg (q ∷ players) d pic =
    ap (watch d (map (λ r. (r.0, said id msg)) players))
      (if_keeps (λ (p : Picture). p ≡ pic) (q.0 == d) refl refl)
    ∙ chat-quiet id msg players d pic

chat_player-IsWorld :
    (o : Option Player) (msg : Text) (w : World) → IsWorld w → IsWorld (chat_player o msg w)
unfolding chat_player
chat_player-IsWorld none msg w v = v
chat_player-IsWorld (some p) msg w v =
    send-IsState w.tick w.next_id w.entities w.cells w.players w.outbox
      (map (λ q. (q.0, said p.ent msg)) w.players) v (λ d pic. chat-quiet p.ent msg w.players d pic)

pub chat-IsWorld : (c : ℕ) (msg : Text) (w : World) → IsWorld w → IsWorld (chat c msg w)
unfolding chat
chat-IsWorld c msg w v = chat_player-IsWorld (lookup c w.players) msg w v
