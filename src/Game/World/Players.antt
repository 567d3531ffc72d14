-- ===== src/Game/World/Players.antt =====
-- Players who join, leave and chat, and who is online (internal/game: world.go, presence.go, chat.go).
use nytrpg.Prelude.{
  Bool, Option, [], delete, false, if◌then◌else◌, insert, lookup, map, none, pos, some, true, ℕ,
  ◌++◌, ◌+ℤ◌, ◌-ℤ◌, ◌∷◌,
}
use nytrpg.Classes.{ClassId}
use nytrpg.Game.Lobby.{leave_lobby}
use nytrpg.Game.World.Grid.{Vec, drop_id, has}
use nytrpg.Game.World.Move.{reset_allowance}
use nytrpg.Game.World.State.{
  Player, World, WorldMap, clamp, new_entity, remove_entity, said, send, welcome,
}
use nytrpg.Ranked.Elo.{Rating}
use nytrpg.Text.{Text}

-- protocol.CharacterInfo, with what the world uses of it.
pub record Character : Type 0 where
  pub char_id : ℕ
  pub char_name : Text
  pub class : ClassId

abbrev pub spawn_spread : ℕ
spawn_spread = 100

-- Where a player starts, by the two draws below 2*spawnSpread+1.
unfoldable pub spawn_at : WorldMap → ℕ → ℕ → Vec
unfolding clamp
spawn_at area dx dy = record {
  x = clamp (area.spawn.x +ℤ pos dx -ℤ pos spawn_spread) (pos 0) area.width;
  y = clamp (area.spawn.y +ℤ pos dy -ℤ pos spawn_spread) (pos 0) area.height;
}

-- `Join`
unfoldable pub join : ℕ → ℕ → Text → Character → Rating → ℕ → ℕ → ℕ → World → World
unfolding spawn_at new_entity
join c player_id username ch rating dx dy now w =
    let at = spawn_at w.area dx dy in
    let w1 = new_entity username ch.char_name ch.class rating.elo at w in
    let p : Player = record {
      player_id = player_id;
      char_id = ch.char_id;
      rating = rating;
      ent = w1.next_id;
      known = [];
      allowance = reset_allowance now;
    } in
    send c (welcome w1.next_id at rating.elo) (record w1 { players = insert c p w1.players })

-- `ClaimOnline`
unfoldable pub claim_online : ℕ → World → Bool × World
claim_online id w =
    if has id w.online then (false, w) else (true, record w { online = w.online ++ id ∷ [] })

-- `ReleaseOnline`
unfoldable pub release_online : ℕ → World → World
release_online id w = record w { online = drop_id id w.online }

-- The duel that the player leaves is ended by the module Game.Duel.Finish.
unfoldable pub leave_player : ℕ → Option Player → World → World
unfolding leave_lobby remove_entity release_online
leave_player c none w = w
leave_player c (some p) w =
    let gone = remove_entity p.ent (record w { lobby = leave_lobby c w.lobby }) in
    release_online p.player_id (record gone { players = delete c gone.players })

-- `Leave`
unfoldable pub leave : ℕ → World → World
unfolding leave_player
leave c w = leave_player c (lookup c w.players) w

unfoldable pub chat_player : Option Player → Text → World → World
chat_player none msg w = w
chat_player (some p) msg w = record w {
  outbox = w.outbox ++ map (λ q. (q.0, said p.ent msg)) w.players;
}

-- `Chat`, of a message that is trimmed and cut: everyone hears it.
unfoldable pub chat : ℕ → Text → World → World
unfolding chat_player
chat c msg w = chat_player (lookup c w.players) msg w
