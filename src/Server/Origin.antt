-- ===== src/Server/Origin.antt =====
-- Where connections come from (internal/server/server.go: handleWS).
use nytrpg.Prelude.{List, Option, lookup, none, some, ℕ, ◌≡◌}
use nytrpg.Accounts.Auth.{AuthLibrary}
use nytrpg.Game.World.State.{WorldMap}
use nytrpg.Server.{Conn, HubEvent, hub_run, new_hub}
use nytrpg.Server.Each.{hub_run-Each}
use nytrpg.Server.Owner.{CameWith}
use nytrpg.Text.{Text}

-- Whatever happens, in any interleaving: behind each connection, waiting or playing, is one of the
-- requests to connect. It showed a valid token with the username of the connection's player, and
-- asked by its id for the character that the connection plays, a live one of that player.
pub hub_run-CameWith :
    (lib : AuthLibrary) (secret : Text) (area : WorldMap) (es : List HubEvent) (i : ℕ) (c : Conn)
    → lookup i (hub_run lib secret es (new_hub area)).conns ≡ some c
    → CameWith lib secret es c.player_id c.username c.char
hub_run-CameWith lib secret area es i c found =
    let Came = λ (k : ℕ) (d : Conn). CameWith lib secret es d.player_id d.username d.char in
    hub_run-Each Came
      (record {
        claims = λ k pid u ch came. came;
        queues = λ k pid u ch r came. came;
        enters = λ k pid u ch r came. came;
        drops = λ k pid u ch r came. came;
        passes = λ k pid u ch r came. came;
        ends_play = λ k pid u ch came. came;
      })
      lib secret es (new_hub area) (λ k pid u ch came. came) (λ j d h. absurd (nothing_there h)) i c
      found
  where
    nothing_there : {d : Conn} → ◌≡◌ {A = Option Conn} none (some d) → ⊥
    nothing_there h = cc
