-- ===== src/Tests/Servers.antt =====
-- A player who connects twice (internal/server).
use nytrpg.Prelude.{
  Bool-cases, List, [], arith, false, inl, inr, lookup, neither, pos, refl, some, subst, sym, true,
  ℕ, ◌++◌, ◌==◌, ◌∷◌, ◌≡◌, ◌⊎◌,
}
use nytrpg.Accounts.Characters.{Row}
use nytrpg.Classes.{knight}
use nytrpg.Game.World.Move.{reset_allowance}
use nytrpg.Game.World.State.{Player}
use nytrpg.Ranked.Elo.{new_rating}
use nytrpg.Server.{
  Arrival, Conn, Hub, HubEvent, Stage, arrives, claimed, ends, hub_run, new_hub, playing, upgrades,
  waiting, wakes, works,
}
use nytrpg.Server.Handover.{hub_run-handover}
use nytrpg.Server.Origin.{hub_run-CameWith}
use nytrpg.Server.Owner.{CameWith}
use nytrpg.Server.Single.{hub_run-IsHub, hub_run-single}
use nytrpg.Server.Steps.{IsHub}
use nytrpg.Server.Waiting.{IsAside}
use nytrpg.Tests.Accounts.{ann_table, plain_library}
use nytrpg.Tests.Worlds.{small_map}
use nytrpg.Text.{text_eq}

abbrev ann_knight : Row
ann_knight = record {
  id = 4;
  player_id = 1;
  slot = 0;
  name = 75 ∷ [];
  class = knight;
  is_deleted = false;
}

-- The token of the player with id 1 at the second 0, and its character.
abbrev ann_arrives : Arrival
ann_arrives = record {
  ok = true;
  now = 0;
  token = 9 ∷ 97 ∷ 110 ∷ [];
  character = some (pos 4);
  accounts = ann_table;
  chars = record { rows = ann_knight ∷ []; next_row = 5 };
}

-- She plays, and connects again.
abbrev ann_twice : List HubEvent
ann_twice =
    arrives ann_arrives
    ∷ upgrades 0 (some new_rating)
    ∷ works 0 100 100 0
    ∷ arrives ann_arrives
    ∷ []

abbrev busy_hub : Hub
busy_hub = hub_run plain_library [] ann_twice (new_hub small_map)

abbrev ann_plays : Player
ann_plays = record {
  player_id = 1;
  char_id = 4;
  rating = new_rating;
  ent = 1;
  known = [];
  allowance = reset_allowance 0;
}

abbrev ann_conn : Stage → Conn
ann_conn stage = record {
  player_id = 1;
  username = 97 ∷ 110 ∷ [];
  char = ann_knight;
  stage = stage;
}

ann_there : lookup 0 busy_hub.world.players ≡ some ann_plays
unfolding hub_run text_eq
ann_there = refl

ann_in_play : lookup 0 busy_hub.conns ≡ some (ann_conn playing)
unfolding hub_run text_eq
ann_in_play = refl

ann_waits : lookup 1 busy_hub.conns ≡ some (ann_conn waiting)
unfolding hub_run text_eq
ann_waits = refl

-- The first connection was told to close.
first_is_kicked : busy_hub.kicked ≡ 0 ∷ []
unfolding hub_run text_eq
first_is_kicked = refl

hub_run-IsHub_example : IsHub (hub_run plain_library [] ann_twice (new_hub small_map))
hub_run-IsHub_example = hub_run-IsHub plain_library [] small_map ann_twice

hub_run-single_example : ◌≡◌ {A = ℕ} 0 0
hub_run-single_example =
    hub_run-single plain_library [] small_map ann_twice 0 0 ann_plays ann_plays ann_there ann_there
      refl

busy_conns : busy_hub.conns ≡ (0, ann_conn playing) ∷ (1, ann_conn waiting) ∷ []
unfolding hub_run text_eq
busy_conns = refl

two_conns :
    (k : ℕ) (c d e : Conn)
    → lookup k ((0, d) ∷ (1, e) ∷ []) ≡ some c
    → c.player_id ≡ 1
    → (k ≡ 0) ⊎ (k ≡ 1)
two_conns k c d e found same = elim (Bool-cases (0 == k)) [
  | inl at_0 ↦ inl (ground arith)
  | inr not_first ↦ elim (Bool-cases (1 == k)) [
    | inl at_1 ↦ inr (ground arith)
    | inr neither ↦ absurd (ground (arith, found))
  ]
]

-- The connection that waits wakes once.
abbrev wakes_once : List HubEvent
wakes_once = wakes 1 ∷ []

once-IsAside : IsAside 0 1 1 plain_library [] (97 ∷ 110 ∷ []) ann_knight wakes_once
once-IsAside = record {
  asleep = (tt, tt);
  no_more = λ v r came. elim came [ inl e ↦ e | inr e ↦ e ];
}

hub_run-handover_example :
    lookup 1
      (hub_run plain_library []
        (wakes_once ++ ((ends 0 ∷ wakes_once) ++ ((works 0 0 0 5 ∷ wakes_once) ++ (wakes 1 ∷ []))))
        busy_hub).conns
    ≡ some (ann_conn claimed)
hub_run-handover_example =
    hub_run-handover plain_library [] busy_hub 0 1 1 (97 ∷ 110 ∷ []) (97 ∷ 110 ∷ []) ann_knight
      ann_knight wakes_once wakes_once wakes_once 0 0 5
      (hub_run-IsHub plain_library [] small_map ann_twice) ann_in_play ann_waits
      (subst
        (λ (conns : List (ℕ × Conn)).
          (k : ℕ) (c : Conn) → lookup k conns ≡ some c → c.player_id ≡ 1 → (k ≡ 0) ⊎ (k ≡ 1))
        (sym busy_conns) (λ k c. two_conns k c (ann_conn playing) (ann_conn waiting)))
      once-IsAside once-IsAside once-IsAside

-- She connects twice before the first connection is in the sessions: it plays on, and was not told
-- to close.
abbrev ann_at_once : List HubEvent
ann_at_once =
    arrives ann_arrives
    ∷ arrives ann_arrives
    ∷ upgrades 0 (some new_rating)
    ∷ works 0 100 100 0
    ∷ []

abbrev unseen_hub : Hub
unseen_hub = hub_run plain_library [] ann_at_once (new_hub small_map)

nobody_is_kicked : unseen_hub.kicked ≡ []
unfolding hub_run text_eq
nobody_is_kicked = refl

first_plays_on : lookup 0 unseen_hub.conns ≡ some (ann_conn playing)
unfolding hub_run text_eq
first_plays_on = refl

second_waits : lookup 1 unseen_hub.conns ≡ some (ann_conn waiting)
unfolding hub_run text_eq
second_waits = refl

hub_run-CameWith_example : CameWith plain_library [] ann_twice 1 (97 ∷ 110 ∷ []) ann_knight
hub_run-CameWith_example =
    hub_run-CameWith plain_library [] small_map ann_twice 1 (ann_conn waiting) ann_waits
