-- ===== src/Tests/Worlds.antt =====
-- A small world with two players (internal/game), and what is shown to them.
use nytrpg.Prelude.{
  List, [], arith, false, is_some, lookup, neg_part, pos, pos_part, refl, some, true, ℕ, ℤ, ◌*◌,
  ◌+ℤ◌, ◌+◌, ◌-ℤ◌, ◌↔◌, ◌∷◌, ◌≡◌, ◌≤◌, ◌⊎◌,
}
use nytrpg.Classes.{knight}
use nytrpg.Game.World.Events.Run.{
  Command, player_joins, player_moves, player_rated, reached, run_world, run_world-own,
  run_world-shown, world_ticks,
}
use nytrpg.Game.World.Events.Step.{shown_to}
use nytrpg.Game.World.Grid.{CellKey, Vec, cell_at, cell_of, has, key_eq}
use nytrpg.Game.World.Interact.{Interactable, find_interactable, is_in_range}
use nytrpg.Game.World.Interact.Reach.{IsOn, IsWithin, is_in_range-IsWithin}
use nytrpg.Game.World.Move.{distance, reset_allowance}
use nytrpg.Game.World.Players.{Character}
use nytrpg.Game.World.Profile.{Profile, profile_of, profile_of-shown}
use nytrpg.Game.World.Replicate.{step, view_of}
use nytrpg.Game.World.State.{Entity, Player, World, WorldMap}
use nytrpg.Game.World.Travel.{GoneFrom, move_all, move_all-GoneFrom}
use nytrpg.Game.World.Watch.{nothing_shown, watch}
use nytrpg.Ranked.Elo.{new_rating, stakes}
use nytrpg.Tests.Ranks.{whole_floats}
use nytrpg.Text.{text_eq}

abbrev pub small_map : WorldMap
small_map = record {
  width = pos 4000;
  height = pos 4000;
  spawn = record { x = pos 500; y = pos 500 };
}

-- A distance along the axes, in the units of the allowance.
abbrev grid_steps : ℤ → ℤ → ℕ
grid_steps x y = (pos_part x + neg_part x + (pos_part y + neg_part y)) * 2_000_000_000

abbrev hero : Character
hero = record { char_id = 7; char_name = 72 ∷ []; class = knight }

abbrev two_come : List Command
two_come =
    player_joins 1 10 (65 ∷ []) hero new_rating 100 100 0
    ∷ player_joins 2 20 (66 ∷ []) hero new_rating 150 50 0
    ∷ player_moves 2 (record { x = pos 560; y = pos 460 }) 1_000_000_000
    ∷ world_ticks 1_000_000_000
    ∷ player_rated 2 (record new_rating { elo = pos 1024 })
    ∷ []

abbrev then_world : World
then_world = reached grid_steps small_map two_come

abbrev first_player : Player
first_player = record {
  player_id = 10;
  char_id = 7;
  rating = new_rating;
  ent = 1;
  known = (2, 1) ∷ [];
  allowance = reset_allowance 0;
}

abbrev second_player : Player
second_player = record {
  player_id = 20;
  char_id = 7;
  rating = record new_rating { elo = pos 1024 };
  ent = 2;
  known = (1, 1) ∷ [];
  allowance = record { budget = 1_085_000_000_000; budget_at = 1_000_000_000 };
}

first_there : lookup 1 then_world.players ≡ some first_player
unfolding run_world ◌-ℤ◌ ◌+ℤ◌ view_of
first_there = refl

second_there : lookup 2 then_world.players ≡ some second_player
unfolding run_world ◌-ℤ◌ ◌+ℤ◌ view_of
second_there = refl

run_world-shown_example :
    watch 1 (step 2_000_000_000 then_world).outbox nothing_shown 2
    ≡ shown_to then_world first_player 2
run_world-shown_example =
    run_world-shown grid_steps small_map two_come 2_000_000_000 1 2 first_player (ground arith)
      first_there

abbrev first_client : ℕ
first_client = 1

abbrev second_client : ℕ
second_client = 2

run_world-own_example :
    (is_some (lookup 1 then_world.entities) ≡ true)
    × (first_player.ent ≡ second_player.ent → first_client ≡ second_client)
    × ((e : Entity)
        → lookup 1 then_world.entities ≡ some e
        → (key : CellKey) → has 1 (cell_at key then_world.cells) ≡ key_eq (cell_of e.at) key)
run_world-own_example =
    run_world-own grid_steps small_map two_come 1 2 first_player second_player (ground arith)
      first_there second_there

abbrev first_entity : Entity
first_entity = record {
  name = 65 ∷ [];
  char_name = 72 ∷ [];
  class = knight;
  at = record { x = pos 500; y = pos 500 };
  elo = pos 1000;
  moved = false;
  elo_changed = false;
  cell = record { x = pos 0; y = pos 0 };
}

abbrev second_entity : Entity
second_entity = record {
  name = 66 ∷ [];
  char_name = 72 ∷ [];
  class = knight;
  at = record { x = pos 560; y = pos 460 };
  elo = pos 1024;
  moved = false;
  elo_changed = true;
  cell = record { x = pos 0; y = pos 0 };
}

first_stands : lookup 1 then_world.entities ≡ some first_entity
unfolding run_world ◌-ℤ◌ ◌+ℤ◌
first_stands = refl

second_stands : lookup 2 then_world.entities ≡ some second_entity
unfolding run_world ◌-ℤ◌ ◌+ℤ◌
second_stands = refl

abbrev second_profile : Profile whole_floats
second_profile = record {
  id = 2;
  name = 66 ∷ [];
  char_name = 72 ∷ [];
  class = knight;
  rating = second_player.rating;
  stakes_against = some (stakes whole_floats new_rating second_player.rating);
}

second_is_shown : profile_of whole_floats first_player 2 then_world ≡ some (second_profile, 7)
unfolding run_world profile_of ◌-ℤ◌ ◌+ℤ◌
second_is_shown = refl

profile_of-shown_example :
    (second_profile.id ≡ 2)
    × ((second_player.ent ≡ first_player.ent)
        ⊎ (is_some (watch 1 then_world.outbox nothing_shown 2) ≡ true))
profile_of-shown_example =
    profile_of-shown whole_floats grid_steps small_map two_come 1 2 first_player second_profile 7
      (ground arith) first_there second_is_shown

abs_triangle :
    (a b c : ℤ)
    → pos_part (c -ℤ a) + neg_part (c -ℤ a)
      ≤ pos_part (b -ℤ a) + neg_part (b -ℤ a) + (pos_part (c -ℤ b) + neg_part (c -ℤ b))
unfolding ◌-ℤ◌
abs_triangle a b c = ground arith

abs_same : (a : ℤ) → pos_part (a -ℤ a) + neg_part (a -ℤ a) ≡ 0
unfolding ◌-ℤ◌
abs_same a = ground arith

steps_same : (p : Vec) → distance grid_steps p p ≡ 0
steps_same p = omega (arith, abs_same p.x, abs_same p.y)

steps_triangle :
    (p q r : Vec) → distance grid_steps p r ≤ distance grid_steps p q + distance grid_steps q r
steps_triangle p q r = omega (arith, abs_triangle p.x q.x r.x, abs_triangle p.y q.y r.y)

abbrev two_moves : List (Vec × ℕ)
two_moves =
    (record { x = pos 700; y = pos 460 }, 1_200_000_000)
    ∷ (record { x = pos 3000; y = pos 460 }, 1_300_000_000)
    ∷ []

move_all-GoneFrom_example :
    GoneFrom grid_steps
      (record { x = pos 560; y = pos 460 })
      second_player.allowance
      1_300_000_000
      2
      (move_all grid_steps 2 two_moves then_world)
move_all-GoneFrom_example =
    move_all-GoneFrom grid_steps steps_same steps_triangle two_moves 2 second_player second_entity
      1_000_000_000 then_world second_there second_stands (ground arith)
      (ground arith, (ground arith, tt))

-- A board that the first player, who came out at (500, 500), is near.
abbrev board : Interactable
board = record {
  id = 98 ∷ [];
  corner = record { x = pos 540; y = pos 540 };
  w = pos 100;
  h = pos 40;
  range = pos 80;
}

board_found : find_interactable (98 ∷ []) (board ∷ []) ≡ some board
unfolding find_interactable text_eq
board_found = refl

is_in_range-IsWithin_example :
    (is_in_range (board ∷ []) 1 (98 ∷ []) then_world ≡ true)
    ↔ ((q : Vec) × IsOn q board × IsWithin first_entity.at q (pos 80))
is_in_range-IsWithin_example =
    is_in_range-IsWithin (board ∷ []) 1 (98 ∷ []) then_world board first_player first_entity
      board_found refl (omega arith) (omega arith) first_there first_stands
