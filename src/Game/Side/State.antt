-- ===== src/Game/Side/State.antt =====
-- What is told of a side: its board and its state (internal/game/abilities.go, visibleColors and
-- state).
use mathlib.Core.Option
use nytrpg.Prelude.{
  Bool, List, [], false, if◌then◌else◌, is_some, leb, length, ltb_ℤ, map, sub_ℕ, suc, ℕ, ℤ, ◌&&◌,
  ◌-◌, ◌||◌, ◌∷◌,
}
use nytrpg.Classes.{
  AbilityId, aggressive, cheat, confuse, cripple, determination, divine_intervention, divine_will,
  feint, illusion, magic_missile, major_prayer, mend, minor_prayer, pickpocket, pommel_strike,
  purify, reshape_reality, scry, seeing_eye, shields_up, slash, sneaky, under_their_nose, wise,
}
use nytrpg.Game.Message.{SideState, Tile, tile_eq}
use nytrpg.Game.Side.{GuessRow, Side}
use nytrpg.Wordle.Score.{Color, hidden}

unfoldable pub is_destroyed : List Tile → Tile → Bool
is_destroyed [] t = false
is_destroyed (d ∷ ds) t = tile_eq d t || is_destroyed ds t

-- `s.destroyed[t]`
unfoldable pub destroyed_at : Side → Tile → Bool
unfolding is_destroyed
destroyed_at s t = is_destroyed s.destroyed t

hide_row : Side → ℕ → ℕ → List Color → List Color
unfolding destroyed_at
hide_row s r c [] = []
hide_row s r c (x ∷ xs) =
    (if destroyed_at s (record { row = r; col = c }) then hidden else x) ∷ hide_row s r (suc c) xs

hide_rows : Side → ℕ → List GuessRow → List (List Color)
unfolding hide_row
hide_rows s r [] = []
hide_rows s r (g ∷ gs) = hide_row s r 0 g.colors ∷ hide_rows s (suc r) gs

-- The colors of a side's guesses, with destroyed letters hidden.
unfoldable pub visible_colors : Side → List (List Color)
unfolding hide_rows
visible_colors s = hide_rows s 0 s.guesses

-- `slices.Sort` on numbers, and on the ids of abilities by their place in the alphabet.
insert_sorted : ℤ → List ℤ → List ℤ
insert_sorted x [] = x ∷ []
insert_sorted x (y ∷ ys) = if ltb_ℤ y x then y ∷ insert_sorted x ys else x ∷ y ∷ ys

sort : List ℤ → List ℤ
unfolding insert_sorted
sort [] = []
sort (x ∷ xs) = insert_sorted x (sort xs)

abbrev alphabetical : AbilityId → ℕ
alphabetical aggressive = 0
alphabetical cheat = 1
alphabetical confuse = 2
alphabetical cripple = 3
alphabetical determination = 4
alphabetical divine_intervention = 5
alphabetical divine_will = 6
alphabetical feint = 7
alphabetical illusion = 8
alphabetical magic_missile = 9
alphabetical major_prayer = 10
alphabetical mend = 11
alphabetical minor_prayer = 12
alphabetical pickpocket = 13
alphabetical pommel_strike = 14
alphabetical purify = 15
alphabetical reshape_reality = 16
alphabetical scry = 17
alphabetical seeing_eye = 18
alphabetical shields_up = 19
alphabetical slash = 20
alphabetical sneaky = 21
alphabetical under_their_nose = 22
alphabetical wise = 23

insert_id : AbilityId → List AbilityId → List AbilityId
insert_id x [] = x ∷ []
insert_id x (y ∷ ys) =
    if leb (alphabetical x) (alphabetical y) then x ∷ y ∷ ys else y ∷ insert_id x ys

sort_ids : List AbilityId → List AbilityId
unfolding insert_id
sort_ids [] = []
sort_ids (x ∷ xs) = insert_id x (sort_ids xs)

-- A stun and a silence are sent as what is left of them, 0 when they are over; a missile that is
-- overdue is sent as a negative time.
-- `own`: the side's own player is told.
unfoldable pub state : ℕ → Bool → Side → SideState
unfolding sort sort_ids
state now own s = record {
  energy = s.energy;
  rows = s.rows;
  guesses = length s.guesses;
  stunned = s.stunned_until - now;
  shield = s.shield;
  eyes = length s.eyes;
  missiles = sort (map (λ at. sub_ℕ at now) s.missiles);
  illusion = is_some s.illusion;
  used = sort_ids s.used;
  silenced = s.silenced_until - now;
  scrambled_guesses = s.scrambled_guesses;
  keymap = if own then Option.get_or s.keymap [] else [];
  cheat_ready = own && s.cheat;
  feint_ready = own && is_some s.feint;
}
