-- ===== src/Game/Duel.antt =====
-- Two players racing to solve their word: `duel` and the parts of `World` that its handlers use
-- (internal/game/duel.go and internal/game/abilities.go). A `*duelSide` is a seat of the duel. One
-- handler reads the clock once.
pub mod Eyes
pub mod Rogue
pub mod Cleric
pub mod Cast
pub mod Guess
pub mod Tick
pub mod Invariant
pub mod Run
pub mod Bounds
pub mod Outcome
pub mod Finish
pub mod Offers
pub mod Shield
use nytrpg.Prelude.{Bool, List, Option, Rng, [], false, not, true, ℕ, ◌++◌, ◌-◌, ◌∷◌}
use nytrpg.Classes.{AbilityId}
use nytrpg.Game.Message.{
  CastKind, EndReason, Msg, PrayerKind, Tile, duel_cast, duel_state, new_word,
}
use nytrpg.Game.Side.{Side, blocked, set_effects}
use nytrpg.Game.Side.State.{state}
use nytrpg.Text.{Text}
use nytrpg.Wordle.Score.{Color, score, score_any}

-- `DuelPuzzle`; `none` of a score is `false, nil`.
pub record DuelPuzzle : Type 0 where
  pub new_word : Rng → Text × Rng
  pub illusion_word : Rng → Text × Rng
  pub score : Text → Text → Option (List Color)
  pub score_any : Text → Text → Option (List Color)
  pub max_guesses : ℕ

-- `sides[0]` and `sides[1]`.
pub data Seat : Type 0 where
  first second : Seat

abbrev pub other_seat : Seat → Seat
other_seat first = second
other_seat second = first

abbrev pub is_seat : Seat → Seat → Bool
is_seat first first = true
is_seat second second = true
is_seat _ _ = false

pub record Duel : Type 0 where
  pub id : ℕ
  pub start : ℕ
  pub a : Side
  pub b : Side
  pub ranked : Bool
  pub next_energy : ℕ
  -- Sudden Death's, 0 when there is none.
  pub deadline : ℕ

-- What a waiting prayer remembers: the closure of `pray`.
pub record Prayer : Type 0 where
  pub id : ℕ
  pub duel : ℕ
  pub seat : Seat
  pub kind : PrayerKind
  pub cost : ℕ
  pub word : Text

-- A duel with what its handlers use of the world: the random numbers, the messages sent so far by
-- client, whether there is an Oracle, and the prayers that hold a slot.
pub record Arena : Type 0 where
  pub duel : Duel
  pub rng : Rng
  pub sent : List (ℕ × Msg)
  pub oracle : Bool
  pub prayers : List Prayer
  pub next_prayer : ℕ

-- How a duel ended: the winner, none for a draw, and why.
pub record Ending : Type 0 where
  pub winner : Option Seat
  pub reason : EndReason

abbrev pub side_of : Seat → Duel → Side
side_of first d = d.a
side_of second d = d.b

abbrev pub side : Seat → Arena → Side
side seat ar = side_of seat ar.duel

abbrev pub put_duel : Seat → Side → Duel → Duel
put_duel first s d = record d { a = s }
put_duel second s d = record d { b = s }

abbrev pub put : Seat → Side → Arena → Arena
put seat s ar = record ar { duel = put_duel seat s ar.duel }

abbrev pub with_rng : Rng → Arena → Arena
with_rng r ar = record ar { rng = r }

-- `w.send` to the player of a seat.
unfoldable pub tell : Seat → Msg → Arena → Arena
tell seat m ar = record ar { sent = ar.sent ++ ((side seat ar).client, m) ∷ [] }

unfoldable pub send_duel_state : ℕ → Seat → Arena → Arena
unfolding tell
send_duel_state now seat ar =
    tell seat
      (duel_state (state now true (side seat ar)) (state now false (side (other_seat seat) ar))
        (ar.duel.deadline - now))
      ar

unfoldable pub sync_duel : ℕ → Arena → Arena
unfolding send_duel_state
sync_duel now ar = send_duel_state now second (send_duel_state now first ar)

abbrev pub cast_msg : AbilityId → CastKind → Bool → Tile → Bool → Msg
cast_msg i k b t by_you =
    duel_cast (record { by_you = by_you; ability = i; kind = k; blocked = b; tile = t })

-- Tells both duelists something happened with an ability by a seat.
unfoldable pub cast_event : Seat → AbilityId → CastKind → Bool → Tile → Arena → Arena
unfolding tell
cast_event by i k b t ar =
    tell second (cast_msg i k b t (is_seat second by))
      (tell first (cast_msg i k b t (is_seat first by)) ar)

-- An ability reaches the caster's opponent, unless a shield stops it and is used up. The arena, and
-- whether it hit.
unfoldable pub hostile : Seat → AbilityId → CastKind → Tile → Arena → Arena × Bool
unfolding cast_event
hostile caster i k t ar =
    let them = side (other_seat caster) ar in
    let lowered =
      put (other_seat caster) (set_effects (λ e. record e { shield = false }) them) ar in
    (cast_event caster i k them.shield t lowered, not them.shield)
