-- ===== src/Tests/Duels.antt =====
-- Handlers at a duel that has just started (internal/game).
use nytrpg.Prelude.{All, arith, false, pos, refl, some, true, ◌<◌, ◌≡◌, ◌⊎◌}
use nytrpg.Classes.{knight, wizard}
use nytrpg.Game.Duel.{first, second, side}
use nytrpg.Game.Duel.Bounds.{IsReadable, Reach-IsReadable}
use nytrpg.Game.Duel.Guess.{guess}
use nytrpg.Game.Duel.Invariant.{IsValid}
use nytrpg.Game.Duel.Invariant.Ticks.{gain_energy-caught_up}
use nytrpg.Game.Duel.Outcome.{drawn, guess-ends, guess-wins, won}
use nytrpg.Game.Duel.Run.{Reach-IsValid, after, casts, guesses, handle, here, start_duel}
use nytrpg.Game.Duel.Tick.{gain_energy}
use nytrpg.Game.Side.{blocked, done, out}
use nytrpg.Tests.{
  counting, crane, puzzle, puzzle-IsLawful, race, race-IsValid, slash_at, slate, word_list,
  word_list-HasWords,
}
use nytrpg.Text.{to_upper}
use nytrpg.Wordle.Puzzle.{duel_puzzle, is_guessable}

Reach-IsValid_example :
    IsValid 5
      (handle puzzle 9
        (guesses second slate)
        (handle puzzle 5 (casts first (slash_at (pos 0) (pos 1))) race).0).0
unfolding handle
Reach-IsValid_example =
    Reach-IsValid 5 puzzle race puzzle-IsLawful race-IsValid
      (after 9 (guesses second slate) (after 5 (casts first (slash_at (pos 0) (pos 1))) here))

crane_wins : (guess puzzle 9 first crane race).1 ≡ some (won first)
unfolding start_duel to_upper done blocked is_guessable duel_puzzle
crane_wins =
    guess-wins 5 word_list 9 first crane race (omega arith) race-IsValid refl refl refl refl

guess-wins_example : (guess puzzle 9 second crane race).1 ≡ some (won second)
unfolding start_duel to_upper done blocked is_guessable duel_puzzle
guess-wins_example =
    guess-wins 5 word_list 9 second crane race (omega arith) race-IsValid refl refl refl refl

guess-ends_example :
    let r = guess puzzle 9 first crane race in
    ((won first ≡ won first) × (to_upper crane ≡ (side first race).word))
    ⊎ ((won first ≡ drawn) × (out (side first r.0) ≡ true) × (out (side second r.0) ≡ true))
guess-ends_example =
    guess-ends 5 word_list 9 first crane race (won first) (omega arith) word_list-HasWords
      race-IsValid crane_wins

gain_energy-caught_up_example :
    12_000_000_000 < (gain_energy 12_000_000_000 race).0.duel.next_energy
gain_energy-caught_up_example = gain_energy-caught_up 12_000_000_000 race

Reach-IsReadable_example :
    All
      (IsReadable (
        side second
          (handle puzzle 9
            (guesses second slate)
            (handle puzzle 5 (casts first (slash_at (pos 0) (pos 1))) race).0).0))
      (side first
        (handle puzzle 9
          (guesses second slate)
          (handle puzzle 5 (casts first (slash_at (pos 0) (pos 1))) race).0).0).eyes
unfolding handle
Reach-IsReadable_example =
    Reach-IsReadable 5 puzzle 0 1 (record { client = 7; class = knight })
      (record { client = 8; class = wizard }) false false counting first puzzle-IsLawful
      (after 9 (guesses second slate) (after 5 (casts first (slash_at (pos 0) (pos 1))) here))
