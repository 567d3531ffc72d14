-- ===== src/Tests/Boards.antt =====
-- Eyes, letters, shields and prayers at one side (internal/game/abilities.go and cleric.go).
use nytrpg.Prelude.{[], arith, false, intn, length, refl, true, ℕ, ◌+◌, ◌∷◌, ◌≡◌, ◌≤◌}
use nytrpg.Classes.{Ability, minor_prayer, target_none}
use nytrpg.Game.Duel.{Arena, first, put}
use nytrpg.Game.Duel.Cast.{reshape_options}
use nytrpg.Game.Duel.Cleric.{mend_eyes, taken_words}
use nytrpg.Game.Duel.Eyes.{aim_eye, eye_interval, watching}
use nytrpg.Game.Duel.Eyes.Sight.{aim_eye-IsFree, sees}
use nytrpg.Game.Duel.Invariant.{IsValid}
use nytrpg.Game.Duel.Offers.{IsFresh, reshape_options-IsFresh}
use nytrpg.Game.Duel.Run.{start_duel}
use nytrpg.Game.Message.{tile_zero}
use nytrpg.Game.Side.{Eye, GuessRow, Side, new_guess_row, set_effects}
use nytrpg.Game.Side.Invariant.{IsValidRow}
use nytrpg.Game.Side.State.{destroyed_at}
use nytrpg.Tests.{counting, crane, puzzle, race, race-IsValid, slate}
use nytrpg.Text.{is_letters}
use nytrpg.Wordle.Puzzle.{duel_puzzle}
use nytrpg.Wordle.Score.{colors_for}

slate_row : GuessRow
slate_row = new_guess_row slate (colors_for slate crane)

reshape_options-IsFresh_example :
    (length (reshape_options puzzle race.duel.b counting).0 ≤ 5)
    × IsFresh (taken_words race.duel.b) (reshape_options puzzle race.duel.b counting).0
reshape_options-IsFresh_example = reshape_options-IsFresh puzzle race.duel.b counting

abbrev watched : Side
watched = record race.duel.a { guesses = slate_row ∷ [] }

abbrev with_row : Arena
with_row = put first watched race

slate_row-IsValidRow : IsValidRow 5 slate_row
unfolding slate_row colors_for is_letters
slate_row-IsValidRow = record {
  letters = refl;
  word_length = refl;
  colors_length = refl;
  seen_length = refl;
  shown_length = refl;
}

with_row-IsValid : IsValid 5 with_row
unfolding start_duel duel_puzzle
with_row-IsValid =
    let (mine, theirs, my_eyes, their_eyes) = race-IsValid in
    let (board, found, tricks, trapped) = mine in
    (
      (
        record {
          letters = board.letters;
          word_length = board.word_length;
          rows_fit = omega arith;
          guesses_fit = (slate_row-IsValidRow, tt);
          destroyed_fits = tt;
        },
        found,
        tricks,
        trapped,
      ),
      theirs,
      tt,
      tt,
    )

abbrev idle_eye : Eye
idle_eye = record { at = tile_zero; on = false; next = 0 }

aim_eye-IsFree_example :
    let e = (aim_eye 9 [] watched idle_eye counting).0 in
    (sees watched.guesses watched.destroyed e.at ≡ true) × (watching [] e.at ≡ false)
unfolding aim_eye slate_row colors_for destroyed_at start_duel
aim_eye-IsFree_example = aim_eye-IsFree 9 [] watched idle_eye counting refl

abbrev minor : Ability
minor = record { id = minor_prayer; cost = 2; once = false; target = target_none }

abbrev rich : Arena
rich = put first (set_effects (λ e. record e { energy = 9 }) race.duel.a) race

abbrev eye_at : ℕ → ℕ → ℕ → Eye
eye_at row col next = record { at = record { row = row; col = col }; on = true; next = next }

-- Two eyes on different letters, and the row of one of them is taken back: both then watch the same
-- letter.
two_eyes_one_letter :
    (mend_eyes 9 0 watched [] (eye_at 0 1 0 ∷ eye_at 1 0 0 ∷ []) counting false).0
    ≡ eye_at 0 0 (9 + eye_interval) ∷ eye_at 0 0 0 ∷ []
unfolding mend_eyes slate_row colors_for destroyed_at start_duel aim_eye intn
two_eyes_one_letter = refl
