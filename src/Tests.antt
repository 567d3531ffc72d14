-- ===== src/Tests.antt =====
-- Examples: the theorems at concrete duels, guesses and games. What the examples share.
pub mod Duels
pub mod Boards
pub mod Daily
pub mod Lobbies
pub mod Ranks
pub mod Worlds
pub mod Nets
pub mod Accounts
pub mod Servers
pub mod Gods
use nytrpg.Prelude.{Rng, [], arith, false, pos, refl, ℤ, ◌∷◌}
use nytrpg.Classes.{knight, wizard}
use nytrpg.Game.Duel.{Arena, DuelPuzzle}
use nytrpg.Game.Duel.Invariant.{IsLawful, IsValid}
use nytrpg.Game.Duel.Outcome.{drawn}
use nytrpg.Game.Duel.Rogue.{CastReq}
use nytrpg.Game.Duel.Run.{start_duel, start_duel-IsValid}
use nytrpg.Text.{Text, is_letters}
use nytrpg.Wordle.Puzzle.{HasWords, Words, duel_puzzle, duel_puzzle-IsLawful}

abbrev pub crane : Text
crane = b'C' ∷ b'R' ∷ b'A' ∷ b'N' ∷ b'E' ∷ []

abbrev pub slate : Text
slate = b'S' ∷ b'L' ∷ b'A' ∷ b'T' ∷ b'E' ∷ []

abbrev pub eerie : Text
eerie = b'E' ∷ b'E' ∷ b'R' ∷ b'I' ∷ b'E' ∷ []

abbrev pub word_list : Words
word_list = record {
  solutions = crane ∷ slate ∷ [];
  guessables = crane ∷ slate ∷ eerie ∷ [];
  three = [];
}

pub word_list-HasWords : HasWords 5 word_list
unfolding is_letters
word_list-HasWords = record {
  nonempty = omega arith;
  solutions_fit = ((refl, refl), ((refl, refl), tt));
  guessables_letters = (refl, (refl, (refl, tt)));
}

abbrev pub counting : Rng
counting = record { stream = λ k. k; drawn = 0 }

abbrev pub puzzle : DuelPuzzle
puzzle = duel_puzzle word_list []

pub puzzle-IsLawful : IsLawful 5 puzzle
puzzle-IsLawful = duel_puzzle-IsLawful 5 word_list word_list-HasWords

abbrev pub race : Arena
race =
    start_duel puzzle 0 1 (record { client = 7; class = knight })
      (record { client = 8; class = wizard }) false false counting

pub race-IsValid : IsValid 5 race
race-IsValid =
    start_duel-IsValid 5 puzzle 0 1 (record { client = 7; class = knight })
      (record { client = 8; class = wizard }) false false counting puzzle-IsLawful

abbrev pub slash_at : ℤ → ℤ → CastReq
slash_at row col = record { slot = pos 0; row = row; col = col; letter = []; colors = [] }
