-- ===== src/Tests/Daily.antt =====
-- Colors, word lists and the daily game (internal/puzzles/wordle).
use nytrpg.Prelude.{
  All, Bool, List, [], arith, false, map, min, none, refl, true, ℕ, ◌++◌, ◌∷◌, ◌≡◌,
}
use nytrpg.Accounts.Characters.{Row}
use nytrpg.Accounts.Players.{PlayerRow}
use nytrpg.Classes.{knight}
use nytrpg.Game.Duel.Invariant.{IsLawful}
use nytrpg.Tests.{crane, eerie, slate, word_list, word_list-HasWords}
use nytrpg.Text.{Text, text_eq}
use nytrpg.Wordle.Leaderboard.{Board, LeaderboardRow, TieOrder, handle_leaderboard, winners}
use nytrpg.Wordle.Leaderboard.Best.{HasPlayer, IsRanking, pages-IsRanking, row_key}
use nytrpg.Wordle.Leaderboard.Pages.{ask_page, pages, rows_of, total_of}
use nytrpg.Wordle.Puzzle.{duel_puzzle, duel_puzzle-IsLawful}
use nytrpg.Wordle.Score.{colors_for, is_green}
use nytrpg.Wordle.Score.Counts.{count, count_colored, count_colored-colors_for}
use nytrpg.Wordle.Score.Laws.{green-colors_for, matches}
use nytrpg.Wordle.Service.{
  WordleResult, WordleService, already_played, result_of, serve_guess, serve_start,
}
use nytrpg.Wordle.Service.Laws.{serve_guess-serve_start}
use nytrpg.Wordle.Session.{Finished, Sessions, guess_session, no_answer, start_session}
use nytrpg.Wordle.Session.Laws.{guess_session-once}

duel_puzzle-IsLawful_example : IsLawful 5 (duel_puzzle word_list [])
duel_puzzle-IsLawful_example = duel_puzzle-IsLawful 5 word_list word_list-HasWords

green-colors_for_example : map is_green (colors_for slate crane) ≡ matches slate crane
green-colors_for_example = green-colors_for slate crane refl

count_colored-colors_for_example :
    count_colored b'E' eerie (colors_for eerie crane) ≡ min (count b'E' eerie) (count b'E' crane)
count_colored-colors_for_example = count_colored-colors_for b'E' eerie crane refl

abbrev always_crane : Text → Text
always_crane date = crane

abbrev never_played : Text → Bool
never_played date = false

abbrev one_player : Sessions
one_player = (start_session 3 0 crane []).0

abbrev crane_found : Finished
crane_found = record { date = crane; is_win = true; guesses = 1; time = 5 }

guess_session-once_example :
    let r = guess_session word_list always_crane never_played 3 crane 5 one_player in
    guess_session word_list always_crane never_played 3 slate 9 r.0 ≡ (r.0, no_answer, none)
unfolding guess_session start_session
guess_session-once_example =
    guess_session-once word_list always_crane never_played 3 crane slate 5 9 one_player crane_found
      refl

abbrev one_service : WordleService
one_service = record { sessions = one_player; results = [] }

serve_guess-serve_start_example :
    let left = (serve_guess word_list always_crane true true 3 9 crane 5 one_service).0 in
    (left.results ≡ [] ++ result_of 3 9 crane_found ∷ [])
    × (serve_start true 3 true 8 crane left ≡ (left, already_played))
unfolding serve_guess start_session
serve_guess-serve_start_example =
    serve_guess-serve_start word_list always_crane 3 9 crane 5 8 true one_service crane_found refl

-- Two winners of one day.
abbrev won_by : ℕ → ℕ → ℕ → WordleResult
won_by cid tries time = record {
  date = crane;
  is_win = true;
  time = time;
  guess_count = tries;
  player_id = 1;
  character_id = cid;
}

abbrev a_player : PlayerRow
a_player = record { id = 1; username = slate; password = [] }

abbrev a_knight : ℕ → Row
a_knight id = record {
  id = id;
  player_id = 1;
  slot = 0;
  name = eerie;
  class = knight;
  is_deleted = false;
}

abbrev two_winners : Board
two_winners = record {
  results = won_by 7 4 30 ∷ won_by 8 3 50 ∷ [];
  chars = a_knight 7 ∷ a_knight 8 ∷ [];
  players = a_player ∷ [];
}

two_winners-HasPlayer : All (HasPlayer two_winners) two_winners.results
unfolding HasPlayer
two_winners-HasPlayer =
    ((a_knight 7, a_player, refl, refl), ((a_knight 8, a_player, refl, refl), tt))

abbrev any_date : Text → Bool
any_date date = true

-- Rows that ORDER BY holds equal in the order of the table, and the other way around.
abbrev as_stored : TieOrder
as_stored r s = true

abbrev last_stored : TieOrder
last_stored r s = false

first_page_total :
    total_of (handle_leaderboard as_stored any_date true crane (ask_page crane 0) two_winners) ≡ 2
unfolding handle_leaderboard text_eq
first_page_total = refl

pages-IsRanking_example :
    IsRanking (pages as_stored any_date crane crane two_winners 1) (winners crane two_winners)
pages-IsRanking_example =
    pages-IsRanking as_stored any_date crane crane two_winners 1 refl (omega arith) (omega arith)
      two_winners-HasPlayer (omega (arith, first_page_total))

-- The winner with three guesses is first, although its result was saved later.
best_is_first :
    map row_key (pages as_stored any_date crane crane two_winners 1) ≡ (8, 3, 50) ∷ (7, 4, 30) ∷ []
unfolding pages text_eq
best_is_first = refl

-- A page so far on that its offset wraps around shows the first winner again.
wraps_around :
    map row_key (
      rows_of (
        handle_leaderboard as_stored any_date true crane
          (ask_page crane 922_337_203_685_477_581)
          two_winners))
    ≡ (8, 3, 50) ∷ (7, 4, 30) ∷ []
unfolding handle_leaderboard text_eq
wraps_around = refl

abbrev eleven_winners : Board
eleven_winners = record {
  results =
      won_by 1 3 30
      ∷ won_by 2 3 30
      ∷ won_by 3 3 30
      ∷ won_by 4 3 30
      ∷ won_by 5 3 30
      ∷ won_by 6 3 30
      ∷ won_by 7 3 30
      ∷ won_by 8 3 30
      ∷ won_by 9 3 30
      ∷ won_by 10 3 30
      ∷ won_by 11 3 30
      ∷ [];
  chars =
      a_knight 1
      ∷ a_knight 2
      ∷ a_knight 3
      ∷ a_knight 4
      ∷ a_knight 5
      ∷ a_knight 6
      ∷ a_knight 7
      ∷ a_knight 8
      ∷ a_knight 9
      ∷ a_knight 10
      ∷ a_knight 11
      ∷ [];
  players = a_player ∷ [];
}

abbrev page_ids : TieOrder → ℕ → List ℕ
page_ids tie page =
    map (λ (r : LeaderboardRow). r.character_id)
      (rows_of (handle_leaderboard tie any_date true crane (ask_page crane page) eleven_winners))

-- If the database orders equal wins in one way for the first page and in another for the second, then
-- character 1 is on both and character 11 on neither.
ties_between_pages :
    (page_ids as_stored 0 ≡ 1 ∷ 2 ∷ 3 ∷ 4 ∷ 5 ∷ 6 ∷ 7 ∷ 8 ∷ 9 ∷ 10 ∷ [])
    × (page_ids last_stored 1 ≡ 1 ∷ [])
unfolding handle_leaderboard text_eq
ties_between_pages = (refl, refl)
