-- ===== src/Wordle/Leaderboard.antt =====
-- The leaderboard of the daily Wordle (HandleLeaderboard of internal/puzzles/wordle/service.go over
-- WordleLeaderboard of internal/store/wordle.go). How the database orders the rows that ORDER BY
-- holds equal, which SQL leaves open, is an argument of each query, and so are `gameday.Valid`, the
-- date of today, the parsed query and whether the database answers.
pub mod Pages
pub mod Best
use nytrpg.Prelude.{
  Bool, List, Option, [], drop, if◌then◌else◌, is_empty, keep, length, ltb, negsuc, none, not, pos,
  pos_part, some, take, ℕ, ℤ, ◌%◌, ◌&&◌, ◌*◌, ◌+ℤ◌, ◌-◌, ◌==◌, ◌^◌, ◌||◌, ◌∷◌,
}
use nytrpg.Accounts.Characters.{Row, character_by_id}
use nytrpg.Accounts.Players.{PlayerRow, player_by_id}
use nytrpg.Classes.{ClassId}
use nytrpg.Game.Duel.Run.{guesses}
use nytrpg.Text.{Text, text_eq}
use nytrpg.Wordle.Service.{WordleResult}

-- store.LeaderboardRow
pub record LeaderboardRow : Type 0 where
  pub place : ℤ
  pub uname : Text
  pub character_id : ℕ
  pub char : Text
  pub class : ClassId
  pub guesses : ℕ
  pub time : ℕ

-- WHERE w.date = ? AND w.win = 1
abbrev pub has_won : Text → WordleResult → Bool
has_won date r = text_eq r.date date && r.is_win

-- Whether the first of two rows that ORDER BY holds equal comes first.
abbrev pub TieOrder : Type 0
TieOrder = WordleResult → WordleResult → Bool

-- ORDER BY w.guessCount ASC, w.seconds ASC
abbrev pub is_ahead : TieOrder → WordleResult → WordleResult → Bool
is_ahead tie r s =
    ltb r.guess_count s.guess_count
    || (r.guess_count == s.guess_count && (ltb r.time s.time || (r.time == s.time && tie r s)))

unfoldable pub put_best : TieOrder → WordleResult → List WordleResult → List WordleResult
put_best tie r [] = r ∷ []
put_best tie r (s ∷ ss) =
    let rest = put_best tie r ss in if is_ahead tie r s then r ∷ s ∷ ss else s ∷ rest

unfoldable pub best_first : TieOrder → List WordleResult → List WordleResult
unfolding put_best
best_first tie [] = []
best_first tie (r ∷ rs) = put_best tie r (best_first tie rs)

-- The columns of a result, its character and the player that the character belongs to.
abbrev pub columns : WordleResult → Row → Option PlayerRow → Option LeaderboardRow
columns r c none = none
columns r c (some p) = some (record {
  place = pos 0;
  uname = p.username;
  character_id = c.id;
  char = c.name;
  class = c.class;
  guesses = r.guess_count;
  time = r.time;
})

abbrev pub columns_of : List PlayerRow → WordleResult → Option Row → Option LeaderboardRow
columns_of players r none = none
columns_of players r (some c) = columns r c (player_by_id c.player_id players)

abbrev pub join_columns : Option LeaderboardRow → List LeaderboardRow → List LeaderboardRow
join_columns none rest = rest
join_columns (some row) rest = row ∷ rest

-- INNER JOIN Character, INNER JOIN Player
unfoldable pub joined : List Row → List PlayerRow → List WordleResult → List LeaderboardRow
joined chars players [] = []
joined chars players (r ∷ rs) =
    join_columns (columns_of players r (character_by_id r.character_id chars))
      (joined chars players rs)

-- `row.Place = place`, `place++`
unfoldable pub numbered : ℤ → List LeaderboardRow → List LeaderboardRow
numbered place [] = []
numbered place (r ∷ rs) = record r { place = place } ∷ numbered (place +ℤ pos 1) rs

-- The tables that the query reads.
pub record Board : Type 0 where
  pub results : List WordleResult
  pub chars : List Row
  pub players : List PlayerRow

abbrev pub winners : Text → Board → List WordleResult
winners date b = keep (has_won date) b.results

abbrev pub ranking : TieOrder → Text → Board → List LeaderboardRow
ranking tie date b = joined b.chars b.players (best_first tie (winners date b))

-- `WordleLeaderboard`: an OFFSET below 0 counts as 0.
unfoldable pub wordle_leaderboard : TieOrder → Text → ℕ → ℤ → Board → List LeaderboardRow × ℕ
unfolding joined best_first numbered ◌+ℤ◌
wordle_leaderboard tie date limit offset b = (
  numbered (offset +ℤ pos 1) (take limit (drop (pos_part offset) (ranking tie date b))),
  length (winners date b),
)

abbrev pub page_size : ℕ
page_size = 10

-- An int of 64 bits: the value that a product wraps around to.
abbrev pub to_int64 : ℕ → ℤ
to_int64 n = let low = n % 2 ^ 64 in if ltb low (2 ^ 63) then pos low else negsuc (2 ^ 64 - low - 1)

-- The query's page: missing, a number that Atoi reads, or no number.
pub data PageQuery : Type 0 where
  no_page bad_page : PageQuery
  page_of : ℤ → PageQuery

-- A request: whether its method is GET, and its query. A date that is missing is empty.
pub record BoardRequest : Type 0 where
  pub is_get : Bool
  pub date : Text
  pub page : PageQuery

-- `leaderboardRes`
pub record LeaderboardRes : Type 0 where
  pub date : Text
  pub today : Text
  pub page : ℕ
  pub total : ℕ
  pub rows : List LeaderboardRow

pub data LeaderboardReply : Type 0 where
  board_of : LeaderboardRes → LeaderboardReply
  board_error : ℕ → LeaderboardReply

abbrev pub page_number : PageQuery → Option ℕ
page_number no_page = some 0
page_number bad_page = none
page_number (page_of (pos n)) = some n
page_number (page_of (negsuc n)) = none

abbrev pub board_page : TieOrder → Bool → Text → Text → Option ℕ → Board → LeaderboardReply
board_page tie ok today date none b = board_error 400
board_page tie ok today date (some page) b =
    let (rows, total) = wordle_leaderboard tie date page_size (to_int64 (page * page_size)) b in
    if ok
    then board_of (record { date = date; today = today; page = page; total = total; rows = rows })
    else board_error 500

-- `HandleLeaderboard`
unfoldable pub handle_leaderboard :
    TieOrder → (Text → Bool) → Bool → Text → BoardRequest → Board → LeaderboardReply
unfolding wordle_leaderboard
handle_leaderboard tie valid ok today req b =
    if not req.is_get
    then board_error 405
    else if is_empty req.date
    then board_page tie ok today today (page_number req.page) b
    else if not (valid req.date)
    then board_error 400
    else board_page tie ok today req.date (page_number req.page) b
