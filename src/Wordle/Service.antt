-- ===== src/Wordle/Service.antt =====
-- The daily Wordle with its saved results (internal/puzzles/wordle/service.go, and PlayedWordleOn and
-- InsertWordle of internal/store/wordle.go). The table Wordle is the list of its rows. Whether the
-- database answers a query, whether the player is in range, and the date of a time are arguments.
pub mod Laws
use nytrpg.Prelude.{
  Bool, List, Option, [], any, if◌then◌else◌, none, not, some, ℕ, ◌&&◌, ◌++◌, ◌==◌, ◌||◌, ◌∷◌,
}
use nytrpg.Game.Duel.Guess.{guess}
use nytrpg.Game.Duel.Invariant.Fates.{in_range}
use nytrpg.Text.{Text, text_eq}
use nytrpg.Wordle.Puzzle.{Words}
use nytrpg.Wordle.Session.{Answer, Finished, Resume, Sessions, guess_session, start_session}

-- store.WordleResult
pub record WordleResult : Type 0 where
  pub date : Text
  pub is_win : Bool
  pub time : ℕ
  pub guess_count : ℕ
  pub player_id : ℕ
  pub character_id : ℕ

abbrev pub is_of : ℕ → Text → WordleResult → Bool
is_of pid date r = r.player_id == pid && text_eq r.date date

-- `PlayedWordleOn`; a player may not play if the database does not answer.
unfoldable pub has_played : Bool → ℕ → Text → List WordleResult → Bool
has_played ok pid date rows = not ok || any (is_of pid date) rows

-- `InsertWordle`: UNIQUE (player_id, date)
unfoldable pub insert_wordle : Bool → WordleResult → List WordleResult → List WordleResult
insert_wordle ok r rows =
    if not ok || any (is_of r.player_id r.date) rows then rows else rows ++ r ∷ []

-- `Service`
pub record WordleService : Type 0 where
  pub sessions : Sessions
  pub results : List WordleResult

-- `WordleResume`
pub data StartReply : Type 0 where
  already_played too_far : StartReply
  resumed : Resume → StartReply

-- `Service.start`
unfoldable pub serve_start : Bool → ℕ → Bool → ℕ → Text → WordleService → WordleService × StartReply
unfolding has_played start_session
serve_start ok pid in_range now today st =
    if has_played ok pid today st.results
    then (st, already_played)
    else if not in_range
    then (st, too_far)
    else (let (ss, resume) = start_session pid now today st.sessions in
        (record st { sessions = ss }, resumed resume))

abbrev pub result_of : ℕ → ℕ → Finished → WordleResult
result_of pid cid f = record {
  date = f.date;
  is_win = f.is_win;
  time = f.time;
  guess_count = f.guesses;
  player_id = pid;
  character_id = cid;
}

abbrev pub save_finished : Bool → ℕ → ℕ → Option Finished → List WordleResult → List WordleResult
save_finished ok pid cid none rows = rows
save_finished ok pid cid (some f) rows = insert_wordle ok (result_of pid cid f) rows

-- `Service.guess`; `can_read` and `can_write` say whether the database answers.
unfoldable pub serve_guess :
    Words
    → (Text → Text)
    → Bool
    → Bool
    → ℕ
    → ℕ
    → Text
    → ℕ
    → WordleService
    → WordleService × Answer × Option Finished
unfolding has_played guess_session insert_wordle
serve_guess words word_for can_read can_write pid cid guess now st =
    let (ss, answer, finished) =
      guess_session words word_for (λ date. has_played can_read pid date st.results) pid guess now
        st.sessions in
    (
      record { sessions = ss; results = save_finished can_write pid cid finished st.results },
      answer,
      finished,
    )
