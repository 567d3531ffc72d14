-- ===== src/Wordle/Session.antt =====
-- The daily Wordle: one game a day and account (internal/puzzles/wordle/game.go: session, sessions).
pub mod Laws
use nytrpg.Prelude.{
  Bool, List, Option, [], false, if◌then◌else◌, insert, leb, length, lookup, none, some, true, ℕ,
  ◌++◌, ◌+◌, ◌-◌, ◌||◌, ◌∷◌,
}
use nytrpg.Game.Duel.Guess.{guess}
use nytrpg.Game.Message.{WordleStatus, in_game, lose, win}
use nytrpg.Text.{Text, text_eq, to_upper}
use nytrpg.Wordle.Puzzle.{Words, is_guessable}
use nytrpg.Wordle.Score.{Color, all_green, score}

-- `session`
pub record Session : Type 0 where
  pub date : Text
  pub start : ℕ
  pub guesses : List Text
  pub colors : List (List Color)
  pub is_done : Bool

-- `Finished`; the time is in nanoseconds.
pub record Finished : Type 0 where
  pub date : Text
  pub is_win : Bool
  pub guesses : ℕ
  pub time : ℕ

-- `sessions`, by player id.
abbrev pub Sessions : Type 0
Sessions = List (ℕ × Session)

-- `WordleResume`
pub record Resume : Type 0 where
  pub guesses : List Text
  pub colors : List (List Color)
  pub time : ℕ

-- `WordleRes` with its solution.
pub record Answer : Type 0 where
  pub valid : Bool
  pub status : WordleStatus
  pub colors : List Color
  pub time : ℕ
  pub solution : Option Text

abbrev pub no_answer : Answer
no_answer = record { valid = false; status = in_game; colors = []; time = 0; solution = none }

abbrev pub guesses_allowed : ℕ
guesses_allowed = 5

abbrev new_session : Text → ℕ → Session
new_session today now = record {
  date = today;
  start = now;
  guesses = [];
  colors = [];
  is_done = false;
}

-- The session of today, a new one if there is none.
unfoldable pub session_today : Option Session → Text → ℕ → Session
unfolding text_eq
session_today none today now = new_session today now
session_today (some s) today now = if text_eq s.date today then s else new_session today now

-- `sessions.start`; `today` is the date of `now` (`gameday.Of`).
unfoldable pub start_session : ℕ → ℕ → Text → Sessions → Sessions × Resume
unfolding session_today
start_session pid now today ss =
    let s = session_today (lookup pid ss) today now in
    (insert pid s ss, record { guesses = s.guesses; colors = s.colors; time = now - s.start })

abbrev pub status_after : Session → List Color → WordleStatus
status_after s colors =
    if all_green colors
    then win
    else if leb guesses_allowed (length s.guesses + 1)
    then lose
    else in_game

abbrev pub is_over : WordleStatus → Bool
is_over in_game = false
is_over _ = true

abbrev is_win_status : WordleStatus → Bool
is_win_status win = true
is_win_status _ = false

-- The session after a guess that was scored.
unfoldable pub tried : Session → Text → List Color → Session
tried s guess colors = record s {
  guesses = s.guesses ++ to_upper guess ∷ [];
  colors = s.colors ++ colors ∷ [];
  is_done = is_over (status_after s colors);
}

-- `sessions.guess`; `word_for` is `Words.For` and `played` says whether a date's result is saved.
unfoldable pub guess_session :
    Words
    → (Text → Text)
    → (Text → Bool)
    → ℕ
    → Text
    → ℕ
    → Sessions
    → Sessions × Answer × Option Finished
unfolding tried score is_guessable
guess_session words word_for played pid guess now ss = elim (lookup pid ss) [
  | none ↦ (ss, no_answer, none)
  | some s ↦
      if s.is_done || played s.date
      then (ss, no_answer, none)
      else elim (score (is_guessable words) guess (word_for s.date)) [
        | none ↦ (ss, no_answer, none)
        | some colors ↦
            let status = status_after s colors in
            let over = is_over status in
            (
              insert pid (tried s guess colors) ss,
              record {
                valid = true;
                status = status;
                colors = colors;
                time = now - s.start;
                solution = if over then some (word_for s.date) else none;
              },
              if over
                  then some (record {
                    date = s.date;
                    is_win = is_win_status status;
                    guesses = length s.guesses + 1;
                    time = now - s.start;
                  })
                  else none,
            )
      ]
]
