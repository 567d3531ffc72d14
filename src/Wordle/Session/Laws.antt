-- ===== src/Wordle/Session/Laws.antt =====
-- The daily game is played once, five guesses at most
-- (internal/puzzles/wordle/game.go: sessions.start, sessions.guess).
use nytrpg.Prelude.{
  All, All-append, Bool, Bool-cases, List, Option, Option-cases, [], arith, false, if◌then◌else◌,
  inl, inr, insert, is_some, leb, length, length-append, lookup, lookup-insert, none, refl, some,
  subst, true, ℕ, ◌+◌, ◌<◌, ◌==◌, ◌||◌, ◌∙◌, ◌∷◌, ◌≡◌, ◌≤◌,
}
use nytrpg.Game.Duel.Guess.{guess}
use nytrpg.Game.Duel.Invariant.{if_cases, if_keeps}
use nytrpg.Game.Message.{WordleStatus}
use nytrpg.Text.{Text, text_eq, to_upper}
use nytrpg.Wordle.Puzzle.{Words, is_guessable}
use nytrpg.Wordle.Score.{Color, all_green, score}
use nytrpg.Wordle.Session.{
  Answer, Finished, Session, Sessions, guess_session, guesses_allowed, is_over, no_answer,
  session_today, start_session, status_after, tried,
}

-- Each guess has its colors; a game that goes on has a guess left and none that solved it.
pub record IsValidSession (guesses : List Text) (colors : List (List Color)) (is_done : Bool)
    : Type 0 where
  pub colored : length guesses ≡ length colors
  pub at_most : length guesses ≤ guesses_allowed
  pub guess_left : is_done ≡ false → length guesses < guesses_allowed
  pub unsolved : is_done ≡ false → All (λ c. all_green c ≡ false) colors

abbrev pub Holds : ℕ × Session → Type 0
Holds p = IsValidSession p.1.guesses p.1.colors p.1.is_done

abbrev pub AreValid : Sessions → Type 0
AreValid ss = All Holds ss

lookup-Holds :
    (pid : ℕ) (s : Session) (ss : Sessions) → lookup pid ss ≡ some s → AreValid ss → Holds (pid, s)
lookup-Holds pid s [] h v = cc
lookup-Holds pid s ((j, t) ∷ ss) h v = elim (Bool-cases (j == pid)) [
  | inl same ↦
      let t_is_s : t ≡ s = ground (arith, h) in subst (λ (u : Session). Holds (pid, u)) t_is_s v.0
  | inr differs ↦ lookup-Holds pid s ss (ground (arith, h)) v.1
]

insert-AreValid :
    (pid : ℕ) (s : Session) (ss : Sessions)
    → Holds (pid, s)
    → AreValid ss
    → AreValid (insert pid s ss)
insert-AreValid pid s [] h v = (h, tt)
insert-AreValid pid s ((j, t) ∷ ss) h v =
    if_keeps AreValid (j == pid) (h, v.1) (v.0, insert-AreValid pid s ss h v.1)

fresh-Holds : (pid : ℕ) (today : Text) (now : ℕ) → Holds (pid, session_today none today now)
unfolding session_today
fresh-Holds pid today now = record {
  colored = refl;
  at_most = omega arith;
  guess_left = λ _. omega arith;
  unsolved = λ _. tt;
}

-- Opening the game keeps the sessions valid.
pub start_session-AreValid :
    (pid now : ℕ) (today : Text) (ss : Sessions)
    → AreValid ss
    → AreValid (start_session pid now today ss).0
unfolding start_session session_today
start_session-AreValid pid now today ss v = elim (Option-cases (lookup pid ss)) [
  | inl new ↦ rw (new, session_today) (insert-AreValid pid _ ss (fresh-Holds pid today now) v)
  | inr (s, old) ↦
      rw (old, session_today)
        (insert-AreValid pid _ ss
          (if_keeps (λ t. Holds (pid, t)) (text_eq s.date today) (lookup-Holds pid s ss old v)
            (fresh-Holds pid today now))
          v)
]

-- A game that goes on after a guess was not solved by it and has a guess left.
status_after-goes_on :
    (s : Session) (cs : List Color)
    → is_over (status_after s cs) ≡ false
    → (all_green cs ≡ false) × (length s.guesses + 1 < guesses_allowed)
status_after-goes_on s cs h =
    if_cases
      (λ (r : WordleStatus).
        is_over r ≡ false → (all_green cs ≡ false) × (length s.guesses + 1 < guesses_allowed))
      (all_green cs) (λ _ over. cc)
      (λ unsolved.
        if_cases
          (λ (r : WordleStatus).
            is_over r ≡ false → (all_green cs ≡ false) × (length s.guesses + 1 < guesses_allowed))
          (leb guesses_allowed (length s.guesses + 1)) (λ _ over. cc)
          (λ left _. (unsolved, ground arith)))
      h

tried-Holds :
    (pid : ℕ) (s : Session) (guess : Text) (cs : List Color)
    → Holds (pid, s)
    → s.is_done ≡ false
    → Holds (pid, tried s guess cs)
unfolding tried
tried-Holds pid s guess cs h going = record {
  colored = omega (
    arith,
    h.colored,
    length-append s.guesses (to_upper guess ∷ []),
    length-append s.colors (cs ∷ []),
  );
  at_most = omega (arith, h.guess_left going, length-append s.guesses (to_upper guess ∷ []));
  guess_left = λ more.
      let more_left = (status_after-goes_on s cs more).1 in
      omega (arith, more_left, length-append s.guesses (to_upper guess ∷ []));
  unsolved = λ more.
      All-append (λ c. all_green c ≡ false) s.colors (cs ∷ []) (h.unsolved going)
        ((status_after-goes_on s cs more).0, tt);
}

-- A guess keeps valid sessions valid, scored or not.
pub guess_session-AreValid :
    (words : Words) (word_for : Text → Text) (played : Text → Bool) (pid : ℕ) (guess : Text)
    (now : ℕ) (ss : Sessions)
    → AreValid ss
    → AreValid (guess_session words word_for played pid guess now ss).0
unfolding guess_session
guess_session-AreValid words word_for played pid guess now ss v =
    let Ok = λ (r : Sessions × Answer × Option Finished). AreValid r.0 in
    elim (Option-cases (lookup pid ss)) [
      | inl nobody ↦ rw (nobody, guess_session) v
      | inr (s, playing) ↦
          rw (playing, guess_session)
            (if_cases Ok (s.is_done || played s.date) (λ _. v)
              (λ going. elim (Option-cases (score (is_guessable words) guess (word_for s.date))) [
                | inl unscored ↦ rw (unscored, guess_session) v
                | inr (cs, scored) ↦
                    rw (scored, guess_session)
                      (insert-AreValid pid (tried s guess cs) ss
                        (tried-Holds pid s guess cs (lookup-Holds pid s ss playing v)
                          (ground (arith, going)))
                        v)
              ]))
    ]

-- A player whose game is done gets no answer.
guess_session-done :
    (words : Words) (word_for : Text → Text) (played : Text → Bool) (pid : ℕ) (guess : Text)
    (now : ℕ) (s : Session) (ss : Sessions)
    → lookup pid ss ≡ some s
    → s.is_done ≡ true
    → guess_session words word_for played pid guess now ss ≡ (ss, no_answer, none)
unfolding guess_session
guess_session-done words word_for played pid guess now s ss playing finished =
    rw (playing, guess_session) (rw (finished, ◌||◌) refl)

abbrev LeavesDone : ℕ → Sessions × Answer × Option Finished → Type 0
LeavesDone pid (ss, res, finished) =
    (f : Finished)
    → finished ≡ some f
    → (s : Session) × ((lookup pid ss ≡ some s) × (s.is_done ≡ true))

guess_session-LeavesDone :
    (words : Words) (word_for : Text → Text) (played : Text → Bool) (pid : ℕ) (guess : Text)
    (now : ℕ) (ss : Sessions)
    → LeavesDone pid (guess_session words word_for played pid guess now ss)
unfolding guess_session tried
guess_session-LeavesDone words word_for played pid guess now ss =
    elim (Option-cases (lookup pid ss)) [
      | inl nobody ↦ rw (nobody, guess_session) (λ f h. cc)
      | inr (s, playing) ↦
          rw (playing, guess_session)
            (if_keeps (LeavesDone pid) (s.is_done || played s.date) (λ f h. cc)
              (elim (Option-cases (score (is_guessable words) guess (word_for s.date))) [
                | inl unscored ↦ rw (unscored, guess_session) (λ f h. cc)
                | inr (cs, scored) ↦
                    rw (scored, guess_session)
                      (λ f h. (
                        tried s guess cs,
                        (
                          lookup-insert pid pid (tried s guess cs) ss ∙ rw (==_refl pid) refl,
                          over_of (is_over (status_after s cs)) _ f h,
                        ),
                      ))
              ]))
    ]
  where
    over_of : (b : Bool) (g f : Finished) → (if b then some g else none) ≡ some f → b ≡ true
    over_of true g f h = refl
    over_of false g f h = cc

    ==_refl : (k : ℕ) → (k == k) ≡ true
    ==_refl k = ground arith

-- After a guess that finished a player's game, another guess of that player gets no answer,
-- finishes no game and leaves the sessions as they are.
pub guess_session-once :
    (words : Words) (word_for : Text → Text) (played : Text → Bool) (pid : ℕ) (guess again : Text)
    (now later : ℕ) (ss : Sessions) (f : Finished)
    → let r = guess_session words word_for played pid guess now ss in
      r.2 ≡ some f
      → guess_session words word_for played pid again later r.0 ≡ (r.0, no_answer, none)
guess_session-once words word_for played pid guess again now later ss f h =
    let r = guess_session words word_for played pid guess now ss in
    let (s, (playing, finished)) =
      guess_session-LeavesDone words word_for played pid guess now ss f h in
    guess_session-done words word_for played pid again later s r.0 playing finished

-- What an answer to a guess may say: the solution comes exactly with the end of the game, a win is
-- exactly a guess of the word, and the guesses are within the limit.
abbrev pub IsHonest : Text → Text → Sessions × Answer × Option Finished → Type 0
IsHonest guess word (ss, res, finished) =
    (is_some res.solution ≡ is_some finished)
    × ((f : Finished)
        → finished ≡ some f
        → (f.is_win ≡ text_eq (to_upper guess) word) × (f.guesses ≤ guesses_allowed))
