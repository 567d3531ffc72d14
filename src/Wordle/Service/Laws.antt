-- ===== src/Wordle/Service/Laws.antt =====
-- A finished daily game is saved once (internal/puzzles/wordle/service.go).
use nytrpg.Prelude.{
  ==_iff, Bool, List, Option, Option-cases, [], any, ap, false, if◌then◌else◌, inl, inr, lookup,
  none, refl, rest_not, some, subst, true, ℕ, ◌&&◌, ◌++◌, ◌||◌, ◌∙◌, ◌∷◌, ◌≡◌,
}
use nytrpg.Game.Duel.Guess.{guess}
use nytrpg.Game.Duel.Invariant.{if_cases}
use nytrpg.Game.Duel.Invariant.Fates.{in_range}
use nytrpg.Text.{Text, text_eq_iff}
use nytrpg.Wordle.Puzzle.{Words, is_guessable}
use nytrpg.Wordle.Score.{score}
use nytrpg.Wordle.Service.{
  WordleResult, WordleService, already_played, has_played, insert_wordle, is_of, result_of,
  save_finished, serve_guess, serve_start,
}
use nytrpg.Wordle.Session.{Answer, Finished, Sessions, guess_session, is_over, status_after}

date_of : (b : Bool) (g f : Finished) → (if b then some g else none) ≡ some f → g.date ≡ f.date
date_of true g f h = ap (λ (o : Option Finished). date_in g.date o) h
  where
    date_in : Text → Option Finished → Text
    date_in d none = d
    date_in d (some x) = x.date
date_of false g f h = cc

-- A game that is finished is one whose date was not played before.
finished_fresh :
    (words : Words) (word_for : Text → Text) (played : Text → Bool) (pid : ℕ) (guess : Text)
    (now : ℕ) (ss : Sessions) (f : Finished)
    → (guess_session words word_for played pid guess now ss).2 ≡ some f
    → played f.date ≡ false
unfolding guess_session
finished_fresh words word_for played pid guess now ss f = elim (Option-cases (lookup pid ss)) [
  | inl nobody ↦ rw (nobody, guess_session) (λ h. cc)
  | inr (s, playing) ↦
      rw (playing, guess_session)
        (if_cases
          (λ (p : Sessions × Answer × Option Finished). p.2 ≡ some f → played f.date ≡ false)
          (s.is_done || played s.date) (λ _ h. cc)
          (λ open_game. elim (Option-cases (score (is_guessable words) guess (word_for s.date))) [
            | inl unscored ↦ rw (unscored, guess_session) (λ h. cc)
            | inr (cs, scored) ↦
                rw (scored, guess_session)
                  (λ h.
                    subst (λ (d : Text). played d ≡ false)
                      (date_of (is_over (status_after s cs)) _ f h)
                      (rest_not s.is_done (played s.date) open_game))
          ]))
]

any_append_last :
    (p : WordleResult → Bool) (rs : List WordleResult) (r : WordleResult)
    → p r ≡ true
    → any p (rs ++ r ∷ []) ≡ true
any_append_last p [] r h = rw h refl
any_append_last p (x ∷ rs) r h = either (p x) (any_append_last p rs r h)
  where
    either : {c : Bool} (b : Bool) → c ≡ true → (b || c) ≡ true
    either true h = refl
    either false h = h

is_of_own : (pid cid : ℕ) (f : Finished) → is_of pid f.date (result_of pid cid f) ≡ true
is_of_own pid cid f = both ((==_iff pid pid).1 refl) ((text_eq_iff f.date f.date).1 refl)
  where
    both : {a b : Bool} → a ≡ true → b ≡ true → (a && b) ≡ true
    both h k = rw (h, k) refl

-- A guess that finishes a player's game, while the database answers, saves its result as a new row: the
-- key of the table never refuses it. From then on that player cannot start a game of that date, wherever
-- it stands.
pub serve_guess-serve_start :
    (words : Words) (word_for : Text → Text) (pid cid : ℕ) (guess : Text) (now later : ℕ)
    (in_range : Bool) (st : WordleService) (f : Finished)
    → (serve_guess words word_for true true pid cid guess now st).2 ≡ some f
    → let left = (serve_guess words word_for true true pid cid guess now st).0 in
      (left.results ≡ st.results ++ result_of pid cid f ∷ [])
      × (serve_start true pid in_range later f.date left ≡ (left, already_played))
unfolding serve_guess serve_start insert_wordle has_played
serve_guess-serve_start words word_for pid cid guess now later in_range st f h =
    let played = λ (date : Text). has_played true pid date st.results in
    let left = (serve_guess words word_for true true pid cid guess now st).0 in
    let is_new : any (is_of pid f.date) st.results ≡ false =
      finished_fresh words word_for played pid guess now st.sessions f h in
    let saved : left.results ≡ st.results ++ result_of pid cid f ∷ [] =
      ap (λ (o : Option Finished). save_finished true pid cid o st.results) h ∙ rw is_new refl in
    (
      saved,
      rw
          (ap (λ (rows : List WordleResult). any (is_of pid f.date) rows) saved
            ∙ any_append_last (is_of pid f.date) st.results (result_of pid cid f)
                (is_of_own pid cid f))
          refl,
    )
