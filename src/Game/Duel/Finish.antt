-- ===== src/Game/Duel/Finish.antt =====
-- The end of a duel and what it does to the ratings (internal/game/duel.go: endDuel, settleRanked). The
-- duel's time in seconds is an argument, in the float64 of the ratings.
use nytrpg.Prelude.{
  Bool, Option, ap, eq_of_parts, false, if◌then◌else◌, int_laws, length, none, pos, refl, some,
  true, ℕ, ℤ, ◌+ℤ◌, ◌+◌, ◌-ℤ◌, ◌∙◌, ◌≡◌,
}
use nytrpg.Game.Duel.{Duel, Seat, first, is_seat, other_seat, second, side_of}
use nytrpg.Game.Message.{
  DuelOutcome, EndReason, disconnect, duel_draw, duel_lose, duel_win, forfeit,
}
use nytrpg.Game.Side.{Side, out}
use nytrpg.Ranked.Elo.{Floats, Margin, Outcome, Rating, a_wins, b_wins, draw, settle}
use nytrpg.Ranked.Elo.Laws.{IsValidRating, settle-IsGame}
use nytrpg.Ranked.Records.{Match, duel_of}
use nytrpg.Text.{Text}

module _ (fl : Floats) where
  -- protocol.DuelEnd
  pub record DuelEnd : Type 0 where
    pub outcome : DuelOutcome
    pub reason : EndReason
    pub solution : Text
    pub seconds : fl.F
    pub is_ranked : Bool
    pub elo_before : ℤ
    pub elo_after : ℤ
    pub expected_win : fl.F
    pub margin : fl.F

  abbrev pub outcome_for : Option Seat → Seat → DuelOutcome
  outcome_for none seat = duel_draw
  outcome_for (some winner) seat = if is_seat winner seat then duel_win else duel_lose

  -- What each player is told of a duel that is not ranked.
  unfoldable pub plain_end : Option Seat → EndReason → fl.F → Side → Seat → DuelEnd
  plain_end winner reason secs s seat = record {
    outcome = outcome_for winner seat;
    reason = reason;
    solution = s.word;
    seconds = secs;
    is_ranked = false;
    elo_before = pos 0;
    elo_after = pos 0;
    expected_win = fl.of_ℤ (pos 0);
    margin = fl.of_ℤ (pos 0);
  }

  abbrev pub is_given_up : EndReason → Bool
  is_given_up forfeit = true
  is_given_up disconnect = true
  is_given_up _ = false

  unfoldable pub margin_of : Side → Side → EndReason → fl.F → Margin fl
  unfolding out
  margin_of winner loser reason secs = record {
    winner_guesses = length winner.guesses;
    winner_seconds = secs;
    loser_guesses = length loser.guesses;
    loser_out = out loser;
    loser_best = fl.decimal loser.best.num loser.best.den;
    forfeit = is_given_up reason;
  }

  abbrev pub no_margin : Margin fl
  no_margin = record {
    winner_guesses = 0;
    winner_seconds = fl.of_ℤ (pos 0);
    loser_guesses = 0;
    loser_out = false;
    loser_best = fl.of_ℤ (pos 0);
    forfeit = false;
  }

  abbrev pub ranked_outcome : Option Seat → Outcome
  ranked_outcome none = draw
  ranked_outcome (some first) = a_wins
  ranked_outcome (some second) = b_wins

  unfoldable pub duel_margin : Option Seat → EndReason → fl.F → Duel → Margin fl
  unfolding margin_of
  duel_margin none reason secs d = no_margin
  duel_margin (some winner) reason secs d =
      margin_of (side_of winner d) (side_of (other_seat winner) d) reason secs

  abbrev rated_end : Rating → ℤ → fl.F → fl.F → DuelEnd → DuelEnd
  rated_end later delta expected_win margin e = record e {
    is_ranked = true;
    elo_before = later.elo -ℤ delta;
    elo_after = later.elo;
    expected_win = expected_win;
    margin = margin;
  }

  -- What the end of a ranked duel comes to.
  pub record RankedEnd : Type 0 where
    pub told_first : DuelEnd
    pub told_second : DuelEnd
    pub rating_first : Rating
    pub rating_second : Rating
    pub saved : Match

  -- `endDuel` of a ranked duel, with `settleRanked`, for the characters and the ratings of the two.
  unfoldable pub end_ranked :
      ℕ → Option Seat → EndReason → fl.F → Duel → ℕ × Rating → ℕ × Rating → RankedEnd
  unfolding plain_end duel_margin settle
  end_ranked now winner reason secs d (char_a, rating_a) (char_b, rating_b) =
      let outcome = ranked_outcome winner in
      let res = settle fl rating_a rating_b outcome (duel_margin winner reason secs d) in
      record {
        told_first =
            rated_end res.a res.delta_a res.expected_a res.used_multiplier
              (plain_end winner reason secs (side_of first d) first);
        told_second =
            rated_end res.b res.delta_b (fl.sub (fl.of_ℤ (pos 1)) res.expected_a)
              res.used_multiplier (plain_end winner reason secs (side_of second d) second);
        rating_first = res.a;
        rating_second = res.b;
        saved = record {
          played_at = now;
          a = char_a;
          b = char_b;
          outcome = outcome;
          rating_a = res.a;
          rating_b = res.b;
          delta_a = res.delta_a;
          delta_b = res.delta_b;
        };
      }

  -- The outcome of the other player.
  abbrev pub opposite : DuelOutcome → DuelOutcome
  opposite duel_win = duel_lose
  opposite duel_lose = duel_win
  opposite duel_draw = duel_draw

  minus_plus : (a d : ℤ) → a +ℤ d -ℤ d ≡ a
  minus_plus a d = eq_of_parts (a +ℤ d -ℤ d) a (omega int_laws)

  -- What is consistent about one player's end: told and saved is the elo from before and the elo that
  -- the player now has, and the new rating is a game more on the old one.
  abbrev pub IsToldRight : Rating → Rating → DuelEnd → ℤ → ℤ → Type 0
  IsToldRight before later told saved_before saved_after =
      IsValidRating later
      × (later.games ≡ before.games + 1)
      × (told.elo_before ≡ before.elo)
      × (told.elo_after ≡ later.elo)
      × (saved_before ≡ before.elo)
      × (saved_after ≡ later.elo)

  -- A ranked duel that ends between players with valid ratings, however it ends: each is told the elo
  -- from before the duel and the one after it, the saved row has the same, both ratings stay valid and
  -- count a game more, and one wins exactly if the other loses.
  pub end_ranked-told :
      (now : ℕ) (winner : Option Seat) (reason : EndReason) (secs : fl.F) (d : Duel)
      (char_a char_b : ℕ) (rating_a rating_b : Rating)
      → IsValidRating rating_a
      → IsValidRating rating_b
      → let e = end_ranked now winner reason secs d (char_a, rating_a) (char_b, rating_b) in
        let row = duel_of e.saved in
        IsToldRight rating_a e.rating_first e.told_first row.a_before row.a_after
        × IsToldRight rating_b e.rating_second e.told_second row.b_before row.b_after
        × (e.told_second.outcome ≡ opposite e.told_first.outcome)
  unfolding end_ranked plain_end duel_of
  end_ranked-told now winner reason secs d char_a char_b rating_a rating_b va vb =
      let m = duel_margin winner reason secs d in
      let (game_a, game_b) = settle-IsGame fl rating_a rating_b (ranked_outcome winner) m va vb in
      let res = settle fl rating_a rating_b (ranked_outcome winner) m in
      let was_a = ap (λ (e : ℤ). e -ℤ res.delta_a) game_a.1 ∙ minus_plus rating_a.elo res.delta_a in
      let was_b = ap (λ (e : ℤ). e -ℤ res.delta_b) game_b.1 ∙ minus_plus rating_b.elo res.delta_b in
      (
        (game_a.0, game_a.2, was_a, refl, was_a, refl),
        (game_b.0, game_b.2, was_b, refl, was_b, refl),
        opposed winner,
      )
    where
      opposed : (w : Option Seat) → outcome_for w second ≡ opposite (outcome_for w first)
      opposed none = refl
      opposed (some first) = refl
      opposed (some second) = refl
