-- ===== src/Ranked/Elo.antt =====
-- Elo ratings and how a ranked duel changes them (internal/ranked/elo.go). What the source computes
-- with float64 and math goes through `Floats`; a score of 1, 0.5 or 0 is a `Score`.
pub mod Laws
use nytrpg.Prelude.{
  Bool, false, if◌then◌else◌, ltb, ltb_ℤ, max_ℤ, neg, neg_part, negsuc, pos, pos_part, true, ℕ, ℤ,
  ◌&&◌, ◌+ℤ◌, ◌+◌, ◌-ℤ◌, ◌==◌,
}
use nytrpg.Game.Message.{forfeit}

-- float64, with what the source uses of it. `decimal n d` is the constant n/d, and `round` is
-- int(math.Round(x)).
pub record Floats : Type 1 where
  pub F : Type 0
  pub of_ℤ : ℤ → F
  pub decimal : ℕ → ℕ → F
  pub add : F → F → F
  pub sub : F → F → F
  pub mul : F → F → F
  pub div : F → F → F
  pub negate : F → F
  pub pow10 : F → F
  pub fmin : F → F → F
  pub fmax : F → F → F
  pub is_positive : F → Bool
  pub round : F → ℤ

-- `Rating`
pub record Rating : Type 0 where
  pub elo : ℤ
  pub peak : ℤ
  pub games : ℕ
  pub wins : ℕ
  pub losses : ℕ
  pub draws : ℕ

abbrev pub start_elo : ℤ
start_elo = pos 1000

abbrev pub provisional_games : ℕ
provisional_games = 10

-- `NewRating`
abbrev pub new_rating : Rating
new_rating = record {
  elo = start_elo;
  peak = start_elo;
  games = 0;
  wins = 0;
  losses = 0;
  draws = 0;
}

pub data Outcome : Type 0 where
  a_wins b_wins draw : Outcome

-- 1, 0 and 0.5
pub data Score : Type 0 where
  full_point no_point half_point : Score

-- 1 - score
abbrev pub other_score : Score → Score
other_score full_point = no_point
other_score no_point = full_point
other_score half_point = half_point

abbrev pub score_of : Outcome → Score
score_of a_wins = full_point
score_of b_wins = no_point
score_of draw = half_point

abbrev pub is_decisive : Outcome → Bool
is_decisive draw = false
is_decisive _ = true

-- The counters after a game.
abbrev count_game : Score → Rating → Rating
count_game full_point r = record r { games = r.games + 1; wins = r.wins + 1 }
count_game no_point r = record r { games = r.games + 1; losses = r.losses + 1 }
count_game half_point r = record r { games = r.games + 1; draws = r.draws + 1 }

-- `apply`: the rating and the change after the floor at 0.
unfoldable pub apply_change : Rating → ℤ → Score → Rating × ℤ
apply_change r delta sc =
    let floored = if ltb_ℤ (r.elo +ℤ delta) (pos 0) then neg r.elo else delta in
    let elo = r.elo +ℤ floored in
    (count_game sc (record r { elo = elo; peak = max_ℤ r.peak elo }), floored)

module _ (fl : Floats) where
  -- `Rating.k`
  unfoldable pub k_factor : Rating → fl.F
  k_factor r = if ltb r.games provisional_games then fl.of_ℤ (pos 48) else fl.of_ℤ (pos 32)

  -- `Expected`
  unfoldable pub expected : ℤ → ℤ → fl.F
  expected a b =
      fl.div (fl.of_ℤ (pos 1))
        (fl.add (fl.of_ℤ (pos 1)) (fl.pow10 (fl.div (fl.of_ℤ (b -ℤ a)) (fl.of_ℤ (pos 400)))))

  -- `clamp`
  abbrev pub clamp_float : fl.F → fl.F → fl.F → fl.F
  clamp_float v lo hi = fl.fmax lo (fl.fmin hi v)

  abbrev pub min_margin : fl.F
  min_margin = fl.of_ℤ (pos 1)

  abbrev pub max_margin : fl.F
  max_margin = fl.decimal 175 100

  -- `Margin`
  pub record Margin : Type 0 where
    pub winner_guesses : ℕ
    pub winner_seconds : fl.F
    pub loser_guesses : ℕ
    pub loser_out : Bool
    pub loser_best : fl.F
    pub forfeit : Bool

  -- `Margin.Multiplier`
  unfoldable pub multiplier : Margin → fl.F
  multiplier m =
      let zero_f = fl.of_ℤ (pos 0) in
      let one_f = fl.of_ℤ (pos 1) in
      let edge =
        clamp_float
          (fl.div (fl.of_ℤ (pos m.loser_guesses -ℤ pos m.winner_guesses +ℤ pos 1))
            (fl.of_ℤ (pos 3)))
          zero_f one_f in
      let guess_edge = if m.loser_out then one_f else edge in
      let speed =
        clamp_float (fl.sub one_f (fl.div m.winner_seconds (fl.of_ℤ (pos 180)))) zero_f one_f in
      let distance = fl.sub one_f (clamp_float m.loser_best zero_f one_f) in
      let mult =
        fl.add
          (fl.add (fl.add min_margin (fl.mul (fl.decimal 3 10) guess_edge))
            (fl.mul (fl.decimal 3 10) distance))
          (fl.mul (fl.decimal 15 100) speed) in
      if m.forfeit then max_margin else clamp_float mult min_margin max_margin

  abbrev pub eq_zero : ℤ → Bool
  eq_zero d = pos_part d + neg_part d == 0

  -- `change`: a decisive result moves by 1 at least.
  unfoldable pub change : Rating → fl.F → fl.F → Bool → ℤ
  unfolding k_factor
  change r surprise mult decisive =
      let d = fl.round (fl.mul (fl.mul (k_factor r) mult) surprise) in
      if decisive && eq_zero d then (if fl.is_positive surprise then pos 1 else negsuc 0) else d

  abbrev float_of : Score → fl.F
  float_of full_point = fl.of_ℤ (pos 1)
  float_of no_point = fl.of_ℤ (pos 0)
  float_of half_point = fl.decimal 5 10

  -- `Result`
  pub record Settlement : Type 0 where
    pub a : Rating
    pub b : Rating
    pub delta_a : ℤ
    pub delta_b : ℤ
    pub expected_a : fl.F
    pub used_multiplier : fl.F

  -- `Settle`
  unfoldable pub settle : Rating → Rating → Outcome → Margin → Settlement
  unfolding expected multiplier change apply_change
  settle a b outcome m =
      let e = expected a.elo b.elo in
      let one_f = fl.of_ℤ (pos 1) in
      let point = score_of outcome in
      let decisive = is_decisive outcome in
      let mult = if decisive then multiplier m else one_f in
      let up_a = change a (fl.sub (float_of point) e) mult decisive in
      let up_b = change b (fl.sub (fl.sub one_f (float_of point)) (fl.sub one_f e)) mult decisive in
      let (new_a, delta_a) = apply_change a up_a point in
      let (new_b, delta_b) = apply_change b up_b (other_score point) in
      record {
        a = new_a;
        b = new_b;
        delta_a = delta_a;
        delta_b = delta_b;
        expected_a = e;
        used_multiplier = mult;
      }

  -- protocol.Stakes
  pub record StakesInfo : Type 0 where
    pub win_min : ℤ
    pub win_max : ℤ
    pub lose_min : ℤ
    pub lose_max : ℤ

  -- `Stakes`
  unfoldable pub stakes : Rating → Rating → StakesInfo
  unfolding expected change
  stakes me them =
      let e = expected me.elo them.elo in
      let one_f = fl.of_ℤ (pos 1) in
      record {
        win_min = change me (fl.sub one_f e) min_margin true;
        win_max = change me (fl.sub one_f e) max_margin true;
        lose_min = max_ℤ (neg me.elo) (change me (fl.negate e) min_margin true);
        lose_max = max_ℤ (neg me.elo) (change me (fl.negate e) max_margin true);
      }
