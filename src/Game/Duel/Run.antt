-- ===== src/Game/Duel/Run.antt =====
-- A duel from its start on: `startDuel`, and the requests, ticks and answers that reach it one after
-- another on the world goroutine (internal/game/duel.go and internal/game/abilities.go).
use nytrpg.Prelude.{
  Bool, Option, Rng, [], arith, false, keep, length, length-replicate, none, not, refl, ℕ, ℤ, ◌+◌,
  ◌==◌, ◌∙◌,
}
use nytrpg.Classes.{ClassId}
use nytrpg.Game.Duel.{
  Arena, DuelPuzzle, Ending, Prayer, Seat, first, other_seat, second, send_duel_state, side,
  sync_duel, tell,
}
use nytrpg.Game.Duel.Cast.{cast_ability, reshape_reality_pick}
use nytrpg.Game.Duel.Cleric.{energy_interval, prayer_reply}
use nytrpg.Game.Duel.Guess.{guess, guess_illusion, typing}
use nytrpg.Game.Duel.Invariant.{IsLawful, IsValid, if_keeps}
use nytrpg.Game.Duel.Invariant.Fates.{unanswered-IsValid}
use nytrpg.Game.Duel.Invariant.Passives.{guess-IsValid, guess_illusion-IsValid, typing-IsValid}
use nytrpg.Game.Duel.Invariant.Requests.{cast_ability-IsValid, reshape_reality_pick-IsValid}
use nytrpg.Game.Duel.Invariant.Ticks.{tick-IsValid}
use nytrpg.Game.Duel.Rogue.{CastReq}
use nytrpg.Game.Duel.Tick.{tick}
use nytrpg.Game.Message.{duel_start}
use nytrpg.Game.Side.{Side, frac_zero, new_side_effects}
use nytrpg.Game.Side.Invariant.{IsValidSide, IsValidWord}
use nytrpg.Text.{Text, text_eq}
use nytrpg.Wordle.Score.Counts.{count}

unfoldable pub new_side : ℕ → ClassId → Text → ℕ → Side
unfolding new_side_effects
new_side client class word rows = record {
  client = client;
  class = class;
  word = word;
  guesses = [];
  rows = rows;
  solved = false;
  best = frac_zero;
  effects = new_side_effects (length word);
}

-- A player as `startDuel` sees one.
pub record Player : Type 0 where
  pub client : ℕ
  pub class : ClassId

-- Tells a seat that the duel starts.
unfoldable pub tell_start : Seat → Arena → Arena
unfolding tell
tell_start seat ar =
    let me = side seat ar in
    let them = side (other_seat seat) ar in
    tell seat (duel_start them.class (length me.word) me.rows ar.duel.ranked) ar

-- `startDuel`, once the challenges of both are gone. `id` names the duel.
unfoldable pub start_duel : DuelPuzzle → ℕ → ℕ → Player → Player → Bool → Bool → Rng → Arena
unfolding new_side tell_start sync_duel
start_duel puzzle now id p q ranked oracle r =
    let (word, r') = puzzle.new_word r in
    let started : Arena = record {
      duel = record {
        id = id;
        start = now;
        a = new_side p.client p.class word puzzle.max_guesses;
        b = new_side q.client q.class word puzzle.max_guesses;
        ranked = ranked;
        next_energy = now + energy_interval;
        deadline = 0;
      };
      rng = r';
      sent = [];
      oracle = oracle;
      prayers = [];
      next_prayer = 0;
    } in
    sync_duel now (tell_start second (tell_start first started))

-- What can happen to a duel.
pub data Event : Type 0 where
  guesses : Seat → Text → Event
  types : Seat → ℤ → Event
  casts : Seat → CastReq → Event
  picks : Seat → Text → Event
  guesses_illusion : Seat → Text → Event
  ticks : Event
  answers : Prayer → Bool → Event

abbrev on : Arena → Arena × Option Ending
on ar = (ar, none)

-- The slot of an answered prayer is free again.
unfoldable pub release : Prayer → Arena → Arena
release p ar = record ar { prayers = keep (λ q. not (q.id == p.id)) ar.prayers }

unfoldable pub handle : DuelPuzzle → ℕ → Event → Arena → Arena × Option Ending
unfolding release guess typing cast_ability reshape_reality_pick guess_illusion tick prayer_reply
handle puzzle now (guesses seat text) ar = guess puzzle now seat text ar
handle puzzle now (types seat count) ar = on (typing now seat count ar)
handle puzzle now (casts seat req) ar = on (cast_ability puzzle now seat req ar)
handle puzzle now (picks seat text) ar = on (reshape_reality_pick puzzle now seat text ar)
handle puzzle now (guesses_illusion seat text) ar = on (guess_illusion puzzle now seat text ar)
handle puzzle now ticks ar = tick now ar
handle puzzle now (answers p good) ar = on (release p (prayer_reply now p good ar))

-- The duels that can be reached from one: each event finds the duel not ended by those before.
pub data Reach (puzzle : DuelPuzzle) (from : Arena) : Arena → Option Ending → Type 0 where
  here : Reach puzzle from from none
  after :
      {ar : Arena}
      → (now : ℕ) → (e : Event) → Reach puzzle from ar none
      → Reach puzzle from (handle puzzle now e ar).0 (handle puzzle now e ar).1

module _ (n : ℕ) where
  prayer_reply-IsValid :
      (now : ℕ) (p : Prayer) (good : Bool) (ar : Arena)
      → IsValid n ar
      → IsValid n (prayer_reply now p good ar)
  unfolding prayer_reply sync_duel send_duel_state tell
  prayer_reply-IsValid now p good ar v =
      let refunded = unanswered-IsValid n p.seat p.id p.kind p.cost ar v in
      if_keeps (IsValid n) (not good) refunded
        (if_keeps (IsValid n) (not (text_eq (side p.seat ar).word p.word)) refunded v)

  handle-IsValid :
      (puzzle : DuelPuzzle) (now : ℕ) (e : Event) (ar : Arena)
      → IsLawful n puzzle
      → IsValid n ar
      → IsValid n (handle puzzle now e ar).0
  unfolding handle release
  handle-IsValid puzzle now (guesses seat text) ar law v =
      guess-IsValid n puzzle now seat text ar law v
  handle-IsValid puzzle now (types seat count) ar law v = typing-IsValid n now seat count ar v
  handle-IsValid puzzle now (casts seat req) ar law v =
      cast_ability-IsValid n puzzle now seat req ar law v
  handle-IsValid puzzle now (picks seat text) ar law v =
      reshape_reality_pick-IsValid n puzzle now seat text ar law v
  handle-IsValid puzzle now (guesses_illusion seat text) ar law v =
      guess_illusion-IsValid n puzzle now seat text ar v
  handle-IsValid puzzle now ticks ar law v = tick-IsValid n now ar v
  handle-IsValid puzzle now (answers p good) ar law v = prayer_reply-IsValid now p good ar v

  new_side-IsValidSide :
      (client : ℕ) (class : ClassId) (word : Text) (rows : ℕ)
      → IsValidWord n word
      → IsValidSide n (new_side client class word rows)
  unfolding new_side new_side_effects
  new_side-IsValidSide client class word rows (letters, full) = (
    record {
      letters = letters;
      word_length = full;
      rows_fit = omega arith;
      guesses_fit = tt;
      destroyed_fits = tt;
    },
    (length-replicate (length word) false ∙ full, refl),
    record { feint_fits = tt; false_fits = tt; scramble = refl },
    (tt, tt),
  )

  -- A duel is valid when it starts, with a puzzle that keeps its contract.
  pub start_duel-IsValid :
      (puzzle : DuelPuzzle) (now id : ℕ) (p q : Player) (ranked oracle : Bool) (r : Rng)
      → IsLawful n puzzle
      → IsValid n (start_duel puzzle now id p q ranked oracle r)
  unfolding start_duel new_side new_side_effects tell_start sync_duel send_duel_state tell
  start_duel-IsValid puzzle now id p q ranked oracle r law =
      let word = (puzzle.new_word r).0 in
      let w : IsValidWord n word = (law.new_word_letters r, law.new_word_length r) in
      (
        new_side-IsValidSide p.client p.class word puzzle.max_guesses w,
        new_side-IsValidSide q.client q.class word puzzle.max_guesses w,
        tt,
        tt,
      )

  -- From a valid duel, with a puzzle that keeps its contract, every duel that is reached is valid,
  -- whatever the players send and whenever the clock ticks or a prayer is answered.
  pub Reach-IsValid :
      (puzzle : DuelPuzzle) (from : Arena)
      → IsLawful n puzzle
      → IsValid n from
      → {ar : Arena} {end : Option Ending} → Reach puzzle from ar end
      → IsValid n ar
  Reach-IsValid puzzle from law v here = v
  Reach-IsValid puzzle from law v (after now e path) =
      handle-IsValid puzzle now e _ law (Reach-IsValid puzzle from law v path)
