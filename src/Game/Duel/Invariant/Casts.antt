-- ===== src/Game/Duel/Invariant/Casts.antt =====
-- Every ability keeps a duel valid (internal/game/abilities.go: cast, CastAbility, ReshapeReality;
-- internal/game/rogue.go).
use nytrpg.Prelude.{List, Rng, arith, false, length, pos_part, refl, some, true, ℕ, ◌+◌, ◌∙◌, ◌≡◌}
use nytrpg.Classes.{
  AbilityId, aggressive, cheat, confuse, cripple, determination, divine_intervention, divine_will,
  feint, illusion, magic_missile, major_prayer, mend, minor_prayer, pickpocket, pommel_strike,
  purify, reshape_reality, scry, seeing_eye, shields_up, slash, sneaky, under_their_nose, wise,
}
use nytrpg.Game.Duel.{Arena, DuelPuzzle, Seat, cast_event, hostile, other_seat, side, tell}
use nytrpg.Game.Duel.Cast.{can_cast, cast, pommel_stun, valid_pattern}
use nytrpg.Game.Duel.Cleric.{cast_cleric}
use nytrpg.Game.Duel.Invariant.{
  IsLawful, IsValid, IsValidPair, at_seat, hit-IsValid, hostile-IsValid, if_keeps, put_me, put_them,
  stun-IsValidPair,
}
use nytrpg.Game.Duel.Invariant.Fates.{intervene-IsValid, pray-IsValid, purify-IsValid}
use nytrpg.Game.Duel.Invariant.Hits.{cripple-IsValid, seeing_eye-IsValid, slash-IsValid}
use nytrpg.Game.Duel.Invariant.Mends.{mend_guess-IsValid}
use nytrpg.Game.Duel.Rogue.{
  CastReq, cast_rogue, req_tile, scramble_guesses, scrambled_keys, swap_keys,
}
use nytrpg.Game.Message.{cast_used, prayer_major, prayer_minor, tile_zero}
use nytrpg.Game.Side.{Side, set_effects, stun}
use nytrpg.Game.Side.Invariant.{IsValidSide}
use nytrpg.Text.{Text}
use nytrpg.Wordle.Score.{Color}

module _ (n : ℕ) where
  determined-IsValidSide :
      (s : Side) → IsValidSide n s → IsValidSide n (record s { rows = s.rows + 1 })
  determined-IsValidSide s (board, found, tricks, trapped) =
      let fit = board.rows_fit in
      (
        record {
          letters = board.letters;
          word_length = board.word_length;
          rows_fit = omega arith;
          guesses_fit = board.guesses_fit;
          destroyed_fits = board.destroyed_fits;
        },
        found,
        tricks,
        trapped,
      )

  valid_pattern-length : (cs : List Color) (m : ℕ) → valid_pattern cs m ≡ true → length cs ≡ m
  unfolding valid_pattern
  valid_pattern-length cs m h = ground arith

  feint-IsValid :
      (puzzle : DuelPuzzle) (now : ℕ) (seat : Seat) (req : CastReq) (ar : Arena)
      → valid_pattern req.colors (length (side seat ar).word) ≡ true
      → IsValid n ar
      → IsValid n (cast puzzle now seat feint req ar)
  unfolding cast cast_rogue cast_event tell
  feint-IsValid puzzle now seat req ar h v =
      let (mine, theirs, my_eyes, their_eyes) = at_seat n seat ar v in
      let (board, found, tricks, trapped) = mine in
      let fits = valid_pattern-length req.colors (length (side seat ar).word) h in
      put_me n seat ar (set_effects (λ e. record e { feint = some req.colors }) (side seat ar)) (
        (
          board,
          found,
          record {
            feint_fits = fits ∙ board.word_length;
            false_fits = tricks.false_fits;
            scramble = tricks.scramble;
          },
          trapped,
        ),
        theirs,
        my_eyes,
        their_eyes,
      )

  under_their_nose-IsValid :
      (puzzle : DuelPuzzle) (now : ℕ) (seat : Seat) (req : CastReq) (ar : Arena)
      → valid_pattern req.colors (length (side seat ar).word) ≡ true
      → IsValid n ar
      → IsValid n (cast puzzle now seat under_their_nose req ar)
  unfolding cast cast_rogue tell
  under_their_nose-IsValid puzzle now seat req ar h v =
      let (mine, theirs, my_eyes, their_eyes) = at_seat n seat ar v in
      let (board, found, tricks, trapped) = theirs in
      let fits = valid_pattern-length req.colors (length (side seat ar).word) h in
      if_keeps (IsValid n) (side (other_seat seat) ar).shield
        (hostile-IsValid n seat under_their_nose cast_used tile_zero ar v)
        (put_them n seat ar
          (set_effects (λ e. record e { false_next = some req.colors }) (side (other_seat seat) ar))
          (
            mine,
            (
              board,
              found,
              record {
                feint_fits = tricks.feint_fits;
                false_fits = fits ∙ mine.0.word_length;
                scramble = tricks.scramble;
              },
              trapped,
            ),
            my_eyes,
            their_eyes,
          ))

  -- A scramble of the whole keyboard or of two keys is one of `scramble_guesses` guesses.
  scrambled-IsValidPair :
      (keys : Text) (me them : Side)
      → IsValidPair n me them
      → IsValidPair n me (
          set_effects
            (λ e. record e { keymap = some keys; scrambled_guesses = scramble_guesses })
            them)
  scrambled-IsValidPair keys me them (mine, (board, found, tricks, trapped), my_eyes, their_eyes) =
      (
        mine,
        (
          board,
          found,
          record {
            feint_fits = tricks.feint_fits;
            false_fits = tricks.false_fits;
            scramble = refl;
          },
          trapped,
        ),
        my_eyes,
        their_eyes,
      )

  confuse-IsValid :
      (puzzle : DuelPuzzle) (now : ℕ) (seat : Seat) (req : CastReq) (ar : Arena)
      → IsValid n ar
      → IsValid n (cast puzzle now seat confuse req ar)
  unfolding cast cast_rogue
  confuse-IsValid puzzle now seat req ar v =
      let hit_ar = (hostile seat confuse cast_used tile_zero ar).0 in
      let w = hostile-IsValid n seat confuse cast_used tile_zero ar v in
      let keys = (scrambled_keys hit_ar.rng).0 in
      let them = side (other_seat seat) hit_ar in
      if_keeps (IsValid n) (hostile seat confuse cast_used tile_zero ar).1
        (put_them n seat hit_ar _
          (scrambled-IsValidPair keys (side seat hit_ar) them (at_seat n seat hit_ar w)))
        w

  -- Two keys swapped count as a scramble too.
  pub swap_keys-IsValidPair :
      (me them : Side) (r : Rng) → IsValidPair n me them → IsValidPair n me (swap_keys them r).0
  unfolding swap_keys
  swap_keys-IsValidPair me them r v = scrambled-IsValidPair _ me them v

  trap-IsValid :
      (puzzle : DuelPuzzle) (now : ℕ) (seat : Seat) (req : CastReq) (ar : Arena)
      → IsValid n ar
      → IsValid n (cast puzzle now seat illusion req ar)
  unfolding cast tell
  trap-IsValid puzzle now seat req ar v =
      let hit_ar = (hostile seat illusion cast_used tile_zero ar).0 in
      let w = hostile-IsValid n seat illusion cast_used tile_zero ar v in
      let (mine, theirs, my_eyes, their_eyes) = at_seat n seat hit_ar w in
      let (board, found, tricks, trapped) = theirs in
      if_keeps (IsValid n) (hostile seat illusion cast_used tile_zero ar).1
        (put_them n seat hit_ar
          (set_effects
            (λ e. record e {
              illusion = some (record { answer = (puzzle.illusion_word hit_ar.rng).0; tries = 0 });
            })
            (side (other_seat seat) hit_ar))
          (mine, (board, found, tricks, (omega arith, trapped.1)), my_eyes, their_eyes))
        w

  -- What an ability does keeps the duel valid, if it may be cast.
  pub cast-IsValid :
      (puzzle : DuelPuzzle) (now : ℕ) (seat : Seat) (i : AbilityId) (req : CastReq) (ar : Arena)
      → IsLawful n puzzle
      → can_cast i (side seat ar) (side (other_seat seat) ar) req ≡ true
      → IsValid n ar
      → IsValid n (cast puzzle now seat i req ar)
  unfolding cast can_cast cast_rogue cast_cleric cast_event tell
  cast-IsValid puzzle now seat slash req ar law h v =
      slash-IsValid n puzzle now seat req ar (ground arith) v
  cast-IsValid puzzle now seat shields_up req ar law h v = put_me n seat ar _ (at_seat n seat ar v)
  cast-IsValid puzzle now seat determination req ar law h v =
      let (mine, theirs, my_eyes, their_eyes) = at_seat n seat ar v in
      put_me n seat ar _ (determined-IsValidSide (side seat ar) mine, theirs, my_eyes, their_eyes)
  cast-IsValid puzzle now seat pommel_strike req ar law h v =
      hit-IsValid n seat pommel_strike cast_used tile_zero (stun (now + pommel_stun)) ar
        (stun-IsValidPair n (now + pommel_stun)) v
  cast-IsValid puzzle now seat cripple req ar law h v = cripple-IsValid n puzzle now seat req ar h v
  cast-IsValid puzzle now seat scry req ar law h v = v
  cast-IsValid puzzle now seat seeing_eye req ar law h v =
      seeing_eye-IsValid n puzzle now seat req ar v
  cast-IsValid puzzle now seat magic_missile req ar law h v =
      put_them n seat ar _ (at_seat n seat ar v)
  cast-IsValid puzzle now seat illusion req ar law h v = trap-IsValid puzzle now seat req ar v
  cast-IsValid puzzle now seat reshape_reality req ar law h v = v
  cast-IsValid puzzle now seat pickpocket req ar law h v =
      let w = hostile-IsValid n seat pickpocket cast_used (req_tile req) ar v in
      if_keeps (IsValid n) (hostile seat pickpocket cast_used (req_tile req) ar).1 w w
  cast-IsValid puzzle now seat cheat req ar law h v = put_me n seat ar _ (at_seat n seat ar v)
  cast-IsValid puzzle now seat feint req ar law h v = feint-IsValid puzzle now seat req ar h v
  cast-IsValid puzzle now seat under_their_nose req ar law h v =
      under_their_nose-IsValid puzzle now seat req ar h v
  cast-IsValid puzzle now seat confuse req ar law h v = confuse-IsValid puzzle now seat req ar v
  cast-IsValid puzzle now seat minor_prayer req ar law h v =
      pray-IsValid n seat minor_prayer prayer_minor _ ar v
  cast-IsValid puzzle now seat mend req ar law h v =
      mend_guess-IsValid n now seat (pos_part req.row) ar (ground arith) v
  cast-IsValid puzzle now seat purify req ar law h v = purify-IsValid n seat ar v
  cast-IsValid puzzle now seat major_prayer req ar law h v =
      pray-IsValid n seat major_prayer prayer_major _ ar v
  cast-IsValid puzzle now seat divine_intervention req ar law h v =
      intervene-IsValid n puzzle now
        (cast_event seat divine_intervention cast_used false tile_zero ar) law v
  cast-IsValid puzzle now seat aggressive req ar law h v = v
  cast-IsValid puzzle now seat wise req ar law h v = v
  cast-IsValid puzzle now seat sneaky req ar law h v = v
  cast-IsValid puzzle now seat divine_will req ar law h v = v
