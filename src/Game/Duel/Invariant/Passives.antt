-- ===== src/Game/Duel/Invariant/Passives.antt =====
-- What follows a guess keeps a duel valid: passives, eyes that wake and illusions
-- (internal/game/abilities.go, afterGuess and IllusionGuess; internal/game/duel.go, DuelGuess).
use nytrpg.Prelude.{
  Bool, List, Option, Option-cases, [], arith, false, if◌then◌else◌, inl, inr, is_empty, leb,
  length, ltb, none, not, some, true, ℕ, ℤ, ◌&&◌, ◌+◌, ◌<◌, ◌||◌, ◌≡◌,
}
use nytrpg.Classes.{AbilityId, aggressive, divine_will, passive_of, sneaky, wise}
use nytrpg.Game.Duel.{
  Arena, DuelPuzzle, Ending, Seat, cast_event, first, hostile, other_seat, put, second,
  send_duel_state, side, sync_duel, tell,
}
use nytrpg.Game.Duel.Cast.{illusion_guesses}
use nytrpg.Game.Duel.Eyes.{send_eyes}
use nytrpg.Game.Duel.Guess.{
  after_guess, aggressive_stun, divine_will_silence, fizzle, guess, guess_illusion, guessed,
  illusion_energy, leave_illusion, passive, scored_row, silence, take_guess, take_illusion_guess,
  typing, wake_eyes,
}
use nytrpg.Game.Duel.Invariant.{
  IsLawful, IsValid, IsValidPair, at_seat, hit-IsValid, hostile-IsValid, if_cases, if_keeps, put_me,
  put_them, stun-IsValidPair,
}
use nytrpg.Game.Duel.Invariant.Casts.{swap_keys-IsValidPair}
use nytrpg.Game.Duel.Invariant.Eyes.{aim-IsValid}
use nytrpg.Game.Duel.Invariant.Guesses.{fizzle-duel, guessed-IsValidPair, scored_row-IsValidRow}
use nytrpg.Game.Duel.Rogue.{swap_keys}
use nytrpg.Game.Message.{WordleRes, cast_triggered, illusion_guess, tile_zero}
use nytrpg.Game.Side.{
  Effects, GuessRow, Illusion, Side, blocked, done, lose_energy, out, set_effects, solves, stun,
}
use nytrpg.Game.Side.Invariant.{IsValidWord, learn-IsValidSide}
use nytrpg.Game.Side.Learn.{learn}
use nytrpg.Text.{Text, is_letters, to_upper}
use nytrpg.Wordle.Score.{Color}
use nytrpg.Wordle.Score.Counts.{count}

module _ (n : ℕ) where
  silenced-IsValidPair :
      (until : ℕ) (me them : Side)
      → IsValidPair n me them
      → IsValidPair n me (set_effects (silence until) them)
  unfolding silence
  silenced-IsValidPair until me them v =
      if_keeps (λ (e : Effects). IsValidPair n me (record them { effects = e }))
        (ltb them.silenced_until until) v v

  sneaky-IsValid :
      (now : ℕ) (seat : Seat) (ar : Arena)
      → IsValid n ar
      → IsValid n (passive now seat (some sneaky) ar)
  unfolding passive
  sneaky-IsValid now seat ar v =
      let hit_ar = (hostile seat sneaky cast_triggered tile_zero ar).0 in
      let w = hostile-IsValid n seat sneaky cast_triggered tile_zero ar v in
      let me = side seat hit_ar in
      let them = side (other_seat seat) hit_ar in
      if_keeps (IsValid n) (hostile seat sneaky cast_triggered tile_zero ar).1
        (put_them n seat hit_ar (swap_keys them hit_ar.rng).0
          (swap_keys-IsValidPair n me them hit_ar.rng (at_seat n seat hit_ar w)))
        w

  passive-IsValid :
      (now : ℕ) (seat : Seat) (i : Option AbilityId) (ar : Arena)
      → IsValid n ar
      → IsValid n (passive now seat i ar)
  unfolding passive send_eyes tell
  passive-IsValid now seat (some aggressive) ar v =
      hit-IsValid n seat aggressive cast_triggered tile_zero (stun (now + aggressive_stun)) ar
        (stun-IsValidPair n (now + aggressive_stun)) v
  passive-IsValid now seat (some wise) ar v =
      if_keeps (IsValid n) (is_empty (side seat ar).eyes) v
        (aim-IsValid n now (λ _. true) seat ar v)
  passive-IsValid now seat (some sneaky) ar v = sneaky-IsValid now seat ar v
  passive-IsValid now seat (some divine_will) ar v =
      hit-IsValid n seat divine_will cast_triggered tile_zero
        (set_effects (silence (now + divine_will_silence))) ar
        (silenced-IsValidPair (now + divine_will_silence)) v
  passive-IsValid now seat _ ar v = v

  wake_eyes-IsValid :
      (now : ℕ) (watcher : Seat) (ar : Arena) → IsValid n ar → IsValid n (wake_eyes now watcher ar)
  unfolding wake_eyes send_eyes tell
  wake_eyes-IsValid now watcher ar v =
      let w = aim-IsValid n now (λ e. not e.on) watcher ar v in if_keeps (IsValid n) _ w w

  after_guess-IsValid :
      (now : ℕ) (seat : Seat) (row : GuessRow) (ar : Arena)
      → IsValid n ar
      → IsValid n (after_guess now seat row ar)
  unfolding after_guess learn sync_duel send_duel_state tell
  after_guess-IsValid now seat row ar v =
      let learnt = learn row true (side seat ar) in
      let (mine, theirs, my_eyes, their_eyes) = at_seat n seat ar v in
      let put_ar = put seat learnt.0 ar in
      let beaten = fizzle seat learnt.0.missiles put_ar in
      let b : IsValid n beaten = rw (fizzle-duel seat learnt.0.missiles put_ar) (
        put_me n seat ar learnt.0
          (learn-IsValidSide n row true (side seat ar) mine, theirs, my_eyes, their_eyes)) in
      let clear =
        put seat (set_effects (λ e. record e { missiles = [] }) (side seat beaten)) beaten in
      let c = put_me n seat beaten _ (at_seat n seat beaten b) in
      wake_eyes-IsValid now (other_seat seat) _ (
        if_keeps (IsValid n) learnt.1 (passive-IsValid now seat (passive_of learnt.0.class) clear c)
          c)

  -- A scored guess keeps the duel valid, whether it ends the duel or not.
  pub take_guess-IsValid :
      (now : ℕ) (seat : Seat) (word : Text) (cs : List Color) (ar : Arena)
      → length (side seat ar).guesses < (side seat ar).rows
      → IsValidWord n word
      → length cs ≡ n
      → IsValid n ar
      → IsValid n (take_guess now seat word cs ar).0
  unfolding take_guess tell
  take_guess-IsValid now seat word cs ar h w k v =
      let me = side seat ar in
      let them = side (other_seat seat) ar in
      let p = at_seat n seat ar v in
      let row = scored_row me word cs in
      let told =
        put_me n seat ar (guessed me row)
          (guessed-IsValidPair n me them row h (scored_row-IsValidRow n me word cs p.0 w k) p) in
      if_keeps (λ (r : Arena × Option Ending). IsValid n r.0) (guessed me row).solved told
        (if_keeps (λ (r : Arena × Option Ending). IsValid n r.0) (out (guessed me row) && out them)
          told (after_guess-IsValid now seat row _ told))

  free-IsValidPair :
      (me them : Side)
      → IsValidPair n me them
      → IsValidPair n (set_effects (λ e. record e { illusion = none }) me) them
  free-IsValidPair me them ((board, found, tricks, trapped), rest, my_eyes, their_eyes) =
      ((board, found, tricks, (tt, trapped.1)), rest, my_eyes, their_eyes)

  lose_energy-IsValidPair :
      (k : ℕ) (me them : Side) → IsValidPair n me them → IsValidPair n (lose_energy k me).0 them
  unfolding lose_energy
  lose_energy-IsValidPair k me them v = v

  leave_illusion-IsValid :
      (now : ℕ) (seat : Seat) (i : Illusion) (won : Bool) (ar : Arena)
      → IsValidPair n
          (set_effects (λ e. record e { illusion = none }) (side seat ar))
          (side (other_seat seat) ar)
      → IsValid n (leave_illusion now seat i won ar)
  unfolding leave_illusion sync_duel send_duel_state cast_event tell
  leave_illusion-IsValid now seat i won ar v =
      let free = set_effects (λ e. record e { illusion = none }) (side seat ar) in
      let them = side (other_seat seat) ar in
      put_me n seat ar _ (
        if_keeps (λ s. IsValidPair n s them) won v
          (lose_energy-IsValidPair illusion_energy free them v))

  -- An illusion's next try is within its tries, or ends it.
  tried-IsValid :
      (now : ℕ) (seat : Seat) (i : Illusion) (won : Bool) (res : WordleRes) (ar : Arena)
      → IsValid n ar
      → let tried : Illusion = record i { tries = i.tries + 1 } in
        let kept = set_effects (λ e. record e { illusion = some tried }) (side seat ar) in
        let told : Arena = tell seat (illusion_guess res) (put seat kept ar) in
        IsValid n (
          if won || leb illusion_guesses tried.tries
          then leave_illusion now seat tried won told
          else told)
  unfolding tell
  tried-IsValid now first i won res ar v =
      let p = free-IsValidPair ar.duel.a ar.duel.b v in
      if_cases (IsValid n) (won || leb illusion_guesses (i.tries + 1))
        (λ _. leave_illusion-IsValid now first _ won _ p)
        (λ left. ((p.0.0, p.0.1, p.0.2, (ground arith, p.0.3.1)), p.1, p.2, p.3))
  tried-IsValid now second i won res ar v =
      let p = free-IsValidPair ar.duel.b ar.duel.a (at_seat n second ar v) in
      if_cases (IsValid n) (won || leb illusion_guesses (i.tries + 1))
        (λ _. leave_illusion-IsValid now second _ won _ p)
        (λ left. (p.1, (p.0.0, p.0.1, p.0.2, (ground arith, p.0.3.1)), p.3, p.2))

  -- A guess in an illusion keeps a valid duel valid, on every branch; an illusion that goes on has
  -- tries left.
  pub guess_illusion-IsValid :
      (puzzle : DuelPuzzle) (now : ℕ) (seat : Seat) (text : Text) (ar : Arena)
      → IsValid n ar
      → IsValid n (guess_illusion puzzle now seat text ar)
  unfolding guess_illusion take_illusion_guess tell
  guess_illusion-IsValid puzzle now seat text ar v =
      let me = side seat ar in
      elim (Option-cases me.illusion) [
        | inl free ↦ rw (free, guess_illusion) v
        | inr (i, trapped) ↦
            rw (trapped, guess_illusion)
              (if_keeps (IsValid n) (ltb now me.stunned_until) v
                (elim (Option-cases (puzzle.score text i.answer)) [
                  | inl unscored ↦ rw (unscored, guess_illusion) v
                  | inr (cs, scored) ↦
                      rw (scored, guess_illusion) (tried-IsValid now seat i (solves cs) _ ar v)
                ]))
      ]

  row_left : (me : Side) → done me ≡ false → length me.guesses < me.rows
  unfolding done out
  row_left me undone = ground arith

  pub scored_lengths :
      (puzzle : DuelPuzzle) (text : Text) (ar : Arena) (seat : Seat) (cs : List Color)
      → IsLawful n puzzle
      → IsValid n ar
      → (let me = side seat ar in
          if me.cheat then puzzle.score_any text me.word else puzzle.score text me.word)
        ≡ some cs
      → (length cs ≡ n) × (is_letters (to_upper text) ≡ true) × (length (to_upper text) ≡ n)
  scored_lengths puzzle text ar seat cs law v scored =
      let me = side seat ar in
      let board = (at_seat n seat ar v).0.0 in
      if_cases
        (λ r.
          r ≡ some cs
          → (length cs ≡ n) × (is_letters (to_upper text) ≡ true) × (length (to_upper text) ≡ n))
        me.cheat
        (λ _ any_scored.
          law.score_any_lengths text me.word cs board.letters board.word_length any_scored)
        (λ _ plain. law.score_lengths text me.word cs board.letters board.word_length plain) scored

  -- With a puzzle that keeps its contract, a guess keeps a valid duel valid, on every branch.
  pub guess-IsValid :
      (puzzle : DuelPuzzle) (now : ℕ) (seat : Seat) (text : Text) (ar : Arena)
      → IsLawful n puzzle
      → IsValid n ar
      → IsValid n (guess puzzle now seat text ar).0
  unfolding guess tell
  guess-IsValid puzzle now seat text ar law v =
      let me = side seat ar in
      let Ok = λ (r : Arena × Option Ending). IsValid n r.0 in
      if_cases Ok (done me) (λ _. v)
        (λ undone.
          if_keeps Ok (blocked now me) v
            (elim (Option-cases
              (if me.cheat then puzzle.score_any text me.word else puzzle.score text me.word)) [
                | inl unscored ↦ rw (unscored, guess) v
                | inr (cs, scored) ↦
                    let (fits, letters, full) =
                      scored_lengths puzzle text ar seat cs law v scored in
                    rw (scored, guess)
                      (take_guess-IsValid now seat (to_upper text) cs ar (row_left me undone)
                        (letters, full) fits v)
              ]))

  pub typing-IsValid :
      (now : ℕ) (seat : Seat) (count : ℤ) (ar : Arena)
      → IsValid n ar
      → IsValid n (typing now seat count ar)
  unfolding typing tell
  typing-IsValid now seat count ar v = if_keeps (IsValid n) _ v v
