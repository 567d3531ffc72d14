-- ===== src/Game/Duel/Guess.antt =====
-- Guesses (internal/game/duel.go: DuelGuess; internal/game/abilities.go: afterGuess, IllusionGuess).
use mathlib.Core.Option
use nytrpg.Prelude.{
  Bool, List, Option, [], false, if◌then◌else◌, is_empty, keep, leb, length, ltb, none, not,
  pos_part, some, true, ℕ, ℤ, ◌&&◌, ◌++◌, ◌+◌, ◌-◌, ◌==◌, ◌||◌, ◌∷◌,
}
use nytrpg.Classes.{
  AbilityId, aggressive, divine_will, illusion, magic_missile, passive_of, sneaky, wise,
}
use nytrpg.Game.Duel.{
  Arena, DuelPuzzle, Ending, Seat, cast_event, cast_msg, hostile, other_seat, put, side, sync_duel,
  tell, with_rng,
}
use nytrpg.Game.Duel.Cast.{illusion_guesses, is_nonneg}
use nytrpg.Game.Duel.Eyes.{aim_eyes, send_eyes}
use nytrpg.Game.Duel.Rogue.{swap_keys}
use nytrpg.Game.Message.{
  WordleRes, WordleStatus, cast_fizzled, cast_landed, cast_triggered, duel_guess,
  duel_opponent_guess, duel_typing, illusion_end, illusion_guess, in_game, lose, not_taken,
  out_of_guesses, solved, tile_zero, win,
}
use nytrpg.Game.Side.{
  Effects, Eye, GuessRow, Illusion, Side, blocked, closeness, done, lose_energy, max_frac,
  new_guess_row, out, set_effects, solves, stun,
}
use nytrpg.Game.Side.Learn.{learn}
use nytrpg.Text.{Text, to_upper}
use nytrpg.Wordle.Score.{Color}
use nytrpg.Wordle.Score.Counts.{count}

-- AggressiveStun, DivineWillSilence, IllusionEnergy.
abbrev pub aggressive_stun : ℕ
aggressive_stun = 5_000_000_000

abbrev pub divine_will_silence : ℕ
divine_will_silence = 10_000_000_000

abbrev pub illusion_energy : ℕ
illusion_energy = 5

-- The missiles flying at the seat are beaten.
unfoldable pub fizzle : Seat → List ℕ → Arena → Arena
unfolding cast_event
fizzle seat [] ar = ar
fizzle seat (m ∷ ms) ar =
    fizzle seat ms (cast_event (other_seat seat) magic_missile cast_fizzled false tile_zero ar)

unfoldable pub silence : ℕ → Effects → Effects
silence until e = if ltb e.silenced_until until then record e { silenced_until = until } else e

-- The passive of the guesser's class, after a new green.
unfoldable pub passive : ℕ → Seat → Option AbilityId → Arena → Arena
unfolding hostile stun aim_eyes send_eyes tell swap_keys silence
passive now seat (some aggressive) ar =
    let (hit_ar, hit) = hostile seat aggressive cast_triggered tile_zero ar in
    let them = side (other_seat seat) hit_ar in
    if hit then put (other_seat seat) (stun (now + aggressive_stun) them) hit_ar else hit_ar
passive now seat (some wise) ar =
    if is_empty (side seat ar).eyes
    then ar
    else tell seat (cast_msg wise cast_triggered false tile_zero true)
        (send_eyes seat (aim_eyes now (λ _. true) seat ar))
passive now seat (some sneaky) ar =
    let (hit_ar, hit) = hostile seat sneaky cast_triggered tile_zero ar in
    let (them, r) = swap_keys (side (other_seat seat) hit_ar) hit_ar.rng in
    if hit then with_rng r (put (other_seat seat) them hit_ar) else hit_ar
passive now seat (some divine_will) ar =
    let (hit_ar, hit) = hostile seat divine_will cast_triggered tile_zero ar in
    let them = side (other_seat seat) hit_ar in
    if hit
    then put (other_seat seat) (set_effects (silence (now + divine_will_silence)) them) hit_ar
    else hit_ar
passive now seat _ ar = ar

-- Idle eyes on the guesser look at the new guess; the watcher is told if one found a letter.
unfoldable pub wake_eyes : ℕ → Seat → Arena → Arena
unfolding aim_eyes send_eyes
wake_eyes now watcher ar =
    let idle = λ (e : Eye). not e.on in
    let aimed = aim_eyes now idle watcher ar in
    let count_on = λ (ar' : Arena). length (keep (λ e. e.on) (side watcher ar').eyes) in
    if ltb (count_on ar) (count_on aimed) then send_eyes watcher aimed else aimed

-- `afterGuess`: `row` is the guess just made.
unfoldable pub after_guess : ℕ → Seat → GuessRow → Arena → Arena
unfolding learn fizzle passive passive_of wake_eyes sync_duel
after_guess now seat row ar =
    let (me, new_green) = learn row true (side seat ar) in
    let beaten = fizzle seat me.missiles (put seat me ar) in
    let clear =
      put seat (set_effects (λ e. record e { missiles = [] }) (side seat beaten)) beaten in
    let set_off = if new_green then passive now seat (passive_of me.class) clear else clear in
    sync_duel now (wake_eyes now (other_seat seat) set_off)

-- The row of a scored guess: faked colors never hide a solve.
unfoldable pub scored_row : Side → Text → List Color → GuessRow
unfolding solves
scored_row me word colors =
    let row = new_guess_row word colors in
    if solves colors then row else record row {
      shown = Option.get_or me.feint colors;
      seen = Option.get_or me.false_next colors;
    }

-- A scramble that has run its course is over.
unfoldable pub unscramble : Effects → Effects
unscramble e = if e.scrambled_guesses == 0 then e else record e {
  scrambled_guesses = e.scrambled_guesses - 1;
  keymap = if e.scrambled_guesses == 1 then none else e.keymap;
}

-- The side after a guess was scored, before anything is paid.
unfoldable pub guessed : Side → GuessRow → Side
unfolding unscramble solves
guessed me row =
    let spent =
      set_effects (λ e. unscramble (record e { cheat = false; feint = none; false_next = none }))
        me in
    record spent {
      guesses = me.guesses ++ row ∷ [];
      best = max_frac me.best (closeness row.colors);
      solved = solves row.colors;
    }

abbrev pub status_of : Side → WordleStatus
status_of s = if s.solved then win else if out s then lose else in_game

-- The guess counts: both are told, and the duel may end.
unfoldable pub take_guess : ℕ → Seat → Text → List Color → Arena → Arena × Option Ending
unfolding scored_row guessed out after_guess tell
take_guess now seat word colors ar =
    let row = scored_row (side seat ar) word colors in
    let me = guessed (side seat ar) row in
    let res : WordleRes = record {
      valid = true;
      status = status_of me;
      colors = row.seen;
      seconds = now - ar.duel.start;
      blocked = false;
    } in
    let told =
      tell (other_seat seat) (duel_opponent_guess row.shown)
        (tell seat (duel_guess res) (put seat me ar)) in
    if me.solved
    then (told, some (record { winner = some seat; reason = solved }))
    else if out me && out (side (other_seat seat) ar)
    then (told, some (record { winner = none; reason = out_of_guesses }))
    else (after_guess now seat row told, none)

-- `DuelGuess` of a player who is in the duel.
unfoldable pub guess : DuelPuzzle → ℕ → Seat → Text → Arena → Arena × Option Ending
unfolding done blocked take_guess tell to_upper
guess puzzle now seat text ar =
    let me = side seat ar in
    let score = if me.cheat then puzzle.score_any text me.word else puzzle.score text me.word in
    if done me
    then (ar, none)
    else if blocked now me
    then (tell seat (duel_guess (record not_taken { blocked = true })) ar, none)
    else elim score [
      | none ↦ (tell seat (duel_guess not_taken) ar, none)
      | some colors ↦ take_guess now seat (to_upper text) colors ar
    ]

-- `DuelTyping`: the opponent hears how many letters the row has.
unfoldable pub typing : ℕ → Seat → ℤ → Arena → Arena
unfolding done blocked tell
typing now seat count ar =
    let me = side seat ar in
    if done me || blocked now me || not (is_nonneg count) || ltb (length me.word) (pos_part count)
    then ar
    else tell (other_seat seat) (duel_typing (pos_part count)) ar

-- The illusion ends: solving it frees them, failing it costs energy too.
unfoldable pub leave_illusion : ℕ → Seat → Illusion → Bool → Arena → Arena
unfolding lose_energy sync_duel cast_event tell
leave_illusion now seat i won ar =
    let free = set_effects (λ e. record e { illusion = none }) (side seat ar) in
    let (hurt, lost) = lose_energy illusion_energy free in
    let left = put seat (if won then free else hurt) ar in
    let told = tell seat (illusion_end won i.answer (if won then 0 else lost) false) left in
    sync_duel now (
      cast_event (other_seat seat) illusion (if won then cast_fizzled else cast_landed) false
        tile_zero told)

-- A guess in an illusion that was scored.
unfoldable pub take_illusion_guess : ℕ → Seat → Illusion → List Color → Arena → Arena
unfolding leave_illusion tell solves
take_illusion_guess now seat i colors ar =
    let tried : Illusion = record i { tries = i.tries + 1 } in
    let won = solves colors in
    let over = won || leb illusion_guesses tried.tries in
    let res : WordleRes = record {
      valid = true;
      status = if won then win else if over then lose else in_game;
      colors = colors;
      seconds = 0;
      blocked = false;
    } in
    let kept = set_effects (λ e. record e { illusion = some tried }) (side seat ar) in
    let told = tell seat (illusion_guess res) (put seat kept ar) in
    if over then leave_illusion now seat tried won told else told

-- `IllusionGuess` of a player who is in the duel.
unfoldable pub guess_illusion : DuelPuzzle → ℕ → Seat → Text → Arena → Arena
unfolding take_illusion_guess tell
guess_illusion puzzle now seat text ar =
    let me = side seat ar in
    elim me.illusion [
      | none ↦ ar
      | some i ↦
          if ltb now me.stunned_until
          then tell seat (illusion_guess (record not_taken { blocked = true })) ar
          else elim (puzzle.score text i.answer) [
            | none ↦ tell seat (illusion_guess not_taken) ar
            | some colors ↦ take_illusion_guess now seat i colors ar
          ]
    ]
