-- ===== src/Game/Duel/Outcome.antt =====
-- How a guess ends a duel (internal/game/duel.go, DuelGuess).
use nytrpg.Prelude.{
  Bool, List, Option, Option-cases, [], arith, false, if◌then◌else◌, inl, inr, is_empty, length,
  none, refl, some, true, ℕ, ◌&&◌, ◌<◌, ◌↔◌, ◌∷◌, ◌≡◌, ◌⊎◌,
}
use nytrpg.Game.Duel.{Arena, Ending, Seat, first, other_seat, second, side, tell}
use nytrpg.Game.Duel.Guess.{guess, guessed, scored_row, take_guess}
use nytrpg.Game.Duel.Invariant.{IsValid, at_seat, if_cases, if_keeps}
use nytrpg.Game.Duel.Invariant.Passives.{scored_lengths}
use nytrpg.Game.Message.{out_of_guesses, solved}
use nytrpg.Game.Side.{GuessRow, Side, blocked, done, out, solves}
use nytrpg.Text.{Text, is_letters, to_upper}
use nytrpg.Wordle.Puzzle.{HasWords, Words, duel_puzzle, duel_puzzle-IsLawful, is_guessable}
use nytrpg.Wordle.Score.{Color, colors_for, score, score_any}
use nytrpg.Wordle.Score.Laws.{all_green-colors_for, length-colors_for, score-some, score_any-some}

abbrev pub won : Seat → Ending
won seat = record { winner = some seat; reason = solved }

abbrev pub drawn : Ending
drawn = record { winner = none; reason = out_of_guesses }

scored_row-colors :
    (me : Side) (word : Text) (cs : List Color) → (scored_row me word cs).colors ≡ cs
unfolding scored_row
scored_row-colors me word cs = if_keeps (λ (r : GuessRow). r.colors ≡ cs) (solves cs) refl refl

-- A guess that solves the word shows its real colors to both players, whatever was faked.
pub scored_row-solved :
    (me : Side) (word : Text) (cs : List Color)
    → solves cs ≡ true
    → let row = scored_row me word cs in (row.seen ≡ cs) × (row.shown ≡ cs) × (row.colors ≡ cs)
unfolding scored_row
scored_row-solved me word cs h = rw h (refl, refl, refl)

-- What an ending says of the duel that it leaves.
abbrev pub Explains : Seat → Bool → Arena → Ending → Type 0
Explains seat solving ar e =
    ((e ≡ won seat) × (solving ≡ true))
    ⊎ ((e ≡ drawn) × (out (side seat ar) ≡ true) × (out (side (other_seat seat) ar) ≡ true))

take_guess-Explains :
    (now : ℕ) (seat : Seat) (word : Text) (cs : List Color) (ar : Arena) (e : Ending)
    → let r = take_guess now seat word cs ar in r.1 ≡ some e → Explains seat (solves cs) r.0 e
unfolding take_guess guessed tell
take_guess-Explains now first word cs ar e =
    let row = scored_row ar.duel.a word cs in
    if_cases (λ (r : Arena × Option Ending). r.1 ≡ some e → Explains first (solves cs) r.0 e)
      (solves row.colors)
      (λ solving ended. inl (cc, rw (scored_row-colors ar.duel.a word cs) at solving))
      (λ _.
        if_cases (λ (r : Arena × Option Ending). r.1 ≡ some e → Explains first (solves cs) r.0 e)
          (out (guessed ar.duel.a row) && out ar.duel.b)
          (λ both ended. inr (cc, ground arith, ground arith)) (λ _ ended. cc))
take_guess-Explains now second word cs ar e =
    let row = scored_row ar.duel.b word cs in
    if_cases (λ (r : Arena × Option Ending). r.1 ≡ some e → Explains second (solves cs) r.0 e)
      (solves row.colors)
      (λ solving ended. inl (cc, rw (scored_row-colors ar.duel.b word cs) at solving))
      (λ _.
        if_cases (λ (r : Arena × Option Ending). r.1 ≡ some e → Explains second (solves cs) r.0 e)
          (out (guessed ar.duel.b row) && out ar.duel.a)
          (λ both ended. inr (cc, ground arith, ground arith)) (λ _ ended. cc))

solves_iff :
    (n : ℕ) (t w : Text)
    → 0 < n
    → length t ≡ n
    → length w ≡ n
    → (solves (colors_for t w) ≡ true) ↔ (t ≡ w)
unfolding solves
solves_iff n t w some_letter t_len w_len =
    let same : length t ≡ length w = omega arith in
    let colored = length-colors_for t w same in
    let green = all_green-colors_for t w same in
    let full : is_empty (colors_for t w) ≡ false = nonempty (colors_for t w) (omega arith) in
    (λ h. green.0 (ground arith), λ h. ground (arith, green.1 h))
  where
    nonempty : (cs : List Color) → 0 < length cs → is_empty cs ≡ false
    nonempty [] h = absurd (omega arith)
    nonempty (c ∷ cs) h = refl

-- A scored guess of the duel's puzzle has the colors of the upper-case guess, Cheat or not.
scored_colors :
    (words : Words) (cheat : Bool) (text word : Text) (cs : List Color)
    → (if cheat
        then (duel_puzzle words []).score_any text word
        else (duel_puzzle words []).score text word)
      ≡ some cs
    → cs ≡ colors_for (to_upper text) word
unfolding duel_puzzle
scored_colors words true text word cs h = (score_any-some text word h).0
scored_colors words false text word cs h = (score-some (is_guessable words) text word h).0

scored_word :
    (words : Words) (cheat : Bool) (text word : Text)
    → to_upper text ≡ word
    → is_letters word ≡ true
    → is_guessable words word ≡ true
    → (if cheat
        then (duel_puzzle words []).score_any text word
        else (duel_puzzle words []).score text word)
      ≡ some (colors_for word word)
unfolding duel_puzzle score score_any
scored_word words true text word same letters listed = ground (arith, same)
scored_word words false text word same letters listed = ground (arith, same)

take_guess-wins :
    (now : ℕ) (seat : Seat) (word : Text) (cs : List Color) (ar : Arena)
    → solves cs ≡ true
    → (take_guess now seat word cs ar).1 ≡ some (won seat)
unfolding take_guess guessed
take_guess-wins now seat word cs ar h =
    let me = side seat ar in
    let solving : solves (scored_row me word cs).colors ≡ true =
      rw (scored_row-colors me word cs) h in
    rw solving refl

-- In a valid duel over words of at least one letter: if a guess ends the duel, either the guess is
-- the guesser's word and the guesser wins, or nobody wins and both players are out of guesses. (The
-- word lists have letters only and a solution.)
pub guess-ends :
    (n : ℕ) (words : Words) (now : ℕ) (seat : Seat) (text : Text) (ar : Arena) (e : Ending)
    → 0 < n
    → HasWords n words
    → IsValid n ar
    → let r = guess (duel_puzzle words []) now seat text ar in
      r.1 ≡ some e
      → ((e ≡ won seat) × (to_upper text ≡ (side seat ar).word))
        ⊎ ((e ≡ drawn) × (out (side seat r.0) ≡ true) × (out (side (other_seat seat) r.0) ≡ true))
unfolding guess
guess-ends n words now seat text ar e some_letter has v =
    let me = side seat ar in
    let puzzle = duel_puzzle words [] in
    let Ends = λ (r : Arena × Option Ending).
      r.1 ≡ some e
      → ((e ≡ won seat) × (to_upper text ≡ me.word))
        ⊎ ((e ≡ drawn)
            × (out (side seat r.0) ≡ true)
            × (out (side (other_seat seat) r.0) ≡ true)) in
    if_keeps Ends (done me) (λ h. cc)
      (if_keeps Ends (blocked now me) (λ h. cc)
        (elim (Option-cases
          (if me.cheat then puzzle.score_any text me.word else puzzle.score text me.word)) [
            | inl unscored ↦ rw (unscored, guess) (λ h. cc)
            | inr (cs, scored) ↦
                let law = duel_puzzle-IsLawful n words has in
                let (fits, letters, full) = scored_lengths n puzzle text ar seat cs law v scored in
                let word_full = (at_seat n seat ar v).0.0.word_length in
                let same = scored_colors words me.cheat text me.word cs scored in
                rw (scored, guess)
                  (λ ended. elim (take_guess-Explains now seat (to_upper text) cs ar e ended) [
                    | inl (by_word, solving) ↦ inl (
                      by_word,
                      (solves_iff n (to_upper text) me.word some_letter full word_full).0
                          (rw same at solving),
                    )
                    | inr draw ↦ inr draw
                  ])
          ]))

-- In a valid duel over words of at least one letter, a player who still has a guess, has not solved
-- the word and is not blocked wins the duel by guessing the word, if it is on the word list.
pub guess-wins :
    (n : ℕ) (words : Words) (now : ℕ) (seat : Seat) (text : Text) (ar : Arena)
    → 0 < n
    → IsValid n ar
    → done (side seat ar) ≡ false
    → blocked now (side seat ar) ≡ false
    → to_upper text ≡ (side seat ar).word
    → is_guessable words (side seat ar).word ≡ true
    → (guess (duel_puzzle words []) now seat text ar).1 ≡ some (won seat)
unfolding guess
guess-wins n words now seat text ar some_letter v undone free same listed =
    let me = side seat ar in
    let board = (at_seat n seat ar v).0.0 in
    let puzzle = duel_puzzle words [] in
    let scored : (if me.cheat then puzzle.score_any text me.word else puzzle.score text me.word)
        ≡ some (colors_for me.word me.word) =
      scored_word words me.cheat text me.word same board.letters listed in
    rw (undone, free, scored, guess)
      (take_guess-wins now seat (to_upper text) (colors_for me.word me.word) ar
        ((solves_iff n me.word me.word some_letter board.word_length board.word_length).1 refl))
