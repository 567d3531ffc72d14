-- ===== src/Game/Duel/Invariant/Guesses.antt =====
-- A guess keeps a duel valid (internal/game/duel.go, DuelGuess; internal/game/abilities.go,
-- afterGuess and IllusionGuess).
use mathlib.Core.Option
use nytrpg.Prelude.{
  All-append, All-mono, List, Option, [], ap, arith, false, is_empty, is_some, length,
  length-append, none, not, refl, some, suc, true, zero, ℕ, ◌&&◌, ◌++◌, ◌<◌, ◌==◌, ◌∙◌, ◌∷◌, ◌≡◌,
}
use nytrpg.Game.Duel.{Arena, Seat, cast_event, tell}
use nytrpg.Game.Duel.Eyes.Sight.{LooksRight, color_in, sees}
use nytrpg.Game.Duel.Guess.{fizzle, guessed, scored_row, unscramble}
use nytrpg.Game.Duel.Invariant.{IsValidPair, if_keeps}
use nytrpg.Game.Duel.Invariant.Eyes.{LooksRight-InRange}
use nytrpg.Game.Message.{Tile}
use nytrpg.Game.Side.{Effects, Eye, GuessRow, Side}
use nytrpg.Game.Side.Invariant.{Fits, InBoard, IsBoard, IsValidRow, IsValidSide, IsValidWord}
use nytrpg.Text.{Text}
use nytrpg.Wordle.Score.{Color, all_green}

-- A further guess hides no letter.
color_in-append :
    (gs hs : List GuessRow) (r c : ℕ)
    → is_some (color_in gs r c) ≡ true
    → color_in (gs ++ hs) r c ≡ color_in gs r c
unfolding color_in
color_in-append [] hs r c h = cc
color_in-append (g ∷ gs) hs zero c h = refl
color_in-append (g ∷ gs) hs (suc r) c h = color_in-append gs hs r c h

LooksRight-append :
    (gs hs : List GuessRow) (ds : List Tile) (e : Eye)
    → LooksRight gs ds e
    → LooksRight (gs ++ hs) ds e
unfolding sees
LooksRight-append gs hs ds e h on =
    rw (color_in-append gs hs e.at.row e.at.col (LooksRight-InRange gs ds e h on)) (h on)

unscramble-scramble :
    (e : Effects)
    → is_some e.keymap ≡ not (e.scrambled_guesses == 0)
    → is_some (unscramble e).keymap ≡ not ((unscramble e).scrambled_guesses == 0)
unfolding unscramble
unscramble-scramble e h = ground arith

-- The parts of a side that `unscramble` leaves alone.
unscramble_same :
    (e : Effects)
    → let f = unscramble e in
      (f.greens ≡ e.greens)
      × (f.found ≡ e.found)
      × (f.feint ≡ e.feint)
      × (f.false_next ≡ e.false_next)
      × (f.destroyed ≡ e.destroyed)
      × (f.illusion ≡ e.illusion)
      × (f.reshape ≡ e.reshape)
      × (f.eyes ≡ e.eyes)
unfolding unscramble
unscramble_same e = ground arith

pub fizzle-duel : (seat : Seat) (ms : List ℕ) (ar : Arena) → (fizzle seat ms ar).duel ≡ ar.duel
unfolding fizzle cast_event tell
fizzle-duel seat [] ar = refl
fizzle-duel seat (m ∷ ms) ar = fizzle-duel seat ms _

module _ (n : ℕ) where
  or_Fits :
      (o : Option (List Color)) (cs : List Color)
      → Fits n o
      → length cs ≡ n
      → length (Option.get_or o cs) ≡ n
  or_Fits none cs h k = k
  or_Fits (some ds) cs h k = h

  pub scored_row-IsValidRow :
      (me : Side) (word : Text) (cs : List Color)
      → IsValidSide n me
      → IsValidWord n word
      → length cs ≡ n
      → IsValidRow n (scored_row me word cs)
  unfolding scored_row
  scored_row-IsValidRow me word cs (board, found, tricks, trapped) w h =
      if_keeps (IsValidRow n) (all_green cs && not (is_empty cs))
        (record {
          letters = w.0;
          word_length = w.1;
          colors_length = h;
          seen_length = h;
          shown_length = h;
        })
        (record {
          letters = w.0;
          word_length = w.1;
          colors_length = h;
          seen_length = or_Fits me.false_next cs tricks.false_fits h;
          shown_length = or_Fits me.feint cs tricks.feint_fits h;
        })

  guessed-IsBoard :
      (me : Side) (row : GuessRow)
      → length me.guesses < me.rows
      → IsValidRow n row
      → IsBoard n me.word me.guesses me.rows me.destroyed
      → IsBoard n me.word (me.guesses ++ row ∷ []) me.rows me.destroyed
  guessed-IsBoard me row h k b =
      let len = length-append me.guesses (row ∷ []) in
      record {
        letters = b.letters;
        word_length = b.word_length;
        rows_fit = omega arith;
        guesses_fit = All-append (IsValidRow n) me.guesses (row ∷ []) b.guesses_fit (k, tt);
        destroyed_fits =
            All-mono (InBoard n me.guesses) (InBoard n (me.guesses ++ row ∷ [])) me.destroyed
              (λ t fits. (omega arith, fits.1)) b.destroyed_fits;
      }

  pub guessed-IsValidPair :
      (me them : Side) (row : GuessRow)
      → length me.guesses < me.rows
      → IsValidRow n row
      → IsValidPair n me them
      → IsValidPair n (guessed me row) them
  unfolding guessed
  guessed-IsValidPair me them row h k
        ((board, found, tricks, trapped), theirs, my_eyes, their_eyes) =
      let e = record (me.effects) { cheat = false; feint = none; false_next = none } in
      let same = unscramble_same e in
      let board' = guessed-IsBoard me row h k board in
      (
        (
          rw same.4 board',
          (ap length same.0 ∙ found.0, ap length same.1 ∙ found.1),
          record {
            feint_fits = rw same.2 tt;
            false_fits = rw same.3 tt;
            scramble = unscramble-scramble e tricks.scramble;
          },
          rw (same.5, same.6) trapped,
        ),
        theirs,
        rw same.7 my_eyes,
        rw same.4 (
            All-mono (LooksRight me.guesses me.destroyed)
              (LooksRight (me.guesses ++ row ∷ []) me.destroyed) them.eyes
              (LooksRight-append me.guesses (row ∷ []) me.destroyed) their_eyes),
      )
