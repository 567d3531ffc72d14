-- ===== src/Game/Duel/Invariant/Clerics.antt =====
-- The Cleric's abilities keep a duel valid (internal/game/cleric.go).
use mathlib.Core.Option
use nytrpg.Prelude.{
  All, All-mono, List, Option, [], ap, arith, is_some, length, none, refl, some, suc, true, ℕ, ◌∷◌,
  ◌≡◌,
}
use nytrpg.Game.Duel.{DuelPuzzle}
use nytrpg.Game.Duel.Cleric.{rescore, rescore_rows}
use nytrpg.Game.Duel.Invariant.{IsLawful}
use nytrpg.Game.Duel.Invariant.Eyes.{AllInRange, InRange, color_in-bounds, color_in-some}
use nytrpg.Game.Message.{Tile}
use nytrpg.Game.Side.{Eye, GuessRow, Side}
use nytrpg.Game.Side.Invariant.{
  InBoard, IsValidRow, IsValidSide, IsValidWord, relearn-IsValidSide, relearn-board,
}
use nytrpg.Text.{Text}
use nytrpg.Wordle.Score.{Color}

module _ (n : ℕ) where
  -- Guesses that are scored again keep their places.
  some-length :
      (o : Option (List Color))
      → is_some o ≡ true
      → ((cs : List Color) → o ≡ some cs → length cs ≡ n)
      → length (Option.get_or o []) ≡ n
  some-length none h k = cc
  some-length (some cs) h k = k cs refl

  rescored_length :
      (puzzle : DuelPuzzle) (word : Text) (g : GuessRow)
      → IsLawful n puzzle
      → IsValidWord n word
      → IsValidRow n g
      → length (Option.get_or (puzzle.score_any g.word word) []) ≡ n
  rescored_length puzzle word g law w h =
      some-length (puzzle.score_any g.word word)
        (law.score_any_total g.word word h.letters h.word_length w.0 w.1)
        (λ cs e. (law.score_any_lengths g.word word cs w.0 w.1 e).0)

  rescore_rows-fit :
      (puzzle : DuelPuzzle) (word : Text) (gs : List GuessRow)
      → IsLawful n puzzle
      → IsValidWord n word
      → All (IsValidRow n) gs
      → All (IsValidRow n) (rescore_rows puzzle word gs)
        × (length (rescore_rows puzzle word gs) ≡ length gs)
  unfolding rescore_rows
  rescore_rows-fit puzzle word [] law w h = (tt, refl)
  rescore_rows-fit puzzle word (g ∷ gs) law w h =
      let ih = rescore_rows-fit puzzle word gs law w h.1 in
      let fits = rescored_length puzzle word g law w h.0 in
      (
        (
          record {
            letters = h.0.letters;
            word_length = h.0.word_length;
            colors_length = fits;
            seen_length = fits;
            shown_length = fits;
          },
          ih.0,
        ),
        ap suc ih.1,
      )

  InBoard-length :
      (gs hs : List GuessRow) (ts : List Tile)
      → length hs ≡ length gs
      → All (InBoard n gs) ts
      → All (InBoard n hs) ts
  InBoard-length gs hs ts e h =
      All-mono (InBoard n gs) (InBoard n hs) ts (λ t k. (omega arith, k.1)) h

  pub rescore-IsValidSide :
      (puzzle : DuelPuzzle) (word : Text) (s : Side)
      → IsLawful n puzzle
      → IsValidWord n word
      → IsValidSide n s
      → IsValidSide n (rescore puzzle word s)
  unfolding rescore
  rescore-IsValidSide puzzle word s law w (board, found, tricks, trapped) =
      let rows = rescore_rows puzzle word s.guesses in
      let fit = rescore_rows-fit puzzle word s.guesses law w board.guesses_fit in
      relearn-IsValidSide n (record s { word = word; guesses = rows })
        (
          record {
            letters = w.0;
            word_length = w.1;
            rows_fit = let old = board.rows_fit in let e = fit.1 in omega arith;
            guesses_fit = fit.0;
            destroyed_fits = InBoard-length s.guesses rows s.destroyed fit.1 board.destroyed_fits;
          },
          found,
          tricks,
          trapped,
        )

  -- A board of the same shape keeps the eyes in range.
  InRange-shape :
      (gs hs : List GuessRow) (es : List Eye)
      → All (IsValidRow n) gs
      → All (IsValidRow n) hs
      → length hs ≡ length gs
      → All (InRange gs) es
      → All (InRange hs) es
  InRange-shape gs hs es h k e = All-mono (InRange gs) (InRange hs) es λ eye range on.
      let bounds = color_in-bounds n gs eye.at.row eye.at.col h (range on) in
      color_in-some n hs eye.at.row eye.at.col k (omega arith) bounds.1

  pub rescore-InRange :
      (puzzle : DuelPuzzle) (word : Text) (s : Side) (es : List Eye)
      → IsLawful n puzzle
      → IsValidWord n word
      → IsValidSide n s
      → AllInRange es s
      → AllInRange es (rescore puzzle word s)
  unfolding rescore
  rescore-InRange puzzle word s es law w v h =
      let rows = rescore_rows puzzle word s.guesses in
      let board = v.0.guesses_fit in
      let fit = rescore_rows-fit puzzle word s.guesses law w board in
      rw (relearn-board (record s { word = word; guesses = rows })).0
        (InRange-shape s.guesses rows es board fit.0 fit.1 h)
