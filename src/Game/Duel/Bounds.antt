-- ===== src/Game/Duel/Bounds.antt =====
-- What a duel reads of the boards is there, so that no index panics
-- (internal/game/abilities.go: sendEyes, reaimEyes).
use nytrpg.Prelude.{
  All, All-mono, Bool, List, Option, Rng, [], arith, false, get_elem?, is_some, is_some-get_elem?,
  none, some, suc, true, zero, ℕ, ◌∷◌, ◌≡◌,
}
use nytrpg.Game.Duel.{Arena, DuelPuzzle, Ending, Seat, other_seat, side}
use nytrpg.Game.Duel.Eyes.{color_at, is_green_at, letter_at}
use nytrpg.Game.Duel.Eyes.Sight.{LooksRight, color_in, sees}
use nytrpg.Game.Duel.Invariant.{IsLawful, at_seat}
use nytrpg.Game.Duel.Invariant.Eyes.{LooksRight-InRange}
use nytrpg.Game.Duel.Run.{Player, Reach, Reach-IsValid, start_duel, start_duel-IsValid}
use nytrpg.Game.Side.{Eye, GuessRow, Side}
use nytrpg.Game.Side.Invariant.{IsValidRow, IsValidSide}
use nytrpg.Game.Side.State.{is_destroyed}

-- The letter at a place of some guesses.
letter_in : List GuessRow → ℕ → ℕ → Option ℕ
letter_in gs r c = elim (get_elem? gs r) [ none ↦ none | some g ↦ get_elem? g.word c ]

-- Where there is a color there is a letter.
letter_in-some :
    (n : ℕ) (gs : List GuessRow) (r c : ℕ)
    → All (IsValidRow n) gs
    → is_some (color_in gs r c) ≡ true
    → is_some (letter_in gs r c) ≡ true
unfolding color_in letter_in
letter_in-some n [] r c rows h = cc
letter_in-some n (g ∷ gs) zero c rows h =
    let (row, rest) = rows in
    let within = (is_some-get_elem? g.colors c).0 h in
    (is_some-get_elem? g.word c).1 (omega (arith, within, row.word_length, row.colors_length))
letter_in-some n (g ∷ gs) (suc r) c rows h = letter_in-some n gs r c rows.1 h

-- The eye is off, or there is a letter where it looks, one that is not green.
abbrev pub IsReadable : Side → Eye → Type 0
IsReadable target e =
    e.on ≡ true
    → (is_some (letter_at target e.at) ≡ true)
      × (is_green_at target e.at ≡ false)
      × (is_destroyed target.destroyed e.at ≡ false)

LooksRight-IsReadable :
    (n : ℕ) (target : Side) (e : Eye)
    → IsValidSide n target
    → LooksRight target.guesses target.destroyed e
    → IsReadable target e
unfolding sees letter_at letter_in color_at color_in
LooksRight-IsReadable n target e (board, found, tricks, trapped) right on =
    let in_range = LooksRight-InRange target.guesses target.destroyed e right on in
    (
      letter_in-some n target.guesses e.at.row e.at.col board.guesses_fit in_range,
      ground (arith, right on),
      ground (arith, right on),
    )

-- In every duel that is reached from its start, with a puzzle that keeps its contract, each Seeing
-- Eye that is on looks at a letter of a guess that was made, and that letter is neither green nor
-- destroyed.
pub Reach-IsReadable :
    (n : ℕ) (puzzle : DuelPuzzle) (now id : ℕ) (p q : Player) (ranked oracle : Bool) (r : Rng)
    (seat : Seat) {ar : Arena} {end : Option Ending}
    → IsLawful n puzzle
    → Reach puzzle (start_duel puzzle now id p q ranked oracle r) ar end
    → All (IsReadable (side (other_seat seat) ar)) (side seat ar).eyes
Reach-IsReadable n puzzle now id p q ranked oracle r seat {ar} {end} law path =
    let start = start_duel puzzle now id p q ranked oracle r in
    let valid =
      Reach-IsValid n puzzle start law (start_duel-IsValid n puzzle now id p q ranked oracle r law)
        path in
    let (mine, theirs, my_eyes, their_eyes) = at_seat n seat ar valid in
    let target = side (other_seat seat) ar in
    All-mono (LooksRight target.guesses target.destroyed) (IsReadable target) (side seat ar).eyes
      (λ e right. LooksRight-IsReadable n target e theirs right) my_eyes
