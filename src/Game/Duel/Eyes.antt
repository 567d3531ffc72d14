-- ===== src/Game/Duel/Eyes.antt =====
-- Seeing Eyes (internal/game/abilities.go: aimEye, watching, reaimEyes, sendEyes).
pub mod Sight
use mathlib.Core.Option
use nytrpg.Prelude.{
  Bool, List, Option, Rng, [], any, false, get_elem?, get_or, if◌then◌else◌, intn, keep, length,
  none, not, some, suc, true, ℕ, ◌&&◌, ◌++◌, ◌+◌, ◌||◌, ◌∷◌,
}
use nytrpg.Game.Duel.{Arena, Seat, other_seat, put, side, tell, with_rng}
use nytrpg.Game.Message.{Tile, duel_eyes, tile_eq}
use nytrpg.Game.Side.{Eye, GuessRow, Side, set_effects}
use nytrpg.Game.Side.State.{destroyed_at}
use nytrpg.Wordle.Score.{Color, is_green}

abbrev pub eye_interval : ℕ
eye_interval = 30_000_000_000

-- The letters of a board with their colors, by row and column.
board_row : ℕ → ℕ → List Color → List (Tile × Color)
board_row r c [] = []
board_row r c (x ∷ xs) = (record { row = r; col = c }, x) ∷ board_row r (suc c) xs

board_rows : ℕ → List GuessRow → List (Tile × Color)
unfolding board_row
board_rows r [] = []
board_rows r (g ∷ gs) = board_row r 0 g.colors ++ board_rows (suc r) gs

-- Whether one of the eyes watches a tile. The callers leave out the eye that is aimed.
unfoldable pub watching : List Eye → Tile → Bool
watching [] t = false
watching (e ∷ es) t = (e.on && tile_eq e.at t) || watching es t

unfoldable pub options : List Eye → Side → List (Tile × Color)
unfolding board_rows watching
options others target =
    keep (λ (t, c). not (is_green c || destroyed_at target t || watching others t))
      (board_rows 0 target.guesses)

-- Points an eye at one of the tiles, at random, or off where there is none.
unfoldable pub pick : ℕ → Eye → List (Tile × Color) → Rng → Eye × Rng
pick now e [] r = (record e { on = false; next = now + eye_interval }, r)
pick now e (t ∷ tiles) r =
    let (i, r') = intn (length (t ∷ tiles)) r in
    (record { at = (get_or (t ∷ tiles) i t).0; on = true; next = now + eye_interval }, r')

-- `others`: the watcher's eyes but this one.
unfoldable pub aim_eye : ℕ → List Eye → Side → Eye → Rng → Eye × Rng
unfolding options pick
aim_eye now others target e r = pick now e (options others target) r

-- Aims the eyes that a test selects, in order: each sees where those before it look now, and where
-- those after it looked before. The eyes, and the random numbers left.
unfoldable pub aim_where : ℕ → (Eye → Bool) → Side → List Eye → List Eye → Rng → List Eye × Rng
unfolding aim_eye
aim_where now selected target before [] r = (before, r)
aim_where now selected target before (e ∷ es) r =
    let aimed = aim_eye now (before ++ es) target e r in
    let (e', r') = if selected e then aimed else (e, r) in
    aim_where now selected target (before ++ e' ∷ []) es r'

-- The color and the letter at a tile. (Out of range the source panics.)
unfoldable pub color_at : Side → Tile → Option Color
color_at s t = elim (get_elem? s.guesses t.row) [ none ↦ none | some g ↦ get_elem? g.colors t.col ]

unfoldable pub letter_at : Side → Tile → Option ℕ
letter_at s t = elim (get_elem? s.guesses t.row) [ none ↦ none | some g ↦ get_elem? g.word t.col ]

seen_letters : Side → List Eye → List (Tile × ℕ)
unfolding letter_at
seen_letters target [] = []
seen_letters target (e ∷ es) =
    let rest = seen_letters target es in
    if e.on then (e.at, Option.get_or (letter_at target e.at) 0) ∷ rest else rest

unfoldable pub send_eyes : Seat → Arena → Arena
unfolding seen_letters
send_eyes watcher ar =
    tell watcher (duel_eyes (seen_letters (side (other_seat watcher) ar) (side watcher ar).eyes)) ar

abbrev pub is_green_at : Side → Tile → Bool
is_green_at target t = elim (color_at target t) [ none ↦ false | some c ↦ is_green c ]

-- Aims some of the seat's eyes at its opponent's board, and tells if one was selected.
unfoldable pub aim_eyes : ℕ → (Eye → Bool) → Seat → Arena → Arena
unfolding aim_where
aim_eyes now selected watcher ar =
    let me = side watcher ar in
    let (es, r) = aim_where now selected (side (other_seat watcher) ar) [] me.eyes ar.rng in
    with_rng r (put watcher (set_effects (λ e. record e { eyes = es }) me) ar)

-- Moves eyes whose letter turned green or was destroyed.
unfoldable pub reaim_eyes : ℕ → Seat → Arena → Arena
unfolding aim_eyes color_at send_eyes
reaim_eyes now watcher ar =
    let target = side (other_seat watcher) ar in
    let lost = λ (e : Eye). e.on && (is_green_at target e.at || destroyed_at target e.at) in
    if any lost (side watcher ar).eyes then send_eyes watcher (aim_eyes now lost watcher ar) else ar
