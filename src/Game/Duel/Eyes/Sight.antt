-- ===== src/Game/Duel/Eyes/Sight.antt =====
-- What eyes look at (internal/game/abilities.go: aimEye).
use nytrpg.Prelude.{
  All, All-append, All-get_or, All-keep_test, All-mono, Bool, List, Option, Rng, [], arith, false,
  get_elem?, if◌then◌else◌, intn, intn-lt, length, none, not, refl, some, suc, true, ℕ, ◌&&◌, ◌++◌,
  ◌-◌, ◌||◌, ◌∷◌, ◌≡◌, ◌≤◌, ◌⊎◌,
}
use nytrpg.Game.Duel.Eyes.{aim_eye, aim_where, board_row, board_rows, options, pick, watching}
use nytrpg.Game.Message.{Tile}
use nytrpg.Game.Side.{Eye, GuessRow, Side}
use nytrpg.Game.Side.State.{destroyed_at, is_destroyed}
use nytrpg.Wordle.Score.{Color, is_green}

-- The color at a place of a board.
unfoldable pub color_in : List GuessRow → ℕ → ℕ → Option Color
color_in gs r c = elim (get_elem? gs r) [ none ↦ none | some g ↦ get_elem? g.colors c ]

-- An eye may see a tile: the board has it, it is not green, and it is not destroyed.
unfoldable pub sees : List GuessRow → List Tile → Tile → Bool
sees gs ds t =
    elim (color_in gs t.row t.col) [ none ↦ false | some c ↦ not (is_green c) ]
    && not (is_destroyed ds t)

-- An eye that is on looks at a letter that it may see.
abbrev pub LooksRight : List GuessRow → List Tile → Eye → Type 0
LooksRight gs ds e = e.on ≡ true → sees gs ds e.at ≡ true

abbrev pub AllLookRight : List Eye → Side → Type 0
AllLookRight es target = All (LooksRight target.guesses target.destroyed) es

abbrev InRow : ℕ → ℕ → List Color → Tile × Color → Type 0
InRow r c xs p = (p.0.row ≡ r) × (c ≤ p.0.col) × (get_elem? xs (p.0.col - c) ≡ some p.1)

abbrev InRows : ℕ → List GuessRow → Tile × Color → Type 0
InRows r gs p = (r ≤ p.0.row) × (color_in gs (p.0.row - r) p.0.col ≡ some p.1)

InRow-cons :
    (r c : ℕ) (x : Color) (xs : List Color) (p : Tile × Color)
    → InRow r (suc c) xs p
    → InRow r c (x ∷ xs) p
InRow-cons r c x xs p h =
    let e : p.0.col - c ≡ suc (p.0.col - suc c) = omega arith in (h.0, omega arith, rw e h.2)

board_row-InRow : (r c : ℕ) (xs : List Color) → All (InRow r c xs) (board_row r c xs)
unfolding board_row
board_row-InRow r c [] = tt
board_row-InRow r c (x ∷ xs) =
    let e : c - c ≡ 0 = omega arith in
    (
      (refl, omega arith, rw e refl),
      All-mono (InRow r (suc c) xs) (InRow r c (x ∷ xs)) (board_row r (suc c) xs)
          (InRow-cons r c x xs) (board_row-InRow r (suc c) xs),
    )

InRows-head :
    (r : ℕ) (g : GuessRow) (gs : List GuessRow) (p : Tile × Color)
    → InRow r 0 g.colors p
    → InRows r (g ∷ gs) p
unfolding color_in
InRows-head r g gs p h =
    let e : p.0.row - r ≡ 0 = omega arith in
    let f : p.0.col - 0 ≡ p.0.col = omega arith in (omega arith, rw e (rw f at (h.2)))

InRows-tail :
    (r : ℕ) (g : GuessRow) (gs : List GuessRow) (p : Tile × Color)
    → InRows (suc r) gs p
    → InRows r (g ∷ gs) p
unfolding color_in
InRows-tail r g gs p h =
    let e : p.0.row - r ≡ suc (p.0.row - suc r) = omega arith in (omega arith, rw e h.1)

board_rows-InRows : (r : ℕ) (gs : List GuessRow) → All (InRows r gs) (board_rows r gs)
unfolding board_rows
board_rows-InRows r [] = tt
board_rows-InRows r (g ∷ gs) =
    All-append (InRows r (g ∷ gs)) (board_row r 0 g.colors) (board_rows (suc r) gs)
      (All-mono (InRow r 0 g.colors) (InRows r (g ∷ gs)) (board_row r 0 g.colors)
        (InRows-head r g gs) (board_row-InRow r 0 g.colors))
      (All-mono (InRows (suc r) gs) (InRows r (g ∷ gs)) (board_rows (suc r) gs) (InRows-tail r g gs)
        (board_rows-InRows (suc r) gs))

abbrev free_tile : List Eye → Side → Tile × Color → Bool
free_tile others target = λ (t, c). not (is_green c || destroyed_at target t || watching others t)

-- An eye may see each of its options, and no other eye watches it.
abbrev pub IsOption : List Eye → Side → Tile × Color → Type 0
IsOption others target p =
    (sees target.guesses target.destroyed p.0 ≡ true) × (watching others p.0 ≡ false)

IsOption-of_free :
    (others : List Eye) (target : Side) (p : Tile × Color)
    → InRows 0 target.guesses p × (free_tile others target p ≡ true)
    → IsOption others target p
unfolding sees destroyed_at
IsOption-of_free others target p h =
    let e : p.0.row - 0 ≡ p.0.row = omega arith in
    let k : color_in target.guesses p.0.row p.0.col ≡ some p.1 = rw e at (h.0.1) in
    (rw k (ground arith), ground arith)

options-IsOption :
    (others : List Eye) (target : Side) → All (IsOption others target) (options others target)
unfolding options
options-IsOption others target =
    All-mono (λ p. InRows 0 target.guesses p × (free_tile others target p ≡ true))
      (IsOption others target) (options others target) (IsOption-of_free others target)
      (All-keep_test (InRows 0 target.guesses) (free_tile others target)
        (board_rows 0 target.guesses) (board_rows-InRows 0 target.guesses))

-- An eye that is pointed at one of some tiles has what all of them have.
pick-All {ℓ} :
    (P : Tile × Color → Type ℓ) (Q : Tile → Type ℓ)
    → ((p : Tile × Color) → P p → Q p.0)
    → (now : ℕ) (e : Eye) (tiles : List (Tile × Color)) (r : Rng) → All P tiles
    → (pick now e tiles r).0.on ≡ true
    → Q (pick now e tiles r).0.at
unfolding pick
pick-All P Q f now e [] r h on = cc
pick-All P Q f now e (t ∷ tiles) r h on =
    f _ (All-get_or P (t ∷ tiles) (intn (length (t ∷ tiles)) r).0 t (intn-lt _ r (omega arith)) h)

abbrev IsFree : List Eye → Side → Tile → Type 0
IsFree others target t =
    (sees target.guesses target.destroyed t ≡ true) × (watching others t ≡ false)

-- An eye that is aimed looks at a letter that it may see and that no other eye watches, or is off.
pub aim_eye-IsFree :
    (now : ℕ) (others : List Eye) (target : Side) (e : Eye) (r : Rng)
    → let e' = (aim_eye now others target e r).0 in e'.on ≡ true → IsFree others target e'.at
unfolding aim_eye
aim_eye-IsFree now others target e r =
    pick-All (IsOption others target) (IsFree others target) (λ p h. h) now e
      (options others target) r (options-IsOption others target)

-- Aiming the eyes that look wrong makes all look right.
pub aim_where-LooksRight :
    (now : ℕ) (selected : Eye → Bool) (target : Side) (before es : List Eye) (r : Rng)
    → AllLookRight before target
    → All (λ e. (selected e ≡ true) ⊎ LooksRight target.guesses target.destroyed e) es
    → AllLookRight (aim_where now selected target before es r).0 target
unfolding aim_where
aim_where-LooksRight now selected target before [] r b h = b
aim_where-LooksRight now selected target before (e ∷ es) r b h =
    aim_where-LooksRight now selected target (before ++ e' ∷ []) es r'
      (All-append (LooksRight target.guesses target.destroyed) before (e' ∷ []) b (right, tt)) h.1
  where
    aimed : Eye × Rng
    aimed = aim_eye now (before ++ es) target e r

    e' : Eye
    e' = (if selected e then aimed else (e, r)).0

    r' : Rng
    r' = (if selected e then aimed else (e, r)).1

    right : LooksRight target.guesses target.destroyed e'
    right on = ground (arith, h.0, aim_eye-IsFree now (before ++ es) target e r)
