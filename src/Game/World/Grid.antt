-- ===== src/Game/World/Grid.antt =====
-- The uniform grid that finds the entities near a point (internal/game/grid.go). An entity stands in
-- its cell by its id. Coordinates are int32 in the source; those of the grid stay far from its ends.
pub mod Cells
pub mod Near
use nytrpg.Prelude.{
  Bool, List, [], false, if◌then◌else◌, is_empty, keep, neg, neg_part, negsuc, not, pos, pos_part,
  suc, ℕ, ℤ, ◌%◌, ◌&&◌, ◌++◌, ◌+ℤ◌, ◌+◌, ◌-ℤ◌, ◌/◌, ◌==◌, ◌||◌, ◌∷◌,
}

-- protocol.Vec
pub record Vec : Type 0 where
  pub x : ℤ
  pub y : ℤ

pub record CellKey : Type 0 where
  pub x : ℤ
  pub y : ℤ

abbrev pub cell_size : ℕ
cell_size = 1024

abbrev pub eq_ℤ : ℤ → ℤ → Bool
eq_ℤ a b = pos_part a + neg_part b == pos_part b + neg_part a

abbrev pub key_eq : CellKey → CellKey → Bool
key_eq c d = eq_ℤ c.x d.x && eq_ℤ c.y d.y

-- Go's quotient and remainder, which go towards 0, and the step down where they left one.
unfoldable pub floor_div : ℤ → ℕ → ℤ
floor_div (pos n) b = pos (n / b)
floor_div (negsuc n) b = let q = neg (pos (suc n / b)) in if suc n % b == 0 then q else q -ℤ pos 1

unfoldable pub cell_of : Vec → CellKey
unfolding floor_div
cell_of p = record { x = floor_div p.x cell_size; y = floor_div p.y cell_size }

-- `map[cellKey]map[EntityID]*Entity`
abbrev pub Cells : Type 0
Cells = List (CellKey × List ℕ)

abbrev pub has : ℕ → List ℕ → Bool
has id [] = false
has id (j ∷ ids) = j == id || has id ids

-- `g.cells[key]`, empty if there is none.
unfoldable pub cell_at : CellKey → Cells → List ℕ
cell_at key [] = []
cell_at key ((k, ids) ∷ cells) = if key_eq k key then ids else cell_at key cells

abbrev add_id : ℕ → List ℕ → List ℕ
add_id id ids = if has id ids then ids else ids ++ id ∷ []

-- `grid.insert`, once the entity's cell is set.
unfoldable pub grid_insert : ℕ → CellKey → Cells → Cells
grid_insert id key [] = (key, id ∷ []) ∷ []
grid_insert id key ((k, ids) ∷ cells) =
    let rest = grid_insert id key cells in
    if key_eq k key then (k, add_id id ids) ∷ cells else (k, ids) ∷ rest

abbrev pub drop_id : ℕ → List ℕ → List ℕ
drop_id id ids = keep (λ j. not (j == id)) ids

-- `delete(g.cells, key)`
unfoldable pub drop_cell : CellKey → Cells → Cells
drop_cell key [] = []
drop_cell key ((k, ids) ∷ cells) =
    let rest = drop_cell key cells in if key_eq k key then rest else (k, ids) ∷ rest

-- `grid.remove`: an empty cell goes.
unfoldable pub grid_remove : ℕ → CellKey → Cells → Cells
unfolding drop_cell
grid_remove id key [] = []
grid_remove id key ((k, ids) ∷ cells) =
    let rest = grid_remove id key cells in
    let left = drop_id id ids in
    if not (key_eq k key)
    then (k, ids) ∷ rest
    else if is_empty left
    then drop_cell key cells
    else (k, left) ∷ cells

-- The nine keys around a cell, as the two loops of `near` go through them.
unfoldable pub near_keys : CellKey → List CellKey
near_keys c =
    let column = λ (dx : ℤ) (rest : List CellKey).
      record { x = c.x +ℤ dx; y = c.y +ℤ negsuc 0 }
      ∷ record { x = c.x +ℤ dx; y = c.y +ℤ pos 0 }
      ∷ record { x = c.x +ℤ dx; y = c.y +ℤ pos 1 }
      ∷ rest in
    column (negsuc 0) (column (pos 0) (column (pos 1) []))

unfoldable pub ids_in : List CellKey → Cells → List ℕ
unfolding cell_at
ids_in [] cells = []
ids_in (key ∷ keys) cells = cell_at key cells ++ ids_in keys cells

-- The entities that `near` calls its function for.
unfoldable pub near : Vec → Cells → List ℕ
unfolding cell_of near_keys ids_in
near p cells = ids_in (near_keys (cell_of p)) cells
