-- ===== src/Game/World/Grid/Cells.antt =====
-- The grid's cells after an entity is put in or taken out (internal/game/grid.go).
use nytrpg.Prelude.{
  Bool, Bool-cases, List, [], ap, arith, false, if◌then◌else◌, inl, inr, is_empty, not, refl, true,
  ℕ, ◌&&◌, ◌++◌, ◌==◌, ◌||◌, ◌∙◌, ◌∷◌, ◌≡◌,
}
use nytrpg.Game.Duel.Invariant.{if_cases, if_keeps}
use nytrpg.Game.World.Grid.{
  CellKey, Cells, add_id, cell_at, drop_cell, drop_id, grid_insert, grid_remove, has, key_eq,
}

pub has-append : (id : ℕ) (xs ys : List ℕ) → has id (xs ++ ys) ≡ (has id xs || has id ys)
has-append id [] ys = refl
has-append id (x ∷ xs) ys = ground (arith, has-append id xs ys)

pub has-add_id : (id j : ℕ) (ids : List ℕ) → has j (add_id id ids) ≡ (id == j || has j ids)
has-add_id id j ids = elim (Bool-cases (has id ids)) [
  | inl within ↦ rw (within, if◌then◌else◌) (has_twice id j ids within)
  | inr fresh ↦ rw (fresh, if◌then◌else◌, has-append j ids (id ∷ [])) (ground arith)
]
  where
    has_twice : (id j : ℕ) (ids : List ℕ) → has id ids ≡ true → has j ids ≡ (id == j || has j ids)
    has_twice id j [] h = cc
    has_twice id j (x ∷ xs) h = ground (arith, has_twice id j xs)

pub has-drop_id : (id j : ℕ) (ids : List ℕ) → has j (drop_id id ids) ≡ (not (id == j) && has j ids)
has-drop_id id j [] = ground arith
has-drop_id id j (x ∷ xs) = ground (arith, has-drop_id id j xs)

key_eq_trans : (k l m : CellKey) → key_eq k l ≡ true → key_eq k m ≡ key_eq l m
key_eq_trans k l m h = ground arith

key_eq_sym : (k l : CellKey) → key_eq k l ≡ key_eq l k
key_eq_sym k l = ground arith

-- A cell after a change of the first one, by whether it is the cell that changes and the cell that is
-- looked at.
at_first :
    (k key m : CellKey) (ids : List ℕ) (cells : Cells)
    → cell_at m ((k, ids) ∷ cells) ≡ (if key_eq k m then ids else cell_at m cells)
unfolding cell_at
at_first k key m ids cells = refl

first_insert :
    (id j : ℕ) (ids : List ℕ) (b : Bool) (xs : List ℕ)
    → has j (if b then add_id id ids else xs) ≡ ((b && id == j) || has j (if b then ids else xs))
first_insert id j ids true xs = has-add_id id j ids
first_insert id j ids false xs = refl

first_remove :
    (id j : ℕ) (ids : List ℕ) (b : Bool) (xs : List ℕ)
    → has j (if b then drop_id id ids else xs)
      ≡ (not (b && id == j) && has j (if b then ids else xs))
first_remove id j ids true xs = has-drop_id id j ids
first_remove id j ids false xs = refl

other_key : (key k m : CellKey) → key_eq k m ≡ true → key_eq k key ≡ false → key_eq key m ≡ false
other_key key k m h g = ground arith

cell_at-drop_cell :
    (key m : CellKey) (cells : Cells)
    → cell_at m (drop_cell key cells) ≡ (if key_eq key m then [] else cell_at m cells)
unfolding cell_at drop_cell
cell_at-drop_cell key m [] = if_keeps (λ (xs : List ℕ). [] ≡ xs) (key_eq key m) refl refl
cell_at-drop_cell key m ((k, ids) ∷ cells) = elim (Bool-cases (key_eq k key)) [
  | inl same ↦
      rw (same, if◌then◌else◌, key_eq_trans k key m same)
        (cell_at-drop_cell key m cells ∙ if_same (key_eq key m) [] ids (cell_at m cells))
  | inr differ ↦
      rw (differ, if◌then◌else◌)
        (elim (Bool-cases (key_eq k m)) [
          | inl at_m ↦ rw (at_m, if◌then◌else◌, other_key key k m at_m differ) refl
          | inr past ↦ rw (past, if◌then◌else◌) (cell_at-drop_cell key m cells)
        ])
]
  where
    if_same :
        (b : Bool) (x y z : List ℕ) → (if b then x else z) ≡ (if b then x else (if b then y else z))
    if_same true x y z = refl
    if_same false x y z = refl

-- Who stands in a cell after an insert.
pub has-cell_at-grid_insert :
    (id j : ℕ) (key m : CellKey) (cells : Cells)
    → has j (cell_at m (grid_insert id key cells))
      ≡ ((key_eq key m && id == j) || has j (cell_at m cells))
unfolding cell_at grid_insert
has-cell_at-grid_insert id j key m [] = elim (Bool-cases (key_eq key m)) [
  | inl same ↦ rw same (ground arith)
  | inr differ ↦ rw differ refl
]
has-cell_at-grid_insert id j key m ((k, ids) ∷ cells) = elim (Bool-cases (key_eq k key)) [
  | inl same ↦
      rw (same, if◌then◌else◌, key_eq_trans k key m same)
        (first_insert id j ids (key_eq key m) (cell_at m cells))
  | inr differ ↦
      rw (differ, if◌then◌else◌)
        (elim (Bool-cases (key_eq k m)) [
          | inl at_m ↦ rw (at_m, if◌then◌else◌, other_key key k m at_m differ) refl
          | inr past ↦ rw (past, if◌then◌else◌) (has-cell_at-grid_insert id j key m cells)
        ])
]

-- Who stands in a cell after a removal.
pub has-cell_at-grid_remove :
    (id j : ℕ) (key m : CellKey) (cells : Cells)
    → has j (cell_at m (grid_remove id key cells))
      ≡ (not (key_eq key m && id == j) && has j (cell_at m cells))
unfolding cell_at grid_remove
has-cell_at-grid_remove id j key m [] = ground arith
has-cell_at-grid_remove id j key m ((k, ids) ∷ cells) = elim (Bool-cases (key_eq k key)) [
  | inl same ↦
      let emptied = is_empty (drop_id id ids) in
      rw (same, if◌then◌else◌, key_eq_trans k key m same)
        (if_cases
          (λ (c : Cells). has j (cell_at m c) ≡ (
            not (key_eq key m && id == j) && has j (if key_eq key m then ids else cell_at m cells)))
          emptied
          (λ gone.
            ap (has j) (
              cell_at-drop_cell key m cells
              ∙ empty_first (key_eq key m) (drop_id id ids) (cell_at m cells) gone)
            ∙ first_remove id j ids (key_eq key m) (cell_at m cells))
          (λ _.
            ap (λ b. has j (if b then drop_id id ids else cell_at m cells))
              (key_eq_trans k key m same)
            ∙ first_remove id j ids (key_eq key m) (cell_at m cells)))
  | inr differ ↦
      rw (differ, if◌then◌else◌)
        (elim (Bool-cases (key_eq k m)) [
          | inl at_m ↦ rw (at_m, if◌then◌else◌, other_key key k m at_m differ) refl
          | inr past ↦ rw (past, if◌then◌else◌) (has-cell_at-grid_remove id j key m cells)
        ])
]
  where
    empty_first :
        (b : Bool) (xs ys : List ℕ)
        → is_empty xs ≡ true
        → (if b then [] else ys) ≡ (if b then xs else ys)
    empty_first true [] ys h = refl
    empty_first true (x ∷ xs) ys h = cc
    empty_first false xs ys h = refl
