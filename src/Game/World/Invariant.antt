-- ===== src/Game/World/Invariant.antt =====
-- The grid and the entities agree, under every change of either (internal/game: world.go, grid.go).
use nytrpg.Prelude.{
  ==_iff, Bool, Bool-cases, List, Option, ap, arith, delete, eq_of_parts, false, if◌then◌else◌, inl,
  inr, insert, lookup, lookup-delete, lookup-delete_cases, lookup-insert, lookup-insert_cases, none,
  not, refl, some, subst, sym, true, ℕ, ◌&&◌, ◌==◌, ◌||◌, ◌∙◌, ◌≡◌,
}
use nytrpg.Game.World.Grid.{CellKey, Cells, cell_at, cell_of, grid_insert, grid_remove, has, key_eq}
use nytrpg.Game.World.Grid.Cells.{has-cell_at-grid_insert, has-cell_at-grid_remove}
use nytrpg.Game.World.State.{Entity, grid_moved}

key_eq-eq : (k l : CellKey) → key_eq k l ≡ true → k ≡ l
key_eq-eq k l h = ground (arith, eq_of_parts k.x l.x, eq_of_parts k.y l.y)

-- Whether an entity, if there is one, stands in a cell.
abbrev pub stands : CellKey → Option Entity → Bool
stands key none = false
stands key (some e) = key_eq e.cell key

-- Each entity stands in the cell of its place, and in no other; the cells hold no one else.
pub record IsPlaced (entities : List (ℕ × Entity)) (cells : Cells) : Type 0 where
  pub grid_right :
      (id : ℕ) (key : CellKey) → has id (cell_at key cells) ≡ stands key (lookup id entities)
  pub cell_right : (id : ℕ) (e : Entity) → lookup id entities ≡ some e → e.cell ≡ cell_of e.at

stands_if :
    (b : Bool) (key : CellKey) (e : Entity) (o : Option Entity)
    → stands key (if b then some e else o) ≡ (if b then key_eq e.cell key else stands key o)
stands_if true key e o = refl
stands_if false key e o = refl

stands_unless :
    (b : Bool) (key : CellKey) (o : Option Entity)
    → stands key (if b then none else o) ≡ (if b then false else stands key o)
stands_unless true key o = refl
stands_unless false key o = refl

-- The cell of an entity `b` that has been put in, kept, taken out or moved: `old` tells whether it was
-- there before and `now` whether it should be.
after_insert :
    (b now old : Bool) → (b ≡ true → old ≡ false) → (now && b || old) ≡ (if b then now else old)
after_insert true now old h = ground (arith, h)
after_insert false now old h = ground arith

after_keep : (b now old : Bool) → (b ≡ true → old ≡ now) → old ≡ (if b then now else old)
after_keep true now old h = h refl
after_keep false now old h = refl

after_remove :
    (b was old : Bool)
    → (b ≡ true → old ≡ was)
    → (not (was && b) && old) ≡ (if b then false else old)
after_remove true was old h = ground (arith, h)
after_remove false was old h = ground arith

after_move :
    (b was now old : Bool)
    → (b ≡ true → old ≡ was)
    → (now && b || (not (was && b) && old)) ≡ (if b then now else old)
after_move true was now old h = ground (arith, h)
after_move false was now old h = ground arith

module _ (id : ℕ) (e : Entity) (entities : List (ℕ × Entity)) (cells : Cells) where
  -- What the cells say of an entity, by what is stored under its id.
  stored :
      (o : Option Entity)
      → IsPlaced entities cells
      → lookup id entities ≡ o
      → (j : ℕ) (key : CellKey) → (id == j) ≡ true
      → has j (cell_at key cells) ≡ stands key o
  stored o v found j key same =
      v.grid_right j key
      ∙ ap (λ (i : ℕ). stands key (lookup i entities)) (sym ((==_iff id j).0 same))
      ∙ ap (stands key) found

  -- An entity that is set, with the cells the same as before for all others.
  IsPlaced-set :
      (cells' : Cells)
      → IsPlaced entities cells
      → e.cell ≡ cell_of e.at
      → ((j : ℕ) (key : CellKey)
          → has j (cell_at key cells')
            ≡ (if id == j then key_eq e.cell key else has j (cell_at key cells)))
      → IsPlaced (insert id e entities) cells'
  IsPlaced-set cells' v right same = record {
    grid_right = λ j key.
        same j key
        ∙ ap (λ (b : Bool). if id == j then key_eq e.cell key else b) (v.grid_right j key)
        ∙ sym (stands_if (id == j) key e (lookup j entities))
        ∙ ap (stands key) (sym (lookup-insert id j e entities));
    cell_right = λ j f found. elim (lookup-insert_cases id j e f entities found) [
      | inl (_, new) ↦ subst (λ (g : Entity). g.cell ≡ cell_of g.at) new right
      | inr (_, old) ↦ v.cell_right j f old
    ];
  }

  pub insert-IsPlaced :
      IsPlaced entities cells
      → e.cell ≡ cell_of e.at
      → lookup id entities ≡ none
      → IsPlaced (insert id e entities) (grid_insert id e.cell cells)
  insert-IsPlaced v right fresh = IsPlaced-set (grid_insert id e.cell cells) v right (λ j key.
      has-cell_at-grid_insert id j e.cell key cells
      ∙ after_insert (id == j) (key_eq e.cell key) (has j (cell_at key cells))
          (stored none v fresh j key))

  -- A change of an entity that stays in its cell.
  pub keep-IsPlaced :
      (old : Entity)
      → IsPlaced entities cells
      → lookup id entities ≡ some old
      → e.cell ≡ old.cell
      → e.cell ≡ cell_of e.at
      → IsPlaced (insert id e entities) cells
  keep-IsPlaced old v found kept right = IsPlaced-set cells v right (λ j key.
      after_keep (id == j) (key_eq e.cell key) (has j (cell_at key cells))
        (λ same. stored (some old) v found j key same ∙ ap (λ c. key_eq c key) (sym kept)))

  pub remove-IsPlaced :
      IsPlaced entities cells
      → lookup id entities ≡ some e
      → IsPlaced (delete id entities) (grid_remove id e.cell cells)
  remove-IsPlaced v found = record {
    grid_right = λ j key.
        has-cell_at-grid_remove id j e.cell key cells
        ∙ after_remove (id == j) (key_eq e.cell key) (has j (cell_at key cells))
            (stored (some e) v found j key)
        ∙ ap (λ (b : Bool). if id == j then false else b) (v.grid_right j key)
        ∙ sym (stands_unless (id == j) key (lookup j entities))
        ∙ ap (stands key) (sym (lookup-delete id j entities));
    cell_right = λ j f h. v.cell_right j f (lookup-delete_cases id j f entities h).1;
  }

  pub move-IsPlaced :
      (old : Entity)
      → IsPlaced entities cells
      → lookup id entities ≡ some old
      → e.cell ≡ cell_of e.at
      → IsPlaced (insert id e entities) (grid_insert id e.cell (grid_remove id old.cell cells))
  move-IsPlaced old v found right =
      IsPlaced-set (grid_insert id e.cell (grid_remove id old.cell cells)) v right (λ j key.
        has-cell_at-grid_insert id j e.cell key (grid_remove id old.cell cells)
        ∙ ap (λ (b : Bool). key_eq e.cell key && id == j || b)
            (has-cell_at-grid_remove id j old.cell key cells)
        ∙ after_move (id == j) (key_eq old.cell key) (key_eq e.cell key) (has j (cell_at key cells))
            (stored (some old) v found j key))

-- Of an entity that has moved, whether its cell changes or not.
pub grid_moved-IsPlaced :
    (id : ℕ) (e old : Entity) (entities : List (ℕ × Entity)) (cells : Cells)
    → IsPlaced entities cells
    → lookup id entities ≡ some old
    → e.cell ≡ old.cell
    → let p = grid_moved id e cells in
      IsPlaced (insert id (record p.0 { moved = true }) entities) p.1
unfolding grid_moved
grid_moved-IsPlaced id e old entities cells v found kept =
    elim (Bool-cases (key_eq (cell_of e.at) e.cell)) [
      | inl same ↦
          rw (same, if◌then◌else◌)
            (keep-IsPlaced id (record e { moved = true }) entities cells old v found kept
              (sym (key_eq-eq (cell_of e.at) e.cell same)))
      | inr differ ↦
          rw (differ, if◌then◌else◌, kept)
            (move-IsPlaced id (record e { cell = cell_of e.at; moved = true }) entities cells old v
              found refl)
    ]
