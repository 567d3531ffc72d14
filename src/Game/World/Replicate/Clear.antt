-- ===== src/Game/World/Replicate/Clear.antt =====
-- Entities whose marks are cleared at the end of a tick (internal/game/replication.go).
use nytrpg.Prelude.{
  ==_iff, List, Option, [], ap, false, insert, is_some, lookup, lookup-insert, none, refl, some,
  subst, sym, ℕ, ◌==◌, ◌∙◌, ◌∷◌, ◌≡◌,
}
use nytrpg.Game.Duel.Invariant.{if_cases}
use nytrpg.Game.World.Grid.{CellKey, Cells, cell_of}
use nytrpg.Game.World.Invariant.{IsPlaced, stands}
use nytrpg.Game.World.Replicate.{clear_elo, clear_moved, unmark_elo, unmark_moved}
use nytrpg.Game.World.State.{Entity}

-- The same entity, but for its marks.
abbrev pub Alike : Option Entity → Option Entity → Type 0
Alike none none = Unit
Alike none (some f) = ⊥
Alike (some e) none = ⊥
Alike (some e) (some f) = (e.at ≡ f.at) × (e.elo ≡ f.elo) × (e.cell ≡ f.cell)

Alike-refl : (o : Option Entity) → Alike o o
Alike-refl none = tt
Alike-refl (some e) = (refl, refl, refl)

Alike-trans : (o p q : Option Entity) → Alike o p → Alike p q → Alike o q
Alike-trans none none none h k = tt
Alike-trans none none (some g) h k = k
Alike-trans none (some f) q h k = elim h [ ]
Alike-trans (some e) none q h k = elim h [ ]
Alike-trans (some e) (some f) none h k = k
Alike-trans (some e) (some f) (some g) h k = (h.0 ∙ k.0, h.1 ∙ k.1, h.2 ∙ k.2)

Alike-insert :
    (id j : ℕ) (e f : Entity) (entities : List (ℕ × Entity))
    → lookup id entities ≡ some e
    → Alike (some e) (some f)
    → Alike (lookup j entities) (lookup j (insert id f entities))
Alike-insert id j e f entities found h = rw (lookup-insert id j f entities) (
    if_cases (λ (o : Option Entity). Alike (lookup j entities) o) (id == j)
      (λ same.
        subst (λ (o : Option Entity). Alike o (some f))
          (sym found ∙ ap (λ (i : ℕ). lookup i entities) ((==_iff id j).0 same)) h)
      (λ _. Alike-refl (lookup j entities)))

unmark_moved-Alike :
    (id j : ℕ) (o : Option Entity) (entities : List (ℕ × Entity))
    → lookup id entities ≡ o
    → Alike (lookup j entities) (lookup j (unmark_moved id o entities))
unmark_moved-Alike id j none entities gone = Alike-refl (lookup j entities)
unmark_moved-Alike id j (some e) entities found =
    Alike-insert id j e (record e { moved = false }) entities found (refl, refl, refl)

clear_moved-Alike :
    (ids : List ℕ) (entities : List (ℕ × Entity)) (j : ℕ)
    → Alike (lookup j entities) (lookup j (clear_moved ids entities))
unfolding clear_moved
clear_moved-Alike [] entities j = Alike-refl (lookup j entities)
clear_moved-Alike (id ∷ ids) entities j =
    let next = unmark_moved id (lookup id entities) entities in
    Alike-trans (lookup j entities) (lookup j next) (lookup j (clear_moved ids next))
      (unmark_moved-Alike id j (lookup id entities) entities refl) (clear_moved-Alike ids next j)

unmark_elo-Alike :
    (id j : ℕ) (o : Option Entity) (entities : List (ℕ × Entity))
    → lookup id entities ≡ o
    → Alike (lookup j entities) (lookup j (unmark_elo id o entities))
unmark_elo-Alike id j none entities gone = Alike-refl (lookup j entities)
unmark_elo-Alike id j (some e) entities found =
    Alike-insert id j e (record e { elo_changed = false }) entities found (refl, refl, refl)

clear_elo-Alike :
    (ids : List ℕ) (entities : List (ℕ × Entity)) (j : ℕ)
    → Alike (lookup j entities) (lookup j (clear_elo ids entities))
unfolding clear_elo
clear_elo-Alike [] entities j = Alike-refl (lookup j entities)
clear_elo-Alike (id ∷ ids) entities j =
    let next = unmark_elo id (lookup id entities) entities in
    Alike-trans (lookup j entities) (lookup j next) (lookup j (clear_elo ids next))
      (unmark_elo-Alike id j (lookup id entities) entities refl) (clear_elo-Alike ids next j)

pub cleared-Alike :
    (ids ids' : List ℕ) (entities : List (ℕ × Entity)) (j : ℕ)
    → Alike (lookup j entities) (lookup j (clear_elo ids (clear_moved ids' entities)))
cleared-Alike ids ids' entities j =
    Alike-trans (lookup j entities) (lookup j (clear_moved ids' entities))
      (lookup j (clear_elo ids (clear_moved ids' entities))) (clear_moved-Alike ids' entities j)
      (clear_elo-Alike ids (clear_moved ids' entities) j)

pub stands-Alike : (key : CellKey) (o p : Option Entity) → Alike o p → stands key o ≡ stands key p
stands-Alike key none none h = refl
stands-Alike key none (some f) h = elim h [ ]
stands-Alike key (some e) none h = elim h [ ]
stands-Alike key (some e) (some f) h = rw h.2 refl

pub Alike-some :
    (o : Option Entity) (f : Entity)
    → Alike o (some f)
    → (e : Entity) × (o ≡ some e) × Alike (some e) (some f)
Alike-some none f h = elim h [ ]
Alike-some (some e) f h = (e, refl, h)

pub Alike-is_some : (o p : Option Entity) → Alike o p → is_some o ≡ is_some p
Alike-is_some none none h = refl
Alike-is_some none (some f) h = elim h [ ]
Alike-is_some (some e) none h = elim h [ ]
Alike-is_some (some e) (some f) h = refl

pub IsPlaced-Alike :
    (entities entities' : List (ℕ × Entity)) (cells : Cells)
    → ((j : ℕ) → Alike (lookup j entities) (lookup j entities'))
    → IsPlaced entities cells
    → IsPlaced entities' cells
IsPlaced-Alike entities entities' cells h v = record {
  grid_right =
      λ j key. v.grid_right j key ∙ stands-Alike key (lookup j entities) (lookup j entities') (h j);
  cell_right = λ j f found.
      let (e, was, same) =
        Alike-some (lookup j entities) f
          (subst (λ (o : Option Entity). Alike (lookup j entities) o) found (h j)) in
      sym same.2 ∙ v.cell_right j e was ∙ ap cell_of same.0;
}
