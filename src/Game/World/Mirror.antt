-- ===== src/Game/World/Mirror.antt =====
-- A player's client shows exactly the entities around it, as they are (internal/game/replication.go).
use nytrpg.Prelude.{
  ==_iff, Bool, Bool-cases, List, Option, Option-cases, ap, arith, false, if◌then◌else◌, inl, inr,
  is_some, lookup, none, refl, some, subst, true, ℕ, ◌+◌, ◌==◌, ◌∙◌, ◌≡◌, ◌≤◌,
}
use nytrpg.Game.Duel.Invariant.{if_cases}
use nytrpg.Game.Duel.Tick.{tick}
use nytrpg.Game.World.Grid.{Cells, Vec, near}
use nytrpg.Game.World.Grid.Near.{has-near, is_around}
use nytrpg.Game.World.Invariant.{IsPlaced, stands}
use nytrpg.Game.World.Replicate.{View, no_update, view_of, visit_all}
use nytrpg.Game.World.Replicate.Known.{
  Unique, Unique-fresh, has-stale, lookup-fresh, seen_before, seen_now,
}
use nytrpg.Game.World.Replicate.Picture.{Mirrors, Picture, Shown, apply_update, shown_of}
use nytrpg.Game.World.Replicate.Visits.{
  IsTold, IsUntouched, Unique-visit_all, visit_all-has, visit_all-missed, visit_all-skipped,
}
use nytrpg.Game.World.State.{Entity, Update}

-- What there is to show of an entity around a place.
abbrev pub shown_near : Vec → Option Entity → Shown
shown_near at none = none
shown_near at (some e) = if is_around at e.cell then some (e.at, e.elo) else none

-- What there is to show around a place, without the player's own entity.
abbrev pub around : Vec → ℕ → List (ℕ × Entity) → Picture
around at self entities id = if id == self then none else shown_near at (lookup id entities)

-- What a player knows is from the past, and its client shows it.
pub record Follows (tick next : ℕ) (entities : List (ℕ × Entity)) (known : List (ℕ × ℕ))
    (pic : Picture) : Type 0 where
  pub unique : Unique known
  pub past : (id t : ℕ) → lookup id known ≡ some t → (t ≤ tick) × (id ≤ next)
  pub mirrors : (id : ℕ) → Mirrors (lookup id known) (lookup id entities) (pic id)

-- What an update leaves of an id: what its client shows, and what the player knows.
abbrev Left : ℕ → Option ℕ → Update → Shown → Shown → Type 0
Left tick k u s r =
    ((if seen_before tick k then none else s) ≡ r)
    × (seen_now tick k ≡ (if is_some r then some tick else none))

module _ (tick next self id : ℕ) (entities : List (ℕ × Entity)) (known : List (ℕ × ℕ))
    (pic : Picture) where
  Left-untouched :
      (v : View)
      → Follows tick next entities known pic
      → IsUntouched (tick + 1) self id entities known (pic id) v
      → Left (tick + 1) (lookup id v.known) v.upd (shown_of id v.upd (pic id)) none
  Left-untouched v f h = elim (Option-cases (lookup id known)) [
    | inl unknown ↦
        let hidden : pic id ≡ none =
          subst (λ (k : Option ℕ). Mirrors k (lookup id entities) (pic id)) unknown
            (f.mirrors id) in
        rw (h.0 ∙ unknown, h.1, h.2, h.3, hidden) (refl, refl)
    | inr (t, before) ↦
        let in_past = (f.past id t before).0 in
        let late : (t == tick + 1) ≡ false = ground arith in rw (h.0 ∙ before, late) (refl, refl)
  ]

  Left-told :
      (v : View) (e : Entity)
      → IsTold (tick + 1) self id entities known (pic id) e v
      → Left (tick + 1) (lookup id v.known) v.upd (shown_of id v.upd (pic id)) (some (e.at, e.elo))
  Left-told v e h =
      let now : (tick + 1 == tick + 1) ≡ true = (==_iff (tick + 1) (tick + 1)).1 refl in
      rw (h.0, h.1, now) (refl, refl)

  -- What the visits of the surroundings leave of an id.
  Left-visited :
      (at : Vec) (cells : Cells)
      → IsPlaced entities cells
      → Follows tick next entities known pic
      → let v =
          visit_all
            (tick + 1)
            self
            entities
            (near at cells)
            (record { upd = no_update; known = known }) in
        Left
          (tick + 1)
          (lookup id v.known)
          v.upd
          (shown_of id v.upd (pic id))
          (around at self entities id)
  Left-visited at cells placed f =
      let start : View = record { upd = no_update; known = known } in
      let untouched : IsUntouched (tick + 1) self id entities known (pic id) start =
        (refl, refl, refl, refl) in
      let v = visit_all (tick + 1) self entities (near at cells) start in
      elim (Bool-cases (id == self)) [
        | inl own ↦
            rw (own, if◌then◌else◌)
              (Left-untouched v f (
                visit_all-skipped (tick + 1) self id entities known (pic id) (near at cells) start
                  (inl own) untouched))
        | inr not_own ↦ elim (Option-cases (lookup id entities)) [
          | inl gone ↦
              rw (not_own, if◌then◌else◌, gone)
                (Left-untouched v f (
                  visit_all-skipped (tick + 1) self id entities known (pic id) (near at cells) start
                    (inr gone) untouched))
          | inr (e, found) ↦
              let stands_at =
                has-near id at e.cell cells
                  (λ key. placed.grid_right id key ∙ ap (stands key) found) in
              let mirrored =
                subst (λ (o : Option Entity). Mirrors (lookup id known) o (pic id)) found
                  (f.mirrors id) in
              rw (not_own, if◌then◌else◌, found)
                (if_cases
                  (λ (r : Shown).
                    Left (tick + 1) (lookup id v.known) v.upd (shown_of id v.upd (pic id)) r)
                  (is_around at e.cell)
                  (λ yes. Left-told v e (
                    visit_all-has (tick + 1) self id entities known (pic id) e found not_own
                      (near at cells) start mirrored (stands_at ∙ yes) untouched))
                  (λ no. Left-untouched v f (
                    visit_all-missed (tick + 1) self id entities known (pic id) (near at cells)
                      start (stands_at ∙ no) untouched)))
        ]
      ]

  -- After its update, a client shows what is around its player, and its player knows just that.
  pub view_of-around :
      (at : Vec) (cells : Cells)
      → IsPlaced entities cells
      → Follows tick next entities known pic
      → let v = view_of (tick + 1) at self entities cells known in
        (apply_update v.upd pic id ≡ around at self entities id)
        × (lookup id v.known
            ≡ (if is_some (around at self entities id) then some (tick + 1) else none))
        × Unique v.known
  unfolding view_of
  view_of-around at cells placed f =
      let start : View = record { upd = no_update; known = known } in
      let v = visit_all (tick + 1) self entities (near at cells) start in
      let unique = Unique-visit_all (tick + 1) self entities (near at cells) start f.unique in
      let (shows, knows) = Left-visited at cells placed f in
      (
        ap (λ (b : Bool). if b then none else shown_of id v.upd (pic id))
              (has-stale (tick + 1) id v.known unique)
            ∙ shows,
        lookup-fresh (tick + 1) id v.known unique ∙ knows,
        Unique-fresh (tick + 1) v.known unique,
      )
