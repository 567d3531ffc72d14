-- ===== src/Game/World/Events/Step.antt =====
-- The world's step keeps its invariant, and shows every client what is around its player
-- (internal/game: replication.go, world.go).
use nytrpg.Prelude.{
  Bool, List, Option, [], ap, arith, false, if◌then◌else◌, is_some, lookup, none, refl, some, subst,
  sym, true, ℕ, ◌+◌, ◌==◌, ◌∙◌, ◌∷◌, ◌≡◌, ◌≤◌,
}
use nytrpg.Game.Duel.Invariant.{if_keeps}
use nytrpg.Game.Duel.Tick.{tick}
use nytrpg.Game.Lobby.{expire_offers}
use nytrpg.Game.World.Events.{IsWorld}
use nytrpg.Game.World.Grid.{Cells, Vec}
use nytrpg.Game.World.Grid.Near.{is_around}
use nytrpg.Game.World.Invariant.{IsPlaced}
use nytrpg.Game.World.Mirror.{Follows, around, shown_near, view_of-around}
use nytrpg.Game.World.Replicate.{
  clear_elo, clear_moved, place_of, player_view, replicate_all, replicate_world, step, view_of,
}
use nytrpg.Game.World.Replicate.Clear.{
  Alike, Alike-is_some, Alike-some, IsPlaced-Alike, cleared-Alike,
}
use nytrpg.Game.World.Replicate.Known.{Unique}
use nytrpg.Game.World.Replicate.Picture.{Mirrors, Picture, Shown, apply_update}
use nytrpg.Game.World.State.{Entity, Player, World}
use nytrpg.Game.World.Watch.{
  nothing_shown, replicate_all-lookup, replicate_all-watch, watch, watch-append,
}

-- What a client shows after a step: all that is around its player.
abbrev pub shown_to : World → Player → Picture
shown_to w p = around (place_of p.ent w) p.ent w.entities

around-Alike :
    (at : Vec) (self id : ℕ) (entities entities' : List (ℕ × Entity))
    → ((j : ℕ) → Alike (lookup j entities) (lookup j entities'))
    → around at self entities id ≡ around at self entities' id
around-Alike at self id entities entities' h =
    ap (λ (s : Shown). if id == self then none else s)
      (near-Alike at (lookup id entities) (lookup id entities') (h id))
  where
    near-Alike : (at : Vec) (o p : Option Entity) → Alike o p → shown_near at o ≡ shown_near at p
    near-Alike at none none h = refl
    near-Alike at none (some f) h = elim h [ ]
    near-Alike at (some e) none h = elim h [ ]
    near-Alike at (some e) (some f) h = rw (h.0, h.1, h.2) refl

-- A client that shows what is around follows the world.
around-Mirrors :
    (at : Vec) (tick : ℕ) (own : Bool) (o : Option Entity)
    → let s = if own then none else shown_near at o in
      Mirrors (if is_some s then some tick else none) o s
around-Mirrors at tick true o = refl
around-Mirrors at tick false none = refl
around-Mirrors at tick false (some e) =
    if_keeps (λ (s : Shown). Mirrors (if is_some s then some tick else none) (some e) s)
      (is_around at e.cell) (λ _. refl, λ _. refl) refl

around_some :
    (at : Vec) (own : Bool) (o : Option Entity)
    → is_some (if own then none else shown_near at o) ≡ true
    → is_some o ≡ true
around_some at true o h = cc
around_some at false none h = cc
around_some at false (some e) h = refl

-- After a step, a client shows exactly the entities around its player, as they are.
pub step-shown :
    (w : World) (now c : ℕ) (p : Player)
    → IsWorld w
    → lookup c w.players ≡ some p
    → (id : ℕ) → watch c (step now w).outbox nothing_shown id ≡ shown_to w p id
unfolding step replicate_world
step-shown w now c p v found id =
    let w' = record w { tick = w.tick + 1; lobby = expire_offers now w.lobby } in
    let pic = watch c w.outbox nothing_shown in
    ap (λ (f : Picture). f id)
      (watch-append c w.outbox (replicate_all w' w.players).1 nothing_shown
        ∙ replicate_all-watch w' c p w.players pic v.unique found)
    ∙ (view_of-around w.tick w.next_id p.ent id w.entities p.known pic (place_of p.ent w) w.cells
        v.placed (v.follows c p found)).0

replicated :
    (w : World) (o : Option Player) (p' : Player)
    → elim o [ none ↦ none | some p ↦ some (record p { known = (player_view w p).known }) ]
      ≡ some p'
    → (p : Player) × (o ≡ some p) × (record p { known = (player_view w p).known } ≡ p')
replicated w none p' h = cc
replicated w (some p) p' h = (p, refl, cc)

-- A player after `replicate`, from the player before.
pub replicate_all-found :
    (w : World) (c : ℕ) (players : List (ℕ × Player)) (p' : Player)
    → lookup c (replicate_all w players).0 ≡ some p'
    → (p : Player) × (lookup c players ≡ some p)
      × (record p { known = (player_view w p).known } ≡ p')
replicate_all-found w c players p' h =
    replicated w (lookup c players) p' (sym (replicate_all-lookup w c players) ∙ h)

Unique-replicate_all :
    (w : World) (players : List (ℕ × Player)) → Unique players → Unique (replicate_all w players).0
unfolding replicate_all
Unique-replicate_all w [] u = tt
Unique-replicate_all w ((c, p) ∷ players) u =
    (replicate_all-lookup w c players ∙ rw u.0 refl, Unique-replicate_all w players u.1)

-- What a player knows after a step follows the world after it.
Follows-view :
    (tick next self : ℕ) (at : Vec) (entities entities' : List (ℕ × Entity)) (cells : Cells)
    (known : List (ℕ × ℕ)) (pic pic' : Picture)
    → IsPlaced entities cells
    → ((j : ℕ) → Alike (lookup j entities) (lookup j entities'))
    → ((id : ℕ) (e : Entity) → lookup id entities ≡ some e → id ≤ next)
    → Follows tick next entities known pic
    → let v = view_of (tick + 1) at self entities cells known in
      (pic' ≡ apply_update v.upd pic) → Follows (tick + 1) next entities' v.known pic'
Follows-view tick next self at entities entities' cells known pic pic' placed alike below f e =
    let v = view_of (tick + 1) at self entities cells known in
    let left = λ (id : ℕ). view_of-around tick next self id entities known pic at cells placed f in
    record {
      unique = (left 0).2;
      past = λ id t found.
          let there =
            known_around (around at self entities id) (tick + 1) t (sym (left id).1 ∙ found) in
          let (e, stored) =
            is_some_some (lookup id entities)
              (around_some at (id == self) (lookup id entities) there.1) in
          (ground (arith, there.0), below id e stored);
      mirrors = λ id.
          subst (λ (s : Shown). Mirrors (lookup id v.known) (lookup id entities') s)
            (sym (
              ap (λ (g : Picture). g id) e
              ∙ (left id).0
              ∙ around-Alike at self id entities entities' alike))
            (subst (λ (k : Option ℕ). Mirrors k (lookup id entities') (around at self entities' id))
              (sym (
                (left id).1
                ∙ ap (λ (s : Shown). if is_some s then some (tick + 1) else none)
                    (around-Alike at self id entities entities' alike)))
              (around-Mirrors at (tick + 1) (id == self) (lookup id entities')));
    }
  where
    known_around :
        (s : Shown) (tick t : ℕ)
        → (if is_some s then some tick else none) ≡ some t
        → (tick ≡ t) × (is_some s ≡ true)
    known_around none tick t h = cc
    known_around (some x) tick t h = (ground (arith, h), refl)

    is_some_some : (o : Option Entity) → is_some o ≡ true → (e : Entity) × (o ≡ some e)
    is_some_some none h = cc
    is_some_some (some e) h = (e, refl)

pub step-IsWorld : (w : World) (now : ℕ) → IsWorld w → IsWorld (step now w)
unfolding step replicate_world
step-IsWorld w now v =
    let w' = record w { tick = w.tick + 1; lobby = expire_offers now w.lobby } in
    let players = (replicate_all w' w.players).0 in
    let entities = clear_elo w.elo_ids (clear_moved w.moved_ids w.entities) in
    let alike = cleared-Alike w.elo_ids w.moved_ids w.entities in
    let was = λ (c : ℕ) (p' : Player) (h : lookup c players ≡ some p').
      replicate_all-found w' c w.players p' h in
    record {
      placed = IsPlaced-Alike w.entities entities w.cells alike v.placed;
      below = λ id e h.
          let (f, stored, _) =
            Alike-some (lookup id w.entities) e
              (subst (λ (o : Option Entity). Alike (lookup id w.entities) o) h (alike id)) in
          v.below id f stored;
      unique = Unique-replicate_all w' w.players v.unique;
      owns = λ c p' h.
          let (p, found, same) = was c p' h in
          ap (λ (q : Player). is_some (lookup q.ent entities)) (sym same)
          ∙ sym (Alike-is_some (lookup p.ent w.entities) (lookup p.ent entities) (alike p.ent))
          ∙ v.owns c p found;
      apart = λ c d p' q' h k e.
          let (p, found, same) = was c p' h in
          let (q, found', same') = was d q' k in
          v.apart c d p q found found'
            (ap (λ (r : Player). r.ent) same ∙ e ∙ sym (ap (λ (r : Player). r.ent) same'));
      follows = λ c p' h.
          let (p, found, same) = was c p' h in
          let out =
            watch-append c w.outbox (replicate_all w' w.players).1 nothing_shown
            ∙ replicate_all-watch w' c p w.players (watch c w.outbox nothing_shown) v.unique
                found in
          subst
            (λ (r : Player).
              Follows (w.tick + 1) w.next_id entities r.known
                (watch c (step now w).outbox nothing_shown))
            same
            (Follows-view w.tick w.next_id p.ent (place_of p.ent w) w.entities entities w.cells
              p.known (watch c w.outbox nothing_shown) (watch c (step now w).outbox nothing_shown)
              v.placed alike v.below (v.follows c p found) out);
    }
