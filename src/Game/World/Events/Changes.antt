-- ===== src/Game/World/Events/Changes.antt =====
-- One change of the world's state at a time keeps its invariant (internal/game: world.go, movement.go).
use nytrpg.Prelude.{
  ==_iff, List, Option, ap, delete, false, inl, inr, insert, is_some, lookup, lookup-delete,
  lookup-delete_cases, lookup-insert, lookup-insert_cases, none, refl, some, subst, sym, true, ℕ,
  ◌++◌, ◌==◌, ◌∙◌, ◌≡◌, ◌≤◌,
}
use nytrpg.Game.Duel.Invariant.{if_cases, if_keeps}
use nytrpg.Game.Side.{out}
use nytrpg.Game.World.Events.{IsState}
use nytrpg.Game.World.Grid.{Cells, grid_remove}
use nytrpg.Game.World.Invariant.{IsPlaced, remove-IsPlaced}
use nytrpg.Game.World.Mirror.{Follows}
use nytrpg.Game.World.Replicate.Known.{Unique-delete, Unique-insert}
use nytrpg.Game.World.Replicate.Picture.{Mirrors, Picture, Shown}
use nytrpg.Game.World.State.{Entity, Player, Sent}
use nytrpg.Game.World.Watch.{nothing_shown, watch, watch-append}

-- An entity after a change that is marked: what is not marked is as it was.
abbrev pub IsMarked : Entity → Entity → Type 0
IsMarked old e =
    (e.moved ≡ false → (old.moved ≡ false) × (old.at ≡ e.at))
    × (e.elo_changed ≡ false → (old.elo_changed ≡ false) × (old.elo ≡ e.elo))

marked-Mirrors :
    (k : Option ℕ) (old e : Entity) (s : Shown)
    → IsMarked old e
    → Mirrors k (some old) s
    → Mirrors k (some e) s
marked-Mirrors none old e s m h = h
marked-Mirrors (some t) old e none m h = h
marked-Mirrors (some t) old e (some (at, elo)) m h =
    (λ still. h.0 (m.0 still).0 ∙ (m.0 still).1, λ still. h.1 (m.1 still).0 ∙ (m.1 still).1)

gone-Mirrors : (k : Option ℕ) (o : Option Entity) (s : Shown) → Mirrors k o s → Mirrors k none s
gone-Mirrors none o s h = h
gone-Mirrors (some t) o s h = tt

module _ (tick next : ℕ) (entities : List (ℕ × Entity)) (cells : Cells)
    (players : List (ℕ × Player)) (outbox : List (ℕ × Sent)) where
  -- A player's rating or allowance.
  pub set_player-IsState :
      (c : ℕ) (p p' : Player)
      → IsState tick next entities cells players outbox
      → lookup c players ≡ some p
      → p'.ent ≡ p.ent
      → p'.known ≡ p.known
      → IsState tick next entities cells (insert c p' players) outbox
  set_player-IsState c p p' v found same_ent same_known =
      let was : (d : ℕ) (q' : Player)
          → lookup d (insert c p' players) ≡ some q'
          → (q : Player) × (lookup d players ≡ some q) × (q'.ent ≡ q.ent) × (q'.known ≡ q.known) =
        λ d q' h. elim (lookup-insert_cases c d p' q' players h) [
          | inl (at_c, new) ↦ (
            p,
            ap (λ (i : ℕ). lookup i players) (sym at_c) ∙ found,
            ap (λ (r : Player). r.ent) (sym new) ∙ same_ent,
            ap (λ (r : Player). r.known) (sym new) ∙ same_known,
          )
          | inr (_, old) ↦ (q', old, refl, refl)
        ] in
      record {
        placed = v.placed;
        below = v.below;
        unique = Unique-insert c p' players v.unique;
        owns = λ d q' h.
            let (q, there, ent, known) = was d q' h in
            ap (λ (i : ℕ). is_some (lookup i entities)) ent ∙ v.owns d q there;
        apart = λ d d' q' r' h k e.
            let (q, there, ent, known) = was d q' h in
            let (r, there', ent', known') = was d' r' k in
            v.apart d d' q r there there' (sym ent ∙ e ∙ ent');
        follows = λ d q' h.
            let (q, there, ent, known) = was d q' h in
            subst
              (λ (m : List (ℕ × ℕ)). Follows tick next entities m (watch d outbox nothing_shown))
              (sym known) (v.follows d q there);
      }

  -- A marked change of an entity.
  pub set_entity-IsState :
      (id : ℕ) (old e : Entity) (cells' : Cells)
      → IsState tick next entities cells players outbox
      → lookup id entities ≡ some old
      → IsMarked old e
      → IsPlaced (insert id e entities) cells'
      → IsState tick next (insert id e entities) cells' players outbox
  set_entity-IsState id old e cells' v found marked placed = record {
    placed = placed;
    below = λ j f h. elim (lookup-insert_cases id j e f entities h) [
      | inl (same, _) ↦ subst (λ (i : ℕ). i ≤ next) same (v.below id old found)
      | inr (_, there) ↦ v.below j f there
    ];
    unique = v.unique;
    owns = λ c p h.
        rw (lookup-insert id p.ent e entities)
          (if_keeps (λ (o : Option Entity). is_some o ≡ true) (id == p.ent) refl (v.owns c p h));
    apart = v.apart;
    follows = λ c p h.
        let f = v.follows c p h in
        record {
          unique = f.unique;
          past = f.past;
          mirrors = λ j. rw (lookup-insert id j e entities) (
              if_cases
                (λ (o : Option Entity).
                  Mirrors (lookup j p.known) o (watch c outbox nothing_shown j))
                (id == j)
                (λ same.
                  marked-Mirrors (lookup j p.known) old e (watch c outbox nothing_shown j) marked (
                    subst
                      (λ (o : Option Entity).
                        Mirrors (lookup j p.known) o (watch c outbox nothing_shown j))
                      (ap (λ (i : ℕ). lookup i entities) (sym ((==_iff id j).0 same)) ∙ found)
                      (f.mirrors j)))
                (λ _. f.mirrors j));
        };
  }

  -- Messages that change nothing of what clients show.
  pub send-IsState :
      (out : List (ℕ × Sent))
      → IsState tick next entities cells players outbox
      → ((c : ℕ) (pic : Picture) → watch c out pic ≡ pic)
      → IsState tick next entities cells players (outbox ++ out)
  send-IsState out v quiet = record {
    placed = v.placed;
    below = v.below;
    unique = v.unique;
    owns = v.owns;
    apart = v.apart;
    follows = λ c p h.
        subst (λ (pic : Picture). Follows tick next entities p.known pic)
          (sym (watch-append c outbox out nothing_shown ∙ quiet c (watch c outbox nothing_shown)))
          (v.follows c p h);
  }

  -- A player goes, with its entity.
  pub leave-IsState :
      (c : ℕ) (p : Player) (e : Entity)
      → IsState tick next entities cells players outbox
      → lookup c players ≡ some p
      → lookup p.ent entities ≡ some e
      → IsState tick next
          (delete p.ent entities)
          (grid_remove p.ent e.cell cells)
          (delete c players)
          outbox
  leave-IsState c p e v found stored = record {
    placed = remove-IsPlaced p.ent e entities cells v.placed stored;
    below = λ j f h. v.below j f (lookup-delete_cases p.ent j f entities h).1;
    unique = Unique-delete c players v.unique;
    owns = λ d q h.
        let (not_c, there) = lookup-delete_cases c d q players h in
        rw (lookup-delete p.ent q.ent entities) (
          if_cases (λ (o : Option Entity). is_some o ≡ true) (p.ent == q.ent)
            (λ same. elim (not_c (v.apart c d p q found there ((==_iff p.ent q.ent).0 same))) [ ])
            (λ _. v.owns d q there));
    apart = λ d d' q r h k e.
        v.apart d d' q r (lookup-delete_cases c d q players h).1
          (lookup-delete_cases c d' r players k).1 e;
    follows = λ d q h.
        let f = v.follows d q (lookup-delete_cases c d q players h).1 in
        record {
          unique = f.unique;
          past = f.past;
          mirrors = λ j. rw (lookup-delete p.ent j entities) (
              if_keeps
                (λ (o : Option Entity).
                  Mirrors (lookup j q.known) o (watch d outbox nothing_shown j))
                (p.ent == j)
                (gone-Mirrors (lookup j q.known) (lookup j entities)
                  (watch d outbox nothing_shown j) (f.mirrors j))
                (f.mirrors j));
        };
  }
