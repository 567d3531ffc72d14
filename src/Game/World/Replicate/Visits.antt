-- ===== src/Game/World/Replicate/Visits.antt =====
-- What the visits of a player's surroundings put into an update (internal/game/replication.go).
use nytrpg.Prelude.{
  ==_iff, Bool, Bool-cases, List, Option, Option-cases, [], ap, arith, false, if◌then◌else◌, inl,
  inr, is_some, lookup, lookup-insert, lookup-insert_same, none, refl, some, subst, sym, true, ℕ,
  ◌==◌, ◌∙◌, ◌∷◌, ◌≡◌, ◌⊎◌,
}
use nytrpg.Game.Duel.Invariant.{if_keeps}
use nytrpg.Game.Duel.Tick.{tick}
use nytrpg.Game.Side.{out}
use nytrpg.Game.World.Grid.{has}
use nytrpg.Game.World.Replicate.{View, spawn_of, visit, visit_all}
use nytrpg.Game.World.Replicate.Known.{Unique, Unique-insert}
use nytrpg.Game.World.Replicate.Picture.{
  Mirrors, Shown, last_of, last_of-other, last_of-own, shown_of, told_again, told_first, with_spawn,
}
use nytrpg.Game.World.State.{Entity, Update}

-- The same of an id in two views.
abbrev Same : ℕ → View → View → Type 0
Same id v v' =
    (lookup id v'.known ≡ lookup id v.known)
    × (last_of id v'.upd.spawns ≡ last_of id v.upd.spawns)
    × (last_of id v'.upd.moves ≡ last_of id v.upd.moves)
    × (last_of id v'.upd.elos ≡ last_of id v.upd.elos)

visit_other :
    (tick self id : ℕ) (entities : List (ℕ × Entity)) (j : ℕ) (v : View)
    → (j == id) ≡ false
    → Same id v (visit tick self entities j v)
unfolding visit
visit_other tick self id entities j v differ = elim (Bool-cases (j == self)) [
  | inl own ↦ rw (own, if◌then◌else◌) (refl, refl, refl, refl)
  | inr not_own ↦
      rw (not_own, if◌then◌else◌)
        (elim (Option-cases (lookup j entities)) [
          | inl gone ↦ rw gone (refl, refl, refl, refl)
          | inr (e, found) ↦
              let told =
                if_keeps
                  (λ (u : Update).
                    (last_of id u.spawns ≡ last_of id v.upd.spawns)
                    × (last_of id u.moves ≡ last_of id v.upd.moves)
                    × (last_of id u.elos ≡ last_of id v.upd.elos))
                  (is_some (lookup j v.known))
                  (
                    refl,
                    last_of-other id j e.moved e.at v.upd.moves differ,
                    last_of-other id j e.elo_changed e.elo v.upd.elos differ,
                  )
                  (last_of-other id j true (spawn_of e) v.upd.spawns differ, refl, refl) in
              let knows =
                lookup-insert j id tick v.known
                ∙ ap (λ (b : Bool). if b then some tick else lookup id v.known) differ in
              rw found (knows, told.0, told.1, told.2)
        ])
]

module _ (tick self id : ℕ) (entities : List (ℕ × Entity)) (known : List (ℕ × ℕ)) (s : Shown) where
  -- Nothing is told of an id yet.
  abbrev pub IsUntouched : View → Type 0
  IsUntouched v =
      (lookup id v.known ≡ lookup id known)
      × (last_of id v.upd.spawns ≡ none)
      × (last_of id v.upd.moves ≡ none)
      × (last_of id v.upd.elos ≡ none)

  -- All is told of an entity, and it is shown as it is.
  abbrev pub IsTold : Entity → View → Type 0
  IsTold e v = (lookup id v.known ≡ some tick) × (shown_of id v.upd s ≡ some (e.at, e.elo))

  IsUntouched-Same : (v v' : View) → Same id v v' → IsUntouched v → IsUntouched v'
  IsUntouched-Same v v' h k = (h.0 ∙ k.0, h.1 ∙ k.1, h.2 ∙ k.2, h.3 ∙ k.3)

  IsTold-Same : (e : Entity) (v v' : View) → Same id v v' → IsTold e v → IsTold e v'
  IsTold-Same e v v' h k = (h.0 ∙ k.0, rw (h.1, h.2, h.3) k.1)

  module _ (e : Entity) (found : lookup id entities ≡ some e)
      (not_self : (id == self) ≡ false) where
    visit_again : (v : View) → IsTold e v → IsTold e (visit tick self entities id v)
    unfolding visit
    visit_again v h =
        rw (not_self, if◌then◌else◌, found, h.0, if◌then◌else◌)
          (
            lookup-insert_same id tick v.known,
            rw
                (
                  last_of-own id e.moved e.at v.upd.moves,
                  last_of-own id e.elo_changed e.elo v.upd.elos,
                )
                (told_again e.moved e.elo_changed e.at e.elo (last_of id v.upd.elos)
                  (last_of id v.upd.moves) (with_spawn (last_of id v.upd.spawns) s) h.1),
          )

    visit_first :
        (v : View)
        → Mirrors (lookup id known) (some e) s
        → IsUntouched v
        → IsTold e (visit tick self entities id v)
    unfolding visit
    visit_first v m h = elim (Option-cases (lookup id known)) [
      | inl unknown ↦
          let at_first = h.0 ∙ unknown in
          rw (not_self, if◌then◌else◌, found, at_first, if◌then◌else◌, h.2, h.3)
            (
              lookup-insert_same id tick v.known,
              rw (last_of-own id true (spawn_of e) v.upd.spawns) refl,
            )
      | inr (t, before) ↦
          let at_first = h.0 ∙ before in
          let mirrored : Mirrors (some t) (some e) s =
            subst (λ (k : Option ℕ). Mirrors k (some e) s) before m in
          rw (not_self, if◌then◌else◌, found, at_first, if◌then◌else◌, h.1)
            (
              lookup-insert_same id tick v.known,
              rw
                  (
                    last_of-own id e.moved e.at v.upd.moves,
                    last_of-own id e.elo_changed e.elo v.upd.elos,
                    h.2,
                    h.3,
                  )
                  (told_first t e s mirrored),
            )
    ]

    visit_all-IsTold :
        (ids : List ℕ) (v : View) → IsTold e v → IsTold e (visit_all tick self entities ids v)
    unfolding visit_all
    visit_all-IsTold [] v h = h
    visit_all-IsTold (j ∷ ids) v h =
        visit_all-IsTold ids (visit tick self entities j v) (elim (Bool-cases (j == id)) [
          | inl same ↦
              subst (λ (i : ℕ). IsTold e (visit tick self entities i v))
                (sym ((==_iff j id).0 same)) (visit_again v h)
          | inr differ ↦
              IsTold-Same e v (visit tick self entities j v)
                (visit_other tick self id entities j v differ) h
        ])

    -- An entity that is visited is shown as it is.
    pub visit_all-has :
        (ids : List ℕ) (v : View)
        → Mirrors (lookup id known) (some e) s
        → has id ids ≡ true
        → IsUntouched v
        → IsTold e (visit_all tick self entities ids v)
    unfolding visit_all
    visit_all-has [] v m within h = cc
    visit_all-has (j ∷ ids) v m within h = elim (Bool-cases (j == id)) [
      | inl same ↦ visit_all-IsTold ids (visit tick self entities j v) (
          subst (λ (i : ℕ). IsTold e (visit tick self entities i v)) (sym ((==_iff j id).0 same))
            (visit_first v m h))
      | inr differ ↦
          visit_all-has ids (visit tick self entities j v) m (ground (arith, within, differ)) (
            IsUntouched-Same v (visit tick self entities j v)
              (visit_other tick self id entities j v differ) h)
    ]

  -- The player's own entity, and what is not stored.
  abbrev IsSkipped : Type 0
  IsSkipped = ((id == self) ≡ true) ⊎ (lookup id entities ≡ none)

  visit_skipped : (v : View) → IsSkipped → visit tick self entities id v ≡ v
  unfolding visit
  visit_skipped v (inl own) = rw (own, if◌then◌else◌) refl
  visit_skipped v (inr gone) = elim (Bool-cases (id == self)) [
    | inl own ↦ rw (own, if◌then◌else◌) refl
    | inr not_own ↦ rw (not_own, if◌then◌else◌, gone) refl
  ]

  -- Nothing is told of what is skipped, or not visited.
  pub visit_all-skipped :
      (ids : List ℕ) (v : View)
      → IsSkipped
      → IsUntouched v
      → IsUntouched (visit_all tick self entities ids v)
  unfolding visit_all
  visit_all-skipped [] v out h = h
  visit_all-skipped (j ∷ ids) v out h =
      visit_all-skipped ids (visit tick self entities j v) out (elim (Bool-cases (j == id)) [
        | inl same ↦
            subst (λ (i : ℕ). IsUntouched (visit tick self entities i v))
              (sym ((==_iff j id).0 same))
              (subst (λ (u : View). IsUntouched u) (sym (visit_skipped v out)) h)
        | inr differ ↦
            IsUntouched-Same v (visit tick self entities j v)
              (visit_other tick self id entities j v differ) h
      ])

  pub visit_all-missed :
      (ids : List ℕ) (v : View)
      → has id ids ≡ false
      → IsUntouched v
      → IsUntouched (visit_all tick self entities ids v)
  unfolding visit_all
  visit_all-missed [] v out h = h
  visit_all-missed (j ∷ ids) v out h =
      visit_all-missed ids (visit tick self entities j v) (ground (arith, out)) (
        IsUntouched-Same v (visit tick self entities j v)
          (visit_other tick self id entities j v (ground (arith, out))) h)

pub Unique-visit_all :
    (tick self : ℕ) (entities : List (ℕ × Entity)) (ids : List ℕ) (v : View)
    → Unique v.known
    → Unique (visit_all tick self entities ids v).known
unfolding visit_all visit
Unique-visit_all tick self entities [] v u = u
Unique-visit_all tick self entities (j ∷ ids) v u =
    Unique-visit_all tick self entities ids (visit tick self entities j v) (
      if_keeps (λ (u : View). Unique u.known) (j == self) u
        (elim (Option-cases (lookup j entities)) [
          | inl gone ↦ rw gone u
          | inr (e, found) ↦ rw found (Unique-insert j tick v.known u)
        ]))
