-- ===== src/Game/World/Profile.antt =====
-- A player's profile as the world knows it (internal/game/profile.go, and playerByEntity of duel.go).
-- Recent duels are left to Ranked.Records. Two players are one if their entities are.
use nytrpg.Prelude.{
  ==_iff, Bool, List, Option, [], ap, false, if_some, if◌then◌else◌, inl, inr, is_some, length,
  lookup, none, refl, some, sym, true, ℕ, ℤ, ◌<◌, ◌==◌, ◌^◌, ◌∙◌, ◌∷◌, ◌≡◌, ◌⊎◌,
}
use nytrpg.Classes.{ClassId}
use nytrpg.Game.World.Events.Run.{Command, reached, reached-IsWorld}
use nytrpg.Game.World.Replicate.Picture.{Mirrors, Shown}
use nytrpg.Game.World.State.{Entity, Player, World, WorldMap}
use nytrpg.Game.World.Watch.{nothing_shown, watch}
use nytrpg.Ranked.Elo.{Floats, Rating, StakesInfo, stakes}
use nytrpg.Text.{Text}

-- `playerByEntity`
unfoldable pub player_by_entity : ℕ → List (ℕ × Player) → Option Player
player_by_entity id [] = none
player_by_entity id (cp ∷ players) =
    if cp.1.ent == id then some cp.1 else player_by_entity id players

-- Whose profile a player may see: its own, or that of someone in view.
unfoldable pub profile_target : Player → ℕ → World → Option Player
unfolding player_by_entity
profile_target p target w =
    if target == p.ent
    then some p
    else if is_some (lookup target p.known)
    then player_by_entity target w.players
    else none

found_ent :
    (id : ℕ) (players : List (ℕ × Player)) (t : Player)
    → player_by_entity id players ≡ some t
    → t.ent ≡ id
unfolding player_by_entity
found_ent id [] t h = cc
found_ent id (cp ∷ players) t h =
    elim (if_some (cp.1.ent == id) cp.1 t (player_by_entity id players) h) [
      | inl (same, is_t) ↦ ap (λ (q : Player). q.ent) (sym is_t) ∙ (==_iff cp.1.ent id).0 same
      | inr (_, later) ↦ found_ent id players t later
    ]

if_then {ℓ} :
    {V : Type ℓ} (b : Bool) (v : V) (o : Option V)
    → (if b then o else none) ≡ some v
    → (b ≡ true) × (o ≡ some v)
if_then true v o h = (refl, h)
if_then false v o h = cc

-- The player whose profile is shown is the one of the entity, and its viewer's own or known.
profile_target-ent :
    (p t : Player) (target : ℕ) (w : World)
    → profile_target p target w ≡ some t
    → ((target ≡ p.ent) × (t.ent ≡ target))
      ⊎ ((is_some (lookup target p.known) ≡ true) × (t.ent ≡ target))
unfolding profile_target
profile_target-ent p t target w h =
    elim (if_some (target == p.ent) p t
      (if is_some (lookup target p.known) then player_by_entity target w.players else none) h) [
        | inl (same, is_t) ↦
            let own = (==_iff target p.ent).0 same in
            inl (own, ap (λ (q : Player). q.ent) (sym is_t) ∙ sym own)
        | inr (_, later) ↦
            let (known, by_entity) =
              if_then (is_some (lookup target p.known)) t (player_by_entity target w.players)
                later in
            inr (known, found_ent target w.players t by_entity)
      ]

-- What a player knows of an entity that is there, its client shows.
Mirrors-shown :
    (k : Option ℕ) (o : Option Entity) (s : Shown)
    → is_some k ≡ true
    → is_some o ≡ true
    → Mirrors k o s
    → is_some s ≡ true
Mirrors-shown none o s h j m = cc
Mirrors-shown (some t) none s h j m = cc
Mirrors-shown (some t) (some e) none h j m = elim m [ ]
Mirrors-shown (some t) (some e) (some x) h j m = refl

module _ (fl : Floats) where
  -- protocol.Profile
  pub record Profile : Type 0 where
    pub id : ℕ
    pub name : Text
    pub char_name : Text
    pub class : ClassId
    pub rating : Rating
    pub stakes_against : Option (StakesInfo fl)

  abbrev pub profile_with : Player → Player → Option Entity → Option (Profile × ℕ)
  profile_with p t none = none
  profile_with p t (some e) = some (
    record {
      id = t.ent;
      name = e.name;
      char_name = e.char_name;
      class = e.class;
      rating = t.rating;
      stakes_against = (if t.ent == p.ent then none else some (stakes fl p.rating t.rating));
    },
    t.char_id,
  )

  abbrev pub profile_by : Player → Option Player → World → Option (Profile × ℕ)
  profile_by p none w = none
  profile_by p (some t) w = profile_with p t (lookup t.ent w.entities)

  -- `profileOf` of a player who is there, with the character's id.
  unfoldable pub profile_of : Player → ℕ → World → Option (Profile × ℕ)
  unfolding profile_target
  profile_of p target w = profile_by p (profile_target p target w) w

  profile_with-id :
      (p t : Player) (o : Option Entity) (prof : Profile) (char_id : ℕ)
      → profile_with p t o ≡ some (prof, char_id)
      → (prof.id ≡ t.ent) × (is_some o ≡ true)
  profile_with-id p t none prof char_id h = cc
  profile_with-id p t (some e) prof char_id h =
      (sym (ap (λ (q : Option (Profile × ℕ)). id_in t.ent q) h), refl)
    where
      id_in : ℕ → Option (Profile × ℕ) → ℕ
      id_in d none = d
      id_in d (some q) = q.0.id

  profile_by-target :
      (p : Player) (o : Option Player) (w : World) (prof : Profile) (char_id : ℕ)
      → profile_by p o w ≡ some (prof, char_id)
      → (t : Player) × (o ≡ some t) × (prof.id ≡ t.ent) × (is_some (lookup t.ent w.entities) ≡ true)
  profile_by-target p none w prof char_id h = cc
  profile_by-target p (some t) w prof char_id h =
      let (same, stored) = profile_with-id p t (lookup t.ent w.entities) prof char_id h in
      (t, refl, same, stored)

  -- A player in a world that was reached in fewer than 2^32 events is shown only its own profile, or
  -- that of a player whom its client shows; and the profile is the one that was asked for.
  pub profile_of-shown :
      (hypot : ℤ → ℤ → ℕ) (area : WorldMap) (es : List Command) (c target : ℕ) (p : Player)
      (prof : Profile) (char_id : ℕ)
      → length es < 2 ^ 32
      → lookup c (reached hypot area es).players ≡ some p
      → profile_of p target (reached hypot area es) ≡ some (prof, char_id)
      → (prof.id ≡ target)
        × ((target ≡ p.ent)
            ⊎ (is_some (watch c (reached hypot area es).outbox nothing_shown target) ≡ true))
  unfolding profile_of
  profile_of-shown hypot area es c target p prof char_id room found h =
      let w = reached hypot area es in
      let f = (reached-IsWorld hypot area es room).follows c p found in
      let (t, aimed, same, stored) =
        profile_by-target p (profile_target p target w) w prof char_id h in
      elim (profile_target-ent p t target w aimed) [
        | inl (own, at) ↦ (same ∙ at, inl own)
        | inr (known, at) ↦ (
          same ∙ at,
          inr (
              Mirrors-shown (lookup target p.known) (lookup target w.entities)
                (watch c w.outbox nothing_shown target) known
                (ap (λ (i : ℕ). is_some (lookup i w.entities)) (sym at) ∙ stored)
                (f.mirrors target)),
        )
      ]
