-- ===== src/Game/World/Replicate/Picture.antt =====
-- What a client shows of the world by the updates that it gets (client/src/game.ts: applyWorldUpdate).
-- What a client shows of an entity: its place and its elo.
use nytrpg.Prelude.{
  ==_iff, Bool, List, Option, [], ap, arith, false, if◌then◌else◌, none, refl, some, true, ℕ, ℤ,
  ◌++◌, ◌==◌, ◌∙◌, ◌∷◌, ◌≡◌,
}
use nytrpg.Game.World.Grid.{Vec, has}
use nytrpg.Game.World.State.{Entity, Spawn, Update}

abbrev pub Shown : Type 0
Shown = Option (Vec × ℤ)

abbrev pub Picture : Type 0
Picture = ℕ → Shown

-- The last entry of an id, which is the one that stays when a client goes through a list.
abbrev pub last_of {ℓ} : {V : Type ℓ} → ℕ → List (ℕ × V) → Option V
last_of id [] = none
last_of id (kv ∷ m) = elim (last_of id m) [
  | none ↦ if kv.0 == id then some kv.1 else none
  | some v ↦ some v
]

abbrev pub with_spawn : Option Spawn → Shown → Shown
with_spawn none s = s
with_spawn (some sp) s = some (sp.at, sp.elo)

abbrev pub with_move : Option Vec → Shown → Shown
with_move none s = s
with_move (some at) none = none
with_move (some at) (some (_, elo)) = some (at, elo)

abbrev pub with_elo : Option ℤ → Shown → Shown
with_elo none s = s
with_elo (some elo) none = none
with_elo (some elo) (some (at, _)) = some (at, elo)

-- An id after the spawns, moves and elos of an update.
abbrev pub shown_of : ℕ → Update → Shown → Shown
shown_of id u s =
    with_elo (last_of id u.elos)
      (with_move (last_of id u.moves) (with_spawn (last_of id u.spawns) s))

-- `applyWorldUpdate`: despawns come last.
abbrev pub apply_update : Update → Picture → Picture
apply_update u pic id = if has id u.despawns then none else shown_of id u (pic id)

last_after {ℓ} :
    {V : Type ℓ} (b c : Bool) (v x : V) (o : Option V)
    → (elim (if b then some v else o) [ none ↦ if c then some x else none | some y ↦ some y ])
      ≡ (if b then some v else elim o [ none ↦ if c then some x else none | some y ↦ some y ])
last_after true c v x o = refl
last_after false c v x o = refl

pub last_of-append {ℓ} :
    {V : Type ℓ} (id j : ℕ) (v : V) (m : List (ℕ × V))
    → last_of id (m ++ (j, v) ∷ []) ≡ (if j == id then some v else last_of id m)
last_of-append id j v [] = refl
last_of-append id j v ((k, x) ∷ m) =
    rw (last_of-append id j v m) (last_after (j == id) (k == id) v x (last_of id m))

-- An entry of another id, added or not.
pub last_of-other {ℓ} :
    {V : Type ℓ} (id j : ℕ) (b : Bool) (v : V) (m : List (ℕ × V))
    → (j == id) ≡ false
    → last_of id (if b then m ++ (j, v) ∷ [] else m) ≡ last_of id m
last_of-other id j true v m differ =
    last_of-append id j v m ∙ ap (λ (b : Bool). if b then some v else last_of id m) differ
last_of-other id j false v m differ = refl

if_holds {ℓ} : {V : Type ℓ} (x y : V) (b : Bool) → b ≡ true → (if b then x else y) ≡ x
if_holds x y true h = refl
if_holds x y false h = cc

-- An entry of the id itself.
pub last_of-own {ℓ} :
    {V : Type ℓ} (id : ℕ) (b : Bool) (v : V) (m : List (ℕ × V))
    → last_of id (if b then m ++ (id, v) ∷ [] else m) ≡ (if b then some v else last_of id m)
last_of-own id true v m =
    last_of-append id id v m ∙ if_holds (some v) (last_of id m) (id == id) ((==_iff id id).1 refl)
last_of-own id false v m = refl

-- A client shows an entity that it is told of in the past as it was, unless the entity is marked as
-- changed since; it shows no entity that it does not know.
abbrev pub Mirrors : Option ℕ → Option Entity → Shown → Type 0
Mirrors none o s = s ≡ none
Mirrors (some t) none s = Unit
Mirrors (some t) (some e) none = ⊥
Mirrors (some t) (some e) (some (at, elo)) =
    (e.moved ≡ false → at ≡ e.at) × (e.elo_changed ≡ false → elo ≡ e.elo)

-- A change that is told again, or for the first time, of an entity that is shown as it is.
pub told_again :
    (moved elo_changed : Bool) (at : Vec) (elo : ℤ) (l : Option ℤ) (m : Option Vec) (x : Shown)
    → with_elo l (with_move m x) ≡ some (at, elo)
    → with_elo (if elo_changed then some elo else l) (with_move (if moved then some at else m) x)
      ≡ some (at, elo)
told_again b c at elo none none none h = cc
told_again b c at elo none (some a) none h = cc
told_again b c at elo (some l) none none h = cc
told_again b c at elo (some l) (some a) none h = cc
told_again b c at elo none none (some (a, k)) h = ground arith
told_again b c at elo none (some a) (some (_, k)) h = ground arith
told_again b c at elo (some l) none (some (a, _)) h = ground arith
told_again b c at elo (some l) (some a) (some _) h = ground arith

-- A change that is told of an entity that is shown as it was.
pub told_first :
    (t : ℕ) (e : Entity) (s : Shown)
    → Mirrors (some t) (some e) s
    → with_elo
        (if e.elo_changed then some e.elo else none)
        (with_move (if e.moved then some e.at else none) s)
      ≡ some (e.at, e.elo)
told_first t e none h = elim h [ ]
told_first t e (some (at, elo)) h = ground (arith, h)
