-- ===== src/Game/World/Replicate/Known.antt =====
-- The map of the entities that a player knows (internal/game/replication.go), and what a client shows
-- of the updates that it gets (client/src/game.ts: applyWorldUpdate).
use nytrpg.Prelude.{
  ==_iff, Bool, Bool-cases, List, Option, [], ap, arith, delete, false, if◌then◌else◌, inl, inr,
  insert, lookup, lookup-delete, lookup-insert, none, not, refl, some, sym, true, ℕ, ◌==◌, ◌∙◌, ◌∷◌,
  ◌≡◌,
}
use nytrpg.Game.Duel.Invariant.{if_keeps}
use nytrpg.Game.Duel.Tick.{tick}
use nytrpg.Game.World.Grid.{has}
use nytrpg.Game.World.Replicate.{fresh, stale}

-- A Go map's keys are distinct.
abbrev pub Unique {ℓ} : {V : Type ℓ} → List (ℕ × V) → Type ℓ
Unique [] = Unit
Unique (kv ∷ m) = (lookup kv.0 m ≡ none) × Unique m

unless_none {ℓ} :
    {V : Type ℓ} (y : V) (o : Option V) (b : Bool)
    → b ≡ false
    → o ≡ none
    → (if b then some y else o) ≡ none
unless_none y o true e h = cc
unless_none y o false e h = h

pub Unique-insert {ℓ} :
    {V : Type ℓ} (k : ℕ) (v : V) (m : List (ℕ × V)) → Unique m → Unique (insert k v m)
Unique-insert k v [] u = (refl, tt)
Unique-insert k v ((j, x) ∷ m) u = elim (Bool-cases (j == k)) [
  | inl same ↦
      rw (same, if◌then◌else◌) (ap (λ (i : ℕ). lookup i m) (sym ((==_iff j k).0 same)) ∙ u.0, u.1)
  | inr differ ↦
      rw (differ, if◌then◌else◌)
        (
          lookup-insert k j v m ∙ unless_none v (lookup j m) (k == j) (ground arith) u.0,
          Unique-insert k v m u.1,
        )
]

abbrev pub seen_before : ℕ → Option ℕ → Bool
seen_before tick none = false
seen_before tick (some t) = not (t == tick)

module _ (tick id k t : ℕ) (known : List (ℕ × ℕ)) where
  stale_first :
      (b : Bool)
      → (k == id) ≡ b
      → lookup k known ≡ none
      → has id (stale tick known) ≡ seen_before tick (lookup id known)
      → has id (stale tick ((k, t) ∷ known))
        ≡ seen_before tick (if b then some t else lookup id known)
  unfolding stale
  stale_first true e u ih = elim (Bool-cases (t == tick)) [
    | inl now ↦
        rw (now, if◌then◌else◌)
          (ih
            ∙ ap (seen_before tick) (ap (λ (i : ℕ). lookup i known) (sym ((==_iff k id).0 e)) ∙ u))
    | inr past ↦ rw (past, if◌then◌else◌, e) refl
  ]
  stale_first false e u ih = elim (Bool-cases (t == tick)) [
    | inl now ↦ rw (now, if◌then◌else◌) ih
    | inr past ↦ rw (past, if◌then◌else◌, e) ih
  ]

pub has-stale :
    (tick id : ℕ) (known : List (ℕ × ℕ))
    → Unique known
    → has id (stale tick known) ≡ seen_before tick (lookup id known)
unfolding stale
has-stale tick id [] u = refl
has-stale tick id ((k, t) ∷ known) u =
    stale_first tick id k t known (k == id) refl u.0 (has-stale tick id known u.1)

abbrev pub seen_now : ℕ → Option ℕ → Option ℕ
seen_now tick none = none
seen_now tick (some t) = if t == tick then some t else none

module _ (tick id k t : ℕ) (known : List (ℕ × ℕ)) where
  fresh_first :
      (b : Bool)
      → (k == id) ≡ b
      → lookup k known ≡ none
      → lookup id (fresh tick known) ≡ seen_now tick (lookup id known)
      → lookup id (fresh tick ((k, t) ∷ known))
        ≡ seen_now tick (if b then some t else lookup id known)
  fresh_first true e u ih = elim (Bool-cases (t == tick)) [
    | inl now ↦ rw (now, if◌then◌else◌, e) refl
    | inr past ↦
        rw (past, if◌then◌else◌)
          (ih ∙ ap (seen_now tick) (ap (λ (i : ℕ). lookup i known) (sym ((==_iff k id).0 e)) ∙ u))
  ]
  fresh_first false e u ih = elim (Bool-cases (t == tick)) [
    | inl now ↦ rw (now, if◌then◌else◌, e) ih
    | inr past ↦ rw (past, if◌then◌else◌) ih
  ]

pub lookup-fresh :
    (tick id : ℕ) (known : List (ℕ × ℕ))
    → Unique known
    → lookup id (fresh tick known) ≡ seen_now tick (lookup id known)
lookup-fresh tick id [] u = refl
lookup-fresh tick id ((k, t) ∷ known) u =
    fresh_first tick id k t known (k == id) refl u.0 (lookup-fresh tick id known u.1)

pub Unique-fresh : (tick : ℕ) (known : List (ℕ × ℕ)) → Unique known → Unique (fresh tick known)
Unique-fresh tick [] u = tt
Unique-fresh tick ((k, t) ∷ known) u =
    if_keeps (λ (m : List (ℕ × ℕ)). Unique m) (t == tick)
      (lookup-fresh tick k known u.1 ∙ ap (seen_now tick) u.0, Unique-fresh tick known u.1)
      (Unique-fresh tick known u.1)

none_either {ℓ} : {V : Type ℓ} (b : Bool) (o : Option V) → o ≡ none → (if b then none else o) ≡ none
none_either true o h = refl
none_either false o h = h

pub Unique-delete {ℓ} : {V : Type ℓ} (k : ℕ) (m : List (ℕ × V)) → Unique m → Unique (delete k m)
Unique-delete k [] u = tt
Unique-delete k (jv ∷ m) u =
    if_keeps (λ r. Unique r) (jv.0 == k) (Unique-delete k m u.1)
      (lookup-delete k jv.0 m ∙ none_either (k == jv.0) (lookup jv.0 m) u.0, Unique-delete k m u.1)
