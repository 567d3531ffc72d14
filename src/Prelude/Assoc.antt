-- ===== src/Prelude/Assoc.antt =====
-- Go maps with integer keys as association lists: at most one entry per key, in no promised order.
use Prim.Native.Nat.{ℕ}
use mathlib.Core.Path.{◌≡◌, refl, sym, ◌∙◌}
use mathlib.Core.Logic.{◌≢◌, ◌⊎◌, inl, inr}
use mathlib.Core.Bool.{Bool, true, false}
use mathlib.Core.List.{List, [], ◌∷◌}
use mathlib.Core.Option.{Option, none, some}
use native.Mathlib.Omega.{arith}
use nytrpg.Prelude.Tests.{if◌then◌else◌, ◌==◌}

module _ {ℓ} {V : Type ℓ} where
  -- `m[k]`
  abbrev pub lookup : ℕ → List (ℕ × V) → Option V
  lookup k [] = none
  lookup k ((j, v) ∷ m) = if j == k then some v else lookup k m

  -- `m[k] = v`
  abbrev pub insert : ℕ → V → List (ℕ × V) → List (ℕ × V)
  insert k v [] = (k, v) ∷ []
  insert k v ((j, w) ∷ m) = if j == k then (k, v) ∷ m else (j, w) ∷ insert k v m

  -- `delete(m, k)`
  abbrev pub delete : ℕ → List (ℕ × V) → List (ℕ × V)
  delete k [] = []
  delete k ((j, w) ∷ m) = let rest = delete k m in if j == k then rest else (j, w) ∷ rest

module _ {ℓ} {V : Type ℓ} where
  pub lookup-insert :
      (k j : ℕ) (v : V) (m : List (ℕ × V))
      → lookup j (insert k v m) ≡ (if k == j then some v else lookup j m)
  lookup-insert k j v [] = refl
  lookup-insert k j v ((i, w) ∷ m) = ground (arith, lookup-insert k j v m)

  pub lookup-delete :
      (k j : ℕ) (m : List (ℕ × V)) → lookup j (delete k m) ≡ (if k == j then none else lookup j m)
  lookup-delete k j [] = ground arith
  lookup-delete k j ((i, w) ∷ m) = ground (arith, lookup-delete k j m)

  pub lookup-insert_same : (k : ℕ) (v : V) (m : List (ℕ × V)) → lookup k (insert k v m) ≡ some v
  lookup-insert_same k v [] = ground arith
  lookup-insert_same k v ((j, w) ∷ m) = ground (arith, lookup-insert_same k v m)

  pub lookup-insert_other :
      (k j : ℕ) (v : V) (m : List (ℕ × V)) → (k ≡ j → ⊥) → lookup j (insert k v m) ≡ lookup j m
  lookup-insert_other k j v m differ = lookup-insert k j v m ∙ ground (arith, differ)

pub if_some {ℓ} :
    {V : Type ℓ} (b : Bool) (v w : V) (o : Option V)
    → (if b then some v else o) ≡ some w
    → ((b ≡ true) × (v ≡ w)) ⊎ ((b ≡ false) × (o ≡ some w))
if_some true v w o h = inl (refl, cc)
if_some false v w o h = inr (refl, h)

pub if_none {ℓ} :
    {V : Type ℓ} (b : Bool) (w : V) (o : Option V)
    → (if b then none else o) ≡ some w
    → (b ≡ false) × (o ≡ some w)
if_none true w o h = cc
if_none false w o h = (refl, h)

-- What is found after an insert is the new value, under its key, or was there.
pub lookup-insert_cases {ℓ} :
    {V : Type ℓ} (k j : ℕ) (v w : V) (m : List (ℕ × V))
    → lookup j (insert k v m) ≡ some w
    → ((k ≡ j) × (v ≡ w)) ⊎ ((k ≢ j) × (lookup j m ≡ some w))
lookup-insert_cases k j v w m h =
    elim (if_some (k == j) v w (lookup j m) (sym (lookup-insert k j v m) ∙ h)) [
      | inl (same, found) ↦ inl (ground arith, found)
      | inr (differ, found) ↦ inr (ground arith, found)
    ]

pub lookup-delete_cases {ℓ} :
    {V : Type ℓ} (k j : ℕ) (w : V) (m : List (ℕ × V))
    → lookup j (delete k m) ≡ some w
    → (k ≢ j) × (lookup j m ≡ some w)
lookup-delete_cases k j w m h =
    let (differ, found) = if_none (k == j) w (lookup j m) (sym (lookup-delete k j m) ∙ h) in
    (ground arith, found)
