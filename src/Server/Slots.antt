-- ===== src/Server/Slots.antt =====
-- Slots: who holds the one connection of each player (ClaimOnline and ReleaseOnline of
-- internal/game/presence.go, as internal/server/server.go uses them).
use nytrpg.Prelude.{
  Bool, Bool-cases, List, Option, [], ap, arith, false, if_none, if_some, if◌then◌else◌, inl, inr,
  none, some, subst, sym, true, ℕ, ◌++◌, ◌==◌, ◌∙◌, ◌∷◌, ◌≡◌, ◌≢◌, ◌⊎◌,
}
use nytrpg.Game.World.Grid.{drop_id, has}
use nytrpg.Game.World.Grid.Cells.{has-append, has-drop_id}

-- Which player's slot each connection holds, if it holds one, and the players who are online: a slot
-- is held once at most, and exactly the players whose slot is held are online.
pub record AreHeld (holder : ℕ → Option ℕ) (online : List ℕ) : Type 0 where
  pub single : (i j p : ℕ) → holder i ≡ some p → holder j ≡ some p → i ≡ j
  pub are_online : (i p : ℕ) → holder i ≡ some p → has p online ≡ true
  pub has_holder : (p : ℕ) → has p online ≡ true → (i : ℕ) × (holder i ≡ some p)

abbrev pub hold : ℕ → Option ℕ → (ℕ → Option ℕ) → ℕ → Option ℕ
hold i v holder j = if i == j then v else holder j

pub AreHeld-same :
    (holder holder' : ℕ → Option ℕ) (online : List ℕ)
    → ((j : ℕ) → holder' j ≡ holder j)
    → AreHeld holder online
    → AreHeld holder' online
AreHeld-same holder holder' online same v = record {
  single = λ i j p h k. v.single i j p (sym (same i) ∙ h) (sym (same j) ∙ k);
  are_online = λ i p h. v.are_online i p (sym (same i) ∙ h);
  has_holder = λ p h. let (i, held) = v.has_holder p h in (i, same i ∙ held);
}

online_not : {b : Bool} → b ≡ false → b ≡ true → ⊥
online_not h k = cc

none-some : {p : ℕ} → ◌≡◌ {A = Option ℕ} none (some p) → ⊥
none-some h = cc

some_injective : {p q : ℕ} → ◌≡◌ {A = Option ℕ} (some p) (some q) → p ≡ q
some_injective h = cc

module _ (i p : ℕ) (holder : ℕ → Option ℕ) (online : List ℕ) where
  -- A slot that is not taken is claimed.
  pub AreHeld-claim :
      holder i ≡ none
      → has p online ≡ false
      → AreHeld holder online
      → AreHeld (hold i (some p) holder) (online ++ p ∷ [])
  AreHeld-claim is_free offline v =
      let taken_before = λ (a q : ℕ) (same : p ≡ q) (h : holder a ≡ some q).
        online_not offline
          (subst (λ (x : ℕ). has x online ≡ true) (sym same) (v.are_online a q h)) in
      record {
        single = λ a b q h k. elim (claimed_cases a q h) [
          | inl (at_a, same) ↦ elim (claimed_cases b q k) [
            | inl (found, _) ↦ sym at_a ∙ found
            | inr (_, held) ↦ absurd (taken_before b q same held)
          ]
          | inr (_, held) ↦ elim (claimed_cases b q k) [
            | inl (found, same) ↦ absurd (taken_before a q same held)
            | inr (_, held') ↦ v.single a b q held held'
          ]
        ];
        are_online = λ a q h. has-append q online (p ∷ []) ∙ elim (claimed_cases a q h) [
          | inl (at_a, same) ↦ ground arith
          | inr (differ, held) ↦ ground (arith, v.are_online a q held)
        ];
        has_holder = λ q h. elim (Bool-cases (p == q)) [
          | inl same ↦ (i, ground arith)
          | inr differ ↦
              let (j, held) = v.has_holder q (was_online q differ h) in (j, put_other j q held)
        ];
      }
    where
      claimed_cases :
          (a q : ℕ)
          → hold i (some p) holder a ≡ some q
          → ((i ≡ a) × (p ≡ q)) ⊎ ((i ≢ a) × (holder a ≡ some q))
      claimed_cases a q h = elim (if_some (i == a) p q (holder a) h) [
        | inl (same, e) ↦ inl (ground arith, e)
        | inr (differ, e) ↦ inr (ground arith, e)
      ]

      was_online :
          (q : ℕ) → (p == q) ≡ false → has q (online ++ p ∷ []) ≡ true → has q online ≡ true
      was_online q differ h = ground (arith, has-append q online (p ∷ []))

      put_other : (j q : ℕ) → holder j ≡ some q → hold i (some p) holder j ≡ some q
      put_other j q held = elim (Bool-cases (i == j)) [
        | inl same ↦
            let e : i ≡ j = ground arith in absurd (none-some (sym is_free ∙ ap holder e ∙ held))
        | inr differ ↦ rw differ held
      ]

  -- A slot is released.
  pub AreHeld-release :
      holder i ≡ some p → AreHeld holder online → AreHeld (hold i none holder) (drop_id p online)
  AreHeld-release held v = record {
    single = λ a b q h k. v.single a b q (kept a q h).1 (kept b q k).1;
    are_online = λ a q h.
        let (differ, still) = kept a q h in
        has-drop_id p q online
        ∙ ground (
          arith,
          v.are_online a q still,
          λ (e : p ≡ q). differ (v.single i a p held (still ∙ ap some (sym e))),
        );
    has_holder = λ q h.
        let (other_player, was) = dropped q h in
        let (j, found) = v.has_holder q was in (j, hold_other j q other_player found);
  }
    where
      kept : (a q : ℕ) → hold i none holder a ≡ some q → (i ≢ a) × (holder a ≡ some q)
      kept a q h = let (differ, e) = if_none (i == a) q (holder a) h in (ground arith, e)

      dropped : (q : ℕ) → has q (drop_id p online) ≡ true → (p ≢ q) × (has q online ≡ true)
      dropped q h = ground (arith, has-drop_id p q online)

      hold_other : (j q : ℕ) → p ≢ q → holder j ≡ some q → hold i none holder j ≡ some q
      hold_other j q differ found = elim (Bool-cases (i == j)) [
        | inl same ↦
            let e : i ≡ j = ground arith in
            absurd (differ (some_injective (sym held ∙ ap holder e ∙ found)))
        | inr apart ↦ rw apart found
      ]
