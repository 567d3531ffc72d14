-- ===== src/Server/Steps.antt =====
-- What one event does to the slots and to the world's players (internal/server/server.go).
use nytrpg.Prelude.{
  Bool, Bool-cases, List, Option, [], ap, ap₂, arith, delete, false, if◌then◌else◌, inl, inr,
  insert, lookup, lookup-delete, lookup-delete_cases, lookup-insert, lookup-insert_cases, none,
  refl, some, subst, sym, true, ℕ, ◌++◌, ◌<◌, ◌==◌, ◌∙◌, ◌∷◌, ◌≡◌, ◌≤◌,
}
use nytrpg.Game.World.Grid.{drop_id, has}
use nytrpg.Game.World.State.{Player}
use nytrpg.Server.{Conn, Hub, Stage, claimed, leaving, playing, waiting}
use nytrpg.Server.Slots.{AreHeld, AreHeld-claim, AreHeld-release, AreHeld-same}

abbrev pub holds_slot : Stage → Bool
holds_slot waiting = false
holds_slot _ = true

abbrev pub in_world : Stage → Bool
in_world playing = true
in_world leaving = true
in_world _ = false

-- The player whose slot a connection holds, the one that it has in the world, and the one that the
-- world has for it.
abbrev pub who_holds : Option Conn → Option ℕ
who_holds none = none
who_holds (some c) = if holds_slot c.stage then some c.player_id else none

abbrev pub who_present : Option Conn → Option ℕ
who_present none = none
who_present (some c) = if in_world c.stage then some c.player_id else none

abbrev pub who_plays : Option Player → Option ℕ
who_plays none = none
who_plays (some q) = some q.player_id

-- The slots are held by their connections, and the world has the players of the connections that are
-- in it, and no others.
pub record IsHubState (players : List (ℕ × Player)) (online : List ℕ) (conns : List (ℕ × Conn))
    (next : ℕ) : Type 0 where
  pub slots : AreHeld (λ i. who_holds (lookup i conns)) online
  pub present : (i : ℕ) → who_plays (lookup i players) ≡ who_present (lookup i conns)
  pub below : (i : ℕ) (c : Conn) → lookup i conns ≡ some c → i < next

abbrev pub IsHub : Hub → Type 0
IsHub h = IsHubState h.world.players h.world.online h.conns h.next_conn

push {ℓ κ} :
    {A : Type ℓ} {B : Type κ} (f : A → B) (b : Bool) (x y : A)
    → f (if b then x else y) ≡ (if b then f x else f y)
push f true x y = refl
push f false x y = refl

same_put : (i j : ℕ) (v : Option ℕ) (f : ℕ → Option ℕ) → v ≡ f i → (if i == j then v else f j) ≡ f j
same_put i j v f h = elim (Bool-cases (i == j)) [
  | inl same ↦ let e : i ≡ j = ground arith in rw (same, if◌then◌else◌) (h ∙ ap f e)
  | inr differ ↦ rw differ refl
]

below_insert :
    (i next next' : ℕ) (c : Conn) (conns : List (ℕ × Conn))
    → i < next'
    → next ≤ next'
    → ((j : ℕ) (d : Conn) → lookup j conns ≡ some d → j < next)
    → (j : ℕ) (d : Conn) → lookup j (insert i c conns) ≡ some d
    → j < next'
below_insert i next next' c conns small more below j d h =
    elim (lookup-insert_cases i j c d conns h) [
      | inl (same, _) ↦ subst (λ (k : ℕ). k < next') same small
      | inr (_, old) ↦ let old_below = below j d old in omega (arith, old_below)
    ]

module _ {players : List (ℕ × Player)} {online : List ℕ} {conns : List (ℕ × Conn)} {next : ℕ}
    (v : IsHubState players online conns next) where
  -- A connection that changes its stage, but not what it holds, or a new one that holds nothing.
  pub put-IsHubState :
      (i next' : ℕ) (c : Conn)
      → i < next'
      → next ≤ next'
      → who_holds (some c) ≡ who_holds (lookup i conns)
      → who_present (some c) ≡ who_present (lookup i conns)
      → IsHubState players online (insert i c conns) next'
  put-IsHubState i next' c small more same_hold same_present = record {
    slots =
        AreHeld-same _ _ online
          (λ j.
            ap who_holds (lookup-insert i j c conns)
            ∙ push who_holds (i == j) (some c) (lookup j conns)
            ∙ same_put i j (who_holds (some c)) (λ k. who_holds (lookup k conns)) same_hold)
          v.slots;
    present = λ j.
        v.present j
        ∙ sym (
            ap who_present (lookup-insert i j c conns)
            ∙ push who_present (i == j) (some c) (lookup j conns)
            ∙ same_put i j (who_present (some c)) (λ k. who_present (lookup k conns)) same_present);
    below = below_insert i next next' c conns small more v.below;
  }

  -- A connection, new or waiting, gets the slot of its player.
  pub claim-IsHubState :
      (i next' : ℕ) (c : Conn)
      → i < next'
      → next ≤ next'
      → who_holds (lookup i conns) ≡ none
      → who_present (lookup i conns) ≡ none
      → c.stage ≡ claimed
      → has c.player_id online ≡ false
      → IsHubState players (online ++ c.player_id ∷ []) (insert i c conns) next'
  claim-IsHubState i next' c small more no_hold no_present at_claimed offline = record {
    slots =
        AreHeld-same _ _ (online ++ c.player_id ∷ [])
          (λ j.
            ap who_holds (lookup-insert i j c conns)
            ∙ push who_holds (i == j) (some c) (lookup j conns)
            ∙ rw (at_claimed) refl)
          (AreHeld-claim i c.player_id _ online no_hold offline v.slots);
    present = λ j.
        v.present j
        ∙ sym (
            ap who_present (lookup-insert i j c conns)
            ∙ push who_present (i == j) (some c) (lookup j conns)
            ∙ same_put i j (who_present (some c)) (λ k. who_present (lookup k conns))
                (rw (at_claimed, no_present) refl));
    below = below_insert i next next' c conns small more v.below;
  }

  below-delete : (i j : ℕ) (d : Conn) → lookup j (delete i conns) ≡ some d → j < next
  below-delete i j d h = v.below j d (lookup-delete_cases i j d conns h).1

  drop-present :
      (i : ℕ)
      → who_present (lookup i conns) ≡ none
      → (j : ℕ) → who_plays (lookup j players) ≡ who_present (lookup j (delete i conns))
  drop-present i no_present j =
      v.present j
      ∙ sym (
          ap who_present (lookup-delete i j conns)
          ∙ push who_present (i == j) none (lookup j conns)
          ∙ same_put i j none (λ k. who_present (lookup k conns)) (sym no_present))

  -- A connection that has no slot goes.
  pub drop-IsHubState :
      (i : ℕ)
      → who_holds (lookup i conns) ≡ none
      → who_present (lookup i conns) ≡ none
      → IsHubState players online (delete i conns) next
  drop-IsHubState i no_hold no_present = record {
    slots =
        AreHeld-same _ _ online
          (λ j.
            ap who_holds (lookup-delete i j conns)
            ∙ push who_holds (i == j) none (lookup j conns)
            ∙ same_put i j none (λ k. who_holds (lookup k conns)) (sym no_hold))
          v.slots;
    present = drop-present i no_present;
    below = below-delete i;
  }

  -- A connection that has the slot of `p` gives it back and goes; so does the world's player for it.
  pub release-IsHubState :
      (i p : ℕ)
      → who_holds (lookup i conns) ≡ some p
      → IsHubState (delete i players) (drop_id p online) (delete i conns) next
  release-IsHubState i p held = record {
    slots =
        AreHeld-same _ _ (drop_id p online)
          (λ j.
            ap who_holds (lookup-delete i j conns) ∙ push who_holds (i == j) none (lookup j conns))
          (AreHeld-release i p _ online held v.slots);
    present = λ j.
        ap who_plays (lookup-delete i j players)
        ∙ push who_plays (i == j) none (lookup j players)
        ∙ ap (λ (o : Option ℕ). if i == j then none else o) (v.present j)
        ∙ sym (
            ap who_present (lookup-delete i j conns)
            ∙ push who_present (i == j) none (lookup j conns));
    below = below-delete i;
  }

  -- The upgrade of a connection that is not in the world failed.
  pub fail-IsHubState :
      (i p : ℕ)
      → who_holds (lookup i conns) ≡ some p
      → who_present (lookup i conns) ≡ none
      → IsHubState players (drop_id p online) (delete i conns) next
  fail-IsHubState i p held no_present =
      let r = release-IsHubState i p held in
      record { slots = r.slots; present = drop-present i no_present; below = r.below }

  -- The world takes in the player of a connection.
  pub enter-IsHubState :
      (i : ℕ) (c c' : Conn) (q : Player)
      → lookup i conns ≡ some c
      → who_holds (some c') ≡ who_holds (some c)
      → who_present (some c') ≡ some q.player_id
      → IsHubState (insert i q players) online (insert i c' conns) next
  enter-IsHubState i c c' q was same_hold is_in = record {
    slots =
        AreHeld-same _ _ online
          (λ j.
            ap who_holds (lookup-insert i j c' conns)
            ∙ push who_holds (i == j) (some c') (lookup j conns)
            ∙ same_put i j (who_holds (some c')) (λ k. who_holds (lookup k conns))
                (same_hold ∙ ap who_holds (sym was)))
          v.slots;
    present = λ j.
        ap who_plays (lookup-insert i j q players)
        ∙ push who_plays (i == j) (some q) (lookup j players)
        ∙ ap₂ (λ (o o' : Option ℕ). if i == j then o else o') (sym is_in) (v.present j)
        ∙ sym (
            ap who_present (lookup-insert i j c' conns)
            ∙ push who_present (i == j) (some c') (lookup j conns));
    below = below_insert i next next c' conns (v.below i c was) (omega arith) v.below;
  }
