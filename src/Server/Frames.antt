-- ===== src/Server/Frames.antt =====
-- What a connection that sleeps in takeOver sees of the events of others (internal/server/server.go:
-- takeOver).
use nytrpg.Prelude.{
  Bool-cases, Option, Option-cases, arith, delete, inl, inr, insert, lookup, lookup-delete,
  lookup-insert_other, lookup-insert_same, none, refl, some, subst, sym, ℕ, ◌<◌, ◌==◌, ◌∙◌, ◌≡◌,
  ◌≢◌, ◌⊎◌,
}
use nytrpg.Accounts.Auth.{AuthLibrary}
use nytrpg.Accounts.Characters.{Row}
use nytrpg.Game.Duel.Invariant.{if_keeps}
use nytrpg.Game.World.Players.{claim_online}
use nytrpg.Ranked.Elo.{Rating}
use nytrpg.Server.{
  Admission, Conn, Hub, HubEvent, Stage, admit, admitted, arrive, arrives, claimed, end, ends,
  give_up, gives_up, hub_step, joining, joining_leaving, leaving, playing, refused, take_over,
  upgrade, upgrades, waiting, wake, wakes, work_for, works,
}
use nytrpg.Server.Stages.{conn}
use nytrpg.Text.{Text}

-- The events in which connection `j` does nothing but wake.
abbrev pub IsAsleep : ℕ → HubEvent → Type 0
IsAsleep j (arrives a) = Unit
IsAsleep j (wakes k) = Unit
IsAsleep j (gives_up k) = k ≢ j
IsAsleep j (upgrades k r) = k ≢ j
IsAsleep j (ends k) = k ≢ j
IsAsleep j (works k dx dy now) = k ≢ j

-- A connection waits, or has claimed the slot.
abbrev pub IsAtDoor : (Stage → Conn) → Option Conn → Type 0
IsAtDoor at o = (o ≡ some (at waiting)) ⊎ (o ≡ some (at claimed))

module _ (i j : ℕ) (apart : i ≢ j) (pid : ℕ) (u : Text) (ch : Row) (h : Hub) where
  restaged_other :
      (stage : Stage) → lookup j (insert i (conn i pid u ch stage) h.conns) ≡ lookup j h.conns
  restaged_other stage = lookup-insert_other i j (conn i pid u ch stage) h.conns apart

  deleted_other : lookup j (delete i h.conns) ≡ lookup j h.conns
  deleted_other = lookup-delete i j h.conns ∙ ground (arith, apart)

  wake-other :
      (stage : Stage) → lookup j (wake i (some (conn i pid u ch stage)) h).conns ≡ lookup j h.conns
  wake-other waiting =
      if_keeps (λ (x : Hub). lookup j x.conns ≡ lookup j h.conns) (claim_online pid h.world).0
        (restaged_other claimed) refl
  wake-other claimed = refl
  wake-other playing = refl
  wake-other leaving = refl
  wake-other (joining r) = refl
  wake-other (joining_leaving r) = refl

  give_up-other :
      (stage : Stage)
      → lookup j (give_up i (some (conn i pid u ch stage)) h).0.conns ≡ lookup j h.conns
  give_up-other waiting = deleted_other
  give_up-other claimed = refl
  give_up-other playing = refl
  give_up-other leaving = refl
  give_up-other (joining r) = refl
  give_up-other (joining_leaving r) = refl

  upgrade-other :
      (r : Option Rating) (stage : Stage)
      → lookup j (upgrade i r (some (conn i pid u ch stage)) h).conns ≡ lookup j h.conns
  upgrade-other (some rating) claimed = restaged_other (joining rating)
  upgrade-other none claimed = deleted_other
  upgrade-other r waiting = refl
  upgrade-other r playing = refl
  upgrade-other r leaving = refl
  upgrade-other r (joining q) = refl
  upgrade-other r (joining_leaving q) = refl

  end-other :
      (stage : Stage) → lookup j (end i (some (conn i pid u ch stage)) h).conns ≡ lookup j h.conns
  end-other (joining r) = restaged_other (joining_leaving r)
  end-other playing = restaged_other leaving
  end-other waiting = refl
  end-other claimed = refl
  end-other leaving = refl
  end-other (joining_leaving r) = refl

  work_for-other :
      (dx dy now : ℕ) (stage : Stage)
      → lookup j (work_for i dx dy now (some (conn i pid u ch stage)) h).conns ≡ lookup j h.conns
  work_for-other dx dy now (joining r) = restaged_other playing
  work_for-other dx dy now (joining_leaving r) = restaged_other leaving
  work_for-other dx dy now leaving = deleted_other
  work_for-other dx dy now waiting = refl
  work_for-other dx dy now claimed = refl
  work_for-other dx dy now playing = refl

arrive-other :
    (j : ℕ) (a : Admission) (h : Hub)
    → j < h.next_conn
    → lookup j (arrive a h).0.conns ≡ lookup j h.conns
unfolding take_over
arrive-other j (refused status) h small = refl
arrive-other j (admitted p ch) h small =
    let apart : h.next_conn ≢ j = λ (same : h.next_conn ≡ j). omega (arith, small, same) in
    if_keeps (λ (x : Hub). lookup j x.conns ≡ lookup j h.conns) (claim_online p.id h.world).0
      (restaged_other h.next_conn j apart p.id p.username ch h claimed)
      (restaged_other h.next_conn j apart p.id p.username ch h waiting)

wake-IsAtDoor :
    (j pid : ℕ) (u : Text) (ch : Row) (h : Hub)
    → IsAtDoor (conn j pid u ch) (lookup j h.conns)
    → IsAtDoor (conn j pid u ch) (lookup j (wake j (lookup j h.conns) h).conns)
wake-IsAtDoor j pid u ch h (inl found) = rw found (
    if_keeps (λ (x : Hub). IsAtDoor (conn j pid u ch) (lookup j x.conns))
      (claim_online pid h.world).0 (inr (lookup-insert_same j (conn j pid u ch claimed) h.conns))
      (inl found))
wake-IsAtDoor j pid u ch h (inr found) = rw found (inr found)

module _ (lib : AuthLibrary) (secret : Text) (j pid : ℕ) (u : Text) (ch : Row) where
  -- A connection that does nothing but wake still waits after an event, or has claimed the slot.
  pub hub_step-IsAtDoor :
      (e : HubEvent) (h : Hub)
      → j < h.next_conn
      → IsAsleep j e
      → IsAtDoor (conn j pid u ch) (lookup j h.conns)
      → IsAtDoor (conn j pid u ch) (lookup j (hub_step lib secret e h).0.conns)
  unfolding hub_step
  hub_step-IsAtDoor (arrives a) h small asleep v =
      subst (IsAtDoor (conn j pid u ch)) (sym (arrive-other j (admit lib secret a) h small)) v
  hub_step-IsAtDoor (wakes i) h small asleep v = elim (Bool-cases (i == j)) [
    | inl same ↦
        let e : j ≡ i = ground arith in
        subst (λ (k : ℕ). IsAtDoor (conn j pid u ch) (lookup j (wake k (lookup k h.conns) h).conns))
          e (wake-IsAtDoor j pid u ch h v)
    | inr differ ↦
        let apart : i ≢ j = ground arith in
        elim (Option-cases (lookup i h.conns)) [
          | inl missing ↦ rw missing v
          | inr (c, found) ↦
              subst (IsAtDoor (conn j pid u ch))
                (rw found (sym (wake-other i j apart c.player_id c.username c.char h c.stage))) v
        ]
  ]
  hub_step-IsAtDoor (gives_up i) h small asleep v = elim (Option-cases (lookup i h.conns)) [
    | inl missing ↦ rw missing v
    | inr (c, found) ↦
        subst (IsAtDoor (conn j pid u ch))
          (rw found (sym (give_up-other i j asleep c.player_id c.username c.char h c.stage))) v
  ]
  hub_step-IsAtDoor (upgrades i r) h small asleep v = elim (Option-cases (lookup i h.conns)) [
    | inl missing ↦ rw missing v
    | inr (c, found) ↦
        subst (IsAtDoor (conn j pid u ch))
          (rw found (sym (upgrade-other i j asleep c.player_id c.username c.char h r c.stage))) v
  ]
  hub_step-IsAtDoor (ends i) h small asleep v = elim (Option-cases (lookup i h.conns)) [
    | inl missing ↦ rw missing v
    | inr (c, found) ↦
        subst (IsAtDoor (conn j pid u ch))
          (rw found (sym (end-other i j asleep c.player_id c.username c.char h c.stage))) v
  ]
  hub_step-IsAtDoor (works i dx dy now) h small asleep v = elim (Option-cases (lookup i h.conns)) [
    | inl missing ↦ rw missing v
    | inr (c, found) ↦
        subst (IsAtDoor (conn j pid u ch))
          (rw found
            (sym (work_for-other i j asleep c.player_id c.username c.char h dx dy now c.stage)))
          v
  ]
