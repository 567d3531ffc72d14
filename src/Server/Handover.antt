-- ===== src/Server/Handover.antt =====
-- A connection that waits takes the place of the one it closes (takeOver of internal/server/server.go).
use nytrpg.Prelude.{
  Bool, Bool-cases, List, Option, Option-cases, [], ap, arith, false, inl, inr, lookup,
  lookup-insert_same, none, refl, some, subst, sym, true, ℕ, ◌++◌, ◌∙◌, ◌∷◌, ◌≡◌, ◌≢◌, ◌⊎◌,
}
use nytrpg.Accounts.Auth.{AuthLibrary}
use nytrpg.Accounts.Characters.{Row}
use nytrpg.Game.World.Grid.{has}
use nytrpg.Game.World.Players.{claim_online}
use nytrpg.Server.{
  Conn, Hub, HubEvent, Stage, claimed, end, ends, hub_run, hub_step, playing, waiting, wakes,
  work_for, works,
}
use nytrpg.Server.Stages.{conn}
use nytrpg.Server.Steps.{IsHub, who_holds}
use nytrpg.Server.Waiting.{
  IsAside, IsWaiting, end-plays, hub_run-IsWaiting, hub_run-append, hub_step-IsWaiting, is_going,
  is_leaving, is_playing, leaver, no_leaver, plays, work_for-leaver,
}
use nytrpg.Text.{Text}

conns_apart :
    (i j pid : ℕ) (u u' : Text) (ch ch' : Row) (h : Hub)
    → lookup i h.conns ≡ some (conn i pid u' ch' playing)
    → lookup j h.conns ≡ some (conn j pid u ch waiting)
    → i ≢ j
conns_apart i j pid u u' ch ch' h found other_found same =
    differ (ap (plays i j pid) (sym found ∙ ap (λ (k : ℕ). lookup k h.conns) same ∙ other_found))
  where
    differ : true ≡ false → ⊥
    differ e = cc

module _ (i j pid : ℕ) (lib : AuthLibrary) (secret : Text) (u : Text) (ch : Row) where
  abbrev Waits : Bool → Bool → Hub → Type 0
  Waits = IsWaiting i j pid lib secret u ch

  still_leaving :
      (s : Stage)
      → is_playing s ≡ false
      → is_going true true s ≡ true
      → is_going false true s ≡ true
  still_leaving s idle going = ground (arith, idle, going)

  -- Once `i` has ended it does not play.
  ends-Waits :
      (h : Hub) → i ≢ j → Waits true true h → Waits false true (hub_step lib secret (ends i) h).0
  unfolding hub_step
  ends-Waits h apart v =
      let after =
        hub_step-IsWaiting i j pid lib secret u ch true true (ends i) h (λ _. refl) apart
          (λ w r came. came) v in
      record {
        hub = after.hub;
        door = after.door;
        last = λ k c found same. elim (after.last k c found same) [
          | inl at_j ↦ inl at_j
          | inr (at_i, going) ↦ inr (at_i, still_leaving c.stage (idle k c at_i found) going)
        ];
      }
    where
      ended : plays i j pid (lookup i (end i (lookup i h.conns) h).conns) ≡ false
      ended = elim (Option-cases (lookup i h.conns)) [
        | inl missing ↦ rw missing (ap (plays i j pid) missing)
        | inr (c, found) ↦
            rw found (end-plays i j pid c.player_id c.username c.char c.stage h found)
      ]

      idle :
          (k : ℕ) (c : Conn)
          → k ≡ i
          → lookup k (end i (lookup i h.conns) h).conns ≡ some c
          → is_playing c.stage ≡ false
      idle k c at_i found =
          sym (
            ap (plays i j pid)
              (subst (λ (x : ℕ). lookup x (end i (lookup i h.conns) h).conns ≡ some c) at_i found))
          ∙ ended

  -- Once the world has run the Leave of `i`, only `j` is left.
  works-Waits :
      (dx dy now : ℕ) (h : Hub)
      → i ≢ j
      → Waits false true h
      → Waits false false (hub_step lib secret (works i dx dy now) h).0
  unfolding hub_step
  works-Waits dx dy now h apart v =
      let after =
        hub_step-IsWaiting i j pid lib secret u ch false true (works i dx dy now) h (λ _. refl)
          apart (λ w r came. came) v in
      record {
        hub = after.hub;
        door = after.door;
        last = λ k c found same. elim (after.last k c found same) [
          | inl at_j ↦ inl at_j
          | inr (at_i, going) ↦ absurd (still_there k c at_i found same going)
        ];
      }
    where
      next : Hub
      next = work_for i dx dy now (lookup i h.conns) h

      worked : leaver i j pid (lookup i next.conns) ≡ some pid → ⊥
      worked left = elim (Option-cases (lookup i h.conns)) [
        | inl missing ↦ no_leaver i j pid (
            sym (ap (leaver i j pid) missing)
            ∙ subst
                (λ (o : Option Conn).
                  leaver i j pid (lookup i (work_for i dx dy now o h).conns) ≡ some pid)
                missing left)
        | inr (c, found) ↦
            work_for-leaver i j pid dx dy now c.player_id c.username c.char c.stage h apart found
              (v.last i c found)
              (subst
                (λ (o : Option Conn).
                  leaver i j pid (lookup i (work_for i dx dy now o h).conns) ≡ some pid)
                found left)
      ]

      still_there :
          (k : ℕ) (c : Conn)
          → k ≡ i
          → lookup k next.conns ≡ some c
          → c.player_id ≡ pid
          → is_leaving c.stage ≡ true
          → ⊥
      still_there k c at_i found same goes = worked (
          ap (leaver i j pid) (subst (λ (x : ℕ). lookup x next.conns ≡ some c) at_i found)
          ∙ rw (goes, same) refl)

  -- Nobody else holds the slot, so `j` has it once it wakes.
  wakes-Waits :
      (h : Hub)
      → Waits false false h
      → lookup j (hub_step lib secret (wakes j) h).0.conns ≡ some (conn j pid u ch claimed)
  unfolding hub_step claim_online
  wakes-Waits h v = elim v.door [
    | inr found ↦ rw found found
    | inl found ↦ rw (found, is_free found) (lookup-insert_same j (conn j pid u ch claimed) h.conns)
  ]
    where
      no_holder :
          lookup j h.conns ≡ some (conn j pid u ch waiting)
          → (k : ℕ) → (o : Option Conn) → lookup k h.conns ≡ o
          → who_holds o ≡ some pid
          → ⊥
      no_holder found k none at_k held = no_leaver i j pid held
      no_holder found k (some c) at_k held = elim (v.last k c at_k (ground (arith, held))) [
        | inr (_, never) ↦ cc
        | inl at_j ↦
            no_leaver i j pid
              (sym (ap who_holds (sym at_k ∙ ap (λ (x : ℕ). lookup x h.conns) at_j ∙ found)) ∙ held)
      ]

      is_free : lookup j h.conns ≡ some (conn j pid u ch waiting) → has pid h.world.online ≡ false
      is_free found = elim (Bool-cases (has pid h.world.online)) [
        | inr offline ↦ offline
        | inl taken ↦
            let (k, held) = v.hub.slots.has_holder pid taken in
            absurd (no_holder found k (lookup k h.conns) refl held)
      ]

-- In a valid server, let `i` be a player's connection that plays, `j` one of the same player that
-- waits, and let the player have no third one. Then, whatever else happens in between, `j` has the
-- slot when it wakes after `i` has ended and the world has run its Leave: in a run in which no
-- further request of the player comes and `j` does nothing but wake, as often as it may.
pub hub_run-handover :
    (lib : AuthLibrary) (secret : Text) (h : Hub) (i j pid : ℕ) (u u' : Text) (ch ch' : Row)
    (es es' es'' : List HubEvent) (dx dy now : ℕ)
    → IsHub h
    → lookup i h.conns ≡ some (conn i pid u' ch' playing)
    → lookup j h.conns ≡ some (conn j pid u ch waiting)
    → ((k : ℕ) (c : Conn) → lookup k h.conns ≡ some c → c.player_id ≡ pid → (k ≡ i) ⊎ (k ≡ j))
    → IsAside i j pid lib secret u ch es
    → IsAside i j pid lib secret u ch es'
    → IsAside i j pid lib secret u ch es''
    → lookup j
        (hub_run lib secret
          (es ++ ((ends i ∷ es') ++ ((works i dx dy now ∷ es'') ++ (wakes j ∷ []))))
          h).conns
      ≡ some (conn j pid u ch claimed)
unfolding hub_run
hub_run-handover lib secret h i j pid u u' ch ch' es es' es'' dx dy now v found other_found only
      aside aside' aside'' =
    let Waits = IsWaiting i j pid lib secret u ch in
    let run = λ (xs : List HubEvent) (x : Hub). hub_run lib secret xs x in
    let apart : i ≢ j = conns_apart i j pid u u' ch ch' h found other_found in
    let w : Waits true true h = record {
      hub = v;
      door = inl other_found;
      last = λ k c at_k same. elim (only k c at_k same) [
        | inr at_j ↦ inl at_j
        | inl at_i ↦ inr (at_i, ap going (sym at_k ∙ ap (λ (x : ℕ). lookup x h.conns) at_i ∙ found))
      ];
    } in
    let h1 = run es h in
    let w1 = hub_run-IsWaiting i j pid lib secret u ch true true es h (λ _. refl) aside w in
    let h2 = (hub_step lib secret (ends i) h1).0 in
    let w2 = ends-Waits i j pid lib secret u ch h1 apart w1 in
    let h3 = run es' h2 in
    let w3 = hub_run-IsWaiting i j pid lib secret u ch false true es' h2 (λ _. refl) aside' w2 in
    let h4 = (hub_step lib secret (works i dx dy now) h3).0 in
    let w4 = works-Waits i j pid lib secret u ch dx dy now h3 apart w3 in
    let w5 = hub_run-IsWaiting i j pid lib secret u ch false false es'' h4 (λ e. e) aside'' w4 in
    let at = λ (x : Hub). lookup j x.conns in
    ap at (
      hub_run-append lib secret es
        ((ends i ∷ es') ++ ((works i dx dy now ∷ es'') ++ (wakes j ∷ []))) h)
    ∙ ap at
        (hub_run-append lib secret (ends i ∷ es') ((works i dx dy now ∷ es'') ++ (wakes j ∷ [])) h1)
    ∙ ap at (hub_run-append lib secret (works i dx dy now ∷ es'') (wakes j ∷ []) h3)
    ∙ wakes-Waits i j pid lib secret u ch (run es'' h4) w5
  where
    going : Option Conn → Bool
    going none = false
    going (some c) = is_going true true c.stage
