-- ===== src/Server/Stages.antt =====
-- What each event of a connection does at each of its stages (internal/server/server.go: takeOver, join,
-- leave).
use nytrpg.Prelude.{
  Bool-cases, List, Option, Option-cases, ap, arith, delete, if◌then◌else◌, inl, inr, lookup, none,
  refl, some, sym, true, ℕ, ◌+◌, ◌∙◌, ◌≡◌,
}
use nytrpg.Accounts.Characters.{Row}
use nytrpg.Accounts.Players.{PlayerRow}
use nytrpg.Game.Lobby.{leave_lobby}
use nytrpg.Game.World.Grid.{drop_id, has}
use nytrpg.Game.World.Players.{claim_online, join, leave, leave_player, release_online}
use nytrpg.Game.World.State.{Entity, Player, World, new_entity, remove_entity, remove_stored}
use nytrpg.Ranked.Elo.{Rating}
use nytrpg.Server.{
  Admission, Conn, Hub, Stage, admitted, arrive, claimed, end, give_up, joining, joining_leaving,
  leaving, playing, refused, stage_to, take_over, upgrade, waiting, wake, work_for,
}
use nytrpg.Server.Steps.{
  IsHub, IsHubState, claim-IsHubState, drop-IsHubState, enter-IsHubState, fail-IsHubState,
  holds_slot, in_world, put-IsHubState, release-IsHubState, who_plays,
}
use nytrpg.Text.{Text}

players-remove_stored :
    (id : ℕ) (o : Option Entity) (w : World)
    → ((remove_stored id o w).players ≡ w.players) × ((remove_stored id o w).online ≡ w.online)
unfolding remove_stored
players-remove_stored id none w = (refl, refl)
players-remove_stored id (some e) w = (refl, refl)

-- Leave takes the player out and releases its slot.
pub leave_players :
    (i : ℕ) (q : Player) (w : World)
    → lookup i w.players ≡ some q
    → ((leave i w).players ≡ delete i w.players)
      × ((leave i w).online ≡ drop_id q.player_id w.online)
unfolding leave leave_player remove_entity release_online
leave_players i q w h =
    let w1 = record w { lobby = leave_lobby i w.lobby } in
    let kept = players-remove_stored q.ent (lookup q.ent w.entities) w1 in
    rw h (ap (delete i) kept.0, ap (drop_id q.player_id) kept.1)

no_conn :
    {players : List (ℕ × Player)} {online : List ℕ} {conns : List (ℕ × Conn)} {next : ℕ}
    → IsHubState players online conns next
    → lookup next conns ≡ none
no_conn {conns} {next} v = elim (Option-cases (lookup next conns)) [
  | inl none_there ↦ none_there
  | inr (c, found) ↦ let small = v.below next c found in absurd (omega (arith, small))
]

take_over-IsHub : (p : PlayerRow) (ch : Row) (h : Hub) → IsHub h → IsHub (take_over p ch h)
unfolding take_over claim_online
take_over-IsHub p ch h v =
    let new = no_conn v in
    elim (Bool-cases (has p.id h.world.online)) [
      | inl taken ↦
          rw (taken, if◌then◌else◌)
            (put-IsHubState v h.next_conn (h.next_conn + 1)
              (record { player_id = p.id; username = p.username; char = ch; stage = waiting })
              (omega arith) (omega arith) (rw new refl) (rw new refl))
      | inr is_free ↦
          rw (is_free, if◌then◌else◌)
            (claim-IsHubState v h.next_conn (h.next_conn + 1)
              (record { player_id = p.id; username = p.username; char = ch; stage = claimed })
              (omega arith) (omega arith) (rw new refl) (rw new refl) refl is_free)
    ]

pub arrive-IsHub : (a : Admission) (h : Hub) → IsHub h → IsHub (arrive a h).0
arrive-IsHub (refused status) h v = v
arrive-IsHub (admitted p ch) h v = take_over-IsHub p ch h v

module _ (i pid : ℕ) (u : Text) (ch : Row) where
  abbrev pub conn : Stage → Conn
  conn stage = record { player_id = pid; username = u; char = ch; stage = stage }

  pub wake-IsHub :
      (stage : Stage) (h : Hub)
      → lookup i h.conns ≡ some (conn stage)
      → IsHub h
      → IsHub (wake i (some (conn stage)) h)
  unfolding claim_online
  wake-IsHub waiting h found v = elim (Bool-cases (has pid h.world.online)) [
    | inl taken ↦ rw (taken, if◌then◌else◌) v
    | inr is_free ↦
        rw (is_free, if◌then◌else◌)
          (claim-IsHubState v i h.next_conn (conn claimed) (v.below i (conn waiting) found)
            (omega arith) (rw found refl) (rw found refl) refl is_free)
  ]
  wake-IsHub claimed h found v = v
  wake-IsHub playing h found v = v
  wake-IsHub leaving h found v = v
  wake-IsHub (joining r) h found v = v
  wake-IsHub (joining_leaving r) h found v = v

  pub give_up-IsHub :
      (stage : Stage) (h : Hub)
      → lookup i h.conns ≡ some (conn stage)
      → IsHub h
      → IsHub (give_up i (some (conn stage)) h).0
  give_up-IsHub waiting h found v = drop-IsHubState v i (rw found refl) (rw found refl)
  give_up-IsHub claimed h found v = v
  give_up-IsHub playing h found v = v
  give_up-IsHub leaving h found v = v
  give_up-IsHub (joining r) h found v = v
  give_up-IsHub (joining_leaving r) h found v = v

  -- A connection that holds its slot goes on to a stage that is as far from the world.
  pub restage-IsHub :
      (stage stage' : Stage) (h : Hub)
      → lookup i h.conns ≡ some (conn stage)
      → holds_slot stage' ≡ holds_slot stage
      → in_world stage' ≡ in_world stage
      → IsHub h
      → IsHub (stage_to stage' i (conn stage) h)
  restage-IsHub stage stage' h found same_hold same_in v =
      put-IsHubState v i h.next_conn (conn stage') (v.below i (conn stage) found) (omega arith)
        (rw (found, same_hold) refl) (rw (found, same_in) refl)

  pub upgrade-IsHub :
      (r : Option Rating) (stage : Stage) (h : Hub)
      → lookup i h.conns ≡ some (conn stage)
      → IsHub h
      → IsHub (upgrade i r (some (conn stage)) h)
  unfolding release_online
  upgrade-IsHub (some rating) claimed h found v =
      restage-IsHub claimed (joining rating) h found refl refl v
  upgrade-IsHub none claimed h found v = fail-IsHubState v i pid (rw found refl) (rw found refl)
  upgrade-IsHub r waiting h found v = v
  upgrade-IsHub r playing h found v = v
  upgrade-IsHub r leaving h found v = v
  upgrade-IsHub r (joining q) h found v = v
  upgrade-IsHub r (joining_leaving q) h found v = v

  pub end-IsHub :
      (stage : Stage) (h : Hub)
      → lookup i h.conns ≡ some (conn stage)
      → IsHub h
      → IsHub (end i (some (conn stage)) h)
  end-IsHub (joining r) h found v =
      restage-IsHub (joining r) (joining_leaving r) h found refl refl v
  end-IsHub playing h found v = restage-IsHub playing leaving h found refl refl v
  end-IsHub waiting h found v = v
  end-IsHub claimed h found v = v
  end-IsHub leaving h found v = v
  end-IsHub (joining_leaving r) h found v = v

  -- The player whom the world has for a connection that is in it.
  pub player_there :
      (stage : Stage) (h : Hub)
      → lookup i h.conns ≡ some (conn stage)
      → in_world stage ≡ true
      → IsHub h
      → (q : Player) × (lookup i h.world.players ≡ some q) × (q.player_id ≡ pid)
  player_there stage h found is_in v = elim (Option-cases (lookup i h.world.players)) [
    | inl missing ↦ absurd (not_there (sym (ap who_plays missing) ∙ plays))
    | inr (q, there) ↦ (q, there, same_player (sym (ap who_plays there) ∙ plays))
  ]
    where
      plays : who_plays (lookup i h.world.players) ≡ some pid
      plays = v.present i ∙ rw (found, is_in) refl

      not_there : ◌≡◌ {A = Option ℕ} none (some pid) → ⊥
      not_there e = cc

      same_player : {q : ℕ} → ◌≡◌ {A = Option ℕ} (some q) (some pid) → q ≡ pid
      same_player e = cc

  pub work_for-IsHub :
      (dx dy now : ℕ) (stage : Stage) (h : Hub)
      → lookup i h.conns ≡ some (conn stage)
      → IsHub h
      → IsHub (work_for i dx dy now (some (conn stage)) h)
  unfolding join new_entity
  work_for-IsHub dx dy now (joining r) h found v =
      enter-IsHubState v i (conn (joining r)) (conn playing) _ found refl refl
  work_for-IsHub dx dy now (joining_leaving r) h found v =
      enter-IsHubState v i (conn (joining_leaving r)) (conn leaving) _ found refl refl
  work_for-IsHub dx dy now leaving h found v =
      let (q, there, same) = player_there leaving h found refl v in
      let (players, online) = leave_players i q h.world there in
      rw (players, online, same) (release-IsHubState v i pid (rw found refl))
  work_for-IsHub dx dy now waiting h found v = v
  work_for-IsHub dx dy now claimed h found v = v
  work_for-IsHub dx dy now playing h found v = v
