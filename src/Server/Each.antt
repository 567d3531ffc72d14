-- ===== src/Server/Each.antt =====
-- What stays true of each connection by itself (internal/server/server.go: takeOver, join, leave).
use nytrpg.Prelude.{
  List, Option, Option-cases, [], all, delete, inl, inr, insert, lookup, lookup-delete_cases,
  lookup-insert_cases, none, refl, some, subst, ℕ, ◌∷◌, ◌≡◌,
}
use nytrpg.Accounts.Auth.{AuthLibrary}
use nytrpg.Accounts.Characters.{Row}
use nytrpg.Accounts.Players.{PlayerRow}
use nytrpg.Game.Duel.Invariant.{if_keeps}
use nytrpg.Game.World.Players.{claim_online}
use nytrpg.Ranked.Elo.{Rating}
use nytrpg.Server.{
  Admission, Arrival, Conn, Hub, HubEvent, Stage, admit, admitted, arrive, arrives, claimed, end,
  ends, give_up, gives_up, hub_run, hub_step, joining, joining_leaving, leaving, playing, refused,
  take_over, upgrade, upgrades, waiting, wake, wakes, work_for, works,
}
use nytrpg.Server.Owner.{CameWith, IsFor, IsProper, admit-IsProper}
use nytrpg.Server.Stages.{conn}
use nytrpg.Text.{Text}

-- What is true of each connection.
abbrev pub Each : (ℕ → Conn → Type 0) → List (ℕ × Conn) → Type 0
Each P conns = (i : ℕ) (c : Conn) → lookup i conns ≡ some c → P i c

-- It stays true of a connection that goes on to its next stage.
pub record IsLasting (P : ℕ → Conn → Type 0) : Type 0 where
  pub claims :
      (i pid : ℕ) (u : Text) (ch : Row)
      → P i (conn i pid u ch waiting)
      → P i (conn i pid u ch claimed)
  pub queues :
      (i pid : ℕ) (u : Text) (ch : Row) (r : Rating)
      → P i (conn i pid u ch claimed)
      → P i (conn i pid u ch (joining r))
  pub enters :
      (i pid : ℕ) (u : Text) (ch : Row) (r : Rating)
      → P i (conn i pid u ch (joining r))
      → P i (conn i pid u ch playing)
  pub drops :
      (i pid : ℕ) (u : Text) (ch : Row) (r : Rating)
      → P i (conn i pid u ch (joining r))
      → P i (conn i pid u ch (joining_leaving r))
  pub passes :
      (i pid : ℕ) (u : Text) (ch : Row) (r : Rating)
      → P i (conn i pid u ch (joining_leaving r))
      → P i (conn i pid u ch leaving)
  pub ends_play :
      (i pid : ℕ) (u : Text) (ch : Row)
      → P i (conn i pid u ch playing)
      → P i (conn i pid u ch leaving)

module _ (P : ℕ → Conn → Type 0) (last : IsLasting P) where
  Each-insert :
      (i : ℕ) (c : Conn) (conns : List (ℕ × Conn))
      → P i c
      → Each P conns
      → Each P (insert i c conns)
  Each-insert i c conns h v j d found = elim (lookup-insert_cases i j c d conns found) [
    | inl (at_j, same) ↦ subst (λ (k : ℕ). P k d) at_j (subst (λ (x : Conn). P i x) same h)
    | inr (_, old) ↦ v j d old
  ]

  Each-delete : (i : ℕ) (conns : List (ℕ × Conn)) → Each P conns → Each P (delete i conns)
  Each-delete i conns v j d found = v j d (lookup-delete_cases i j d conns found).1

  module _ (i pid : ℕ) (u : Text) (ch : Row) (h : Hub) (v : Each P h.conns) where
    Each-stage_to :
        (stage : Stage)
        → P i (conn i pid u ch stage)
        → Each P (insert i (conn i pid u ch stage) h.conns)
    Each-stage_to stage good = Each-insert i (conn i pid u ch stage) h.conns good v

    wake-Each :
        (stage : Stage)
        → P i (conn i pid u ch stage)
        → Each P (wake i (some (conn i pid u ch stage)) h).conns
    wake-Each waiting good =
        if_keeps (λ (x : Hub). Each P x.conns) (claim_online pid h.world).0
          (Each-stage_to claimed (last.claims i pid u ch good)) v
    wake-Each claimed good = v
    wake-Each playing good = v
    wake-Each leaving good = v
    wake-Each (joining r) good = v
    wake-Each (joining_leaving r) good = v

    give_up-Each : (stage : Stage) → Each P (give_up i (some (conn i pid u ch stage)) h).0.conns
    give_up-Each waiting = Each-delete i h.conns v
    give_up-Each claimed = v
    give_up-Each playing = v
    give_up-Each leaving = v
    give_up-Each (joining r) = v
    give_up-Each (joining_leaving r) = v

    upgrade-Each :
        (r : Option Rating) (stage : Stage)
        → P i (conn i pid u ch stage)
        → Each P (upgrade i r (some (conn i pid u ch stage)) h).conns
    upgrade-Each (some rating) claimed good =
        Each-stage_to (joining rating) (last.queues i pid u ch rating good)
    upgrade-Each none claimed good = Each-delete i h.conns v
    upgrade-Each r waiting good = v
    upgrade-Each r playing good = v
    upgrade-Each r leaving good = v
    upgrade-Each r (joining q) good = v
    upgrade-Each r (joining_leaving q) good = v

    end-Each :
        (stage : Stage)
        → P i (conn i pid u ch stage)
        → Each P (end i (some (conn i pid u ch stage)) h).conns
    end-Each (joining r) good = Each-stage_to (joining_leaving r) (last.drops i pid u ch r good)
    end-Each playing good = Each-stage_to leaving (last.ends_play i pid u ch good)
    end-Each waiting good = v
    end-Each claimed good = v
    end-Each leaving good = v
    end-Each (joining_leaving r) good = v

    work_for-Each :
        (dx dy now : ℕ) (stage : Stage)
        → P i (conn i pid u ch stage)
        → Each P (work_for i dx dy now (some (conn i pid u ch stage)) h).conns
    work_for-Each dx dy now (joining r) good = Each-stage_to playing (last.enters i pid u ch r good)
    work_for-Each dx dy now (joining_leaving r) good =
        Each-stage_to leaving (last.passes i pid u ch r good)
    work_for-Each dx dy now leaving good = Each-delete i h.conns v
    work_for-Each dx dy now waiting good = v
    work_for-Each dx dy now claimed good = v
    work_for-Each dx dy now playing good = v

  take_over-Each :
      (p : PlayerRow) (ch : Row) (h : Hub)
      → P h.next_conn (conn h.next_conn p.id p.username ch waiting)
      → Each P h.conns
      → Each P (take_over p ch h).conns
  unfolding take_over
  take_over-Each p ch h good v =
      if_keeps (λ (x : Hub). Each P x.conns) (claim_online p.id h.world).0
        (Each-insert h.next_conn (conn h.next_conn p.id p.username ch claimed) h.conns
          (last.claims h.next_conn p.id p.username ch good) v)
        (Each-insert h.next_conn (conn h.next_conn p.id p.username ch waiting) h.conns good v)

  module _ (lib : AuthLibrary) (secret : Text) where
    -- It is true of a connection for a request that `Came` speaks of.
    abbrev pub IsMet : (ℕ → Text → Row → Type 0) → Type 0
    IsMet Came = (k pid : ℕ) (u : Text) (ch : Row) → Came pid u ch → P k (conn k pid u ch waiting)

    arrive-Each :
        (a : Arrival) (o : Admission) (h : Hub)
        → admit lib secret a ≡ o
        → IsMet (IsProper lib secret a)
        → Each P h.conns
        → Each P (arrive o h).0.conns
    arrive-Each a (refused status) h e all v = v
    arrive-Each a (admitted p ch) h e all v =
        take_over-Each p ch h
          (all h.next_conn p.id p.username ch (admit-IsProper lib secret a p ch e)) v

    pub hub_step-Each :
        (e : HubEvent) (h : Hub)
        → IsMet (IsFor lib secret e)
        → Each P h.conns
        → Each P (hub_step lib secret e h).0.conns
    unfolding hub_step
    hub_step-Each (arrives a) h all v = arrive-Each a (admit lib secret a) h refl all v
    hub_step-Each (wakes i) h all v = elim (Option-cases (lookup i h.conns)) [
      | inl missing ↦ rw missing v
      | inr (c, found) ↦
          rw found (wake-Each i c.player_id c.username c.char h v c.stage (v i c found))
    ]
    hub_step-Each (gives_up i) h all v = elim (Option-cases (lookup i h.conns)) [
      | inl missing ↦ rw missing v
      | inr (c, found) ↦ rw found (give_up-Each i c.player_id c.username c.char h v c.stage)
    ]
    hub_step-Each (upgrades i r) h all v = elim (Option-cases (lookup i h.conns)) [
      | inl missing ↦ rw missing v
      | inr (c, found) ↦
          rw found (upgrade-Each i c.player_id c.username c.char h v r c.stage (v i c found))
    ]
    hub_step-Each (ends i) h all v = elim (Option-cases (lookup i h.conns)) [
      | inl missing ↦ rw missing v
      | inr (c, found) ↦
          rw found (end-Each i c.player_id c.username c.char h v c.stage (v i c found))
    ]
    hub_step-Each (works i dx dy now) h all v = elim (Option-cases (lookup i h.conns)) [
      | inl missing ↦ rw missing v
      | inr (c, found) ↦
          rw found
            (work_for-Each i c.player_id c.username c.char h v dx dy now c.stage (v i c found))
    ]

    pub hub_run-Each :
        (es : List HubEvent) (h : Hub)
        → IsMet (CameWith lib secret es)
        → Each P h.conns
        → Each P (hub_run lib secret es h).conns
    unfolding hub_run
    hub_run-Each [] h all v = v
    hub_run-Each (e ∷ es) h all v =
        hub_run-Each es (hub_step lib secret e h).0 (λ k pid u ch came. all k pid u ch (inr came))
          (hub_step-Each e h (λ k pid u ch this. all k pid u ch (inl this)) v)
