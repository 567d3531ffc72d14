-- ===== src/Server/Single.antt =====
-- Nobody is connected twice (internal/server/server.go: takeOver, join, leave).
use nytrpg.Prelude.{
  List, Option, Option-cases, [], ap, if◌then◌else◌, inl, inr, lookup, none, refl, some, sym, ℕ,
  ◌∙◌, ◌∷◌, ◌≡◌,
}
use nytrpg.Accounts.Auth.{AuthLibrary}
use nytrpg.Game.World.State.{Player, WorldMap}
use nytrpg.Server.{
  Hub, HubEvent, Stage, admit, arrives, claimed, ends, gives_up, hub_run, hub_step, joining,
  joining_leaving, leaving, new_hub, playing, upgrades, waiting, wakes, works,
}
use nytrpg.Server.Stages.{
  arrive-IsHub, end-IsHub, give_up-IsHub, upgrade-IsHub, wake-IsHub, work_for-IsHub,
}
use nytrpg.Server.Steps.{IsHub, holds_slot, in_world, who_holds, who_plays, who_present}
use nytrpg.Text.{Text}

module _ (lib : AuthLibrary) (secret : Text) where
  pub hub_step-IsHub : (e : HubEvent) (h : Hub) → IsHub h → IsHub (hub_step lib secret e h).0
  unfolding hub_step
  hub_step-IsHub (arrives a) h v = arrive-IsHub (admit lib secret a) h v
  hub_step-IsHub (wakes i) h v = elim (Option-cases (lookup i h.conns)) [
    | inl missing ↦ rw missing v
    | inr (c, found) ↦ rw found (wake-IsHub i c.player_id c.username c.char c.stage h found v)
  ]
  hub_step-IsHub (gives_up i) h v = elim (Option-cases (lookup i h.conns)) [
    | inl missing ↦ rw missing v
    | inr (c, found) ↦ rw found (give_up-IsHub i c.player_id c.username c.char c.stage h found v)
  ]
  hub_step-IsHub (upgrades i r) h v = elim (Option-cases (lookup i h.conns)) [
    | inl missing ↦ rw missing v
    | inr (c, found) ↦ rw found (upgrade-IsHub i c.player_id c.username c.char r c.stage h found v)
  ]
  hub_step-IsHub (ends i) h v = elim (Option-cases (lookup i h.conns)) [
    | inl missing ↦ rw missing v
    | inr (c, found) ↦ rw found (end-IsHub i c.player_id c.username c.char c.stage h found v)
  ]
  hub_step-IsHub (works i dx dy now) h v = elim (Option-cases (lookup i h.conns)) [
    | inl missing ↦ rw missing v
    | inr (c, found) ↦
        rw found (work_for-IsHub i c.player_id c.username c.char dx dy now c.stage h found v)
  ]

  hub_run-keeps : (es : List HubEvent) (h : Hub) → IsHub h → IsHub (hub_run lib secret es h)
  unfolding hub_run
  hub_run-keeps [] h v = v
  hub_run-keeps (e ∷ es) h v = hub_run-keeps es (hub_step lib secret e h).0 (hub_step-IsHub e h v)

new_hub-IsHub : (area : WorldMap) → IsHub (new_hub area)
new_hub-IsHub area = record {
  slots = record { single = λ i j p h k. cc; are_online = λ i p h. cc; has_holder = λ p h. cc };
  present = λ i. refl;
  below = λ i c h. cc;
}

present_holds :
    (stage : Stage) (pid p : ℕ)
    → (if in_world stage then some pid else none) ≡ some p
    → (if holds_slot stage then some pid else none) ≡ some p
present_holds waiting pid p h = cc
present_holds claimed pid p h = cc
present_holds playing pid p h = h
present_holds leaving pid p h = h
present_holds (joining r) pid p h = cc
present_holds (joining_leaving r) pid p h = cc

-- A player in the world is there for a connection that holds its slot.
player_holds :
    (h : Hub)
    → IsHub h
    → (i : ℕ) (q : Player) → lookup i h.world.players ≡ some q
    → who_holds (lookup i h.conns) ≡ some q.player_id
player_holds h v i q there = elim (Option-cases (lookup i h.conns)) [
  | inl missing ↦ absurd (nobody (rw missing at here_it_is))
  | inr (c, found) ↦
      rw found (present_holds c.stage c.player_id q.player_id (rw found at here_it_is))
]
  where
    here_it_is : who_present (lookup i h.conns) ≡ some q.player_id
    here_it_is = sym (v.present i) ∙ ap who_plays there

    nobody : ◌≡◌ {A = Option ℕ} none (some q.player_id) → ⊥
    nobody e = cc

module _ (lib : AuthLibrary) (secret : Text) (area : WorldMap) (es : List HubEvent) where
  -- Whatever arrives, wakes, gives up, upgrades, ends and is worked off, in any interleaving: exactly
  -- the players whose slot a connection holds are online, no slot is held by two connections, and
  -- the world has the players of those connections that are in it, and no others.
  pub hub_run-IsHub : IsHub (hub_run lib secret es (new_hub area))
  hub_run-IsHub = hub_run-keeps lib secret es (new_hub area) (new_hub-IsHub area)

  -- In every such run, two connections that have the same player in the world are one connection.
  pub hub_run-single :
      (i j : ℕ) (q r : Player)
      → lookup i (hub_run lib secret es (new_hub area)).world.players ≡ some q
      → lookup j (hub_run lib secret es (new_hub area)).world.players ≡ some r
      → q.player_id ≡ r.player_id
      → i ≡ j
  hub_run-single i j q r at_i at_j same =
      let v = hub_run-IsHub in
      v.slots.single i j r.player_id
        (player_holds (hub_run lib secret es (new_hub area)) v i q at_i ∙ ap some same)
        (player_holds (hub_run lib secret es (new_hub area)) v j r at_j)
