-- ===== src/Server.antt =====
-- How a player's connection comes to play and goes (internal/server/server.go: handleWS, takeOver,
-- join, leave; Serve of internal/netconn/session.go). Each request runs on a goroutine of its own:
-- the events of different connections come in any order, and so does the world's work for them, but
-- the world runs the Join of a connection before its Leave, which was queued later. The world's other
-- commands change neither who is in it nor who is online, and are left out.
pub mod Slots
pub mod Steps
pub mod Stages
pub mod Single
pub mod Owner
pub mod Each
pub mod Frames
pub mod Waiting
pub mod Handover
pub mod Origin
use nytrpg.Prelude.{
  Bool, List, Option, [], delete, false, if◌then◌else◌, insert, lookup, negsuc, none, pos, some,
  true, ℕ, ℤ, ◌&&◌, ◌++◌, ◌+◌, ◌==◌, ◌∷◌,
}
use nytrpg.Accounts.Auth.{AuthLibrary, player_from_token}
use nytrpg.Accounts.Characters.{Row, Table, playable}
use nytrpg.Accounts.Players.{PlayerRow, PlayerTable}
use nytrpg.Game.World.Players.{Character, claim_online, join, leave, release_online}
use nytrpg.Game.World.State.{World, WorldMap, new_world}
use nytrpg.Ranked.Elo.{Rating}
use nytrpg.Text.{Text}

-- What a request to connect brings, with the tables as they are when it is read: `Atoi` of its
-- character, the clock, and whether the database answers.
pub record Arrival : Type 0 where
  pub ok : Bool
  pub now : ℕ
  pub token : Text
  pub character : Option ℤ
  pub accounts : PlayerTable
  pub chars : Table

-- A goroutine of handleWS: it waits for the slot of its player, has claimed it, has queued its Join,
-- is in the world, or has queued its Leave, with its Join still queued or done.
pub data Stage : Type 0 where
  waiting claimed playing leaving : Stage
  joining joining_leaving : Rating → Stage

pub record Conn : Type 0 where
  pub player_id : ℕ
  pub username : Text
  pub char : Row
  pub stage : Stage

-- The world, the connections by their number, and those that were told to close.
pub record Hub : Type 0 where
  pub world : World
  pub conns : List (ℕ × Conn)
  pub next_conn : ℕ
  pub kicked : List ℕ

abbrev pub new_hub : WorldMap → Hub
new_hub area = record { world = new_world area; conns = []; next_conn = 0; kicked = [] }

-- Whether `s.sessions` has the connection: it is added before Join, and deleted before Leave.
abbrev pub in_sessions : Stage → Bool
in_sessions (joining r) = true
in_sessions playing = true
in_sessions _ = false

-- The sessions of a player, which `takeOver` tells to close.
abbrev pub open_of : ℕ → List (ℕ × Conn) → List ℕ
open_of pid [] = []
open_of pid ((i, c) ∷ cs) =
    let rest = open_of pid cs in
    if in_sessions c.stage && c.player_id == pid then i ∷ rest else rest

-- What handleWS answers before it looks at the slot: a status, or who plays which character.
pub data Admission : Type 0 where
  refused : ℕ → Admission
  admitted : PlayerRow → Row → Admission

abbrev pub playable_char : ℕ → ℤ → Table → Option Row
playable_char pid (pos id) t = playable pid id t
playable_char pid (negsuc id) t = none

abbrev pub admit_char : PlayerRow → Option Row → Admission
admit_char p none = refused 403
admit_char p (some ch) = admitted p ch

abbrev pub admit_choice : Bool → PlayerRow → Option ℤ → Table → Admission
admit_choice ok p none t = refused 400
admit_choice ok p (some id) t = admit_char p (if ok then playable_char p.id id t else none)

abbrev pub admit_player : Arrival → Option PlayerRow → Admission
admit_player a none = refused 401
admit_player a (some p) = admit_choice a.ok p a.character a.chars

module _ (lib : AuthLibrary) (secret : Text) where
  -- The checks of `handleWS`, from its token on.
  unfoldable pub admit : Arrival → Admission
  unfolding player_from_token playable
  admit a = admit_player a (player_from_token lib secret a.ok a.now a.token a.accounts)

abbrev pub add_conn : Stage → PlayerRow → Row → Hub → Hub
add_conn stage p ch h = record h {
  conns =
      insert h.next_conn
        (record { player_id = p.id; username = p.username; char = ch; stage = stage }) h.conns;
  next_conn = h.next_conn + 1;
}

-- `takeOver` up to its first sleep: the slot, or its sessions are told to close.
unfoldable pub take_over : PlayerRow → Row → Hub → Hub
unfolding claim_online
take_over p ch h =
    let (got, w) = claim_online p.id h.world in
    if got
    then add_conn claimed p ch (record h { world = w })
    else add_conn waiting p ch (record h { kicked = h.kicked ++ open_of p.id h.conns })

abbrev pub arrive : Admission → Hub → Hub × Option ℕ
arrive (refused status) h = (h, some status)
arrive (admitted p ch) h = (take_over p ch h, none)

abbrev pub stage_to : Stage → ℕ → Conn → Hub → Hub
stage_to stage i c h = record h { conns = insert i (record c { stage = stage }) h.conns }

-- `takeOver` after a sleep.
abbrev pub wake : ℕ → Option Conn → Hub → Hub
wake i none h = h
wake i (some c) h =
    let (got, w) = claim_online c.player_id h.world in
    elim c.stage [
      | waiting ↦ if got then stage_to claimed i c (record h { world = w }) else h
      | _ ↦ h
    ]

-- `takeOver` at its deadline: "Already connected."
abbrev pub give_up : ℕ → Option Conn → Hub → Hub × Option ℕ
give_up i none h = (h, none)
give_up i (some c) h = elim c.stage [
  | waiting ↦ (record h { conns = delete i h.conns }, some 409)
  | _ ↦ (h, none)
]

-- The upgrade of a connection that has the slot: `join` if it works, with the character's rating,
-- and ReleaseOnline if it fails.
abbrev pub upgrade : ℕ → Option Rating → Option Conn → Hub → Hub
upgrade i r none h = h
upgrade i r (some c) h = elim c.stage [
  | claimed ↦ elim r [
    | some rating ↦ stage_to (joining rating) i c h
    | none ↦ record h { conns = delete i h.conns; world = release_online c.player_id h.world }
  ]
  | _ ↦ h
]

-- The connection is gone: `leave`.
abbrev pub end : ℕ → Option Conn → Hub → Hub
end i none h = h
end i (some c) h = elim c.stage [
  | joining rating ↦ stage_to (joining_leaving rating) i c h
  | playing ↦ stage_to leaving i c h
  | _ ↦ h
]

-- `characters.Info`
abbrev pub char_info : Row → Character
char_info ch = record { char_id = ch.id; char_name = ch.name; class = ch.class }

abbrev pub join_world : ℕ → Conn → Rating → ℕ → ℕ → ℕ → Hub → Hub
join_world i c rating dx dy now h = record h {
  world = join i c.player_id c.username (char_info c.char) rating dx dy now h.world;
}

-- The world goroutine runs what a connection has queued first.
abbrev pub work_for : ℕ → ℕ → ℕ → ℕ → Option Conn → Hub → Hub
work_for i dx dy now none h = h
work_for i dx dy now (some c) h = elim c.stage [
  | joining rating ↦ stage_to playing i c (join_world i c rating dx dy now h)
  | joining_leaving rating ↦ stage_to leaving i c (join_world i c rating dx dy now h)
  | leaving ↦ record h { conns = delete i h.conns; world = leave i h.world }
  | _ ↦ h
]

pub data HubEvent : Type 0 where
  arrives : Arrival → HubEvent
  wakes gives_up ends : ℕ → HubEvent
  upgrades : ℕ → Option Rating → HubEvent
  works : ℕ → ℕ → ℕ → ℕ → HubEvent

module _ (lib : AuthLibrary) (secret : Text) where
  -- One event, with the status of an error that it answers.
  unfoldable pub hub_step : HubEvent → Hub → Hub × Option ℕ
  unfolding admit take_over release_online join leave claim_online
  hub_step (arrives a) h = arrive (admit lib secret a) h
  hub_step (wakes i) h = (wake i (lookup i h.conns) h, none)
  hub_step (gives_up i) h = give_up i (lookup i h.conns) h
  hub_step (upgrades i r) h = (upgrade i r (lookup i h.conns) h, none)
  hub_step (ends i) h = (end i (lookup i h.conns) h, none)
  hub_step (works i dx dy now) h = (work_for i dx dy now (lookup i h.conns) h, none)

  -- The server after some events.
  unfoldable pub hub_run : List HubEvent → Hub → Hub
  unfolding hub_step
  hub_run [] h = h
  hub_run (e ∷ es) h = hub_run es (hub_step e h).0
