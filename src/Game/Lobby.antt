-- ===== src/Game/Lobby.antt =====
-- Challenges and who is in a duel (internal/game/duel.go: Challenge, RespondDuel, startDuel,
-- cancelChallenges, expireChallenges, ForfeitDuel, endDuel, leaveDuels). A player is named by its
-- client, and `p.duel` is the duel's number; the map of challenges is a list.
pub mod Free
use nytrpg.Prelude.{
  Bool, List, Option, [], delete, false, if◌then◌else◌, insert, is_some, keep, lookup, ltb, none,
  not, some, true, ℕ, ◌%◌, ◌&&◌, ◌++◌, ◌+◌, ◌==◌, ◌^◌, ◌||◌, ◌∷◌,
}

-- `challenge`
pub record Offer : Type 0 where
  pub id : ℕ
  pub from : ℕ
  pub to : ℕ
  pub expires : ℕ
  pub is_ranked : Bool

-- DuelChallengeStatus
pub data OfferStatus : Type 0 where
  offer_sent offer_declined offer_cancelled offer_expired offer_busy offer_unavailable : OfferStatus

-- `DuelChallengeUpdate`, with the player that it names, and `DuelChallenge`.
pub data Note : Type 0 where
  update : ℕ → Option ℕ → OfferStatus → Note
  offered : Offer → Note

-- The part of `World` that these handlers use: `p.duel` of each player who has one, the sides of each
-- duel, and what was sent.
pub record Lobby : Type 0 where
  pub offers : List Offer
  pub next_offer : ℕ
  pub playing : List (ℕ × ℕ)
  pub duels : List (ℕ × (ℕ × ℕ))
  pub next_duel : ℕ
  pub told : List (ℕ × Note)

abbrev pub challenge_timeout : ℕ
challenge_timeout = 30_000_000_000

-- `p.duel != nil`
abbrev pub is_busy : List (ℕ × ℕ) → ℕ → Bool
is_busy playing p = is_some (lookup p playing)

abbrev pub note : List (ℕ × Note) → Lobby → Lobby
note ns l = record l { told = l.told ++ ns }

-- Whether a player is one of the two of a challenge.
abbrev pub joins : ℕ → Offer → Bool
joins p ch = ch.from == p || ch.to == p

-- Who hears that `p` is out of its challenges: the other player of each.
unfoldable pub cancelled_notes : ℕ → List Offer → List (ℕ × Note)
cancelled_notes p [] = []
cancelled_notes p (ch ∷ chs) =
    let rest = cancelled_notes p chs in
    if ch.from == p
    then (ch.to, update ch.id (some p) offer_cancelled) ∷ rest
    else if ch.to == p
    then (ch.from, update ch.id (some p) offer_cancelled) ∷ rest
    else rest

-- `cancelChallenges`
unfoldable pub cancel_offers : ℕ → Lobby → Lobby
unfolding cancelled_notes
cancel_offers p l = record (note (cancelled_notes p l.offers) l) {
  offers = keep (λ ch. not (joins p ch)) l.offers;
}

-- The duel of `startDuel`, and that both players are in it.
unfoldable pub enter_duel : ℕ → ℕ → Lobby → Lobby
unfolding cancel_offers
enter_duel a b l =
    let alone = cancel_offers b (cancel_offers a l) in
    record alone {
      playing = insert b l.next_duel (insert a l.next_duel alone.playing);
      duels = insert l.next_duel (a, b) alone.duels;
      next_duel = l.next_duel + 1;
    }

abbrev pub same_kind : Bool → Bool → Bool
same_kind a b = if a then b else not b

-- The loop of `Challenge` over the challenges of `p`: those that stay, who hears of the others, and
-- whether `p` already waits for this one.
unfoldable pub replaced : ℕ → ℕ → Bool → List Offer → List Offer × List (ℕ × Note) × Bool
replaced p t ranked [] = ([], [], false)
replaced p t ranked (ch ∷ chs) =
    let (kept, notes, waiting) = replaced p t ranked chs in
    if not (ch.from == p)
    then (ch ∷ kept, notes, waiting)
    else if ch.to == t && same_kind ch.is_ranked ranked
    then (ch ∷ chs, [], true)
    else (kept, (ch.to, update ch.id (some p) offer_cancelled) ∷ notes, waiting)

-- A challenge between two free players. `nextChallenge` is a uint32; a challenge that has the new id
-- is overwritten.
unfoldable pub send_offer : ℕ → ℕ → ℕ → Bool → Lobby → Lobby
unfolding replaced
send_offer now p t ranked l =
    let (kept, notes, waiting) = replaced p t ranked l.offers in
    let id = (l.next_offer + 1) % 2 ^ 32 in
    let new : Offer = record {
      id = id;
      from = p;
      to = t;
      expires = now + challenge_timeout;
      is_ranked = ranked;
    } in
    let left = record (note notes l) { offers = kept } in
    if waiting
    then left
    else note ((t, offered new) ∷ (p, update new.id (some t) offer_sent) ∷ [])
        (record left { offers = keep (λ ch. not (ch.id == id)) kept ++ new ∷ []; next_offer = id })

-- `Challenge` of a player in the world. `target` is the player of the entity, `reachable` whether it
-- is in view and there is a puzzle to play on.
unfoldable pub challenge : ℕ → ℕ → Option ℕ → Bool → Bool → Lobby → Lobby
unfolding send_offer
challenge now p target reachable ranked l = elim target [
  | none ↦ note ((p, update 0 none offer_unavailable) ∷ []) l
  | some t ↦
      if t == p || not reachable
      then note ((p, update 0 (some t) offer_unavailable) ∷ []) l
      else if is_busy l.playing p || is_busy l.playing t
      then note ((p, update 0 (some t) offer_busy) ∷ []) l
      else send_offer now p t ranked l
]

unfoldable pub find_offer : ℕ → List Offer → Option Offer
find_offer id [] = none
find_offer id (ch ∷ chs) = if ch.id == id then some ch else find_offer id chs

-- `RespondDuel` to a challenge that is there.
unfoldable pub answer_offer : ℕ → Offer → Bool → Lobby → Lobby
unfolding enter_duel
answer_offer p ch accept l =
    let left = record l { offers = keep (λ o. not (o.id == ch.id)) l.offers } in
    if not accept
    then note ((ch.from, update ch.id (some p) offer_declined) ∷ []) left
    else if is_busy l.playing p || is_busy l.playing ch.from
    then note ((ch.from, update ch.id (some p) offer_busy) ∷ []) left
    else enter_duel ch.from p left

-- `RespondDuel` of a player in the world.
unfoldable pub respond : ℕ → ℕ → Bool → Lobby → Lobby
unfolding find_offer answer_offer
respond p id accept l = elim (find_offer id l.offers) [
  | none ↦ l
  | some ch ↦ if ch.to == p then answer_offer p ch accept l else l
]

unfoldable pub expired_notes : ℕ → List Offer → List (ℕ × Note)
expired_notes now [] = []
expired_notes now (ch ∷ chs) =
    let rest = expired_notes now chs in
    if ltb now ch.expires
    then rest
    else (ch.from, update ch.id (some ch.to) offer_expired)
      ∷ (ch.to, update ch.id (some ch.from) offer_expired)
      ∷ rest

-- `expireChallenges`
unfoldable pub expire_offers : ℕ → Lobby → Lobby
unfolding expired_notes
expire_offers now l = record (note (expired_notes now l.offers) l) {
  offers = keep (λ ch. ltb now ch.expires) l.offers;
}

-- Both players of a duel leave it: `endDuel` without its messages.
unfoldable pub leave_duel : ℕ → Lobby → Lobby
leave_duel d l = elim (lookup d l.duels) [
  | none ↦ l
  | some sides ↦ record l {
    playing = delete sides.1 (delete sides.0 l.playing);
    duels = delete d l.duels;
  }
]

-- `ForfeitDuel`
unfoldable pub forfeit_duel : ℕ → Lobby → Lobby
unfolding leave_duel
forfeit_duel p l = elim (lookup p l.playing) [ none ↦ l | some d ↦ leave_duel d l ]

-- `leaveDuels`
unfoldable pub leave_lobby : ℕ → Lobby → Lobby
unfolding forfeit_duel cancel_offers
leave_lobby p l = cancel_offers p (forfeit_duel p l)
