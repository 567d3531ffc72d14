-- ===== src/Game/Lobby/Free.antt =====
-- Pending challenges only join free players (internal/game/duel.go).
use nytrpg.Prelude.{
  All, All-append, All-keep, All-keep_test, All-mono, Bool, Bool-cases, List, Option, Option-cases,
  [], arith, delete, false, inl, inr, insert, is_some, keep, lookup, lookup-delete, lookup-insert,
  ltb, none, not, refl, some, subst, true, ℕ, ◌&&◌, ◌==◌, ◌||◌, ◌∷◌, ◌≡◌,
}
use nytrpg.Game.Duel.Invariant.{if_cases, if_keeps}
use nytrpg.Game.Lobby.{
  Lobby, Note, Offer, answer_offer, cancel_offers, challenge, enter_duel, expire_offers, find_offer,
  forfeit_duel, is_busy, joins, leave_duel, leave_lobby, replaced, respond, same_kind, send_offer,
}

-- A challenge joins two different players, and neither is in a duel.
abbrev pub IsOpen : List (ℕ × ℕ) → Offer → Type 0
IsOpen playing ch =
    (is_busy playing ch.from ≡ false)
    × (is_busy playing ch.to ≡ false)
    × ((ch.to == ch.from) ≡ false)

abbrev pub AreOpen : Lobby → Type 0
AreOpen l = All (IsOpen l.playing) l.offers

-- What can happen to the lobby.
pub data LobbyEvent : Type 0 where
  challenges : ℕ → Option ℕ → Bool → Bool → LobbyEvent
  responds : ℕ → ℕ → Bool → LobbyEvent
  expires_offers : LobbyEvent
  finishes : ℕ → LobbyEvent
  forfeits : ℕ → LobbyEvent
  leaves : ℕ → LobbyEvent

unfoldable pub lobby_step : ℕ → LobbyEvent → Lobby → Lobby
unfolding challenge respond expire_offers leave_duel forfeit_duel leave_lobby
lobby_step now (challenges p target reachable ranked) l = challenge now p target reachable ranked l
lobby_step now (responds p id accept) l = respond p id accept l
lobby_step now expires_offers l = expire_offers now l
lobby_step now (finishes d) l = leave_duel d l
lobby_step now (forfeits p) l = forfeit_duel p l
lobby_step now (leaves p) l = leave_lobby p l

cancel_offers-AreOpen : (p : ℕ) (l : Lobby) → AreOpen l → AreOpen (cancel_offers p l)
unfolding cancel_offers
cancel_offers-AreOpen p l v = All-keep (IsOpen l.playing) (λ ch. not (joins p ch)) l.offers v

expire_offers-AreOpen : (now : ℕ) (l : Lobby) → AreOpen l → AreOpen (expire_offers now l)
unfolding expire_offers
expire_offers-AreOpen now l v = All-keep (IsOpen l.playing) (λ ch. ltb now ch.expires) l.offers v

replaced-IsOpen :
    (p t : ℕ) (ranked : Bool) (playing : List (ℕ × ℕ)) (chs : List Offer)
    → All (IsOpen playing) chs
    → All (IsOpen playing) (replaced p t ranked chs).0
unfolding replaced
replaced-IsOpen p t ranked playing [] v = tt
replaced-IsOpen p t ranked playing (ch ∷ chs) v =
    let Ok = λ (r : List Offer × List (ℕ × Note) × Bool). All (IsOpen playing) r.0 in
    let rest = replaced-IsOpen p t ranked playing chs v.1 in
    if_keeps Ok (not (ch.from == p)) (v.0, rest)
      (if_keeps Ok (ch.to == t && same_kind ch.is_ranked ranked) v rest)

send_offer-AreOpen :
    (now p t : ℕ) (ranked : Bool) (l : Lobby)
    → (t == p) ≡ false
    → is_busy l.playing p ≡ false
    → is_busy l.playing t ≡ false
    → AreOpen l
    → AreOpen (send_offer now p t ranked l)
unfolding send_offer
send_offer-AreOpen now p t ranked l other_player p_free t_free v =
    let kept = replaced-IsOpen p t ranked l.playing l.offers v in
    if_keeps AreOpen (replaced p t ranked l.offers).2 kept (
      All-append (IsOpen l.playing) _ _
        (All-keep (IsOpen l.playing) _ (replaced p t ranked l.offers).0 kept)
        ((p_free, t_free, other_player), tt))

is_busy-insert :
    (a d q : ℕ) (playing : List (ℕ × ℕ))
    → (a == q) ≡ false
    → is_busy playing q ≡ false
    → is_busy (insert a d playing) q ≡ false
is_busy-insert a d q playing differs idle = rw (lookup-insert a q d playing) (rw differs idle)

is_busy-delete :
    (a q : ℕ) (playing : List (ℕ × ℕ))
    → is_busy playing q ≡ false
    → is_busy (delete a playing) q ≡ false
is_busy-delete a q playing idle =
    rw (lookup-delete a q playing)
      (if_keeps (λ (o : Option ℕ). is_some o ≡ false) (a == q) refl idle)

-- A challenge that neither player joins stays open when they enter a duel.
enter-IsOpen :
    (a b d : ℕ) (playing : List (ℕ × ℕ)) (ch : Offer)
    → (IsOpen playing ch × (not (joins a ch) ≡ true)) × (not (joins b ch) ≡ true)
    → IsOpen (insert b d (insert a d playing)) ch
enter-IsOpen a b d playing ch ((open_before, not_a), not_b) = (
  is_busy-insert b d ch.from (insert a d playing) (ground arith)
      (is_busy-insert a d ch.from playing (ground arith) open_before.0),
  is_busy-insert b d ch.to (insert a d playing) (ground arith)
      (is_busy-insert a d ch.to playing (ground arith) open_before.1),
  open_before.2,
)

enter_duel-AreOpen : (a b : ℕ) (l : Lobby) → AreOpen l → AreOpen (enter_duel a b l)
unfolding enter_duel cancel_offers
enter_duel-AreOpen a b l v =
    let after_a = keep (λ ch. not (joins a ch)) l.offers in
    All-mono (λ ch. (IsOpen l.playing ch × (not (joins a ch) ≡ true)) × (not (joins b ch) ≡ true))
      (IsOpen (insert b l.next_duel (insert a l.next_duel l.playing)))
      (keep (λ ch. not (joins b ch)) after_a) (enter-IsOpen a b l.next_duel l.playing)
      (All-keep_test (λ ch. IsOpen l.playing ch × (not (joins a ch) ≡ true))
        (λ ch. not (joins b ch)) after_a
        (All-keep_test (IsOpen l.playing) (λ ch. not (joins a ch)) l.offers v))

answer_offer-AreOpen :
    (p : ℕ) (ch : Offer) (accept : Bool) (l : Lobby)
    → AreOpen l
    → AreOpen (answer_offer p ch accept l)
unfolding answer_offer
answer_offer-AreOpen p ch accept l v =
    let left : Lobby = record l { offers = keep (λ o. not (o.id == ch.id)) l.offers } in
    let w = All-keep (IsOpen l.playing) (λ o. not (o.id == ch.id)) l.offers v in
    if_keeps AreOpen (not accept) w (
      if_keeps AreOpen (is_busy l.playing p || is_busy l.playing ch.from) w
        (enter_duel-AreOpen ch.from p left w))

respond-AreOpen :
    (p id : ℕ) (accept : Bool) (l : Lobby) → AreOpen l → AreOpen (respond p id accept l)
unfolding respond
respond-AreOpen p id accept l v = elim (Option-cases (find_offer id l.offers)) [
  | inl no_offer ↦ rw (no_offer, respond) v
  | inr (ch, found) ↦
      rw (found, respond) (if_keeps AreOpen (ch.to == p) (answer_offer-AreOpen p ch accept l v) v)
]

challenge-AreOpen :
    (now p : ℕ) (target : Option ℕ) (reachable ranked : Bool) (l : Lobby)
    → AreOpen l
    → AreOpen (challenge now p target reachable ranked l)
unfolding challenge
challenge-AreOpen now p none reachable ranked l v = v
challenge-AreOpen now p (some t) reachable ranked l v =
    if_cases AreOpen (t == p || not reachable) (λ _. v)
      (λ reached.
        if_cases AreOpen (is_busy l.playing p || is_busy l.playing t) (λ _. v)
          (λ idle.
            send_offer-AreOpen now p t ranked l (ground (arith, reached)) (ground (arith, idle))
              (ground (arith, idle)) v))

leave_duel-AreOpen : (d : ℕ) (l : Lobby) → AreOpen l → AreOpen (leave_duel d l)
unfolding leave_duel
leave_duel-AreOpen d l v = elim (Option-cases (lookup d l.duels)) [
  | inl no_duel ↦ rw (no_duel, leave_duel) v
  | inr (sides, found) ↦
      rw (found, leave_duel)
        (All-mono (IsOpen l.playing) (IsOpen (delete sides.1 (delete sides.0 l.playing))) l.offers
          (λ ch h. (
            is_busy-delete sides.1 ch.from (delete sides.0 l.playing)
                (is_busy-delete sides.0 ch.from l.playing h.0),
            is_busy-delete sides.1 ch.to (delete sides.0 l.playing)
                (is_busy-delete sides.0 ch.to l.playing h.1),
            h.2,
          ))
          v)
]

forfeit_duel-AreOpen : (p : ℕ) (l : Lobby) → AreOpen l → AreOpen (forfeit_duel p l)
unfolding forfeit_duel
forfeit_duel-AreOpen p l v = elim (Option-cases (lookup p l.playing)) [
  | inl idle ↦ rw (idle, forfeit_duel) v
  | inr (d, found) ↦ rw (found, forfeit_duel) (leave_duel-AreOpen d l v)
]

-- If each pending challenge joins two different players and neither is in a duel, then so it is
-- after any event of the lobby.
pub lobby_step-AreOpen :
    (now : ℕ) (e : LobbyEvent) (l : Lobby) → AreOpen l → AreOpen (lobby_step now e l)
unfolding lobby_step leave_lobby
lobby_step-AreOpen now (challenges p target reachable ranked) l v =
    challenge-AreOpen now p target reachable ranked l v
lobby_step-AreOpen now (responds p id accept) l v = respond-AreOpen p id accept l v
lobby_step-AreOpen now expires_offers l v = expire_offers-AreOpen now l v
lobby_step-AreOpen now (finishes d) l v = leave_duel-AreOpen d l v
lobby_step-AreOpen now (forfeits p) l v = forfeit_duel-AreOpen p l v
lobby_step-AreOpen now (leaves p) l v =
    cancel_offers-AreOpen p (forfeit_duel p l) (forfeit_duel-AreOpen p l v)

-- The lobby after a list of events, each with its time.
unfoldable pub run_lobby : List (ℕ × LobbyEvent) → Lobby → Lobby
unfolding lobby_step
run_lobby [] l = l
run_lobby ((now, e) ∷ es) l = run_lobby es (lobby_step now e l)

abbrev pub empty_lobby : Lobby
empty_lobby = record {
  offers = [];
  next_offer = 0;
  playing = [];
  duels = [];
  next_duel = 0;
  told = [];
}

run_lobby-AreOpen : (es : List (ℕ × LobbyEvent)) (l : Lobby) → AreOpen l → AreOpen (run_lobby es l)
unfolding run_lobby
run_lobby-AreOpen [] l v = v
run_lobby-AreOpen ((now, e) ∷ es) l v =
    run_lobby-AreOpen es (lobby_step now e l) (lobby_step-AreOpen now e l v)

find_offer-All {κ} :
    (P : Offer → Type κ) (id : ℕ) (ch : Offer) (chs : List Offer)
    → find_offer id chs ≡ some ch
    → All P chs
    → P ch
unfolding find_offer
find_offer-All P id ch [] h v = cc
find_offer-All P id ch (o ∷ chs) h v = elim (Bool-cases (o.id == id)) [
  | inl same ↦ let o_is_ch : o ≡ ch = ground (arith, h) in subst P o_is_ch v.0
  | inr differs ↦ find_offer-All P id ch chs (ground (arith, h)) v.1
]

-- Whatever happened since the lobby was empty, when the player who was challenged accepts a
-- challenge that is still there, the duel of its two players starts: neither is found to be in a
-- duel.
pub respond-enter_duel :
    (es : List (ℕ × LobbyEvent)) (id : ℕ) (ch : Offer)
    → let l = run_lobby es empty_lobby in
      find_offer id l.offers ≡ some ch
      → respond ch.to id true l
        ≡ enter_duel ch.from ch.to (record l { offers = keep (λ o. not (o.id == ch.id)) l.offers })
unfolding respond answer_offer
respond-enter_duel es id ch found =
    let l = run_lobby es empty_lobby in
    let (from_idle, to_idle, differ) =
      find_offer-All (IsOpen l.playing) id ch l.offers found
        (run_lobby-AreOpen es empty_lobby tt) in
    let self : (ch.to == ch.to) ≡ true = ground arith in
    rw (found, respond) (rw (self, from_idle, to_idle) refl)
