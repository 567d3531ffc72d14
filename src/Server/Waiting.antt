-- ===== src/Server/Waiting.antt =====
-- A connection that waits while another one of its player goes (internal/server/server.go: takeOver,
-- leave).
use nytrpg.Prelude.{
  All, Bool, List, Option, [], ap, arith, delete, false, if◌then◌else◌, inl, inr, lookup,
  lookup-delete, lookup-insert_same, none, refl, some, subst, sym, true, ℕ, ◌&&◌, ◌++◌, ◌<◌, ◌||◌,
  ◌∙◌, ◌∷◌, ◌≡◌, ◌≢◌, ◌⊎◌,
}
use nytrpg.Accounts.Auth.{AuthLibrary}
use nytrpg.Accounts.Characters.{Row}
use nytrpg.Server.{
  Conn, Hub, HubEvent, Stage, claimed, end, hub_run, hub_step, joining, joining_leaving, leaving,
  playing, waiting, work_for,
}
use nytrpg.Server.Each.{Each, IsLasting, hub_step-Each}
use nytrpg.Server.Frames.{IsAsleep, IsAtDoor, hub_step-IsAtDoor}
use nytrpg.Server.Owner.{CameWith, IsFor}
use nytrpg.Server.Single.{hub_step-IsHub}
use nytrpg.Server.Stages.{conn}
use nytrpg.Server.Steps.{IsHub}
use nytrpg.Text.{Text}

abbrev pub is_playing : Stage → Bool
is_playing playing = true
is_playing _ = false

abbrev pub is_leaving : Stage → Bool
is_leaving leaving = true
is_leaving _ = false

-- Stages on the way out: playing counts if the first argument says so, leaving if the second does.
abbrev pub is_going : Bool → Bool → Stage → Bool
is_going a b s = (a && is_playing s) || (b && is_leaving s)

pub hub_run-append :
    (lib : AuthLibrary) (secret : Text) (es fs : List HubEvent) (h : Hub)
    → hub_run lib secret (es ++ fs) h ≡ hub_run lib secret fs (hub_run lib secret es h)
unfolding hub_run
hub_run-append lib secret [] fs h = refl
hub_run-append lib secret (e ∷ es) fs h =
    hub_run-append lib secret es fs (hub_step lib secret e h).0

-- The first connection of a player is `i` and the one that waits is `j`.
module _ (i j pid : ℕ) where
  -- Of the player's connections there is only `j`, and `i` as long as it is going.
  abbrev pub IsLast : Bool → Bool → ℕ → Conn → Type 0
  IsLast a b k c = c.player_id ≡ pid → (k ≡ j) ⊎ ((k ≡ i) × (is_going a b c.stage ≡ true))

  stays-IsLast :
      (a b : Bool) (k p : ℕ) (u : Text) (ch : Row) (s s' : Stage)
      → (is_going a b s ≡ true → is_going a b s' ≡ true)
      → IsLast a b k (conn k p u ch s)
      → IsLast a b k (conn k p u ch s')
  stays-IsLast a b k p u ch s s' next good same = elim (good same) [
    | inl at_j ↦ inl at_j
    | inr (at_i, going) ↦ inr (at_i, next going)
  ]

  IsLast-IsLasting : (a b : Bool) → (a ≡ true → b ≡ true) → IsLasting (IsLast a b)
  IsLast-IsLasting a b lower = record {
    claims = λ k p u ch. stays-IsLast a b k p u ch waiting claimed (λ h. ground (arith, h));
    queues = λ k p u ch r. stays-IsLast a b k p u ch claimed (joining r) (λ h. ground (arith, h));
    enters = λ k p u ch r. stays-IsLast a b k p u ch (joining r) playing (λ h. ground (arith, h));
    drops = λ k p u ch r.
        stays-IsLast a b k p u ch (joining r) (joining_leaving r) (λ h. ground (arith, h));
    passes = λ k p u ch r.
        stays-IsLast a b k p u ch (joining_leaving r) leaving (λ h. ground (arith, h));
    ends_play =
        λ k p u ch. stays-IsLast a b k p u ch playing leaving (λ h. ground (arith, h, lower));
  }

  -- Whether a connection plays, and the player of one that is leaving.
  abbrev pub plays : Option Conn → Bool
  plays none = false
  plays (some c) = is_playing c.stage

  abbrev pub leaver : Option Conn → Option ℕ
  leaver none = none
  leaver (some c) = if is_leaving c.stage then some c.player_id else none

  pub end-plays :
      (p : ℕ) (u : Text) (ch : Row) (s : Stage) (h : Hub)
      → lookup i h.conns ≡ some (conn i p u ch s)
      → plays (lookup i (end i (some (conn i p u ch s)) h).conns) ≡ false
  end-plays p u ch (joining r) h found =
      ap plays (lookup-insert_same i (conn i p u ch (joining_leaving r)) h.conns)
  end-plays p u ch playing h found = ap plays (lookup-insert_same i (conn i p u ch leaving) h.conns)
  end-plays p u ch waiting h found = ap plays found
  end-plays p u ch claimed h found = ap plays found
  end-plays p u ch leaving h found = ap plays found
  end-plays p u ch (joining_leaving r) h found = ap plays found

  gone : (h : Hub) → lookup i (delete i h.conns) ≡ none
  gone h = lookup-delete i i h.conns ∙ ground arith

  pub no_leaver : {p : ℕ} → ◌≡◌ {A = Option ℕ} none (some p) → ⊥
  no_leaver h = cc

  pub work_for-leaver :
      (dx dy now p : ℕ) (u : Text) (ch : Row) (s : Stage) (h : Hub)
      → i ≢ j
      → lookup i h.conns ≡ some (conn i p u ch s)
      → IsLast false true i (conn i p u ch s)
      → leaver (lookup i (work_for i dx dy now (some (conn i p u ch s)) h).conns) ≡ some pid
      → ⊥
  work_for-leaver dx dy now p u ch (joining r) h apart found good left =
      no_leaver (sym (ap leaver (lookup-insert_same i (conn i p u ch playing) h.conns)) ∙ left)
  work_for-leaver dx dy now p u ch (joining_leaving r) h apart found good left =
      let same : some p ≡ some pid =
        sym (ap leaver (lookup-insert_same i (conn i p u ch leaving) h.conns)) ∙ left in
      elim (good (cc)) [ inl at_j ↦ apart at_j | inr (_, never) ↦ cc ]
  work_for-leaver dx dy now p u ch leaving h apart found good left =
      no_leaver (sym (ap leaver (gone h)) ∙ left)
  work_for-leaver dx dy now p u ch waiting h apart found good left =
      no_leaver (sym (ap leaver found) ∙ left)
  work_for-leaver dx dy now p u ch claimed h apart found good left =
      no_leaver (sym (ap leaver found) ∙ left)
  work_for-leaver dx dy now p u ch playing h apart found good left =
      no_leaver (sym (ap leaver found) ∙ left)

  module _ (lib : AuthLibrary) (secret : Text) (u : Text) (ch : Row) where
    -- Nothing but waking happens to `j`, and no further request of the player comes.
    pub record IsAside (es : List HubEvent) : Type 0 where
      pub asleep : All (IsAsleep j) es
      pub no_more : (v : Text) (r : Row) → CameWith lib secret es pid v r → ⊥

    -- A valid server in which `j` waits, or has claimed the slot, and `i` is going.
    pub record IsWaiting (a b : Bool) (h : Hub) : Type 0 where
      pub hub : IsHub h
      pub door : IsAtDoor (conn j pid u ch) (lookup j h.conns)
      pub last : Each (IsLast a b) h.conns

    there_below : (a b : Bool) (h : Hub) → IsWaiting a b h → j < h.next_conn
    there_below a b h v = elim v.door [
      | inl found ↦ v.hub.below j (conn j pid u ch waiting) found
      | inr found ↦ v.hub.below j (conn j pid u ch claimed) found
    ]

    pub hub_step-IsWaiting :
        (a b : Bool) (e : HubEvent) (h : Hub)
        → (a ≡ true → b ≡ true)
        → IsAsleep j e
        → ((v : Text) (r : Row) → IsFor lib secret e pid v r → ⊥)
        → IsWaiting a b h
        → IsWaiting a b (hub_step lib secret e h).0
    hub_step-IsWaiting a b e h lower asleep no_more v = record {
      hub = hub_step-IsHub lib secret e h v.hub;
      door = hub_step-IsAtDoor lib secret j pid u ch e h (there_below a b h v) asleep v.door;
      last =
          hub_step-Each (IsLast a b) (IsLast-IsLasting a b lower) lib secret e h
            (λ k p w r came same.
              absurd (no_more w r (subst (λ (q : ℕ). IsFor lib secret e q w r) same came)))
            v.last;
    }

    pub hub_run-IsWaiting :
        (a b : Bool) (es : List HubEvent) (h : Hub)
        → (a ≡ true → b ≡ true)
        → IsAside es
        → IsWaiting a b h
        → IsWaiting a b (hub_run lib secret es h)
    unfolding hub_run
    hub_run-IsWaiting a b [] h lower aside v = v
    hub_run-IsWaiting a b (e ∷ es) h lower aside v =
        hub_run-IsWaiting a b es (hub_step lib secret e h).0 lower
          (record { asleep = aside.asleep.1; no_more = λ w r came. aside.no_more w r (inr came) })
          (hub_step-IsWaiting a b e h lower aside.asleep.0
            (λ w r came. aside.no_more w r (inl came)) v)
