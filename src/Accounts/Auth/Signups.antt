-- ===== src/Accounts/Auth/Signups.antt =====
-- What sign-ups do to the table of players (HandleSignup of internal/auth/auth.go, over InsertPlayer
-- of internal/store/players.go).
use nytrpg.Prelude.{
  All, All-append, All-mono, Bool, List, Option, [], any, arith, false, first_not, is_empty, length,
  ltb, neither, none, refl, rest_not, some, true, ℕ, ◌++◌, ◌+◌, ◌<◌, ◌==◌, ◌||◌, ◌∙◌, ◌∷◌, ◌≡◌, ◌≤◌,
}
use nytrpg.Accounts.Auth.{
  AuthLibrary, AuthReply, LoginData, handle_signup, insert_reply, max_username_len,
}
use nytrpg.Accounts.Players.{
  PlayerRow, PlayerTable, insert_player, is_named, player_named, player_named-append,
}
use nytrpg.Game.Duel.Invariant.{if_cases, if_keeps}
use nytrpg.Game.World.Replicate.{fresh}
use nytrpg.Text.{Text, text_eq}

abbrev Distinct : List PlayerRow → Type 0
Distinct [] = Unit
Distinct (r ∷ rs) = (any (is_named r.username) rs ≡ false) × All (λ s. r.id < s.id) rs × Distinct rs

-- Usernames have 1 to 20 characters, ids are given out in order, and no username or id is there twice.
pub record IsAccounts (tab : PlayerTable) : Type 0 where
  pub named : All (λ r. (0 < length r.username) × (length r.username ≤ max_username_len)) tab.rows
  pub ids_below : All (λ r. r.id < tab.next_player) tab.rows
  pub distinct : Distinct tab.rows

text_eq_sym : (s t : Text) → text_eq s t ≡ text_eq t s
unfolding text_eq
text_eq_sym [] [] = refl
text_eq_sym [] (b ∷ t) = refl
text_eq_sym (a ∷ s) [] = refl
text_eq_sym (a ∷ s) (b ∷ t) = ground (arith, text_eq_sym s t)

any_named-append :
    (uname : Text) (rs : List PlayerRow) (r : PlayerRow)
    → any (is_named uname) (rs ++ r ∷ []) ≡ (any (is_named uname) rs || is_named uname r)
any_named-append uname [] r = ground arith
any_named-append uname (q ∷ rs) r = ground (arith, any_named-append uname rs r)

Distinct-append :
    (rs : List PlayerRow) (r : PlayerRow)
    → All (λ s. s.id < r.id) rs
    → any (is_named r.username) rs ≡ false
    → Distinct rs
    → Distinct (rs ++ r ∷ [])
Distinct-append [] r below fresh d = (refl, tt, tt)
Distinct-append (q ∷ rs) r below fresh d = (
  any_named-append q.username rs r
      ∙ neither d.0 (
          text_eq_sym r.username q.username
          ∙ first_not (is_named r.username q) (any (is_named r.username) rs) fresh),
  All-append (λ s. q.id < s.id) rs (r ∷ []) d.1 (below.0, tt),
  Distinct-append rs r below.1
      (rest_not (is_named r.username q) (any (is_named r.username) rs) fresh) d.2,
)

insert_player-IsAccounts :
    (uname hash : Text) (tab : PlayerTable)
    → 0 < length uname
    → length uname ≤ max_username_len
    → IsAccounts tab
    → IsAccounts (insert_player uname hash tab).1
unfolding insert_player
insert_player-IsAccounts uname hash tab some_name short v =
    let r : PlayerRow = record { id = tab.next_player; username = uname; password = hash } in
    if_cases (λ (p : Bool × PlayerTable). IsAccounts p.1) (any (is_named uname) tab.rows)
      (λ taken. v)
      (λ fresh. record {
        named =
            All-append (λ s. (0 < length s.username) × (length s.username ≤ max_username_len))
              tab.rows (r ∷ []) v.named ((some_name, short), tt);
        ids_below =
            All-append (λ s. s.id < tab.next_player + 1) tab.rows (r ∷ [])
              (All-mono (λ s. s.id < tab.next_player) (λ s. s.id < tab.next_player + 1) tab.rows
                (λ s h. omega (arith, h)) v.ids_below)
              (omega arith, tt);
        distinct = Distinct-append tab.rows r v.ids_below fresh v.distinct;
      })

insert_reply-IsAccounts :
    (ok : Bool) (uname : Text) (hash : Option Text) (tab : PlayerTable)
    → 0 < length uname
    → length uname ≤ max_username_len
    → IsAccounts tab
    → IsAccounts (insert_reply ok uname hash tab).1
insert_reply-IsAccounts ok uname none tab some_name short v = v
insert_reply-IsAccounts ok uname (some hash) tab some_name short v =
    if_keeps (λ (p : AuthReply × PlayerTable). IsAccounts p.1) ok
      (insert_player-IsAccounts uname hash tab some_name short v) v

-- A row that a username finds stays the one it finds.
insert_reply-keeps :
    (ok : Bool) (uname : Text) (hash : Option Text) (tab : PlayerTable) (who : Text)
    (found : PlayerRow)
    → player_named who tab.rows ≡ some found
    → player_named who (insert_reply ok uname hash tab).1.rows ≡ some found
unfolding insert_player
insert_reply-keeps ok uname none tab who found h = h
insert_reply-keeps ok uname (some hash) tab who found h =
    if_keeps (λ (p : AuthReply × PlayerTable). player_named who p.1.rows ≡ some found) ok
      (if_keeps (λ (p : Bool × PlayerTable). player_named who p.1.rows ≡ some found)
        (any (is_named uname) tab.rows) h
        (player_named-append who tab.rows
          (record { id = tab.next_player; username = uname; password = hash }) h))
      h

-- A request to sign up, and whether the database answers it.
pub record SignupCall : Type 0 where
  pub ok : Bool
  pub is_post : Bool
  pub salt : ℕ
  pub body : Option LoginData

module _ (lib : AuthLibrary) where
  -- Whatever is asked for and whether or not the database answers: after a request to sign up,
  -- every username in the table has 1 to 20 characters, and no username and no id is there twice,
  -- if it was so before.
  pub handle_signup-IsAccounts :
      (ok is_post : Bool) (salt : ℕ) (body : Option LoginData) (tab : PlayerTable)
      → IsAccounts tab
      → IsAccounts (handle_signup lib ok is_post salt body tab).1
  unfolding handle_signup
  handle_signup-IsAccounts ok false salt body tab v = v
  handle_signup-IsAccounts ok true salt none tab v = v
  handle_signup-IsAccounts ok true salt (some req) tab v =
      let uname = lib.trim_space req.username in
      if_cases (λ (p : AuthReply × PlayerTable). IsAccounts p.1)
        (length uname == 0 || ltb max_username_len (length uname)) (λ bad. v)
        (λ good.
          if_keeps (λ (p : AuthReply × PlayerTable). IsAccounts p.1) (is_empty req.password) v
            (insert_reply-IsAccounts ok uname (lib.hash_password salt req.password) tab
              (ground (arith, good)) (ground (arith, good)) v))

  handle_signup-keeps :
      (ok is_post : Bool) (salt : ℕ) (body : Option LoginData) (tab : PlayerTable) (who : Text)
      (found : PlayerRow)
      → player_named who tab.rows ≡ some found
      → player_named who (handle_signup lib ok is_post salt body tab).1.rows ≡ some found
  unfolding handle_signup
  handle_signup-keeps ok false salt body tab who found h = h
  handle_signup-keeps ok true salt none tab who found h = h
  handle_signup-keeps ok true salt (some req) tab who found h =
      let uname = lib.trim_space req.username in
      if_keeps (λ (p : AuthReply × PlayerTable). player_named who p.1.rows ≡ some found)
        (length uname == 0 || ltb max_username_len (length uname)) h
        (if_keeps (λ (p : AuthReply × PlayerTable). player_named who p.1.rows ≡ some found)
          (is_empty req.password) h
          (insert_reply-keeps ok uname (lib.hash_password salt req.password) tab who found h))

  -- The table after some requests to sign up.
  unfoldable pub signups : List SignupCall → PlayerTable → PlayerTable
  signups [] tab = tab
  signups (c ∷ cs) tab = signups cs (handle_signup lib c.ok c.is_post c.salt c.body tab).1

  pub signups-keeps :
      (cs : List SignupCall) (tab : PlayerTable) (who : Text) (found : PlayerRow)
      → player_named who tab.rows ≡ some found
      → player_named who (signups cs tab).rows ≡ some found
  unfolding signups
  signups-keeps [] tab who found h = h
  signups-keeps (c ∷ cs) tab who found h =
      signups-keeps cs (handle_signup lib c.ok c.is_post c.salt c.body tab).1 who found
        (handle_signup-keeps c.ok c.is_post c.salt c.body tab who found h)
