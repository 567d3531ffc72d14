-- ===== src/Accounts/Auth/Tokens.antt =====
-- From a sign-up to a login and to the requests that its token is shown with
-- (internal/auth/auth.go).
use nytrpg.Prelude.{
  Bool, List, Option, [], any, ap, false, if◌then◌else◌, is_empty, length, ltb, none, not, pos,
  refl, some, sym, true, ℕ, ◌++◌, ◌+◌, ◌<◌, ◌==◌, ◌||◌, ◌∙◌, ◌∷◌, ◌≡◌, ◌≢◌,
}
use nytrpg.Accounts.Auth.{
  AuthLibrary, AuthReply, Claims, LoginData, UserData, auth_error, bearer, create_token,
  handle_login, handle_signup, handle_token, insert_reply, max_username_len, player_from_request,
  player_from_token, token_life, user_data, username_available, verify_token,
}
use nytrpg.Accounts.Auth.Signups.{SignupCall, signups, signups-keeps}
use nytrpg.Accounts.Players.{
  PlayerRow, PlayerTable, insert_player, is_named, player_named, player_named-new,
}
use nytrpg.Game.World.Replicate.{fresh}
use nytrpg.Text.{Text}

-- What bcrypt and jwt document: a hash matches its password; a token that was signed parses to its
-- claims until they expire, and is not empty.
pub record IsAuthLibrary (lib : AuthLibrary) : Type 0 where
  pub hashed :
      (salt : ℕ) (password hash : Text)
      → lib.hash_password salt password ≡ some hash
      → lib.same_password hash password ≡ true
  pub signed :
      (secret : Text) (c : Claims) (token : Text) (now : ℕ)
      → lib.sign secret c ≡ some token
      → now < c.exp
      → lib.parse secret now token ≡ some c
  pub has_header : (secret : Text) (c : Claims) → lib.sign secret c ≢ some []

abbrev pub id_of : Option PlayerRow → Option ℕ
id_of none = none
id_of (some r) = some r.id

not_refused :
    (b : Bool) (n : ℕ) (tab tab' : PlayerTable) (p : AuthReply × PlayerTable)
    → (if b then (auth_error n, tab) else p) ≡ (username_available true, tab')
    → p ≡ (username_available true, tab')
not_refused true n tab tab' p h = cc
not_refused false n tab tab' p h = h

abbrev answer : Bool × PlayerTable → AuthReply × PlayerTable
answer p = (username_available (not p.0), p.1)

was_available :
    (b : Bool) (tab added tab' : PlayerTable)
    → answer (if b then (true, tab) else (false, added)) ≡ (username_available true, tab')
    → (b ≡ false) × (added ≡ tab')
was_available true tab added tab' h = cc
was_available false tab added tab' h = (refl, cc)

-- The row of a username that was available.
insert_reply-granted :
    (uname : Text) (hash : Option Text) (tab tab' : PlayerTable)
    → insert_reply true uname hash tab ≡ (username_available true, tab')
    → (stored : Text) × (hash ≡ some stored)
      × (player_named uname tab'.rows
          ≡ some (record { id = tab.next_player; username = uname; password = stored }))
unfolding insert_player
insert_reply-granted uname none tab tab' h = cc
insert_reply-granted uname (some stored) tab tab' h =
    let r : PlayerRow = record { id = tab.next_player; username = uname; password = stored } in
    let (fresh, added) = was_available (any (is_named uname) tab.rows) tab _ tab' h in
    (
      stored,
      refl,
      ap (λ (t : PlayerTable). player_named uname t.rows) (sym added)
          ∙ player_named-new r tab.rows fresh,
    )

module _ (lib : AuthLibrary) (secret : Text) (laws : IsAuthLibrary lib) where
  -- A sign-up that was granted stored a row with a hash of the password.
  signup_row :
      (salt : ℕ) (req : LoginData) (tab tab' : PlayerTable)
      → handle_signup lib true true salt (some req) tab ≡ (username_available true, tab')
      → (hash : Text) × (lib.hash_password salt req.password ≡ some hash)
        × (player_named (lib.trim_space req.username) tab'.rows
            ≡ some (record {
              id = tab.next_player;
              username = lib.trim_space req.username;
              password = hash;
            }))
  unfolding handle_signup
  signup_row salt req tab tab' h =
      let uname = lib.trim_space req.username in
      insert_reply-granted uname (lib.hash_password salt req.password) tab tab' (
        not_refused (is_empty req.password) 400 tab tab' _
          (not_refused (length uname == 0 || ltb max_username_len (length uname)) 400 tab tab' _ h))

  verify_token-create_token :
      (now later : ℕ) (uname token : Text)
      → create_token lib secret now uname ≡ some token
      → later < now + token_life
      → verify_token lib secret later token ≡ some uname
  unfolding verify_token
  verify_token-create_token now later uname [] h early = absurd (laws.has_header secret _ h)
  verify_token-create_token now later uname (c ∷ s) h early =
      rw (laws.signed secret _ (c ∷ s) later h early) refl

abbrev pub known_user : ℕ → Text → Text → UserData
known_user id uname jwt = record { valid_user = true; id = pos id; jwt = jwt; username = uname }

module _ (lib : AuthLibrary) (secret : Text) (laws : IsAuthLibrary lib) where
  -- A player who signed up can from then on log in with that name and password, whatever sign-ups
  -- come after, if the database answers and the token can be signed: the answer has the id that
  -- was given out. For three days that token, shown alone or as a bearer token, is answered with
  -- the same player.
  pub handle_signup-handle_login :
      (salt : ℕ) (req : LoginData) (tab tab' : PlayerTable) (more : List SignupCall) (now later : ℕ)
      (token : Text)
      → handle_signup lib true true salt (some req) tab ≡ (username_available true, tab')
      → create_token lib secret now (lib.trim_space req.username) ≡ some token
      → later < now + token_life
      → (handle_login lib secret true true now (some req) (signups lib more tab')
          ≡ user_data (known_user tab.next_player (lib.trim_space req.username) token))
        × (handle_token lib secret true true later (some token) (signups lib more tab')
            ≡ user_data (known_user tab.next_player (lib.trim_space req.username) token))
        × (id_of
              (player_from_request lib secret true later (bearer ++ token) (signups lib more tab'))
            ≡ some tab.next_player)
  unfolding handle_login handle_token player_from_request player_from_token
  handle_signup-handle_login salt req tab tab' more now later token granted signed_ early =
      let uname = lib.trim_space req.username in
      let (hash, hashed, stored) = signup_row lib secret laws salt req tab tab' granted in
      let found = signups-keeps lib more tab' uname _ stored in
      let named = verify_token-create_token lib secret laws now later uname token signed_ early in
      (
        rw (found, laws.hashed salt req.password hash hashed, signed_) refl,
        rw (named, found) refl,
        rw (named, found) refl,
      )
