-- ===== src/Accounts/Auth.antt =====
-- Accounts, passwords and tokens (internal/auth/auth.go). bcrypt, jwt and `strings.TrimSpace` are
-- the record `AuthLibrary`; the decoded body of a request, the clock in seconds and whether the
-- database answers are arguments. Each handler answers with its response.
pub mod Signups
pub mod Tokens
use nytrpg.Prelude.{
  Bool, Option, [], false, if◌then◌else◌, is_empty, length, ltb, negsuc, none, not, pos, some, true,
  ℕ, ℤ, ◌*◌, ◌+◌, ◌==◌, ◌||◌, ◌∷◌,
}
use nytrpg.Accounts.Players.{PlayerRow, PlayerTable, insert_player, player_named}
use nytrpg.Text.{Text}

abbrev pub max_username_len : ℕ
max_username_len = 20

-- A token's claims; the username may be missing or no string.
pub record Claims : Type 0 where
  pub username : Option Text
  pub exp : ℕ

-- The libraries: `bcrypt.GenerateFromPassword` with the salt that it draws, CompareHashAndPassword,
-- `SignedString` of HS256 with a secret, `jwt.Parse` of HS256 at a time, and TrimSpace.
pub record AuthLibrary : Type 0 where
  pub hash_password : ℕ → Text → Option Text
  pub same_password : Text → Text → Bool
  pub sign : Text → Claims → Option Text
  pub parse : Text → ℕ → Text → Option Claims
  pub trim_space : Text → Text

-- `loginData`
pub record LoginData : Type 0 where
  pub username : Text
  pub password : Text

-- `UserData`
pub record UserData : Type 0 where
  pub valid_user : Bool
  pub id : ℤ
  pub jwt : Text
  pub username : Text

abbrev pub invalid_user : UserData
invalid_user = record { valid_user = false; id = negsuc 998; jwt = []; username = [] }

-- `signupRes`, `UserData`, and `http.Error` with its status.
pub data AuthReply : Type 0 where
  username_available : Bool → AuthReply
  user_data : UserData → AuthReply
  auth_error : ℕ → AuthReply

-- `a.store.InsertPlayer` and what is answered.
abbrev pub insert_reply : Bool → Text → Option Text → PlayerTable → AuthReply × PlayerTable
insert_reply ok uname none t = (auth_error 500, t)
insert_reply ok uname (some hash) t =
    let (taken, t') = insert_player uname hash t in
    if ok then (username_available (not taken), t') else (auth_error 500, t)

-- The row that `PlayerByUsername` finds, if the database answers.
abbrev pub find_player : Bool → Text → PlayerTable → Option PlayerRow
find_player ok uname t = if ok then player_named uname t.rows else none

-- `strings.CutPrefix`
abbrev pub cut_prefix : Text → Text → Option Text
cut_prefix [] s = some s
cut_prefix (c ∷ p) [] = none
cut_prefix (c ∷ p) (d ∷ s) = if c == d then cut_prefix p s else none

-- "Bearer "
abbrev pub bearer : Text
bearer = b'B' ∷ b'e' ∷ b'a' ∷ b'r' ∷ b'e' ∷ b'r' ∷ b' ' ∷ []

-- Three days, in seconds.
abbrev pub token_life : ℕ
token_life = 72 * 3600

module _ (lib : AuthLibrary) where
  open lib use {hash_password, trim_space}

  -- `HandleSignup`
  unfoldable pub handle_signup :
      Bool → Bool → ℕ → Option LoginData → PlayerTable → AuthReply × PlayerTable
  unfolding insert_player
  handle_signup ok false salt body t = (auth_error 405, t)
  handle_signup ok true salt none t = (auth_error 400, t)
  handle_signup ok true salt (some req) t =
      let uname = trim_space req.username in
      if length uname == 0 || ltb max_username_len (length uname)
      then (auth_error 400, t)
      else if is_empty req.password
      then (auth_error 400, t)
      else insert_reply ok uname (hash_password salt req.password) t

module _ (lib : AuthLibrary) (secret : Text) where
  open lib use {same_password, sign, parse, trim_space}

  -- `CreateToken`
  abbrev pub create_token : ℕ → Text → Option Text
  create_token now uname = sign secret (record { username = some uname; exp = now + token_life })

  abbrev pub logged_in : PlayerRow → Option Text → AuthReply
  logged_in r none = auth_error 500
  logged_in r (some jwt) =
      user_data (record { valid_user = true; id = pos r.id; jwt = jwt; username = r.username })

  abbrev pub check_password : ℕ → Text → Option PlayerRow → AuthReply
  check_password now password none = user_data invalid_user
  check_password now password (some r) =
      if same_password r.password password
      then logged_in r (create_token now r.username)
      else user_data invalid_user

  -- `HandleLogin`
  unfoldable pub handle_login : Bool → Bool → ℕ → Option LoginData → PlayerTable → AuthReply
  unfolding player_named
  handle_login ok false now body t = auth_error 405
  handle_login ok true now none t = auth_error 400
  handle_login ok true now (some req) t =
      if ok
      then check_password now req.password (player_named (trim_space req.username) t.rows)
      else auth_error 500

  abbrev pub claimed_name : Option Claims → Option Text
  claimed_name none = none
  claimed_name (some c) = c.username

  -- `VerifyToken`
  unfoldable pub verify_token : ℕ → Text → Option Text
  verify_token now [] = none
  verify_token now (c ∷ s) = claimed_name (parse secret now (c ∷ s))

  abbrev pub player_claimed : Bool → Option Text → PlayerTable → Option PlayerRow
  player_claimed ok none t = none
  player_claimed ok (some uname) t = find_player ok uname t

  -- `PlayerFromToken`
  unfoldable pub player_from_token : Bool → ℕ → Text → PlayerTable → Option PlayerRow
  unfolding verify_token player_named
  player_from_token ok now token t = player_claimed ok (verify_token now token) t

  abbrev pub player_bearing : Bool → ℕ → Option Text → PlayerTable → Option PlayerRow
  player_bearing ok now none t = none
  player_bearing ok now (some token) t = player_from_token ok now token t

  -- `PlayerFromRequest`, of the Authorization header.
  unfoldable pub player_from_request : Bool → ℕ → Text → PlayerTable → Option PlayerRow
  unfolding player_from_token
  player_from_request ok now header t = player_bearing ok now (cut_prefix bearer header) t

  abbrev pub token_reply : Text → Option PlayerRow → AuthReply
  token_reply token none = user_data invalid_user
  token_reply token (some r) =
      user_data (record { valid_user = true; id = pos r.id; jwt = token; username = r.username })

  -- `HandleToken`
  unfoldable pub handle_token : Bool → Bool → ℕ → Option Text → PlayerTable → AuthReply
  unfolding player_from_token
  handle_token ok false now body t = auth_error 405
  handle_token ok true now none t = auth_error 400
  handle_token ok true now (some token) t = token_reply token (player_from_token ok now token t)
