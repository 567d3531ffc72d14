-- ===== src/Tests/Accounts.antt =====
-- Two requests for characters (internal/characters).
use nytrpg.Prelude.{
  Option, [], arith, false, if◌then◌else◌, ltb, lt→ltb, max, none, pos, refl, some, subst, true, ℕ,
  ◌++◌, ◌+◌, ◌<◌, ◌∷◌, ◌≡◌, ◌≢◌,
}
use nytrpg.Accounts.Auth.{
  AuthLibrary, Claims, LoginData, bearer, handle_login, handle_signup, handle_token,
  player_from_request, token_life, user_data, username_available,
}
use nytrpg.Accounts.Auth.Signups.{IsAccounts, SignupCall, handle_signup-IsAccounts, signups}
use nytrpg.Accounts.Auth.Tokens.{IsAuthLibrary, handle_signup-handle_login, id_of, known_user}
use nytrpg.Accounts.Characters.{
  CreateReq, Row, Table, created, handle_request, http_error, post_create,
}
use nytrpg.Accounts.Characters.Playing.{IsPlayable, created-IsPlayable}
use nytrpg.Accounts.Characters.Slots.{IsTable, handle_request-IsTable}
use nytrpg.Accounts.Players.{PlayerTable}
use nytrpg.Classes.{wizard}
use nytrpg.Store.{Opening, migrate, no_schema, openings}
use nytrpg.Store.Once.{IsUpTo, openings-migrate, version_of}
use nytrpg.Text.{Text, text_eq, text_eq_iff}

abbrev empty_table : Table
empty_table = record { rows = []; next_row = 1 }

empty_table-IsTable : IsTable empty_table
empty_table-IsTable = record { slots_within = tt; ids_below = tt; increasing = tt; apart = tt }

-- Names are taken as they come.
abbrev untrimmed : Text → Text
untrimmed name = name

abbrev a_wizard : CreateReq
a_wizard = record { slot = pos 2; name = 77 ∷ 111 ∷ []; class = wizard }

abbrev the_wizard : Row
the_wizard = record {
  id = 1;
  player_id = 5;
  slot = 2;
  name = 77 ∷ 111 ∷ [];
  class = wizard;
  is_deleted = false;
}

abbrev wizard_table : Table
wizard_table = record { rows = the_wizard ∷ []; next_row = 2 }

handle_request-IsTable_example :
    IsTable (handle_request untrimmed true (some 5) (post_create (some a_wizard)) empty_table).1
handle_request-IsTable_example =
    handle_request-IsTable untrimmed true (some 5) (post_create (some a_wizard)) empty_table
      empty_table-IsTable

was_created :
    handle_request untrimmed true (some 5) (post_create (some a_wizard)) empty_table
    ≡ (created the_wizard, wizard_table)
unfolding handle_request
was_created = refl

created-IsPlayable_example : IsPlayable untrimmed 5 6 the_wizard wizard_table
created-IsPlayable_example =
    created-IsPlayable untrimmed 5 6 a_wizard empty_table wizard_table the_wizard
      empty_table-IsTable (ground arith) was_created

slot_is_taken :
    (handle_request untrimmed true (some 5) (post_create (some a_wizard)) wizard_table).0
    ≡ http_error 409
unfolding handle_request
slot_is_taken = refl

-- Every hash is its password, and a token its end followed by its username.
abbrev pub plain_token : Option Text → ℕ → Option Text
plain_token none exp = none
plain_token (some uname) exp = some (exp ∷ uname)

abbrev pub plain_claims : ℕ → Text → Option Claims
plain_claims now [] = none
plain_claims now (exp ∷ uname) =
    if ltb now exp then some (record { username = some uname; exp = exp }) else none

abbrev pub plain_library : AuthLibrary
plain_library = record {
  hash_password = λ salt password. some password;
  same_password = λ hash password. text_eq hash password;
  sign = λ secret c. plain_token c.username c.exp;
  parse = λ secret now token. plain_claims now token;
  trim_space = λ s. s;
}

plain_signed :
    (uname : Option Text) (exp now : ℕ) (token : Text)
    → plain_token uname exp ≡ some token
    → now < exp
    → plain_claims now token ≡ some (record { username = uname; exp = exp })
plain_signed none exp now token h early = cc
plain_signed (some uname) exp now token h early =
    let e : (exp ∷ uname) ≡ token = cc in
    subst (λ (t : Text). plain_claims now t ≡ some (record { username = some uname; exp = exp })) e
      (rw (lt→ltb now exp early) refl)

plain_nonempty : (uname : Option Text) (exp : ℕ) → plain_token uname exp ≢ some []
plain_nonempty none exp h = cc
plain_nonempty (some uname) exp h = cc

plain_library-IsAuthLibrary : IsAuthLibrary plain_library
plain_library-IsAuthLibrary = record {
  hashed = λ salt password hash h. (text_eq_iff hash password).1 (cc);
  signed = λ secret c token now h early. plain_signed c.username c.exp now token h early;
  has_header = λ secret c h. plain_nonempty c.username c.exp h;
}

abbrev no_players : PlayerTable
no_players = record { rows = []; next_player = 1 }

no_players-IsAccounts : IsAccounts no_players
no_players-IsAccounts = record { named = tt; ids_below = tt; distinct = tt }

abbrev ann_login : LoginData
ann_login = record { username = 97 ∷ 110 ∷ []; password = 112 ∷ [] }

abbrev bob_login : LoginData
bob_login = record { username = 98 ∷ []; password = 113 ∷ [] }

abbrev pub ann_table : PlayerTable
ann_table = record {
  rows = record { id = 1; username = 97 ∷ 110 ∷ []; password = 112 ∷ [] } ∷ [];
  next_player = 2;
}

ann_signs_up :
    handle_signup plain_library true true 0 (some ann_login) no_players
    ≡ (username_available true, ann_table)
unfolding handle_signup
ann_signs_up = refl

ann_is_taken :
    handle_signup plain_library true true 0 (some ann_login) ann_table
    ≡ (username_available false, ann_table)
unfolding handle_signup text_eq
ann_is_taken = refl

handle_signup-IsAccounts_example :
    IsAccounts (handle_signup plain_library true true 0 (some ann_login) no_players).1
handle_signup-IsAccounts_example =
    handle_signup-IsAccounts plain_library true true 0 (some ann_login) no_players
      no_players-IsAccounts

abbrev bob_call : SignupCall
bob_call = record { ok = true; is_post = true; salt = 0; body = some bob_login }

abbrev ann_token : Text
ann_token = (5 + token_life) ∷ 97 ∷ 110 ∷ []

handle_signup-handle_login_example :
    (handle_login plain_library [] true true 5
        (some ann_login)
        (signups plain_library (bob_call ∷ []) ann_table)
      ≡ user_data (known_user 1 (97 ∷ 110 ∷ []) ann_token))
    × (handle_token plain_library [] true true 6
          (some ann_token)
          (signups plain_library (bob_call ∷ []) ann_table)
        ≡ user_data (known_user 1 (97 ∷ 110 ∷ []) ann_token))
    × (id_of (
          player_from_request plain_library [] true 6
            (bearer ++ ann_token)
            (signups plain_library (bob_call ∷ []) ann_table))
        ≡ some 1)
handle_signup-handle_login_example =
    handle_signup-handle_login plain_library [] plain_library-IsAuthLibrary 0 ann_login no_players
      ann_table (bob_call ∷ []) 5 6 ann_token ann_signs_up refl (omega arith)

-- Of three migrations, the second fails once.
abbrev first_start : Opening
first_start = record { ok = true; commits = λ i. ltb i 1; count = 3 }

second_start_works : (migrate true (λ i. true) 3 (openings (first_start ∷ []) no_schema)).0 ≡ true
unfolding migrate openings
second_start_works = refl

openings-migrate_example :
    IsUpTo (migrate true (λ i. true) 3 (openings (first_start ∷ []) no_schema)).1
    × (version_of (migrate true (λ i. true) 3 (openings (first_start ∷ []) no_schema)).1
        ≡ max 3 (version_of (openings (first_start ∷ []) no_schema)))
openings-migrate_example = openings-migrate (first_start ∷ []) (λ i. true) 3 second_start_works
