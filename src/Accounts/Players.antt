-- ===== src/Accounts/Players.antt =====
-- The table of players (internal/store/players.go, with its schema in internal/store/store.go) as the
-- list of its rows, in the order of their ids.
use nytrpg.Prelude.{
  Bool, List, Option, [], any, arith, false, if◌then◌else◌, none, some, true, ℕ, ◌++◌, ◌+◌, ◌==◌,
  ◌∷◌, ◌≡◌,
}
use nytrpg.Text.{Text, text_eq, text_eq_iff}

-- A row of the table Player: store.Player with the hash of the password.
pub record PlayerRow : Type 0 where
  pub id : ℕ
  pub username : Text
  pub password : Text

pub record PlayerTable : Type 0 where
  pub rows : List PlayerRow
  pub next_player : ℕ

abbrev pub is_named : Text → PlayerRow → Bool
is_named uname r = text_eq r.username uname

-- The first row with a username, for `PlayerByUsername` and `PlayerAuth`.
unfoldable pub player_named : Text → List PlayerRow → Option PlayerRow
player_named uname [] = none
player_named uname (r ∷ rs) = if is_named uname r then some r else player_named uname rs

-- `InsertPlayer`: whether the username is taken (its column is UNIQUE), and the table.
unfoldable pub insert_player : Text → Text → PlayerTable → Bool × PlayerTable
insert_player uname hash t = if any (is_named uname) t.rows then (true, t) else (
  false,
  record {
    rows = t.rows ++ record { id = t.next_player; username = uname; password = hash } ∷ [];
    next_player = t.next_player + 1;
  },
)

-- What a username finds once another row is added at the end.
pub player_named-append :
    (uname : Text) (rs : List PlayerRow) (r : PlayerRow) {found : PlayerRow}
    → player_named uname rs ≡ some found
    → player_named uname (rs ++ r ∷ []) ≡ some found
unfolding player_named
player_named-append uname [] r h = cc
player_named-append uname (q ∷ rs) r {found} h =
    ground (arith, player_named-append uname rs r {found = found})

-- A new username is found where its row was added.
pub player_named-new :
    (r : PlayerRow) (rs : List PlayerRow)
    → any (is_named r.username) rs ≡ false
    → player_named r.username (rs ++ r ∷ []) ≡ some r
unfolding player_named
player_named-new r [] h = ground (arith, text_eq_iff r.username r.username)
player_named-new r (q ∷ rs) h = ground (arith, player_named-new r rs)

pub player_named-username :
    (uname : Text) (rs : List PlayerRow) {r : PlayerRow}
    → player_named uname rs ≡ some r
    → r.username ≡ uname
unfolding player_named
player_named-username uname [] h = cc
player_named-username uname (q ∷ rs) {r} h =
    ground (arith, text_eq_iff q.username uname, player_named-username uname rs {r = r})

-- The row with an id: what a JOIN on Player finds.
abbrev pub player_by_id : ℕ → List PlayerRow → Option PlayerRow
player_by_id id [] = none
player_by_id id (r ∷ rs) = if r.id == id then some r else player_by_id id rs
