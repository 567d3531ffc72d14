-- ===== src/Store.antt =====
-- The migrations of the database (Open and migrate of internal/store/store.go). A migration is known
-- by its index; whether a statement or a commit works is decided by an argument. What a transaction
-- did is there once it is committed, and not at all if it fails: SQLite promises that.
pub mod Once
use nytrpg.Prelude.{
  Bool, List, Option, [], false, if◌then◌else◌, none, some, suc, true, zero, ℕ, ◌++◌, ◌+◌, ◌-◌, ◌∷◌,
}
use nytrpg.Wordle.Score.Counts.{count}

-- The row of schema_version, if there is one, and the migrations that were committed, in their order.
pub record Schema : Type 0 where
  pub version : Option ℕ
  pub applied : List ℕ

abbrev pub no_schema : Schema
no_schema = record { version = none; applied = [] }

-- One transaction: the migration and the new version.
abbrev pub apply_migration : ℕ → Schema → Schema
apply_migration i s = record { version = some (i + 1); applied = s.applied ++ i ∷ [] }

-- The loop from `i`, of which `left` rounds are left: it stops at the first transaction that fails.
unfoldable pub run_migrations : (ℕ → Bool) → ℕ → ℕ → Schema → Bool × Schema
run_migrations commits zero i s = (true, s)
run_migrations commits (suc left) i s =
    let rest = run_migrations commits left (i + 1) (apply_migration i s) in
    if commits i then rest else (false, s)

abbrev pub migrate_at : (ℕ → Bool) → ℕ → Option ℕ → Schema → Bool × Schema
migrate_at commits count none s = run_migrations commits count 0 (record s { version = some 0 })
migrate_at commits count (some v) s = run_migrations commits (count - v) v s

-- `migrate`, with `count` migrations; `ok` says whether the version can be read and written.
unfoldable pub migrate : Bool → (ℕ → Bool) → ℕ → Schema → Bool × Schema
unfolding run_migrations
migrate ok commits count s = if ok then migrate_at commits count s.version s else (false, s)

-- One start of a server with so many migrations, and what fails in it.
pub record Opening : Type 0 where
  pub ok : Bool
  pub commits : ℕ → Bool
  pub count : ℕ

-- The database after some starts.
unfoldable pub openings : List Opening → Schema → Schema
unfolding migrate
openings [] s = s
openings (o ∷ os) s = openings os (migrate o.ok o.commits o.count s).1
