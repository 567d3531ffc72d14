-- ===== src/Ranked/Records.antt =====
-- Ranked duels and ratings as they are stored (internal/store/ranked.go), and the service that reads
-- and writes them in order (internal/ranked/service.go). The two SQL tables are lists with the keys that
-- the schema gives them; whether the database answers is an argument. Only duels between two different
-- characters are settled.
pub mod Order
use nytrpg.Prelude.{
  Bool, List, Option, [], false, if◌then◌else◌, insert, is_none, keep, leb, lookup, map, none, some,
  take, ℕ, ℤ, ◌++◌, ◌-ℤ◌, ◌==◌, ◌||◌, ◌∷◌,
}
use nytrpg.Game.Duel.Outcome.{won}
use nytrpg.Game.Side.{done, out}
use nytrpg.Ranked.Elo.{Outcome, Rating, a_wins, b_wins, change, draw, new_rating}

-- store.RankedDuel, without what no query of the source reads.
pub record RankedDuel : Type 0 where
  pub played_at : ℕ
  pub a : ℕ
  pub b : ℕ
  pub winner : Option ℕ
  pub a_before : ℤ
  pub a_after : ℤ
  pub b_before : ℤ
  pub b_after : ℤ

-- The tables Rating, by its primary key, and RankedDuel, by its row ids.
pub record Records : Type 0 where
  pub ratings : List (ℕ × Rating)
  pub duels : List RankedDuel

-- `Store.Rating`; `none` is a character that has never played ranked, or a database that fails.
abbrev pub stored_rating : Bool → ℕ → Records → Option Rating
stored_rating ok c t = if ok then lookup c t.ratings else none

-- `Store.ApplyRankedDuel`: a transaction, all of it or nothing.
unfoldable pub apply_ranked_duel : Bool → RankedDuel → Rating → Rating → Records → Records
apply_ranked_duel ok d a b t =
    if ok
    then record { ratings = insert d.b b (insert d.a a t.ratings); duels = t.duels ++ d ∷ [] }
    else t

-- store.RankedDuelRow; the opponent is its character's id.
pub record DuelRow : Type 0 where
  pub opponent : ℕ
  pub won : Bool
  pub was_draw : Bool
  pub change : ℤ
  pub played_at : ℕ

abbrev pub plays : ℕ → RankedDuel → Bool
plays c d = d.a == c || d.b == c

abbrev is_winner : ℕ → Option ℕ → Bool
is_winner c none = false
is_winner c (some w) = w == c

-- A row of the query of `RecentRankedDuels`.
unfoldable pub row_of : ℕ → RankedDuel → DuelRow
row_of c d = record {
  opponent = (if d.a == c then d.b else d.a);
  won = is_winner c d.winner;
  was_draw = is_none d.winner;
  change = (if d.a == c then d.a_after -ℤ d.a_before else d.b_after -ℤ d.b_before);
  played_at = d.played_at;
}

-- ORDER BY played_at DESC, ranked_duel_id DESC: a later row stands before those that are no newer.
unfoldable pub put_newest : RankedDuel → List RankedDuel → List RankedDuel
put_newest d [] = d ∷ []
put_newest d (e ∷ ds) =
    let rest = put_newest d ds in if leb e.played_at d.played_at then d ∷ e ∷ ds else e ∷ rest

unfoldable pub newest_first : List RankedDuel → List RankedDuel → List RankedDuel
unfolding put_newest
newest_first [] sorted = sorted
newest_first (d ∷ ds) sorted = newest_first ds (put_newest d sorted)

-- `Store.RecentRankedDuels`
unfoldable pub recent_ranked_duels : ℕ → ℕ → Records → List DuelRow
unfolding newest_first row_of
recent_ranked_duels c limit t =
    map (row_of c) (take limit (newest_first (keep (plays c) t.duels) []))

-- `Match`, with what the service saves of it. (ranked.Result without what only messages tell.)
pub record Match : Type 0 where
  pub played_at : ℕ
  pub a : ℕ
  pub b : ℕ
  pub outcome : Outcome
  pub rating_a : Rating
  pub rating_b : Rating
  pub delta_a : ℤ
  pub delta_b : ℤ

abbrev pub winner_of : Match → Option ℕ
winner_of m = elim m.outcome [ a_wins ↦ some m.a | b_wins ↦ some m.b | draw ↦ none ]

-- The row that `Record` saves.
unfoldable pub duel_of : Match → RankedDuel
duel_of m = record {
  played_at = m.played_at;
  a = m.a;
  b = m.b;
  winner = winner_of m;
  a_before = m.rating_a.elo -ℤ m.delta_a;
  a_after = m.rating_a.elo;
  b_before = m.rating_b.elo -ℤ m.delta_b;
  b_after = m.rating_b.elo;
}

abbrev pub recent_duels : ℕ
recent_duels = 5

-- The jobs that `Record`, `Load` and `Recent` put into the queue; each says whether the database
-- answers when it runs.
pub data Job : Type 0 where
  records : Bool → Match → Job
  loads : Bool → ℕ → Job
  shows : Bool → ℕ → Job

-- What `Load` and `Recent` return.
pub data Reply : Type 0 where
  loaded : ℕ → Rating → Reply
  shown : ℕ → List DuelRow → Reply

pub record Service : Type 0 where
  pub queue : List Job
  pub store : Records
  pub replies : List Reply

-- A job's run, on the service's goroutine.
unfoldable pub perform : Job → Records × List Reply → Records × List Reply
unfolding apply_ranked_duel duel_of recent_ranked_duels
perform (records ok m) (t, out) = (apply_ranked_duel ok (duel_of m) m.rating_a m.rating_b t, out)
perform (loads ok c) (t, out) =
    (t, out ++ loaded c (elim (stored_rating ok c t) [ none ↦ new_rating | some r ↦ r ]) ∷ [])
perform (shows ok c) (t, out) =
    (t, out ++ shown c (if ok then recent_ranked_duels c recent_duels t else []) ∷ [])

-- `enqueue`
abbrev pub enqueue : Job → Service → Service
enqueue j s = record s { queue = s.queue ++ j ∷ [] }

abbrev pub work_from : List Job → Service → Service
work_from [] s = s
work_from (j ∷ js) s =
    let done = perform j (s.store, s.replies) in
    record { queue = js; store = done.0; replies = done.1 }

-- One round of `run`.
unfoldable pub work : Service → Service
unfolding perform
work s = work_from s.queue s
