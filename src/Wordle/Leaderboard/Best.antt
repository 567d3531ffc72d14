-- ===== src/Wordle/Leaderboard/Best.antt =====
-- The order of the leaderboard: every winner once, by guesses and then by time
-- (internal/store/wordle.go).
use mathlib.Core.List.Perm
use nytrpg.Prelude.{
  All, All-keep, All-mono, Bool, List, Perm, [], ap, arith, false, length, map, pos, refl, some,
  subst, suc, take, true, zero, ℕ, ℤ, ◌*◌, ◌+ℤ◌, ◌<◌, ◌^◌, ◌∙◌, ◌∷◌, ◌≡◌, ◌≤◌, ◌⊎◌,
}
use nytrpg.Accounts.Characters.{Row, character_by_id}
use nytrpg.Accounts.Players.{PlayerRow, player_by_id}
use nytrpg.Game.Duel.Invariant.{if_cases, if_keeps}
use nytrpg.Text.{Text}
use nytrpg.Wordle.Leaderboard.{
  Board, LeaderboardRow, TieOrder, best_first, handle_leaderboard, has_won, is_ahead, joined,
  numbered, put_best, ranking, winners,
}
use nytrpg.Wordle.Leaderboard.Pages.{
  ask_page, handle_leaderboard-page, pages, pages-ranking, pos-next, total_of,
}
use nytrpg.Wordle.Service.{WordleResult}

-- A character, its guesses and its time.
abbrev Key : Type 0
Key = ℕ × ℕ × ℕ

abbrev pub result_key : WordleResult → Key
result_key r = (r.character_id, r.guess_count, r.time)

abbrev pub row_key : LeaderboardRow → Key
row_key r = (r.character_id, r.guesses, r.time)

-- Fewer guesses, or as many in no more time.
abbrev Before : Key → Key → Type 0
Before k l = (k.1 < l.1) ⊎ ((k.1 ≡ l.1) × (k.2 ≤ l.2))

abbrev Sorted : List Key → Type 0
Sorted [] = Unit
Sorted (k ∷ ks) = All (Before k) ks × Sorted ks

abbrev IsNumbered : ℕ → List LeaderboardRow → Type 0
IsNumbered n [] = Unit
IsNumbered n (r ∷ rs) = (r.place ≡ pos n) × IsNumbered (suc n) rs

-- The rows show each of the results once, the best first, with the places 1, 2, 3 and so on.
pub record IsRanking (rows : List LeaderboardRow) (results : List WordleResult) : Type 0 where
  pub same : Perm (map row_key rows) (map result_key results)
  pub sorted : Sorted (map row_key rows)
  pub places : IsNumbered 1 rows

put_best-perm :
    (tie : TieOrder) (r : WordleResult) (ss : List WordleResult) → Perm (put_best tie r ss) (r ∷ ss)
unfolding put_best
put_best-perm tie r [] = Perm.refl (r ∷ [])
put_best-perm tie r (s ∷ ss) =
    if_keeps (λ (l : List WordleResult). Perm l (r ∷ s ∷ ss)) (is_ahead tie r s) Perm.rfl
      (Perm.trans (Perm.cons s (put_best-perm tie r ss)) (Perm.swap r s ss))

best_first-perm : (tie : TieOrder) (rs : List WordleResult) → Perm (best_first tie rs) rs
unfolding best_first
best_first-perm tie [] = Perm.nil
best_first-perm tie (r ∷ rs) =
    Perm.trans (put_best-perm tie r (best_first tie rs)) (Perm.cons r (best_first-perm tie rs))

All-put_best :
    (tie : TieOrder) (P : WordleResult → Type 0) (r : WordleResult) (ss : List WordleResult)
    → P r
    → All P ss
    → All P (put_best tie r ss)
unfolding put_best
All-put_best tie P r [] h v = (h, tt)
All-put_best tie P r (s ∷ ss) h v =
    if_keeps (λ (l : List WordleResult). All P l) (is_ahead tie r s) (h, v)
      (v.0, All-put_best tie P r ss h v.1)

All-best_first :
    (tie : TieOrder) (P : WordleResult → Type 0) (rs : List WordleResult)
    → All P rs
    → All P (best_first tie rs)
unfolding best_first
All-best_first tie P [] v = tt
All-best_first tie P (r ∷ rs) v =
    All-put_best tie P r (best_first tie rs) v.0 (All-best_first tie P rs v.1)

module _ (P : Key → Type 0) where
  All-of_keys :
      (ss : List WordleResult) → All P (map result_key ss) → All (λ s. P (result_key s)) ss
  All-of_keys [] v = tt
  All-of_keys (s ∷ ss) v = (v.0, All-of_keys ss v.1)

  All-keys : (ss : List WordleResult) → All (λ s. P (result_key s)) ss → All P (map result_key ss)
  All-keys [] v = tt
  All-keys (s ∷ ss) v = (v.0, All-keys ss v.1)

Before-ahead :
    (tie : TieOrder) (r s : WordleResult)
    → is_ahead tie r s ≡ true
    → Before (result_key r) (result_key s)
Before-ahead tie r s h = ground arith

Before-behind :
    (tie : TieOrder) (r s : WordleResult)
    → is_ahead tie r s ≡ false
    → Before (result_key s) (result_key r)
Before-behind tie r s h = ground arith

Before-trans : (k l m : Key) → Before k l → Before l m → Before k m
Before-trans k l m h g = ground arith

put_best-Sorted :
    (tie : TieOrder) (r : WordleResult) (ss : List WordleResult)
    → Sorted (map result_key ss)
    → Sorted (map result_key (put_best tie r ss))
unfolding put_best
put_best-Sorted tie r [] v = (tt, tt)
put_best-Sorted tie r (s ∷ ss) v =
    if_cases (λ (l : List WordleResult). Sorted (map result_key l)) (is_ahead tie r s)
      (λ h.
        let b = Before-ahead tie r s h in
        (
          (
            b,
            All-mono (Before (result_key s)) (Before (result_key r)) (map result_key ss)
                (λ m g. Before-trans (result_key r) (result_key s) m b g) v.0,
          ),
          v,
        ))
      (λ h.
        let before = Before (result_key s) in
        (
          All-keys before (put_best tie r ss) (
              All-put_best tie (λ x. before (result_key x)) r ss (Before-behind tie r s h)
                (All-of_keys before ss v.0)),
          put_best-Sorted tie r ss v.1,
        ))

best_first-Sorted :
    (tie : TieOrder) (rs : List WordleResult) → Sorted (map result_key (best_first tie rs))
unfolding best_first
best_first-Sorted tie [] = tt
best_first-Sorted tie (r ∷ rs) =
    put_best-Sorted tie r (best_first tie rs) (best_first-Sorted tie rs)

numbered-keys : (z : ℤ) (rs : List LeaderboardRow) → map row_key (numbered z rs) ≡ map row_key rs
unfolding numbered
numbered-keys z [] = refl
numbered-keys z (r ∷ rs) = ap (λ (l : List Key). row_key r ∷ l) (numbered-keys (z +ℤ pos 1) rs)

numbered-IsNumbered : (n : ℕ) (rs : List LeaderboardRow) → IsNumbered n (numbered (pos n) rs)
unfolding numbered
numbered-IsNumbered n [] = tt
numbered-IsNumbered n (r ∷ rs) = rw (pos-next n) (refl, numbered-IsNumbered (suc n) rs)

-- A result whose character, and that character's player, have their rows.
unfoldable pub HasPlayer : Board → WordleResult → Type 0
HasPlayer b r =
    (c : Row) × (p : PlayerRow) × (character_by_id r.character_id b.chars ≡ some c)
    × (player_by_id c.player_id b.players ≡ some p)

pub character_by_id-id :
    (id : ℕ) (rs : List Row) {c : Row} → character_by_id id rs ≡ some c → c.id ≡ id
character_by_id-id id [] h = cc
character_by_id-id id (r ∷ rs) {c} h = ground (arith, character_by_id-id id rs {c = c})

joined-keys :
    (b : Board) (rs : List WordleResult)
    → All (HasPlayer b) rs
    → map row_key (joined b.chars b.players rs) ≡ map result_key rs
unfolding joined HasPlayer
joined-keys b [] v = refl
joined-keys b (r ∷ rs) v =
    let (c, p, has_char, has_player) = v.0 in
    rw (has_char, has_player, joined-keys b rs v.1)
      (ap (λ (id : ℕ). (id, r.guess_count, r.time) ∷ map result_key rs)
        (character_by_id-id r.character_id b.chars has_char))

length-put_best :
    (tie : TieOrder) (r : WordleResult) (ss : List WordleResult)
    → length (put_best tie r ss) ≡ suc (length ss)
unfolding put_best
length-put_best tie r [] = refl
length-put_best tie r (s ∷ ss) =
    if_keeps (λ (l : List WordleResult). length l ≡ suc (suc (length ss))) (is_ahead tie r s) refl
      (ap suc (length-put_best tie r ss))

length-best_first :
    (tie : TieOrder) (rs : List WordleResult) → length (best_first tie rs) ≡ length rs
unfolding best_first
length-best_first tie [] = refl
length-best_first tie (r ∷ rs) =
    length-put_best tie r (best_first tie rs) ∙ ap suc (length-best_first tie rs)

same_length :
    (rows : List LeaderboardRow) (rs : List WordleResult)
    → map row_key rows ≡ map result_key rs
    → length rows ≡ length rs
same_length [] [] h = refl
same_length [] (r ∷ rs) h = cc
same_length (x ∷ rows) [] h = cc
same_length (x ∷ rows) (r ∷ rs) h = ap suc (same_length rows rs (cc))

take_all : (n : ℕ) (rows : List LeaderboardRow) → length rows ≤ n → take n rows ≡ rows
take_all zero [] h = refl
take_all zero (r ∷ rows) h = absurd (omega arith)
take_all (suc n) [] h = refl
take_all (suc n) (r ∷ rows) h =
    ap (λ (l : List LeaderboardRow). r ∷ l) (take_all n rows (omega (arith, h)))

module _ (tie : TieOrder) (valid : Text → Bool) (today date : Text) (b : Board) where
  -- If the first page tells that there are at most `k * 10` winners of a valid date, then the rows
  -- of the pages 0 to `k - 1`, one after the other, show every win of that date exactly once, those
  -- with fewer guesses first and among those the faster ones, with the places 1, 2, 3 and so on.
  -- (While the database answers and orders the wins with as many guesses in the same time the same
  -- way for every page, which SQL leaves open; where each result has its character and that has its
  -- player, and for pages whose offset fits 63 bits.)
  pub pages-IsRanking :
      (k : ℕ)
      → valid date ≡ true
      → 0 < length date
      → k * 10 ≤ 2 ^ 63
      → All (HasPlayer b) b.results
      → total_of (handle_leaderboard tie valid true today (ask_page date 0) b) ≤ k * 10
      → IsRanking (pages tie valid today date b k) (winners date b)
  pages-IsRanking k ok some_date small keyed enough =
      let won = winners date b in
      let best = best_first tie won in
      let keys : map row_key (ranking tie date b) ≡ map result_key best = joined-keys b best (
        All-best_first tie (HasPlayer b) won
          (All-keep (HasPlayer b) (has_won date) b.results keyed)) in
      let count : length (ranking tie date b) ≡ length won =
        same_length (ranking tie date b) best keys ∙ length-best_first tie won in
      let told : length won ≤ k * 10 =
        subst (λ (n : ℕ). n ≤ k * 10)
          (handle_leaderboard-page tie valid today date b 0 ok some_date (omega arith)).1 enough in
      let all : take (k * 10) (ranking tie date b) ≡ ranking tie date b =
        take_all (k * 10) (ranking tie date b) (omega (arith, count, told)) in
      rw (pages-ranking tie valid today date b k ok some_date small, all)
        (record {
          same =
              rw (numbered-keys (pos 1) (ranking tie date b), keys)
                (Perm.map result_key (best_first-perm tie won));
          sorted =
              rw (numbered-keys (pos 1) (ranking tie date b), keys) (best_first-Sorted tie won);
          places = numbered-IsNumbered 1 (ranking tie date b);
        })
