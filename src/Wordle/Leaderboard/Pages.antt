-- ===== src/Wordle/Leaderboard/Pages.antt =====
-- The pages of the leaderboard, one after the other (internal/puzzles/wordle/service.go).
use nytrpg.Prelude.{
  Bool, List, [], ap, ap₂, arith, drop, false, is_empty, length, negsuc, pos, refl, suc, sym, take,
  true, zero, ℕ, ◌%◌, ◌*◌, ◌++◌, ◌+ℤ◌, ◌+◌, ◌-◌, ◌<◌, ◌^◌, ◌∙◌, ◌∷◌, ◌≡◌, ◌≤◌,
}
use nytrpg.Text.{Text}
use nytrpg.Wordle.Leaderboard.{
  Board, BoardRequest, LeaderboardReply, LeaderboardRow, TieOrder, board_error, board_of,
  handle_leaderboard, numbered, page_of, ranking, to_int64, winners, wordle_leaderboard,
}

pub pos-next : (s : ℕ) → pos s +ℤ pos 1 ≡ pos (suc s)
unfolding ◌+ℤ◌
pos-next s = ground arith

take-nil : (n : ℕ) → take {A = LeaderboardRow} n [] ≡ []
take-nil zero = refl
take-nil (suc n) = refl

to_int64-small : (n : ℕ) → n < 2 ^ 63 → to_int64 n ≡ pos n
to_int64-small n small = ground arith

to_int64_big : (n : ℕ) → 2 ^ 63 ≤ n % 2 ^ 64 → to_int64 n ≡ negsuc (2 ^ 64 - n % 2 ^ 64 - 1)
to_int64_big n big = ground arith

is_empty-length : (s : Text) → 0 < length s → is_empty s ≡ false
is_empty-length [] h = absurd (omega arith)
is_empty-length (c ∷ s) h = refl

-- A page goes on where the one before it stopped, with its places.
numbered-window :
    (a n s : ℕ) (rs : List LeaderboardRow)
    → numbered (pos s) (take (a + n) rs)
      ≡ numbered (pos s) (take a rs) ++ numbered (pos (s + a)) (take n (drop a rs))
unfolding numbered
numbered-window zero n s rs =
    let e : 0 + n ≡ n = omega arith in let f : s + 0 ≡ s = omega arith in rw (e, f) refl
numbered-window (suc a) n s [] = rw (take-nil (suc a + n), take-nil n) refl
numbered-window (suc a) n s (r ∷ rs) =
    let e : suc a + n ≡ suc (a + n) = omega arith in
    let f : s + suc a ≡ suc s + a = omega arith in
    rw (e, f, pos-next s)
      (ap (λ (l : List LeaderboardRow). record r { place = pos s } ∷ l)
        (numbered-window a n (suc s) rs))

abbrev pub rows_of : LeaderboardReply → List LeaderboardRow
rows_of (board_of res) = res.rows
rows_of (board_error status) = []

abbrev pub total_of : LeaderboardReply → ℕ
total_of (board_of res) = res.total
total_of (board_error status) = 0

abbrev pub ask_page : Text → ℕ → BoardRequest
ask_page date page = record { is_get = true; date = date; page = page_of (pos page) }

module _ (tie : TieOrder) (valid : Text → Bool) (today date : Text) (b : Board) where
  -- The rows of the pages before `k`, one after the other.
  unfoldable pub pages : ℕ → List LeaderboardRow
  unfolding handle_leaderboard
  pages zero = []
  pages (suc k) = pages k ++ rows_of (handle_leaderboard tie valid true today (ask_page date k) b)

  pub handle_leaderboard-page :
      (k : ℕ)
      → valid date ≡ true
      → 0 < length date
      → k * 10 < 2 ^ 63
      → (rows_of (handle_leaderboard tie valid true today (ask_page date k) b)
          ≡ numbered (pos (suc (k * 10))) (take 10 (drop (k * 10) (ranking tie date b))))
        × (total_of (handle_leaderboard tie valid true today (ask_page date k) b)
            ≡ length (winners date b))
  unfolding handle_leaderboard wordle_leaderboard
  handle_leaderboard-page k ok some_date small =
      let full = is_empty-length date some_date in
      let offset = to_int64-small (k * 10) small in
      rw (full, ok, offset, pos-next (k * 10)) (refl, refl)

  pub pages-ranking :
      (k : ℕ)
      → valid date ≡ true
      → 0 < length date
      → k * 10 ≤ 2 ^ 63
      → pages k ≡ numbered (pos 1) (take (k * 10) (ranking tie date b))
  unfolding pages
  pages-ranking zero ok some_date small = refl
  pages-ranking (suc k) ok some_date small =
      let e : suc k * 10 ≡ k * 10 + 10 = omega arith in
      let f : 1 + k * 10 ≡ suc (k * 10) = omega arith in
      ap₂ ◌++◌ (pages-ranking k ok some_date (omega arith))
        (handle_leaderboard-page k ok some_date (omega arith)).0
      ∙ rw e (rw (← f) (sym (numbered-window (k * 10) 10 1 (ranking tie date b))))

  -- A page whose offset does not fit 63 bits shows the first winners again, with other places: the
  -- product wraps around to a number below 0, which SQL takes for 0.
  handle_leaderboard-wrapped :
      (n : ℕ)
      → valid date ≡ true
      → 0 < length date
      → 2 ^ 63 ≤ n * 10 % 2 ^ 64
      → rows_of (handle_leaderboard tie valid true today (ask_page date n) b)
        ≡ numbered (negsuc (2 ^ 64 - n * 10 % 2 ^ 64 - 1) +ℤ pos 1) (take 10 (ranking tie date b))
  unfolding handle_leaderboard wordle_leaderboard
  handle_leaderboard-wrapped n ok some_date big =
      let full = is_empty-length date some_date in rw (full, ok, to_int64_big (n * 10) big) refl
