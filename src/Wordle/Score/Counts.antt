-- ===== src/Wordle/Score/Counts.antt =====
-- How many letters are colored (internal/puzzles/wordle/game.go, colorsFor).
use nytrpg.Prelude.{
  Bool, List, [], arith, false, if◌then◌else◌, length, ltb, min, true, ℕ, ◌&&◌, ◌+◌, ◌-◌, ◌==◌, ◌∷◌,
  ◌≡◌, ◌≤◌,
}
use nytrpg.Text.{Text}
use nytrpg.Wordle.Score.{
  Color, Counts, bump, colors_for, count_letters, green, green_pass, is_grey, no_counts, yellow,
  yellow_pass,
}

-- How often a letter is in a text.
pub count : ℕ → Text → ℕ
count k [] = 0
count k (c ∷ s) = (if k == c then 1 else 0) + count k s

abbrev is_colored : Color → Bool
is_colored yellow = true
is_colored green = true
is_colored _ = false

-- At how many places of the guess a letter stands and is green or yellow.
pub count_colored : ℕ → Text → List Color → ℕ
count_colored k [] cs = 0
count_colored k (g ∷ gs) [] = 0
count_colored k (g ∷ gs) (c ∷ cs) =
    (if k == g && is_colored c then 1 else 0) + count_colored k gs cs

-- And at how many it is grey.
count_grey : ℕ → Text → List Color → ℕ
count_grey k [] cs = 0
count_grey k (g ∷ gs) [] = 0
count_grey k (g ∷ gs) (c ∷ cs) = (if k == g && is_grey c then 1 else 0) + count_grey k gs cs

count_letters-count : (k : ℕ) (s : Text) (m : Counts) → count_letters s m k ≡ m k + count k s
unfolding count_letters count
count_letters-count k [] m = omega arith
count_letters-count k (c ∷ s) m = ground (arith, count_letters-count k s (bump c m))

-- The green pass counts the greens of each letter, colors the rest grey, and leaves no letter
-- counted more often than it is in the guess or in the word.
green_pass-count :
    (k : ℕ) (gs ws : Text) (m : Counts)
    → length gs ≡ length ws
    → let r = green_pass gs ws m in
      (r.1 k ≡ m k + count_colored k gs r.0)
      × (count_colored k gs r.0 + count_grey k gs r.0 ≡ count k gs)
      × (count_colored k gs r.0 ≤ count k ws)
unfolding green_pass count_colored count_grey count
green_pass-count k [] [] m h = (omega arith, omega arith, omega arith)
green_pass-count k [] (w ∷ ws) m h = absurd (omega arith)
green_pass-count k (g ∷ gs) [] m h = absurd (omega arith)
green_pass-count k (g ∷ gs) (w ∷ ws) m h =
    ground (arith, green_pass-count k gs ws (if g == w then bump g m else m))

yellow_pass-count :
    (k : ℕ) (total : Counts) (gs : Text) (cs : List Color) (m : Counts)
    → count_colored k gs (yellow_pass total gs cs m)
      ≡ count_colored k gs cs + min (count_grey k gs cs) (total k - m k)
unfolding yellow_pass count_colored count_grey
yellow_pass-count k total [] cs m = omega arith
yellow_pass-count k total (g ∷ gs) [] m = omega arith
yellow_pass-count k total (g ∷ gs) (c ∷ cs) m = ground (
  arith,
  yellow_pass-count k total gs cs (if is_grey c && ltb (m g) (total g) then bump g m else m),
)

-- Of every letter, as many places of the guess are green or yellow as the guess and the word both
-- have of it, for a guess as long as the word.
pub count_colored-colors_for :
    (k : ℕ) (guess word : Text)
    → length guess ≡ length word
    → count_colored k guess (colors_for guess word) ≡ min (count k guess) (count k word)
unfolding colors_for
count_colored-colors_for k guess word h =
    let r = green_pass guess word no_counts in
    omega (
      arith,
      green_pass-count k guess word no_counts h,
      count_letters-count k word no_counts,
      yellow_pass-count k (count_letters word no_counts) guess r.0 r.1,
    )
