-- ===== src/Wordle/Score.antt =====
-- Scoring a guess (internal/puzzles/wordle/game.go, and WordleColor of
-- internal/protocol/protocol.go).
pub mod Counts
pub mod Laws
use nytrpg.Prelude.{
  Bool, List, Option, [], false, if◌then◌else◌, length, ltb, none, replicate, some, true, ℕ, ◌&&◌,
  ◌+◌, ◌==◌, ◌∷◌,
}
use nytrpg.Text.{Text, byte_len, is_letters, to_upper}

pub data Color : Type 0 where
  grey yellow green hidden : Color

abbrev pub is_green : Color → Bool
is_green green = true
is_green _ = false

abbrev pub is_yellow : Color → Bool
is_yellow yellow = true
is_yellow _ = false

abbrev pub is_grey : Color → Bool
is_grey grey = true
is_grey _ = false

-- A `map[rune]int`, 0 where nothing was counted.
abbrev pub Counts : Type 0
Counts = ℕ → ℕ

abbrev pub no_counts : Counts
no_counts k = 0

abbrev pub bump : ℕ → Counts → Counts
bump c m k = if k == c then m k + 1 else m k

-- `for _, letter := range word { letterCounts[letter]++ }`
pub count_letters : Text → Counts → Counts
count_letters [] m = m
count_letters (c ∷ s) m = count_letters s (bump c m)

-- The greens: the colors, one for each letter of the word, and the letters counted. (The guess is
-- as long as the word.)
pub green_pass : Text → Text → Counts → List Color × Counts
green_pass guess [] m = ([], m)
green_pass [] (w ∷ word) m = (grey ∷ replicate (length word) grey, m)
green_pass (g ∷ guess) (w ∷ word) m =
    let rest = green_pass guess word (if g == w then bump g m else m) in
    ((if g == w then green else grey) ∷ rest.0, rest.1)

-- The yellows, from the left, while the word has more of the letter than were counted.
pub yellow_pass : Counts → Text → List Color → Counts → List Color
yellow_pass total [] colors m = colors
yellow_pass total (g ∷ guess) [] m = []
yellow_pass total (g ∷ guess) (c ∷ colors) m =
    let hit = is_grey c && ltb (m g) (total g) in
    (if hit then yellow else c) ∷ yellow_pass total guess colors (if hit then bump g m else m)

-- `colorsFor`, of letters where the source takes bytes: the same for ASCII words.
unfoldable pub colors_for : Text → Text → List Color
unfolding count_letters green_pass yellow_pass
colors_for guess word =
    let (colors, counted) = green_pass guess word no_counts in
    yellow_pass (count_letters word no_counts) guess colors counted

-- `Score`: `none` is `false, nil`. `guessable` is `Words.Guessable`.
unfoldable pub score : (Text → Bool) → Text → Text → Option (List Color)
unfolding colors_for to_upper byte_len
score guessable guess word =
    let upper_guess = to_upper guess in
    if byte_len upper_guess == byte_len word && guessable upper_guess
    then some (colors_for upper_guess word)
    else none

unfoldable pub score_any : Text → Text → Option (List Color)
unfolding colors_for to_upper byte_len is_letters
score_any guess word =
    let upper_guess = to_upper guess in
    if byte_len upper_guess == byte_len word && is_letters upper_guess
    then some (colors_for upper_guess word)
    else none

abbrev pub all_green : List Color → Bool
all_green [] = true
all_green (c ∷ colors) = is_green c && all_green colors
