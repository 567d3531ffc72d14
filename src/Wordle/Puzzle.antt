-- ===== src/Wordle/Puzzle.antt =====
-- The word lists and the puzzle of duels (internal/puzzles/wordle/words.go and duel.go).
use nytrpg.Prelude.{
  All, All-get_or, Bool, Bool-cases, List, Option, Rng, [], arith, get_or, if◌then◌else◌, inl, inr,
  intn, intn-lt, is_empty, is_some, length, map, none, refl, some, true, ℕ, ◌++◌, ◌<◌, ◌||◌, ◌∙◌,
  ◌∷◌, ◌≡◌,
}
use nytrpg.Game.Duel.{DuelPuzzle}
use nytrpg.Game.Duel.Cleric.{text_in}
use nytrpg.Game.Duel.Guess.{guess}
use nytrpg.Game.Duel.Invariant.{IsLawful}
use nytrpg.Game.Side.Invariant.{IsValidWord}
use nytrpg.Text.{Text, byte_len, byte_len-letters, is_letters, text_eq, text_eq_iff, to_upper}
use nytrpg.Wordle.Score.{Color, colors_for, score, score_any}
use nytrpg.Wordle.Score.Laws.{length-colors_for, score-some, score_any-some}

-- `Words`; the keys of `guessables` are a list.
pub record Words : Type 0 where
  pub solutions : List Text
  pub guessables : List Text
  pub three : List Text

-- `LoadWords` of the embedded files; `lines` is the scanner that splits a file and trims its lines,
-- and `none` is the panic.
unfoldable pub load_words : (Text → List Text) → Text → Text → Text → Option Words
unfolding to_upper
load_words lines all_words solution_words three_words =
    let three = lines (to_upper three_words) in
    let solutions = lines (to_upper solution_words) in
    let words : Words = record {
      solutions = solutions;
      guessables = map to_upper (lines all_words) ++ three;
      three = three;
    } in
    if is_empty solutions || is_empty three then none else some words

-- `Words.Random` and `Words.Three`
unfoldable pub random_word : List Text → Rng → Text × Rng
unfolding intn
random_word words r = let (i, r') = intn (length words) r in (get_or words i [], r')

unfoldable pub is_guessable : Words → Text → Bool
unfolding text_in
is_guessable words guess = text_in guess words.guessables

-- `DuelPuzzle` of this package; `fixed` is empty unless a test sets it.
unfoldable pub duel_puzzle : Words → Text → DuelPuzzle
unfolding random_word is_guessable score score_any
duel_puzzle words fixed = record {
  new_word = λ r. if is_empty fixed then random_word words.solutions r else (fixed, r);
  illusion_word = random_word words.three;
  score = score (is_guessable words);
  score_any = score_any;
  max_guesses = 5;
}

-- What the word lists have: a solution at least, and letters only.
pub record HasWords (n : ℕ) (words : Words) : Type 0 where
  pub nonempty : 0 < length words.solutions
  pub solutions_fit : All (IsValidWord n) words.solutions
  pub guessables_letters : All (λ w. is_letters w ≡ true) words.guessables

text_in-letters :
    (t : Text) (ws : List Text)
    → text_in t ws ≡ true
    → All (λ w. is_letters w ≡ true) ws
    → is_letters t ≡ true
unfolding text_in
text_in-letters t [] h k = cc
text_in-letters t (w ∷ ws) h k = elim (Bool-cases (text_eq t w)) [
  | inl same ↦ rw ((text_eq_iff t w).0 same) k.0
  | inr differs ↦ text_in-letters t ws (ground arith) k.1
]

random_word-IsValidWord :
    (n : ℕ) (ws : List Text) (r : Rng)
    → 0 < length ws
    → All (IsValidWord n) ws
    → IsValidWord n (random_word ws r).0
unfolding random_word
random_word-IsValidWord n ws r h k =
    All-get_or (IsValidWord n) ws (intn (length ws) r).0 [] (intn-lt (length ws) r h) k

-- A text of letters as long in bytes as a word of letters is as long in characters, and so are the
-- colors.
colored_lengths :
    (n : ℕ) (t w : Text)
    → is_letters w ≡ true
    → length w ≡ n
    → is_letters t ≡ true
    → byte_len t ≡ byte_len w
    → (length (colors_for t w) ≡ n) × (is_letters t ≡ true) × (length t ≡ n)
colored_lengths n t w letters full t_letters same =
    let long : length t ≡ length w =
      omega (arith, same, byte_len-letters t t_letters, byte_len-letters w letters) in
    (length-colors_for t w long ∙ full, t_letters, long ∙ full)

-- A guess that is scored has the word's length, and so do its colors.
pub guess_lengths :
    (n : ℕ) (words : Words) (t w : Text) (cs : List Color)
    → HasWords n words
    → is_letters w ≡ true
    → length w ≡ n
    → score (is_guessable words) t w ≡ some cs
    → (length cs ≡ n) × (is_letters (to_upper t) ≡ true) × (length (to_upper t) ≡ n)
unfolding is_guessable
guess_lengths n words t w cs h letters full scored =
    let (same, bytes, listed) = score-some (is_guessable words) t w scored in
    rw same (
      colored_lengths n (to_upper t) w letters full
        (text_in-letters (to_upper t) words.guessables listed h.guessables_letters) bytes)

-- Any letters of a word's length are scored against the word.
pub score_any_total :
    (g w : Text)
    → is_letters (to_upper g) ≡ true
    → byte_len (to_upper g) ≡ byte_len w
    → is_some (score_any g w) ≡ true
unfolding score_any
score_any_total g w h k = ground arith

pub upper-letters : (s : Text) → is_letters s ≡ true → to_upper s ≡ s
unfolding to_upper is_letters
upper-letters [] h = refl
upper-letters (c ∷ s) h = ground (arith, upper-letters s)

-- The puzzle of duels, with no fixed word, keeps its contract with the duel's handlers, for word
-- lists whose words are letters and whose solutions, one at least, have `n` of them.
pub duel_puzzle-IsLawful :
    (n : ℕ) (words : Words) → HasWords n words → IsLawful n (duel_puzzle words [])
unfolding duel_puzzle is_guessable
duel_puzzle-IsLawful n words h = record {
  new_word_letters =
      λ r. (random_word-IsValidWord n words.solutions r h.nonempty h.solutions_fit).0;
  new_word_length = λ r. (random_word-IsValidWord n words.solutions r h.nonempty h.solutions_fit).1;
  score_lengths = λ t w cs letters full scored. guess_lengths n words t w cs h letters full scored;
  score_any_lengths = λ t w cs letters full scored.
      let (same, bytes, upper_letters) = score_any-some t w scored in
      rw same (colored_lengths n (to_upper t) w letters full upper_letters bytes);
  score_any_total = λ g w g_letters g_full letters full.
      let same = upper-letters g g_letters in
      score_any_total g w (rw same g_letters) (
        rw same
          (omega (arith, g_full, full, byte_len-letters g g_letters, byte_len-letters w letters)));
}
