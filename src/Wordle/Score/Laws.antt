-- ===== src/Wordle/Score/Laws.antt =====
-- Where the greens are, and how long the colors are (internal/puzzles/wordle/game.go).
use nytrpg.Prelude.{
  Bool, List, [], all, ap, arith, false, if◌then◌else◌, length, length-replicate, ltb, map, refl,
  some, suc, true, ◌&&◌, ◌==◌, ◌↔◌, ◌∙◌, ◌∷◌, ◌≡◌,
}
use nytrpg.Text.{Text, byte_len, is_letters, to_upper}
use nytrpg.Wordle.Score.{
  Color, Counts, all_green, bump, colors_for, count_letters, green, green_pass, grey, is_green,
  is_grey, no_counts, score, score_any, yellow_pass,
}

-- The places where the guess has the word's letter.
pub matches : Text → Text → List Bool
matches [] ws = []
matches (g ∷ gs) [] = []
matches (g ∷ gs) (w ∷ ws) = (g == w) ∷ matches gs ws

is_plain : Color → Bool
is_plain grey = true
is_plain green = true
is_plain _ = false

green_pass-matches :
    (gs ws : Text) (m : Counts)
    → length gs ≡ length ws
    → map is_green (green_pass gs ws m).0 ≡ matches gs ws
unfolding green_pass matches
green_pass-matches [] [] m h = refl
green_pass-matches [] (w ∷ ws) m h = absurd (omega arith)
green_pass-matches (g ∷ gs) [] m h = absurd (omega arith)
green_pass-matches (g ∷ gs) (w ∷ ws) m h =
    ground (arith, green_pass-matches gs ws (if g == w then bump g m else m))

yellow_pass-green :
    (total : Counts) (gs : Text) (cs : List Color) (m : Counts)
    → length gs ≡ length cs
    → map is_green (yellow_pass total gs cs m) ≡ map is_green cs
unfolding yellow_pass
yellow_pass-green total [] cs m h = refl
yellow_pass-green total (g ∷ gs) [] m h = absurd (omega arith)
yellow_pass-green total (g ∷ gs) (c ∷ cs) m h = ground (
  arith,
  yellow_pass-green total gs cs (if is_grey c && ltb (m g) (total g) then bump g m else m),
)

length-green_pass : (gs ws : Text) (m : Counts) → length (green_pass gs ws m).0 ≡ length ws
unfolding green_pass
length-green_pass gs [] m = green_nil gs m
  where
    green_nil : (gs : Text) (m : Counts) → length (green_pass gs [] m).0 ≡ 0
    green_nil [] m = refl
    green_nil (g ∷ gs) m = refl
length-green_pass [] (w ∷ ws) m = ap suc (length-replicate (length ws) grey)
length-green_pass (g ∷ gs) (w ∷ ws) m =
    ap suc (length-green_pass gs ws (if g == w then bump g m else m))

length-yellow_pass :
    (total : Counts) (gs : Text) (cs : List Color) (m : Counts)
    → length gs ≡ length cs
    → length (yellow_pass total gs cs m) ≡ length cs
unfolding yellow_pass
length-yellow_pass total [] cs m h = refl
length-yellow_pass total (g ∷ gs) [] m h = refl
length-yellow_pass total (g ∷ gs) (c ∷ cs) m h = ap suc (
    length-yellow_pass total gs cs (if is_grey c && ltb (m g) (total g) then bump g m else m)
      (omega arith))

pub length-colors_for :
    (guess word : Text) → length guess ≡ length word → length (colors_for guess word) ≡ length word
unfolding colors_for
length-colors_for guess word h =
    let r = green_pass guess word no_counts in
    omega (
      arith,
      length-green_pass guess word no_counts,
      length-yellow_pass (count_letters word no_counts) guess r.0 r.1,
    )

-- A place is green exactly if the guess has the word's letter there, for a guess as long as the
-- word.
pub green-colors_for :
    (guess word : Text)
    → length guess ≡ length word
    → map is_green (colors_for guess word) ≡ matches guess word
unfolding colors_for
green-colors_for guess word h =
    let r = green_pass guess word no_counts in
    yellow_pass-green (count_letters word no_counts) guess r.0 r.1
      (omega (arith, length-green_pass guess word no_counts))
    ∙ green_pass-matches guess word no_counts h

all_green-map : (cs : List Color) → all_green cs ≡ all (λ b. b) (map is_green cs)
all_green-map [] = refl
all_green-map (c ∷ cs) = rw (all_green-map cs)

matches-all :
    (gs ws : Text) → length gs ≡ length ws → (all (λ b. b) (matches gs ws) ≡ true) ↔ (gs ≡ ws)
unfolding matches
matches-all [] [] h = (λ _. refl, λ _. refl)
matches-all [] (w ∷ ws) h = absurd (omega arith)
matches-all (g ∷ gs) [] h = absurd (omega arith)
matches-all (g ∷ gs) (w ∷ ws) h =
    let ih = matches-all gs ws (omega arith) in
    (λ k. ground (arith, ih.0), λ k. ground (arith, ih.1))

-- All colors are green exactly if the guess is the word, for a guess as long as the word.
pub all_green-colors_for :
    (guess word : Text)
    → length guess ≡ length word
    → (all_green (colors_for guess word) ≡ true) ↔ (guess ≡ word)
all_green-colors_for guess word h =
    rw (all_green-map (colors_for guess word), green-colors_for guess word h)
      (matches-all guess word h)

-- A guess that is scored was one the word list has, of the word's length, and its colors are those
-- of the upper-case guess.
pub score-some :
    (guessable : Text → Bool) (guess word : Text) {cs : List Color}
    → score guessable guess word ≡ some cs
    → (cs ≡ colors_for (to_upper guess) word)
      × (byte_len (to_upper guess) ≡ byte_len word)
      × (guessable (to_upper guess) ≡ true)
unfolding score
score-some guessable guess word h = ground arith

pub score_any-some :
    (guess word : Text) {cs : List Color}
    → score_any guess word ≡ some cs
    → (cs ≡ colors_for (to_upper guess) word)
      × (byte_len (to_upper guess) ≡ byte_len word)
      × (is_letters (to_upper guess) ≡ true)
unfolding score_any
score_any-some guess word h = ground arith
