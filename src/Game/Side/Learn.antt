-- ===== src/Game/Side/Learn.antt =====
-- What a guess teaches and pays (internal/game/abilities.go: learn, markFound, relearn).
use nytrpg.Prelude.{
  Bool, List, [], false, get_or, if◌then◌else◌, leb, length, not, replicate, set, suc, true, ℕ,
  ◌&&◌, ◌+◌, ◌-◌, ◌∷◌,
}
use nytrpg.Game.Side.{GuessRow, Side, closeness, frac_zero, max_frac, set_effects}
use nytrpg.Text.{Text}
use nytrpg.Wordle.Score.{Color, is_green, is_yellow}

abbrev green_energy : ℕ
green_energy = 2

abbrev yellow_energy : ℕ
yellow_energy = 1

-- What the two loops of `learn` change: the side's `greens` and `found`, and their own variables.
pub record Learning : Type 0 where
  pub greens : List Bool
  pub found : List Bool
  pub gain : ℕ
  pub new_green : Bool

-- `s.found[i]` for the letter's index, if there is one.
unfoldable pub is_new_letter : ℕ → List Bool → Bool
is_new_letter letter found = leb b'A' letter && not (get_or found (letter - b'A') true)

-- The letters found, and whether the letter is new.
unfoldable pub mark_found : ℕ → List Bool → List Bool × Bool
unfolding is_new_letter
mark_found letter found =
    if is_new_letter letter found then (set found (letter - b'A') true, true) else (found, false)

unfoldable pub learn_green : ℕ → Color → ℕ → Learning → Learning
unfolding mark_found
learn_green i c letter l =
    if is_green c && not (get_or l.greens i true)
    then record {
      greens = set l.greens i true;
      found = (mark_found letter l.found).0;
      gain = l.gain + green_energy;
      new_green = true;
    }
    else l

unfoldable pub learn_yellow : Color → ℕ → Learning → Learning
unfolding mark_found
learn_yellow c letter l =
    if is_yellow c && (mark_found letter l.found).1
    then record l { found = (mark_found letter l.found).0; gain = l.gain + yellow_energy }
    else l

-- The two loops over the guess's colors. A guess has as many colors as letters.
unfoldable pub learn_greens : ℕ → List Color → Text → Learning → Learning
unfolding learn_green
learn_greens i [] word l = l
learn_greens i (c ∷ cs) [] l = l
learn_greens i (c ∷ cs) (x ∷ word) l = learn_greens (suc i) cs word (learn_green i c x l)

unfoldable pub learn_yellows : List Color → Text → Learning → Learning
unfolding learn_yellow
learn_yellows [] word l = l
learn_yellows (c ∷ cs) [] l = l
learn_yellows (c ∷ cs) (x ∷ word) l = learn_yellows cs word (learn_yellow c x l)

-- Records the letters a guess found; the side, and whether it found a new green.
unfoldable pub learn : GuessRow → Bool → Side → Side × Bool
unfolding learn_greens learn_yellows
learn g pay s =
    let start : Learning = record {
      greens = s.greens;
      found = s.found;
      gain = 0;
      new_green = false;
    } in
    let l = learn_yellows g.colors g.word (learn_greens 0 g.colors g.word start) in
    let energy = if pay then s.energy + l.gain else s.energy in
    (
      set_effects (λ e. record e { greens = l.greens; found = l.found; energy = energy }) s,
      l.new_green,
    )

unfoldable pub relearn_all : List GuessRow → Side → Side
unfolding learn
relearn_all [] s = s
relearn_all (g ∷ gs) s =
    let taught = (learn g false s).0 in
    relearn_all gs (record taught { best = max_frac taught.best (closeness g.colors) })

-- Forgets what was found and learns it again from the guesses, without paying.
unfoldable pub relearn : Side → Side
unfolding relearn_all
relearn s =
    let forgetful =
      set_effects
        (λ e. record e { greens = replicate (length e.greens) false; found = replicate 26 false })
        (record s { best = frac_zero }) in
    relearn_all s.guesses forgetful
