-- ===== src/Game/Side.antt =====
-- One player's half of a duel: `duelSide`, `guessRow`, `eye`, `illusionGame` and `sideEffects`
-- (internal/game/duel.go and internal/game/abilities.go). Times are nanoseconds since an epoch, and
-- 0 is Go's zero time.
pub mod State
pub mod Learn
pub mod Once
pub mod Invariant
use nytrpg.Prelude.{
  Bool, List, Option, [], false, if◌then◌else◌, is_empty, is_some, leb, length, ltb, min, none, not,
  replicate, ℕ, ◌&&◌, ◌*◌, ◌+◌, ◌-◌, ◌||◌, ◌∷◌,
}
use nytrpg.Classes.{AbilityId, ClassId, cheat, feint, illusion}
use nytrpg.Game.Message.{Tile, solved}
use nytrpg.Text.{Text}
use nytrpg.Wordle.Score.{Color, all_green, green, yellow}

-- The best guess so far as the exact fraction that `ranked.Closeness` rounds to a float64.
pub record Frac : Type 0 where
  pub num : ℕ
  pub den : ℕ

abbrev pub frac_zero : Frac
frac_zero = record { num = 0; den = 1 }

unfoldable pub max_frac : Frac → Frac → Frac
max_frac a b = if ltb (a.num * b.den) (b.num * a.den) then b else a

-- Half points: a green is two, a yellow one.
abbrev pub half_points : Color → ℕ
half_points green = 2
half_points yellow = 1
half_points _ = 0

unfoldable pub total_points : List Color → ℕ
total_points [] = 0
total_points (c ∷ cs) = half_points c + total_points cs

-- `ranked.Closeness` (internal/ranked/elo.go)
unfoldable pub closeness : List Color → Frac
unfolding total_points
closeness [] = frac_zero
closeness (c ∷ cs) = record { num = total_points (c ∷ cs); den = 2 * length (c ∷ cs) }

pub record GuessRow : Type 0 where
  pub word : Text
  -- The real colors, what the guesser was shown, and what the opponent was shown.
  pub colors : List Color
  pub seen : List Color
  pub shown : List Color

abbrev pub new_guess_row : Text → List Color → GuessRow
new_guess_row w cs = record { word = w; colors = cs; seen = cs; shown = cs }

-- A Seeing Eye; `at` counts only while it is on.
pub record Eye : Type 0 where
  pub at : Tile
  pub on : Bool
  pub next : ℕ

pub record Illusion : Type 0 where
  pub answer : Text
  pub tries : ℕ

-- `sideEffects`
pub record Effects : Type 0 where
  pub energy : ℕ
  pub greens : List Bool
  pub found : List Bool
  pub stunned_until : ℕ
  pub shield : Bool
  pub destroyed : List Tile
  pub eyes : List Eye
  pub missiles : List ℕ
  pub illusion : Option Illusion
  pub reshape : List Text
  pub used : List AbilityId
  pub cheat : Bool
  pub feint : Option (List Color)
  pub false_next : Option (List Color)
  pub keymap : Option Text
  pub scrambled_guesses : ℕ
  pub silenced_until : ℕ

unfoldable pub new_side_effects : ℕ → Effects
new_side_effects word_length = record {
  energy = 0;
  greens = replicate word_length false;
  found = replicate 26 false;
  stunned_until = 0;
  shield = false;
  destroyed = [];
  eyes = [];
  missiles = [];
  illusion = none;
  reshape = [];
  used = [];
  cheat = false;
  feint = none;
  false_next = none;
  keymap = none;
  scrambled_guesses = 0;
  silenced_until = 0;
}

-- `duelSide`; `client` stands for the pointer to its player.
pub record Side : Type 0 where
  pub client : ℕ
  pub class : ClassId
  pub word : Text
  pub guesses : List GuessRow
  pub rows : ℕ
  pub solved : Bool
  pub best : Frac
  pub effects : Effects
  pub open effects use *

abbrev pub set_effects : (Effects → Effects) → Side → Side
set_effects f s = record s { effects = f s.effects }

-- A guess that is all green is the word.
unfoldable pub solves : List Color → Bool
solves cs = all_green cs && not (is_empty cs)

unfoldable pub out : Side → Bool
out s = not s.solved && leb s.rows (length s.guesses)

unfoldable pub done : Side → Bool
unfolding out
done s = s.solved || out s

unfoldable pub unused_rows : Side → ℕ
unused_rows s = s.rows - length s.guesses

-- `now.Before(t)` is `ltb now t`.
unfoldable pub blocked : ℕ → Side → Bool
blocked now s = ltb now s.stunned_until || is_some s.illusion

unfoldable pub stun : ℕ → Side → Side
stun until s =
    if ltb s.stunned_until until then set_effects (λ e. record e { stunned_until = until }) s else s

-- The side, and how much it lost.
unfoldable pub lose_energy : ℕ → Side → Side × ℕ
lose_energy n s =
    let lost = min n s.energy in (set_effects (λ e. record e { energy = e.energy - lost }) s, lost)
