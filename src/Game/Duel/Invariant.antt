-- ===== src/Game/Duel/Invariant.antt =====
-- What holds of a duel between two handlers (internal/game/duel.go and abilities.go), and how the
-- small steps of the handlers keep it.
pub mod Eyes
pub mod Hits
pub mod Clerics
pub mod Mends
pub mod Fates
pub mod Casts
pub mod Requests
pub mod Guesses
pub mod Passives
pub mod Ticks
use nytrpg.Prelude.{
  Bool, List, Rng, false, if◌then◌else◌, is_some, length, ltb, refl, some, true, ℕ, ◌≡◌,
}
use nytrpg.Classes.{AbilityId}
use nytrpg.Game.Duel.{
  Arena, DuelPuzzle, Seat, cast_event, first, hostile, other_seat, put, second, side, tell,
}
use nytrpg.Game.Duel.Eyes.Sight.{AllLookRight}
use nytrpg.Game.Message.{CastKind, Tile}
use nytrpg.Game.Side.{Side, stun}
use nytrpg.Game.Side.Invariant.{IsValidSide}
use nytrpg.Text.{Text, is_letters, to_upper}
use nytrpg.Wordle.Score.{Color}

-- Both sides are valid, and the eyes of each look at letters of the other's board.
abbrev pub IsValidPair : ℕ → Side → Side → Type 0
IsValidPair n me them =
    IsValidSide n me × IsValidSide n them × AllLookRight me.eyes them × AllLookRight them.eyes me

-- A duel over words of `n` letters is valid.
abbrev pub IsValid : ℕ → Arena → Type 0
IsValid n ar = IsValidPair n ar.duel.a ar.duel.b

pub if_keeps {ℓ κ} :
    {A : Type ℓ} (P : A → Type κ) (b : Bool) {x y : A} → P x → P y → P (if b then x else y)
if_keeps P true h k = h
if_keeps P false h k = k

pub if_cases {ℓ κ} :
    {A : Type ℓ} (P : A → Type κ) (b : Bool) {x y : A}
    → (b ≡ true → P x)
    → (b ≡ false → P y)
    → P (if b then x else y)
if_cases P true h k = h refl
if_cases P false h k = k refl

module _ (n : ℕ) where
  -- A valid duel seen from a seat.
  pub at_seat :
      (seat : Seat) (ar : Arena)
      → IsValid n ar
      → IsValidPair n (side seat ar) (side (other_seat seat) ar)
  at_seat first ar v = v
  at_seat second ar (a, b, ea, eb) = (b, a, eb, ea)

  pub put_me :
      (seat : Seat) (ar : Arena) (me : Side)
      → IsValidPair n me (side (other_seat seat) ar)
      → IsValid n (put seat me ar)
  put_me first ar me v = v
  put_me second ar me (b, a, eb, ea) = (a, b, ea, eb)

  pub put_them :
      (seat : Seat) (ar : Arena) (them : Side)
      → IsValidPair n (side seat ar) them
      → IsValid n (put (other_seat seat) them ar)
  put_them first ar them v = v
  put_them second ar them (b, a, eb, ea) = (a, b, ea, eb)

  pub from_seat :
      (seat : Seat) (ar : Arena)
      → IsValidPair n (side seat ar) (side (other_seat seat) ar)
      → IsValid n ar
  from_seat first ar v = v
  from_seat second ar (b, a, eb, ea) = (a, b, ea, eb)

  pub hostile-IsValid :
      (caster : Seat) (i : AbilityId) (k : CastKind) (t : Tile) (ar : Arena)
      → IsValid n ar
      → IsValid n (hostile caster i k t ar).0
  unfolding hostile cast_event tell
  hostile-IsValid caster i k t ar v = put_them caster ar _ (at_seat caster ar v)

  -- A hit that leaves its target valid keeps the duel valid.
  pub hit-IsValid :
      (caster : Seat) (i : AbilityId) (k : CastKind) (t : Tile) (f : Side → Side) (ar : Arena)
      → ((me them : Side) → IsValidPair n me them → IsValidPair n me (f them))
      → IsValid n ar
      → let r = hostile caster i k t ar in
        IsValid n
          (if r.1 then put (other_seat caster) (f (side (other_seat caster) r.0)) r.0 else r.0)
  hit-IsValid caster i k t f ar keeps v =
      let hit_ar = (hostile caster i k t ar).0 in
      let w = hostile-IsValid caster i k t ar v in
      if_keeps (IsValid n) (hostile caster i k t ar).1
        (put_them caster hit_ar _
          (keeps (side caster hit_ar) (side (other_seat caster) hit_ar) (at_seat caster hit_ar w)))
        w

  pub stun-IsValidPair :
      (until : ℕ) (me them : Side) → IsValidPair n me them → IsValidPair n me (stun until them)
  unfolding stun
  stun-IsValidPair until me them v = if_keeps (IsValidPair n me) (ltb them.stunned_until until) v v

-- What the handlers rely on of a puzzle over words of `n` letters. (Wordle.Puzzle has it.)
pub record IsLawful (n : ℕ) (puzzle : DuelPuzzle) : Type 0 where
  pub new_word_letters : (r : Rng) → is_letters (puzzle.new_word r).0 ≡ true
  pub new_word_length : (r : Rng) → length (puzzle.new_word r).0 ≡ n
  pub score_lengths :
      (t w : Text) (cs : List Color)
      → is_letters w ≡ true
      → length w ≡ n
      → puzzle.score t w ≡ some cs
      → (length cs ≡ n) × (is_letters (to_upper t) ≡ true) × (length (to_upper t) ≡ n)
  pub score_any_lengths :
      (t w : Text) (cs : List Color)
      → is_letters w ≡ true
      → length w ≡ n
      → puzzle.score_any t w ≡ some cs
      → (length cs ≡ n) × (is_letters (to_upper t) ≡ true) × (length (to_upper t) ≡ n)
  pub score_any_total :
      (g w : Text)
      → is_letters g ≡ true
      → length g ≡ n
      → is_letters w ≡ true
      → length w ≡ n
      → is_some (puzzle.score_any g w) ≡ true
