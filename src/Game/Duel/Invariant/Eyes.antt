-- ===== src/Game/Duel/Invariant/Eyes.antt =====
-- Aiming keeps the eyes on letters that they may see.
use nytrpg.Prelude.{
  All, All-mono, Bool, Bool-cases, List, [], any, arith, false, inl, inr, is_some,
  is_some-get_elem?, length, suc, true, zero, ℕ, ◌&&◌, ◌<◌, ◌||◌, ◌∷◌, ◌≡◌, ◌⊎◌,
}
use nytrpg.Game.Duel.{Arena, Seat, first, other_seat, put, second, side, tell}
use nytrpg.Game.Duel.Eyes.{aim_eyes, color_at, is_green_at, reaim_eyes, send_eyes}
use nytrpg.Game.Duel.Eyes.Sight.{AllLookRight, LooksRight, aim_where-LooksRight, color_in, sees}
use nytrpg.Game.Duel.Invariant.{IsValid, at_seat, from_seat, if_cases, put_me}
use nytrpg.Game.Message.{Tile}
use nytrpg.Game.Side.{Eye, GuessRow, Side}
use nytrpg.Game.Side.Invariant.{IsValidRow, IsValidSide}
use nytrpg.Game.Side.State.{destroyed_at}

abbrev pub InRange : List GuessRow → Eye → Type 0
InRange gs e = e.on ≡ true → is_some (color_in gs e.at.row e.at.col) ≡ true

abbrev pub AllInRange : List Eye → Side → Type 0
AllInRange es target = All (InRange target.guesses) es

-- A side without what is said of its own eyes.
abbrev pub IsValidBut : ℕ → Side → Side → Type 0
IsValidBut n me them =
    IsValidSide n me × IsValidSide n them × AllInRange me.eyes them × AllLookRight them.eyes me

pub LooksRight-InRange :
    (gs : List GuessRow) (ds : List Tile) (e : Eye) → LooksRight gs ds e → InRange gs e
unfolding sees
LooksRight-InRange gs ds e h on = ground (arith, h)

abbrev pub is_lost : Side → Eye → Bool
is_lost target e = e.on && (is_green_at target e.at || destroyed_at target e.at)

-- An eye in range either lost its letter or looks right.
lost_or_right :
    (target : Side) (e : Eye)
    → InRange target.guesses e
    → (is_lost target e ≡ true) ⊎ LooksRight target.guesses target.destroyed e
unfolding sees color_at color_in destroyed_at
lost_or_right target e h = elim (Bool-cases (is_lost target e)) [
  | inl lost ↦ inl lost
  | inr fine ↦ inr (λ on. ground (arith, h on))
]

pub any-false {ℓ} :
    {A : Type ℓ} (p : A → Bool) (xs : List A) → any p xs ≡ false → All (λ x. p x ≡ false) xs
any-false p [] h = tt
any-false p (x ∷ xs) h = (ground arith, any-false p xs (ground arith))

pub right_of_none_lost :
    (target : Side) (es : List Eye)
    → AllInRange es target
    → All (λ e. is_lost target e ≡ false) es
    → AllLookRight es target
right_of_none_lost target [] r h = tt
right_of_none_lost target (e ∷ es) r h = (
  elim (lost_or_right target e r.0) [ inl lost ↦ cc | inr right ↦ right ],
  right_of_none_lost target es r.1 h.1,
)

pub All-lost_or_right :
    (target : Side) (es : List Eye)
    → AllInRange es target
    → All (λ e. (is_lost target e ≡ true) ⊎ LooksRight target.guesses target.destroyed e) es
All-lost_or_right target [] r = tt
All-lost_or_right target (e ∷ es) r = (lost_or_right target e r.0, All-lost_or_right target es r.1)

module _ (n : ℕ) where
  -- Aiming any eyes of valid sides keeps them valid.
  pub aim_eyes-IsValid :
      (now : ℕ) (selected : Eye → Bool) (watcher : Seat) (ar : Arena)
      → IsValidSide n (side watcher ar)
      → IsValidSide n (side (other_seat watcher) ar)
      → AllLookRight (side (other_seat watcher) ar).eyes (side watcher ar)
      → All
          (λ e.
            (selected e ≡ true)
            ⊎ LooksRight
                (side (other_seat watcher) ar).guesses
                (side (other_seat watcher) ar).destroyed
                e)
          (side watcher ar).eyes
      → IsValid n (aim_eyes now selected watcher ar)
  unfolding aim_eyes
  aim_eyes-IsValid now selected watcher ar mine theirs right h = put_me n watcher ar _ (
    mine,
    theirs,
    aim_where-LooksRight now selected (side (other_seat watcher) ar) [] (side watcher ar).eyes
        ar.rng tt h,
    right,
  )

  All-right :
      (selected : Eye → Bool) (target : Side) (es : List Eye)
      → AllLookRight es target
      → All (λ e. (selected e ≡ true) ⊎ LooksRight target.guesses target.destroyed e) es
  All-right selected target es h =
      All-mono (LooksRight target.guesses target.destroyed)
        (λ e. (selected e ≡ true) ⊎ LooksRight target.guesses target.destroyed e) es
        (λ e right. inr right) h

  pub aim-IsValid :
      (now : ℕ) (selected : Eye → Bool) (watcher : Seat) (ar : Arena)
      → IsValid n ar
      → IsValid n (aim_eyes now selected watcher ar)
  aim-IsValid now selected watcher ar v =
      let (mine, theirs, my_eyes, their_eyes) = at_seat n watcher ar v in
      aim_eyes-IsValid now selected watcher ar mine theirs their_eyes
        (All-right selected (side (other_seat watcher) ar) (side watcher ar).eyes my_eyes)

  -- Moving the eyes that lost their letter makes a duel valid whose eyes are only in range.
  pub reaim-IsValid :
      (now : ℕ) (watcher : Seat) (ar : Arena)
      → IsValidBut n (side watcher ar) (side (other_seat watcher) ar)
      → IsValid n (reaim_eyes now watcher ar)
  unfolding reaim_eyes send_eyes tell
  reaim-IsValid now watcher ar (mine, theirs, range, right) =
      let target = side (other_seat watcher) ar in
      let es = (side watcher ar).eyes in
      if_cases (IsValid n) (any (is_lost target) es)
        (λ _.
          aim_eyes-IsValid now (is_lost target) watcher ar mine theirs right
            (All-lost_or_right target es range))
        (λ none_lost. from_seat n watcher ar (
          mine,
          theirs,
          right_of_none_lost target es range (any-false (is_lost target) es none_lost),
          right,
        ))

  pub reaim_them-IsValid :
      (now : ℕ) (watcher : Seat) (ar : Arena) (them : Side)
      → IsValidBut n (side watcher ar) them
      → IsValid n (reaim_eyes now watcher (put (other_seat watcher) them ar))
  reaim_them-IsValid now first ar them v = reaim-IsValid now first (put second them ar) v
  reaim_them-IsValid now second ar them v = reaim-IsValid now second (put first them ar) v

pub color_in-bounds :
    (n : ℕ) (gs : List GuessRow) (r c : ℕ)
    → All (IsValidRow n) gs
    → is_some (color_in gs r c) ≡ true
    → (r < length gs) × (c < n)
unfolding color_in
color_in-bounds n [] r c board h = cc
color_in-bounds n (g ∷ gs) zero c board h =
    let len = board.0.colors_length in
    let fits = (is_some-get_elem? g.colors c).0 h in (omega arith, omega arith)
color_in-bounds n (g ∷ gs) (suc r) c board h =
    let ih = color_in-bounds n gs r c board.1 h in (omega arith, ih.1)

pub color_in-some :
    (n : ℕ) (gs : List GuessRow) (r c : ℕ)
    → All (IsValidRow n) gs
    → r < length gs
    → c < n
    → is_some (color_in gs r c) ≡ true
unfolding color_in
color_in-some n [] r c board h k = elim h [ ]
color_in-some n (g ∷ gs) zero c board h k =
    let len = board.0.colors_length in (is_some-get_elem? g.colors c).1 (omega arith)
color_in-some n (g ∷ gs) (suc r) c board h k = color_in-some n gs r c board.1 (omega arith) k
