-- ===== src/Game/World/Interact/Reach.antt =====
-- A player is in range of something if a point of it is near enough (internal/game/worldmap.go).
use nytrpg.Prelude.{
  +ℤ_parts, -ℤ_parts, Bool, List, arith, false, inl, inr, leb, leb→le, lookup, neg_part, negsuc,
  not, pos, pos_part, refl, some, true, ℕ, ℤ, ◌&&◌, ◌*◌, ◌+ℤ◌, ◌+◌, ◌-ℤ◌, ◌↔◌, ◌≡◌, ◌≤ℤ◌, ◌≤◌, ◌⊎◌,
}
use nytrpg.Game.World.Grid.{Vec}
use nytrpg.Game.World.Interact.{
  Interactable, find_interactable, gap, in_reach, is_in_range, is_negative, is_zero, square,
}
use nytrpg.Game.World.State.{Entity, Player, World, clamp}
use nytrpg.Text.{Text}

abbrev size_of : ℤ → ℕ
size_of z = pos_part z + neg_part z

-- The place of an interval that is nearest to `p`.
abbrev nearest : ℤ → ℤ → ℤ → ℤ
nearest p at size = clamp p at (at +ℤ size)

one_sign : (z : ℤ) → (pos_part z ≡ 0) ⊎ (neg_part z ≡ 0)
one_sign (pos n) = inr refl
one_sign (negsuc n) = inl refl

nearest_inside :
    (p at size : ℤ) → pos 0 ≤ℤ size → (at ≤ℤ nearest p at size) × (nearest p at size ≤ℤ at +ℤ size)
unfolding clamp
nearest_inside p at size h = ground (arith, +ℤ_parts at size)

size_of-gap :
    (p at size : ℤ) → pos 0 ≤ℤ size → size_of (p -ℤ nearest p at size) ≡ size_of (gap p at size)
unfolding clamp gap
size_of-gap p at size h = ground (
  arith,
  +ℤ_parts at size,
  -ℤ_parts at p,
  -ℤ_parts p (at +ℤ size),
  -ℤ_parts p (nearest p at size),
  one_sign (at -ℤ p),
  one_sign (p -ℤ (at +ℤ size)),
  one_sign (p -ℤ nearest p at size),
)

-- No place of the interval is nearer.
gap-le : (p q at size : ℤ) → at ≤ℤ q → q ≤ℤ at +ℤ size → size_of (gap p at size) ≤ size_of (p -ℤ q)
unfolding gap
gap-le p q at size above below = ground (
  arith,
  +ℤ_parts at size,
  -ℤ_parts at p,
  -ℤ_parts p (at +ℤ size),
  -ℤ_parts p q,
  one_sign (at -ℤ p),
  one_sign (p -ℤ (at +ℤ size)),
  one_sign (p -ℤ q),
)

square_mono : (a b : ℕ) → a ≤ b → a * a ≤ b * b
square_mono a b h = grind arith

-- A point of the rectangle.
abbrev pub IsOn : Vec → Interactable → Type 0
IsOn q it =
    (it.corner.x ≤ℤ q.x)
    × (q.x ≤ℤ it.corner.x +ℤ it.w)
    × (it.corner.y ≤ℤ q.y)
    × (q.y ≤ℤ it.corner.y +ℤ it.h)

-- The distance of two places is at most a range.
abbrev pub IsWithin : Vec → Vec → ℤ → Type 0
IsWithin p q range = (pos 0 ≤ℤ range) × (square (p.x -ℤ q.x) + square (p.y -ℤ q.y) ≤ square range)

not_negative : (z : ℤ) → (is_negative z ≡ false) ↔ (pos 0 ≤ℤ z)
not_negative (pos n) = (λ h. omega arith, λ h. refl)
not_negative (negsuc n) = (λ h. cc, λ h. absurd (omega arith))

-- The square of the distance to the rectangle.
abbrev away : Vec → Interactable → ℕ
away p it = square (gap p.x it.corner.x it.w) + square (gap p.y it.corner.y it.h)

in_reach-away :
    (p : Vec) (it : Interactable)
    → (in_reach p it ≡ true) ↔ ((pos 0 ≤ℤ it.range) × (away p it ≤ square it.range))
unfolding in_reach
in_reach-away p it = reach_test (is_negative it.range) (not_negative it.range)
  where
    reach_test :
        (b : Bool)
        → (b ≡ false) ↔ (pos 0 ≤ℤ it.range)
        → ((not b && leb (away p it) (square it.range)) ≡ true)
          ↔ ((pos 0 ≤ℤ it.range) × (away p it ≤ square it.range))
    reach_test true sign = (λ h. cc, λ h. absurd (cc (sign.1 h.0)))
    reach_test false sign =
        (λ h. (sign.0 refl, leb→le (away p it) (square it.range) h), λ h. ground (arith, h.1))

module _ (its : List Interactable) (c : ℕ) (id : Text) (w : World) (it : Interactable) (p : Player)
    (e : Entity) where
  -- A player who is in the world is in range of something that has a range exactly if some point
  -- of that thing's rectangle is at most its range away from where the player stands.
  pub is_in_range-IsWithin :
      find_interactable id its ≡ some it
      → is_zero it.range ≡ false
      → pos 0 ≤ℤ it.w
      → pos 0 ≤ℤ it.h
      → lookup c w.players ≡ some p
      → lookup p.ent w.entities ≡ some e
      → (is_in_range its c id w ≡ true) ↔ ((q : Vec) × IsOn q it × IsWithin e.at q it.range)
  unfolding is_in_range
  is_in_range-IsWithin found ranged wide high there stored =
      rw (found, ranged, there, stored) (to_point, from_point)
    where
      to_point : in_reach e.at it ≡ true → (q : Vec) × IsOn q it × IsWithin e.at q it.range
      to_point h =
          let (positive, close) = (in_reach-away e.at it).0 h in
          let x_in = nearest_inside e.at.x it.corner.x it.w wide in
          let y_in = nearest_inside e.at.y it.corner.y it.h high in
          (
            record { x = nearest e.at.x it.corner.x it.w; y = nearest e.at.y it.corner.y it.h },
            (x_in.0, x_in.1, y_in.0, y_in.1),
            (
              positive,
              rw
                  (
                    size_of-gap e.at.x it.corner.x it.w wide,
                    size_of-gap e.at.y it.corner.y it.h high,
                  )
                  close,
            ),
          )

      from_point : ((q : Vec) × IsOn q it × IsWithin e.at q it.range) → in_reach e.at it ≡ true
      from_point h =
          let (q, on, within) = h in
          let x_far = square_mono _ _ (gap-le e.at.x q.x it.corner.x it.w on.0 on.1) in
          let y_far = square_mono _ _ (gap-le e.at.y q.y it.corner.y it.h on.2 on.3) in
          (in_reach-away e.at it).1 (within.0, omega (arith, x_far, y_far, within.1))
