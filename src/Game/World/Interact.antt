-- ===== src/Game/World/Interact.antt =====
-- What a player can use from where it stands (internal/game/worldmap.go: findInteractable,
-- distToInteractable, InRange; Interactable of internal/protocol/protocol.go). Distances are
-- compared by their squares, which is exact.
pub mod Reach
use nytrpg.Prelude.{
  Bool, List, Option, [], false, if◌then◌else◌, leb, lookup, max_ℤ, neg_part, negsuc, none, not,
  pos, pos_part, some, true, ℕ, ℤ, ◌&&◌, ◌*◌, ◌+ℤ◌, ◌+◌, ◌-ℤ◌, ◌==◌, ◌||◌, ◌∷◌,
}
use nytrpg.Game.World.Grid.{Vec}
use nytrpg.Game.World.State.{Entity, Player, World}
use nytrpg.Text.{Text, text_eq}

-- `Interactable`, with what the server uses of it.
pub record Interactable : Type 0 where
  pub id : Text
  pub corner : Vec
  pub w : ℤ
  pub h : ℤ
  pub range : ℤ

-- `findInteractable`
unfoldable pub find_interactable : Text → List Interactable → Option Interactable
find_interactable id [] = none
find_interactable id (it ∷ its) = if text_eq it.id id then some it else find_interactable id its

-- max(at-p, 0, p-(at+size))
unfoldable pub gap : ℤ → ℤ → ℤ → ℤ
gap p at size = max_ℤ (max_ℤ (at -ℤ p) (pos 0)) (p -ℤ (at +ℤ size))

abbrev pub square : ℤ → ℕ
square z = (pos_part z + neg_part z) * (pos_part z + neg_part z)

abbrev pub is_negative : ℤ → Bool
is_negative (pos n) = false
is_negative (negsuc n) = true

-- distToInteractable(p, it) <= Range
unfoldable pub in_reach : Vec → Interactable → Bool
unfolding gap
in_reach p it =
    not (is_negative it.range)
    && leb (square (gap p.x it.corner.x it.w) + square (gap p.y it.corner.y it.h)) (square it.range)

abbrev pub is_zero : ℤ → Bool
is_zero (pos n) = n == 0
is_zero (negsuc n) = false

abbrev pub stands_near : Option Entity → Interactable → Bool
stands_near none it = false
stands_near (some e) it = in_reach e.at it

abbrev pub player_near : Option Player → Interactable → World → Bool
player_near none it w = false
player_near (some p) it w = stands_near (lookup p.ent w.entities) it

abbrev pub can_use : ℕ → Option Interactable → World → Bool
can_use c none w = false
can_use c (some it) w = is_zero it.range || player_near (lookup c w.players) it w

-- `InRange`
unfoldable pub is_in_range : List Interactable → ℕ → Text → World → Bool
unfolding find_interactable in_reach
is_in_range its c id w = can_use c (find_interactable id its) w
