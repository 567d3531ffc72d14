-- ===== src/Game/Duel/Rogue.antt =====
-- The Rogue's abilities (internal/game/rogue.go), and the request of a cast (DuelCastReq of
-- internal/protocol/protocol.go).
use mathlib.Core.Option
use nytrpg.Prelude.{
  List, Option, Rng, [], false, get_or, if◌then◌else◌, intn, map, none, pos_part, set, some, suc,
  true, zero, ℕ, ℤ, ◌%◌, ◌++◌, ◌+◌, ◌∷◌,
}
use nytrpg.Classes.{AbilityId, cheat, confuse, feint, pickpocket, under_their_nose}
use nytrpg.Game.Duel.{
  Arena, Seat, cast_event, cast_msg, hostile, other_seat, put, side, tell, with_rng,
}
use nytrpg.Game.Duel.Eyes.{letter_at}
use nytrpg.Game.Message.{Tile, cast_used, duel_pickpocket, tile_zero}
use nytrpg.Game.Side.{Side, set_effects}
use nytrpg.Text.{Text}
use nytrpg.Wordle.Score.{Color}

-- `hidden` stands for any color number that is not grey, yellow or green.
pub record CastReq : Type 0 where
  pub slot : ℤ
  pub row : ℤ
  pub col : ℤ
  pub letter : Text
  pub colors : List Color

-- `tile{req.Row, req.Col}`, which is used only where both are found to be in range.
abbrev pub req_tile : CastReq → Tile
req_tile req = record { row = pos_part req.row; col = pos_part req.col }

abbrev pub scramble_guesses : ℕ
scramble_guesses = 2

-- `rng.Perm(n)`: the numbers below n in some order. `rounds` counts up from `i`.
perm_from : ℕ → ℕ → List ℕ → Rng → List ℕ × Rng
perm_from zero i m r = (m, r)
perm_from (suc rounds) i m r =
    let (j, r') = intn (suc i) r in perm_from rounds (suc i) (set (m ++ get_or m j i ∷ []) j i) r'

-- Every letter on the keyboard somewhere else.
unfoldable pub scrambled_keys : Rng → Text × Rng
unfolding perm_from intn
scrambled_keys r = let (m, r') = perm_from 26 0 [] r in (map (λ j. b'A' + j) m, r')

abbrev pub alphabet_from : ℕ → ℕ → Text
alphabet_from zero c = []
alphabet_from (suc n) c = c ∷ alphabet_from n (suc c)

-- Two keys swap, on top of any scramble.
unfoldable pub swap_keys : Side → Rng → Side × Rng
unfolding intn
swap_keys s r =
    let keys = Option.get_or s.keymap (alphabet_from 26 b'A') in
    let (i, r1) = intn 26 r in
    let (d, r2) = intn 25 r1 in
    let j = (i + 1 + d) % 26 in
    let swapped = set (set keys i (get_or keys j 0)) j (get_or keys i 0) in
    (
      set_effects (λ e. record e { keymap = some swapped; scrambled_guesses = scramble_guesses }) s,
      r2,
    )

-- `castRogue`; `none` if the ability is not one of these.
unfoldable pub cast_rogue : Seat → AbilityId → CastReq → Arena → Option Arena
unfolding hostile cast_event tell scrambled_keys letter_at
cast_rogue seat pickpocket req ar =
    let t = req_tile req in
    let (hit_ar, hit) = hostile seat pickpocket cast_used t ar in
    let letter = Option.get_or (letter_at (side (other_seat seat) ar) t) 0 in
    some (if hit then tell seat (duel_pickpocket t letter) hit_ar else hit_ar)
cast_rogue seat cheat req ar = some (
    cast_event seat cheat cast_used false tile_zero
      (put seat (set_effects (λ e. record e { cheat = true }) (side seat ar)) ar))
cast_rogue seat feint req ar = some (
    cast_event seat feint cast_used false tile_zero
      (put seat (set_effects (λ e. record e { feint = some req.colors }) (side seat ar)) ar))
cast_rogue seat under_their_nose req ar =
    let them = side (other_seat seat) ar in
    some (
      if them.shield
      then (hostile seat under_their_nose cast_used tile_zero ar).0
      else tell seat (cast_msg under_their_nose cast_used false tile_zero true) (
          put (other_seat seat) (set_effects (λ e. record e { false_next = some req.colors }) them)
            ar))
cast_rogue seat confuse req ar =
    let (hit_ar, hit) = hostile seat confuse cast_used tile_zero ar in
    let (keys, r) = scrambled_keys hit_ar.rng in
    let cursed =
      set_effects (λ e. record e { keymap = some keys; scrambled_guesses = scramble_guesses })
        (side (other_seat seat) hit_ar) in
    some (if hit then with_rng r (put (other_seat seat) cursed hit_ar) else hit_ar)
cast_rogue seat _ req ar = none
