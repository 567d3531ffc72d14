-- ===== src/Game/Duel/Shield.antt =====
-- Shields and prayers: what an ability takes from the other side, and what comes back
-- (internal/game/abilities.go: hostile, CastAbility; internal/game/cleric.go: pray).
use nytrpg.Prelude.{arith, false, not, refl, true, ℕ, ◌≡◌}
use nytrpg.Classes.{Ability, AbilityId}
use nytrpg.Game.Duel.{Arena, Seat, cast_event, first, hostile, other_seat, put, second, side, tell}
use nytrpg.Game.Duel.Cast.{may_cast, pay}
use nytrpg.Game.Duel.Cleric.{unanswered}
use nytrpg.Game.Duel.Rogue.{CastReq}
use nytrpg.Game.Message.{CastKind, PrayerKind, Tile}
use nytrpg.Game.Side.{set_effects}

-- A shield stops one ability and is gone: an ability hits exactly if the opponent has no shield, the
-- next one hits in any case, and neither changes anything else of the two sides.
pub hostile-hostile :
    (caster : Seat) (i j : AbilityId) (k l : CastKind) (t u : Tile) (ar : Arena)
    → let blow = hostile caster i k t ar in
      let next = hostile caster j l u blow.0 in
      let them = side (other_seat caster) ar in
      (blow.1 ≡ not them.shield)
      × (next.1 ≡ true)
      × (side caster next.0 ≡ side caster ar)
      × (side (other_seat caster) next.0 ≡ set_effects (λ e. record e { shield = false }) them)
unfolding hostile cast_event tell
hostile-hostile first i j k l t u ar = (refl, refl, refl, refl)
hostile-hostile second i j k l t u ar = (refl, refl, refl, refl)

-- The refund of a prayer that was paid for under the checks of a cast gives back what was paid: the
-- energy is what it was before.
pub unanswered-pay :
    (now id : ℕ) (seat : Seat) (a : Ability) (k : PrayerKind) (req : CastReq) (ar : Arena)
    → may_cast now a (side seat ar) (side (other_seat seat) ar) req ≡ true
    → let paid = put seat (set_effects (pay a) (side seat ar)) ar in
      (side seat (unanswered seat id k a.cost paid)).energy ≡ (side seat ar).energy
unfolding may_cast unanswered tell
unanswered-pay now id first a k req ar h = ground arith
unanswered-pay now id second a k req ar h = ground arith
