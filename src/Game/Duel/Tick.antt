-- ===== src/Game/Duel/Tick.antt =====
-- What happens to a duel every tick (internal/game/abilities.go: tickDuels).
use nytrpg.Prelude.{
  Bool, List, Option, [], any, false, if◌then◌else◌, keep, leb, ltb, none, not, some, suc, true,
  zero, ℕ, ◌&&◌, ◌+◌, ◌-◌, ◌/◌, ◌==◌, ◌||◌, ◌∷◌,
}
use nytrpg.Game.Duel.{Arena, Duel, Ending, Seat, first, other_seat, put, second, side, sync_duel}
use nytrpg.Game.Duel.Cast.{land_missile}
use nytrpg.Game.Duel.Cleric.{energy_interval}
use nytrpg.Game.Duel.Eyes.{aim_eyes, send_eyes}
use nytrpg.Game.Message.{time_up}
use nytrpg.Game.Side.{Eye, Side, set_effects}

-- Energy over time: `rounds` bounds the loop.
unfoldable pub energy_loop : ℕ → ℕ → Arena → Arena × Bool
energy_loop zero now ar = (ar, false)
energy_loop (suc rounds) now ar =
    let earn = set_effects (λ e. record e { energy = e.energy + 1 }) in
    let d = ar.duel in
    let earned = record ar {
      duel = record d { a = earn d.a; b = earn d.b; next_energy = d.next_energy + energy_interval };
    } in
    let rest = energy_loop rounds now earned in
    if leb d.next_energy now then (rest.0, true) else (ar, false)

-- Enough rounds for every interval that has passed.
abbrev pub energy_rounds : ℕ → Duel → ℕ
energy_rounds now d = suc ((now - d.next_energy) / energy_interval + 1)

unfoldable pub gain_energy : ℕ → Arena → Arena × Bool
unfolding energy_loop
gain_energy now ar = energy_loop (energy_rounds now ar.duel) now ar

-- The seat's stun and silence wear off.
unfoldable pub wear_off : ℕ → Side → Side × Bool
wear_off now s =
    let stun_over = not (s.stunned_until == 0) && leb s.stunned_until now in
    let silence_over = not (s.silenced_until == 0) && leb s.silenced_until now in
    (
      set_effects
          (λ e. record e {
            stunned_until = if stun_over then 0 else e.stunned_until;
            silenced_until = if silence_over then 0 else e.silenced_until;
          })
          s,
      stun_over || silence_over,
    )

-- Missiles that are due land on the caster's opponent.
unfoldable pub land_all : ℕ → Seat → List ℕ → Arena → Arena
unfolding land_missile
land_all now caster [] ar = ar
land_all now caster (at ∷ missiles) ar =
    let landed = if ltb now at then ar else land_missile caster ar in
    land_all now caster missiles landed

unfoldable pub tick_missiles : ℕ → Seat → Arena → Arena × Bool
unfolding land_all
tick_missiles now seat ar =
    let missiles = (side seat ar).missiles in
    let landed = land_all now (other_seat seat) missiles ar in
    let flying = keep (ltb now) missiles in
    (
      put seat (set_effects (λ e. record e { missiles = flying }) (side seat landed)) landed,
      any (λ at. not (ltb now at)) missiles,
    )

-- Eyes that have looked long enough move.
unfoldable pub tick_eyes : ℕ → Seat → Arena → Arena
unfolding aim_eyes send_eyes
tick_eyes now seat ar =
    let due = λ (e : Eye). leb e.next now in
    if any due (side seat ar).eyes then send_eyes seat (aim_eyes now due seat ar) else ar

unfoldable pub tick_side : ℕ → Seat → Arena → Arena × Bool
unfolding wear_off tick_missiles tick_eyes
tick_side now seat ar =
    let (worn, worn_off) = wear_off now (side seat ar) in
    let (landed, hit) = tick_missiles now seat (put seat worn ar) in
    (tick_eyes now seat landed, worn_off || hit)

-- One duel of `tickDuels`; Sudden Death ends it in a draw.
unfoldable pub tick : ℕ → Arena → Arena × Option Ending
unfolding gain_energy tick_side sync_duel
tick now ar =
    let (earned, gained) = gain_energy now ar in
    let (after_first, changed_first) = tick_side now first earned in
    let (after_second, changed_second) = tick_side now second after_first in
    if not (ar.duel.deadline == 0) && leb ar.duel.deadline now
    then (ar, some (record { winner = none; reason = time_up }))
    else (
      if gained || changed_first || changed_second
          then sync_duel now after_second
          else after_second,
      none,
    )
