-- ===== src/Game/Duel/Invariant/Ticks.antt =====
-- The clock keeps a duel valid, and its energy loop catches up with it
-- (internal/game/abilities.go: tickDuels, landMissile).
use nytrpg.Prelude.{
  Bool, List, Option, [], any, arith, leb, ltb, not, suc, zero, ℕ, ◌&&◌, ◌*◌, ◌+◌, ◌<◌, ◌==◌, ◌∷◌,
}
use nytrpg.Game.Duel.{
  Arena, Ending, Seat, first, other_seat, put, second, send_duel_state, side, sync_duel, tell,
}
use nytrpg.Game.Duel.Cleric.{energy_interval}
use nytrpg.Game.Duel.Eyes.{send_eyes}
use nytrpg.Game.Duel.Invariant.{IsValid, at_seat, if_cases, if_keeps, put_me}
use nytrpg.Game.Duel.Invariant.Eyes.{aim-IsValid}
use nytrpg.Game.Duel.Invariant.Hits.{land_missile-IsValid}
use nytrpg.Game.Duel.Tick.{
  energy_loop, energy_rounds, gain_energy, land_all, tick, tick_eyes, tick_missiles, tick_side,
  wear_off,
}
use nytrpg.Game.Side.{Eye, set_effects}

module _ (n : ℕ) where
  energy_loop-IsValid :
      (rounds now : ℕ) (ar : Arena) → IsValid n ar → IsValid n (energy_loop rounds now ar).0
  unfolding energy_loop
  energy_loop-IsValid zero now ar v = v
  energy_loop-IsValid (suc rounds) now ar v =
      let d = ar.duel in
      let earn = set_effects (λ e. record e { energy = e.energy + 1 }) in
      let earned : Arena = record ar {
        duel = record d {
          a = earn d.a;
          b = earn d.b;
          next_energy = d.next_energy + energy_interval;
        };
      } in
      if_keeps (λ (r : Arena × Bool). IsValid n r.0) (leb d.next_energy now)
        (energy_loop-IsValid rounds now earned v) v

  land_all-IsValid :
      (now : ℕ) (caster : Seat) (missiles : List ℕ) (ar : Arena)
      → IsValid n ar
      → IsValid n (land_all now caster missiles ar)
  unfolding land_all
  land_all-IsValid now caster [] ar v = v
  land_all-IsValid now caster (at ∷ missiles) ar v =
      land_all-IsValid now caster missiles _
        (if_keeps (IsValid n) (ltb now at) v (land_missile-IsValid n caster ar v))

  tick_missiles-IsValid :
      (now : ℕ) (seat : Seat) (ar : Arena) → IsValid n ar → IsValid n (tick_missiles now seat ar).0
  unfolding tick_missiles
  tick_missiles-IsValid now seat ar v =
      let landed = land_all now (other_seat seat) (side seat ar).missiles ar in
      put_me n seat landed _ (
        at_seat n seat landed (land_all-IsValid now (other_seat seat) (side seat ar).missiles ar v))

  tick_eyes-IsValid :
      (now : ℕ) (seat : Seat) (ar : Arena) → IsValid n ar → IsValid n (tick_eyes now seat ar)
  unfolding tick_eyes send_eyes tell
  tick_eyes-IsValid now seat ar v =
      if_keeps (IsValid n) (any (λ (e : Eye). leb e.next now) (side seat ar).eyes)
        (aim-IsValid n now (λ e. leb e.next now) seat ar v) v

  tick_side-IsValid :
      (now : ℕ) (seat : Seat) (ar : Arena) → IsValid n ar → IsValid n (tick_side now seat ar).0
  unfolding tick_side wear_off
  tick_side-IsValid now seat ar v =
      let worn = put seat (wear_off now (side seat ar)).0 ar in
      tick_eyes-IsValid now seat (tick_missiles now seat worn).0
        (tick_missiles-IsValid now seat worn (put_me n seat ar _ (at_seat n seat ar v)))

  -- A tick keeps a valid duel valid, whether it ends the duel or not.
  pub tick-IsValid : (now : ℕ) (ar : Arena) → IsValid n ar → IsValid n (tick now ar).0
  unfolding tick gain_energy sync_duel send_duel_state tell
  tick-IsValid now ar v =
      let earned = energy_loop-IsValid (energy_rounds now ar.duel) now ar v in
      let start = (energy_loop (energy_rounds now ar.duel) now ar).0 in
      let half = (tick_side now first start).0 in
      let both = tick_side-IsValid now second half (tick_side-IsValid now first start earned) in
      if_keeps (λ (r : Arena × Option Ending). IsValid n r.0)
        (not (ar.duel.deadline == 0) && leb ar.duel.deadline now) v
        (if_keeps (IsValid n) _ both both)

-- Each round is one interval, so a loop with enough rounds stops after `now`.
energy_loop-caught_up :
    (rounds now : ℕ) (ar : Arena)
    → now < ar.duel.next_energy + rounds * energy_interval
    → now < (energy_loop rounds now ar).0.duel.next_energy
unfolding energy_loop
energy_loop-caught_up zero now ar h = ground arith
energy_loop-caught_up (suc rounds) now ar h =
    let d = ar.duel in
    let earn = set_effects (λ e. record e { energy = e.energy + 1 }) in
    let earned : Arena = record ar {
      duel = record d { a = earn d.a; b = earn d.b; next_energy = d.next_energy + energy_interval };
    } in
    if_cases (λ (r : Arena × Bool). now < r.0.duel.next_energy) (leb d.next_energy now)
      (λ _. energy_loop-caught_up rounds now earned (omega arith)) (λ later. ground arith)

-- The energy loop catches up with the clock: after it the next energy comes later than `now`, so
-- the rounds that it is given are enough.
pub gain_energy-caught_up : (now : ℕ) (ar : Arena) → now < (gain_energy now ar).0.duel.next_energy
unfolding gain_energy
gain_energy-caught_up now ar =
    energy_loop-caught_up (energy_rounds now ar.duel) now ar (omega arith)
