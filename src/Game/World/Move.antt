-- ===== src/Game/World/Move.antt =====
-- The movement allowance and Move (internal/game/movement.go). `Math.Hypot` is a parameter, in units of
-- 1/(2·10^9) px, in which the allowance that is saved up is a whole number; a time is in nanoseconds and
-- does not go back.
use nytrpg.Prelude.{
  Bool, Option, false, if◌then◌else◌, insert, lookup, ltb, min, none, not, some, true, ℕ, ℤ, ◌&&◌,
  ◌*◌, ◌+◌, ◌-ℤ◌, ◌-◌, ◌/◌,
}
use nytrpg.Game.World.Grid.{Vec, eq_ℤ}
use nytrpg.Game.World.State.{
  Allowance, Entity, Player, World, correction, in_bounds, put_entity, send,
}

-- MoveSpeed * moveTolerance, per nanosecond
abbrev pub rate : ℕ
rate = 1125

-- rate * maxMoveBank
abbrev pub max_bank : ℕ
max_bank = 1125 * 1_000_000_000

-- `moveBudget.reset`
abbrev pub reset_allowance : ℕ → Allowance
reset_allowance now = record { budget = max_bank / 2; budget_at = now }

-- `moveBudget.spend`
unfoldable pub spend : ℕ → ℕ → Allowance → Bool × Allowance
spend dist now b =
    let saved = min max_bank (b.budget + rate * (now - b.budget_at)) in
    if ltb saved dist
    then (false, record { budget = saved; budget_at = now })
    else (true, record { budget = saved - dist; budget_at = now })

module _ (hypot : ℤ → ℤ → ℕ) where
  abbrev pub distance : Vec → Vec → ℕ
  distance p q = hypot (q.x -ℤ p.x) (q.y -ℤ p.y)

  -- `Move` of a player, to another place than it is at.
  unfoldable pub move_to : ℕ → Player → Entity → Vec → ℕ → World → World
  unfolding in_bounds spend put_entity
  move_to c p e at now w =
      let refuse = λ (w : World).
        send c (correction e.at) (record w { rejected_moves = w.rejected_moves + 1 }) in
      if not (in_bounds w.area at)
      then refuse w
      else (let (allowed, left) = spend (distance e.at at) now p.allowance in
          let paid = record w { players = insert c (record p { allowance = left }) w.players } in
          if allowed then put_entity p.ent e at paid else refuse paid)

  unfoldable pub move_entity : ℕ → Player → Option Entity → Vec → ℕ → World → World
  unfolding move_to
  move_entity c p none at now w = w
  move_entity c p (some e) at now w =
      if eq_ℤ at.x e.at.x && eq_ℤ at.y e.at.y then w else move_to c p e at now w

  unfoldable pub move_player : ℕ → Option Player → Vec → ℕ → World → World
  unfolding move_entity
  move_player c none at now w = w
  move_player c (some p) at now w = move_entity c p (lookup p.ent w.entities) at now w

  -- `Move`
  unfoldable pub move : ℕ → Vec → ℕ → World → World
  unfolding move_player
  move c at now w = move_player c (lookup c w.players) at now w
