-- ===== src/Game/World/Budget.antt =====
-- The movement allowance (internal/game/movement.go): how far a player gets in a time.
use nytrpg.Prelude.{arith, if◌then◌else◌, ℕ, ◌*◌, ◌+◌, ◌-◌, ◌≡◌, ◌≤◌}
use nytrpg.Game.World.Move.{max_bank, rate, spend}
use nytrpg.Game.World.State.{Allowance}

-- A move is granted out of what is saved up and what the time since the last one gives.
pub spend-step :
    (dist now : ℕ) (b : Allowance)
    → b.budget_at ≤ now
    → let (granted, left) = spend dist now b in
      ((if granted then dist else 0) + left.budget ≤ b.budget + rate * (now - b.budget_at))
      × (left.budget ≤ max_bank)
      × (left.budget_at ≡ now)
unfolding spend
spend-step dist now b h = ground arith
