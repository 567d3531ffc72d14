-- ===== src/Game/World/Travel.antt =====
-- How far a player gets by Move (internal/game/movement.go).
use nytrpg.Prelude.{
  Bool, List, Option, [], arith, false, if◌then◌else◌, lookup, lookup-insert_same, not, refl, some,
  subst, sym, true, ℕ, ℤ, ◌&&◌, ◌*◌, ◌+◌, ◌-◌, ◌∷◌, ◌≡◌, ◌≤◌,
}
use nytrpg.Game.Duel.Invariant.{if_cases, if_keeps}
use nytrpg.Game.World.Budget.{spend-step}
use nytrpg.Game.World.Grid.{Cells, Vec, cell_of, eq_ℤ, key_eq}
use nytrpg.Game.World.Move.{distance, move, move_entity, move_player, move_to, rate, spend}
use nytrpg.Game.World.State.{Allowance, Entity, Player, World, grid_moved, in_bounds, put_entity}

-- What `grid.moved` leaves of the place.
at-grid_moved : (id : ℕ) (e : Entity) (cells : Cells) → (grid_moved id e cells).0.at ≡ e.at
unfolding grid_moved
at-grid_moved id e cells =
    if_keeps (λ (m : Entity × Cells). m.0.at ≡ e.at) (key_eq (cell_of e.at) e.cell) refl refl

-- What a move costs, if it is granted, and what one that is refused costs.
spend_cost :
    (dist now : ℕ) (b : Allowance) (granted : Bool)
    → b.budget_at ≤ now
    → (spend dist now b).0 ≡ granted
    → let left = (spend dist now b).1 in
      ((if granted then dist else 0) + left.budget
        ≤ b.budget + rate * (left.budget_at - b.budget_at))
      × (b.budget_at ≤ left.budget_at)
      × (left.budget_at ≤ now)
spend_cost dist now b granted order e =
    let left = (spend dist now b).1 in
    let spent = spend-step dist now b order in
    let at_now = spent.2 in
    (
      subst
          (λ (t : ℕ).
            (if granted then dist else 0) + left.budget ≤ b.budget + rate * (t - b.budget_at))
          (sym at_now)
          (subst
            (λ (g : Bool).
              (if g then dist else 0) + left.budget ≤ b.budget + rate * (now - b.budget_at))
            e spent.0),
      omega (arith, order, at_now),
      omega (arith, at_now),
    )

-- The times of the moves do not go back.
abbrev pub AreInOrder : ℕ → List (Vec × ℕ) → Type 0
AreInOrder start [] = Unit
AreInOrder start (m ∷ ms) = (start ≤ m.1) × AreInOrder m.1 ms

abbrev pub last_time : ℕ → List (Vec × ℕ) → ℕ
last_time now [] = now
last_time now (m ∷ ms) = last_time m.1 ms

module _ (hypot : ℤ → ℤ → ℕ) where
  -- The player of a client and its entity in a world, with what has been gone from a place so far and
  -- what is left of the allowance: together no more than what the time since has given.
  abbrev pub GoneFrom : Vec → Allowance → ℕ → ℕ → World → Type 0
  GoneFrom start b now c w =
      (p : Player) × (e : Entity) × (lookup c w.players ≡ some p)
      × (lookup p.ent w.entities ≡ some e)
      × (distance hypot start e.at + p.allowance.budget
          ≤ b.budget + rate * (p.allowance.budget_at - b.budget_at))
      × (b.budget_at ≤ p.allowance.budget_at)
      × (p.allowance.budget_at ≤ now)

  -- A client's moves, one after the other.
  unfoldable pub move_all : ℕ → List (Vec × ℕ) → World → World
  unfolding move
  move_all c [] w = w
  move_all c (m ∷ ms) w = move_all c ms (move hypot c m.0 m.1 w)

  module _ (same_place : (p : Vec) → distance hypot p p ≡ 0)
      (triangle : (p q r : Vec)
        → distance hypot p r ≤ distance hypot p q + distance hypot q r) where
    stays :
        (c : ℕ) (p : Player) (e : Entity) (now : ℕ) (w : World)
        → lookup c w.players ≡ some p
        → lookup p.ent w.entities ≡ some e
        → p.allowance.budget_at ≤ now
        → GoneFrom e.at p.allowance now c w
    stays c p e now w found stored order =
        (p, e, found, stored, omega (arith, same_place e.at), omega arith, order)

    move_to-GoneFrom :
        (c : ℕ) (p : Player) (e : Entity) (at : Vec) (now : ℕ) (w : World)
        → lookup c w.players ≡ some p
        → lookup p.ent w.entities ≡ some e
        → p.allowance.budget_at ≤ now
        → GoneFrom e.at p.allowance now c (move_to hypot c p e at now w)
    unfolding move_to put_entity
    move_to-GoneFrom c p e at now w found stored order =
        let dist = distance hypot e.at at in
        let b = p.allowance in
        let paid : Player = record p { allowance = (spend dist now b).1 } in
        let there = (grid_moved p.ent (record e { at = at }) w.cells).0 in
        let moved_there : Entity = record there { moved = true } in
        if_cases (λ (v : World). GoneFrom e.at b now c v) (not (in_bounds w.area at))
          (λ _. (p, e, found, stored, omega (arith, same_place e.at), omega arith, order))
          (λ _.
            if_cases (λ (v : World). GoneFrom e.at b now c v) (spend dist now b).0
              (λ granted.
                let cost = spend_cost dist now b true order granted in
                (
                  paid,
                  moved_there,
                  lookup-insert_same c paid w.players,
                  lookup-insert_same p.ent moved_there w.entities,
                  subst
                      (λ (q : Vec).
                        distance hypot e.at q + paid.allowance.budget
                        ≤ b.budget + rate * (paid.allowance.budget_at - b.budget_at))
                      (sym (at-grid_moved p.ent (record e { at = at }) w.cells)) cost.0,
                  cost.1,
                  cost.2,
                ))
              (λ refused.
                let cost = spend_cost dist now b false order refused in
                (
                  paid,
                  e,
                  lookup-insert_same c paid w.players,
                  stored,
                  omega (arith, same_place e.at, cost.0),
                  cost.1,
                  cost.2,
                )))

    move-GoneFrom :
        (c : ℕ) (p : Player) (e : Entity) (at : Vec) (now : ℕ) (w : World)
        → lookup c w.players ≡ some p
        → lookup p.ent w.entities ≡ some e
        → p.allowance.budget_at ≤ now
        → GoneFrom e.at p.allowance now c (move hypot c at now w)
    unfolding move move_player move_entity
    move-GoneFrom c p e at now w found stored order =
        subst
          (λ (o : Option Player). GoneFrom e.at p.allowance now c (move_player hypot c o at now w))
          (sym found)
          (subst
            (λ (o : Option Entity).
              GoneFrom e.at p.allowance now c (move_entity hypot c p o at now w))
            (sym stored)
            (if_keeps (λ (v : World). GoneFrom e.at p.allowance now c v)
              (eq_ℤ at.x e.at.x && eq_ℤ at.y e.at.y) (stays c p e now w found stored order)
              (move_to-GoneFrom c p e at now w found stored order)))

    -- One more move after what has been gone.
    further :
        (start : Vec) (b : Allowance) (now later c : ℕ) (at : Vec) (w : World)
        → now ≤ later
        → GoneFrom start b now c w
        → GoneFrom start b later c (move hypot c at later w)
    further start b now later c at w order (p, e, found, stored, gone, low, high) =
        let (p', e', found', stored', gone', low', high') =
          move-GoneFrom c p e at later w found stored (omega (arith, high, order)) in
        (
          p',
          e',
          found',
          stored',
          omega (arith, triangle start e.at e'.at, gone, gone', low, low'),
          omega (arith, low, low'),
          high',
        )

    move_all-further :
        (ms : List (Vec × ℕ)) (start : Vec) (b : Allowance) (now c : ℕ) (w : World)
        → AreInOrder now ms
        → GoneFrom start b now c w
        → GoneFrom start b (last_time now ms) c (move_all c ms w)
    unfolding move_all
    move_all-further [] start b now c w order gone = gone
    move_all-further (m ∷ ms) start b now c w order gone =
        move_all-further ms start b m.1 c (move hypot c m.0 m.1 w) order.1
          (further start b now m.1 c m.0 w order.0 gone)

    -- Whatever places a client asks to move to, at times that do not go back: the distance from where its
    -- player was to where it then is, and the allowance that it has left, are at most the allowance that it
    -- had and what the time since the last move gives. (For distances with the triangle inequality.)
    pub move_all-GoneFrom :
        (ms : List (Vec × ℕ)) (c : ℕ) (p : Player) (e : Entity) (now : ℕ) (w : World)
        → lookup c w.players ≡ some p
        → lookup p.ent w.entities ≡ some e
        → p.allowance.budget_at ≤ now
        → AreInOrder now ms
        → GoneFrom e.at p.allowance (last_time now ms) c (move_all c ms w)
    move_all-GoneFrom ms c p e now w found stored before order =
        move_all-further ms e.at p.allowance now c w order (stays c p e now w found stored before)
