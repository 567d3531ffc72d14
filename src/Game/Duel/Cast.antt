-- ===== src/Game/Duel/Cast.antt =====
-- Casting abilities (internal/game/abilities.go: CastAbility, canCast, validPattern, cast,
-- landMissile, reshapeOptions, ReshapeReality).
use mathlib.Core.Logic.{ite}
use nytrpg.Prelude.{
  Bool, List, Option, Rng, [], all, any, false, get_elem?, if◌then◌else◌, is_none, is_some, leb,
  length, ltb, negsuc, none, not, pos, pos_part, some, suc, true, zero, ℕ, ℤ, ◌&&◌, ◌++◌, ◌+◌, ◌-◌,
  ◌==◌, ◌||◌, ◌∷◌,
}
use nytrpg.Classes.{
  Ability, AbilityId, AbilityId-discrete, AbilityTarget, ability_at, ability_cost, cheat, cripple,
  determination, feint, illusion, magic_missile, mend, pickpocket, pommel_strike, reshape_reality,
  scry, seeing_eye, shields_up, slash, target_word, under_their_nose,
}
use nytrpg.Game.Duel.{
  Arena, DuelPuzzle, Seat, cast_event, hostile, other_seat, put, send_duel_state, side, sync_duel,
  tell, with_rng,
}
use nytrpg.Game.Duel.Cleric.{cast_cleric, rescore, taken_words, text_in}
use nytrpg.Game.Duel.Eyes.{aim_eye, color_at, reaim_eyes, send_eyes}
use nytrpg.Game.Duel.Rogue.{CastReq, cast_rogue, req_tile}
use nytrpg.Game.Message.{
  Tile, cast_landed, cast_used, duel_board, duel_reshape_options, duel_scry, illusion_start,
  tile_zero,
}
use nytrpg.Game.Side.{Effects, Eye, Side, lose_energy, set_effects, solves, stun, unused_rows}
use nytrpg.Game.Side.State.{destroyed_at, visible_colors}
use nytrpg.Text.{Text, is_letter, to_upper}
use nytrpg.Wordle.Score.{Color, is_green, is_grey, is_yellow}

-- PommelStun, MissileFlight, MissileEnergy, ReshapeOptions, IllusionGuesses.
abbrev pub pommel_stun : ℕ
pommel_stun = 10_000_000_000

abbrev pub missile_flight : ℕ
missile_flight = 15_000_000_000

abbrev pub missile_energy : ℕ
missile_energy = 5

abbrev pub reshape_count : ℕ
reshape_count = 5

abbrev pub illusion_guesses : ℕ
illusion_guesses = 6

abbrev pub is_nonneg : ℤ → Bool
is_nonneg (pos n) = true
is_nonneg (negsuc n) = false

-- `shown[t.col]` of the opponent's guess.
shown_at : Side → Tile → Option Color
shown_at s t = elim (get_elem? s.guesses t.row) [ none ↦ none | some g ↦ get_elem? g.shown t.col ]

abbrev is_color : (Color → Bool) → Option Color → Bool
is_color p none = false
is_color p (some c) = p c

-- One color per letter, each grey, yellow or green, and not all green.
unfoldable pub valid_pattern : List Color → ℕ → Bool
unfolding solves
valid_pattern colors n =
    length colors == n
    && all (λ c. is_grey c || is_yellow c || is_green c) colors
    && not (solves colors)

-- `len(l) == 1 && l[0] >= 'A' && l[0] <= 'Z'`
one_letter : Text → Bool
one_letter [] = false
one_letter (c ∷ []) = is_letter c
one_letter (c ∷ d ∷ s) = false

-- Rules for casting beyond having the energy.
unfoldable pub can_cast : AbilityId → Side → Side → CastReq → Bool
unfolding color_at shown_at unused_rows destroyed_at valid_pattern one_letter to_upper
can_cast shields_up me them req = not me.shield
can_cast cripple me them req = leb 2 (unused_rows them)
can_cast illusion me them req = is_none them.illusion
can_cast slash me them req =
    is_nonneg req.row
    && is_nonneg req.col
    && is_some (color_at them (req_tile req))
    && not (destroyed_at them (req_tile req))
can_cast scry me them req = one_letter (to_upper req.letter)
can_cast pickpocket me them req =
    is_nonneg req.row
    && is_nonneg req.col
    && is_color is_yellow (shown_at them (req_tile req))
    && not (destroyed_at them (req_tile req))
can_cast cheat me them req = not me.cheat
can_cast feint me them req = valid_pattern req.colors (length me.word)
can_cast under_their_nose me them req = valid_pattern req.colors (length me.word)
can_cast mend me them req = is_nonneg req.row && ltb (pos_part req.row) (length me.guesses)
can_cast _ me them req = true

-- What a hit of each hostile ability does to the side it hits.
unfoldable pub crippled : Side → Side
crippled s = record s { rows = s.rows - 1 }

-- A Magic Missile reaches the seat's opponent.
unfoldable pub land_missile : Seat → Arena → Arena
unfolding hostile lose_energy unused_rows crippled
land_missile caster ar =
    let (hit_ar, hit) = hostile caster magic_missile cast_landed tile_zero ar in
    let drained = (lose_energy missile_energy (side (other_seat caster) hit_ar)).0 in
    let hurt = if leb 2 (unused_rows drained) then crippled drained else drained in
    if hit then put (other_seat caster) hurt hit_ar else hit_ar

-- What each ability does once it is paid for.
unfoldable pub cast : DuelPuzzle → ℕ → Seat → AbilityId → CastReq → Arena → Arena
unfolding hostile cast_event tell stun crippled reaim_eyes aim_eye send_eyes cast_rogue cast_cleric
    to_upper text_in
cast puzzle now seat slash req ar =
    let t = req_tile req in
    let (hit_ar, hit) = hostile seat slash cast_used t ar in
    let struck =
      set_effects (λ e. record e { destroyed = t ∷ e.destroyed }) (side (other_seat seat) hit_ar) in
    if hit then reaim_eyes now seat (put (other_seat seat) struck hit_ar) else hit_ar
cast puzzle now seat shields_up req ar =
    cast_event seat shields_up cast_used false tile_zero
      (put seat (set_effects (λ e. record e { shield = true }) (side seat ar)) ar)
cast puzzle now seat determination req ar =
    let me = side seat ar in
    cast_event seat determination cast_used false tile_zero
      (put seat (record me { rows = me.rows + 1 }) ar)
cast puzzle now seat pommel_strike req ar =
    let (hit_ar, hit) = hostile seat pommel_strike cast_used tile_zero ar in
    if hit
    then put (other_seat seat) (stun (now + pommel_stun) (side (other_seat seat) hit_ar)) hit_ar
    else hit_ar
cast puzzle now seat cripple req ar =
    let (hit_ar, hit) = hostile seat cripple cast_used tile_zero ar in
    if hit then put (other_seat seat) (crippled (side (other_seat seat) hit_ar)) hit_ar else hit_ar
cast puzzle now seat scry req ar =
    let letter = to_upper req.letter in
    let in_word = any (λ c. text_in (c ∷ []) (letter ∷ [])) (side seat ar).word in
    tell seat (duel_scry letter in_word) (cast_event seat scry cast_used false tile_zero ar)
cast puzzle now seat seeing_eye req ar =
    let (hit_ar, hit) = hostile seat seeing_eye cast_used tile_zero ar in
    let me = side seat hit_ar in
    let fresh : Eye = record { at = tile_zero; on = false; next = 0 } in
    let (e', r) = aim_eye now me.eyes (side (other_seat seat) hit_ar) fresh hit_ar.rng in
    if hit
    then send_eyes seat
        (with_rng r (put seat (set_effects (λ e. record e { eyes = e.eyes ++ e' ∷ [] }) me) hit_ar))
    else hit_ar
cast puzzle now seat magic_missile req ar =
    let told = cast_event seat magic_missile cast_used false tile_zero ar in
    put (other_seat seat)
      (set_effects (λ e. record e { missiles = e.missiles ++ (now + missile_flight) ∷ [] })
        (side (other_seat seat) ar))
      told
cast puzzle now seat illusion req ar =
    let (hit_ar, hit) = hostile seat illusion cast_used tile_zero ar in
    let (word, r) = puzzle.illusion_word hit_ar.rng in
    let trapped =
      set_effects (λ e. record e { illusion = some (record { answer = word; tries = 0 }) })
        (side (other_seat seat) hit_ar) in
    if hit
    then tell (other_seat seat) (illusion_start (length word) illusion_guesses)
        (with_rng r (put (other_seat seat) trapped hit_ar))
    else hit_ar
cast puzzle now seat i req ar = elim (cast_rogue seat i req ar) [
  | none ↦ cast_cleric puzzle now seat i req ar
  | some ar' ↦ ar'
]

unfoldable pub reshape_try : DuelPuzzle → ℕ → ℕ → List Text → List Text → Rng → List Text × Rng
unfolding text_in
reshape_try puzzle zero wanted taken found r = (found, r)
reshape_try puzzle (suc tries) zero taken found r = (found, r)
reshape_try puzzle (suc tries) (suc wanted) taken found r =
    let (word, r') = puzzle.new_word r in
    let fresh = not (text_in word taken) in
    reshape_try puzzle tries (if fresh then wanted else suc wanted)
      (if fresh then word ∷ taken else taken) (if fresh then found ++ word ∷ [] else found) r'

-- Words that the target's word could become: not its word, and nothing it has guessed.
unfoldable pub reshape_options : DuelPuzzle → Side → Rng → List Text × Rng
unfolding reshape_try
reshape_options puzzle target r = reshape_try puzzle 100 reshape_count (taken_words target) [] r

abbrev pub is_word_target : AbilityTarget → Bool
is_word_target target_word = true
is_word_target _ = false

ability_in : AbilityId → List AbilityId → Bool
ability_in i [] = false
ability_in i (j ∷ used) = ite (AbilityId-discrete j i) true (ability_in i used)

-- The checks of `CastAbility` on an ability of the class.
unfoldable pub may_cast : ℕ → Ability → Side → Side → CastReq → Bool
unfolding can_cast ability_in
may_cast now a me them req =
    not (ltb now me.silenced_until)
    && leb a.cost me.energy
    && not (a.once && ability_in a.id me.used)
    && can_cast a.id me them req

abbrev pub pay : Ability → Effects → Effects
pay a e = record e { energy = e.energy - a.cost; used = if a.once then a.id ∷ e.used else e.used }

-- Uses an ability that passed the checks. A word is picked first, and paid for then.
unfoldable pub use_ability : DuelPuzzle → ℕ → Seat → Ability → CastReq → Arena → Arena
unfolding reshape_options cast sync_duel tell
use_ability puzzle now seat a req ar =
    let me = side seat ar in
    let (words, r) = reshape_options puzzle (side (other_seat seat) ar) ar.rng in
    if is_word_target a.target
    then tell seat (duel_reshape_options words)
        (with_rng r (put seat (set_effects (λ e. record e { reshape = words }) me) ar))
    else sync_duel now (cast puzzle now seat a.id req (put seat (set_effects (pay a) me) ar))

-- `CastAbility` of a player who is in the duel. A refusal sets the client straight.
unfoldable pub cast_ability : DuelPuzzle → ℕ → Seat → CastReq → Arena → Arena
unfolding may_cast use_ability send_duel_state ability_at
cast_ability puzzle now seat req ar =
    let me = side seat ar in
    let them = side (other_seat seat) ar in
    elim (ability_at me.class req.slot) [
      | none ↦ send_duel_state now seat ar
      | some a ↦
          if may_cast now a me them req
          then use_ability puzzle now seat a req ar
          else send_duel_state now seat ar
    ]

-- The picked word becomes the opponent's, and its guesses are scored again.
unfoldable pub reshape : DuelPuzzle → ℕ → Seat → Text → Arena → Arena
unfolding hostile rescore visible_colors reaim_eyes tell
reshape puzzle now seat word ar =
    let (hit_ar, hit) = hostile seat reshape_reality cast_used tile_zero ar in
    let them = rescore puzzle word (side (other_seat seat) hit_ar) in
    let colors = visible_colors them in
    if hit
    then reaim_eyes now seat (
        tell seat (duel_board false colors)
          (tell (other_seat seat) (duel_board true colors) (put (other_seat seat) them hit_ar)))
    else hit_ar

-- `ReshapeReality` of a player who is in the duel.
unfoldable pub reshape_reality_pick : DuelPuzzle → ℕ → Seat → Text → Arena → Arena
unfolding reshape sync_duel send_duel_state ability_cost text_in to_upper
reshape_reality_pick puzzle now seat picked ar =
    let me = side seat ar in
    let word = to_upper picked in
    elim (ability_cost me.class reshape_reality) [
      | none ↦ send_duel_state now seat ar
      | some cost ↦
          let paid = set_effects (λ e. record e { reshape = []; energy = e.energy - cost }) me in
          if text_in word me.reshape && leb cost me.energy
          then sync_duel now (reshape puzzle now seat word (put seat paid ar))
          else send_duel_state now seat ar
    ]
