-- ===== src/Game/Duel/Invariant/Requests.antt =====
-- A request to cast or to pick a word keeps a duel valid (internal/game/abilities.go: CastAbility,
-- ReshapeReality).
use nytrpg.Prelude.{
  All, All-append, Bool-cases, List, Option-cases, Rng, [], arith, if◌then◌else◌, inl, inr, leb,
  not, refl, subst, suc, sym, true, zero, ℕ, ◌&&◌, ◌++◌, ◌-◌, ◌∙◌, ◌∷◌, ◌≡◌,
}
use nytrpg.Classes.{Ability, AbilityId, ability_at, ability_cost, reshape_reality, slash}
use nytrpg.Game.Duel.{
  Arena, Duel, DuelPuzzle, Seat, first, hostile, other_seat, put, put_duel, second, send_duel_state,
  side, side_of, sync_duel, tell,
}
use nytrpg.Game.Duel.Cast.{
  can_cast, cast, cast_ability, is_word_target, may_cast, pay, reshape, reshape_count,
  reshape_options, reshape_reality_pick, reshape_try, use_ability,
}
use nytrpg.Game.Duel.Cleric.{rescore, taken_words, text_in}
use nytrpg.Game.Duel.Eyes.Sight.{AllLookRight}
use nytrpg.Game.Duel.Invariant.{
  IsLawful, IsValid, at_seat, hostile-IsValid, if_cases, if_keeps, put_me,
}
use nytrpg.Game.Duel.Invariant.Casts.{cast-IsValid}
use nytrpg.Game.Duel.Invariant.Clerics.{rescore-InRange, rescore-IsValidSide}
use nytrpg.Game.Duel.Invariant.Eyes.{IsValidBut, reaim-IsValid}
use nytrpg.Game.Duel.Invariant.Fates.{in_range, rescore-eyes}
use nytrpg.Game.Duel.Rogue.{CastReq}
use nytrpg.Game.Message.{cast_used, tile_zero}
use nytrpg.Game.Side.{Side, set_effects}
use nytrpg.Game.Side.Invariant.{IsValidWord}
use nytrpg.Text.{Text, text_eq, text_eq_iff, to_upper}

module _ (n : ℕ) where
  can_cast-pay :
      (a : Ability) (i : AbilityId) (me them : Side) (req : CastReq)
      → can_cast i (set_effects (pay a) me) them req ≡ can_cast i me them req
  unfolding can_cast
  can_cast-pay a slash me them req = refl
  can_cast-pay a _ me them req = refl

  -- Casting an ability after it is paid for.
  paid-IsValid :
      (puzzle : DuelPuzzle) (now : ℕ) (seat : Seat) (a : Ability) (req : CastReq) (ar : Arena)
      → IsLawful n puzzle
      → can_cast a.id (side seat ar) (side (other_seat seat) ar) req ≡ true
      → IsValid n ar
      → IsValid n (cast puzzle now seat a.id req (put seat (set_effects (pay a) (side seat ar)) ar))
  paid-IsValid puzzle now first a req ar law h v =
      cast-IsValid n puzzle now first a.id req (put first (set_effects (pay a) ar.duel.a) ar) law
        (can_cast-pay a a.id ar.duel.a ar.duel.b req ∙ h) v
  paid-IsValid puzzle now second a req ar law h v =
      cast-IsValid n puzzle now second a.id req (put second (set_effects (pay a) ar.duel.b) ar) law
        (can_cast-pay a a.id ar.duel.b ar.duel.a req ∙ h) v

  reshape_try-IsValidWord :
      (puzzle : DuelPuzzle) (tries wanted : ℕ) (taken found : List Text) (r : Rng)
      → IsLawful n puzzle
      → All (IsValidWord n) found
      → All (IsValidWord n) (reshape_try puzzle tries wanted taken found r).0
  unfolding reshape_try
  reshape_try-IsValidWord puzzle zero wanted taken found r law h = h
  reshape_try-IsValidWord puzzle (suc tries) zero taken found r law h = h
  reshape_try-IsValidWord puzzle (suc tries) (suc wanted) taken found r law h =
      let next = puzzle.new_word r in
      let fresh = not (text_in next.0 taken) in
      reshape_try-IsValidWord puzzle tries (if fresh then wanted else suc wanted)
        (if fresh then next.0 ∷ taken else taken) (if fresh then found ++ next.0 ∷ [] else found)
        next.1 law
        (if_keeps (All (IsValidWord n)) fresh
          (All-append (IsValidWord n) found (next.0 ∷ []) h
            ((law.new_word_letters r, law.new_word_length r), tt))
          h)

  offer-IsValid :
      (puzzle : DuelPuzzle) (seat : Seat) (ar : Arena)
      → IsLawful n puzzle
      → IsValid n ar
      → let words = (reshape_options puzzle (side (other_seat seat) ar) ar.rng).0 in
        IsValid n (put seat (set_effects (λ e. record e { reshape = words }) (side seat ar)) ar)
  unfolding reshape_options
  offer-IsValid puzzle seat ar law v =
      let (mine, theirs, my_eyes, their_eyes) = at_seat n seat ar v in
      let (board, found, tricks, trapped) = mine in
      let words =
        reshape_try-IsValidWord puzzle 100 reshape_count (taken_words (side (other_seat seat) ar))
          [] ar.rng law tt in
      put_me n seat ar _ ((board, found, tricks, (trapped.0, words)), theirs, my_eyes, their_eyes)

  use_ability-IsValid :
      (puzzle : DuelPuzzle) (now : ℕ) (seat : Seat) (a : Ability) (req : CastReq) (ar : Arena)
      → IsLawful n puzzle
      → can_cast a.id (side seat ar) (side (other_seat seat) ar) req ≡ true
      → IsValid n ar
      → IsValid n (use_ability puzzle now seat a req ar)
  unfolding use_ability sync_duel send_duel_state tell
  use_ability-IsValid puzzle now seat a req ar law h v =
      if_keeps (IsValid n) (is_word_target a.target) (offer-IsValid puzzle seat ar law v)
        (paid-IsValid puzzle now seat a req ar law h v)

  may_cast-can_cast :
      (now : ℕ) (a : Ability) (me them : Side) (req : CastReq)
      → may_cast now a me them req ≡ true
      → can_cast a.id me them req ≡ true
  unfolding may_cast
  may_cast-can_cast now a me them req h = ground arith

  -- With a puzzle that keeps its contract, a request to cast keeps a valid duel valid, granted or
  -- refused.
  pub cast_ability-IsValid :
      (puzzle : DuelPuzzle) (now : ℕ) (seat : Seat) (req : CastReq) (ar : Arena)
      → IsLawful n puzzle
      → IsValid n ar
      → IsValid n (cast_ability puzzle now seat req ar)
  unfolding cast_ability send_duel_state tell
  cast_ability-IsValid puzzle now seat req ar law v =
      elim (Option-cases (ability_at (side seat ar).class req.slot)) [
        | inl none_there ↦ rw (none_there, cast_ability) v
        | inr (a, there) ↦
            rw (there, cast_ability)
              (if_cases (IsValid n) (may_cast now a (side seat ar) (side (other_seat seat) ar) req)
                (λ may.
                  use_ability-IsValid puzzle now seat a req ar law
                    (may_cast-can_cast now a (side seat ar) (side (other_seat seat) ar) req may) v)
                (λ _. v))
      ]

  text_in-IsValidWord :
      (w : Text) (ws : List Text) → text_in w ws ≡ true → All (IsValidWord n) ws → IsValidWord n w
  unfolding text_in
  text_in-IsValidWord w [] h k = cc
  text_in-IsValidWord w (x ∷ ws) h k = elim (Bool-cases (text_eq w x)) [
    | inl same ↦ subst (IsValidWord n) (sym ((text_eq_iff w x).0 same)) k.0
    | inr differs ↦ text_in-IsValidWord w ws (ground arith) k.1
  ]

  IsValidBut-put :
      (seat : Seat) (d : Duel) (them : Side)
      → IsValidBut n (side_of seat d) them
      → let d' = put_duel (other_seat seat) them d in
        IsValidBut n (side_of seat d') (side_of (other_seat seat) d')
  IsValidBut-put first d them v = v
  IsValidBut-put second d them v = v

  reshape-IsValid :
      (puzzle : DuelPuzzle) (now : ℕ) (seat : Seat) (word : Text) (ar : Arena)
      → IsLawful n puzzle
      → IsValidWord n word
      → IsValid n ar
      → IsValid n (reshape puzzle now seat word ar)
  unfolding reshape tell
  reshape-IsValid puzzle now seat word ar law w v =
      let hit_ar = (hostile seat reshape_reality cast_used tile_zero ar).0 in
      let v' = hostile-IsValid n seat reshape_reality cast_used tile_zero ar v in
      let (mine, theirs, my_eyes, their_eyes) = at_seat n seat hit_ar v' in
      let them = side (other_seat seat) hit_ar in
      let range = in_range n (side seat hit_ar).eyes them my_eyes in
      let them' = rescore puzzle word them in
      if_keeps (IsValid n) (hostile seat reshape_reality cast_used tile_zero ar).1
        (reaim-IsValid n now seat _ (
          IsValidBut-put seat hit_ar.duel them' (
            mine,
            rescore-IsValidSide n puzzle word them law w theirs,
            rescore-InRange n puzzle word them (side seat hit_ar).eyes law w theirs range,
            subst (λ es. AllLookRight es (side seat hit_ar)) (sym (rescore-eyes n puzzle word them))
                their_eyes,
          )))
        v'

  picked-IsValid :
      (puzzle : DuelPuzzle) (now : ℕ) (seat : Seat) (word : Text) (cost : ℕ) (ar : Arena)
      → IsLawful n puzzle
      → text_in word (side seat ar).reshape ≡ true
      → IsValid n ar
      → let paid =
          set_effects (λ e. record e { reshape = []; energy = e.energy - cost }) (side seat ar) in
        IsValid n (sync_duel now (reshape puzzle now seat word (put seat paid ar)))
  unfolding sync_duel send_duel_state tell
  picked-IsValid puzzle now seat word cost ar law h v =
      let (mine, theirs, my_eyes, their_eyes) = at_seat n seat ar v in
      let (board, found, tricks, trapped) = mine in
      let paid =
        set_effects (λ e. record e { reshape = []; energy = e.energy - cost }) (side seat ar) in
      let w = text_in-IsValidWord word (side seat ar).reshape h trapped.1 in
      reshape-IsValid puzzle now seat word (put seat paid ar) law w (
        put_me n seat ar paid
          ((board, found, tricks, (trapped.0, tt)), theirs, my_eyes, their_eyes))

  -- With a puzzle that keeps its contract, a word picked for Reshape Reality keeps a valid duel
  -- valid, granted or refused.
  pub reshape_reality_pick-IsValid :
      (puzzle : DuelPuzzle) (now : ℕ) (seat : Seat) (picked : Text) (ar : Arena)
      → IsLawful n puzzle
      → IsValid n ar
      → IsValid n (reshape_reality_pick puzzle now seat picked ar)
  unfolding reshape_reality_pick sync_duel send_duel_state tell
  reshape_reality_pick-IsValid puzzle now seat picked ar law v =
      let me = side seat ar in
      let word = to_upper picked in
      elim (Option-cases (ability_cost me.class reshape_reality)) [
        | inl no_cost ↦ rw (no_cost, reshape_reality_pick) v
        | inr (cost, costs) ↦
            rw (costs, reshape_reality_pick)
              (if_cases (IsValid n) (text_in word me.reshape && leb cost me.energy)
                (λ granted. picked-IsValid puzzle now seat word cost ar law (ground arith) v)
                (λ _. v))
      ]
