-- ===== src/Game/Duel/Offers.antt =====
-- The words that Reshape Reality offers and Divine Intervention gives
-- (internal/game/abilities.go: reshapeOptions; internal/game/cleric.go: divineWord).
use nytrpg.Prelude.{
  Bool-cases, List, Rng, [], ap, arith, false, inl, inr, length, length-append, refl, subst, suc,
  sym, zero, ℕ, ◌++◌, ◌+◌, ◌∙◌, ◌∷◌, ◌≡◌, ◌≤◌, ◌⊎◌,
}
use nytrpg.Game.Duel.{DuelPuzzle}
use nytrpg.Game.Duel.Cast.{reshape_count, reshape_options, reshape_try}
use nytrpg.Game.Duel.Cleric.{divine_try, taken_words, text_in}
use nytrpg.Game.Duel.Invariant.{if_cases}
use nytrpg.Game.Side.{Side}
use nytrpg.Text.{Text}

-- No word is in `taken`, and none is there twice.
pub IsFresh : List Text → List Text → Type 0
IsFresh taken [] = Unit {0}
IsFresh taken (w ∷ ws) = (text_in w taken ≡ false) × IsFresh (w ∷ taken) ws

reshape_try-length :
    (puzzle : DuelPuzzle) (tries wanted : ℕ) (taken found : List Text) (r : Rng)
    → length (reshape_try puzzle tries wanted taken found r).0 ≤ length found + wanted
unfolding reshape_try
reshape_try-length puzzle zero wanted taken found r = omega arith
reshape_try-length puzzle (suc tries) zero taken found r = omega arith
reshape_try-length puzzle (suc tries) (suc wanted) taken found r =
    let (word, r') = puzzle.new_word r in
    elim (Bool-cases (text_in word taken)) [
      | inl old ↦
          rw (old, reshape_try) (reshape_try-length puzzle tries (suc wanted) taken found r')
      | inr fresh ↦
          rw (fresh, reshape_try)
            (omega (
              arith,
              length-append found (word ∷ []),
              reshape_try-length puzzle tries wanted (word ∷ taken) (found ++ word ∷ []) r',
            ))
    ]

append_nil : (ws : List Text) → ws ++ [] ≡ ws
append_nil [] = refl
append_nil (w ∷ ws) = ap (λ us. w ∷ us) (append_nil ws)

append_one : (us : List Text) (w : Text) (ws : List Text) → (us ++ w ∷ []) ++ ws ≡ us ++ w ∷ ws
append_one [] w ws = refl
append_one (u ∷ us) w ws = ap (λ xs. u ∷ xs) (append_one us w ws)

-- Each word that the loop adds is not one of those taken so far.
reshape_try-IsFresh :
    (puzzle : DuelPuzzle) (tries wanted : ℕ) (taken found : List Text) (r : Rng)
    → (ws : List Text) × (((reshape_try puzzle tries wanted taken found r).0 ≡ found ++ ws)
        × IsFresh taken ws)
unfolding reshape_try IsFresh
reshape_try-IsFresh puzzle zero wanted taken found r = ([], (sym (append_nil found), tt))
reshape_try-IsFresh puzzle (suc tries) zero taken found r = ([], (sym (append_nil found), tt))
reshape_try-IsFresh puzzle (suc tries) (suc wanted) taken found r =
    let (word, r') = puzzle.new_word r in
    elim (Bool-cases (text_in word taken)) [
      | inl old ↦
          rw (old, reshape_try) (reshape_try-IsFresh puzzle tries (suc wanted) taken found r')
      | inr fresh ↦
          let (ws, (same, rest)) =
            reshape_try-IsFresh puzzle tries wanted (word ∷ taken) (found ++ word ∷ []) r' in
          rw (fresh, reshape_try) ((word ∷ ws, (same ∙ append_one found word ws, (fresh, rest))))
    ]

-- Reshape Reality offers at most five words: none is the target's word or one of its guesses, and no
-- word is offered twice.
pub reshape_options-IsFresh :
    (puzzle : DuelPuzzle) (target : Side) (r : Rng)
    → (length (reshape_options puzzle target r).0 ≤ 5)
      × IsFresh (taken_words target) (reshape_options puzzle target r).0
unfolding reshape_options
reshape_options-IsFresh puzzle target r =
    let (ws, (same, fresh)) =
      reshape_try-IsFresh puzzle 100 reshape_count (taken_words target) [] r in
    (
      reshape_try-length puzzle 100 reshape_count (taken_words target) [] r,
      subst (IsFresh (taken_words target)) (sym same) fresh,
    )

divine_try-fresh :
    (puzzle : DuelPuzzle) (rounds : ℕ) (taken : List Text) (word : Text) (r : Rng)
    → let w = (divine_try puzzle rounds taken word r).0 in (text_in w taken ≡ false) ⊎ (w ≡ word)
unfolding divine_try
divine_try-fresh puzzle zero taken word r = inr refl
divine_try-fresh puzzle (suc rounds) taken word r =
    if_cases (λ (p : Text × Rng). (text_in p.0 taken ≡ false) ⊎ (p.0 ≡ word))
      (text_in (puzzle.new_word r).0 taken)
      (λ _. divine_try-fresh puzzle rounds taken word (puzzle.new_word r).1) (λ fresh. inl fresh)
