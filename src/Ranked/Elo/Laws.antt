-- ===== src/Ranked/Elo/Laws.antt =====
-- What a ranked duel does to a rating (internal/ranked/elo.go).
use nytrpg.Prelude.{
  Bool, ap, arith, eq_of_parts, false, if◌then◌else◌, ltb_ℤ, max_ℤ, neg, negsuc, pos, sym, true, ℤ,
  ◌+ℤ◌, ◌+◌, ◌∙◌, ◌≡◌, ◌≤ℤ◌,
}
use nytrpg.Ranked.Elo.{
  Floats, Margin, Outcome, Rating, Score, a_wins, apply_change, b_wins, change, draw, eq_zero,
  full_point, half_point, is_decisive, k_factor, no_point, other_score, score_of, settle,
}

-- The elo is not negative, the peak not below it, and every game was won, lost or drawn.
pub record IsValidRating (r : Rating) : Type 0 where
  pub elo_nonneg : pos 0 ≤ℤ r.elo
  pub peak_above : r.elo ≤ℤ r.peak
  pub games_counted : r.games ≡ r.wins + r.losses + r.draws

-- One game more on a rating: valid again, the elo moved by the change that is told, and the peak no
-- lower.
abbrev pub IsGame : Rating → Rating → ℤ → Type 0
IsGame r r' d =
    IsValidRating r' × (r'.elo ≡ r.elo +ℤ d) × (r'.games ≡ r.games + 1) × (r.peak ≤ℤ r'.peak)

apply_floor :
    (elo d : ℤ) → pos 0 ≤ℤ elo → pos 0 ≤ℤ elo +ℤ (if ltb_ℤ (elo +ℤ d) (pos 0) then neg elo else d)
unfolding ◌+ℤ◌
apply_floor elo d h = ground arith

apply_change-IsGame :
    (r : Rating) (d : ℤ) (s : Score)
    → IsValidRating r
    → let p = apply_change r d s in IsGame r p.0 p.1
unfolding apply_change
apply_change-IsGame r d full_point v = ground (arith, apply_floor r.elo d)
apply_change-IsGame r d no_point v = ground (arith, apply_floor r.elo d)
apply_change-IsGame r d half_point v = ground (arith, apply_floor r.elo d)

-- The change that is told is the one asked for, or the whole elo if that is more than there is.
apply_change-floor : (r : Rating) (d : ℤ) (s : Score) → (apply_change r d s).1 ≡ max_ℤ (neg r.elo) d
unfolding apply_change ◌+ℤ◌
apply_change-floor r d s = ground (arith, eq_of_parts d (neg r.elo))

module _ (fl : Floats) where
  -- Both ratings of valid ones count one game more and stay valid: no elo falls below 0, and each
  -- moves by the change that its player is told.
  pub settle-IsGame :
      (a b : Rating) (outcome : Outcome) (m : Margin fl)
      → IsValidRating a
      → IsValidRating b
      → let res = settle fl a b outcome m in IsGame a res.a res.delta_a × IsGame b res.b res.delta_b
  unfolding settle
  settle-IsGame a b outcome m va vb = (
    apply_change-IsGame a _ (score_of outcome) va,
    apply_change-IsGame b _ (other_score (score_of outcome)) vb,
  )

  step_nonzero :
      (d : ℤ) (up : Bool)
      → eq_zero fl (if eq_zero fl d then (if up then pos 1 else negsuc 0) else d) ≡ false
  step_nonzero d up = ground arith

  change_nonzero : (r : Rating) (s x : fl.F) → eq_zero fl (change fl r s x true) ≡ false
  unfolding change
  change_nonzero r s x =
      step_nonzero (fl.round (fl.mul (fl.mul (k_factor fl r) x) s)) (fl.is_positive s)

  -- A change that is not 0 and is floored is 0 only for an elo that is 0 already.
  floored_zero : (e d : ℤ) → pos 0 ≤ℤ e → eq_zero fl d ≡ false → max_ℤ (neg e) d ≡ pos 0 → e ≡ pos 0
  floored_zero e d h k z = ground (arith, eq_of_parts e (pos 0))

  -- A player who is told of no change after a decisive duel had elo 0, and still has.
  apply_change-zero :
      (r : Rating) (x y : fl.F) (s : Score)
      → IsValidRating r
      → let p = apply_change r (change fl r x y true) s in p.1 ≡ pos 0 → p.0.elo ≡ pos 0
  unfolding ◌+ℤ◌
  apply_change-zero r x y s v z =
      let d = change fl r x y true in
      let none =
        floored_zero r.elo d v.elo_nonneg (change_nonzero r x y)
          (sym (apply_change-floor r d s) ∙ z) in
      (apply_change-IsGame r d s v).1
      ∙ ap (λ (e : ℤ). e +ℤ (apply_change r d s).1) none
      ∙ ap (λ (c : ℤ). pos 0 +ℤ c) z

  -- A decisive duel moves each of the two by 1 at least, unless that player stays at 0.
  pub settle_moves :
      (a b : Rating) (outcome : Outcome) (m : Margin fl)
      → is_decisive outcome ≡ true
      → IsValidRating a
      → IsValidRating b
      → let res = settle fl a b outcome m in
        (res.delta_a ≡ pos 0 → res.a.elo ≡ pos 0) × (res.delta_b ≡ pos 0 → res.b.elo ≡ pos 0)
  unfolding settle
  settle_moves a b a_wins m h va vb =
      (apply_change-zero a _ _ full_point va, apply_change-zero b _ _ no_point vb)
  settle_moves a b b_wins m h va vb =
      (apply_change-zero a _ _ no_point va, apply_change-zero b _ _ full_point vb)
  settle_moves a b draw m h va vb = cc
