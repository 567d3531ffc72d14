-- ===== src/Ranked/Ladder.antt =====
-- The ranks and the rank of an elo (internal/ranked/ladder.go). Elo is never below 0, and a rank is
-- named by its family and division.
use nytrpg.Prelude.{
  All, List, [], arith, get_or, if◌then◌else◌, leb, length, suc, zero, ℕ, ◌*◌, ◌++◌, ◌+◌, ◌∷◌, ◌≤◌,
}
use nytrpg.Game.Duel.Invariant.{if_cases, if_keeps}

pub data Family : Type 0 where
  iron bronze silver gold diamond master : Family

-- `RankTier`
pub record RankTier : Type 0 where
  pub family : Family
  pub division : ℕ
  pub min_elo : ℕ

-- The three divisions of a family, appended to the tiers so far.
unfoldable pub add_divisions : ℕ → Family → List RankTier → List RankTier
add_divisions zero f tiers = tiers
add_divisions (suc div) f tiers =
    let tier : RankTier = record {
      family = f;
      division = suc div;
      min_elo = 400 + 100 * length tiers;
    } in
    add_divisions div f (tiers ++ tier ∷ [])

unfoldable pub add_families : List Family → List RankTier → List RankTier
unfolding add_divisions
add_families [] tiers = tiers
add_families (f ∷ fs) tiers = add_families fs (add_divisions 3 f tiers)

-- `tiers[0].MinElo = 0`
unfoldable pub floor_first : List RankTier → List RankTier
floor_first [] = []
floor_first (t ∷ tiers) = record t { min_elo = 0 } ∷ tiers

-- `Ladder`
unfoldable pub ladder : List RankTier
unfolding add_families floor_first
ladder =
    let tiers = floor_first (add_families (iron ∷ bronze ∷ silver ∷ gold ∷ diamond ∷ []) []) in
    tiers ++ record { family = master; division = 0; min_elo = 400 + 100 * length tiers } ∷ []

-- The loop of `TierFor`.
unfoldable pub last_reached : ℕ → RankTier → List RankTier → RankTier
last_reached elo t [] = t
last_reached elo t (tier ∷ tiers) =
    last_reached elo (if leb tier.min_elo elo then tier else t) tiers

abbrev unranked : RankTier
unranked = record { family = iron; division = 3; min_elo = 0 }

-- `TierFor`
unfoldable pub tier_for : ℕ → RankTier
unfolding ladder last_reached
tier_for elo = last_reached elo (get_or ladder 0 unranked) ladder

abbrev Ascends : ℕ → List RankTier → Type 0
Ascends m [] = Unit {0}
Ascends m (t ∷ tiers) = (m ≤ t.min_elo) × Ascends t.min_elo tiers

-- A rank is the best for an elo among some.
abbrev pub IsBest : ℕ → List RankTier → RankTier → Type 0
IsBest elo tiers t = (t.min_elo ≤ elo) × All (λ x. x.min_elo ≤ elo → x.min_elo ≤ t.min_elo) tiers

Ascends-weaken :
    (m : ℕ) (x : RankTier) (tiers : List RankTier) → Ascends m (x ∷ tiers) → Ascends m tiers
Ascends-weaken m x [] h = tt
Ascends-weaken m x (y ∷ tiers) h = (omega (arith, h.0, h.1.0), h.1.1)

last_reached-le :
    (elo : ℕ) (t : RankTier) (tiers : List RankTier)
    → Ascends t.min_elo tiers
    → t.min_elo ≤ (last_reached elo t tiers).min_elo
unfolding last_reached
last_reached-le elo t [] h = omega arith
last_reached-le elo t (x ∷ tiers) h =
    if_keeps (λ r. t.min_elo ≤ (last_reached elo r tiers).min_elo) (leb x.min_elo elo)
      (omega (arith, h.0, last_reached-le elo x tiers h.1))
      (last_reached-le elo t tiers (Ascends-weaken t.min_elo x tiers h))

last_reached-IsBest :
    (elo : ℕ) (t : RankTier) (tiers : List RankTier)
    → t.min_elo ≤ elo
    → Ascends t.min_elo tiers
    → IsBest elo tiers (last_reached elo t tiers)
unfolding last_reached
last_reached-IsBest elo t [] low h = (low, tt)
last_reached-IsBest elo t (x ∷ tiers) low h =
    if_cases (λ r. IsBest elo (x ∷ tiers) (last_reached elo r tiers)) (leb x.min_elo elo)
      (λ reached.
        let best = last_reached-IsBest elo x tiers (ground arith) h.1 in
        (best.0, (λ _. last_reached-le elo x tiers h.1, best.1)))
      (λ above.
        let best = last_reached-IsBest elo t tiers low (Ascends-weaken t.min_elo x tiers h) in
        (best.0, (λ k. absurd (ground arith), best.1)))

-- The rank of an elo is one that the elo reaches, and the highest of the ladder that it reaches.
pub tier_for-IsBest : (elo : ℕ) → IsBest elo ladder (tier_for elo)
unfolding tier_for ladder
tier_for-IsBest elo =
    last_reached-IsBest elo (get_or ladder 0 unranked) ladder (omega arith) (ground arith)
