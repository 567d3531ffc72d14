-- ===== src/Game/Side/Once.antt =====
-- The same letters never paid twice (internal/game/abilities.go: learn, markFound).
use nytrpg.Prelude.{
  Bool, List, [], ap, arith, false, get_or, not, refl, set, suc, true, zero, ℕ, ◌&&◌, ◌+◌, ◌-◌, ◌∷◌,
  ◌≡◌,
}
use nytrpg.Game.Duel.Invariant.{if_cases, if_keeps}
use nytrpg.Game.Side.{GuessRow, Side, set_effects}
use nytrpg.Game.Side.Learn.{
  Learning, is_new_letter, learn, learn_green, learn_greens, learn_yellow, learn_yellows,
  mark_found,
}
use nytrpg.Text.{Text}
use nytrpg.Wordle.Score.{Color, is_green, is_yellow}

-- Everything known in `k` is known in `l`.
abbrev Knows : List Bool → List Bool → Type 0
Knows k l = (i : ℕ) → get_or k i true ≡ true → get_or l i true ≡ true

get_or-set_same : (xs : List Bool) (i : ℕ) → get_or (set xs i true) i true ≡ true
get_or-set_same [] i = refl
get_or-set_same (x ∷ xs) zero = refl
get_or-set_same (x ∷ xs) (suc i) = get_or-set_same xs i

set-Knows : (xs : List Bool) (j : ℕ) → Knows xs (set xs j true)
set-Knows [] j i h = h
set-Knows (x ∷ xs) zero zero h = refl
set-Knows (x ∷ xs) zero (suc i) h = h
set-Knows (x ∷ xs) (suc j) zero h = h
set-Knows (x ∷ xs) (suc j) (suc i) h = set-Knows xs j i h

mark_found-Knows : (letter : ℕ) (found : List Bool) → Knows found (mark_found letter found).0
unfolding mark_found
mark_found-Knows letter found =
    if_keeps (λ (r : List Bool × Bool). Knows found r.0) (is_new_letter letter found)
      (set-Knows found (letter - b'A')) (λ i h. h)

-- The letter at index `i` with this color has nothing left to teach.
abbrev IsTaught : ℕ → Color → ℕ → Learning → Type 0
IsTaught i c letter l =
    ((is_green c && not (get_or l.greens i true)) ≡ false)
    × ((is_yellow c && (mark_found letter l.found).1) ≡ false)

learn_green-Knows :
    (i : ℕ) (c : Color) (letter : ℕ) (l : Learning)
    → Knows l.greens (learn_green i c letter l).greens
      × Knows l.found (learn_green i c letter l).found
unfolding learn_green
learn_green-Knows i c letter l =
    if_keeps (λ (r : Learning). Knows l.greens r.greens × Knows l.found r.found)
      (is_green c && not (get_or l.greens i true))
      (set-Knows l.greens i, mark_found-Knows letter l.found) (λ j h. h, λ j h. h)

learn_yellow-Knows :
    (c : Color) (letter : ℕ) (l : Learning)
    → Knows l.greens (learn_yellow c letter l).greens
      × Knows l.found (learn_yellow c letter l).found
unfolding learn_yellow
learn_yellow-Knows c letter l =
    if_keeps (λ (r : Learning). Knows l.greens r.greens × Knows l.found r.found)
      (is_yellow c && (mark_found letter l.found).1) (λ j h. h, mark_found-Knows letter l.found)
      (λ j h. h, λ j h. h)

learn_greens-Knows :
    (i : ℕ) (cs : List Color) (w : Text) (l : Learning)
    → Knows l.greens (learn_greens i cs w l).greens × Knows l.found (learn_greens i cs w l).found
unfolding learn_greens
learn_greens-Knows i [] w l = (λ j h. h, λ j h. h)
learn_greens-Knows i (c ∷ cs) [] l = (λ j h. h, λ j h. h)
learn_greens-Knows i (c ∷ cs) (x ∷ w) l =
    let (g, f) = learn_green-Knows i c x l in
    let (gs, fs) = learn_greens-Knows (suc i) cs w (learn_green i c x l) in
    (λ j h. gs j (g j h), λ j h. fs j (f j h))

learn_yellows-Knows :
    (cs : List Color) (w : Text) (l : Learning)
    → Knows l.greens (learn_yellows cs w l).greens × Knows l.found (learn_yellows cs w l).found
unfolding learn_yellows
learn_yellows-Knows [] w l = (λ j h. h, λ j h. h)
learn_yellows-Knows (c ∷ cs) [] l = (λ j h. h, λ j h. h)
learn_yellows-Knows (c ∷ cs) (x ∷ w) l =
    let (g, f) = learn_yellow-Knows c x l in
    let (gs, fs) = learn_yellows-Knows cs w (learn_yellow c x l) in
    (λ j h. gs j (g j h), λ j h. fs j (f j h))

-- The greens of a guess from index `i` on are all found.
abbrev GreensKnown : ℕ → List Color → Text → List Bool → Type 0
GreensKnown i [] w greens = Unit {0}
GreensKnown i (c ∷ cs) [] greens = Unit {0}
GreensKnown i (c ∷ cs) (x ∷ w) greens =
    (is_green c ≡ true → get_or greens i true ≡ true) × GreensKnown (suc i) cs w greens

YellowsKnown : List Color → Text → List Bool → Type 0
YellowsKnown [] w found = Unit {0}
YellowsKnown (c ∷ cs) [] found = Unit {0}
YellowsKnown (c ∷ cs) (x ∷ w) found =
    (is_yellow c ≡ true → is_new_letter x found ≡ false) × YellowsKnown cs w found

GreensKnown-mono :
    (i : ℕ) (cs : List Color) (w : Text) (k l : List Bool)
    → Knows k l
    → GreensKnown i cs w k
    → GreensKnown i cs w l
GreensKnown-mono i [] w k l f h = tt
GreensKnown-mono i (c ∷ cs) [] k l f h = tt
GreensKnown-mono i (c ∷ cs) (x ∷ w) k l f h =
    (λ e. f i (h.0 e), GreensKnown-mono (suc i) cs w k l f h.1)

is_new_letter_mono :
    (x : ℕ) (k l : List Bool) → Knows k l → is_new_letter x k ≡ false → is_new_letter x l ≡ false
unfolding is_new_letter
is_new_letter_mono x k l f h = ground (arith, f (x - b'A'))

YellowsKnown-mono :
    (cs : List Color) (w : Text) (k l : List Bool)
    → Knows k l
    → YellowsKnown cs w k
    → YellowsKnown cs w l
unfolding YellowsKnown
YellowsKnown-mono [] w k l f h = tt
YellowsKnown-mono (c ∷ cs) [] k l f h = tt
YellowsKnown-mono (c ∷ cs) (x ∷ w) k l f h =
    (λ e. is_new_letter_mono x k l f (h.0 e), YellowsKnown-mono cs w k l f h.1)

learn_green-known :
    (i : ℕ) (c : Color) (x : ℕ) (l : Learning)
    → is_green c ≡ true
    → get_or (learn_green i c x l).greens i true ≡ true
unfolding learn_green
learn_green-known i c x l h =
    if_cases (λ (r : Learning). get_or r.greens i true ≡ true)
      (is_green c && not (get_or l.greens i true)) (λ _. get_or-set_same l.greens i)
      (λ known. ground arith)

mark_found-known : (x : ℕ) (found : List Bool) → is_new_letter x (mark_found x found).0 ≡ false
unfolding mark_found is_new_letter
mark_found-known x found =
    if_cases (λ (r : List Bool × Bool). is_new_letter x r.0 ≡ false) (is_new_letter x found)
      (λ _. ground (arith, get_or-set_same found (x - b'A'))) (λ known. known)

learn_yellow-known :
    (c : Color) (x : ℕ) (l : Learning)
    → is_yellow c ≡ true
    → is_new_letter x (learn_yellow c x l).found ≡ false
unfolding learn_yellow mark_found
learn_yellow-known c x l h =
    if_cases (λ (r : Learning). is_new_letter x r.found ≡ false)
      (is_yellow c && (mark_found x l.found).1) (λ _. mark_found-known x l.found)
      (λ known. ground arith)

learn_greens-GreensKnown :
    (i : ℕ) (cs : List Color) (w : Text) (l : Learning)
    → GreensKnown i cs w (learn_greens i cs w l).greens
unfolding learn_greens
learn_greens-GreensKnown i [] w l = tt
learn_greens-GreensKnown i (c ∷ cs) [] l = tt
learn_greens-GreensKnown i (c ∷ cs) (x ∷ w) l =
    let l' = learn_green i c x l in
    (
      λ h. (learn_greens-Knows (suc i) cs w l').0 i (learn_green-known i c x l h),
      learn_greens-GreensKnown (suc i) cs w l',
    )

learn_yellows-YellowsKnown :
    (cs : List Color) (w : Text) (l : Learning) → YellowsKnown cs w (learn_yellows cs w l).found
unfolding learn_yellows YellowsKnown
learn_yellows-YellowsKnown [] w l = tt
learn_yellows-YellowsKnown (c ∷ cs) [] l = tt
learn_yellows-YellowsKnown (c ∷ cs) (x ∷ w) l =
    let l' = learn_yellow c x l in
    (
      λ h.
          is_new_letter_mono x l'.found (learn_yellows cs w l').found
            (learn_yellows-Knows cs w l').1 (learn_yellow-known c x l h),
      learn_yellows-YellowsKnown cs w l',
    )

learn_green-idle :
    (i : ℕ) (c : Color) (x : ℕ) (l : Learning)
    → (is_green c ≡ true → get_or l.greens i true ≡ true)
    → learn_green i c x l ≡ l
unfolding learn_green
learn_green-idle i c x l k =
    if_cases (λ (r : Learning). r ≡ l) (is_green c && not (get_or l.greens i true))
      (λ new. absurd (ground (arith, k))) (λ _. refl)

learn_yellow-idle :
    (c : Color) (x : ℕ) (l : Learning)
    → (is_yellow c ≡ true → is_new_letter x l.found ≡ false)
    → learn_yellow c x l ≡ l
unfolding learn_yellow mark_found
learn_yellow-idle c x l k =
    if_cases (λ (r : Learning). r ≡ l) (is_yellow c && (mark_found x l.found).1)
      (λ new. absurd (ground (arith, k))) (λ _. refl)

-- Known letters teach nothing.
learn_greens-idle :
    (i : ℕ) (cs : List Color) (w : Text) (l : Learning)
    → GreensKnown i cs w l.greens
    → learn_greens i cs w l ≡ l
unfolding learn_greens
learn_greens-idle i [] w l h = refl
learn_greens-idle i (c ∷ cs) [] l h = refl
learn_greens-idle i (c ∷ cs) (x ∷ w) l h =
    let idle = learn_green-idle i c x l h.0 in rw idle (learn_greens-idle (suc i) cs w l h.1)

learn_yellows-idle :
    (cs : List Color) (w : Text) (l : Learning)
    → YellowsKnown cs w l.found
    → learn_yellows cs w l ≡ l
unfolding learn_yellows YellowsKnown
learn_yellows-idle [] w l h = refl
learn_yellows-idle (c ∷ cs) [] l h = refl
learn_yellows-idle (c ∷ cs) (x ∷ w) l h =
    let idle = learn_yellow-idle c x l h.0 in rw idle (learn_yellows-idle cs w l h.1)

learn-idle :
    (g : GuessRow) (paid : Bool) (s : Side)
    → GreensKnown 0 g.colors g.word s.greens
    → YellowsKnown g.colors g.word s.found
    → learn g paid s ≡ (s, false)
unfolding learn
learn-idle g paid s h k =
    let start : Learning = record {
      greens = s.greens;
      found = s.found;
      gain = 0;
      new_green = false;
    } in
    let same : s.energy + 0 ≡ s.energy = omega arith in
    rw (learn_greens-idle 0 g.colors g.word start h, learn_yellows-idle g.colors g.word start k)
      (ap (λ t. (t, false))
        (if_keeps
          (λ (e : ℕ).
            set_effects (λ f. record f { greens = s.greens; found = s.found; energy = e }) s ≡ s)
          paid (rw same refl) refl))

-- Learning a guess again teaches nothing and pays nothing: the side stays as it is, and there is no
-- new green.
pub learn-learn :
    (g : GuessRow) (paid again : Bool) (s : Side)
    → learn g again (learn g paid s).0 ≡ ((learn g paid s).0, false)
unfolding learn
learn-learn g paid again s =
    let start : Learning = record {
      greens = s.greens;
      found = s.found;
      gain = 0;
      new_green = false;
    } in
    let l = learn_greens 0 g.colors g.word start in
    let l' = learn_yellows g.colors g.word l in
    learn-idle g again (learn g paid s).0
      (GreensKnown-mono 0 g.colors g.word l.greens l'.greens
        (learn_yellows-Knows g.colors g.word l).0
        (learn_greens-GreensKnown 0 g.colors g.word start))
      (learn_yellows-YellowsKnown g.colors g.word l)
