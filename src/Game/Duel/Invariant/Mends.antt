-- ===== src/Game/Duel/Invariant/Mends.antt =====
-- Mend keeps a duel valid: the eyes on the mended board follow their letters
-- (internal/game/cleric.go, mend).
use nytrpg.Prelude.{
  All, All-append, All-erase_idx, Bool, Bool-cases, List, Rng, [], arith, erase_idx, false,
  if◌then◌else◌, inl, inr, length, length-erase_idx, ltb, refl, suc, true, zero, ℕ, ◌&&◌, ◌++◌, ◌-◌,
  ◌<◌, ◌==◌, ◌||◌, ◌∷◌, ◌≡◌, ◌≤◌,
}
use nytrpg.Game.Duel.{Arena, Seat, cast_event, first, second, side, tell}
use nytrpg.Game.Duel.Cleric.{is_below, is_gone, mend_eye, mend_eyes, mend_guess, shift_destroyed}
use nytrpg.Game.Duel.Eyes.{aim_eye, send_eyes}
use nytrpg.Game.Duel.Eyes.Sight.{AllLookRight, LooksRight, aim_eye-IsFree, color_in, sees}
use nytrpg.Game.Duel.Invariant.{IsValid, IsValidPair, at_seat, if_cases, if_keeps}
use nytrpg.Game.Message.{Tile}
use nytrpg.Game.Side.{Eye, GuessRow, Side, set_effects}
use nytrpg.Game.Side.Invariant.{InBoard, IsValidRow, IsValidSide}
use nytrpg.Game.Side.State.{is_destroyed}

color_in-erase_below :
    (gs : List GuessRow) (row r c : ℕ) → r < row → color_in (erase_idx gs row) r c ≡ color_in gs r c
unfolding color_in
color_in-erase_below [] row r c h = refl
color_in-erase_below (g ∷ gs) zero r c h = elim h [ ]
color_in-erase_below (g ∷ gs) (suc row) zero c h = refl
color_in-erase_below (g ∷ gs) (suc row) (suc r) c h = color_in-erase_below gs row r c (omega arith)

color_in-erase_above :
    (gs : List GuessRow) (row r c : ℕ)
    → row ≤ r
    → color_in (erase_idx gs row) r c ≡ color_in gs (suc r) c
unfolding color_in
color_in-erase_above [] row r c h = refl
color_in-erase_above (g ∷ gs) zero r c h = refl
color_in-erase_above (g ∷ gs) (suc row) zero c h = elim h [ ]
color_in-erase_above (g ∷ gs) (suc row) (suc r) c h = color_in-erase_above gs row r c (omega arith)

shift_destroyed-below :
    (row : ℕ) (ds : List Tile) (t : Tile)
    → t.row < row
    → is_destroyed (shift_destroyed row ds) t ≡ is_destroyed ds t
unfolding shift_destroyed is_destroyed
shift_destroyed-below row [] t h = refl
shift_destroyed-below row (d ∷ ds) t h = ground (arith, shift_destroyed-below row ds t h)

shift_destroyed-above :
    (row : ℕ) (ds : List Tile) (r c : ℕ)
    → row ≤ r
    → is_destroyed (shift_destroyed row ds) (record { row = r; col = c })
      ≡ is_destroyed ds (record { row = suc r; col = c })
unfolding shift_destroyed is_destroyed
shift_destroyed-above row [] r c h = refl
shift_destroyed-above row (d ∷ ds) r c h = ground (arith, shift_destroyed-above row ds r c h)

sees-below :
    (gs : List GuessRow) (ds : List Tile) (row : ℕ) (t : Tile)
    → t.row < row
    → sees (erase_idx gs row) (shift_destroyed row ds) t ≡ sees gs ds t
unfolding sees
sees-below gs ds row t h =
    rw (color_in-erase_below gs row t.row t.col h, shift_destroyed-below row ds t h)

sees-above :
    (gs : List GuessRow) (ds : List Tile) (row r c : ℕ)
    → row ≤ r
    → sees (erase_idx gs row) (shift_destroyed row ds) (record { row = r; col = c })
      ≡ sees gs ds (record { row = suc r; col = c })
unfolding sees
sees-above gs ds row r c h =
    rw (color_in-erase_above gs row r c h, shift_destroyed-above row ds r c h)

abbrev pub mended : ℕ → Side → Side
mended row me =
    set_effects (λ e. record e { destroyed = shift_destroyed row e.destroyed })
      (record me { guesses = erase_idx me.guesses row })

shifted-LooksRight :
    (row : ℕ) (me : Side) (e : Eye)
    → LooksRight me.guesses me.destroyed e
    → ltb row e.at.row ≡ true
    → LooksRight
        (mended row me).guesses
        (mended row me).destroyed
        (record e { at = record { row = e.at.row - 1; col = e.at.col } })
shifted-LooksRight row me e right below on =
    let back : suc (e.at.row - 1) ≡ e.at.row = ground arith in
    rw (sees-above me.guesses me.destroyed row (e.at.row - 1) e.at.col (ground arith), back)
      (right on)

mend_eye-LooksRight :
    (now row : ℕ) (me : Side) (others : List Eye) (e : Eye) (r : Rng)
    → LooksRight me.guesses me.destroyed e
    → LooksRight
        (mended row me).guesses
        (mended row me).destroyed
        (mend_eye now row (mended row me) others e r)
unfolding mend_eye
mend_eye-LooksRight now row me others e r right =
    if_cases (LooksRight (mended row me).guesses (mended row me).destroyed)
      (e.on && e.at.row == row) (λ gone on. (aim_eye-IsFree now others (mended row me) e r on).0)
      (λ stays.
        if_cases (LooksRight (mended row me).guesses (mended row me).destroyed)
          (e.on && ltb row e.at.row) (λ below. shifted-LooksRight row me e right (ground arith))
          (λ above on. rw (sees-below me.guesses me.destroyed row e.at (ground arith)) (right on)))

mend_eyes-LooksRight :
    (now row : ℕ) (me : Side) (before es : List Eye) (r : Rng) (moved : Bool)
    → AllLookRight before (mended row me)
    → AllLookRight es me
    → AllLookRight (mend_eyes now row (mended row me) before es r moved).0 (mended row me)
unfolding mend_eyes
mend_eyes-LooksRight now row me before [] r moved b h = b
mend_eyes-LooksRight now row me before (e ∷ es) r moved b h =
    let e' = mend_eye now row (mended row me) (before ++ es) e r in
    mend_eyes-LooksRight now row me
      (before ++ mend_eye now row (mended row me) (before ++ es) e r ∷ []) es
      (if is_gone row e then (aim_eye now (before ++ es) (mended row me) e r).1 else r)
      (moved || is_gone row e || is_below row e)
      (All-append (LooksRight (mended row me).guesses (mended row me).destroyed) before (e' ∷ []) b
        (mend_eye-LooksRight now row me (before ++ es) e r h.0, tt))
      h.1

shift_destroyed-fits :
    (n row : ℕ) (gs : List GuessRow) (ts : List Tile)
    → row < length gs
    → All (InBoard n gs) ts
    → All (InBoard n (erase_idx gs row)) (shift_destroyed row ts)
unfolding shift_destroyed
shift_destroyed-fits n row gs [] h k = tt
shift_destroyed-fits n row gs (t ∷ ts) h k =
    let ih = shift_destroyed-fits n row gs ts h k.1 in
    let len = length-erase_idx gs row h in
    let fits = k.0 in
    if_cases (All (InBoard n (erase_idx gs row))) (t.row == row) (λ _. ih)
      (λ other. (
        elim (Bool-cases (ltb row t.row)) [
          | inl below ↦ rw (below, if◌then◌else◌) (ground arith, fits.1)
          | inr above ↦ rw (above, if◌then◌else◌) (ground arith, fits.1)
        ],
        ih,
      ))

module _ (n : ℕ) where
  mended-IsValidSide :
      (row : ℕ) (me : Side)
      → row < length me.guesses
      → IsValidSide n me
      → IsValidSide n (mended row me)
  mended-IsValidSide row me h (board, found, tricks, trapped) =
      let len = length-erase_idx me.guesses row h in
      let fit = board.rows_fit in
      (
        record {
          letters = board.letters;
          word_length = board.word_length;
          rows_fit = omega arith;
          guesses_fit = All-erase_idx (IsValidRow n) me.guesses row board.guesses_fit;
          destroyed_fits =
              shift_destroyed-fits n row me.guesses me.destroyed h board.destroyed_fits;
        },
        found,
        tricks,
        trapped,
      )

  mended-IsValidPair :
      (now row : ℕ) (me them : Side) (r : Rng)
      → row < length me.guesses
      → IsValidPair n me them
      → IsValidPair n (mended row me) (
          set_effects
            (λ e. record e { eyes = (mend_eyes now row (mended row me) [] e.eyes r false).0 })
            them)
  mended-IsValidPair now row me them r h (mine, theirs, my_eyes, their_eyes) = (
    mended-IsValidSide row me h mine,
    theirs,
    my_eyes,
    mend_eyes-LooksRight now row me [] them.eyes r false tt their_eyes,
  )

  -- Taking back one of the guesses made keeps a valid duel valid.
  pub mend_guess-IsValid :
      (now : ℕ) (seat : Seat) (row : ℕ) (ar : Arena)
      → row < length (side seat ar).guesses
      → IsValid n ar
      → IsValid n (mend_guess now seat row ar)
  unfolding mend_guess cast_event tell send_eyes
  mend_guess-IsValid now first row ar h v =
      if_keeps (IsValid n) _ (mended-IsValidPair now row ar.duel.a ar.duel.b ar.rng h v)
        (mended-IsValidPair now row ar.duel.a ar.duel.b ar.rng h v)
  mend_guess-IsValid now second row ar h v =
      let p = mended-IsValidPair now row ar.duel.b ar.duel.a ar.rng h (at_seat n second ar v) in
      if_keeps (IsValid n) _ (p.1, p.0, p.3, p.2) (p.1, p.0, p.3, p.2)
