-- ===== src/Game/Side/Invariant.antt =====
-- What holds of a side between two handlers (internal/game/duel.go, duelSide).
use nytrpg.Prelude.{
  All, Bool, List, Option, [], arith, false, is_some, length, length-replicate, length-set, none,
  not, refl, some, suc, true, ℕ, ◌-◌, ◌<◌, ◌==◌, ◌∙◌, ◌∷◌, ◌≡◌, ◌≤◌,
}
use nytrpg.Game.Message.{Tile}
use nytrpg.Game.Side.{GuessRow, Illusion, Side, closeness, max_frac}
use nytrpg.Game.Side.Learn.{
  Learning, learn, learn_green, learn_greens, learn_yellow, learn_yellows, mark_found, relearn,
  relearn_all,
}
use nytrpg.Text.{Text, is_letters}
use nytrpg.Wordle.Score.{Color}

-- A guess has as many letters and colors as the word.
pub record IsValidRow (n : ℕ) (g : GuessRow) : Type 0 where
  pub letters : is_letters g.word ≡ true
  pub word_length : length g.word ≡ n
  pub colors_length : length g.colors ≡ n
  pub seen_length : length g.seen ≡ n
  pub shown_length : length g.shown ≡ n

abbrev pub Fits : ℕ → Option (List Color) → Type 0
Fits n none = Unit {0}
Fits n (some cs) = length cs ≡ n

abbrev pub TriesLeft : Option Illusion → Type 0
TriesLeft none = Unit {0}
TriesLeft (some i) = i.tries < 6

abbrev pub InBoard : ℕ → List GuessRow → Tile → Type 0
InBoard n gs t = (t.row < length gs) × (t.col < n)

-- `n` is the length of the words of the duel.
pub record IsBoard (n : ℕ) (word : Text) (guesses : List GuessRow) (rows : ℕ)
    (destroyed : List Tile) : Type 0 where
  pub letters : is_letters word ≡ true
  pub word_length : length word ≡ n
  pub rows_fit : length guesses ≤ rows
  pub guesses_fit : All (IsValidRow n) guesses
  pub destroyed_fits : All (InBoard n guesses) destroyed

abbrev pub IsFound : ℕ → List Bool → List Bool → Type 0
IsFound n greens found = (length greens ≡ n) × (length found ≡ 26)

pub record IsTricks (n : ℕ) (feint false_next : Option (List Color)) (keymap : Option Text)
    (left : ℕ) : Type 0 where
  pub feint_fits : Fits n feint
  pub false_fits : Fits n false_next
  pub scramble : is_some keymap ≡ not (left == 0)

abbrev pub IsValidWord : ℕ → Text → Type 0
IsValidWord n w = (is_letters w ≡ true) × (length w ≡ n)

-- The illusion has tries left, and the words on offer are words of the duel.
abbrev pub IsPending : ℕ → Option Illusion → List Text → Type 0
IsPending n trap offered = TriesLeft trap × All (IsValidWord n) offered

-- The parts take what they speak of, so that a handler which leaves that alone keeps them.
abbrev pub IsValidSide : ℕ → Side → Type 0
IsValidSide n s =
    IsBoard n s.word s.guesses s.rows s.destroyed
    × IsFound n s.greens s.found
    × IsTricks n s.feint s.false_next s.keymap s.scrambled_guesses
    × IsPending n s.illusion s.reshape

learn_greens-lengths :
    (i : ℕ) (cs : List Color) (w : Text) (l : Learning)
    → let l' = learn_greens i cs w l in
      (length l'.greens ≡ length l.greens) × (length l'.found ≡ length l.found)
unfolding learn_greens learn_green mark_found
learn_greens-lengths i [] w l = (refl, refl)
learn_greens-lengths i (c ∷ cs) [] l = (refl, refl)
learn_greens-lengths i (c ∷ cs) (x ∷ w) l = ground (
  arith,
  learn_greens-lengths (suc i) cs w (learn_green i c x l),
  length-set l.greens i true,
  length-set l.found (x - b'A') true,
)

learn_yellows-lengths :
    (cs : List Color) (w : Text) (l : Learning)
    → let l' = learn_yellows cs w l in
      (length l'.greens ≡ length l.greens) × (length l'.found ≡ length l.found)
unfolding learn_yellows learn_yellow mark_found
learn_yellows-lengths [] w l = (refl, refl)
learn_yellows-lengths (c ∷ cs) [] l = (refl, refl)
learn_yellows-lengths (c ∷ cs) (x ∷ w) l =
    ground
      (arith, learn_yellows-lengths cs w (learn_yellow c x l), length-set l.found (x - b'A') true)

-- Learning keeps a side valid.
pub learn-IsValidSide :
    (n : ℕ) (g : GuessRow) (pay : Bool) (s : Side)
    → IsValidSide n s
    → IsValidSide n (learn g pay s).0
unfolding learn
learn-IsValidSide n g pay s (board, found, tricks, trapped) =
    let start : Learning = record {
      greens = s.greens;
      found = s.found;
      gain = 0;
      new_green = false;
    } in
    let l = learn_greens 0 g.colors g.word start in
    let greens = learn_greens-lengths 0 g.colors g.word start in
    let yellows = learn_yellows-lengths g.colors g.word l in
    (board, (yellows.0 ∙ greens.0 ∙ found.0, yellows.1 ∙ greens.1 ∙ found.1), tricks, trapped)

relearn_all-IsValidSide :
    (n : ℕ) (gs : List GuessRow) (s : Side) → IsValidSide n s → IsValidSide n (relearn_all gs s)
unfolding relearn_all
relearn_all-IsValidSide n [] s v = v
relearn_all-IsValidSide n (g ∷ gs) s v =
    let t = (learn g false s).0 in
    relearn_all-IsValidSide n gs (record t { best = max_frac t.best (closeness g.colors) })
      (learn-IsValidSide n g false s v)

-- Learning again keeps a side valid, and its board as it was.
pub relearn-IsValidSide : (n : ℕ) (s : Side) → IsValidSide n s → IsValidSide n (relearn s)
unfolding relearn
relearn-IsValidSide n s (board, found, tricks, trapped) =
    relearn_all-IsValidSide n s.guesses _
      (board, (length-replicate (length s.greens) false ∙ found.0, refl), tricks, trapped)

relearn_all-board :
    (gs : List GuessRow) (s : Side)
    → let t = relearn_all gs s in
      (t.guesses ≡ s.guesses) × (t.destroyed ≡ s.destroyed) × (t.eyes ≡ s.eyes)
unfolding relearn_all learn
relearn_all-board [] s = (refl, refl, refl)
relearn_all-board (g ∷ gs) s =
    let t = (learn g false s).0 in
    relearn_all-board gs (record t { best = max_frac t.best (closeness g.colors) })

pub relearn-board :
    (s : Side)
    → let t = relearn s in (t.guesses ≡ s.guesses) × (t.destroyed ≡ s.destroyed) × (t.eyes ≡ s.eyes)
unfolding relearn
relearn-board s = relearn_all-board s.guesses _
