-- ===== src/Game/World/Grid/Near.antt =====
-- What is near a point (internal/game/grid.go: floorDiv, near).
use nytrpg.Prelude.{
  Bool, List, [], any, ap, arith, false, leb, neg_part, negsuc, pos, pos_part, refl, true, ℕ, ℤ,
  ◌&&◌, ◌*◌, ◌+ℤ◌, ◌+◌, ◌-ℤ◌, ◌-◌, ◌<◌, ◌||◌, ◌∙◌, ◌∷◌, ◌≡◌, ◌≤◌,
}
use nytrpg.Game.World.Grid.{
  CellKey, Cells, Vec, cell_at, cell_of, cell_size, eq_ℤ, floor_div, has, ids_in, key_eq, near,
  near_keys,
}
use nytrpg.Game.World.Grid.Cells.{has-append}

-- A quotient that is rounded down, for any sign: `q` cells fit below `a`, and one more does not.
pub floor_div-bounds :
    (a : ℤ)
    → let q = floor_div a cell_size in
      (pos_part q * cell_size + neg_part a ≤ pos_part a + neg_part q * cell_size)
      × (pos_part a + neg_part q * cell_size < (pos_part q + 1) * cell_size + neg_part a)
unfolding floor_div ◌-ℤ◌
floor_div-bounds (pos n) = (omega arith, omega arith)
floor_div-bounds (negsuc n) = ground arith

-- At most one apart.
abbrev pub adjacent : ℤ → ℤ → Bool
adjacent a b =
    leb (pos_part a + neg_part b) (pos_part b + neg_part a + 1)
    && leb (pos_part b + neg_part a) (pos_part a + neg_part b + 1)

-- At most `d` apart.
abbrev pub Within : ℕ → ℤ → ℤ → Type 0
Within d a b =
    (pos_part a + neg_part b ≤ pos_part b + neg_part a + d)
    × (pos_part b + neg_part a ≤ pos_part a + neg_part b + d)

adjacent-eq_ℤ :
    (a b : ℤ)
    → adjacent a b ≡ (eq_ℤ b (a +ℤ negsuc 0) || (eq_ℤ b (a +ℤ pos 0) || eq_ℤ b (a +ℤ pos 1)))
unfolding ◌+ℤ◌
adjacent-eq_ℤ a b = ground arith

nine :
    (a b c p q r : Bool)
    → (a && p
        || (a && q
            || (a && r
                || (b && p || (b && q || (b && r || (c && p || (c && q || (c && r || false)))))))))
      ≡ ((a || (b || c)) && (p || (q || r)))
nine true b c true q r = refl
nine true b c false true r = refl
nine true b c false false true = refl
nine true b c false false false = ground arith
nine false b c p q r = ground arith

any_near_key :
    (k c : CellKey) → any (key_eq k) (near_keys c) ≡ (adjacent c.x k.x && adjacent c.y k.y)
unfolding near_keys
any_near_key k c =
    rw (adjacent-eq_ℤ c.x k.x, adjacent-eq_ℤ c.y k.y)
      (nine (eq_ℤ k.x (c.x +ℤ negsuc 0)) (eq_ℤ k.x (c.x +ℤ pos 0)) (eq_ℤ k.x (c.x +ℤ pos 1))
        (eq_ℤ k.y (c.y +ℤ negsuc 0)) (eq_ℤ k.y (c.y +ℤ pos 0)) (eq_ℤ k.y (c.y +ℤ pos 1)))

has-ids_in :
    (id : ℕ) (keys : List CellKey) (cells : Cells)
    → has id (ids_in keys cells) ≡ any (λ key. has id (cell_at key cells)) keys
unfolding ids_in
has-ids_in id [] cells = refl
has-ids_in id (key ∷ keys) cells =
    has-append id (cell_at key cells) (ids_in keys cells)
    ∙ ap (λ b. has id (cell_at key cells) || b) (has-ids_in id keys cells)

any_cong :
    (p q : CellKey → Bool) (keys : List CellKey)
    → ((key : CellKey) → p key ≡ q key)
    → any p keys ≡ any q keys
any_cong p q [] h = refl
any_cong p q (key ∷ keys) h = rw (h key, any_cong p q keys h) refl

-- Whether a cell is one of the nine around the cell of a point.
abbrev pub is_around : Vec → CellKey → Bool
is_around p k = adjacent (cell_of p).x k.x && adjacent (cell_of p).y k.y

-- An entity that stands in one cell is near a point exactly if that cell is around it.
pub has-near :
    (id : ℕ) (p : Vec) (k : CellKey) (cells : Cells)
    → ((key : CellKey) → has id (cell_at key cells) ≡ key_eq k key)
    → has id (near p cells) ≡ is_around p k
unfolding near
has-near id p k cells h =
    has-ids_in id (near_keys (cell_of p)) cells
    ∙ any_cong (λ key. has id (cell_at key cells)) (key_eq k) (near_keys (cell_of p)) h
    ∙ any_near_key k (cell_of p)

pub has-near_nowhere :
    (id : ℕ) (p : Vec) (cells : Cells)
    → ((key : CellKey) → has id (cell_at key cells) ≡ false)
    → has id (near p cells) ≡ false
unfolding near
has-near_nowhere id p cells h =
    has-ids_in id (near_keys (cell_of p)) cells
    ∙ any_cong (λ key. has id (cell_at key cells)) (λ key. false) (near_keys (cell_of p)) h
    ∙ none_of (near_keys (cell_of p))
  where
    none_of : (keys : List CellKey) → any (λ key. false) keys ≡ false
    none_of [] = refl
    none_of (key ∷ keys) = none_of keys

adjacent-floor_div :
    (a b : ℤ)
    → Within cell_size a b
    → adjacent (floor_div a cell_size) (floor_div b cell_size) ≡ true
adjacent-floor_div a b h = ground (arith, floor_div-bounds a, floor_div-bounds b)

floor_div-Within :
    (a b : ℤ)
    → adjacent (floor_div a cell_size) (floor_div b cell_size) ≡ true
    → Within (2 * cell_size - 1) a b
floor_div-Within a b h =
    let (low_a, high_a) = floor_div-bounds a in
    let (low_b, high_b) = floor_div-bounds b in ground arith

-- What is at most a cell's width away on both axes is around, so everything on a screen is; what is
-- around is less than two widths away on both.
pub is_around-Within :
    (p q : Vec)
    → (Within cell_size p.x q.x × Within cell_size p.y q.y → is_around p (cell_of q) ≡ true)
      × (is_around p (cell_of q) ≡ true
          → Within (2 * cell_size - 1) p.x q.x × Within (2 * cell_size - 1) p.y q.y)
unfolding cell_of
is_around-Within p q = (
  λ h. ground (arith, adjacent-floor_div p.x q.x h.0, adjacent-floor_div p.y q.y h.1),
  λ h. (floor_div-Within p.x q.x (ground (arith, h)), floor_div-Within p.y q.y (ground (arith, h))),
)
