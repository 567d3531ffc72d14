-- ===== src/Game/Duel/Invariant/Hits.antt =====
-- What hits a side keeps a duel valid: the knight's, the wizard's and the rogue's abilities
-- (internal/game/abilities.go, cast and landMissile; internal/game/rogue.go).
use nytrpg.Prelude.{
  All-append, All-mono, arith, false, if◌then◌else◌, is_some, leb, not, true, ℕ, ◌-◌, ◌∷◌, ◌≡◌,
}
use nytrpg.Classes.{cripple, magic_missile, seeing_eye, slash}
use nytrpg.Game.Duel.{
  Arena, DuelPuzzle, Seat, cast_event, first, hostile, other_seat, second, side, tell,
}
use nytrpg.Game.Duel.Cast.{cast, crippled, land_missile, missile_energy}
use nytrpg.Game.Duel.Eyes.{color_at, send_eyes}
use nytrpg.Game.Duel.Eyes.Sight.{LooksRight, aim_eye-IsFree, color_in}
use nytrpg.Game.Duel.Invariant.{
  IsValid, IsValidPair, at_seat, hit-IsValid, hostile-IsValid, if_cases, if_keeps, put_me, put_them,
}
use nytrpg.Game.Duel.Invariant.Eyes.{
  InRange, IsValidBut, LooksRight-InRange, color_in-bounds, reaim_them-IsValid,
}
use nytrpg.Game.Duel.Rogue.{CastReq, req_tile}
use nytrpg.Game.Message.{Tile, cast_landed, cast_used, tile_zero}
use nytrpg.Game.Side.{Eye, Side, lose_energy, set_effects, unused_rows}
use nytrpg.Game.Side.Invariant.{IsBoard}

module _ (n : ℕ) where
  crippled-IsBoard :
      (s : Side)
      → leb 2 (unused_rows s) ≡ true
      → IsBoard n s.word s.guesses s.rows s.destroyed
      → IsBoard n s.word s.guesses (s.rows - 1) s.destroyed
  unfolding unused_rows
  crippled-IsBoard s h b = record {
    letters = b.letters;
    word_length = b.word_length;
    rows_fit = let fit = b.rows_fit in ground arith;
    guesses_fit = b.guesses_fit;
    destroyed_fits = b.destroyed_fits;
  }

  pub crippled-IsValidPair :
      (me them : Side)
      → leb 2 (unused_rows them) ≡ true
      → IsValidPair n me them
      → IsValidPair n me (crippled them)
  unfolding crippled
  crippled-IsValidPair me them h (mine, (board, found, tricks, trapped), right, theirs) =
      (mine, (crippled-IsBoard them h board, found, tricks, trapped), right, theirs)

  drained-IsValidPair :
      (me them : Side)
      → IsValidPair n me them
      → IsValidPair n me (lose_energy missile_energy them).0
  unfolding lose_energy
  drained-IsValidPair me them v = v

  hurt-IsValidPair :
      (me them : Side)
      → IsValidPair n me them
      → let drained = (lose_energy missile_energy them).0 in
        IsValidPair n me (if leb 2 (unused_rows drained) then crippled drained else drained)
  hurt-IsValidPair me them v =
      let drained = (lose_energy missile_energy them).0 in
      let w = drained-IsValidPair me them v in
      if_cases (IsValidPair n me) (leb 2 (unused_rows drained))
        (λ spare. crippled-IsValidPair me drained spare w) (λ _. w)

  -- A missile that lands keeps the duel valid.
  pub land_missile-IsValid :
      (caster : Seat) (ar : Arena) → IsValid n ar → IsValid n (land_missile caster ar)
  unfolding land_missile
  land_missile-IsValid caster ar v =
      hit-IsValid n caster magic_missile cast_landed tile_zero
        (λ them.
          let drained = (lose_energy missile_energy them).0 in
          if leb 2 (unused_rows drained) then crippled drained else drained)
        ar hurt-IsValidPair v

  pub cripple-IsValid :
      (puzzle : DuelPuzzle) (now : ℕ) (seat : Seat) (req : CastReq) (ar : Arena)
      → leb 2 (unused_rows (side (other_seat seat) ar)) ≡ true
      → IsValid n ar
      → IsValid n (cast puzzle now seat cripple req ar)
  unfolding cast hostile unused_rows
  cripple-IsValid puzzle now first req ar h v =
      let hit_ar = (hostile first cripple cast_used tile_zero ar).0 in
      if_keeps (IsValid n) (not ar.duel.b.shield)
        (put_them n first hit_ar (crippled hit_ar.duel.b)
          (crippled-IsValidPair hit_ar.duel.a hit_ar.duel.b h v))
        v
  cripple-IsValid puzzle now second req ar h v =
      let hit_ar = (hostile second cripple cast_used tile_zero ar).0 in
      if_keeps (IsValid n) (not ar.duel.a.shield)
        (put_them n second hit_ar (crippled hit_ar.duel.a)
          (crippled-IsValidPair hit_ar.duel.b hit_ar.duel.a h (at_seat n second ar v)))
        v

  struck-IsValidBut :
      (me them : Side) (t : Tile)
      → is_some (color_in them.guesses t.row t.col) ≡ true
      → IsValidPair n me them
      → IsValidBut n me (set_effects (λ e. record e { destroyed = t ∷ e.destroyed }) them)
  struck-IsValidBut me them t h (mine, (board, found, tricks, trapped), my_eyes, their_eyes) = (
    mine,
    (
      record {
        letters = board.letters;
        word_length = board.word_length;
        rows_fit = board.rows_fit;
        guesses_fit = board.guesses_fit;
        destroyed_fits =
            (color_in-bounds n them.guesses t.row t.col board.guesses_fit h, board.destroyed_fits);
      },
      found,
      tricks,
      trapped,
    ),
    All-mono (LooksRight them.guesses them.destroyed) (InRange them.guesses) me.eyes
        (LooksRight-InRange them.guesses them.destroyed) my_eyes,
    their_eyes,
  )

  pub slash-IsValid :
      (puzzle : DuelPuzzle) (now : ℕ) (seat : Seat) (req : CastReq) (ar : Arena)
      → is_some (color_at (side (other_seat seat) ar) (req_tile req)) ≡ true
      → IsValid n ar
      → IsValid n (cast puzzle now seat slash req ar)
  unfolding cast hostile cast_event tell color_at color_in
  slash-IsValid puzzle now first req ar h v =
      let hit_ar = (hostile first slash cast_used (req_tile req) ar).0 in
      if_keeps (IsValid n) (not ar.duel.b.shield)
        (reaim_them-IsValid n now first hit_ar _
          (struck-IsValidBut hit_ar.duel.a hit_ar.duel.b (req_tile req) h v))
        v
  slash-IsValid puzzle now second req ar h v =
      let hit_ar = (hostile second slash cast_used (req_tile req) ar).0 in
      if_keeps (IsValid n) (not ar.duel.a.shield)
        (reaim_them-IsValid n now second hit_ar _
          (struck-IsValidBut hit_ar.duel.b hit_ar.duel.a (req_tile req) h (at_seat n second ar v)))
        v

  pub seeing_eye-IsValid :
      (puzzle : DuelPuzzle) (now : ℕ) (seat : Seat) (req : CastReq) (ar : Arena)
      → IsValid n ar
      → IsValid n (cast puzzle now seat seeing_eye req ar)
  unfolding cast send_eyes tell
  seeing_eye-IsValid puzzle now seat req ar v =
      let hit_ar = (hostile seat seeing_eye cast_used tile_zero ar).0 in
      let w = hostile-IsValid n seat seeing_eye cast_used tile_zero ar v in
      let (mine, theirs, my_eyes, their_eyes) = at_seat n seat hit_ar w in
      let me = side seat hit_ar in
      let them = side (other_seat seat) hit_ar in
      let fresh : Eye = record { at = tile_zero; on = false; next = 0 } in
      if_keeps (IsValid n) (hostile seat seeing_eye cast_used tile_zero ar).1
        (put_me n seat hit_ar _ (
          mine,
          theirs,
          All-append (LooksRight them.guesses them.destroyed) me.eyes _ my_eyes
              (λ on. (aim_eye-IsFree now me.eyes them fresh hit_ar.rng on).0, tt),
          their_eyes,
        ))
        w
