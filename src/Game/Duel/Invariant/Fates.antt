-- ===== src/Game/Duel/Invariant/Fates.antt =====
-- Prayers, Purify and Divine Intervention keep a duel valid (internal/game/cleric.go).
use nytrpg.Prelude.{
  All-mono, List, Option, Rng, [], any, ap, arith, false, intn, is_empty, leb, length,
  length-replicate, none, not, refl, some, subst, suc, sym, zero, ℕ, ◌++◌, ◌+◌, ◌||◌, ◌∙◌, ◌≡◌,
}
use nytrpg.Classes.{AbilityId, purify}
use nytrpg.Game.Duel.{
  Arena, DuelPuzzle, Seat, cast_event, first, other_seat, put, put_duel, second, side, tell,
  with_rng,
}
use nytrpg.Game.Duel.Cleric.{
  ask, cleansed, dispel, divine_try, divine_word, fate_of, fulfil, intervene, is_minor, max_prayers,
  new_words, pray, proclaim, purify_side, rescore, rescore_rows, restarted, send_boards,
  taken_words, text_in, unanswered, wipe, wiped,
}
use nytrpg.Game.Duel.Eyes.{aim_eyes, reaim_eyes, send_eyes}
use nytrpg.Game.Duel.Eyes.Sight.{AllLookRight, LooksRight, aim_where-LooksRight}
use nytrpg.Game.Duel.Invariant.{
  IsLawful, IsValid, IsValidPair, at_seat, if_cases, if_keeps, put_me, put_them,
}
use nytrpg.Game.Duel.Invariant.Clerics.{rescore-InRange, rescore-IsValidSide}
use nytrpg.Game.Duel.Invariant.Eyes.{
  AllInRange, InRange, LooksRight-InRange, All-lost_or_right, any-false, is_lost, reaim-IsValid,
  right_of_none_lost,
}
use nytrpg.Game.Message.{
  DivineFate, PrayerKind, cast_used, clean_slate, duel_prayer, fortune, new_word, pending,
  revelation, sudden_death, tile_zero,
}
use nytrpg.Game.Side.{Eye, Illusion, Side, set_effects}
use nytrpg.Game.Side.Invariant.{IsValidSide, IsValidWord, relearn-board}
use nytrpg.Text.{Text}

module _ (n : ℕ) where
  pub unanswered-IsValid :
      (seat : Seat) (id : ℕ) (k : PrayerKind) (cost : ℕ) (ar : Arena)
      → IsValid n ar
      → IsValid n (unanswered seat id k cost ar)
  unfolding unanswered tell
  unanswered-IsValid seat id k cost ar v = put_me n seat ar _ (at_seat n seat ar v)

  ask-IsValid :
      (seat : Seat) (k : PrayerKind) (ar : Arena) → IsValid n ar → IsValid n (ask seat k ar)
  unfolding ask
  ask-IsValid seat k ar v = if_keeps (IsValid n) (is_minor k) v v

  pub pray-IsValid :
      (seat : Seat) (i : AbilityId) (k : PrayerKind) (cost : ℕ) (ar : Arena)
      → IsValid n ar
      → IsValid n (pray seat i k cost ar)
  unfolding pray cast_event tell
  pray-IsValid seat i k cost ar v =
      let told : Arena = tell seat (duel_prayer (ar.next_prayer + 1) k pending) (
        cast_event seat i cast_used false tile_zero
          (record ar { next_prayer = ar.next_prayer + 1 })) in
      let w = ask-IsValid seat k told v in
      if_keeps (IsValid n) (not ar.oracle || leb max_prayers (length ar.prayers))
        (unanswered-IsValid seat (ar.next_prayer + 1) k cost (ask seat k told) w) w

  pub dispel-duel :
      (seat : Seat) (o : Option Illusion) (ar : Arena) → (dispel seat o ar).duel ≡ ar.duel
  unfolding dispel tell
  dispel-duel seat none ar = refl
  dispel-duel seat (some i) ar = refl

  dispel-IsValid :
      (seat : Seat) (o : Option Illusion) (ar : Arena) → IsValid n ar → IsValid n (dispel seat o ar)
  dispel-IsValid seat o ar v = rw (dispel-duel seat o ar) v

  -- Purify keeps the duel valid.
  pub purify-IsValid : (seat : Seat) (ar : Arena) → IsValid n ar → IsValid n (purify_side seat ar)
  unfolding purify_side cleansed cast_event tell send_eyes
  purify-IsValid seat ar v =
      let event_ar = cast_event seat purify cast_used false tile_zero ar in
      let me = side seat ar in
      let (mine, theirs, my_eyes, their_eyes) = at_seat n seat ar v in
      let (board, found, tricks, trapped) = mine in
      let cleared = put seat (cleansed me) event_ar in
      let freed = dispel seat me.illusion cleared in
      let w = dispel-IsValid seat me.illusion cleared (
        put_me n seat event_ar (cleansed me) (
          (
            board,
            found,
            record { feint_fits = tricks.feint_fits; false_fits = tt; scramble = refl },
            (tt, trapped.1),
          ),
          theirs,
          my_eyes,
          their_eyes,
        )) in
      let (mine', theirs', my_eyes', their_eyes') = at_seat n seat freed w in
      if_keeps (IsValid n) (is_empty (side (other_seat seat) freed).eyes) w (
        put_them n seat freed
          (set_effects (λ e. record e { eyes = [] }) (side (other_seat seat) freed))
          (mine', theirs', my_eyes', tt))

  divine_try-IsValidWord :
      (puzzle : DuelPuzzle) (tries : ℕ) (taken : List Text) (w : Text) (r : Rng)
      → IsLawful n puzzle
      → IsValidWord n w
      → IsValidWord n (divine_try puzzle tries taken w r).0
  unfolding divine_try
  divine_try-IsValidWord puzzle zero taken w r law h = h
  divine_try-IsValidWord puzzle (suc tries) taken w r law h =
      let next = puzzle.new_word r in
      if_keeps (λ (p : Text × Rng). IsValidWord n p.0) (text_in next.0 taken)
        (divine_try-IsValidWord puzzle tries taken w next.1 law h)
        (law.new_word_letters r, law.new_word_length r)

  -- Scored again, each side has eyes that are only in range; both are moved.
  abbrev HalfValid : Arena → Type 0
  HalfValid ar =
      IsValidSide n ar.duel.a
      × IsValidSide n ar.duel.b
      × AllLookRight ar.duel.a.eyes ar.duel.b
      × AllInRange ar.duel.b.eyes ar.duel.a

  reaim_first-HalfValid :
      (now : ℕ) (ar : Arena)
      → IsValidSide n ar.duel.a
      → IsValidSide n ar.duel.b
      → AllInRange ar.duel.a.eyes ar.duel.b
      → AllInRange ar.duel.b.eyes ar.duel.a
      → HalfValid (reaim_eyes now first ar)
  unfolding reaim_eyes aim_eyes send_eyes tell
  reaim_first-HalfValid now ar va vb ra rb =
      let b = ar.duel.b in
      let es = ar.duel.a.eyes in
      if_cases HalfValid (any (is_lost b) es)
        (λ _. (
          va,
          vb,
          aim_where-LooksRight now (is_lost b) b [] es ar.rng tt (All-lost_or_right b es ra),
          rb,
        ))
        (λ none_lost. (va, vb, right_of_none_lost b es ra (any-false (is_lost b) es none_lost), rb))

  reaim_both-IsValid :
      (now : ℕ) (ar : Arena)
      → IsValidSide n ar.duel.a
      → IsValidSide n ar.duel.b
      → AllInRange ar.duel.a.eyes ar.duel.b
      → AllInRange ar.duel.b.eyes ar.duel.a
      → IsValid n (reaim_eyes now second (reaim_eyes now first ar))
  reaim_both-IsValid now ar va vb ra rb =
      let (va', vb', ea, rb') = reaim_first-HalfValid now ar va vb ra rb in
      reaim-IsValid n now second (reaim_eyes now first ar) (vb', va', rb', ea)

  wipe-duel :
      (puzzle : DuelPuzzle) (seat : Seat) (ar : Arena)
      → (wipe puzzle seat ar).duel ≡ put_duel seat (wiped puzzle (side seat ar)) ar.duel
  unfolding wipe
  wipe-duel puzzle seat ar =
      ap (put_duel seat (wiped puzzle (side seat ar))) (dispel-duel seat (side seat ar).illusion ar)

  wiped-IsValidSide :
      (puzzle : DuelPuzzle) (s : Side) → IsValidSide n s → IsValidSide n (wiped puzzle s)
  unfolding wiped
  wiped-IsValidSide puzzle s (board, found, tricks, trapped) = (
    record {
      letters = board.letters;
      word_length = board.word_length;
      rows_fit = omega arith;
      guesses_fit = tt;
      destroyed_fits = tt;
    },
    (length-replicate (length s.word) false ∙ board.word_length, refl),
    record { feint_fits = tt; false_fits = tt; scramble = refl },
    (tt, tt),
  )

  wiped_pair :
      (puzzle : DuelPuzzle) (s t : Side)
      → IsValidPair n s t
      → IsValidPair n (wiped puzzle s) (wiped puzzle t)
  unfolding wiped
  wiped_pair puzzle s t (vs, vt, es, et) =
      (wiped-IsValidSide puzzle s vs, wiped-IsValidSide puzzle t vt, tt, tt)

  pub in_range : (es : List Eye) (s : Side) → AllLookRight es s → AllInRange es s
  in_range es s =
      All-mono (LooksRight s.guesses s.destroyed) (InRange s.guesses) es
        (LooksRight-InRange s.guesses s.destroyed)

  pub rescore-eyes :
      (puzzle : DuelPuzzle) (w : Text) (s : Side) → (rescore puzzle w s).eyes ≡ s.eyes
  unfolding rescore
  rescore-eyes puzzle w s =
      (relearn-board (record s { word = w; guesses = rescore_rows puzzle w s.guesses })).2

  new_words-IsValid :
      (puzzle : DuelPuzzle) (now : ℕ) (ar : Arena)
      → IsLawful n puzzle
      → IsValid n ar
      → IsValid n (reaim_eyes now second (reaim_eyes now first (new_words puzzle ar)))
  unfolding new_words divine_word send_boards tell
  new_words-IsValid puzzle now ar law (va, vb, ea, eb) =
      let d = divine_word puzzle ar.duel ar.rng in
      let a = rescore puzzle d.0 ar.duel.a in
      let b = rescore puzzle d.0 ar.duel.b in
      let w =
        divine_try-IsValidWord puzzle 100 (taken_words ar.duel.a ++ taken_words ar.duel.b)
          ar.duel.a.word ar.rng law (va.0.letters, va.0.word_length) in
      reaim_both-IsValid now (new_words puzzle ar)
        (rescore-IsValidSide n puzzle d.0 ar.duel.a law w va)
        (rescore-IsValidSide n puzzle d.0 ar.duel.b law w vb)
        (subst (λ es. AllInRange es b) (sym (rescore-eyes puzzle d.0 ar.duel.a))
          (rescore-InRange n puzzle d.0 ar.duel.b ar.duel.a.eyes law w vb
            (in_range ar.duel.a.eyes ar.duel.b ea)))
        (subst (λ es. AllInRange es a) (sym (rescore-eyes puzzle d.0 ar.duel.b))
          (rescore-InRange n puzzle d.0 ar.duel.a ar.duel.b.eyes law w va
            (in_range ar.duel.b.eyes ar.duel.a eb)))

  restarted-IsValid :
      (puzzle : DuelPuzzle) (now : ℕ) (ar : Arena)
      → IsValid n ar
      → IsValid n (restarted now (wipe puzzle second (wipe puzzle first ar)))
  restarted-IsValid puzzle now ar v =
      rw (wipe-duel puzzle second (wipe puzzle first ar), wipe-duel puzzle first ar)
        (wiped_pair puzzle ar.duel.a ar.duel.b v)

  -- Every fate keeps the duel valid.
  pub fulfil-IsValid :
      (puzzle : DuelPuzzle) (now : ℕ) (fate : DivineFate) (ar : Arena)
      → IsLawful n puzzle
      → IsValid n ar
      → IsValid n (fulfil puzzle now fate ar)
  unfolding fulfil tell
  fulfil-IsValid puzzle now clean_slate ar law v = restarted-IsValid puzzle now ar v
  fulfil-IsValid puzzle now new_word ar law v = new_words-IsValid puzzle now ar law v
  fulfil-IsValid puzzle now sudden_death ar law v = if_keeps (IsValid n) _ v v
  fulfil-IsValid puzzle now revelation ar law v = v
  fulfil-IsValid puzzle now fortune ar law v = v

  -- With a puzzle that keeps its contract, Divine Intervention keeps a valid duel valid, whatever
  -- fate is drawn.
  pub intervene-IsValid :
      (puzzle : DuelPuzzle) (now : ℕ) (ar : Arena)
      → IsLawful n puzzle
      → IsValid n ar
      → IsValid n (intervene puzzle now ar)
  unfolding intervene proclaim tell
  intervene-IsValid puzzle now ar law v =
      let drawn = intn 5 ar.rng in
      fulfil-IsValid puzzle now (fate_of drawn.0) (proclaim (fate_of drawn.0) (with_rng drawn.1 ar))
        law v
