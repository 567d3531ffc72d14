-- ===== src/Game/Duel/Cleric.antt =====
-- The Cleric's abilities: prayers, healing and the gods' whims (internal/game/cleric.go), and
-- `rescore` of internal/game/abilities.go. The texts that the gods proclaim are left out.
use mathlib.Core.Option
-- `MaxPrayers`: prayers waiting on the Oracle at once, across the server.
use nytrpg.Prelude.{
  Bool, List, Option, Rng, [], any, erase_idx, false, get_or, if◌then◌else◌, intn, is_empty, leb,
  length, ltb, map, none, not, pos_part, some, suc, true, zero, ℕ, ◌&&◌, ◌++◌, ◌+◌, ◌-◌, ◌==◌, ◌||◌,
  ◌∷◌,
}
use nytrpg.Classes.{
  AbilityId, ability_cost, divine_intervention, major_prayer, mend, minor_prayer, purify,
}
use nytrpg.Game.Duel.{
  Arena, Duel, DuelPuzzle, Prayer, Seat, cast_event, first, other_seat, put, second, side,
  sync_duel, tell, with_rng,
}
use nytrpg.Game.Duel.Eyes.{aim_eye, reaim_eyes, send_eyes}
use nytrpg.Game.Duel.Rogue.{CastReq}
use nytrpg.Game.Message.{
  DivineFate, PrayerKind, Tile, answered, cast_used, clean_slate, duel_board, duel_divine,
  duel_guess_removed, duel_prayer, duel_reveal, failed, fortune, illusion_end, new_word, pending,
  prayer_major, prayer_minor, revelation, sudden_death, tile_zero,
}
use nytrpg.Game.Side.{
  Eye, GuessRow, Illusion, Side, frac_zero, new_guess_row, new_side_effects, set_effects,
}
use nytrpg.Game.Side.Learn.{relearn}
use nytrpg.Game.Side.State.{visible_colors}
use nytrpg.Text.{Text, text_eq}

abbrev pub max_prayers : ℕ
max_prayers = 4

-- SuddenDeath and EnergyInterval.
abbrev pub sudden_death_time : ℕ
sudden_death_time = 120_000_000_000

abbrev pub energy_interval : ℕ
energy_interval = 30_000_000_000

-- A guess row goes: destroyed letters below it move up.
unfoldable pub shift_destroyed : ℕ → List Tile → List Tile
shift_destroyed row [] = []
shift_destroyed row (t ∷ ts) =
    let rest = shift_destroyed row ts in
    if t.row == row
    then rest
    else (if ltb row t.row then record t { row = t.row - 1 } else t) ∷ rest

abbrev pub is_gone : ℕ → Eye → Bool
is_gone row e = e.on && e.at.row == row

abbrev pub is_below : ℕ → Eye → Bool
is_below row e = e.on && ltb row e.at.row

-- An eye after the row went: it follows its letter up, or looks elsewhere if that went. `others` are
-- the watcher's other eyes, those behind it not moved yet.
unfoldable pub mend_eye : ℕ → ℕ → Side → List Eye → Eye → Rng → Eye
unfolding aim_eye
mend_eye now row target others e r =
    if is_gone row e
    then (aim_eye now others target e r).0
    else if is_below row e
    then record e { at = record { row = e.at.row - 1; col = e.at.col } }
    else e

-- The loop over the eyes: the eyes, the random numbers left, and whether one moved.
unfoldable pub mend_eyes : ℕ → ℕ → Side → List Eye → List Eye → Rng → Bool → List Eye × Rng × Bool
unfolding mend_eye
mend_eyes now row target before [] r moved = (before, r, moved)
mend_eyes now row target before (e ∷ es) r moved =
    mend_eyes now row target (before ++ mend_eye now row target (before ++ es) e r ∷ []) es
      (if is_gone row e then (aim_eye now (before ++ es) target e r).1 else r)
      (moved || is_gone row e || is_below row e)

-- Takes back one of the seat's guesses.
unfoldable pub mend_guess : ℕ → Seat → ℕ → Arena → Arena
unfolding shift_destroyed mend_eyes cast_event tell send_eyes
mend_guess now seat row ar =
    let me = side seat ar in
    let mended =
      set_effects (λ e. record e { destroyed = shift_destroyed row e.destroyed })
        (record me { guesses = erase_idx me.guesses row }) in
    let them = side (other_seat seat) ar in
    let (es, r, moved) = mend_eyes now row mended [] them.eyes ar.rng false in
    let watched = with_rng r (
      put (other_seat seat) (set_effects (λ e. record e { eyes = es }) them)
        (put seat mended ar)) in
    let told = if moved then send_eyes (other_seat seat) watched else watched in
    tell (other_seat seat) (duel_guess_removed false row) (
      tell seat (duel_guess_removed true row)
        (cast_event seat mend cast_used false (record { row = row; col = 0 }) told))

-- A player who is trapped hears that the illusion is over.
unfoldable pub dispel : Seat → Option Illusion → Arena → Arena
unfolding tell
dispel seat none ar = ar
dispel seat (some i) ar = tell seat (illusion_end false i.answer 0 true) ar

-- The curses that can be lifted go. Destroyed letters and lost rows stay.
unfoldable pub cleansed : Side → Side
cleansed = set_effects λ e. record e {
  stunned_until = 0;
  silenced_until = 0;
  keymap = none;
  scrambled_guesses = 0;
  false_next = none;
  missiles = [];
  illusion = none;
}

-- Clears every curse on the seat.
unfoldable pub purify_side : Seat → Arena → Arena
unfolding cast_event dispel send_eyes cleansed
purify_side seat ar =
    let me = side seat ar in
    let cleared = put seat (cleansed me) (cast_event seat purify cast_used false tile_zero ar) in
    let freed = dispel seat me.illusion cleared in
    let them = side (other_seat seat) freed in
    if is_empty them.eyes
    then freed
    else send_eyes (other_seat seat)
        (put (other_seat seat) (set_effects (λ e. record e { eyes = [] }) them) freed)

-- No god answered: the energy comes back.
unfoldable pub unanswered : Seat → ℕ → PrayerKind → ℕ → Arena → Arena
unfolding tell
unanswered seat id k cost ar =
    tell seat (duel_prayer id k (failed cost))
      (put seat (set_effects (λ e. record e { energy = e.energy + cost }) (side seat ar)) ar)

unfoldable pub unfound : ℕ → List Bool → List ℕ
unfound i [] = []
unfound i (found ∷ greens) = let rest = unfound (suc i) greens in if found then rest else i ∷ rest

-- The letter that a minor prayer asks about: one not found in place yet.
unfoldable pub prayer_letter : Side → Rng → ℕ × Rng
unfolding unfound intn
prayer_letter s r =
    let places = unfound 0 s.greens in
    let (i, r') = intn (if is_empty places then length s.word else length places) r in
    (if is_empty places then i else get_or places i 0, r')

abbrev pub is_minor : PrayerKind → Bool
is_minor prayer_minor = true
is_minor prayer_major = false

-- A minor prayer is about a letter: the draw is made, and what it draws is told to the Oracle alone.
unfoldable pub ask : Seat → PrayerKind → Arena → Arena
unfolding prayer_letter
ask seat k ar = if is_minor k then with_rng (prayer_letter (side seat ar) ar.rng).1 ar else ar

-- Sends a prayer. It waits in `prayers` until `prayer_reply`. The slots are counted in this duel, where
-- the source counts the prayers of the whole server.
unfoldable pub pray : Seat → AbilityId → PrayerKind → ℕ → Arena → Arena
unfolding cast_event tell unanswered ask
pray seat i k cost ar =
    let id = ar.next_prayer + 1 in
    let told =
      tell seat (duel_prayer id k pending)
        (cast_event seat i cast_used false tile_zero (record ar { next_prayer = id })) in
    let asked = ask seat k told in
    let prayer : Prayer = record {
      id = id;
      duel = ar.duel.id;
      seat = seat;
      kind = k;
      cost = cost;
      word = (side seat ar).word;
    } in
    if not ar.oracle || leb max_prayers (length ar.prayers)
    then unanswered seat id k cost asked
    else record asked { prayers = ar.prayers ++ prayer ∷ [] }

-- The Oracle's answer comes back, while the duel is still played: `good` if there was no error.
unfoldable pub prayer_reply : ℕ → Prayer → Bool → Arena → Arena
unfolding unanswered sync_duel tell text_eq
prayer_reply now p good ar =
    let refund = sync_duel now (unanswered p.seat p.id p.kind p.cost ar) in
    if not good
    then refund
    else if not (text_eq (side p.seat ar).word p.word)
    then refund
    else tell p.seat (duel_prayer p.id p.kind answered) ar

unfoldable pub rescore_rows : DuelPuzzle → Text → List GuessRow → List GuessRow
rescore_rows puzzle word [] = []
rescore_rows puzzle word (g ∷ gs) =
    new_guess_row g.word (Option.get_or (puzzle.score_any g.word word) [])
    ∷ rescore_rows puzzle word gs

-- The side's word becomes another: every guess is scored again.
unfoldable pub rescore : DuelPuzzle → Text → Side → Side
unfolding rescore_rows relearn
rescore puzzle word s =
    relearn (record s { word = word; guesses = rescore_rows puzzle word s.guesses })

unfoldable pub text_in : Text → List Text → Bool
unfolding text_eq
text_in w ws = any (text_eq w) ws

unfoldable pub divine_try : DuelPuzzle → ℕ → List Text → Text → Rng → Text × Rng
unfolding text_in
divine_try puzzle zero taken word r = (word, r)
divine_try puzzle (suc tries) taken word r =
    let (next, r') = puzzle.new_word r in
    let again = divine_try puzzle tries taken word r' in
    if text_in next taken then again else (next, r')

abbrev pub taken_words : Side → List Text
taken_words s = s.word ∷ map (λ g. g.word) s.guesses

-- A new word for both sides: neither's word, and nothing either has guessed.
unfoldable pub divine_word : DuelPuzzle → Duel → Rng → Text × Rng
unfolding divine_try
divine_word puzzle d r = divine_try puzzle 100 (taken_words d.a ++ taken_words d.b) d.a.word r

-- A side with its guesses, energy and effects gone; the word stays.
unfoldable pub wiped : DuelPuzzle → Side → Side
unfolding new_side_effects
wiped puzzle s = record s {
  guesses = [];
  rows = puzzle.max_guesses;
  best = frac_zero;
  effects = new_side_effects (length s.word);
}

unfoldable pub wipe : DuelPuzzle → Seat → Arena → Arena
unfolding dispel wiped
wipe puzzle seat ar = let s = side seat ar in put seat (wiped puzzle s) (dispel seat s.illusion ar)

unfoldable pub open_columns : ℕ → List Bool → List Bool → List ℕ
open_columns i [] bs = []
open_columns i (a ∷ as') [] = []
open_columns i (a ∷ as') (b ∷ bs) =
    let rest = open_columns (suc i) as' bs in if a || b then rest else i ∷ rest

unfoldable pub send_boards : Seat → Arena → Arena
unfolding tell visible_colors
send_boards seat ar =
    let colors = visible_colors (side seat ar) in
    tell (other_seat seat) (duel_board false colors) (tell seat (duel_board true colors) ar)

unfoldable pub fate_of : ℕ → DivineFate
fate_of zero = clean_slate
fate_of (suc zero) = new_word
fate_of (suc (suc zero)) = sudden_death
fate_of (suc (suc (suc zero))) = revelation
fate_of _ = fortune

-- The fresh duel after both sides are wiped.
abbrev pub restarted : ℕ → Arena → Arena
restarted now ar =
    let d = ar.duel in
    record ar { duel = record d { deadline = 0; next_energy = now + energy_interval } }

-- Both sides get one new word, and both players see both boards.
unfoldable pub new_words : DuelPuzzle → Arena → Arena
unfolding divine_word rescore send_boards
new_words puzzle ar =
    let (word, r) = divine_word puzzle ar.duel ar.rng in
    let a = rescore puzzle word (side first ar) in
    let b = rescore puzzle word (side second ar) in
    send_boards second (send_boards first (put second b (put first a (with_rng r ar))))

-- Both players hear which fate it is.
unfoldable pub proclaim : DivineFate → Arena → Arena
unfolding tell
proclaim fate ar = tell second (duel_divine fate) (tell first (duel_divine fate) ar)

-- What each fate does.
unfoldable pub fulfil : DuelPuzzle → ℕ → DivineFate → Arena → Arena
unfolding wipe new_words reaim_eyes open_columns intn tell
fulfil puzzle now clean_slate ar = restarted now (wipe puzzle second (wipe puzzle first ar))
fulfil puzzle now new_word ar = reaim_eyes now second (reaim_eyes now first (new_words puzzle ar))
fulfil puzzle now sudden_death ar =
    let until = now + sudden_death_time in
    let d = ar.duel in
    if d.deadline == 0 || ltb until d.deadline
    then record ar { duel = record d { deadline = until } }
    else ar
fulfil puzzle now revelation ar =
    let a = side first ar in
    let b = side second ar in
    let places = open_columns 0 a.greens b.greens in
    let (any_col, r1) = intn (length a.word) ar.rng in
    let (i, r2) = intn (length places) r1 in
    let col = if is_empty places then any_col else get_or places i 0 in
    tell second (duel_reveal col (get_or b.word col 0)) (
      tell first (duel_reveal col (get_or a.word col 0))
        (with_rng (if is_empty places then r1 else r2) ar))
fulfil puzzle now fortune ar =
    let a = side first ar in
    let b = side second ar in
    put second (set_effects (λ e. record e { energy = a.energy }) b)
      (put first (set_effects (λ e. record e { energy = b.energy }) a) ar)

-- Divine Intervention: the gods pick a fate for the duel and proclaim it.
unfoldable pub intervene : DuelPuzzle → ℕ → Arena → Arena
unfolding fulfil fate_of intn proclaim
intervene puzzle now ar =
    let (i, r) = intn 5 ar.rng in
    fulfil puzzle now (fate_of i) (proclaim (fate_of i) (with_rng r ar))

-- `castCleric`
unfoldable pub cast_cleric : DuelPuzzle → ℕ → Seat → AbilityId → CastReq → Arena → Arena
unfolding pray mend_guess purify_side intervene cast_event
cast_cleric puzzle now seat minor_prayer req ar =
    let cost = ability_cost (side seat ar).class minor_prayer in
    pray seat minor_prayer prayer_minor (Option.get_or cost 0) ar
cast_cleric puzzle now seat major_prayer req ar =
    let cost = ability_cost (side seat ar).class major_prayer in
    pray seat major_prayer prayer_major (Option.get_or cost 0) ar
cast_cleric puzzle now seat mend req ar = mend_guess now seat (pos_part req.row) ar
cast_cleric puzzle now seat purify req ar = purify_side seat ar
cast_cleric puzzle now seat divine_intervention req ar =
    intervene puzzle now (cast_event seat divine_intervention cast_used false tile_zero ar)
cast_cleric puzzle now seat _ req ar = ar
