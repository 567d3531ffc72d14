-- ===== src/Game/Message.antt =====
-- The messages of a duel that the server sends (internal/protocol/protocol.go). Durations are in
-- nanoseconds where the source sends seconds or milliseconds; ratings travel with the duel's end
-- in Game.Ending.
use nytrpg.Prelude.{Bool, List, [], false, ℕ, ℤ, ◌&&◌, ◌==◌}
use nytrpg.Classes.{AbilityId, ClassId}
use nytrpg.Text.{Text}
use nytrpg.Wordle.Score.{Color}

-- A letter in a board, by guess and position (`tile` of internal/game/abilities.go).
pub record Tile : Type 0 where
  pub row : ℕ
  pub col : ℕ

abbrev pub tile_zero : Tile
tile_zero = record { row = 0; col = 0 }

abbrev pub tile_eq : Tile → Tile → Bool
tile_eq s t = s.row == t.row && s.col == t.col

pub data WordleStatus : Type 0 where
  in_game win lose : WordleStatus

pub record WordleRes : Type 0 where
  pub valid : Bool
  pub status : WordleStatus
  pub colors : List Color
  pub seconds : ℕ
  pub blocked : Bool

-- The result of a guess that was not taken.
abbrev pub not_taken : WordleRes
not_taken = record { valid = false; status = in_game; colors = []; seconds = 0; blocked = false }

pub data CastKind : Type 0 where
  cast_used cast_landed cast_fizzled cast_triggered : CastKind

-- DuelCast
pub record CastEvent : Type 0 where
  pub by_you : Bool
  pub ability : AbilityId
  pub kind : CastKind
  pub blocked : Bool
  pub tile : Tile

-- DuelSideState
pub record SideState : Type 0 where
  pub energy : ℕ
  pub rows : ℕ
  pub guesses : ℕ
  pub stunned : ℕ
  pub shield : Bool
  pub eyes : ℕ
  pub missiles : List ℤ
  pub illusion : Bool
  pub used : List AbilityId
  pub silenced : ℕ
  pub scrambled_guesses : ℕ
  pub keymap : Text
  pub cheat_ready : Bool
  pub feint_ready : Bool

pub data PrayerKind : Type 0 where
  prayer_minor prayer_major : PrayerKind

pub data DivineFate : Type 0 where
  clean_slate new_word sudden_death revelation fortune : DivineFate

-- What a prayer's message says of it: `DuelPrayer` with Pending, Failed and Refunded, or an answer.
pub data PrayerNews : Type 0 where
  pending answered : PrayerNews
  failed : ℕ → PrayerNews

pub data EndReason : Type 0 where
  solved out_of_guesses forfeit disconnect time_up : EndReason

pub data DuelOutcome : Type 0 where
  duel_win duel_lose duel_draw : DuelOutcome

pub data Msg : Type 0 where
  -- the opponent's class, the length of the words, the rows, ranked
  duel_start : ClassId → ℕ → ℕ → Bool → Msg
  duel_guess : WordleRes → Msg
  duel_opponent_guess : List Color → Msg
  duel_typing : ℕ → Msg
  duel_state : SideState → SideState → ℕ → Msg
  duel_cast : CastEvent → Msg
  duel_board : Bool → List (List Color) → Msg
  duel_scry : Text → Bool → Msg
  duel_eyes : List (Tile × ℕ) → Msg
  duel_reshape_options : List Text → Msg
  illusion_start : ℕ → ℕ → Msg
  illusion_guess : WordleRes → Msg
  -- won, the solution, the energy lost, purified
  illusion_end : Bool → Text → ℕ → Bool → Msg
  duel_pickpocket : Tile → ℕ → Msg
  duel_prayer : ℕ → PrayerKind → PrayerNews → Msg
  duel_divine : DivineFate → Msg
  duel_guess_removed : Bool → ℕ → Msg
  duel_reveal : ℕ → ℕ → Msg
