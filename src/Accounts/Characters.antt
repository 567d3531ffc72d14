-- ===== src/Accounts/Characters.antt =====
-- An account's characters: the SQL table (internal/store/characters.go) as the list of its rows, in the
-- order of their ids, and the HTTP handlers over it (internal/characters/characters.go). The player of a
-- request's token, its decoded body and `strings.TrimSpace` are arguments, and so is whether the
-- database answers. Ids are given out by the table and are never used again.
pub mod Slots
pub mod Playing
use nytrpg.Prelude.{
  Bool, List, Option, [], any, false, if◌then◌else◌, keep, length, ltb, map, negsuc, none, not, pos,
  replicate, set, some, true, ℕ, ℤ, ◌&&◌, ◌++◌, ◌+◌, ◌==◌, ◌||◌, ◌∷◌,
}
use nytrpg.Classes.{ClassId, other}
use nytrpg.Text.{Text}

-- store.Character
pub record Row : Type 0 where
  pub id : ℕ
  pub player_id : ℕ
  pub slot : ℕ
  pub name : Text
  pub class : ClassId
  pub is_deleted : Bool

pub record Table : Type 0 where
  pub rows : List Row
  pub next_row : ℕ

abbrev pub character_slots : ℕ
character_slots = 4

-- A player's live rows.
abbrev pub is_live : ℕ → Row → Bool
is_live pid r = r.player_id == pid && not r.is_deleted

-- `Store.Characters`, by the slots that they are shown in.
abbrev pub characters : ℕ → Table → List Row
characters pid t = keep (is_live pid) t.rows

-- `Store.CharacterByID`
abbrev pub character_by_id : ℕ → List Row → Option Row
character_by_id id [] = none
character_by_id id (r ∷ rs) = if r.id == id then some r else character_by_id id rs

-- Whether a live row of the player has the slot: what the unique index asks.
abbrev pub holds : ℕ → ℕ → Row → Bool
holds pid slot r = is_live pid r && r.slot == slot

abbrev pub new_row : ℕ → ℕ → ℕ → Text → ClassId → Row
new_row id pid slot name class = record {
  id = id;
  player_id = pid;
  slot = slot;
  name = name;
  class = class;
  is_deleted = false;
}

-- `Store.InsertCharacter` into a slot that the schema allows; `none` is a slot that is taken.
unfoldable pub insert_character : ℕ → ℕ → Text → ClassId → Table → Option (Row × Table)
insert_character pid slot name class t =
    let r = new_row t.next_row pid slot name class in
    if any (holds pid slot) t.rows
    then none
    else some (r, record { rows = t.rows ++ r ∷ []; next_row = t.next_row + 1 })

-- The row that `DeleteCharacter` updates.
abbrev pub is_own : ℕ → ℕ → Row → Bool
is_own pid id r = r.id == id && is_live pid r

abbrev pub mark_deleted : ℕ → ℕ → Row → Row
mark_deleted pid id r = if is_own pid id r then record r { is_deleted = true } else r

-- `Store.DeleteCharacter`
unfoldable pub delete_character : ℕ → ℕ → Table → Bool × Table
delete_character pid id t =
    (any (is_own pid id) t.rows, record t { rows = map (mark_deleted pid id) t.rows })

-- `createReq`
pub record CreateReq : Type 0 where
  pub slot : ℤ
  pub name : Text
  pub class : ClassId

-- A request's method, with what is decoded of it.
pub data Request : Type 0 where
  get_list : Request
  post_create : Option CreateReq → Request
  delete_id : Option ℕ → Request
  other_method : Request

-- The responses, and `http.Error` with its status.
pub data Response : Type 0 where
  slots_of : List (Option Row) → Response
  created : Row → Response
  no_content : Response
  http_error : ℕ → Response

abbrev pub max_name_len : ℕ
max_name_len = 20

abbrev pub fill_slots : List Row → List (Option Row) → List (Option Row)
fill_slots [] slots = slots
fill_slots (r ∷ rs) slots = fill_slots rs (set slots r.slot (some r))

abbrev pub is_known : ClassId → Bool
is_known other = false
is_known _ = true

-- 0 <= slot < CharacterSlots
abbrev pub slot_of : ℤ → Option ℕ
slot_of (pos n) = if ltb n character_slots then some n else none
slot_of (negsuc n) = none

abbrev pub created_or_taken : Option (Row × Table) → Table → Response × Table
created_or_taken none t = (http_error 409, t)
created_or_taken (some (r, t')) t = (created r, t')

abbrev pub insert_at : Bool → ℕ → Option ℕ → Text → ClassId → Table → Response × Table
insert_at ok pid none name class t = (http_error 400, t)
insert_at ok pid (some slot) name class t =
    if ok then created_or_taken (insert_character pid slot name class t) t else (http_error 500, t)

module _ (trim : Text → Text) where
  -- `create`
  unfoldable pub create : Bool → ℕ → Option CreateReq → Table → Response × Table
  unfolding insert_character
  create ok pid none t = (http_error 400, t)
  create ok pid (some req) t =
      let name = trim req.name in
      if length name == 0 || ltb max_name_len (length name)
      then (http_error 400, t)
      else if not (is_known req.class)
      then (http_error 400, t)
      else insert_at ok pid (slot_of req.slot) name req.class t

  -- `delete`
  unfoldable pub delete_by_id : Bool → ℕ → Option ℕ → Table → Response × Table
  unfolding delete_character
  delete_by_id ok pid none t = (http_error 400, t)
  delete_by_id ok pid (some id) t =
      let (found, left) = delete_character pid id t in
      if not ok
      then (http_error 500, t)
      else if found
      then (no_content, left)
      else (http_error 404, left)

  -- `Handle`, of a request with a token's player or without.
  unfoldable pub handle_request : Bool → Option ℕ → Request → Table → Response × Table
  unfolding create delete_by_id
  handle_request ok none req t = (http_error 401, t)
  handle_request ok (some pid) get_list t =
      if ok
      then (slots_of (fill_slots (characters pid t) (replicate character_slots none)), t)
      else (http_error 500, t)
  handle_request ok (some pid) (post_create req) t = create ok pid req t
  handle_request ok (some pid) (delete_id id) t = delete_by_id ok pid id t
  handle_request ok (some pid) other_method t = (http_error 405, t)

abbrev pub playable_row : ℕ → Option Row → Option Row
playable_row pid none = none
playable_row pid (some r) = if is_live pid r then some r else none

-- `Playable`, where the database answers.
unfoldable pub playable : ℕ → ℕ → Table → Option Row
playable pid id t = playable_row pid (character_by_id id t.rows)
