-- ===== src/Accounts/Characters/Slots.antt =====
-- A slot holds one live character at most, and a deleted character frees its slot
-- (internal/characters/characters.go, internal/store/characters.go).
use nytrpg.Prelude.{
  All, All-append, All-mono, Bool, Bool-cases, List, Option, [], any, arith, false, first_not,
  if◌then◌else◌, inl, inr, length, ltb, map, negsuc, neither, none, not, pos, refl, rest_not, some,
  ℕ, ℤ, ◌&&◌, ◌++◌, ◌+◌, ◌<◌, ◌==◌, ◌||◌, ◌∙◌, ◌∷◌, ◌≡◌,
}
use nytrpg.Accounts.Characters.{
  Request, Response, Row, Table, character_slots, create, created_or_taken, delete_by_id,
  delete_character, delete_id, get_list, handle_request, holds, insert_at, insert_character,
  is_known, is_own, mark_deleted, max_name_len, new_row, other_method, post_create, slot_of,
}
use nytrpg.Classes.{ClassId}
use nytrpg.Game.Duel.Invariant.{if_cases, if_keeps}
use nytrpg.Text.{Text}

-- Two live rows of one player in one slot.
abbrev clashes : Row → Row → Bool
clashes r s = not r.is_deleted && holds r.player_id r.slot s

abbrev NoClash : List Row → Type 0
NoClash [] = Unit
NoClash (r ∷ rs) = (any (clashes r) rs ≡ false) × NoClash rs

-- The ids of the rows grow, so that none is there twice.
abbrev Increasing : List Row → Type 0
Increasing [] = Unit
Increasing (r ∷ rs) = All (λ s. r.id < s.id) rs × Increasing rs

-- Slots are the schema's, no id is there twice and each is below the next one, and no slot is held
-- twice.
pub record IsTable (tab : Table) : Type 0 where
  pub slots_within : All (λ r. r.slot < character_slots) tab.rows
  pub ids_below : All (λ r. r.id < tab.next_row) tab.rows
  pub increasing : Increasing tab.rows
  pub apart : NoClash tab.rows

pub any-append :
    (p : Row → Bool) (xs : List Row) (y : Row) → any p (xs ++ y ∷ []) ≡ (any p xs || p y)
any-append p [] y = ground arith
any-append p (x ∷ xs) y = ground (arith, any-append p xs y)

NoClash-append :
    (pid slot id : ℕ) (name : Text) (class : ClassId) (rs : List Row)
    → any (holds pid slot) rs ≡ false
    → NoClash rs
    → NoClash (rs ++ new_row id pid slot name class ∷ [])
NoClash-append pid slot id name class [] h v = (refl, tt)
NoClash-append pid slot id name class (r ∷ rs) h v = (
  any-append (clashes r) rs (new_row id pid slot name class) ∙ ground (arith, v.0, h),
  NoClash-append pid slot id name class rs (ground (arith, h)) v.1,
)

clashes-marked :
    (pid id : ℕ) (r s : Row)
    → clashes r s ≡ false
    → clashes (mark_deleted pid id r) (mark_deleted pid id s) ≡ false
clashes-marked pid id r s h =
    if_keeps (λ (x : Row). clashes x (mark_deleted pid id s) ≡ false) (is_own pid id r)
      (ground arith)
      (if_keeps (λ (y : Row). clashes r y ≡ false) (is_own pid id s) (ground arith) h)

-- Marking rows as deleted lets none clash that did not.
any-marked :
    (pid id : ℕ) (r : Row) (rs : List Row)
    → any (clashes r) rs ≡ false
    → any (clashes (mark_deleted pid id r)) (map (mark_deleted pid id) rs) ≡ false
any-marked pid id r [] h = refl
any-marked pid id r (s ∷ rs) h =
    neither (clashes-marked pid id r s (first_not (clashes r s) (any (clashes r) rs) h))
      (any-marked pid id r rs (rest_not (clashes r s) (any (clashes r) rs) h))

NoClash-marked : (pid id : ℕ) (rs : List Row) → NoClash rs → NoClash (map (mark_deleted pid id) rs)
NoClash-marked pid id [] v = tt
NoClash-marked pid id (r ∷ rs) v = (any-marked pid id r rs v.0, NoClash-marked pid id rs v.1)

All-marked :
    (P : ℕ → ℕ → Type 0) (pid id : ℕ) (rs : List Row)
    → All (λ r. P r.slot r.id) rs
    → All (λ r. P r.slot r.id) (map (mark_deleted pid id) rs)
All-marked P pid id [] v = tt
All-marked P pid id (r ∷ rs) v =
    (if_keeps (λ (x : Row). P x.slot x.id) (is_own pid id r) v.0 v.0, All-marked P pid id rs v.1)

Increasing-marked :
    (pid id : ℕ) (rs : List Row) → Increasing rs → Increasing (map (mark_deleted pid id) rs)
Increasing-marked pid id [] v = tt
Increasing-marked pid id (r ∷ rs) v =
    let above = All-marked (λ slot i. r.id < i) pid id rs v.0 in
    (
      if_keeps (λ (x : Row). All (λ s. x.id < s.id) (map (mark_deleted pid id) rs))
          (is_own pid id r) above above,
      Increasing-marked pid id rs v.1,
    )

Increasing-append :
    (rs : List Row) (r : Row)
    → All (λ s. s.id < r.id) rs
    → Increasing rs
    → Increasing (rs ++ r ∷ [])
Increasing-append [] r below v = (tt, tt)
Increasing-append (q ∷ rs) r below v = (
  All-append (λ s. q.id < s.id) rs (r ∷ []) v.0 (below.0, tt),
  Increasing-append rs r below.1 v.1,
)

delete_character-IsTable :
    (pid id : ℕ) (tab : Table) → IsTable tab → IsTable (delete_character pid id tab).1
unfolding delete_character
delete_character-IsTable pid id tab v = record {
  slots_within = All-marked (λ slot i. slot < character_slots) pid id tab.rows v.slots_within;
  ids_below = All-marked (λ slot i. i < tab.next_row) pid id tab.rows v.ids_below;
  increasing = Increasing-marked pid id tab.rows v.increasing;
  apart = NoClash-marked pid id tab.rows v.apart;
}

insert_character-IsTable :
    (pid slot : ℕ) (name : Text) (class : ClassId) (tab : Table)
    → slot < character_slots
    → IsTable tab
    → IsTable (created_or_taken (insert_character pid slot name class tab) tab).1
unfolding insert_character
insert_character-IsTable pid slot name class tab small v =
    if_cases (λ (o : Option (Row × Table)). IsTable (created_or_taken o tab).1)
      (any (holds pid slot) tab.rows) (λ taken. v)
      (λ is_free. record {
        slots_within =
            All-append (λ r. r.slot < character_slots) tab.rows
              (new_row tab.next_row pid slot name class ∷ []) v.slots_within (small, tt);
        ids_below =
            All-append (λ r. r.id < tab.next_row + 1) tab.rows
              (new_row tab.next_row pid slot name class ∷ [])
              (All-mono (λ r. r.id < tab.next_row) (λ r. r.id < tab.next_row + 1) tab.rows
                (λ r h. omega (arith, h)) v.ids_below)
              (omega arith, tt);
        increasing =
            Increasing-append tab.rows (new_row tab.next_row pid slot name class) v.ids_below
              v.increasing;
        apart = NoClash-append pid slot tab.next_row name class tab.rows is_free v.apart;
      })

module _ (trim : Text → Text) where
  insert_at-IsTable :
      (ok : Bool) (pid : ℕ) (slot : ℤ) (name : Text) (class : ClassId) (tab : Table)
      → IsTable tab
      → IsTable (insert_at ok pid (slot_of slot) name class tab).1
  insert_at-IsTable ok pid (negsuc n) name class tab v = v
  insert_at-IsTable ok pid (pos n) name class tab v = elim (Bool-cases (ltb n character_slots)) [
    | inl small ↦
        rw (small, if◌then◌else◌)
          (if_keeps (λ (p : Response × Table). IsTable p.1) ok
            (insert_character-IsTable pid n name class tab (ground arith) v) v)
    | inr big ↦ rw (big, if◌then◌else◌) v
  ]

  -- Every request, granted or refused, leaves a table in which slots are 0 to 3, ids increase from row
  -- to row, so that no two rows have one, and lie below the next one, and no player has two live
  -- characters in one slot, if it was so before.
  pub handle_request-IsTable :
      (ok : Bool) (p : Option ℕ) (req : Request) (tab : Table)
      → IsTable tab
      → IsTable (handle_request trim ok p req tab).1
  unfolding handle_request create delete_by_id
  handle_request-IsTable ok none req tab v = v
  handle_request-IsTable ok (some pid) get_list tab v =
      if_keeps (λ (p : Response × Table). IsTable p.1) ok v v
  handle_request-IsTable ok (some pid) (post_create none) tab v = v
  handle_request-IsTable ok (some pid) (post_create (some req)) tab v =
      let name = trim req.name in
      if_keeps (λ (p : Response × Table). IsTable p.1)
        (length name == 0 || ltb max_name_len (length name)) v
        (if_keeps (λ (p : Response × Table). IsTable p.1) (not (is_known req.class)) v
          (insert_at-IsTable ok pid req.slot name req.class tab v))
  handle_request-IsTable ok (some pid) (delete_id none) tab v = v
  handle_request-IsTable ok (some pid) (delete_id (some id)) tab v =
      let left = delete_character-IsTable pid id tab v in
      if_keeps (λ (p : Response × Table). IsTable p.1) (not ok) v
        (if_keeps (λ (p : Response × Table). IsTable p.1) (delete_character pid id tab).0 left left)
  handle_request-IsTable ok (some pid) other_method tab v = v
