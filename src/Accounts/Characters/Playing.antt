-- ===== src/Accounts/Characters/Playing.antt =====
-- A character that was created can be played until it is deleted, and then its slot is free again
-- (internal/characters/characters.go).
use nytrpg.Prelude.{
  ==_iff, All, Bool, List, Option, [], any, ap, arith, false, first_not, if◌then◌else◌, is_some,
  length, ltb, map, negsuc, neither, none, not, pos, refl, rest_not, some, subst, sym, true, ℕ, ℤ,
  ◌&&◌, ◌++◌, ◌+◌, ◌<◌, ◌==◌, ◌||◌, ◌∙◌, ◌∷◌, ◌≡◌, ◌≢◌,
}
use nytrpg.Accounts.Characters.{
  CreateReq, Response, Row, Table, character_by_id, character_slots, create, created,
  created_or_taken, delete_by_id, delete_character, delete_id, handle_request, holds, http_error,
  insert_at, insert_character, is_known, is_own, mark_deleted, max_name_len, new_row, no_content,
  playable, playable_row, post_create, slot_of,
}
use nytrpg.Accounts.Characters.Slots.{IsTable, any-append}
use nytrpg.Classes.{ClassId}
use nytrpg.Game.Duel.Invariant.{if_cases, if_keeps}
use nytrpg.Text.{Text}

past_other :
    (x y : Row) (o : Option Row) (b : Bool)
    → b ≡ false
    → o ≡ some x
    → (if b then some y else o) ≡ some x
past_other x y o true e h = cc
past_other x y o false e h = h

module _ (next pid slot : ℕ) (name : Text) (class : ClassId) where
  abbrev made : Row
  made = new_row next pid slot name class

  abbrev unmade : Row
  unmade = record made { is_deleted = true }

  abbrev AreBelow : List Row → Type 0
  AreBelow rs = All (λ r. r.id < next) rs

  by_id-append : (rs : List Row) → AreBelow rs → character_by_id next (rs ++ made ∷ []) ≡ some made
  by_id-append [] v = ground arith
  by_id-append (r ∷ rs) v = ground (arith, v.0, by_id-append rs v.1)

  marked_made : mark_deleted pid next made ≡ unmade
  marked_made = ground arith

  other_id : (r : Row) → r.id < next → ((mark_deleted pid next r).id == next) ≡ false
  other_id r v =
      if_keeps (λ (x : Row). (x.id == next) ≡ false) (is_own pid next r) (ground arith)
        (ground arith)

  by_id-marked :
      (rs : List Row)
      → AreBelow rs
      → character_by_id next (map (mark_deleted pid next) (rs ++ made ∷ [])) ≡ some unmade
  by_id-marked [] v = rw marked_made (ground arith)
  by_id-marked (r ∷ rs) v =
      past_other unmade (mark_deleted pid next r)
        (character_by_id next (map (mark_deleted pid next) (rs ++ made ∷ [])))
        ((mark_deleted pid next r).id == next) (other_id r v.0) (by_id-marked rs v.1)

  any_own : (rs : List Row) → any (is_own pid next) (rs ++ made ∷ []) ≡ true
  any_own rs = any-append (is_own pid next) rs made ∙ ground arith

  holds-mark :
      (r : Row) → holds pid slot r ≡ false → holds pid slot (mark_deleted pid next r) ≡ false
  holds-mark r h =
      if_keeps (λ (x : Row). holds pid slot x ≡ false) (is_own pid next r) (ground arith) h

  -- No live character of the player is left in the slot.
  holds-marked :
      (rs : List Row)
      → any (holds pid slot) rs ≡ false
      → any (holds pid slot) (map (mark_deleted pid next) (rs ++ made ∷ [])) ≡ false
  holds-marked [] h = rw marked_made (ground arith)
  holds-marked (r ∷ rs) h =
      neither (holds-mark r (first_not (holds pid slot r) (any (holds pid slot) rs) h))
        (holds-marked rs (rest_not (holds pid slot r) (any (holds pid slot) rs) h))

abbrev row_in : Row → Response → Row
row_in d (created r) = r
row_in d _ = d

IsCreated : Response → Type 0
IsCreated (created r) = Unit
IsCreated _ = ⊥

not_created :
    (n : ℕ) (tab tab' : Table) (r : Row)
    → Path (Response × Table) (http_error n, tab) (created r, tab')
    → ⊥
unfolding IsCreated
not_created n tab tab' r h = subst (λ (p : Response × Table). IsCreated p.0) (sym h) tt

-- What `create` did, if it answered with a character.
insert_of :
    (pid slot : ℕ) (name : Text) (class : ClassId) (tab tab' : Table) (r : Row)
    → created_or_taken (insert_character pid slot name class tab) tab ≡ (created r, tab')
    → (any (holds pid slot) tab.rows ≡ false)
      × (new_row tab.next_row pid slot name class ≡ r)
      × (record {
        rows = tab.rows ++ new_row tab.next_row pid slot name class ∷ [];
        next_row = tab.next_row + 1;
      }
          ≡ tab')
unfolding insert_character
insert_of pid slot name class tab tab' r h =
    let new = new_row tab.next_row pid slot name class in
    let left : Table = record { rows = tab.rows ++ new ∷ []; next_row = tab.next_row + 1 } in
    if_cases
      (λ (o : Option (Row × Table)).
        created_or_taken o tab ≡ (created r, tab')
        → (any (holds pid slot) tab.rows ≡ false) × (new ≡ r) × (left ≡ tab'))
      (any (holds pid slot) tab.rows) (λ _ e. elim (not_created 409 tab tab' r e) [ ])
      (λ is_free e. (
        is_free,
        ap (λ (p : Response × Table). row_in new p.0) e,
        ap (λ (p : Response × Table). p.1) e,
      ))
      h

module _ (trim : Text → Text) where
  abbrev Made : ℕ → CreateReq → Table → Row → Table → Type 0
  Made pid req tab r tab' =
      (slot : ℕ) × (created_or_taken (insert_character pid slot (trim req.name) req.class tab) tab
        ≡ (created r, tab'))

  insert_at-Made :
      (pid : ℕ) (req : CreateReq) (tab tab' : Table) (r : Row) (slot : ℤ)
      → insert_at true pid (slot_of slot) (trim req.name) req.class tab ≡ (created r, tab')
      → Made pid req tab r tab'
  insert_at-Made pid req tab tab' r (negsuc n) h = elim (not_created 400 tab tab' r h) [ ]
  insert_at-Made pid req tab tab' r (pos n) h =
      if_cases
        (λ (o : Option ℕ).
          insert_at true pid o (trim req.name) req.class tab ≡ (created r, tab')
          → Made pid req tab r tab')
        (ltb n character_slots) (λ _ e. (n, e)) (λ _ e. elim (not_created 400 tab tab' r e) [ ]) h

  create-Made :
      (pid : ℕ) (req : CreateReq) (tab tab' : Table) (r : Row)
      → handle_request trim true (some pid) (post_create (some req)) tab ≡ (created r, tab')
      → Made pid req tab r tab'
  unfolding handle_request create
  create-Made pid req tab tab' r h =
      let name = trim req.name in
      let Told = λ (p : Response × Table). p ≡ (created r, tab') → Made pid req tab r tab' in
      if_keeps Told (length name == 0 || ltb max_name_len (length name))
        (λ e. elim (not_created 400 tab tab' r e) [ ])
        (if_keeps Told (not (is_known req.class)) (λ e. elim (not_created 400 tab tab' r e) [ ])
          (λ e. insert_at-Made pid req tab tab' r req.slot e))
        h

  -- A character that its player can play, and no other. A request to delete it is granted, after which
  -- it cannot be played and its slot can be taken.
  abbrev pub IsPlayable : ℕ → ℕ → Row → Table → Type 0
  IsPlayable pid other_pid r tab =
      let done = handle_request trim true (some pid) (delete_id (some r.id)) tab in
      (playable pid r.id tab ≡ some r)
      × (playable other_pid r.id tab ≡ none)
      × (done.0 ≡ no_content)
      × (playable pid r.id done.1 ≡ none)
      × ((name : Text) (class : ClassId)
          → is_some (insert_character pid r.slot name class done.1) ≡ true)

  module _ (pid other_pid slot : ℕ) (name : Text) (class : ClassId) (tab : Table) where
    abbrev with_made : Table
    with_made = record {
      rows = tab.rows ++ made tab.next_row pid slot name class ∷ [];
      next_row = tab.next_row + 1;
    }

    abbrev without_made : Table
    without_made = record with_made { rows = map (mark_deleted pid tab.next_row) with_made.rows }

    deleted_made :
        handle_request trim true (some pid) (delete_id (some tab.next_row)) with_made
        ≡ (no_content, without_made)
    unfolding handle_request delete_by_id delete_character
    deleted_made = rw (any_own tab.next_row pid slot name class tab.rows) refl

    free_again :
        any (holds pid slot) tab.rows ≡ false
        → (name' : Text) (class' : ClassId)
        → is_some (insert_character pid slot name' class' without_made) ≡ true
    unfolding insert_character
    free_again is_free name' class' =
        rw (holds-marked tab.next_row pid slot name class tab.rows is_free) refl

    made-IsPlayable :
        IsTable tab
        → other_pid ≢ pid
        → any (holds pid slot) tab.rows ≡ false
        → IsPlayable pid other_pid (made tab.next_row pid slot name class) with_made
    unfolding playable
    made-IsPlayable v differ is_free =
        let row = made tab.next_row pid slot name class in
        let found = by_id-append tab.next_row pid slot name class tab.rows v.ids_below in
        let gone = by_id-marked tab.next_row pid slot name class tab.rows v.ids_below in
        (
          ap (playable_row pid) found ∙ own_row (pid == pid) ((==_iff pid pid).1 refl),
          ap (playable_row other_pid) found ∙ ground (arith, differ),
          ap (λ (p : Response × Table). p.0) deleted_made,
          ap (λ (p : Response × Table). playable pid tab.next_row p.1) deleted_made
              ∙ ap (playable_row pid) gone
              ∙ ground arith,
          λ name' class'.
              ap (λ (p : Response × Table). is_some (insert_character pid slot name' class' p.1))
                deleted_made
              ∙ free_again is_free name' class',
        )
      where
        own_row :
            (b : Bool)
            → b ≡ true
            → (if b && true then some (made tab.next_row pid slot name class) else none)
              ≡ some (made tab.next_row pid slot name class)
        own_row true e = refl
        own_row false e = cc

  -- Once a player is answered that a character was created, in a table as the requests leave it, that
  -- player can play it and no other player can; it can be deleted, and then it cannot be played and
  -- its slot can be taken again.
  pub created-IsPlayable :
      (pid other_pid : ℕ) (req : CreateReq) (tab tab' : Table) (r : Row)
      → IsTable tab
      → other_pid ≢ pid
      → handle_request trim true (some pid) (post_create (some req)) tab ≡ (created r, tab')
      → IsPlayable pid other_pid r tab'
  created-IsPlayable pid other_pid req tab tab' r v differ h =
      let (slot, e) = create-Made pid req tab tab' r h in
      let (is_free, is_r, is_tab) = insert_of pid slot (trim req.name) req.class tab tab' r e in
      subst (λ (t : Table). IsPlayable pid other_pid r t) is_tab
        (subst
          (λ (q : Row).
            IsPlayable pid other_pid q (with_made pid other_pid slot (trim req.name) req.class tab))
          is_r (made-IsPlayable pid other_pid slot (trim req.name) req.class tab v differ is_free))
