-- ===== src/Server/Owner.antt =====
-- Who is behind a connection (handleWS of internal/server/server.go, with PlayerFromToken of
-- internal/auth/auth.go and Playable of internal/characters/characters.go).
use nytrpg.Prelude.{
  Bool, List, Option, [], ap, arith, false, if◌then◌else◌, negsuc, none, pos, refl, some, subst,
  sym, true, ℕ, ℤ, ◌∙◌, ◌∷◌, ◌≡◌, ◌⊎◌,
}
use nytrpg.Accounts.Auth.{AuthLibrary, player_claimed, player_from_token, verify_token}
use nytrpg.Accounts.Auth.Tokens.{id_of}
use nytrpg.Accounts.Characters.{Row, Table, character_by_id, is_live, playable, playable_row}
use nytrpg.Accounts.Players.{PlayerRow, PlayerTable, player_named, player_named-username}
use nytrpg.Server.{
  Arrival, HubEvent, admit, admit_char, admit_choice, admit_player, admitted, arrives, refused,
}
use nytrpg.Text.{Text}
use nytrpg.Wordle.Leaderboard.Best.{character_by_id-id}

refused_not : {n : ℕ} {p : PlayerRow} {ch : Row} → refused n ≡ admitted p ch → ⊥
refused_not h = cc

admitted_same :
    {p q : PlayerRow} {ch dh : Row} → admitted p ch ≡ admitted q dh → (p ≡ q) × (ch ≡ dh)
admitted_same h = (cc, cc)

playable_row-own :
    (pid : ℕ) (o : Option Row) (ch : Row)
    → playable_row pid o ≡ some ch
    → (o ≡ some ch) × (ch.player_id ≡ pid) × (ch.is_deleted ≡ false)
playable_row-own pid none ch h = cc
playable_row-own pid (some r) ch h =
    let (live, same) = if_some_none (is_live pid r) r ch h in
    subst (λ (x : Row). (some r ≡ some x) × (x.player_id ≡ pid) × (x.is_deleted ≡ false)) same
      (refl, ground (arith, live), ground (arith, live))
  where
    if_some_none :
        (b : Bool) (x y : Row) → (if b then some x else none) ≡ some y → (b ≡ true) × (x ≡ y)
    if_some_none true x y e = (refl, cc)
    if_some_none false x y e = cc

player_claimed-found :
    (lib : AuthLibrary) (secret : Text) (ok : Bool) (o : Option Text) (t : PlayerTable)
    (p : PlayerRow)
    → player_claimed lib secret ok o t ≡ some p
    → (u : Text) × (o ≡ some u) × (player_named u t.rows ≡ some p)
player_claimed-found lib secret ok none t p h = cc
player_claimed-found lib secret true (some u) t p h = (u, refl, h)
player_claimed-found lib secret false (some u) t p h = cc

admit_char-same :
    (q : PlayerRow) (o : Option Row) (p : PlayerRow) (ch : Row)
    → admit_char q o ≡ admitted p ch
    → (q ≡ p) × (o ≡ some ch)
admit_char-same q none p ch h = absurd (refused_not h)
admit_char-same q (some r) p ch h = (cc, cc)

admit_choice-same :
    (ok : Bool) (q : PlayerRow) (o : Option ℤ) (t : Table) (p : PlayerRow) (ch : Row)
    → admit_choice ok q o t ≡ admitted p ch
    → (q ≡ p) × (id : ℕ) × (o ≡ some (pos id)) × (playable q.id id t ≡ some ch)
admit_choice-same ok q none t p ch h = absurd (refused_not h)
admit_choice-same true q (some (pos id)) t p ch h =
    let (same, found) = admit_char-same q (playable q.id id t) p ch h in (same, id, refl, found)
admit_choice-same true q (some (negsuc id)) t p ch h = absurd (refused_not h)
admit_choice-same false q (some id) t p ch h = absurd (refused_not h)

module _ (lib : AuthLibrary) (secret : Text) where
  -- A request to connect that has a token of the player, and asks for a live character of that
  -- player.
  pub record IsProper (a : Arrival) (pid : ℕ) (uname : Text) (ch : Row) : Type 0 where
    pub of_token : verify_token lib secret a.now a.token ≡ some uname
    pub of_account : id_of (player_named uname a.accounts.rows) ≡ some pid
    pub own : ch.player_id ≡ pid
    pub live : ch.is_deleted ≡ false
    pub asked : a.character ≡ some (pos ch.id)
    pub stored : character_by_id ch.id a.chars.rows ≡ some ch

  abbrev pub IsFor : HubEvent → ℕ → Text → Row → Type 0
  IsFor (arrives a) pid uname ch = IsProper a pid uname ch
  IsFor _ pid uname ch = ⊥

  -- One of the events is such a request.
  abbrev pub CameWith : List HubEvent → ℕ → Text → Row → Type 0
  CameWith [] pid uname ch = ⊥
  CameWith (e ∷ es) pid uname ch = IsFor e pid uname ch ⊎ CameWith es pid uname ch

  admit_player-IsProper :
      (a : Arrival) (o : Option PlayerRow) (p : PlayerRow) (ch : Row)
      → player_from_token lib secret a.ok a.now a.token a.accounts ≡ o
      → admit_player a o ≡ admitted p ch
      → IsProper a p.id p.username ch
  unfolding player_from_token playable
  admit_player-IsProper a none p ch token_of h = absurd (refused_not h)
  admit_player-IsProper a (some q) p ch token_of h =
      let (same, id, chosen, found) = admit_choice-same a.ok q a.character a.chars p ch h in
      let (u, named, row) =
        player_claimed-found lib secret a.ok (verify_token lib secret a.now a.token) a.accounts q
          token_of in
      let is_u = player_named-username u a.accounts.rows row in
      let (stored, own, live) = playable_row-own q.id (character_by_id id a.chars.rows) ch found in
      subst (λ (x : PlayerRow). IsProper a x.id x.username ch) same
        (record {
          of_token = named ∙ ap some (sym is_u);
          of_account = ap id_of (ap (λ (v : Text). player_named v a.accounts.rows) is_u ∙ row);
          own = own;
          live = live;
          asked =
              chosen
              ∙ ap (λ (k : ℕ). some (pos k)) (sym (character_by_id-id id a.chars.rows stored));
          stored =
              ap (λ (k : ℕ). character_by_id k a.chars.rows)
                (character_by_id-id id a.chars.rows stored)
              ∙ stored;
        })

  pub admit-IsProper :
      (a : Arrival) (p : PlayerRow) (ch : Row)
      → admit lib secret a ≡ admitted p ch
      → IsProper a p.id p.username ch
  unfolding admit
  admit-IsProper a p ch h =
      admit_player-IsProper a (player_from_token lib secret a.ok a.now a.token a.accounts) p ch refl
        h
