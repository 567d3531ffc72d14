-- ===== src/Game/World/Events/Joins.antt =====
-- Players who come and go (internal/game/world.go: Join, Leave).
use nytrpg.Prelude.{
  ==_iff, Bool, List, Option, Option-cases, [], ap, arith, delete, false, if◌then◌else◌, inl, inr,
  insert, is_some, lookup, lookup-insert, lookup-insert_cases, none, refl, some, subst, sym, true,
  ℕ, ◌%◌, ◌++◌, ◌+◌, ◌<◌, ◌==◌, ◌^◌, ◌∙◌, ◌∷◌, ◌≡◌, ◌≢◌, ◌≤◌,
}
use nytrpg.Game.Duel.Invariant.{if_cases}
use nytrpg.Game.Duel.Tick.{tick}
use nytrpg.Game.Lobby.{leave_lobby}
use nytrpg.Game.World.Events.{IsState, IsWorld}
use nytrpg.Game.World.Events.Changes.{leave-IsState}
use nytrpg.Game.World.Grid.{Cells, cell_of, grid_insert}
use nytrpg.Game.World.Invariant.{insert-IsPlaced}
use nytrpg.Game.World.Mirror.{Follows}
use nytrpg.Game.World.Move.{reset_allowance}
use nytrpg.Game.World.Players.{Character, join, leave, leave_player, release_online, spawn_at}
use nytrpg.Game.World.Replicate.Known.{Unique-insert}
use nytrpg.Game.World.Replicate.Picture.{Mirrors, Picture, Shown}
use nytrpg.Game.World.State.{
  Entity, Player, Sent, World, new_entity, remove_entity, remove_stored, welcome,
}
use nytrpg.Game.World.Watch.{nothing_shown, watch, watch-append}
use nytrpg.Ranked.Elo.{Rating}
use nytrpg.Text.{Text}

unknown-Mirrors :
    (k : Option ℕ) (o o' : Option Entity) (s : Shown) → k ≡ none → Mirrors k o s → Mirrors k o' s
unknown-Mirrors none o o' s e h = h
unknown-Mirrors (some t) o o' s e h = cc

-- A new player with a new entity.
enter-IsState :
    (tick next : ℕ) (entities : List (ℕ × Entity)) (cells : Cells) (players : List (ℕ × Player))
    (outbox : List (ℕ × Sent)) (c : ℕ) (p : Player) (e : Entity)
    → IsState tick next entities cells players outbox
    → p.ent ≡ next + 1
    → p.known ≡ []
    → e.cell ≡ cell_of e.at
    → IsState tick
        (next + 1)
        (insert (next + 1) e entities)
        (grid_insert (next + 1) e.cell cells)
        (insert c p players)
        (outbox ++ (c, welcome (next + 1) e.at e.elo) ∷ [])
unfolding watch
enter-IsState tick next entities cells players outbox c p e v new none_known right =
    let id = next + 1 in
    let fresh : lookup id entities ≡ none = elim (Option-cases (lookup id entities)) [
      | inl gone ↦ gone
      | inr (f, stored) ↦ elim (below_not (v.below id f stored)) [ ]
    ] in
    let clear = λ (d : ℕ) (q : Player) (there : lookup d players ≡ some q) (same : q.ent ≡ p.ent).
      elim (Option-cases (lookup q.ent entities)) as (λ _. ⊥) [
        | inl gone ↦ none_not (lookup q.ent entities) gone (v.owns d q there)
        | inr (f, stored) ↦
            below_not (subst (λ (i : ℕ). i ≤ next) (same ∙ new) (v.below q.ent f stored))
      ] in
    record {
      placed = insert-IsPlaced id e entities cells v.placed right fresh;
      below = λ j f h. elim (lookup-insert_cases id j e f entities h) [
        | inl (same, _) ↦ omega (arith, same)
        | inr (_, there) ↦ omega (arith, v.below j f there)
      ];
      unique = Unique-insert c p players v.unique;
      owns = λ d q h. rw (lookup-insert id q.ent e entities) (
          if_cases (λ (o : Option Entity). is_some o ≡ true) (id == q.ent) (λ _. refl)
            (λ other_id. elim (lookup-insert_cases c d p q players h) [
              | inl (_, same) ↦
                  elim (id_not (id == q.ent) other_id
                    ((==_iff id q.ent).1 (sym new ∙ ap (λ (r : Player). r.ent) same))) [ ]
              | inr (_, there) ↦ v.owns d q there
            ]));
      apart = λ d d' q r h k same. elim (lookup-insert_cases c d p q players h) [
        | inl (at, is_p) ↦ elim (lookup-insert_cases c d' p r players k) [
          | inl (at', _) ↦ sym at ∙ at'
          | inr (_, there) ↦
              elim (clear d' r there (sym same ∙ sym (ap (λ (r : Player). r.ent) is_p))) [ ]
        ]
        | inr (_, there) ↦ elim (lookup-insert_cases c d' p r players k) [
          | inl (_, is_p) ↦
              elim (clear d q there (same ∙ sym (ap (λ (r : Player). r.ent) is_p))) [ ]
          | inr (_, there') ↦ v.apart d d' q r there there' same
        ]
      ];
      follows = λ d q h. elim (lookup-insert_cases c d p q players h) [
        | inl (at, is_p) ↦
            subst
              (λ (m : List (ℕ × ℕ)).
                Follows tick id (insert id e entities) m
                  (watch d (outbox ++ (c, welcome id e.at e.elo) ∷ []) nothing_shown))
              (sym none_known ∙ ap (λ (r : Player). r.known) is_p)
              (record {
                unique = tt;
                past = λ j t h. cc;
                mirrors = λ j.
                    ap (λ (pic : Picture). pic j)
                      (watch-append d outbox ((c, welcome id e.at e.elo) ∷ []) nothing_shown
                        ∙ ap
                            (λ (b : Bool).
                              if b then nothing_shown else watch d outbox nothing_shown)
                            ((==_iff c d).1 at));
              })
        | inr (differ, there) ↦
            let f = v.follows d q there in
            let same_pic =
              watch-append d outbox ((c, welcome id e.at e.elo) ∷ []) nothing_shown
              ∙ ap (λ (b : Bool). if b then nothing_shown else watch d outbox nothing_shown)
                  (differ_test differ) in
            subst (λ (pic : Picture). Follows tick id (insert id e entities) q.known pic)
              (sym same_pic)
              (record {
                unique = f.unique;
                past = λ j t h. ((f.past j t h).0, omega (arith, (f.past j t h).1));
                mirrors = λ j. rw (lookup-insert id j e entities) (
                    if_cases
                      (λ (o : Option Entity).
                        Mirrors (lookup j q.known) o (watch d outbox nothing_shown j))
                      (id == j)
                      (λ same.
                        unknown-Mirrors (lookup j q.known) (lookup j entities) (some e)
                          (watch d outbox nothing_shown j)
                          (unknown (lookup j q.known) (λ t known.
                            subst (λ (i : ℕ). i ≤ next) (sym ((==_iff id j).0 same))
                              (f.past j t known).1))
                          (f.mirrors j))
                      (λ _. f.mirrors j));
              })
      ];
    }
  where
    below_not : next + 1 ≤ next → ⊥
    below_not h = omega (arith, h)

    differ_test : {a b : ℕ} → a ≢ b → (a == b) ≡ false
    differ_test h = ground (arith, h)

    unknown : (k : Option ℕ) → ((t : ℕ) → k ≡ some t → next + 1 ≤ next) → k ≡ none
    unknown none h = refl
    unknown (some t) h = elim (below_not (h t refl)) [ ]

    none_not : (o : Option Entity) → o ≡ none → is_some o ≡ true → ⊥
    none_not none e h = cc
    none_not (some f) e h = cc

    id_not : (b : Bool) → b ≡ false → b ≡ true → ⊥
    id_not true e h = cc
    id_not false e h = cc

-- Joining and leaving, of the world itself. The next id is told apart from all that are in use.
pub join-IsWorld :
    (c player_id : ℕ) (username : Text) (ch : Character) (rating : Rating) (dx dy now : ℕ)
    (w : World)
    → IsWorld w
    → w.next_id + 1 < 2 ^ 32
    → IsWorld (join c player_id username ch rating dx dy now w)
unfolding join new_entity
join-IsWorld c player_id username ch rating dx dy now w v room =
    let at = spawn_at w.area dx dy in
    let e : Entity = record {
      name = username;
      char_name = ch.char_name;
      class = ch.class;
      at = at;
      elo = rating.elo;
      moved = false;
      elo_changed = false;
      cell = cell_of at;
    } in
    let p : Player = record {
      player_id = player_id;
      char_id = ch.char_id;
      rating = rating;
      ent = w.next_id + 1;
      known = [];
      allowance = reset_allowance now;
    } in
    let small : (w.next_id + 1) % 2 ^ 32 ≡ w.next_id + 1 = omega (arith, room) in
    rw small
      (enter-IsState w.tick w.next_id w.entities w.cells w.players w.outbox c p e v refl refl refl)

remove_stored-IsState :
    (c : ℕ) (p : Player) (o : Option Entity) (w : World)
    → IsWorld w
    → lookup c w.players ≡ some p
    → lookup p.ent w.entities ≡ o
    → let gone = remove_stored p.ent o w in
      IsState gone.tick gone.next_id gone.entities gone.cells (delete c gone.players) gone.outbox
unfolding remove_stored
remove_stored-IsState c p none w v found stored =
    elim (not_gone (lookup p.ent w.entities) stored (v.owns c p found)) [ ]
  where
    not_gone : (o : Option Entity) → o ≡ none → is_some o ≡ true → ⊥
    not_gone none e h = cc
    not_gone (some f) e h = cc
remove_stored-IsState c p (some e) w v found stored =
    leave-IsState w.tick w.next_id w.entities w.cells w.players w.outbox c p e v found stored

leave_player-IsWorld :
    (c : ℕ) (o : Option Player) (w : World)
    → IsWorld w
    → lookup c w.players ≡ o
    → IsWorld (leave_player c o w)
unfolding leave_player remove_entity release_online remove_stored
leave_player-IsWorld c none w v found = v
leave_player-IsWorld c (some p) w v found =
    let alone = record w { lobby = leave_lobby c w.lobby } in
    remove_stored-IsState c p (lookup p.ent w.entities) alone v found refl

pub leave-IsWorld : (c : ℕ) (w : World) → IsWorld w → IsWorld (leave c w)
unfolding leave
leave-IsWorld c w v = leave_player-IsWorld c (lookup c w.players) w v refl
