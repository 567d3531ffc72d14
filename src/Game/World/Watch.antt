-- ===== src/Game/World/Watch.antt =====
-- What a client shows of all the messages that the world has sent to it (internal/game/replication.go,
-- client/src/game.ts).
use std.Path.{fun_ext}
use nytrpg.Prelude.{
  ==_iff, Bool, Bool-cases, List, Option, [], ap, arith, false, if_some, if◌then◌else◌, inl, inr,
  is_empty, lookup, none, refl, some, sym, true, ℕ, ◌++◌, ◌==◌, ◌∙◌, ◌∷◌, ◌≡◌,
}
use nytrpg.Game.Side.{out}
use nytrpg.Game.World.Replicate.{is_no_update, player_view, replicate_all}
use nytrpg.Game.World.Replicate.Known.{Unique}
use nytrpg.Game.World.Replicate.Picture.{Picture, apply_update}
use nytrpg.Game.World.State.{Player, Sent, Update, World, correction, said, welcome, world_update}

abbrev pub nothing_shown : Picture
nothing_shown id = none

-- A client starts anew when it is welcomed.
abbrev pub receive : Sent → Picture → Picture
receive (welcome id at elo) pic = nothing_shown
receive (correction at) pic = pic
receive (world_update u) pic = apply_update u pic
receive (said id msg) pic = pic

-- The messages to a client, in the order in which they were sent.
unfoldable pub watch : ℕ → List (ℕ × Sent) → Picture → Picture
watch c [] pic = pic
watch c (m ∷ out) pic = watch c out (if m.0 == c then receive m.1 pic else pic)

pub watch-append :
    (c : ℕ) (out out' : List (ℕ × Sent)) (pic : Picture)
    → watch c (out ++ out') pic ≡ watch c out' (watch c out pic)
unfolding watch
watch-append c [] out' pic = refl
watch-append c (m ∷ out) out' pic =
    watch-append c out out' (if m.0 == c then receive m.1 pic else pic)

is_empty_nil {ℓ} : {A : Type ℓ} (xs : List A) → is_empty xs ≡ true → xs ≡ []
is_empty_nil [] h = refl
is_empty_nil (x ∷ xs) h = cc

shown_of_nothing : (u : Update) (pic : Picture) → is_no_update u ≡ true → apply_update u pic ≡ pic
shown_of_nothing u pic h = fun_ext (λ id.
    rw
      (
        is_empty_nil u.spawns (ground (arith, h)),
        is_empty_nil u.moves (ground (arith, h)),
        is_empty_nil u.despawns (ground (arith, h)),
        is_empty_nil u.elos (ground (arith, h)),
      )
      refl)

-- What `replicate` does for a client that is not a player's, and for one that is.
pub replicate_all-lookup :
    (w : World) (c : ℕ) (players : List (ℕ × Player))
    → lookup c (replicate_all w players).0 ≡ elim (lookup c players) [
      | none ↦ none
      | some p ↦ some (record p { known = (player_view w p).known })
    ]
unfolding replicate_all
replicate_all-lookup w c [] = refl
replicate_all-lookup w c ((d, p) ∷ players) = elim (Bool-cases (d == c)) [
  | inl same ↦ rw (same, if◌then◌else◌) refl
  | inr differ ↦ rw (differ, if◌then◌else◌) (replicate_all-lookup w c players)
]

-- A message to another client, sent or not.
watch_other :
    (c d : ℕ) (b : Bool) (msg : Sent) (out : List (ℕ × Sent)) (pic : Picture)
    → (d == c) ≡ false
    → watch c (if b then out else (d, msg) ∷ out) pic ≡ watch c out pic
unfolding watch
watch_other c d true msg out pic differ = refl
watch_other c d false msg out pic differ =
    ap (λ (b : Bool). watch c out (if b then receive msg pic else pic)) differ

-- An update to the client, that is sent or changes nothing.
watch_own :
    (c d : ℕ) (b : Bool) (u : Update) (out : List (ℕ × Sent)) (pic : Picture)
    → (d == c) ≡ true
    → is_no_update u ≡ b
    → watch c (if b then out else (d, world_update u) ∷ out) pic ≡ watch c out (apply_update u pic)
unfolding watch
watch_own c d true u out pic same e = ap (watch c out) (sym (shown_of_nothing u pic e))
watch_own c d false u out pic same e =
    ap (λ (b : Bool). watch c out (if b then apply_update u pic else pic)) same

unless_found {ℓ} :
    {V : Type ℓ} (b : Bool) (v : V) (o : Option V)
    → (if b then some v else o) ≡ none
    → (b ≡ false) × (o ≡ none)
unless_found true v o h = cc
unless_found false v o h = (refl, h)

pub replicate_all-unwatched :
    (w : World) (c : ℕ) (players : List (ℕ × Player)) (pic : Picture)
    → lookup c players ≡ none
    → watch c (replicate_all w players).1 pic ≡ pic
unfolding watch replicate_all
replicate_all-unwatched w c [] pic h = refl
replicate_all-unwatched w c ((d, p) ∷ players) pic h =
    let (differ, rest) = unless_found (d == c) p (lookup c players) h in
    let v = player_view w p in
    watch_other c d (is_no_update v.upd) (world_update v.upd) (replicate_all w players).1 pic differ
    ∙ replicate_all-unwatched w c players pic rest

pub replicate_all-watch :
    (w : World) (c : ℕ) (p : Player) (players : List (ℕ × Player)) (pic : Picture)
    → Unique players
    → lookup c players ≡ some p
    → watch c (replicate_all w players).1 pic ≡ apply_update (player_view w p).upd pic
unfolding watch replicate_all
replicate_all-watch w c p [] pic u h = cc
replicate_all-watch w c p ((d, q) ∷ players) pic u h =
    let v = player_view w q in
    let out = (replicate_all w players).1 in
    elim (if_some (d == c) q p (lookup c players) h) [
      | inl (same, found) ↦
          watch_own c d (is_no_update v.upd) v.upd out pic same refl
          ∙ replicate_all-unwatched w c players (apply_update v.upd pic)
              (ap (λ (i : ℕ). lookup i players) (sym ((==_iff d c).0 same)) ∙ u.0)
          ∙ ap (λ (r : Player). apply_update (player_view w r).upd pic) found
      | inr (differ, found) ↦
          watch_other c d (is_no_update v.upd) (world_update v.upd) out pic differ
          ∙ replicate_all-watch w c p players pic u.1 found
    ]
