-- ===== src/Tests/Lobbies.antt =====
-- One challenge that is accepted (internal/game/duel.go).
use nytrpg.Prelude.{List, [], false, keep, not, refl, some, true, ℕ, ◌==◌, ◌∷◌, ◌≡◌}
use nytrpg.Game.Lobby.{Offer, enter_duel, respond}
use nytrpg.Game.Lobby.Free.{
  AreOpen, LobbyEvent, challenges, empty_lobby, lobby_step, lobby_step-AreOpen, respond-enter_duel,
  responds, run_lobby,
}

abbrev one_challenge : List (ℕ × LobbyEvent)
one_challenge = (5, challenges 1 (some 2) true false) ∷ []

abbrev waiting_offer : Offer
waiting_offer = record { id = 1; from = 1; to = 2; expires = 30_000_000_005; is_ranked = false }

respond-enter_duel_example :
    let l = run_lobby one_challenge empty_lobby in
    respond 2 1 true l ≡ enter_duel 1 2 (record l { offers = keep (λ o. not (o.id == 1)) l.offers })
unfolding run_lobby
respond-enter_duel_example = respond-enter_duel one_challenge 1 waiting_offer refl

one_is_open : AreOpen (run_lobby one_challenge empty_lobby)
unfolding run_lobby
one_is_open = ((refl, refl, refl), tt)

lobby_step-AreOpen_example :
    AreOpen (lobby_step 6 (responds 2 1 true) (run_lobby one_challenge empty_lobby))
lobby_step-AreOpen_example =
    lobby_step-AreOpen 6 (responds 2 1 true) (run_lobby one_challenge empty_lobby) one_is_open
