-- ===== src/Tests/Ranks.antt =====
-- The rank of an elo and what a duel does to it (internal/ranked: ladder.go, elo.go).
use nytrpg.Prelude.{
  [], arith, false, if◌then◌else◌, ltb_ℤ, max_ℤ, neg, neg_part, negsuc, pos, pos_part, refl, some,
  sub_ℕ, true, ℤ, ◌*◌, ◌++◌, ◌+ℤ◌, ◌+◌, ◌-ℤ◌, ◌/◌, ◌^◌, ◌∷◌, ◌≡◌,
}
use nytrpg.Game.Duel.{second}
use nytrpg.Game.Duel.Finish.{IsToldRight, end_ranked, end_ranked-told, opposite}
use nytrpg.Game.Message.{disconnect}
use nytrpg.Ranked.Elo.{Floats, Margin, a_wins, b_wins, new_rating, settle}
use nytrpg.Ranked.Elo.Laws.{IsGame, IsValidRating, settle-IsGame, settle_moves}
use nytrpg.Ranked.Ladder.{ladder, tier_for}
use nytrpg.Ranked.Records.{Match, Records, duel_of, loaded, loads, perform, records, shows}
use nytrpg.Ranked.Records.Order.{
  all_done, asks, loads-records, perform_all, service_run, service_run-perform_all, works,
}
use nytrpg.Tests.{race}

gold_two : (tier_for 1450).min_elo ≡ 1400
unfolding tier_for ladder
gold_two = refl

-- Whole numbers in place of float64.
abbrev times_ℤ : ℤ → ℤ → ℤ
times_ℤ a b =
    sub_ℕ (pos_part a * pos_part b + neg_part a * neg_part b)
      (pos_part a * neg_part b + neg_part a * pos_part b)

abbrev over_ℤ : ℤ → ℤ → ℤ
over_ℤ a b = sub_ℕ (pos_part a / pos_part b) (neg_part a / pos_part b)

abbrev pub whole_floats : Floats
whole_floats = record {
  F = ℤ;
  of_ℤ = λ a. a;
  decimal = λ n d. pos (n / d);
  add = λ a b. a +ℤ b;
  sub = λ a b. a -ℤ b;
  mul = times_ℤ;
  div = over_ℤ;
  negate = neg;
  pow10 = λ a. pos (10 ^ pos_part a);
  fmin = λ a b. if ltb_ℤ a b then a else b;
  fmax = max_ℤ;
  is_positive = λ a. ltb_ℤ (pos 0) a;
  round = λ a. a;
}

abbrev given_up : Margin whole_floats
given_up = record {
  winner_guesses = 2;
  winner_seconds = pos 60;
  loser_guesses = 1;
  loser_out = false;
  loser_best = pos 0;
  forfeit = true;
}

new_is_valid : IsValidRating new_rating
new_is_valid = record {
  elo_nonneg = ground arith;
  peak_above = ground arith;
  games_counted = ground arith;
}

settle-IsGame_example :
    let res = settle whole_floats new_rating new_rating a_wins given_up in
    IsGame new_rating res.a res.delta_a × IsGame new_rating res.b res.delta_b
settle-IsGame_example =
    settle-IsGame whole_floats new_rating new_rating a_wins given_up new_is_valid new_is_valid

settle_moves_example :
    let res = settle whole_floats new_rating new_rating b_wins given_up in
    (res.delta_a ≡ pos 0 → res.a.elo ≡ pos 0) × (res.delta_b ≡ pos 0 → res.b.elo ≡ pos 0)
settle_moves_example =
    settle_moves whole_floats new_rating new_rating b_wins given_up refl new_is_valid new_is_valid

-- A duel between the characters 7 and 9.
abbrev won_by_seven : Match
won_by_seven = record {
  played_at = 100;
  a = 7;
  b = 9;
  outcome = a_wins;
  rating_a = record new_rating { elo = pos 1024 };
  rating_b = record new_rating { elo = pos 976 };
  delta_a = pos 24;
  delta_b = negsuc 23;
}

abbrev no_records : Records
no_records = record { ratings = []; duels = [] }

loads-records_example :
    let done =
      perform_all (loads true 9 ∷ records true won_by_seven ∷ shows true 7 ∷ []) (no_records, []) in
    ((perform (loads true 7) done).1
      ≡ done.1 ++ loaded 7 (record new_rating { elo = pos 1024 }) ∷ [])
    × ((perform (loads true 9) done).1
        ≡ done.1 ++ loaded 9 (record new_rating { elo = pos 976 }) ∷ [])
loads-records_example =
    loads-records (loads true 9 ∷ []) (shows true 7 ∷ []) won_by_seven (no_records, [])
      (ground arith) ((tt, tt), tt)

service_run-perform_all_example :
    all_done (
      service_run
        (asks (loads true 9) ∷ works ∷ asks (shows true 7) ∷ [])
        (record { queue = []; store = no_records; replies = [] }))
    ≡ perform_all (loads true 9 ∷ shows true 7 ∷ []) (no_records, [])
unfolding perform_all
service_run-perform_all_example =
    service_run-perform_all (asks (loads true 9) ∷ works ∷ asks (shows true 7) ∷ [])
      (record { queue = []; store = no_records; replies = [] })

end_ranked-told_example :
    let e =
      end_ranked whole_floats 5
        (some second)
        disconnect
        (pos 30)
        race.duel
        (7, new_rating)
        (9, new_rating) in
    let row = duel_of e.saved in
    IsToldRight whole_floats new_rating e.rating_first e.told_first row.a_before row.a_after
    × IsToldRight whole_floats new_rating e.rating_second e.told_second row.b_before row.b_after
    × (e.told_second.outcome ≡ opposite whole_floats e.told_first.outcome)
end_ranked-told_example =
    end_ranked-told whole_floats 5 (some second) disconnect (pos 30) race.duel 7 9 new_rating
      new_rating new_is_valid new_is_valid
