-- ===== src/Ranked/Records/Order.antt =====
-- The service works in order, so that what is loaded holds all that was recorded before
-- (internal/ranked/service.go).
use nytrpg.Prelude.{
  All, All-mono, List, Option, [], ap, insert, lookup, lookup-insert_other, lookup-insert_same,
  none, refl, some, sym, true, ℕ, ◌++◌, ◌∙◌, ◌∷◌, ◌≡◌, ◌≢◌,
}
use nytrpg.Game.Duel.Invariant.{if_keeps}
use nytrpg.Ranked.Elo.{Rating, new_rating}
use nytrpg.Ranked.Records.{
  Job, Match, Records, Reply, Service, apply_ranked_duel, duel_of, enqueue, loaded, loads, perform,
  records, shows, work, work_from,
}

-- A call of the service, or a round of its goroutine.
pub data ServiceStep : Type 0 where
  asks : Job → ServiceStep
  works : ServiceStep

unfoldable pub service_run : List ServiceStep → Service → Service
unfolding work
service_run [] s = s
service_run (asks j ∷ ss) s = service_run ss (enqueue j s)
service_run (works ∷ ss) s = service_run ss (work s)

-- All jobs one after the other.
unfoldable pub perform_all : List Job → Records × List Reply → Records × List Reply
unfolding perform
perform_all [] p = p
perform_all (j ∷ js) p = perform_all js (perform j p)

abbrev pub asked : List ServiceStep → List Job
asked [] = []
asked (asks j ∷ ss) = j ∷ asked ss
asked (works ∷ ss) = asked ss

perform_all-append :
    (js ks : List Job) (p : Records × List Reply)
    → perform_all (js ++ ks) p ≡ perform_all ks (perform_all js p)
unfolding perform_all
perform_all-append [] ks p = refl
perform_all-append (j ∷ js) ks p = perform_all-append js ks (perform j p)

-- What a service has done and what it still has to do.
abbrev pub all_done : Service → Records × List Reply
all_done s = perform_all s.queue (s.store, s.replies)

work_from-all_done :
    (queue : List Job) (s : Service)
    → s.queue ≡ queue
    → all_done (work_from queue s) ≡ perform_all queue (s.store, s.replies)
unfolding perform_all
work_from-all_done [] s e = ap (λ (q : List Job). perform_all q (s.store, s.replies)) e
work_from-all_done (j ∷ js) s e = refl

-- In any interleaving of calls and work, what is done and what waits come to all jobs that were asked
-- for, one after the other, in the order of the calls.
pub service_run-perform_all :
    (ss : List ServiceStep) (s : Service)
    → all_done (service_run ss s) ≡ perform_all (asked ss) (all_done s)
unfolding service_run work perform_all
service_run-perform_all [] s = refl
service_run-perform_all (asks j ∷ ss) s =
    service_run-perform_all ss (enqueue j s)
    ∙ ap (perform_all (asked ss)) (perform_all-append s.queue (j ∷ []) (s.store, s.replies))
service_run-perform_all (works ∷ ss) s =
    service_run-perform_all ss (work s)
    ∙ ap (perform_all (asked ss)) (work_from-all_done s.queue s refl)

-- Whether a job leaves a character's rating alone.
abbrev pub Spares : ℕ → Job → Type 0
Spares c (records ok m) = (m.a ≢ c) × (m.b ≢ c)
Spares c (loads ok d) = Unit
Spares c (shows ok d) = Unit

rating-perform :
    (c : ℕ) (j : Job) (p : Records × List Reply)
    → Spares c j
    → lookup c (perform j p).0.ratings ≡ lookup c p.0.ratings
unfolding perform apply_ranked_duel duel_of
rating-perform c (records ok m) p h =
    if_keeps (λ (t : Records). lookup c t.ratings ≡ lookup c p.0.ratings) ok
      (lookup-insert_other m.b c m.rating_b (insert m.a m.rating_a p.0.ratings) h.1
        ∙ lookup-insert_other m.a c m.rating_a p.0.ratings h.0)
      refl
rating-perform c (loads ok d) p h = refl
rating-perform c (shows ok d) p h = refl

rating-perform_all :
    (c : ℕ) (js : List Job) (p : Records × List Reply)
    → All (λ j. Spares c j) js
    → lookup c (perform_all js p).0.ratings ≡ lookup c p.0.ratings
unfolding perform_all
rating-perform_all c [] p h = refl
rating-perform_all c (j ∷ js) p h =
    rating-perform_all c js (perform j p) h.1 ∙ rating-perform c j p h.0

-- The answer of `Load`, by what is stored.
answer_of :
    (c : ℕ) (r : Rating) (p : Records × List Reply)
    → lookup c p.0.ratings ≡ some r
    → (perform (loads true c) p).1 ≡ p.1 ++ loaded c r ∷ []
unfolding perform
answer_of c r p h =
    ap (λ (o : Option Rating). p.1 ++ loaded c (elim o [ none ↦ new_rating | some s ↦ s ]) ∷ []) h

-- A load after a duel was recorded answers with the rating of that duel, for both characters: whatever
-- was asked for before, with none of that character's duels recorded between, and if the database
-- answers for both.
pub loads-records :
    (js ks : List Job) (m : Match) (p : Records × List Reply)
    → m.a ≢ m.b
    → All (λ k. Spares m.a k × Spares m.b k) ks
    → let done = perform_all (js ++ (records true m ∷ ks)) p in
      ((perform (loads true m.a) done).1 ≡ done.1 ++ loaded m.a m.rating_a ∷ [])
      × ((perform (loads true m.b) done).1 ≡ done.1 ++ loaded m.b m.rating_b ∷ [])
unfolding perform_all perform apply_ranked_duel duel_of
loads-records js ks m p differ spared =
    let before = perform_all js p in
    let after = perform (records true m) before in
    let done = perform_all (js ++ (records true m ∷ ks)) p in
    let all_in = perform_all-append js (records true m ∷ ks) p in
    (
      answer_of m.a m.rating_a done (
          ap (λ (q : Records × List Reply). lookup m.a q.0.ratings) all_in
          ∙ rating-perform_all m.a ks after (
              All-mono (λ k. Spares m.a k × Spares m.b k) (λ k. Spares m.a k) ks (λ k h. h.0)
                spared)
          ∙ lookup-insert_other m.b m.a m.rating_b (insert m.a m.rating_a before.0.ratings)
              (λ e. differ (sym e))
          ∙ lookup-insert_same m.a m.rating_a before.0.ratings),
      answer_of m.b m.rating_b done (
          ap (λ (q : Records × List Reply). lookup m.b q.0.ratings) all_in
          ∙ rating-perform_all m.b ks after (
              All-mono (λ k. Spares m.a k × Spares m.b k) (λ k. Spares m.b k) ks (λ k h. h.1)
                spared)
          ∙ lookup-insert_same m.b m.rating_b (insert m.a m.rating_a before.0.ratings)),
    )
