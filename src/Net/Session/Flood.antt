-- ===== src/Net/Session/Flood.antt =====
-- The loop that reads a client's messages (internal/netconn/session.go: readLoop, dispatch).
use nytrpg.Prelude.{
  All, Bool, List, Option, [], ap, arith, false, if◌then◌else◌, inl, inr, length, lookup, ltb, none,
  refl, some, suc, tests, true, ℕ, ◌++◌, ◌+◌, ◌<◌, ◌∙◌, ◌∷◌, ◌≡◌, ◌≤◌, ◌⊎◌,
}
use nytrpg.Game.Duel.Invariant.{if_cases}
use nytrpg.Net.Session.{
  Handler, LoopEnd, Reader, Router, call, dispatch, dispatch_decoded, flooded, gone, max_dropped,
  panicked, read_loop,
}
use nytrpg.Wordle.Score.Counts.{count}

module _ {Raw : Type 0} where
  abbrev pub AreRefused : List (Raw × Bool) → Type 0
  AreRefused ms = All (λ m. m.1 ≡ false) ms

  -- A run of `n` refused messages, with messages before and after it.
  abbrev pub RunOf : ℕ → List (Raw × Bool) → Type 0
  RunOf n ms =
      (xs : List (Raw × Bool)) × (ds : List (Raw × Bool)) × (ys : List (Raw × Bool)) × (ms
        ≡ xs ++ (ds ++ ys))
      × AreRefused ds
      × (length ds ≡ n)

  -- Refused messages at the start, with those that were refused just before.
  abbrev pub StartOf : ℕ → List (Raw × Bool) → Type 0
  StartOf n ms =
      (ds : List (Raw × Bool)) × (ys : List (Raw × Bool)) × (ms ≡ ds ++ ys)
      × AreRefused ds
      × (length ds + n ≡ max_dropped + 1)

  start_refused :
      (n : ℕ) (m : Raw) (ms : List (Raw × Bool))
      → StartOf (n + 1) ms ⊎ RunOf (max_dropped + 1) ms
      → StartOf n ((m, false) ∷ ms) ⊎ RunOf (max_dropped + 1) ((m, false) ∷ ms)
  start_refused n m ms (inl (ds, ys, e, all_refused, len)) = inl (
    (m, false) ∷ ds,
    ys,
    ap (λ (r : List (Raw × Bool)). (m, false) ∷ r) e,
    (refl, all_refused),
    omega (arith, len),
  )
  start_refused n m ms (inr (xs, ds, ys, e, all_refused, len)) =
      inr (
        (m, false) ∷ xs,
        ds,
        ys,
        ap (λ (r : List (Raw × Bool)). (m, false) ∷ r) e,
        all_refused,
        len,
      )

  start_allowed :
      (n k : ℕ) (m : Raw) (ms : List (Raw × Bool))
      → n ≡ 0
      → StartOf n ms ⊎ RunOf (max_dropped + 1) ms
      → StartOf k ((m, true) ∷ ms) ⊎ RunOf (max_dropped + 1) ((m, true) ∷ ms)
  start_allowed n k m ms none_yet (inl (ds, ys, e, all_refused, len)) = inr (
    (m, true) ∷ [],
    ds,
    ys,
    ap (λ (r : List (Raw × Bool)). (m, true) ∷ r) e,
    all_refused,
    omega (arith, len),
  )
  start_allowed n k m ms none_yet (inr (xs, ds, ys, e, all_refused, len)) =
      inr
        ((m, true) ∷ xs, ds, ys, ap (λ (r : List (Raw × Bool)). (m, true) ∷ r) e, all_refused, len)

else_cong {ℓ} :
    {A : Type ℓ} (b : Bool) (x y z : A)
    → (b ≡ false → y ≡ z)
    → (if b then x else y) ≡ (if b then x else z)
else_cong true x y z h = refl
else_cong false x y z h = h refl

module _ (St Raw : Type 0) (decode : Raw → Option (ℕ × Raw)) (r : Router St Raw) where
  -- Handling a message counts neither as dropped nor as refused.
  counts-call :
      (o : Option (Handler St Raw)) (body : Raw) (l : Reader St)
      → let after_call = (call St Raw decode o body l).1 in
        (after_call.dropped ≡ l.dropped) × (after_call.rate_limited ≡ l.rate_limited)
  counts-call none body l = (refl, refl)
  counts-call (some h) body l = counted (h body l.st)
    where
      counted :
          (o : Option St)
          → let after_call =
              (elim o as (λ _. Bool × Reader St) [
                | none ↦ (false, record l { handler_panics = l.handler_panics + 1 })
                | some st ↦ (true, record l { st = st })
              ]).1 in
            (after_call.dropped ≡ l.dropped) × (after_call.rate_limited ≡ l.rate_limited)
      counted none = (refl, refl)
      counted (some st) = (refl, refl)

  counts-dispatch :
      (o : Option (ℕ × Raw)) (l : Reader St)
      → let after_it = (dispatch_decoded St Raw decode r o l).1 in
        (after_it.dropped ≡ l.dropped) × (after_it.rate_limited ≡ l.rate_limited)
  counts-dispatch none l = (refl, refl)
  counts-dispatch (some (t, body)) l = counts-call (lookup t r) body l

  dropped-dispatch :
      (o : Option (ℕ × Raw)) (l : Reader St)
      → (dispatch_decoded St Raw decode r o l).1.dropped ≡ l.dropped
  dropped-dispatch o l = (counts-dispatch o l).0

  flood_run :
      (ms : List (Raw × Bool)) (l : Reader St)
      → l.dropped ≤ max_dropped
      → (read_loop St Raw decode r ms l).0 ≡ flooded
      → StartOf l.dropped ms ⊎ RunOf (max_dropped + 1) ms
  unfolding read_loop dispatch
  flood_run [] l small e = elim (gone_not e) [ ]
    where
      gone_not : gone ≡ flooded → ⊥
      gone_not h = cc
  flood_run ((raw, false) ∷ ms) l small e =
      let counted = record l { rate_limited = l.rate_limited + 1; dropped = l.dropped + 1 } in
      if_cases
        (λ (p : LoopEnd × Reader St).
          p.0 ≡ flooded
          → StartOf l.dropped ((raw, false) ∷ ms) ⊎ RunOf (max_dropped + 1) ((raw, false) ∷ ms))
        (ltb max_dropped (l.dropped + 1))
        (λ over _. inl ((raw, false) ∷ [], ms, refl, (refl, tt), omega (tests, over, small)))
        (λ under ended. start_refused l.dropped raw ms (flood_run ms counted (ground arith) ended))
        e
  flood_run ((raw, true) ∷ ms) l small e =
      let next = (dispatch_decoded St Raw decode r (decode raw) (record l { dropped = 0 })).1 in
      let none_yet = dropped-dispatch (decode raw) (record l { dropped = 0 }) in
      if_cases
        (λ (p : LoopEnd × Reader St).
          p.0 ≡ flooded
          → StartOf l.dropped ((raw, true) ∷ ms) ⊎ RunOf (max_dropped + 1) ((raw, true) ∷ ms))
        (dispatch_decoded St Raw decode r (decode raw) (record l { dropped = 0 })).0
        (λ _ ended.
          start_allowed next.dropped l.dropped raw ms none_yet
            (flood_run ms next (omega (arith, none_yet)) ended))
        (λ _ ended. cc) e

  -- A client is disconnected for flooding only after 101 refused messages in a row.
  pub read_loop-flooded :
      (ms : List (Raw × Bool)) (l : Reader St)
      → l.dropped ≡ 0
      → (read_loop St Raw decode r ms l).0 ≡ flooded
      → RunOf (max_dropped + 1) ms
  read_loop-flooded ms l none_yet e = elim (flood_run ms l (omega (arith, none_yet)) e) [
    | inl (ds, ys, split, all_refused, len) ↦
        ([], ds, ys, split, all_refused, omega (arith, len, none_yet))
    | inr found ↦ found
  ]

  stop_refused :
      (ds ys : List (Raw × Bool)) (l : Reader St)
      → AreRefused ds
      → l.dropped ≤ max_dropped
      → max_dropped < length ds + l.dropped
      → read_loop St Raw decode r (ds ++ ys) l ≡ read_loop St Raw decode r ds l
  unfolding read_loop
  stop_refused [] ys l all_refused small many = elim (too_few l.dropped small many) [ ]
    where
      too_few : (n : ℕ) → n ≤ max_dropped → max_dropped < 0 + n → ⊥
      too_few n h k = omega (arith, h, k)
  stop_refused ((raw, true) ∷ ds) ys l all_refused small many = elim (true_not all_refused.0) [ ]
    where
      true_not : true ≡ false → ⊥
      true_not h = cc
  stop_refused ((raw, false) ∷ ds) ys l all_refused small many =
      let counted = record l { rate_limited = l.rate_limited + 1; dropped = l.dropped + 1 } in
      else_cong (ltb max_dropped (l.dropped + 1)) _ (read_loop St Raw decode r (ds ++ ys) counted)
        (read_loop St Raw decode r ds counted)
        (λ under. stop_refused ds ys counted all_refused.1 (ground arith) (omega (arith, many)))

  -- After 101 refused messages in a row, no later message is read.
  pub read_loop-stops :
      (xs ds ys : List (Raw × Bool)) (l : Reader St)
      → l.dropped ≤ max_dropped
      → AreRefused ds
      → length ds ≡ max_dropped + 1
      → read_loop St Raw decode r (xs ++ (ds ++ ys)) l ≡ read_loop St Raw decode r (xs ++ ds) l
  unfolding read_loop dispatch
  read_loop-stops [] ds ys l small all_refused len =
      stop_refused ds ys l all_refused small (omega (arith, len))
  read_loop-stops ((raw, false) ∷ xs) ds ys l small all_refused len =
      let counted = record l { rate_limited = l.rate_limited + 1; dropped = l.dropped + 1 } in
      else_cong (ltb max_dropped (l.dropped + 1)) _
        (read_loop St Raw decode r (xs ++ (ds ++ ys)) counted)
        (read_loop St Raw decode r (xs ++ ds) counted)
        (λ under. read_loop-stops xs ds ys counted (ground arith) all_refused len)
  read_loop-stops ((raw, true) ∷ xs) ds ys l small all_refused len =
      let next = (dispatch_decoded St Raw decode r (decode raw) (record l { dropped = 0 })).1 in
      let none_yet = dropped-dispatch (decode raw) (record l { dropped = 0 }) in
      ap
        (λ (rest : LoopEnd × Reader St).
          if (dispatch_decoded St Raw decode r (decode raw) (record l { dropped = 0 })).0
          then rest
          else (panicked, next))
        (read_loop-stops xs ds ys next (omega (arith, none_yet)) all_refused len)

  -- What one message does to the world of the handlers.
  abbrev pub handled : Option St → St → St
  handled none st = st
  handled (some st') st = st'

  abbrev pub serve_by : Option (Handler St Raw) → Raw → St → St
  serve_by none body st = st
  serve_by (some h) body st = handled (h body st) st

  abbrev pub serve : Option (ℕ × Raw) → St → St
  serve none st = st
  serve (some (t, body)) st = serve_by (lookup t r) body st

  -- All messages that the limiter lets through, in their order.
  abbrev pub serve_all : List (Raw × Bool) → St → St
  serve_all [] st = st
  serve_all ((raw, false) ∷ ms) st = serve_all ms st
  serve_all ((raw, true) ∷ ms) st = serve_all ms (serve (decode raw) st)

  -- How many messages the limiter refuses.
  abbrev pub refusals : List (Raw × Bool) → ℕ
  refusals [] = 0
  refusals ((raw, false) ∷ ms) = suc (refusals ms)
  refusals ((raw, true) ∷ ms) = refusals ms

  st-call :
      (o : Option (Handler St Raw)) (body : Raw) (l : Reader St)
      → (call St Raw decode o body l).1.st ≡ serve_by o body l.st
  st-call none body l = refl
  st-call (some h) body l = called (h body l.st)
    where
      called :
          (o : Option St)
          → (elim o as (λ _. Bool × Reader St) [
            | none ↦ (false, record l { handler_panics = l.handler_panics + 1 })
            | some st ↦ (true, record l { st = st })
          ]).1.st
            ≡ handled o l.st
      called none = refl
      called (some st) = refl

  st-dispatch :
      (o : Option (ℕ × Raw)) (l : Reader St)
      → (dispatch_decoded St Raw decode r o l).1.st ≡ serve o l.st
  st-dispatch none l = refl
  st-dispatch (some (t, body)) l = st-call (lookup t r) body l

  -- If the loop reads until the connection is gone, every message that the limiter let through was
  -- handled, in its order, and no other, and each refused one was counted in `RateLimited`.
  pub read_loop-serve_all :
      (ms : List (Raw × Bool)) (l : Reader St)
      → (read_loop St Raw decode r ms l).0 ≡ gone
      → ((read_loop St Raw decode r ms l).1.st ≡ serve_all ms l.st)
        × ((read_loop St Raw decode r ms l).1.rate_limited ≡ l.rate_limited + refusals ms)
  unfolding read_loop dispatch
  read_loop-serve_all [] l e = (refl, omega arith)
  read_loop-serve_all ((raw, false) ∷ ms) l e =
      let counted = record l { rate_limited = l.rate_limited + 1; dropped = l.dropped + 1 } in
      if_cases
        (λ (p : LoopEnd × Reader St).
          p.0 ≡ gone
          → (p.1.st ≡ serve_all ms l.st) × (p.1.rate_limited ≡ l.rate_limited + suc (refusals ms)))
        (ltb max_dropped (l.dropped + 1)) (λ _ ended. cc)
        (λ _ ended.
          let (same, count) = read_loop-serve_all ms counted ended in (same, omega (arith, count)))
        e
  read_loop-serve_all ((raw, true) ∷ ms) l e =
      let start = record l { dropped = 0 } in
      let next = (dispatch_decoded St Raw decode r (decode raw) start).1 in
      if_cases
        (λ (p : LoopEnd × Reader St).
          p.0 ≡ gone
          → (p.1.st ≡ serve_all ms (serve (decode raw) l.st))
            × (p.1.rate_limited ≡ l.rate_limited + refusals ms))
        (dispatch_decoded St Raw decode r (decode raw) start).0
        (λ _ ended.
          let (same, count) = read_loop-serve_all ms next ended in
          let kept = (counts-dispatch (decode raw) start).1 in
          (same ∙ ap (serve_all ms) (st-dispatch (decode raw) start), omega (arith, count, kept)))
        (λ _ ended. cc) e
