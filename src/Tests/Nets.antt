-- ===== src/Tests/Nets.antt =====
-- A session's messages and a small router (internal/netconn).
use nytrpg.Prelude.{
  Bool, List, Option, [], arith, false, if◌then◌else◌, inl, none, refl, replicate, some, suc, true,
  zero, ℕ, ◌%◌, ◌++◌, ◌+◌, ◌==◌, ◌∷◌, ◌≡◌,
}
use nytrpg.Net.Session.{Reader, Router, next_message, ping, read_loop}
use nytrpg.Net.Session.Flood.{AreRefused, read_loop-serve_all, read_loop-stops, refusals, serve_all}
use nytrpg.Net.Session.Order.{
  IsOrdered, SessionStep, no_traffic, sends, session_run, session_run-IsOrdered, writes,
}
use nytrpg.Text.{Text}

abbrev hello : Text
hello = 104 ∷ 105 ∷ []

-- Two messages are written, the third cannot be, and then Send refuses.
abbrev some_traffic : List SessionStep
some_traffic =
    sends hello
    ∷ sends (120 ∷ [])
    ∷ writes (next_message true)
    ∷ writes (ping true)
    ∷ sends (121 ∷ [])
    ∷ writes (next_message true)
    ∷ sends (122 ∷ [])
    ∷ writes (next_message false)
    ∷ sends hello
    ∷ writes (next_message true)
    ∷ []

session_run-IsOrdered_example : IsOrdered (session_run some_traffic no_traffic)
session_run-IsOrdered_example = session_run-IsOrdered some_traffic no_traffic (record {
  no_gap = refl;
  refused_closed = inl refl;
  lost_done = inl refl;
  done_closed = inl refl;
  lost_one = ground arith;
  within = ground arith;
})

loses_one :
    let t = session_run some_traffic no_traffic in
    (t.written ≡ hello ∷ (120 ∷ []) ∷ [])
    × (t.lost ≡ (121 ∷ []) ∷ [])
    × (t.session.queue ≡ (122 ∷ []) ∷ [])
    × (t.refused ≡ hello ∷ [])
unfolding session_run
loses_one = (refl, refl, refl, refl)

-- Messages are numbers; a message's type is its remainder by 4, and its handler adds it up, or panics.
abbrev decode_number : ℕ → Option (ℕ × ℕ)
decode_number n = if n == 0 then none else some (n % 4, n)

abbrev adders : Router ℕ ℕ
adders = (1, λ n total. some (total + n)) ∷ (2, λ n total. none) ∷ []

abbrev fresh_reader : Reader ℕ
fresh_reader = record {
  st = 0;
  dropped = 0;
  rate_limited = 0;
  flood_kicks = 0;
  bad_messages = 0;
  handler_panics = 0;
}

abbrev first_number : ℕ
first_number = 1

abbrev refused : List (ℕ × Bool)
refused = replicate 101 (1, false)

refused_all : (n : ℕ) → AreRefused (replicate n (first_number, false))
refused_all zero = tt
refused_all (suc n) = (refl, refused_all n)

read_loop-stops_example :
    read_loop ℕ ℕ decode_number adders ((5, true) ∷ refused ++ (9, true) ∷ []) fresh_reader
    ≡ read_loop ℕ ℕ decode_number adders ((5, true) ∷ refused) fresh_reader
read_loop-stops_example =
    read_loop-stops ℕ ℕ decode_number adders ((5, true) ∷ []) refused ((9, true) ∷ []) fresh_reader
      (ground arith) (refused_all 101) refl

abbrev three_numbers : List (ℕ × Bool)
three_numbers = (5, true) ∷ (9, false) ∷ (0, true) ∷ (13, true) ∷ []

read_loop-serve_all_example :
    ((read_loop ℕ ℕ decode_number adders three_numbers fresh_reader).1.st
      ≡ serve_all ℕ ℕ decode_number adders three_numbers 0)
    × ((read_loop ℕ ℕ decode_number adders three_numbers fresh_reader).1.rate_limited
        ≡ 0 + refusals ℕ ℕ decode_number adders three_numbers)
unfolding read_loop
read_loop-serve_all_example =
    read_loop-serve_all ℕ ℕ decode_number adders three_numbers fresh_reader refl

eighteen : serve_all ℕ ℕ decode_number adders three_numbers 0 ≡ 18
eighteen = refl
