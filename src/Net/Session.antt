-- ===== src/Net/Session.antt =====
-- A player's websocket session (internal/netconn/session.go): the queue of messages to the client,
-- the loop that reads its messages, and the router. Decoding (protocol.Decode) and what the limiter of
-- golang.org/x/time/rate answers, and whether a write succeeds, are arguments; deadlines and logging are
-- left out.
pub mod Order
pub mod Flood
use nytrpg.Prelude.{
  Bool, List, Option, [], false, if◌then◌else◌, insert, is_some, length, lookup, ltb, none, some,
  true, ℕ, ◌++◌, ◌+◌, ◌∷◌,
}
use nytrpg.Text.{Text}

-- The part of `Session` that its methods decide by, whether `writeLoop` has ended, and `Stats.SlowClientKicks`.
pub record Session : Type 0 where
  pub queue : List Text
  pub is_closed : Bool
  pub writer_done : Bool
  pub slow_kicks : ℕ

abbrev pub send_queue_size : ℕ
send_queue_size = 64

-- `newSession`
abbrev pub new_session : Session
new_session = record { queue = []; is_closed = false; writer_done = false; slow_kicks = 0 }

-- `Close`
abbrev pub close : Session → Session
close s = record s { is_closed = true }

-- `Session.Send`
unfoldable pub send_msg : Text → Session → Bool × Session
send_msg msg s =
    if s.is_closed
    then (false, s)
    else if ltb (length s.queue) send_queue_size
    then (true, record s { queue = s.queue ++ msg ∷ [] })
    else (false, close (record s { slow_kicks = s.slow_kicks + 1 }))

-- The case that `writeLoop` selects: that the session is closed, a message, or the ticker. A write
-- carries whether it succeeds.
pub data WriteCase : Type 0 where
  sees_closed : WriteCase
  next_message ping : Bool → WriteCase

-- What becomes of a message.
pub data Delivery : Type 0 where
  nothing : Delivery
  wrote fails_on : Text → Delivery

-- The return of `writeLoop`, with its deferred Close.
abbrev pub stop_writing : Session → Session
stop_writing s = close (record s { writer_done = true })

-- A message of the queue, if one waits.
abbrev pub write_from : Bool → List Text → Session → Delivery × Session
write_from ok [] s = (nothing, s)
write_from ok (msg ∷ queue) s =
    let left = record s { queue = queue } in
    if ok then (wrote msg, left) else (fails_on msg, stop_writing left)

abbrev pub write_case : WriteCase → Session → Delivery × Session
write_case sees_closed s = (nothing, if s.is_closed then stop_writing s else s)
write_case (next_message ok) s = write_from ok s.queue s
write_case (ping ok) s = (nothing, if ok then s else stop_writing s)

-- A turn of `writeLoop`, unless it has ended.
unfoldable pub write_next : WriteCase → Session → Delivery × Session
write_next turn s = if s.writer_done then (nothing, s) else write_case turn s

abbrev pub max_dropped : ℕ
max_dropped = 100

-- How `readLoop` ends: the connection is gone, the client floods, or a handler panicked.
pub data LoopEnd : Type 0 where
  gone flooded panicked : LoopEnd

-- The world of the handlers, the messages dropped in a row, and `Stats`.
pub record Reader (St : Type 0) : Type 0 where
  pub st : St
  pub dropped : ℕ
  pub rate_limited : ℕ
  pub flood_kicks : ℕ
  pub bad_messages : ℕ
  pub handler_panics : ℕ

module _ (St Raw : Type 0) where
  -- A handler's run; `none` is a panic.
  abbrev pub Handler : Type 0
  Handler = Raw → St → Option St

  -- `Router`
  abbrev pub Router : Type 0
  Router = List (ℕ × Handler)

  -- `Router.Handle`; `none` is its panic.
  unfoldable pub add_handler : ℕ → Handler → Router → Option Router
  add_handler t h r = if is_some (lookup t r) then none else some (insert t h r)

  module _ (decode : Raw → Option (ℕ × Raw)) where
    abbrev pub call : Option Handler → Raw → Reader St → Bool × Reader St
    call none body l = (true, record l { bad_messages = l.bad_messages + 1 })
    call (some h) body l = elim (h body l.st) [
      | none ↦ (false, record l { handler_panics = l.handler_panics + 1 })
      | some st ↦ (true, record l { st = st })
    ]

    abbrev pub dispatch_decoded : Router → Option (ℕ × Raw) → Reader St → Bool × Reader St
    dispatch_decoded r none l = (true, record l { bad_messages = l.bad_messages + 1 })
    dispatch_decoded r (some (t, body)) l = call (lookup t r) body l

    -- `Session.dispatch` of `Router.dispatch`
    unfoldable pub dispatch : Router → Raw → Reader St → Bool × Reader St
    dispatch r raw l = dispatch_decoded r (decode raw) l

    -- `readLoop`, of the messages that come before the connection ends, each with the answer of the
    -- limiter.
    unfoldable pub read_loop : Router → List (Raw × Bool) → Reader St → LoopEnd × Reader St
    unfolding dispatch
    read_loop r [] l = (gone, l)
    read_loop r ((raw, false) ∷ ms) l =
        let counted = record l { rate_limited = l.rate_limited + 1; dropped = l.dropped + 1 } in
        let rest = read_loop r ms counted in
        if ltb max_dropped counted.dropped
        then (flooded, record counted { flood_kicks = counted.flood_kicks + 1 })
        else rest
    read_loop r ((raw, true) ∷ ms) l =
        let (ok, next) = dispatch r raw (record l { dropped = 0 }) in
        let rest = read_loop r ms next in if ok then rest else (panicked, next)
