-- ===== src/Net/Session/Order.antt =====
-- Messages to a client: in order and without a gap (internal/netconn/session.go: Send, writeLoop,
-- Close). A call of Send is one step.
use nytrpg.Prelude.{
  Bool, List, [], ap, arith, false, if◌then◌else◌, inl, inr, length, length-append, ltb, refl, sym,
  tests, true, ◌++◌, ◌∙◌, ◌∷◌, ◌≡◌, ◌≤◌, ◌⊎◌,
}
use nytrpg.Game.Duel.Invariant.{if_cases, if_keeps}
use nytrpg.Game.Side.{done}
use nytrpg.Net.Session.{
  Delivery, Session, WriteCase, close, fails_on, new_session, next_message, nothing, ping,
  sees_closed, send_msg, send_queue_size, stop_writing, write_case, write_from, write_next, wrote,
}
use nytrpg.Text.{Text}

-- What happens to a session, in any interleaving.
pub data SessionStep : Type 0 where
  sends : Text → SessionStep
  writes : WriteCase → SessionStep
  closes : SessionStep

-- A session, the messages given to Send, those that it refused, those that were written, and those
-- that could not be written.
pub record Traffic : Type 0 where
  pub session : Session
  pub sent : List Text
  pub refused : List Text
  pub written : List Text
  pub lost : List Text

abbrev pub delivered : Delivery → Traffic → Traffic
delivered nothing t = t
delivered (wrote msg) t = record t { written = t.written ++ msg ∷ [] }
delivered (fails_on msg) t = record t { lost = t.lost ++ msg ∷ [] }

unfoldable pub session_step : SessionStep → Traffic → Traffic
unfolding send_msg write_next
session_step (sends msg) t =
    let (ok, s) = send_msg msg t.session in
    record t {
      session = s;
      sent = t.sent ++ msg ∷ [];
      refused = (if ok then t.refused else t.refused ++ msg ∷ []);
    }
session_step (writes turn) t =
    let (msg, s) = write_next turn t.session in delivered msg (record t { session = s })
session_step closes t = record t { session = close t.session }

unfoldable pub session_run : List SessionStep → Traffic → Traffic
unfolding session_step
session_run [] t = t
session_run (s ∷ ss) t = session_run ss (session_step s t)

abbrev pub no_traffic : Traffic
no_traffic = record { session = new_session; sent = []; refused = []; written = []; lost = [] }

-- What was written is how the messages given to Send begin. After it come the one that could not be
-- written, if that happened, then those that wait, at most 64, and then those that Send refused. If
-- one could not be written or was refused, the session is closed.
pub record IsOrdered (t : Traffic) : Type 0 where
  pub no_gap : t.sent ≡ t.written ++ (t.lost ++ (t.session.queue ++ t.refused))
  pub refused_closed : (t.refused ≡ []) ⊎ (t.session.is_closed ≡ true)
  pub lost_done : (t.lost ≡ []) ⊎ (t.session.writer_done ≡ true)
  pub done_closed : (t.session.writer_done ≡ false) ⊎ (t.session.is_closed ≡ true)
  pub lost_one : length t.lost ≤ 1
  pub within : length t.session.queue ≤ send_queue_size

append_assoc : (xs ys zs : List Text) → (xs ++ ys) ++ zs ≡ xs ++ (ys ++ zs)
append_assoc [] ys zs = refl
append_assoc (x ∷ xs) ys zs = ap (λ (r : List Text). x ∷ r) (append_assoc xs ys zs)

append_nil : (xs : List Text) → xs ++ [] ≡ xs
append_nil [] = refl
append_nil (x ∷ xs) = ap (λ (r : List Text). x ∷ r) (append_nil xs)

-- A message more at the end of the four lists.
refused_more :
    (w l q r s : List Text) (m : Text)
    → s ≡ w ++ (l ++ (q ++ r))
    → s ++ m ∷ [] ≡ w ++ (l ++ (q ++ (r ++ m ∷ [])))
refused_more w l q r s m e =
    ap (λ (x : List Text). x ++ m ∷ []) e
    ∙ append_assoc w _ _
    ∙ ap (λ (x : List Text). w ++ x)
        (append_assoc l _ _ ∙ ap (λ (x : List Text). l ++ x) (append_assoc q r _))

queued_more :
    (w l q r s : List Text) (m : Text)
    → r ≡ []
    → s ≡ w ++ (l ++ (q ++ r))
    → s ++ m ∷ [] ≡ w ++ (l ++ ((q ++ m ∷ []) ++ r))
queued_more w l q r s m none_refused e =
    refused_more w l q r s m e
    ∙ ap (λ (x : List Text). w ++ (l ++ (q ++ (x ++ m ∷ [])))) none_refused
    ∙ ap (λ (x : List Text). w ++ (l ++ x)) (sym (append_nil (q ++ m ∷ [])))
    ∙ ap (λ (x : List Text). w ++ (l ++ ((q ++ m ∷ []) ++ x))) (sym none_refused)

written_more :
    (w l q r s : List Text) (m : Text)
    → l ≡ []
    → s ≡ w ++ (l ++ (m ∷ q ++ r))
    → s ≡ (w ++ m ∷ []) ++ (l ++ (q ++ r))
written_more w l q r s m none_lost e =
    e
    ∙ ap (λ (x : List Text). w ++ (x ++ (m ∷ q ++ r))) none_lost
    ∙ sym (append_assoc w (m ∷ []) (q ++ r))
    ∙ ap (λ (x : List Text). (w ++ m ∷ []) ++ (x ++ (q ++ r))) (sym none_lost)

lost_more :
    (w l q r s : List Text) (m : Text)
    → s ≡ w ++ (l ++ (m ∷ q ++ r))
    → s ≡ w ++ ((l ++ m ∷ []) ++ (q ++ r))
lost_more w l q r s m e =
    e ∙ ap (λ (x : List Text). w ++ x) (sym (append_assoc l (m ∷ []) (q ++ r)))

stop_writing-IsOrdered :
    (t : Traffic) → IsOrdered t → IsOrdered (record t { session = stop_writing t.session })
stop_writing-IsOrdered t v = record {
  no_gap = v.no_gap;
  refused_closed = inr refl;
  lost_done = inr refl;
  done_closed = inr refl;
  lost_one = v.lost_one;
  within = v.within;
}

not_done : (l : List Text) (done : Bool) → (l ≡ []) ⊎ (done ≡ true) → done ≡ false → l ≡ []
not_done l done (inl e) h = e
not_done l done (inr e) h = cc

write_from-IsOrdered :
    (ok : Bool) (queue : List Text) (t : Traffic)
    → t.session.queue ≡ queue
    → t.lost ≡ []
    → IsOrdered t
    → let r = write_from ok queue t.session in
      IsOrdered (delivered r.0 (record t { session = r.1 }))
write_from-IsOrdered ok [] t e none_lost v = v
write_from-IsOrdered true (m ∷ queue) t e none_lost v = record {
  no_gap =
      written_more t.written t.lost queue t.refused t.sent m none_lost
        (v.no_gap ∙ ap (λ (q : List Text). t.written ++ (t.lost ++ (q ++ t.refused))) e);
  refused_closed = v.refused_closed;
  lost_done = v.lost_done;
  done_closed = v.done_closed;
  lost_one = v.lost_one;
  within = omega (arith, v.within, ap (λ (q : List Text). length q) e);
}
write_from-IsOrdered false (m ∷ queue) t e none_lost v = record {
  no_gap =
      lost_more t.written t.lost queue t.refused t.sent m
        (v.no_gap ∙ ap (λ (q : List Text). t.written ++ (t.lost ++ (q ++ t.refused))) e);
  refused_closed = inr refl;
  lost_done = inr refl;
  done_closed = inr refl;
  lost_one =
      omega (arith, ap (λ (l : List Text). length l) none_lost, length-append t.lost (m ∷ []));
  within = omega (arith, v.within, ap (λ (q : List Text). length q) e);
}

write_case-IsOrdered :
    (turn : WriteCase) (t : Traffic)
    → t.lost ≡ []
    → IsOrdered t
    → let r = write_case turn t.session in IsOrdered (delivered r.0 (record t { session = r.1 }))
write_case-IsOrdered sees_closed t none_lost v =
    if_keeps (λ (s : Session). IsOrdered (record t { session = s })) t.session.is_closed
      (stop_writing-IsOrdered t v) v
write_case-IsOrdered (next_message ok) t none_lost v =
    write_from-IsOrdered ok t.session.queue t refl none_lost v
write_case-IsOrdered (ping ok) t none_lost v =
    if_keeps (λ (s : Session). IsOrdered (record t { session = s })) ok v
      (stop_writing-IsOrdered t v)

send_msg-IsOrdered :
    (msg : Text) (t : Traffic) → IsOrdered t → IsOrdered (session_step (sends msg) t)
unfolding session_step send_msg
send_msg-IsOrdered msg t v =
    let s = t.session in
    let after = λ (r : Bool × Session). record t {
      session = r.1;
      sent = t.sent ++ msg ∷ [];
      refused = (if r.0 then t.refused else t.refused ++ msg ∷ []);
    } in
    let one_more = refused_more t.written t.lost s.queue t.refused t.sent msg v.no_gap in
    if_cases (λ (r : Bool × Session). IsOrdered (after r)) s.is_closed
      (λ over. record {
        no_gap = one_more;
        refused_closed = inr over;
        lost_done = v.lost_done;
        done_closed = inr over;
        lost_one = v.lost_one;
        within = v.within;
      })
      (λ open_still.
        if_cases (λ (r : Bool × Session). IsOrdered (after r))
          (ltb (length s.queue) send_queue_size)
          (λ room. record {
            no_gap =
                queued_more t.written t.lost s.queue t.refused t.sent msg
                  (not_done t.refused s.is_closed v.refused_closed open_still) v.no_gap;
            refused_closed = v.refused_closed;
            lost_done = v.lost_done;
            done_closed = v.done_closed;
            lost_one = v.lost_one;
            within = omega (tests, length-append s.queue (msg ∷ []));
          })
          (λ _. record {
            no_gap = one_more;
            refused_closed = inr refl;
            lost_done = v.lost_done;
            done_closed = inr refl;
            lost_one = v.lost_one;
            within = v.within;
          }))

step-IsOrdered : (s : SessionStep) (t : Traffic) → IsOrdered t → IsOrdered (session_step s t)
unfolding session_step write_next
step-IsOrdered (sends msg) t v = send_msg-IsOrdered msg t v
step-IsOrdered (writes turn) t v =
    if_cases (λ (r : Delivery × Session). IsOrdered (delivered r.0 (record t { session = r.1 })))
      t.session.writer_done (λ _. v)
      (λ writing.
        write_case-IsOrdered turn t (not_done t.lost t.session.writer_done v.lost_done writing) v)
step-IsOrdered closes t v = record {
  no_gap = v.no_gap;
  refused_closed = inr refl;
  lost_done = v.lost_done;
  done_closed = inr refl;
  lost_one = v.lost_one;
  within = v.within;
}

-- Whatever is sent, written and closed, in any interleaving of whole calls and turns, failed writes
-- included, a client gets the messages that were given to Send in their order and without a gap: what
-- was written is how they begin. Then come the one that could not be written, if there is one, those
-- that wait, 64 at most, and those that Send refused; where one could not be written or was refused,
-- the session is closed.
pub session_run-IsOrdered :
    (ss : List SessionStep) (t : Traffic) → IsOrdered t → IsOrdered (session_run ss t)
unfolding session_run
session_run-IsOrdered [] t v = v
session_run-IsOrdered (s ∷ ss) t v =
    session_run-IsOrdered ss (session_step s t) (step-IsOrdered s t v)
