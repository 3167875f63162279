-- ===== src/Queue/Acks.antt =====
-- server/Queue.cpp, ackImpl: which acknowledgements are accepted, and which refused.
use monitor_queue.Prelude.{
  ℕ, ◌≡◌, ◌≢◌, ◌↔◌, sym, ap, ◌∙◌, inl, inr, Bool, true, none, some, [], arith, Str, str_eq,
  str_eq_iff, ◌==◌, if◌then◌else◌, Option-cases, Bool-cases,
}
use monitor_queue.MsgMap.{find}
use monitor_queue.MsgMap.Pointers.{find-count}
use monitor_queue.Queue.State.{Queue, MsgEntry, running}
use monitor_queue.Queue.Defs.{
  ok, err, no_such_id, invalid_token, invalid_state, ack, ack_impl, requeue_msg, drop_msg, enqueue,
  insert_delayed_msg,
}
use monitor_queue.Queue.Defs.Rules.{ack_ok}
use monitor_queue.Queue.Threads.{monitor_pass, bump_fails}
use monitor_queue.Queue.Monitoring.{is_overdue, limits, heap-monitor_pass}
use monitor_queue.Queue.Invariant.{Inv}
use monitor_queue.Queue.Invariant.TakeOut.{found_once}
use monitor_queue.Queue.Invariant.Scans.{msg_map-monitor_pass}
use monitor_queue.Queue.View.{leased, status, view, view_found, view_missing}
use monitor_queue.Queue.View.Methods.{ack-view, requeue_msg-map, find-drop_msg}

leased_entry :
    (e : MsgEntry) (t : Str)
    → some (status e) ≡ some (leased t)
    → (e.state ≡ running) × (e.message.token ≡ t)
leased_entry e t h = ground arith

ack_accepts :
    (q : Queue) (id : Str) (requeue : Bool) (delay now : ℕ) (p : ℕ)
    → find id q.msg_map ≡ some p
    → (q.heap p).state ≡ running
    → ack q id (q.heap p).message.token requeue delay now
      ≡ ok (if requeue then requeue_msg q p delay now else drop_msg q id p)
unfolding ack ack_impl
ack_accepts q id requeue delay now p f s =
    rw (f, ack_impl)
      (ground (arith, s, str_eq_iff (q.heap p).message.token (q.heap p).message.token))

-- On a queue with the invariant, an acknowledgement is accepted exactly when its message is
-- leased under its token.
pub ack_iff_leased :
    (q : Queue) (id token : Str) (requeue : Bool) (delay now : ℕ)
    → Inv q
    → ((q' : Queue) × (ack q id token requeue delay now ≡ ok q'))
      ↔ (view q id ≡ some (leased token))
ack_iff_leased q id token requeue delay now v = (accepted, of_lease)
  where
    accepted :
        ((q' : Queue) × (ack q id token requeue delay now ≡ ok q'))
        → view q id ≡ some (leased token)
    accepted (q', e) = (ack-view q id token id requeue delay now v e).2

    of_lease :
        view q id ≡ some (leased token) → (q' : Queue) × (ack q id token requeue delay now ≡ ok q')
    of_lease l = elim (Option-cases (find id q.msg_map)) [
      | inl n ↦ absurd (cc (view_missing q id n))
      | inr (p, f) ↦
          let (s, t) = leased_entry (q.heap p) token (sym (view_found q id p f) ∙ l) in
          (
            if requeue then requeue_msg q p delay now else drop_msg q id p,
            rw (← t) (ack_accepts q id requeue delay now p f s),
          )
    ]

ack_missing :
    (q : Queue) (id token : Str) (requeue : Bool) (delay now : ℕ)
    → find id q.msg_map ≡ none
    → ack q id token requeue delay now ≡ err no_such_id
unfolding ack ack_impl
ack_missing q id token requeue delay now n = rw (n, ack_impl)

-- What a message in a state other than running answers to an acknowledgement.
ack_refused :
    (q : Queue) (id token : Str) (requeue : Bool) (delay now : ℕ) (p : ℕ)
    → find id q.msg_map ≡ some p
    → (q.heap p).state ≢ running
    → ack q id token requeue delay now
      ≡ (if str_eq (q.heap p).message.token token then err invalid_state else err invalid_token)
unfolding ack ack_impl
ack_refused q id token requeue delay now p f s = rw (f, ack_impl) (ground (arith, s))

requeue_msg-entry :
    (q : Queue) (p delay now : ℕ)
    → (((requeue_msg q p delay now).heap p).state ≢ running)
      × (((requeue_msg q p delay now).heap p).message.token ≡ [])
unfolding requeue_msg enqueue insert_delayed_msg
requeue_msg-entry q p delay now = (λ e. ground arith, ground arith)

-- On a queue with the invariant, a second acknowledgement with the token of an accepted one,
-- made next, is refused.
pub ack_twice :
    (q : Queue) (id token : Str) (requeue again : Bool) (delay now delay' now' : ℕ) {q' : Queue}
    → Inv q
    → ack q id token requeue delay now ≡ ok q'
    → ack q' id token again delay' now' ≡ (if requeue then err invalid_token else err no_such_id)
ack_twice q id token requeue again delay now delay' now' {q' = q'} v e =
    let (p, f, k, s, same) = ack_ok q id token requeue delay now e in
    let kept = (v.entry p (find-count id p q.msg_map f)).has_token in
    elim (Bool-cases requeue) [
      | inl y ↦
          let r = requeue_msg-entry q p delay now in
          let f' : find id q'.msg_map ≡ some p = ground (arith, f, requeue_msg-map q p delay now) in
          ack_refused q' id token again delay' now' p f' (ground (arith, r.0))
          ∙ ground (arith, r.1, kept, str_eq_iff [] token)
      | inr n ↦
          ack_missing q' id token again delay' now' (ground (arith, find-drop_msg q id p v.ordered))
          ∙ ground arith
    ]

-- A consumer whose time is up has lost its message, in a running queue with the invariant:
-- after the pass of the monitor that finds so, its acknowledgement is refused, with the token
-- or, if the message has failed for good, the state.
pub late_ack_refused :
    (q : Queue) (id : Str) (p now : ℕ) (requeue : Bool) (delay now' : ℕ)
    → Inv q
    → q.run ≡ true
    → find id q.msg_map ≡ some p
    → is_overdue (limits q) now (q.heap p) ≡ true
    → ack (monitor_pass q now) id (q.heap p).message.token requeue delay now'
      ≡ (if bump_fails (q.heap p) == q.max_retries then err invalid_state else err invalid_token)
late_ack_refused q id p now requeue delay now' v r f o =
    let h = heap-monitor_pass q now p v r in
    let f' = ap (find id) (msg_map-monitor_pass q now) ∙ f in
    let c = found_once v id p f in
    let kept = (v.entry p (omega (arith, c))).has_token in
    let t = (q.heap p).message.token in
    ack_refused (monitor_pass q now) id t requeue delay now' p f' (λ e. ground (arith, h, c))
    ∙ ground (arith, h, c, kept, str_eq_iff t t, str_eq_iff [] t)
