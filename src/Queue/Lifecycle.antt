-- ===== src/Queue/Lifecycle.antt =====
-- server/Queue.cpp: the life of a message over a history, what each call may do to its status and
-- the ways in which it leaves.
use monitor_queue.Prelude.{
  ℕ, ◌+◌, ◌≡◌, refl, sym, ap, ◌∙◌, ◌⊎◌, inl, inr, Bool, true, false, ◌&&◌, none, some, List, arith,
  Str, str_eq, str_eq_iff, to_string, ◌==◌, if◌then◌else◌, Bool-cases,
}
use monitor_queue.MsgMap.{find}
use monitor_queue.Queue.State.{Queue, milliseconds}
use monitor_queue.Queue.Defs.{
  Result, ok, err, push, Popped, blocked, popped, all_queues_empty, pop, ack, pop_ack, erase_failed,
  set_error_callback,
}
use monitor_queue.Queue.Defs.Rules.{pop_ack_parts}
use monitor_queue.Queue.Wakeups.{ack_impl-ack}
use monitor_queue.Queue.Threads.{monitor_pass, delay_pass, destroy}
use monitor_queue.Queue.History.{
  Call, pushes, pops, acks, pop_acks, erases, sets_callback, monitors, delays, destroys,
  after_result, after_pop, after_pop_ack, step,
}
use monitor_queue.Queue.Invariant.{Inv}
use monitor_queue.Queue.Invariant.Methods.{ack_impl-Inv}
use monitor_queue.Queue.Invariant.Scans.{msg_map-monitor_pass}
use monitor_queue.Queue.Monitoring.{limits, monitored, heap-monitor_pass}
use monitor_queue.Queue.Delaying.{released, heap-delay_pass}
use monitor_queue.Queue.View.{
  Status, waiting, leased, sleeping, dead, status, view, view_found, view_same,
}
use monitor_queue.Queue.View.Methods.{push-view, pop-view, ack-view}
use monitor_queue.Queue.Failed.{mem_id, is_dead, erase_failed-view}
use monitor_queue.Queue.Moves.{
  PopChange, AckChange, Fate, monitored-Change, released-Change, msg_map-delay_pass, scan_view,
}

pop-PopChange :
    (q : Queue) (id : Str) (s : Status) (now draw : ℕ) (r : Popped)
    → Inv q
    → view q id ≡ some s
    → pop q now draw ≡ r
    → (s' : Status) × (view (after_pop q r) id ≡ some s') × PopChange draw s s'
pop-PopChange q id s now draw blocked v e p = (s, e, inl refl)
pop-PopChange q id s now draw all_queues_empty v e p = (s, e, inl refl)
pop-PopChange q id s now draw (popped q' a) v e p =
    let (f, w, t, view') = pop-view q now draw id v p in
    elim (Bool-cases (str_eq (q'.heap a).message.id id)) [
      | inl y ↦
          let same = (str_eq_iff (q'.heap a).message.id id).0 y in
          let was : s ≡ waiting (q.heap a).priority = ground (arith, w, same) in
          (leased (to_string draw), view' ∙ ground arith, inr ((q.heap a).priority, was, refl))
      | inr n ↦ (s, view' ∙ ground arith, inl refl)
    ]

-- After a pop, an id that stood for nothing stands for nothing.
pop-missing :
    (q : Queue) (id : Str) (now draw : ℕ) (r : Popped)
    → Inv q
    → view q id ≡ none
    → pop q now draw ≡ r
    → view (after_pop q r) id ≡ none
pop-missing q id now draw blocked v e p = e
pop-missing q id now draw all_queues_empty v e p = e
pop-missing q id now draw (popped q' a) v e p =
    let (f, w, t, view') = pop-view q now draw id v p in
    ground (arith, view', w, e, str_eq_iff (q'.heap a).message.id id)

dead_status : (s : Status) → is_dead (some s) ≡ true → s ≡ dead
dead_status s h = ground arith

-- The message `id`, found at `p`.
module _ (q : Queue) (id : Str) (p : ℕ) (v : Inv q) (g : find id q.msg_map ≡ some p) where
  now_is : view q id ≡ some (status (q.heap p))
  now_is = view_found q id p g

  same-Fate :
      (q' : Queue)
      → view q' id ≡ view q id
      → (s' : Status) × (view q' id ≡ some s') × (s' ≡ status (q.heap p))
  same-Fate q' e = (status (q.heap p), e ∙ now_is, refl)

  push-Fate :
      (j : Str) (priority delay now : ℕ) (r : Result Queue)
      → push q j priority delay now ≡ r
      → Fate q (pushes j priority delay now) id (q.heap p) (after_result q r)
  push-Fate j priority delay now (err x) e = inr (same-Fate q refl)
  push-Fate j priority delay now (ok q') e =
      let (fresh, view') = push-view q j id priority delay now v e in
      inr (same-Fate q' (ground (arith, view', fresh, now_is, str_eq_iff j id)))

  -- What an acknowledgement does to the message.
  ack-AckChange :
      (j token : Str) (requeue : Bool) (delay now : ℕ) (q' : Queue)
      → ack q j token requeue delay now ≡ ok q'
      → ((view q' id ≡ none) × ((j ≡ id) × (requeue ≡ false) × (view q id ≡ some (leased token))))
        ⊎ ((s' : Status) × (view q' id ≡ some s')
            × AckChange j token requeue delay now id (q.heap p) s')
  ack-AckChange j token requeue delay now q' a =
      let (b, f, w, view') = ack-view q j token id requeue delay now v a in
      elim (Bool-cases (str_eq j id)) [
        | inr n ↦ inr (status (q.heap p), ground (arith, view', now_is), inl refl)
        | inl y ↦
            let same = (str_eq_iff j id).0 y in
            let was : status (q.heap p) ≡ leased token = ground (arith, w, same, now_is) in
            let at : b ≡ p = ground (arith, f, same, g) in
            elim (Bool-cases requeue) [
              | inr drop ↦ inl (ground (arith, view'), (same, drop, now_is ∙ ap some was))
              | inl again ↦ inr (
                _,
                ground (arith, view'),
                inr (
                  same,
                  again,
                  was,
                  ap
                      (λ a.
                        if delay == 0
                        then waiting (q.heap a).priority
                        else sleeping (now + milliseconds delay))
                      at,
                ),
              )
            ]
      ]

  ack-Fate :
      (j token : Str) (requeue : Bool) (delay now : ℕ) (r : Result Queue)
      → ack q j token requeue delay now ≡ r
      → Fate q (acks j token requeue delay now) id (q.heap p) (after_result q r)
  ack-Fate j token requeue delay now (err x) a = inr (status (q.heap p), now_is, inl refl)
  ack-Fate j token requeue delay now (ok q') a = ack-AckChange j token requeue delay now q' a

  pop_ack-Fate :
      (j token : Str) (requeue : Bool) (delay now draw : ℕ) (r : Result (Queue × Popped))
      → pop_ack q j token requeue delay now draw ≡ r
      → Fate q (pop_acks j token requeue delay now draw) id (q.heap p) (after_pop_ack q r)
  unfolding pop_ack
  pop_ack-Fate j token requeue delay now draw (err x) e =
      inr (status (q.heap p), now_is, (status (q.heap p), inl refl, inl refl))
  pop_ack-Fate j token requeue delay now draw (ok (q', r)) e =
      let (a, b) = pop_ack_parts q j token requeue delay now draw e in
      let v' =
        ack_impl-Inv v j token requeue delay now
          (sym (ack_impl-ack q j token requeue delay now) ∙ a) in
      elim (ack-AckChange j token requeue delay now q' a) [
        | inl (gone, why) ↦ inl (pop-missing q' id now draw r v' gone b, why)
        | inr (s, now', m) ↦
            let (s', w, m') = pop-PopChange q' id s now draw r v' now' b in inr (s', w, (s, m, m'))
      ]

  erase-Fate : (ids : List Str) → Fate q (erases ids) id (q.heap p) (erase_failed q ids).1
  erase-Fate ids =
      let (m, u) = erase_failed-view q ids id v in
      let was = now_is in
      elim (Bool-cases (mem_id id ids && is_dead (some (status (q.heap p))))) [
        | inl y ↦ inl (
          ground (arith, u, was),
          (ground arith, ground (arith, was, dead_status (status (q.heap p)))),
        )
        | inr n ↦ inr (same-Fate (erase_failed q ids).1 (ground (arith, u, was)))
      ]

  monitor-Fate : (now : ℕ) → Fate q (monitors now) id (q.heap p) (monitor_pass q now)
  monitor-Fate now = elim (Bool-cases q.run) [
    | inl y ↦ inr (
      status (monitored (limits q) now (q.heap p)),
      scan_view q (monitor_pass q now) id p (monitored (limits q) now) v
          (msg_map-monitor_pass q now) (heap-monitor_pass q now p v y) g,
      monitored-Change (limits q) now (q.heap p),
    )
    | inr n ↦
        let idle : monitor_pass q now ≡ q = unfold monitor_pass in ground arith in
        inr (status (q.heap p), ap (λ r. view r id) idle ∙ now_is, inl refl)
  ]

  delay-Fate : (now : ℕ) → Fate q (delays now) id (q.heap p) (delay_pass q now)
  delay-Fate now = elim (Bool-cases q.run) [
    | inl y ↦ inr (
      status (released now (q.heap p)),
      scan_view q (delay_pass q now) id p (released now) v (msg_map-delay_pass q now)
          (heap-delay_pass q now p v y) g,
      released-Change now (q.heap p),
    )
    | inr n ↦
        let idle : delay_pass q now ≡ q = unfold delay_pass in ground arith in
        inr (status (q.heap p), ap (λ r. view r id) idle ∙ now_is, inl refl)
  ]

-- A message of a queue with the invariant is lost only to an acknowledgement under its token that
-- does not requeue it, or, when dead, to an erasure that names it. Otherwise a step keeps it, and
-- its status changes at most so: a pop leases it, waiting, under the token drawn; an
-- acknowledgement under its token that requeues it has it wait in its priority, or sleep for the
-- delay; the monitor, when it is overdue, has it wait again or, at its last try, dead; the
-- delay thread has it wait once it is due. An acknowledgement with a pop may do both in turn; the
-- other calls leave it as it is.
pub step-Fate :
    (q : Queue) (c : Call) (id : Str) (p : ℕ)
    → Inv q
    → find id q.msg_map ≡ some p
    → Fate q c id (q.heap p) (step q c)
unfolding step
step-Fate q (pushes j priority delay now) id p v g =
    push-Fate q id p v g j priority delay now _ refl
step-Fate q (pops now draw) id p v g =
    inr (pop-PopChange q id (status (q.heap p)) now draw _ v (view_found q id p g) refl)
step-Fate q (acks j token requeue delay now) id p v g =
    ack-Fate q id p v g j token requeue delay now _ refl
step-Fate q (pop_acks j token requeue delay now draw) id p v g =
    pop_ack-Fate q id p v g j token requeue delay now draw _ refl
step-Fate q (erases ids) id p v g = erase-Fate q id p v g ids
step-Fate q (sets_callback cb) id p v g =
    inr (same-Fate q id p v g _ (unfold set_error_callback in view_same q _ id refl (λ a f. refl)))
step-Fate q (monitors now) id p v g = monitor-Fate q id p v g now
step-Fate q (delays now) id p v g = delay-Fate q id p v g now
step-Fate q destroys id p v g =
    inr (same-Fate q id p v g _ (unfold destroy in view_same q _ id refl (λ a f. refl)))
