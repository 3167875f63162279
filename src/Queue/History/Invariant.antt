-- ===== src/Queue/History/Invariant.antt =====
-- server/Queue.cpp: histories of calls, and the invariant.
use monitor_queue.Prelude.{
  ℕ, zero, suc, ◌^◌, ◌<◌, ◌≡◌, refl, sym, Bool, List, [], ◌∷◌, arith, Str, count,
}
use monitor_queue.MsgMap.{find}
use monitor_queue.MsgMap.Pointers.{ptrs}
use monitor_queue.Queue.State.{Queue, new_queue, empty_queues}
use monitor_queue.Queue.State.Tally.{tally}
use monitor_queue.Queue.Buckets.{total, count_all}
use monitor_queue.Queue.Defs.{
  Result, ok, err, Popped, blocked, popped, all_queues_empty, pop, pop_impl, ack, pop_ack,
  set_error_callback,
}
use monitor_queue.Queue.Invariant.{Inv}
use monitor_queue.Queue.Invariant.Bounds.{sent-Inv}
use monitor_queue.Queue.Invariant.Methods.{push-Inv, pop_impl-Inv, ack_impl-Inv, pop_ack-Inv}
use monitor_queue.Queue.Invariant.Erasing.{erase_failed-Inv}
use monitor_queue.Queue.Invariant.Scans.{monitor_pass-Inv, delay_pass-Inv, destroy-Inv}
use monitor_queue.Queue.History.{
  Call, pushes, pops, acks, pop_acks, erases, sets_callback, monitors, delays, destroys,
  after_result, after_pop, after_pop_ack, step, run,
}

total-empty : (n : ℕ) → total (empty_queues n) ≡ 0
unfolding empty_queues total
total-empty zero = refl
total-empty (suc n) = omega (arith, total-empty n)

count_all-empty : (p n : ℕ) → count_all p (empty_queues n) ≡ 0
unfolding empty_queues count_all count
count_all-empty p zero = refl
count_all-empty p (suc n) = omega (arith, count_all-empty p n)

-- A new queue, of a capacity that a `size_t` holds.
pub new_queue-Inv :
    (priorities capacity ack_timeout max_retries boost_timeout period : ℕ) (err_cb : Bool)
    → capacity < 2 ^ 64
    → Inv (new_queue priorities capacity ack_timeout max_retries boost_timeout period err_cb)
unfolding new_queue count ptrs tally find
new_queue-Inv n c a r b m cb lt = record {
  owned = λ p. ground arith;
  ordered = tt;
  within = omega arith;
  sized = lt;
  entry = λ p d. absurd (omega arith);
  named = λ id p f. absurd (cc);
  in_queue = λ p. count_all-empty p n;
  at_home = λ p e. ground (arith, count_all-empty p n);
  in_delay = λ p. refl;
  due_order = tt;
  counts_queued = ground (arith, total-empty n);
  tally_queued = total-empty n;
  tally_delayed = refl;
  tally_failed = refl;
}

after_result-Inv :
    (q : Queue) (r : Result Queue)
    → Inv q
    → ((q' : Queue) → r ≡ ok q' → Inv q')
    → Inv (after_result q r)
after_result-Inv q (ok q') v h = h q' refl
after_result-Inv q (err e) v h = v

after_pop-Inv :
    (q : Queue) (now draw : ℕ) (r : Popped) → Inv q → r ≡ pop_impl q now draw → Inv (after_pop q r)
after_pop-Inv q now draw blocked v e = v
after_pop-Inv q now draw (popped q' p) v e = pop_impl-Inv v now draw (sym e)
after_pop-Inv q now draw all_queues_empty v e = v

after_pop_ack-Inv :
    (q : Queue) (id token : Str) (requeue : Bool) (delay now draw : ℕ) (r : Result (Queue × Popped))
    → Inv q
    → r ≡ pop_ack q id token requeue delay now draw
    → Inv (after_pop_ack q r)
after_pop_ack-Inv q id token requeue delay now draw (ok (q', r)) v e =
    let (v', e') = pop_ack-Inv v id token requeue delay now draw (sym e) in
    after_pop-Inv q' now draw r v' e'
after_pop_ack-Inv q id token requeue delay now draw (err x) v e = v

-- Every call, at every time, keeps the invariant, on all its branches.
pub step-Inv : (q : Queue) (c : Call) → Inv q → Inv (step q c)
unfolding step pop ack set_error_callback
step-Inv q (pushes id priority delay now) v =
    after_result-Inv q _ v (λ q' e. push-Inv v id priority delay now e)
step-Inv q (pops now draw) v = after_pop-Inv q now draw _ v refl
step-Inv q (acks id token requeue delay now) v =
    after_result-Inv q _ v (λ q' e. ack_impl-Inv v id token requeue delay now e)
step-Inv q (pop_acks id token requeue delay now draw) v =
    after_pop_ack-Inv q id token requeue delay now draw _ v refl
step-Inv q (erases ids) v = erase_failed-Inv q ids v
step-Inv q (sets_callback cb) v = sent-Inv v q.outputs q.run cb
step-Inv q (monitors now) v = monitor_pass-Inv q now v
step-Inv q (delays now) v = delay_pass-Inv q now v
step-Inv q destroys v = destroy-Inv q v

pub run-Inv : (q : Queue) (cs : List Call) → Inv q → Inv (run q cs)
unfolding run
run-Inv q [] v = v
run-Inv q (c ∷ cs) v = run-Inv (step q c) cs (step-Inv q c v)

-- Whatever the configuration, as far as the capacity is a `size_t`, and whatever the calls, their
-- arguments, their order and the times at which they run: each allocated entry is in the map or in
-- the pool, and there once; the priority queues and the delay queue hold exactly the messages in
-- the state to be there, once each; the counters count them, within the capacity; and a message
-- has a token exactly while it is running or failed.
pub reachable-Inv :
    (priorities capacity ack_timeout max_retries boost_timeout period : ℕ) (err_cb : Bool)
    (cs : List Call)
    → capacity < 2 ^ 64
    → Inv
        (run (new_queue priorities capacity ack_timeout max_retries boost_timeout period err_cb) cs)
reachable-Inv n c a r b m cb cs lt = run-Inv _ cs (new_queue-Inv n c a r b m cb lt)
