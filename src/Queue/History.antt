-- ===== src/Queue/History.antt =====
-- A queue's history: the calls of its methods by any number of threads, and the passes of its own
-- two threads, in the order in which they hold `m_mutex`. A call that throws, or that waits, leaves
-- the queue as it was; a waiting pop is tried again when it is woken.
pub mod Invariant
use monitor_queue.Prelude.{ℕ, Bool, List, [], ◌∷◌, Str}
use monitor_queue.Queue.State.{Queue}
use monitor_queue.Queue.Defs.{
  Result, ok, err, push, Popped, blocked, popped, all_queues_empty, pop, ack, pop_ack, erase_failed,
  set_error_callback,
}
use monitor_queue.Queue.Threads.{monitor_pass, delay_pass, destroy}

-- The arguments are those of the call, with the times and random numbers that it reads at the end.
pub data Call : Type 0 where
  pushes : (id : Str) (priority delay now : ℕ) → Call
  pops : (now draw : ℕ) → Call
  acks : (id token : Str) (requeue : Bool) (delay now : ℕ) → Call
  pop_acks : (id token : Str) (requeue : Bool) (delay now draw : ℕ) → Call
  erases : List Str → Call
  sets_callback : Bool → Call
  monitors delays : (now : ℕ) → Call
  destroys : Call

abbrev pub after_result : Queue → Result Queue → Queue
after_result q (ok q') = q'
after_result q (err e) = q

abbrev pub after_pop : Queue → Popped → Queue
after_pop q blocked = q
after_pop q (popped q' p) = q'
after_pop q all_queues_empty = q

abbrev pub after_pop_ack : Queue → Result (Queue × Popped) → Queue
after_pop_ack q (ok (q', r)) = after_pop q' r
after_pop_ack q (err e) = q

unfoldable pub step : Queue → Call → Queue
step q (pushes id priority delay now) = after_result q (push q id priority delay now)
step q (pops now draw) = after_pop q (pop q now draw)
step q (acks id token requeue delay now) = after_result q (ack q id token requeue delay now)
step q (pop_acks id token requeue delay now draw) =
    after_pop_ack q (pop_ack q id token requeue delay now draw)
step q (erases ids) = (erase_failed q ids).1
step q (sets_callback cb) = set_error_callback q cb
step q (monitors now) = monitor_pass q now
step q (delays now) = delay_pass q now
step q destroys = (destroy q).0

unfoldable pub run : Queue → List Call → Queue
run q [] = q
run q (c ∷ cs) = run (step q c) cs
