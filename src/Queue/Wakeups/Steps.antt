-- ===== src/Queue/Wakeups/Steps.antt =====
-- The same of the two threads, and of every step.
use mathlib.Core.List.{append_assoc}
use monitor_queue.Prelude.{
  ℕ, ◌+◌, ◌^◌, ◌≤◌, ◌<◌, ◌≡◌, refl, sym, ap, ◌∙◌, ◌⊎◌, inl, inr, Bool, true, false, List, [], ◌∷◌,
  ◌++◌, arith, length, count, ltb, leb, ◌==◌, if◌then◌else◌, Bool-cases,
}
use monitor_queue.MsgMap.Pointers.{ptrs, length-ptrs}
use monitor_queue.Queue.State.{
  Queue, Output, pop_notify_one, pop_notify_all, delay_notify_one, mon_notify_one, error_callback,
}
use monitor_queue.Queue.Buckets.{contains, bucket}
use monitor_queue.Queue.Defs.{pop, erase_failed, set_error_callback, insert_delayed_msg}
use monitor_queue.Queue.Delays.{insert_delay, is_first}
use monitor_queue.Queue.Threads.{
  time_out, boost, monitor_entry, monitor_scan, notify_pops, monitor_pass, release, release_due,
  delay_pass, destroy, delay_wait,
}
use monitor_queue.Queue.Threads.Rules.{monitor_entry_cases}
use monitor_queue.Queue.History.{
  Call, pushes, pops, acks, pop_acks, erases, sets_callback, monitors, delays, destroys, step,
}
use monitor_queue.Queue.Invariant.{Inv}
use monitor_queue.Queue.Wakeups.{
  Wakes, ones, has_all, ones-append, has_all-append, still, Wakes-if, Wakes-trans,
  after_result-Wakes, push-Wakes, ack-Wakes, pop_impl-Wakes, pop_ack-Wakes, erase_all-quiet,
}

-- What a part of the scan over `n` messages leaves for the final notification.
record Owes (n : ℕ) (q : Queue) (r : Queue × ℕ) : Type 0 where
  sent : List Output
  grows : r.0.outputs ≡ sent ++ q.outputs
  more : r.0.count_queued ≤ q.count_queued + r.1
  few : r.1 ≤ n

time_out-Owes : (q : Queue) (p : ℕ) → Owes 1 q (time_out q p)
unfolding time_out
time_out-Owes q p = record {
  sent = [];
  grows = ground arith;
  more = ground arith;
  few = ground arith;
}

boost_sent : Bool → Bool → List Output
boost_sent false true = error_callback ∷ []
boost_sent _ _ = []

boost-Owes : (q : Queue) (p : ℕ) → Owes 1 q (boost q p, 0)
unfolding boost boost_sent
boost-Owes q p = record {
  sent = boost_sent (contains p (bucket (q.heap p).priority q.queue_list)) q.err_cb;
  grows = ground arith;
  more = ground arith;
  few = omega arith;
}

monitor_entry-Owes : (now : ℕ) (q : Queue) (p : ℕ) → Owes 1 q (monitor_entry now q p)
monitor_entry-Owes now q p =
    monitor_entry_cases (Owes 1 q) now q p (λ _ _ _. time_out-Owes q p) (λ _ _ _ _. boost-Owes q p)
      (λ _ _. record { sent = []; grows = refl; more = omega arith; few = omega arith })

monitor_scan-Owes :
    (now : ℕ) (q : Queue) (ps : List ℕ)
    → length ps < 2 ^ 64
    → Owes (length ps) q (monitor_scan now q ps)
unfolding monitor_scan
monitor_scan-Owes now q [] lt = record {
  sent = [];
  grows = refl;
  more = omega arith;
  few = omega arith;
}
monitor_scan-Owes now q (p ∷ ps) lt =
    let one = monitor_entry-Owes now q p in
    let rest = monitor_scan-Owes now (monitor_entry now q p).0 ps (omega arith) in
    record {
      sent = rest.sent ++ one.sent;
      grows =
          rest.grows
          ∙ ap (◌++◌ rest.sent) one.grows
          ∙ sym (append_assoc rest.sent one.sent q.outputs);
      more = omega (arith, rest.more, one.more, rest.few, one.few);
      few = omega (arith, rest.few, one.few);
    }

notify_sent : ℕ → List Output
notify_sent n =
    if n == 1 then pop_notify_one ∷ [] else (if ltb 1 n then pop_notify_all ∷ [] else [])

notify_pops-outputs :
    (q : Queue) (n : ℕ) → (notify_pops (q, n)).outputs ≡ notify_sent n ++ q.outputs
unfolding notify_pops notify_sent
notify_pops-outputs q n = ground arith

notify_pops-count : (q : Queue) (n : ℕ) → (notify_pops (q, n)).count_queued ≡ q.count_queued
unfolding notify_pops
notify_pops-count q n = ground arith

notify_enough : (n : ℕ) → (n ≤ ones (notify_sent n)) ⊎ (has_all (notify_sent n) ≡ true)
unfolding notify_sent ones has_all
notify_enough n = ground arith

monitor_pass-Wakes : (q : Queue) (now : ℕ) → Inv q → Wakes q (monitor_pass q now)
unfolding monitor_pass
monitor_pass-Wakes q now v = elim (Bool-cases q.run) [
  | inl y ↦
      let (q', n) = monitor_scan now q (ptrs q.msg_map) in
      let o =
        monitor_scan-Owes now q (ptrs q.msg_map)
          (omega (arith, length-ptrs q.msg_map, v.within, v.sized)) in
      record {
        sent = notify_sent n ++ o.sent;
        grows = ground (
          arith,
          notify_pops-outputs q' n,
          o.grows,
          append_assoc (notify_sent n) o.sent q.outputs,
        );
        enough = ground (
          arith,
          notify_pops-count q' n,
          o.more,
          notify_enough n,
          ones-append (notify_sent n) o.sent,
          has_all-append (notify_sent n) o.sent,
        );
      }
  | inr n ↦ still q _ (ground arith) (ground arith)
]

release-Wakes : (q : Queue) (now p : ℕ) (ds : List ℕ) → Wakes q (release q now p ds)
unfolding release ones
release-Wakes q now p ds = record {
  sent = pop_notify_one ∷ [];
  grows = refl;
  enough = inl (omega arith);
}

release_due-Wakes : (now : ℕ) (q : Queue) (ds : List ℕ) → Wakes q (release_due now q ds)
unfolding release_due
release_due-Wakes now q [] = still q q refl (omega arith)
release_due-Wakes now q (p ∷ ds) = elim (Bool-cases (leb (q.heap p).state_ts now)) [
  | inl y ↦ rw y (
      Wakes-trans q (release q now p ds) _ (release-Wakes q now p ds)
        (release_due-Wakes now (release q now p ds) ds))
  | inr n ↦ rw n (still q q refl (omega arith))
]

delay_pass-Wakes : (q : Queue) (now : ℕ) → Wakes q (delay_pass q now)
unfolding delay_pass
delay_pass-Wakes q now =
    Wakes-if q (release_due now q q.msg_delay) q q.run (release_due-Wakes now q q.msg_delay)
      (still q q refl (omega arith))

-- On a queue with the invariant, no call and no pass of a thread queues more messages than it
-- wakes waiting consumers for, be it one by one or all at once.
pub step-Wakes : (q : Queue) (c : Call) → Inv q → Wakes q (step q c)
unfolding step pop erase_failed set_error_callback destroy
step-Wakes q (pushes id priority delay now) v =
    after_result-Wakes q _ (λ q' e. push-Wakes q id priority delay now q' e)
step-Wakes q (pops now draw) v = pop_impl-Wakes q now draw
step-Wakes q (acks id token requeue delay now) v =
    after_result-Wakes q _ (λ q' e. ack-Wakes q id token requeue delay now q' e)
step-Wakes q (pop_acks id token requeue delay now draw) v =
    pop_ack-Wakes q id token requeue delay now draw
step-Wakes q (erases ids) v = let (o, c) = erase_all-quiet q ids in still q _ o (omega (arith, c))
step-Wakes q (sets_callback cb) v = still q _ refl (omega arith)
step-Wakes q (monitors now) v = monitor_pass-Wakes q now v
step-Wakes q (delays now) v = delay_pass-Wakes q now
step-Wakes q destroys v = record {
  sent = delay_notify_one ∷ mon_notify_one ∷ [];
  grows = refl;
  enough = inl (omega arith);
}

insert_delay-wait :
    (q : Queue) (p ts now : ℕ) (ds : List ℕ)
    → q.msg_delay ≡ ds
    → count p ds ≡ 0
    → let q' = insert_delayed_msg q p ts in
      (q'.outputs ≡ delay_notify_one ∷ q.outputs)
      ⊎ (delay_wait q'.heap q'.msg_delay now ≡ delay_wait q.heap q.msg_delay now)
unfolding insert_delayed_msg delay_wait count insert_delay is_first
insert_delay-wait q p ts now [] e c = inl (ground arith)
insert_delay-wait q p ts now (x ∷ xs) e c = elim (Bool-cases (ltb ts (q.heap x).state_ts)) [
  | inl y ↦ inl (ground (arith, e))
  | inr n ↦ inr (ground (arith, e))
]

-- A message that is delayed, and was not in the delay queue, either wakes the delay thread, or
-- leaves the wait that the thread computes, at whatever time, as it was.
pub insert_delayed_msg-wakes :
    (q : Queue) (p ts now : ℕ)
    → count p q.msg_delay ≡ 0
    → let q' = insert_delayed_msg q p ts in
      (q'.outputs ≡ delay_notify_one ∷ q.outputs)
      ⊎ (delay_wait q'.heap q'.msg_delay now ≡ delay_wait q.heap q.msg_delay now)
insert_delayed_msg-wakes q p ts now c = insert_delay-wait q p ts now q.msg_delay refl c
