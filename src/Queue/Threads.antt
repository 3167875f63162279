-- ===== src/Queue/Threads.antt =====
-- server/Queue.cpp, the bodies of the two threads and the destructor. A thread holds `m_mutex`
-- but while it waits, so what it does between two waits is one step.
pub mod Rules
use monitor_queue.Prelude.{
  ℕ, zero, suc, ◌+◌, ◌-◌, ◌%◌, ◌^◌, Bool, true, false, not, ◌&&◌, ◌||◌, Option, none, some, List,
  [], ◌∷◌, ltb, leb, ◌==◌, if◌then◌else◌,
}
use monitor_queue.MsgMap.Pointers.{ptrs}
use monitor_queue.Queue.State.{
  Queue, MsgEntry, queued, failed, is_running, is_queued, store, Output, pop_notify_one,
  pop_notify_all, delay_notify_one, mon_notify_one, error_callback, add64, milliseconds,
}
use monitor_queue.Queue.Buckets.{bucket, push_front, push_back, contains, remove_at}

-- ++m->second->fail_count, a `uint8_t`
abbrev pub bump_fails : MsgEntry → ℕ
bump_fails e = (e.fail_count + 1) % 2 ^ 8

-- monitorThread, a running message past `m_fail_timeout`: failed for good, or queued for a retry.
-- The second part is the change of `notify`.
unfoldable pub time_out : Queue → ℕ → Queue × ℕ
unfolding push_front
time_out q p =
    let e = q.heap p in
    if bump_fails e == q.max_retries
    then (
      record q {
        heap = store q.heap p (record e { fail_count = bump_fails e; state = failed });
        count_failed = add64 q.count_failed 1;
      },
      0,
    )
    else (
      record q {
        heap = store q.heap p (record e {
          fail_count = bump_fails e;
          state = queued;
          message = record e.message { token = [] };
        });
        queue_list = push_front e.priority p q.queue_list;
        count_queued = add64 q.count_queued 1;
      },
      1,
    )

-- monitorThread, a queued message past `m_boost_timeout`.
unfoldable pub boost : Queue → ℕ → Queue
unfolding contains remove_at push_front bucket
boost q p =
    let e = q.heap p in
    if contains p (bucket e.priority q.queue_list)
    then record q {
      heap = store q.heap p (record e { boosted = true });
      queue_list = push_front 0 p (remove_at e.priority p q.queue_list);
    }
    else (if q.err_cb then record q { outputs = error_callback ∷ q.outputs } else q)

-- One round of the scan, at time `now`. `fail_time` and `boost_time` stop at 0, where no entry's
-- time is earlier.
unfoldable pub monitor_entry : ℕ → Queue → ℕ → Queue × ℕ
unfolding time_out boost
monitor_entry now q p =
    let e = q.heap p in
    let fail_time = now - milliseconds q.fail_timeout in
    let boost_time = now - milliseconds q.boost_timeout in
    if is_running e.state && not (q.fail_timeout == 0)
    then (if ltb e.state_ts fail_time then time_out q p else (q, 0))
    else (if is_queued e.state
        then (if ltb 0 e.priority && (not e.boosted && ltb e.state_ts boost_time)
            then (boost q p, 0)
            else (q, 0))
        else (q, 0))

-- The scan over the addresses in the map, and the final `notify`.
unfoldable pub monitor_scan : ℕ → Queue → List ℕ → Queue × ℕ
unfolding monitor_entry
monitor_scan now q [] = (q, 0)
monitor_scan now q (p ∷ ps) =
    let (q', n) = monitor_entry now q p in let (q'', m) = monitor_scan now q' ps in (q'', add64 n m)

unfoldable pub notify_pops : Queue × ℕ → Queue
notify_pops (q, notify) =
    if notify == 1
    then record q { outputs = pop_notify_one ∷ q.outputs }
    else (if ltb 1 notify then record q { outputs = pop_notify_all ∷ q.outputs } else q)

-- Queue::monitorThread, from the end of one wait to the next.
unfoldable pub monitor_pass : Queue → ℕ → Queue
unfolding monitor_scan notify_pops ptrs
monitor_pass q now = if q.run then notify_pops (monitor_scan now q (ptrs q.msg_map)) else q

-- How `delayThread` waits for its next round.
pub data Wait : Type 0 where
  no_wait wait_forever : Wait
  wait_for : ℕ → Wait

unfoldable pub delay_wait : (ℕ → MsgEntry) → List ℕ → ℕ → Wait
delay_wait h [] now = wait_forever
delay_wait h (p ∷ ds) now =
    if ltb now (h p).state_ts then wait_for ((h p).state_ts - now) else no_wait

-- delayThread, the first delayed message, which is due: queued at the back of its queue.
unfoldable pub release : Queue → ℕ → ℕ → List ℕ → Queue
unfolding push_back
release q now p rest = record q {
  heap = store q.heap p (record (q.heap p) { state = queued; state_ts = now });
  queue_list = push_back (q.heap p).priority p q.queue_list;
  count_queued = add64 q.count_queued 1;
  outputs = pop_notify_one ∷ q.outputs;
  msg_delay = rest;
}

-- The inner loop, over the delay queue `ds` of `q`.
unfoldable pub release_due : ℕ → Queue → List ℕ → Queue
unfolding release
release_due now q [] = q
release_due now q (p ∷ ds) =
    let rest = release_due now (release q now p ds) ds in
    if leb (q.heap p).state_ts now then rest else q

-- Queue::delayThread, from the end of one wait to the next.
unfoldable pub delay_pass : Queue → ℕ → Queue
unfolding release_due
delay_pass q now = if q.run then release_due now q q.msg_delay else q

-- Queue::~Queue, without the joins: the threads are told to stop, and the entries at the returned addresses, those of
-- the pool, are deleted.
unfoldable pub destroy : Queue → Queue × List ℕ
destroy q =
    (record q { run = false; outputs = delay_notify_one ∷ mon_notify_one ∷ q.outputs }, q.msg_pool)
