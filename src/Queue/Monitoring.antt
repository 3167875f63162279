-- ===== src/Queue/Monitoring.antt =====
-- server/Queue.cpp, monitorThread: what a pass of the monitor does to each message.
use monitor_queue.Prelude.{
  ℕ, ◌+◌, ◌-◌, ◌≤◌, ◌<◌, ◌≡◌, ◌≢◌, refl, sym, ◌∙◌, subst, ap₂, ==_iff, ◌⊎◌, Bool, true, false, not,
  ◌&&◌, List, [], ◌∷◌, arith, count, ltb, ◌==◌, if◌then◌else◌, inl, inr, Bool-cases, All, All-count,
}
use monitor_queue.MsgMap.Pointers.{ptrs}
use monitor_queue.Queue.State.{
  Queue, MsgEntry, queued, running, failed, is_running, is_queued, milliseconds, pop_notify_one,
  pop_notify_all,
}
use monitor_queue.Queue.Buckets.{bucket, contains}
use monitor_queue.Queue.Buckets.Counts.{contains_of_count}
use monitor_queue.Queue.Threads.{
  bump_fails, time_out, boost, monitor_entry, monitor_scan, notify_pops, monitor_pass,
}
use monitor_queue.Queue.Threads.Rules.{monitor_entry_cases}
use monitor_queue.Queue.Invariant.{Inv}
use monitor_queue.Queue.Invariant.TakeOut.{mapped_once}
use monitor_queue.Queue.Invariant.Scans.{monitor_entry-Inv, monitor_entry-map}

-- The limits that a pass goes by.
pub record Limits : Type 0 where
  pub fail_timeout : ℕ
  pub max_retries : ℕ
  pub boost_timeout : ℕ

abbrev pub limits : Queue → Limits
limits q = record {
  fail_timeout = q.fail_timeout;
  max_retries = q.max_retries;
  boost_timeout = q.boost_timeout;
}

-- Past the time limit at `now`: a limit of 0 is none.
abbrev pub is_overdue : Limits → ℕ → MsgEntry → Bool
is_overdue l now e =
    is_running e.state
    && (ltb 0 l.fail_timeout && ltb (e.state_ts + milliseconds l.fail_timeout) now)

-- Waiting past the boost limit at `now`, in a queue that is not the first.
abbrev pub is_starving : Limits → ℕ → MsgEntry → Bool
is_starving l now e =
    is_queued e.state
    && (ltb 0 e.priority && (not e.boosted && ltb (e.state_ts + milliseconds l.boost_timeout) now))

-- An overdue message has failed at its `max_retries`-th time-out, and is queued again before that;
-- a starving one is boosted.
abbrev pub monitored : Limits → ℕ → MsgEntry → MsgEntry
monitored l now e =
    if is_overdue l now e
    then (if bump_fails e == l.max_retries
        then record e { fail_count = bump_fails e; state = failed }
        else record e {
          fail_count = bump_fails e;
          state = queued;
          message = record e.message { token = [] };
        })
    else (if is_starving l now e then record e { boosted = true } else e)

-- A queued message that is not boosted is found in the queue of its priority.
pub found_at_home :
    (q : Queue) (p : ℕ)
    → Inv q
    → count p (ptrs q.msg_map) ≡ 1
    → (q.heap p).state ≡ queued
    → (q.heap p).boosted ≡ false
    → contains p (bucket (q.heap p).priority q.queue_list) ≡ true
found_at_home q p v c s b = contains_of_count p _ (ground (arith, v.at_home p, v.in_queue p))

-- What one round of the scan leaves.
pub record Round (now : ℕ) (q : Queue) (p : ℕ) (r : Queue × ℕ) : Type 0 where
  pub same_limits : limits r.0 ≡ limits q
  pub same_outputs : r.0.outputs ≡ q.outputs
  pub here : r.0.heap p ≡ monitored (limits q) now (q.heap p)
  pub elsewhere : (a : ℕ) → (a == p) ≡ false → r.0.heap a ≡ q.heap a

module _ {q : Queue} (v : Inv q) (now p : ℕ) (c : count p (ptrs q.msg_map) ≡ 1) where
  timed-Round :
      (q.heap p).state ≡ running
      → q.fail_timeout ≢ 0
      → (q.heap p).state_ts < now - milliseconds q.fail_timeout
      → Round now q p (time_out q p)
  unfolding time_out
  timed-Round s t l = record {
    same_limits = ground arith;
    same_outputs = ground arith;
    here = ground arith;
    elsewhere = λ a n. ground arith;
  }

  boosted-Round :
      (q.heap p).state ≡ queued
      → (q.heap p).boosted ≡ false
      → 0 < (q.heap p).priority
      → (q.heap p).state_ts < now - milliseconds q.boost_timeout
      → Round now q p (boost q p, 0)
  unfolding boost
  boosted-Round s b k l = rw (found_at_home q p v c s b) (record {
    same_limits = refl;
    same_outputs = refl;
    here = ground arith;
    elsewhere = λ a n. ground arith;
  })

  rest-Round :
      ((q.heap p).state ≡ running
        → q.fail_timeout ≢ 0
        → now - milliseconds q.fail_timeout ≤ (q.heap p).state_ts)
      → ((q.heap p).state ≡ queued
          → (q.heap p).boosted ≡ false
          → 0 < (q.heap p).priority
          → now - milliseconds q.boost_timeout ≤ (q.heap p).state_ts)
      → Round now q p (q, 0)
  rest-Round f g = record {
    same_limits = refl;
    same_outputs = refl;
    here = ground (arith, f, g);
    elsewhere = λ a n. refl;
  }

  pub monitor_entry-Round : Round now q p (monitor_entry now q p)
  monitor_entry-Round =
      monitor_entry_cases (Round now q p) now q p timed-Round boosted-Round rest-Round

-- What the scan of `ps` leaves.
record Scan (now : ℕ) (q : Queue) (ps : List ℕ) (r : Queue × ℕ) : Type 0 where
  kept_limits : limits r.0 ≡ limits q
  kept_outputs : r.0.outputs ≡ q.outputs
  scanned : (a : ℕ) → count a ps ≡ 1 → r.0.heap a ≡ monitored (limits q) now (q.heap a)
  passed : (a : ℕ) → count a ps ≡ 0 → r.0.heap a ≡ q.heap a

monitor_scan-Scan :
    (now : ℕ) (q : Queue) (ps : List ℕ)
    → Inv q
    → All (λ p. 1 ≤ count p (ptrs q.msg_map)) ps
    → Scan now q ps (monitor_scan now q ps)
unfolding monitor_scan count
monitor_scan-Scan now q [] v a = record {
  kept_limits = refl;
  kept_outputs = refl;
  scanned = λ x c. absurd (omega arith);
  passed = λ x c. refl;
}
monitor_scan-Scan now q (p ∷ ps) v a =
    let c = mapped_once v p a.0 in
    let round = monitor_entry-Round v now p c in
    let scan =
      monitor_scan-Scan now (monitor_entry now q p).0 ps (monitor_entry-Inv v now p c)
        (rw (monitor_entry-map now q p) a.1) in
    record {
      kept_limits = scan.kept_limits ∙ round.same_limits;
      kept_outputs = scan.kept_outputs ∙ round.same_outputs;
      scanned = λ x d. elim (Bool-cases (x == p)) [
        | inl y ↦
            subst
              (λ a. (monitor_scan now q (p ∷ ps)).0.heap a ≡ monitored (limits q) now (q.heap a))
              (sym ((==_iff x p).0 y))
              (scan.passed p (ground (arith, (==_iff x p).0 y)) ∙ round.here)
        | inr n ↦
            scan.scanned x (ground arith)
            ∙ ap₂ (λ l e. monitored l now e) round.same_limits (round.elsewhere x n)
      ];
      passed = λ x d. scan.passed x (ground arith) ∙ round.elsewhere x (ground arith);
    }

-- A pass of the monitor over a running queue with the invariant, at any time: each message of
-- the map goes its way by its own entry alone, whatever its place in the scan, and no other
-- entry is written.
pub heap-monitor_pass :
    (q : Queue) (now p : ℕ)
    → Inv q
    → q.run ≡ true
    → (monitor_pass q now).heap p
      ≡ (if count p (ptrs q.msg_map) == 1 then monitored (limits q) now (q.heap p) else q.heap p)
unfolding monitor_pass notify_pops
heap-monitor_pass q now p v r =
    let ps = ptrs q.msg_map in
    let scan = monitor_scan-Scan now q ps v (All-count ps ps (λ a. omega arith)) in
    ground (arith, scan.scanned p, scan.passed p, v.owned p)

-- A pass of the monitor leaves the limits.
pub limits-monitor_pass : (q : Queue) (now : ℕ) → Inv q → limits (monitor_pass q now) ≡ limits q
unfolding monitor_pass notify_pops
limits-monitor_pass q now v =
    let ps = ptrs q.msg_map in
    let scan = monitor_scan-Scan now q ps v (All-count ps ps (λ a. omega arith)) in
    ground (arith, scan.kept_limits)

-- A pass of the monitor over a queue with the invariant notifies the waiting consumers once at
-- most, and never calls the error callback: the message to boost is in the queue where it is
-- looked for.
pub outputs-monitor_pass :
    (q : Queue) (now : ℕ)
    → Inv q
    → ((monitor_pass q now).outputs ≡ q.outputs)
      ⊎ ((monitor_pass q now).outputs ≡ pop_notify_one ∷ q.outputs)
      ⊎ ((monitor_pass q now).outputs ≡ pop_notify_all ∷ q.outputs)
unfolding monitor_pass notify_pops
outputs-monitor_pass q now v =
    let ps = ptrs q.msg_map in
    let scan = monitor_scan-Scan now q ps v (All-count ps ps (λ a. omega arith)) in
    ground (arith, scan.kept_outputs)
