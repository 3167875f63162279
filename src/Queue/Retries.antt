-- ===== src/Queue/Retries.antt =====
-- server/Queue.cpp, monitorThread: the retry limit and the priority boost over several passes.
use monitor_queue.Prelude.{
  ℕ, suc, ◌+◌, ◌≤◌, ◌<◌, ◌≡◌, ◌≢◌, refl, ap, ◌∙◌, true, arith, count, ◌==◌, if◌then◌else◌, inl, inr,
  Option-cases,
}
use monitor_queue.MsgMap.Pointers.{ptrs}
use monitor_queue.Queue.State.{Queue, MsgEntry, queued, running, failed, milliseconds}
use monitor_queue.Queue.Buckets.{bucket, take_first}
use monitor_queue.Queue.Defs.{run_entry, popped, pop, pop_impl}
use monitor_queue.Queue.Defs.Rules.{pop_ok}
use monitor_queue.Queue.Threads.{bump_fails, monitor_pass}
use monitor_queue.Queue.Invariant.{Inv}
use monitor_queue.Queue.Invariant.TakeOut.{taken_queued}
use monitor_queue.Queue.Monitoring.{
  Limits, limits, is_overdue, monitored, heap-monitor_pass, limits-monitor_pass,
}
use monitor_queue.Queue.Places.{place-monitor_pass}

-- What other calls may do in between: the message at `p` stays in its state, with its time and its
-- failures (it may be boosted), in a queue that runs, with the invariant and the same limits.
pub record Meanwhile (p : ℕ) (q r : Queue) : Type 0 where
  pub valid : Inv r
  pub runs : r.run ≡ true
  pub same_limits : limits r ≡ limits q
  pub same_state : (r.heap p).state ≡ (q.heap p).state
  pub same_time : (r.heap p).state_ts ≡ (q.heap p).state_ts
  pub same_fails : (r.heap p).fail_count ≡ (q.heap p).fail_count
  pub mapped : count p (ptrs r.msg_map) ≡ 1

-- `LateTries p q n r`: from `q` to `r`, the message at `p` is popped `n` times, and each time a pass of
-- the monitor finds it past the time limit.
pub data LateTries (p : ℕ) (q : Queue) : ℕ → Queue → Type 0 where
  untried : LateTries p q 0 q
  tried :
      {n : ℕ} {r a b c : Queue} (start draw stop : ℕ)
      → LateTries p q n r
      → Meanwhile p r a
      → pop a start draw ≡ popped b p
      → Meanwhile p b c
      → start + milliseconds c.fail_timeout < stop
      → LateTries p q (suc n) (monitor_pass c stop)

late_try :
    (l : Limits) (stop : ℕ) (e : MsgEntry)
    → 0 < l.fail_timeout
    → e.state ≡ running
    → e.state_ts + milliseconds l.fail_timeout < stop
    → let e' = monitored l stop e in
      (e'.fail_count ≡ bump_fails e)
      × (e'.state ≡ (if bump_fails e == l.max_retries then failed else queued))
late_try l stop e pos runs late = ground arith

run_entry_lem :
    (e : MsgEntry) (now draw : ℕ)
    → let e' = run_entry e now draw in
      (e'.state ≡ running) × (e'.state_ts ≡ now) × (e'.fail_count ≡ e.fail_count)
unfolding run_entry
run_entry_lem e now draw = (refl, refl, refl)

limits-pop :
    (q : Queue) (now draw : ℕ) {q' : Queue} {p : ℕ}
    → pop q now draw ≡ popped q' p
    → limits q' ≡ limits q
unfolding pop pop_impl
limits-pop q now draw e = elim (Option-cases (take_first q.queue_list)) [
  | inl n ↦ absurd (ground arith)
  | inr (t, h) ↦ ground arith
]

-- What `n` late tries leave of the limits and of the message.
record Tried (p : ℕ) (q : Queue) (n : ℕ) (r : Queue) : Type 0 where
  kept_limits : limits r ≡ limits q
  counted : (r.heap p).fail_count ≡ n
  allowed : n ≤ q.max_retries
  ends : 0 < n → (r.heap p).state ≡ (if n == q.max_retries then failed else queued)

Tried-suc :
    {p n : ℕ} {q r a b c : Queue} (start draw stop : ℕ)
    → 0 < q.fail_timeout
    → 0 < q.max_retries
    → q.max_retries < 256
    → Tried p q n r
    → Meanwhile p r a
    → pop a start draw ≡ popped b p
    → Meanwhile p b c
    → start + milliseconds c.fail_timeout < stop
    → Tried p q (suc n) (monitor_pass c stop)
Tried-suc {p} {n} {q} {r} {a} {b} {c} start draw stop pos some_tries byte t m e k late =
    let took = pop_ok a start draw e in
    let was = (taken_queued m.valid p took.takes).0 in
    let lim : limits c ≡ limits q =
      k.same_limits ∙ limits-pop a start draw e ∙ m.same_limits ∙ t.kept_limits in
    let time : c.fail_timeout ≡ q.fail_timeout = ap (λ l. l.fail_timeout) lim in
    let most : c.max_retries ≡ q.max_retries = ap (λ l. l.max_retries) lim in
    let less : n < q.max_retries = ground (arith, t.ends, t.allowed, m.same_state, was) in
    let (began, at, as_before) = run_entry_lem (a.heap p) start draw in
    let runs : (c.heap p).state ≡ running = k.same_state ∙ ap (λ x. x.state) took.entry ∙ began in
    let since : (c.heap p).state_ts ≡ start = k.same_time ∙ ap (λ x. x.state_ts) took.entry ∙ at in
    let fails : (c.heap p).fail_count ≡ n =
      k.same_fails ∙ ap (λ x. x.fail_count) took.entry ∙ as_before ∙ m.same_fails ∙ t.counted in
    let now' : (monitor_pass c stop).heap p ≡ monitored (limits c) stop (c.heap p) =
      ground (arith, heap-monitor_pass c stop p k.valid k.runs, k.mapped) in
    let (f, s) =
      late_try (limits c) stop (c.heap p) (omega (arith, time)) runs
        (ground (arith, since, late)) in
    record {
      kept_limits = limits-monitor_pass c stop k.valid ∙ lim;
      counted = ap (λ x. x.fail_count) now' ∙ f ∙ ground (arith, fails);
      allowed = less;
      ends = λ _. ap (λ x. x.state) now' ∙ s ∙ ground (arith, fails, most);
    }

LateTries-Tried :
    {p : ℕ} {q r : Queue} {n : ℕ}
    → 0 < q.fail_timeout
    → 0 < q.max_retries
    → q.max_retries < 256
    → (q.heap p).fail_count ≡ 0
    → LateTries p q n r
    → Tried p q n r
LateTries-Tried pos m byte z untried = record {
  kept_limits = refl;
  counted = z;
  allowed = omega arith;
  ends = λ h. absurd (omega arith);
}
LateTries-Tried pos m byte z (tried start draw stop before w e k late) =
    Tried-suc start draw stop pos m byte (LateTries-Tried pos m byte z before) w e k late

-- With a timeout and a retry limit of 1 to 255, a message with no failure yet is popped and then
-- found late by the monitor at most as often as the limit says, whatever else is done to the queue
-- in between while the message keeps its state: after each of these passes the failure is counted
-- and the message is queued again, but after the one that reaches the limit it has failed.
pub retry_limit :
    (p n : ℕ) (q r : Queue)
    → 0 < q.fail_timeout
    → 0 < q.max_retries
    → q.max_retries < 256
    → (q.heap p).fail_count ≡ 0
    → LateTries p q n r
    → 0 < n
    → (n ≤ q.max_retries)
      × ((r.heap p).fail_count ≡ n)
      × ((r.heap p).state ≡ (if n == q.max_retries then failed else queued))
retry_limit p n q r pos m byte z ts some_tries =
    let t = LateTries-Tried pos m byte z ts in (t.allowed, t.counted, t.ends some_tries)

-- With a limit that a `uint8_t` cannot reach, no pass of the monitor over a running queue with
-- the invariant fails a message.
pub never_fails :
    (q : Queue) (now p : ℕ)
    → Inv q
    → q.run ≡ true
    → 256 ≤ q.max_retries
    → (q.heap p).state ≢ failed
    → ((monitor_pass q now).heap p).state ≢ failed
never_fails q now p v r big s e = ground (arith, heap-monitor_pass q now p v r, s)

-- A boosted message that is timed out and queued again, by a pass over a running queue with
-- the invariant, keeps its mark: a pass over any later such queue that has its entry unchanged
-- leaves it in the queue where it stands, however long it waits, and does not change its entry.
pub boosted_retry_starves :
    (q : Queue) (now p : ℕ) (r : Queue) (later : ℕ)
    → Inv q
    → q.run ≡ true
    → count p (ptrs q.msg_map) ≡ 1
    → is_overdue (limits q) now (q.heap p) ≡ true
    → bump_fails (q.heap p) ≢ q.max_retries
    → (q.heap p).boosted ≡ true
    → Inv r
    → r.run ≡ true
    → r.heap p ≡ (monitor_pass q now).heap p
    → ((r.heap p).state ≡ queued)
      × ((monitor_pass r later).heap p ≡ r.heap p)
      × ((k : ℕ)
          → count p (bucket k (monitor_pass r later).queue_list) ≡ count p (bucket k r.queue_list))
boosted_retry_starves q now p r later v run c o more b w run' same =
    let h = heap-monitor_pass q now p v run in
    let s : (r.heap p).state ≡ queued = ground (arith, h) in
    (
      s,
      ground (arith, h, heap-monitor_pass r later p w run'),
      λ k. place-monitor_pass r later p k w s (ground (arith, h)),
    )
