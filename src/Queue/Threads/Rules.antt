-- ===== src/Queue/Threads/Rules.antt =====
-- server/Queue.cpp, monitorThread: a case rule for one round of the scan.
use monitor_queue.Prelude.{
  ℕ, ◌-◌, ◌≤◌, ◌<◌, ◌≡◌, ◌≢◌, false, not, ◌&&◌, arith, ltb, ◌==◌, inl, inr, Bool-cases,
}
use monitor_queue.Queue.State.{Queue, running, queued, is_running, is_queued, milliseconds}
use monitor_queue.Queue.Threads.{time_out, boost, monitor_entry}

-- A running message past the time limit is timed out, a queued one past the boost limit is boosted,
-- and any other is left.
pub monitor_entry_cases {ℓ} :
    (P : Queue × ℕ → Type ℓ) (now : ℕ) (q : Queue) (p : ℕ)
    → ((q.heap p).state ≡ running
        → q.fail_timeout ≢ 0
        → (q.heap p).state_ts < now - milliseconds q.fail_timeout
        → P (time_out q p))
    → ((q.heap p).state ≡ queued
        → (q.heap p).boosted ≡ false
        → 0 < (q.heap p).priority
        → (q.heap p).state_ts < now - milliseconds q.boost_timeout
        → P (boost q p, 0))
    → (((q.heap p).state ≡ running
          → q.fail_timeout ≢ 0
          → now - milliseconds q.fail_timeout ≤ (q.heap p).state_ts)
        → ((q.heap p).state ≡ queued
            → (q.heap p).boosted ≡ false
            → 0 < (q.heap p).priority
            → now - milliseconds q.boost_timeout ≤ (q.heap p).state_ts)
        → P (q, 0))
    → P (monitor_entry now q p)
unfolding monitor_entry
monitor_entry_cases P now q p timed boosts rest =
    elim (Bool-cases (is_running (q.heap p).state && not (q.fail_timeout == 0))) [
      | inl r ↦
          rw r (elim (Bool-cases (ltb (q.heap p).state_ts (now - milliseconds q.fail_timeout))) [
            | inl t ↦ rw t (timed (ground arith) (ground arith) (ground arith))
            | inr n ↦ rw n (rest (λ x y. ground arith) (λ x y z. ground arith))
          ])
      | inr r ↦ rw r (elim (Bool-cases (is_queued (q.heap p).state)) [
        | inl s ↦
            rw s
              (elim (Bool-cases (
                ltb 0 (q.heap p).priority
                && (not (q.heap p).boosted
                    && ltb (q.heap p).state_ts (now - milliseconds q.boost_timeout)))) [
                      | inl b ↦
                          rw b (boosts (ground arith) (ground arith) (ground arith) (ground arith))
                      | inr n ↦ rw n (rest (λ x y. ground arith) (λ x y z. ground arith))
                    ])
        | inr s ↦ rw s (rest (λ x y. ground arith) (λ x y z. ground arith))
      ])
    ]
