-- ===== src/Queue/Delaying.antt =====
-- server/Queue.cpp, delayThread: which messages a pass releases, and how long the thread sleeps.
use monitor_queue.Prelude.{
  ℕ, ◌+◌, ◌≤◌, ◌<◌, ◌≡◌, refl, ap, subst, true, ◌&&◌, List, [], ◌∷◌, arith, count, ltb, leb, ◌==◌,
  if◌then◌else◌, inl, inr, Bool-cases,
}
use monitor_queue.MsgMap.Pointers.{ptrs}
use monitor_queue.Queue.State.{Queue, MsgEntry, queued, is_delayed}
use monitor_queue.Queue.Delays.Order.{IsDueOrder, NotBefore-count}
use monitor_queue.Queue.Threads.{
  release, release_due, delay_pass, Wait, no_wait, wait_forever, wait_for, delay_wait,
}
use monitor_queue.Queue.Invariant.{Inv}
use monitor_queue.Queue.Invariant.TakeOut.{due_delayed}
use monitor_queue.Queue.Invariant.Scans.{release-Inv}

-- A delayed message that is due is queued; any other is left.
abbrev pub released : ℕ → MsgEntry → MsgEntry
released now e =
    if is_delayed e.state && leb e.state_ts now
    then record e { state = queued; state_ts = now }
    else e

-- The head of the delay queue is due first.
pub first_due :
    (q : Queue) (d : ℕ) (ds : List ℕ) (p : ℕ)
    → Inv q
    → q.msg_delay ≡ d ∷ ds
    → 1 ≤ count p q.msg_delay
    → (q.heap d).state_ts ≤ (q.heap p).state_ts
unfolding count
first_due q d ds p v e c =
    let o : IsDueOrder q.heap (d ∷ ds) = subst (IsDueOrder q.heap) e v.due_order in
    ground (arith, ap (count p) e, NotBefore-count q.heap (q.heap d).state_ts p ds o.0)

release_due-heap :
    (now : ℕ) (q : Queue) (ds : List ℕ) (p : ℕ)
    → Inv q
    → q.msg_delay ≡ ds
    → (release_due now q ds).heap p
      ≡ (if count p (ptrs q.msg_map) == 1 then released now (q.heap p) else q.heap p)
unfolding release_due release count
release_due-heap now q [] p v e = ground (arith, v.in_delay p, ap (count p) e)
release_due-heap now q (d ∷ ds) p v e = elim (Bool-cases (leb (q.heap d).state_ts now)) [
  | inl y ↦
      let rest = release_due-heap now (release q now d ds) ds p (release-Inv q now d ds e v) refl in
      ground (arith, rest, due_delayed v d ds e)
  | inr n ↦ ground (arith, v.in_delay p, first_due q d ds p v e)
]

-- A pass of the delay thread over a running queue with the invariant releases exactly the
-- delayed messages that are due, whatever their number, and writes no other entry.
pub heap-delay_pass :
    (q : Queue) (now p : ℕ)
    → Inv q
    → q.run ≡ true
    → (delay_pass q now).heap p
      ≡ (if count p (ptrs q.msg_map) == 1 then released now (q.heap p) else q.heap p)
unfolding delay_pass
heap-delay_pass q now p v r = ground (arith, release_due-heap now q q.msg_delay p v refl)

-- How long the thread may sleep: it does not wait while a message is due, it wakes at the time of
-- the first one, and it waits with no limit only if no message is delayed.
abbrev pub SleepsWell : Queue → ℕ → Wait → Type 0
SleepsWell q now no_wait = (p : ℕ) × (count p q.msg_delay ≡ 1) × ((q.heap p).state_ts ≤ now)
SleepsWell q now (wait_for t) =
    ((p : ℕ) → 1 ≤ count p q.msg_delay → now + t ≤ (q.heap p).state_ts)
    × (0 < t)
    × ((p : ℕ) × (count p q.msg_delay ≡ 1) × ((q.heap p).state_ts ≡ now + t))
SleepsWell q now wait_forever = (p : ℕ) → count p q.msg_delay ≡ 0

delay_wait_lem :
    (q : Queue) (now : ℕ) (ds : List ℕ)
    → Inv q
    → q.msg_delay ≡ ds
    → SleepsWell q now (delay_wait q.heap ds now)
unfolding delay_wait count
delay_wait_lem q now [] v e = λ p. ap (count p) e
delay_wait_lem q now (d ∷ ds) v e =
    let once : count d q.msg_delay ≡ 1 = ground (arith, ap (count d) e, v.in_delay d, v.owned d) in
    elim (Bool-cases (ltb now (q.heap d).state_ts)) [
      | inl y ↦
          rw y
            (λ p c. ground (arith, first_due q d ds p v e c), ground arith, (d, once, ground arith))
      | inr n ↦ rw n (d, once, ground arith)
    ]

-- On a queue with the invariant, the wait that the delay thread computes sleeps no message
-- past its time.
pub delay_wait-SleepsWell :
    (q : Queue) (now : ℕ) → Inv q → SleepsWell q now (delay_wait q.heap q.msg_delay now)
delay_wait-SleepsWell q now v = delay_wait_lem q now q.msg_delay v refl
