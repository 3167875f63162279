-- ===== src/Queue/Places.antt =====
-- server/Queue.cpp, monitorThread: in which queue a pass of the monitor leaves a boosted message.
use monitor_queue.Prelude.{
  ℕ, ◌≤◌, ◌≡◌, refl, ap, ◌∙◌, true, false, List, [], ◌∷◌, arith, count, ◌==◌, ==_iff, All,
  All-count,
}
use monitor_queue.MsgMap.Pointers.{ptrs}
use monitor_queue.Queue.State.{Queue, queued}
use monitor_queue.Queue.Buckets.{bucket, remove_at}
use monitor_queue.Queue.Buckets.Counts.{
  count-bucket-push_front, count-bucket-remove_at, length-remove_at,
}
use monitor_queue.Queue.Threads.{
  time_out, boost, monitor_entry, monitor_scan, notify_pops, monitor_pass,
}
use monitor_queue.Queue.Threads.Rules.{monitor_entry_cases}
use monitor_queue.Queue.Invariant.{Inv}
use monitor_queue.Queue.Invariant.TakeOut.{mapped_once}
use monitor_queue.Queue.Invariant.Scans.{monitor_entry-Inv, monitor_entry-map}
use monitor_queue.Queue.Monitoring.{found_at_home, monitor_entry-Round}

-- What a round of the scan leaves where it is: every message but its own, and its own if that one
-- is queued and boosted.
entry_place :
    {q : Queue} (v : Inv q) (now p : ℕ)
    → count p (ptrs q.msg_map) ≡ 1
    → (a j : ℕ) → (q.heap a).state ≡ queued
    → (q.heap a).boosted ≡ true
    → count a (bucket j (monitor_entry now q p).0.queue_list) ≡ count a (bucket j q.queue_list)
unfolding time_out boost
entry_place {q} v now p c a j s b =
    let range = (v.entry p (omega (arith, c))).in_range in
    let k = (q.heap p).priority in
    monitor_entry_cases (λ r. count a (bucket j r.0.queue_list) ≡ count a (bucket j q.queue_list))
      now q p (λ run _ _. ground (arith, count-bucket-push_front p a j k q.queue_list range))
      (λ wait plain _ _.
        let home = found_at_home q p v c wait plain in
        let other : (a == p) ≡ false = ground arith in
        let moved =
          count-bucket-push_front p a j 0 (remove_at k p q.queue_list)
            (omega (arith, range, length-remove_at p k q.queue_list)) in
        rw home (ground (arith, moved, count-bucket-remove_at p a j k q.queue_list home other)))
      (λ _ _. refl)

scan_place :
    (now : ℕ) (q : Queue) (ps : List ℕ) (a j : ℕ)
    → Inv q
    → All (λ p. 1 ≤ count p (ptrs q.msg_map)) ps
    → (q.heap a).state ≡ queued
    → (q.heap a).boosted ≡ true
    → count a (bucket j (monitor_scan now q ps).0.queue_list) ≡ count a (bucket j q.queue_list)
unfolding monitor_scan
scan_place now q [] a j v m s b = refl
scan_place now q (p ∷ ps) a j v m s b =
    let c = mapped_once v p m.0 in
    let q' = (monitor_entry now q p).0 in
    let round = monitor_entry-Round v now p c in
    let same : q'.heap a ≡ q.heap a = ground (arith, round.here, round.elsewhere a, ==_iff a p) in
    scan_place now q' ps a j (monitor_entry-Inv v now p c) (rw (monitor_entry-map now q p) m.1)
      (ap (λ e. e.state) same ∙ s) (ap (λ e. e.boosted) same ∙ b)
    ∙ entry_place v now p c a j s b

-- A pass over a queue with the invariant leaves a queued message that is boosted in its queue.
pub place-monitor_pass :
    (q : Queue) (now a j : ℕ)
    → Inv q
    → (q.heap a).state ≡ queued
    → (q.heap a).boosted ≡ true
    → count a (bucket j (monitor_pass q now).queue_list) ≡ count a (bucket j q.queue_list)
unfolding monitor_pass notify_pops
place-monitor_pass q now a j v s b =
    let ps = ptrs q.msg_map in
    ground (arith, scan_place now q ps a j v (All-count ps ps (λ x. omega arith)) s b)
