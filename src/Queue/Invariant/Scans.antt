-- ===== src/Queue/Invariant/Scans.antt =====
-- server/Queue.cpp, monitorThread and delayThread: the threads, and the invariant.
use monitor_queue.Prelude.{
  ℕ, ◌≤◌, ◌≡◌, refl, ◌∙◌, subst, true, List, [], ◌∷◌, arith, count, ltb, leb, ◌==◌, inl, inr,
  Bool-cases, All, All-count,
}
use monitor_queue.MsgMap.Pointers.{ptrs}
use monitor_queue.Queue.State.{Queue, running}
use monitor_queue.Queue.Buckets.{bucket, contains}
use monitor_queue.Queue.Buckets.Counts.{total-remove_at}
use monitor_queue.Queue.Threads.{
  bump_fails, time_out, boost, monitor_entry, monitor_scan, notify_pops, monitor_pass, release,
  release_due, delay_pass, destroy,
}
use monitor_queue.Queue.Threads.Rules.{monitor_entry_cases}
use monitor_queue.Queue.Invariant.{Inv}
use monitor_queue.Queue.Invariant.Bounds.{queued_bound, sent-Inv, if-Inv}
use monitor_queue.Queue.Invariant.InHand.{
  store-InHand, settle_failed, enqueue-Inv, enqueue_back-Inv,
}
use monitor_queue.Queue.Invariant.TakeOut.{
  mapped_once, running-InHand, boosted_queued, boosted-InHand, due_delayed, due-InHand,
}

module _ {q : Queue} (v : Inv q) where
  time_out-Inv :
      (p : ℕ) → count p (ptrs q.msg_map) ≡ 1 → (q.heap p).state ≡ running → Inv (time_out q p).0
  unfolding time_out
  time_out-Inv p c s =
      let h = running-InHand v p c s in
      let i = v.entry p (omega (arith, c)) in
      elim (Bool-cases (bump_fails (q.heap p) == q.max_retries)) [
        | inl y ↦ rw y (
            settle_failed (store-InHand h _ h.in_range refl) (ground arith) (record {
              in_range = ground (arith, h.in_range);
              no_token = λ g. absurd (ground arith);
              has_token = λ _. ground (arith, i.has_token);
            }))
        | inr n ↦ rw n (
            enqueue-Inv (store-InHand h _ h.in_range refl) (q.heap p).priority q.outputs h.in_range
              (ground arith) (inl (ground arith))
              (record {
                in_range = ground (arith, h.in_range);
                no_token = λ _. ground arith;
                has_token = λ g. absurd (ground arith);
              }))
      ]

  boost_moves-Inv :
      (p : ℕ) → contains p (bucket (q.heap p).priority q.queue_list) ≡ true → Inv (boost q p)
  unfolding boost
  boost_moves-Inv p c =
      let h = boosted-InHand v p (q.heap p).priority c in
      let (s, m) = boosted_queued v p (q.heap p).priority c in
      let i = v.entry p (omega (arith, m)) in
      rw c (
        subst Inv
          (ground (
            arith,
            queued_bound v,
            v.counts_queued,
            v.within,
            v.sized,
            total-remove_at p (q.heap p).priority q.queue_list c,
          ))
          (enqueue-Inv (store-InHand h (record (q.heap p) { boosted = true }) h.in_range refl) 0
            q.outputs (ground (arith, h.in_range)) (ground arith) (inr (ground arith))
            (record {
              in_range = ground (arith, h.in_range);
              no_token = λ _. ground (arith, i.no_token);
              has_token = λ g. absurd (ground arith);
            })))

  boost-Inv : (p : ℕ) → Inv (boost q p)
  unfolding boost
  boost-Inv p = elim (Bool-cases (contains p (bucket (q.heap p).priority q.queue_list))) [
    | inl y ↦ boost_moves-Inv p y
    | inr n ↦ rw n (if-Inv q.err_cb (sent-Inv v _ _ _) v)
  ]

  pub monitor_entry-Inv : (now p : ℕ) → count p (ptrs q.msg_map) ≡ 1 → Inv (monitor_entry now q p).0
  monitor_entry-Inv now p c =
      monitor_entry_cases (λ r. Inv r.0) now q p (λ s _ _. time_out-Inv p c s)
        (λ _ _ _ _. boost-Inv p) (λ _ _. v)

pub monitor_entry-map :
    (now : ℕ) (q : Queue) (p : ℕ) → (monitor_entry now q p).0.msg_map ≡ q.msg_map
unfolding monitor_entry time_out boost
monitor_entry-map now q p = ground arith

monitor_scan-Inv :
    (now : ℕ) (q : Queue) (ps : List ℕ)
    → Inv q
    → All (λ p. 1 ≤ count p (ptrs q.msg_map)) ps
    → Inv (monitor_scan now q ps).0
unfolding monitor_scan
monitor_scan-Inv now q [] v a = v
monitor_scan-Inv now q (p ∷ ps) v a =
    monitor_scan-Inv now (monitor_entry now q p).0 ps
      (monitor_entry-Inv v now p (mapped_once v p a.0)) (rw (monitor_entry-map now q p) a.1)

monitor_scan-map :
    (now : ℕ) (q : Queue) (ps : List ℕ) → (monitor_scan now q ps).0.msg_map ≡ q.msg_map
unfolding monitor_scan
monitor_scan-map now q [] = refl
monitor_scan-map now q (p ∷ ps) =
    monitor_scan-map now (monitor_entry now q p).0 ps ∙ monitor_entry-map now q p

-- A pass of the monitor leaves the map of ids.
pub msg_map-monitor_pass : (q : Queue) (now : ℕ) → (monitor_pass q now).msg_map ≡ q.msg_map
unfolding monitor_pass notify_pops
msg_map-monitor_pass q now = ground (arith, monitor_scan-map now q (ptrs q.msg_map))

notify_pops-Inv : (q : Queue) (n : ℕ) → Inv q → Inv (notify_pops (q, n))
unfolding notify_pops
notify_pops-Inv q n v = if-Inv (n == 1) (sent-Inv v _ _ _) (if-Inv (ltb 1 n) (sent-Inv v _ _ _) v)

-- A pass of the monitor keeps the invariant.
pub monitor_pass-Inv : (q : Queue) (now : ℕ) → Inv q → Inv (monitor_pass q now)
unfolding monitor_pass
monitor_pass-Inv q now v =
    let ps = ptrs q.msg_map in
    if-Inv q.run
      (notify_pops-Inv (monitor_scan now q ps).0 (monitor_scan now q ps).1
        (monitor_scan-Inv now q ps v (All-count ps ps (λ p. omega arith))))
      v

pub release-Inv :
    (q : Queue) (now p : ℕ) (ds : List ℕ) → q.msg_delay ≡ p ∷ ds → Inv q → Inv (release q now p ds)
unfolding release
release-Inv q now p ds e v =
    let h = due-InHand v p ds e in
    let (s, m) = due_delayed v p ds e in
    let i = v.entry p (omega (arith, m)) in
    enqueue_back-Inv (store-InHand h _ h.in_range refl) (q.heap p).priority _ (ground arith)
      (ground arith)
      (record {
        in_range = ground (arith, h.in_range);
        no_token = λ _. ground (arith, i.no_token);
        has_token = λ g. absurd (ground arith);
      })

release_due-Inv :
    (now : ℕ) (q : Queue) (ds : List ℕ) → q.msg_delay ≡ ds → Inv q → Inv (release_due now q ds)
unfolding release_due
release_due-Inv now q [] e v = v
release_due-Inv now q (p ∷ ds) e v =
    if-Inv (leb (q.heap p).state_ts now)
      (release_due-Inv now (release q now p ds) ds (unfold release in refl)
        (release-Inv q now p ds e v))
      v

-- So does a pass of the delay thread.
pub delay_pass-Inv : (q : Queue) (now : ℕ) → Inv q → Inv (delay_pass q now)
unfolding delay_pass
delay_pass-Inv q now v = if-Inv q.run (release_due-Inv now q q.msg_delay refl v) v

pub destroy-Inv : (q : Queue) → Inv q → Inv (destroy q).0
unfolding destroy
destroy-Inv q v = sent-Inv v _ _ _
