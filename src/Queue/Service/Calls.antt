-- ===== src/Queue/Service/Calls.antt =====
-- server/Queue.cpp, push and popImpl: where a message stands in the order of service.
use mathlib.Core.List.{reverse, reverse-cons}
use monitor_queue.Prelude.{
  ℕ, ◌≤◌, ◌<◌, ◌≡◌, refl, sym, ap, ◌∙◌, subst, ◌⊎◌, inl, inr, some, List, [], ◌∷◌, ◌++◌, arith, Str,
  length, count, count-append, ◌&&◌, ◌==◌, if◌then◌else◌, Option-cases, List-cases,
}
use monitor_queue.MsgMap.{find, find-insert_self}
use monitor_queue.MsgMap.Pointers.{ptrs}
use monitor_queue.Queue.State.{Queue, is_queued}
use monitor_queue.Queue.Buckets.{take_first, count_all}
use monitor_queue.Queue.Buckets.Order.{take_first-Takes, take_first-none, total-Takes}
use monitor_queue.Queue.Defs.{
  ok, push, Popped, blocked, popped, all_queues_empty, pop, pop_impl, get_msg_entry, admit, enqueue,
}
use monitor_queue.Queue.Defs.Rules.{push_ok, queue_list-get_msg_entry}
use monitor_queue.Queue.Threads.{release}
use monitor_queue.Queue.Invariant.{Inv}
use monitor_queue.Queue.Invariant.Methods.{pop_impl-Inv}
use monitor_queue.Queue.Service.{
  service, service-ahead, service-before, ahead, behind, before, from, service-push_front,
  service-push_back, service-Takes, length-service,
}

-- What `pop` comes to, over the order of service.
abbrev pub Serves : Queue → Popped → Type 0
Serves q blocked = service q.queue_list ≡ []
Serves q (popped q' p) = service q.queue_list ≡ p ∷ service q'.queue_list
Serves q all_queues_empty = ⊥

-- On a queue with the invariant, `pop` takes the first message in the order of service; it
-- waits exactly when there is none, and never throws its `logic_error`.
pub pop-Serves : (q : Queue) (now draw : ℕ) → Inv q → Serves q (pop q now draw)
unfolding pop pop_impl
pop-Serves q now draw v = elim (Option-cases (take_first q.queue_list)) [
  | inl n ↦
      let e : q.count_queued ≡ 0 = omega (arith, v.counts_queued, take_first-none q.queue_list n) in
      ground (arith, e, List-cases (service q.queue_list), length-service q.queue_list)
  | inr ((p, rest), t) ↦
      let k = take_first-Takes p q.queue_list rest t in
      ground (arith, service-Takes p k, total-Takes p k, v.counts_queued)
]

-- A message pushed with no delay, by a push that is accepted, stands behind all of its own and
-- higher priorities, and ahead of the lower ones.
pub push-service :
    (q : Queue) (id : Str) (priority now : ℕ) {q' : Queue}
    → push q id priority 0 now ≡ ok q'
    → (p : ℕ) × (find id q'.msg_map ≡ some p)
      × (service q.queue_list ≡ ahead priority q.queue_list ++ behind priority q.queue_list)
      × (service q'.queue_list ≡ ahead priority q.queue_list ++ p ∷ behind priority q.queue_list)
unfolding push admit enqueue
push-service q id priority now e =
    let (lt, new, room, same) = push_ok q id priority now 0 e in
    let p = (get_msg_entry q id priority now).1 in
    let qs = queue_list-get_msg_entry q id priority now in
    (
      p,
      rw same (find-insert_self id p _),
      service-ahead priority q.queue_list,
      rw same (rw qs (service-push_front priority p q.queue_list lt)),
    )

-- A delayed message whose priority has a queue, once it is released, stands ahead of all
-- others of its priority, behind those of the higher ones.
pub release-service :
    (q : Queue) (now p : ℕ) (ds : List ℕ)
    → (q.heap p).priority < length q.queue_list
    → let k = (q.heap p).priority in
      (service q.queue_list ≡ before k q.queue_list ++ from k q.queue_list)
      × (service (release q now p ds).queue_list ≡ before k q.queue_list ++ p ∷ from k q.queue_list)
unfolding release
release-service q now p ds lt =
    (service-before (q.heap p).priority q.queue_list, service-push_back _ p q.queue_list lt)

-- A consumer with the queue to itself that pops at most once for each time and draw: the
-- addresses that it gets in turn.
pub drain : List (ℕ × ℕ) → Queue → List ℕ
unfolding pop
drain [] q = []
drain ((now, draw) ∷ ts) q = elim (pop q now draw) [
  | blocked ↦ []
  | popped q' p ↦ p ∷ drain ts q'
  | all_queues_empty ↦ []
]

pub Popped-cases :
    (r : Popped)
    → (r ≡ blocked) ⊎ ((q : Queue) × (p : ℕ) × (r ≡ popped q p)) ⊎ (r ≡ all_queues_empty)
Popped-cases blocked = inl refl
Popped-cases (popped q p) = inr (inl (q, p, refl))
Popped-cases all_queues_empty = inr (inr refl)

drain_all :
    (ts : List (ℕ × ℕ)) (q : Queue)
    → Inv q
    → length (service q.queue_list) ≤ length ts
    → drain ts q ≡ service q.queue_list
unfolding drain
drain_all [] q v le = ground (arith, List-cases (service q.queue_list))
drain_all ((now, draw) ∷ ts) q v le =
    let s = pop-Serves q now draw v in
    elim (Popped-cases (pop q now draw)) [
      | inl e ↦ rw (e, drain) (sym (subst (Serves q) e s))
      | inr (inl (q', p, e)) ↦
          let t = subst (Serves q) e s in
          let v' = pop_impl-Inv v now draw (unfold pop in e) in
          rw (e, drain) (ap (◌∷◌ p) (drain_all ts q' v' (ground (arith, ap length t))) ∙ sym t)
      | inr (inr e) ↦ absurd (subst (Serves q) e s)
    ]

count-reverse : (p : ℕ) (q : List ℕ) → count p (reverse q) ≡ count p q
unfolding count
count-reverse p [] = refl
count-reverse p (a ∷ q) =
    ap (count p) (reverse-cons a q)
    ∙ omega (arith, count-append p (reverse q) (a ∷ []), count-reverse p q)

count-service : (p : ℕ) (qs : List (List ℕ)) → count p (service qs) ≡ count_all p qs
unfolding service count_all count
count-service p [] = refl
count-service p (q ∷ qs) =
    omega (arith, count-append p (reverse q) (service qs), count-reverse p q, count-service p qs)

-- A consumer alone with a queue with the invariant, that pops at least as often as messages are
-- queued, whatever the times and the draws of its pops: it gets the messages in the order of
-- service, each queued message of the map exactly once, and nothing else.
pub drain-service :
    (ts : List (ℕ × ℕ)) (q : Queue)
    → Inv q
    → q.count_queued ≤ length ts
    → (drain ts q ≡ service q.queue_list)
      × ((p : ℕ)
          → count p (drain ts q)
            ≡ (if is_queued (q.heap p).state && (count p (ptrs q.msg_map) == 1) then 1 else 0))
drain-service ts q v le =
    let e = drain_all ts q v (omega (arith, length-service q.queue_list, v.counts_queued)) in
    (
      e,
      λ p. ap (count p) e ∙ count-service p q.queue_list ∙ ground (arith, v.in_queue p, v.owned p),
    )
