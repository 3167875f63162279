-- ===== src/Queue/Invariant/TakeOut.antt =====
-- How a step of the queue comes to have a message in hand: taken from a container, or new. And how
-- a message leaves for good.
use monitor_queue.Prelude.{
  ℕ, ◌+◌, ◌≤◌, ◌≡◌, ap, subst, true, some, List, ◌∷◌, arith, Str, length, count, bit, ◌==◌,
}
use monitor_queue.MsgMap.{find}
use monitor_queue.MsgMap.Pointers.{ptrs, length-ptrs, find-count}
use monitor_queue.Queue.State.{Queue, queued, running, delayed, is_queued, sub64}
use monitor_queue.Queue.State.Tally.{tally-le-length}
use monitor_queue.Queue.Buckets.{bucket, contains, remove_at}
use monitor_queue.Queue.Buckets.Counts.{
  length-remove_at, total-remove_at, count_all-remove_at, count-bucket-remove_at,
}
use monitor_queue.Queue.Buckets.Order.{
  Takes, length-Takes, total-Takes, count_all-Takes, count-bucket-Takes,
}
use monitor_queue.Queue.Delays.Order.{IsDueOrder}
use monitor_queue.Queue.Invariant.{Inv}
use monitor_queue.Queue.Invariant.InHand.{InHand}

module _ {q : Queue} (v : Inv q) where
  -- An address stands in the map once at most.
  pub mapped_once : (p : ℕ) → 1 ≤ count p (ptrs q.msg_map) → count p (ptrs q.msg_map) ≡ 1
  mapped_once p c = ground (arith, v.owned p)

  pub found_once : (id : Str) (p : ℕ) → find id q.msg_map ≡ some p → count p (ptrs q.msg_map) ≡ 1
  found_once id p f = mapped_once p (find-count id p q.msg_map f)

  pub running-InHand :
      (p : ℕ) → count p (ptrs q.msg_map) ≡ 1 → (q.heap p).state ≡ running → InHand p q
  running-InHand p c s = record {
    owned = v.owned;
    ordered = v.ordered;
    within = v.within;
    sized = v.sized;
    mapped = c;
    in_range = (v.entry p (omega arith)).in_range;
    entry = λ a n. v.entry a;
    named = v.named;
    in_queue = λ a. ground (arith, v.in_queue a);
    at_home = v.at_home;
    in_delay = λ a. ground (arith, v.in_delay a);
    due_order = v.due_order;
    counts_queued = v.counts_queued;
    tally_queued = ground (arith, v.tally_queued);
    tally_delayed = ground (arith, v.tally_delayed);
    tally_failed = ground (arith, v.tally_failed);
  }

  module _ (p : ℕ) {rest : List (List ℕ)} (t : Takes p q.queue_list rest) where
    -- What is taken from the queues is a queued message of the map.
    pub taken_queued : ((q.heap p).state ≡ queued) × (count p (ptrs q.msg_map) ≡ 1)
    taken_queued = ground (arith, v.in_queue p, count_all-Takes p p t, v.owned p)

    pub taken-InHand :
        InHand p (record q { queue_list = rest; count_queued = sub64 q.count_queued 1 })
    taken-InHand =
        let (s, c) = taken_queued in
        let n = length-Takes p t in
        record {
          owned = v.owned;
          ordered = v.ordered;
          within = v.within;
          sized = v.sized;
          mapped = c;
          in_range = ground (arith, v.entry p, n);
          entry = λ a _ d. rw n (v.entry a d);
          named = v.named;
          in_queue = λ a. ground (arith, v.in_queue a, count_all-Takes p a t);
          at_home = λ a b. ground (
            arith,
            v.at_home a b,
            v.in_queue a,
            count_all-Takes p a t,
            count-bucket-Takes p a (q.heap a).priority t,
          );
          in_delay = λ a. ground (arith, v.in_delay a);
          due_order = v.due_order;
          counts_queued = ground (
            arith,
            v.counts_queued,
            v.tally_queued,
            v.within,
            v.sized,
            total-Takes p t,
            tally-le-length is_queued q.heap (ptrs q.msg_map),
            length-ptrs q.msg_map,
          );
          tally_queued = ground (arith, v.tally_queued, total-Takes p t);
          tally_delayed = ground (arith, v.tally_delayed);
          tally_failed = ground (arith, v.tally_failed);
        }

  module _ (p : ℕ) (k : ℕ) (c : contains p (bucket k q.queue_list) ≡ true) where
    pub boosted_queued : ((q.heap p).state ≡ queued) × (count p (ptrs q.msg_map) ≡ 1)
    boosted_queued =
        ground (arith, v.in_queue p, count_all-remove_at p p k q.queue_list c, v.owned p)

    pub boosted-InHand : InHand p (record q {
      queue_list = remove_at k p q.queue_list;
      count_queued = sub64 q.count_queued 1;
    })
    boosted-InHand =
        let (s, m) = boosted_queued in
        let n = length-remove_at p k q.queue_list in
        record {
          owned = v.owned;
          ordered = v.ordered;
          within = v.within;
          sized = v.sized;
          mapped = m;
          in_range = ground (arith, v.entry p, n);
          entry = λ a _ d. rw n (v.entry a d);
          named = v.named;
          in_queue = λ a. ground (arith, v.in_queue a, count_all-remove_at p a k q.queue_list c);
          at_home = λ a b. ground (
            arith,
            v.at_home a b,
            v.in_queue a,
            count_all-remove_at p a k q.queue_list c,
            count-bucket-remove_at p a (q.heap a).priority k q.queue_list c,
          );
          in_delay = λ a. ground (arith, v.in_delay a);
          due_order = v.due_order;
          counts_queued = ground (
            arith,
            v.counts_queued,
            v.tally_queued,
            v.within,
            v.sized,
            total-remove_at p k q.queue_list c,
            tally-le-length is_queued q.heap (ptrs q.msg_map),
            length-ptrs q.msg_map,
          );
          tally_queued = ground (arith, v.tally_queued, total-remove_at p k q.queue_list c);
          tally_delayed = ground (arith, v.tally_delayed);
          tally_failed = ground (arith, v.tally_failed);
        }

  module _ (p : ℕ) (ds : List ℕ) (e : q.msg_delay ≡ p ∷ ds) where
    delay_counts : (a : ℕ) → count a q.msg_delay ≡ bit (a == p) + count a ds
    unfolding count
    delay_counts a = ap (count a) e

    pub due_delayed : ((q.heap p).state ≡ delayed) × (count p (ptrs q.msg_map) ≡ 1)
    due_delayed = ground (arith, v.in_delay p, delay_counts p, v.owned p)

    pub due-InHand : InHand p (record q { msg_delay = ds })
    due-InHand =
        let (s, m) = due_delayed in
        record {
          owned = v.owned;
          ordered = v.ordered;
          within = v.within;
          sized = v.sized;
          mapped = m;
          in_range = (v.entry p (omega arith)).in_range;
          entry = λ a _ d. v.entry a d;
          named = v.named;
          in_queue = λ a. ground (arith, v.in_queue a);
          at_home = v.at_home;
          in_delay = λ a. ground (arith, v.in_delay a, delay_counts a);
          due_order = (subst (IsDueOrder q.heap) e v.due_order).1;
          counts_queued = v.counts_queued;
          tally_queued = ground (arith, v.tally_queued);
          tally_delayed = ground (arith, v.tally_delayed, ap length e);
          tally_failed = ground (arith, v.tally_failed);
        }
