-- ===== src/Queue/Invariant/InHand.antt =====
-- Inside a step of the queue one message may be out of its container. `InHand p` is the invariant
-- but for that message, which is in the map and in no queue; the steps are put together from the
-- lemmas that put it away again.
use monitor_queue.Prelude.{
  ℕ, ◌+◌, ◌^◌, ◌≤◌, ◌<◌, ◌≡◌, ◌⊎◌, true, false, some, List, arith, Str, length, count, bit, ltb,
  ◌==◌, if◌then◌else◌,
}
use monitor_queue.MsgMap.{find}
use monitor_queue.MsgMap.Order.{IsOrdered}
use monitor_queue.MsgMap.Pointers.{ptrs, length-ptrs}
use monitor_queue.Queue.State.{
  Queue, MsgEntry, Output, store, queued, running, delayed, failed, is_queued, is_delayed,
  is_failed, add64,
}
use monitor_queue.Queue.State.Tally.{tally, tally-store, tally-le-length}
use monitor_queue.Queue.Buckets.{bucket, push_front, push_back, total, count_all}
use monitor_queue.Queue.Buckets.Counts.{
  length-push_front, length-push_back, total-push_front, total-push_back, count_all-push_front,
  count_all-push_back, count-bucket-push_front, count-bucket-push_back,
}
use monitor_queue.Queue.Delays.{insert_delay}
use monitor_queue.Queue.Delays.Order.{
  IsDueOrder, IsDueOrder-store, count-insert_delay, length-insert_delay, insert_delay-IsDueOrder,
}
use monitor_queue.Queue.Invariant.{IsEntry, Inv}

pub record InHand (p : ℕ) (q : Queue) : Type 0 where
  pub owned : (a : ℕ) → count a (ptrs q.msg_map) + count a q.msg_pool ≡ bit (ltb a q.next_addr)
  pub ordered : IsOrdered q.msg_map
  pub within : length q.msg_map ≤ q.capacity
  pub sized : q.capacity < 2 ^ 64
  pub mapped : count p (ptrs q.msg_map) ≡ 1
  pub in_range : (q.heap p).priority < length q.queue_list
  pub entry :
      (a : ℕ)
      → (a == p) ≡ false
      → 1 ≤ count a (ptrs q.msg_map)
      → IsEntry (length q.queue_list) (q.heap a)
  pub named : (id : Str) (a : ℕ) → find id q.msg_map ≡ some a → (q.heap a).message.id ≡ id
  pub in_queue :
      (a : ℕ)
      → count_all a q.queue_list ≡ (
          if a == p
          then 0
          else (if is_queued (q.heap a).state then count a (ptrs q.msg_map) else 0))
  pub at_home :
      (a : ℕ)
      → (q.heap a).boosted ≡ false
      → count_all a q.queue_list ≤ count a (bucket (q.heap a).priority q.queue_list)
  pub in_delay :
      (a : ℕ)
      → count a q.msg_delay ≡ (
          if a == p
          then 0
          else (if is_delayed (q.heap a).state then count a (ptrs q.msg_map) else 0))
  pub due_order : IsDueOrder q.heap q.msg_delay
  pub counts_queued : q.count_queued ≡ total q.queue_list
  pub tally_queued :
      total q.queue_list + bit (is_queued (q.heap p).state)
      ≡ tally is_queued q.heap (ptrs q.msg_map)
  pub tally_delayed :
      length q.msg_delay + bit (is_delayed (q.heap p).state)
      ≡ tally is_delayed q.heap (ptrs q.msg_map)
  pub tally_failed :
      q.count_failed + bit (is_failed (q.heap p).state) ≡ tally is_failed q.heap (ptrs q.msg_map)

module _ {p : ℕ} {q : Queue} (h : InHand p q) where
  -- The message in hand may be written to.
  pub store-InHand :
      (e : MsgEntry)
      → e.priority < length q.queue_list
      → e.message.id ≡ (q.heap p).message.id
      → InHand p (record q { heap = store q.heap p e })
  store-InHand e r n = record {
    owned = h.owned;
    ordered = h.ordered;
    within = h.within;
    sized = h.sized;
    mapped = h.mapped;
    in_range = ground arith;
    entry = λ a ne c. ground (arith, h.entry a);
    named = λ id a f. ground (arith, h.named id a f);
    in_queue = λ a. ground (arith, h.in_queue a);
    at_home = λ a b. ground (arith, h.in_queue a, h.at_home a);
    in_delay = λ a. ground (arith, h.in_delay a);
    due_order = IsDueOrder-store q.heap p e q.msg_delay (ground (arith, h.in_delay p)) h.due_order;
    counts_queued = h.counts_queued;
    tally_queued =
        ground (arith, h.tally_queued, tally-store is_queued q.heap p e (ptrs q.msg_map) h.mapped);
    tally_delayed =
        ground
          (arith, h.tally_delayed, tally-store is_delayed q.heap p e (ptrs q.msg_map) h.mapped);
    tally_failed =
        ground (arith, h.tally_failed, tally-store is_failed q.heap p e (ptrs q.msg_map) h.mapped);
  }

  IsEntry-all :
      IsEntry (length q.queue_list) (q.heap p)
      → (a : ℕ) → 1 ≤ count a (ptrs q.msg_map)
      → IsEntry (length q.queue_list) (q.heap a)
  IsEntry-all i a c = ground (arith, h.entry a)

  -- A message that is running is in no queue.
  pub settle_running : (q.heap p).state ≡ running → IsEntry (length q.queue_list) (q.heap p) → Inv q
  settle_running s i = record {
    owned = h.owned;
    ordered = h.ordered;
    within = h.within;
    sized = h.sized;
    entry = IsEntry-all i;
    named = h.named;
    in_queue = λ a. ground (arith, h.in_queue a);
    at_home = h.at_home;
    in_delay = λ a. ground (arith, h.in_delay a);
    due_order = h.due_order;
    counts_queued = h.counts_queued;
    tally_queued = ground (arith, h.tally_queued);
    tally_delayed = ground (arith, h.tally_delayed);
    tally_failed = ground (arith, h.tally_failed);
  }

  room_for_failed : (q.heap p).state ≡ failed → q.count_failed + 1 < 2 ^ 64
  room_for_failed s = ground (
    arith,
    h.tally_failed,
    h.within,
    h.sized,
    tally-le-length is_failed q.heap (ptrs q.msg_map),
    length-ptrs q.msg_map,
  )

  -- A message that has failed is counted, and is in no queue.
  pub settle_failed :
      (q.heap p).state ≡ failed
      → IsEntry (length q.queue_list) (q.heap p)
      → Inv (record q { count_failed = add64 q.count_failed 1 })
  settle_failed s i = record {
    owned = h.owned;
    ordered = h.ordered;
    within = h.within;
    sized = h.sized;
    entry = IsEntry-all i;
    named = h.named;
    in_queue = λ a. ground (arith, h.in_queue a);
    at_home = h.at_home;
    in_delay = λ a. ground (arith, h.in_delay a);
    due_order = h.due_order;
    counts_queued = h.counts_queued;
    tally_queued = ground (arith, h.tally_queued);
    tally_delayed = ground (arith, h.tally_delayed);
    tally_failed = ground (arith, h.tally_failed, room_for_failed s);
  }

  room_for_queued : (q.heap p).state ≡ queued → q.count_queued + 1 < 2 ^ 64
  room_for_queued s = ground (
    arith,
    h.counts_queued,
    h.tally_queued,
    h.within,
    h.sized,
    tally-le-length is_queued q.heap (ptrs q.msg_map),
    length-ptrs q.msg_map,
  )

  -- A queued message may be put at the front of the queue of its priority; one that is boosted, of
  -- any queue.
  pub enqueue-Inv :
      (k : ℕ) (o : List Output)
      → k < length q.queue_list
      → (q.heap p).state ≡ queued
      → (k ≡ (q.heap p).priority) ⊎ ((q.heap p).boosted ≡ true)
      → IsEntry (length q.queue_list) (q.heap p)
      → Inv (record q {
        queue_list = push_front k p q.queue_list;
        count_queued = add64 q.count_queued 1;
        outputs = o;
      })
  enqueue-Inv k o lt s home i = record {
    owned = h.owned;
    ordered = h.ordered;
    within = h.within;
    sized = h.sized;
    entry = λ a c. rw (length-push_front p k q.queue_list) (IsEntry-all i a c);
    named = h.named;
    in_queue =
        λ a. ground (arith, h.in_queue a, h.mapped, count_all-push_front p a k q.queue_list lt);
    at_home = λ a b. ground (
      arith,
      h.at_home a b,
      h.in_queue a,
      home,
      count_all-push_front p a k q.queue_list lt,
      count-bucket-push_front p a (q.heap a).priority k q.queue_list lt,
    );
    in_delay = λ a. ground (arith, h.in_delay a);
    due_order = h.due_order;
    counts_queued =
        ground (arith, h.counts_queued, room_for_queued s, total-push_front p k q.queue_list lt);
    tally_queued = ground (arith, h.tally_queued, total-push_front p k q.queue_list lt);
    tally_delayed = ground (arith, h.tally_delayed);
    tally_failed = ground (arith, h.tally_failed);
  }

  -- Or at the back of the queue of its priority.
  pub enqueue_back-Inv :
      (k : ℕ) (o : List Output)
      → k ≡ (q.heap p).priority
      → (q.heap p).state ≡ queued
      → IsEntry (length q.queue_list) (q.heap p)
      → Inv (record q {
        queue_list = push_back k p q.queue_list;
        count_queued = add64 q.count_queued 1;
        outputs = o;
      })
  enqueue_back-Inv k o at_k s i =
      let lt : k < length q.queue_list = omega (arith, h.in_range, at_k) in
      let qs = q.queue_list in
      record {
        owned = h.owned;
        ordered = h.ordered;
        within = h.within;
        sized = h.sized;
        entry = λ a c. rw (length-push_back p k qs) (IsEntry-all i a c);
        named = h.named;
        in_queue = λ a. ground (arith, h.in_queue a, h.mapped, count_all-push_back p a k qs lt);
        at_home = λ a b. ground (
          arith,
          h.at_home a b,
          h.in_queue a,
          at_k,
          count_all-push_back p a k qs lt,
          count-bucket-push_back p a (q.heap a).priority k qs lt,
        );
        in_delay = λ a. ground (arith, h.in_delay a);
        due_order = h.due_order;
        counts_queued =
            ground (arith, h.counts_queued, room_for_queued s, total-push_back p k qs lt);
        tally_queued = ground (arith, h.tally_queued, total-push_back p k qs lt);
        tally_delayed = ground (arith, h.tally_delayed);
        tally_failed = ground (arith, h.tally_failed);
      }

  -- A delayed message goes to the delay queue.
  pub delay-Inv :
      (o : List Output)
      → (q.heap p).state ≡ delayed
      → IsEntry (length q.queue_list) (q.heap p)
      → Inv (record q { msg_delay = insert_delay q.heap p q.msg_delay; outputs = o })
  delay-Inv o s i = record {
    owned = h.owned;
    ordered = h.ordered;
    within = h.within;
    sized = h.sized;
    entry = IsEntry-all i;
    named = h.named;
    in_queue = λ a. ground (arith, h.in_queue a);
    at_home = h.at_home;
    in_delay =
        λ a. ground (arith, h.in_delay a, h.mapped, count-insert_delay q.heap p a q.msg_delay);
    due_order = insert_delay-IsDueOrder q.heap p q.msg_delay h.due_order;
    counts_queued = h.counts_queued;
    tally_queued = ground (arith, h.tally_queued);
    tally_delayed = ground (arith, h.tally_delayed, length-insert_delay q.heap p q.msg_delay);
    tally_failed = ground (arith, h.tally_failed);
  }
