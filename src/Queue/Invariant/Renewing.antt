-- ===== src/Queue/Invariant/Renewing.antt =====
-- server/Queue.cpp: the invariant where a message leaves for the pool, and where one is made.
use monitor_queue.Prelude.{
  ℕ, ◌+◌, ◌<◌, ◌≡◌, none, some, List, ◌∷◌, arith, Str, str_eq_iff, length, count, bit, ltb, ◌==◌,
  if◌then◌else◌,
}
use monitor_queue.MsgMap.{find, insert, erase, find-insert, find-erase_ne}
use monitor_queue.MsgMap.Order.{insert-IsOrdered, erase-IsOrdered, find-erase_self}
use monitor_queue.MsgMap.Pointers.{
  ptrs, length-ptrs, length-insert, length-erase, count-ptrs-insert, count-ptrs-erase, find-count,
}
use monitor_queue.Queue.State.{
  Queue, MsgEntry, store, running, failed, is_queued, is_delayed, is_failed, sub64,
}
use monitor_queue.Queue.State.Tally.{tally-store_other, tally-le-length, tally-insert, tally-erase}
use monitor_queue.Queue.Delays.Order.{IsDueOrder-store}
use monitor_queue.Queue.Invariant.{Inv}
use monitor_queue.Queue.Invariant.InHand.{InHand}
use monitor_queue.Queue.Invariant.TakeOut.{found_once}

module _ {q : Queue} (v : Inv q) where
  -- A message that leaves for the pool: one that is running.
  module _ (id : Str) (p : ℕ) (f : find id q.msg_map ≡ some p) where
    gone_owned :
        (a : ℕ)
        → count a (ptrs (erase id q.msg_map)) + count a (p ∷ q.msg_pool) ≡ bit (ltb a q.next_addr)
    unfolding count
    gone_owned a = omega (arith, v.owned a, count-ptrs-erase a id p q.msg_map f)

    gone_count :
        (a : ℕ)
        → count a (ptrs (erase id q.msg_map)) ≡ (if a == p then 0 else count a (ptrs q.msg_map))
    gone_count a = ground (arith, count-ptrs-erase a id p q.msg_map f, found_once v id p f)

    gone_named :
        (j : Str) (a : ℕ) → find j (erase id q.msg_map) ≡ some a → (q.heap a).message.id ≡ j
    gone_named j a g = ground (
      arith,
      v.named j a,
      find-erase_ne id j q.msg_map,
      find-erase_self id q.msg_map v.ordered,
      str_eq_iff id j,
    )

    pub dropped_running :
        (q.heap p).state ≡ running
        → Inv (record q { msg_pool = p ∷ q.msg_pool; msg_map = erase id q.msg_map })
    dropped_running s = record {
      owned = gone_owned;
      ordered = erase-IsOrdered id q.msg_map v.ordered;
      within = ground (arith, v.within, length-erase id p q.msg_map f);
      sized = v.sized;
      entry = λ a d. ground (arith, v.entry a, gone_count a);
      named = gone_named;
      in_queue = λ a. ground (arith, v.in_queue a, gone_count a);
      at_home = v.at_home;
      in_delay = λ a. ground (arith, v.in_delay a, gone_count a);
      due_order = v.due_order;
      counts_queued = v.counts_queued;
      tally_queued = ground (arith, v.tally_queued, tally-erase is_queued q.heap id p q.msg_map f);
      tally_delayed =
          ground (arith, v.tally_delayed, tally-erase is_delayed q.heap id p q.msg_map f);
      tally_failed = ground (arith, v.tally_failed, tally-erase is_failed q.heap id p q.msg_map f);
    }

    -- Or one that has failed, which is counted no longer.
    pub dropped_failed :
        (q.heap p).state ≡ failed
        → Inv (record q {
          msg_pool = p ∷ q.msg_pool;
          msg_map = erase id q.msg_map;
          count_failed = sub64 q.count_failed 1;
        })
    dropped_failed s = record {
      owned = gone_owned;
      ordered = erase-IsOrdered id q.msg_map v.ordered;
      within = ground (arith, v.within, length-erase id p q.msg_map f);
      sized = v.sized;
      entry = λ a d. ground (arith, v.entry a, gone_count a);
      named = gone_named;
      in_queue = λ a. ground (arith, v.in_queue a, gone_count a);
      at_home = v.at_home;
      in_delay = λ a. ground (arith, v.in_delay a, gone_count a);
      due_order = v.due_order;
      counts_queued = v.counts_queued;
      tally_queued = ground (arith, v.tally_queued, tally-erase is_queued q.heap id p q.msg_map f);
      tally_delayed =
          ground (arith, v.tally_delayed, tally-erase is_delayed q.heap id p q.msg_map f);
      tally_failed = ground (
        arith,
        v.tally_failed,
        v.within,
        v.sized,
        tally-le-length is_failed q.heap (ptrs q.msg_map),
        length-ptrs q.msg_map,
        tally-erase is_failed q.heap id p q.msg_map f,
      );
    }

  -- A new message, at an address that is not in the map.
  module _ (id : Str) (p : ℕ) (e : MsgEntry) (pool : List ℕ) (next : ℕ)
      (new : find id q.msg_map ≡ none) (free : count p (ptrs q.msg_map) ≡ 0)
      (owned : (a : ℕ)
        → bit (a == p) + count a (ptrs q.msg_map) + count a pool ≡ bit (ltb a next)) where
    new_count :
        (a : ℕ) → count a (ptrs (insert id p q.msg_map)) ≡ bit (a == p) + count a (ptrs q.msg_map)
    new_count a = count-ptrs-insert a id p q.msg_map new

    pub new-InHand :
        length q.msg_map < q.capacity
        → e.priority < length q.queue_list
        → e.message.id ≡ id
        → InHand p (record q {
          heap = store q.heap p e;
          msg_pool = pool;
          next_addr = next;
          msg_map = insert id p q.msg_map;
        })
    new-InHand room r n = record {
      owned = λ a. omega (arith, owned a, new_count a);
      ordered = insert-IsOrdered id p q.msg_map v.ordered;
      within = ground (arith, length-insert id p q.msg_map new);
      sized = v.sized;
      mapped = ground (arith, new_count p);
      in_range = ground arith;
      entry = λ a ne d. ground (arith, v.entry a, new_count a);
      named = λ j a g. ground (
        arith,
        v.named j a,
        find-insert id j p q.msg_map,
        str_eq_iff id j,
        find-count j a q.msg_map,
      );
      in_queue = λ a. ground (arith, v.in_queue a, new_count a);
      at_home = λ a b. ground (arith, v.at_home a, v.in_queue a);
      in_delay = λ a. ground (arith, v.in_delay a, new_count a);
      due_order =
          IsDueOrder-store q.heap p e q.msg_delay (ground (arith, v.in_delay p)) v.due_order;
      counts_queued = v.counts_queued;
      tally_queued = ground (
        arith,
        v.tally_queued,
        tally-insert is_queued (store q.heap p e) id p q.msg_map new,
        tally-store_other is_queued q.heap p e (ptrs q.msg_map) free,
      );
      tally_delayed = ground (
        arith,
        v.tally_delayed,
        tally-insert is_delayed (store q.heap p e) id p q.msg_map new,
        tally-store_other is_delayed q.heap p e (ptrs q.msg_map) free,
      );
      tally_failed = ground (
        arith,
        v.tally_failed,
        tally-insert is_failed (store q.heap p e) id p q.msg_map new,
        tally-store_other is_failed q.heap p e (ptrs q.msg_map) free,
      );
    }
