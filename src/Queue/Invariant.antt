-- ===== src/Queue/Invariant.antt =====
-- What holds of a queue between two steps: who owns each entry, what each container holds, and
-- that the counters count it.
pub mod InHand
pub mod TakeOut
pub mod Renewing
pub mod Bounds
pub mod Methods
pub mod Scans
pub mod Erasing
use monitor_queue.Prelude.{
  ℕ, zero, suc, ◌+◌, ◌-◌, ◌*◌, ◌%◌, ◌^◌, ◌≤◌, ◌<◌, ◌≡◌, ◌≢◌, refl, Bool, true, false, Option, none,
  some, List, [], ◌∷◌, arith, Str, length, count, bit, ltb, ◌==◌, if◌then◌else◌,
}
use monitor_queue.MsgMap.{find}
use monitor_queue.MsgMap.Order.{IsOrdered}
use monitor_queue.MsgMap.Pointers.{ptrs}
use monitor_queue.Queue.State.{
  Queue, MsgEntry, MsgState, Heap, is_queued, is_running, is_delayed, is_failed,
}
use monitor_queue.Queue.State.Tally.{tally}
use monitor_queue.Queue.Buckets.{bucket, total, count_all}
use monitor_queue.Queue.Delays.Order.{IsDueOrder}

-- States in which a consumer's token is kept.
abbrev pub is_held : MsgState → Bool
is_held s = if is_running s then true else is_failed s

-- An entry of the map: its token is empty unless a consumer has, or had, the message.
pub record IsEntry (n : ℕ) (e : MsgEntry) : Type 0 where
  pub in_range : e.priority < n
  pub no_token : is_held e.state ≡ false → e.message.token ≡ []
  pub has_token : is_held e.state ≡ true → e.message.token ≢ []

pub record Inv (q : Queue) : Type 0 where
  -- Each allocated entry is in the map or in the pool, and there once.
  pub owned : (p : ℕ) → count p (ptrs q.msg_map) + count p q.msg_pool ≡ bit (ltb p q.next_addr)
  pub ordered : IsOrdered q.msg_map
  pub within : length q.msg_map ≤ q.capacity
  pub sized : q.capacity < 2 ^ 64
  pub entry : (p : ℕ) → 1 ≤ count p (ptrs q.msg_map) → IsEntry (length q.queue_list) (q.heap p)
  pub named : (id : Str) (p : ℕ) → find id q.msg_map ≡ some p → (q.heap p).message.id ≡ id
  -- The priority queues hold the queued messages, once each, and one that is not boosted is in the
  -- queue of its priority.
  pub in_queue :
      (p : ℕ)
      → count_all p q.queue_list
        ≡ (if is_queued (q.heap p).state then count p (ptrs q.msg_map) else 0)
  pub at_home :
      (p : ℕ)
      → (q.heap p).boosted ≡ false
      → count_all p q.queue_list ≤ count p (bucket (q.heap p).priority q.queue_list)
  -- The delay queue holds the delayed messages, once each, in the order of their times.
  pub in_delay :
      (p : ℕ)
      → count p q.msg_delay ≡ (if is_delayed (q.heap p).state then count p (ptrs q.msg_map) else 0)
  pub due_order : IsDueOrder q.heap q.msg_delay
  -- The counters.
  pub counts_queued : q.count_queued ≡ total q.queue_list
  pub tally_queued : total q.queue_list ≡ tally is_queued q.heap (ptrs q.msg_map)
  pub tally_delayed : length q.msg_delay ≡ tally is_delayed q.heap (ptrs q.msg_map)
  pub tally_failed : q.count_failed ≡ tally is_failed q.heap (ptrs q.msg_map)
