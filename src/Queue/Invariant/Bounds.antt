-- ===== src/Queue/Invariant/Bounds.antt =====
-- server/Queue.cpp: the bounds of the counters, and the parts of a queue that its invariant does
-- not look at.
use monitor_queue.Prelude.{◌≤◌, Bool, true, false, List, arith, length, if◌then◌else◌}
use monitor_queue.MsgMap.Pointers.{ptrs, length-ptrs}
use monitor_queue.Queue.State.{Queue, Output, is_queued, is_failed}
use monitor_queue.Queue.State.Tally.{tally-le-length}
use monitor_queue.Queue.Invariant.{Inv}

module _ {q : Queue} (v : Inv q) where
  pub queued_bound : q.count_queued ≤ length q.msg_map
  queued_bound = ground (
    arith,
    v.counts_queued,
    v.tally_queued,
    tally-le-length is_queued q.heap (ptrs q.msg_map),
    length-ptrs q.msg_map,
  )

  pub failed_bound : q.count_failed ≤ length q.msg_map
  failed_bound = ground (
    arith,
    v.tally_failed,
    tally-le-length is_failed q.heap (ptrs q.msg_map),
    length-ptrs q.msg_map,
  )

  pub sent-Inv :
      (o : List Output) (run cb : Bool) → Inv (record q { outputs = o; run = run; err_cb = cb })
  sent-Inv o run cb = record {
    owned = v.owned;
    ordered = v.ordered;
    within = v.within;
    sized = v.sized;
    entry = v.entry;
    named = v.named;
    in_queue = v.in_queue;
    at_home = v.at_home;
    in_delay = v.in_delay;
    due_order = v.due_order;
    counts_queued = v.counts_queued;
    tally_queued = v.tally_queued;
    tally_delayed = v.tally_delayed;
    tally_failed = v.tally_failed;
  }

pub if-Inv : (b : Bool) {q r : Queue} → Inv q → Inv r → Inv (if b then q else r)
if-Inv true v w = v
if-Inv false v w = w
