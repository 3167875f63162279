-- ===== src/Queue/Tests.antt =====
-- Queues on which the theorems are tried, and their instances there.
pub mod Calls
pub mod Passes
use monitor_queue.Prelude.{
  ℕ, zero, suc, ◌+◌, ◌*◌, ◌^◌, ◌≤◌, ◌<◌, ◌≡◌, ◌≢◌, refl, ◌⊎◌, Bool, true, false, ◌&&◌, Option, none,
  some, List, [], ◌∷◌, ◌++◌, arith, Str, str_eq, str_lt, to_string, length, count, bit, ltb, ◌==◌,
  if◌then◌else◌,
}
use monitor_queue.MsgMap.{find, insert, erase}
use monitor_queue.MsgMap.Pointers.{ptrs}
use monitor_queue.Queue.State.{Queue, queued, new_queue, failed, milliseconds, new_entry, reset}
use monitor_queue.Queue.Buckets.{bucket, push_front, push_back, take_first, contains, remove_at}
use monitor_queue.Queue.Defs.{
  Result, ok, err, invalid_token, no_such_id, push, Popped, blocked, popped, pop, ack, pop_ack,
  erase_failed, set_error_callback, insert_delayed_msg, enqueue, admit, requeue_msg,
}
use monitor_queue.Queue.Threads.{monitor_pass, delay_pass, destroy}
use monitor_queue.Queue.History.{
  Call, pushes, pops, acks, pop_acks, erases, monitors, delays, after_result, after_pop, step, run,
}
use monitor_queue.Queue.Invariant.{Inv}
use monitor_queue.Queue.History.Invariant.{reachable-Inv}

abbrev pub id_a : Str
id_a = b'a' ∷ []

abbrev pub id_b : Str
id_b = b'b' ∷ []

abbrev pub id_c : Str
id_c = b'c' ∷ []

abbrev pub id_d : Str
id_d = b'd' ∷ []

-- What a run in a test has to see through.
unfoldable pub opened : Unit {0}
unfolding run step push pop ack pop_ack erase_failed set_error_callback monitor_pass delay_pass
    destroy new_queue str_eq str_lt find insert erase ptrs count
opened = tt

-- Three priorities, room for four messages, and limits of a millisecond.
abbrev pub base : Queue
base = new_queue 3 4 1 2 1 5 false

-- `a` runs under the token "7", `b` is delayed by five milliseconds and `c` waits.
abbrev pub busy_calls : List Call
busy_calls = pushes id_a 1 0 10 ∷ pushes id_b 2 5 10 ∷ pushes id_c 2 0 11 ∷ pops 20 7 ∷ []

abbrev pub busy : Queue
busy = run base busy_calls

-- `a` has failed twice, which is the limit.
abbrev pub worn_calls : List Call
worn_calls =
    pushes id_a 1 0 10
    ∷ pushes id_b 1 0 11
    ∷ pops 20 7
    ∷ monitors 2000000
    ∷ pops 2000001 8
    ∷ pops 2000002 9
    ∷ monitors 4000000
    ∷ []

abbrev pub worn : Queue
worn = run base worn_calls

-- `c` was boosted, and runs.
abbrev pub hurried_calls : List Call
hurried_calls = pushes id_c 2 0 11 ∷ monitors 2000000 ∷ pops 2000001 7 ∷ []

abbrev pub hurried : Queue
hurried = run base hurried_calls

pub busy-Inv : Inv busy
busy-Inv = reachable-Inv 3 4 1 2 1 5 false busy_calls (omega arith)

pub worn-Inv : Inv worn
worn-Inv = reachable-Inv 3 4 1 2 1 5 false worn_calls (omega arith)

pub hurried-Inv : Inv hurried
hurried-Inv = reachable-Inv 3 4 1 2 1 5 false hurried_calls (omega arith)

busy_served : (busy.queue_list ≡ [] ∷ [] ∷ (2 ∷ []) ∷ []) × (busy.msg_delay ≡ 1 ∷ [])
unfolding opened
busy_served = (refl, refl)

worn_failed :
    ((worn.heap 0).state ≡ failed) × ((worn.heap 1).state ≡ queued) × (worn.count_failed ≡ 1)
unfolding opened
worn_failed = (refl, refl, refl)

hurried_boosted : ((hurried.heap 0).boosted ≡ true) × (hurried.queue_list ≡ [] ∷ [] ∷ [] ∷ [])
unfolding opened
hurried_boosted = (refl, refl)
