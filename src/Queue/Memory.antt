-- ===== src/Queue/Memory.antt =====
-- server/Queue.cpp, the entries' memory: what the destructor deletes, and what becomes of the
-- reference that `pop` returns.
use monitor_queue.Prelude.{
  ℕ, ◌≡◌, false, some, [], arith, Str, count, bit, ltb, ◌==◌, if◌then◌else◌,
}
use monitor_queue.MsgMap.{find}
use monitor_queue.MsgMap.Pointers.{ptrs}
use monitor_queue.Queue.State.{Queue, reset}
use monitor_queue.Queue.Defs.{
  ok, ack, push, drop_msg, get_msg_entry, admit, enqueue, insert_delayed_msg,
}
use monitor_queue.Queue.Defs.Rules.{ack_ok, push_ok}
use monitor_queue.Queue.Threads.{destroy}
use monitor_queue.Queue.Invariant.{Inv}

-- On a queue with the invariant, the destructor deletes the allocated entries that are in no
-- message, once each, and leaks those that are: an entry is deleted exactly if it is allocated
-- and not in the map.
pub destroy_deletes :
    (q : Queue) (p : ℕ)
    → Inv q
    → count p (destroy q).1 ≡ (if count p (ptrs q.msg_map) == 0 then bit (ltb p q.next_addr) else 0)
unfolding destroy
destroy_deletes q p v = ground (arith, v.owned p)

-- An entry that an accepted acknowledgement without requeue has dropped is the one that the
-- next accepted push takes: a reference to its message, as a pop returned it, then reads the
-- new message.
pub reference_reused :
    (q : Queue) (id token : Str) (delay now : ℕ) (id' : Str) (priority delay' now' : ℕ)
    {q' q'' : Queue}
    → ack q id token false delay now ≡ ok q'
    → push q' id' priority delay' now' ≡ ok q''
    → (p : ℕ) × (find id q.msg_map ≡ some p)
      × ((q''.heap p).message.id ≡ id')
      × ((q''.heap p).message.token ≡ [])
unfolding drop_msg get_msg_entry admit enqueue insert_delayed_msg reset
reference_reused q id token delay now id' priority delay' now' a b =
    let (p, f, k, s, same) = ack_ok q id token false delay now a in
    let (lt, new, room, same') = push_ok _ id' priority now' delay' b in
    (p, f, ground (arith, same, same'), ground (arith, same, same'))
