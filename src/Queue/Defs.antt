-- ===== src/Queue/Defs.antt =====
-- server/Queue.cpp, the methods that a publisher, a consumer or a monitoring process calls.
-- Each holds `m_mutex` from its first access to the shared state to its end, so it is one step; the
-- clock and the random number generator are read as arguments, `now` and `draw`.
pub mod Rules
use monitor_queue.Prelude.{
  ℕ, zero, suc, ◌+◌, ◌-◌, ◌%◌, ◌^◌, Bool, true, false, not, ◌&&◌, ◌||◌, Option, none, some, List,
  [], ◌∷◌, ◌≡◌, refl, ◌⊎◌, inl, inr, Str, str_eq, to_string, length, ltb, leb, ◌==◌, if◌then◌else◌,
}
use monitor_queue.MsgMap.{find, insert, erase}
use monitor_queue.Queue.State.{
  Queue, Msg, MsgEntry, MsgState, queued, running, delayed, failed, is_running, is_failed,
  new_entry, reset, store, Output, pop_notify_one, delay_notify_one, add64, sub64, milliseconds,
}
use monitor_queue.Queue.Buckets.{push_front, take_first}
use monitor_queue.Queue.Delays.{insert_delay, is_first}

-- The exceptions, named for their messages.
pub data Error : Type 0 where
  invalid_priority duplicate_id capacity_exceeded : Error
  no_such_id invalid_token invalid_state : Error

pub data Result {ℓ} (A : Type ℓ) : Type ℓ where
  ok : A → Result A
  err : Error → Result A

pub Result-cases {ℓ} :
    {A : Type ℓ} (r : Result A) → ((e : Error) × (r ≡ err e)) ⊎ ((a : A) × (r ≡ ok a))
Result-cases (ok a) = inr (a, refl)
Result-cases (err e) = inl (e, refl)

-- Queue::getMsgEntry: the entry's address, in the queue that holds it.
unfoldable pub get_msg_entry : Queue → Str → ℕ → ℕ → Queue × ℕ
unfolding new_entry reset
get_msg_entry q id priority now = elim q.msg_pool [
  | [] ↦ (
    record q {
      heap = store q.heap q.next_addr (new_entry id priority now);
      next_addr = suc q.next_addr;
    },
    q.next_addr,
  )
  | p ∷ rest ↦
      (record q { heap = store q.heap p (reset (q.heap p) id priority now); msg_pool = rest }, p)
]

-- Queue::insertDelayedMsg
unfoldable pub insert_delayed_msg : Queue → ℕ → ℕ → Queue
unfolding insert_delay is_first
insert_delayed_msg q p requeue_ts =
    let h = store q.heap p (record (q.heap p) { state = delayed; state_ts = requeue_ts }) in
    let ds = insert_delay h p q.msg_delay in
    record q {
      heap = h;
      msg_delay = ds;
      outputs = if is_first p ds then delay_notify_one ∷ q.outputs else q.outputs;
    }

-- m_queue_list[priority].push_front( p ), m_count_queued++ and m_pop_cv.notify_one()
unfoldable pub enqueue : Queue → ℕ → ℕ → Queue
unfolding push_front
enqueue q p priority = record q {
  queue_list = push_front priority p q.queue_list;
  count_queued = add64 q.count_queued 1;
  outputs = pop_notify_one ∷ q.outputs;
}

-- The rest of `push`, past its checks.
unfoldable pub admit : Queue × ℕ → Str → ℕ → ℕ → ℕ → Queue
unfolding insert enqueue insert_delayed_msg
admit (q, p) id priority delay now =
    let q' = record q { msg_map = insert id p q.msg_map } in
    if delay == 0 then enqueue q' p priority else insert_delayed_msg q' p (now + milliseconds delay)

abbrev pub is_some {ℓ} : {A : Type ℓ} → Option A → Bool
is_some none = false
is_some (some a) = true

-- Queue::push
unfoldable pub push : Queue → Str → ℕ → ℕ → ℕ → Result Queue
unfolding find get_msg_entry admit
push q id priority delay now =
    if leb (length q.queue_list) priority
    then err invalid_priority
    else (if is_some (find id q.msg_map)
        then err duplicate_id
        else (if length q.msg_map == q.capacity
            then err capacity_exceeded
            else ok (admit (get_msg_entry q id priority now) id priority delay now)))

-- What a call of `popImpl` comes to: it waits on `m_pop_cv` with the lock released, it returns a
-- reference to the message of an entry, or it throws `logic_error`.
pub data Popped : Type 0 where
  blocked : Popped
  popped : Queue → ℕ → Popped
  all_queues_empty : Popped

-- The entry that `popImpl` hands out.
unfoldable pub run_entry : MsgEntry → ℕ → ℕ → MsgEntry
unfolding to_string
run_entry e now draw = record e {
  state = running;
  state_ts = now;
  message = record e.message { token = to_string draw };
}

-- Queue::popImpl, once it holds the lock.
unfoldable pub pop_impl : Queue → ℕ → ℕ → Popped
unfolding take_first run_entry
pop_impl q now draw =
    let taken : Popped = elim (take_first q.queue_list) [
      | none ↦ all_queues_empty
      | some (p, rest) ↦
          popped
            (record q {
              queue_list = rest;
              heap = store q.heap p (run_entry (q.heap p) now draw);
              count_queued = sub64 q.count_queued 1;
            })
            p
    ] in
    if q.count_queued == 0 then blocked else taken

-- Queue::pop
unfoldable pub pop : Queue → ℕ → ℕ → Popped
unfolding pop_impl
pop q now draw = pop_impl q now draw

-- Queue::ackImpl, for a message that is found and is to be queued again.
unfoldable pub requeue_msg : Queue → ℕ → ℕ → ℕ → Queue
unfolding insert_delayed_msg enqueue
requeue_msg q p delay now =
    let e = record (q.heap p) {
      boosted = false;
      message = record (q.heap p).message { token = [] };
    } in
    if delay == 0
    then enqueue (record q { heap = store q.heap p (record e { state = queued; state_ts = now }) })
        p (q.heap p).priority
    else insert_delayed_msg (record q { heap = store q.heap p e }) p (now + milliseconds delay)

-- The entry goes back to the pool.
unfoldable pub drop_msg : Queue → Str → ℕ → Queue
unfolding erase
drop_msg q id p = record q { msg_pool = p ∷ q.msg_pool; msg_map = erase id q.msg_map }

-- Queue::ackImpl
unfoldable pub ack_impl : Queue → Str → Str → Bool → ℕ → ℕ → Result Queue
unfolding find requeue_msg drop_msg str_eq
ack_impl q id token requeue delay now = elim (find id q.msg_map) [
  | none ↦ err no_such_id
  | some p ↦
      if not (str_eq (q.heap p).message.token token)
      then err invalid_token
      else (if not (is_running (q.heap p).state)
          then err invalid_state
          else ok (if requeue then requeue_msg q p delay now else drop_msg q id p))
]

-- Queue::ack
unfoldable pub ack : Queue → Str → Str → Bool → ℕ → ℕ → Result Queue
unfolding ack_impl
ack q id token requeue delay now = ack_impl q id token requeue delay now

-- Queue::popAck. After an accepted `ackImpl` the call stands where a call of `pop` stands: it has
-- the queue that the acknowledgement left, and `blocked` gives up the lock there.
unfoldable pub pop_ack : Queue → Str → Str → Bool → ℕ → ℕ → ℕ → Result (Queue × Popped)
unfolding ack_impl pop_impl
pop_ack q id token requeue delay now draw = elim (ack_impl q id token requeue delay now) [
  | err e ↦ err e
  | ok q' ↦ ok (q', pop_impl q' now draw)
]

-- Queue::getCapacity
unfoldable pub get_capacity : Queue → ℕ
get_capacity q = q.capacity

pub record Counts : Type 0 where
  pub active : ℕ
  pub failed : ℕ
  pub free : ℕ

-- Queue::getCounts
unfoldable pub get_counts : Queue → Counts
get_counts q = record {
  active = sub64 (length q.msg_map) q.count_failed;
  failed = q.count_failed;
  free = sub64 q.capacity (length q.msg_map);
}

-- The loop of `getFailed` over the rest of the map.
unfoldable pub failed_ids : (ℕ → MsgEntry) → List (Str × ℕ) → List Str
failed_ids h [] = []
failed_ids h ((id, p) ∷ m) =
    let rest = failed_ids h m in if is_failed (h p).state then id ∷ rest else rest

-- Queue::getFailed
unfoldable pub get_failed : Queue → List Str
unfolding failed_ids
get_failed q = failed_ids q.heap q.msg_map

-- One round of the loop of `eraseFailed`: is the message failed, and the queue without it.
unfoldable pub erase_one : Queue → Str → Bool × Queue
unfolding find drop_msg
erase_one q id = elim (find id q.msg_map) [
  | none ↦ (false, q)
  | some p ↦ if is_failed (q.heap p).state then (true, drop_msg q id p) else (false, q)
]

-- The loop of `eraseFailed`.
unfoldable pub erase_all : Queue → List Str → List Str × Queue
unfolding erase_one
erase_all q [] = ([], q)
erase_all q (id ∷ ids) =
    let (hit, q') = erase_one q id in
    let (erased, q'') = erase_all q' ids in (if hit then id ∷ erased else erased, q'')

-- Queue::eraseFailed
unfoldable pub erase_failed : Queue → List Str → List Str × Queue
unfolding erase_all
erase_failed q ids =
    let (erased, q') = erase_all q ids in
    (erased, record q' { count_failed = sub64 q'.count_failed (length erased) })

-- Queue::setErrorCallback
unfoldable pub set_error_callback : Queue → Bool → Queue
set_error_callback q cb = record q { err_cb = cb }
