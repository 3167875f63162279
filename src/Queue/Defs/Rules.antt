-- ===== src/Queue/Defs/Rules.antt =====
-- What an accepted call of a method had passed, and what the helpers leave alone.
use monitor_queue.Prelude.{
  ℕ, ◌<◌, ◌≡◌, ◌≢◌, inl, inr, Bool, true, false, none, some, List, arith, Str, str_eq, str_eq_iff,
  length, ◌==◌, if◌then◌else◌, Option-cases,
}
use monitor_queue.MsgMap.{find}
use monitor_queue.Queue.State.{Queue, running}
use monitor_queue.Queue.Buckets.{take_first}
use monitor_queue.Queue.Buckets.Order.{Takes, take_first-Takes}
use monitor_queue.Queue.Defs.{
  Result-cases, ok, pop_ack, Popped, get_msg_entry, admit, push, ack_impl, ack, requeue_msg,
  drop_msg, popped, pop_impl, pop, run_entry,
}

module _ (q : Queue) (id : Str) (priority now : ℕ) where
  pub msg_map-get_msg_entry : (get_msg_entry q id priority now).0.msg_map ≡ q.msg_map
  unfolding get_msg_entry
  msg_map-get_msg_entry = ground arith

  pub queue_list-get_msg_entry : (get_msg_entry q id priority now).0.queue_list ≡ q.queue_list
  unfolding get_msg_entry
  queue_list-get_msg_entry = ground arith

  -- Other entries are not written.
  pub heap-get_msg_entry_ne :
      (a : ℕ)
      → let (q', p) = get_msg_entry q id priority now in (a == p) ≡ false → q'.heap a ≡ q.heap a
  unfolding get_msg_entry
  heap-get_msg_entry_ne a = ground arith

  pub push_ok :
      (delay : ℕ) {q' : Queue}
      → push q id priority delay now ≡ ok q'
      → (priority < length q.queue_list)
        × (find id q.msg_map ≡ none)
        × (length q.msg_map ≢ q.capacity)
        × (q' ≡ admit (get_msg_entry q id priority now) id priority delay now)
  unfolding push
  push_ok delay e = elim (Option-cases (find id q.msg_map)) [
    | inl n ↦ (ground arith, n, ground arith, ground arith)
    | inr (p, f) ↦ absurd (ground arith)
  ]

module _ (q : Queue) (id token : Str) (requeue : Bool) (delay now : ℕ) where
  pub ack_ok :
      {q' : Queue}
      → ack q id token requeue delay now ≡ ok q'
      → (p : ℕ) × (find id q.msg_map ≡ some p)
        × ((q.heap p).message.token ≡ token)
        × ((q.heap p).state ≡ running)
        × (q' ≡ (if requeue then requeue_msg q p delay now else drop_msg q id p))
  unfolding ack ack_impl
  ack_ok e = elim (Option-cases (find id q.msg_map)) [
    | inl n ↦ absurd (ground arith)
    | inr (p, f) ↦
        let same : str_eq (q.heap p).message.token token ≡ true = ground arith in
        (p, f, (str_eq_iff _ token).0 same, ground arith, ground arith)
  ]

-- What a pop that returns has done.
pub record Took (q : Queue) (now draw : ℕ) (q' : Queue) (p : ℕ) : Type 0 where
  pub rest : List (List ℕ)
  pub takes : Takes p q.queue_list rest
  pub same_map : q'.msg_map ≡ q.msg_map
  pub entry : q'.heap p ≡ run_entry (q.heap p) now draw
  pub others : (a : ℕ) → (a == p) ≡ false → q'.heap a ≡ q.heap a

pub pop_ok :
    (q : Queue) (now draw : ℕ) {q' : Queue} {p : ℕ}
    → pop q now draw ≡ popped q' p
    → Took q now draw q' p
unfolding pop pop_impl
pop_ok q now draw {p = p} e = elim (Option-cases (take_first q.queue_list)) [
  | inl n ↦ absurd (ground arith)
  | inr ((a, rest), t) ↦ record {
    rest = rest;
    takes = take_first-Takes p q.queue_list rest (ground arith);
    same_map = ground arith;
    entry = ground arith;
    others = λ b n. ground arith;
  }
]

-- The two halves of a `popAck` that is accepted.
pub pop_ack_parts :
    (q : Queue) (id token : Str) (requeue : Bool) (delay now draw : ℕ) {q' : Queue} {r : Popped}
    → pop_ack q id token requeue delay now draw ≡ ok (q', r)
    → (ack q id token requeue delay now ≡ ok q') × (pop q' now draw ≡ r)
unfolding pop_ack ack pop
pop_ack_parts q id token requeue delay now draw e =
    elim (Result-cases (ack_impl q id token requeue delay now)) [
      | inl (x, n) ↦ absurd (ground arith)
      | inr (q'', n) ↦ (ground arith, ground arith)
    ]
