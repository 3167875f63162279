-- ===== src/Queue/Invariant/Methods.antt =====
-- server/Queue.cpp: the methods of the queue, and the invariant.
use monitor_queue.Prelude.{
  ℕ, suc, ◌+◌, ◌<◌, ◌≡◌, ◌≢◌, refl, ap, subst, Bool, none, [], arith, Str, to_string-ne_nil, length,
  count, ◌==◌, inl, inr, Bool-cases, Option-cases, List-cases,
}
use monitor_queue.MsgMap.{find, insert}
use monitor_queue.MsgMap.Pointers.{ptrs}
use monitor_queue.Queue.State.{Queue, queued, running, new_entry, reset, milliseconds}
use monitor_queue.Queue.Buckets.{take_first}
use monitor_queue.Queue.Buckets.Order.{take_first-Takes}
use monitor_queue.Queue.Defs.{
  Result-cases, ok, get_msg_entry, insert_delayed_msg, enqueue, admit, push, Popped, popped,
  pop_impl, requeue_msg, drop_msg, ack_impl, pop_ack, run_entry,
}
use monitor_queue.Queue.Invariant.{Inv}
use monitor_queue.Queue.Invariant.InHand.{
  InHand, store-InHand, settle_running, enqueue-Inv, delay-Inv,
}
use monitor_queue.Queue.Invariant.TakeOut.{found_once, running-InHand, taken-InHand}
use monitor_queue.Queue.Invariant.Renewing.{dropped_running, new-InHand}

module _ {p : ℕ} {q : Queue} (h : InHand p q) where
  -- A message in hand without a token may be queued or delayed.
  pub enqueue_away :
      (k : ℕ)
      → k ≡ (q.heap p).priority
      → (q.heap p).state ≡ queued
      → (q.heap p).message.token ≡ []
      → Inv (enqueue q p k)
  unfolding enqueue
  enqueue_away k e s t =
      enqueue-Inv h k _ (omega (arith, e, h.in_range)) s (inl e) (record {
        in_range = h.in_range;
        no_token = λ _. t;
        has_token = λ g. absurd (ground arith);
      })

  pub delay_away : (ts : ℕ) → (q.heap p).message.token ≡ [] → Inv (insert_delayed_msg q p ts)
  unfolding insert_delayed_msg
  delay_away ts t = delay-Inv (store-InHand h _ h.in_range refl) _ (ground arith) (record {
    in_range = ground (arith, h.in_range);
    no_token = λ _. ground (arith, t);
    has_token = λ g. absurd (ground arith);
  })

-- The entry that `getMsgEntry` returns is a new one, whether or not it comes from the pool.
pub heap-get_msg_entry :
    (q : Queue) (id : Str) (priority now : ℕ)
    → let (q', p) = get_msg_entry q id priority now in q'.heap p ≡ new_entry id priority now
unfolding get_msg_entry new_entry reset
heap-get_msg_entry q id priority now = elim (List-cases q.msg_pool) [
  | inl e ↦ rw (e, get_msg_entry) (ground arith)
  | inr (p, rest, e) ↦ rw (e, get_msg_entry) (ground arith)
]

-- Its address is not in the map.
pub count-get_msg_entry :
    (q : Queue) (id : Str) (priority now : ℕ)
    → Inv q
    → count (get_msg_entry q id priority now).1 (ptrs q.msg_map) ≡ 0
unfolding get_msg_entry count
count-get_msg_entry q id priority now v = elim (List-cases q.msg_pool) [
  | inl e ↦ rw (e, get_msg_entry) (ground (arith, v.owned q.next_addr))
  | inr (p, rest, e) ↦ rw (e, get_msg_entry) (ground (arith, v.owned p, ap (count p) e))
]

module _ {q : Queue} (v : Inv q) where
  module _ (id : Str) (priority now : ℕ) (new : find id q.msg_map ≡ none)
      (room : length q.msg_map ≢ q.capacity) (lt : priority < length q.queue_list) where
    room_left : length q.msg_map < q.capacity
    room_left = ground (arith, v.within, room)

    -- The entry for a new message, from the pool or allocated.
    pub get_msg_entry-InHand :
        let (q', p) = get_msg_entry q id priority now in
        InHand p (record q' { msg_map = insert id p q'.msg_map })
    unfolding get_msg_entry count
    get_msg_entry-InHand = elim (List-cases q.msg_pool) [
      | inl e ↦
          rw (e, get_msg_entry)
            (new-InHand v id q.next_addr (new_entry id priority now) q.msg_pool (suc q.next_addr)
              new (ground (arith, v.owned q.next_addr))
              (λ a. ground (arith, v.owned a, ap (count a) e)) room_left lt refl)
      | inr (p, rest, e) ↦
          rw (e, get_msg_entry)
            (new-InHand v id p (reset (q.heap p) id priority now) rest q.next_addr new
              (ground (arith, v.owned p, ap (count p) e))
              (λ a. omega (arith, v.owned a, ap (count a) e)) room_left lt refl)
    ]

    admit-Inv : (delay : ℕ) → Inv (admit (get_msg_entry q id priority now) id priority delay now)
    unfolding admit new_entry
    admit-Inv delay =
        let e = heap-get_msg_entry q id priority now in
        elim (Bool-cases (delay == 0)) [
          | inl z ↦ rw z (
              enqueue_away get_msg_entry-InHand priority (ground (arith, e)) (ground (arith, e))
                (ground (arith, e)))
          | inr d ↦
              rw d (delay_away get_msg_entry-InHand (now + milliseconds delay) (ground (arith, e)))
        ]

  -- A message that is accepted keeps the invariant.
  pub push-Inv :
      (id : Str) (priority delay now : ℕ) {q' : Queue}
      → push q id priority delay now ≡ ok q'
      → Inv q'
  unfolding push
  push-Inv id priority delay now e = elim (Option-cases (find id q.msg_map)) [
    | inl new ↦
        subst Inv (ground arith) (admit-Inv id priority now new (ground arith) (ground arith) delay)
    | inr (p, old) ↦ absurd (ground arith)
  ]

  pub pop_impl-Inv :
      (now draw : ℕ) {q' : Queue} {p : ℕ} → pop_impl q now draw ≡ popped q' p → Inv q'
  unfolding pop_impl run_entry
  pop_impl-Inv now draw e = elim (Option-cases (take_first q.queue_list)) [
    | inl n ↦ absurd (ground arith)
    | inr ((a, rest), t) ↦
        let k = take_first-Takes a q.queue_list rest t in
        let h = taken-InHand v a k in
        subst Inv (ground arith) (
          settle_running (store-InHand h (run_entry (q.heap a) now draw) h.in_range refl)
            (ground arith)
            (record {
              in_range = ground (arith, h.in_range);
              no_token = λ g. absurd (ground arith);
              has_token = λ _. ground (arith, to_string-ne_nil draw);
            }))
  ]

  requeue_msg-Inv : (p delay now : ℕ) → InHand p q → Inv (requeue_msg q p delay now)
  unfolding requeue_msg
  requeue_msg-Inv p delay now h = elim (Bool-cases (delay == 0)) [
    | inl z ↦ rw z (
        enqueue_away (store-InHand h _ h.in_range refl) (q.heap p).priority (ground arith)
          (ground arith) (ground arith))
    | inr d ↦ rw d (delay_away (store-InHand h _ h.in_range refl) _ (ground arith))
  ]

  pub ack_impl-Inv :
      (id token : Str) (requeue : Bool) (delay now : ℕ) {q' : Queue}
      → ack_impl q id token requeue delay now ≡ ok q'
      → Inv q'
  unfolding ack_impl drop_msg
  ack_impl-Inv id token requeue delay now e = elim (Option-cases (find id q.msg_map)) [
    | inl n ↦ absurd (ground arith)
    | inr (p, f) ↦
        let s : (q.heap p).state ≡ running = ground arith in
        elim (Bool-cases requeue) [
          | inl y ↦
              subst Inv (ground arith)
                (requeue_msg-Inv p delay now (running-InHand v p (found_once v id p f) s))
          | inr n ↦ subst Inv (ground arith) (dropped_running v id p f s)
        ]
  ]

  -- Both the queue that the acknowledgement leaves and the one that the pop leaves.
  pub pop_ack-Inv :
      (id token : Str) (requeue : Bool) (delay now draw : ℕ) {q' : Queue} {r : Popped}
      → pop_ack q id token requeue delay now draw ≡ ok (q', r)
      → Inv q' × (r ≡ pop_impl q' now draw)
  unfolding pop_ack
  pop_ack-Inv id token requeue delay now draw e =
      elim (Result-cases (ack_impl q id token requeue delay now)) [
        | inl (x, n) ↦ absurd (ground arith)
        | inr (q'', n) ↦
            (subst Inv (ground arith) (ack_impl-Inv id token requeue delay now n), ground arith)
      ]
