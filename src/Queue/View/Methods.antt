-- ===== src/Queue/View/Methods.antt =====
-- server/Queue.cpp: the methods and the status of messages.
use monitor_queue.Prelude.{
  ℕ, ◌+◌, ◌≡◌, refl, sym, ap, ◌∙◌, subst, inl, inr, Bool, false, none, some, arith, Str, str_eq,
  str_eq_iff, to_string, ◌==◌, if◌then◌else◌, Bool-cases,
}
use monitor_queue.MsgMap.{find, insert, find-insert, find-erase_ne}
use monitor_queue.MsgMap.Order.{IsOrdered, find-erase_self}
use monitor_queue.MsgMap.Keys.{key_of}
use monitor_queue.MsgMap.Pointers.{find-count, find_two}
use monitor_queue.Queue.State.{Queue, milliseconds, new_entry}
use monitor_queue.Queue.Defs.{
  ok, get_msg_entry, insert_delayed_msg, enqueue, admit, push, popped, pop, run_entry, requeue_msg,
  drop_msg, ack,
}
use monitor_queue.Queue.Defs.Rules.{
  push_ok, pop_ok, ack_ok, msg_map-get_msg_entry, heap-get_msg_entry_ne,
}
use monitor_queue.Queue.Invariant.{Inv}
use monitor_queue.Queue.Invariant.TakeOut.{found_once, taken_queued}
use monitor_queue.Queue.Invariant.Methods.{heap-get_msg_entry, count-get_msg_entry}
use monitor_queue.Queue.View.{
  waiting, leased, sleeping, status, view, view_found, view_missing, view_same,
}

-- Different ids have different addresses.
pub apart :
    (q : Queue) (id j : Str) (p a : ℕ)
    → Inv q
    → str_eq id j ≡ false
    → find id q.msg_map ≡ some p
    → find j q.msg_map ≡ some a
    → (a == p) ≡ false
apart q id j p a v n f g = ground (arith, find_two id j p q.msg_map n f, found_once v id p f)

-- A write to one message's entry changes the status of that id alone.
view_write :
    (q r : Queue) (id j : Str) (p : ℕ)
    → Inv q
    → find id q.msg_map ≡ some p
    → r.msg_map ≡ q.msg_map
    → ((a : ℕ) → (a == p) ≡ false → r.heap a ≡ q.heap a)
    → view r j ≡ (if str_eq id j then some (status (r.heap p)) else view q j)
view_write q r id j p v f m h = elim (Bool-cases (str_eq id j)) [
  | inl y ↦ rw y (
      view_found r j p
        (ap (find j) m ∙ subst (λ k. find k q.msg_map ≡ some p) ((str_eq_iff id j).0 y) f))
  | inr n ↦ rw n (view_same q r j (ap (find j) m) (λ a g. h a (apart q id j p a v n f g)))
]

module _ (q : Queue) (p : ℕ) (id : Str) (priority delay now : ℕ) where
  pub admit-map : (admit (q, p) id priority delay now).msg_map ≡ insert id p q.msg_map
  unfolding admit enqueue insert_delayed_msg
  admit-map = ground arith

  admit-heap_ne :
      (a : ℕ) → (a == p) ≡ false → (admit (q, p) id priority delay now).heap a ≡ q.heap a
  unfolding admit enqueue insert_delayed_msg
  admit-heap_ne a n = ground arith

  admit-status :
      q.heap p ≡ new_entry id priority now
      → status ((admit (q, p) id priority delay now).heap p)
        ≡ (if delay == 0 then waiting priority else sleeping (now + milliseconds delay))
  unfolding admit enqueue insert_delayed_msg new_entry
  admit-status e = ground (arith, e)

module _ (q : Queue) (p delay now : ℕ) where
  pub requeue_msg-map : (requeue_msg q p delay now).msg_map ≡ q.msg_map
  unfolding requeue_msg enqueue insert_delayed_msg
  requeue_msg-map = ground arith

  requeue_msg-heap_ne : (a : ℕ) → (a == p) ≡ false → (requeue_msg q p delay now).heap a ≡ q.heap a
  unfolding requeue_msg enqueue insert_delayed_msg
  requeue_msg-heap_ne a n = ground arith

  requeue_msg-status :
      status ((requeue_msg q p delay now).heap p)
      ≡ (if delay == 0 then waiting (q.heap p).priority else sleeping (now + milliseconds delay))
  unfolding requeue_msg enqueue insert_delayed_msg
  requeue_msg-status = ground arith

pub find-drop_msg :
    (q : Queue) (id : Str) (p : ℕ) → IsOrdered q.msg_map → find id (drop_msg q id p).msg_map ≡ none
unfolding drop_msg
find-drop_msg q id p o = find-erase_self id q.msg_map o

pub drop_msg-view :
    (q : Queue) (id j : Str) (p : ℕ)
    → Inv q
    → find id q.msg_map ≡ some p
    → view (drop_msg q id p) j ≡ (if str_eq id j then none else view q j)
drop_msg-view q id j p v f = elim (Bool-cases (str_eq id j)) [
  | inl y ↦ rw y (
      view_missing (drop_msg q id p) j (
        subst (λ k. find k (drop_msg q id p).msg_map ≡ none) ((str_eq_iff id j).0 y)
          (find-drop_msg q id p v.ordered)))
  | inr n ↦ rw n (
      view_same q (drop_msg q id p) j (unfold drop_msg in find-erase_ne id j q.msg_map n)
        (λ a g. unfold drop_msg in refl))
]

-- A push that a queue with the invariant accepts makes a message of an unused id, waiting or,
-- with a delay, sleeping, and changes no other message.
pub push-view :
    (q : Queue) (id j : Str) (priority delay now : ℕ) {q' : Queue}
    → Inv q
    → push q id priority delay now ≡ ok q'
    → (view q id ≡ none)
      × (view q' j ≡ (
          if str_eq id j
          then some (if delay == 0 then waiting priority else sleeping (now + milliseconds delay))
          else view q j))
push-view q id j priority delay now v e =
    let (lt, new, room, same) = push_ok q id priority now delay e in
    let (q₁, p) = get_msg_entry q id priority now in
    let m =
      admit-map q₁ p id priority delay now
      ∙ ap (insert id p) (msg_map-get_msg_entry q id priority now) in
    let f = λ (k : Str). ap (find k) m ∙ find-insert id k p q.msg_map in
    let s = admit-status q₁ p id priority delay now (heap-get_msg_entry q id priority now) in
    let q₂ = admit (q₁, p) id priority delay now in
    (
      view_missing q id new,
      rw same (elim (Bool-cases (str_eq id j)) [
        | inl y ↦ rw y (view_found q₂ j p (ground (arith, f j)) ∙ ap some s)
        | inr n ↦ rw n (
            view_same q q₂ j (ground (arith, f j)) (λ a g.
              let c : (a == p) ≡ false =
                ground
                  (arith, count-get_msg_entry q id priority now v, find-count j a q.msg_map g) in
              admit-heap_ne q₁ p id priority delay now a c
              ∙ heap-get_msg_entry_ne q id priority now a c))
      ]),
    )

-- A pop that returns, of a queue with the invariant, takes a waiting message, leases it under
-- the token that it returns, and changes no other message.
pub pop-view :
    (q : Queue) (now draw : ℕ) (j : Str) {q' : Queue} {p : ℕ}
    → Inv q
    → pop q now draw ≡ popped q' p
    → let id = (q'.heap p).message.id in
      (find id q.msg_map ≡ some p)
      × (view q id ≡ some (waiting (q.heap p).priority))
      × ((q'.heap p).message.token ≡ to_string draw)
      × (view q' j ≡ (if str_eq id j then some (leased (to_string draw)) else view q j))
unfolding run_entry
pop-view q now draw j {q' = q'} {p = p} v e =
    let t = pop_ok q now draw e in
    let (s, c) = taken_queued v p t.takes in
    let (id, f) = key_of p q.msg_map v.ordered (omega (arith, c)) in
    let n : (q'.heap p).message.id ≡ id = ground (arith, t.entry, v.named id p f) in
    let view' = view_write q q' id j p v f t.same_map t.others in
    subst
      (λ k.
        (find k q.msg_map ≡ some p)
        × (view q k ≡ some (waiting (q.heap p).priority))
        × ((q'.heap p).message.token ≡ to_string draw)
        × (view q' j ≡ (if str_eq k j then some (leased (to_string draw)) else view q j)))
      (sym n)
      (
        f,
        view_found q id p f ∙ ground (arith, s),
        ground (arith, t.entry),
        view' ∙ ground (arith, t.entry),
      )

-- An acknowledgement that a queue with the invariant accepts is of a leased message under its
-- token. The message is gone, or, if it is requeued, waits again in its priority or sleeps; no
-- other message changes.
pub ack-view :
    (q : Queue) (id token j : Str) (requeue : Bool) (delay now : ℕ) {q' : Queue}
    → Inv q
    → ack q id token requeue delay now ≡ ok q'
    → (p : ℕ) × (find id q.msg_map ≡ some p)
      × (view q id ≡ some (leased token))
      × (view q' j ≡ (
          if str_eq id j
          then (if requeue
              then some (
                  if delay == 0
                  then waiting (q.heap p).priority
                  else sleeping (now + milliseconds delay))
              else none)
          else view q j))
ack-view q id token j requeue delay now {q' = q'} v e =
    let (p, f, k, s, same) = ack_ok q id token requeue delay now e in
    (
      p,
      f,
      view_found q id p f ∙ ground (arith, k),
      elim (Bool-cases requeue) [
        | inl y ↦
            view_write q q' id j p v f (ground (arith, requeue_msg-map q p delay now))
              (λ a n. ground (arith, requeue_msg-heap_ne q p delay now a n))
            ∙ ground (arith, requeue_msg-status q p delay now)
        | inr n ↦ ground (arith, drop_msg-view q id j p v f)
      ],
    )
