-- ===== src/Queue/Wakeups.antt =====
-- server/Queue.cpp, the condition variables: how many messages are queued, and how many waiting
-- threads are told.
pub mod Steps
use mathlib.Core.List.{append_assoc}
use monitor_queue.Prelude.{
  ℕ, zero, suc, ◌+◌, ◌-◌, ◌%◌, ◌^◌, ◌≤◌, ◌<◌, ◌≡◌, ◌≢◌, refl, sym, ap, ◌∙◌, subst, ◌⊎◌, inl, inr,
  Bool, true, false, not, ◌&&◌, ◌||◌, Option, none, some, List, [], ◌∷◌, ◌++◌, arith, Str, length,
  count, bit, ltb, leb, ◌==◌, if◌then◌else◌, Bool-cases, Option-cases, List-cases,
}
use monitor_queue.MsgMap.Pointers.{ptrs, length-ptrs}
use monitor_queue.Queue.State.{
  Queue, MsgEntry, Output, pop_notify_one, pop_notify_all, delay_notify_one, mon_notify_one,
  error_callback, add64, sub64, milliseconds,
}
use monitor_queue.Queue.Buckets.{take_first}
use monitor_queue.Queue.Defs.{
  Result, Result-cases, ok, err, push, Popped, blocked, popped, all_queues_empty, pop, pop_impl,
  ack, ack_impl, pop_ack, erase_one, erase_all, erase_failed, set_error_callback, enqueue,
  insert_delayed_msg, admit, get_msg_entry, requeue_msg, drop_msg,
}
use monitor_queue.Queue.Defs.Rules.{push_ok, ack_ok}
use monitor_queue.Queue.Delays.{insert_delay, is_first}
use monitor_queue.Queue.Threads.{
  time_out, boost, monitor_entry, monitor_scan, notify_pops, monitor_pass, release, release_due,
  delay_pass, destroy, delay_wait,
}
use monitor_queue.Queue.History.{
  Call, pushes, pops, acks, pop_acks, erases, sets_callback, monitors, delays, destroys,
  after_result, after_pop, after_pop_ack, step,
}
use monitor_queue.Queue.Invariant.{Inv}

-- How many `notify_one` and whether a `notify_all` on `m_pop_cv` is among what was sent.
pub ones : List Output → ℕ
ones [] = 0
ones (pop_notify_one ∷ os) = suc (ones os)
ones (_ ∷ os) = ones os

pub has_all : List Output → Bool
has_all [] = false
has_all (pop_notify_all ∷ os) = true
has_all (_ ∷ os) = has_all os

-- From `q` to `q'` at least as many waiting consumers are woken as messages are queued.
pub record Wakes (q q' : Queue) : Type 0 where
  pub sent : List Output
  pub grows : q'.outputs ≡ sent ++ q.outputs
  pub enough : (q'.count_queued ≤ q.count_queued + ones sent) ⊎ (has_all sent ≡ true)

pub still : (q q' : Queue) → q'.outputs ≡ q.outputs → q'.count_queued ≤ q.count_queued → Wakes q q'
unfolding ones
still q q' o c = record { sent = []; grows = o; enough = inl (omega arith) }

delayed_sent : Bool → List Output
delayed_sent true = delay_notify_one ∷ []
delayed_sent false = []

pub Wakes-if :
    (q q' q'' : Queue) (b : Bool) → Wakes q q' → Wakes q q'' → Wakes q (if b then q' else q'')
Wakes-if q q' q'' true v w = v
Wakes-if q q' q'' false v w = w

-- Only what was sent and the count matter.
Wakes-of :
    (q r q' : Queue)
    → r.outputs ≡ q.outputs
    → r.count_queued ≡ q.count_queued
    → Wakes r q'
    → Wakes q q'
Wakes-of q r q' o c w = record {
  sent = w.sent;
  grows = w.grows ∙ ap (◌++◌ w.sent) o;
  enough = ground (arith, w.enough, c);
}

pub ones-append : (xs ys : List Output) → ones (xs ++ ys) ≡ ones xs + ones ys
unfolding ones
ones-append [] ys = omega arith
ones-append (pop_notify_one ∷ xs) ys = omega (arith, ones-append xs ys)
ones-append (_ ∷ xs) ys = ones-append xs ys

pub has_all-append : (xs ys : List Output) → has_all (xs ++ ys) ≡ (has_all xs || has_all ys)
unfolding has_all
has_all-append [] ys = refl
has_all-append (pop_notify_all ∷ xs) ys = refl
has_all-append (_ ∷ xs) ys = has_all-append xs ys

pub Wakes-trans : (q r s : Queue) → Wakes q r → Wakes r s → Wakes q s
Wakes-trans q r s v w = record {
  sent = w.sent ++ v.sent;
  grows = w.grows ∙ ap (◌++◌ w.sent) v.grows ∙ sym (append_assoc w.sent v.sent q.outputs);
  enough =
      ground (arith, v.enough, w.enough, ones-append w.sent v.sent, has_all-append w.sent v.sent);
}

requeue-Wakes : (q : Queue) (p delay now : ℕ) → Wakes q (requeue_msg q p delay now)
unfolding requeue_msg ones delayed_sent
requeue-Wakes q p delay now = elim (Bool-cases (delay == 0)) [
  | inl z ↦ record { sent = pop_notify_one ∷ []; grows = ground arith; enough = inl (ground arith) }
  | inr d ↦ record {
    sent = delayed_sent (is_first p (requeue_msg q p delay now).msg_delay);
    grows = ground arith;
    enough = inl (ground arith);
  }
]

admit-Wakes :
    (q : Queue) (p : ℕ) (id : Str) (priority delay now : ℕ)
    → Wakes q (admit (q, p) id priority delay now)
unfolding admit ones delayed_sent
admit-Wakes q p id priority delay now = elim (Bool-cases (delay == 0)) [
  | inl z ↦ record { sent = pop_notify_one ∷ []; grows = ground arith; enough = inl (ground arith) }
  | inr d ↦ record {
    sent = delayed_sent (is_first p (admit (q, p) id priority delay now).msg_delay);
    grows = ground arith;
    enough = inl (ground arith);
  }
]

get_msg_entry-quiet :
    (q : Queue) (id : Str) (priority now : ℕ)
    → let (q', p) = get_msg_entry q id priority now in
      (q'.outputs ≡ q.outputs) × (q'.count_queued ≡ q.count_queued)
unfolding get_msg_entry
get_msg_entry-quiet q id priority now = (ground arith, ground arith)

pub after_result-Wakes :
    (q : Queue) (r : Result Queue)
    → ((q' : Queue) → r ≡ ok q' → Wakes q q')
    → Wakes q (after_result q r)
after_result-Wakes q (ok q') h = h q' refl
after_result-Wakes q (err e) h = still q q refl (omega arith)

pub push-Wakes :
    (q : Queue) (id : Str) (priority delay now : ℕ) (q' : Queue)
    → push q id priority delay now ≡ ok q'
    → Wakes q q'
push-Wakes q id priority delay now q' e =
    let (lt, new, room, same) = push_ok q id priority now delay e in
    let (q₁, p) = get_msg_entry q id priority now in
    let (o, c) = get_msg_entry-quiet q id priority now in
    rw same (Wakes-of q q₁ _ o c (admit-Wakes q₁ p id priority delay now))

pub ack-Wakes :
    (q : Queue) (id token : Str) (requeue : Bool) (delay now : ℕ) (q' : Queue)
    → ack q id token requeue delay now ≡ ok q'
    → Wakes q q'
ack-Wakes q id token requeue delay now q' e =
    let (p, f, k, s, same) = ack_ok q id token requeue delay now e in
    rw same (
      Wakes-if q _ _ requeue (requeue-Wakes q p delay now)
        (unfold drop_msg in still q _ refl (omega arith)))

pub pop_impl-Wakes : (q : Queue) (now draw : ℕ) → Wakes q (after_pop q (pop_impl q now draw))
unfolding pop_impl
pop_impl-Wakes q now draw = elim (Option-cases (take_first q.queue_list)) [
  | inl n ↦ still q _ (ground arith) (ground arith)
  | inr ((a, rest), t) ↦ still q _ (ground arith) (ground arith)
]

pub ack_impl-ack :
    (q : Queue) (id token : Str) (requeue : Bool) (delay now : ℕ)
    → ack q id token requeue delay now ≡ ack_impl q id token requeue delay now
unfolding ack
ack_impl-ack q id token requeue delay now = refl

pub pop_ack-Wakes :
    (q : Queue) (id token : Str) (requeue : Bool) (delay now draw : ℕ)
    → Wakes q (after_pop_ack q (pop_ack q id token requeue delay now draw))
unfolding pop_ack
pop_ack-Wakes q id token requeue delay now draw =
    elim (Result-cases (ack_impl q id token requeue delay now)) [
      | inl (x, e) ↦ rw (e, pop_ack) (still q q refl (omega arith))
      | inr (q', e) ↦
          rw (e, pop_ack)
            (Wakes-trans q q' _
              (ack-Wakes q id token requeue delay now q'
                (ack_impl-ack q id token requeue delay now ∙ e))
              (pop_impl-Wakes q' now draw))
    ]

erase_one-quiet :
    (q : Queue) (id : Str)
    → ((erase_one q id).1.outputs ≡ q.outputs) × ((erase_one q id).1.count_queued ≡ q.count_queued)
unfolding erase_one drop_msg
erase_one-quiet q id = (ground arith, ground arith)

pub erase_all-quiet :
    (q : Queue) (ids : List Str)
    → ((erase_all q ids).1.outputs ≡ q.outputs)
      × ((erase_all q ids).1.count_queued ≡ q.count_queued)
unfolding erase_all
erase_all-quiet q [] = (refl, refl)
erase_all-quiet q (id ∷ ids) =
    let (o, c) = erase_one-quiet q id in
    let (o', c') = erase_all-quiet (erase_one q id).1 ids in (o' ∙ o, c' ∙ c)
