-- ===== src/Client/Effects.antt =====
-- server/Queue.cpp, pop, ack and push: what the client's calls, when they are accepted, do to the
-- queue.
use monitor_queue.Prelude.{
  Option-cases, ℕ, suc, ◌≤◌, ◌≡◌, refl, sym, ap, ◌∙◌, subst, inl, inr, str_eq_refl, false, none,
  some, arith, Str, str_eq, length, to_string, ◌<◌,
}
use monitor_queue.MsgMap.{find}
use monitor_queue.MsgMap.Pointers.{length-erase}
use monitor_queue.Queue.Buckets.{take_first, push_front, total}
use monitor_queue.Queue.State.{Queue}
use monitor_queue.Queue.Defs.{
  ok, Popped, popped, pop, pop_impl, ack, ack_impl, Result, drop_msg, push, admit, enqueue,
  get_msg_entry,
}
use monitor_queue.Queue.Defs.Rules.{ack_ok, pop_ok, push_ok, queue_list-get_msg_entry}
use monitor_queue.Queue.Invariant.{Inv}
use monitor_queue.Queue.Invariant.Methods.{pop_impl-Inv, ack_impl-Inv, push-Inv}
use monitor_queue.Queue.View.{view, leased, waiting}
use monitor_queue.Queue.View.Methods.{pop-view, ack-view, push-view}
use monitor_queue.Queue.Acks.{ack_iff_leased}
use monitor_queue.Queue.Service.{length-service}
use monitor_queue.Queue.Service.Calls.{Serves, pop-Serves, Popped-cases}
use monitor_queue.Queue.Buckets.Counts.{length-push_front, total-push_front}
use monitor_queue.Queue.Pushes.{push_iff_room}

-- What the client's calls leave alone
abbrev pub Steady : Queue → Queue → Type 0
Steady q q' = (q'.capacity ≡ q.capacity) × (q'.count_failed ≡ q.count_failed)

-- Where a pop stands that took the message `id` of `q`, and left `q'`.
pub record Taken (q q' : Queue) (id tok : Str) : Type 0 where
  pub inv : Inv q'
  pub was : (k : ℕ) × (view q id ≡ some (waiting k))
  pub now_leased : view q' id ≡ some (leased tok)
  pub others : (j : Str) → str_eq id j ≡ false → view q' j ≡ view q j
  pub count : suc q'.count_queued ≡ q.count_queued
  pub messages : length q'.msg_map ≡ length q.msg_map
  pub steady : Steady q q'

pop_as_impl : (q : Queue) (now draw : ℕ) {r : Popped} → pop q now draw ≡ r → pop_impl q now draw ≡ r
unfolding pop
pop_as_impl q now draw e = e

ack_as_impl :
    (q : Queue) (id tok : Str) (now : ℕ) {r : Result Queue}
    → ack q id tok false 0 now ≡ r
    → ack_impl q id tok false 0 now ≡ r
unfolding ack
ack_as_impl q id tok now e = e

pop-Steady :
    (q : Queue) (now draw : ℕ) {q' : Queue} {p : ℕ} → pop q now draw ≡ popped q' p → Steady q q'
unfolding pop pop_impl
pop-Steady q now draw e = elim (Option-cases (take_first q.queue_list)) [
  | inl n ↦ absurd (ground arith)
  | inr ((a, rest), t) ↦ (ground arith, ground arith)
]

drop_msg-lem :
    (q : Queue) (id : Str) (p : ℕ)
    → find id q.msg_map ≡ some p
    → let q' = drop_msg q id p in
      (q'.count_queued ≡ q.count_queued)
      × (suc (length q'.msg_map) ≡ length q.msg_map)
      × Steady q q'
unfolding drop_msg
drop_msg-lem q id p f = (refl, length-erase id p q.msg_map f, (refl, refl))

pub pop-Taken :
    (q : Queue) (now draw : ℕ)
    → Inv q
    → 1 ≤ q.count_queued
    → (q' : Queue) × (p : ℕ) × (pop q now draw ≡ popped q' p)
      × Taken q q' (q'.heap p).message.id (to_string draw)
      × ((q'.heap p).message.token ≡ to_string draw)
pop-Taken q now draw v le =
    let s = pop-Serves q now draw v in
    elim (Popped-cases (pop q now draw)) [
      | inl e ↦
          let n = ap length (subst (Serves q) e s) in
          absurd (omega (arith, n, length-service q.queue_list, v.counts_queued))
      | inr (inl (q', p, e)) ↦
          let v' = pop_impl-Inv v now draw (pop_as_impl q now draw e) in
          let n = ap length (subst (Serves q) e s) in
          let id = (q'.heap p).message.id in
          let (f, w, t, same) = pop-view q now draw id v e in
          (
            q',
            p,
            e,
            record {
              inv = v';
              was = ((q.heap p).priority, w);
              now_leased = same ∙ rw (str_eq_refl id) refl;
              others = λ j ne. (pop-view q now draw j v e).3 ∙ rw ne refl;
              count = omega (
                arith,
                n,
                length-service q.queue_list,
                length-service q'.queue_list,
                v.counts_queued,
                v'.counts_queued,
              );
              messages = ap length (pop_ok q now draw e).same_map;
              steady = pop-Steady q now draw e;
            },
            t,
          )
      | inr (inr e) ↦ absurd (subst (Serves q) e s)
    ]

-- The same of an acknowledgement.
pub record Acked (q q' : Queue) (id : Str) : Type 0 where
  pub inv : Inv q'
  pub gone : view q' id ≡ none
  pub others : (j : Str) → str_eq id j ≡ false → view q' j ≡ view q j
  pub count : q'.count_queued ≡ q.count_queued
  pub messages : suc (length q'.msg_map) ≡ length q.msg_map
  pub steady : Steady q q'

pub ack-Acked :
    (q : Queue) (id tok : Str) (now : ℕ)
    → Inv q
    → view q id ≡ some (leased tok)
    → (q' : Queue) × (ack q id tok false 0 now ≡ ok q') × Acked q q' id
ack-Acked q id tok now v l =
    let (q', e) = (ack_iff_leased q id tok false 0 now v).1 l in
    let (p, f, k, s, same) = ack_ok q id tok false 0 now e in
    let dropped = drop_msg-lem q id p f in
    (
      q',
      e,
      record {
        inv = ack_impl-Inv v id tok false 0 now (ack_as_impl q id tok now e);
        gone = (ack-view q id tok id false 0 now v e).3 ∙ rw (str_eq_refl id) refl;
        others = λ j ne. (ack-view q id tok j false 0 now v e).3 ∙ rw ne refl;
        count = ap (λ (x : Queue). x.count_queued) same ∙ dropped.0;
        messages = ap (λ (x : Queue). suc (length x.msg_map)) same ∙ dropped.1;
        steady = subst (Steady q) (sym same) dropped.2;
      },
    )

pub record Pushed (q q' : Queue) (id : Str) : Type 0 where
  pub inv : Inv q'
  pub added : view q' id ≡ some (waiting 0)
  pub others : (j : Str) → str_eq id j ≡ false → view q' j ≡ view q j
  pub count : q'.count_queued ≡ suc q.count_queued
  pub messages : length q'.msg_map ≡ suc (length q.msg_map)
  pub steady : Steady q q'
  pub buckets : length q'.queue_list ≡ length q.queue_list

admit-Steady :
    (q : Queue) (id : Str) (now : ℕ) → Steady q (admit (get_msg_entry q id 0 now) id 0 0 now)
unfolding admit enqueue get_msg_entry
admit-Steady q id now = (ground arith, ground arith)

queue_list-admit :
    (q : Queue) (id : Str) (now : ℕ)
    → (admit (get_msg_entry q id 0 now) id 0 0 now).queue_list
      ≡ push_front 0 (get_msg_entry q id 0 now).1 q.queue_list
unfolding admit enqueue
queue_list-admit q id now = ap (push_front 0 _) (queue_list-get_msg_entry q id 0 now)

pub push-Pushed :
    (q : Queue) (id : Str) (now : ℕ)
    → Inv q
    → 0 < length q.queue_list
    → view q id ≡ none
    → length q.msg_map < q.capacity
    → (q' : Queue) × (push q id 0 0 now ≡ ok q') × Pushed q q' id
push-Pushed q id now v lt new few =
    let (q', e, n) = (push_iff_room q id 0 0 now v).1 (lt, new, few) in
    let i = push-Inv v id 0 0 now e in
    let same = (push_ok q id 0 now 0 e).3 in
    let p = (get_msg_entry q id 0 now).1 in
    let qs = ap (λ (x : Queue). x.queue_list) same ∙ queue_list-admit q id now in
    (
      q',
      e,
      record {
        inv = i;
        added = (push-view q id id 0 0 now v e).1 ∙ rw (str_eq_refl id) refl;
        others = λ j ne. (push-view q id j 0 0 now v e).1 ∙ rw ne refl;
        count = omega (
          arith,
          i.counts_queued,
          v.counts_queued,
          ap total qs,
          total-push_front p 0 q.queue_list,
        );
        messages = n;
        steady = subst (Steady q) (sym same) (admit-Steady q id now);
        buckets = ap length qs ∙ length-push_front p 0 q.queue_list;
      },
    )
