-- ===== src/Queue/Pushes.antt =====
-- server/Queue.cpp, push: which pushes are accepted, and what a refusal says.
use monitor_queue.Prelude.{
  ℕ, suc, ◌<◌, ◌≡◌, ◌≢◌, ◌↔◌, ap, ◌∙◌, inl, inr, none, arith, Str, length, Option-cases,
}
use monitor_queue.MsgMap.{find, insert}
use monitor_queue.MsgMap.Pointers.{length-insert}
use monitor_queue.Queue.State.{Queue}
use monitor_queue.Queue.Defs.{ok, push, admit, get_msg_entry}
use monitor_queue.Queue.Defs.Rules.{push_ok, msg_map-get_msg_entry}
use monitor_queue.Queue.Invariant.{Inv}
use monitor_queue.Queue.View.{view, view_found, view_missing}
use monitor_queue.Queue.View.Methods.{admit-map}

not_found : (q : Queue) (id : Str) → view q id ≡ none → find id q.msg_map ≡ none
not_found q id e = elim (Option-cases (find id q.msg_map)) [
  | inl n ↦ n
  | inr (p, f) ↦ absurd (cc (view_found q id p f))
]

push_accepts :
    (q : Queue) (id : Str) (priority delay now : ℕ)
    → priority < length q.queue_list
    → find id q.msg_map ≡ none
    → length q.msg_map ≢ q.capacity
    → push q id priority delay now
      ≡ ok (admit (get_msg_entry q id priority now) id priority delay now)
unfolding push
push_accepts q id priority delay now lt f few = ground arith

-- On a queue with the invariant, a push is accepted, and makes one more message, exactly when
-- its priority has a queue, its id stands for no message, failed ones included, and the
-- messages, failed ones included, are fewer than the capacity.
pub push_iff_room :
    (q : Queue) (id : Str) (priority delay now : ℕ)
    → Inv q
    → ((q' : Queue) × (push q id priority delay now ≡ ok q')
        × (length q'.msg_map ≡ suc (length q.msg_map)))
      ↔ ((priority < length q.queue_list) × (view q id ≡ none) × (length q.msg_map < q.capacity))
push_iff_room q id priority delay now v = (accepted, room)
  where
    accepted :
        (q' : Queue) × (push q id priority delay now ≡ ok q')
          × (length q'.msg_map ≡ suc (length q.msg_map))
        → (priority < length q.queue_list) × (view q id ≡ none) × (length q.msg_map < q.capacity)
    accepted (q', e, n) =
        let (lt, new, full, same) = push_ok q id priority now delay e in
        (lt, view_missing q id new, ground (arith, v.within, full))

    room :
        (priority < length q.queue_list) × (view q id ≡ none) × (length q.msg_map < q.capacity)
        → (q' : Queue) × (push q id priority delay now ≡ ok q')
          × (length q'.msg_map ≡ suc (length q.msg_map))
    room (lt, new, few) =
        let (q₁, p) = get_msg_entry q id priority now in
        let f = not_found q id new in
        (
          admit (q₁, p) id priority delay now,
          push_accepts q id priority delay now lt f (ground (arith, few)),
          ap length (
                admit-map q₁ p id priority delay now
                ∙ ap (insert id p) (msg_map-get_msg_entry q id priority now))
              ∙ length-insert id p q.msg_map f,
        )
