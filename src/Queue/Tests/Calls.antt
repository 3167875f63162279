-- ===== src/Queue/Tests/Calls.antt =====
-- server/Queue.cpp: the methods of the queue, at concrete queues.
use monitor_queue.Prelude.{
  ℕ, suc, ◌+◌, ◌≡◌, ◌⊎◌, ◌&&◌, refl, true, false, none, some, List, [], ◌∷◌, ◌++◌, arith, Str,
  str_eq, to_string, length, count, bit, ltb, ◌==◌, if◌then◌else◌,
}
use monitor_queue.MsgMap.{find}
use monitor_queue.MsgMap.Pointers.{ptrs}
use monitor_queue.Queue.State.{Queue, is_queued, milliseconds, delay_notify_one}
use monitor_queue.Queue.Defs.{
  ok, err, invalid_token, push, pop, ack, get_failed, get_counts, get_capacity, erase_failed,
  insert_delayed_msg,
}
use monitor_queue.Queue.Threads.{destroy, release, delay_wait}
use monitor_queue.Queue.History.{acks, monitors, after_result, after_pop, step, run}
use monitor_queue.Queue.History.Invariant.{reachable-Inv}
use monitor_queue.Queue.Invariant.{Inv}
use monitor_queue.Queue.Service.{service, ahead, behind, before, from}
use monitor_queue.Queue.Service.Calls.{
  Serves, pop-Serves, push-service, release-service, drain, drain-service,
}
use monitor_queue.Queue.View.{view, waiting, leased, sleeping}
use monitor_queue.Queue.View.Methods.{push-view, pop-view, ack-view}
use monitor_queue.Queue.Pushes.{push_iff_room}
use monitor_queue.Queue.Acks.{ack_iff_leased, ack_twice}
use monitor_queue.Queue.Failed.{mem_id, is_dead, get_failed-dead, erase_failed-view, get_counts-sum}
use monitor_queue.Queue.Lifecycle.{step-Fate}
use monitor_queue.Queue.Moves.{Fate}
use monitor_queue.Queue.Wakeups.{Wakes}
use monitor_queue.Queue.Wakeups.Steps.{step-Wakes, insert_delayed_msg-wakes}
use monitor_queue.Queue.Memory.{destroy_deletes, reference_reused}
use monitor_queue.Queue.Tests.{
  id_a, id_b, id_d, opened, base, busy, busy_calls, busy-Inv, worn, worn-Inv,
}

abbrev token_7 : Str
token_7 = b'7' ∷ []

reachable-Inv_example : Inv (run base busy_calls)
reachable-Inv_example = reachable-Inv 3 4 1 2 1 5 false busy_calls (omega arith)

-- The lease of `a` in `busy`.
busy_leased : view busy id_a ≡ some (leased token_7)
unfolding opened view
busy_leased = refl

step-Fate_example :
    Fate busy
      (acks id_a token_7 true 3 30)
      id_a
      (busy.heap 0)
      (step busy (acks id_a token_7 true 3 30))
unfolding opened
step-Fate_example = step-Fate busy (acks id_a token_7 true 3 30) id_a 0 busy-Inv refl

pop-Serves_example : Serves busy (pop busy 30 9)
pop-Serves_example = pop-Serves busy 30 9 busy-Inv

abbrev pushed : Queue
pushed = after_result busy (push busy id_d 1 0 40)

pushed_ok : push busy id_d 1 0 40 ≡ ok pushed
unfolding opened
pushed_ok = refl

push-service_example :
    (p : ℕ) × (find id_d pushed.msg_map ≡ some p)
    × (service busy.queue_list ≡ ahead 1 busy.queue_list ++ behind 1 busy.queue_list)
    × (service pushed.queue_list ≡ ahead 1 busy.queue_list ++ p ∷ behind 1 busy.queue_list)
push-service_example = push-service busy id_d 1 40 pushed_ok

release-service_example :
    (service busy.queue_list ≡ before 2 busy.queue_list ++ from 2 busy.queue_list)
    × (service (release busy 6000000 1 []).queue_list
        ≡ before 2 busy.queue_list ++ 1 ∷ from 2 busy.queue_list)
unfolding opened
release-service_example = release-service busy 6000000 1 [] (omega arith)

-- Three pops, each with its time and its draw.
abbrev three_pops : List (ℕ × ℕ)
three_pops = (30, 9) ∷ (31, 4) ∷ (35, 6) ∷ []

drain-service_example :
    (drain three_pops busy ≡ service busy.queue_list)
    × ((p : ℕ)
        → count p (drain three_pops busy)
          ≡ (if is_queued (busy.heap p).state && (count p (ptrs busy.msg_map) == 1) then 1 else 0))
unfolding opened
drain-service_example = drain-service three_pops busy busy-Inv (omega arith)

push-view_example :
    (view busy id_d ≡ none)
    × (view pushed id_a ≡ (
        if str_eq id_d id_a
        then some (if 0 == 0 then waiting 1 else sleeping (40 + milliseconds 0))
        else view busy id_a))
push-view_example = push-view busy id_d id_a 1 0 40 busy-Inv pushed_ok

abbrev taken : Queue
taken = after_pop busy (pop busy 30 9)

pop-view_example :
    (find (taken.heap 2).message.id busy.msg_map ≡ some 2)
    × (view busy (taken.heap 2).message.id ≡ some (waiting (busy.heap 2).priority))
    × ((taken.heap 2).message.token ≡ to_string 9)
    × (view taken id_a ≡ (
        if str_eq (taken.heap 2).message.id id_a
        then some (leased (to_string 9))
        else view busy id_a))
pop-view_example = pop-view busy 30 9 id_a {q' = taken} {p = 2} busy-Inv (unfold opened in refl)

abbrev given_back : Queue
given_back = after_result busy (ack busy id_a token_7 true 3 30)

given_back_ok : ack busy id_a token_7 true 3 30 ≡ ok given_back
unfolding opened
given_back_ok = refl

ack-view_example :
    (p : ℕ) × (find id_a busy.msg_map ≡ some p)
    × (view busy id_a ≡ some (leased token_7))
    × (view given_back id_b ≡ (
        if str_eq id_a id_b
        then (if true
            then some
                (if 3 == 0 then waiting (busy.heap p).priority else sleeping (30 + milliseconds 3))
            else none)
        else view busy id_b))
ack-view_example = ack-view busy id_a token_7 id_b true 3 30 busy-Inv given_back_ok

push_iff_room_example :
    (q : Queue) × (push busy id_d 1 0 40 ≡ ok q) × (length q.msg_map ≡ suc (length busy.msg_map))
unfolding opened view
push_iff_room_example = (push_iff_room busy id_d 1 0 40 busy-Inv).1 (omega arith, refl, omega arith)

ack_iff_leased_example : (q : Queue) × (ack busy id_a token_7 true 3 30 ≡ ok q)
ack_iff_leased_example = (ack_iff_leased busy id_a token_7 true 3 30 busy-Inv).1 busy_leased

ack_twice_example : ack given_back id_a token_7 false 0 31 ≡ err invalid_token
ack_twice_example = ack_twice busy id_a token_7 true false 3 30 0 31 busy-Inv given_back_ok

get_failed-dead_example :
    (mem_id id_a (get_failed worn) ≡ is_dead (view worn id_a))
    × (length (get_failed worn) ≡ worn.count_failed)
get_failed-dead_example = get_failed-dead worn id_a worn-Inv

erase_failed-view_example :
    (mem_id id_a (erase_failed worn (id_a ∷ id_b ∷ [])).0
      ≡ (mem_id id_a (id_a ∷ id_b ∷ []) && is_dead (view worn id_a)))
    × (view (erase_failed worn (id_a ∷ id_b ∷ [])).1 id_a ≡ (
        if mem_id id_a (id_a ∷ id_b ∷ []) && is_dead (view worn id_a)
        then none
        else view worn id_a))
erase_failed-view_example = erase_failed-view worn (id_a ∷ id_b ∷ []) id_a worn-Inv

get_counts-sum_example :
    ((get_counts worn).active + (get_counts worn).failed + (get_counts worn).free
      ≡ get_capacity worn)
    × ((get_counts worn).failed ≡ length (get_failed worn))
    × ((get_counts worn).active + (get_counts worn).failed ≡ length worn.msg_map)
get_counts-sum_example = get_counts-sum worn worn-Inv

step-Wakes_example : Wakes busy (step busy (monitors 2000000))
step-Wakes_example = step-Wakes busy (monitors 2000000) busy-Inv

insert_delayed_msg-wakes_example :
    ((insert_delayed_msg busy 0 60).outputs ≡ delay_notify_one ∷ busy.outputs)
    ⊎ (delay_wait (insert_delayed_msg busy 0 60).heap (insert_delayed_msg busy 0 60).msg_delay 50
        ≡ delay_wait busy.heap busy.msg_delay 50)
insert_delayed_msg-wakes_example = insert_delayed_msg-wakes busy 0 60 50 (unfold opened in refl)

destroy_deletes_example :
    count 0 (destroy busy).1
    ≡ (if count 0 (ptrs busy.msg_map) == 0 then bit (ltb 0 busy.next_addr) else 0)
destroy_deletes_example = destroy_deletes busy 0 busy-Inv

abbrev dropped : Queue
dropped = after_result busy (ack busy id_a token_7 false 0 30)

abbrev replaced : Queue
replaced = after_result dropped (push dropped id_d 2 0 40)

reference_reused_example :
    (p : ℕ) × (find id_a busy.msg_map ≡ some p)
    × ((replaced.heap p).message.id ≡ id_d)
    × ((replaced.heap p).message.token ≡ [])
reference_reused_example =
    reference_reused busy id_a token_7 0 30 id_d 2 0 40 {q' = dropped} {q'' = replaced}
      (unfold opened in refl) (unfold opened in refl)
