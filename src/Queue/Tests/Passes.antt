-- ===== src/Queue/Tests/Passes.antt =====
-- server/Queue.cpp: the two threads, at concrete queues.
use monitor_queue.Prelude.{
  ℕ, ◌≤◌, ◌≡◌, ◌≢◌, ◌⊎◌, refl, true, false, List, [], ◌∷◌, arith, count, ◌==◌, if◌then◌else◌,
}
use monitor_queue.MsgMap.Pointers.{ptrs}
use monitor_queue.Queue.State.{Queue, queued, failed, pop_notify_one, pop_notify_all, new_queue}
use monitor_queue.Queue.Defs.{err, invalid_token, ack}
use monitor_queue.Queue.Threads.{monitor_pass, delay_pass, delay_wait}
use monitor_queue.Queue.Buckets.{bucket}
use monitor_queue.Queue.History.{Call, pushes, pops, monitors, run}
use monitor_queue.Queue.History.Invariant.{reachable-Inv}
use monitor_queue.Queue.Invariant.{Inv}
use monitor_queue.Queue.Invariant.Scans.{monitor_pass-Inv}
use monitor_queue.Queue.Monitoring.{limits, monitored, heap-monitor_pass, outputs-monitor_pass}
use monitor_queue.Queue.Delaying.{released, heap-delay_pass, SleepsWell, delay_wait-SleepsWell}
use monitor_queue.Queue.Acks.{late_ack_refused}
use monitor_queue.Queue.Retries.{
  Meanwhile, LateTries, untried, tried, retry_limit, never_fails, boosted_retry_starves,
}
use monitor_queue.Queue.Tests.{id_a, opened, base, busy, busy-Inv, busy_calls, hurried, hurried-Inv}

heap-monitor_pass_example : (monitor_pass busy 2000000).heap 2 ≡ (
    if count 2 (ptrs busy.msg_map) == 1
    then monitored (limits busy) 2000000 (busy.heap 2)
    else busy.heap 2)
heap-monitor_pass_example = heap-monitor_pass busy 2000000 2 busy-Inv (unfold opened in refl)

outputs-monitor_pass_example :
    ((monitor_pass busy 2000000).outputs ≡ busy.outputs)
    ⊎ ((monitor_pass busy 2000000).outputs ≡ pop_notify_one ∷ busy.outputs)
    ⊎ ((monitor_pass busy 2000000).outputs ≡ pop_notify_all ∷ busy.outputs)
outputs-monitor_pass_example = outputs-monitor_pass busy 2000000 busy-Inv

heap-delay_pass_example :
    (delay_pass busy 6000000).heap 1
    ≡ (if count 1 (ptrs busy.msg_map) == 1 then released 6000000 (busy.heap 1) else busy.heap 1)
heap-delay_pass_example = heap-delay_pass busy 6000000 1 busy-Inv (unfold opened in refl)

delay_wait-SleepsWell_example : SleepsWell busy 30 (delay_wait busy.heap busy.msg_delay 30)
delay_wait-SleepsWell_example = delay_wait-SleepsWell busy 30 busy-Inv

late_ack_refused_example :
    ack (monitor_pass busy 2000000) id_a (busy.heap 0).message.token false 0 2000001
    ≡ err invalid_token
unfolding opened
late_ack_refused_example =
    late_ack_refused busy id_a 0 2000000 false 0 2000001 busy-Inv refl refl refl

-- `a` is pushed, and popped and found late, twice.
abbrev once_calls : List Call
once_calls = pushes id_a 1 0 10 ∷ []

abbrev first_pop : List Call
first_pop = pushes id_a 1 0 10 ∷ pops 20 7 ∷ []

abbrev first_pass : List Call
first_pass = pushes id_a 1 0 10 ∷ pops 20 7 ∷ monitors 2000000 ∷ []

abbrev second_pop : List Call
second_pop = pushes id_a 1 0 10 ∷ pops 20 7 ∷ monitors 2000000 ∷ pops 2000001 8 ∷ []

-- Nothing happens in between.
still :
    (cs : List Call)
    → (run base cs).run ≡ true
    → count 0 (ptrs (run base cs).msg_map) ≡ 1
    → Meanwhile 0 (run base cs) (run base cs)
still cs r c = record {
  valid = reachable-Inv 3 4 1 2 1 5 false cs (omega arith);
  runs = r;
  same_limits = refl;
  same_state = refl;
  same_time = refl;
  same_fails = refl;
  mapped = c;
}

two_tries : LateTries 0 (run base once_calls) 2 (monitor_pass (run base second_pop) 4000000)
unfolding opened
two_tries =
    tried {a = run base first_pass} {b = run base second_pop} 2000001 8 4000000
      (tried {a = run base once_calls} {b = run base first_pop} 20 7 2000000 untried
        (still once_calls refl refl) refl (still first_pop refl refl) (omega arith))
      (still first_pass refl refl) refl (still second_pop refl refl) (omega arith)

retry_limit_example :
    (2 ≤ (run base once_calls).max_retries)
    × (((monitor_pass (run base second_pop) 4000000).heap 0).fail_count ≡ 2)
    × (((monitor_pass (run base second_pop) 4000000).heap 0).state ≡ failed)
unfolding opened
retry_limit_example =
    retry_limit 0 2 (run base once_calls) (monitor_pass (run base second_pop) 4000000) (omega arith)
      (omega arith) (omega arith) refl two_tries (omega arith)

-- The same calls on a queue with a limit of 256.
abbrev patient : Queue
patient = run (new_queue 3 4 1 256 1 5 false) busy_calls

patient-Inv : Inv patient
patient-Inv = reachable-Inv 3 4 1 256 1 5 false busy_calls (omega arith)

never_fails_example : ((monitor_pass patient 2000000).heap 0).state ≢ failed
unfolding opened
never_fails_example =
    never_fails patient 2000000 0 patient-Inv refl (omega arith) (λ e. ground arith)

boosted_retry_starves_example :
    (((monitor_pass hurried 4000000).heap 0).state ≡ queued)
    × ((monitor_pass (monitor_pass hurried 4000000) 9000000).heap 0
        ≡ (monitor_pass hurried 4000000).heap 0)
    × ((k : ℕ)
        → count 0 (bucket k (monitor_pass (monitor_pass hurried 4000000) 9000000).queue_list)
          ≡ count 0 (bucket k (monitor_pass hurried 4000000).queue_list))
unfolding opened
boosted_retry_starves_example =
    boosted_retry_starves hurried 4000000 0 (monitor_pass hurried 4000000) 9000000 hurried-Inv refl
      refl refl (λ e. ground arith) refl (monitor_pass-Inv hurried 4000000 hurried-Inv) refl refl
