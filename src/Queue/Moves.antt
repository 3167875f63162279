-- ===== src/Queue/Moves.antt =====
-- server/Queue.cpp: what each call may do to the status of a message, and which calls take it away.
use monitor_queue.Prelude.{
  ℕ, ◌+◌, ◌≤◌, ◌≡◌, refl, ap, ◌∙◌, ◌⊎◌, Bool, true, false, none, some, List, [], ◌∷◌, arith, Str,
  to_string, count, ◌==◌, if◌then◌else◌,
}
use monitor_queue.MsgMap.{find}
use monitor_queue.MsgMap.Pointers.{ptrs}
use monitor_queue.Queue.State.{Queue, MsgEntry, milliseconds}
use monitor_queue.Queue.Threads.{bump_fails, release, release_due, delay_pass}
use monitor_queue.Queue.History.{Call, pops, acks, pop_acks, erases, monitors, delays}
use monitor_queue.Queue.Invariant.{Inv}
use monitor_queue.Queue.Invariant.TakeOut.{found_once}
use monitor_queue.Queue.Monitoring.{Limits, limits, is_overdue, monitored}
use monitor_queue.Queue.Delaying.{released}
use monitor_queue.Queue.View.{Status, waiting, leased, sleeping, dead, status, view, view_found}
use monitor_queue.Queue.Failed.{mem_id}

-- What a pop makes of a message: it is left, or waits and is leased under the token drawn.
abbrev pub PopChange : ℕ → Status → Status → Type 0
PopChange draw s s' = (s' ≡ s) ⊎ ((k : ℕ) × (s ≡ waiting k) × (s' ≡ leased (to_string draw)))

-- What an acknowledgement of `j` makes of the message `id`, which has the entry `e`.
abbrev pub AckChange : Str → Str → Bool → ℕ → ℕ → Str → MsgEntry → Status → Type 0
AckChange j token requeue delay now id e s' =
    (s' ≡ status e)
    ⊎ ((j ≡ id)
        × (requeue ≡ true)
        × (status e ≡ leased token)
        × (s' ≡ (if delay == 0 then waiting e.priority else sleeping (now + milliseconds delay))))

-- What a pass of the monitor makes of a message.
abbrev pub MonitorChange : Limits → ℕ → MsgEntry → Status → Type 0
MonitorChange l now e s' =
    (s' ≡ status e)
    ⊎ ((is_overdue l now e ≡ true)
        × (status e ≡ leased e.message.token)
        × (s' ≡ (if bump_fails e == l.max_retries then dead else waiting e.priority)))

-- What a pass of the delay thread makes of a message.
abbrev pub DelayChange : ℕ → MsgEntry → Status → Type 0
DelayChange now e s' =
    (s' ≡ status e)
    ⊎ ((status e ≡ sleeping e.state_ts) × (e.state_ts ≤ now) × (s' ≡ waiting e.priority))

-- What a call may make of the message `id` that it keeps, from its entry `e` to its new status.
abbrev pub MayBecome : Queue → Call → Str → MsgEntry → Status → Type 0
MayBecome q (pops now draw) id e s' = PopChange draw (status e) s'
MayBecome q (acks j token requeue delay now) id e s' = AckChange j token requeue delay now id e s'
MayBecome q (pop_acks j token requeue delay now draw) id e s' =
    (s : Status) × AckChange j token requeue delay now id e s × PopChange draw s s'
MayBecome q (monitors now) id e s' = MonitorChange (limits q) now e s'
MayBecome q (delays now) id e s' = DelayChange now e s'
MayBecome q _ id e s' = s' ≡ status e

-- A call that takes the message `id` away from `q`: an acknowledgement that does not requeue it,
-- under the token by which it is leased, or the erasure of a dead message.
abbrev pub Removes : Queue → Call → Str → Type 0
Removes q (acks j token requeue delay now) id =
    (j ≡ id) × (requeue ≡ false) × (view q id ≡ some (leased token))
Removes q (pop_acks j token requeue delay now draw) id =
    (j ≡ id) × (requeue ≡ false) × (view q id ≡ some (leased token))
Removes q (erases ids) id = (mem_id id ids ≡ true) × (view q id ≡ some dead)
Removes q _ id = ⊥

-- What becomes of the message `id`, which has the entry `e`.
abbrev pub Fate : Queue → Call → Str → MsgEntry → Queue → Type 0
Fate q c id e q' =
    ((view q' id ≡ none) × Removes q c id)
    ⊎ ((s' : Status) × (view q' id ≡ some s') × MayBecome q c id e s')

pub monitored-Change :
    (l : Limits) (now : ℕ) (e : MsgEntry) → MonitorChange l now e (status (monitored l now e))
monitored-Change l now e = ground arith

pub released-Change : (now : ℕ) (e : MsgEntry) → DelayChange now e (status (released now e))
released-Change now e = ground arith

pub release_due-map :
    (now : ℕ) (q : Queue) (ds : List ℕ) → (release_due now q ds).msg_map ≡ q.msg_map
unfolding release_due release
release_due-map now q [] = refl
release_due-map now q (p ∷ ds) = ground (arith, release_due-map now (release q now p ds) ds)

pub msg_map-delay_pass : (q : Queue) (now : ℕ) → (delay_pass q now).msg_map ≡ q.msg_map
unfolding delay_pass
msg_map-delay_pass q now = ground (arith, release_due-map now q q.msg_delay)

-- The status of a message after a scan that writes `f` to each entry.
pub scan_view :
    (q q' : Queue) (id : Str) (p : ℕ) (f : MsgEntry → MsgEntry)
    → Inv q
    → q'.msg_map ≡ q.msg_map
    → q'.heap p ≡ (if count p (ptrs q.msg_map) == 1 then f (q.heap p) else q.heap p)
    → find id q.msg_map ≡ some p
    → view q' id ≡ some (status (f (q.heap p)))
scan_view q q' id p f v m h g =
    let at : q'.heap p ≡ f (q.heap p) = ground (arith, h, found_once v id p g) in
    view_found q' id p (ap (find id) m ∙ g) ∙ ap (λ x. some (status x)) at
