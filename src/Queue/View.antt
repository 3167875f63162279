-- ===== src/Queue/View.antt =====
-- The queue as its users see it: what each message id stands for. `Status` is the abstract state of
-- a message, and each method is a change of the map from ids to it.
pub mod Methods
use monitor_queue.Prelude.{
  ℕ, Option, none, some, Str, ◌≡◌, refl, sym, ap, ◌∙◌, inl, inr, Option-cases,
}
use monitor_queue.MsgMap.{find}
use monitor_queue.Queue.State.{Queue, MsgEntry, MsgState, queued, running, delayed, failed}

pub data Status : Type 0 where
  -- waiting in the queues, with its priority
  waiting : ℕ → Status
  -- handed out under a token
  leased : Str → Status
  -- not before a time
  sleeping : ℕ → Status
  -- past its retries
  dead : Status

abbrev pub status_in : MsgState → MsgEntry → Status
status_in queued e = waiting e.priority
status_in running e = leased e.message.token
status_in delayed e = sleeping e.state_ts
status_in failed e = dead

abbrev pub status : MsgEntry → Status
status e = status_in e.state e

unfoldable pub view : Queue → Str → Option Status
view q id = elim (find id q.msg_map) [ none ↦ none | some p ↦ some (status (q.heap p)) ]

pub view_found :
    (q : Queue) (id : Str) (p : ℕ)
    → find id q.msg_map ≡ some p
    → view q id ≡ some (status (q.heap p))
unfolding view
view_found q id p f = rw (f, view)

pub view_missing : (q : Queue) (id : Str) → find id q.msg_map ≡ none → view q id ≡ none
unfolding view
view_missing q id f = rw (f, view)

-- Two queues that agree on an id's address and entry agree on its status.
pub view_same :
    (q r : Queue) (id : Str)
    → find id r.msg_map ≡ find id q.msg_map
    → ((p : ℕ) → find id q.msg_map ≡ some p → r.heap p ≡ q.heap p)
    → view r id ≡ view q id
view_same q r id f h = elim (Option-cases (find id q.msg_map)) [
  | inl n ↦ view_missing r id (f ∙ n) ∙ sym (view_missing q id n)
  | inr (p, g) ↦
      view_found r id p (f ∙ g) ∙ ap (λ e. some (status e)) (h p g) ∙ sym (view_found q id p g)
]
