-- ===== src/Server/Handler.antt =====
-- server/QueueServer.cpp, class `Handler`: what a request does, in turns. A turn calls the queue
-- once at most, so the turns of several handlers and the queue's own steps follow one another in
-- any order.
use monitor_queue.Prelude.{ℕ, Bool, true, false, none, some, [], Str, ◌==◌, if◌then◌else◌, bytes}
use monitor_queue.MsgMap.{find}
use monitor_queue.Queue.State.{Queue, new_queue}
use monitor_queue.Queue.Defs.{
  ok, err, push, blocked, popped, all_queues_empty, pop, ack, get_capacity, get_counts, get_failed,
  erase_failed, set_error_callback,
}
use monitor_queue.Json.Value.{nil, cons, returns, throws, ◌>>=◌, as_object, as_array}
use monitor_queue.Json.Parse.{from_string}
use monitor_queue.Server.Defs.{
  Request, read_body, what, msg_payload, count_payload, failed_payload, erased_payload, Serving,
  starting, pushing, has_room, popping, reading, answered, escaped, answers, bad_request,
  not_allowed, is_post, is_get, Ack, ack_arguments, Push, push_arguments, string_elements, http_ok,
  http_not_found, Endpoint, ping_request, push_request, pop_request, ack_request, pop_ack_request,
  count_request, get_failed_request, erase_failed_request, route_map,
}

-- m_queue.ack( … ) in a `try` block; `next` is what follows.
unfoldable pub call_ack : Queue → Ack → ℕ → Serving → Queue × Serving
call_ack q a now next = elim (ack q a.id a.token a.requeue a.delay now) [
  | err e ↦ (q, bad_request (what e))
  | ok q' ↦ (q', next)
]

-- m_queue.push( … ) in a `try` block
unfoldable pub call_push : Queue → Push → ℕ → Serving → Queue × Serving
call_push q a now next = elim (push q a.id a.priority a.delay now) [
  | err e ↦ (q, bad_request (what e))
  | ok q' ↦ (q', next)
]

-- m_queue.pop() of `PopRequest`, where an exception escapes, or of `PopAckRequest`
unfoldable pub call_pop : Queue → Bool → ℕ → ℕ → Queue × Serving
call_pop q caught now draw = elim (pop q now draw) [
  | blocked ↦ (q, popping caught)
  | popped q' p ↦ (q', reading p)
  | all_queues_empty ↦
      let e = bytes "All queues empty when m_count_queued > 0" in
      (q, if caught then bad_request e else escaped e)
]

module _ (strtod : Str → ℕ × ℕ) where
  -- The handlers, up to their first call of the queue.
  unfoldable pub endpoint : Endpoint → Queue → Request → ℕ → Queue × Serving
  endpoint ping_request q r now = (q, if is_post r then answers [] http_ok else not_allowed)
  endpoint push_request q r now =
      let start : Serving = elim (from_string strtod (read_body r) >>= as_array) [
        | throws e ↦ bad_request e
        | returns vs ↦ pushing vs
      ] in
      (q, if is_post r then start else not_allowed)
  endpoint pop_request q r now = (q, if is_post r then popping false else not_allowed)
  endpoint ack_request q r now =
      let acked : Queue × Serving =
        elim (from_string strtod (read_body r) >>= as_object >>= ack_arguments) [
          | throws e ↦ (q, bad_request e)
          | returns a ↦ call_ack q a now (answers [] http_ok)
        ] in
      if is_post r then acked else (q, not_allowed)
  endpoint pop_ack_request q r now =
      let acked : Queue × Serving =
        elim (from_string strtod (read_body r) >>= as_object >>= ack_arguments) [
          | throws e ↦ (q, bad_request e)
          | returns a ↦ call_ack q a now (popping true)
        ] in
      if is_post r then acked else (q, not_allowed)
  endpoint count_request q r now = (
    q,
    if is_get r
        then answers (count_payload (get_capacity q) (get_counts q)) http_ok
        else not_allowed,
  )
  endpoint get_failed_request q r now =
      (q, if is_get r then answers (failed_payload (get_failed q)) http_ok else not_allowed)
  endpoint erase_failed_request q r now =
      let erased : Queue × Serving =
        elim (from_string strtod (read_body r) >>= as_array >>= string_elements) [
          | throws e ↦ (q, bad_request e)
          | returns ids ↦
              let (gone, q') = erase_failed q ids in (q', answers (erased_payload gone) http_ok)
        ] in
      if is_post r then erased else (q, not_allowed)

  -- Handler::handleRequest
  unfoldable pub handle_request : Queue → Request → ℕ → Queue × Serving
  handle_request q r now = elim (find r.path route_map) [
    | none ↦ (q, answers [] http_not_found)
    | some e ↦ endpoint e q r now
  ]

  -- The next turn of a handler. `PushRequest` sleeps and looks again while there is no room; other
  -- threads may use the room that it saw before it pushes.
  unfoldable pub serve : Queue → Serving → ℕ → ℕ → Queue × Serving
  serve q (starting r) now draw = handle_request q r now
  serve q (pushing nil) now draw = (q, answers [] http_ok)
  serve q (pushing (cons m rest)) now draw =
      let looked : Serving = elim (as_object m) [
        | throws e ↦ bad_request e
        | returns msg ↦
            if (get_counts q).free == 0 then pushing (cons m rest) else has_room m msg rest
      ] in
      (q, looked)
  serve q (has_room m msg rest) now draw = elim (push_arguments m msg) [
    | throws e ↦ (q, bad_request e)
    | returns a ↦ call_push q a now (pushing rest)
  ]
  serve q (popping caught) now draw = call_pop q caught now draw
  serve q (reading p) now draw =
      let msg = (q.heap p).message in (q, answers (msg_payload msg.id msg.token) http_ok)
  serve q (answered r) now draw = (q, answered r)
  serve q (escaped e) now draw = (q, escaped e)

-- QueueServer::QueueServer: the queue of the server, with `logger` as its error callback
unfoldable pub new_server : ℕ → ℕ → ℕ → ℕ → ℕ → ℕ → Queue
new_server priorities capacity ack_timeout max_retries boost_timeout period =
    set_error_callback
      (new_queue priorities capacity ack_timeout max_retries boost_timeout period false) true
