-- ===== src/Server/Answers.antt =====
-- What the server answers: refused requests, acknowledgements, pops, and pushes with a delay.
use monitor_queue.Prelude.{
  ℕ, ◌≡◌, refl, sym, ◌∙◌, ◌↔◌, inl, inr, Bool, true, false, Option, none, some, [], arith, Str,
  str_eq, bytes, to_string, str_eq_refl, Option-cases, if◌then◌else◌,
}
use monitor_queue.MsgMap.{find}
use monitor_queue.Queue.State.{Queue}
use monitor_queue.Queue.Defs.{ok, Result-cases, popped, pop, ack}
use monitor_queue.Queue.Invariant.{Inv}
use monitor_queue.Queue.View.{view, leased, waiting}
use monitor_queue.Queue.View.Methods.{pop-view}
use monitor_queue.Queue.Acks.{ack_iff_leased}
use monitor_queue.Json.Value.{
  Value, object, Values, Members, Outcome, returns, throws, ◌>>=◌, as_object, as_number,
  conversion_error,
}
use monitor_queue.Json.Object.{has, get_string, get_number}
use monitor_queue.Json.Parse.{from_string}
use monitor_queue.Server.Defs.{
  Request, read_body, has_room, popping, reading, answers, bad_request, not_allowed, is_post,
  http_method_not_allowed, http_ok, http_not_found, Endpoint, ping_request, push_request,
  pop_request, ack_request, pop_ack_request, count_request, get_failed_request,
  erase_failed_request, route_map, msg_payload, send_response, Ack, ack_arguments, push_arguments,
}
use monitor_queue.Server.Handler.{endpoint, handle_request, serve, call_pop, call_ack}

-- The method that each request must have.
abbrev pub method_of : Endpoint → Str
method_of count_request = bytes "GET"
method_of get_failed_request = bytes "GET"
method_of e = bytes "POST"

-- An acknowledgement is answered with 200 by the handler if the queue accepts it, with 400 if not.
call_ack_iff :
    (q q' : Queue) (a : Ack) (now : ℕ)
    → (call_ack q a now (answers [] http_ok) ≡ (q', answers [] http_ok))
      ↔ (ack q a.id a.token a.requeue a.delay now ≡ ok q')
unfolding call_ack send_response
call_ack_iff q q' a now = elim (Result-cases (ack q a.id a.token a.requeue a.delay now)) [
  | inl (x, f) ↦ (λ h. ground arith, λ h. ground arith)
  | inr (r, f) ↦ (λ h. ground arith, λ h. ground arith)
]

call_pop_reading :
    (q : Queue) (caught : Bool) (now draw p : ℕ)
    → (call_pop q caught now draw).1 ≡ reading p
    → pop q now draw ≡ popped (call_pop q caught now draw).0 p
unfolding call_pop
call_pop_reading q caught now draw p h = ground arith

throws_last {ℓ κ μ} :
    {A : Type ℓ} {B : Type κ} {C : Type μ} (o : Outcome A) (o' : Outcome B) (e : Str)
    → let bad : Outcome C = throws e in (e' : Str) × ((o >>= λ _. o' >>= λ _. bad) ≡ throws e')
throws_last (returns a) (returns b) e = (e, refl)
throws_last (returns a) (throws e') e = (e', refl)
throws_last (throws e') o' e = (e', refl)

push_arguments_del :
    (o : Members)
    → (has o (bytes "del")).0 ≡ true
    → (e : Str) × (push_arguments (object o) o ≡ throws e)
unfolding push_arguments as_number
push_arguments_del o h = rw h (
    throws_last (get_string o (bytes "id")) (get_number o (bytes "pri"))
      (conversion_error (object o) (bytes "number")))

-- The status with which a request is refused before its handler looks at it, if it is.
abbrev pub refusal : Request → Option ℕ
refusal r = elim (find r.path route_map) [
  | none ↦ some http_not_found
  | some e ↦ if str_eq r.method (method_of e) then none else some http_method_not_allowed
]

module _ (strtod : Str → ℕ × ℕ) where
  endpoint_refused :
      (e : Endpoint) (q : Queue) (r : Request) (now : ℕ)
      → str_eq r.method (method_of e) ≡ false
      → endpoint strtod e q r now ≡ (q, not_allowed)
  unfolding endpoint
  endpoint_refused ping_request q r now h = rw h
  endpoint_refused push_request q r now h = rw h
  endpoint_refused pop_request q r now h = rw h
  endpoint_refused ack_request q r now h = rw h
  endpoint_refused pop_ack_request q r now h = rw h
  endpoint_refused count_request q r now h = rw h
  endpoint_refused get_failed_request q r now h = rw h
  endpoint_refused erase_failed_request q r now h = rw h

  -- A request to a path that is not in the route map is answered with 404, one with a method other
  -- than its path's with 405, both with no payload, and the queue stays as it is.
  pub handle_request_refused :
      (q : Queue) (r : Request) (now status : ℕ)
      → refusal r ≡ some status
      → handle_request strtod q r now ≡ (q, answers [] status)
  unfolding handle_request
  handle_request_refused q r now status h = elim (Option-cases (find r.path route_map)) [
    | inl n ↦ rw (n, handle_request) (ground arith)
    | inr (e, f) ↦ rw (f, handle_request) (ground (arith, endpoint_refused e q r now))
  ]

  -- An acknowledgement by POST whose body parses to an object with the arguments `a`: it is answered
  -- with 200 exactly when, in a queue with the invariant, the message is leased under the token.
  pub ack_answered_ok :
      (q : Queue) (r : Request) (now : ℕ) (v : Value) (o : Members) (a : Ack)
      → Inv q
      → find r.path route_map ≡ some ack_request
      → is_post r ≡ true
      → from_string strtod (read_body r) ≡ returns v
      → as_object v ≡ returns o
      → ack_arguments o ≡ returns a
      → ((q' : Queue) × (handle_request strtod q r now ≡ (q', answers [] http_ok)))
        ↔ (view q a.id ≡ some (leased a.token))
  unfolding handle_request endpoint
  ack_answered_ok q r now v o a i path post body obj args =
      let same : handle_request strtod q r now ≡ call_ack q a now (answers [] http_ok) =
        rw (path, post, body, obj, args, handle_request, endpoint, is_post) refl in
      let iff = ack_iff_leased q a.id a.token a.requeue a.delay now i in
      (
        λ (q', e). iff.0 (q', (call_ack_iff q q' a now).0 (sym same ∙ e)),
        λ l. let (q', e) = iff.1 l in (q', same ∙ (call_ack_iff q q' a now).1 e),
      )

  -- The turn of `PushRequest` that pushes an element with a member `del`: whatever the member, the
  -- request is answered with 400 and the queue stays as it is.
  pub delayed_push_refused :
      (q : Queue) (o : Members) (rest : Values) (now draw : ℕ)
      → (has o (bytes "del")).0 ≡ true
      → (e : Str) × (serve strtod q (has_room (object o) o rest) now draw ≡ (q, bad_request e))
  unfolding serve
  delayed_push_refused q o rest now draw h =
      let (e, t) = push_arguments_del o h in (e, rw (t, serve) refl)

  -- A turn that pops from a queue with the invariant, followed by the handler's next turn before any
  -- other of the server: the answer names the id and the new token of a message that was waiting and
  -- is now leased under that token.
  pub pop_answered :
      (q : Queue) (caught : Bool) (now draw now' draw' p : ℕ)
      → Inv q
      → let (q', s) = serve strtod q (popping caught) now draw in
        s ≡ reading p
        → (id : Str) × (k : ℕ) × (view q id ≡ some (waiting k))
          × (view q' id ≡ some (leased (to_string draw)))
          × (serve strtod q' s now' draw' ≡ (q', answers (msg_payload id (to_string draw)) http_ok))
  unfolding serve
  pop_answered q caught now draw now' draw' p i e =
      let took = call_pop_reading q caught now draw p e in
      let q' = (call_pop q caught now draw).0 in
      let id = (q'.heap p).message.id in
      let (f, w, t, same) = pop-view q now draw id i took in
      (id, (q.heap p).priority, w, same ∙ rw (str_eq_refl id) refl, rw (e, t, serve) refl)
