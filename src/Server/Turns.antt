-- ===== src/Server/Turns.antt =====
-- Handlers at work: any number of requests in hand, whose turns and the queue's own steps follow
-- one another in any order. Each turn is at most one call of the queue.
use monitor_queue.Prelude.{
  ℕ, zero, suc, ◌^◌, ◌<◌, ◌≡◌, refl, sym, ◌⊎◌, inl, inr, Bool, true, false, List, [], ◌∷◌, arith,
  Str, subst, if_cases, Option-cases,
}
use monitor_queue.MsgMap.{find}
use monitor_queue.Queue.State.{Queue}
use monitor_queue.Queue.Defs.{erase_failed}
use monitor_queue.Queue.History.{Call, pushes, pops, acks, erases, sets_callback, step, run}
use monitor_queue.Queue.Invariant.{Inv}
use monitor_queue.Queue.History.Invariant.{step-Inv, reachable-Inv}
use monitor_queue.Json.Value.{nil, cons, Outcome, returns, throws, ◌>>=◌, as_object, as_array}
use monitor_queue.Json.Parse.{from_string}
use monitor_queue.Server.Defs.{
  Request, read_body, Serving, starting, pushing, has_room, popping, reading, answered, escaped,
  answers, bad_request, http_ok, erased_payload, is_post, Ack, ack_arguments, Push, push_arguments,
  string_elements, Endpoint, ping_request, push_request, pop_request, ack_request, pop_ack_request,
  count_request, get_failed_request, erase_failed_request, route_map,
}
use monitor_queue.Server.Handler.{
  call_ack, call_push, call_pop, endpoint, handle_request, serve, new_server,
}

-- A turn's queue is the old one, or that after one call.
abbrev OneCall : Queue → Queue → Type 0
OneCall q q' = (q' ≡ q) ⊎ ((c : Call) × (q' ≡ step q c))

call_ack-step :
    (q : Queue) (a : Ack) (now : ℕ) (next : Serving)
    → (call_ack q a now next).0 ≡ step q (acks a.id a.token a.requeue a.delay now)
unfolding call_ack step
call_ack-step q a now next = ground arith

call_push-step :
    (q : Queue) (a : Push) (now : ℕ) (next : Serving)
    → (call_push q a now next).0 ≡ step q (pushes a.id a.priority a.delay now)
unfolding call_push step
call_push-step q a now next = ground arith

call_pop-step :
    (q : Queue) (caught : Bool) (now draw : ℕ)
    → (call_pop q caught now draw).0 ≡ step q (pops now draw)
unfolding call_pop step
call_pop-step q caught now draw = ground arith

-- What holds of both ends of an outcome holds of its `elim`.
outcome_cases {ℓ κ μ} :
    {A : Type ℓ} {B : Type κ} (P : B → Type μ) (o : Outcome A) (f : A → B) (g : Str → B)
    → ((a : A) → P (f a))
    → ((e : Str) → P (g e))
    → P (elim o [ returns a ↦ f a | throws e ↦ g e ])
outcome_cases P (returns a) f g h k = h a
outcome_cases P (throws e) f g h k = k e

module _ (strtod : Str → ℕ × ℕ) where
  endpoint-OneCall :
      (e : Endpoint) (q : Queue) (r : Request) (now : ℕ) → OneCall q (endpoint strtod e q r now).0
  unfolding endpoint step
  endpoint-OneCall ping_request q r now = inl refl
  endpoint-OneCall push_request q r now = inl refl
  endpoint-OneCall pop_request q r now = inl refl
  endpoint-OneCall ack_request q r now =
      if_cases (λ (t : Queue × Serving). OneCall q t.0) (is_post r)
        (λ _.
          outcome_cases (λ (t : Queue × Serving). OneCall q t.0)
            (from_string strtod (read_body r) >>= as_object >>= ack_arguments)
            (λ a. call_ack q a now (answers [] http_ok)) (λ e. (q, bad_request e))
            (λ a.
              inr (
                acks a.id a.token a.requeue a.delay now,
                call_ack-step q a now (answers [] http_ok),
              ))
            (λ e. inl refl))
        (λ _. inl refl)
  endpoint-OneCall pop_ack_request q r now =
      if_cases (λ (t : Queue × Serving). OneCall q t.0) (is_post r)
        (λ _.
          outcome_cases (λ (t : Queue × Serving). OneCall q t.0)
            (from_string strtod (read_body r) >>= as_object >>= ack_arguments)
            (λ a. call_ack q a now (popping true)) (λ e. (q, bad_request e))
            (λ a.
              inr (acks a.id a.token a.requeue a.delay now, call_ack-step q a now (popping true)))
            (λ e. inl refl))
        (λ _. inl refl)
  endpoint-OneCall count_request q r now = inl refl
  endpoint-OneCall get_failed_request q r now = inl refl
  endpoint-OneCall erase_failed_request q r now =
      if_cases (λ (t : Queue × Serving). OneCall q t.0) (is_post r)
        (λ _.
          outcome_cases (λ (t : Queue × Serving). OneCall q t.0)
            (from_string strtod (read_body r) >>= as_array >>= string_elements)
            (λ ids.
              ((erase_failed q ids).1, answers (erased_payload (erase_failed q ids).0) http_ok))
            (λ e. (q, bad_request e)) (λ ids. inr (erases ids, refl)) (λ e. inl refl))
        (λ _. inl refl)

  handle_request-OneCall :
      (q : Queue) (r : Request) (now : ℕ) → OneCall q (handle_request strtod q r now).0
  unfolding handle_request
  handle_request-OneCall q r now = elim (Option-cases (find r.path route_map)) [
    | inl n ↦ rw (n, handle_request) (inl refl)
    | inr (e, f) ↦ rw (f, handle_request) (endpoint-OneCall e q r now)
  ]

  serve-OneCall : (q : Queue) (s : Serving) (now draw : ℕ) → OneCall q (serve strtod q s now draw).0
  unfolding serve
  serve-OneCall q (starting r) now draw = handle_request-OneCall q r now
  serve-OneCall q (pushing nil) now draw = inl refl
  serve-OneCall q (pushing (cons m rest)) now draw = inl refl
  serve-OneCall q (has_room m msg rest) now draw =
      outcome_cases (λ (t : Queue × Serving). OneCall q t.0) (push_arguments m msg)
        (λ a. call_push q a now (pushing rest)) (λ e. (q, bad_request e))
        (λ a. inr (pushes a.id a.priority a.delay now, call_push-step q a now (pushing rest)))
        (λ e. inl refl)
  serve-OneCall q (popping caught) now draw = inr (pops now draw, call_pop-step q caught now draw)
  serve-OneCall q (reading p) now draw = inl refl
  serve-OneCall q (answered r) now draw = inl refl
  serve-OneCall q (escaped e) now draw = inl refl

-- The server: its queue, and the handlers of the requests that came.
pub record Server : Type 0 where
  pub queue : Queue
  pub handlers : List Serving

-- A request comes, the handler at a place takes its turn, or the queue's user or thread does a step.
pub data Event : Type 0 where
  arrives : Request → Event
  turns : (place now draw : ℕ) → Event
  calls : Call → Event

module _ (strtod : Str → ℕ × ℕ) where
  unfoldable pub turn : ℕ → Queue → List Serving → ℕ → ℕ → Queue × List Serving
  turn i q [] now draw = (q, [])
  turn zero q (s ∷ ss) now draw = let (q', s') = serve strtod q s now draw in (q', s' ∷ ss)
  turn (suc i) q (s ∷ ss) now draw = let (q', ss') = turn i q ss now draw in (q', s ∷ ss')

  unfoldable pub happen : Server → Event → Server
  happen v (arrives r) = record v { handlers = starting r ∷ v.handlers }
  happen v (turns i now draw) =
      let (q, ss) = turn i v.queue v.handlers now draw in record { queue = q; handlers = ss }
  happen v (calls c) = record v { queue = step v.queue c }

  unfoldable pub happen_all : Server → List Event → Server
  happen_all v [] = v
  happen_all v (e ∷ es) = happen_all (happen v e) es

OneCall-Inv : {q q' : Queue} → OneCall q q' → Inv q → Inv q'
OneCall-Inv (inl e) v = subst Inv (sym e) v
OneCall-Inv {q} (inr (c, e)) v = subst Inv (sym e) (step-Inv q c v)

pub new_server-Inv :
    (priorities capacity ack_timeout max_retries boost_timeout period : ℕ)
    → capacity < 2 ^ 64
    → Inv (new_server priorities capacity ack_timeout max_retries boost_timeout period)
unfolding new_server step run
new_server-Inv n c a r b m lt =
    step-Inv _ (sets_callback true) (reachable-Inv n c a r b m false [] lt)

module _ (strtod : Str → ℕ × ℕ) where
  turn-Inv :
      (i : ℕ) (q : Queue) (ss : List Serving) (now draw : ℕ)
      → Inv q
      → Inv (turn strtod i q ss now draw).0
  unfolding turn
  turn-Inv i q [] now draw v = v
  turn-Inv zero q (s ∷ ss) now draw v = OneCall-Inv (serve-OneCall strtod q s now draw) v
  turn-Inv (suc i) q (s ∷ ss) now draw v = turn-Inv i q ss now draw v

  happen_all-Inv : (es : List Event) (v : Server) → Inv v.queue → Inv (happen_all strtod v es).queue
  unfolding happen_all happen
  happen_all-Inv [] v h = h
  happen_all-Inv (arrives r ∷ es) v h = happen_all-Inv es _ h
  happen_all-Inv (turns i now draw ∷ es) v h =
      happen_all-Inv es _ (turn-Inv i v.queue v.handlers now draw h)
  happen_all-Inv (calls c ∷ es) v h = happen_all-Inv es _ (step-Inv v.queue c h)

  -- Whatever the configuration, as far as the capacity is a `size_t`, whatever requests come, with
  -- whatever bodies, and however their handlers' turns and the queue's own steps follow one another:
  -- the server's queue keeps its invariant.
  pub serving-Inv :
      (priorities capacity ack_timeout max_retries boost_timeout period : ℕ) (es : List Event)
      → capacity < 2 ^ 64
      → let q = new_server priorities capacity ack_timeout max_retries boost_timeout period in
        Inv (happen_all strtod (record { queue = q; handlers = [] }) es).queue
  serving-Inv n c a r b m es lt = happen_all-Inv es _ (new_server-Inv n c a r b m lt)
