-- ===== src/Client/Alone.antt =====
-- server/mqclient.cpp and server/QueueServer.cpp: a session of a client that is alone with the
-- server. A request is served turn by turn; the turn numbers the readings of the clock and the
-- draws. A handler that takes more turns than the client's patience is a timeout.
use monitor_queue.Prelude.{
  ℕ, zero, suc, ◌≤◌, ◌≡◌, refl, ap, ◌∙◌, Bool, Option, none, some, Str, bytes, length, to_string,
}
use monitor_queue.Queue.State.{Queue}
use monitor_queue.Queue.Invariant.{Inv}
use monitor_queue.Json.Value.{Outcome, returns, throws}
use monitor_queue.Server.Defs.{
  Request, Response, Serving, starting, popping, reading, answered, escaped, msg_payload, http_ok,
  send_response,
}
use monitor_queue.Server.Handler.{serve, call_pop}
use monitor_queue.Client.Defs.{HttpRequest, Reply, Session}
use monitor_queue.Client.Effects.{Taken, pop-Taken}

pub record World : Type 0 where
  pub queue : Queue
  pub turn : ℕ

-- Where a handler is done: its response, or the connection that an exception closes.
abbrev pub ended : Serving → Option (Outcome Response)
ended (answered r) = some (returns r)
ended (escaped e) = some (throws (bytes "No message received"))
ended s = none

-- What reaches the server of a request, and the client of a response.
abbrev pub received : HttpRequest → Request
received r = record {
  method = r.method;
  path = r.uri;
  content_length = some r.content_length;
  stream = r.body;
}

abbrev pub replied : Outcome Response → Outcome Reply
replied (throws e) = throws e
replied (returns r) =
    returns
      (record { status = r.status; content_length = some (length r.payload); stream = r.payload })

module _ (strtod : Str → ℕ × ℕ) (clock draw : ℕ → ℕ) where
  unfoldable pub settle : ℕ → World → Serving → Outcome Response × World
  settle zero v s = (throws (bytes "Timeout"), v)
  settle (suc n) v s =
      let (q, s') = serve strtod v.queue s (clock v.turn) (draw v.turn) in
      let rest = settle n (record { queue = q; turn = suc v.turn }) s' in
      elim (ended s) [ some o ↦ (o, v) | none ↦ rest ]

  -- Poco between the two, and nobody else: a request and its response come through as they are.
  abbrev pub Delivers : ℕ → Session World → Type 0
  Delivers patience w =
      (v : World) (r : HttpRequest)
      → let (o, v') = settle patience v (starting (received r)) in w.send v r ≡ (replied o, v')

module _ (strtod : Str → ℕ × ℕ) (clock draw : ℕ → ℕ) where
  pub settle_next :
      (n : ℕ) (v : World) (s s' : Serving) (q : Queue)
      → ended s ≡ none
      → serve strtod v.queue s (clock v.turn) (draw v.turn) ≡ (q, s')
      → settle strtod clock draw (suc n) v s
        ≡ settle strtod clock draw n (record { queue = q; turn = suc v.turn }) s'
  unfolding settle
  settle_next n v s s' q h e = rw (h, e, settle) refl

  pub settle_ended :
      (n : ℕ) (v : World) (r : Response)
      → settle strtod clock draw (suc n) v (answered r) ≡ (returns r, v)
  unfolding settle
  settle_ended n v r = refl

  -- A handler that pops, to its answer
  pub popping_settles :
      (caught : Bool) (n : ℕ) (v : World)
      → Inv v.queue
      → 1 ≤ v.queue.count_queued
      → (v' : World) × (id : Str) × (settle strtod clock draw (suc (suc (suc n))) v (popping caught)
          ≡ (returns (send_response (msg_payload id (to_string (draw v.turn))) http_ok), v'))
        × Taken v.queue v'.queue id (to_string (draw v.turn))
  unfolding serve call_pop
  popping_settles caught n v i le =
      let (q', p, e, taken, t) = pop-Taken v.queue (clock v.turn) (draw v.turn) i le in
      let id = (q'.heap p).message.id in
      let v' : World = record { queue = q'; turn = suc (suc v.turn) } in
      let answer = λ (tok : Str). send_response (msg_payload id tok) http_ok in
      (
        v',
        id,
        settle_next (suc (suc n)) v (popping caught) (reading p) q' refl
              (rw (e, serve, call_pop) refl)
            ∙ settle_next (suc n) (record { queue = q'; turn = suc v.turn }) (reading p)
                (answered (answer (q'.heap p).message.token)) q' refl refl
            ∙ settle_ended n v' (answer (q'.heap p).message.token)
            ∙ ap (λ x. (returns (answer x), v')) t,
        taken,
      )
