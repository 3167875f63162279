-- ===== src/Client/Exchange.antt =====
-- server/mqclient.cpp and server/QueueServer.cpp: single requests of a client that is alone with
-- the server, from what the client sends to what it reads of the answer.
use monitor_queue.Prelude.{
  ℕ, zero, suc, ◌+◌, ◌%◌, ◌≡◌, refl, ap, ap₂, ◌∙◌, true, false, Option, some, [], ◌∷◌, arith, Str,
  str_eq, str_lt, bytes, length, to_string, dec_digits, ltb, if_cases, ◌/◌,
}
use monitor_queue.MsgMap.{find, insert}
use monitor_queue.Queue.State.{Queue}
use monitor_queue.Queue.Defs.{ok, ack}
use monitor_queue.Json.Value.{object, Members, Outcome, returns, throws, ◌>>=◌, as_object}
use monitor_queue.Json.Cell.{Cell, whole, clear}
use monitor_queue.Json.Parse.{from_string}
use monitor_queue.Server.Defs.{
  Request, starting, popping, answers, http_ok, send_response, read_body, read_chars, route_map,
  ack_arguments,
}
use monitor_queue.Server.Handler.{serve, handle_request, endpoint, call_ack}
use monitor_queue.Client.Defs.{
  HttpRequest, Reply, Session, prepare, do_request, read_reply, ack_body, cleared,
}
use monitor_queue.Client.Bodies.{Bare, is_bare, ack_body-from_string}
use monitor_queue.Client.Alone.{World, replied, received, settle, Delivers}

pub read_chars-length : (s : Str) → read_chars (length s) s ≡ s
unfolding read_chars
read_chars-length [] = refl
read_chars-length (c ∷ s) = ap (◌∷◌ c) (read_chars-length s)

dec_digits-Bare : (f n : ℕ) (acc : Str) → Bare acc → Bare (dec_digits f n acc)
unfolding dec_digits
dec_digits-Bare zero n acc h = h
dec_digits-Bare (suc f) n acc h =
    let d : is_bare (48 + n % 10) ≡ true = ground arith in
    if_cases Bare (ltb n 10) (λ _. (d, h))
      (λ _. dec_digits-Bare f (n / 10) ((48 + n % 10) ∷ acc) (d, h))

pub to_string-Bare : (n : ℕ) → Bare (to_string n)
unfolding to_string
to_string-Bare n = dec_digits-Bare (suc n) n [] tt

abbrev pub post_to : Str → ℕ → Str → Request
post_to path n body = record {
  method = bytes "POST";
  path = path;
  content_length = some n;
  stream = body;
}

pub received_post :
    (r : HttpRequest) (path : Str)
    → r.method ≡ bytes "POST"
    → r.uri ≡ path
    → received r ≡ post_to path r.content_length r.body
received_post r path m u =
    ap₂
      (λ m u. record {
        method = m;
        path = u;
        content_length = some r.content_length;
        stream = r.body;
      })
      m u

module _ (strtod : Str → ℕ × ℕ) where
  pub serve_pop :
      (q : Queue) (n : ℕ) (body : Str) (now draw : ℕ)
      → serve strtod q (starting (post_to (bytes "/pop") n body)) now draw ≡ (q, popping false)
  unfolding serve handle_request endpoint route_map find insert str_eq str_lt
  serve_pop q n body now draw = refl

  ack_read :
      (path id tok : Str)
      → Bare id
      → Bare tok
      → (from_string strtod (read_body (post_to path (length (ack_body id tok)) (ack_body id tok)))
          >>= as_object
          >>= ack_arguments)
        ≡ returns (record { id = id; token = tok; requeue = false; delay = 0 })
  unfolding read_body as_object
  ack_read path id tok h k =
      let (o, e, a) = ack_body-from_string strtod id tok h k in
      rw (read_chars-length (ack_body id tok), e, a) refl

  pub serve_pop_ack :
      (q q' : Queue) (id tok : Str) (now draw : ℕ)
      → Bare id
      → Bare tok
      → ack q id tok false 0 now ≡ ok q'
      → serve strtod q
          (starting (post_to (bytes "/pop_ack") (length (ack_body id tok)) (ack_body id tok)))
          now
          draw
        ≡ (q', popping true)
  unfolding serve handle_request endpoint route_map find insert str_eq str_lt call_ack
  serve_pop_ack q q' id tok now draw h k a =
      rw (ack_read (bytes "/pop_ack") id tok h k, a, call_ack) refl

  pub serve-ack :
      (q q' : Queue) (id tok : Str) (now draw : ℕ)
      → Bare id
      → Bare tok
      → ack q id tok false 0 now ≡ ok q'
      → serve strtod q
          (starting (post_to (bytes "/ack") (length (ack_body id tok)) (ack_body id tok)))
          now
          draw
        ≡ (q', answers [] http_ok)
  unfolding serve handle_request endpoint route_map find insert str_eq str_lt call_ack
  serve-ack q q' id tok now draw h k a = rw (ack_read (bytes "/ack") id tok h k, a, call_ack) refl

  pub do_request_reply :
      {S : Type 0} (w : Session S) (r : HttpRequest) (body : Option Str) (cell : Cell) (s s' : S)
      (reply : Reply)
      → w.send s (prepare r body) ≡ (returns reply, s')
      → do_request strtod w r body cell s ≡ (read_reply strtod reply cell, s')
  unfolding do_request
  do_request_reply {S} w r body cell s s' reply e =
      ap
        (λ (x : Outcome Reply × S). elim x.0 [
          | throws e ↦ (throws e, x.1)
          | returns reply ↦ (read_reply strtod reply cell, x.1)
        ])
        e

  read_reply-object :
      (payload : Str) (o : Members) (cell : Cell)
      → from_string strtod payload ≡ returns (object o)
      → ltb 0 (length payload) ≡ true
      → read_reply strtod
          (record { status = http_ok; content_length = some (length payload); stream = payload })
          cell
        ≡ returns (whole (object o))
  unfolding read_reply
  read_reply-object payload o cell e n = rw (read_chars-length payload, e, n) refl

module _ (strtod : Str → ℕ × ℕ) (clock draw : ℕ → ℕ) where
  pub answered_with :
      (n : ℕ) (w : Session World) (d : Delivers strtod clock draw n w) (r : HttpRequest)
      (body : Option Str) (cell : Cell) (v v' : World) (payload : Str) (o : Members)
      → settle strtod clock draw n v (starting (received (prepare r body)))
        ≡ (returns (send_response payload http_ok), v')
      → from_string strtod payload ≡ returns (object o)
      → ltb 0 (length payload) ≡ true
      → do_request strtod w r body cell v ≡ (returns (whole (object o)), v')
  unfolding send_response
  answered_with n w d r body cell v v' payload o e t l =
      do_request_reply strtod w r body cell v v' _
        (d v (prepare r body) ∙ ap (λ x. (replied x.0, x.1)) e)
      ∙ ap (λ x. (x, v')) (read_reply-object strtod payload o cell t l)

  pub answered_empty :
      (n : ℕ) (w : Session World) (d : Delivers strtod clock draw n w) (r : HttpRequest)
      (body : Option Str) (cell : Cell) (v v' : World)
      → settle strtod clock draw n v (starting (received (prepare r body)))
        ≡ (returns (send_response [] http_ok), v')
      → do_request strtod w r body cell v ≡ (returns (cleared (clear cell)), v')
  unfolding send_response read_reply
  answered_empty n w d r body cell v v' e =
      do_request_reply strtod w r body cell v v' _
        (d v (prepare r body) ∙ ap (λ x. (replied x.0, x.1)) e)
