-- ===== src/Client/Rounds.antt =====
-- server/mqclient.cpp: the rounds of `doPop` of a client that is alone with the server.
use monitor_queue.Prelude.{
  ℕ, zero, suc, ◌+◌, ◌≤◌, ◌≡◌, refl, sym, ap, ◌∙◌, subst, inl, Bool, true, false, Option, none,
  some, [], arith, Str, bytes, length, to_string,
}
use monitor_queue.Queue.State.{Queue}
use monitor_queue.Queue.Invariant.{Inv}
use monitor_queue.Queue.View.{view}
use monitor_queue.Json.Value.{object, returns}
use monitor_queue.Json.Cell.{Cell, whole}
use monitor_queue.Server.Defs.{starting, popping, msg_payload}
use monitor_queue.Client.Defs.{
  bind-returns, HttpRequest, Session, prepare, new_request, do_request, ◌>>=◌, ack_body,
}
use monitor_queue.Client.Calls.{no_reply, Popping, verify_reply, first_pop, next_pop, next_pops}
use monitor_queue.Client.Bodies.{msg_payload-from_string}
use monitor_queue.Client.Effects.{Steady, ack-Acked}
use monitor_queue.Client.Alone.{World, received, settle, Delivers, settle_next, popping_settles}
use monitor_queue.Client.Exchange.{
  to_string-Bare, post_to, received_post, serve_pop, serve_pop_ack, answered_with,
}
use monitor_queue.Client.Leases.{
  Leasing, after_ack, after_pop, verified, Known, patience, msg_payload_some, Drained,
}

module _ (strtod : Str → ℕ × ℕ) (clock draw : ℕ → ℕ) (m offset count : ℕ) (q : Queue)
    (known : Known offset count q) (w : Session World)
    (delivers : Delivers strtod clock draw (patience m) w) where
  -- The requests that pop, from where their handlers do, to what the client takes of the answer
  popped_round :
      (v v' : World) (n : ℕ) (r request : HttpRequest) (body : Option Str) (cell : Cell)
      (caught : Bool)
      → settle strtod clock draw (patience m) v (starting (received (prepare r body)))
        ≡ settle strtod clock draw (suc (suc (suc m))) v' (popping caught)
      → Inv v'.queue
      → ((j : Str) → Drained q v'.queue j)
      → v'.queue.count_queued + n ≡ q.count_queued
      → length v'.queue.msg_map + n ≡ length q.msg_map
      → Steady q v'.queue
      → 1 ≤ v'.queue.count_queued
      → request.method ≡ bytes "POST"
      → (p : Popping) × (v'' : World) × ((do_request strtod w r body cell >>= λ reply.
              verify_reply strtod w offset count request reply)
            v
          ≡ (returns p, v''))
        × Leasing q p v'' (suc n)
        × (p.request ≡ request)
  popped_round v v' n r request body cell caught e i d c l same le post =
      let (v'', id, s, t) = popping_settles strtod clock draw caught m v' i le in
      let tok = to_string (draw v'.turn) in
      let bare = to_string-Bare (draw v'.turn) in
      let (was, others) = after_pop q v'.queue v''.queue id tok d t in
      let fine = known id was.0 was.1 in
      let (o, parse, get_id, get_tok) = msg_payload-from_string strtod id tok fine.0 bare in
      let asked =
        answered_with strtod clock draw (patience m) w delivers r body cell v v''
          (msg_payload id tok) o (e ∙ s) parse (msg_payload_some id tok) in
      (
        record { request = request; reply = whole (object o); id = id; tok = tok },
        v'',
        bind-returns (do_request strtod w r body cell) (verify_reply strtod w offset count request)
              v v'' _ asked
            ∙ verified strtod w offset count request o id tok v'' get_id get_tok fine,
        record {
          inv = t.inv;
          was = was;
          held = t.now_leased;
          others = others;
          count = omega (arith, t.count);
          messages = omega (arith, t.messages);
          steady = (t.steady.0 ∙ same.0, t.steady.1 ∙ same.1);
          bare_id = fine.0;
          bare_tok = bare;
          is_post = post;
        },
        refl,
      )

  pub first_pop_alone :
      (v : World)
      → q ≡ v.queue
      → Inv v.queue
      → 1 ≤ v.queue.count_queued
      → (p : Popping) × (v' : World) × (first_pop strtod w offset count v ≡ (returns p, v'))
        × Leasing q p v' 1
        × (p.request.uri ≡ bytes "/pop_ack")
  unfolding first_pop new_request prepare
  first_pop_alone v same i le =
      let r = new_request (bytes "POST") (bytes "/pop") in
      let request = record (prepare r none) { uri = bytes "/pop_ack" } in
      let v' : World = record { queue = v.queue; turn = suc v.turn } in
      let served =
        settle_next strtod clock draw (suc (suc (suc m))) v (starting (received (prepare r none)))
          (popping false) v.queue refl
          (serve_pop strtod v.queue 0 [] (clock v.turn) (draw v.turn)) in
      let (p, v'', e, l, u) =
        popped_round v v' 0 r request none no_reply false served i
          (λ j. inl (ap (λ q. view q j) (sym same)))
          (omega (arith, ap (λ (q : Queue). q.count_queued) same))
          (omega (arith, ap (λ (q : Queue). length q.msg_map) same))
          (ap (λ (q : Queue). q.capacity) (sym same), ap (λ (q : Queue). q.count_failed) (sym same))
          le refl in
      (p, v'', e, l, ap (λ (r : HttpRequest). r.uri) u)

  next_pop_alone :
      (p : Popping) (v : World) (n : ℕ)
      → Leasing q p v n
      → p.request.uri ≡ bytes "/pop_ack"
      → 1 ≤ v.queue.count_queued
      → (p' : Popping) × (v' : World) × (next_pop strtod w offset count p v ≡ (returns p', v'))
        × Leasing q p' v' (suc n)
        × (p'.request.uri ≡ bytes "/pop_ack")
  unfolding next_pop prepare
  next_pop_alone p v n l u le =
      let body = ack_body p.id p.tok in
      let (q', a, acked) = ack-Acked v.queue p.id p.tok (clock v.turn) l.inv l.held in
      let v' : World = record { queue = q'; turn = suc v.turn } in
      let served =
        ap (λ r. settle strtod clock draw (patience m) v (starting r))
          (received_post (prepare p.request (some body)) (bytes "/pop_ack") l.is_post u)
        ∙ settle_next strtod clock draw (suc (suc (suc m))) v
            (starting (post_to (bytes "/pop_ack") (length body) body)) (popping true) q' refl
            (serve_pop_ack strtod v.queue q' p.id p.tok (clock v.turn) (draw v.turn) l.bare_id
              l.bare_tok a) in
      let (p', v'', e, l', u') =
        popped_round v v' n p.request (prepare p.request (some body)) (some body) p.reply true
          served acked.inv (after_ack q q' p v n l acked) (omega (arith, acked.count, l.count))
          (omega (arith, acked.messages, l.messages))
          (acked.steady.0 ∙ l.steady.0, acked.steady.1 ∙ l.steady.1) (omega (arith, acked.count))
          l.is_post in
      (p', v'', e, l', ap (λ (r : HttpRequest). r.uri) u' ∙ u)

  pub next_pops_alone :
      (k : ℕ) (p : Popping) (v : World) (n : ℕ)
      → Leasing q p v n
      → p.request.uri ≡ bytes "/pop_ack"
      → k + n ≤ q.count_queued
      → (p' : Popping) × (v' : World) × (next_pops strtod w k offset count p v ≡ (returns p', v'))
        × Leasing q p' v' (k + n)
  unfolding next_pops
  next_pops_alone zero p v n l u le =
      let add : n ≡ 0 + n = omega arith in (p, v, refl, subst (Leasing q p v) add l)
  next_pops_alone (suc k) p v n l u le =
      let (p', v', e, l', u') = next_pop_alone p v n l u (omega (arith, l.count)) in
      let (p'', v'', f, l'') = next_pops_alone k p' v' (suc n) l' u' (omega arith) in
      let add : k + suc n ≡ suc k + n = omega arith in
      (
        p'',
        v'',
        bind-returns (next_pop strtod w offset count p) (next_pops strtod w k offset count) v v' p'
              e
            ∙ f,
        subst (Leasing q p'' v'') add l'',
      )
