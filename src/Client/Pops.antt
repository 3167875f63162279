-- ===== src/Client/Pops.antt =====
-- server/mqclient.cpp: doPop of a client that is alone with the server.
use monitor_queue.Prelude.{
  ℕ, suc, ◌+◌, ◌≤◌, ◌≡◌, refl, ap, ◌∙◌, some, [], arith, Str, bytes, length,
}
use monitor_queue.Queue.State.{Queue}
use monitor_queue.Queue.Invariant.{Inv}
use monitor_queue.Json.Value.{returns}
use monitor_queue.Server.Defs.{starting, answers, http_ok, send_response}
use monitor_queue.Client.Defs.{bind-returns, pure, Session, prepare, do_request, ◌>>=◌, ack_body}
use monitor_queue.Client.Calls.{Popping, first_pop, next_pops, last_ack, do_pop}
use monitor_queue.Client.Effects.{Steady, ack-Acked}
use monitor_queue.Client.Alone.{World, settle, Delivers, settle_next, settle_ended}
use monitor_queue.Client.Exchange.{post_to, serve-ack, answered_empty}
use monitor_queue.Client.Leases.{Leasing, after_ack, Known, prepared_ack, patience, Drained}
use monitor_queue.Client.Rounds.{first_pop_alone, next_pops_alone}

module _ (strtod : Str → ℕ × ℕ) (clock draw : ℕ → ℕ) (m offset count : ℕ) (q : Queue)
    (known : Known offset count q) (w : Session World)
    (delivers : Delivers strtod clock draw (patience m) w) where
  last_ack_alone :
      (p : Popping) (v : World) (n : ℕ)
      → Leasing q p v n
      → (v' : World) × (last_ack strtod w p v ≡ (returns tt, v'))
        × Inv v'.queue
        × (v'.queue.count_queued + n ≡ q.count_queued)
        × (length v'.queue.msg_map + n ≡ length q.msg_map)
        × Steady q v'.queue
        × ((j : Str) → Drained q v'.queue j)
  unfolding last_ack prepare
  last_ack_alone p v n l =
      let body = ack_body p.id p.tok in
      let (q', a, acked) = ack-Acked v.queue p.id p.tok (clock v.turn) l.inv l.held in
      let v' : World = record { queue = q'; turn = suc v.turn } in
      let r = record p.request { uri = bytes "/ack" } in
      let served =
        ap (λ r. settle strtod clock draw (patience m) v (starting r))
          (prepared_ack p (bytes "/ack") l.is_post)
        ∙ settle_next strtod clock draw (suc (suc (suc m))) v
            (starting (post_to (bytes "/ack") (length body) body)) (answers [] http_ok) q' refl
            (serve-ack strtod v.queue q' p.id p.tok (clock v.turn) (draw v.turn) l.bare_id
              l.bare_tok a)
        ∙ settle_ended strtod clock draw (suc (suc m)) v' (send_response [] http_ok) in
      (
        v',
        bind-returns (do_request strtod w r (some body) p.reply) (λ c. pure tt) v v' _
            (answered_empty strtod clock draw (patience m) w delivers r (some body) p.reply v v'
              served),
        acked.inv,
        omega (arith, acked.count, l.count),
        omega (arith, acked.messages, l.messages),
        (acked.steady.0 ∙ l.steady.0, acked.steady.1 ∙ l.steady.1),
        after_ack q q' p v n l acked,
      )

module _ (strtod : Str → ℕ × ℕ) (clock draw : ℕ → ℕ) where
  -- The client's `doPop` of `n + 1` messages, over a session that brings each request to the
  -- server and the response back as they are, with nobody else at the server, whose queue has the
  -- invariant and at least as many messages that wait, all that wait with ids of the client's
  -- range: whatever the clock and the draws, it comes to its end with no exception. `n + 1`
  -- messages are gone, each was waiting, and every other message is as it was; the queue keeps its
  -- invariant, its capacity and its count of failed messages. The client waits for four turns of a
  -- handler, or for more.
  pub do_pop_drains :
      (m offset n : ℕ) (w : Session World) (v : World)
      → Delivers strtod clock draw (patience m) w
      → Inv v.queue
      → Known offset (suc n) v.queue
      → suc n ≤ v.queue.count_queued
      → (v' : World) × (do_pop strtod w offset (suc n) v ≡ (returns tt, v'))
        × Inv v'.queue
        × (v'.queue.count_queued + suc n ≡ v.queue.count_queued)
        × (length v'.queue.msg_map + suc n ≡ length v.queue.msg_map)
        × Steady v.queue v'.queue
        × ((id : Str) → Drained v.queue v'.queue id)
  unfolding do_pop
  do_pop_drains m offset n w v d i known le =
      let (p, v₁, e, l, u) =
        first_pop_alone strtod clock draw m offset (suc n) v.queue known w d v refl i
          (omega arith) in
      let (p', v₂, f, l') =
        next_pops_alone strtod clock draw m offset (suc n) v.queue known w d n p v₁ 1 l u
          (omega arith) in
      let (v₃, g, i', c, l'', same, d) =
        last_ack_alone strtod clock draw m offset (suc n) v.queue known w d p' v₂ (n + 1) l' in
      (
        v₃,
        bind-returns (first_pop strtod w offset (suc n))
              (λ a. next_pops strtod w n offset (suc n) a >>= last_ack strtod w) v v₁ p e
            ∙ bind-returns (next_pops strtod w n offset (suc n) p) (last_ack strtod w) v₁ v₂ p' f
            ∙ g,
        i',
        omega arith,
        omega arith,
        same,
        d,
      )
