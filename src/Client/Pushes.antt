-- ===== src/Client/Pushes.antt =====
-- server/mqclient.cpp: doPush of a client that is alone with the server.
use monitor_queue.Prelude.{
  ℕ, zero, suc, ◌+◌, ◌%◌, ◌^◌, ◌≤◌, ◌<◌, ◌≡◌, refl, sym, ap, ◌∙◌, subst, ◌⊎◌, inl, inr, false, none,
  some, [], arith, Str, str_eq, str_eq_iff, bytes, length, to_string, ◌==◌, Bool-cases,
}
use monitor_queue.Queue.State.{Queue}
use monitor_queue.Queue.Invariant.{Inv}
use monitor_queue.Queue.View.{view, waiting}
use monitor_queue.Json.Value.{object, nil, cons, returns}
use monitor_queue.Server.Defs.{starting, pushing, has_room, answers, http_ok, send_response}
use monitor_queue.Server.Handler.{serve}
use monitor_queue.Client.Defs.{
  do_request, bind-returns, pure, Session, prepare, new_request, push_body,
}
use monitor_queue.Client.Calls.{no_reply, do_push}
use monitor_queue.Client.Alone.{World, settle, Delivers, settle_next, settle_ended}
use monitor_queue.Client.Numbers.{to_string_injective}
use monitor_queue.Client.Effects.{Steady, Pushed, push-Pushed}
use monitor_queue.Client.Exchange.{post_to, answered_empty}
use monitor_queue.Client.Items.{items, item_members, serve_push, serve_looks, serve_item, ReadsZero}

-- The turns of `PushRequest` over `n` elements: two each, one more, and any that the client would
-- wait for.
abbrev pub push_turns : ℕ → ℕ → ℕ
push_turns zero m = suc (suc m)
push_turns (suc n) m = suc (suc (push_turns n m))

-- The ids from `a` on, before `b`, have been pushed.
pub record Filled (a b : ℕ) (q q' : Queue) : Type 0 where
  pub inv : Inv q'
  pub count : q'.count_queued + a ≡ q.count_queued + b
  pub messages : length q'.msg_map + a ≡ length q.msg_map + b
  pub steady : Steady q q'
  pub pushed : (k : ℕ) → a ≤ k → k < b → view q' (to_string k) ≡ some (waiting 0)
  pub others :
      (j : Str) → (view q' j ≡ view q j) ⊎ ((k : ℕ) × (a ≤ k) × (k < b) × (j ≡ to_string k))

differ : (i k : ℕ) → i < k → str_eq (to_string i) (to_string k) ≡ false
differ i k lt = elim (Bool-cases (str_eq (to_string i) (to_string k))) [
  | inl y ↦
      absurd (omega (arith, to_string_injective i k ((str_eq_iff (to_string i) (to_string k)).0 y)))
  | inr n ↦ n
]

Filled-suc :
    (a b : ℕ) (q q' q'' : Queue)
    → a < b
    → Pushed q q' (to_string a)
    → Filled (suc a) b q' q''
    → Filled a b q q''
Filled-suc a b q q' q'' lt p f = record {
  inv = f.inv;
  count = omega (arith, f.count, p.count);
  messages = omega (arith, f.messages, p.messages);
  steady = (f.steady.0 ∙ p.steady.0, f.steady.1 ∙ p.steady.1);
  pushed = λ k le lt. elim (Bool-cases (a == k)) [
    | inl y ↦
        let e : a ≡ k = ground arith in
        subst (λ k. view q'' (to_string k) ≡ some (waiting 0)) e
          (elim (f.others (to_string a)) [
            | inl e ↦ e ∙ p.added
            | inr (k, l, m, g) ↦ absurd (omega (arith, to_string_injective a k g))
          ])
    | inr n ↦ f.pushed k (ground arith) lt
  ];
  others = λ j. elim (f.others j) [
    | inr (k, l, m, g) ↦ inr (k, omega arith, m, g)
    | inl e ↦ elim (Bool-cases (str_eq (to_string a) j)) [
      | inl y ↦ inr (a, omega arith, lt, sym ((str_eq_iff (to_string a) j).0 y))
      | inr n ↦ inl (e ∙ p.others j n)
    ]
  ];
}

module _ (strtod : Str → ℕ × ℕ) (clock draw : ℕ → ℕ) where
  pushing_fills :
      (n offset i m : ℕ) (v : World)
      → Inv v.queue
      → 0 < length v.queue.queue_list
      → ((k : ℕ) → offset + i ≤ k → k < offset + i + n → view v.queue (to_string k) ≡ none)
      → length v.queue.msg_map + n ≤ v.queue.capacity
      → offset + i + n ≤ 2 ^ 64
      → (v' : World) × (settle strtod clock draw (push_turns n m) v (pushing (items offset i n))
          ≡ (returns (send_response [] http_ok), v'))
        × Filled (offset + i) (offset + i + n) v.queue v'.queue
  unfolding serve
  pushing_fills zero offset i m v inv lt new room small =
      let v' : World = record { queue = v.queue; turn = suc v.turn } in
      (
        v',
        settle_next strtod clock draw (suc m) v (pushing nil) (answers [] http_ok) v.queue refl refl
            ∙ settle_ended strtod clock draw m v' (send_response [] http_ok),
        record {
          inv = inv;
          count = omega arith;
          messages = omega arith;
          steady = (refl, refl);
          pushed = λ k le lt. absurd (omega arith);
          others = λ j. inl refl;
        },
      )
  pushing_fills (suc n) offset i m v inv lt new room small =
      let x : ℕ = offset + i in
      let wraps : (offset + i) % 2 ^ 64 ≡ x = omega arith in
      let rest = items offset (suc i) n in
      let v₁ : World = record { queue = v.queue; turn = suc v.turn } in
      let (q', e, p) =
        push-Pushed v.queue (to_string x) (clock v₁.turn) inv lt (new x (omega arith) (omega arith))
          (omega arith) in
      let v₂ : World = record { queue = q'; turn = suc v₁.turn } in
      let add : offset + suc i ≡ suc x = omega arith in
      let end : offset + suc i + n ≡ x + suc n = omega arith in
      let (v₃, f, filled) =
        pushing_fills n offset (suc i) m v₂ p.inv (omega (arith, p.buckets))
          (λ k le lt.
            p.others (to_string k) (differ x k (omega arith)) ∙ new k (omega arith) (omega arith))
          (omega (arith, p.messages, p.steady)) (omega arith) in
      (
        v₃,
        ap
              (λ y.
                settle strtod clock draw (push_turns (suc n) m) v
                  (pushing (cons (object (item_members y)) rest)))
              wraps
            ∙ settle_next strtod clock draw (suc (push_turns n m)) v
                (pushing (cons (object (item_members x)) rest))
                (has_room (object (item_members x)) (item_members x) rest) v.queue refl
                (serve_looks strtod v.queue x rest (clock v.turn) (draw v.turn) inv (omega arith))
            ∙ settle_next strtod clock draw (push_turns n m) v₁
                (has_room (object (item_members x)) (item_members x) rest) (pushing rest) q' refl
                (serve_item strtod v.queue q' x rest (clock v₁.turn) (draw v₁.turn) e)
            ∙ f,
        Filled-suc x (x + suc n) v.queue q' v₃.queue (omega arith) p (
            subst (λ a. Filled a (x + suc n) q' v₃.queue) add
              (subst (λ b. Filled (offset + suc i) b q' v₃.queue) end filled)),
      )

  -- The client's `doPush` of `n` messages from `offset` on, over a session that brings each
  -- request to the server and the response back as they are, with nobody else at the server, whose
  -- queue has the invariant, room for them, a priority 0, and no message under their ids: where
  -- `strtod` reads a zero, the ids do not wrap, and the client waits for the handler's turns or
  -- for more, it comes to its end with no exception, whatever the clock and the draws. The
  -- messages wait with priority 0, and every other message is as it was.
  pub do_push_fills :
      (offset n m : ℕ) (w : Session World) (v : World)
      → Delivers strtod clock draw (suc (push_turns n m)) w
      → ReadsZero strtod
      → Inv v.queue
      → 0 < length v.queue.queue_list
      → ((k : ℕ) → offset ≤ k → k < offset + n → view v.queue (to_string k) ≡ none)
      → length v.queue.msg_map + n ≤ v.queue.capacity
      → offset + n ≤ 2 ^ 64
      → (v' : World) × (do_push strtod w offset n v ≡ (returns tt, v'))
        × Filled offset (offset + n) v.queue v'.queue
  unfolding do_push prepare new_request
  do_push_fills offset n m w v d z inv lt new room small =
      let body = push_body offset n in
      let r = new_request (bytes "POST") (bytes "/push") in
      let v₁ : World = record { queue = v.queue; turn = suc v.turn } in
      let (v₂, f, filled) =
        pushing_fills n offset 0 m v₁ inv lt (λ k le lt. new k (omega arith) (omega arith)) room
          (omega arith) in
      let served =
        settle_next strtod clock draw (push_turns n m) v
          (starting (post_to (bytes "/push") (length body) body)) (pushing (items offset 0 n))
          v.queue refl (serve_push strtod z v.queue offset n (clock v.turn) (draw v.turn))
        ∙ f in
      let add : offset + 0 ≡ offset = omega arith in
      (
        v₂,
        bind-returns (do_request strtod w r (some body) no_reply) (λ c. pure tt) v v₂ _
            (answered_empty strtod clock draw (suc (push_turns n m)) w d r (some body) no_reply v v₂
              served),
        subst (λ a. Filled a (a + n) v.queue v₂.queue) add filled,
      )
