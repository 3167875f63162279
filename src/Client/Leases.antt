-- ===== src/Client/Leases.antt =====
-- server/mqclient.cpp: the message that `doPop` holds between two rounds.
use monitor_queue.Prelude.{
  ℕ, suc, ◌+◌, ◌%◌, ◌^◌, ◌≡◌, refl, sym, ◌∙◌, subst, ◌⊎◌, inl, inr, true, false, ◌&&◌, none, some,
  arith, Str, str_eq, str_eq_iff, bytes, length, ltb, leb, Bool-cases,
}
use monitor_queue.Queue.State.{Queue}
use monitor_queue.Queue.Invariant.{Inv}
use monitor_queue.Queue.View.{view, leased, waiting}
use monitor_queue.Json.Value.{object, Members, returns, as_object}
use monitor_queue.Json.Object.{get_string}
use monitor_queue.Json.Cell.{whole, cell_object}
use monitor_queue.Server.Defs.{msg_payload}
use monitor_queue.Client.Defs.{HttpRequest, Session, prepare, ack_body, stoi}
use monitor_queue.Client.Calls.{Popping, verify_reply}
use monitor_queue.Client.Bodies.{Bare}
use monitor_queue.Client.Effects.{Steady, Taken, Acked}
use monitor_queue.Client.Alone.{World, received}
use monitor_queue.Client.Exchange.{post_to, received_post}

-- An id that the client knows as one of its own: a number of its range, in characters that JSON
-- leaves as they are.
abbrev pub InRange : ℕ → ℕ → Str → Type 0
InRange offset count id =
    Bare id
    × ((n : ℕ) × (stoi id ≡ returns n) × (leb offset n && ltb n ((offset + count) % 2 ^ 64) ≡ true))

-- Of a message: it is as before, or it was waiting and is gone.
abbrev pub Drained : Queue → Queue → Str → Type 0
Drained q q' id =
    (view q' id ≡ view q id) ⊎ (((k : ℕ) × (view q id ≡ some (waiting k))) × (view q' id ≡ none))

-- Where `doPop` stands between two rounds, after `n` of them from the queue `q` on.
pub record Leasing (q : Queue) (p : Popping) (v : World) (n : ℕ) : Type 0 where
  pub inv : Inv v.queue
  pub was : (k : ℕ) × (view q p.id ≡ some (waiting k))
  pub held : view v.queue p.id ≡ some (leased p.tok)
  pub others : (j : Str) → str_eq p.id j ≡ false → Drained q v.queue j
  pub count : v.queue.count_queued + n ≡ q.count_queued
  pub messages : length v.queue.msg_map + n ≡ suc (length q.msg_map)
  pub steady : Steady q v.queue
  pub bare_id : Bare p.id
  pub bare_tok : Bare p.tok
  pub is_post : p.request.method ≡ bytes "POST"

pub after_ack :
    (q q' : Queue) (p : Popping) (v : World) (n : ℕ)
    → Leasing q p v n
    → Acked v.queue q' p.id
    → (j : Str) → Drained q q' j
after_ack q q' p v n l a j = elim (Bool-cases (str_eq p.id j)) [
  | inl y ↦ subst (Drained q q') ((str_eq_iff p.id j).0 y) (inr (l.was, a.gone))
  | inr ne ↦ elim (l.others j ne) [
    | inl e ↦ inl (a.others j ne ∙ e)
    | inr (w, g) ↦ inr (w, a.others j ne ∙ g)
  ]
]

pub after_pop :
    (q q' q'' : Queue) (id tok : Str)
    → ((j : Str) → Drained q q' j)
    → Taken q' q'' id tok
    → ((k : ℕ) × (view q id ≡ some (waiting k)))
      × ((j : Str) → str_eq id j ≡ false → Drained q q'' j)
after_pop q q' q'' id tok d t = (
  elim (d id) [ inl e ↦ (t.was.0, sym e ∙ t.was.1) | inr (w, g) ↦ absurd (cc (g, t.was.1)) ],
  λ j ne. elim (d j) [ inl e ↦ inl (t.others j ne ∙ e) | inr (w, g) ↦ inr (w, t.others j ne ∙ g) ],
)

pub verified :
    {S : Type 0} (strtod : Str → ℕ × ℕ) (w : Session S) (offset count : ℕ) (request : HttpRequest)
    (o : Members) (id tok : Str) (s : S)
    → get_string o (bytes "id") ≡ returns id
    → get_string o (bytes "tok") ≡ returns tok
    → InRange offset count id
    → verify_reply strtod w offset count request (whole (object o)) s
      ≡ (returns (record { request = request; reply = whole (object o); id = id; tok = tok }), s)
unfolding verify_reply cell_object as_object
verified strtod w offset count request o id tok s e f (b, (n, g, h)) = rw (e, f, g, h) refl

-- The ids that wait are the client's.
abbrev pub Known : ℕ → ℕ → Queue → Type 0
Known offset count q = (id : Str) (k : ℕ) → view q id ≡ some (waiting k) → InRange offset count id

pub prepared_ack :
    (p : Popping) (uri : Str)
    → p.request.method ≡ bytes "POST"
    → let body = ack_body p.id p.tok in
      received (prepare (record p.request { uri = uri }) (some body))
      ≡ post_to uri (length body) body
unfolding prepare
prepared_ack p uri m =
    received_post (prepare (record p.request { uri = uri }) (some (ack_body p.id p.tok))) uri m refl

-- The turns that a request takes here: four, and any more that the client would wait for.
abbrev pub patience : ℕ → ℕ
patience m = suc (suc (suc (suc m)))

pub msg_payload_some : (id tok : Str) → ltb 0 (length (msg_payload id tok)) ≡ true
unfolding msg_payload
msg_payload_some id tok = ground arith
