-- ===== src/Client/Whole.antt =====
-- server/mqclient.cpp, main: the tests of pushing and popping, of a client that is alone with a
-- server that holds no message.
use monitor_queue.Prelude.{
  ℕ, zero, suc, ◌+◌, ◌^◌, ◌≤◌, ◌<◌, ◌≡◌, refl, sym, ap, ◌∙◌, subst, inl, inr, none, List, [], ◌∷◌,
  arith, Str, length, to_string, List-cases,
}
use monitor_queue.MsgMap.{find}
use monitor_queue.Queue.State.{Queue}
use monitor_queue.Queue.Defs.{get_counts}
use monitor_queue.Queue.Invariant.{Inv}
use monitor_queue.Queue.Failed.{get_counts-sum}
use monitor_queue.Queue.View.{view}
use monitor_queue.Json.Value.{returns}
use monitor_queue.Json.Double.{to_double}
use monitor_queue.Client.Defs.{Session}
use monitor_queue.Client.Calls.{do_pop}
use monitor_queue.Client.Main.{Verdict, test_count, test_push, test_pop, run_tests}
use monitor_queue.Client.Numbers.{stoi-to_string}
use monitor_queue.Client.Effects.{Steady}
use monitor_queue.Client.Alone.{World, Delivers}
use monitor_queue.Client.Exchange.{to_string-Bare}
use monitor_queue.Client.Items.{ReadsZero}
use monitor_queue.Client.Pushes.{push_turns, Filled, do_push_fills}
use monitor_queue.Client.Counts.{ReadsIntegers, test_count_iff}
use monitor_queue.Client.Leases.{patience, InRange, Known}
use monitor_queue.Client.Pops.{do_pop_drains}
use monitor_queue.Client.Passing.{
  Passes, AllPass, all_pass, test_push-Passes, test_pop-Passes, Ends, run_Ends,
}

pub no_message : (q : Queue) (id : Str) → length q.msg_map ≡ 0 → view q id ≡ none
unfolding view find
no_message q id h = ground (arith, List-cases q.msg_map)

-- The counts of a queue of which no message has failed
no_failures :
    (q : Queue)
    → Inv q
    → q.count_failed ≡ 0
    → ((get_counts q).active ≡ length q.msg_map) × ((get_counts q).failed ≡ 0)
unfolding get_counts
no_failures q i h = (omega (arith, i.within, i.sized), h)

nothing_failed : (q : Queue) → Inv q → length q.msg_map ≡ 0 → q.count_failed ≡ 0
unfolding get_counts
nothing_failed q i h = omega (arith, (get_counts-sum q i).2)

pub pushed-InRange :
    (offset n k : ℕ)
    → offset + n ≤ 2 ^ 31
    → offset ≤ k
    → k < offset + n
    → InRange offset n (to_string k)
pushed-InRange offset n k small le lt =
    (to_string-Bare k, (k, stoi-to_string k (omega arith), ground arith))

Filled-Known :
    (offset n : ℕ) (q q' : Queue)
    → offset + n ≤ 2 ^ 31
    → length q.msg_map ≡ 0
    → Filled offset (offset + n) q q'
    → Known offset n q'
Filled-Known offset n q q' small empty f id k w = elim (f.others id) [
  | inl e ↦ absurd (cc (e, w, no_message q id empty))
  | inr (x, le, lt, e) ↦ subst (InRange offset n) (sym e) (pushed-InRange offset n x small le lt)
]

integers_zero : (strtod : Str → ℕ × ℕ) → ReadsIntegers strtod → ReadsZero strtod
unfolding to_double to_string
integers_zero strtod z cs h = z 0 (omega arith) cs h

push_turns-suc : (n m : ℕ) → (k : ℕ) × (push_turns n m ≡ suc k)
push_turns-suc zero m = (suc m, refl)
push_turns-suc (suc n) m = (suc (push_turns n m), refl)

module _ (strtod : Str → ℕ × ℕ) (clock draw : ℕ → ℕ) where
  test_count-Passes :
      (n m : ℕ) (w : Session World) (v : World)
      → Delivers strtod clock draw (suc (suc m)) w
      → ReadsIntegers strtod
      → Inv v.queue
      → v.queue.capacity < 2 ^ 53
      → length v.queue.msg_map ≡ n
      → v.queue.count_failed ≡ 0
      → (turn : ℕ) × Passes (test_count strtod w n 0) v (record { queue = v.queue; turn = turn })
  test_count-Passes n m w v d z i h e f =
      let counted =
        test_count_iff strtod clock draw n 0 m w v d z i h (omega (arith, i.within))
          (omega arith) in
      let (a, b) = no_failures v.queue i f in
      let turn = (test_count strtod w n 0 v).1.turn in
      (turn, (counted.0.1 (a ∙ e, b), ap (λ q. record { queue = q; turn = turn }) counted.1))

  pop_drains :
      (offset n m : ℕ) (w : Session World) (v : World)
      → Delivers strtod clock draw (suc (push_turns (suc n) m)) w
      → Inv v.queue
      → Known offset (suc n) v.queue
      → suc n ≤ v.queue.count_queued
      → (v' : World) × (do_pop strtod w offset (suc n) v ≡ (returns tt, v'))
        × Inv v'.queue
        × (length v'.queue.msg_map + suc n ≡ length v.queue.msg_map)
        × Steady v.queue v'.queue
  pop_drains offset n m w v d i known le =
      let (k, e) = push_turns-suc n m in
      let more : suc (push_turns (suc n) m) ≡ patience k = ap (λ x. suc (suc (suc x))) e in
      let (v', g, i', c, l, s, rest) =
        do_pop_drains strtod clock draw k offset n w v
          (subst (λ x. Delivers strtod clock draw x w) more d) i known le in
      (v', g, i', l, s)

  -- The tests up to the second count
  fill_passes :
      (offset n m : ℕ) (w : Session World) (v : World)
      → Delivers strtod clock draw (suc (push_turns (suc n) m)) w
      → ReadsIntegers strtod
      → Inv v.queue
      → 0 < length v.queue.queue_list
      → length v.queue.msg_map ≡ 0
      → suc n ≤ v.queue.capacity
      → v.queue.capacity < 2 ^ 53
      → offset + suc n ≤ 2 ^ 64
      → (v' : World) × Filled offset (offset + suc n) v.queue v'.queue
        × ((ts : List (World → Verdict × World)) (x : World)
            → AllPass ts v' x
            → AllPass
                (test_count strtod w 0 0
                  ∷ test_push strtod w offset (suc n)
                  ∷ test_count strtod w (suc n) 0
                  ∷ ts)
                v
                x)
  fill_passes offset n m w v d z i lt empty room small ids =
      let more = suc (push_turns n m) in
      let f = nothing_failed v.queue i empty in
      let (t₁, p₁) = test_count-Passes 0 more w v d z i small empty f in
      let v₁ : World = record { queue = v.queue; turn = t₁ } in
      let (v₂, push, filled) =
        do_push_fills strtod clock draw offset (suc n) m w v₁ d (integers_zero strtod z) i lt
          (λ k le lt. no_message v.queue (to_string k) empty) (omega (arith, empty)) ids in
      let (t₃, p₃) =
        test_count-Passes (suc n) more w v₂ d z filled.inv (omega (arith, filled.steady.0))
          (omega (arith, filled.messages, empty)) (filled.steady.1 ∙ f) in
      let pushed = test_push-Passes strtod w offset (suc n) v₁ v₂ push in
      let v₃ : World = record { queue = v₂.queue; turn = t₃ } in
      (v₃, filled, λ ts x rest. (v₁, p₁, (v₂, pushed, (v₃, p₃, rest))))

  -- The first five tests of `main`, with `n + 1` messages from `offset` on, over a session that
  -- brings each request to the server and the response back as they are, with nobody else at the
  -- server, whose queue has the invariant, a priority 0, room for the messages, and no message:
  -- whatever the clock and the draws, all of them pass, and the queue, which keeps its invariant,
  -- holds no message again. `strtod` reads the integers below 2⁵³, the capacity is such, the ids
  -- fit into an `int`, and the client waits for the turns that the push takes, or for more.
  pub tests_pass :
      (offset n m : ℕ) (w : Session World) (v : World)
      → Delivers strtod clock draw (suc (push_turns (suc n) m)) w
      → ReadsIntegers strtod
      → Inv v.queue
      → 0 < length v.queue.queue_list
      → length v.queue.msg_map ≡ 0
      → suc n ≤ v.queue.capacity
      → v.queue.capacity < 2 ^ 53
      → offset + suc n ≤ 2 ^ 31
      → let tests =
          test_count strtod w 0 0
          ∷ test_push strtod w offset (suc n)
          ∷ test_count strtod w (suc n) 0
          ∷ test_pop strtod w offset (suc n)
          ∷ test_count strtod w 0 0
          ∷ [] in
        let (printed, code, v') = run_tests strtod w tests 0 v in
        (code ≡ 0) × Inv v'.queue × (length v'.queue.msg_map ≡ 0)
  unfolding Ends
  tests_pass offset n m w v d z i lt empty room small ids =
      let (v₃, filled, before) =
        fill_passes offset n m w v d z i lt empty room small (omega arith) in
      let known = Filled-Known offset (suc n) v.queue v₃.queue ids empty filled in
      let (v₄, pop, i₄, gone, same) =
        pop_drains offset n m w v₃ d filled.inv known (omega (arith, filled.count)) in
      let none_left : length v₄.queue.msg_map ≡ 0 = omega (arith, gone, filled.messages, empty) in
      let f₄ = same.1 ∙ filled.steady.1 ∙ nothing_failed v.queue i empty in
      let (t₅, p₅) =
        test_count-Passes 0 (suc (push_turns n m)) w v₄ d z i₄
          (omega (arith, same.0, filled.steady.0)) none_left f₄ in
      let v₅ : World = record { queue = v₄.queue; turn = t₅ } in
      let last = test_pop strtod w offset (suc n) ∷ test_count strtod w 0 0 ∷ [] in
      let popped = test_pop-Passes strtod w offset (suc n) v₃ v₄ pop in
      run_Ends (run_tests strtod w _ 0 v) v₅
        (all_pass strtod w _ v v₅ (before last v₅ (v₄, popped, (v₅, p₅, refl {a = v₅})))) i₄
        none_left
