-- ===== src/Client/Passing.antt =====
-- server/mqclient.cpp: tests that pass, one after another.
use monitor_queue.Prelude.{
  ℕ, ◌≡◌, refl, sym, ap, ◌∙◌, subst, List, [], ◌∷◌, arith, Str, bytes, length,
}
use monitor_queue.Queue.Invariant.{Inv}
use monitor_queue.Json.Value.{returns}
use monitor_queue.Client.Defs.{Session}
use monitor_queue.Client.Calls.{do_push, do_pop}
use monitor_queue.Client.Main.{Verdict, test_push, test_pop, run_tests}
use monitor_queue.Client.Alone.{World}
use monitor_queue.Client.Counts.{exit_code, code-judge}

-- A test passes, from one state to another; and tests in their order do.
abbrev pub Passes : {S : Type 0} → (S → Verdict × S) → S → S → Type 0
Passes t s s' = ((t s).0.code ≡ 0) × ((t s).1 ≡ s')

abbrev pub AllPass : {S : Type 0} → List (S → Verdict × S) → S → S → Type 0
AllPass [] s s' = s ≡ s'
AllPass {S} (t ∷ ts) s s' = (x : S) × Passes t s x × AllPass ts x s'

module _ {S : Type 0} (strtod : Str → ℕ × ℕ) (w : Session S) where
  pub all_pass :
      (ts : List (S → Verdict × S)) (s s' : S)
      → AllPass ts s s'
      → let r = run_tests strtod w ts 0 s in (r.1 ≡ 0) × (r.2 ≡ s')
  unfolding run_tests
  all_pass [] s s' h = (refl, h)
  all_pass (t ∷ ts) s s' (x, p, h) = rw (p.0, p.1, run_tests) (all_pass ts x s' h)

  pub test_push-Passes :
      (offset n : ℕ) (s s' : S)
      → do_push strtod w offset n s ≡ (returns tt, s')
      → Passes (test_push strtod w offset n) s s'
  unfolding test_push
  test_push-Passes offset n s s' e = (ground (arith, e), ap (λ x. x.1) e)

  pub test_pop-Passes :
      (offset n : ℕ) (s s' : S)
      → do_pop strtod w offset n s ≡ (returns tt, s')
      → Passes (test_pop strtod w offset n) s s'
  unfolding test_pop
  test_pop-Passes offset n s s' e =
      let judged = code-judge (bytes "testPop: ") (do_pop strtod w offset n) s in
      (judged.0 ∙ ap exit_code e, judged.1 ∙ ap (λ x. x.1) e)

-- What is known of the last state, for the end of a run.
unfoldable pub Ends : Str × ℕ × World → Type 0
Ends (printed, code, v) = (code ≡ 0) × Inv v.queue × (length v.queue.msg_map ≡ 0)

pub run_Ends :
    (r : Str × ℕ × World) (v : World)
    → (r.1 ≡ 0) × (r.2 ≡ v)
    → Inv v.queue
    → length v.queue.msg_map ≡ 0
    → Ends r
unfolding Ends
run_Ends r v (c, e) i h = (
  c,
  subst (λ (x : World). Inv x.queue) (sym e) i,
  ap (λ (x : World). length x.queue.msg_map) e ∙ h,
)
