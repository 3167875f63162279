-- ===== src/Client/Tests.antt =====
-- The client at concrete sessions. `strtod` reads a decimal number with no sign, point or exponent
-- here.
mod Failing
use monitor_queue.Prelude.{
  str_eq_iff, ℕ, zero, suc, ◌+◌, ◌*◌, ◌-◌, ◌/◌, ◌%◌, ◌≡◌, refl, ap, ap₂, ◌∙◌, subst, inl, inr, true,
  false, [], ◌∷◌, ◌++◌, arith, Str, str_eq, bytes, length, All, to_string, dec_digits, ltb,
  if_cases, if◌then◌else◌, Bool-cases,
}
use monitor_queue.Queue.State.{Queue, new_queue}
use monitor_queue.Queue.Defs.{ok, push, set_error_callback}
use monitor_queue.Queue.History.{pushes, step}
use monitor_queue.Queue.History.Invariant.{step-Inv}
use monitor_queue.Queue.View.Methods.{push-view}
use monitor_queue.Queue.Tests.{opened}
use monitor_queue.Queue.Invariant.{Inv}
use monitor_queue.Json.Value.{returns, throws}
use monitor_queue.Json.Plain.{stops}
use monitor_queue.Json.Double.{to_double}
use monitor_queue.Server.Defs.{starting}
use monitor_queue.Server.Handler.{new_server}
use monitor_queue.Server.Turns.{new_server-Inv}
use monitor_queue.Client.Defs.{Session, is_numeral, read_numerals}
use monitor_queue.Client.Calls.{do_pop, do_erase_failed}
use monitor_queue.Client.Main.{test_count, test_push, test_pop, run_tests}
use monitor_queue.Client.Effects.{Steady}
use monitor_queue.Client.Alone.{World, settle, received, replied, Delivers}
use monitor_queue.Client.Numbers.{read_numerals-to_string}
use monitor_queue.Client.Counts.{ReadsIntegers}
use monitor_queue.Client.Pushes.{push_turns}
use monitor_queue.Client.Leases.{patience, InRange, Known, Drained}
use monitor_queue.Client.Pops.{do_pop_drains}
use monitor_queue.Client.Whole.{tests_pass, pushed-InRange, no_message}
use monitor_queue.Client.Erasing.{EraseEnds, do_erase_failed-EraseEnds}

unfoldable pub count_numerals : Str → ℕ
count_numerals [] = 0
count_numerals (c ∷ cs) = let more = suc (count_numerals cs) in if is_numeral c then more else 0

unfoldable pub strtod_numerals : Str → ℕ × ℕ
strtod_numerals s = (to_double (read_numerals 0 s), count_numerals s)

Numerals : Str → Type 0
Numerals s = All (λ c. is_numeral c ≡ true) s

dec_digits-Numerals : (f n : ℕ) (acc : Str) → Numerals acc → Numerals (dec_digits f n acc)
unfolding dec_digits Numerals
dec_digits-Numerals zero n acc h = h
dec_digits-Numerals (suc f) n acc h =
    let d : is_numeral (48 + n % 10) ≡ true = ground arith in
    if_cases Numerals (ltb n 10) (λ _. (d, h))
      (λ _. dec_digits-Numerals f (n / 10) ((48 + n % 10) ∷ acc) (d, h))

numerals_stop :
    (n : ℕ) (cs : Str) → stops cs ≡ true → (read_numerals n cs ≡ n) × (count_numerals cs ≡ 0)
unfolding read_numerals count_numerals
numerals_stop n [] h = (refl, refl)
numerals_stop n (c ∷ cs) h =
    let e : is_numeral c ≡ false = ground arith in (ground (arith, e), ground (arith, e))

Numerals-append :
    (n : ℕ) (s cs : Str)
    → Numerals s
    → stops cs ≡ true
    → (read_numerals n (s ++ cs) ≡ read_numerals n s) × (count_numerals (s ++ cs) ≡ length s)
unfolding read_numerals count_numerals Numerals
Numerals-append n [] cs h k = numerals_stop n cs k
Numerals-append n (c ∷ s) cs h k =
    let (a, b) = Numerals-append (n * 10 + (c - b'0')) s cs h.1 k in (rw h.0 a, rw h.0 (ap suc b))

strtod_numerals-ReadsIntegers : ReadsIntegers strtod_numerals
unfolding strtod_numerals to_string Numerals
strtod_numerals-ReadsIntegers n lt cs h =
    let (a, b) = Numerals-append 0 (to_string n) cs (dec_digits-Numerals (suc n) n [] tt) h in
    ap₂ (λ x y. (to_double x, y)) (a ∙ read_numerals-to_string n) b

-- A session with nobody else at the server; the clock and the draws count the turns.
abbrev alone : ℕ → Session World
alone patience = record {
  send = λ v r.
      let (o, v') = settle strtod_numerals (λ t. t) (λ t. t) patience v (starting (received r)) in
      (replied o, v');
  sleep = λ v seconds. v;
}

alone-Delivers : (n : ℕ) → Delivers strtod_numerals (λ t. t) (λ t. t) n (alone n)
alone-Delivers n v r = refl

abbrev fresh : World
fresh = record { queue = new_server 3 4 1 2 1 5; turn = 0 }

do_erase_failed-EraseEnds_example :
    EraseEnds
      (bytes "5" ∷ bytes "6" ∷ [])
      fresh
      (do_erase_failed strtod_numerals (alone 2) (bytes "5" ∷ bytes "6" ∷ []) fresh)
do_erase_failed-EraseEnds_example =
    do_erase_failed-EraseEnds strtod_numerals (λ t. t) (λ t. t) (bytes "5" ∷ bytes "6" ∷ []) 0
      (alone 2) fresh (alone-Delivers 2) ((refl, tt), ((refl, tt), tt))

tests_pass_example :
    let w = alone (suc (push_turns 2 0)) in
    let tests =
      test_count strtod_numerals w 0 0
      ∷ test_push strtod_numerals w 5 2
      ∷ test_count strtod_numerals w 2 0
      ∷ test_pop strtod_numerals w 5 2
      ∷ test_count strtod_numerals w 0 0
      ∷ [] in
    let (printed, code, v') = run_tests strtod_numerals w tests 0 fresh in
    (code ≡ 0) × Inv v'.queue × (length v'.queue.msg_map ≡ 0)
unfolding new_server new_queue set_error_callback
tests_pass_example =
    tests_pass strtod_numerals (λ t. t) (λ t. t) 5 1 0 (alone (suc (push_turns 2 0))) fresh
      (alone-Delivers (suc (push_turns 2 0))) strtod_numerals-ReadsIntegers
      (new_server-Inv 3 4 1 2 1 5 (omega arith)) (omega arith) refl (omega arith) (omega arith)
      (omega arith)

-- One message waits.
abbrev one : Queue
one = step fresh.queue (pushes (to_string 5) 0 0 1)

one_pushed : push fresh.queue (to_string 5) 0 0 1 ≡ ok one
unfolding opened new_server
one_pushed = refl

fresh-Inv : Inv fresh.queue
fresh-Inv = new_server-Inv 3 4 1 2 1 5 (omega arith)

one-Known : Known 5 1 one
unfolding new_server new_queue set_error_callback
one-Known id k w =
    let same = (push-view fresh.queue (to_string 5) id 0 0 1 fresh-Inv one_pushed).1 in
    elim (Bool-cases (str_eq (to_string 5) id)) [
      | inl y ↦
          subst (InRange 5 1) ((str_eq_iff (to_string 5) id).0 y)
            (pushed-InRange 5 1 5 (omega arith) (omega arith) (omega arith))
      | inr n ↦ absurd (ground (arith, same, no_message fresh.queue id refl))
    ]

abbrev loaded_world : World
loaded_world = record { queue = one; turn = 0 }

do_pop_drains_example :
    (v' : World) × (do_pop strtod_numerals (alone 4) 5 1 loaded_world ≡ (returns tt, v'))
    × Inv v'.queue
    × (v'.queue.count_queued + 1 ≡ one.count_queued)
    × (length v'.queue.msg_map + 1 ≡ length one.msg_map)
    × Steady one v'.queue
    × ((id : Str) → Drained one v'.queue id)
unfolding opened new_server
do_pop_drains_example =
    do_pop_drains strtod_numerals (λ t. t) (λ t. t) 0 5 0 (alone 4) loaded_world (alone-Delivers 4)
      (step-Inv fresh.queue (pushes (to_string 5) 0 0 1) fresh-Inv) one-Known (omega arith)
