-- ===== src/Client/Main.antt =====
-- server/mqclient.cpp: the tests that the client runs, with what they print, and main. The times that
-- the two speed tests print are left out.
use monitor_queue.Prelude.{
  ℕ, zero, suc, ◌*◌, none, List, [], ◌∷◌, ◌++◌, Str, str_eq, bytes, ◌==◌, if◌then◌else◌,
}
use monitor_queue.Json.Value.{Members, returns, throws}
use monitor_queue.Json.Object.{Iter, has, iter_string, iter_number, get_number}
use monitor_queue.Json.Double.{to_double, double_eq}
use monitor_queue.Json.Cell.{Cell, cell_object}
use monitor_queue.Client.Defs.{
  HttpRequest, Session, new_request, prepare, M, pure, lift, ◌>>=◌, ◌>>◌, guard, do_request,
  iter_is_number,
}
use monitor_queue.Client.Calls.{no_reply, do_push, do_pop, do_get_failed, do_erase_failed}

-- The end of a test: what it prints, and its exit code.
pub record Verdict : Type 0 where
  pub printed : Str
  pub code : ℕ

abbrev pub passed : Str → Verdict
passed name = record { printed = name ++ bytes "OK\n"; code = 0 }

-- try { … } catch ( exception & e ) { … }
unfoldable pub judge : {S : Type 0} → Str → M S (Unit {0}) → S → Verdict × S
judge name m s =
    let (o, s') = m s in
    (
      elim o [
        | returns _ ↦ passed name
        | throws e ↦ record { printed = name ++ (bytes "FAILED - " ++ (e ++ bytes "\n")); code = 1 }
      ],
      s',
    )

module _ {S : Type 0} where
  -- A field of the reply to a count: there, and a number
  unfoldable pub number_field : Members → Str → M S Iter
  number_field obj key = do
    guard (has obj key).0 (bytes "Response missing '" ++ (key ++ bytes "' field"))
    is_number ← lift (iter_is_number (has obj key).1)
    guard is_number (bytes "'" ++ (key ++ bytes "' has wrong type"))
    pure (has obj key).1

  -- and its value
  unfoldable pub count_field : Members → Str → ℕ → M S (Unit {0})
  count_field obj key expected = do
    at ← number_field obj key
    n ← lift (iter_number at)
    guard (double_eq n (to_double expected)) (bytes "'" ++ (key ++ bytes "' has wrong value"))

  -- testCount, from the reply on
  unfoldable pub check_counts : ℕ → ℕ → Cell → M S (Unit {0})
  check_counts active failed reply = do
    obj ← lift (cell_object reply)
    guard (has obj (bytes "type")).0 (bytes "Response missing 'type' field")
    type ← lift (iter_string (has obj (bytes "type")).1)
    guard (str_eq type (bytes "count")) (bytes "Response has wrong 'type' value")
    _ ← number_field obj (bytes "capacity")
    count_field obj (bytes "active") active
    count_field obj (bytes "failed") failed
    _ ← number_field obj (bytes "free")
    pure tt

  -- testFailureHanding, the counts that it looks for
  unfoldable pub expect_counts : Cell → ℕ → Str → M S (Unit {0})
  expect_counts reply failed suffix = do
    obj ← lift (cell_object reply)
    n ← lift (get_number obj (bytes "failed"))
    guard (double_eq n (to_double failed)) (bytes "Incorrect failed count" ++ suffix)
    m ← lift (get_number obj (bytes "active"))
    guard (double_eq m (to_double 0)) (bytes "Incorrect active count" ++ suffix)

module _ {S : Type 0} (strtod : Str → ℕ × ℕ) (w : Session S) where
  -- testCount
  unfoldable pub test_count : ℕ → ℕ → S → Verdict × S
  test_count active failed = judge (bytes "testCount: ") do
    reply ← do_request strtod w (new_request (bytes "GET") (bytes "/count")) none no_reply
    check_counts active failed reply

  -- testPush, which prints no reason
  unfoldable pub test_push : ℕ → ℕ → S → Verdict × S
  test_push offset count s =
      let (o, s') = do_push strtod w offset count s in
      (
        elim o [
          | returns _ ↦ passed (bytes "testPush: ")
          | throws e ↦ record { printed = bytes "testPush: FAILED\n"; code = 1 }
        ],
        s',
      )

  -- testPop
  unfoldable pub test_pop : ℕ → ℕ → S → Verdict × S
  test_pop offset count = judge (bytes "testPop: ") (do_pop strtod w offset count)

  -- testFailureHanding, a pop that is never acknowledged
  unfoldable pub lose_message : HttpRequest → Cell → M S Cell
  lose_message request reply s =
      let (o, s') = do_request strtod w request none reply s in
      elim o [ throws e ↦ (throws e, s') | returns reply' ↦ (returns reply', w.sleep s' 2) ]

  unfoldable pub test_failure_handling : S → Verdict × S
  test_failure_handling =
      let pop = new_request (bytes "POST") (bytes "/pop") in
      let count = new_request (bytes "GET") (bytes "/count") in
      judge (bytes "testFailureHanding: ") do
        do_push strtod w 0 1
        reply1 ← lose_message pop no_reply
        reply2 ← lose_message (prepare pop none) reply1
        reply3 ← do_request strtod w count none reply2
        expect_counts reply3 1 []
        ids ← do_get_failed strtod w
        do_erase_failed strtod w ids
        reply4 ← do_request strtod w (prepare count none) none reply3
        expect_counts reply4 0 (bytes " after erase")

  -- testPingSpeed, its loop
  unfoldable pub pings : ℕ → HttpRequest → Cell → M S (Unit {0})
  pings zero request reply = pure tt
  pings (suc n) request reply = do
    reply' ← do_request strtod w request none reply
    pings n (prepare request none) reply'

  unfoldable pub test_ping_speed : ℕ → S → Verdict × S
  test_ping_speed rounds =
      judge (bytes "testPingSpeed: ")
        (pings rounds (new_request (bytes "POST") (bytes "/ping")) no_reply)

  -- testPushPopSpeed, its loop from round `j` on
  unfoldable pub push_pops : ℕ → ℕ → M S (Unit {0})
  push_pops zero j = pure tt
  push_pops (suc n) j = do
    do_push strtod w (j * 100) 100
    do_pop strtod w (j * 100) 100
    push_pops n (suc j)

  unfoldable pub test_push_pop_speed : ℕ → S → Verdict × S
  test_push_pop_speed rounds = judge (bytes "testPushPopSpeed: ") (push_pops rounds 0)

  -- The tests of main in their order; the loops of the speed tests run 5000 and 40 rounds.
  unfoldable pub run_tests : List (S → Verdict × S) → ℕ → S → Str × ℕ × S
  run_tests [] ec s = ([], ec, s)
  run_tests (t ∷ ts) ec s =
      let (v, s') = t s in
      let (out, ec', s'') = run_tests ts (if v.code == 0 then ec else 1) s' in
      (v.printed ++ out, ec', s'')

  unfoldable pub main : S → Str × ℕ × S
  main =
      run_tests
        (test_count 0 0
          ∷ test_push 0 100
          ∷ test_count 100 0
          ∷ test_pop 0 100
          ∷ test_count 0 0
          ∷ test_failure_handling
          ∷ test_ping_speed 5000
          ∷ test_push_pop_speed 40
          ∷ [])
        0
