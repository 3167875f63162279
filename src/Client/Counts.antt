-- ===== src/Client/Counts.antt =====
-- server/mqclient.cpp: testCount of a client that is alone with the server.
use mathlib.Core.List.{append_assoc}
use monitor_queue.Prelude.{
  ℕ, suc, ◌^◌, ◌<◌, ◌≡◌, ◌↔◌, refl, sym, ap, ◌∙◌, subst, true, none, some, [], ◌∷◌, ◌++◌, arith,
  Str, str_eq, str_lt, bytes, length, to_string, ltb,
}
use monitor_queue.MsgMap.{find, insert}
use monitor_queue.Queue.State.{Queue}
use monitor_queue.Queue.Defs.{Counts, get_counts, get_capacity}
use monitor_queue.Queue.Invariant.{Inv}
use monitor_queue.Queue.Failed.{get_counts-sum}
use monitor_queue.Json.Value.{
  object, string, number, Members, member, end, set, Outcome, returns, throws, as_object,
  integer_part, lookup,
}
use monitor_queue.Json.Object.{has, iter_string, iter_number, to_text, to_number}
use monitor_queue.Json.Chars.{string_kind, kind, numeric}
use monitor_queue.Json.Parse.{from_string}
use monitor_queue.Json.Print.{escape_all, escape_char, str_to_string, print_value}
use monitor_queue.Json.Plain.{stops, ReadsBack, IsPlain, Loads, load_members}
use monitor_queue.Json.Reread.{from_string-print_members}
use monitor_queue.Json.Double.{to_double, double_eq-to_double, integer_part-to_double}
use monitor_queue.Json.Cell.{whole, cell_object}
use monitor_queue.Server.Defs.{
  Request, starting, answers, http_ok, send_response, count_payload, route_map,
}
use monitor_queue.Server.Handler.{serve, handle_request, endpoint}
use monitor_queue.Client.Defs.{
  bind-returns, Session, M, ◌>>=◌, prepare, new_request, do_request, iter_is_number, is_numeral,
}
use monitor_queue.Client.Calls.{no_reply}
use monitor_queue.Client.Main.{judge, number_field, count_field, check_counts, test_count}
use monitor_queue.Client.Bodies.{IsKey-plain}
use monitor_queue.Client.Alone.{World, Delivers, settle_next, settle_ended}
use monitor_queue.Client.Numbers.{Leads, to_string-Leads}
use monitor_queue.Client.Exchange.{answered_with}

-- The printer of doubles, at those that are integers
abbrev pub dtoa_integer : ℕ → Str
dtoa_integer x = to_string (integer_part x)

-- `strtod` reads the integers that a double holds exactly.
abbrev pub ReadsIntegers : (Str → ℕ × ℕ) → Type 0
ReadsIntegers strtod =
    (n : ℕ)
    → n < 2 ^ 53
    → (cs : Str) → stops cs ≡ true
    → strtod (to_string n ++ cs) ≡ (to_double n, length (to_string n))

Leads-cases : (s : Str) → Leads s → (c : ℕ) × (cs : Str) × (s ≡ c ∷ cs) × (is_numeral c ≡ true)
Leads-cases [] h = absurd h
Leads-cases (c ∷ cs) h = (c, cs, refl, h)

numeral_numeric : (c : ℕ) → is_numeral c ≡ true → kind c ≡ numeric
unfolding kind
numeral_numeric c h = ground arith

integer-ReadsBack :
    (strtod : Str → ℕ × ℕ) (n : ℕ)
    → ReadsIntegers strtod
    → n < 2 ^ 53
    → ReadsBack strtod dtoa_integer (to_double n)
integer-ReadsBack strtod n z lt =
    let (c, cs, e, d) = Leads-cases (to_string n) (to_string-Leads n) in
    let same : dtoa_integer (to_double n) ≡ to_string n =
      ap to_string (integer_part-to_double n lt) in
    record {
      head = c;
      rest = cs;
      prints = same ∙ e;
      is_number = numeral_numeric c d;
      reads =
          λ ds h. subst (λ s. strtod (s ++ ds) ≡ (to_double n, length s)) (sym same) (z n lt ds h);
    }

count_members : ℕ → Counts → Members
count_members capacity c = member (bytes "type") (string (bytes "count")) (
    member (bytes "capacity") (number (to_double capacity)) (
      member (bytes "active") (number (to_double c.active)) (
        member (bytes "failed") (number (to_double c.failed))
          (member (bytes "free") (number (to_double c.free)) end))))

count_payload-print_value :
    (capacity : ℕ) (c : Counts)
    → capacity < 2 ^ 53
    → c.active < 2 ^ 53
    → c.failed < 2 ^ 53
    → c.free < 2 ^ 53
    → count_payload capacity c ≡ print_value dtoa_integer (object (count_members capacity c))
unfolding count_payload print_value str_to_string escape_all escape_char count_members
count_payload-print_value capacity c h i j k = simp (
  integer_part-to_double capacity h,
  integer_part-to_double c.active i,
  integer_part-to_double c.failed j,
  integer_part-to_double c.free k,
  append_assoc,
)

-- What the server's answer parses to
loaded : ℕ → Counts → Members
loaded capacity c = load_members end (count_members capacity c)

-- The exit code of a test, of what it comes to
abbrev pub exit_code : {S : Type 0} → Outcome (Unit {0}) × S → ℕ
exit_code r = elim r.0 [ returns a ↦ 0 | throws e ↦ 1 ]

pub code-judge :
    {S : Type 0} (name : Str) (m : M S (Unit {0})) (s : S)
    → ((judge name m s).0.code ≡ exit_code (m s)) × ((judge name m s).1 ≡ (m s).1)
unfolding judge
code-judge name m s = (ground arith, refl)

check_counts_lem :
    {S : Type 0} (active failed capacity : ℕ) (c : Counts) (s : S)
    → active < 2 ^ 53
    → failed < 2 ^ 53
    → c.active < 2 ^ 53
    → c.failed < 2 ^ 53
    → let r = check_counts active failed (whole (object (loaded capacity c))) s in
      ((exit_code r ≡ 0) ↔ ((c.active ≡ active) × (c.failed ≡ failed))) × (r.1 ≡ s)
unfolding check_counts number_field count_field iter_is_number iter_string iter_number to_text
    to_number has lookup loaded count_members load_members set str_lt str_eq cell_object as_object
check_counts_lem active failed capacity c s h i j k =
    let a = double_eq-to_double c.active active j h in
    let f = double_eq-to_double c.failed failed k i in
    (
      (λ e. (ground (arith, a, f), ground (arith, a, f)), λ e. ground (arith, a, f)),
      ground (arith, a, f),
    )

count_payload-from_string :
    (strtod : Str → ℕ × ℕ) (capacity : ℕ) (c : Counts)
    → ReadsIntegers strtod
    → capacity < 2 ^ 53
    → c.active < 2 ^ 53
    → c.failed < 2 ^ 53
    → c.free < 2 ^ 53
    → from_string strtod (count_payload capacity c) ≡ returns (object (loaded capacity c))
unfolding IsPlain Loads string_kind loaded count_members
count_payload-from_string strtod capacity c z h i j k =
    ap (from_string strtod) (count_payload-print_value capacity c h i j k)
    ∙ from_string-print_members strtod dtoa_integer (count_members capacity c) (
      IsKey-plain _ _ (refl, (refl, (refl, (refl, tt)))),
      (refl, (refl, (refl, (refl, (refl, tt))))),
      (
        IsKey-plain _ _ (refl, (refl, (refl, (refl, (refl, (refl, (refl, (refl, tt)))))))),
        integer-ReadsBack strtod capacity z h,
        (
          IsKey-plain _ _ (refl, (refl, (refl, (refl, (refl, (refl, tt)))))),
          integer-ReadsBack strtod c.active z i,
          (
            IsKey-plain _ _ (refl, (refl, (refl, (refl, (refl, (refl, tt)))))),
            integer-ReadsBack strtod c.failed z j,
            (
              IsKey-plain _ _ (refl, (refl, (refl, (refl, tt)))),
              integer-ReadsBack strtod c.free z k,
              tt,
            ),
          ),
        ),
      ),
    )

count_payload_some : (capacity : ℕ) (c : Counts) → ltb 0 (length (count_payload capacity c)) ≡ true
unfolding count_payload
count_payload_some capacity c = ground arith

abbrev get_from : Str → Request
get_from path = record { method = bytes "GET"; path = path; content_length = some 0; stream = [] }

serve_count :
    (strtod : Str → ℕ × ℕ) (q : Queue) (now draw : ℕ)
    → serve strtod q (starting (get_from (bytes "/count"))) now draw
      ≡ (q, answers (count_payload (get_capacity q) (get_counts q)) http_ok)
unfolding serve handle_request endpoint route_map find insert str_eq str_lt
serve_count strtod q now draw = refl

module _ (strtod : Str → ℕ × ℕ) (clock draw : ℕ → ℕ) where
  -- The client's `testCount`, over a session that brings each request to the server and the
  -- response back as they are, with nobody else at the server, whose queue has the invariant: it
  -- passes exactly when the counts that it is given are the queue's, and leaves the queue as it
  -- is, where `strtod` reads the integers below 2⁵³, the capacity and the given counts are such,
  -- and the client waits for two turns or more.
  pub test_count_iff :
      (active failed m : ℕ) (w : Session World) (v : World)
      → Delivers strtod clock draw (suc (suc m)) w
      → ReadsIntegers strtod
      → Inv v.queue
      → v.queue.capacity < 2 ^ 53
      → active < 2 ^ 53
      → failed < 2 ^ 53
      → let (t, v') = test_count strtod w active failed v in
        let c = get_counts v.queue in
        ((t.code ≡ 0) ↔ ((c.active ≡ active) × (c.failed ≡ failed))) × (v'.queue ≡ v.queue)
  unfolding test_count prepare new_request get_capacity
  test_count_iff active failed m w v d z i h j k =
      let c = get_counts v.queue in
      let sum = get_counts-sum v.queue i in
      let r = new_request (bytes "GET") (bytes "/count") in
      let payload = count_payload v.queue.capacity c in
      let v₁ : World = record { queue = v.queue; turn = suc v.turn } in
      let small : (c.active < 2 ^ 53) × (c.failed < 2 ^ 53) × (c.free < 2 ^ 53) =
        omega (arith, sum.0) in
      let served =
        settle_next strtod clock draw (suc m) v (starting (get_from (bytes "/count")))
          (answers payload http_ok) v.queue refl
          (serve_count strtod v.queue (clock v.turn) (draw v.turn))
        ∙ settle_ended strtod clock draw m v₁ (send_response payload http_ok) in
      let asked =
        answered_with strtod clock draw (suc (suc m)) w d r none no_reply v v₁ payload
          (loaded v.queue.capacity c) served
          (count_payload-from_string strtod v.queue.capacity c z h small.0 small.1 small.2)
          (count_payload_some v.queue.capacity c) in
      let checked = check_counts_lem active failed v.queue.capacity c v₁ j k small.0 small.1 in
      let body =
        λ (s : World). (do_request strtod w r none no_reply >>= check_counts active failed) s in
      let judged = code-judge (bytes "testCount: ") body v in
      let same =
        bind-returns (do_request strtod w r none no_reply) (check_counts active failed) v v₁ _
          asked in
      let code = judged.0 ∙ ap exit_code same in
      (
        (λ e. checked.0.0 (sym code ∙ e), λ e. code ∙ checked.0.1 e),
        ap (λ (w : World). w.queue) (judged.1 ∙ ap (λ x. x.1) same ∙ checked.1),
      )
