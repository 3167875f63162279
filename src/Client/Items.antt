-- ===== src/Client/Items.antt =====
-- server/mqclient.cpp and server/QueueServer.cpp: the body of a push, and what `PushRequest` makes of it.
use mathlib.Core.List.{append_assoc}
use monitor_queue.Prelude.{
  ℕ, zero, suc, ◌+◌, ◌%◌, ◌^◌, ◌<◌, ◌≡◌, refl, ap, ◌∙◌, true, false, [], ◌∷◌, ◌++◌, arith, Str,
  str_eq, str_lt, bytes, length, to_string, ◌==◌,
}
use monitor_queue.MsgMap.{find, insert}
use monitor_queue.Queue.State.{Queue}
use monitor_queue.Queue.Defs.{ok, push, get_counts}
use monitor_queue.Queue.Invariant.{Inv}
use monitor_queue.Json.Value.{
  object, array, string, number, Values, nil, cons, member, end, Members, returns, as_object,
  as_array, integer_part, lookup,
}
use monitor_queue.Json.Object.{get_string, get_number, get_value, to_text, to_number, has}
use monitor_queue.Json.Chars.{string_kind, kind}
use monitor_queue.Json.Parse.{from_string}
use monitor_queue.Json.Print.{str_to_string, print_value, print_values}
use monitor_queue.Json.Plain.{stops, ReadsBack, IsPlain, AllPlain}
use monitor_queue.Json.Reread.{from_string-print_value}
use monitor_queue.Server.Defs.{starting, pushing, has_room, read_body, route_map, push_arguments}
use monitor_queue.Server.Handler.{serve, handle_request, endpoint, call_push}
use monitor_queue.Client.Defs.{push_item, push_items, push_body}
use monitor_queue.Client.Bodies.{Bare-printed, escape_all-Bare, dtoa_zero, IsKey-plain}
use monitor_queue.Client.Exchange.{to_string-Bare, post_to, read_chars-length}

-- What the body of `doPush` says
abbrev pub item_members : ℕ → Members
item_members id = member (bytes "id") (string (to_string id)) (member (bytes "pri") (number 0) end)

abbrev pub items : ℕ → ℕ → ℕ → Values
items offset i zero = nil
items offset i (suc n) =
    cons (object (item_members ((offset + i) % 2 ^ 64))) (items offset (suc i) n)

push_items-print_values :
    (lead : Str) (offset i n : ℕ)
    → push_items lead offset i n ≡ print_values dtoa_zero lead (items offset i n)
unfolding push_items push_item print_value str_to_string
push_items-print_values lead offset i zero = refl
push_items-print_values lead offset i (suc n) = simp (
  escape_all-Bare (to_string ((offset + i) % 2 ^ 64)) (to_string-Bare ((offset + i) % 2 ^ 64)),
  push_items-print_values (bytes ",") offset (suc i) n,
  append_assoc,
)

-- `strtod` reads a zero that stands alone.
abbrev pub ReadsZero : (Str → ℕ × ℕ) → Type 0
ReadsZero strtod = (cs : Str) → stops cs ≡ true → strtod (b'0' ∷ cs) ≡ (0, 1)

zero-ReadsBack : (strtod : Str → ℕ × ℕ) → ReadsZero strtod → ReadsBack strtod dtoa_zero 0
unfolding kind
zero-ReadsBack strtod z = record {
  head = b'0';
  rest = [];
  prints = refl;
  is_number = refl;
  reads = z;
}

module _ (strtod : Str → ℕ × ℕ) (z : ReadsZero strtod) where
  items-AllPlain : (offset i n : ℕ) → AllPlain strtod dtoa_zero (items offset i n)
  unfolding IsPlain string_kind str_lt
  items-AllPlain offset i zero = tt
  items-AllPlain offset i (suc n) =
      let id = to_string ((offset + i) % 2 ^ 64) in
      (
        (
          IsKey-plain _ _ (refl, (refl, tt)),
          refl,
          Bare-printed id (to_string-Bare _),
          (IsKey-plain _ _ (refl, (refl, (refl, tt))), tt, zero-ReadsBack strtod z, tt),
        ),
        items-AllPlain offset (suc i) n,
      )

  push_body-from_string :
      (offset n : ℕ) → from_string strtod (push_body offset n) ≡ returns (array (items offset 0 n))
  unfolding push_body print_value IsPlain
  push_body-from_string offset n =
      ap (λ s. from_string strtod (bytes "[" ++ (s ++ bytes "]")))
        (push_items-print_values [] offset 0 n)
      ∙ from_string-print_value strtod dtoa_zero (array (items offset 0 n)) refl
          (items-AllPlain offset 0 n)

  pub serve_push :
      (q : Queue) (offset n now draw : ℕ)
      → let body = push_body offset n in
        serve strtod q (starting (post_to (bytes "/push") (length body) body)) now draw
        ≡ (q, pushing (items offset 0 n))
  unfolding serve handle_request endpoint route_map find insert str_eq str_lt read_body as_array
  serve_push q offset n now draw =
      rw (read_chars-length (push_body offset n), push_body-from_string offset n) refl

module _ (strtod : Str → ℕ × ℕ) where
  pub serve_looks :
      (q : Queue) (id : ℕ) (rest : Values) (now draw : ℕ)
      → Inv q
      → length q.msg_map < q.capacity
      → serve strtod q (pushing (cons (object (item_members id)) rest)) now draw
        ≡ (q, has_room (object (item_members id)) (item_members id) rest)
  unfolding serve as_object get_counts
  serve_looks q id rest now draw v few =
      let e : ((get_counts q).free == 0) ≡ false = ground (arith, v.sized) in rw e refl

  pub serve_item :
      (q q' : Queue) (id : ℕ) (rest : Values) (now draw : ℕ)
      → push q (to_string id) 0 0 now ≡ ok q'
      → serve strtod q (has_room (object (item_members id)) (item_members id) rest) now draw
        ≡ (q', pushing rest)
  unfolding serve push_arguments get_string get_number get_value to_text to_number has lookup str_eq
      call_push integer_part
  serve_item q q' id rest now draw e = rw (e, call_push) refl
