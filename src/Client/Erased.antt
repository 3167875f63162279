-- ===== src/Client/Erased.antt =====
-- server/mqclient.cpp and server/QueueServer.cpp: what the server makes of the ids that are to be
-- erased, and the client of the answer.
use mathlib.Core.List.{append_assoc}
use monitor_queue.Prelude.{
  ℕ, ◌≡◌, refl, ap, ◌∙◌, List, [], ◌∷◌, Str, str_eq, str_lt, bytes, length, All, if_cases,
}
use monitor_queue.MsgMap.{find, insert}
use monitor_queue.Queue.State.{Queue}
use monitor_queue.Queue.Defs.{erase_one, erase_all, erase_failed}
use monitor_queue.Json.Value.{
  object, string, array, Values, nil, cons, Members, member, end, returns, as_array, as_string,
}
use monitor_queue.Json.Chars.{string_kind}
use monitor_queue.Json.Parse.{from_string}
use monitor_queue.Json.Print.{str_to_string, escape_all, escape_char, print_value, print_values}
use monitor_queue.Json.Plain.{IsPlain, AllPlain, Loads}
use monitor_queue.Json.Reread.{from_string-print_value, from_string-print_members}
use monitor_queue.Server.Defs.{
  starting, answers, read_body, route_map, string_elements, erased_payload, quote_ids, http_ok,
}
use monitor_queue.Server.Handler.{serve, handle_request, endpoint}
use monitor_queue.Client.Defs.{erase_items, erase_body}
use monitor_queue.Client.Bodies.{Bare, Bare-printed, escape_all-Bare, dtoa_zero, IsKey-plain}
use monitor_queue.Client.Exchange.{post_to, read_chars-length}

abbrev pub AllBare : List Str → Type 0
AllBare ids = All Bare ids

abbrev pub strings : List Str → Values
strings [] = nil
strings (id ∷ ids) = cons (string id) (strings ids)

erase_all-AllBare : (q : Queue) (ids : List Str) → AllBare ids → AllBare (erase_all q ids).0
unfolding erase_all
erase_all-AllBare q [] h = tt
erase_all-AllBare q (id ∷ ids) h =
    let q' = (erase_one q id).1 in
    if_cases AllBare (erase_one q id).0 (λ _. (h.0, erase_all-AllBare q' ids h.1))
      (λ _. erase_all-AllBare q' ids h.1)

pub erase_failed-AllBare :
    (q : Queue) (ids : List Str) → AllBare ids → AllBare (erase_failed q ids).0
unfolding erase_failed
erase_failed-AllBare q ids h = erase_all-AllBare q ids h

quote_ids-print_values :
    (lead : Str) (ids : List Str)
    → AllBare ids
    → quote_ids lead ids ≡ print_values dtoa_zero lead (strings ids)
unfolding quote_ids print_value str_to_string
quote_ids-print_values lead [] h = refl
quote_ids-print_values lead (id ∷ ids) h =
    simp (escape_all-Bare id h.0, quote_ids-print_values (bytes ",") ids h.1, append_assoc)

erased_members : List Str → Members
erased_members ids =
    member (bytes "type") (string (bytes "erased")) (member (bytes "ids") (array (strings ids)) end)

erased_payload-print_value :
    (ids : List Str)
    → AllBare ids
    → erased_payload ids ≡ print_value dtoa_zero (object (erased_members ids))
unfolding erased_payload print_value str_to_string escape_all escape_char erased_members
erased_payload-print_value ids h = simp (quote_ids-print_values [] ids h, append_assoc)

module _ (strtod : Str → ℕ × ℕ) where
  strings-AllPlain : (ids : List Str) → AllBare ids → AllPlain strtod dtoa_zero (strings ids)
  unfolding IsPlain
  strings-AllPlain [] h = tt
  strings-AllPlain (id ∷ ids) h = (Bare-printed id h.0, strings-AllPlain ids h.1)

  pub erased_payload-from_string :
      (ids : List Str)
      → AllBare ids
      → (o : Members) × (from_string strtod (erased_payload ids) ≡ returns (object o))
  unfolding IsPlain Loads string_kind erased_members
  erased_payload-from_string ids h = (
    _,
    ap (from_string strtod) (erased_payload-print_value ids h)
        ∙ from_string-print_members strtod dtoa_zero (erased_members ids) (
          IsKey-plain _ _ (refl, (refl, (refl, (refl, tt)))),
          (refl, (refl, (refl, (refl, (refl, (refl, tt)))))),
          (IsKey-plain _ _ (refl, (refl, (refl, tt))), strings-AllPlain ids h, tt),
        ),
  )

  string_elements-strings : (ids : List Str) → string_elements (strings ids) ≡ returns ids
  unfolding string_elements as_string
  string_elements-strings [] = refl
  string_elements-strings (id ∷ ids) = rw (string_elements-strings ids) refl

  -- A body that is read as an array of strings
  pub serve_erases :
      (q : Queue) (body : Str) (ids : List Str) (now draw : ℕ)
      → from_string strtod body ≡ returns (array (strings ids))
      → serve strtod q (starting (post_to (bytes "/failed/erase") (length body) body)) now draw
        ≡ ((erase_failed q ids).1, answers (erased_payload (erase_failed q ids).0) http_ok)
  unfolding serve handle_request endpoint route_map find insert str_eq str_lt read_body as_array
  serve_erases q body ids now draw h =
      rw (read_chars-length body, h, string_elements-strings ids) refl

  pub erase_body_none : from_string strtod (erase_body []) ≡ returns (array (strings []))
  unfolding erase_body erase_items print_value IsPlain
  erase_body_none = from_string-print_value strtod dtoa_zero (array nil) refl tt

  pub erase_body_one :
      (a : Str)
      → Bare a
      → from_string strtod (erase_body (a ∷ [])) ≡ returns (array (strings (a ∷ [])))
  unfolding erase_body erase_items print_value str_to_string IsPlain
  erase_body_one a h =
      let vs = array (cons (string a) nil) in
      let e : erase_body (a ∷ []) ≡ print_value dtoa_zero vs =
        simp (escape_all-Bare a h, append_assoc) in
      ap (from_string strtod) e
      ∙ from_string-print_value strtod dtoa_zero vs refl (strings-AllPlain (a ∷ []) (h, tt))
