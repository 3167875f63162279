-- ===== src/Client/Erasing.antt =====
-- server/mqclient.cpp: doEraseFailed of a client that is alone with the server.
use mathlib.Core.List.{append_assoc}
use monitor_queue.Prelude.{
  true, ltb, ℕ, suc, ◌+◌, ◌-◌, ◌*◌, ◌<◌, ◌≡◌, refl, ap, ◌∙◌, subst, some, List, [], ◌∷◌, ◌++◌,
  arith, Str, str_eq, str_lt, bytes, length, length-append, to_string,
}
use monitor_queue.MsgMap.{find, insert}
use monitor_queue.Queue.State.{Queue}
use monitor_queue.Json.Value.{Outcome, null, string, array, nil, returns, throws}
use monitor_queue.Json.Chars.{fails, bind, kind, invalid_char}
use monitor_queue.Json.Parse.{
  seek_item, seek_beg, seek_arr_end, parse_array, parse_text, text_fuel, from_string,
}
use monitor_queue.Json.Print.{str_to_string, escape_all, print_value}
use monitor_queue.Json.Plain.{IsPlain}
use monitor_queue.Json.RoundTrip.{item_round, parse_value-string}
use monitor_queue.Json.Cell.{Cell}
use monitor_queue.Server.Defs.{
  answers, erased_payload, http_ok, starting, bad_request, read_body, route_map, error_payload,
  http_bad_request, send_response,
}
use monitor_queue.Server.Handler.{serve, handle_request, endpoint}
use monitor_queue.Client.Defs.{
  bind-returns, pure, do_request, Session, prepare, new_request, read_reply, erase_items,
  erase_body,
}
use monitor_queue.Client.Calls.{no_reply, do_erase_failed}
use monitor_queue.Queue.Defs.{erase_failed}
use monitor_queue.Client.Erased.{
  AllBare, strings, erase_failed-AllBare, erased_payload-from_string, serve_erases, erase_body_none,
  erase_body_one,
}
use monitor_queue.Client.Bodies.{Bare, Bare-printed, escape_all-Bare, dtoa_zero}
use monitor_queue.Client.Alone.{World, replied, Delivers, settle_next, settle_ended}
use monitor_queue.Client.Exchange.{answered_with, post_to, read_chars-length, do_request_reply}

erase_body-quotes :
    (a b : Str) (ids : List Str)
    → Bare a
    → (rest : Str) × (erase_body (a ∷ b ∷ ids)
        ≡ b'[' ∷ (print_value dtoa_zero (string a) ++ 34 ∷ rest))
unfolding erase_body erase_items print_value str_to_string
erase_body-quotes a b ids h =
    (b ++ (bytes "\"" ++ (erase_items ids ++ bytes "]")), simp (escape_all-Bare a h, append_assoc))

module _ (strtod : Str → ℕ × ℕ) where
  comma_missing :
      (f : ℕ) (start a rest : Str)
      → Bare a
      → suc (suc (length a)) < f
      → parse_array strtod f seek_item start nil (print_value dtoa_zero (string a) ++ 34 ∷ rest)
        ≡ fails invalid_char (34 ∷ rest)
  unfolding parse_array kind IsPlain print_value
  comma_missing (suc (suc (suc f))) start a rest h lt =
      item_round strtod dtoa_zero (suc (suc f)) start nil (string a) (34 ∷ rest) (Bare-printed a h)
        (λ s.
          parse_value-string strtod dtoa_zero (suc f) s a (34 ∷ rest) (omega arith)
            (Bare-printed a h))
  comma_missing f start a rest h lt = absurd (omega arith)

  from_string-fails :
      (cs msg at : Str)
      → parse_text strtod (text_fuel cs) seek_beg null cs ≡ fails msg at
      → (e : Str) × (from_string strtod cs ≡ throws e)
  unfolding from_string
  from_string-fails cs msg at h =
      (msg ++ bytes " at position " ++ to_string (length cs - length at), rw (h, from_string) refl)

  erase_body-refused :
      (a b : Str) (ids : List Str)
      → Bare a
      → (e : Str) × (from_string strtod (erase_body (a ∷ b ∷ ids)) ≡ throws e)
  unfolding parse_text kind print_value str_to_string
  erase_body-refused a b ids h =
      let (rest, same) = erase_body-quotes a b ids h in
      let item = print_value dtoa_zero (string a) ++ 34 ∷ rest in
      let text = b'[' ∷ item in
      let f : ℕ = 3 * length text + 3 in
      let fuel : suc f ≡ text_fuel text = omega arith in
      let missing = comma_missing f item a rest h (
        omega (
          arith,
          length-append (print_value dtoa_zero (string a)) (34 ∷ rest),
          length-append (escape_all a) (34 ∷ []),
          ap length (escape_all-Bare a h),
        )) in
      let (e, t) = from_string-fails text invalid_char (34 ∷ rest) (
        subst (λ n. parse_text strtod n seek_beg null text ≡ fails invalid_char (34 ∷ rest)) fuel
          (ap (λ r. bind r (λ vs rest. parse_text strtod f seek_arr_end (array vs) rest))
            missing)) in
      (e, ap (from_string strtod) same ∙ t)

  serve_erase :
      (q : Queue) (body e : Str) (now draw : ℕ)
      → from_string strtod body ≡ throws e
      → serve strtod q (starting (post_to (bytes "/failed/erase") (length body) body)) now draw
        ≡ (q, bad_request e)
  unfolding serve handle_request endpoint route_map find insert str_eq str_lt read_body
  serve_erase q body e now draw h = rw (read_chars-length body, h) refl

  read_reply-refused :
      (e : Str) (cell : Cell)
      → let body = error_payload e in
        read_reply strtod
          (record { status = http_bad_request; content_length = some (length body); stream = body })
          cell
        ≡ throws (bytes "Request failed: " ++ body)
  unfolding read_reply error_payload
  read_reply-refused e cell = rw (read_chars-length (error_payload e)) (ground arith)

erased_payload_some : (ids : List Str) → ltb 0 (length (erased_payload ids)) ≡ true
unfolding erased_payload
erased_payload_some ids = ground arith

-- How the call for some ids ends, from a world, with its outcome and the world that it leaves.
abbrev pub EraseEnds : List Str → World → Outcome (Unit {0}) × World → Type 0
EraseEnds [] v (o, v') = (o ≡ returns tt) × (v'.queue ≡ (erase_failed v.queue []).1)
EraseEnds (a ∷ []) v (o, v') = (o ≡ returns tt) × (v'.queue ≡ (erase_failed v.queue (a ∷ [])).1)
EraseEnds (a ∷ b ∷ ids) v (o, v') = ((e : Str) × (o ≡ throws e)) × (v'.queue ≡ v.queue)

module _ (strtod : Str → ℕ × ℕ) (clock draw : ℕ → ℕ) where
  do_erase_failed_refused :
      (a b : Str) (ids : List Str) (m : ℕ) (w : Session World) (v : World)
      → Delivers strtod clock draw (suc (suc m)) w
      → Bare a
      → (e : Str) × (v' : World) × (do_erase_failed strtod w (a ∷ b ∷ ids) v ≡ (throws e, v'))
        × (v'.queue ≡ v.queue)
  unfolding do_erase_failed prepare new_request send_response
  do_erase_failed_refused a b ids m w v d h =
      let body = erase_body (a ∷ b ∷ ids) in
      let r = new_request (bytes "POST") (bytes "/failed/erase") in
      let (e, t) = erase_body-refused strtod a b ids h in
      let v' : World = record { queue = v.queue; turn = suc v.turn } in
      let served =
        settle_next strtod clock draw (suc m) v
          (starting (post_to (bytes "/failed/erase") (length body) body)) (bad_request e) v.queue
          refl (serve_erase strtod v.queue body e (clock v.turn) (draw v.turn) t)
        ∙ settle_ended strtod clock draw m v' (send_response (error_payload e) http_bad_request) in
      let asked =
        do_request_reply strtod w r (some body) no_reply v v' _
          (d v (prepare r (some body)) ∙ ap (λ x. (replied x.0, x.1)) served)
        ∙ ap (λ x. (x, v')) (read_reply-refused strtod e no_reply) in
      (
        bytes "Request failed: " ++ error_payload e,
        v',
        ap (λ x. elim x.0 [ returns a ↦ (returns tt, x.1) | throws e ↦ (throws e, x.1) ]) asked,
        refl,
      )

  do_erase_failed_accepted :
      (ids : List Str) (m : ℕ) (w : Session World) (v : World)
      → Delivers strtod clock draw (suc (suc m)) w
      → AllBare ids
      → from_string strtod (erase_body ids) ≡ returns (array (strings ids))
      → (v' : World) × (do_erase_failed strtod w ids v ≡ (returns tt, v'))
        × (v'.queue ≡ (erase_failed v.queue ids).1)
  unfolding do_erase_failed prepare new_request
  do_erase_failed_accepted ids m w v d h t =
      let body = erase_body ids in
      let r = new_request (bytes "POST") (bytes "/failed/erase") in
      let (gone, q') = erase_failed v.queue ids in
      let (o, parse) =
        erased_payload-from_string strtod gone (erase_failed-AllBare v.queue ids h) in
      let v' : World = record { queue = q'; turn = suc v.turn } in
      let answer = erased_payload gone in
      let served =
        settle_next strtod clock draw (suc m) v
          (starting (post_to (bytes "/failed/erase") (length body) body)) (answers answer http_ok)
          q' refl (serve_erases strtod v.queue body ids (clock v.turn) (draw v.turn) t)
        ∙ settle_ended strtod clock draw m v' (send_response answer http_ok) in
      let asked =
        answered_with strtod clock draw (suc (suc m)) w d r (some body) no_reply v v' answer o
          served parse (erased_payload_some gone) in
      (
        v',
        bind-returns (do_request strtod w r (some body) no_reply) (λ c. pure tt) v v' _ asked,
        refl,
      )

  -- The client's `doEraseFailed`, over a session that brings each request to the server and the
  -- response back as they are, with nobody else at the server, of ids in characters that JSON
  -- leaves as they are: for one id or none the call comes to its end, and the queue is as
  -- `eraseFailed` leaves it; for two or more it ends in an exception, and the queue is as it was.
  -- The client waits for two turns of the handler, or for more.
  pub do_erase_failed-EraseEnds :
      (ids : List Str) (m : ℕ) (w : Session World) (v : World)
      → Delivers strtod clock draw (suc (suc m)) w
      → AllBare ids
      → EraseEnds ids v (do_erase_failed strtod w ids v)
  do_erase_failed-EraseEnds [] m w v d h =
      let (v', e, s) = do_erase_failed_accepted [] m w v d h (erase_body_none strtod) in
      (ap (λ x. x.0) e, ap (λ x. x.1.queue) e ∙ s)
  do_erase_failed-EraseEnds (a ∷ []) m w v d h =
      let (v', e, s) = do_erase_failed_accepted (a ∷ []) m w v d h (erase_body_one strtod a h.0) in
      (ap (λ x. x.0) e, ap (λ x. x.1.queue) e ∙ s)
  do_erase_failed-EraseEnds (a ∷ b ∷ ids) m w v d h =
      let (t, v', e, s) = do_erase_failed_refused a b ids m w v d h.0 in
      ((t, ap (λ x. x.0) e), ap (λ x. x.1.queue) e ∙ s)
