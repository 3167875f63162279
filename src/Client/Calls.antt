-- ===== src/Client/Calls.antt =====
-- server/mqclient.cpp: doPush, doPop, doGetFailed and doEraseFailed.
use monitor_queue.Prelude.{
  ℕ, zero, suc, ◌+◌, ◌%◌, ◌^◌, ◌&&◌, none, some, List, [], Str, bytes, ltb, leb,
}
use monitor_queue.Json.Value.{null}
use monitor_queue.Json.Object.{get_string, get_array}
use monitor_queue.Json.Cell.{Cell, whole, cell_object}
use monitor_queue.Server.Defs.{string_elements}
use monitor_queue.Client.Defs.{
  HttpRequest, Session, new_request, prepare, M, pure, lift, ◌>>=◌, ◌>>◌, guard, do_request,
  push_body, ack_body, erase_body, stoi,
}

-- A `libjson::Value reply`, as it is declared
abbrev pub no_reply : Cell
no_reply = whole null

-- What a round of `doPop` carries to the next: the request, the reply, the id and the token.
pub record Popping : Type 0 where
  pub request : HttpRequest
  pub reply : Cell
  pub id : Str
  pub tok : Str

module _ {S : Type 0} (strtod : Str → ℕ × ℕ) (w : Session S) where
  -- doPush
  unfoldable pub do_push : ℕ → ℕ → M S (Unit {0})
  do_push offset count = do
    _ ←
        do_request strtod w (new_request (bytes "POST") (bytes "/push"))
          (some (push_body offset count)) no_reply
    pure tt

  -- doPop, the second half of a round: the reply is verified.
  unfoldable pub verify_reply : ℕ → ℕ → HttpRequest → Cell → M S Popping
  verify_reply offset count request reply = do
    obj ← lift (cell_object reply)
    id ← lift (get_string obj (bytes "id"))
    tok ← lift (get_string obj (bytes "tok"))
    id_int ← lift (stoi id)
    guard (leb offset id_int && ltb id_int ((offset + count) % 2 ^ 64))
        (bytes "Message ID received is out of expected range")
    pure (record { request = request; reply = reply; id = id; tok = tok })

  -- doPop, the first round
  unfoldable pub first_pop : ℕ → ℕ → M S Popping
  first_pop offset count =
      let request = new_request (bytes "POST") (bytes "/pop") in
      do
        reply ← do_request strtod w request none no_reply
        verify_reply offset count (record (prepare request none) { uri = bytes "/pop_ack" }) reply

  -- doPop, a round that acknowledges the message before
  unfoldable pub next_pop : ℕ → ℕ → Popping → M S Popping
  next_pop offset count p =
      let body = some (ack_body p.id p.tok) in
      do
        reply ← do_request strtod w p.request body p.reply
        verify_reply offset count (prepare p.request body) reply

  unfoldable pub next_pops : ℕ → ℕ → ℕ → Popping → M S Popping
  next_pops zero offset count p = pure p
  next_pops (suc n) offset count p = do p' ← next_pop offset count p; next_pops n offset count p'

  -- doPop, the acknowledgement behind the loop
  unfoldable pub last_ack : Popping → M S (Unit {0})
  last_ack p = do
    _ ←
        do_request strtod w (record p.request { uri = bytes "/ack" }) (some (ack_body p.id p.tok))
          p.reply
    pure tt

  -- doPop
  unfoldable pub do_pop : ℕ → ℕ → M S (Unit {0})
  do_pop offset zero = last_ack (record {
    request = new_request (bytes "POST") (bytes "/pop");
    reply = no_reply;
    id = [];
    tok = [];
  })
  do_pop offset (suc n) = do
    p ← first_pop offset (suc n)
    p' ← next_pops n offset (suc n) p
    last_ack p'

  -- doGetFailed
  unfoldable pub do_get_failed : M S (List Str)
  do_get_failed = do
    reply ← do_request strtod w (new_request (bytes "GET") (bytes "/failed")) none no_reply
    obj ← lift (cell_object reply)
    arr ← lift (get_array obj (bytes "ids"))
    lift (string_elements arr)

  -- doEraseFailed
  unfoldable pub do_erase_failed : List Str → M S (Unit {0})
  do_erase_failed ids = do
    _ ←
        do_request strtod w (new_request (bytes "POST") (bytes "/failed/erase"))
          (some (erase_body ids)) no_reply
    pure tt
