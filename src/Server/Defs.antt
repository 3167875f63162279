-- ===== src/Server/Defs.antt =====
-- server/QueueServer.cpp, class `Handler`: the requests. A request is what Poco's objects tell of
-- it, and a response what the handler sets in it.
use monitor_queue.Prelude.{
  ℕ, zero, suc, ◌-◌, ◌%◌, ◌^◌, Bool, false, Option, none, some, List, [], ◌∷◌, ◌++◌, Str, str_eq,
  bytes, to_string, ltb, if◌then◌else◌,
}
use monitor_queue.MsgMap.{StrMap, insert}
use monitor_queue.Queue.Defs.{
  Error, invalid_priority, duplicate_id, capacity_exceeded, no_such_id, invalid_token,
  invalid_state, Counts,
}
use monitor_queue.Json.Value.{
  Value, Values, nil, cons, Members, Outcome, returns, ◌>>=◌, as_string, as_number, integer_part,
  double_zero,
}
use monitor_queue.Json.Object.{get_string, get_number, has, iter_bool, iter_number}

-- The content length is `none` where Poco gives -1, for one that is not known.
pub record Request : Type 0 where
  pub method : Str
  pub path : Str
  pub content_length : Option ℕ
  pub stream : Str

pub record Response : Type 0 where
  pub status : ℕ
  pub content_type : Str
  pub payload : Str

-- Handler::sendResponse, with no payload as an empty one
unfoldable pub send_response : Str → ℕ → Response
send_response payload status = record {
  status = status;
  content_type = bytes "application/json";
  payload = payload;
}

abbrev pub http_ok : ℕ
http_ok = 200

abbrev pub http_bad_request : ℕ
http_bad_request = 400

abbrev pub http_not_found : ℕ
http_not_found = 404

abbrev pub http_method_not_allowed : ℕ
http_method_not_allowed = 405

-- body.resize( n ) and a read of n characters: what the stream lacks stays NUL
unfoldable pub read_chars : ℕ → Str → Str
read_chars zero s = []
read_chars (suc n) [] = 0 ∷ read_chars n []
read_chars (suc n) (c ∷ s) = c ∷ read_chars n s

-- Handler::readBody
unfoldable pub read_body : Request → Str
read_body r = elim r.content_length [ none ↦ [] | some n ↦ read_chars n r.stream ]

-- e.what() of the exceptions of class `Queue`
unfoldable pub what : Error → Str
what invalid_priority = bytes "Invalid queue priority"
what duplicate_id = bytes "Duplicate message ID"
what capacity_exceeded = bytes "Queue capacity exceeded"
what no_such_id = bytes "No message found matching ID"
what invalid_token = bytes "Invalid message token"
what invalid_state = bytes "Invalid message state"

-- The payloads of the handlers
unfoldable pub error_payload : Str → Str
error_payload e = bytes "{\"type\":\"error\",\"message\":\"" ++ e ++ bytes "\"}"

unfoldable pub msg_payload : Str → Str → Str
msg_payload id token =
    bytes "{\"type\":\"msg\",\"id\":\"" ++ id ++ bytes "\",\"tok\":\"" ++ token ++ bytes "\"}"

unfoldable pub count_payload : ℕ → Counts → Str
count_payload capacity c =
    bytes "{\"type\":\"count\",\"capacity\":"
    ++ to_string capacity
    ++ bytes ",\"active\":"
    ++ to_string c.active
    ++ bytes ",\"failed\":"
    ++ to_string c.failed
    ++ bytes ",\"free\":"
    ++ to_string c.free
    ++ bytes "}"

-- The loops over ids; `lead` is the comma of all but the first.
unfoldable pub quote_ids : Str → List Str → Str
quote_ids lead [] = []
quote_ids lead (id ∷ ids) = lead ++ 34 ∷ id ++ 34 ∷ quote_ids (bytes ",") ids

unfoldable pub failed_payload : List Str → Str
failed_payload ids = bytes "{\"type\":\"failed\",\"ids\":[" ++ quote_ids [] ids ++ bytes "]}"

unfoldable pub erased_payload : List Str → Str
erased_payload ids = bytes "{\"type\":\"erased\",\"ids\":[" ++ quote_ids [] ids ++ bytes "]}"

-- Where a handler stands between two of its calls of the queue.
pub data Serving : Type 0 where
  starting : Request → Serving
  -- the loop of `PushRequest` over the elements that are left
  pushing : Values → Serving
  -- its element, an object, for which there was room
  has_room : Value → Members → Values → Serving
  -- the call of `pop`, in a `try` block or not
  popping : (caught : Bool) → Serving
  -- the reference that `pop` returned, before the message is read
  reading : (entry : ℕ) → Serving
  answered : Response → Serving
  -- an exception leaves the handler
  escaped : Str → Serving

abbrev pub answers : Str → ℕ → Serving
answers payload status = answered (send_response payload status)

abbrev pub bad_request : Str → Serving
bad_request e = answers (error_payload e) http_bad_request

abbrev pub not_allowed : Serving
not_allowed = answers [] http_method_not_allowed

abbrev pub is_post : Request → Bool
is_post r = str_eq r.method (bytes "POST")

abbrev pub is_get : Request → Bool
is_get r = str_eq r.method (bytes "GET")

-- The conversions of a double; one out of range, which the language leaves undefined, wraps around.
abbrev pub to_unsigned : ℕ → ℕ → ℕ
to_unsigned width n =
    let magnitude : ℕ = integer_part n % 2 ^ width in
    if ltb n (2 ^ 63) then magnitude else (2 ^ width - magnitude) % 2 ^ width

abbrev pub to_uint8 : ℕ → ℕ
to_uint8 n = to_unsigned 8 n

abbrev pub to_size_t : ℕ → ℕ
to_size_t n = to_unsigned 64 n

pub record Ack : Type 0 where
  pub id : Str
  pub token : Str
  pub requeue : Bool
  pub delay : ℕ

-- The arguments of `ack` in `AckRequest` and `PopAckRequest`, evaluated from the left.
unfoldable pub ack_arguments : Members → Outcome Ack
ack_arguments o = get_string o (bytes "id") >>= λ id. get_string o (bytes "tok") >>= λ token.
    (let (found, at) = has o (bytes "que") in if found then iter_bool at else returns false)
    >>= λ requeue.
        (let (found, at) = has o (bytes "del") in
          if found then iter_number at else returns double_zero)
        >>= λ delay.
            returns (record { id = id; token = token; requeue = requeue; delay = to_size_t delay })

pub record Push : Type 0 where
  pub id : Str
  pub priority : ℕ
  pub delay : ℕ

-- The arguments of `push` in `PushRequest`, for the element `m` and its object; `m->asNumber()` is
-- asked of the element.
unfoldable pub push_arguments : Value → Members → Outcome Push
push_arguments m msg = get_string msg (bytes "id") >>= λ id.
    get_number msg (bytes "pri") >>= λ priority.
    (if (has msg (bytes "del")).0 then as_number m else returns double_zero) >>= λ delay.
    returns (record { id = id; priority = to_uint8 priority; delay = to_size_t delay })

-- The ids of `EraseFailedRequest`
unfoldable pub string_elements : Values → Outcome (List Str)
string_elements nil = returns []
string_elements (cons v vs) =
    let rest = string_elements vs in as_string v >>= λ s. rest >>= λ ss. returns (s ∷ ss)

pub data Endpoint : Type 0 where
  ping_request push_request pop_request ack_request : Endpoint
  pop_ack_request count_request get_failed_request erase_failed_request : Endpoint

-- Handler::setupRouteMap
unfoldable pub route_map : StrMap Endpoint
route_map = insert (bytes "/failed/erase") erase_failed_request (
    insert (bytes "/failed") get_failed_request (
      insert (bytes "/count") count_request (
        insert (bytes "/pop_ack") pop_ack_request (
          insert (bytes "/ack") ack_request (
            insert (bytes "/pop") pop_request
              (insert (bytes "/push") push_request (insert (bytes "/ping") ping_request [])))))))
