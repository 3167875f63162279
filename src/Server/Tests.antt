-- ===== src/Server/Tests.antt =====
-- The server at concrete requests.
use monitor_queue.Prelude.{
  ℕ, ◌≡◌, ◌↔◌, refl, false, true, none, some, List, [], ◌∷◌, arith, Str, bytes, to_string, str_eq,
  str_lt,
}
use monitor_queue.MsgMap.{find, insert}
use monitor_queue.Queue.State.{Queue}
use monitor_queue.Queue.Tests.{opened, busy, busy-Inv, id_a}
use monitor_queue.Queue.Invariant.{Inv}
use monitor_queue.Queue.View.{view, leased, waiting}
use monitor_queue.Json.Value.{
  Members, object, string, number, member, end, nil, as_object, lookup, integer_part,
}
use monitor_queue.Json.Object.{has, get_string, get_value, to_text}
use monitor_queue.Json.Tests.{strtod_digits, json_opened}
use monitor_queue.Json.Double.{to_double}
use monitor_queue.Server.Start.{
  Given, parsed, Network, QueueServer, serves, main, launch, settings, new_queue_server, start,
}
use monitor_queue.Server.Launching.{Fresh, main_serves}
use monitor_queue.Server.Defs.{
  Request, read_body, read_chars, popping, has_room, answers, bad_request, http_ok, http_not_found,
  msg_payload, ack_arguments, route_map, Ack,
}
use monitor_queue.Server.Handler.{handle_request, serve, new_server, call_pop}
use monitor_queue.Server.Turns.{Event, arrives, turns, happen_all, serving-Inv}
use monitor_queue.Server.Answers.{
  handle_request_refused, ack_answered_ok, delayed_push_refused, pop_answered,
}

abbrev post : Str → Str → Request
post path body = record {
  method = bytes "POST";
  path = path;
  content_length = some 200;
  stream = body;
}

abbrev events : List Event
events =
    arrives (post (bytes "/push") (bytes "[{\"id\":\"a\",\"pri\":1}]"))
    ∷ turns 0 10 0
    ∷ arrives (post (bytes "/pop") [])
    ∷ turns 1 11 0
    ∷ turns 0 12 5
    ∷ turns 1 13 0
    ∷ turns 0 14 5
    ∷ []

serving-Inv_example :
    Inv
      (happen_all strtod_digits
        (record { queue = new_server 3 4 1 2 1 5; handlers = [] })
        events).queue
serving-Inv_example = serving-Inv strtod_digits 3 4 1 2 1 5 events (omega arith)

handle_request_refused_example :
    handle_request strtod_digits busy (post (bytes "/nowhere") []) 30
    ≡ (busy, answers [] http_not_found)
unfolding find insert str_eq str_lt route_map
handle_request_refused_example =
    handle_request_refused strtod_digits busy (post (bytes "/nowhere") []) 30 404 refl

abbrev ack_text : Str
ack_text = bytes "{\"id\":\"a\",\"tok\":\"7\"}"

abbrev ack_members : Members
ack_members = member (bytes "id") (string id_a) (member (bytes "tok") (string (bytes "7")) end)

abbrev ack_a : Ack
ack_a = record { id = id_a; token = bytes "7"; requeue = false; delay = 0 }

ack_answered_ok_example :
    ((q' : Queue) × (handle_request strtod_digits busy (post (bytes "/ack") ack_text) 30
        ≡ (q', answers [] http_ok)))
    ↔ (view busy id_a ≡ some (leased (bytes "7")))
unfolding json_opened find insert str_eq str_lt route_map read_body read_chars as_object
    ack_arguments has get_string get_value to_text lookup integer_part
ack_answered_ok_example =
    ack_answered_ok strtod_digits busy (post (bytes "/ack") ack_text) 30 (object ack_members)
      ack_members ack_a busy-Inv refl refl refl refl refl

abbrev delayed : Members
delayed =
    member (bytes "del") (number (to_double 5))
      (member (bytes "id") (string id_a) (member (bytes "pri") (number (to_double 1)) end))

delayed_push_refused_example :
    (e : Str) × (serve strtod_digits busy (has_room (object delayed) delayed nil) 30 0
      ≡ (busy, bad_request e))
unfolding has lookup str_eq
delayed_push_refused_example = delayed_push_refused strtod_digits busy delayed nil 30 0 refl

pop_answered_example :
    let (q', s) = serve strtod_digits busy (popping false) 30 9 in
    (id : Str) × (k : ℕ) × (view busy id ≡ some (waiting k))
    × (view q' id ≡ some (leased (to_string 9)))
    × (serve strtod_digits q' s 31 0 ≡ (q', answers (msg_payload id (to_string 9)) http_ok))
unfolding opened serve call_pop
pop_answered_example = pop_answered strtod_digits busy false 30 9 31 0 2 busy-Inv refl

-- A network where all goes well, and a command line with a port and a capacity.
abbrev open_network : Network
open_network = record { listen = λ port. none; start = none }

abbrev command_line : Given
command_line = record {
  help = false;
  version = false;
  port = some 9000;
  priorities = none;
  capacity = some 20;
  ack_timeout = none;
  max_retries = none;
  boost_timeout = none;
  monitor_period = none;
}

abbrev listening : QueueServer
listening = record {
  queue = new_server 3 20 60000 5 300000 5000;
  params = record {
    server_name = bytes "mqserver";
    keep_alive = true;
    keep_alive_seconds = 5;
    max_keep_alive_requests = 10;
  };
  port = 8080;
}

main_serves_example :
    (command_line.help ≡ false)
    × (command_line.version ≡ false)
    × (open_network.listen 8080 ≡ none)
    × (open_network.start ≡ none)
    × Inv listening.queue
    × Fresh 3 20 60000 5 300000 5000 listening.queue
    × (listening.port ≡ 8080)
    × (main open_network [] (parsed (record command_line { port = some 1 })) ≡ serves listening)
unfolding main launch settings new_queue_server start
main_serves_example = main_serves open_network [] command_line listening (some 1) refl (omega arith)
