-- ===== src/Client/Tests/Failing.antt =====
-- server/mqclient.cpp, testFailureHanding: at servers whose monitor wakes while the client sleeps.
use monitor_queue.Prelude.{ℕ, suc, ◌*◌, ◌≡◌, refl, to_string, dec_digits}
use monitor_queue.Queue.Defs.{get_counts, get_capacity, get_failed}
use monitor_queue.Queue.Tests.{opened}
use monitor_queue.Queue.Threads.{monitor_pass}
use monitor_queue.Json.Value.{lookup, as_object, as_array, as_string, integer_part}
use monitor_queue.Json.Object.{
  has, get_string, get_number, get_array, get_value, to_text, to_number, to_array,
}
use monitor_queue.Json.Tests.{json_opened}
use monitor_queue.Json.Double.{to_double, double_eq}
use monitor_queue.Json.Cell.{cell_object, clear}
use monitor_queue.Server.Defs.{
  starting, route_map, read_body, read_chars, send_response, msg_payload, count_payload,
  failed_payload, erased_payload, quote_ids, error_payload, push_arguments, string_elements,
}
use monitor_queue.Server.Handler.{new_server, serve, handle_request, endpoint, call_pop, call_push}
use monitor_queue.Client.Defs.{
  Session, read_numerals, do_request, read_reply, prepare, new_request, push_body, push_items,
  push_item, erase_body, erase_items,
}
use monitor_queue.Client.Calls.{do_push, do_get_failed, do_erase_failed}
use monitor_queue.Client.Main.{judge, expect_counts, lose_message, test_failure_handling}
use monitor_queue.Client.Alone.{World, settle, received, replied}
use monitor_queue.Client.Tests.{strtod_numerals, count_numerals}

-- Ten milliseconds pass between two turns, and the monitor scans at the end of a pause.
abbrev ticks : ℕ → ℕ
ticks t = t * 10000000

abbrev watched : Session World
watched = record {
  send = λ v r.
      let (o, v') = settle strtod_numerals ticks (λ t. t) 8 v (starting (received r)) in
      (replied o, v');
  sleep = λ v seconds. record {
    queue = monitor_pass v.queue (ticks (suc v.turn));
    turn = suc (suc v.turn);
  };
}

-- A limit of `tries` timeouts, of a millisecond each
abbrev limited : ℕ → World
limited tries = record { queue = new_server 3 4 1 tries 0 5; turn = 0 }

-- What the runs have to see through.
unfoldable client_opened : Unit {0}
unfolding get_counts get_capacity get_failed json_opened opened new_server test_failure_handling
    judge expect_counts lose_message do_push do_get_failed do_erase_failed do_request read_reply
    prepare new_request push_body push_items push_item erase_body erase_items settle serve
    handle_request endpoint call_pop call_push route_map read_body read_chars send_response
    msg_payload count_payload failed_payload erased_payload quote_ids error_payload push_arguments
    string_elements strtod_numerals count_numerals read_numerals lookup as_object as_array as_string
    integer_part has get_string get_number get_array get_value to_text to_number to_array to_double
    double_eq cell_object clear to_string dec_digits
client_opened = tt

-- The test passes where the second timeout fails a message; where the first does, its second pop
-- finds nothing.
two_tries : (test_failure_handling strtod_numerals watched (limited 2)).0.code ≡ 0
unfolding client_opened
two_tries = refl

one_try : (test_failure_handling strtod_numerals watched (limited 1)).0.code ≡ 1
unfolding client_opened
one_try = refl
