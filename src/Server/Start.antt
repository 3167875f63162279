-- ===== src/Server/Start.antt =====
-- server/mqserver.cpp, main, and server/QueueServer.cpp, the constructor, start and stop. What boost
-- makes of the command line, and the exceptions that Poco throws, are arguments.
use monitor_queue.Prelude.{ℕ, Bool, true, Option, none, some, [], ◌++◌, Str, bytes, if◌then◌else◌}
use monitor_queue.Queue.State.{Queue}
use monitor_queue.Server.Handler.{new_server}

-- What stands on the command line
pub record Given : Type 0 where
  pub help : Bool
  pub version : Bool
  pub port : Option ℕ
  pub priorities : Option ℕ
  pub capacity : Option ℕ
  pub ack_timeout : Option ℕ
  pub max_retries : Option ℕ
  pub boost_timeout : Option ℕ
  pub monitor_period : Option ℕ

-- The options are parsed, an option is unknown, or boost throws another exception.
pub data CommandLine : Type 0 where
  parsed : Given → CommandLine
  unknown_option : Str → CommandLine
  bad_option : Str → CommandLine

-- The variables of main, with their defaults
pub record Settings : Type 0 where
  pub port : ℕ
  pub priority_count : ℕ
  pub msg_capacity : ℕ
  pub msg_ack_timeout_msec : ℕ
  pub msg_max_retries : ℕ
  pub msg_boost_timeout_msec : ℕ
  pub monitor_period_msec : ℕ

abbrev pub defaults : Settings
defaults = record {
  port = 8080;
  priority_count = 3;
  msg_capacity = 100;
  msg_ack_timeout_msec = 60000;
  msg_max_retries = 5;
  msg_boost_timeout_msec = 300000;
  monitor_period_msec = 5000;
}

abbrev pub given_or : Option ℕ → ℕ → ℕ
given_or none n = n
given_or (some m) n = m

-- po::store and po::notify
unfoldable pub settings : Given → Settings
settings g = record {
  port = given_or g.port defaults.port;
  priority_count = given_or g.priorities defaults.priority_count;
  msg_capacity = given_or g.capacity defaults.msg_capacity;
  msg_ack_timeout_msec = given_or g.ack_timeout defaults.msg_ack_timeout_msec;
  msg_max_retries = given_or g.max_retries defaults.msg_max_retries;
  msg_boost_timeout_msec = given_or g.boost_timeout defaults.msg_boost_timeout_msec;
  monitor_period_msec = given_or g.monitor_period defaults.monitor_period_msec;
}

-- HTTPServerParams, as the constructor sets them
pub record ServerParams : Type 0 where
  pub server_name : Str
  pub keep_alive : Bool
  pub keep_alive_seconds : ℕ
  pub max_keep_alive_requests : ℕ

-- QueueServer, with the port of its socket
pub record QueueServer : Type 0 where
  pub queue : Queue
  pub params : ServerParams
  pub port : ℕ

-- An exception of Poco, with its `displayText`, or another of the standard library.
pub data Exception : Type 0 where
  poco_exception : (display_text what : Str) → Exception
  std_exception : (what : Str) → Exception

abbrev pub what_of : Exception → Str
what_of (poco_exception display_text what) = what
what_of (std_exception what) = what

-- Poco: the exception, if any, of a socket that is to listen on a port, and of the server's start.
pub record Network : Type 0 where
  pub listen : ℕ → Option Exception
  pub start : Option Exception

-- A call that succeeds, or an exception that leaves it and what it printed before.
pub data Attempt {ℓ} (A : Type ℓ) : Type ℓ where
  succeeds : A → Attempt A
  fails : (printed : Str) (e : Exception) → Attempt A

-- How main ends, with what it printed and its exit code, by an exception that leaves it, or not at
-- all: then the server runs.
pub data Program : Type 0 where
  exits : (printed errors : Str) (code : ℕ) → Program
  terminates : (printed what : Str) → Program
  serves : QueueServer → Program

-- The two `catch` clauses of QueueServer::QueueServer
abbrev pub ctor_catch : Exception → Str
ctor_catch (poco_exception display_text what) =
    bytes "ctor exception: " ++ (display_text ++ bytes "\n")
ctor_catch (std_exception what) = bytes "ctor exception 2: " ++ (what ++ bytes "\n")

-- QueueServer::QueueServer
unfoldable pub new_queue_server : Network → Settings → Attempt QueueServer
unfolding new_server
new_queue_server net s = elim (net.listen 8080) [
  | some e ↦ fails (ctor_catch e) e
  | none ↦ succeeds (record {
    queue =
        new_server s.priority_count s.msg_capacity s.msg_ack_timeout_msec s.msg_max_retries
          s.msg_boost_timeout_msec s.monitor_period_msec;
    params = record {
      server_name = bytes "mqserver";
      keep_alive = true;
      keep_alive_seconds = 5;
      max_keep_alive_requests = 10;
    };
    port = 8080;
  })
]

-- The one `catch` clause of QueueServer::start
abbrev pub start_catch : Exception → Str
start_catch (poco_exception display_text what) =
    bytes "start exception: " ++ (display_text ++ bytes "\n")
start_catch (std_exception what) = []

-- QueueServer::start
unfoldable pub start : Network → QueueServer → Attempt QueueServer
start net server = elim net.start [ some e ↦ fails (start_catch e) e | none ↦ succeeds server ]

-- QueueServer::stop, which is empty
unfoldable pub stop : QueueServer → QueueServer
stop server = server

-- main, from the construction of the server on
unfoldable pub launch : Network → Settings → Program
unfolding new_queue_server start
launch net s = elim (new_queue_server net s) [
  | fails printed e ↦ terminates printed (what_of e)
  | succeeds server ↦ elim (start net server) [
    | fails printed e ↦ terminates printed (what_of e)
    | succeeds running ↦ serves running
  ]
]

abbrev pub program_version : Str
program_version = bytes "1.0"

-- main; `opts` is what boost prints of the options.
unfoldable pub main : Network → Str → CommandLine → Program
unfolding launch settings
main net opts (parsed g) =
    let run = launch net (settings g) in
    if g.help
    then exits
        (bytes "Monitor Queue Server, ver. "
          ++ (program_version ++ (bytes "\nUsage: mqserver [options]\n" ++ (opts ++ bytes "\n"))))
        [] 0
    else (if g.version then exits (program_version ++ bytes "\n") [] 0 else run)
main net opts (unknown_option e) = exits [] (bytes "Options error: " ++ (e ++ bytes "\n")) 1
main net opts (bad_option e) = terminates [] e
