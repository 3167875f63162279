-- ===== src/Server/Launching.antt =====
-- server/mqserver.cpp, main: the server that it starts.
use monitor_queue.Prelude.{
  ℕ, zero, suc, ◌≡◌, ◌^◌, ◌<◌, refl, sym, ap, subst, true, false, Option, none, [], Str, length,
  arith,
}
use monitor_queue.Queue.State.{Queue, new_queue, empty_queues}
use monitor_queue.Queue.Defs.{set_error_callback}
use monitor_queue.Queue.Invariant.{Inv}
use monitor_queue.Server.Handler.{new_server}
use monitor_queue.Server.Turns.{new_server-Inv}
use monitor_queue.Server.Start.{
  Given, parsed, Settings, settings, given_or, QueueServer, Network, serves, new_queue_server,
  start, launch, main,
}

-- A queue with these limits that runs, reports errors, and holds no message.
pub record Fresh (priorities capacity ack_timeout max_retries boost_timeout period : ℕ) (q : Queue)
    : Type 0 where
  pub has_priorities : length q.queue_list ≡ priorities
  pub has_capacity : q.capacity ≡ capacity
  pub fails_after : q.fail_timeout ≡ ack_timeout
  pub retries : q.max_retries ≡ max_retries
  pub boosts_after : q.boost_timeout ≡ boost_timeout
  pub polls : q.poll_interval ≡ period
  pub holds_nothing : q.msg_map ≡ []
  pub reports : q.err_cb ≡ true
  pub runs : q.run ≡ true

length-empty_queues : (n : ℕ) → length (empty_queues n) ≡ n
unfolding empty_queues
length-empty_queues zero = refl
length-empty_queues (suc n) = ap suc (length-empty_queues n)

new_server-Fresh : (n c a r b m : ℕ) → Fresh n c a r b m (new_server n c a r b m)
unfolding new_server new_queue set_error_callback
new_server-Fresh n c a r b m = record {
  has_priorities = length-empty_queues n;
  has_capacity = refl;
  fails_after = refl;
  retries = refl;
  boosts_after = refl;
  polls = refl;
  holds_nothing = refl;
  reports = refl;
  runs = refl;
}

launch_serves :
    (net : Network) (s : Settings) (server : QueueServer)
    → launch net s ≡ serves server
    → (net.listen 8080 ≡ none)
      × (net.start ≡ none)
      × (server.port ≡ 8080)
      × (server.queue
          ≡ new_server s.priority_count s.msg_capacity s.msg_ack_timeout_msec s.msg_max_retries
              s.msg_boost_timeout_msec s.monitor_period_msec)
unfolding launch new_queue_server start
launch_serves net s server h = (ground arith, ground arith, ground arith, ground arith)

main_launches :
    (net : Network) (opts : Str) (g : Given) (server : QueueServer)
    → main net opts (parsed g) ≡ serves server
    → (g.help ≡ false) × (g.version ≡ false) × (launch net (settings g) ≡ serves server)
unfolding main
main_launches net opts g server h = (ground arith, ground arith, ground arith)

-- Where the program starts a server for a command line that parses, with a capacity that is a
-- `size_t`: neither help nor the version was asked for, the network let the server listen on 8080
-- and start, and the server's queue has the invariant, is empty, runs and reports errors, and has the
-- number of priorities, the capacity, the acknowledgement timeout, the retry limit, the boost timeout
-- and the monitor period that the command line gives, each by its own option, or else the default of
-- each. But it listens on 8080 whatever port is asked for: with any other port option the program
-- starts the same server.
pub main_serves :
    (net : Network) (opts : Str) (g : Given) (server : QueueServer) (other : Option ℕ)
    → main net opts (parsed g) ≡ serves server
    → given_or g.capacity 100 < 2 ^ 64
    → (g.help ≡ false)
      × (g.version ≡ false)
      × (net.listen 8080 ≡ none)
      × (net.start ≡ none)
      × Inv server.queue
      × Fresh
          (given_or g.priorities 3)
          (given_or g.capacity 100)
          (given_or g.ack_timeout 60000)
          (given_or g.max_retries 5)
          (given_or g.boost_timeout 300000)
          (given_or g.monitor_period 5000)
          server.queue
      × (server.port ≡ 8080)
      × (main net opts (parsed (record g { port = other })) ≡ serves server)
unfolding settings main launch new_queue_server
main_serves net opts g server other h lt =
    let (help, version, run) = main_launches net opts g server h in
    let (listens, starts, port, queue) = launch_serves net (settings g) server run in
    (
      help,
      version,
      listens,
      starts,
      subst Inv (sym queue) (new_server-Inv _ _ _ _ _ _ lt),
      subst (Fresh _ _ _ _ _ _) (sym queue) (new_server-Fresh _ _ _ _ _ _),
      port,
      h,
    )
