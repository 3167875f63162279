-- ===== src/Queue/State.antt =====
-- server/Queue.hpp: the message entries, the members of class `Queue`, and its constructor.
-- A `MsgEntry_t *` is an address, a number below `next_addr`; `heap` maps addresses to entries.
-- Times are nanoseconds since the epoch. The condition variables and the error callback are seen
-- through what is sent to them: `outputs` lists it, latest first.
pub mod Tally
use monitor_queue.Prelude.{
  ℕ, ◌+◌, ◌-◌, ◌*◌, ◌%◌, ◌^◌, Bool, true, false, List, [], ◌∷◌, Str, ◌==◌, if◌then◌else◌, zero, suc,
}
use monitor_queue.MsgMap.{StrMap}

pub record Msg : Type 0 where
  pub id : Str
  pub token : Str

pub data MsgState : Type 0 where
  queued running delayed failed : MsgState

abbrev pub is_queued : MsgState → Bool
is_queued queued = true
is_queued _ = false

abbrev pub is_running : MsgState → Bool
is_running running = true
is_running _ = false

abbrev pub is_delayed : MsgState → Bool
is_delayed delayed = true
is_delayed _ = false

abbrev pub is_failed : MsgState → Bool
is_failed failed = true
is_failed _ = false

pub record MsgEntry : Type 0 where
  pub priority : ℕ
  pub boosted : Bool
  pub fail_count : ℕ
  pub state : MsgState
  pub state_ts : ℕ
  pub message : Msg

-- MsgEntry_t::MsgEntry_t, at time `now`
unfoldable pub new_entry : Str → ℕ → ℕ → MsgEntry
new_entry id priority now = record {
  priority = priority;
  boosted = false;
  fail_count = 0;
  state = queued;
  state_ts = now;
  message = record { id = id; token = [] };
}

-- MsgEntry_t::reset
unfoldable pub reset : MsgEntry → Str → ℕ → ℕ → MsgEntry
reset e id priority now = record e {
  priority = priority;
  boosted = false;
  fail_count = 0;
  state = queued;
  state_ts = now;
  message = record e.message { id = id; token = [] };
}

abbrev pub Heap : Type 0
Heap = ℕ → MsgEntry

-- *a = e
abbrev pub store : Heap → ℕ → MsgEntry → Heap
store h a e p = if p == a then e else h p

pub data Output : Type 0 where
  pop_notify_one pop_notify_all delay_notify_one mon_notify_one error_callback : Output

pub record Queue : Type 0 where
  pub capacity : ℕ
  pub fail_timeout : ℕ
  pub max_retries : ℕ
  pub boost_timeout : ℕ
  pub poll_interval : ℕ
  pub err_cb : Bool
  pub count_queued : ℕ
  pub count_failed : ℕ
  pub run : Bool
  pub next_addr : ℕ
  pub heap : Heap
  pub msg_pool : List ℕ
  pub msg_map : StrMap ℕ
  pub msg_delay : List ℕ
  pub queue_list : List (List ℕ)
  pub outputs : List Output

-- size_t arithmetic
abbrev pub add64 : ℕ → ℕ → ℕ
add64 a b = (a + b) % 2 ^ 64

abbrev pub sub64 : ℕ → ℕ → ℕ
sub64 a b = (a + 2 ^ 64 - b) % 2 ^ 64

-- std::chrono::milliseconds, in nanoseconds
abbrev pub milliseconds : ℕ → ℕ
milliseconds n = n * 1000000

-- m_queue_list.resize( n )
unfoldable pub empty_queues : ℕ → List (List ℕ)
empty_queues zero = []
empty_queues (suc n) = [] ∷ empty_queues n

-- Queue::Queue. The heap holds nothing yet: `blank` stands at every address.
unfoldable pub new_queue : ℕ → ℕ → ℕ → ℕ → ℕ → ℕ → Bool → Queue
unfolding empty_queues new_entry
new_queue priorities capacity ack_timeout max_retries boost_timeout period err_cb = record {
  capacity = capacity;
  fail_timeout = ack_timeout;
  max_retries = max_retries;
  boost_timeout = boost_timeout;
  poll_interval = period;
  err_cb = err_cb;
  count_queued = 0;
  count_failed = 0;
  run = true;
  next_addr = 0;
  heap = λ p. new_entry [] 0 0;
  msg_pool = [];
  msg_map = [];
  msg_delay = [];
  queue_list = empty_queues priorities;
  outputs = [];
}
