-- ===== src/Lib.antt =====
-- MonitorQueue: a priority message queue that watches its consumers, and an HTTP server over it.
--
-- A publisher pushes messages, each with an id and a priority. A consumer pops the first message
-- of the highest priority, which leases it under a random token, and acknowledges it with that
-- token. A monitor thread puts a message back when its consumer is late, fails it when it has been
-- late too often, and boosts messages that wait too long. A delay thread holds messages that are
-- pushed or requeued with a delay. All share one state under one mutex. The server's
-- handlers call the queue's methods for requests whose bodies are JSON.
--
-- Files
--   Prelude, Prelude/*: tests on numbers, lists, and `std::string` as a list of bytes.
--   MsgMap, MsgMap/*: `std::map` as an association list in the order of its keys.
--   Queue/State: server/Queue.hpp, the entries (`MsgEntry_t`) and the members of class `Queue`,
--     and the constructor (server/Queue.cpp). Entries stand in a heap and are named by address.
--   Queue/Buckets, Queue/Delays: `m_queue_list` and `m_msg_delay`.
--   Queue/Defs: server/Queue.cpp, the methods push, pop, popImpl, ack, ackImpl, popAck,
--     getMsgEntry, insertDelayedMsg, getCapacity, getCounts, getFailed, eraseFailed and
--     setErrorCallback.
--   Queue/Threads: server/Queue.cpp, monitorThread, delayThread and the destructor.
--   Queue/Invariant, Queue/History: the invariant of the shared state, and histories of calls.
--   Queue/View: what a user of the queue sees of a message (its status), to which the methods are
--     related in Queue/View/Methods and the life of a message in Queue/Moves and Queue/Lifecycle.
--   Queue/Service: the order of service. Queue/Monitoring, Queue/Delaying: what a pass of each
--     thread does, entry by entry. Queue/Wakeups: notifications. Queue/Acks, Queue/Pushes,
--     Queue/Failed, Queue/Places, Queue/Retries, Queue/Memory: what their names say.
--   Queue/Tests, Queue/Tests/*: concrete queues and the theorems at them.
--
--   Json/Value, Json/Object: server/libjson.hpp, the values and the methods that read them.
--   Json/Chars, Json/Parse: parseString, parseValue, parseObject, parseArray and fromString.
--     Json/Fuel, Json/Total: its fuel. Json/Print: toString. Json/Strings: strings that are
--     printed and parsed again. Json/Plain, Json/RoundTrip, Json/Whole, Json/Reread: whole values.
--     Json/Double: integers that become doubles. Json/Cell: the methods that make, change, move and
--     destroy a value, with the blocks that they allocate and delete. Json/Blocks: their balance.
--     Json/Tests: concrete texts.
--   Server/Defs, Server/Handler: server/QueueServer.cpp, the payloads, the route map and the request
--     handlers. Server/Turns: many handlers at work. Server/Answers: what they answer.
--     Server/Start: server/mqserver.cpp, main, and the constructor, start and stop of class
--     `QueueServer`. Server/Launching: the server that main starts. Server/Tests: concrete requests.
--   Client/Defs, Client/Calls, Client/Main: server/mqclient.cpp, doRequest with the bodies that the
--     client writes, doPush, doPop, doGetFailed and doEraseFailed, and the tests and main.
--     Client/Effects: server/Queue.cpp, what a push, a pop and an acknowledgement of the client's do.
--     Client/Alone: the client and the server together. Client/Bodies, Client/Items: the texts between
--     the two. Client/Numbers: ids that are numbers. Client/Exchange: single requests, from end to end.
--     Client/Pushes, Client/Leases, Client/Rounds, Client/Pops, Client/Counts, Client/Erased,
--     Client/Erasing: calls and tests of the client. Client/Passing, Client/Whole: its first five
--     tests, one after another.
--     Client/Tests, Client/Tests/*: concrete sessions.
--
-- Model
--   Each stretch of code that holds `m_mutex` is one step, so a history is a list of calls in the
--   order in which they hold it. `push` tests the priority before it locks, against the number of
--   queues, which never changes. A pop that waits leaves the queue as it is and is tried again.
--   The clock and the random number generator are read as arguments (`now`, `draw`), in any
--   order and with any values. Times are nanoseconds; `size_t` and `uint8_t` counters wrap around.
--   What is sent to condition variables and to the error callback is listed in `outputs`.
--   The loops of the queue are structural recursions over the lists that they scan. Fuel is used in
--   `std::to_string`, one more than the number that is printed, and in the parser, three times the
--   length of the text and four: a nested value costs a call of two functions, and each character a
--   unit.
--   A handler runs in turns, each with one call of the queue at most; between two turns any other
--   handler, user or thread may act. `PushRequest` looks for room and pushes in two turns, and the
--   reference that `pop` returned is read in a turn of its own.
--   A JSON number is the 64 bits of its double. `strtod` of the C library and the printer of doubles
--   are parameters; what a round trip of numbers needs of them is a hypothesis on each number.
--   The client works on a session, a state that a request and a pause change: what it asks of Poco.
--   Where client and server stand together, that session brings a request to the handler and the
--   response back as they are (a hypothesis), the handler's turns follow one another with nobody else
--   at the server, and a handler that takes more turns than the client waits for is a timeout; the
--   number of turns that is enough is a part of each statement.
--   What boost makes of the command line, and the exceptions that Poco throws when it is to listen
--   and start, are arguments of mqserver's main, which ends, or leaves a server that runs.
--   A value that a program changes is a cell: a value, or a string whose pointer is null. Each method
--   gives the cell that it leaves and counts the objects, arrays and strings that it allocates and
--   deletes. The parser is a function from texts to values, where a repeated key replaces the value
--   of the first; of the blocks, its first write over the slot of a key is counted (`parse_into`).
--
-- Not modelled: overflow of `std::chrono` arithmetic, spurious wake-ups (a wake-up is a new step),
--   the joins of the two threads in the destructor of `Queue` (what a thread does after `run` is
--   cleared is a step that changes nothing), exceptions for lack of memory, the times that the client's speed tests print, the destructor of
--   `QueueServer` (it deletes Poco's server), aliases between a value and a part of it that is moved
--   into it, and the number printer at the end of server/libjson.hpp, a copy of another project. A
--   conversion of a double that is out of range, which the language leaves undefined, wraps around.
pub mod Client
pub mod Json
pub mod MsgMap
pub mod Prelude
pub mod Queue
pub mod Server
