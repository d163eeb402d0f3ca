-- ===== src/Lib.antt =====
-- The HTTP service of this repository: a login, a chat with a cache of replies, tools, and a search
-- over documents, on an event loop library of its own.
--
-- A request comes in as bytes, which the `Buffer` of a connection collects. `parseHttpRequest`
-- (src/HttpCodec.cc) makes a request of them, `handleRequest` (src/main.cc) chooses the handler by
-- the path, and the handlers call the user store, the AI client, the tool registry and the document
-- store. The AI client keeps its replies in an LFU cache.
--
-- HttpCodec (src/HttpCodec.cc): Strings has the text helpers and the responses, Json
--   `extractJsonStringField`, Request `parseHttpRequest`. The others are proofs: Escape on
--   `jsonEscape`, Numbers on Content-Length, Accepts and RoundTrip on the parser, Lines on the loop over
--   the header lines, Said on what a line says, Shape and Sound on what every accepted text looks
--   like, Fields on the search for a field.
-- UserStore (src/UserStore.cc, include/UserStore.h): State has the records, Password the hash and
--   the tests of names and passwords, File the user file (`load`, `appendUserLocked`), Accounts
--   `registerUser` and `login`, Sessions `authenticateBearerToken`. The proofs: Hex on the printed
--   hashes, UserLine on one line of the file, Restore on all lines, Restart on a registration and a
--   later start, RateLimit on `isRegistrationLimitedLocked`, Outcome on the branches of a
--   registration, Life on sessions.
-- Lfu (include/LFU.h): Cache has `KLfuCache`, Slices `KHashLfuCache`. The proofs: Linked on the
--   frequency lists and the map of nodes, Counting on sums and least frequencies, Ageing on the loop
--   of `handleOverMaxAverageNum`, Invariant with the invariant, Counted on `addFreqNum`, Uses on
--   `getInternal` and `get`, Puts on the new node of `putInternal`, Evictions on `kickOut`, Stores and
--   Refreshes on the two branches of `put`, Totals on how far the count of the uses grows, Runs on
--   `put` and on sequences of calls, Sliced and Recall on the slices.
-- Rag (src/RagStore.cc): Tokens has `tokenize` and the embedding, Store the store and the search. The
--   proofs: Words on tokens, Documents on the documents.
-- Tools (src/ToolRegistry.cc): Registry has the registry and the default tools.
-- Environment (src/UserStore.cc, src/AiClient.cc): the reading of environment variables.
-- AiClient (src/AiClient.cc): Config, Reply and Chat have the configuration, the reading of a reply
--   and `AiClient::chat`; Answers and Repeats have the proofs on `chat`.
-- Service (src/main.cc): State, Handlers and Routes have the handlers and the routing, Messages
--   `onMessage`, between a connection and the routes. The proofs: Accounts on the handlers one by one,
--   Requests on every text that comes in, Replies on an exchange over a connection.
-- Buffer (include/Buffer.h, src/Buffer.cc): Storage has the class and `readFd`. The proofs: Queue on
--   the space and on writing, Reads on `append`, `readFd` and reading.
-- EventLoop (src/EventLoop.cc): Tasks has the queue of functors and the wake-ups, Rounds the steps of
--   `loop()` with those of other threads between them. The proofs: Wakeups on every state that is
--   reached, Batch on `doPendingFunctors`.
-- Reactor (src/Channel.cc, src/EPollPoller.cc): Channel has the events and the dispatch of the
--   callbacks, Epoll the interface to epoll, Poller `EPollPoller`, Objects the channel objects and the
--   calls of their owners. The proofs: Bits on the events, Updates and InStep on the interest
--   list.
-- Connection (src/TcpConnection.cc): State, Sending and Handlers have the class, Events what happens to
--   a connection. It uses Buffer for its bytes and Reactor for its channel. The proofs: Writing,
--   Accepting, Handling and States on the operations, Stream on sequences of events, Closing on `shutdown`.
-- Timers (src/TimerQueue.cc, src/Timer.cc): Queue has the set of timers. The proofs: Order on the set,
--   Arming on the descriptor, Readings on the readings of the clock, Restarts on what stays in the set.
-- Server (src/TcpServer.cc, src/Acceptor.cc, src/EventLoopThreadPool.cc): LoopPool has the loops of the
--   threads, Acceptance the map of connections. The proofs: RoundRobin, and Identifiers
--   and Names on the names.
-- MemoryPool (memory/memoryPool.cc, include/memoryPool.h): Pool has `MemoryPool`, Buckets the choice of
--   a pool. Uses what the owners of the memory do. The proofs: Apart on lists of slots, Blocks on
--   a new block and a new slot, Slots on sequences of uses.
-- Base: shared names, Boolean tests, lists, bytes, association lists for maps.
-- Tests: runs of the models, and the theorems at concrete inputs.
--
-- A string is a list of byte values. A `std::map` is an association list in the order of its keys,
-- an unordered map one in the order of insertion. An operation of a class takes the state and gives
-- the new one back, in one step: calls of one object from several threads come one after the other.
-- The user store and the slices of the cache lock for a whole call; but `AiClient::chat` takes the
-- lock of the cache once for `get` and once for `put`, `InMemoryRagStore` has no lock, and
-- `MemoryPool::allocate` reads `freeList_` before it locks and takes two locks, so what other
-- threads do between these is not covered. The disk, the clocks, the random numbers, curl and the
-- hash of the standard library are arguments. Words of 64 bits wrap where the code computes a hash
-- and where it pads a pointer; counts of the cache do not wrap, and do not need to for fewer than
-- 2 ^ 31 calls of it. In the event loop the steps of other threads may come between any two of its own.
-- What `write`, `sendfile`, `readv` and `accept` give, and the addresses of new blocks, are
-- arguments; epoll is an interface with the laws of its manual page, which the tests fill with an
-- association list.
--
-- The loop over the header lines is on fuel, with one round for each byte of the text, since each
-- round passes a line end. The loops that print numbers have one round for each unit of the number,
-- or one for each digit of a fixed width.
--
-- Not modelled: the pages of src/WebPages.cc, which are constants; sockets, the threads themselves
-- and the log, which are system calls and output; the set-up of descriptors; the poller for systems
-- without epoll.
pub mod Base
pub mod HttpCodec
pub mod UserStore
pub mod Lfu
pub mod Rag
pub mod Tools
pub mod Environment
pub mod AiClient
pub mod Service
pub mod Buffer
pub mod EventLoop
pub mod Reactor
pub mod Connection
pub mod Timers
pub mod Server
pub mod MemoryPool
pub mod Tests
