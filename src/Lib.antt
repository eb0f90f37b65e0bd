-- ===== src/Lib.antt =====
-- The verification library of the trading matcher: the limit order book and its matching engine,
-- the single-producer single-consumer queue, the asynchronous logger on top of it, the order pool,
-- the socket servers, the clients of web services, and the tools for tuning and measuring.
--
-- How the parts interact. `Matcher` (include/order_matching/Matcher.hpp) asks `OrderBook`
-- (OrderBook.hpp) for the best bid and ask while their prices cross, lowers the quantities of the
-- two orders, and cancels those with nothing left. `OrderBook` keeps two maps from prices to
-- `PriceLevel`s, each a FIFO queue of pointers to `Order`s (Order.hpp), a map from ids to pointers,
-- and the best prices. Orders are stamped by the clock of include/utils/Timestamp.hpp.
-- `AsyncLogger` passes its messages to its worker through an `SPSCQueue`, and
-- `demonstrateSPSCQueue` of src/main.cpp passes orders of a pool from one thread to another.
-- `MarketDataHandler` fetches a document by `Client` and reads it as JSON; `Server` answers
-- requests in JSON. `Benchmark` measures by the clock. The servers of include/networking hand what
-- they receive to a handler that their owner supplies.
--
-- Which file models what:
--   Base            the shared names, Boolean tests, lists and signed integers
--   Timestamp       include/utils/Timestamp.hpp: the timestamps over the answers of clock_gettime;
--                   Timers has the timers and the calibrator, Cycles is about them, Counters and
--                   Halves about readings of the cycle counter, and Doubles is the interface to the
--                   arithmetic of double
--   Order           include/order_matching/Order.hpp: the record, its side, comparisons and prices
--   Ladder          std::map with price keys, as a list in ascending order of the keys
--   PriceLevel      PriceLevel of include/order_matching/OrderBook.hpp
--   OrderBook       OrderBook of the same file; its children prove what each operation does, View
--                   gives the queue at a side and price, Invariant says when a book is well formed
--   Matcher         include/order_matching/Matcher.hpp; Pair, Fill and Round are about one trade,
--                   Run and Settled about the loop, Livelock about orders whose id is forgotten,
--                   Session about any sequence of calls, Miscount about the counters of the levels;
--                   Priority says what price-time priority asks, Market shows a book in these
--                   terms, Refinement is about the loop, and Determined and Board about what its
--                   result depends on; Requests says what an owner may ask of a market, and
--                   Entries, Answering and Simulation are about a session that answers, and Ledger
--                   about its quantities
--   SpscQueue       include/utils/SPSCQueue.hpp; Fifo and Sequence are about calls one at a time,
--                   Threads has the steps of a producer and a consumer, Interleaved what they keep;
--                   Misuse has a second producer and consumer, and Pointers is the specialization
--                   for pointers
--   AsyncLogger     include/utils/AsyncLogger.hpp; Written says where lines go; Session, Lossless
--                   and Idle are about calls of log between rounds of the worker, and Restart about
--                   a second start
--   MemoryPool      include/utils/MemoryPool.hpp; Recycling is about the slots that it gives out,
--                   and Numa has its constructor on a node
--   Network         the system calls that the servers make, and what answers them
--   EpollServer     include/networking/EpollServer.hpp; Setup, Accept and Events are about its
--                   methods, and Table and Watched about the descriptors of its event loop
--   UdpServer       include/networking/UDPServer.hpp, both classes
--   LinuxOptimizations   include/utils/LinuxOptimizations.hpp, as actions that make system calls
--   Benchmark       include/utils/Benchmark.hpp; Print has what it writes
--   Client          src/networking/client.cpp: the environment file and the transfers; Main is main
--                   of src/networking/Client_main.cpp
--   Json            what is used of the JSON library, as an interface, and calls that may throw
--   Server          src/networking/server.cpp; Accept has the accept loop, and Main is main of
--                   src/networking/Server_main.cpp
--   MarketData      src/market_data/MarketDataHandler.cpp
--   Demo            demonstrateSPSCQueue of src/main.cpp; Lines is about what its threads log,
--                   Invariant, Producing, Consuming and Delivery about what holds of them, Measure
--                   and Ending about their ends, and Outliving about orders of a thread that has
--                   ended
--   Console         the lines that main of src/main.cpp logs
--   Program         main of src/main.cpp up to demonstrateSPSCQueue; Adding, Placing and Opening
--                   are about its book over the memory of its pool, Lines, Run and Whole about what
--                   it logs and does, and Delivery about its log file
--   Tests           runs on small inputs, and the theorems applied to them
--
-- How state is represented. An `Order*` is an address into a store of orders, a function; what a
-- method changes through a pointer is a new store. `World` has the book, the store and the number
-- of readings of the clock so far. std::unordered_map is a partial function. Quantities and
-- counters are natural numbers that wrap at 2^32 or 2^64 where the code computes with them; prices
-- and timestamps are integers, which the code compares but, in the getSpread case only, subtracts:
-- there the model says when int64_t overflows. The servers are sequences of system calls: an `Os`
-- answers each call, and its answer may depend on all calls before; the functions of
-- LinuxOptimizations.hpp are actions over a `Kernel` of the same kind. libcurl, the JSON library,
-- the arithmetic of double, localtime and snprintf are records of functions that are given to the
-- model. An exception is a value of `Outcome`. A text is the list of its bytes.
--
-- Loops. matchOrders, flush, the worker of the logger, handleNewConnection, loadEnv and
-- handleClient run on fuel, and give `none` if it does not suffice. The measures are the orders in
-- the book, the messages queued, the connections waiting, the bytes of the file and the lines sent:
-- one round more than there are of them. The endless loops of the servers are single rounds or a
-- given number of them.
--
-- The memory of the queue's threads is sequentially consistent, each step one access: of the
-- orderings of C++ the model has what the release stores and the acquire loads give.
--
-- Not modelled: handleOrderRequest of server.cpp, which names types and members that no header
-- declares, and is a parameter; exceptions that leave io_context.run() in Server_main.cpp; the
-- sleeps of src/main.cpp; the fields of the address and of the multicast group, which are within
-- the calls that take them; the free list of the pool, which is not read; the intrinsics for rdtsc
-- and rdtscp; include/utils/SPSCQueueExample.hpp, which is one comment; and main's logger from the
-- demonstration on, where several threads push to its queue, and then the flush of main and the
-- worker both pop from it: SpscQueue.Misuse has what two threads on one end of the queue can do.
pub mod Base
pub mod Timestamp
pub mod Order
pub mod Ladder
pub mod PriceLevel
pub mod OrderBook
pub mod Matcher
pub mod SpscQueue
pub mod Network
pub mod EpollServer
pub mod UdpServer
pub mod AsyncLogger
pub mod MemoryPool
pub mod LinuxOptimizations
pub mod Benchmark
pub mod Client
pub mod Demo
pub mod Console
pub mod Program
pub mod Json
pub mod Server
pub mod MarketData
mod Tests
