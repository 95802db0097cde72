-- ===== src/Lib.antt =====
-- The C++ client for Redis Cluster, include/*.h, as definitions that run, with proofs about them.
--
-- The program sends a command to the node that serves the command's key. A key is hashed to one of
-- 16384 slots (include/slothash.h); the container of connections (include/container.h) finds the
-- connection whose slot range holds it; the cluster object (include/cluster.h) is built from the
-- reply to `cluster slots` and passes calls to its container; a command (include/hirediscommand.h)
-- sends the request, has the reply classified (include/hiredisprocess.h) and follows `MOVED` and
-- `ASK` redirections; an asynchronous command (include/asynchirediscommand.h) does the same in the
-- callbacks of hiredis, and deletes itself at its end; errors are exceptions
-- (include/clusterexception.h).
--
-- Files and sources:
--   SlotHash, SlotHash/Table: `SlotHash::crc16` and `SlotByKey`. SlotHash/Reference is the CRC bit
--     by bit and SlotHash/Spec the part of a key that is hashed, SlotHash/Crc, HashTag, Slots and Tags
--     the proofs.
--   Effect/Exception: the exception classes. Effect/Reply: `redisReply`. Effect/Monad and Calls: the
--     results of C++ code, the calls of hiredis as a record of parameters (`Hiredis`), and a log of
--     what is opened, closed, received and freed. Effect/Live reads the log,
--     Effect/Defined is about calls that come back.
--   Container: `DefaultContainer`; `std::map` is an ordered list (Container/OrderedMap), an iterator
--     a position. Container/Interface is what `Cluster` asks of its container.
--     Container/Search, Nodes, Hosts, Close, Live and Laws are the proofs.
--   Cluster: the class `Cluster`, over any container; Cluster/Routing is about it and its default
--     container together.
--   Process: `HiredisProcess`, with proofs in Process/Redirect and Process/Critical.
--   Command: `HiredisCommand`, `process` and `createCluster`; Command/Replies is about the reply
--     objects, Command/Served, Followed, Answers and Lost are about commands that are
--     served, redirected, answered, and lost;
--     Command/Spares and Startup are about `createCluster`; Command/Buffer: the command object with the
--     buffer of the formatted command.
--   Async: `AsyncHiredisCommand`, its object, its handlers and its destructor; Async/Callbacks: the two
--     reply callbacks and `retry`; Async/Create: `Command`; Async/Connect: `createCluster`,
--     `connect`, `disconnectCb` and the context that the connections share, whose proofs are
--     Connect/Counting, Leads, Created, Leftover and Shutdown. Connect/Adapter: `BoostAsioAdapter` of
--     include/adapters/boostasioadapter.h under them. Async/Steady, Callbacks/Decided,
--     Callbacks/Settled and Create/Sent are the proofs, Async/Containers what they ask of
--     `DefaultContainer`. Async/Callbacks/Handler: `errorHandler` of
--     src/examples/asyncerrorshandling.cpp, and Callbacks/Asked the reply to `ASKING` under it.
--   Boost: `redisBoostClient` of include/adapters/hiredis-boostasio-adapter, and Boost/Waiting the runs
--     of its event loop.
--   Pool: `ThreadedPool` of src/examples/threadpool.cpp; Pool/Disconnect: its `disconnect`, and the pool
--     as a container. Pool/Borrow, Slots, Turns, Filling and Stuck are proofs about one thread,
--     Pool/Threads and Progress about many. Pool/Crew: the threads of `processCommandPool`.
--     Pool/Commands is about synchronous commands over the pool, Pool/Laws is its part of the
--     contract of a container.
--   Socket: the table of unix sockets of src/examples/unixsocketexample.cpp and its connect function;
--     Socket/Config is about reading the table, Socket/Redirect about redirections to its hosts.
--   Text, Int: what is used of `std::string`, `size_t`, `int` and `long long`.
--   Examples: the theorems at concrete inputs, and runs.
--
-- Threads: each call on the pool holds its lock from start to end; a thread that finds no free
-- connection gives the lock up, which is the result `blocked`. What other threads do meanwhile is a
-- sequence of steps of the relation in Pool/Threads. Pool/Crew adds when a thread counts: its nodes
-- answer every command as `commandThread` asserts, and an exception in a thread is outside it.
--
-- Conventions. A throw, undefined behaviour (`fault`) and a wait that only another thread can end
-- (`blocked`) are results beside the normal one, so every function is total. Loops recur on the
-- list or on the rounds left; the one loop that reads a stream gets as many rounds as the text has
-- bytes, which are enough as each round takes one at least. Pointers to connections are numbers, a
-- null pointer is `none`; of a reply that `redisGetReply` did not store `none` is an unset pointer,
-- as it is where `process` returns it, and using that is undefined. A key is shorter than 2^31 bytes. `size_t` and `unsigned` arithmetic is written with its wrap-around.
-- Hiredis, the network and the user's callbacks are parameters; what is asked of them stands as
-- hypotheses.
--
-- Not modelled: the adapters under include/adapters but for redisBoostClient and BoostAsioAdapter,
-- which pass a connection on to an event library; and the programs under src/ but for the class
-- `ThreadedPool`, the table of sockets, `errorHandler` and what the threads of `processCommandPool`
-- do to their pool. The formatting of commands is hiredis' own, and a parameter.
pub mod Base
pub mod Int
pub mod Text
pub mod SlotHash
pub mod Effect
pub mod Container
pub mod Process
pub mod Cluster
pub mod Command
pub mod Async
pub mod Boost
pub mod Pool
pub mod Socket
pub mod Examples
