-- ===== src/Lib.antt =====
-- golang-toys: models of its small systems, with the theorems that make them correct.
--
-- micro-cassandra is a key-value store. A database (micro-cassandra/db.go) keeps rows in a memtable
-- (memtable.go) and writes them to sorted files (sstable.go) when there are enough; `Compact` merges the
-- files, and opening a directory loads those that are there.
--   Cassandra/Entry     entries, Go's string order, lookup and sorting in a list of entries
--   Cassandra/Memtable  memtable.go: put, get, sorted, size, reset
--   Cassandra/Format    sstable.go: writeField, readField, and the loops of get and entries
--   Cassandra/Name      db.go: sstablePath and the pattern of loadExistingSSTables
--   Cassandra/Table     sstable.go: flush, openSSTable, mergeEntries; db.go: removeFiles
--   Cassandra/Db        db.go: Put, Get, Compact, Close, Stats, Open, OpenWithThreshold
-- The directory is a list of named files. A method that writes takes a `Fault`, which says what the
-- operating system refuses during the call: nothing, the creation of the file, the writing after some
-- bytes, or the removal of any of the old files. That a file which is there can be opened and read is not
-- refused. What `filepath.Glob` answers for a directory whose path has a metacharacter is an argument of the
-- opening; theorems that open a directory assume that its path has none. Map
-- iteration order is not seen: rows are sorted before they are written. Reading loops run on fuel, one
-- more than the number of bytes, and each round reads a header of four bytes at least. Names have eight
-- digits up to number 10^8 - 1.
--
-- db-as-a-service puts HTTP in front of several such databases.
--   Service/Tree       the directories: what os and filepath do; dbmanager.go: dbDir, removeDir
--   Service/Manager    dbmanager.go: NewDBManager, Create, Get, List, Delete, CloseAll
--   Service/Compactor  compactor.go: compactAll, compactOne
--   Service/Server     server.go: the handlers and the routes
--   Service/Main       main.go: main; compactor.go: Run, among the requests
-- A request comes with the path values that the mux found and with the result of the JSON decoder. The
-- theorems on whole sequences of requests are about names that stand for one directory below the root and
-- have no metacharacter of `filepath.Glob`. The files of other databases that a database with another name
-- may open are not among the files of its directory here.
--
-- p-percentile-window answers percentiles of the latencies of the last window.
--   Percentile/Observation  latency.go
--   Percentile/Treap        treap.go: the tree with priorities and sizes, and TreapWindowPercentile
--   Percentile/Naive        naive.go: NaiveWindowPercentile
--   Percentile/Arrange      the sequence that insertions build, and the sorted slice
--   Percentile/Agreement    the treap window and the naive one side by side
--   Percentile/Histogram    histogram.go: HistogramWindowPercentile
-- The priorities that the random source draws are arguments. The index `int(float64(n) * p)` is a
-- function given as an argument, of which only the range is assumed.
--
-- conflict-free-replicated-datatypes replicates a text among peers that exchange ops.
--   Crdt/Node  crdt/rga.go: NodeID, less, Node
--   Crdt/Op    crdt/op.go: MarshalBinary, UnmarshalBinary
--   Crdt/Rga   crdt/rga.go: NewRGA, Insert, RemoteInsert, Delete, Values, VisibleNodes; ui/ui.go:
--              applyRemote
--   Crdt/Ui    ui/ui.go: handleKey, insertRune, prevVisible, nextVisible, layout, currentPos,
--              moveByLine, draw (in Crdt/Ui/Screen), and the loop of Start over a list of events
--   Crdt/Peer  server/server.go: broadcast, recvLoop, on the list of the messages that the socket gives
--   Crdt/Main  main.go: main; server/server.go: Start; ui/ui.go: the calls of Start, PostRemoteOp
-- A linked element is known by an address, which is an argument where Go allocates.
--
-- rate-limiter decides which events of a key are permitted.
--   RateLimiter/Interface    limiter.go: the interface, with what it means that keys are kept apart
--   RateLimiter/FixedWindow  fixedwindow/fixedwindow.go: New, Allow
--   RateLimiter/SlidingLog   slidinglog/slidinglog.go: New, Allow
--   RateLimiter/SlidingWindow, TokenBucket, LeakyBucket   New and Allow of the packages so named
--   RateLimiter/Float        what they do with float64
-- A float64 is of any type with the operations of Float; the laws that theorems use are those of IEEE 754
-- rounding and comparison.
-- Times are nanoseconds since Go's zero time.
--
-- otel keeps counters in time windows, filled by POST /v1/metrics and read by GET /metrics.
--   Otel/Store        store.go: NewWindowedStore, Set, GetWindows
--   Otel/Fingerprint  handler.go: fingerprintAttrs, parseFingerprint
--   Otel/Handler      handler.go: IngestHandler, QueryHandler, seriesToResponse, dataPointValue
--   Otel/Client/Print cmd/client/main.go: buildRequest, printRequest, fmtAttrs, attrsToMap, dpValue
--   Otel/Client/Run   cmd/client/main.go: send, query, main and the table of rounds
-- A float64 is of any type with a zero and an addition, and the decoding of protobuf is any function. Times
-- are not before 1970, and epochs do not overflow. A map is a list of rows, and its order of iteration is
-- that of the list; Otel/Client/Rows says when two answers differ only in the order of such rows.
--
-- Base has the shared names, Boolean tests, lists, orders, bytes, machine integers and insertion sort.
-- Files below a component hold its theorems and are named for what they prove; Tests files apply them.
--
-- micro-cassandra, rate-limiter and the store of otel hold a lock for the whole of an operation, the
-- manager of db-as-a-service for the whole of a method, and the others are used by one goroutine, so
-- operations run one after the other and are functions on the state. A request to db-as-a-service takes
-- the manager's lock and then the database's; the interleaving of two requests between the two is not
-- modelled.
--
-- Not modelled: what the terminal and the sockets do; the JSON that handlers write; the start-up of otel's
-- server; flags, benchmarks and tests.
pub mod Base
pub mod Cassandra
pub mod Service
pub mod Percentile
pub mod Crdt
pub mod RateLimiter
pub mod Otel
