-- ===== src/Lib.antt =====
-- Photon: the in-memory store and its cache, the data structures under them, feature flags, the
-- worker overseer, the coordination primitives, and the helpers of the SQL databases.
--
-- The program is a Go toolkit. Its own core logic is storage/flashdb, a sharded in-memory store with
-- byte budgets, and utils/stdlib, the data structures: the store keeps in each shard a map and an
-- LRU, and admits new records by a TinyLFU, which counts uses in a Count-Min sketch. Beside them
-- stand the Bloom filter over a bit set and a linked list. caching/flash.go is a cache over the store.
-- core/features evaluates feature flags, workers restarts the goroutines of services, and coordination
-- has retries, locks and rate limits. storage/postgres and storage/mysql build statements.
--
-- Base has what the parts share: Boolean tests (Base/Tests), lists measured by native numbers
-- (Base/Lists), signed integers (Base/Int), Go maps as association lists (Base/Dict) and masks of
-- machine words (Base/Bits, Base/Digits).
--
-- Stdlib/Lru is utils/stdlib/lru.go: get, peek, set, delete, purge and so on are Get, Peek, Set,
-- Delete, Purge. A list element has an identity, which the index of the cache refers to.
-- Recency is the specification, a list of entries with the most recent first; Links, Entries, Reads,
-- Removal, Writes and Bound relate the operations to it. Evicted entries are recorded in the order
-- in which the hook is called.
--
-- Stdlib/Sketch is utils/stdlib/sketch.go (new_sketch, increment, estimate, age, reset are
-- NewCountMinSketch, Increment, Estimate, Age, Reset; Hashes has the mixers). Counters are at
-- most 2^32 - 1. Cells and Rows are the lemmas on rows, Estimates one observation, History many.
-- Stdlib/TinyLfu is utils/stdlib/tiny_lfu.go (note is Record, note_n is RecordN).
--
-- Stdlib/BitSet is utils/stdlib/bitset.go. Kernighan's loop runs on 64 rounds of fuel, the number of
-- bits of a word. Stdlib/Bloom is utils/stdlib/bloom.go with utils/encoding/murmur.go; an index
-- past the seeds panics, which is none. Stdlib/LinkedList is utils/stdlib/linkedlist.go; a step
-- from nil is the outcome panic. Stdlib/Stack is utils/stdlib/stack.go.
--
-- Flashdb/Value is the records, errors and arithmetic of storage/flashdb (record.go, errors.go,
-- utils.go); Flashdb/Shard is shard.go and the two eviction loops of store.go, with fuel: a round
-- for each LRU entry, and one more for the loop that makes room. Flashdb/Cell has
-- the methods of store.go on one key as steps of one shard and the TinyLFU, each under the lock
-- that the method takes; Flashdb/Store is New, shardFor, the empty key and the batch methods.
-- Exists takes two locks, so it has what happens between them as an argument. A Go map that is
-- walked is a list in the order of the walk, any order. Interleavings of goroutines are sequences
-- of lock sections (Flashdb/Cell/Safety, over Flashdb/Cell/Operations).
-- The bytes of a string, the estimator of sizes and the float64 sum are parameters (Env).
--
-- Caching/Flash is caching/flash.go: its methods on one key, over Flashdb/Store; Batches are those
-- on many keys. Keys is composeKey, Replies what MultiGet answers, Safety sequences of requests, RoundTrip a Get
-- after a Set (Flashdb/Store/RoundTrip is the store's part of it).
--
-- Features is core/features: Conditions, Evaluation and Validator are evaluation.go and validator.go,
-- with none for a panic of ==. Matching, Gates and Buckets are the proofs. Floats, the parser of times,
-- ToUpper and FNV are parameters; what a proof relies on of floats is named there.
--
-- Session is config.go and helper.go of core/session; apply_defaults is applyDefaults.
--
-- Storage has what the helpers of the SQL databases do up to the execution of a statement:
-- Storage/Postgres is storage/postgres/pghelper.go and Storage/Mysql is storage/mysql/helper.go. Text
-- has what they use of strings and strconv (numbers are not negative there; as many rounds as the
-- number and one more give all digits), Result their errors and the replies of the driver, Identifiers
-- the loop over the segments of a name, Fields the fields of structs with their tags, InClause and
-- HashKey the two functions that both files have. Postgres/Ident is safeIdent, Where
-- convertWhereParamsToPg (a round for each question mark), Named the converter of named parameters
-- (a round for each byte at most), Statements and Structs the insertions, updates and deletions.
-- Pieces, Binding and Run are the proofs for the converter, Positions those for bulk insertions.
-- Storage/Elastic is the paging by search_after of storage/elasticsearch/helper.go: Slices has lemmas on
-- lists, Pages the jump, Ranked a server that ranks by sort values, Fetch the loop behind the
-- jump, and Ties that loop on documents that share a sort value; Scroll is
-- getDocumentsWithScrollSession, and Wanted what it returns. The jump has a round for each document to skip
-- and one more; the loop behind it runs on fuel.
-- A text is a list of code points, a Go map an association list, and a row of a struct the list of
-- its fields. The execution, json.Marshal, the format of a value and the hash are parameters.
--
-- Workers/Restart is workers/restart.go: trackWorkerRestart and computeWorkerRestartBackoff. Config is
-- workerconfig.go and the loops over the configurations, Options the settings, Registry the maps of
-- runtime.go, watchdog.go and status.go. Monitor has the events of the overseer as functions of one state; Reachable is
-- the step relation and the states it reaches, Consistent and Events the lemmas for it, Failures the
-- way from the end of a run to a relaunch. Times and new ids are arguments of the events.
--
-- Coordination/Backoff is coordination/backoff/exponential.go; the loop of Retry runs on the number of
-- attempts that are left, which is MaxRetries and one at the start. Coordination/RateLimiter and
-- Coordination/Locker are redis_limiter.go and redis_locker.go of coordination/concurrency with their
-- Lua scripts. The commands of Redis are parameters, with their documented behaviour as hypotheses
-- of the proofs; the loop of Lock runs over the times of its tries.
--
-- Tests modules hold runs at concrete inputs.
--
-- Not modelled: everything that is input and output, the clients of databases and services, the
-- adapters of third-party libraries, logging and telemetry, and so far the manager of sessions, the
-- overseer's own restarted loop, the loading of feature flags, reading queries and the other caches. Races of goroutines on
-- the shared TinyLFU are not modelled: each lock section sees it alone.
pub mod Base
pub mod Stdlib
pub mod Flashdb
pub mod Caching
pub mod Features
pub mod Session
pub mod Storage
pub mod Workers
pub mod Coordination
