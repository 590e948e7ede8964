-- ===== src/Lib.antt =====
-- A self-healing distributed cache: nodes that each keep a store in memory, place keys on a ring by
-- consistent hashing, replicate to the next nodes of the ring, and migrate keys when the ring changes.
--
-- The parts. internal/store/store.go is the store of one node (Store.antt), over the clock of
-- Time.antt. internal/ring/ring.go is the ring (Ring.antt). internal/cluster/cluster.go is the table
-- of the nodes that are alive (Cluster.antt), over memberlist, which is a parameter. internal/server/server.go answers the requests of
-- clients and of other nodes (Server.antt), over the messages of Http.antt; what it asks of the ring
-- is the record of Placement.antt, which a ring fills with its laws. internal/rebalance/rebalance.go moves keys to their owners
-- (Rebalance.antt); Migration.antt has two nodes and the network between them. cmd/cache/main.go puts a
-- node together from its flags (Command.antt); cmd/cache-client/main.go sends it one request
-- (Client.antt); internal/chaos/chaos.go sends it test traffic (Chaos.antt). Network.antt is a node as those
-- see it that send it requests. The helpers are in
-- Prelude.antt, and what the commands use of Go's texts and addresses in Text.antt. The children of a
-- module have the rest of its operations and its proofs.
--
-- The store. `Store` has the fields of the Go struct: the map of entries, the memory counter and cap,
-- the LRU list of `container/list`, whose elements have a number in place of a pointer, and the
-- number that the next element gets. The stop channels are the flag `closed`. An operation takes the
-- clock readings that the code makes as arguments. A string is a list of characters, one for each
-- byte. The operations run under the mutex of the store, one after the other; `Get` takes the lock
-- twice, so it is `get_read` and `get_finish`, and Store/History.antt lets anything happen in between.
-- `Set`, `SetWithExpiry` and `SetVersion` share the text that replaces an entry (`put_entry`).
-- The loop of `evictIfNeeded` has one round of fuel for each element of the list and one more, which
-- suffices since each round takes an element away. Integers are `int64` bit patterns
-- (Prelude/Int64.antt).
--
-- The ring. `Ring` has the fields of the Go struct. SHA-256 is the parameter `sha256`, of which the
-- theorems need that a digest is a list of bytes. `sort.Search` is the binary search of
-- Ring/Search.antt, on as many rounds as there are points; `sort.Slice` is an insertion sort. The
-- loops over the virtual nodes and around the ring have the rounds that the code makes.
--
-- The server. `Server` has the fields of the Go struct, but for its locks and its logger; a goroutine
-- that is started is an element of `tasks`. Whatever is around a node is a state of any type, which
-- the transport and the clock (`Env`) change. `Placement` is what the ring answers while a request is
-- served; where `Replicas` panics, it has no replica.
-- A JSON body is the members of an object, with the value that counts for each name, or another
-- document, or bytes that do not decode. A handler, a task and a tick are each one step
-- (Server/Tasks.antt), so that what other requests do while a handler waits for the network is
-- not covered, but for the quorum writes of one key: Server/Race.antt has their steps in any
-- interleaving. The loops are recursion on the lists that they range over. Server/Shutdown.antt has the
-- retry loop, on a list of what wakes it, and the shutdown that waits for the tasks.
--
-- The commands. Their flags are records, after the parsing of the command line. Numbers of type `int`
-- are 64-bit patterns. A text of the flags has a character for each byte, and blanks are those of ASCII.
-- The test traffic takes its random numbers from a parameter, and its goroutine is a function of what
-- wakes it; a loop over attempts has one round for each retry that is left, and one more.
--
-- Not modelled: logging, the text of errors, HTTP headers, the timeouts of the transport, the parsing of
-- flags, signals and the HTTP listener of the commands, the membership protocol of memberlist, the text
-- of the chaos report with its floating-point percentages, and the embedded website.
pub mod Chaos
pub mod Client
pub mod Cluster
pub mod Command
pub mod Http
pub mod Migration
pub mod Network
pub mod Placement
pub mod Prelude
pub mod Rebalance
pub mod Ring
pub mod Server
pub mod Store
pub mod Text
pub mod Time
