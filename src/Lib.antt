-- ===== src/Lib.antt =====
-- Cleisthenes: an asynchronous Byzantine fault tolerant agreement in Go. A node batches
-- transactions, agrees with the other nodes on a set of batches, and gives out the decrypted set.
--
-- The parts and the files that model them:
-- - queue.go, transaction.go: the transaction queue and the manager that takes contributions from
--   it at random. Queue; what a proposal does to the queue is in Queue/Conservation.
-- - honeybadger/: `HoneyBadger` keeps one common subset instance per epoch, hands each message and
--   contribution to one, and decrypts the batch that comes back. Honeybadger, over the records
--   AcsOps and Tpke for the interfaces `ACS` and `Tpke`, and Honeybadger/Factory makes the instances
--   of acs/; Routing and Batches hold the proofs.
-- - acs/: `ACS`, the common subset of one epoch, with a broadcast and an agreement for each member.
--   Acs/State is acs/binary_map.go, the interfaces of acs/bba.go and acs/rbc.go and the data of
--   acs/acs.go, Acs/Handlers its methods, Acs/Run its goroutine and Acs/Instances the interfaces as
--   rbc/ and bba/ implement them. Acs/Rules and Acs/Keeps are the rule for invariants; Batch, Completion, History
--   (over Base/History), Final and Members hold the proofs.
-- - rbc/: `RBC`, the broadcast of one value by erasure coding. Rbc/Merkle is
--   rbc/merkletree/merkletree.go, Rbc/State is rbc/request.go and the data of rbc/rbc.go,
--   Rbc/Decode, Rbc/Handlers and Rbc/Input are its methods and Rbc/Run a history of calls. Rbc/Rules lists the
--   writes of the handlers as one record, and Rbc/Keeps derives that a property that all the
--   writes keep holds after every history; Once, Length and Output apply it, Output with Base/History,
--   which finds for each entry of a log the first events after which it was made. Rbc/Merkle/Tree sets
--   the path check against trees as they are defined, and Rbc/Merkle/Binding is about what it
--   accepts. Rbc/Shards, Rbc/Requests and Rbc/Roundtrip set the decoding against the cutting of a value; what they
--   ask of the erasure code and of the tree is in the records Codes and Paths.
-- - bba/: `BBA`, the agreement on one binary. Bba/BinarySet is bba/binary_set.go, Bba/Request
--   bba/request.go and bba/error.go, Bba/State the data and the channels of bba/bba.go,
--   Bba/Local and Bba/Handlers its methods and Bba/Run the `select` of its goroutine. Bba/Rules and Bba/Keeps are
--   the rule for invariants; Quorum, Decision and Provenance apply it. Transport is about messages
--   on their way and Repeats about repeated ones.
-- - binary.go: Binary. member_map.go: Member.
-- - conn.go: Connection is `GrpcConnection` with the loops of its goroutines, one event for each
--   operation on a channel, and Connection/Pool is `ConnectionPool`. Bounds, Fifo and Stuck hold the
--   proofs.
-- - comm.go and stream.go: Grpc, the server, `Dial` and the stream wrappers over the calls of gRPC.
-- - batch_channel.go, binary_channel.go and data_channel.go: Channel. tracer.go: Tracer. tpke/: Tpke.
-- - example/app/: App, the HTTP interface of the example.
-- - core/core.go: Core, the node that is put together from the queue manager, the HoneyBadger and
--   the pool. Connecting and Peers hold the proofs.
-- - config/: Config, with Config/Files for what `Init` writes and `Get` reads.
-- - Network joins the nodes of one protocol instance: a run is a list of events, each at a node that
--   is not faulty, and an event brings a message that its sender has sent before, to anyone, or that
--   a faulty address makes up. Bba/Network and Rbc/Network are the instances of it for the two
--   protocols, with the theorems about all nodes together; Network/Sent relates a run to what has
--   been sent at its end. Bba/Network/Tests and Rbc/Network/Tests run several nodes. Bba/Support is
--   about the rounds in which an instance decides.
--
-- Functions keep the source's names in snake case. A method is a function of the state into an
-- Outcome (Base/Go): a result, a Go error, a send that blocks or a panic, each with the state it
-- leaves behind. A Go map is an association list (Base/Maps) in order of insertion, where Go's
-- order of iteration is unspecified. Locks are left out but for the one of a connection: an instance
-- has one goroutine that runs its handlers, and a call of another goroutine is an event of a schedule,
-- a list. The theorems over all schedules cover every order of whole calls. They do not cover what
-- comes inside a call: the `HandleInput` of `RBC` and of `BBA` runs on the goroutine of its caller, in
-- parallel with `run`, and is one step here. What an instance gives to others with `ShareMessage`, with
-- the channels of its owner (`binInputChan`, the batches and data of `ACS`) and with `resultSender` is
-- logged without a bound, where the source can block on it; Channel and Connection/Pool say when these
-- calls block.
-- Unsigned integers are natural numbers; the round of `BBA` wraps at 2 ^ 64. Lengths are natural
-- numbers, and a difference of `int`s that the source compares with a count is cut off at 0, with
-- the same result. Loops over slices and maps are structural recursion, and no function runs on
-- fuel.
--
-- Parameters are JSON, the hash, the Merkle tree, the erasure code, the coin, `rand`, the package
-- tpke, YAML and viper, the file system, gRPC with its streams, and the formatting and parsing of
-- addresses. A component that another one uses is its functions where the two share state (acs/ over
-- rbc/ and bba/), and a record of operations where the source has an interface. Messages between
-- components are logged by the one that sends them and are arguments of the one that takes them;
-- Channel has the buffers between them.
--
-- Not modelled: the goroutine of `Serve`, beyond the calls that it makes, the router of the HTTP
-- example, generated code, the command line and the test doubles.
pub mod Base
pub mod Binary
pub mod Member
pub mod Network
pub mod Connection
pub mod Core
pub mod Config
pub mod Bba
pub mod Queue
pub mod Honeybadger
pub mod Rbc
pub mod Acs
pub mod Channel
pub mod Grpc
pub mod Tpke
pub mod Tracer
pub mod App
