-- ===== src/Lib.antt =====
-- A model of the Go package `elliptics`, the client library of the elliptics key-value storage, and
-- its theorems.
--
-- The package calls the C++ client through C functions (elliptics/session.cpp). A request makes a
-- Go channel, stores two closures in a global table under fresh numbers, and hands the numbers to
-- C. C calls one exported Go function for each result and one for the end; these find the closure
-- by its number. Beside the requests, the package gathers statistics of the servers: who holds
-- which part of the ring of identifiers (from the routing table), the counters of each backend
-- (from JSON replies), rates between two samples, and a controller's "pain" of each backend.
--
-- Which file models what:
--   * Base: tests, lists, maps (Base/Dict, an association list in the order of `range`), 64-bit
--     words with their wrap-around (Base/Word), signed integers and Go's conversions (Base/Int),
--     numbers as text (Base/Text), float64 as an interface (Base/Float).
--   * Errors: elliptics/errors.go. Pool: elliptics/pool.go, the table of contexts.
--   * Wire: elliptics/ctogo.go, with addresses (Wire/Address), attributes (Wire/Attributes) and
--     time.Unix and Time.Sub (Wire/Time); Wire/RoundTrip relates both directions, and Wire/Texts has
--     the texts of addresses. The accessors of the C structures are those written in C there.
--   * Json: elliptics/stat_json.go, with the sums of the counters (Json/Counters).
--   * Stat: elliptics/stat.go. Types has the data; Address NewAddressBackend; Find FindBackend and
--     FindStatBackend; Pid PIDUpdate; Ring Finalize, with the points of the ring in Ring/Points
--     and the order of its maps in Ring/Order;
--     Entry AddStatEntry (Entry/Parts: a description of each part); Diff Diff; Report StatGroupData
--     and StatData; Texts the String methods and
--     IDString. The modules below them hold the proofs.
--   * Route: elliptics/route.go, GetRoutes; Route/Shares follows a routing table to the shares,
--     Route/Groups to the groups, and Route/Texts has the text of an entry.
--   * Session: elliptics/session.go and elliptics/callback.go. Results has the values on the
--     channels, and Interfaces their methods; World the shared state with channels, contexts, key
--     sets and calls into C; Callback the closures and the step that a callback takes; Arrival the exported functions at their C
--     arguments; Requests and Writes the requests, Bulk the bulk write, Chunks and Uploads the
--     chunked write with its closures, Stream StreamHTTP, Statistics the request for statistics of
--     elliptics/stat.go, Backends the requests of elliptics/backend.go, Located LookupBackend, Keys
--     elliptics/key.go, Settings the settings of a session. The modules below these hold their
--     proofs. Session/Delivery runs a request among events of others (Frame and Steps: other
--     requests' events; Own: its own; Begin: new requests; Chunked and Opening: the chunked write's;
--     History: whole runs; Shrinks and Order: the worlds that a session reaches). Session/Requests holds what
--     ends at once and what a write does until its end. Session/Ledger follows all requests at once:
--     a ledger of those for which C has a call, the moves that its contract allows, and the states
--     that are reached by them (Frame: what a step leaves alone; Turns, Kept and Regions: the state
--     against the ledger; Answers, Closing, Ends, Fresh, Begins, Refusals and Uploads: each kind of
--     step; Safe and Promises: all moves; Made: the requests of the library are moves; Reports: what
--     an end leaves on the channel; Sends and Drained: how all of them are ended).
--   * Node: elliptics/node.go, the remotes and the timeouts that a node is given.
--   * Tests: concrete runs.
--
-- How the code became a model. A function that changes state takes the state and returns the new
-- one. A panic and log.Fatalf are `none`. The global table, all channels and the key sets that C
-- holds are one record, World; closures are data (Session/World, `Value`), with the numbers that
-- they capture. Concurrent callbacks are a sequence of events: each closure runs as one step, since
-- it only touches its own channel and the locked table. A channel is the list of what was sent on
-- it; the wait for a full buffer of ten is left out, so what is shown of sends is shown for callers
-- that read on. An answer to Write, WriteKey, WriteCache or Cache is `none`: the closure that they
-- store is of a defined type, and callback.go asserts the unnamed one. A *StatBackend is the
-- place where the statistics hold it. A Go map is visited in the order of its list, so a theorem for every list is one for
-- every order. Arithmetic on uint64 is modulo 2 ^ 64, and the counter of contexts wraps too.
--
-- Arguments of the model, for what is not in the repository: the decoder of JSON (`unmarshal`), the
-- search of a key by the C library (`keys_find`), whether C allocated a key, the text of an
-- address, the reading of a clock, the order of strings, and the sizes of the arrays of the C
-- headers. The loops are structural recursion on a list, but for two. StreamHTTP is on fuel, one for
-- each round: as many as the bytes that are asked for have parts of 10 MiB are enough where the
-- servers serve them. A chunked write has no loop of its own: each acknowledgement of C writes the
-- next chunk. Also arguments are what io.Reader gives, what the C library makes of the text of an
-- address, what it answers to a remote, and what the channel of each read of StreamHTTP carries.
--
-- The contract of C in Session/Ledger: it answers a request for which it has a call with results of
-- the request's kind, and ends such a call once; a call about backends has its one answer for an end.
-- Answers to a write are allowed by this contract, and panic. The moves that begin a request are
-- those of Session/Ledger/Made; one about indexes panics with no key or no text. BulkWrite is a move
-- from its blobs on: before them it panics at an empty datum (Bulk), and is refused as Bulk/Started
-- says. Write and Cache with functions of the caller are not moves, as those run the caller's code.
--
-- Not modelled: the memory of the texts and keys that are handed to C, which is freed; the log lines;
-- flags.go, logger.go and doc.go, which have no behaviour; the C++ code; the examples.
pub mod Base
pub mod Errors
pub mod Pool
pub mod Route
pub mod Node
pub mod Session
pub mod Wire
pub mod Json
pub mod Stat
pub mod Tests
