-- ===== src/Lib.antt =====
-- A Raft node, the persistent log under it, the service in front of it and the membership: src/raft,
-- src/log, src/grpc and src/membership.rs.
--
-- The core (src/raft/core.rs) is a function from the node's state and an event to a new state and
-- an effect or an error. It does no input or output. The runtime (src/raft/runtime.rs) feeds it
-- with events, carries out its effects on the log (src/log.rs) and on the file of the hard state
-- (src/raft/storage.rs), and reports back with the next event. The log is a list of segments
-- (src/log/segment.rs), each a file of records (src/log/store.rs) and a memory-mapped index
-- (src/log/index.rs). Clients write through the gRPC service (src/grpc/client_transport.rs), which
-- sends a message to the runtime and waits for its answer. The membership (src/membership.rs) joins
-- the other nodes through Serf, and reports nothing to the rest yet.
--
-- Which file models what:
-- Raft/Types the data of src/raft/types.rs; Raft/Peers the maps and sets of nodes; Raft/Core and
--   its children `Raft::handle` and one function for each of its handlers, under their names.
-- Raft/Terms, Raft/Votes, Raft/Elections elections; Raft/Commit, Raft/Appends, Raft/Replicated
--   replication; Raft/Majorities what a majority of votes and of reports brings about; Raft/Bounds
--   the width of the numbers; Raft/Failures errors and panics; Raft/Conflicts where the code departs
--   from Raft.
-- Raft/Cluster any number of nodes, as a relation: a node takes an event, or restarts from its hard
--   state. What is sent may be lost, kept or sent again, but a vote that is counted was cast.
-- Raft/Storage `load_state` and `save_state`, on the bytes of the file.
-- Raft/Runtime/Start, Execution, Driving and Serving `Runtime::new` (here `start`), `execute`, `drive`
--   with `handle_message`, and `run`; the other files under Raft/Runtime are proofs on them.
-- Log/Store, Log/Index, Log/Segment and Log/Segmented the four parts of the log, under the names of
--   the source's functions; Log/Segmented/Directory the names of the files in the log's directory, and what
--   `new` opens there;
--   Log/Segmented/Lookup and Refinement the log against a plain list, also over closes and crashes;
--   Log/Io the calls of std::io that they make.
-- Grpc `ClientTransport::write` (here `write_request`); Grpc/Replies puts it in front of a runtime.
-- Membership `Membership::new` of src/membership.rs.
-- Prelude lists over native numbers, Boolean tests, u32 and u64 arithmetic, big-endian bytes.
-- Raft/Tests and Log/Tests the repository's own unit tests, each a Boolean under the test's name.
-- The files named Examples, and Raft/Scenarios, run the theorems on a cluster of three nodes, a node
--   alone, a small log and a request.
--
-- State is passed explicitly: a handler returns the new state beside its result, and what it wrote
-- before an error or a panic stays written. A panic, a failed assertion and a `todo!` are a value of
-- the result. u64 and u32 values are natural numbers; `+` and `-` keep their wrap-around where the
-- source does not saturate, as in a release build. A HashMap is the list of its entries.
--
-- Loops: `recover_size` runs on fuel, one more than the bytes of the map, and each round adds an
-- entry; `truncate` on as many rounds as there are segments, and each removes one; `drive` on three
-- rounds, since each effect leads to an event with fewer rounds to go.
--
-- Parameters: the user's state machine, the protobuf codec of log entries and the state of the reply
-- channels are the fields of `Services`; the codec of requests and the two channels of the service are
-- `Codec` and `Channels`, and the buffer that its pool hands out is an argument; what the membership
-- calls of Serf is its `Library`. The operating system takes each write whole and does not fail, so
-- the I/O errors that remain are those that the code makes itself or that a read past the end of a
-- file gives. Memory is not exhausted. A crash is one of the process: what was handed to the operating system stays.
--
-- That a log represents some records (Log/Segmented/Contents) means that its segments, the active one
-- last and each of the others with one record at least, hold them in order from the first offset on,
-- that the configured size of an index is a whole number of entries, that the active index has room
-- for one more, and that no file is left for an offset beyond the end.
--
-- Not modelled: the shutdown of the runtime, which only ends its loop; the handlers of the
-- membership's events, which are loops that do nothing yet; the build script; the unit tests of file
-- names, of which files exist and of an append after a close, and those of the membership, which need
-- a network.
pub mod Prelude
pub mod Log
pub mod Raft
pub mod Grpc
pub mod Membership
