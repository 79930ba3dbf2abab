-- ===== src/Lib.antt =====
-- fleece: a replicated key-value store for small nodes, its gossip protocol and its runtime, in C.
--
-- Each node keeps a state manager: a fixed array of slots, each a field of the node itself, of a peer,
-- or of the namespace that all nodes share. Local writes stamp a field with a logical clock. Nodes send
-- each other frames of records in a CBOR subset; a receiver merges the records by last-write-wins, ties
-- between authors broken by node id, and compares digests to learn whether it is behind.
--
-- - Prelude: tests on numbers, lists measured by native numbers, 64-bit sums, bit lemmas.
-- - Cbor: src/state/fleece_cbor.c. A writer is the list of bytes that it stores, a reader takes the
--   bytes that are left and returns those it has not consumed (Cbor/Sizes, Cbor/RoundTrip,
--   Cbor/Numbers).
-- - Doubles: the C double, as its 64 bits, with the comparisons, the arithmetic and the conversions of
--   IEEE 754 binary64.
-- - State: src/state/fleece_state_manager.c. `StateManager` is struct FleeceStateManager with a list of
--   `FieldEntry` for the slots; every operation returns the new store and the `Code` that the C
--   function returns. State/Hash has the FNV hashes, State/Slots find_slot_owned and upsert_field,
--   State/Fields the local operations, State/Merge the merges of remote records, State/Peers the table
--   of peers that were heard, State/Compact the sweep over dead slots, State/Digest the digests and
--   high-water marks, State/Export the frames of a stream, State/Bounded the exporter with a byte cap,
--   State/Import the parser of frames, State/Repair the index and value replies, State/Lists the
--   enumerations, State/Validity the invariant of the store.
-- - Comms: src/comms/fleece_comms.c, with the calls of the send callback as a trace.
-- - Platform: src/platform/fleece_platform.c, the registry of host functions.
-- - Runtime: src/runtime/fleece_runtime.c: the resync targets, Runtime/Queue the deferred frames,
--   Runtime/Control the frames that arrive and the control frames that are sent, Runtime/Loop the
--   gossip phase of a tick.
-- - Planner: src/planner/fleece_planner.c. `FleeceGoap` is struct FleeceGoap with lists for its tables.
--   Planner/Tables has registration and lookup, Planner/Readers the readers of the tables,
--   Planner/Blackboard the blackboard and the state key, Planner/Sorting the insertion sort,
--   Planner/Visited the hash set of states, Planner/Heap the open list, Planner/Goals utilities and the
--   choice of goals, Planner/Search the A* search, Planner/Wire the plan blob.
-- - Tests: runs on small stores, nodes and planners.
--
-- Slots are abstracted in two steps: State/Slots/View reads the array as a map from keys and owners to
-- entries, State/Slots/Cells forgets what no peer can see of an entry. The theorems on merging and on
-- local operations are stated on that map of cells.
--
-- Numbers are natural numbers; the wrap-around of the 64-bit clock, the digests and the watermark is
-- written out as a remainder. Sizes are not wrapped: a store has as many slots as memory holds, and the
-- sum of its record sizes is taken to fit size_t. Loops are structural recursion over the slots, the
-- bytes or the count that a frame announces, so that no fuel is needed, but for four. The search runs on
-- max_iters rounds, which its own loop counts; a sift of the heap on as many rounds as there are
-- entries, since it moves down or up in each; the walk from a node to the root on as many as there are
-- nodes, since a parent stands before its children; and the digits of a quotient of doubles are counted
-- up to 4400, more than one can have.
--
-- In the planner allocations are taken to succeed, and pointers not to be NULL but for the strings of a
-- definition and of set_name. Its callbacks are functions of the index and the
-- blackboard, `none` being a nonzero return; strtod of the C library is a parameter. The compiler's
-- double arithmetic is taken to be binary64 with rounding to the nearest and no extra precision.
--
-- In the state manager fleece_malloc is a parameter: `alloc n` says whether a request for n bytes
-- succeeds, and theorems on successful writes suppose that it does. Pointers are not modelled: the
-- manager, the output parameters and the buffers of a non-zero size are taken not to be NULL.
--
-- Not modelled: the life cycle of a runtime, its scripts, signals and threads; the capacities of the
-- planner's arrays, its memory usage and the release of memory; src/embedded and src/reticulum, which
-- stand on engines and stacks outside of the repository; bindings, examples, tools, benchmarks and
-- tests.
pub mod Prelude
pub mod Cbor
pub mod Doubles
pub mod State
pub mod Comms
pub mod Planner
pub mod Platform
pub mod Runtime
pub mod Tests
