-- ===== src/Lib.antt =====
-- A verification library for the graph library of this repository, crates/cfglib.
--
-- Each part of the program is a module, in the words of the source. Machine integers are natural
-- numbers with their bounds written out; `Result` (Prelude/Outcome.antt) is the outcome of a call
-- that may panic or, for a loop of the model, run out of fuel. Allocation (`with_capacity`,
-- `shrink`) has no model.
--
--   Prelude       Boolean tests, lists as vectors, outcomes; shared by all modules.
--   Words         64-bit words read and written by bit (the mask expressions of
--                 crates/cfglib/src/graph/store/liveness.rs and crates/cfglib/src/dataflow/bits.rs).
--   DisjointSet   crates/cfglib/src/union_find.rs. `find` and `root` loop on fuel, the length of the
--                 forest and one more, which is enough since each round climbs one level.
--   Store         crates/cfglib/src/graph/store.rs and the modules below it.
--     LiveSet       graph/store/liveness.rs, the packed liveness bits.
--     Chains        graph/store/adjacency.rs, `DeltaChains`: circular chains of delta edges.
--     Graph         graph/store.rs: the state, appending, reading and retiring.
--     Walk          graph/store/adjacency.rs: the walk over a compressed run and a chain. A walk is
--                   given one step for each edge of the store, and one to see its end.
--                   `degree` and `remove_node` use it.
--     Drain         graph/store/adjacency.rs, `drain_into`, with one step for each delta edge.
--     Listing       graph/store.rs and graph/store/adjacency.rs: the nodes, edges and neighbors as
--                   lists, and the counts.
--     Invariant     when a store is well formed; Adjacent, Append, Retire, Isolate, Ends, Degree and
--                   Listing are about the walks, the additions, the removals, the ends of live
--                   edges, the degree and the listings on such a store, Contents about the payloads
--                   of its nodes, which `node_mut` writes. Started is where a walk starts, Found is
--                   about reading a node or an edge.
--     Neighbors     the live edges at a node and their other ends.
--     Viewed        graph/store/view.rs: the store as a `GraphView`.
--     Renumbering   graph/store/renumbering.rs, the numbering that a compaction returns.
--   Vectored      crates/cfglib/src/exception/veh.rs, the vectored handler lists.
--   Pipeline      crates/cfglib/src/transform/pass.rs. A pass is a parameter, with its own state.
--   Registrations crates/cfglib/src/exception/seh.rs, the chain of active frame registrations.
--   Marks         a vector of marks, which the searches share.
--   View          `GraphView` of crates/cfglib/src/graph/view.rs and the axes of graph/traverse.rs.
--   Traverse      `reachable` of crates/cfglib/src/graph/traverse.rs. Reach is reachability from the
--                 seeds, Search is about the loops over seeds and neighbors, Closure about the walk,
--                 which takes a round for each node and one to see its end: a node is pushed once.
--                 Preorder is `depth_first_preorder`, whose stack may hold a node more than once: a
--                 round for the start and each edge, and one to see the end, are enough. Both walks
--                 check that a start is below the bound of the graph, not that the graph still lists
--                 it: their documentation promises a panic for a node that is not in the graph, and
--                 the code walks from a removed one (`removed_seed`, `removed_start` in Tests).
--   Epoch         crates/cfglib/src/graph/epoch.rs: marks that are forgotten by counting an epoch
--                 up. Sets is about the sets that stand on them, Served about
--                 sequences of requests.
--   Relax         crates/cfglib/src/graph/relax.rs: labels pushed along the edges of a store. The
--                 labels, their order and the transfer are parameters. Fuel is for the seeds and,
--                 for each edge, as many labels as there are ranks, since each label that a node
--                 takes is smaller than the last (Measure, Potential, Round). Derivation is what
--                 seeds derive, and Least is about the outcome.
--   Horn          crates/cfglib/src/graph/horn.rs. Derivation is derivability from a list of clauses,
--                 Clauses is about `new` and `add_clause`, Saturation about `derivable`, whose loop
--                 takes a round for each fact and one to see its end: a fact is enqueued once.
--     Stored        the tables that are stored, and the test that loaded ones must pass. Listed and
--                   Counted are about the mentions of the clauses, Rows about the bodies that rows
--                   give, Accepts about the test.
--   Dataflow      crates/cfglib/src/dataflow.
--     Bits          dataflow/bits.rs, `DenseBits` over the rows of Words. Ones is about its iterators,
--                   which take a step for each bit of the words and one to see the end: Lowest and
--                   Positions are about a word, Members, Yields and Lists about the whole.
--     Worklist      dataflow/worklist.rs, a set of node indices whose least one pops. The search
--                   takes a step for each word and one to see that none is left; `of`, `seeded` and
--                   `pop_first` are in Queue, Seeds and Pop.
--     Solver        dataflow/node_fixpoint.rs, with the errors, directions and facts of
--                   dataflow/fixpoint.rs. Meet, Visit, Loop and Fixpoint follow one step of the
--                   solver to its end, and Equation is what a node satisfies then, in terms of the
--                   consumer's functions; under a step limit one step of fuel more than the limit is
--                   enough. Infallible is about the infallible problems, Limit about the solve
--                   without a limit, Least about monotone problems. A graph is a
--                   parameter, a `View`, and so is the consumer's problem.
--     Blocks        dataflow/fixpoint.rs, the block problems on a graph with a root. Reached is about
--                   what a full solve starts from, Infallible about the infallible problems.
--   Cfg           crates/cfglib/src/cfg.rs and cfg/mutation.rs: blocks and edges in a graph store,
--                 with an entry. Edge, Block and Regions are crates/cfglib/src/edge.rs, block.rs
--                 and region.rs; Kinds is about the edge kinds and their names; Grows is about what
--                 the operations on blocks and edges keep of a graph from which nothing is removed;
--                 Exits is about reading along the edges, and the exit blocks.
--     Mutation      the operations of cfg/mutation.rs that neither split nor redirect, as calls.
--                   Kept and Joined are about one call, Refused about the calls that panic, Runs
--                   about sequences.
--     Protection    cfg/regions.rs and `RegionIndex` of region.rs. Innermost is about the region
--                   that protects a block, Removal and Unreachable about the removal of regions.
--     Cleanups      cfg/cleanup.rs. Routes is about the routes of a record, Amended about the
--                   records as a list, Records about `add_continuation`.
--   Builder       crates/cfglib/src/builder.rs, a graph from a flat stream of instructions with
--                 scopes. Flow is `FlowEffect` of crates/cfglib/src/flow.rs, Scopes the open scopes,
--                 Outcome a result or a build error, and Build the end of a stream.
--                 `trim_trailing_empty` takes a round for each block and one to stop: a round
--                 removes a block. Grammar says which streams have a fault and which; Invariant is
--                 what holds between two instructions; Calls, Handlers, Exits, Arms and Closers take
--                 each handler, Accepts puts them together, Trim is about the end, and Streams about
--                 `build`.
--     Jumps         `resolve_jump_edges`, the edges of jumps to labels. Labels and Collected are
--                 about what it reads off the blocks, Wired and Wiring about the edges that it looks
--                 for and adds, Spoken about what a label and a jump are, Resolved about the whole.
--
-- The store calls `LiveSet` and `DeltaChains`; a walk reads both, and a node is removed by walking
-- its edges. The control-flow graph is a store of blocks, and the builder writes into it. A store is
-- a `GraphView`, on which the searches and the solvers run. The solver asks its worklist for the
-- next node, which stands on the bit sets.
-- Not modelled: compaction, redirects of edges and the splitting of blocks, which rests on them, the
-- validation of stored graphs, the edge solver, the algorithms and analyses on a control-flow graph,
-- and printing, serialization and benches, which keep no state.
pub mod Prelude
pub mod Words
pub mod Store
pub mod DisjointSet
pub mod Vectored
pub mod Pipeline
pub mod Registrations
pub mod Marks
pub mod Epoch
pub mod Relax
pub mod Horn
pub mod View
pub mod Traverse
pub mod Dataflow
pub mod Cfg
pub mod Builder
