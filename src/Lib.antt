-- ===== src/Lib.antt =====
-- Kernox assembles an application from plugins (README.md). This library models its Rust crates
-- and proves what makes them correct.
--
-- The program's parts and where they are modelled:
--   crates/kernox-core/src/id.rs: stable identifiers. Id.antt has `validate_identifier` and the
--   two newtypes that `qualified_id!` generates. A string is the list of its UTF-8 bytes, which
--   is how Rust compares strings.
--   crates/kernox-core/src/descriptor.rs: plugin descriptors, requirements, offers and bindings.
--   Descriptor.antt has the construction operations, Descriptor/Valid.antt their invariant,
--   Descriptor/Source.antt the bounds of `PluginSource::new`, and Descriptor/Wire.antt the
--   serialized form with the decoding of its identifiers and sources
--   (Descriptor/Wire/Decoded.antt and Constructed.antt have what decoding leaves in a
--   descriptor).
--   crates/kernox-core/src/error.rs: Error.antt has `ResolveError`; the other error types stand
--   beside the functions that return them.
--   crates/kernox-core/src/graph.rs: the resolver. Graph.antt has the data, Graph/Checks.antt
--   the checks before selection, Graph/Select.antt the provider selection, Graph/Resolve.antt
--   the resolution loop and `resolve`, Graph/Diagnostics.antt the findings, Graph/Topology.antt
--   `topological_order`, Graph/Cycle.antt `find_cycle`, Graph/Report.antt the report and
--   `accept`, Graph/Requirement.antt the lookup of a requirement, Graph/Builder.antt the methods
--   of `GraphBuilder`. The modules below them hold the proofs.
--   crates/kernox-core/src/attribution.rs: Attribution.antt has `verify_graph_attribution`.
--   crates/kernox-runtime/src/scope.rs: Runtime/Scope.antt has the scope tree as a store,
--   Runtime/Scope/Closing.antt what can be reached.
--   crates/kernox-runtime/src/capability.rs: Runtime/Provisions.antt has staging,
--   `Registry::commit` and `Registry::get`, Runtime/Access.antt the access of a plugin that
--   initializes: `require`, `optional` and `all`.
--   crates/kernox-runtime/src/host.rs and the builder of app.rs: Runtime/Host.antt has the
--   negotiation and `AppBuilder::resolve`.
--   crates/kernox-runtime/src/app.rs, error.rs, observation.rs and plugin.rs: Runtime.antt has
--   the data, Runtime/Rollback.antt the hooks and the rollbacks, Runtime/Lifecycle.antt
--   `ResolvedApp::start` and `RunningApp::shutdown`; the modules below these hold the proofs,
--   and Runtime/WholeRun.antt joins them.
--   crates/kernox-host-tokio/src/lib.rs: Tokio.antt has the task supervisor, Tokio/Reached.antt
--   its steps, Tokio/Drain.antt the drain and its report, Tokio/Plugin.antt the hooks of the
--   plugin.
--   crates/kernox-host-serverless/src/lib.rs: Serverless.antt has the host,
--   Serverless/Reached.antt the interleavings of its callers.
-- Order.antt is Rust's `Ord` with the derived orders, and Collections.antt the ordered maps and
-- sets of the standard library, as sorted lists: `BTreeMap` is an association list in the order of
-- its keys, and `binary_search_by` of slices in Collections/BinarySearch.antt. Text.antt has what
-- is used of Rust's `char` and `str`, on lists of code points.
--
-- How the parts interact: `resolve` checks the schema and the limits, puts the descriptors in a
-- map by identity, refuses conflicts and self-dependencies, indexes the offers by capability,
-- validates the bindings, selects the providers of every requirement, collects the edges, and asks
-- `topological_order` for the start-up order; `find_cycle` explains a failure of that. The loops
-- of Rust are functions on the lists that they go through, in the same order.
--
-- `AppBuilder::resolve` calls `resolve`, then the host negotiation, and hands the graph and the
-- plugins to `ResolvedApp`. `start` initializes the plugins in the start-up order, commits what
-- each stages to the registry, starts them in the same order, and rolls back in reverse order when
-- a step fails. `shutdown` runs the three cleanup phases in reverse order.
--
-- A `Result` has a third outcome, `fault`, for what no caller handles: a panic (an index out of
-- range, a key that is not in its map), or a loop of the model whose fuel ran out. `usize` values
-- are numbers; `saturating_add` keeps its bound, and `*degree -= 1` wraps round at zero.
--
-- Fuel: the loop of `topological_order` takes as many rounds as there are nodes, since each round
-- places one node (Graph/Topology/Loop.antt). A walk of `find_cycle` takes one round for each
-- outgoing edge and one for each node; Graph/Cycle/Fuel.antt has the number that falls in each
-- round, and Graph/Cycle/Found.antt that the search never runs out. Graph/Cycle/Complete.antt,
-- Kept.antt and Finds.antt have the order in which the search finishes nodes, which shows that it
-- misses no cycle. The binary search takes at most one round for each element.
-- Graph/Resolve/Total.antt joins these: `resolve` never faults.
--
-- Parameters: the semver package is not in the repository. `V` stands for its `Version`, `R` for
-- its `VersionReq`, and `matches` for `VersionReq::matches`; nothing is assumed of it. The plugins
-- are code of other repositories: `PluginCode` holds what their hooks do to a world `W`, and a
-- hook returns, returns an error or unwinds. `parse` stands for `Version::parse` and `version_eq`
-- for the equality of versions.
--
-- Concurrency: the supervisor's state is changed under its lock, so a step of Tokio/Reached.antt
-- is one section under the lock, one change of Tokio's tracker, or the cancellation of the shared
-- token by whoever has a clone of it, and any sequence of steps is an interleaving. Of Tokio it is
-- used that a task which has ended, or was aborted, drops its registration before the tracker
-- stops to count it, and that the tracker's wait ends when it is closed and empty. The serverless
-- host has an atomic counter and flag, so its steps are the two parts of an admission, the two
-- parts of a guard's drop, and `shutdown`, which borrows the host exclusively. A step that opens a
-- scope has the premise that the 64-bit number of scopes does not wrap.
--
-- A scope tree has two levels, since only `RunningApp::invocation_scope` opens a child. One thread
-- is modelled; the second admission check of `Scope::child` guards a race that it cannot have.
--
-- Not modelled: durations of observations, JSON, the texts of error messages, the testkit, the
-- command line, the build tasks, examples and fixtures.
pub mod Prelude
pub mod Order
pub mod Collections
pub mod Text
pub mod Id
pub mod Descriptor
pub mod Error
pub mod Graph
pub mod Attribution
pub mod Runtime
pub mod Tokio
pub mod Serverless
pub mod Samples
