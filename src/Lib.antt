-- ===== src/Lib.antt =====
-- Stimela Ninja runs recipes: graphs of steps that share a pool of cpus and memory, and that
-- record what they did in state files under a run directory. This library models the parts of
-- its core that decide, as functions and steps on explicit states.
--
-- Prelude: the names the modules share: Boolean tests on numbers, lists with lengths in native
-- numbers, and Python's dict with string keys as an association list (Prelude/Dict).
--
-- Resources: src/shinobi/resources.py, the pool of one run. Resources.antt has the
-- demand of a step (`Resources`) and its concrete amounts. Resources/Budget.antt is the class
-- `Budget` method by method: the state is its attributes, a method is a function on it, and the
-- condition variable is the generation counter that a waiter compares. Resources/Budget/Ledger
-- puts the threads around it: a ledger adds the grants that are held, and an action is one
-- call that a thread makes under the lock; a run is any sequence of actions.
-- Threads are sequences of such calls, since every method holds the lock for its whole body.
-- Bytes are natural numbers, as in Python, where they do not overflow. Cores are Python's floats,
-- with the rounding of each addition and subtraction (Resources/Floats.antt, for numbers that are
-- not negative and not infinite); since it leaves residues in the counters of cores, the theorems
-- about sums are about memory.
-- Resources/Limits.antt is `_walk_limits` over the levels of the cgroups, for limits in bytes; what
-- the files hold and what the parser makes of it are arguments.
--
-- Storage: src/shinobi/storage.py, `JsonFileStore`, a dict that is persisted as a legacy
-- JSON file with a log of checksummed records beside it. Storage.antt reads: it splits the log
-- into lines, drops an unfinished last one, checks and replays the records. Storage/Update.antt
-- is the update of the object: what changed, the record, the append. A write that fails or is
-- cut off leaves a prefix of its line (`Fate`). JSON, UTF-8 and SHA-256 are the parameter
-- `Codec`. Its laws are that what `loads` reads of a dumped record has the record's entries, in any
-- order, since `dumps` sorts the keys, and that a line holds no line break; of Python's `==` on
-- values, `same_value`, nothing is assumed.
-- Storage/Update/Tokens.antt is a codec that satisfies them. File locking, fsync and temporary
-- files of a reset are not modelled: an update runs alone on the files.
--
-- Access: src/shinobi/dataset_access.py, the order of steps that touch the same paths.
-- Access.antt has canonical paths and `paths_overlap` of src/shinobi/steps/schema.py,
-- Access/Tree.antt the class `_AccessTree` with references to states as paths of nodes, and
-- Access/Planner.antt the body of `ResolvedAccessPlanner.order_after` from the point where the
-- step's accesses are resolved; `reasons` and `dependencies` of its decision are one list of
-- reasons, and the loop over the steps has the check that dependencies point backwards. A strict
-- scatter, which is planned slice by slice, is left out. Access/Collisions.antt is `_validate_scatter_collisions`, on the paths and modes of the
-- slices of one scatter; a set of slices is an ascending list, and the stack of ancestors has the
-- last first. The resolution of declarations to paths reads the file system and is not modelled.
--
-- Graph: src/shinobi/graph.py, the dependency graph of a recipe. Graph/Topology.antt is
-- `RecipeGraph.topological_indices`: the heap is the list of its members, of which a pop takes the
-- least, and the `while` loop has one round of fuel for each step, since every round emits one.
-- Graph/Build.antt is the part of `_build_graph` that checks the wiring of one recipe and collects
-- its edges (Graph/Edges.antt); what a cab's patterns match, which the package dosho decides, is
-- given with the schema. Nested recipes and the check for cycles are not modelled.
--
-- Scheduler: src/shinobi/steps/dispatch.py, the loop of `_run_recipe` that starts the steps of a
-- recipe on its thread pool. Scheduler.antt has the state of the loop (the heap of ready slots, the
-- futures, the waiting and finished steps, the results of the slices of a scatter) and what the
-- loop does to it: `submit_ready`, the expansion of a scatter, the backfill behind a head that
-- waits, and the reaping of a future. Slot 0 of a step is the whole step and slot k+1 its slice k.
-- Scheduler/Steps.antt is the loop as a relation: which future ends and how, what the pool's
-- budget answers, and how many slices an input has are the environment's. A turn that waits for
-- the budget is a step that leaves the state as it is. The reservations are
-- those of Resources/Budget/Ledger. The wiring of values between steps, the dispatch of one
-- step and the assembly of the recipe's result are not modelled.
--
-- Ownership: src/shinobi/ownership.py, the claims of whole workflows. Ownership/Registry.antt is
-- the registry that all workspaces share and Ownership/Root.antt the store of one workspace; each
-- method is one update of a JSON file that runs alone, so that workflows interleave by updates.
-- Ownership/Claim.antt puts the two together (`acquire_workspace`, `release_workspace`); a record of
-- faults says which calls fail, and a call that fails commits nothing. Ownership/Inspect.antt decides
-- from evidence whether an owner is dead. Paths are resolved, and JSON is parsed, before.
--
-- Snapshots: src/shinobi/snapshots.py, the states of the paths that steps mutate in place.
-- Snapshots.antt is the journal's chains and `Chain.taint_blocks`, Snapshots/Evict.antt is
-- `_protected_names` and `evict`, Snapshots/Invalidate.antt is `invalidate`. The snapshot directory
-- is a dict of modification times; a removal may fail silently, as `ignore_errors=True` lets it.
-- Snapshots/Guard.antt is what `SnapshotGuard` does to a chain around one mutating step that
-- succeeds, as a type of updates of which any sequence may follow, and Snapshots/Reuse.antt is
-- `strict_reuse_issue`, whose loop over the parents has one round of fuel more than the chain has
-- states, since each round sees another name. Each call runs alone on the journal.
-- Snapshots/Json is the file: Snapshots/Json.antt has parsed JSON and the ways to read a field,
-- Snapshots/Json/States.antt generations and markers, Snapshots/Json/Chains.antt the chains and the
-- transaction `update_chains`. The declared type of a field is checked when it is read, which the
-- source leaves to the use of the value. FITS commit references are left out, and of the items of
-- a strict group all keys but three. Messages are not modelled, nor are the restore of a tree and
-- the recovery from a crash.
pub mod Prelude
pub mod Access
pub mod Graph
pub mod Ownership
pub mod Resources
pub mod Scheduler
pub mod Snapshots
pub mod Storage
