-- ===== src/Lib.antt =====
-- Verification library for zheng-harness, an agent harness written in Go: it decomposes a task into
-- subtasks, schedules them, runs sessions concurrently, and calls tools that are loaded as plugins.
--
-- The parts and the files that model them. Paths are from the repository's root.
--   * Domain, Domain/Types, Domain/Verification: internal/domain. Structs are records, string types
--     with constants are data types with one constructor more for any other string. Validate,
--     Normalize, MarshalJSON and UnmarshalJSON of a verification result are `validate`, `normalize`,
--     `marshalled` and `unmarshalled`; encoding/json itself is not modelled. Domain/Verification/RoundTrip
--     has the proofs.
--   * Domain/PluginMetadata: plugin_metadata.go, with the version pattern as an automaton; Trimmed and
--     Checked hold the proofs. Domain/Effect: functions that answer a value or an error and act on a
--     world `W` outside the program, with the rules for invariants of such worlds in Effect/Ensures.
--   * Runtime/Provenance, Runtime/TaskRegistry, Runtime/AgentStrategy: mergeProvenance of
--     internal/runtime/runtime.go, task_registry.go and agent_strategy.go.
--   * Runtime/Engine: internal/runtime/runtime.go. The ports (model, strategies, tools, memory,
--     sessions, verifier, clock, context, event channel) are records of functions over `W`. Recall
--     is recallMemory, Iteration createPlan and executeIteration, Loop the rest of Run: `attempt`
--     is one turn of its loop, and `loop` takes at most MaxSteps turns. Journal wraps an engine so
--     that its world writes down what the engine saves, appends, executes and reports; Rules say
--     what the parts of a run leave alone; Course and Course/Verdicts say how a run may end, Trace
--     proves it, Loop/Ends that the loop ends by itself, Recall/Chosen and Permitted bound the
--     recalled entries and the executed tools.
--   * Runtime/SessionActor, Runtime/SessionManager: internal/runtime/session_manager.go. The actors
--     are shared pointers, so the state is the manager with a heap of goroutines; `start`, `attach`,
--     `run`, `end_run`, `complete_actor`, `exit`, `cancel`, `cancel_all_active` and `begin_shutdown` are
--     the critical sections of Start, runActor, completeActor, Cancel, cancelAllActive and Shutdown.
--     Runtime/SessionManager/Steps lets them interleave in any order (`Move`, `Reach`); its children
--     hold the invariant, its preservation, and what follows. The runner and its factory are the
--     environment's: a step takes what they return.
--   * Runtime/EventRelay: the relay and the subscriptions of the same file. `deliver` is the body of
--     broadcast's loop; a send on a closed channel has no result. Its two critical sections are apart, and
--     clients act in between. Received and Delivery follow one subscriber, Streams every interleaving with
--     the relay's end.
--   * Orchestration/Types, Orchestration/Scheduler, Orchestration/Scheduler/Build:
--     internal/orchestration/types.go and scheduler.go. `build_graph`, `schedule` and `mark_complete` are
--     buildGraph, Schedule and MarkComplete. Links, Growth, Within, Roots, Queued, Entered and Established
--     prove what buildGraph builds; Completion, Fixed and Batches what the calls keep; Calls follows a
--     client's calls in any order; Promises and Progress state what the client gets.
--   * Orchestration/Decomposition: the checks of Validate in types.go, as lists of errors; Accepted and
--     Scheduled prove that buildGraph takes what they let through. The search for a cycle is not
--     modelled.
--   * Orchestration/Aggregation: aggregation.go. Collect takes the list of what its select finds at each
--     turn; Tally proves what Aggregate makes of the results, Collected what Collect returns.
--   * Verify: internal/verify. Research and FileWorkflow are the two verifiers of noncoding_verifier.go,
--     Judging what their Verify methods have in common; Research/Grounded, FileWorkflow/Results and
--     FileWorkflow/Met hold the proofs. TaskAware is task_aware_verifier.go, TaskAware/Refused its proofs.
--   * Plugin/Version: internal/plugin/contract.go, with strconv.Atoi and strings.Split written out.
--   * Plugin/Manager, Plugin/Manager/Loading, Lifecycle, Recovery: internal/plugin/manager.go. What the
--     operating system and the plugins answer is a parameter, the record `Host` over any state of
--     theirs. Lifecycle/Atomic, Recovery/Counts, Bounded and Strikes hold the proofs.
--   * Tools/Capabilities: the plugin capabilities of internal/tools/safety.go.
--   * Memory/Policy: internal/memory/policy.go and validateMemoryEntry of internal/store/memory_store.go,
--     the two checks of an entry that is to be written; Accepted has the proofs. Memory/Store: Remember and
--     Write of the latter, over a database that is the environment's; Rows has the proofs.
--   * Base: tests, lists, maps and texts that the parts share.
--
-- A map that the program reads and writes by key only is a function with Go's zero value for a
-- missing key; one whose size matters is a list of entries with distinct keys. Counters stay far
-- below 2 ^ 63 and are natural numbers. All recursion is structural: the engine's loop recurs on the turns
-- that are left, of which MaxSteps are enough.
--
-- Not modelled: nil receivers; the waiting of Shutdown; RunStream and the event channel that it
-- makes; the orchestrator and its workers; the other verifiers; the tool executor and the adapters;
-- the recall of the memory from its database and the older store of internal/memory, configuration,
-- language model providers, the SQL store, the HTTP server and the command line programs, which are
-- input and output for the most part; vendored libraries.
pub mod Base
pub mod Domain
pub mod Runtime
pub mod Orchestration
pub mod Verify
pub mod Memory
pub mod Tools
pub mod Plugin
