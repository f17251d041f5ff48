-- ===== src/Lib.antt =====
-- ChainWeaver runs flows: sequences of tool calls that are compiled ahead, without a language
-- model in the loop. This library models the parts on which such a run rests.
--
-- Contracts (chainweaver/contracts.py): the safety contract of a tool. Levels has the three
-- ordered levels and the record; Build has the construction from a payload with its two validators
-- (`_normalise_input` is `fold_review`); Merge has `merge_safety`.
--
-- Pointer (chainweaver/_pointer.py): `parse_pointer` and `resolve_pointer`; RoundTrip has the
-- pointer of a path, and Walk what a pointer means. Versions (chainweaver/_versions.py): `major`
-- and `same_major`. Value and Dict are Python's JSON-like values and its `dict`.
--
-- Tools (chainweaver/tools.py): `Tool.run` and `Tool.run_dry`. A tool's callable is a function of
-- the calls that the run has made so far, so it may answer the same inputs differently each time.
--
-- Executor (chainweaver/executor.py, chainweaver/_execution/context.py, chainweaver/checkpoint.py,
-- chainweaver/approvals.py, chainweaver/decisions.py, chainweaver/guardrails.py,
-- chainweaver/flow/steps.py): the linear lane. Types has the records and the state of a run: the
-- tool calls made, the events fired, the step cache, the checkpoints and the count of decisions.
-- One step, `_execute_step`, is Step: its phases are functions that call each other in the order
-- of the method (Step/Body), with `_resolve_decision` (Step/Decision), `_dry_run_step`
-- (Step/Frame) and `_apply_on_error` (Step/OnError); Inputs, Gate, Invoke and Merge have the
-- methods that it calls. Result has `_make_result`, `_check_cancellation`, `_validate_flow_schema`
-- and `_save_linear_snapshot`; Linear has the loop of `_execute_flow_impl`, and Resume
-- `resume_flow`. The tool calls of a run are collected in its state, so a statement on all calls,
-- such as that of Executor/Safety, speaks of retries, fallbacks and dry runs too, and of each call
-- with the calls before it. Samples and Tests run the executor on a small flow.
--
-- Loops: every loop goes over a list and is structural recursion. Only the walk of
-- `_validate_composition` is on fuel, two more than `max_composition_depth`, which is enough,
-- since a path that is longer than that depth is refused. The retry loop is the library
-- tenacity's: it is a parameter of the executor, with its documented contract as the hypothesis
-- IsRetrying, which the loop `documented` of Executor/Invoke/Retry keeps.
--
-- Dag (chainweaver/flow/dag.py, and the DAG methods of chainweaver/executor.py): Topology has
-- `validate_dag_topology`, Levels the levels of the steps, Group `_compute_dag_levels` as a whole,
-- Branch `_select_branch`, and Run `_execute_dag_flow` with `_save_dag_snapshot` and
-- `_resume_dag_flow`: a level's loop goes on or is over (`Progress`), and its phases are functions
-- that call each other in the order of the method; what each step does is `execute_step` of the
-- linear lane. Run/Calls, Run/Log and Run/Recovery have what holds of a run. The order of the
-- steps is the standard library's TopologicalSorter's, a parameter; what it documents of an order,
-- each step once and after its dependencies, is the hypothesis IsOrder.
--
-- Composition (`_validate_composition` of chainweaver/executor.py): the walk over the flows that a
-- flow is composed of. Governance (chainweaver/flow/governance.py): the review lifecycle and
-- `transition_to`.
--
-- Registry (chainweaver/registry.py, chainweaver/storage.py): `register_flow`, `get_flow` and
-- `update_flow_state` over the in-memory store, with the pointers to the latest versions; the
-- order of versions is packaging's, a parameter that IsOrdered says is total and transitive.
-- PairDict is a `dict` keyed by pairs. Registry/Drift has the compatibility check of
-- chainweaver/compat.py, and the drift report and its acceptance of the executor, where a tool
-- stands as its schema hash; Registry/Mark has `register_tool`, which marks the flows whose tool
-- is replaced. Python's `sorted` is a parameter, of which IsSorting says that it gives the same
-- elements.
--
-- Mcp (chainweaver/mcp/security.py, chainweaver/mcp/server.py): RateLimit has
-- FixedWindowRateLimiter, whose lock makes each `acquire` one step, with time as a number of
-- ticks; Gate has `_RequestGate`, with its hooks as functions of what they are given and the
-- events of its audit hook in its state; Readiness has the profiles, `evaluate_readiness` and
-- `render_error_detail`; Exposure has which flows FlowServer registers as tools; Server has the
-- error mode of a server, its `_preflight`, and the dispatcher of a flow, which runs the gate's
-- `check` and then the flow. The limiter is a hook of the gate, and the side effects of the
-- exposed flows are what the readiness check is given.
--
-- Parameters: the callbacks of the host, Python's `int` of a text, the evaluation of a predicate
-- (a truth value, a syntax error or another exception), pydantic's validation (a schema is a
-- function, which for a schema or a contract that a flow refers to includes the resolution of the
-- reference, and may raise a validation error or any other exception), the hash of validated
-- inputs, `isinstance` against the classes of a retry policy, the clock and the token at the
-- boundaries of steps, the registry's lookup for a resume, and the run of a flow for the
-- dispatcher. A run is modelled from the lookup of its flow on. Whole numbers of values are
-- unbounded, as in Python.
--
-- Not modelled: the run of sub-flow and capability steps, the async and streaming lanes, replay,
-- timings, retry delays, logging, cost reports and trace recording, floats, and the packages round
-- the executor (command line, MCP client, exports, integrations, analysers, compilers).
pub mod Common
pub mod Dict
pub mod Contracts
pub mod Value
pub mod Pointer
pub mod Versions
pub mod Tools
pub mod Executor
pub mod Dag
pub mod PairDict
pub mod Governance
pub mod Registry
pub mod Composition
pub mod Mcp
