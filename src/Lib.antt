-- ===== src/Lib.antt =====
-- The verification library of TRACE Gate, the Python package src/trace_gate.
--
-- The package lets agents work under written authority. A coordinator hands tasks with disjoint
-- write scopes to agents and merges their artifacts; a run calls tools through a registry and
-- writes what happens to a ledger of chained events; context selection decides which documents a
-- prompt may show, semantic retrieval which of them a search may name, and a gate whether the
-- facts of a decision meet its policy; a migration moves documents to another owner in stages that
-- each need their evidence. The parts call one another only through values: the pack of a selection
-- goes into a prompt, the events of a run into its ledger, the validation of a document before its
-- transition.
--
-- Which file models which part:
--   Prelude      shared tests, lists, dictionaries and the exceptions of Python as values
--   MultiAgent   src/trace_gate/multi_agent.py. Paths: `path_identity` and the overlap of paths.
--                Leases: `LeaseRegistry`. Coordinator: `AgentCoordinator` (register_parent_scope,
--                delegate, complete, cancel_parent, merge); its children hold the invariant, its
--                preservation, the histories of calls and the merge.
--   Runtime      src/trace_gate/runtime.py. Registry: `ToolDefinition` and `ToolRegistry`.
--                Events and Ledger: the events and `EventStore` (validate, open, append).
--                Kernel: `RunLimits`, `_parse_action` and the state of `RunKernel.run`; Round is the
--                loop of `run`, Entry what stands before and after it, and `_rehydrate`.
--   Documents    src/trace_gate/validation.py: access intents and read profiles, and the
--                `semantic_errors` and `validate_value` of these two.
--   Context      src/trace_gate/context.py: `select_context` (Context is the loop, Packing the
--                rest) and `assemble_prompt`.
--   Semantic     src/trace_gate/semantic.py: `select_semantic_candidates` (Semantic is one round,
--                Selecting the rest).
--   Gates        src/trace_gate/gates.py: `compare` and `evaluate_gate`; Binding and Bound:
--                `evaluate_bound_gate`.
--   Migration    src/trace_gate/migration.py. Migration holds the documents; Paths is
--                `relative_path`, `related_paths` and `unique_paths`; Plans and Receipts are
--                `plan_errors`, `package_errors`, `relocation_errors`, `cutover_errors` and
--                `compensation_errors`; Validation and Holds are `transaction_errors`; Transition is
--                `transition`, and Changes, Histories and Authority what holds of it; Depth and
--                Walk hold the walk over the parents in `plan_errors`. Links is
--                `target_path` of src/trace_gate/migration_links.py.
--
-- State and errors: an object that the code mutates is a record that goes into an operation and
-- comes out of it; an exception is an `err` of `Result` with its class and message, and an
-- operation that raises returns no new state, but in the kernel (Prelude.Exec) what was written
-- before a raise stays written. A dictionary is an association list in the order of insertion. A
-- JSON value that the code only stores, compares or hashes stands as its canonical JSON text. A
-- document is a record with the fields that its schema requires; where the code tests the type of a
-- value, the type of the model has a case for the values that fail the test.
--
-- What the models take as arguments: the resolved identity of a path and the clock (per call, so
-- they may change between calls), SHA-256, canonical JSON, `datetime.fromisoformat`, the pattern of
-- a digest, the order of texts, the tables of Unicode, the numbers of a gate and the parsing of its
-- expressions, the messages of the JSON Schema validator, how deep calls may be nested, and what
-- the handler of a tool, the model and the verifier answer and do to the world. Where a statement
-- rests on the hash, it names the two values of which the canonical texts, or the digests of the
-- texts, would have to coincide.
--
-- Bounds: numbers are unbounded as in Python. Times are microseconds and durations clock ticks;
-- scores are multiples of 2⁻¹⁰⁷⁴, as every finite double is. A loop over a list is structural
-- recursion; the loop of a run recurs on the steps that are left, max_steps less the steps of
-- earlier calls, which is the source's own bound. The walk over the parents of artifacts recurs on
-- the calls that may still be nested, Python's recursion limit, beyond which it raises.
--
-- Not modelled: `main` of gates.py, the archives, streams and files of a migration
-- (migration_archive.py, migration_stream.py, migration_io.py, migration_link_restore.py), the link
-- policies of migration_links.py, the other documents of validation.py, and the command-line
-- scripts; scores that are not a number and recorded verdicts whose `passed` is no Boolean; parsing
-- of the lines of a ledger, failing writes to it, and threads: the calls of a batch run in the
-- order of submission.
pub mod Prelude
pub mod MultiAgent
pub mod Runtime
pub mod Documents
pub mod Context
pub mod Semantic
pub mod Gates
pub mod Migration
