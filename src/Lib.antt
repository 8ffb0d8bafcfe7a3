-- ===== src/Lib.antt =====
-- agent_crew runs coding agents on a shared task queue. This library models the parts of it that
-- decide whether work may go on, and proves what they promise.
--
-- A task is admitted by an authorization receipt. The receipt carries the binding (policy, registry,
-- runtime state, human gate, budget) that it was decided on, and it is validated again at five
-- points: enqueue, claim, dispatch, execute start and result. The receipts, the single-use dispatch
-- nonces and the claims on intent hashes are tables in SQLite. The queue keeps the runtime state
-- (ACTIVE, DRAINING, QUARANTINED, STOPPED) in one row: anyone may tighten it, only authority may
-- loosen it, and every gate reads it. Notices on pull requests, owed continuations and remote
-- mutations are each taken by a claim on a row, so that several workers do not act twice.
--
-- Files and sources:
--
-- - Common: the shared helpers. Tests has Boolean tests with their meaning, Table has SELECT, UPDATE,
--   DELETE and COUNT on a list of rows, Text has Python's strip, lower and startswith.
-- - Cea/Types: src/agent_crew/cea/receipt.py and runtime_state.py; the fields that are read.
-- - Cea/Matrix, Cea/Drift, Cea/Validator: src/agent_crew/cea/validator.py. Matrix is
--   runtime_state_verdict with _P6_MATRIX, Drift is _drifted_fields, Checks has the steps 2 to 5 of
--   validate, Judge the steps 6 to 8 and validate itself, one function for each step, chained in the
--   order of the source; Contract is ContractReceiptValidator. Authorised states the contract apart
--   from the order of the checks; Soundness and Completeness compare the two.
-- - Cea/Store: src/agent_crew/cea/store.py. Receipts is record_receipt, append_lifecycle and
--   current_receipt; Nonces is dispatch_nonces; Lineages is intent_lineages.
-- - Queue/Runtime: src/agent_crew/queue.py, runtime_stop and runtime_state_events. Row reads them,
--   Refusal is _transition_refusal, Authority the two loosening authorities, Moves the writers
--   transition_runtime_state, set_stop_epoch, resume_stop and the pause signal, Boot is
--   _reconcile_stop_on_boot; Steps puts the writers into one step function.
-- - Queue/Announcements: src/agent_crew/queue.py, pr_announcements.
-- - Queue/Outbox: src/agent_crew/queue.py, cascade_outbox.
-- - Queue/External: src/agent_crew/queue.py, external_op; it reads the runtime row of Queue/Runtime in
--   the same transaction.
-- - Cea/CallSites: src/agent_crew/cea/callsites.py, the gates with the rollout mode of EngineConfig
--   (cea/engine.py); Requeue is gate_requeue, Enforcement is about the gates.
-- - Queue/Tasks: src/agent_crew/queue.py, the tasks table and what moves a task. Row has the
--   record of a task and _append_exec_event_on and _record_end_on, Engine the queue's use of the
--   engine and of its receipts, Claim is claim_through_gate, Dequeue is dequeue and
--   dequeue_discuss_for_agent with their queries in Dequeue/Selection, Requeue has the paths back
--   to pending and the codex quota hold, Defer the three delays, Cancel has cancel, expire_stale,
--   force_fail and mark_needs_human, Parking the migration of unreadable rows, the end of an
--   owner's readmission and the block of a review, Start is record_dispatch and start_execution,
--   Results is submit_result with its refusals in Results/Refusal. Lifecycle states the moves
--   that a task may make, and its child modules compare the operations with them; Lifecycle/Calls
--   puts those that keep to the graph into one relation, and Lifecycle/Steps adds the two that
--   hand any row to a human. Claims, Revocation, Expiring, Accepting, SingleUse and Stranding are
--   about single operations.
-- - Loop: src/agent_crew/loop.py, _resolve_verdict and handle_review_result.
-- - Examples: the theorems at concrete inputs.
--
-- How the code is read. A table is the list of its rows, an INSERT puts a row in front, and a function
-- of the source that runs in one write transaction is one function on the table; interleavings of
-- workers are lists of such functions. A time is a natural number of ticks, and `now - t < d` is
-- written `now < t + d`. A uuid4 is an argument. Texts of reasons and notes are left out or
-- shortened; their machine codes are kept. Identifiers are compared as texts. Loops over lists are
-- structural recursion, so no fuel is used.
--
-- What is a parameter: datetime.fromisoformat (parse_rfc3339), the caller's change and signature of a
-- receipt (revise), the verifier of a loosening (Verifier), the policy snapshot, the commit of the
-- running build and what is read of pause.json. Of the tasks it is what the record Engine holds (the
-- engine's current binding, its verification and signature of a receipt, the configuration of a
-- project, the verification of a signed receipt by the broker's key), whether an agent holds a task
-- type (holds), the closing of a work intent (close_intent) and the comparison of two JSON texts
-- (same_json). The JSON schema of receipts is the difference between a conforming and a
-- nonconforming wire form. Two tasks of one priority and one creation time are served in the order of
-- the table. Letters are lowered in ASCII only.
--
-- Not modelled: the HTTP server, the command line, the clients of GitHub and of cloud agents,
-- prompts, telemetry, the memory subsystem, the context pack, the decisions of the admission
-- engine, the pipeline, and the rest of the queue: enqueue, patches of a context, work intents, the
-- rows of attribution, telemetry and review quality, the callbacks before_commit and on_cancelled,
-- and the measured fields of execution events. The step relation of the tasks leaves out the
-- insertion of new tasks, record_prepared_review_base and bind_independent_reviews. A database
-- error is modelled for the boot reconciliation only, with its fallback.
pub mod Common
pub mod Cea
pub mod Queue
pub mod Loop
pub mod Examples
