-- ===== src/Examples/Tasks.antt =====
-- Tasks, their claims and their ends on concrete rows (src/agent_crew/queue.py,
-- src/agent_crew/cea/callsites.py).
use agent_crew.Common.{
  ℕ, String, Bool, true, false, ◌≡◌, ◌↔◌, ◌⊎◌, refl, none, some, List, [], ◌∷◌, any, elem,
  string_eq, find_where,
}
use mathlib.Core.Option
use agent_crew.Cea.Types.{Receipt, ReceiptState, queued, running, RuntimeState}
use agent_crew.Cea.Store.Receipts.{current_receipt, is_terminal}
use agent_crew.Cea.Drift.{same_revs}
use agent_crew.Cea.Matrix.{claim, Outcome}
use agent_crew.Cea.Validator.Inputs.{conforming, Code, ValidationResult, answer}
use agent_crew.Cea.CallSites.{Mode, Config, gate}
use agent_crew.Cea.CallSites.Enforcement.{Waved, gate-proceed_iff}
use agent_crew.Cea.CallSites.Requeue.{RequeuePath, gate_requeue, Reusable, gate_requeue-proceed_iff}
use agent_crew.Queue.Runtime.Row.{read_stop_row}
use agent_crew.Queue.Runtime.Moves.{disarmed}
use agent_crew.Queue.Runtime.Loosening.{state}
use agent_crew.Queue.Tasks.Row.{
  Task, Context, Status, pending, in_progress, completed, cancelled, Db, task_of,
}
use agent_crew.Queue.Tasks.Engine.{
  Engine, cea_claim_gate, config_for_receipt, inputs_of, receipt_for_task,
}
use agent_crew.Queue.Tasks.Dequeue.{dequeue, took}
use agent_crew.Queue.Tasks.Dequeue.Selection.{
  Request, choose, chosen, overridden, by_role, role_to_type, open_to,
}
use agent_crew.Queue.Tasks.Requeue.{requeue}
use agent_crew.Queue.Tasks.Cancel.{cancel, expire_stale, force_fail, mark_needs_human}
use agent_crew.Queue.Tasks.Results.{submit_result, posted}
use agent_crew.Queue.Tasks.Results.Refusal.{Submission}
use agent_crew.Queue.Tasks.Lifecycle.{status_of, ids}
use agent_crew.Queue.Tasks.Lifecycle.Keys.{Keyed, distinct}
use agent_crew.Queue.Tasks.Lifecycle.Calls.{requeues, fails}
use agent_crew.Queue.Tasks.Lifecycle.Steps.{
  Step, calls, marks, Run, done, then_step, Handled, Step-Progress, cancelled_is_final,
  completed_is_final,
}
use agent_crew.Queue.Tasks.Claims.Taking.{Takes, dequeue-Takes}
use agent_crew.Queue.Tasks.Claims.Serving.{dequeue_serves}
use agent_crew.Queue.Tasks.Claims.Ordering.{First, choose_order}
use agent_crew.Queue.Tasks.Stranding.{answer_to, requeue_strands}
use agent_crew.Queue.Tasks.Revocation.{AllOrNothing, cancel_whole}
use agent_crew.Queue.Tasks.Expiring.{expire_stale-ends}
use agent_crew.Queue.Tasks.Accepting.{AcceptedRow, submit_result-accepts}
use agent_crew.Examples.Receipts.{receipt_in, inputs_1}

abbrev config_in : Mode → Config
config_in m = record { mode = m; enforce_codes = none }

abbrev engine_in : Mode → Engine
engine_in m = record {
  config = λ _. config_in m;
  current_binding = λ r. (some r.binding, []);
  verify = λ _. some true;
  resign = conforming;
  keeps_receipts = true;
  verify_signed = λ r rid t codes. some "grant";
  parse_rfc3339 = λ _. some 0;
  strip = λ s. s;
}

abbrev no_context : Context
no_context = record {
  prev_task_id = none;
  original_task_id = none;
  external_operation_id = none;
  agent = none;
  agent_override = none;
  implementer_agent = none;
  bound_provider = none;
  push_not_before = none;
  push_refusal_reason = none;
  push_refusals = [];
  prep_retry_count = none;
  prep_retry_error = none;
  provider_capacity_count = none;
  provider_capacity_since = none;
  provider_capacity_blocked_at = none;
  cea_requeue = none;
  cea_result = none;
  owner_successor = none;
}

abbrev task : (task_id task_type : String) → (priority : ℕ) → Status → Task
task i ty p s = record {
  task_id = i;
  task_type = ty;
  description = "do it";
  branch = "main";
  priority = p;
  created_at = 5;
  context = no_context;
  project = "crew";
  status = s;
  summary = none;
  verdict = none;
  findings = [];
  pr_number = none;
  error_info = none;
  status_changed_at = none;
  receipt_id = some "r-1";
  claim_source = "";
  claimed_at = none;
  claimed_by_role = none;
  claimed_by_agent = none;
  claimed_via = none;
  last_activity_at = none;
  last_heartbeat_at = none;
  dispatched_at = none;
  dispatch_channel = none;
  dispatch_agent = none;
  dispatch_target = none;
  dispatch_attempt = none;
  lease_owner = none;
  lease_expires_at = none;
  result_posted_at = none;
}

abbrev rows : List Task
rows =
    task "t-1" "implement" 3 pending
    ∷ task "t-2" "implement" 1 pending
    ∷ task "t-3" "review" 2 cancelled
    ∷ task "t-4" "review" 2 completed
    ∷ task "t-5" "implement" 2 in_progress
    ∷ []

abbrev pub db_in : ReceiptState → Db
db_in s = record {
  tasks = rows;
  exec_events = [];
  receipts = record { receipt_id = "r-1"; seq = 0; body = receipt_in s } ∷ [];
  nonces = [];
  lineages = [];
  signed_receipt_spent = [];
  runtime = record { row = none; events = [] };
  outbox = [];
  work_intents = [];
}

abbrev pull : (agent role : String) → Request
pull agent role = record {
  agent = agent;
  role = role;
  claimed_via = "http_poll";
  claim_source = "";
  skip_task_ids = [];
  skip_deferred = false;
  override_task_type = none;
  independent_review_only = false;
}

abbrev off_engine : Engine
off_engine = engine_in Mode.off

abbrev db_1 : Db
db_1 = db_in queued

keyed : Keyed rows
unfolding distinct ids
keyed = refl

abbrev holds_all : String → String → Bool
holds_all provider task_type = true

abbrev plain : Request
plain = pull "" ""

takes_urgent :
    (dequeue off_engine holds_all plain disarmed disarmed 9 db_1).1
    ≡ took (task "t-2" "implement" 1 pending)
unfolding dequeue
takes_urgent = refl

dequeue-Takes_example :
    (disarmed ≡ disarmed)
    × (disarmed ≡ disarmed)
    × (state db_1.runtime ≡ RuntimeState.active)
    × Takes "t-2" rows (dequeue off_engine holds_all plain disarmed disarmed 9 db_1).0.tasks
dequeue-Takes_example =
    dequeue-Takes off_engine holds_all plain disarmed disarmed 9 db_1
      (task "t-2" "implement" 1 pending) keyed takes_urgent

dequeue_serves_example :
    (t : Task) × ((dequeue off_engine holds_all plain disarmed disarmed 9 db_1).1 ≡ took t)
unfolding open_to read_stop_row
dequeue_serves_example =
    dequeue_serves off_engine (λ _. refl) holds_all plain 9 db_1 refl refl refl refl

abbrev coder : Request
coder = pull "claude" "coder"

chooses_urgent : choose holds_all coder 9 rows ≡ chosen (some (task "t-2" "implement" 1 pending))
unfolding choose
chooses_urgent = refl

choose_order_example :
    First (overridden coder none 9) (task "t-2" "implement" 1 pending) rows
    ⊎ ((any (overridden coder none 9) rows ≡ false)
        × First (by_role coder "implement" 9) (task "t-2" "implement" 1 pending) rows)
unfolding role_to_type
choose_order_example =
    choose_order holds_all coder "implement" 9 rows (task "t-2" "implement" 1 pending) refl refl
      refl refl refl chooses_urgent

-- t-4 is completed, and a gate before the merge stops it
abbrev marked : Step off_engine db_1 (mark_needs_human "t-4" "blocked before the merge" db_1).0
marked = marks "t-4" "blocked before the merge" {db = db_1}

Step-Progress_example : Handled off_engine marked
Step-Progress_example = Step-Progress off_engine marked keyed

-- the database after a requeue of t-3, a forced failure of it and a mark on t-5
abbrev failed_db : Db
failed_db = (force_fail "t-3" "silent" none 12 (requeue off_engine "t-3" 10 db_1)).0

abbrev later_db : Db
later_db = (mark_needs_human "t-5" "look at it" failed_db).0

abbrev later_run : Run off_engine db_1 later_db
later_run =
    then_step
      (then_step (then_step done (calls (requeues "t-3" 10 {db = db_1})))
        (calls (fails "t-3" "silent" none 12 {db = requeue off_engine "t-3" 10 db_1})))
      (marks "t-5" "look at it" {db = failed_db})

cancelled_is_final_example : status_of "t-3" later_db.tasks ≡ some cancelled
unfolding status_of task_of find_where force_fail requeue
cancelled_is_final_example = cancelled_is_final off_engine later_run keyed "t-3" refl refl

completed_is_final_example : status_of "t-4" later_db.tasks ≡ some completed
unfolding status_of task_of find_where force_fail requeue
completed_is_final_example = completed_is_final off_engine later_run keyed "t-4" refl refl

cancel_whole_example :
    AllOrNothing "t-5" db_1 (cancel off_engine "t-5" (some in_progress) none "now" 9 db_1)
cancel_whole_example = cancel_whole off_engine "t-5" (some in_progress) none "now" 9 db_1

-- a running task that was last heard of at 1, beside one that is over
abbrev silent_db : Db
silent_db = record db_1 {
  tasks =
      record (task "t-6" "implement" 2 in_progress) { last_activity_at = some 1 }
      ∷ task "t-7" "review" 2 completed
      ∷ [];
}

silent_db-Keyed : Keyed silent_db.tasks
unfolding distinct ids
silent_db-Keyed = refl

reports_silent : elem "t-6" (expire_stale off_engine 4 "now" 9 silent_db silent_db).1 ≡ true
unfolding expire_stale
reports_silent = refl

expire_stale-ends_example :
    status_of "t-6" (expire_stale off_engine 4 "now" 9 silent_db silent_db).0.tasks ≡ some cancelled
expire_stale-ends_example =
    expire_stale-ends off_engine 4 "now" 9 silent_db silent_db silent_db-Keyed "t-6" reports_silent

abbrev verdict : ValidationResult
verdict = answer claim (receipt_in queued) Outcome.held Code.runtime_draining

gate-proceed_iff_example :
    ((gate claim verdict (config_in Mode.enforce) (receipt_in queued)).proceed ≡ true)
    ↔ Waved verdict (config_in Mode.enforce) (receipt_in queued)
gate-proceed_iff_example =
    gate-proceed_iff claim verdict (config_in Mode.enforce) (receipt_in queued)

gate_requeue-proceed_iff_example :
    ((gate_requeue
        (some (receipt_in queued))
        RequeuePath.requeue
        inputs_1
        (config_in Mode.enforce)).outcome
      ≡ Outcome.proceed)
    ↔ ((r : Receipt) × (some (receipt_in queued) ≡ some r) × Reusable r inputs_1)
gate_requeue-proceed_iff_example =
    gate_requeue-proceed_iff (some (receipt_in queued)) RequeuePath.requeue inputs_1
      (config_in Mode.enforce)

abbrev pub on_engine : Engine
on_engine = engine_in Mode.enforce

abbrev started_db : Db
started_db = db_in running

reuses_started : (answer_to on_engine 9 (receipt_in running)).outcome ≡ Outcome.proceed
unfolding gate_requeue is_terminal inputs_of same_revs
reuses_started = refl

requeue_strands_example :
    (status_of "t-5" (requeue on_engine "t-5" 9 started_db).tasks ≡ some pending)
    × ((receipt_for_task "t-5" (requeue on_engine "t-5" 9 started_db)).1
        ≡ some (receipt_in running))
    × (Option.map
          (λ g. g.proceed)
          (cea_claim_gate on_engine 99 "t-5" "codex" "coder" (requeue on_engine "t-5" 9 started_db))
        ≡ some false)
unfolding task_of find_where current_receipt config_for_receipt
requeue_strands_example =
    requeue_strands on_engine "t-5" 9 started_db (task "t-5" "implement" 2 in_progress)
      (receipt_in running) refl refl refl refl refl reuses_started 99 "codex" "coder" refl refl

abbrev late_submission : Submission
late_submission = record {
  result = record {
    task_id = "t-3";
    status = completed;
    summary = "done after all";
    verdict = none;
    findings = [];
    pr_number = none;
    error_info = none;
    json = "{}";
  };
  nonce = none;
  presenter = none;
  consume_receipt = true;
  expected_status = none;
  dispatcher_failed = false;
  allow_review_replay = false;
  validate_review = false;
  adopted_fallback_task_id = none;
}

abbrev done_submission : Submission
done_submission = record late_submission {
  result = record late_submission.result { task_id = "t-5" };
}

accepts_done :
    (submit_result off_engine (λ i now ts ws. ws) (λ a b. true) disarmed done_submission 9 db_1).1
    ≡ posted "implement"
unfolding submit_result
accepts_done = refl

submit_result-accepts_example :
    AcceptedRow off_engine
      (λ i now ts ws. ws)
      (λ a b. true)
      disarmed
      done_submission
      9
      "implement"
      db_1
      (submit_result off_engine (λ i now ts ws. ws) (λ a b. true) disarmed done_submission 9 db_1).0
submit_result-accepts_example =
    submit_result-accepts off_engine (λ i now ts ws. ws) (λ a b. true) disarmed done_submission 9
      "implement" db_1 accepts_done
