-- ===== src/Queue/Tasks/Results.antt =====
-- The result of a task (src/agent_crew/queue.py, submit_result; src/agent_crew/protocol.py,
-- validate_review_result). The result has passed TaskResult.__post_init__, so its findings are
-- texts. The attribution, telemetry and review quality rows that the same transaction writes, and
-- the hook `before_commit`, are left out.
pub mod Refusal
use agent_crew.Common.{
  ℕ, String, Bool, true, false, not, ◌&&◌, ◌||◌, if◌then◌else◌, Option, none, some, List, [], ◌∷◌,
  ◌==◌, nat_eq, string_eq, any, find_where, is_some,
}
use agent_crew.Cea.Types.{Receipt, ReceiptState, active, same_state}
use agent_crew.Cea.Matrix.{Outcome}
use agent_crew.Cea.CallSites.{GateOutcome}
use agent_crew.Queue.Outbox.{Continuation, Stage}
use agent_crew.Queue.Runtime.Row.{read_stop_row}
use agent_crew.Queue.Runtime.Moves.{Signal, reconcile_pause_signal}
use agent_crew.Queue.Tasks.Row.{
  Task, Status, completed, same_status, Db, ErrorInfo, WorkIntent, task_of, set_task,
  append_exec_event, record_end,
}
use agent_crew.Queue.Tasks.Engine.{
  Engine, cea_transition, receipt_for_task, config_for_receipt, cea_result_gate,
}
use agent_crew.Queue.Tasks.Results.Refusal.{
  TaskResult, Submission, Refused, admission_refused, refusal, late_result, is_late,
}

-- What `submit_result` answers: the task's type, or the exception it raises.
pub data Reply : Type 0 where
  posted : (task_type : String) → Reply
  refused : Refused → Reply

-- the `error_info` that is kept with a result
abbrev kept_info : String → TaskResult → Option ErrorInfo
kept_info task_type res =
    if same_status res.status Status.failed
      || (same_status res.status Status.timed_out
          || (same_status res.status Status.blocked
              || (same_status res.status Status.needs_human
                  || (task_type == "test" && same_status res.status completed))))
    then res.error_info
    else none

-- the UPDATE
abbrev pub accepted : TaskResult → ℕ → Task → Task
accepted res now t = record t {
  status = res.status;
  summary = some res.summary;
  verdict = res.verdict;
  findings = res.findings;
  pr_number = res.pr_number;
  error_info = kept_info t.task_type res;
  status_changed_at = if same_status t.status res.status then t.status_changed_at else some now;
}

-- the INSERT OR IGNORE into cascade_outbox
unfoldable pub owe : (suppressed : Bool) → (epoch : ℕ) → Task → TaskResult → ℕ → Db → Db
unfolding find_where
owe suppressed epoch t res now db =
    if is_some (find_where (λ c. c.parent_task_id == t.task_id) db.outbox) then db else record db {
      outbox =
          record {
            parent_task_id = t.task_id;
            task_type = t.task_type;
            result_json = res.json;
            stop_epoch = epoch;
            stage = if suppressed then Stage.pending else Stage.applied;
            attempt_id = none;
            lease_owner = none;
            lease_expires_at = none;
            created_at = now;
            updated_at = now;
          }
          ∷ db.outbox;
    }

-- the answer of the gate in the context, and the receipt CONSUMED
unfoldable pub consume :
    Engine → (task_id : String) → (consume_receipt : Bool) → ℕ → Option GateOutcome → Db → Db
unfolding set_task cea_transition
consume e task_id spends now none db = db
consume e task_id spends now (some g) db =
    let noted =
      set_task task_id (λ t. record t { context = record t.context { cea_result = some g } }) db in
    if spends
    then cea_transition e g.result.receipt_id ReceiptState.consumed (λ r. r) now noted
    else noted

-- the UPDATE and the end of the lease
unfoldable pub end_with : Submission → (task_id : String) → ℕ → Db → Db
unfolding set_task record_end
end_with sub task_id now db =
    record_end task_id now (if sub.dispatcher_failed then "dispatcher_failed" else "result") true
      (set_task task_id (accepted sub.result now) db)

-- the writes of an accepted result; `close_intent` is `_terminalize_work_intent_on`
unfoldable pub write_result :
    Engine
    → (close_intent : String → ℕ → List Task → List WorkIntent → List WorkIntent) → Signal
    → Submission
    → Task
    → ℕ
    → Option GateOutcome
    → Db
    → Db
unfolding end_with reconcile_pause_signal owe consume
write_result e close_intent signal sub t now gate db =
    let ended = end_with sub t.task_id now db in
    let (rt, state) = reconcile_pause_signal signal now ended.runtime in
    let closed = record ended {
      work_intents = close_intent t.task_id now ended.tasks ended.work_intents;
      runtime = rt;
    } in
    consume e t.task_id sub.consume_receipt now gate
      (owe (not (same_state state active)) (read_stop_row rt).epoch t sub.result now closed)

-- the gate at RESULT, for a row with a receipt
unfoldable pub result_gate :
    Engine → (nonce presenter : Option String) → ℕ → (task_id : String) → Db → Option GateOutcome
unfolding receipt_for_task cea_result_gate config_for_receipt
result_gate e nonce presenter now task_id db = elim (receipt_for_task task_id db).1 [
  | none ↦ none
  | some r ↦ some (cea_result_gate e now r nonce presenter (config_for_receipt e (some r)) db)
]

abbrev pub shuts : Option GateOutcome → Bool
shuts none = false
shuts (some g) = not g.proceed

-- past the refusals: the gate at RESULT, and the writes
unfoldable pub accept_of :
    Engine
    → (close_intent : String → ℕ → List Task → List WorkIntent → List WorkIntent) → Signal
    → Submission
    → Task
    → ℕ
    → Option GateOutcome
    → Db
    → Db × Reply
unfolding write_result
accept_of e close_intent signal sub t now gate db =
    if shuts gate
    then (db, refused admission_refused)
    else (write_result e close_intent signal sub t now gate db, posted t.task_type)

-- a refusal, which is logged when the result is late
unfoldable pub refuse_with : (task_id : String) → ℕ → Refused → Db → Db × Reply
unfolding append_exec_event
refuse_with task_id now why db =
    if is_late why
    then (append_exec_event task_id "late_result" now db, refused why)
    else (db, refused why)

-- what becomes of a result, given its refusal if there is one
unfoldable pub submit_of :
    Engine
    → (close_intent : String → ℕ → List Task → List WorkIntent → List WorkIntent) → Signal
    → Submission
    → Task
    → ℕ
    → (why : Option Refused) → Db
    → Db × Reply
unfolding result_gate accept_of refuse_with
submit_of e close_intent signal sub t now (some why) db = refuse_with sub.result.task_id now why db
submit_of e close_intent signal sub t now none db =
    accept_of e close_intent signal sub t now
      (result_gate e sub.nonce sub.presenter now sub.result.task_id db) db

unfoldable pub submit_to :
    Engine
    → (close_intent : String → ℕ → List Task → List WorkIntent → List WorkIntent)
    → (same_json : String → String → Bool) → Signal
    → Submission
    → ℕ
    → (row : Option Task) → Db
    → Db × Reply
unfolding refusal submit_of
submit_to e close_intent same_json signal sub now none db = (db, refused Refused.not_found)
submit_to e close_intent same_json signal sub now (some t) db =
    submit_of e close_intent signal sub t now (refusal same_json sub t db) db

-- `submit_result`, the result naming the task
unfoldable pub submit_result :
    Engine
    → (close_intent : String → ℕ → List Task → List WorkIntent → List WorkIntent)
    → (same_json : String → String → Bool) → Signal
    → Submission
    → ℕ
    → Db
    → Db × Reply
unfolding task_of submit_to
submit_result e close_intent same_json signal sub now db =
    submit_to e close_intent same_json signal sub now (task_of sub.result.task_id db.tasks) db
