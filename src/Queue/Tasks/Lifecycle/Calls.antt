-- ===== src/Queue/Tasks/Lifecycle/Calls.antt =====
-- The calls that move a task along the graph of states (src/agent_crew/queue.py), with any arguments.
-- `expire_stale` is a series of cancellations.
use agent_crew.Common.{ℕ, String, Bool, true, ◌≡◌, Option, List}
use agent_crew.Queue.Runtime.Moves.{Signal}
use agent_crew.Queue.Tasks.Row.{Task, Status, Db, ErrorInfo, WorkIntent}
use agent_crew.Queue.Tasks.Engine.{Engine}
use agent_crew.Queue.Tasks.Dequeue.{dequeue, dequeue_discuss_for_agent}
use agent_crew.Queue.Tasks.Dequeue.Selection.{Request}
use agent_crew.Queue.Tasks.Requeue.{
  requeue, requeue_dispatcher_claim, reset_stale_to_pending, park_codex_quota, resume_codex_quota,
}
use agent_crew.Queue.Tasks.Defer.{defer_push_delivery, defer_prep_retry, defer_provider_capacity}
use agent_crew.Queue.Tasks.Cancel.{cancel, force_fail, force_fail_pending}
use agent_crew.Queue.Tasks.Parking.{finish_owner_readmission, block_one_independent_review}
use agent_crew.Queue.Tasks.Lifecycle.Parking.{
  finish_owner_readmission-Progress, block_one_independent_review-Progress,
}
use agent_crew.Queue.Tasks.Start.{Dispatch, record_dispatch, start_execution}
use agent_crew.Queue.Tasks.Results.{submit_result}
use agent_crew.Queue.Tasks.Results.Refusal.{Submission}
use agent_crew.Queue.Tasks.Lifecycle.{is_reported}
use agent_crew.Queue.Tasks.Lifecycle.Keys.{Keyed}
use agent_crew.Queue.Tasks.Lifecycle.Moves.{Progress}
use agent_crew.Queue.Tasks.Lifecycle.Dequeuing.{dequeue-Progress, dequeue_discuss-Progress}
use agent_crew.Queue.Tasks.Lifecycle.Returning.{
  requeue-Progress, requeue_dispatcher_claim-Progress, park_codex_quota-Progress,
  resume_codex_quota-Progress,
}
use agent_crew.Queue.Tasks.Lifecycle.Deferring.{
  defer_push_delivery-Progress, defer_prep_retry-Progress, defer_provider_capacity-Progress,
}
use agent_crew.Queue.Tasks.Lifecycle.Ending.{
  cancel-Progress, force_fail-Progress, force_fail_pending-Progress,
}
use agent_crew.Queue.Tasks.Lifecycle.Reporting.{submit_result-Progress}
use agent_crew.Queue.Tasks.Lifecycle.Starting.{record_dispatch-Progress, start_execution-Progress}
use agent_crew.Queue.Tasks.Lifecycle.Resetting.{reset_stale-Progress}

module _ (e : Engine) where
  -- One call of a method.
  pub data Call : Db → Db → Type 0 where
    dequeues :
        (holds : String → String → Bool) (req : Request) (first second : Signal) (now : ℕ) {db : Db}
        → Call db (dequeue e holds req first second now db).0
    dequeues_discuss :
        (agent via source : String) (skip : Bool) (first second : Signal) (now : ℕ) {db : Db}
        → Call db (dequeue_discuss_for_agent e agent via source skip first second now db).0
    requeues : (i : String) (now : ℕ) {db : Db} → Call db (requeue e i now db)
    recovers :
        (i : String) (limit : Option ℕ) (now : ℕ) {db : Db}
        → Call db (requeue_dispatcher_claim e i limit now db).0
    resets : (cutoff now : ℕ) {db : Db} → Call db (reset_stale_to_pending e cutoff now db).0
    parks :
        (i : String) (at : ℕ) (reset_at : Option ℕ) (account : Option String) {db : Db}
        → Call db (park_codex_quota i at reset_at account db).0
    resumes :
        (i : String) (probe : Bool) (signal : Signal) (now : ℕ) {db : Db}
        → Call db (resume_codex_quota e i probe signal now db).0
    defers_push :
        (i pane reason : String) (max_refusals backoff now : ℕ) {db : Db}
        → Call db (defer_push_delivery e i pane reason max_refusals backoff now db).0
    defers_prep :
        (i error : String) (delay now : ℕ) {db : Db}
        → Call db (defer_prep_retry e i error delay now db).0
    defers_capacity :
        (i tag : String) (delay blocked_after now : ℕ) {db : Db}
        → Call db (defer_provider_capacity e i tag delay blocked_after now db).0
    cancels :
        (i : String) (expected : Option Status) (stale : Option ℕ) (used_at : String) (now : ℕ)
        {db : Db}
        → Call db (cancel e i expected stale used_at now db).0
    fails :
        (i summary : String) (info : Option ErrorInfo) (now : ℕ) {db : Db}
        → Call db (force_fail i summary info now db).0
    fails_pending :
        (i summary : String) (info : Option ErrorInfo) (now : ℕ) {db : Db}
        → Call db (force_fail_pending i summary info now db).0
    dispatches :
        (i : String) (d : Dispatch) (fresh issued : String) (at : ℕ) {db : Db}
        → Call db (record_dispatch e i d fresh issued at db).0
    starts :
        (i : String) (shown presenter : Option String) (used_at : String) (now : ℕ) {db : Db}
        → Call db (start_execution e i shown presenter used_at now db).0
    finishes_readmission :
        (i successor : String) {db : Db} → Call db (finish_owner_readmission i successor db).0
    blocks_review :
        (i : String) (block : Option ErrorInfo) (now : ℕ) {db : Db}
        → Call db (block_one_independent_review i block now db).0
    submits :
        (close_intent : String → ℕ → List Task → List WorkIntent → List WorkIntent)
        (same_json : String → String → Bool) (signal : Signal) (sub : Submission) (now : ℕ)
        {db : Db}
        → is_reported sub.result.status ≡ true
        → Call db (submit_result e close_intent same_json signal sub now db).0

  -- every call moves the tasks along the graph
  pub Call-Progress : {db db' : Db} → Call db db' → Keyed db.tasks → Progress db db'
  Call-Progress (dequeues holds req first second now {db = db}) k =
      dequeue-Progress e holds req first second now db k
  Call-Progress (dequeues_discuss agent via source skip first second now {db = db}) k =
      dequeue_discuss-Progress e agent via source skip first second now db k
  Call-Progress (requeues i now {db = db}) k = requeue-Progress e i now db
  Call-Progress (recovers i limit now {db = db}) k =
      requeue_dispatcher_claim-Progress e i limit now db
  Call-Progress (resets cutoff now {db = db}) k = reset_stale-Progress e cutoff now db k
  Call-Progress (parks i at reset_at account {db = db}) k =
      park_codex_quota-Progress i at reset_at account db
  Call-Progress (resumes i probe signal now {db = db}) k =
      resume_codex_quota-Progress e i probe signal now db
  Call-Progress (defers_push i pane reason max_refusals backoff now {db = db}) k =
      defer_push_delivery-Progress e i pane reason max_refusals backoff now db
  Call-Progress (defers_prep i error delay now {db = db}) k =
      defer_prep_retry-Progress e i error delay now db
  Call-Progress (defers_capacity i tag delay blocked_after now {db = db}) k =
      defer_provider_capacity-Progress e i tag delay blocked_after now db
  Call-Progress (cancels i expected stale used_at now {db = db}) k =
      cancel-Progress e i expected stale used_at now db
  Call-Progress (fails i summary info now {db = db}) k = force_fail-Progress i summary info now db
  Call-Progress (fails_pending i summary info now {db = db}) k =
      force_fail_pending-Progress i summary info now db
  Call-Progress (dispatches i d fresh issued at {db = db}) k =
      record_dispatch-Progress e i d fresh issued at db
  Call-Progress (starts i shown presenter used_at now {db = db}) k =
      start_execution-Progress e i shown presenter used_at now db
  Call-Progress (finishes_readmission i successor {db = db}) k =
      finish_owner_readmission-Progress i successor db
  Call-Progress (blocks_review i block now {db = db}) k =
      block_one_independent_review-Progress i block now db
  Call-Progress (submits close_intent same_json signal sub now {db = db} r) k =
      submit_result-Progress e close_intent same_json signal sub r now db
