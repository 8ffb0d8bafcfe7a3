-- ===== src/Queue/Tasks/Row.antt =====
-- The tables that the life of a task touches (src/agent_crew/queue.py, tasks, task_exec_events).
-- Of a JSON column only the keys that the modelled methods read or write are kept. Times are whole
-- numbers of ticks.
use agent_crew.Common.{
  ℕ, String, Bool, true, false, if◌then◌else◌, Option, none, some, List, ◌∷◌, ◌==◌, nat_eq,
  string_eq, ltb, find_where, update_where, is_empty,
}
use agent_crew.Cea.Store.Receipts.{ReceiptRow}
use agent_crew.Cea.Store.Nonces.{NonceRow}
use agent_crew.Cea.Store.Lineages.{LineageRow}
use agent_crew.Cea.CallSites.{GateOutcome}
use agent_crew.Cea.CallSites.Requeue.{RequeueOutcome}
use agent_crew.Queue.Runtime.Row.{Runtime}
use agent_crew.Queue.Outbox.{Continuation}

-- `tasks.status`
pub data Status : Type 0 where
  pending in_progress completed failed needs_human timed_out blocked cancelled orphaned : Status

abbrev pub status_rank : Status → ℕ
status_rank pending = 0
status_rank in_progress = 1
status_rank completed = 2
status_rank failed = 3
status_rank needs_human = 4
status_rank timed_out = 5
status_rank blocked = 6
status_rank cancelled = 7
status_rank orphaned = 8

abbrev pub same_status : Status → Status → Bool
same_status a b = status_rank a == status_rank b

-- TERMINAL_TASK_STATUSES
abbrev pub is_over : Status → Bool
is_over completed = true
is_over failed = true
is_over cancelled = true
is_over timed_out = true
is_over _ = false

-- `codex_quota_hold`
pub record QuotaHold : Type 0 where
  pub failed_at : ℕ
  pub reset_at : Option ℕ
  pub account_fingerprint : Option String
  pub probe : Option Bool
  pub resumed_at : Option ℕ

-- `error_info`
pub record ErrorInfo : Type 0 where
  pub reason : Option String
  pub codex_quota_hold : Option QuotaHold

-- `context`
pub record Context : Type 0 where
  pub prev_task_id : Option String
  pub original_task_id : Option String
  pub external_operation_id : Option String
  pub agent : Option String
  pub agent_override : Option String
  pub implementer_agent : Option String
  pub bound_provider : Option String  -- independent_review_binding.provider
  pub push_not_before : Option ℕ
  pub push_refusal_reason : Option String
  pub push_refusals : List (String × ℕ)
  pub prep_retry_count : Option ℕ
  pub prep_retry_error : Option String
  pub provider_capacity_count : Option ℕ
  pub provider_capacity_since : Option ℕ
  pub provider_capacity_blocked_at : Option ℕ
  pub cea_requeue : Option RequeueOutcome
  pub cea_result : Option GateOutcome
  pub owner_successor : Option String

-- A row of tasks.
pub record Task : Type 0 where
  pub task_id : String
  pub task_type : String
  pub description : String
  pub branch : String
  pub priority : ℕ
  pub created_at : ℕ
  pub context : Context
  pub project : String
  pub status : Status
  pub summary : Option String
  pub verdict : Option String
  pub findings : List String
  pub pr_number : Option ℕ
  pub error_info : Option ErrorInfo
  pub status_changed_at : Option ℕ
  pub receipt_id : Option String
  pub claim_source : String
  pub claimed_at : Option ℕ
  pub claimed_by_role : Option String
  pub claimed_by_agent : Option String
  pub claimed_via : Option String
  pub last_activity_at : Option ℕ
  pub last_heartbeat_at : Option ℕ
  pub dispatched_at : Option ℕ
  pub dispatch_channel : Option String
  pub dispatch_agent : Option String
  pub dispatch_target : Option String
  pub dispatch_attempt : Option ℕ
  pub lease_owner : Option String
  pub lease_expires_at : Option ℕ
  pub result_posted_at : Option ℕ

-- A row of task_exec_events, without its fields.
pub record ExecEvent : Type 0 where
  pub task_id : String
  pub event : String
  pub at : ℕ

-- The state of a row of work_intents that the result path reads.
pub record WorkIntent : Type 0 where
  pub external_operation_id : String
  pub state : String

-- tasks.db; the newest event and the newest receipt row stand first, tasks in the order of their
-- insertion.
pub record Db : Type 0 where
  pub tasks : List Task
  pub exec_events : List ExecEvent
  pub receipts : List ReceiptRow
  pub nonces : List NonceRow
  pub lineages : List LineageRow
  pub signed_receipt_spent : List String
  pub runtime : Runtime
  pub outbox : List Continuation
  pub work_intents : List WorkIntent

-- WHERE task_id = ?
abbrev pub has_id : String → Task → Bool
has_id task_id t = t.task_id == task_id

-- SELECT * FROM tasks WHERE task_id = ?
unfoldable pub task_of : String → List Task → Option Task
unfolding find_where
task_of task_id ts = find_where (has_id task_id) ts

-- UPDATE tasks SET ... WHERE task_id = ?
unfoldable pub set_task : String → (Task → Task) → Db → Db
unfolding update_where
set_task task_id f db = record db { tasks = update_where (has_id task_id) f db.tasks }

-- `_append_exec_event_on`
unfoldable pub append_exec_event : String → String → ℕ → Db → Db
append_exec_event task_id event at db = record db {
  exec_events = record { task_id = task_id; event = event; at = at } ∷ db.exec_events;
}

-- `x or 0` of a column
abbrev pub or_zero : Option ℕ → ℕ
or_zero none = 0
or_zero (some n) = n

-- `x or None` of a text
abbrev pub or_none : String → Option String
or_none s = if is_empty s then none else some s

-- `x or y` of an optional text
abbrev pub nonempty : Option String → Option String
nonempty none = none
nonempty (some s) = or_none s

abbrev post : Bool → ℕ → Task → Task
post posted at t = if posted then record t { result_posted_at = some at } else t

-- `_record_end_on`
unfoldable pub record_end : String → ℕ → (event : String) → (posted : Bool) → Db → Db
unfolding set_task append_exec_event
record_end task_id at event posted db = append_exec_event task_id event at (
    set_task task_id
      (λ t. post posted at (record t { lease_owner = none; lease_expires_at = none })) db)

-- WHERE status = 'in_progress' AND last_activity_at < ? AND COALESCE(last_heartbeat_at, 0) < ?
abbrev pub idle_since : ℕ → Task → Bool
idle_since cutoff t = elim t.last_activity_at [
  | none ↦ false
  | some at ↦
      if same_status t.status in_progress
      then if ltb at cutoff then ltb (or_zero t.last_heartbeat_at) cutoff else false
      else false
]
