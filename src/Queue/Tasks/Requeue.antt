-- ===== src/Queue/Tasks/Requeue.antt =====
-- The ways of a claimed row back to pending (src/agent_crew/queue.py, requeue_through_gate, requeue,
-- requeue_dispatcher_claim, reset_stale_to_pending, park_codex_quota, resume_codex_quota).
use agent_crew.Common.{
  ℕ, String, Bool, true, false, not, ◌&&◌, if◌then◌else◌, Option, none, some, List, [], ◌∷◌, ◌==◌,
  string_eq, ltb, leb, any, is_some, update_where,
}
use agent_crew.Cea.Types.{Receipt, ReceiptState}
use agent_crew.Cea.Matrix.{Outcome, claim}
use agent_crew.Cea.CallSites.Requeue.{RequeuePath, RequeueOutcome, gate_requeue}
use agent_crew.Queue.Runtime.Moves.{Signal, stop_active}
use agent_crew.Queue.Tasks.Row.{
  Task, Status, pending, in_progress, blocked, same_status, Db, ExecEvent, ErrorInfo, QuotaHold,
  task_of, set_task, append_exec_event, record_end, or_zero, idle_since,
}
use agent_crew.Queue.Tasks.Engine.{
  Engine, cea_transition, receipt_for_task, config_for_receipt, inputs_of,
}

abbrev pub attempt_or : Option ℕ → Receipt → Receipt
attempt_or none r = r
attempt_or (some n) r = record r { attempt = n }

-- what an answer does to the receipt
unfoldable pub settle_as : Engine → Outcome → RequeueOutcome → ℕ → Db → Db
unfolding cea_transition
settle_as e Outcome.proceed g now db =
    cea_transition e g.receipt_id ReceiptState.held (attempt_or g.attempt) now db
settle_as e Outcome.held g now db = cea_transition e g.receipt_id ReceiptState.held (λ r. r) now db
settle_as e Outcome.re_admit g now db =
    cea_transition e g.receipt_id ReceiptState.superseded (λ r. r) now db
settle_as e _ g now db = db

abbrev pub settle : Engine → RequeueOutcome → ℕ → Db → Db
settle e g now db = settle_as e g.outcome g now db

-- `_cea_patch_context_in_txn` with the answer
abbrev pub patched : RequeueOutcome → Task → Task
patched g t = record t { context = record t.context { cea_requeue = some g } }

-- the answer to a receipt, or the refusal of a row that has none
unfoldable pub readmit :
    Engine
    → RequeuePath
    → (task_id : String) → ℕ
    → (found : Option Receipt) → Db
    → Db × Option RequeueOutcome
unfolding record_end gate_requeue inputs_of config_for_receipt settle_as set_task
readmit e path task_id now none db =
    (record_end task_id now "requeue_refused_no_receipt" false db, none)
readmit e path task_id now (some r) db =
    let g = gate_requeue (some r) path (inputs_of e r now) (config_for_receipt e (some r)) in
    (set_task task_id (patched g) (settle e g now db), some g)

-- `requeue_through_gate`; `none` in place of an answer says that the row stays
unfoldable pub requeue_through_gate :
    Engine → RequeuePath → (task_id : String) → ℕ → Db → Db × Option RequeueOutcome
unfolding receipt_for_task readmit
requeue_through_gate e path task_id now db =
    readmit e path task_id now (receipt_for_task task_id db).1 db

abbrev pub to_pending : Task → Task
to_pending t = record t { status = pending; claim_source = "" }

-- UPDATE ... WHERE task_id = ? AND status = ?
unfoldable pub set_task_in : String → Status → (Task → Task) → Db → Db
unfolding update_where
set_task_in task_id s f db = record db {
  tasks = update_where (λ t. t.task_id == task_id && same_status t.status s) f db.tasks;
}

-- the end of a path that goes through: the row is pending again, its lease is over
abbrev pub readmitted : (task_id : String) → ℕ → Db → Db
readmitted task_id now db =
    record_end task_id now "requeued" false (set_task_in task_id in_progress to_pending db)

-- a claimed row, or nothing
abbrev pub in_status : Status → Option Task → Bool
in_status s none = false
in_status s (some t) = same_status t.status s

-- the end of `requeue`, for a row in progress and an answer that lets it go back
abbrev pub requeue_end :
    (task_id : String) → ℕ → (claimed : Bool) → Db × Option RequeueOutcome → Db → Db
requeue_end task_id now claimed (gated, answer) db =
    if claimed then if is_some answer then readmitted task_id now gated else gated else db

-- `requeue`
unfoldable pub requeue : Engine → (task_id : String) → ℕ → Db → Db
unfolding task_of requeue_through_gate set_task_in record_end
requeue e task_id now db =
    requeue_end task_id now (in_status in_progress (task_of task_id db.tasks))
      (requeue_through_gate e RequeuePath.requeue task_id now db) db

abbrev was_dispatched : String → ℕ → ExecEvent → Bool
was_dispatched task_id since ev =
    ev.task_id == task_id && (ev.event == "dispatched" && leb since ev.at)

-- the attempt is old and never started
abbrev pub unstarted : (limit : ℕ) → Task → List ExecEvent → Bool
unstarted limit t events =
    let claimed_at = or_zero t.last_activity_at in
    ltb 0 claimed_at
    && (leb claimed_at limit
        && (leb (or_zero t.last_heartbeat_at) limit
            && (not (is_some t.lease_owner)
                && (not (is_some t.lease_expires_at)
                    && (ltb (or_zero t.dispatched_at) claimed_at
                        && not (any (was_dispatched t.task_id claimed_at) events))))))

abbrev pub recoverable : Option ℕ → Option Task → List ExecEvent → Bool
recoverable limit none events = false
recoverable limit (some t) events =
    same_status t.status in_progress
    && (t.claim_source == "dispatcher"
        && elim limit [ none ↦ true | some at ↦ unstarted at t events ])

-- `requeue_dispatcher_claim`
unfoldable pub requeue_dispatcher_claim :
    Engine → (task_id : String) → (unstarted_before : Option ℕ) → ℕ → Db → Db × Bool
unfolding task_of requeue_through_gate set_task_in record_end
requeue_dispatcher_claim e task_id limit now db =
    let (db', g) = requeue_through_gate e RequeuePath.requeue_dispatcher_claim task_id now db in
    if recoverable limit (task_of task_id db.tasks) db.exec_events
    then if is_some g then (readmitted task_id now db', true) else (db', false)
    else (db, false)

-- the ids of the rows that a condition selects
unfoldable pub ids_where : (Task → Bool) → List Task → List String
ids_where p [] = []
ids_where p (t ∷ ts) = let rest = ids_where p ts in if p t then t.task_id ∷ rest else rest

-- the first loop of `reset_stale_to_pending`: the rows that may go back
unfoldable pub readmit_all : Engine → ℕ → List String → Db → Db × List String
unfolding requeue_through_gate
readmit_all e now [] db = (db, [])
readmit_all e now (task_id ∷ ids) db =
    let (db', g) = requeue_through_gate e RequeuePath.reset_stale_to_pending task_id now db in
    let (db'', rest) = readmit_all e now ids db' in
    (db'', if is_some g then task_id ∷ rest else rest)

abbrev pub reset_row : ℕ → Task → Task
reset_row now t = record (to_pending t) { last_activity_at = some now }

-- its second loop
unfoldable pub reset_all : ℕ → List String → Db → Db
unfolding set_task record_end
reset_all now [] db = db
reset_all now (task_id ∷ ids) db =
    reset_all now ids
      (record_end task_id now "requeued" false (set_task task_id (reset_row now) db))

-- `reset_stale_to_pending`; `cutoff` is the time less the bound
unfoldable pub reset_stale_to_pending : Engine → (cutoff now : ℕ) → Db → Db × List String
unfolding ids_where readmit_all reset_all
reset_stale_to_pending e cutoff now db =
    let (db', ids) = readmit_all e now (ids_where (idle_since cutoff) db.tasks) db in
    (reset_all now ids db', ids)

abbrev pub parked_row :
    (failed_at : ℕ) (reset_at : Option ℕ) (account : Option String) → Task → Task
parked_row failed_at reset_at account t =
    let hold : QuotaHold = record {
      failed_at = failed_at;
      reset_at = reset_at;
      account_fingerprint = account;
      probe = none;
      resumed_at = none;
    } in
    record t {
      status = blocked;
      claim_source = "";
      summary = some "codex_quota_exhausted";
      error_info =
          some (record { reason = some "codex_quota_exhausted"; codex_quota_hold = some hold });
    }

-- `park_codex_quota`
unfoldable pub park_codex_quota :
    (task_id : String)
    → (failed_at : ℕ) → (reset_at : Option ℕ) → (account_fingerprint : Option String) → Db
    → Db × Bool
unfolding task_of set_task_in record_end
park_codex_quota task_id failed_at reset_at account db =
    if in_status in_progress (task_of task_id db.tasks)
    then (
      record_end task_id failed_at "codex_quota_parked" false
          (set_task_in task_id in_progress (parked_row failed_at reset_at account) db),
      true,
    )
    else (db, false)

-- RE_ADMIT under enforcement, after which the row could never be claimed
abbrev pub stranded : RequeueOutcome → Bool
stranded g = elim g.outcome [ Outcome.re_admit ↦ g.enforced | _ ↦ false ]

abbrev pub hold_of : Option Task → Option (Task × ErrorInfo × QuotaHold)
hold_of none = none
hold_of (some t) = elim t.error_info [
  | none ↦ none
  | some info ↦ elim info.codex_quota_hold [ none ↦ none | some h ↦ some (t, info, h) ]
]

abbrev pub resumed_row : Task × ErrorInfo × QuotaHold → (probe : Bool) → ℕ → Task → Task
resumed_row (row, info, hold) probe now t =
    let marker = record hold { probe = some probe; resumed_at = some now } in
    record (to_pending t) {
      context = row.context;
      error_info = some (record info { codex_quota_hold = some marker });
    }

-- the end of `resume_codex_quota`, `db` being the database before it and `gated` after the gate
unfoldable pub resume_held :
    (task_id : String)
    → (probe : Bool) → ℕ
    → (held : Option (Task × ErrorInfo × QuotaHold)) → (answer : Option RequeueOutcome)
    → (db gated : Db) → Db × Bool
unfolding set_task_in append_exec_event
resume_held task_id probe now none answer db gated = (db, false)
resume_held task_id probe now (some h) none db gated = (db, false)
resume_held task_id probe now (some h) (some answer) db gated =
    if stranded answer then (db, false) else (
      append_exec_event task_id "codex_quota_resumed" now
          (set_task_in task_id blocked (resumed_row h probe now) gated),
      true,
    )

-- `resume_codex_quota`; the row keeps the context that it had
unfoldable pub resume_codex_quota :
    Engine → (task_id : String) → (probe : Bool) → Signal → ℕ → Db → Db × Bool
unfolding task_of stop_active requeue_through_gate resume_held
resume_codex_quota e task_id probe signal now db =
    let (rt, shut) = stop_active claim signal now db.runtime in
    let (gated, answer) =
      requeue_through_gate e RequeuePath.resume_codex_quota task_id now
        (record db { runtime = rt }) in
    if in_status blocked (task_of task_id db.tasks) && not shut
    then resume_held task_id probe now (hold_of (task_of task_id db.tasks)) answer db gated
    else (db, false)
