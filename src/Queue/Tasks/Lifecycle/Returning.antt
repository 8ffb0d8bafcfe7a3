-- ===== src/Queue/Tasks/Lifecycle/Returning.antt =====
-- A row on its way back to the queue moves from in_progress or blocked to pending, or to blocked
-- (src/agent_crew/queue.py, requeue, requeue_dispatcher_claim, park_codex_quota,
-- resume_codex_quota, defer_push_delivery, defer_prep_retry, defer_provider_capacity).
use agent_crew.Common.{
  ℕ, String, Bool, true, false, not, ◌≡◌, refl, ◌&&◌, Option, none, some, is_some, if◌then◌else◌,
}
use agent_crew.Cea.CallSites.Requeue.{RequeuePath, RequeueOutcome}
use agent_crew.Cea.Matrix.{claim}
use agent_crew.Queue.Runtime.Moves.{Signal, stop_active}
use agent_crew.Queue.Tasks.Row.{
  Task, Status, in_progress, blocked, Db, task_of, record_end, ErrorInfo, QuotaHold,
  append_exec_event,
}
use agent_crew.Queue.Tasks.Engine.{Engine}
use agent_crew.Queue.Tasks.Requeue.{
  requeue_through_gate, set_task_in, to_pending, in_status, requeue, recoverable,
  requeue_dispatcher_claim, parked_row, park_codex_quota, stranded, hold_of, resumed_row,
  resume_held, resume_codex_quota,
}
use agent_crew.Queue.Tasks.Lifecycle.{
  Lifecycle, requeued, parked, resumed, Quiet-refl, Quiet-Evolves,
}
use agent_crew.Queue.Tasks.Lifecycle.Writes.{Silent, record_end-Silent, requeue_through_gate-Silent}
use agent_crew.Queue.Tasks.Lifecycle.Moves.{
  Progress, Silent-then, then_Silent, set_task_in-Progress,
}

pub Progress-refl : (db : Db) → Progress db db
Progress-refl db = Quiet-Evolves Quiet-refl

pub if-Progress :
    {A : Type 0} (db : Db) (b : Bool) (x y : Db × A)
    → Progress db x.0
    → Progress db y.0
    → Progress db (if b then x else y).0
if-Progress db true x y p q = p
if-Progress db false x y p q = q

-- an UPDATE of a row in one status, and the end of its lease
pub leave-Progress :
    (i : String) (at : ℕ) (event : String) (s : Status) (f : Task → Task) (db : Db)
    → ((t : Task) → (f t).task_id ≡ t.task_id)
    → ((t : Task) → Lifecycle s (f t).status)
    → Progress db (record_end i at event false (set_task_in i s f db))
leave-Progress i at event s f db same_id goes =
    let moved = set_task_in i s f db in
    then_Silent db moved (record_end i at event false moved)
      (set_task_in-Progress i s f db same_id goes) (record_end-Silent i at event false moved)

-- the same after the gate
pub back-Progress :
    (e : Engine) (path : RequeuePath) (i : String) (now : ℕ) (f : Task → Task) (db : Db)
    → ((t : Task) → (f t).task_id ≡ t.task_id)
    → ((t : Task) → Lifecycle in_progress (f t).status)
    → Progress db (
        record_end i now "requeued" false
          (set_task_in i in_progress f (requeue_through_gate e path i now db).0))
back-Progress e path i now f db same_id goes =
    let gated = (requeue_through_gate e path i now db).0 in
    Silent-then db gated (record_end i now "requeued" false (set_task_in i in_progress f gated))
      (requeue_through_gate-Silent e path i now db)
      (leave-Progress i now "requeued" in_progress f gated same_id goes)

pub gate-Progress :
    (e : Engine) (path : RequeuePath) (i : String) (now : ℕ) (db : Db)
    → Progress db (requeue_through_gate e path i now db).0
gate-Progress e path i now db = Quiet-Evolves (requeue_through_gate-Silent e path i now db)

pub if_db :
    (db : Db) (b : Bool) (x y : Db)
    → Progress db x
    → Progress db y
    → Progress db (if b then x else y)
if_db db true x y p q = p
if_db db false x y p q = q

pub requeue-Progress :
    (e : Engine) (i : String) (now : ℕ) (db : Db) → Progress db (requeue e i now db)
unfolding requeue
requeue-Progress e i now db =
    if_db db (in_status in_progress (task_of i db.tasks)) _ _
      (if_db db (is_some (requeue_through_gate e RequeuePath.requeue i now db).1) _ _
        (back-Progress e RequeuePath.requeue i now to_pending db (λ _. refl) (λ _. requeued))
        (gate-Progress e RequeuePath.requeue i now db))
      (Progress-refl db)

pub requeue_dispatcher_claim-Progress :
    (e : Engine) (i : String) (limit : Option ℕ) (now : ℕ) (db : Db)
    → Progress db (requeue_dispatcher_claim e i limit now db).0
unfolding requeue_dispatcher_claim
requeue_dispatcher_claim-Progress e i limit now db =
    if-Progress db (recoverable limit (task_of i db.tasks) db.exec_events) _ _
      (if-Progress db
        (is_some (requeue_through_gate e RequeuePath.requeue_dispatcher_claim i now db).1) _ _
        (back-Progress e RequeuePath.requeue_dispatcher_claim i now to_pending db (λ _. refl)
          (λ _. requeued))
        (gate-Progress e RequeuePath.requeue_dispatcher_claim i now db))
      (Progress-refl db)

pub park_codex_quota-Progress :
    (i : String) (failed_at : ℕ) (reset_at : Option ℕ) (account : Option String) (db : Db)
    → Progress db (park_codex_quota i failed_at reset_at account db).0
unfolding park_codex_quota
park_codex_quota-Progress i failed_at reset_at account db =
    if-Progress db (in_status in_progress (task_of i db.tasks)) _ _
      (leave-Progress i failed_at "codex_quota_parked" in_progress
        (parked_row failed_at reset_at account) db (λ _. refl) (λ _. parked))
      (Progress-refl db)

resume_held-Progress :
    (i : String) (probe : Bool) (now : ℕ) (held : Option (Task × ErrorInfo × QuotaHold))
    (answer : Option RequeueOutcome) (db gated : Db)
    → Silent db gated
    → Progress db (resume_held i probe now held answer db gated).0
unfolding resume_held append_exec_event
resume_held-Progress i probe now none answer db gated q = Progress-refl db
resume_held-Progress i probe now (some h) none db gated q = Progress-refl db
resume_held-Progress i probe now (some h) (some answer) db gated q =
    if-Progress db (stranded answer) _ _ (Progress-refl db) (
      Silent-then db gated (set_task_in i blocked (resumed_row h probe now) gated) q
        (set_task_in-Progress i blocked (resumed_row h probe now) gated (λ _. refl) (λ _. resumed)))

pub resume_codex_quota-Progress :
    (e : Engine) (i : String) (probe : Bool) (signal : Signal) (now : ℕ) (db : Db)
    → Progress db (resume_codex_quota e i probe signal now db).0
unfolding resume_codex_quota
resume_codex_quota-Progress e i probe signal now db =
    let stop = stop_active claim signal now db.runtime in
    let at : Db = record db { runtime = stop.0 } in
    let (gated, answer) = requeue_through_gate e RequeuePath.resume_codex_quota i now at in
    if-Progress db (in_status blocked (task_of i db.tasks) && not stop.1) _ _
      (resume_held-Progress i probe now (hold_of (task_of i db.tasks)) answer db gated
        (requeue_through_gate-Silent e RequeuePath.resume_codex_quota i now at))
      (Progress-refl db)
