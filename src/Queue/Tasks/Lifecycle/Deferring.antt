-- ===== src/Queue/Tasks/Lifecycle/Deferring.antt =====
-- A deferral moves the row from in_progress to pending or leaves every status alone
-- (src/agent_crew/queue.py, defer_push_delivery, defer_prep_retry, defer_provider_capacity).
use agent_crew.Common.{
  ℕ, ◌+◌, String, Bool, true, false, not, ◌≡◌, refl, sym, ap, ◌∙◌, Option, none, some, List, inl,
  inr, Bool-cases, arith, is_some, leb, if◌then◌else◌, find-holds, eq_of_beq, string_eq,
}
use mathlib.Core.Path.{subst}
use agent_crew.Cea.CallSites.Requeue.{RequeuePath}
use agent_crew.Queue.Tasks.Row.{
  Task, Status, pending, in_progress, Db, Context, task_of, has_id, same_status, set_task,
  append_exec_event,
}
use agent_crew.Queue.Tasks.Engine.{Engine}
use agent_crew.Queue.Tasks.Requeue.{requeue_through_gate, in_status}
use agent_crew.Queue.Tasks.Defer.{
  with_context, put_back, refuse_push, defer_push_of, defer_push_delivery, unprepared, is_stranded,
  requeued_row, defer_prep_retry, Streak, streak_of, at_capacity, capacity_end, capacity_blocked,
  defer_capacity_of, defer_provider_capacity,
}
use agent_crew.Queue.Tasks.Lifecycle.{
  Lifecycle, requeued, Quiet-Evolves, status_of, status_of-found,
}
use agent_crew.Queue.Tasks.Lifecycle.Writes.{
  same_tasks-Silent, requeue_through_gate-Silent, set_task-Silent,
}
use agent_crew.Queue.Tasks.Lifecycle.Moves.{
  Progress, Silent-then, then_Silent, set_task-Progress, same_status-eq,
}
use agent_crew.Queue.Tasks.Lifecycle.Returning.{
  Progress-refl, if-Progress, gate-Progress, back-Progress, leave-Progress,
}

-- a row in progress goes back whatever its context becomes
put_back-Progress :
    (i : String) (write : Context → Context) (db : Db)
    → status_of i db.tasks ≡ some in_progress
    → Progress db (set_task i (put_back write) db)
put_back-Progress i write db here =
    set_task-Progress i (put_back write) db (λ _. refl)
      (λ t e. subst (λ s. Lifecycle s pending) (let m = sym here ∙ e in ground arith) requeued)

refuse_push-Progress :
    (e : Engine) (t : Task) (write : Context → Context) (count max_refusals now : ℕ) (db : Db)
    → status_of t.task_id db.tasks ≡ some in_progress
    → Progress db (refuse_push e t write count max_refusals now db).0
unfolding refuse_push
refuse_push-Progress e t write count max_refusals now db here =
    let (gated, answer) = requeue_through_gate e RequeuePath.defer_push_delivery t.task_id now db in
    let silent = requeue_through_gate-Silent e RequeuePath.defer_push_delivery t.task_id now db in
    if-Progress db (leb max_refusals count) _ _
      (Quiet-Evolves (set_task-Silent t.task_id (with_context write) db (λ _. refl) (λ _. refl)))
      (if-Progress db (is_some answer) _ _
        (Silent-then db gated (set_task t.task_id (put_back write) gated) silent
          (put_back-Progress t.task_id write gated (silent.kept t.task_id ∙ here)))
        (Progress-refl db))

pub if_known :
    {A : Type 0} (db : Db) (b : Bool) (x y : Db × A)
    → (b ≡ true → Progress db x.0)
    → Progress db y.0
    → Progress db (if b then x else y).0
if_known db true x y p q = p refl
if_known db false x y p q = q

-- the status of the row that a SELECT by id found
pub own_status :
    (i : String) (ts : List Task) {t : Task}
    → task_of i ts ≡ some t
    → status_of t.task_id ts ≡ some t.status
unfolding task_of
own_status i ts {t = t} found =
    let same = eq_of_beq t.task_id i (find-holds (has_id i) ts found) in
    subst (λ k. status_of k ts ≡ some t.status) (sym same) (status_of-found i ts found)

pub found_status :
    (i : String) (ts : List Task) (s : Status) {t : Task}
    → task_of i ts ≡ some t
    → same_status t.status s ≡ true
    → status_of t.task_id ts ≡ some s
found_status i ts s {t = t} found h = own_status i ts found ∙ ap some (same_status-eq t.status s h)

defer_push_of-Progress :
    (e : Engine) (i pane reason : String) (max_refusals backoff now : ℕ) (row : Option Task)
    (db : Db)
    → task_of i db.tasks ≡ row
    → Progress db (defer_push_of e pane reason max_refusals backoff now row db).0
unfolding defer_push_of
defer_push_of-Progress e i pane reason max_refusals backoff now none db found = Progress-refl db
defer_push_of-Progress e i pane reason max_refusals backoff now (some t) db found =
    if_known db (same_status t.status in_progress) _ _
      (λ h.
        refuse_push-Progress e t _ _ max_refusals now db
          (found_status i db.tasks in_progress found h))
      (Progress-refl db)

pub defer_push_delivery-Progress :
    (e : Engine) (i pane reason : String) (max_refusals backoff now : ℕ) (db : Db)
    → Progress db (defer_push_delivery e i pane reason max_refusals backoff now db).0
unfolding defer_push_delivery
defer_push_delivery-Progress e i pane reason max_refusals backoff now db =
    defer_push_of-Progress e i pane reason max_refusals backoff now (task_of i db.tasks) db refl

pub defer_prep_retry-Progress :
    (e : Engine) (i error : String) (delay now : ℕ) (db : Db)
    → Progress db (defer_prep_retry e i error delay now db).0
unfolding defer_prep_retry
defer_prep_retry-Progress e i error delay now db =
    let answer = (requeue_through_gate e RequeuePath.defer_prep_retry i now db).1 in
    if-Progress db (in_status in_progress (task_of i db.tasks)) _ _
      (if-Progress db (not (is_some answer)) _ _
        (gate-Progress e RequeuePath.defer_prep_retry i now db)
        (if-Progress db (is_stranded answer) _ _ (Progress-refl db) (
          back-Progress e RequeuePath.defer_prep_retry i now
            (requeued_row (unprepared error (now + delay))) db (λ _. refl) (λ _. requeued))))
      (Progress-refl db)

capacity_end-Progress :
    (i tag : String) (now : ℕ) (s : Streak) (db : Db) → Progress db (capacity_end i tag now s db)
unfolding capacity_end append_exec_event
capacity_end-Progress i tag now s db = elim (Bool-cases s.readmit) [
  | inl y ↦ rw y (
      Quiet-Evolves
        (set_task-Silent i (with_context (at_capacity tag now s)) db (λ _. refl) (λ _. refl)))
  | inr n ↦ rw n (
      leave-Progress i now "requeued" in_progress (requeued_row (at_capacity tag now s)) db
        (λ _. refl) (λ _. requeued))
]

capacity_blocked-tasks :
    (i : String) (now : ℕ) (s : Streak) (db : Db) → (capacity_blocked i now s db).tasks ≡ db.tasks
unfolding capacity_blocked append_exec_event
capacity_blocked-tasks i now s db = elim (Bool-cases s.blocked) [
  | inl y ↦ rw y refl
  | inr n ↦ rw n refl
]

defer_capacity_of-Progress :
    (e : Engine) (tag : String) (delay blocked_after now : ℕ) (row : Option Task) (db : Db)
    → Progress db (defer_capacity_of e tag delay blocked_after now row db).0
unfolding defer_capacity_of
defer_capacity_of-Progress e tag delay blocked_after now none db = Progress-refl db
defer_capacity_of-Progress e tag delay blocked_after now (some t) db =
    let (gated, answer) =
      requeue_through_gate e RequeuePath.defer_provider_capacity t.task_id now db in
    let s = streak_of delay blocked_after now t.context (is_stranded answer) in
    let ended = capacity_end t.task_id tag now s gated in
    let marked = capacity_blocked t.task_id now s ended in
    if-Progress db (same_status t.status in_progress) _ _
      (if-Progress db (is_some answer) _ _
        (Silent-then db gated marked
          (requeue_through_gate-Silent e RequeuePath.defer_provider_capacity t.task_id now db)
          (then_Silent gated ended marked (capacity_end-Progress t.task_id tag now s gated)
            (same_tasks-Silent ended marked (capacity_blocked-tasks t.task_id now s ended))))
        (gate-Progress e RequeuePath.defer_provider_capacity t.task_id now db))
      (Progress-refl db)

pub defer_provider_capacity-Progress :
    (e : Engine) (i tag : String) (delay blocked_after now : ℕ) (db : Db)
    → Progress db (defer_provider_capacity e i tag delay blocked_after now db).0
unfolding defer_provider_capacity
defer_provider_capacity-Progress e i tag delay blocked_after now db =
    defer_capacity_of-Progress e tag delay blocked_after now (task_of i db.tasks) db
