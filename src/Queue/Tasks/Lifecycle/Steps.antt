-- ===== src/Queue/Tasks/Lifecycle/Steps.antt =====
-- Runs of the queue (src/agent_crew/queue.py): the calls of Calls, `mark_needs_human` and
-- `_migrate_legacy_task_rows`, which write needs_human on any row. Not among the steps are the
-- insertion of rows, and the two methods that choose a reviewer, record_prepared_review_base and
-- bind_independent_reviews, which also block a running or a pending review.
use agent_crew.Common.{
  String, Bool, true, false, ◌≡◌, ◌⊎◌, refl, sym, ap, ◌∙◌, ◌||◌, some, inl, inr, arith,
  if◌then◌else◌,
}
use agent_crew.Queue.Tasks.Row.{
  Task, Status, needs_human, cancelled, completed, Db, task_of, has_id, same_status, is_over,
}
use agent_crew.Queue.Tasks.Engine.{Engine}
use agent_crew.Queue.Tasks.Cancel.{mark_needs_human}
use agent_crew.Queue.Tasks.Parking.{migrate_legacy_task_rows, quarantined}
use agent_crew.Queue.Tasks.Lifecycle.{
  Lifecycle, stay, claimed, requeued, parked, review_blocked, resumed, called_off, orphaned_pending,
  orphaned_running, given_up, timed_out, reported, status_of, ids, ids-update,
}
use agent_crew.Queue.Tasks.Lifecycle.Keys.{Keyed, distinct}
use agent_crew.Queue.Tasks.Lifecycle.Parking.{
  meets, update-HandedOver, mark_needs_human-ids, mark_needs_human-HandedOver,
}
use agent_crew.Queue.Tasks.Lifecycle.Calls.{Call, Call-Progress}

module _ (e : Engine) where
  -- One step of the queue.
  pub data Step : Db → Db → Type 0 where
    calls : {db db' : Db} → Call e db db' → Step db db'
    marks : (i summary : String) {db : Db} → Step db (mark_needs_human i summary db).0
    migrates :
        (ran : Bool) (unreadable : Task → Bool) {db : Db}
        → Step db (migrate_legacy_task_rows ran unreadable db)

  pub data Run : Db → Db → Type 0 where
    done : {db : Db} → Run db db
    then_step : {a b c : Db} → Run a b → Step b c → Run a c

  -- whether a step writes needs_human on the row with this id
  abbrev pub hands_over : {db db' : Db} → String → Step db db' → Bool
  hands_over i (calls call) = false
  hands_over i (marks j summary {db = db}) = meets (has_id j) (task_of i db.tasks)
  hands_over i (migrates ran unreadable {db = db}) =
      if ran then false else meets unreadable (task_of i db.tasks)

  -- whether some step of a run does
  abbrev pub handed_over : {db db' : Db} → String → Run db db' → Bool
  handed_over i done = false
  handed_over i (then_step run step) = handed_over i run || hands_over i step

  -- The rows keep their ids; each moves along the graph, or is handed to a human by this step.
  pub record Handled {db db' : Db} (step : Step db db') : Type 0 where
    pub same_ids : ids db'.tasks ≡ ids db.tasks
    pub moved :
        (i : String) (s : Status)
        → status_of i db.tasks ≡ some s
        → (s' : Status) × (status_of i db'.tasks ≡ some s')
          × (Lifecycle s s' ⊎ (hands_over i step ≡ true) × (s' ≡ needs_human))

  -- Every step moves each task of the table along the graph of states or leaves it, except that
  -- `mark_needs_human` and the migration of unreadable rows put the rows that they meet into
  -- needs_human, and none adds, drops nor renames a row. The conditions are that no two rows have
  -- the same id and that a submitted result reports one of the statuses of a result. Not among the
  -- steps are the insertion of rows, record_prepared_review_base and bind_independent_reviews.
  pub Step-Progress : {db db' : Db} (step : Step db db') → Keyed db.tasks → Handled step
  unfolding migrate_legacy_task_rows
  Step-Progress (calls call) k = record {
    same_ids = (Call-Progress e call k).same_ids;
    moved = λ i s here.
        let (v, found, m) = (Call-Progress e call k).moved i s here in (v, found, inl m);
  }
  Step-Progress (marks j summary {db = db}) k = record {
    same_ids = mark_needs_human-ids j summary db;
    moved = mark_needs_human-HandedOver j summary db;
  }
  Step-Progress (migrates true unreadable {db = db}) k = record {
    same_ids = refl;
    moved = λ i s here. (s, here, inl stay);
  }
  Step-Progress (migrates false unreadable {db = db}) k = record {
    same_ids = ids-update unreadable quarantined (λ _. refl) db.tasks;
    moved = update-HandedOver unreadable quarantined db.tasks (λ _. refl) (λ _. refl);
  }

  pub Run-Keyed : {db db' : Db} → Run db db' → Keyed db.tasks → Keyed db'.tasks
  Run-Keyed done k = k
  Run-Keyed (then_step {b = b} run step) k =
      let before = Run-Keyed run k in ap distinct (Step-Progress step before).same_ids ∙ before

-- no move leaves `cancelled`
from_cancelled : {s s' : Status} → Lifecycle s s' → s ≡ cancelled → s' ≡ cancelled
from_cancelled stay c = c
from_cancelled claimed c = absurd (let m = ap (λ x. same_status x cancelled) c in ground arith)
from_cancelled requeued c = absurd (let m = ap (λ x. same_status x cancelled) c in ground arith)
from_cancelled review_blocked c =
    absurd (let m = ap (λ x. same_status x cancelled) c in ground arith)
from_cancelled parked c = absurd (let m = ap (λ x. same_status x cancelled) c in ground arith)
from_cancelled resumed c = absurd (let m = ap (λ x. same_status x cancelled) c in ground arith)
from_cancelled (called_off live) c = refl
from_cancelled orphaned_pending c =
    absurd (let m = ap (λ x. same_status x cancelled) c in ground arith)
from_cancelled orphaned_running c =
    absurd (let m = ap (λ x. same_status x cancelled) c in ground arith)
from_cancelled given_up c = absurd (let m = ap (λ x. same_status x cancelled) c in ground arith)
from_cancelled timed_out c = absurd (let m = ap (λ x. same_status x cancelled) c in ground arith)
from_cancelled (reported live r kept) c = absurd (live c)

-- no move leaves `completed`
from_completed : {s s' : Status} → Lifecycle s s' → s ≡ completed → s' ≡ completed
from_completed stay c = c
from_completed claimed c = absurd (let m = ap (λ x. same_status x completed) c in ground arith)
from_completed requeued c = absurd (let m = ap (λ x. same_status x completed) c in ground arith)
from_completed review_blocked c =
    absurd (let m = ap (λ x. same_status x completed) c in ground arith)
from_completed parked c = absurd (let m = ap (λ x. same_status x completed) c in ground arith)
from_completed resumed c = absurd (let m = ap (λ x. same_status x completed) c in ground arith)
from_completed (called_off live) c = absurd (let m = sym live ∙ ap is_over c in ground arith)
from_completed orphaned_pending c =
    absurd (let m = ap (λ x. same_status x completed) c in ground arith)
from_completed orphaned_running c =
    absurd (let m = ap (λ x. same_status x completed) c in ground arith)
from_completed given_up c = absurd (let m = ap (λ x. same_status x completed) c in ground arith)
from_completed timed_out c = absurd (let m = ap (λ x. same_status x completed) c in ground arith)
from_completed (reported live r kept) c = kept c

module _ (e : Engine) where
  -- what no single move leaves, no run leaves that does not hand the task over
  run_keeps :
      (s : Status)
      → ((u v : Status) → Lifecycle u v → u ≡ s → v ≡ s)
      → {db db' : Db} (run : Run e db db') → Keyed db.tasks
      → (i : String) → handed_over e i run ≡ false
      → status_of i db.tasks ≡ some s
      → status_of i db'.tasks ≡ some s
  run_keeps s stays done k i alone here = here
  run_keeps s stays (then_step {b = b} run step) k i alone here =
      let before = run_keeps s stays run k i (ground arith) here in
      let (v, found, m) = (Step-Progress e step (Run-Keyed e run k)).moved i s before in
      elim m [
        | inl along ↦ found ∙ ap some (stays s v along refl)
        | inr (over, human) ↦ absurd (ground arith)
      ]

  -- A cancelled task stays cancelled in every run in which neither `mark_needs_human` nor the
  -- migration of unreadable rows meets it: no late result, requeue or claim brings it back, when no
  -- two rows have the same id.
  pub cancelled_is_final :
      {db db' : Db} (run : Run e db db')
      → Keyed db.tasks
      → (i : String) → handed_over e i run ≡ false
      → status_of i db.tasks ≡ some cancelled
      → status_of i db'.tasks ≡ some cancelled
  cancelled_is_final run k i alone here =
      run_keeps cancelled (λ u v. from_cancelled {s = u} {s' = v}) run k i alone here

  -- A completed task stays completed in every run in which neither `mark_needs_human` nor the
  -- migration of unreadable rows meets it: no later failure, cancellation or revision overwrites
  -- it, when no two rows have the same id.
  pub completed_is_final :
      {db db' : Db} (run : Run e db db')
      → Keyed db.tasks
      → (i : String) → handed_over e i run ≡ false
      → status_of i db.tasks ≡ some completed
      → status_of i db'.tasks ≡ some completed
  completed_is_final run k i alone here =
      run_keeps completed (λ u v. from_completed {s = u} {s' = v}) run k i alone here
