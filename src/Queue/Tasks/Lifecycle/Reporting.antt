-- ===== src/Queue/Tasks/Lifecycle/Reporting.antt =====
-- An accepted result moves its own row (src/agent_crew/queue.py, submit_result).
use agent_crew.Common.{
  ℕ, String, Bool, true, false, not, ◌≡◌, ◌≢◌, refl, sym, ap, ◌∙◌, ◌&&◌, Option, none, some, List,
  inl, inr, Bool-cases, Option-cases, arith, is_some, if◌then◌else◌, ◌==◌, string_eq, option_eq,
  ◌⊎◌, find_where,
}
use mathlib.Core.Path.{subst}
use mathlib.Core.Option.{some_inj}
use agent_crew.Cea.Types.{ReceiptState, active, same_state}
use agent_crew.Cea.CallSites.{GateOutcome}
use agent_crew.Queue.Runtime.Row.{read_stop_row}
use agent_crew.Queue.Runtime.Moves.{Signal, reconcile_pause_signal}
use agent_crew.Queue.Tasks.Row.{
  Task, completed, failed, timed_out, cancelled, Db, WorkIntent, task_of, same_status, set_task,
  record_end, append_exec_event,
}
use agent_crew.Queue.Tasks.Engine.{Engine, cea_transition}
use agent_crew.Queue.Tasks.Results.{
  accepted, owe, consume, end_with, write_result, result_gate, shuts, accept_of, refuse_with,
  submit_of, submit_to, submit_result,
}
use agent_crew.Queue.Tasks.Results.Refusal.{
  TaskResult, Submission, Refused, is_late, late, late_of, fallback_of, refusal, system_failed,
}
use agent_crew.Queue.Tasks.Lifecycle.{
  Lifecycle, reported, is_reported, Quiet-Evolves, Quiet-refl, status_of,
}
use agent_crew.Queue.Tasks.Lifecycle.Writes.{
  Silent, Silent-trans, same_tasks-Silent, record_end-Silent, set_task-Silent,
  cea_transition-Silent,
}
use agent_crew.Queue.Tasks.Lifecycle.Moves.{
  Progress, then_Silent, set_task-Progress, same_status-eq,
}
use agent_crew.Queue.Tasks.Lifecycle.Returning.{Progress-refl, if-Progress}
use agent_crew.Queue.Tasks.Lifecycle.Deferring.{own_status}

-- a result that no check found late
pub Timely : Submission → Task → Type 0
Timely sub t = (t.status ≢ cancelled) × (t.status ≡ completed → sub.result.status ≡ completed)

fallback-status :
    (t : Task) (db : Db) {f : Task}
    → fallback_of t db ≡ some f
    → (t.status ≡ failed) ⊎ (t.status ≡ timed_out)
unfolding fallback_of
fallback-status t db e = elim (Bool-cases (same_status t.status failed)) [
  | inl y ↦ inl (same_status-eq t.status failed y)
  | inr n ↦ inr (same_status-eq t.status timed_out (ground arith))
]

late_of-none :
    (sub : Submission) (t : Task) (by_system : Bool)
    → late_of sub t by_system none ≡ none
    → (same_status t.status cancelled ≡ false)
      × (same_status t.status completed && not (same_status sub.result.status completed) ≡ false)
late_of-none sub t by_system h = ground arith

late-none : (sub : Submission) (t : Task) (db : Db) → late sub t db ≡ none → Timely sub t
unfolding late Timely
late-none sub t db h = elim (Option-cases (fallback_of t db)) [
  | inl nothing ↦
      let bare = sym (ap (late_of sub t (system_failed t db)) nothing) ∙ h in
      let (live, kept) = late_of-none sub t (system_failed t db) bare in
      (
        λ c. let m = ap (λ s. same_status s cancelled) c in ground arith,
        λ c.
            let m = ap (λ s. same_status s completed) c in
            same_status-eq sub.result.status completed (ground arith),
      )
  | inr (f, found) ↦ elim (fallback-status t db found) [
    | inl s ↦ (
      λ c. let m = ap (λ x. same_status x cancelled) (sym s ∙ c) in ground arith,
      λ c. absurd (let m = ap (λ x. same_status x completed) (sym s ∙ c) in ground arith),
    )
    | inr s ↦ (
      λ c. let m = ap (λ x. same_status x cancelled) (sym s ∙ c) in ground arith,
      λ c. absurd (let m = ap (λ x. same_status x completed) (sym s ∙ c) in ground arith),
    )
  ]
]

-- what the checks leave: a result that is not late
refusal-none :
    (same_json : String → String → Bool) (sub : Submission) (t : Task) (db : Db)
    → refusal same_json sub t db ≡ none
    → late sub t db ≡ none
unfolding refusal
refusal-none same_json sub t db h = elim (Option-cases (late sub t db)) [
  | inl e ↦ e
  | inr (why, e) ↦ absurd (ground (arith, e))
]

end_with-Progress :
    (sub : Submission) (t : Task) (now : ℕ) (db : Db)
    → status_of t.task_id db.tasks ≡ some t.status
    → is_reported sub.result.status ≡ true
    → Timely sub t
    → Progress db (end_with sub t.task_id now db)
unfolding end_with Timely
end_with-Progress sub t now db here r (live, kept) =
    let event = if sub.dispatcher_failed then "dispatcher_failed" else "result" in
    let moved = set_task t.task_id (accepted sub.result now) db in
    then_Silent db moved (record_end t.task_id now event true moved)
      (set_task-Progress t.task_id (accepted sub.result now) db (λ _. refl)
        (λ u e.
          subst (λ x. Lifecycle x sub.result.status) (some_inj.0 (sym here ∙ e))
            (reported live r kept)))
      (record_end-Silent t.task_id now event true moved)

pub owe-tasks :
    (suppressed : Bool) (epoch : ℕ) (t : Task) (res : TaskResult) (now : ℕ) (db : Db)
    → (owe suppressed epoch t res now db).tasks ≡ db.tasks
unfolding owe
owe-tasks suppressed epoch t res now db =
    elim (Bool-cases (is_some (find_where (λ c. c.parent_task_id == t.task_id) db.outbox))) [
      | inl y ↦ rw y refl
      | inr n ↦ rw n refl
    ]

pub consume-Silent :
    (e : Engine) (i : String) (spends : Bool) (now : ℕ) (gate : Option GateOutcome) (db : Db)
    → Silent db (consume e i spends now gate db)
unfolding consume
consume-Silent e i spends now none db = Quiet-refl
consume-Silent e i true now (some g) db =
    let answered =
      set_task i (λ t. record t { context = record t.context { cea_result = some g } }) db in
    Silent-trans db answered
      (cea_transition e g.result.receipt_id ReceiptState.consumed (λ r. r) now answered)
      (set_task-Silent i _ db (λ _. refl) (λ _. refl))
      (cea_transition-Silent e g.result.receipt_id ReceiptState.consumed (λ r. r) now answered)
consume-Silent e i false now (some g) db = set_task-Silent i _ db (λ _. refl) (λ _. refl)

write_result-Progress :
    (e : Engine) (close_intent : String → ℕ → List Task → List WorkIntent → List WorkIntent)
    (signal : Signal) (sub : Submission) (t : Task) (now : ℕ) (gate : Option GateOutcome) (db : Db)
    → Progress db (end_with sub t.task_id now db)
    → Progress db (write_result e close_intent signal sub t now gate db)
unfolding write_result
write_result-Progress e close_intent signal sub t now gate db moved =
    let ended = end_with sub t.task_id now db in
    let (rt, state) = reconcile_pause_signal signal now ended.runtime in
    let closed : Db = record ended {
      work_intents = close_intent t.task_id now ended.tasks ended.work_intents;
      runtime = rt;
    } in
    let suppressed = not (same_state state active) in
    let epoch = (read_stop_row rt).epoch in
    let owed = owe suppressed epoch t sub.result now closed in
    then_Silent db ended (consume e t.task_id sub.consume_receipt now gate owed) moved (
      Silent-trans ended owed (consume e t.task_id sub.consume_receipt now gate owed)
        (same_tasks-Silent ended owed (owe-tasks suppressed epoch t sub.result now closed))
        (consume-Silent e t.task_id sub.consume_receipt now gate owed))

refuse_with-Progress :
    (i : String) (now : ℕ) (why : Refused) (db : Db) → Progress db (refuse_with i now why db).0
unfolding refuse_with append_exec_event
refuse_with-Progress i now why db =
    if-Progress db (is_late why) _ _
      (Quiet-Evolves (same_tasks-Silent db (append_exec_event i "late_result" now db) refl))
      (Progress-refl db)

module _ (e : Engine) (close_intent : String → ℕ → List Task → List WorkIntent → List WorkIntent)
    (same_json : String → String → Bool) (signal : Signal) (sub : Submission)
    (r : is_reported sub.result.status ≡ true) (now : ℕ) where
  submit_of-Progress :
      (t : Task) (why : Option Refused) (db : Db)
      → status_of t.task_id db.tasks ≡ some t.status
      → (why ≡ none → Timely sub t)
      → Progress db (submit_of e close_intent signal sub t now why db).0
  unfolding submit_of accept_of
  submit_of-Progress t (some why) db here timely =
      refuse_with-Progress sub.result.task_id now why db
  submit_of-Progress t none db here timely =
      let gate = result_gate e sub.nonce sub.presenter now sub.result.task_id db in
      if-Progress db (shuts gate) _ _ (Progress-refl db) (
        write_result-Progress e close_intent signal sub t now gate db
          (end_with-Progress sub t now db here r (timely refl)))

  submit_to-Progress :
      (row : Option Task) (db : Db)
      → task_of sub.result.task_id db.tasks ≡ row
      → Progress db (submit_to e close_intent same_json signal sub now row db).0
  unfolding submit_to
  submit_to-Progress none db found = Progress-refl db
  submit_to-Progress (some t) db found =
      submit_of-Progress t (refusal same_json sub t db) db
        (own_status sub.result.task_id db.tasks found)
        (λ h. late-none sub t db (refusal-none same_json sub t db h))

  pub submit_result-Progress :
      (db : Db) → Progress db (submit_result e close_intent same_json signal sub now db).0
  unfolding submit_result
  submit_result-Progress db = submit_to-Progress (task_of sub.result.task_id db.tasks) db refl
