-- ===== src/Queue/Tasks/Accepting.antt =====
-- What an accepted result leaves behind (src/agent_crew/queue.py, submit_result).
use agent_crew.Common.{
  ℕ, String, Bool, true, false, not, ◌≡◌, refl, ap, ◌∙◌, Option, none, some, List, inl, inr,
  Bool-cases, arith, is_some, if◌then◌else◌, ◌==◌, string_eq, find_where, beq_refl,
}
use agent_crew.Cea.Types.{ReceiptState, active, same_state}
use agent_crew.Cea.CallSites.{GateOutcome}
use agent_crew.Queue.Runtime.Row.{read_stop_row}
use agent_crew.Queue.Runtime.Moves.{Signal, reconcile_pause_signal}
use agent_crew.Queue.Tasks.Row.{Task, Db, WorkIntent, task_of, set_task}
use agent_crew.Queue.Tasks.Engine.{Engine}
use agent_crew.Queue.Tasks.Results.{
  accepted, owe, consume, end_with, write_result, result_gate, shuts, accept_of, refuse_with,
  submit_of, submit_to, submit_result, posted,
}
use agent_crew.Queue.Tasks.Results.Refusal.{TaskResult, Submission, Refused, is_late, refusal}
use agent_crew.Queue.Tasks.Lifecycle.{status_of}
use agent_crew.Queue.Tasks.Lifecycle.Writes.{
  Silent-trans, same_tasks-Silent, record_end-Silent, cea_transition-keeps,
}
use agent_crew.Queue.Tasks.Lifecycle.Reporting.{owe-tasks, consume-Silent}
use agent_crew.Queue.Tasks.Lifecycle.Deferring.{own_status}
use agent_crew.Queue.Tasks.Claims.Taking.{own_row}

-- some continuation of this task is on file
abbrev pub is_owed : String → Db → Bool
is_owed i db = is_some (find_where (λ c. c.parent_task_id == i) db.outbox)

owe-owed :
    (suppressed : Bool) (epoch : ℕ) (t : Task) (res : TaskResult) (now : ℕ) (db : Db)
    → is_owed t.task_id (owe suppressed epoch t res now db) ≡ true
unfolding owe find_where
owe-owed suppressed epoch t res now db = elim (Bool-cases (is_owed t.task_id db)) [
  | inl y ↦ rw y y
  | inr n ↦ rw (n, beq_refl t.task_id) refl
]

consume-outbox :
    (e : Engine) (i : String) (spends : Bool) (now : ℕ) (gate : Option GateOutcome) (db : Db)
    → (consume e i spends now gate db).outbox ≡ db.outbox
unfolding consume set_task
consume-outbox e i spends now none db = refl
consume-outbox e i true now (some g) db =
    cea_transition-keeps (λ d. d.outbox) e g.result.receipt_id ReceiptState.consumed (λ r. r) now
      (set_task i (λ t. record t { context = record t.context { cea_result = some g } }) db)
      (λ rs ls. refl)
consume-outbox e i false now (some g) db = refl

-- what an accepted result of `t` leaves: the status it reports, and a continuation
pub record Accepted (sub : Submission) (t : Task) (db : Db) : Type 0 where
  pub reported : status_of t.task_id db.tasks ≡ some sub.result.status
  pub owed : is_owed t.task_id db ≡ true

write_result-Accepted :
    (e : Engine) (close_intent : String → ℕ → List Task → List WorkIntent → List WorkIntent)
    (signal : Signal) (sub : Submission) (t : Task) (now : ℕ) (gate : Option GateOutcome) (db : Db)
    → status_of t.task_id db.tasks ≡ some t.status
    → Accepted sub t (write_result e close_intent signal sub t now gate db)
unfolding write_result end_with
write_result-Accepted e close_intent signal sub t now gate db here =
    let i = t.task_id in
    let event = if sub.dispatcher_failed then "dispatcher_failed" else "result" in
    let moved = set_task i (accepted sub.result now) db in
    let ended = end_with sub i now db in
    let (rt, state) = reconcile_pause_signal signal now ended.runtime in
    let closed : Db = record ended {
      work_intents = close_intent i now ended.tasks ended.work_intents;
      runtime = rt;
    } in
    let suppressed = not (same_state state active) in
    let epoch = (read_stop_row rt).epoch in
    let owed = owe suppressed epoch t sub.result now closed in
    let last = consume e i sub.consume_receipt now gate owed in
    let quiet = Silent-trans moved ended last (record_end-Silent i now event true moved) (
      Silent-trans ended owed last
        (same_tasks-Silent ended owed (owe-tasks suppressed epoch t sub.result now closed))
        (consume-Silent e i sub.consume_receipt now gate owed)) in
    record {
      reported =
          quiet.kept i
          ∙ own_row i (accepted sub.result now) db t.status sub.result.status (λ _. refl)
              (λ _. refl) here;
      owed =
          ap (λ cs. is_some (find_where (λ c. c.parent_task_id == i) cs))
            (consume-outbox e i sub.consume_receipt now gate owed)
          ∙ owe-owed suppressed epoch t sub.result now closed;
    }

module _ (e : Engine) (close_intent : String → ℕ → List Task → List WorkIntent → List WorkIntent)
    (same_json : String → String → Bool) (signal : Signal) (sub : Submission) (now : ℕ)
    (ty : String) where
  -- the row that a result was accepted for, and what was asked of it first
  pub AcceptedRow : Db → Db → Type 0
  AcceptedRow db db' =
      (t : Task) × (task_of sub.result.task_id db.tasks ≡ some t)
      × (ty ≡ t.task_type)
      × (refusal same_json sub t db ≡ none)
      × (shuts (result_gate e sub.nonce sub.presenter now sub.result.task_id db) ≡ false)
      × Accepted sub t db'

  posted_inj : {a b : String} → posted a ≡ posted b → a ≡ b
  posted_inj p = ground arith

  submit_of-accepted :
      (t : Task) (w : Option Refused) (db : Db)
      → task_of sub.result.task_id db.tasks ≡ some t
      → refusal same_json sub t db ≡ w
      → (submit_of e close_intent signal sub t now w db).1 ≡ posted ty
      → AcceptedRow db (submit_of e close_intent signal sub t now w db).0
  unfolding submit_of accept_of refuse_with AcceptedRow
  submit_of-accepted t (some why) db found asked h = elim (Bool-cases (is_late why)) [
    | inl y ↦ absurd (ground arith)
    | inr n ↦ absurd (ground arith)
  ]
  submit_of-accepted t none db found asked h =
      let gate = result_gate e sub.nonce sub.presenter now sub.result.task_id db in
      elim (Bool-cases (shuts gate)) [
        | inl y ↦ absurd (ground arith)
        | inr n ↦ rw n (
          t,
          found,
          ground arith,
          asked,
          refl,
          write_result-Accepted e close_intent signal sub t now gate db
              (own_status sub.result.task_id db.tasks found),
        )
      ]

  submit_to-accepted :
      (row : Option Task) (db : Db)
      → task_of sub.result.task_id db.tasks ≡ row
      → (submit_to e close_intent same_json signal sub now row db).1 ≡ posted ty
      → AcceptedRow db (submit_to e close_intent same_json signal sub now row db).0
  unfolding submit_to
  submit_to-accepted none db found h = absurd (ground arith)
  submit_to-accepted (some t) db found h =
      submit_of-accepted t (refusal same_json sub t db) db found refl h

  -- A result is accepted only for a row on file, of the type that is answered, after no check
  -- refused it and the gate at RESULT let it through; afterwards the row has the status that the
  -- result reports, and a continuation of the task is on file.
  pub submit_result-accepts :
      (db : Db)
      → (submit_result e close_intent same_json signal sub now db).1 ≡ posted ty
      → AcceptedRow db (submit_result e close_intent same_json signal sub now db).0
  unfolding submit_result
  submit_result-accepts db h = submit_to-accepted (task_of sub.result.task_id db.tasks) db refl h
