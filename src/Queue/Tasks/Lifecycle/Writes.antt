-- ===== src/Queue/Tasks/Lifecycle/Writes.antt =====
-- The writes that leave every task's status alone (src/agent_crew/queue.py, _record_end_on,
-- _record_claim_on, _cea_transition_in_txn, requeue_through_gate, record_dispatch).
use agent_crew.Common.{
  ℕ, String, Bool, true, false, ◌≡◌, refl, sym, Option, none, some, List, inl, inr, Bool-cases,
  is_empty,
}
use mathlib.Core.Path.{subst}
use agent_crew.Cea.Types.{Receipt, ReceiptState}
use agent_crew.Cea.Matrix.{Outcome}
use agent_crew.Cea.Validator.Inputs.{Wire, not_object, nonconforming, conforming}
use agent_crew.Cea.Store.Receipts.{Result, ok, err, ReceiptRow, append_lifecycle}
use agent_crew.Cea.Store.Lineages.{LineageRow, set_lineage_state}
use agent_crew.Cea.CallSites.Requeue.{RequeuePath, RequeueOutcome, gate_requeue}
use agent_crew.Queue.Tasks.Row.{Task, Db, has_id, set_task, append_exec_event, record_end}
use agent_crew.Queue.Tasks.Engine.{
  Engine, cea_transition, written, receipt_for_task, inputs_of, config_for_receipt,
}
use agent_crew.Queue.Tasks.Claim.{record_claim}
use agent_crew.Queue.Tasks.Requeue.{
  settle, settle_as, attempt_or, patched, readmit, requeue_through_gate,
}
use agent_crew.Queue.Tasks.Lifecycle.{Quiet, Quiet-refl, Quiet-trans, update-Quiet}

-- two databases with the same statuses
abbrev pub Silent : Db → Db → Type 0
Silent db db' = Quiet db.tasks db'.tasks

pub set_task-Silent :
    (i : String) (f : Task → Task) (db : Db)
    → ((t : Task) → (f t).task_id ≡ t.task_id)
    → ((t : Task) → (f t).status ≡ t.status)
    → Silent db (set_task i f db)
unfolding set_task
set_task-Silent i f db same_id same = update-Quiet (has_id i) f db.tasks same_id same

pub record_end-Silent :
    (i : String) (at : ℕ) (event : String) (posted : Bool) (db : Db)
    → Silent db (record_end i at event posted db)
unfolding set_task record_end append_exec_event
record_end-Silent i at event true db = update-Quiet (has_id i) _ db.tasks (λ _. refl) (λ _. refl)
record_end-Silent i at event false db = update-Quiet (has_id i) _ db.tasks (λ _. refl) (λ _. refl)

pub record_claim-Silent :
    (i : String) (at : ℕ) (role agent via : String) (db : Db)
    → Silent db (record_claim i at role agent via db)
unfolding set_task record_claim append_exec_event
record_claim-Silent i at role agent via db =
    update-Quiet (has_id i) _ db.tasks (λ _. refl) (λ _. refl)

written-keeps :
    {A : Type 0} (f : Db → A) (rid : String) (state : ReceiptState) (now : ℕ) (db : Db)
    → ((rs : List ReceiptRow) (ls : List LineageRow)
        → f (record db { receipts = rs; lineages = ls }) ≡ f db)
    → (res : Result (List ReceiptRow × Wire)) → f (written rid state now db res) ≡ f db
written-keeps f rid state now db same (ok (rows, not_object)) = refl
written-keeps f rid state now db same (ok (rows, nonconforming i)) = refl
written-keeps f rid state now db same (ok (rows, conforming r)) =
    same rows (set_lineage_state r.intent_hash rid r.state now db.lineages)
written-keeps f rid state now db same (err why) = refl

-- A transition of a receipt touches the receipts and the lineages only.
pub cea_transition-keeps :
    {A : Type 0} (f : Db → A) (e : Engine) (rid : String) (state : ReceiptState)
    (mutate : Receipt → Receipt) (now : ℕ) (db : Db)
    → ((rs : List ReceiptRow) (ls : List LineageRow)
        → f (record db { receipts = rs; lineages = ls }) ≡ f db)
    → f (cea_transition e rid state mutate now db) ≡ f db
unfolding cea_transition
cea_transition-keeps f e rid state mutate now db same = elim (Bool-cases (is_empty rid)) [
  | inl y ↦ rw y refl
  | inr n ↦ elim (Bool-cases e.keeps_receipts) [
    | inl k ↦
        rw (n, k)
          (written-keeps f rid state now db same
            (append_lifecycle rid state (λ r. e.resign (mutate r)) db.receipts))
    | inr k ↦ rw (n, k) refl
  ]
]

pub cea_transition-tasks :
    (e : Engine) (rid : String) (state : ReceiptState) (mutate : Receipt → Receipt) (now : ℕ)
    (db : Db)
    → (cea_transition e rid state mutate now db).tasks ≡ db.tasks
cea_transition-tasks e rid state mutate now db =
    cea_transition-keeps (λ d. d.tasks) e rid state mutate now db (λ rs ls. refl)

pub same_tasks-Silent : (db db' : Db) → db'.tasks ≡ db.tasks → Silent db db'
same_tasks-Silent db db' e = subst (λ ts. Quiet db.tasks ts) (sym e) Quiet-refl

pub cea_transition-Silent :
    (e : Engine) (rid : String) (state : ReceiptState) (mutate : Receipt → Receipt) (now : ℕ)
    (db : Db)
    → Silent db (cea_transition e rid state mutate now db)
cea_transition-Silent e rid state mutate now db =
    same_tasks-Silent db (cea_transition e rid state mutate now db)
      (cea_transition-tasks e rid state mutate now db)

settle-Silent :
    (e : Engine) (o : Outcome) (g : RequeueOutcome) (now : ℕ) (db : Db)
    → Silent db (settle_as e o g now db)
unfolding settle_as
settle-Silent e Outcome.proceed g now db =
    cea_transition-Silent e g.receipt_id ReceiptState.held (attempt_or g.attempt) now db
settle-Silent e Outcome.held g now db =
    cea_transition-Silent e g.receipt_id ReceiptState.held (λ r. r) now db
settle-Silent e Outcome.re_admit g now db =
    cea_transition-Silent e g.receipt_id ReceiptState.superseded (λ r. r) now db
settle-Silent e Outcome.block g now db = same_tasks-Silent db db refl
settle-Silent e Outcome.human_gate g now db = same_tasks-Silent db db refl

pub Silent-trans : (a b c : Db) → Silent a b → Silent b c → Silent a c
Silent-trans a b c p q = Quiet-trans p q

readmit-Silent :
    (e : Engine) (path : RequeuePath) (i : String) (now : ℕ) (found : Option Receipt) (db : Db)
    → Silent db (readmit e path i now found db).0
unfolding readmit
readmit-Silent e path i now none db = record_end-Silent i now "requeue_refused_no_receipt" false db
readmit-Silent e path i now (some r) db =
    let g = gate_requeue (some r) path (inputs_of e r now) (config_for_receipt e (some r)) in
    let settled = settle e g now db in
    Silent-trans db settled (set_task i (patched g) settled) (settle-Silent e g.outcome g now db)
      (set_task-Silent i (patched g) settled (λ _. refl) (λ _. refl))

pub requeue_through_gate-Silent :
    (e : Engine) (path : RequeuePath) (i : String) (now : ℕ) (db : Db)
    → Silent db (requeue_through_gate e path i now db).0
unfolding requeue_through_gate
requeue_through_gate-Silent e path i now db =
    readmit-Silent e path i now (receipt_for_task i db).1 db
