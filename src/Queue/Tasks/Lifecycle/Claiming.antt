-- ===== src/Queue/Tasks/Lifecycle/Claiming.antt =====
-- A claim moves the claimed row from pending to in_progress and no other (src/agent_crew/queue.py,
-- claim_through_gate, dequeue, dequeue_discuss_for_agent).
use agent_crew.Common.{
  ℕ, String, Bool, true, false, ◌≡◌, refl, sym, ap, ◌∙◌, Option, none, some, inl, inr, Bool-cases,
  arith, elem, string_eq, if◌then◌else◌,
}
use mathlib.Core.Path.{subst}
use agent_crew.Cea.Types.{ReceiptState}
use agent_crew.Cea.CallSites.{Mode, GateOutcome, enforcing, recording}
use agent_crew.Queue.Tasks.Row.{Task, pending, in_progress, Db, set_task, append_exec_event}
use agent_crew.Queue.Tasks.Engine.{Engine, cea_claim_gate, report_legacy_row}
use agent_crew.Queue.Tasks.Claim.{
  record_claim, in_hand, mark_claimed, check_signed, take, after_gate, gate_checked, grant_of,
  claim_through_gate,
}
use agent_crew.Queue.Tasks.Lifecycle.{Lifecycle, claimed, status_of}
use agent_crew.Queue.Tasks.Lifecycle.Writes.{
  same_tasks-Silent, record_claim-Silent, cea_transition-Silent,
}
use agent_crew.Queue.Tasks.Lifecycle.Moves.{Progress, Silent-then, then_Silent, set_task-Progress}

-- the row that is to be claimed is pending
abbrev Pends : String → Db → Type 0
Pends i db = status_of i db.tasks ≡ some pending

same_pending :
    (i : String) (db : Db) (t : Task)
    → Pends i db
    → status_of i db.tasks ≡ some t.status
    → Lifecycle t.status in_progress
same_pending i db t p e =
    subst (λ x. Lifecycle x in_progress) (let m = sym p ∙ e in ground arith) claimed

mark_claimed-Progress :
    (i agent role via : String) (now : ℕ) (db : Db)
    → Pends i db
    → Progress db (mark_claimed i agent role via now db)
unfolding mark_claimed
mark_claimed-Progress i agent role via now db p =
    let moved = set_task i (in_hand via now) db in
    then_Silent db moved (record_claim i now role agent via moved)
      (set_task-Progress i (in_hand via now) db (λ _. refl) (λ t. same_pending i db t p))
      (record_claim-Silent i now role agent via moved)

take-Progress :
    (e : Engine) (i agent role via : String) (now : ℕ) (gate : Option GateOutcome) (db : Db)
    → Pends i db
    → Progress db (take e i agent role via now gate db)
unfolding take
take-Progress e i agent role via now none db p = mark_claimed-Progress i agent role via now db p
take-Progress e i agent role via now (some g) db p =
    let marked = mark_claimed i agent role via now db in
    then_Silent db marked (take e i agent role via now (some g) db)
      (mark_claimed-Progress i agent role via now db p)
      (cea_transition-Silent e g.result.receipt_id ReceiptState.claimed (λ r. r) now marked)

check_signed-tasks :
    (m : Mode) (grant : Option String) (i : String) (now : ℕ) (db : Db) {db' : Db}
    → check_signed m grant i now db ≡ some db'
    → db'.tasks ≡ db.tasks
unfolding check_signed append_exec_event
check_signed-tasks Mode.off grant i now db e = ground arith
check_signed-tasks Mode.test grant i now db e = ground arith
check_signed-tasks Mode.enforce none i now db e = absurd (ground arith)
check_signed-tasks Mode.enforce (some n) i now db e =
    elim (Bool-cases (elem n db.signed_receipt_spent)) [
      | inl y ↦ absurd (ground arith)
      | inr n ↦ ground arith
    ]

-- what an accepted claim wrote: `take` on a database with the same tasks
unfoldable pub Taken : Engine → (i agent role via : String) → ℕ → (db db' : Db) → Type 0
Taken e i agent role via now db db' =
    (before : Db) × (gate : Option GateOutcome) × (before.tasks ≡ db.tasks)
    × (db' ≡ take e i agent role via now gate before)

counted-tasks :
    (b : Bool) (i : String) (now : ℕ) (db : Db)
    → (if b then report_legacy_row i now db else db).tasks ≡ db.tasks
unfolding report_legacy_row append_exec_event
counted-tasks true i now db = refl
counted-tasks false i now db = refl

after_gate-Taken :
    (e : Engine) (i agent role via : String) (now : ℕ) (gate : Option GateOutcome) (db : Db)
    {db' : Db}
    → after_gate e i agent role via now gate db ≡ some db'
    → Taken e i agent role via now db db'
unfolding after_gate Taken
after_gate-Taken e i agent role via now none db {db' = db'} h =
    elim (Bool-cases (enforcing (e.config none) none)) [
      | inl y ↦ absurd (ground arith)
      | inr n ↦
          let rec = recording (e.config none) in
          (
            if rec then report_legacy_row i now db else db,
            none,
            counted-tasks rec i now db,
            ground arith,
          )
    ]
after_gate-Taken e i agent role via now (some g) db {db' = db'} h = elim (Bool-cases g.proceed) [
  | inl y ↦ (db, some g, refl, ground arith)
  | inr n ↦ absurd (ground arith)
]

gate_checked-Taken :
    (e : Engine) (i agent role via : String) (now : ℕ) (checked : Option Db) (db : Db) {db' : Db}
    → ((d : Db) → checked ≡ some d → d.tasks ≡ db.tasks)
    → gate_checked e i agent role via now checked ≡ some db'
    → Taken e i agent role via now db db'
unfolding gate_checked Taken
gate_checked-Taken e i agent role via now none db same h = absurd (ground arith)
gate_checked-Taken e i agent role via now (some d) db same h =
    let (before, gate, kept, took) =
      after_gate-Taken e i agent role via now (cea_claim_gate e now i agent role d) d h in
    (before, gate, kept ∙ same d refl, took)

pub claim_through_gate-Taken :
    (e : Engine) (i agent role via : String) (now : ℕ) (db : Db) {db' : Db}
    → claim_through_gate e i agent role via now db ≡ some db'
    → Taken e i agent role via now db db'
unfolding claim_through_gate
claim_through_gate-Taken e i agent role via now db h =
    let (mode, grant) = grant_of e i db in
    gate_checked-Taken e i agent role via now (check_signed mode grant i now db) db
      (λ d. check_signed-tasks mode grant i now db {db' = d}) h

pub claim_through_gate-Progress :
    (e : Engine) (i agent role via : String) (now : ℕ) (db : Db) {db' : Db}
    → status_of i db.tasks ≡ some pending
    → claim_through_gate e i agent role via now db ≡ some db'
    → Progress db db'
unfolding Taken
claim_through_gate-Progress e i agent role via now db {db' = db'} p h =
    let (before, gate, kept, took) = claim_through_gate-Taken e i agent role via now db h in
    let here = ap (status_of i) kept ∙ p in
    let moved = take-Progress e i agent role via now gate before here in
    subst (λ d. Progress db d) {y = db'} (sym took)
      (Silent-then db before (take e i agent role via now gate before)
        (same_tasks-Silent db before kept) moved)
