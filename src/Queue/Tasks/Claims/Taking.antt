-- ===== src/Queue/Tasks/Claims/Taking.antt =====
-- A task is taken only while the runtime is open to claims, and the take moves that task alone
-- (src/agent_crew/queue.py, dequeue, claim_through_gate).
use agent_crew.Common.{
  ℕ, String, Bool, false, ◌≡◌, ◌≢◌, refl, sym, ap, ◌∙◌, Option, none, some, List, inl, inr,
  Bool-cases, Option-cases, arith, if◌then◌else◌, string_eq, find-holds,
}
use mathlib.Core.Option
use mathlib.Core.Option.{some_inj}
use mathlib.Core.Path.{subst}
use agent_crew.Cea.Types.{active, ReceiptState}
use agent_crew.Cea.Matrix.{claim}
use agent_crew.Cea.CallSites.{GateOutcome}
use agent_crew.Queue.Runtime.Moves.{Signal, disarmed, stop_active}
use agent_crew.Queue.Runtime.Loosening.{state}
use agent_crew.Queue.Runtime.Gates.{gate_open_iff}
use agent_crew.Queue.Tasks.Row.{Task, Status, pending, in_progress, Db, task_of, has_id, set_task}
use agent_crew.Queue.Tasks.Engine.{Engine, cea_transition}
use agent_crew.Queue.Tasks.Claim.{in_hand, mark_claimed, take, record_claim, claim_through_gate}
use agent_crew.Queue.Tasks.Dequeue.{
  Reply, took, or_back, take_chosen, gated, dequeue_body, dequeue, or_via,
}
use agent_crew.Queue.Tasks.Dequeue.Selection.{Request, Choice, unknown_role, chosen, choose}
use agent_crew.Queue.Tasks.Lifecycle.{status_of, task_of-update, Quiet}
use agent_crew.Queue.Tasks.Lifecycle.Writes.{record_claim-Silent, cea_transition-Silent}
use agent_crew.Queue.Tasks.Lifecycle.Keys.{Keyed}
use agent_crew.Queue.Tasks.Lifecycle.Claiming.{Taken, claim_through_gate-Taken}
use agent_crew.Queue.Tasks.Lifecycle.Dequeuing.{choose-Pends, Pends}
use agent_crew.Queue.Tasks.Lifecycle.Ending.{after_update}
use agent_crew.Queue.Tasks.Lifecycle.Moves.{found_id}

-- the task moves from pending to in_progress, every other keeps its status
pub record Takes (i : String) (ts ts' : List Task) : Type 0 where
  pub was : status_of i ts ≡ some pending
  pub is : status_of i ts' ≡ some in_progress
  pub others : (k : String) → k ≢ i → status_of k ts' ≡ status_of k ts

-- what `set_task` does to the status of another row
other_row :
    (i k : String) (f : Task → Task) (db : Db)
    → ((t : Task) → (f t).task_id ≡ t.task_id)
    → k ≢ i
    → status_of k (set_task i f db).tasks ≡ status_of k db.tasks
unfolding set_task status_of
other_row i k f db same_id differs =
    ap (Option.map (λ t. t.status)) (task_of-update (has_id i) f same_id k db.tasks)
    ∙ elim (Option-cases (task_of k db.tasks)) [
      | inl missing ↦ rw missing refl
      | inr (t, found) ↦ elim (Bool-cases (has_id i t)) [
        | inl y ↦ absurd (differs (found_id i k db.tasks found y))
        | inr n ↦ rw (found, n) refl
      ]
    ]

pub own_row :
    (i : String) (f : Task → Task) (db : Db) (s s' : Status)
    → ((t : Task) → (f t).task_id ≡ t.task_id)
    → ((t : Task) → (f t).status ≡ s')
    → status_of i db.tasks ≡ some s
    → status_of i (set_task i f db).tasks ≡ some s'
unfolding set_task task_of
own_row i f db s s' same_id sets here =
    let (t, found, same, after) = after_update (has_id i) f db.tasks i same_id here in
    after
    ∙ ap some
        (ap (λ b. (if b then f t else t).status) (find-holds (has_id i) db.tasks found) ∙ sets t)

after_Silent :
    (i : String) (a b : List Task) (c : List Task) → Takes i a b → Quiet b c → Takes i a c
after_Silent i a b c t q = record {
  was = t.was;
  is = q.kept i ∙ t.is;
  others = λ k d. q.kept k ∙ t.others k d;
}

mark_claimed-Takes :
    (i agent role via : String) (now : ℕ) (db : Db)
    → status_of i db.tasks ≡ some pending
    → Takes i db.tasks (mark_claimed i agent role via now db).tasks
unfolding mark_claimed
mark_claimed-Takes i agent role via now db here =
    let moved = set_task i (in_hand via now) db in
    after_Silent i db.tasks moved.tasks (record_claim i now role agent via moved).tasks
      (record {
        was = here;
        is = own_row i (in_hand via now) db pending in_progress (λ _. refl) (λ _. refl) here;
        others = λ k d. other_row i k (in_hand via now) db (λ _. refl) d;
      })
      (record_claim-Silent i now role agent via moved)

take-Takes :
    (e : Engine) (i agent role via : String) (now : ℕ) (gate : Option GateOutcome) (db : Db)
    → status_of i db.tasks ≡ some pending
    → Takes i db.tasks (take e i agent role via now gate db).tasks
unfolding take
take-Takes e i agent role via now none db here = mark_claimed-Takes i agent role via now db here
take-Takes e i agent role via now (some g) db here =
    let marked = mark_claimed i agent role via now db in
    after_Silent i db.tasks marked.tasks
      (cea_transition e g.result.receipt_id ReceiptState.claimed (λ r. r) now marked).tasks
      (mark_claimed-Takes i agent role via now db here)
      (cea_transition-Silent e g.result.receipt_id ReceiptState.claimed (λ r. r) now marked)

claim_through_gate-Takes :
    (e : Engine) (i agent role via : String) (now : ℕ) (db : Db) {db' : Db}
    → status_of i db.tasks ≡ some pending
    → claim_through_gate e i agent role via now db ≡ some db'
    → Takes i db.tasks db'.tasks
unfolding Taken
claim_through_gate-Takes e i agent role via now db {db' = db'} here h =
    let (before, gate, kept, done) = claim_through_gate-Taken e i agent role via now db h in
    subst (λ ts. Takes i ts db'.tasks) kept
      (subst (λ d. Takes i before.tasks d.tasks) {y = db'} (sym done)
        (take-Takes e i agent role via now gate before (ap (status_of i) kept ∙ here)))

or_back-took :
    (before : Db) (t u : Task) (claimed : Option Db)
    → (or_back before t claimed).1 ≡ took u
    → (d : Db) × (claimed ≡ some d) × (t ≡ u) × ((or_back before t claimed).0 ≡ d)
or_back-took before t u none h = absurd (ground arith)
or_back-took before t u (some d) h = (d, refl, ground arith, refl)

take_chosen-took :
    (e : Engine) (agent role via : String) (now : ℕ) (c : Choice) (before db : Db) (u : Task)
    → Pends db.tasks c
    → (take_chosen e agent role via now c before db).1 ≡ took u
    → Takes u.task_id db.tasks (take_chosen e agent role via now c before db).0.tasks
unfolding take_chosen Pends
take_chosen-took e agent role via now unknown_role before db u p h = absurd (ground arith)
take_chosen-took e agent role via now (chosen none) before db u p h = absurd (ground arith)
take_chosen-took e agent role via now (chosen (some t)) before db u p h =
    let claimed = claim_through_gate e t.task_id agent role via now db in
    let (d, won, same, after) = or_back-took before t u claimed h in
    let takes =
      claim_through_gate-Takes e t.task_id agent role via now db {db' = d} (p t refl) won in
    subst (λ x. Takes x.task_id db.tasks (or_back before t claimed).0.tasks) same
      (subst (λ x. Takes t.task_id db.tasks x.tasks) (sym after) takes)

-- an answer that takes a task comes from the transaction past an open gate
gated-took :
    (first second : Signal) (now : ℕ) (body : Db → Db → Db × Reply) (db : Db) (u : Task)
    → (gated first second now body db).1 ≡ took u
    → (before after : Db) × (before.tasks ≡ db.tasks)
      × (after.tasks ≡ db.tasks)
      × ((stop_active claim first now db.runtime).1 ≡ false)
      × ((stop_active claim second now (stop_active claim first now db.runtime).0).1 ≡ false)
      × (gated first second now body db ≡ body before after)
unfolding gated
gated-took first second now body db u h =
    let (rt0, shut0) = stop_active claim first now db.runtime in
    let (rt1, shut1) = stop_active claim second now rt0 in
    let before : Db = record db { runtime = rt0 } in
    let after : Db = record db { runtime = rt1 } in
    elim (Bool-cases shut0) [
      | inl y ↦ absurd (ground arith)
      | inr n ↦ elim (Bool-cases shut1) [
        | inl y ↦ absurd (ground arith)
        | inr o ↦ (before, after, refl, refl, n, o, rw (n, o) refl)
      ]
    ]

-- A dequeue that takes a task did so with the runtime ACTIVE and with pause.json read and disarmed
-- both before its transaction and again within it; the task was pending, is in progress now, and no
-- other task has changed its status, when no two rows have the same id.
pub dequeue-Takes :
    (e : Engine) (holds : String → String → Bool) (req : Request) (first second : Signal) (now : ℕ)
    (db : Db) (t : Task)
    → Keyed db.tasks
    → (dequeue e holds req first second now db).1 ≡ took t
    → (first ≡ disarmed)
      × (second ≡ disarmed)
      × (state db.runtime ≡ active)
      × Takes t.task_id db.tasks (dequeue e holds req first second now db).0.tasks
unfolding dequeue
dequeue-Takes e holds req first second now db t k h =
    let (before, after, same, same', is_free, still_free, run) =
      gated-took first second now (dequeue_body e holds req now) db t h in
    let (disarm, act) = (gate_open_iff claim first now db.runtime (inr refl)).0 is_free in
    let rechecked =
      (gate_open_iff claim second now (stop_active claim first now db.runtime).0 (inr refl)).0
        still_free in
    let via = or_via req.claim_source req.claimed_via in
    let c = choose holds req now after.tasks in
    let takes =
      take_chosen-took e req.agent req.role via now c before after t
        (choose-Pends holds req now after.tasks (subst Keyed (sym same') k))
        (sym (ap (λ r. r.1) run) ∙ h) in
    (
      disarm,
      rechecked.0,
      act,
      subst
          (λ ts.
            Takes t.task_id ts (gated first second now (dequeue_body e holds req now) db).0.tasks)
          same' (subst (λ r. Takes t.task_id after.tasks r.0.tasks) (sym run) takes),
    )
