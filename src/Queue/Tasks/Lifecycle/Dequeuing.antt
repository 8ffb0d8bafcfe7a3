-- ===== src/Queue/Tasks/Lifecycle/Dequeuing.antt =====
-- A dequeue claims a pending row or changes no task (src/agent_crew/queue.py, dequeue,
-- dequeue_discuss_for_agent).
use agent_crew.Common.{
  ℕ, String, Bool, ◌≡◌, refl, sym, ap, ◌∙◌, Option, none, some, List, inl, inr, Bool-cases, arith,
}
use mathlib.Core.Path.{subst}
use agent_crew.Cea.Matrix.{claim}
use agent_crew.Queue.Runtime.Moves.{Signal, stop_active}
use agent_crew.Queue.Tasks.Row.{Task, pending, Db}
use agent_crew.Queue.Tasks.Engine.{Engine}
use agent_crew.Queue.Tasks.Claim.{claim_through_gate}
use agent_crew.Queue.Tasks.Dequeue.{
  Reply, or_back, take_chosen, gated, or_via, dequeue_body, discuss_body, dequeue,
  dequeue_discuss_for_agent,
}
use agent_crew.Queue.Tasks.Dequeue.Selection.{
  Request, Choice, unknown_role, chosen, open_to, choose, choose_discuss, discuss_open,
}
use agent_crew.Queue.Tasks.Lifecycle.{status_of, status_of-found}
use agent_crew.Queue.Tasks.Lifecycle.Writes.{same_tasks-Silent}
use agent_crew.Queue.Tasks.Lifecycle.Moves.{Progress, Silent-then, same_status-eq}
use agent_crew.Queue.Tasks.Lifecycle.Keys.{Keyed, first_by-Keyed}
use agent_crew.Queue.Tasks.Lifecycle.Chosen.{Fits, choose-Fits}
use agent_crew.Queue.Tasks.Lifecycle.Claiming.{claim_through_gate-Progress}
use agent_crew.Queue.Tasks.Lifecycle.{Quiet-Evolves}

-- the row that a choice names is pending
unfoldable pub Pends : List Task → Choice → Type 0
Pends ts c = (t : Task) → c ≡ chosen (some t) → status_of t.task_id ts ≡ some pending

still : (db db' : Db) → db'.tasks ≡ db.tasks → Progress db db'
still db db' e = Quiet-Evolves (same_tasks-Silent db db' e)

or_back-Progress :
    (db before after : Db) (t : Task) (claimed : Option Db)
    → before.tasks ≡ db.tasks
    → after.tasks ≡ db.tasks
    → ((d : Db) → claimed ≡ some d → Progress after d)
    → Progress db (or_back before t claimed).0
or_back-Progress db before after t none same _ moves = still db before same
or_back-Progress db before after t (some d) _ same moves =
    Silent-then db after d (same_tasks-Silent db after same) (moves d refl)

take_chosen-Progress :
    (e : Engine) (agent role via : String) (now : ℕ) (c : Choice) (db before after : Db)
    → before.tasks ≡ db.tasks
    → after.tasks ≡ db.tasks
    → Pends after.tasks c
    → Progress db (take_chosen e agent role via now c before after).0
unfolding take_chosen Pends
take_chosen-Progress e agent role via now unknown_role db before after same _ p =
    still db before same
take_chosen-Progress e agent role via now (chosen none) db before after same _ p =
    still db before same
take_chosen-Progress e agent role via now (chosen (some t)) db before after same same' p =
    or_back-Progress db before after t (claim_through_gate e t.task_id agent role via now after)
      same same'
      (λ d. claim_through_gate-Progress e t.task_id agent role via now after {db' = d} (p t refl))

gated-Progress :
    (first second : Signal) (now : ℕ) (body : Db → Db → Db × Reply) (db : Db)
    → ((before after : Db)
        → before.tasks ≡ db.tasks
        → after.tasks ≡ db.tasks
        → Progress db (body before after).0)
    → Progress db (gated first second now body db).0
unfolding gated
gated-Progress first second now body db moves =
    let (rt0, shut0) = stop_active claim first now db.runtime in
    let (rt1, shut1) = stop_active claim second now rt0 in
    let before = record db { runtime = rt0 } in
    let after = record db { runtime = rt1 } in
    elim (Bool-cases shut0) [
      | inl y ↦ rw y (still db before refl)
      | inr n ↦ elim (Bool-cases shut1) [
        | inl y ↦ rw (n, y) (still db before refl)
        | inr o ↦ rw (n, o) (moves before after refl refl)
      ]
    ]

pub choose-Pends :
    (holds : String → String → Bool) (req : Request) (now : ℕ) (ts : List Task)
    → Keyed ts
    → Pends ts (choose holds req now ts)
unfolding Pends Fits open_to
choose-Pends holds req now ts k t e =
    let (fits, found) = choose-Fits req now ts k holds t e in
    status_of-found t.task_id ts found ∙ ap some (same_status-eq t.status pending (ground arith))

discuss-Pends :
    (agent : String) (skip : Bool) (now : ℕ) (ts : List Task)
    → Keyed ts
    → Pends ts (chosen (choose_discuss agent skip now ts))
unfolding Pends choose_discuss discuss_open
discuss-Pends agent skip now ts k t e =
    let (holds, found) = first_by-Keyed (discuss_open agent skip now) ts {t = t} k (ground arith) in
    status_of-found t.task_id ts found ∙ ap some (same_status-eq t.status pending (ground arith))

pub dequeue-Progress :
    (e : Engine) (holds : String → String → Bool) (req : Request) (first second : Signal) (now : ℕ)
    (db : Db)
    → Keyed db.tasks
    → Progress db (dequeue e holds req first second now db).0
unfolding dequeue
dequeue-Progress e holds req first second now db k =
    gated-Progress first second now (dequeue_body e holds req now) db (λ before after same same'.
      take_chosen-Progress e req.agent req.role (or_via req.claim_source req.claimed_via) now
        (choose holds req now after.tasks) db before after same same'
        (choose-Pends holds req now after.tasks (subst Keyed (sym same') k)))

pub dequeue_discuss-Progress :
    (e : Engine) (agent via source : String) (skip : Bool) (first second : Signal) (now : ℕ)
    (db : Db)
    → Keyed db.tasks
    → Progress db (dequeue_discuss_for_agent e agent via source skip first second now db).0
unfolding dequeue_discuss_for_agent
dequeue_discuss-Progress e agent via source skip first second now db k =
    gated-Progress first second now (discuss_body e agent (or_via source via) skip now) db
      (λ before after same same'.
        take_chosen-Progress e agent "discuss" (or_via source via) now
          (chosen (choose_discuss agent skip now after.tasks)) db before after same same'
          (discuss-Pends agent skip now after.tasks (subst Keyed (sym same') k)))
