-- ===== src/Queue/Tasks/Lifecycle/Starting.antt =====
-- A dispatch and a start leave every status alone (src/agent_crew/queue.py, record_dispatch,
-- start_execution).
use agent_crew.Common.{
  ℕ, String, Bool, true, false, not, ◌≡◌, refl, ◌&&◌, ◌++◌, [], ◌∷◌, Option, none, some, List, inl,
  inr, Bool-cases, is_some, if◌then◌else◌,
}
use agent_crew.Cea.Types.{Receipt, ReceiptState, DispatchNonce}
use agent_crew.Cea.Store.Nonces.{NonceRow, mint_nonce}
use agent_crew.Cea.Store.Receipts.{Result, ok, err, ReceiptRow, record_receipt}
use agent_crew.Cea.CallSites.{GateOutcome, recording}
use agent_crew.Queue.Tasks.Row.{Db, task_of, append_exec_event, nonempty}
use agent_crew.Queue.Tasks.Engine.{Engine, cea_transition, receipt_for_task, report_legacy_row}
use agent_crew.Queue.Tasks.Start.{
  stored, mint, mint_with, Dispatch, dispatched, hand_over, dispatch_gate, dispatch_of,
  record_dispatch, spend_shown, start_on, start_of, start_gate, is_cancelled, start_execution,
  or_empty,
}
use agent_crew.Queue.Tasks.Lifecycle.{Quiet-Evolves, Quiet-refl}
use agent_crew.Queue.Tasks.Lifecycle.Writes.{
  Silent, Silent-trans, same_tasks-Silent, set_task-Silent, cea_transition-Silent,
}
use agent_crew.Queue.Tasks.Lifecycle.Moves.{Progress}
use agent_crew.Queue.Tasks.Lifecycle.Returning.{Progress-refl, if-Progress}

stored-tasks :
    (nonces : List NonceRow) (fresh : String) (db : Db) (res : Result (List ReceiptRow × ℕ))
    → (stored nonces fresh db res).0.tasks ≡ db.tasks
stored-tasks nonces fresh db (ok (rows, seq)) = refl
stored-tasks nonces fresh db (err why) = refl

mint_with-tasks :
    (e : Engine) (r : Receipt) (fresh : String) (minted : Option (List NonceRow)) (db : Db)
    → (mint_with e r fresh minted db).0.tasks ≡ db.tasks
unfolding mint_with
mint_with-tasks e r fresh none db = refl
mint_with-tasks e r fresh (some nonces) db =
    let entry : DispatchNonce = record { nonce = fresh; attempt = r.attempt } in
    stored-tasks nonces fresh db (
      record_receipt (e.resign (record r { dispatch_nonces = r.dispatch_nonces ++ (entry ∷ []) }))
        none db.receipts)

mint-Silent :
    (e : Engine) (r : Receipt) (fresh issued : String) (db : Db)
    → Silent db (mint e r fresh issued db).0
unfolding mint
mint-Silent e r fresh issued db =
    let minted = mint_nonce r.receipt_id r.attempt fresh issued db.nonces in
    same_tasks-Silent db (mint_with e r fresh minted db).0 (mint_with-tasks e r fresh minted db)

hand_over-Silent : (i : String) (d : Dispatch) (at : ℕ) (db : Db) → Silent db (hand_over i d at db)
unfolding hand_over append_exec_event
hand_over-Silent i d at db = elim (Bool-cases (is_some (task_of i db.tasks))) [
  | inl y ↦ rw y (set_task-Silent i (dispatched d at) db (λ _. refl) (λ _. refl))
  | inr n ↦ rw n (set_task-Silent i (dispatched d at) db (λ _. refl) (λ _. refl))
]

if-Silent :
    (db : Db) (b : Bool) (x y : Db) → Silent db x → Silent db y → Silent db (if b then x else y)
if-Silent db true x y p q = p
if-Silent db false x y p q = q

minted-Silent :
    (b : Bool) (db : Db) (x : Db × Option String)
    → Silent db x.0
    → Silent db (if b then x else (db, none)).0
minted-Silent true db x p = p
minted-Silent false db x p = Quiet-refl

dispatch_of-Progress :
    (e : Engine) (i : String) (d : Dispatch) (fresh issued : String) (at : ℕ)
    (found : Option Receipt) (db : Db)
    → Progress db (dispatch_of e i d fresh issued at found db).0
unfolding dispatch_of report_legacy_row append_exec_event
dispatch_of-Progress e i d fresh issued at none db =
    let reported = if recording (e.config none) then report_legacy_row i at db else db in
    Quiet-Evolves (
      Silent-trans db reported (hand_over i d at reported)
        (if-Silent db (recording (e.config none)) _ _ Quiet-refl Quiet-refl)
        (hand_over-Silent i d at reported))
dispatch_of-Progress e i d fresh issued at (some r) db =
    let (db', minted) = if e.keeps_receipts then mint e r fresh issued db else (db, none) in
    if-Progress db (dispatch_gate e r at).proceed _ _
      (Quiet-Evolves (
        Silent-trans db db' (hand_over i d at db')
          (minted-Silent e.keeps_receipts db (mint e r fresh issued db)
            (mint-Silent e r fresh issued db))
          (hand_over-Silent i d at db')))
      (Progress-refl db)

pub record_dispatch-Progress :
    (e : Engine) (i : String) (d : Dispatch) (fresh issued : String) (at : ℕ) (db : Db)
    → Progress db (record_dispatch e i d fresh issued at db).0
unfolding record_dispatch
record_dispatch-Progress e i d fresh issued at db =
    dispatch_of-Progress e i d fresh issued at (receipt_for_task i db).1 db

spend_shown-tasks :
    (shown presenter : Option String) (i used_at : String) (db : Db)
    → (spend_shown shown presenter i used_at db).0.tasks ≡ db.tasks
unfolding spend_shown
spend_shown-tasks shown presenter i used_at db = refl

start_on-Progress :
    (e : Engine) (rid : String) (g : GateOutcome) (shown presenter : Option String)
    (i used_at : String) (now : ℕ) (db : Db)
    → Progress db (start_on e rid g shown presenter i used_at now db).0
unfolding start_on
start_on-Progress e rid g shown presenter i used_at now db =
    let (spent_db, spent) = spend_shown shown presenter i used_at db in
    if-Progress db (not g.proceed) _ _ (Progress-refl db) (
      if-Progress db (is_some (nonempty shown) && (not spent && g.enforced)) _ _ (Progress-refl db)
        (Quiet-Evolves (
          Silent-trans db spent_db (cea_transition e rid ReceiptState.running (λ x. x) now spent_db)
            (same_tasks-Silent db spent_db (spend_shown-tasks shown presenter i used_at db))
            (cea_transition-Silent e rid ReceiptState.running (λ x. x) now spent_db))))

start_of-Progress :
    (e : Engine) (i : String) (shown presenter : Option String) (used_at : String) (now : ℕ)
    (found : Option String × Option Receipt) (db : Db)
    → Progress db (start_of e i shown presenter used_at now found db).0
start_of-Progress e i shown presenter used_at now (rid, none) db = Progress-refl db
start_of-Progress e i shown presenter used_at now (rid, some r) db =
    start_on-Progress e (or_empty rid) (start_gate e r shown presenter now db) shown presenter i
      used_at now db

pub start_execution-Progress :
    (e : Engine) (i : String) (shown presenter : Option String) (used_at : String) (now : ℕ)
    (db : Db)
    → Progress db (start_execution e i shown presenter used_at now db).0
unfolding start_execution
start_execution-Progress e i shown presenter used_at now db =
    if-Progress db (is_cancelled (task_of i db.tasks)) _ _ (Progress-refl db)
      (start_of-Progress e i shown presenter used_at now (receipt_for_task i db) db)
