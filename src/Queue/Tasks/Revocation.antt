-- ===== src/Queue/Tasks/Revocation.antt =====
-- A cancellation is all or nothing (src/agent_crew/queue.py, cancel_with_binding).
use agent_crew.Common.{
  ℕ, String, Bool, true, false, ◌≡◌, ◌⊎◌, refl, ap, ◌∙◌, Option, none, some, List, [], ◌∷◌, inl,
  inr, Bool-cases, arith, if◌then◌else◌, set_where, count_where, count-update_none, string_eq,
  option_eq,
}
use agent_crew.Cea.Types.{Receipt, ReceiptState}
use agent_crew.Cea.Store.Receipts.{current_receipt, is_terminal}
use agent_crew.Cea.Store.Nonces.{
  NonceRow, outstanding, revoke_nonces_for_receipt, cancelled_attempt, spend,
}
use agent_crew.Queue.Tasks.Row.{
  Task, Status, cancelled, Db, task_of, set_task, record_end, append_exec_event, nonempty, is_over,
}
use agent_crew.Queue.Tasks.Engine.{Engine, cea_transition}
use agent_crew.Queue.Tasks.Cancel.{
  refuses_cancel, revoke_receipt, revoke, depends_on, orphan, orphan_dependents, called_off,
  cancel_row, cancel_of, cancel,
}
use agent_crew.Queue.Tasks.Lifecycle.{status_of}
use agent_crew.Queue.Tasks.Lifecycle.Writes.{
  cea_transition-keeps, record_end-Silent, same_tasks-Silent, Silent-trans,
}
use agent_crew.Queue.Tasks.Lifecycle.Ending.{revoke-tasks, live_of, after_update}
use agent_crew.Queue.Tasks.Lifecycle.Deferring.{own_status}
use agent_crew.Queue.Tasks.Claims.Taking.{own_row}

-- a nonce of the row's receipt that could still be spent
abbrev pub open_nonce : Option String → NonceRow → Bool
open_nonce none n = false
open_nonce (some rid) n = outstanding rid n

-- what a cancellation that goes through leaves of a row `t`
pub record CalledOff (t : Task) (db : Db) : Type 0 where
  pub ended : status_of t.task_id db.tasks ≡ some cancelled
  pub no_nonce : count_where (open_nonce (nonempty t.receipt_id)) db.nonces ≡ 0
  pub no_dependent : count_where (depends_on t.task_id) db.tasks ≡ 0

pub cea_transition-nonces :
    (e : Engine) (rid : String) (state : ReceiptState) (mutate : Receipt → Receipt) (now : ℕ)
    (db : Db)
    → (cea_transition e rid state mutate now db).nonces ≡ db.nonces
cea_transition-nonces e rid state mutate now db =
    cea_transition-keeps (λ d. d.nonces) e rid state mutate now db (λ rs ls. refl)

revoke_receipt-nonces :
    (e : Engine) (rid : String) (now : ℕ) (found : Option Receipt) (db : Db)
    → (revoke_receipt e rid now found db).nonces ≡ db.nonces
unfolding revoke_receipt
revoke_receipt-nonces e rid now none db = refl
revoke_receipt-nonces e rid now (some r) db = elim (Bool-cases (is_terminal r.state)) [
  | inl y ↦ rw y refl
  | inr n ↦ rw n (cea_transition-nonces e rid ReceiptState.revoked (λ x. x) now db)
]

no_row : (xs : List NonceRow) → count_where (λ (_ : NonceRow). false) xs ≡ 0
unfolding count_where
no_row [] = refl
no_row (x ∷ xs) = omega (arith, no_row xs)

revoke-none_open :
    (e : Engine) (rid : Option String) (used_at : String) (now : ℕ) (db : Db)
    → count_where (open_nonce rid) (revoke e rid used_at now db).nonces ≡ 0
unfolding revoke revoke_nonces_for_receipt
revoke-none_open e none used_at now db = no_row db.nonces
revoke-none_open e (some rid) used_at now db =
    let spent : Db = record db {
      nonces = (revoke_nonces_for_receipt rid cancelled_attempt used_at db.nonces).0;
    } in
    ap (count_where (outstanding rid))
      (revoke_receipt-nonces e rid now (current_receipt rid db.receipts) spent)
    ∙ count-update_none (outstanding rid) (outstanding rid) (spend used_at (some cancelled_attempt))
        db.nonces (λ x. ground arith)

not_orphan : (i : String) (t : Task) → depends_on i (set_where (depends_on i) orphan t) ≡ false
not_orphan i t = elim (Bool-cases (depends_on i t)) [ inl y ↦ rw y refl | inr n ↦ rw n n ]

cancelled_independent : (i : String) (t : Task) → t.status ≡ cancelled → depends_on i t ≡ false
cancelled_independent i t c = rw c refl

cancel_row-CalledOff :
    (e : Engine) (t : Task) (used_at : String) (now : ℕ) (db : Db)
    → status_of t.task_id db.tasks ≡ some t.status
    → CalledOff t (cancel_row e t used_at now db)
unfolding cancel_row orphan_dependents record_end set_task append_exec_event
cancel_row-CalledOff e t used_at now db here =
    let i = t.task_id in
    let rid = nonempty t.receipt_id in
    let off_db = set_task i called_off db in
    let revoked = revoke e rid used_at now off_db in
    let ended = record_end i now "cancelled" false revoked in
    let quiet =
      Silent-trans off_db revoked ended
        (same_tasks-Silent off_db revoked (revoke-tasks e rid used_at now off_db))
        (record_end-Silent i now "cancelled" false revoked) in
    let is_off = own_row i called_off db t.status cancelled (λ _. refl) (λ _. refl) here in
    let (u, found, same, after) =
      after_update (depends_on i) orphan ended.tasks i (λ _. refl) (quiet.kept i ∙ is_off) in
    record {
      ended =
          after
          ∙ ap some (
              ap (λ b. (if b then orphan u else u).status) (cancelled_independent i u same) ∙ same);
      no_nonce = revoke-none_open e rid used_at now off_db;
      no_dependent =
          count-update_none (depends_on i) (depends_on i) orphan ended.tasks (not_orphan i);
    }

-- what a cancellation answers: refused without a write, or carried out in full
unfoldable pub AllOrNothing : String → Db → Db × Bool → Type 0
AllOrNothing i db (db', cancels) =
    ((cancels ≡ false) × (db' ≡ db))
    ⊎ ((t : Task) × (cancels ≡ true)
        × (task_of i db.tasks ≡ some t)
        × (is_over t.status ≡ false)
        × CalledOff t db')

cancel_of-whole :
    (e : Engine) (i : String) (expected : Option Status) (stale : Option ℕ) (used_at : String)
    (now : ℕ) (row : Option Task) (db : Db)
    → task_of i db.tasks ≡ row
    → AllOrNothing i db (cancel_of e expected stale used_at now row db)
unfolding cancel_of AllOrNothing
cancel_of-whole e i expected stale used_at now none db found = inl (refl, refl)
cancel_of-whole e i expected stale used_at now (some t) db found =
    elim (Bool-cases (refuses_cancel expected stale t)) [
      | inl y ↦ rw y (inl (refl, refl))
      | inr n ↦ rw n (
          inr (
            t,
            refl,
            found,
            live_of expected stale t n,
            cancel_row-CalledOff e t used_at now db (own_status i db.tasks found),
          ))
    ]

-- A cancellation that answers false changes nothing. One that answers true found a row that was not
-- over: the row is cancelled, no nonce of its receipt can be spent any more, and no pending or
-- running row is left that depends on it.
pub cancel_whole :
    (e : Engine) (i : String) (expected : Option Status) (stale : Option ℕ) (used_at : String)
    (now : ℕ) (db : Db)
    → AllOrNothing i db (cancel e i expected stale used_at now db)
unfolding cancel
cancel_whole e i expected stale used_at now db =
    cancel_of-whole e i expected stale used_at now (task_of i db.tasks) db refl
