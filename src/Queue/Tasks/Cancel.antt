-- ===== src/Queue/Tasks/Cancel.antt =====
-- The end of a task that has no result (src/agent_crew/queue.py, cancel_with_binding, expire_stale,
-- force_fail, force_fail_pending, mark_needs_human).
use agent_crew.Common.{
  ℕ, String, Bool, true, false, not, ◌&&◌, ◌||◌, if◌then◌else◌, Option, none, some, List, [], ◌∷◌,
  ◌==◌, string_eq, option_eq, leb, update_where, is_some,
}
use agent_crew.Cea.Types.{Receipt, ReceiptState}
use agent_crew.Cea.Store.Receipts.{current_receipt, is_terminal}
use agent_crew.Cea.Store.Nonces.{revoke_nonces_for_receipt, cancelled_attempt}
use agent_crew.Queue.Tasks.Row.{
  Task, Status, pending, in_progress, failed, needs_human, cancelled, orphaned, same_status,
  is_over, Db, ErrorInfo, task_of, set_task, record_end, nonempty, or_zero, idle_since,
}
use agent_crew.Queue.Tasks.Engine.{Engine, cea_transition}
use agent_crew.Queue.Tasks.Requeue.{ids_where}

-- the guards of `cancel_with_binding`
unfoldable pub refuses_cancel : (expected : Option Status) → (stale_before : Option ℕ) → Task → Bool
refuses_cancel expected stale_before t =
    elim expected [ none ↦ false | some s ↦ not (same_status t.status s) ]
    || (elim stale_before [
      | none ↦ false
      | some at ↦ leb at (or_zero t.last_activity_at) || leb at (or_zero t.last_heartbeat_at)
    ]
        || is_over t.status)

-- a receipt on file that is not terminal is REVOKED
unfoldable pub revoke_receipt :
    Engine → (receipt_id : String) → ℕ → (found : Option Receipt) → Db → Db
unfolding cea_transition
revoke_receipt e rid now none db = db
revoke_receipt e rid now (some r) db =
    if is_terminal r.state then db else cea_transition e rid ReceiptState.revoked (λ x. x) now db

-- the nonces and the receipt; `used_at` is the time as the nonce table spells it
unfoldable pub revoke : Engine → (receipt_id : Option String) → (used_at : String) → ℕ → Db → Db
unfolding revoke_nonces_for_receipt current_receipt revoke_receipt
revoke e none used_at now db = db
revoke e (some rid) used_at now db =
    revoke_receipt e rid now (current_receipt rid db.receipts)
      (record db { nonces = (revoke_nonces_for_receipt rid cancelled_attempt used_at db.nonces).0 })

abbrev pub depends_on : String → Task → Bool
depends_on task_id t =
    (same_status t.status pending || same_status t.status in_progress)
    && t.context.prev_task_id == some task_id

abbrev pub orphan : Task → Task
orphan t = record t { status = orphaned }

-- the last UPDATE: dependents are orphaned
unfoldable pub orphan_dependents : String → Db → Db
unfolding update_where
orphan_dependents task_id db = record db {
  tasks = update_where (depends_on task_id) orphan db.tasks;
}

abbrev pub called_off : Task → Task
called_off t = record t { status = cancelled }

-- the writes of a cancellation
unfoldable pub cancel_row : Engine → Task → (used_at : String) → ℕ → Db → Db
unfolding set_task revoke record_end orphan_dependents
cancel_row e t used_at now db = orphan_dependents t.task_id (
    record_end t.task_id now "cancelled" false
      (revoke e (nonempty t.receipt_id) used_at now (set_task t.task_id called_off db)))

unfoldable pub cancel_of :
    Engine
    → (expected : Option Status) → (stale_before : Option ℕ) → (used_at : String) → ℕ
    → (row : Option Task) → Db
    → Db × Bool
unfolding refuses_cancel cancel_row
cancel_of e expected stale_before used_at now none db = (db, false)
cancel_of e expected stale_before used_at now (some t) db =
    if refuses_cancel expected stale_before t
    then (db, false)
    else (cancel_row e t used_at now db, true)

-- `cancel`, and the first answer of `cancel_with_binding`
unfoldable pub cancel :
    Engine
    → (task_id : String) → (expected : Option Status) → (stale_before : Option ℕ)
    → (used_at : String) → ℕ
    → Db
    → Db × Bool
unfolding task_of cancel_of
cancel e task_id expected stale_before used_at now db =
    cancel_of e expected stale_before used_at now (task_of task_id db.tasks) db

-- the sweep of `expire_stale` over the rows it selected
unfoldable pub cancel_all :
    Engine → (cutoff : ℕ) → (used_at : String) → ℕ → List String → Db → Db × List String
unfolding cancel
cancel_all e cutoff used_at now [] db = (db, [])
cancel_all e cutoff used_at now (task_id ∷ ids) db =
    let (db', done) = cancel e task_id (some in_progress) (some cutoff) used_at now db in
    let (db'', rest) = cancel_all e cutoff used_at now ids db' in
    (db'', if done then task_id ∷ rest else rest)

-- `expire_stale`; the database may have moved on from `seen`, which the rows were selected in
unfoldable pub expire_stale :
    Engine → (cutoff : ℕ) → (used_at : String) → ℕ → (seen db : Db) → Db × List String
unfolding cancel_all ids_where
expire_stale e cutoff used_at now seen db =
    cancel_all e cutoff used_at now (ids_where (idle_since cutoff) seen.tasks) db

abbrev pub failed_row : (summary : String) → Option ErrorInfo → Task → Task
failed_row summary info t = record t { status = failed; summary = some summary; error_info = info }

unfoldable pub fail_of :
    Status
    → (summary : String) → Option ErrorInfo
    → ℕ
    → (row : Option Task) → Db
    → Db × Option String
unfolding set_task record_end
fail_of s summary info now none db = (db, none)
fail_of s summary info now (some t) db =
    let after =
      record_end t.task_id now "force_failed" false
        (set_task t.task_id (failed_row summary info) db) in
    if same_status t.status s then (after, some t.task_type) else (db, none)

-- `force_fail`
unfoldable pub force_fail :
    (task_id summary : String) → Option ErrorInfo → ℕ → Db → Db × Option String
unfolding task_of fail_of
force_fail task_id summary info now db =
    fail_of in_progress summary info now (task_of task_id db.tasks) db

-- `force_fail_pending`
unfoldable pub force_fail_pending :
    (task_id summary : String) → Option ErrorInfo → ℕ → Db → Db × Option String
unfolding task_of fail_of
force_fail_pending task_id summary info now db =
    fail_of pending summary info now (task_of task_id db.tasks) db

abbrev pub parked_for_human : (summary : String) → Task → Task
parked_for_human summary t = record t { status = needs_human; summary = some summary }

-- `mark_needs_human`, without the keys that the caller adds to the context
unfoldable pub mark_needs_human : (task_id summary : String) → Db → Db × Bool
unfolding task_of set_task
mark_needs_human task_id summary db =
    if is_some (task_of task_id db.tasks)
    then (set_task task_id (parked_for_human summary) db, true)
    else (db, false)
