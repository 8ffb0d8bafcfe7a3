-- ===== src/Queue/Tasks/Parking.antt =====
-- Rows that wait for a human or an owner (src/agent_crew/queue.py, _migrate_legacy_task_rows,
-- _finish_owner_readmission, _block_one_independent_review). The column quarantine_field and the
-- keys that the block adds to the context are left out.
use agent_crew.Common.{
  ℕ, String, Bool, true, false, ◌&&◌, if◌then◌else◌, Option, some, ◌==◌, string_eq, option_eq, any,
  is_some, update_where,
}
use agent_crew.Queue.Tasks.Row.{
  Task, pending, blocked, needs_human, cancelled, same_status, Db, ErrorInfo, task_of, has_id,
  append_exec_event,
}
use agent_crew.Queue.Tasks.Requeue.{set_task_in, in_status}

abbrev pub quarantined : Task → Task
quarantined t = record t { status = needs_human }

-- `_migrate_legacy_task_rows`; `ran` is its marker, and `unreadable` says of a row whether the texts
-- of its context or of its findings cannot be read
unfoldable pub migrate_legacy_task_rows : (ran : Bool) → (unreadable : Task → Bool) → Db → Db
unfolding update_where
migrate_legacy_task_rows ran unreadable db =
    if ran then db else record db { tasks = update_where unreadable quarantined db.tasks }

-- WHERE task_id = ? AND status = 'needs_human' AND owner_conflict.successor_task_id = ?
abbrev pub awaits : (task_id successor_id : String) → Task → Bool
awaits task_id successor_id t =
    has_id task_id t
    && (same_status t.status needs_human && t.context.owner_successor == some successor_id)

abbrev pub retired : Task → Task
retired t = record t { status = cancelled; summary = some "owner approval re-admitted" }

-- `_finish_owner_readmission`
unfoldable pub finish_owner_readmission : (task_id successor_id : String) → Db → Db × Bool
unfolding task_of update_where
finish_owner_readmission task_id successor_id db =
    if is_some (task_of successor_id db.tasks)
    then (
      record db { tasks = update_where (awaits task_id successor_id) retired db.tasks },
      any (awaits task_id successor_id) db.tasks,
    )
    else (db, false)

abbrev pub review_blocked_row : Option ErrorInfo → Task → Task
review_blocked_row block t = record t {
  status = blocked;
  claim_source = "";
  summary = some "INDEPENDENT_REVIEW_UNAVAILABLE";
  error_info = block;
}

-- the transaction of `_block_one_independent_review`; the receipt is settled in one of its own
unfoldable pub block_one_independent_review :
    (task_id : String) → (block : Option ErrorInfo) → ℕ → Db → Db × Bool
unfolding task_of set_task_in append_exec_event
block_one_independent_review task_id block now db =
    if in_status pending (task_of task_id db.tasks)
    then (
      append_exec_event task_id "independent_review_blocked" now
          (set_task_in task_id pending (review_blocked_row block) db),
      true,
    )
    else (db, false)
