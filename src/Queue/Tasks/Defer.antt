-- ===== src/Queue/Tasks/Defer.antt =====
-- A claimed task that its worker could not take yet (src/agent_crew/queue.py, defer_push_delivery,
-- defer_prep_retry, defer_provider_capacity). `2 ** n` and the products of times are written out.
use agent_crew.Common.{
  ℕ, zero, suc, ◌+◌, ◌-◌, ◌*◌, String, Bool, true, false, not, ◌&&◌, if◌then◌else◌, Option, none,
  some, List, [], ◌∷◌, ◌==◌, string_eq, leb, is_some,
}
use agent_crew.Cea.CallSites.Requeue.{RequeuePath, RequeueOutcome}
use agent_crew.Queue.Tasks.Row.{
  Task, pending, in_progress, Db, Context, task_of, set_task, append_exec_event, record_end,
  or_zero, same_status,
}
use agent_crew.Queue.Tasks.Engine.{Engine}
use agent_crew.Queue.Tasks.Requeue.{
  requeue_through_gate, set_task_in, in_status, stranded, to_pending,
}

unfoldable pub pow : ℕ → ℕ → ℕ
pow b zero = 1
pow b (suc n) = b * pow b n

-- `refusals.get(pane_id, 0)`
unfoldable pub refusals_of : String → List (String × ℕ) → ℕ
refusals_of pane [] = 0
refusals_of pane ((p, n) ∷ rest) =
    let others = refusals_of pane rest in if p == pane then n else others

-- `refusals[pane_id] = count`
unfoldable pub set_refusals : String → ℕ → List (String × ℕ) → List (String × ℕ)
set_refusals pane count [] = (pane, count) ∷ []
set_refusals pane count ((p, n) ∷ rest) =
    let others = set_refusals pane count rest in
    if p == pane then (p, count) ∷ rest else (p, n) ∷ others

-- `dict.update`: the key of the second dict if it has it
abbrev updated_by {ℓ} : {A : Type ℓ} → Option A → Option A → Option A
updated_by new none = new
updated_by new (some old) = some old

-- the keys that a refused push writes; the context read first is written over the one read again
abbrev pub refused : (pane reason : String) → (count not_before : ℕ) → Context → Context → Context
refused pane reason count not_before was c = record c {
  push_refusals = set_refusals pane count was.push_refusals;
  push_refusal_reason = some reason;
  push_not_before = some not_before;
  cea_requeue = updated_by c.cea_requeue was.cea_requeue;
}

abbrev pub with_context : (Context → Context) → Task → Task
with_context write t = record t { context = write t.context }

abbrev pub put_back : (Context → Context) → Task → Task
put_back write t = record t { context = write t.context; status = pending }

-- `defer_push_delivery` on a row in progress; `not_before` is the end of the backoff
unfoldable pub refuse_push :
    Engine → Task → (write : Context → Context) → (count max_refusals now : ℕ) → Db → Db × Option ℕ
unfolding requeue_through_gate set_task
refuse_push e t write count max_refusals now db =
    let (gated, answer) = requeue_through_gate e RequeuePath.defer_push_delivery t.task_id now db in
    if leb max_refusals count
    then (set_task t.task_id (with_context write) db, some count)
    else if is_some answer
    then (set_task t.task_id (put_back write) gated, some count)
    else (db, none)

unfoldable pub defer_push_of :
    Engine
    → (pane reason : String) → (max_refusals backoff now : ℕ) → (row : Option Task) → Db
    → Db × Option ℕ
unfolding refuse_push refusals_of set_refusals pow
defer_push_of e pane reason max_refusals backoff now none db = (db, none)
defer_push_of e pane reason max_refusals backoff now (some t) db =
    let count = refusals_of pane t.context.push_refusals + 1 in
    let not_before = now + backoff * pow 2 (count - 1) in
    if same_status t.status in_progress
    then refuse_push e t (refused pane reason count not_before t.context) count max_refusals now db
    else (db, none)

-- `defer_push_delivery`: the count of refusals by this pane
unfoldable pub defer_push_delivery :
    Engine → (task_id pane reason : String) → (max_refusals backoff now : ℕ) → Db → Db × Option ℕ
unfolding task_of defer_push_of
defer_push_delivery e task_id pane reason max_refusals backoff now db =
    defer_push_of e pane reason max_refusals backoff now (task_of task_id db.tasks) db

-- the keys that a transient failure of the preparation writes
abbrev pub unprepared : (error : String) → (not_before : ℕ) → Context → Context
unprepared error not_before c = record c {
  prep_retry_count = some (or_zero c.prep_retry_count + 1);
  prep_retry_error = some error;
  push_not_before = some not_before;
  push_refusal_reason = some "prep_transient";
}

abbrev pub is_stranded : Option RequeueOutcome → Bool
is_stranded none = false
is_stranded (some g) = stranded g

abbrev pub requeued_row : (Context → Context) → Task → Task
requeued_row write t = record (to_pending t) { context = write t.context }

-- `defer_prep_retry`
unfoldable pub defer_prep_retry :
    Engine → (task_id error : String) → (delay now : ℕ) → Db → Db × Bool
unfolding task_of requeue_through_gate set_task_in record_end
defer_prep_retry e task_id error delay now db =
    let (gated, answer) = requeue_through_gate e RequeuePath.defer_prep_retry task_id now db in
    if in_status in_progress (task_of task_id db.tasks)
    then if not (is_some answer)
      then (gated, false)
      else if is_stranded answer
      then (db, false)
      else (
        record_end task_id now "requeued" false
            (set_task_in task_id in_progress (requeued_row (unprepared error (now + delay))) gated),
        true,
      )
    else (db, false)

-- what `defer_provider_capacity` answers
pub record Streak : Type 0 where
  pub count : ℕ
  pub since : ℕ
  pub not_before : ℕ
  pub blocked : Bool
  pub readmit : Bool

abbrev or_now : Option ℕ → ℕ → ℕ
or_now none now = now
or_now (some zero) now = now
or_now (some (suc n)) now = suc n

-- the streak of refusals that this one belongs to
unfoldable pub streak_of : (delay blocked_after now : ℕ) → Context → Bool → Streak
streak_of delay blocked_after now c readmit =
    let since = or_now c.provider_capacity_since now in
    record {
      count = or_zero c.provider_capacity_count + 1;
      since = since;
      not_before = now + delay;
      blocked =
          leb blocked_after (now - since)
          && elim (or_zero c.provider_capacity_blocked_at) [ zero ↦ true | suc _ ↦ false ];
      readmit = readmit;
    }

-- the keys that a refusal for capacity writes
abbrev pub at_capacity : (tag : String) → ℕ → Streak → Context → Context
at_capacity tag now s c = record c {
  push_not_before = some s.not_before;
  push_refusal_reason = some tag;
  provider_capacity_count = some s.count;
  provider_capacity_since = some s.since;
  provider_capacity_blocked_at = if s.blocked then some now else c.provider_capacity_blocked_at;
}

-- the row after a refusal for capacity: it goes back, or waits for a new admission
unfoldable pub capacity_end : (task_id tag : String) → ℕ → Streak → Db → Db
unfolding set_task set_task_in record_end append_exec_event
capacity_end task_id tag now s gated =
    if s.readmit
    then append_exec_event task_id "provider_capacity_readmit" now
        (set_task task_id (with_context (at_capacity tag now s)) gated)
    else record_end task_id now "requeued" false
        (set_task_in task_id in_progress (requeued_row (at_capacity tag now s)) gated)

-- the note for the coordinator, once in a streak
unfoldable pub capacity_blocked : (task_id : String) → ℕ → Streak → Db → Db
unfolding append_exec_event
capacity_blocked task_id now s db =
    if s.blocked then append_exec_event task_id "provider_capacity_blocked" now db else db

unfoldable pub defer_capacity_of :
    Engine
    → (tag : String) → (delay blocked_after now : ℕ) → (row : Option Task) → Db
    → Db × Option Streak
unfolding requeue_through_gate streak_of capacity_end capacity_blocked
defer_capacity_of e tag delay blocked_after now none db = (db, none)
defer_capacity_of e tag delay blocked_after now (some t) db =
    let (gated, answer) =
      requeue_through_gate e RequeuePath.defer_provider_capacity t.task_id now db in
    let s = streak_of delay blocked_after now t.context (is_stranded answer) in
    if same_status t.status in_progress
    then if is_some answer
      then (capacity_blocked t.task_id now s (capacity_end t.task_id tag now s gated), some s)
      else (gated, none)
    else (db, none)

-- `defer_provider_capacity`
unfoldable pub defer_provider_capacity :
    Engine → (task_id tag : String) → (delay blocked_after now : ℕ) → Db → Db × Option Streak
unfolding task_of defer_capacity_of
defer_provider_capacity e task_id tag delay blocked_after now db =
    defer_capacity_of e tag delay blocked_after now (task_of task_id db.tasks) db
