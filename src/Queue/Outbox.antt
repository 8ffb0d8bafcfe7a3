-- ===== src/Queue/Outbox.antt =====
-- The outbox of owed continuations and the lease on its rows (src/agent_crew/queue.py,
-- cascade_outbox). An attempt id is a fresh uuid4: it is given, like the time.
pub mod Lease
use agent_crew.Common.{
  ℕ, ◌+◌, String, Bool, true, false, not, ◌&&◌, ◌||◌, if◌then◌else◌, Option, none, some, List, [],
  ◌∷◌, ◌==◌, nat_eq, string_eq, option_eq, ltb, find_where, count_where, update_where,
}

-- `state`
pub data Stage : Type 0 where
  pending replaying applied expired : Stage

-- A row of cascade_outbox.
pub record Continuation : Type 0 where
  pub parent_task_id : String
  pub task_type : String
  pub result_json : String
  pub stop_epoch : ℕ
  pub stage : Stage
  pub attempt_id : Option String
  pub lease_owner : Option String
  pub lease_expires_at : Option ℕ
  pub created_at : ℕ
  pub updated_at : ℕ

abbrev pub is_pending : Stage → Bool
is_pending pending = true
is_pending _ = false

abbrev pub is_replaying : Stage → Bool
is_replaying replaying = true
is_replaying _ = false

abbrev pub is_applied : Stage → Bool
is_applied applied = true
is_applied _ = false

-- lease_expires_at IS NULL OR lease_expires_at < ?
abbrev pub lapsed : Option ℕ → ℕ → Bool
lapsed none now = true
lapsed (some deadline) now = ltb deadline now

-- the WHERE clause of `outbox_claim`
abbrev pub claimable : String → ℕ → Continuation → Bool
claimable parent now r =
    r.parent_task_id == parent
    && (is_pending r.stage || is_replaying r.stage && lapsed r.lease_expires_at now)

abbrev pub lease : (owner attempt : String) (deadline now : ℕ) → Continuation → Continuation
lease owner attempt deadline now r = record r {
  stage = replaying;
  lease_owner = some owner;
  attempt_id = some attempt;
  lease_expires_at = some deadline;
  updated_at = now;
}

-- `outbox_claim`: the table, and the claimed row
unfoldable pub outbox_claim :
    (parent owner attempt : String) (ttl now : ℕ)
    → List Continuation
    → List Continuation × Option Continuation
unfolding count_where update_where find_where
outbox_claim parent owner attempt ttl now rows =
    if not (count_where (claimable parent now) rows == 1)
    then (rows, none)
    else let after =
        update_where (claimable parent now) (lease owner attempt (now + ttl) now) rows in
      (after, find_where (λ r. r.parent_task_id == parent) after)

-- WHERE parent_task_id = ? AND lease_owner = ? AND state = 'replaying'
abbrev pub leased_by : String → String → Continuation → Bool
leased_by parent owner r =
    r.parent_task_id == parent && (r.lease_owner == some owner && is_replaying r.stage)

-- `outbox_mark_applied`: the table, and whether a row was changed
unfoldable pub outbox_mark_applied :
    (parent owner : String) (now : ℕ) → List Continuation → List Continuation × Bool
unfolding count_where update_where
outbox_mark_applied parent owner now rows = (
  update_where (leased_by parent owner) (λ r. record r { stage = applied; updated_at = now }) rows,
  ltb 0 (count_where (leased_by parent owner) rows),
)

-- What a claim may be resolved to without a successor; another state is a ValueError.
pub data Resolution : Type 0 where
  to_expired to_pending : Resolution

abbrev pub resolved : Resolution → Stage
resolved to_expired = expired
resolved to_pending = pending

abbrev pub unlease : Stage → (now : ℕ) → Continuation → Continuation
unlease stage now r = record r {
  stage = stage;
  lease_owner = none;
  attempt_id = none;
  lease_expires_at = none;
  updated_at = now;
}

-- `outbox_finish_claim`: the table, and whether one row was changed
unfoldable pub outbox_finish_claim :
    (parent owner : String) → Resolution → (now : ℕ) → List Continuation → List Continuation × Bool
unfolding count_where update_where
outbox_finish_claim parent owner to now rows = (
  update_where (leased_by parent owner) (unlease (resolved to) now) rows,
  count_where (leased_by parent owner) rows == 1,
)

-- WHERE parent_task_id = ? AND state IN ('applied', 'replaying')
abbrev pub reopenable : String → Continuation → Bool
reopenable parent r = r.parent_task_id == parent && (is_applied r.stage || is_replaying r.stage)

-- `outbox_reopen`: the table, and whether a row was changed
unfoldable pub outbox_reopen :
    (parent : String) (now : ℕ) → List Continuation → List Continuation × Bool
unfolding count_where update_where
outbox_reopen parent now rows = (
  update_where (reopenable parent) (unlease pending now) rows,
  ltb 0 (count_where (reopenable parent) rows),
)
