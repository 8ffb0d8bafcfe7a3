-- ===== src/Queue/Tasks/Lifecycle.antt =====
-- The states that a task passes through (src/agent_crew/queue.py), as a graph on its status, and
-- the moves that leave the status alone.
pub mod Writes
pub mod Moves
pub mod Keys
pub mod Claiming
pub mod Chosen
pub mod Dequeuing
pub mod Returning
pub mod Deferring
pub mod Ending
pub mod Reporting
pub mod Starting
pub mod Resetting
pub mod Parking
pub mod Calls
pub mod Steps
use agent_crew.Common.{
  String, Bool, true, false, ◌≡◌, ◌≢◌, refl, sym, ap, ◌∙◌, Option, none, some, List, [], ◌∷◌, map,
  update_where, find_where, set_where, find-update_same, string_eq, ◌==◌, eq_of_beq, beq_refl,
  arith, if◌then◌else◌, Bool-cases, Option-cases, inl, inr,
}
use mathlib.Core.Option
use mathlib.Core.Path.{subst}
use agent_crew.Queue.Tasks.Row.{
  Task, Status, pending, in_progress, completed, failed, blocked, cancelled, orphaned, is_over, Db,
  task_of, has_id, set_task,
}

-- the statuses of a result
abbrev pub is_reported : Status → Bool
is_reported Status.completed = true
is_reported Status.failed = true
is_reported Status.needs_human = true
is_reported Status.timed_out = true
is_reported Status.blocked = true
is_reported _ = false

-- One move of a task.
pub data Lifecycle : Status → Status → Type 0 where
  stay : {s : Status} → Lifecycle s s
  claimed : Lifecycle pending in_progress
  requeued : Lifecycle in_progress pending
  parked : Lifecycle in_progress blocked
  review_blocked : Lifecycle pending blocked
  resumed : Lifecycle blocked pending
  called_off : {s : Status} → is_over s ≡ false → Lifecycle s cancelled
  orphaned_pending : Lifecycle pending orphaned
  orphaned_running : Lifecycle in_progress orphaned
  given_up : Lifecycle pending failed
  timed_out : Lifecycle in_progress failed
  reported :
      {s s' : Status}
      → s ≢ cancelled
      → is_reported s' ≡ true
      → (s ≡ completed → s' ≡ completed)
      → Lifecycle s s'

-- the status of the row with this id
unfoldable pub status_of : String → List Task → Option Status
unfolding task_of
status_of task_id ts = Option.map (λ t. t.status) (task_of task_id ts)

-- the ids in their order
unfoldable pub ids : List Task → List String
ids ts = map (λ t. t.task_id) ts

-- The rows keep their ids, and each moves along the graph.
pub record Evolves (ts ts' : List Task) : Type 0 where
  pub same_ids : ids ts' ≡ ids ts
  pub moved :
      (task_id : String) (s : Status)
      → status_of task_id ts ≡ some s
      → (s' : Status) × (status_of task_id ts' ≡ some s') × Lifecycle s s'

-- The rows keep their ids and their statuses.
pub record Quiet (ts ts' : List Task) : Type 0 where
  pub same_ids : ids ts' ≡ ids ts
  pub kept : (task_id : String) → status_of task_id ts' ≡ status_of task_id ts

pub Quiet-refl : {ts : List Task} → Quiet ts ts
Quiet-refl = record { same_ids = refl; kept = λ _. refl }

pub Quiet-trans : {a b c : List Task} → Quiet a b → Quiet b c → Quiet a c
Quiet-trans p q = record { same_ids = q.same_ids ∙ p.same_ids; kept = λ i. q.kept i ∙ p.kept i }

pub Quiet-Evolves : {ts ts' : List Task} → Quiet ts ts' → Evolves ts ts'
Quiet-Evolves q = record { same_ids = q.same_ids; moved = λ i s e. (s, q.kept i ∙ e, stay) }

pub Evolves-after : {a b c : List Task} → Quiet a b → Evolves b c → Evolves a c
Evolves-after p q = record {
  same_ids = q.same_ids ∙ p.same_ids;
  moved = λ i s e. q.moved i s (p.kept i ∙ e);
}

pub Evolves-before : {a b c : List Task} → Evolves a b → Quiet b c → Evolves a c
Evolves-before p q = record {
  same_ids = q.same_ids ∙ p.same_ids;
  moved = λ i s e. let (s', found, m) = p.moved i s e in (s', q.kept i ∙ found, m);
}

module _ (p : Task → Bool) (f : Task → Task)
    (same_id : (t : Task) → (f t).task_id ≡ t.task_id) where
  pub ids-update : (ts : List Task) → ids (update_where p f ts) ≡ ids ts
  unfolding ids update_where
  ids-update [] = refl
  ids-update (t ∷ ts) = elim (Bool-cases (p t)) [
    | inl y ↦ rw y (rw (same_id t) (ap (λ r. t.task_id ∷ r) (ids-update ts)))
    | inr n ↦ rw n (ap (λ r. t.task_id ∷ r) (ids-update ts))
  ]

  kept_id : (i : String) (t : Task) → has_id i (set_where p f t) ≡ has_id i t
  kept_id i t = elim (Bool-cases (p t)) [
    | inl y ↦ rw y (ap (λ k. k == i) (same_id t))
    | inr n ↦ rw n refl
  ]

  pub task_of-update :
      (i : String) (ts : List Task)
      → task_of i (update_where p f ts) ≡ Option.map (set_where p f) (task_of i ts)
  unfolding task_of
  task_of-update i ts = find-update_same (has_id i) p f ts (kept_id i)

pub status_of-found :
    (i : String) (ts : List Task) {t : Task}
    → task_of i ts ≡ some t
    → status_of i ts ≡ some t.status
unfolding status_of
status_of-found i ts found = ap (Option.map (λ r. r.status)) found

-- the row behind a status
pub status_of-row :
    (i : String) (ts : List Task) {s : Status}
    → status_of i ts ≡ some s
    → (t : Task) × (task_of i ts ≡ some t) × (t.status ≡ s)
unfolding status_of
status_of-row i ts e = elim (Option-cases (task_of i ts)) [
  | inl missing ↦ absurd (let m = ap (Option.map (λ r. r.status)) missing in ground arith)
  | inr (t, found) ↦ (t, found, let m = ap (Option.map (λ r. r.status)) found in ground arith)
]

abbrev Next : Status → Option Status → Type 0
Next s found = (s' : Status) × (found ≡ some s') × Lifecycle s s'

-- An UPDATE moves every row that it meets.
pub update-Evolves :
    (p : Task → Bool) (f : Task → Task) (ts : List Task)
    → ((t : Task) → (f t).task_id ≡ t.task_id)
    → ((i : String) (t : Task)
        → task_of i ts ≡ some t
        → p t ≡ true
        → Lifecycle t.status (f t).status)
    → Evolves ts (update_where p f ts)
unfolding status_of
update-Evolves p f ts same_id allowed = record {
  same_ids = ids-update p f same_id ts;
  moved = λ i s e.
      let (t, found, same) = status_of-row i ts e in
      let after = task_of-update p f same_id i ts ∙ ap (Option.map (set_where p f)) found in
      let status = status_of-found i (update_where p f ts) after in
      subst (λ x. Next x (status_of i (update_where p f ts))) same
        (elim (Bool-cases (p t)) [
          | inl y ↦ (
            (f t).status,
            status ∙ ap (λ b. some (if b then f t else t).status) y,
            allowed i t found y,
          )
          | inr n ↦ (t.status, status ∙ ap (λ b. some (if b then f t else t).status) n, stay)
        ]);
}

unmoved_row :
    (p : Task → Bool) (f : Task → Task) (t : Task)
    → ((t : Task) → (f t).status ≡ t.status)
    → (set_where p f t).status ≡ t.status
unmoved_row p f t same = elim (Bool-cases (p t)) [ inl y ↦ rw y (same t) | inr n ↦ rw n refl ]

unmoved :
    (p : Task → Bool) (f : Task → Task)
    → ((t : Task) → (f t).status ≡ t.status)
    → (o : Option Task)
    → Option.map (λ r. r.status) (Option.map (set_where p f) o) ≡ Option.map (λ r. r.status) o
unmoved p f same none = refl
unmoved p f same (some t) = ap some (unmoved_row p f t same)

-- An UPDATE that leaves the status alone.
pub update-Quiet :
    (p : Task → Bool) (f : Task → Task) (ts : List Task)
    → ((t : Task) → (f t).task_id ≡ t.task_id)
    → ((t : Task) → (f t).status ≡ t.status)
    → Quiet ts (update_where p f ts)
unfolding status_of
update-Quiet p f ts same_id same = record {
  same_ids = ids-update p f same_id ts;
  kept = λ i.
      ap (Option.map (λ r. r.status)) (task_of-update p f same_id i ts)
      ∙ unmoved p f same (task_of i ts);
}
