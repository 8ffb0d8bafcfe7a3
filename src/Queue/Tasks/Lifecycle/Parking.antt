-- ===== src/Queue/Tasks/Lifecycle/Parking.antt =====
-- A row that waits for an owner is cancelled, a review that nobody may hold is blocked, and a row
-- that is handed to a human is so from any state (src/agent_crew/queue.py,
-- _finish_owner_readmission, _block_one_independent_review, mark_needs_human,
-- _migrate_legacy_task_rows).
use agent_crew.Common.{
  ℕ, String, Bool, true, false, ◌≡◌, refl, sym, ap, ◌∙◌, ◌⊎◌, Option, none, some, List, inl, inr,
  Bool-cases, arith, is_some, if◌then◌else◌, update_where, set_where, string_eq, option_eq,
}
use mathlib.Core.Option
use mathlib.Core.Path.{subst}
use agent_crew.Queue.Tasks.Row.{
  Task, Status, pending, needs_human, cancelled, Db, ErrorInfo, task_of, has_id, append_exec_event,
  set_task,
}
use agent_crew.Queue.Tasks.Requeue.{set_task_in, in_status}
use agent_crew.Queue.Tasks.Cancel.{mark_needs_human, parked_for_human}
use agent_crew.Queue.Tasks.Parking.{
  finish_owner_readmission, awaits, retired, block_one_independent_review, review_blocked_row,
}
use agent_crew.Queue.Tasks.Lifecycle.{
  Lifecycle, stay, called_off, review_blocked, status_of, status_of-found, status_of-row,
  task_of-update, ids-update, ids, update-Evolves,
}
use agent_crew.Queue.Tasks.Lifecycle.Writes.{same_tasks-Silent}
use agent_crew.Queue.Tasks.Lifecycle.Moves.{
  Progress, then_Silent, set_task_in-Progress, same_status-eq,
}
use agent_crew.Queue.Tasks.Lifecycle.Returning.{Progress-refl, if-Progress}

waiting_of : (i j : String) (t : Task) → awaits i j t ≡ true → t.status ≡ needs_human
waiting_of i j t h = same_status-eq t.status needs_human (ground arith)

pub finish_owner_readmission-Progress :
    (i j : String) (db : Db) → Progress db (finish_owner_readmission i j db).0
unfolding finish_owner_readmission
finish_owner_readmission-Progress i j db =
    if-Progress db (is_some (task_of j db.tasks)) _ _
      (update-Evolves (awaits i j) retired db.tasks (λ _. refl)
        (λ k t found hit.
          subst (λ s. Lifecycle s cancelled) (sym (waiting_of i j t hit)) (called_off refl)))
      (Progress-refl db)

pub block_one_independent_review-Progress :
    (i : String) (block : Option ErrorInfo) (now : ℕ) (db : Db)
    → Progress db (block_one_independent_review i block now db).0
unfolding block_one_independent_review append_exec_event
block_one_independent_review-Progress i block now db =
    let moved = set_task_in i pending (review_blocked_row block) db in
    if-Progress db (in_status pending (task_of i db.tasks)) _ _
      (then_Silent db moved (append_exec_event i "independent_review_blocked" now moved)
        (set_task_in-Progress i pending (review_blocked_row block) db (λ _. refl)
          (λ _. review_blocked))
        (same_tasks-Silent moved (append_exec_event i "independent_review_blocked" now moved) refl))
      (Progress-refl db)

-- whether an UPDATE meets the row that was found
abbrev pub meets : (Task → Bool) → Option Task → Bool
meets p none = false
meets p (some t) = p t

abbrev pub HandedOver : (Task → Bool) → List Task → String → Status → Option Status → Type 0
HandedOver p ts i s after =
    (s' : Status) × (after ≡ some s')
    × (Lifecycle s s' ⊎ (meets p (task_of i ts) ≡ true) × (s' ≡ needs_human))

-- an UPDATE to needs_human moves the rows that it meets there, and no other
pub update-HandedOver :
    (p : Task → Bool) (f : Task → Task) (ts : List Task)
    → ((t : Task) → (f t).task_id ≡ t.task_id)
    → ((t : Task) → (f t).status ≡ needs_human)
    → (i : String) (s : Status) → status_of i ts ≡ some s
    → HandedOver p ts i s (status_of i (update_where p f ts))
update-HandedOver p f ts same_id human i s e =
    let (t, found, same) = status_of-row i ts e in
    let after = task_of-update p f same_id i ts ∙ ap (Option.map (set_where p f)) found in
    let status = status_of-found i (update_where p f ts) after in
    elim (Bool-cases (p t)) [
      | inl y ↦ (
        (f t).status,
        status ∙ ap (λ b. some (if b then f t else t).status) y,
        inr (ap (meets p) found ∙ y, human t),
      )
      | inr n ↦
          (s, status ∙ (ap (λ b. some (if b then f t else t).status) n ∙ ap some same), inl stay)
    ]

pub mark_needs_human-ids :
    (j summary : String) (db : Db) → ids (mark_needs_human j summary db).0.tasks ≡ ids db.tasks
unfolding mark_needs_human set_task
mark_needs_human-ids j summary db = elim (Bool-cases (is_some (task_of j db.tasks))) [
  | inl y ↦ rw y (ids-update (has_id j) (parked_for_human summary) (λ _. refl) db.tasks)
  | inr n ↦ rw n refl
]

pub mark_needs_human-HandedOver :
    (j summary : String) (db : Db) (i : String) (s : Status)
    → status_of i db.tasks ≡ some s
    → HandedOver (has_id j) db.tasks i s (status_of i (mark_needs_human j summary db).0.tasks)
unfolding mark_needs_human set_task
mark_needs_human-HandedOver j summary db i s here =
    elim (Bool-cases (is_some (task_of j db.tasks))) [
      | inl y ↦ rw y (
          update-HandedOver (has_id j) (parked_for_human summary) db.tasks (λ _. refl) (λ _. refl) i
            s here)
      | inr n ↦ rw n (s, here, inl stay)
    ]
