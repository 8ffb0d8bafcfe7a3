-- ===== src/Queue/Tasks/Lifecycle/Moves.antt =====
-- The UPDATEs of one row that move it along the graph (src/agent_crew/queue.py).
use agent_crew.Common.{
  ℕ, String, Bool, true, ◌≡◌, refl, sym, ap, ◌∙◌, ◌&&◌, some, List, find-holds, eq_of_beq, ◌==◌,
  nat_eq, string_eq, arith, if◌then◌else◌,
}
use mathlib.Core.Path.{subst}
use agent_crew.Queue.Tasks.Row.{
  Task, Status, pending, in_progress, completed, failed, needs_human, timed_out, blocked, cancelled,
  orphaned, status_rank, same_status, Db, has_id, set_task, task_of,
}
use agent_crew.Queue.Tasks.Requeue.{set_task_in}
use agent_crew.Queue.Tasks.Lifecycle.{
  Lifecycle, Evolves, status_of, status_of-found, update-Evolves, Evolves-before, Evolves-after,
}
use agent_crew.Queue.Tasks.Lifecycle.Writes.{Silent}

of_rank : ℕ → Status
of_rank r =
    if r == 0
    then pending
    else if r == 1
    then in_progress
    else if r == 2
    then completed
    else if r == 3
    then failed
    else if r == 4
    then needs_human
    else if r == 5
    then timed_out
    else if r == 6
    then blocked
    else if r == 7
    then cancelled
    else orphaned

of_rank-rank : (s : Status) → of_rank (status_rank s) ≡ s
unfolding of_rank
of_rank-rank pending = refl
of_rank-rank in_progress = refl
of_rank-rank completed = refl
of_rank-rank failed = refl
of_rank-rank needs_human = refl
of_rank-rank Status.timed_out = refl
of_rank-rank blocked = refl
of_rank-rank cancelled = refl
of_rank-rank orphaned = refl

pub same_status-eq : (a b : Status) → same_status a b ≡ true → a ≡ b
same_status-eq a b h =
    sym (of_rank-rank a) ∙ ap of_rank (eq_of_beq (status_rank a) (status_rank b) h) ∙ of_rank-rank b

abbrev pub Progress : Db → Db → Type 0
Progress db db' = Evolves db.tasks db'.tasks

pub Silent-then : (a b c : Db) → Silent a b → Progress b c → Progress a c
Silent-then a b c p q = Evolves-after p q

pub then_Silent : (a b c : Db) → Progress a b → Silent b c → Progress a c
then_Silent a b c p q = Evolves-before p q

-- a row found under one id and met under another has both
pub found_id :
    (i k : String) (ts : List Task) {t : Task} → task_of k ts ≡ some t → has_id i t ≡ true → k ≡ i
unfolding task_of
found_id i k ts {t = t} found hit =
    sym (eq_of_beq t.task_id k (find-holds (has_id k) ts found)) ∙ eq_of_beq t.task_id i hit

pub set_task-Progress :
    (i : String) (f : Task → Task) (db : Db)
    → ((t : Task) → (f t).task_id ≡ t.task_id)
    → ((t : Task) → status_of i db.tasks ≡ some t.status → Lifecycle t.status (f t).status)
    → Progress db (set_task i f db)
unfolding set_task
set_task-Progress i f db same_id allowed =
    update-Evolves (has_id i) f db.tasks same_id (λ k t found hit. allowed t (
      subst (λ x. status_of x db.tasks ≡ some t.status) (found_id i k db.tasks found hit)
        (status_of-found k db.tasks found)))

both : (a b : Bool) → (a && b) ≡ true → (a ≡ true) × (b ≡ true)
both a b h = ground arith

pub set_task_in-Progress :
    (i : String) (s : Status) (f : Task → Task) (db : Db)
    → ((t : Task) → (f t).task_id ≡ t.task_id)
    → ((t : Task) → Lifecycle s (f t).status)
    → Progress db (set_task_in i s f db)
unfolding set_task_in
set_task_in-Progress i s f db same_id allowed =
    update-Evolves (λ t. t.task_id == i && same_status t.status s) f db.tasks same_id
      (λ k t found hit.
        subst (λ x. Lifecycle x (f t).status)
          (sym (same_status-eq t.status s (both (t.task_id == i) (same_status t.status s) hit).1))
          (allowed t))
