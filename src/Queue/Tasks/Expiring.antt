-- ===== src/Queue/Tasks/Expiring.antt =====
-- The sweep over stale tasks (src/agent_crew/queue.py, expire_stale).
use agent_crew.Common.{
  ℕ, String, Bool, true, ◌≡◌, refl, sym, ap, ◌∙◌, some, List, [], ◌∷◌, inl, inr, Bool-cases, arith,
  elem, string_eq, ◌==◌, eq_of_beq, find-holds,
}
use mathlib.Core.Path.{subst}
use agent_crew.Queue.Tasks.Row.{in_progress, cancelled, Db, task_of, has_id, idle_since}
use agent_crew.Queue.Tasks.Engine.{Engine}
use agent_crew.Queue.Tasks.Requeue.{ids_where}
use agent_crew.Queue.Tasks.Cancel.{cancel, cancel_all, expire_stale}
use agent_crew.Queue.Tasks.Lifecycle.{status_of}
use agent_crew.Queue.Tasks.Lifecycle.Keys.{Keyed}
use agent_crew.Queue.Tasks.Lifecycle.Steps.{
  Run, done, then_step, calls, Run-Keyed, cancelled_is_final,
}
use agent_crew.Queue.Tasks.Lifecycle.Calls.{cancels}
use agent_crew.Queue.Tasks.Revocation.{AllOrNothing, cancel_whole}

module _ (e : Engine) where
  -- one cancellation of the sweep keeps the ids, and keeps a cancelled row as it is
  abbrev swept : (cutoff : ℕ) (used_at : String) (now : ℕ) (j : String) (db : Db) → Db
  swept cutoff used_at now j db = (cancel e j (some in_progress) (some cutoff) used_at now db).0

  abbrev swept-Run :
      (cutoff : ℕ) (used_at : String) (now : ℕ) (j : String) (db : Db)
      → Run e db (swept cutoff used_at now j db)
  swept-Run cutoff used_at now j db =
      then_step done (calls (cancels j (some in_progress) (some cutoff) used_at now {db = db}))

  cancel_all-keeps :
      (cutoff : ℕ) (used_at : String) (now : ℕ) (found : List String) (db : Db)
      → Keyed db.tasks
      → (i : String) → status_of i db.tasks ≡ some cancelled
      → status_of i (cancel_all e cutoff used_at now found db).0.tasks ≡ some cancelled
  unfolding cancel_all
  cancel_all-keeps cutoff used_at now [] db k i h = h
  cancel_all-keeps cutoff used_at now (j ∷ found) db k i h =
      let one = swept-Run cutoff used_at now j db in
      cancel_all-keeps cutoff used_at now found (swept cutoff used_at now j db) (Run-Keyed e one k)
        i (cancelled_is_final e one k i refl h)

  -- a cancellation that answers true leaves its row cancelled
  cancelled_by :
      (i : String) (db : Db) (answer : Db × Bool)
      → AllOrNothing i db answer
      → answer.1 ≡ true
      → status_of i answer.0.tasks ≡ some cancelled
  unfolding AllOrNothing task_of
  cancelled_by i db (db', b) (inl (kept, same)) h = absurd (ground arith)
  cancelled_by i db (db', b) (inr (t, reported, found, live, off)) h =
      let own = eq_of_beq t.task_id i (find-holds (has_id i) db.tasks found) in
      ap (λ k. status_of k db'.tasks) (sym own) ∙ off.ended

  cancel_all-ends :
      (cutoff : ℕ) (used_at : String) (now : ℕ) (found : List String) (db : Db)
      → Keyed db.tasks
      → (i : String) → elem i (cancel_all e cutoff used_at now found db).1 ≡ true
      → status_of i (cancel_all e cutoff used_at now found db).0.tasks ≡ some cancelled
  unfolding cancel_all
  cancel_all-ends cutoff used_at now [] db k i h = absurd (ground arith)
  cancel_all-ends cutoff used_at now (j ∷ found) db k i h =
      let one = cancel e j (some in_progress) (some cutoff) used_at now db in
      let keyed = Run-Keyed e (swept-Run cutoff used_at now j db) k in
      let later = cancel_all-ends cutoff used_at now found one.0 keyed i in
      elim (Bool-cases one.1) [
        | inr n ↦ later (subst (λ ids. elem i ids ≡ true) (rw n refl) h)
        | inl y ↦ elim (Bool-cases (j == i)) [
          | inl own ↦
              let m = eq_of_beq j i own in
              cancel_all-keeps cutoff used_at now found one.0 keyed i (
                subst (λ x. status_of x one.0.tasks ≡ some cancelled) m
                  (cancelled_by j db one
                    (cancel_whole e j (some in_progress) (some cutoff) used_at now db) y))
          | inr other ↦ later (ground arith)
        ]
      ]

  -- Every task that the sweep reports as expired is cancelled when the sweep has ended, whatever was
  -- cancelled after it, when no two rows have the same id.
  pub expire_stale-ends :
      (cutoff : ℕ) (used_at : String) (now : ℕ) (seen db : Db)
      → Keyed db.tasks
      → (i : String) → elem i (expire_stale e cutoff used_at now seen db).1 ≡ true
      → status_of i (expire_stale e cutoff used_at now seen db).0.tasks ≡ some cancelled
  unfolding expire_stale
  expire_stale-ends cutoff used_at now seen db =
      cancel_all-ends cutoff used_at now (ids_where (idle_since cutoff) seen.tasks) db
