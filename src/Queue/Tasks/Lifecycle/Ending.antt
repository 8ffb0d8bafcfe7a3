-- ===== src/Queue/Tasks/Lifecycle/Ending.antt =====
-- A cancellation ends a live row and orphans its dependents; a forced failure moves one row
-- (src/agent_crew/queue.py, cancel_with_binding, force_fail, force_fail_pending).
use agent_crew.Common.{
  ℕ, String, Bool, true, false, ◌≡◌, ◌⊎◌, refl, sym, ap, ◌∙◌, Option, none, some, List, inl, inr,
  Bool-cases, arith, if◌then◌else◌, update_where, set_where, string_eq, option_eq,
}
use mathlib.Core.Option
use mathlib.Core.Option.{some_inj}
use mathlib.Core.Path.{subst}
use agent_crew.Cea.Types.{Receipt, ReceiptState}
use agent_crew.Cea.Store.Receipts.{current_receipt, is_terminal}
use agent_crew.Cea.Store.Nonces.{revoke_nonces_for_receipt, cancelled_attempt}
use agent_crew.Queue.Tasks.Row.{
  Task, Status, pending, in_progress, cancelled, orphaned, failed, Db, ErrorInfo, task_of, has_id,
  same_status, is_over, set_task, record_end, nonempty,
}
use agent_crew.Queue.Tasks.Engine.{Engine}
use agent_crew.Queue.Tasks.Cancel.{
  refuses_cancel, revoke_receipt, revoke, depends_on, orphan, orphan_dependents, called_off,
  cancel_row, cancel_of, cancel, failed_row, fail_of, force_fail, force_fail_pending,
}
use agent_crew.Queue.Tasks.Lifecycle.{
  Lifecycle, stay, called_off as off, orphaned_pending, orphaned_running, given_up, timed_out,
  status_of, status_of-found, status_of-row, task_of-update, ids-update,
}
use agent_crew.Queue.Tasks.Lifecycle.Writes.{
  Silent-trans, same_tasks-Silent, cea_transition-tasks, record_end-Silent,
}
use agent_crew.Queue.Tasks.Lifecycle.Moves.{
  Progress, then_Silent, set_task-Progress, same_status-eq, found_id,
}
use agent_crew.Queue.Tasks.Lifecycle.Returning.{Progress-refl}
use agent_crew.Queue.Tasks.Lifecycle.Deferring.{if_known, found_status, own_status}

-- what an UPDATE that sets one status leaves: the row that it met has that status
pub after_update :
    (p : Task → Bool) (f : Task → Task) (ts : List Task) (k : String) {s : Status}
    → ((t : Task) → (f t).task_id ≡ t.task_id)
    → status_of k ts ≡ some s
    → (t : Task) × (task_of k ts ≡ some t)
      × (t.status ≡ s)
      × (status_of k (update_where p f ts) ≡ some (set_where p f t).status)
after_update p f ts k same_id e =
    let (t, found, same) = status_of-row k ts e in
    (
      t,
      found,
      same,
      status_of-found k (update_where p f ts)
          (task_of-update p f same_id k ts ∙ ap (Option.map (set_where p f)) found),
    )

abbrev Orphaned : Status → Status → Type 0
Orphaned s s' = (s' ≡ s) ⊎ ((s' ≡ orphaned) × ((s ≡ pending) ⊎ (s ≡ in_progress)))

Orphaned-of : (i : String) (t : Task) → Orphaned t.status (set_where (depends_on i) orphan t).status
Orphaned-of i t = elim (Bool-cases (depends_on i t)) [
  | inr n ↦ rw n (inl refl)
  | inl y ↦ elim (Bool-cases (same_status t.status pending)) [
    | inl p ↦ rw y (inr (refl, inl (same_status-eq t.status pending p)))
    | inr p ↦ rw y (inr (refl, inr (same_status-eq t.status in_progress (ground arith))))
  ]
]

revoke_receipt-tasks :
    (e : Engine) (rid : String) (now : ℕ) (found : Option Receipt) (db : Db)
    → (revoke_receipt e rid now found db).tasks ≡ db.tasks
unfolding revoke_receipt
revoke_receipt-tasks e rid now none db = refl
revoke_receipt-tasks e rid now (some r) db = elim (Bool-cases (is_terminal r.state)) [
  | inl y ↦ rw y refl
  | inr n ↦ rw n (cea_transition-tasks e rid ReceiptState.revoked (λ x. x) now db)
]

pub revoke-tasks :
    (e : Engine) (rid : Option String) (used_at : String) (now : ℕ) (db : Db)
    → (revoke e rid used_at now db).tasks ≡ db.tasks
unfolding revoke
revoke-tasks e none used_at now db = refl
revoke-tasks e (some rid) used_at now db =
    revoke_receipt-tasks e rid now (current_receipt rid db.receipts)
      (record db { nonces = (revoke_nonces_for_receipt rid cancelled_attempt used_at db.nonces).0 })

-- the moves of a cancellation of a live row: first itself, then its dependents
abbrev Off : Status → Status → Type 0
Off s s' = (s' ≡ s) ⊎ ((s' ≡ cancelled) × (is_over s ≡ false))

off_then_orphaned : (s u v : Status) → Off s u → Orphaned u v → Lifecycle s v
off_then_orphaned s u v (inl same) (inl kept) = subst (λ x. Lifecycle s x) (sym (kept ∙ same)) stay
off_then_orphaned s u v (inl same) (inr (gone, inl p)) =
    subst (λ x. Lifecycle x v) (sym (sym same ∙ p))
      (subst (λ x. Lifecycle pending x) (sym gone) orphaned_pending)
off_then_orphaned s u v (inl same) (inr (gone, inr p)) =
    subst (λ x. Lifecycle x v) (sym (sym same ∙ p))
      (subst (λ x. Lifecycle in_progress x) (sym gone) orphaned_running)
off_then_orphaned s u v (inr (c, live)) (inl kept) =
    subst (λ x. Lifecycle s x) (sym (kept ∙ c)) (off live)
off_then_orphaned s u v (inr (c, live)) (inr (gone, inl p)) =
    absurd (let m = ap (λ x. same_status x cancelled) (sym c ∙ p) in ground arith)
off_then_orphaned s u v (inr (c, live)) (inr (gone, inr p)) =
    absurd (let m = ap (λ x. same_status x cancelled) (sym c ∙ p) in ground arith)

Off-of :
    (i k : String) (db : Db) (t : Task) {s s0 : Status}
    → status_of i db.tasks ≡ some s0
    → is_over s0 ≡ false
    → status_of k db.tasks ≡ some s
    → task_of k db.tasks ≡ some t
    → t.status ≡ s
    → Off s (set_where (has_id i) called_off t).status
Off-of i k db t {s = s} here live e found same = elim (Bool-cases (has_id i t)) [
  | inl y ↦
      let at = subst (λ x. status_of x db.tasks ≡ some s) (found_id i k db.tasks found y) e in
      let m = sym here ∙ at in rw y (inr (refl, sym (ap is_over (some_inj.0 m)) ∙ live))
  | inr n ↦ rw n (inl same)
]

cancel_row-Progress :
    (e : Engine) (t : Task) (used_at : String) (now : ℕ) (db : Db)
    → status_of t.task_id db.tasks ≡ some t.status
    → is_over t.status ≡ false
    → Progress db (cancel_row e t used_at now db)
unfolding cancel_row orphan_dependents set_task
cancel_row-Progress e t used_at now db here live =
    let i = t.task_id in
    let off_db = set_task i called_off db in
    let revoked = revoke e (nonempty t.receipt_id) used_at now off_db in
    let ended = record_end i now "cancelled" false revoked in
    let quiet =
      Silent-trans off_db revoked ended
        (same_tasks-Silent off_db revoked
          (revoke-tasks e (nonempty t.receipt_id) used_at now off_db))
        (record_end-Silent i now "cancelled" false revoked) in
    record {
      same_ids =
          ids-update (depends_on i) orphan (λ _. refl) ended.tasks
          ∙ quiet.same_ids
          ∙ ids-update (has_id i) called_off (λ _. refl) db.tasks;
      moved = λ k s e'.
          let (t1, found, same, after) =
            after_update (has_id i) called_off db.tasks k (λ _. refl) e' in
          let (t2, _, same2, last) =
            after_update (depends_on i) orphan ended.tasks k (λ _. refl) (quiet.kept k ∙ after) in
          (
            (set_where (depends_on i) orphan t2).status,
            last,
            off_then_orphaned s (set_where (has_id i) called_off t1).status
                (set_where (depends_on i) orphan t2).status
                (Off-of i k db t1 here live e' found same)
                (subst (λ x. Orphaned x (set_where (depends_on i) orphan t2).status) same2
                  (Orphaned-of i t2)),
          );
    }

if_refused :
    {A : Type 0} (db : Db) (b : Bool) (x y : Db × A)
    → Progress db x.0
    → (b ≡ false → Progress db y.0)
    → Progress db (if b then x else y).0
if_refused db true x y p q = p
if_refused db false x y p q = q refl

pub live_of :
    (expected : Option Status) (stale : Option ℕ) (t : Task)
    → refuses_cancel expected stale t ≡ false
    → is_over t.status ≡ false
unfolding refuses_cancel
live_of expected stale t h = ground arith

cancel_of-Progress :
    (e : Engine) (i : String) (expected : Option Status) (stale : Option ℕ) (used_at : String)
    (now : ℕ) (row : Option Task) (db : Db)
    → task_of i db.tasks ≡ row
    → Progress db (cancel_of e expected stale used_at now row db).0
unfolding cancel_of
cancel_of-Progress e i expected stale used_at now none db found = Progress-refl db
cancel_of-Progress e i expected stale used_at now (some t) db found =
    if_refused db (refuses_cancel expected stale t) _ _ (Progress-refl db) (λ h.
      cancel_row-Progress e t used_at now db (own_status i db.tasks found)
        (live_of expected stale t h))

pub cancel-Progress :
    (e : Engine) (i : String) (expected : Option Status) (stale : Option ℕ) (used_at : String)
    (now : ℕ) (db : Db)
    → Progress db (cancel e i expected stale used_at now db).0
unfolding cancel
cancel-Progress e i expected stale used_at now db =
    cancel_of-Progress e i expected stale used_at now (task_of i db.tasks) db refl

fail_of-Progress :
    (i : String) (s : Status) (summary : String) (info : Option ErrorInfo) (now : ℕ)
    (row : Option Task) (db : Db)
    → Lifecycle s failed
    → task_of i db.tasks ≡ row
    → Progress db (fail_of s summary info now row db).0
unfolding fail_of
fail_of-Progress i s summary info now none db allowed found = Progress-refl db
fail_of-Progress i s summary info now (some t) db allowed found =
    let moved = set_task t.task_id (failed_row summary info) db in
    if_known db (same_status t.status s) _ _
      (λ h.
        then_Silent db moved (record_end t.task_id now "force_failed" false moved)
          (set_task-Progress t.task_id (failed_row summary info) db (λ _. refl)
            (λ u e.
              subst (λ x. Lifecycle x failed)
                (some_inj.0 (sym (found_status i db.tasks s found h) ∙ e)) allowed))
          (record_end-Silent t.task_id now "force_failed" false moved))
      (Progress-refl db)

pub force_fail-Progress :
    (i summary : String) (info : Option ErrorInfo) (now : ℕ) (db : Db)
    → Progress db (force_fail i summary info now db).0
unfolding force_fail
force_fail-Progress i summary info now db =
    fail_of-Progress i in_progress summary info now (task_of i db.tasks) db timed_out refl

pub force_fail_pending-Progress :
    (i summary : String) (info : Option ErrorInfo) (now : ℕ) (db : Db)
    → Progress db (force_fail_pending i summary info now db).0
unfolding force_fail_pending
force_fail_pending-Progress i summary info now db =
    fail_of-Progress i pending summary info now (task_of i db.tasks) db given_up refl
