-- ===== src/Queue/Tasks/Lifecycle/Resetting.antt =====
-- The sweep that gives stale rows back moves rows from in_progress to pending
-- (src/agent_crew/queue.py, reset_stale_to_pending).
use agent_crew.Common.{
  ℕ, String, Bool, true, false, ◌≡◌, ◌⊎◌, refl, sym, ap, ◌∙◌, some, List, [], ◌∷◌, inl, inr,
  Bool-cases, arith, is_some, if◌then◌else◌, elem, eq_of_beq, beq_refl, string_eq, ◌==◌, find_where,
  set_where,
}
use mathlib.Core.Path.{subst}
use mathlib.Core.Option.{some_inj}
use agent_crew.Cea.CallSites.Requeue.{RequeuePath}
use agent_crew.Queue.Tasks.Row.{
  Task, Status, pending, in_progress, Db, task_of, has_id, set_task, record_end, idle_since,
}
use agent_crew.Queue.Tasks.Engine.{Engine}
use agent_crew.Queue.Tasks.Requeue.{
  requeue_through_gate, ids_where, readmit_all, reset_row, reset_all, reset_stale_to_pending,
}
use agent_crew.Queue.Tasks.Lifecycle.{
  Quiet-refl, Lifecycle, stay, requeued, status_of, status_of-found, ids, ids-update,
}
use agent_crew.Queue.Tasks.Lifecycle.Writes.{
  Silent, Silent-trans, record_end-Silent, requeue_through_gate-Silent,
}
use agent_crew.Queue.Tasks.Lifecycle.Moves.{Progress, same_status-eq, found_id}
use agent_crew.Queue.Tasks.Lifecycle.Keys.{Keyed, distinct, listed}
use agent_crew.Queue.Tasks.Lifecycle.Ending.{after_update}

-- a list of ids, or a tail of it
abbrev Reset : String → List String → Status → Status → Type 0
Reset k is s s' = (s' ≡ s) ⊎ ((s' ≡ pending) × (elem k is ≡ true))

elem-head : (i k : String) (is : List String) → k ≡ i → elem k (i ∷ is) ≡ true
elem-head i k is e = rw (subst (λ x. (i == x) ≡ true) (sym e) (beq_refl i)) refl

elem-tail : (i k : String) (is : List String) → elem k is ≡ true → elem k (i ∷ is) ≡ true
elem-tail i k is h = elim (Bool-cases (i == k)) [ inl y ↦ rw y refl | inr n ↦ rw n h ]

both_of :
    (i k : String) (is : List String) (s u v : Status)
    → Reset k (i ∷ is) s u
    → Reset k is u v
    → Reset k (i ∷ is) s v
both_of i k is s u v first (inl same) = subst (λ x. Reset k (i ∷ is) s x) (sym same) first
both_of i k is s u v first (inr (p, h)) = inr (p, elem-tail i k is h)

step_of :
    (now : ℕ) (i k : String) (is : List String) (ts : List Task) (t : Task)
    → task_of k ts ≡ some t
    → Reset k (i ∷ is) t.status (set_where (has_id i) (reset_row now) t).status
step_of now i k is ts t found = elim (Bool-cases (has_id i t)) [
  | inl y ↦ rw y (inr (refl, elem-head i k is (found_id i k ts found y)))
  | inr n ↦ rw n (inl refl)
]

pub reset_all-ids :
    (now : ℕ) (is : List String) (db : Db) → ids (reset_all now is db).tasks ≡ ids db.tasks
unfolding reset_all set_task
reset_all-ids now [] db = refl
reset_all-ids now (i ∷ is) db =
    let moved = set_task i (reset_row now) db in
    let ended = record_end i now "requeued" false moved in
    reset_all-ids now is ended
    ∙ (record_end-Silent i now "requeued" false moved).same_ids
    ∙ ids-update (has_id i) (reset_row now) (λ _. refl) db.tasks

reset_all-Reset :
    (now : ℕ) (is : List String) (db : Db) (k : String) (s : Status)
    → status_of k db.tasks ≡ some s
    → (s' : Status) × (status_of k (reset_all now is db).tasks ≡ some s') × Reset k is s s'
unfolding reset_all set_task
reset_all-Reset now [] db k s e = (s, e, inl refl)
reset_all-Reset now (i ∷ is) db k s e =
    let moved = set_task i (reset_row now) db in
    let ended = record_end i now "requeued" false moved in
    let (t, found, same, after) =
      after_update (has_id i) (reset_row now) db.tasks k (λ _. refl) e in
    let u = (set_where (has_id i) (reset_row now) t).status in
    let (s', last, rest) =
      reset_all-Reset now is ended k u
        ((record_end-Silent i now "requeued" false moved).kept k ∙ after) in
    (
      s',
      last,
      both_of i k is s u s'
          (subst (λ x. Reset k (i ∷ is) x u) same (step_of now i k is db.tasks t found)) rest,
    )

readmit_all-Silent :
    (e : Engine) (now : ℕ) (is : List String) (db : Db) → Silent db (readmit_all e now is db).0
unfolding readmit_all
readmit_all-Silent e now [] db = Quiet-refl
readmit_all-Silent e now (i ∷ is) db =
    let gated = (requeue_through_gate e RequeuePath.reset_stale_to_pending i now db).0 in
    Silent-trans db gated (readmit_all e now is gated).0
      (requeue_through_gate-Silent e RequeuePath.reset_stale_to_pending i now db)
      (readmit_all-Silent e now is gated)

elem_if :
    (b : Bool) (i k : String) (is js : List String)
    → (elem k js ≡ true → elem k is ≡ true)
    → elem k (if b then i ∷ js else js) ≡ true
    → elem k (i ∷ is) ≡ true
elem_if true i k is js sub h = elim (Bool-cases (i == k)) [
  | inl y ↦ rw y refl
  | inr n ↦ rw n (sub (ground arith))
]
elem_if false i k is js sub h = elem-tail i k is (sub h)

readmit_all-elem :
    (e : Engine) (now : ℕ) (is : List String) (db : Db) (k : String)
    → elem k (readmit_all e now is db).1 ≡ true
    → elem k is ≡ true
unfolding readmit_all
readmit_all-elem e now [] db k h = h
readmit_all-elem e now (i ∷ is) db k h =
    let (gated, answer) = requeue_through_gate e RequeuePath.reset_stale_to_pending i now db in
    elem_if (is_some answer) i k is (readmit_all e now is gated).1
      (readmit_all-elem e now is gated k) h

-- an id that a condition selects is the id of a row that meets it
ids_where-row :
    (p : Task → Bool) (ts : List Task) (k : String)
    → Keyed ts
    → elem k (ids_where p ts) ≡ true
    → (t : Task) × (task_of k ts ≡ some t) × (p t ≡ true)
unfolding ids_where task_of find_where distinct ids
ids_where-row p [] k keyed h = absurd (ground arith)
ids_where-row p (u ∷ us) k keyed h =
    let fresh : elem u.task_id (ids us) ≡ false = ground arith in
    let keyed_rest : Keyed us = ground arith in
    elim (Bool-cases (u.task_id == k)) [
      | inl y ↦ elim (Bool-cases (p u)) [
        | inl holds ↦ (u, rw y refl, holds)
        | inr fails ↦
            let (t, found, holds) = ids_where-row p us k keyed_rest (ground arith) in
            let l = listed k us found in
            let s = ap (λ i. elem i (ids us)) (eq_of_beq u.task_id k y) in
            absurd (let c = sym l ∙ (sym s ∙ fresh) in ground arith)
      ]
      | inr n ↦ elim (Bool-cases (p u)) [
        | inl holds ↦
            let (t, found, held) = ids_where-row p us k keyed_rest (ground arith) in
            (t, rw n found, held)
        | inr fails ↦
            let (t, found, held) = ids_where-row p us k keyed_rest (ground arith) in
            (t, rw n found, held)
      ]
    ]

idle-in_progress : (cutoff : ℕ) (t : Task) → idle_since cutoff t ≡ true → t.status ≡ in_progress
idle-in_progress cutoff t h = same_status-eq t.status in_progress (ground arith)

pub reset_stale-Progress :
    (e : Engine) (cutoff now : ℕ) (db : Db)
    → Keyed db.tasks
    → Progress db (reset_stale_to_pending e cutoff now db).0
unfolding reset_stale_to_pending
reset_stale-Progress e cutoff now db keyed =
    let found = ids_where (idle_since cutoff) db.tasks in
    let (gated, is) = readmit_all e now found db in
    let silent = readmit_all-Silent e now found db in
    record {
      same_ids = reset_all-ids now is gated ∙ silent.same_ids;
      moved = λ k s e'.
          let (s', last, how) = reset_all-Reset now is gated k s (silent.kept k ∙ e') in
          (
            s',
            last,
            elim how [
              | inl same ↦ subst (λ x. Lifecycle s x) (sym same) stay
              | inr (p, h) ↦
                  let (t, row, idle) =
                    ids_where-row (idle_since cutoff) db.tasks k keyed
                      (readmit_all-elem e now found db k h) in
                  subst (λ x. Lifecycle s x) (sym p)
                    (subst (λ x. Lifecycle x pending)
                      (sym (
                        some_inj.0 (sym e' ∙ status_of-found k db.tasks row)
                        ∙ idle-in_progress cutoff t idle))
                      requeued)
            ],
          );
    }
