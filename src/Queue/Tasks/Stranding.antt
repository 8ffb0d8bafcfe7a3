-- ===== src/Queue/Tasks/Stranding.antt =====
-- A task that was started cannot come back under enforcement: its receipt is RUNNING, the graph of
-- receipts has no edge from RUNNING to HELD, and the requeue drops the refusal
-- (src/agent_crew/queue.py, requeue, requeue_through_gate, _cea_transition_in_txn).
use agent_crew.Common.{
  ℕ, String, Bool, true, false, ◌≡◌, refl, ap, ◌∙◌, Option, none, some, List, inl, inr, Bool-cases,
  arith, is_empty, ◌==◌, string_eq, nat_eq, find-holds, beq_refl, if◌then◌else◌, set_where,
  update_where, ◌&&◌, not,
}
use mathlib.Core.Option
use mathlib.Core.Option.{some_inj}
use agent_crew.Cea.Types.{Receipt, ReceiptState, running}
use agent_crew.Cea.Matrix.{Outcome, claim}
use agent_crew.Cea.Validator.Inputs.{Wire, CurrentInputs}
use agent_crew.Cea.Validator.Judge.{validate, judge}
use agent_crew.Cea.Validator.Checks.{check_lifecycle, point_admits, terminal_code}
use agent_crew.Cea.Validator.Contract.{validate_claim}
use agent_crew.Cea.Store.Receipts.{
  ReceiptRow, err, not_a_transition, current_receipt, append_lifecycle, transition, is_terminal,
}
use agent_crew.Cea.CallSites.{Config, gate, gate_off, gate_claim, recording, enforcing, stops_work}
use agent_crew.Cea.CallSites.Requeue.{
  RequeuePath, RequeueOutcome, gate_requeue, gate_requeue-receipt_id,
}
use agent_crew.Queue.Tasks.Row.{
  Task, Status, pending, in_progress, Db, task_of, has_id, set_task, record_end, same_status,
  nonempty, status_rank,
}
use agent_crew.Queue.Tasks.Engine.{
  Engine, cea_transition, written, receipt_for_task, config_for_receipt, inputs_of, claim_gate_of,
  cea_claim_gate, first_text, receipt_named, receipt_of_row,
}
use agent_crew.Queue.Tasks.Requeue.{
  settle, settle_as, attempt_or, patched, readmit, requeue_through_gate, set_task_in, to_pending,
  requeue_end, readmitted, requeue, in_status,
}
use agent_crew.Queue.Tasks.Lifecycle.Writes.{record_end-Silent, set_task-Silent}
use agent_crew.Queue.Tasks.Lifecycle.Ending.{after_update}
use agent_crew.Queue.Tasks.Lifecycle.{status_of, status_of-found, task_of-update}

append_refused :
    (rid : String) (revise : Receipt → Wire) (rows : List ReceiptRow) (r : Receipt)
    → current_receipt rid rows ≡ some r
    → r.state ≡ running
    → append_lifecycle rid ReceiptState.held revise rows ≡ err not_a_transition
unfolding append_lifecycle transition is_terminal
append_refused rid revise rows r found is_running = ground arith

-- the transition to HELD of a running receipt writes nothing
held_dropped :
    (e : Engine) (r : Receipt) (mutate : Receipt → Receipt) (now : ℕ) (db : Db)
    → current_receipt r.receipt_id db.receipts ≡ some r
    → r.state ≡ running
    → cea_transition e r.receipt_id ReceiptState.held mutate now db ≡ db
unfolding cea_transition
held_dropped e r mutate now db found is_running = elim (Bool-cases (is_empty r.receipt_id)) [
  | inl y ↦ rw y refl
  | inr n ↦ elim (Bool-cases e.keeps_receipts) [
    | inl k ↦
        rw (n, k)
          (ap (written r.receipt_id ReceiptState.held now db)
            (append_refused r.receipt_id (λ x. e.resign (mutate x)) db.receipts r found is_running))
    | inr k ↦ rw (n, k) refl
  ]
]

-- a running receipt is refused at CLAIM, whatever the inputs
claim_blocked :
    (parse_rfc3339 : String → Option ℕ) (r : Receipt) (claimant : Option String)
    (cur : CurrentInputs) (config : Config)
    → r.state ≡ running
    → stops_work config.mode ≡ true
    → config.enforce_codes ≡ none
    → (gate_claim parse_rfc3339 r claimant cur config).proceed ≡ false
unfolding gate_claim gate enforcing validate_claim validate judge check_lifecycle point_admits
    terminal_code
claim_blocked parse_rfc3339 r claimant cur config is_running on all = rw (is_running, on, all) refl

-- a row's receipt id after an UPDATE that keeps it
row_kept :
    (p : Task → Bool) (f : Task → Task) (ts : List Task) (i : String) (rid : Option String)
    → ((t : Task) → (f t).task_id ≡ t.task_id)
    → ((t : Task) → (f t).receipt_id ≡ t.receipt_id)
    → (t : Task) × (task_of i ts ≡ some t) × (t.receipt_id ≡ rid)
    → (t : Task) × (task_of i (update_where p f ts) ≡ some t) × (t.receipt_id ≡ rid)
row_kept p f ts i rid same_id same (t, found, has) = (
  set_where p f t,
  task_of-update p f same_id i ts ∙ ap (Option.map (set_where p f)) found,
  elim (Bool-cases (p t)) [ inl y ↦ rw y (same t ∙ has) | inr n ↦ rw n has ],
)

found_receipt :
    (i rid : String) (db : Db) (t : Task)
    → task_of i db.tasks ≡ some t
    → nonempty t.receipt_id ≡ some rid
    → (receipt_for_task i db).1 ≡ current_receipt rid db.receipts
unfolding receipt_for_task
found_receipt i rid db t found has =
    ap (λ o. (receipt_of_row o db).1) found ∙ ap (λ o. (receipt_named o db).1) has

settle_as-same :
    (e : Engine) (o : Outcome) (g : RequeueOutcome) (now : ℕ) (db : Db) (r : Receipt)
    → o ≡ Outcome.proceed
    → g.receipt_id ≡ r.receipt_id
    → current_receipt r.receipt_id db.receipts ≡ some r
    → r.state ≡ running
    → settle_as e o g now db ≡ db
unfolding settle_as
settle_as-same e Outcome.proceed g now db r p same found started =
    ap (λ k. cea_transition e k ReceiptState.held (attempt_or g.attempt) now db) same
    ∙ held_dropped e r (attempt_or g.attempt) now db found started
settle_as-same e Outcome.held g now db r p same found started = absurd (ground arith)
settle_as-same e Outcome.re_admit g now db r p same found started = absurd (ground arith)
settle_as-same e Outcome.block g now db r p same found started = absurd (ground arith)
settle_as-same e Outcome.human_gate g now db r p same found started = absurd (ground arith)

running_refused :
    (e : Engine) (now : ℕ) (agent role : String) (r : Receipt)
    → r.state ≡ running
    → stops_work (config_for_receipt e (some r)).mode ≡ true
    → (config_for_receipt e (some r)).enforce_codes ≡ none
    → Option.map (λ g. g.proceed) (claim_gate_of e now agent role (some r)) ≡ some false
unfolding claim_gate_of recording
running_refused e now agent role r started on all =
    let config = config_for_receipt e (some r) in
    let claimant = first_text agent role in
    let gated =
      gate_claim e.parse_rfc3339 r claimant (record (inputs_of e r now) { claimant = claimant })
        config in
    ap (λ b. Option.map (λ g. g.proceed) (if not b then some (gate_off claim r) else some gated)) on
    ∙ ap some (
        claim_blocked e.parse_rfc3339 r claimant
          (record (inputs_of e r now) { claimant = claimant }) config started on all)

status_in :
    (i : String) (s s' : Status) (f : Task → Task) (db : Db)
    → ((t : Task) → (f t).task_id ≡ t.task_id)
    → ((t : Task) → (f t).status ≡ s')
    → status_of i db.tasks ≡ some s
    → status_of i (set_task_in i s f db).tasks ≡ some s'
unfolding set_task_in task_of
status_in i s s' f db same_id sets here =
    let p = λ (t : Task). t.task_id == i && same_status t.status s in
    let (t, found, same, after) = after_update p f db.tasks i same_id here in
    let hit : p t ≡ true =
      rw (find-holds (has_id i) db.tasks found)
        (ap (λ x. same_status x s) same ∙ beq_refl (status_rank s)) in
    after ∙ ap some (ap (λ b. (if b then f t else t).status) hit ∙ sets t)

-- what the gate of `requeue` answers about a receipt
abbrev pub answer_to : Engine → ℕ → Receipt → RequeueOutcome
answer_to e now r =
    gate_requeue (some r) RequeuePath.requeue (inputs_of e r now) (config_for_receipt e (some r))

module _ (e : Engine) (i : String) (now : ℕ) (db : Db) (t : Task) (r : Receipt)
    (row : task_of i db.tasks ≡ some t) (runs : t.status ≡ in_progress)
    (names : nonempty t.receipt_id ≡ some r.receipt_id)
    (found : current_receipt r.receipt_id db.receipts ≡ some r) (started : r.state ≡ running)
    (reuse : (answer_to e now r).outcome ≡ Outcome.proceed) where
  abbrev answer : RequeueOutcome
  answer = answer_to e now r

  abbrev settled : Db
  settled = set_task i (patched answer) (settle e answer now db)

  gated_here : requeue_through_gate e RequeuePath.requeue i now db ≡ (settled, some answer)
  unfolding requeue_through_gate readmit
  gated_here =
      ap (λ o. readmit e RequeuePath.requeue i now o db)
        (found_receipt i r.receipt_id db t row names ∙ found)

  settle-same : settle e answer now db ≡ db
  settle-same =
      settle_as-same e answer.outcome answer now db r reuse
        (gate_requeue-receipt_id r RequeuePath.requeue (inputs_of e r now)
          (config_for_receipt e (some r)))
        found started

  -- the database after the requeue
  abbrev after : Db
  after =
      record_end i now "requeued" false
        (set_task_in i in_progress to_pending (set_task i (patched answer) db))

  requeue-after : requeue e i now db ≡ after
  unfolding requeue
  requeue-after =
      let claimed = ap (in_status in_progress) row ∙ ap (λ s. same_status s in_progress) runs in
      ap (λ b. requeue_end i now b (requeue_through_gate e RequeuePath.requeue i now db) db) claimed
      ∙ (ap (λ g. requeue_end i now true g db) gated_here
          ∙ ap (λ d. readmitted i now (set_task i (patched answer) d)) settle-same)

  -- the row is still that of the receipt
  row_after : (u : Task) × (task_of i after.tasks ≡ some u) × (u.receipt_id ≡ t.receipt_id)
  unfolding record_end set_task set_task_in
  row_after =
      row_kept (has_id i) _ _ i t.receipt_id (λ _. refl) (λ _. refl)
        (row_kept (λ u. u.task_id == i && same_status u.status in_progress) to_pending _ i
          t.receipt_id (λ _. refl) (λ _. refl)
          (row_kept (has_id i) (patched answer) db.tasks i t.receipt_id (λ _. refl) (λ _. refl)
            (t, row, refl)))

  receipt_after : (receipt_for_task i after).1 ≡ some r
  unfolding record_end set_task set_task_in
  receipt_after =
      let (u, here, same) = row_after in
      found_receipt i r.receipt_id after u here (ap nonempty same ∙ names) ∙ found

  pending_after : status_of i after.tasks ≡ some pending
  pending_after =
      let patched_db = set_task i (patched answer) db in
      let back = set_task_in i in_progress to_pending patched_db in
      (record_end-Silent i now "requeued" false back).kept i
      ∙ status_in i in_progress pending to_pending patched_db (λ _. refl) (λ _. refl)
          ((set_task-Silent i (patched answer) db (λ _. refl) (λ _. refl)).kept i
            ∙ (status_of-found i db.tasks row ∙ ap some runs))

  -- `requeue` of a task whose receipt is RUNNING, on an answer that would reuse the receipt: the row
  -- is pending again and its receipt is still RUNNING, and while the mode enforces every code the
  -- gate at CLAIM refuses the row at any later time, to anyone.
  pub requeue_strands :
      (later : ℕ) (agent role : String)
      → stops_work (config_for_receipt e (some r)).mode ≡ true
      → (config_for_receipt e (some r)).enforce_codes ≡ none
      → (status_of i (requeue e i now db).tasks ≡ some pending)
        × ((receipt_for_task i (requeue e i now db)).1 ≡ some r)
        × (Option.map (λ g. g.proceed) (cea_claim_gate e later i agent role (requeue e i now db))
            ≡ some false)
  unfolding cea_claim_gate
  requeue_strands later agent role on all = (
    ap (λ d. status_of i d.tasks) requeue-after ∙ pending_after,
    ap (λ d. (receipt_for_task i d).1) requeue-after ∙ receipt_after,
    ap
          (λ d.
            Option.map (λ g. g.proceed) (claim_gate_of e later agent role (receipt_for_task i d).1))
          requeue-after
        ∙ ap (λ o. Option.map (λ g. g.proceed) (claim_gate_of e later agent role o)) receipt_after
        ∙ running_refused e later agent role r started on all,
  )
