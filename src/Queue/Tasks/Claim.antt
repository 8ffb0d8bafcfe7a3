-- ===== src/Queue/Tasks/Claim.antt =====
-- pending → in_progress behind the CLAIM gate (src/agent_crew/queue.py, claim_through_gate,
-- _record_claim_on). A refusal is `none`: the caller rolls back.
use agent_crew.Common.{ℕ, String, if◌then◌else◌, Option, none, some, ◌∷◌, elem, string_eq}
use agent_crew.Cea.Types.{Receipt, ReceiptState}
use agent_crew.Cea.CallSites.{Config, Mode, enforcing, recording, GateOutcome}
use agent_crew.Queue.Tasks.Row.{
  Task, Db, in_progress, task_of, set_task, append_exec_event, or_none,
}
use agent_crew.Queue.Tasks.Engine.{
  Engine, cea_transition, receipt_for_task, config_for_receipt, cea_claim_gate, report_legacy_row,
}

-- `_record_claim_on`, without the fingerprint of the running code
unfoldable pub record_claim : (task_id : String) → ℕ → (role agent via : String) → Db → Db
unfolding set_task append_exec_event
record_claim task_id at role agent via db = append_exec_event task_id "claimed" at (
    set_task task_id
      (λ t. record t {
        claimed_at = some at;
        claimed_by_role = or_none role;
        claimed_by_agent = or_none agent;
        claimed_via = or_none via;
      })
      db)

-- the mode that the claim of a row is decided under
unfoldable pub claim_config : Engine → (row : Option Task) → (signed : Option Receipt) → Config
unfolding config_for_receipt
claim_config e row (some r) = config_for_receipt e (some r)
claim_config e none none = e.config none
claim_config e (some t) none = e.config (or_none t.project)

-- the nonce of the row's verified grant
unfoldable pub signed_nonce :
    Engine
    → (row : Option Task) → (receipt_id : Option String) → (signed : Option Receipt) → Config
    → Option String
signed_nonce e (some t) rid (some r) config = e.verify_signed r rid t config.enforce_codes
signed_nonce e row rid signed config = none

-- the check of the grant: under enforce its nonce is spent, under test the outcome is logged
unfoldable pub check_signed :
    Mode → (grant : Option String) → (task_id : String) → ℕ → Db → Option Db
unfolding append_exec_event
check_signed Mode.off grant task_id now db = some db
check_signed Mode.test grant task_id now db =
    some (append_exec_event task_id "signed_receipt_check" now db)
check_signed Mode.enforce none task_id now db = none
check_signed Mode.enforce (some nonce) task_id now db =
    if elem nonce db.signed_receipt_spent
    then none
    else some (record db { signed_receipt_spent = nonce ∷ db.signed_receipt_spent })

abbrev pub in_hand : (via : String) → ℕ → Task → Task
in_hand via now t = record t {
  status = in_progress;
  last_activity_at = some now;
  claim_source = via;
}

-- the UPDATE and its log
unfoldable pub mark_claimed : (task_id agent role via : String) → ℕ → Db → Db
unfolding set_task record_claim
mark_claimed task_id agent role via now db =
    record_claim task_id now role agent via (set_task task_id (in_hand via now) db)

-- the UPDATE, and the receipt's transition when there is a gate's answer
unfoldable pub take : Engine → (task_id agent role via : String) → ℕ → Option GateOutcome → Db → Db
unfolding mark_claimed cea_transition
take e task_id agent role via now none db = mark_claimed task_id agent role via now db
take e task_id agent role via now (some g) db =
    cea_transition e g.result.receipt_id ReceiptState.claimed (λ r. r) now
      (mark_claimed task_id agent role via now db)

-- the answer to the gate; a row without a receipt is refused under enforcement and counted else
unfoldable pub after_gate :
    Engine → (task_id agent role via : String) → ℕ → Option GateOutcome → Db → Option Db
unfolding take enforcing recording report_legacy_row
after_gate e task_id agent role via now none db =
    let legacy = e.config none in
    if enforcing legacy none
    then none
    else some (
        take e task_id agent role via now none
          (if recording legacy then report_legacy_row task_id now db else db))
after_gate e task_id agent role via now (some g) db =
    if g.proceed then some (take e task_id agent role via now (some g) db) else none

-- the CLAIM gate, once the grant has been checked
unfoldable pub gate_checked :
    Engine → (task_id agent role via : String) → ℕ → (checked : Option Db) → Option Db
unfolding after_gate cea_claim_gate
gate_checked e task_id agent role via now none = none
gate_checked e task_id agent role via now (some db) =
    after_gate e task_id agent role via now (cea_claim_gate e now task_id agent role db) db

-- the configuration and the verified nonce of a row
unfoldable pub grant_of : Engine → (task_id : String) → Db → Mode × Option String
unfolding task_of receipt_for_task claim_config signed_nonce
grant_of e task_id db =
    let row = task_of task_id db.tasks in
    let (rid, signed) = receipt_for_task task_id db in
    let config = claim_config e row signed in (config.mode, signed_nonce e row rid signed config)

-- `claim_through_gate`
unfoldable pub claim_through_gate : Engine → (task_id agent role via : String) → ℕ → Db → Option Db
unfolding grant_of check_signed gate_checked
claim_through_gate e task_id agent role via now db =
    let (mode, grant) = grant_of e task_id db in
    gate_checked e task_id agent role via now (check_signed mode grant task_id now db)
